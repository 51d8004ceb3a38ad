-- ===== src/TsQueue/Tests.antt =====
-- c++_features_experiment/threadsafe_queue.cpp: the theorems at concrete runs.
use modern_cpp_ds.Common.{ℕ, ◌≤◌, ◌<◌, List, [], ◌∷◌, length, arith}
use modern_cpp_ds.TsQueue.{Action, add_elem, wait_and_pop, create, run}
use modern_cpp_ds.TsQueue.Wake.{nobody_starves}

abbrev two_wait : List (Action ℕ)
two_wait = wait_and_pop ∷ wait_and_pop ∷ add_elem 5 ∷ []

one_asleep : 0 < (run two_wait create).asleep
unfolding run
one_asleep = omega arith

nobody_starves_example : length (run two_wait create).safe_queue ≤ (run two_wait create).woken
nobody_starves_example = nobody_starves two_wait one_asleep
