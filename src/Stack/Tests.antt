-- ===== src/Stack/Tests.antt =====
-- stack_lockfree.cpp: the theorems at a concrete schedule.
use modern_cpp_ds.Common.{ℕ, false, List, [], ◌∷◌}
use modern_cpp_ds.Stack.{Action, begin_push, go, empty, run}
use modern_cpp_ds.Stack.Chain.{Cells, values}
use modern_cpp_ds.Stack.Inv.{Inv}
use modern_cpp_ds.Stack.Linear.{History, effects, linearizable}

-- Two threads push 5 and 7; the exchange of thread 1 fails once.
abbrev two_pushes : List (ℕ × Action ℕ)
two_pushes =
    (0, begin_push 5 10 0)
    ∷ (1, begin_push 7 20 3)
    ∷ (0, go false)
    ∷ (1, go false)
    ∷ (0, go false)
    ∷ (1, go false)
    ∷ (1, go false)
    ∷ []

linearizable_example :
    (cs : Cells ℕ) × Inv cs (run two_pushes empty)
    × History (effects two_pushes empty) [] (values cs)
linearizable_example = linearizable two_pushes
