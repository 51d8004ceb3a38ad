-- ===== src/Mutex/Tests.antt =====
-- mutex.cpp: the theorems at concrete schedules.
use modern_cpp_ds.Common.{ℕ, ◌≡◌, ◌<◌, refl, List, [], ◌∷◌, arith, ℕ_discrete}
use modern_cpp_ds.Mutex.Fair
use modern_cpp_ds.Mutex.Fair.{ticket_mutual_exclusion, ticket_no_deadlock}

abbrev winner : ℕ
winner = 1

abbrev loser : ℕ
loser = 2

-- Thread 1 holds the flag, thread 2 has found it set.
abbrev contended : List ℕ
contended = 1 ∷ 2 ∷ 1 ∷ 2 ∷ []

ticket_holder : (Fair.run contended Fair.start).pc 1 ≡ Fair.critical 0
unfolding Fair.run ℕ_discrete
ticket_holder = refl

ticket_mutual_exclusion_example :
    ((Fair.run contended Fair.start).pc 2 ≡ Fair.critical 1 → winner ≡ loser)
    × ((Fair.run contended Fair.start).pc 2 ≡ Fair.spinning 1 → 0 < 1)
ticket_mutual_exclusion_example =
    ticket_mutual_exclusion contended winner loser 0 1 (omega arith) ticket_holder
