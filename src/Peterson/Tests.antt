-- ===== src/Peterson/Tests.antt =====
-- peterson.cpp: the theorems at concrete schedules.
use modern_cpp_ds.Common.{◌≡◌, refl, ◌≤◌, true, false, List, [], ◌∷◌}
use modern_cpp_ds.Peterson.{first, second, Process, pc, start, run}
use modern_cpp_ds.Peterson.Classic.{is_critical, waits, entries, mutual_exclusion, bounded_waiting}

-- The first process enters while the second one waits.
abbrev contended : List Process
contended = first ∷ first ∷ second ∷ second ∷ first ∷ first ∷ []

first_enters : is_critical (pc (run contended start) first) ≡ true
unfolding run
first_enters = refl

mutual_exclusion_example : is_critical (pc (run contended start) second) ≡ false
mutual_exclusion_example = mutual_exclusion contended first first_enters

-- Both stand at the loop, and it is the turn of the first.
abbrev both_wait : List Process
both_wait = first ∷ first ∷ second ∷ second ∷ []

second_waits : waits (pc (run both_wait start) second) ≡ true
unfolding run
second_waits = refl

-- While the second waits, the first enters, leaves and comes back.
abbrev overtaking : List Process
overtaking = first ∷ first ∷ first ∷ first ∷ first ∷ second ∷ first ∷ []

second_stays_out : entries second overtaking (run both_wait start) ≡ 0
unfolding run entries
second_stays_out = refl

bounded_waiting_example : entries first overtaking (run both_wait start) ≤ 1
bounded_waiting_example = bounded_waiting both_wait overtaking second second_waits second_stays_out
