-- ===== src/Peterson/Tweaked.antt =====
-- peterson.cpp, `enter_region` and `leave_region`: the variant that the file calls "my approach".
use modern_cpp_ds.Common.{◌≡◌, false, List, [], ◌∷◌, arith}
use modern_cpp_ds.Peterson.{Process, first, second, other, outside, critical, World, pc, region_run}

-- Both processes are outside.
pub record IsIdle (w : World) : Type 0 where
  pub out_first : w.pc_first ≡ outside
  pub out_second : w.pc_second ≡ outside
  pub calm_first : w.interested_first ≡ false
  pub calm_second : w.interested_second ≡ false

-- The other process passes the loop while nobody else is interested; `p`, whose turn it is, passes
-- it too; then both store `turn`.
abbrev pub overlap : Process → List Process
overlap p = other p ∷ other p ∷ p ∷ p ∷ p ∷ p ∷ other p ∷ []

-- Mutual exclusion fails: from every state in which both processes are outside, the process whose
-- turn it is and the other one are brought into the critical section together.
pub both_critical :
    (p : Process) (w : World)
    → IsIdle w
    → w.turn ≡ p
    → (pc (region_run (overlap p) w) p ≡ critical)
      × (pc (region_run (overlap p) w) (other p) ≡ critical)
unfolding region_run
both_critical first w v t = ground arith
both_critical second w v t = ground arith

-- One process alone, from outside, through the critical section and out again.
abbrev pub solo : Process → List Process
solo p = p ∷ p ∷ p ∷ p ∷ p ∷ []

-- Without contention the variant works: a process that runs alone enters and leaves, and hands the
-- turn to the other process.
pub solo_lem :
    (p : Process) (w : World)
    → IsIdle w
    → (pc (region_run (p ∷ p ∷ p ∷ []) w) p ≡ critical)
      × IsIdle (region_run (solo p) w)
      × ((region_run (solo p) w).turn ≡ other p)
unfolding region_run
solo_lem first w v = ground arith
solo_lem second w v = ground arith
