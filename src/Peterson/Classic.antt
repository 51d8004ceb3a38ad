-- ===== src/Peterson/Classic.antt =====
-- peterson.cpp, `enter` and `exit`: mutual exclusion, progress and bounded waiting.
use modern_cpp_ds.Common.{
  ℕ, ◌+◌, ◌≤◌, ◌≡◌, refl, ◌⊎◌, Bool, true, false, ◌&&◌, List, [], ◌∷◌, arith, if◌then◌else◌,
}
use modern_cpp_ds.Peterson.{
  Process, first, second, other, same, Pc, outside, testing, reading, passed, critical, leaving,
  World, interested, pc, start, access, step, run,
}

abbrev pub is_outside : Pc → Bool
is_outside outside = true
is_outside _ = false

-- At the loop of `enter`.
abbrev pub waits : Pc → Bool
waits testing = true
waits reading = true
waits _ = false

abbrev pub is_critical : Pc → Bool
is_critical critical = true
is_critical _ = false

-- `passed` and `leaving` belong to `enter_region` and `leave_region`.
abbrev pub is_classic : Pc → Bool
is_classic passed = false
is_classic leaving = false
is_classic _ = true

-- What process `p` relies on, while the other moves.
pub record Side (w : World) (p : Process) : Type 0 where
  pub classic : is_classic (pc w p) ≡ true
  pub flag : interested w p ≡ (if is_outside (pc w p) then false else true)
  pub favoured : is_critical (pc w p) ≡ true → waits (pc w (other p)) ≡ true → w.turn ≡ p
  pub alone : is_critical (pc w p) ≡ true → is_critical (pc w (other p)) ≡ false

pub record Inv (w : World) : Type 0 where
  pub side_first : Side w first
  pub side_second : Side w second

pub access-Inv : (p : Process) (c : Pc) (w : World) → pc w p ≡ c → Inv w → Inv (access p c w)
unfolding access
access-Inv first outside w e v = ground arith
access-Inv _ _ w e v = ground arith

pub step-Inv : (p : Process) (w : World) → Inv w → Inv (step p w)
unfolding step
step-Inv p w v = access-Inv p (pc w p) w refl v

pub run-Inv : (ps : List Process) (w : World) → Inv w → Inv (run ps w)
unfolding run
run-Inv [] w v = v
run-Inv (p ∷ ps) w v = run-Inv ps (step p w) (step-Inv p w v)

pub start-Inv : Inv start
start-Inv = ground arith

-- In every state that a schedule reaches, the two processes are not both in the critical section.
pub mutual_exclusion :
    (ps : List Process) (p : Process)
    → is_critical (pc (run ps start) p) ≡ true
    → is_critical (pc (run ps start) (other p)) ≡ false
mutual_exclusion ps first h = (run-Inv ps start start-Inv).side_first.alone h
mutual_exclusion ps second h = (run-Inv ps start start-Inv).side_second.alone h

-- Two further steps of its own.
abbrev pub twice : Process → List Process
twice p = p ∷ p ∷ []

enters :
    (p : Process) (w : World)
    → waits (pc w p) ≡ true
    → w.turn ≡ p
    → (pc (step p w) p ≡ critical) ⊎ (pc (step p (step p w)) p ≡ critical)
unfolding step access
enters first w h t = ground arith
enters second w h t = ground arith

-- Progress: when both processes wait at the loop, the one whose turn it is enters within two steps
-- of its own, whatever schedule led there.
pub no_deadlock :
    (ps : List Process)
    → waits (pc (run ps start) first) ≡ true
    → waits (pc (run ps start) second) ≡ true
    → let w = run ps start in
      (pc (step w.turn w) w.turn ≡ critical) ⊎ (pc (step w.turn (step w.turn w)) w.turn ≡ critical)
no_deadlock ps h k = enters_turn (run ps start) (run ps start).turn refl h k
  where
    enters_turn :
        (w : World) (p : Process)
        → w.turn ≡ p
        → waits (pc w first) ≡ true
        → waits (pc w second) ≡ true
        → (pc (step p w) p ≡ critical) ⊎ (pc (step p (step p w)) p ≡ critical)
    enters_turn w first t a b = enters first w a t
    enters_turn w second t a b = enters second w b t

-- How often process `p` enters the critical section while the schedule `ps` runs.
abbrev pub entered : Pc → Pc → ℕ
entered critical _ = 0
entered _ critical = 1
entered _ _ = 0

unfoldable pub entries : Process → List Process → World → ℕ
unfolding step
entries p [] w = 0
entries p (q ∷ qs) w = entered (pc w p) (pc (step q w) p) + entries p qs (step q w)

-- The entries that the other process may still make while `p` waits.
abbrev pub budget : Process → World → ℕ
budget p w = if waits (pc w (other p)) && same w.turn (other p) then 1 else 0

overtake_step :
    (p q : Process) (w : World)
    → Inv w
    → waits (pc w p) ≡ true
    → entered (pc w p) (pc (step q w) p) ≡ 0
    → (waits (pc (step q w) p) ≡ true)
      × (entered (pc w (other p)) (pc (step q w) (other p)) + budget p (step q w) ≤ budget p w)
unfolding step access
overtake_step first first w v h n = ground arith
overtake_step first second w v h n = ground arith
overtake_step second first w v h n = ground arith
overtake_step second second w v h n = ground arith

overtakes :
    (p : Process) (qs : List Process) (w : World)
    → Inv w
    → waits (pc w p) ≡ true
    → entries p qs w ≡ 0
    → entries (other p) qs w ≤ budget p w
unfolding entries
overtakes p [] w v h n = omega arith
overtakes p (q ∷ qs) w v h n =
    let kept = overtake_step p q w v h (omega arith) in
    omega (arith, kept.1, overtakes p qs (step q w) (step-Inv q w v) kept.0 (omega arith))

-- Bounded waiting: from any reached state in which `p` waits, for as long as `p` does not enter,
-- the other process enters at most once, whatever the schedule.
pub bounded_waiting :
    (ps qs : List Process) (p : Process)
    → waits (pc (run ps start) p) ≡ true
    → entries p qs (run ps start) ≡ 0
    → entries (other p) qs (run ps start) ≤ 1
bounded_waiting ps qs p h n = omega (
  arith,
  overtakes p qs (run ps start) (run-Inv ps start start-Inv) h n,
  at_most_one (waits (pc (run ps start) (other p)) && same (run ps start).turn (other p)),
)
  where
    at_most_one : (b : Bool) → (if b then 1 else 0) ≤ 1
    at_most_one true = omega arith
    at_most_one false = omega arith
