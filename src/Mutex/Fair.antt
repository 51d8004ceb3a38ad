-- ===== src/Mutex/Fair.antt =====
-- mutex.cpp, `fairlock::mutex`: tickets, served in order. `std::atomic<int>` wraps at 2 ^ 32 values;
-- the theorems are about fewer than 2 ^ 31 calls, so that no counter overflows.
use modern_cpp_ds.Common.{
  ℕ, suc, ◌+◌, ◌%◌, ◌^◌, ◌≤◌, ◌<◌, ◌≡◌, refl, Option, none, some, List, [], ◌∷◌, arith, length, ite,
  ℕ_discrete, dec_lt, if◌then◌else◌, ◌==◌,
}

abbrev pub int : ℕ → ℕ
int n = n % 2 ^ 32

-- Outside, in the loop of `lock` with its ticket, or between `lock` and `unlock`.
pub data Pc : Type 0 where
  idle : Pc
  spinning : (my_turn : ℕ) → Pc
  critical : (my_turn : ℕ) → Pc

pub record World : Type 0 where
  pub ticket : ℕ
  pub turn : ℕ
  pub pc : ℕ → Pc

abbrev pub set_pc : ℕ → Pc → (ℕ → Pc) → ℕ → Pc
set_pc i p pc j = ite (ℕ_discrete i j) p (pc j)

-- The next access of thread `i`, which stands at the given place.
unfoldable pub access : ℕ → Pc → World → World
access i idle w = record w { ticket = int (w.ticket + 1); pc = set_pc i (spinning w.ticket) w.pc }
access i (spinning t) w = record w {
  pc = set_pc i (if t == w.turn then critical t else spinning t) w.pc;
}
access i (critical t) w = record w { turn = int (w.turn + 1); pc = set_pc i idle w.pc }

unfoldable pub step : ℕ → World → World
unfolding access
step i w = access i (w.pc i) w

unfoldable pub run : List ℕ → World → World
unfolding step
run [] w = w
run (i ∷ is) w = run is (step i w)

abbrev pub start : World
start = record { ticket = 0; turn = 0; pc = λ _. idle }

-- The ticket that a thread holds.
abbrev pub holds : Pc → Option ℕ
holds idle = none
holds (spinning t) = some t
holds (critical t) = some t

-- `n` bounds the tickets given out.
pub record Inv (n : ℕ) (w : World) : Type 0 where
  pub bound : (w.turn ≤ w.ticket) × (w.ticket ≤ n)
  pub range : (i t : ℕ) → holds (w.pc i) ≡ some t → (w.turn ≤ t) × (t < w.ticket)
  pub unique : (i j t : ℕ) → holds (w.pc i) ≡ some t → holds (w.pc j) ≡ some t → i ≡ j
  pub served : (i t : ℕ) → w.pc i ≡ critical t → t ≡ w.turn
  pub covered : (t : ℕ) → w.turn ≤ t → t < w.ticket → (i : ℕ) × (holds (w.pc i) ≡ some t)

access-Inv :
    (n i : ℕ) (p : Pc) (w : World)
    → suc n < 2 ^ 31
    → w.pc i ≡ p
    → Inv n w
    → Inv (suc n) (access i p w)
unfolding access
access-Inv n i idle w small e v = record {
  bound = omega (arith, v.bound);
  range = λ j t h. ground (arith, v.range j t, v.bound);
  unique = λ j k t h l. ground (arith, v.unique j k t, v.range j t, v.range k t);
  served = λ j t h. ground (arith, v.served j t);
  covered = λ t a b. elim (dec_lt t w.ticket) [
    | yes old ↦ let (j, h) = v.covered t a old in (j, ground arith)
    | no new ↦ (i, ground (arith, v.bound))
  ];
}
access-Inv n i (spinning t) w small e v = record {
  bound = omega (arith, v.bound);
  range = λ j u h. ground (arith, v.range j u, v.range i t);
  unique = λ j k u h l. ground (arith, v.unique j k u, v.unique i k u, v.unique j i u);
  served = λ j u h. ground (arith, v.served j u);
  covered = λ u a b. let (j, h) = v.covered u a b in (j, ground arith);
}
access-Inv n i (critical t) w small e v =
    let mine : t ≡ w.turn = v.served i t e in
    let mine_in = v.range i t (ground arith) in
    record {
      bound = omega (arith, v.bound);
      range = λ j u h. ground (arith, v.range j u, v.unique i j u, v.bound);
      unique = λ j k u h l. ground (arith, v.unique j k u);
      served = λ j u h. ground (arith, v.served j u, v.unique i j u);
      covered = λ u a b.
          let (j, h) = v.covered u (omega (arith, v.bound)) b in (j, ground (arith, v.bound));
    }

run-Inv :
    (n m : ℕ) (is : List ℕ) (w : World)
    → n + length is ≡ m
    → m < 2 ^ 31
    → Inv n w
    → Inv m (run is w)
unfolding run
run-Inv n m [] w e small v = let same : n ≡ m = omega arith in rw (← same) v
run-Inv n m (i ∷ is) w e small v =
    run-Inv (suc n) m is (step i w) (omega arith) small
      (access-Inv n i (w.pc i) w (omega arith) refl v)

start-Inv : Inv 0 start
start-Inv = record {
  bound = omega arith;
  range = λ i t h. cc;
  unique = λ i j t h l. cc;
  served = λ i t h. cc;
  covered = λ t a b. absurd (omega arith);
}

reached : (is : List ℕ) → length is < 2 ^ 31 → Inv (length is) (run is start)
reached is small = run-Inv 0 (length is) is start (omega arith) small start-Inv

-- Mutual exclusion in ticket order, in every schedule of fewer than 2 ^ 31 accesses: a thread
-- between `lock` and `unlock` is alone there, and its ticket is older than that of every thread
-- that waits.
pub ticket_mutual_exclusion :
    (is : List ℕ) (i j t u : ℕ)
    → length is < 2 ^ 31
    → (run is start).pc i ≡ critical t
    → ((run is start).pc j ≡ critical u → i ≡ j) × ((run is start).pc j ≡ spinning u → t < u)
ticket_mutual_exclusion is i j t u small h =
    let v = reached is small in
    (
      λ k. ground (arith, v.served i t h, v.served j u k, v.unique i j t),
      λ k. ground (arith, v.served i t h, v.range j u, v.unique i j t),
    )

-- Progress, in every schedule of fewer than 2 ^ 31 accesses: while any thread waits, some thread
-- holds the ticket that is being served: it is between `lock` and `unlock`, or it enters at its
-- next access.
pub ticket_no_deadlock :
    (is : List ℕ) (i t : ℕ)
    → length is < 2 ^ 31
    → (run is start).pc i ≡ spinning t
    → (j : ℕ) × (holds ((run is start).pc j) ≡ some (run is start).turn)
ticket_no_deadlock is i t small h =
    let v = reached is small in
    v.covered (run is start).turn (omega arith) (ground (arith, v.range i t))
