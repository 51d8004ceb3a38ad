-- ===== src/Mutex/Flag.antt =====
-- mutex.cpp, `prat::mutex`: a lock on `std::atomic_flag` that waits while the flag is set.
use modern_cpp_ds.Common.{
  ℕ, ◌≡◌, refl, Bool, true, false, List, [], ◌∷◌, arith, ite, ℕ_discrete, if◌then◌else◌,
}

-- Where a thread stands: outside, before `test_and_set`, in `wait`, or between `lock` and `unlock`.
pub data Pc : Type 0 where
  idle trying waiting critical : Pc

pub record World : Type 0 where
  pub flag : Bool
  pub pc : ℕ → Pc

-- The next access of a thread; `wait(true)` comes back when the flag is found clear.
unfoldable pub access : Pc → Bool → Bool × Pc
access idle flag = (flag, trying)
access trying flag = (true, if flag then waiting else critical)
access waiting flag = (flag, if flag then waiting else trying)
access critical flag = (false, idle)

unfoldable pub step : ℕ → World → World
unfolding access
step i w =
    let (flag, p) = access (w.pc i) w.flag in
    record { flag = flag; pc = λ j. ite (ℕ_discrete i j) p (w.pc j) }

unfoldable pub run : List ℕ → World → World
unfolding step
run [] w = w
run (i ∷ is) w = run is (step i w)

-- `mutex():lk(ATOMIC_FLAG_INIT)`
abbrev pub start : World
start = record { flag = false; pc = λ _. idle }

-- The flag is set while a thread is in the critical section, and one thread at most is.
pub record Inv (w : World) : Type 0 where
  pub held : (i : ℕ) → w.pc i ≡ critical → w.flag ≡ true
  pub alone : (i j : ℕ) → w.pc i ≡ critical → w.pc j ≡ critical → i ≡ j

access-Inv :
    (i : ℕ) (p : Pc) (w : World)
    → w.pc i ≡ p
    → Inv w
    → let (flag, q) = access p w.flag in
      Inv (record { flag = flag; pc = λ j. ite (ℕ_discrete i j) q (w.pc j) })
unfolding access
access-Inv i idle w e v = record {
  held = λ j h. ground (arith, v.held j);
  alone = λ j k h l. ground (arith, v.alone j k);
}
access-Inv i trying w e v = record {
  held = λ j h. refl;
  alone = λ j k h l. ground (arith, v.alone j k, v.held j, v.held k);
}
access-Inv i waiting w e v = record {
  held = λ j h. ground (arith, v.held j);
  alone = λ j k h l. ground (arith, v.alone j k);
}
access-Inv i critical w e v = record {
  held = λ j h. ground (arith, v.alone i j);
  alone = λ j k h l. ground (arith, v.alone i j);
}

run-Inv : (is : List ℕ) (w : World) → Inv w → Inv (run is w)
unfolding run
run-Inv [] w v = v
run-Inv (i ∷ is) w v = run-Inv is (step i w) (access-Inv i (w.pc i) w refl v)

-- Whatever the schedule, two threads are never between `lock` and `unlock` together, and the flag is
-- set while one is.
pub flag_mutual_exclusion :
    (is : List ℕ) (i j : ℕ)
    → (run is start).pc i ≡ critical
    → ((run is start).pc j ≡ critical → i ≡ j) × ((run is start).flag ≡ true)
flag_mutual_exclusion is i j h =
    let v = run-Inv is start (record { held = λ k e. cc; alone = λ k l e f. cc }) in
    (v.alone i j h, v.held i h)
