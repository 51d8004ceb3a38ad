-- ===== src/Mutex/Spin.antt =====
-- mutex.cpp, `optimised_spinlock::mutex`, which has a `lock` and no `unlock`.
use modern_cpp_ds.Common.{
  ℕ, ◌≡◌, refl, Bool, true, List, [], ◌∷◌, arith, ite, ℕ_discrete, if◌then◌else◌,
}

-- Outside, before `exchange(true)`, in the inner loop, or after `lock` has returned.
pub data Pc : Type 0 where
  idle trying spinning locked : Pc

pub record World : Type 0 where
  pub lk : Bool
  pub pc : ℕ → Pc

-- No operation of the class leaves `locked`.
unfoldable pub access : Pc → Bool → Bool × Pc
access idle lk = (lk, trying)
access trying lk = (true, if lk then spinning else locked)
access spinning lk = (lk, if lk then spinning else trying)
access locked lk = (lk, locked)

unfoldable pub step : ℕ → World → World
unfolding access
step i w =
    let (lk, p) = access (w.pc i) w.lk in
    record { lk = lk; pc = λ j. ite (ℕ_discrete i j) p (w.pc j) }

unfoldable pub run : List ℕ → World → World
unfolding step
run [] w = w
run (i ∷ is) w = run is (step i w)

access_locked :
    (i j : ℕ) (p : Pc) (w : World)
    → w.pc i ≡ p
    → w.lk ≡ true
    → let (lk, q) = access p w.lk in
      (lk ≡ true)
      × (ite (ℕ_discrete i j) q (w.pc j) ≡ locked → w.pc j ≡ locked)
      × (w.pc j ≡ locked → ite (ℕ_discrete i j) q (w.pc j) ≡ locked)
unfolding access
access_locked i j idle w e h = (h, λ l. ground arith, λ l. ground arith)
access_locked i j trying w e h = (refl, λ l. ground arith, λ l. ground arith)
access_locked i j spinning w e h = (h, λ l. ground arith, λ l. ground arith)
access_locked i j locked w e h = (h, λ l. ground arith, λ l. ground arith)

-- Once the lock is taken it stays taken: whatever the threads do, no `lock` that has not returned
-- yet ever returns.
pub never_released :
    (is : List ℕ) (w : World) (j : ℕ)
    → w.lk ≡ true
    → ((run is w).lk ≡ true)
      × ((run is w).pc j ≡ locked → w.pc j ≡ locked)
      × (w.pc j ≡ locked → (run is w).pc j ≡ locked)
unfolding run
never_released [] w j h = (h, λ l. l, λ l. l)
never_released (i ∷ is) w j h =
    let (taken, back, on) = access_locked i j (w.pc i) w refl h in
    let (end, back', on') = never_released is (step i w) j taken in
    (end, λ l. back (back' l), λ l. on' (on l))
