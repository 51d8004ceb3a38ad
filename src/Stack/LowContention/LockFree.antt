-- ===== src/Stack/LowContention/LockFree.antt =====
-- stack_lockfree.cpp, namespace `low_contention`: how often the exchanges fail.
use modern_cpp_ds.Common.{
  ℕ, zero, suc, ◌+◌, ◌*◌, ◌^◌, ◌<◌, ◌≤◌, ◌≡◌, ◌≢◌, refl, sym, ap, none, List, [], ◌∷◌, length,
  arith, ℕ_discrete,
}
use modern_cpp_ds.Stack.{null}
use modern_cpp_ds.Stack.Chain.{Cells}
use modern_cpp_ds.Stack.LowContention.{Pc, idle, Shared, System, Action, move, step, create, update}
use modern_cpp_ds.Stack.LowContention.Inv.{Place, is_held, is_claimed, Inv, nowhere}
use modern_cpp_ds.Stack.LowContention.Runs.{move-Moved, create-Inv}
use modern_cpp_ds.Stack.LowContention.Deliver.{move_keeps, untouched}
use modern_cpp_ds.Stack.LowContention.Progress.{
  stale, fails, changes, stale_once, own_change, same_head, other_change, exclusive,
}

module _ {T : Type 0} where
  -- The threads below `n` that are stale.
  all_stale : ℕ → Shared T → (ℕ → Pc) → ℕ
  all_stale zero m pc = 0
  all_stale (suc n) m pc = all_stale n m pc + stale m (pc n)

  all_stale_most : (n : ℕ) (m : Shared T) (pc : ℕ → Pc) → all_stale n m pc ≤ n
  unfolding all_stale
  all_stale_most zero m pc = omega arith
  all_stale_most (suc n) m pc = omega (arith, all_stale_most n m pc, stale_once m (pc n))

  -- The sum changes by what one thread's term does.
  all_stale_others :
      (n i : ℕ) (m m' : Shared T) (pc : ℕ → Pc) (c : Pc)
      → n ≤ i
      → ((j : ℕ) → i ≢ j → stale m' (pc j) ≡ stale m (pc j))
      → all_stale n m' (update pc i c) ≡ all_stale n m pc
  unfolding all_stale
  all_stale_others zero i m m' pc c h k = refl
  all_stale_others (suc n) i m m' pc c h k =
      let ne : i ≢ n = λ e. absurd (omega arith) in
      let there : update pc i c n ≡ pc n = ground arith in
      omega (arith, all_stale_others n i m m' pc c (omega arith) k, k n ne, ap (stale m') there)

  all_stale_one :
      (n i : ℕ) (m m' : Shared T) (pc : ℕ → Pc) (c : Pc)
      → i < n
      → ((j : ℕ) → i ≢ j → stale m' (pc j) ≡ stale m (pc j))
      → all_stale n m' (update pc i c) + stale m (pc i) ≡ all_stale n m pc + stale m' c
  unfolding all_stale
  all_stale_one zero i m m' pc c h k = absurd (omega arith)
  all_stale_one (suc n) i m m' pc c h k = elim (ℕ_discrete i n) [
    | yes e ↦
        let there : update pc i c n ≡ c = ground arith in
        omega (
          arith,
          all_stale_others n i m m' pc c (omega arith) k,
          ap (stale m') there,
          ap (λ j. stale m (pc j)) e,
        )
    | no ne ↦
        let there : update pc i c n ≡ pc n = ground arith in
        omega (arith, all_stale_one n i m m' pc c (omega arith) k, k n ne, ap (stale m') there)
  ]

  -- Only threads below `n` move.
  abbrev pub Below : ℕ → List (ℕ × Action T) → Type 0
  Below n [] = Unit {0}
  Below n ((i, _) ∷ es) = (i < n) × Below n es

module _ {T : Type 0} (nothing : T) where
  -- One access: it can only fail where the thread was stale.
  step_bound :
      (n i : ℕ) (a : Action T) (m : Shared T) (pc : ℕ → Pc) (cs : Cells T) (inside ps : List ℕ)
      (place : ℕ → Place)
      → Inv cs inside ps place m pc
      → i < n
      → let r = move nothing a (pc i) m in
        fails a (pc i) m + all_stale n r.0 (update pc i r.1)
        ≤ all_stale n m pc + n * changes a (pc i) m
  step_bound n i a m pc cs inside ps place v lt =
      let r = move nothing a (pc i) m in
      elim (ℕ_discrete (changes a (pc i) m) 0) [
        | yes z ↦
            let (h, l) = same_head nothing a (pc i) m z in
            let others = all_stale_one n i m r.0 pc r.1 lt (λ j ne.
              other_change j (pc j) m r.0 place h l (λ b own. kept j b ne own) (v.locals j)) in
            omega (arith, others, own_change nothing a (pc i) m z)
        | no nz ↦
            let one : changes a (pc i) m ≡ 1 = omega (arith, exclusive a (pc i) m) in
            rw one
              (omega (arith, one, exclusive a (pc i) m, all_stale_most n r.0 (update pc i r.1)))
      ]
    where
      kept :
          (j b : ℕ)
          → i ≢ j
          → 0 < is_held j (place b) + is_claimed j (place b)
          → (move nothing a (pc i) m).0.heap b ≡ m.heap b
      kept j b ne own =
          let live : m.heap b ≢ none = λ f.
            let z = ap (λ p. is_held j p + is_claimed j p) (v.there b f) in
            absurd (omega (arith, z)) in
          move_keeps nothing b a (pc i) m
            (untouched nothing j i b (pc i) place m.heap (λ e. ne (sym e)) own live
              (v.gone null v.no_null) (v.locals i))
            live

  -- How many exchanges fail in a schedule.
  unfoldable pub failures : List (ℕ × Action T) → System T → ℕ
  unfolding step
  failures [] s = 0
  failures ((i, a) ∷ es) s = fails a (s.pc i) s.mem + failures es (step nothing (i, a) s)

  -- How often `head` or `to_be_deleted` is written in a schedule.
  unfoldable pub successes : List (ℕ × Action T) → System T → ℕ
  unfolding step
  successes [] s = 0
  successes ((i, a) ∷ es) s = changes a (s.pc i) s.mem + successes es (step nothing (i, a) s)

  run_bound :
      (n : ℕ) (es : List (ℕ × Action T)) (s : System T) (cs : Cells T) (inside ps : List ℕ)
      (place : ℕ → Place)
      → Inv cs inside ps place s.mem s.pc
      → length inside + length es < 2 ^ 64
      → Below n es
      → failures es s ≤ all_stale n s.mem s.pc + n * successes es s
  unfolding failures successes step
  run_bound n [] s cs inside ps place v few b = omega arith
  run_bound n ((i, a) ∷ es) s cs inside ps place v few (lt, b) =
      let one =
        move-Moved nothing a (s.pc i) i s.mem s.pc cs inside ps place v (omega arith) refl in
      let rest =
        run_bound n es (step nothing (i, a) s) one.cells one.inside one.waiting one.place one.inv
          (omega (arith, one.fits)) b in
      let first = step_bound n i a s.mem s.pc cs inside ps place v lt in grind arith

  idle_fresh : (n : ℕ) (m : Shared T) → all_stale n m (λ i. idle) ≡ 0
  unfolding all_stale
  idle_fresh zero m = refl
  idle_fresh (suc n) m = omega (arith, idle_fresh n m)

  -- Lock-freedom: when `n` threads make fewer than 2 ^ 64 accesses in any order, the compare-exchanges that
  -- find another value than the expected one are at most `n` times as many as the writes to `head` and to
  -- `to_be_deleted` (the successful ones, and the exchanges that take the list).
  pub counted_lock_free :
      (n : ℕ) (es : List (ℕ × Action T))
      → length es < 2 ^ 64
      → Below n es
      → failures es create ≤ n * successes es create
  counted_lock_free n es few b = omega (
    arith,
    run_bound n es create [] [] [] (λ a. nowhere) (create-Inv nothing) (omega arith) b,
    idle_fresh n (create {T = T}).mem,
  )
