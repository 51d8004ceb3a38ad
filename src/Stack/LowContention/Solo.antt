-- ===== src/Stack/LowContention/Solo.antt =====
-- stack_lockfree.cpp, namespace `low_contention`: a `pop` that runs while no other thread is in an
-- operation.
use modern_cpp_ds.Common.{
  ℕ, suc, ◌≤◌, ◌≡◌, ◌≢◌, refl, ap, ◌∙◌, false, none, List, length, arith, ℕ_discrete, replicate,
  ite,
}
use modern_cpp_ds.Stack.{null}
use modern_cpp_ds.Stack.Chain.{Cells}
use modern_cpp_ds.Stack.LowContention.{Pc, idle, System, Action, go, move, step, run}
use modern_cpp_ds.Stack.LowContention.Inv.{Place, counted, Inv}
use modern_cpp_ds.Stack.LowContention.Pops.{
  without, length-without, count-without_self, count-without_other,
}
use modern_cpp_ds.Stack.LowContention.Runs.{move-Moved}
use modern_cpp_ds.Stack.LowContention.Safety.{nobody}

counted_once : (c : Pc) → counted c ≤ 1
counted_once c = ground arith

module _ {T : Type 0} (nothing : T) (i : ℕ) where
  -- Only thread `i` is in an operation.
  pub record Solo (s : System T) : Type 0 where
    pub cells : Cells T
    pub inside : List ℕ
    pub waiting : List ℕ
    pub place : ℕ → Place
    pub inv : Inv cells inside waiting place s.mem s.pc
    pub others : (j : ℕ) → i ≢ j → s.pc j ≡ idle

  few_inside : (s : System T) (w : Solo s) → length w.inside ≤ 1
  few_inside s w =
      let rest = nobody (without i w.inside) (λ j. elim (ℕ_discrete i j) [
        | yes e ↦ rw (← e) (count-without_self i w.inside)
        | no ne ↦ count-without_other i j w.inside ne ∙ w.inv.counts j ∙ ap counted (w.others j ne)
      ]) in
      omega (arith, length-without i w.inside, rest, w.inv.counts i, counted_once (s.pc i))

  pub Solo-step : (a : Action T) (s : System T) → Solo s → Solo (step nothing (i, a) s)
  unfolding step
  Solo-step a s w =
      let one =
        move-Moved nothing a (s.pc i) i s.mem s.pc w.cells w.inside w.waiting w.place w.inv
          (omega (arith, few_inside s w)) refl in
      record {
        cells = one.cells;
        inside = one.inside;
        waiting = one.waiting;
        place = one.place;
        inv = one.inv;
        others = λ j ne. other j ne (ℕ_discrete i j);
      }
    where
      other :
          (j : ℕ)
          → i ≢ j
          → (d : Dec (i ≡ j)) → ite d (move nothing a (s.pc i) s.mem).1 (s.pc j) ≡ idle
      other j ne (yes e) = absurd (ne e)
      other j ne (no _) = w.others j ne

  -- Some accesses of thread `i` lead to the end of its operation, with nothing left to be deleted.
  unfoldable pub Ends : System T → Type 0
  Ends s =
      (n : ℕ) × Solo (run nothing (replicate n (i, go false)) s)
      × ((run nothing (replicate n (i, go false)) s).pc i ≡ idle)
      × ((run nothing (replicate n (i, go false)) s).mem.to_be_deleted ≡ null)

  pub one_more : (s : System T) → Ends (step nothing (i, go false) s) → Ends s
  unfolding Ends run
  one_more s (n, w, at, clear) = (suc n, w, at, clear)

  pub null_gone : (s : System T) → Solo s → s.mem.heap null ≡ none
  null_gone s w = w.inv.gone null w.inv.no_null

  -- A thread in `pop` counts itself, and nobody else.
  pub one_in_pop : (s : System T) → Solo s → counted (s.pc i) ≡ 1 → s.mem.threads_in_pop ≡ 1
  one_in_pop s w one =
      omega (arith, few_inside s w, w.inv.counter, w.inv.counts i, one, length-without i w.inside)
