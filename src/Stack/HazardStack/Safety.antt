-- ===== src/Stack/HazardStack/Safety.antt =====
-- stack_lockfree.cpp, `hazard_ptr::stack`: what every schedule of accesses keeps, when each slot is used by one
-- thread; Threads says when that is so.
use modern_cpp_ds.Common.{
  ℕ, ◌<◌, ◌≡◌, ◌≢◌, refl, sym, ap, ◌∙◌, false, some, List, [], ◌∷◌, arith, none, true, ◌⊎◌, inl,
  ℕ_discrete, inr,
}
use modern_cpp_ds.Common.Counts.{count}
use modern_cpp_ds.Stack.{null}
use modern_cpp_ds.Stack.Chain.{Cells, values, has, Chain}
use modern_cpp_ds.Stack.Refine.{Effect}
use modern_cpp_ds.Common.Histories.{done, then_}
use modern_cpp_ds.Stack.Linear.{History}
use modern_cpp_ds.Stack.HazardStack.{
  max_ptr, After, then_sweep, then_next, Pc, idle, allocated, pushing, loaded, published, validated,
  exchanging, found_empty, clearing, taking, scanning, adding, deleting, sweeping, fault, Shared,
  System, Action, begin_push, begin_pop, go, move, update, step, run, create,
}
use modern_cpp_ds.Stack.HazardStack.Inv.{owns, makes, guards, scans, Local, guards-Local, Inv}
use modern_cpp_ds.Stack.HazardStack.Change.{quiet}
use modern_cpp_ds.Stack.HazardStack.Reclaims.{take_list}
use modern_cpp_ds.Stack.HazardStack.Refine.{effect, Moved, silently, goes, protects, begins}
use modern_cpp_ds.Stack.HazardStack.Accesses.{
  allocates, begins_pop, first_load, exchanges_push, compares, reads_next, exchanges_pop, swaps,
  scans_slot, adds, deletes,
}

module _ {T : Type 0} (nothing : T) where
  -- A thread to which its place offers no such access stays.
  stays :
      (i : ℕ) (m : Shared T) (pc : ℕ → Pc) (cs : Cells T) (c : Pc)
      → Inv cs m pc
      → pc i ≡ c
      → Inv cs m (update pc i c)
  stays i m pc cs c v at =
      quiet i m pc m cs c v refl refl refl (λ j ne. refl) (rw at at (v.locals i)) (sym (ap owns at))
        (λ a e. ap makes at ∙ e)
        (λ j a ne e.
          let g : guards (pc i) ≡ some a = ap guards at ∙ e in
          (λ k. v.unguarded j i a k g, λ k l lt. v.scanned j i a k l lt g))
        (λ j p k ne e lt. v.scanned i j p k (ap scans at ∙ e) lt)

  -- Each access of thread `i` keeps the invariant, for the list that its effect leaves.
  pub move-Moved :
      (a : Action T) (c : Pc) (i : ℕ) (m : Shared T) (pc : ℕ → Pc) (cs : Cells T)
      → Inv cs m pc
      → pc i ≡ c
      → Moved i (move nothing i a c m) pc (effect a c m) cs
  unfolding move
  move-Moved (begin_push x fresh junk) idle i m pc cs v at =
      allocates nothing i m pc cs v x fresh junk at
  move-Moved begin_pop idle i m pc cs v at = begins_pop nothing i m pc cs v at
  move-Moved (go b) (allocated a) i m pc cs v at = first_load nothing i m pc cs v b a at
  move-Moved (go b) (pushing a) i m pc cs v at = exchanges_push nothing i m pc cs v b a at
  move-Moved (go b) (loaded old) i m pc cs v at =
      let low : Local i (loaded old) m = rw at at (v.locals i) in
      silently cs (
        protects i m pc cs v old (loaded old) (published old) at refl refl refl refl
          (low, ground arith))
  move-Moved (go b) (published tmp) i m pc cs v at = compares nothing i m pc cs v b tmp at
  move-Moved (go b) (validated old) i m pc cs v at = reads_next nothing i m pc cs v b old at
  move-Moved (go b) (exchanging old next) i m pc cs v at =
      exchanges_pop nothing i m pc cs v b old next at
  move-Moved (go b) found_empty i m pc cs v at =
      silently cs (protects i m pc cs v null found_empty idle at refl refl refl refl tt)
  move-Moved (go b) (clearing old) i m pc cs v at =
      silently cs (protects i m pc cs v null (clearing old) (taking old) at refl refl refl refl tt)
  move-Moved (go b) (taking old) i m pc cs v at = swaps nothing i m pc cs v b old at
  move-Moved (go b) (scanning p k after) i m pc cs v at =
      scans_slot nothing i m pc cs v b p k after at
  move-Moved (go b) (adding p after) i m pc cs v at = adds nothing i m pc cs v b p after at
  move-Moved (go b) (deleting p after) i m pc cs v at = deletes nothing i m pc cs v b p after at
  move-Moved (go b) (sweeping then_sweep) i m pc cs v at =
      silently cs (take_list i m pc cs v (ap owns at))
  move-Moved (go b) (sweeping (then_next [])) i m pc cs v at =
      silently cs (goes i m pc cs v (sweeping (then_next [])) idle at refl refl refl refl tt)
  move-Moved (go b) (sweeping (then_next (p ∷ next))) i m pc cs v at =
      silently cs (begins i m pc cs v p next at)
  move-Moved a c i m pc cs v at = silently cs (stays i m pc cs c v at)

  -- The effects of the accesses of a schedule, in order.
  unfoldable pub effects : List (ℕ × Action T) → System T → List (Effect T)
  unfolding step
  effects [] s = []
  effects ((i, a) ∷ es) s = effect a (s.pc i) s.mem ∷ effects es (step nothing (i, a) s)

  pub run-Inv :
      (es : List (ℕ × Action T)) (s : System T) (cs : Cells T)
      → Inv cs s.mem s.pc
      → (cs' : Cells T) × Inv cs' (run nothing es s).mem (run nothing es s).pc
        × History (effects es s) (values cs) (values cs')
  unfolding run step effects
  run-Inv [] s cs v = (cs, v, done)
  run-Inv ((i, a) ∷ es) s cs v =
      let one = move-Moved a (s.pc i) i s.mem s.pc cs v refl in
      let (end, v', more) = run-Inv es (step nothing (i, a) s) one.cells one.inv in
      (end, v', then_ one.applies more)

  pub create-Inv : Inv [] (create {T = T}).mem (create {T = T}).pc
  unfolding count
  create-Inv = record {
    chain = refl;
    distinct = tt;
    locals = λ i. tt;
    owned = λ i a h. absurd (omega arith);
    waiting = λ a h. absurd (omega arith);
    apart = λ i j a h. absurd (omega arith);
    unguarded = λ i j a e. absurd (cc);
    scanned = λ i j p k e. absurd (cc);
    accounted = λ a l. absurd (l refl);
  }

  -- The effects on the head, in order, are the operations of a sequential stack that starts empty, and the
  -- linked list holds its contents at the end.
  pub hazard_linearizable :
      (es : List (ℕ × Action T))
      → (cs : Cells T) × Chain (run nothing es create).mem.heap (run nothing es create).mem.head cs
        × History (effects es create) [] (values cs)
  hazard_linearizable es = let (cs, v, h) = run-Inv es create [] create-Inv in (cs, v.chain, h)

  -- No access from any slot is to memory that is not a node.
  pub no_use_after_free : (es : List (ℕ × Action T)) (i : ℕ) → (run nothing es create).pc i ≢ fault
  no_use_after_free es i e =
      let v = (run-Inv es create [] create-Inv).1 in
      let impossible : Local i fault (run nothing es create).mem = rw e at (v.locals i) in
      impossible

  -- What is about to be deleted from one slot, no slot guards, no other index is about to delete or waits to,
  -- and it is not in the stack.
  pub deletes_alone :
      (es : List (ℕ × Action T)) (i p : ℕ) (after : After)
      → (run nothing es create).pc i ≡ deleting p after
      → let s = run nothing es create in
        ((j : ℕ) → guards (s.pc j) ≢ some p)
        × ((j : ℕ) → 0 < count p (owns (s.pc j)) → i ≡ j)
        × (count p s.mem.nodes_to_reclaim ≡ 0)
        × ((cs : Cells T) × Chain s.mem.heap s.mem.head cs × (has p cs ≡ false))
  unfolding count
  deletes_alone es i p after at =
      let (cs, v, _) = run-Inv es create [] create-Inv in
      let own : 0 < count p (owns ((run nothing es create).pc i)) = rw at (ground arith) in
      let (u, _, z) = v.owned i p own in
      (
        λ j g.
            v.scanned i j p max_ptr (ap scans at)
              (guards-Local j ((run nothing es create).pc j) p (run nothing es create).mem g
                (v.locals j)).0
              g,
        λ j h. v.apart i j p own h,
        z,
        (cs, v.chain, u.out),
      )

  -- Whenever no index is in an operation, every node that is there is in the stack or in the reclaim list, in
  -- one of the two and there once.
  pub no_leak :
      (es : List (ℕ × Action T)) (a : ℕ)
      → ((i : ℕ) → (run nothing es create).pc i ≡ idle)
      → (run nothing es create).mem.heap a ≢ none
      → let m = (run nothing es create).mem in
        (cs : Cells T) × Chain m.heap m.head cs
        × (((has a cs ≡ true) × (count a m.nodes_to_reclaim ≡ 0))
            ⊎ ((has a cs ≡ false) × (count a m.nodes_to_reclaim ≡ 1)))
  unfolding count
  no_leak es a quiet_now live =
      let (cs, v, _) = run-Inv es create [] create-Inv in
      (
        cs,
        v.chain,
        elim (v.accounted a live) [
          | inl h ↦ inl (
            h,
            elim (ℕ_discrete (count a (run nothing es create).mem.nodes_to_reclaim) 0) [
              | yes z ↦ z
              | no nz ↦ let w = (v.waiting a (omega arith)).0 in absurd (ground (arith, w.out))
            ],
          )
          | inr (inl h) ↦ let (w, one) = v.waiting a h in inr (w.out, one)
          | inr (inr (j, h)) ↦ let h' = rw (quiet_now j) at h in absurd (omega (arith, h'))
        ],
      )
