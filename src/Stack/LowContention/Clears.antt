-- ===== src/Stack/LowContention/Clears.antt =====
-- stack_lockfree.cpp, namespace `low_contention`: a `pop` that runs alone empties the list of nodes to be
-- deleted.
use modern_cpp_ds.Common.{
  ℕ, ◌^◌, ◌<◌, ◌≤◌, ◌≡◌, ◌≢◌, refl, sym, ap, ◌∙◌, true, false, inl, inr, none, some, List, [], ◌∷◌,
  length, arith, ℕ_discrete, replicate, Option-cases,
}
use modern_cpp_ds.Common.Counts.{count}
use modern_cpp_ds.Stack.{null, node}
use modern_cpp_ds.Stack.Chain.{Cells, Chain, has, head_allocated}
use modern_cpp_ds.Stack.LowContention.{
  idle, entered, loaded, popping, taking, reclaiming, sole, exchanged, deleting, dropping, System,
  Action, begin_pop, go, move, step, run, create,
}
use modern_cpp_ds.Stack.LowContention.Inv.{counted, Owns, Leads, Local, addresses}
use modern_cpp_ds.Stack.LowContention.Change.{Leads-Kept}
use modern_cpp_ds.Stack.LowContention.Places.{held_of, claimed_of}
use modern_cpp_ds.Stack.LowContention.Paths.{empty_after_null}
use modern_cpp_ds.Stack.LowContention.Runs.{ran}
use modern_cpp_ds.Stack.LowContention.Safety.{placed}
use modern_cpp_ds.Stack.LowContention.Solo.{Solo, Solo-step, null_gone, one_in_pop, Ends, one_more}

listed : {T : Type 0} (a : ℕ) (cs : Cells T) → 0 < count a (addresses cs) → has a cs ≡ true
unfolding count
listed a [] h = absurd (omega arith)
listed a ((b, x) ∷ cs) h = ground (arith, listed a cs)

module _ {T : Type 0} (nothing : T) (i : ℕ) where
  finishes_dropping :
      (s : System T) (old : ℕ)
      → Solo nothing i s
      → s.pc i ≡ dropping old
      → s.mem.to_be_deleted ≡ null
      → s.mem.heap old ≢ none
      → Ends nothing i s
  unfolding Ends run step move
  finishes_dropping s old w at clear live = elim (Option-cases (s.mem.heap old)) [
    | inl f ↦ absurd (live f)
    | inr (n, f) ↦ (1, Solo-step nothing i (go false) s w, ground arith, ground arith)
  ]

  finishes_deleting :
      (xs : List ℕ) (s : System T) (list old : ℕ)
      → Solo nothing i s
      → s.pc i ≡ deleting list old
      → s.mem.to_be_deleted ≡ null
      → s.mem.heap old ≢ none
      → Leads s.mem.heap list xs null
      → ((a : ℕ) → count a (old ∷ xs) ≤ 1)
      → Ends nothing i s
  unfolding step move count
  finishes_deleting [] s list old w at clear live path once =
      let z : list ≡ null = path in
      one_more nothing i s (
        finishes_dropping (step nothing (i, go false) s) old (Solo-step nothing i (go false) s w)
          (ground arith) (ground arith) (λ e. live (ground arith)))
  finishes_deleting (a ∷ xs) s list old w at clear live (e, (d, next, f, rest)) once =
      let nz : list ≢ null = λ z. cc (null_gone nothing i s w) in
      let f' : s.mem.heap list ≡ some (node d next) = rw e f in
      let s' = step nothing (i, go false) s in
      let kept : (b : ℕ) → list ≢ b → s'.mem.heap b ≡ s.mem.heap b = λ b ne. ground arith in
      let apart : list ≢ old = λ z. absurd (ground (arith, once list)) in
      one_more nothing i s (
        finishes_deleting xs s' next old (Solo-step nothing i (go false) s w) (ground arith)
          (ground arith) (λ g. live (sym (kept old apart) ∙ g))
          (Leads-Kept s.mem.heap s'.mem.heap next xs null
            (λ b l. kept b (λ z. absurd (ground (arith, once b)))) rest)
          (λ b. ground (arith, once b)))

  finishes_exchanged :
      (s : System T) (nodes old : ℕ)
      → Solo nothing i s
      → s.pc i ≡ exchanged nodes old
      → s.mem.to_be_deleted ≡ null
      → Ends nothing i s
  unfolding step move count
  finishes_exchanged s nodes old w at clear =
      let (xs, path, o) : Local i (exchanged nodes old) w.place s.mem.heap =
        rw at at (w.inv.locals i) in
      let one = one_in_pop nothing i s w (ap counted at) in
      let mine = claimed_of i (w.place old) (ground (arith, o old)) in
      let s' = step nothing (i, go false) s in
      let same : s'.mem.heap ≡ s.mem.heap = ground arith in
      one_more nothing i s (
        finishes_deleting xs s' nodes old (Solo-step nothing i (go false) s w) (ground arith)
          (ground arith) (λ g. cc (w.inv.there old (rw same at g), mine)) (rw same path)
          (λ b. ground (arith, o b)))

  finishes_sole : (s : System T) (old : ℕ) → Solo nothing i s → s.pc i ≡ sole old → Ends nothing i s
  unfolding step move
  finishes_sole s old w at = one_more nothing i s (
      finishes_exchanged (step nothing (i, go false) s) s.mem.to_be_deleted old
        (Solo-step nothing i (go false) s w) (ground arith) (ground arith))

  finishes_reclaiming :
      (s : System T) (old : ℕ) → Solo nothing i s → s.pc i ≡ reclaiming old → Ends nothing i s
  unfolding step move
  finishes_reclaiming s old w at =
      let one = one_in_pop nothing i s w (ap counted at) in
      one_more nothing i s (
        finishes_sole (step nothing (i, go false) s) old (Solo-step nothing i (go false) s w)
          (ground arith))

  finishes_taking :
      (s : System T) (old : ℕ) → Solo nothing i s → s.pc i ≡ taking old → Ends nothing i s
  unfolding step move count
  finishes_taking s old w at =
      let o : Owns i w.place (old ∷ []) [] = rw at at (w.inv.locals i) in
      let mine = held_of i (w.place old) (ground (arith, o old)) in
      elim (Option-cases (s.mem.heap old)) [
        | inl f ↦ absurd (cc (w.inv.there old f, mine))
        | inr (node x next, f) ↦ one_more nothing i s (
            finishes_reclaiming (step nothing (i, go false) s) old
              (Solo-step nothing i (go false) s w) (ground arith))
      ]

  finishes_popping :
      (s : System T) (old next : ℕ)
      → Solo nothing i s
      → s.pc i ≡ popping old next
      → s.mem.head ≡ old
      → Ends nothing i s
  unfolding step move
  finishes_popping s old next w at top = one_more nothing i s (
      finishes_taking (step nothing (i, go false) s) old (Solo-step nothing i (go false) s w)
        (ground arith))

  finishes_loaded :
      (s : System T) (old : ℕ)
      → Solo nothing i s
      → s.pc i ≡ loaded old
      → s.mem.head ≡ old
      → old ≢ null
      → Ends nothing i s
  unfolding step move
  finishes_loaded s old w at top nz = elim (Option-cases (s.mem.heap old)) [
    | inl f ↦
        absurd (head_allocated s.mem.heap s.mem.head w.cells w.inv.chain (rw top nz) (rw top f))
    | inr (node x next, f) ↦ one_more nothing i s (
        finishes_popping (step nothing (i, go false) s) old next
          (Solo-step nothing i (go false) s w) (ground arith) (ground arith))
  ]

  finishes_entered :
      (s : System T) → Solo nothing i s → s.pc i ≡ entered → s.mem.head ≢ null → Ends nothing i s
  unfolding step move
  finishes_entered s w at nz = one_more nothing i s (
      finishes_loaded (step nothing (i, go false) s) s.mem.head (Solo-step nothing i (go false) s w)
        (ground arith) (ground arith) nz)

  idle_all : (s : System T) → Solo nothing i s → s.pc i ≡ idle → (j : ℕ) → s.pc j ≡ idle
  idle_all s w at j = elim (ℕ_discrete i j) [ yes e ↦ rw (← e) at | no ne ↦ w.others j ne ]

  -- With no list of nodes to be deleted, whatever is there is in the stack.
  stacked_all :
      (s : System T) (w : Solo nothing i s)
      → s.pc i ≡ idle
      → s.mem.to_be_deleted ≡ null
      → (a : ℕ) → s.mem.heap a ≢ none
      → has a w.cells ≡ true
  unfolding count
  stacked_all s w at clear a live =
      let empty =
        empty_after_null s.mem.heap w.waiting null (null_gone nothing i s w)
          (rw clear at w.inv.pending_list) in
      let none_waits : count a w.waiting ≡ 0 = rw empty refl in
      listed a w.cells (
        omega (
          arith,
          none_waits,
          w.inv.in_list a,
          w.inv.in_stack a,
          placed s.mem s.pc w.cells w.inside w.waiting w.place a (w.place a) w.inv (idle_all s w at)
              live refl,
        ))

  -- Progress and reclamation: when, after fewer than 2 ^ 64 accesses, no thread is in an operation and the stack
  -- is not empty, a `pop` that runs alone returns after finitely many accesses, and then every node that is
  -- there is in the stack: whatever waited to be deleted has been deleted.
  pub counted_clears :
      (es : List (ℕ × Action T))
      → length es < 2 ^ 64
      → ((j : ℕ) → (run nothing es create).pc j ≡ idle)
      → (run nothing es create).mem.head ≢ null
      → (n : ℕ) × (let s =
            run nothing ((i, begin_pop) ∷ replicate n (i, go false)) (run nothing es create) in
          ((j : ℕ) → s.pc j ≡ idle)
          × (s.mem.to_be_deleted ≡ null)
          × ((cs : Cells T) × Chain s.mem.heap s.mem.head cs
              × ((a : ℕ) → s.mem.heap a ≢ none → has a cs ≡ true)))
  unfolding run Ends step move count
  counted_clears es few quiet_now nz =
      let r = ran nothing es few in
      let s = run nothing es create in
      let w : Solo nothing i s = record {
        cells = r.cells;
        inside = r.inside;
        waiting = r.waiting;
        place = r.place;
        inv = r.inv;
        others = λ j ne. quiet_now j;
      } in
      let start : (move nothing begin_pop (s.pc i) s.mem).1 ≡ entered = rw (quiet_now i) refl in
      let (n, w', at, clear) =
        finishes_entered (step nothing (i, begin_pop) s) (Solo-step nothing i begin_pop s w)
          (ground (arith, quiet_now i)) (ground (arith, quiet_now i)) in
      (
        n,
        (
          idle_all (run nothing (replicate n (i, go false)) (step nothing (i, begin_pop) s)) w' at,
          clear,
          (
            w'.cells,
            w'.inv.chain,
            stacked_all (run nothing (replicate n (i, go false)) (step nothing (i, begin_pop) s)) w'
                at clear,
          ),
        ),
      )
