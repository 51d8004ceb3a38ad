-- ===== src/Stack/HazardStack/Threads/Safety.antt =====
-- stack_lockfree.cpp, `hazard_ptr`: what the threads keep while they get slots, use the stack, give their slots back
-- and exit.
use modern_cpp_ds.Common.{
  ℕ, ◌+◌, ◌<◌, ◌≡◌, ◌≢◌, refl, sym, ap, ◌∙◌, ◌⊎◌, true, false, some, none, List, [], arith, inl,
  inr,
}
use modern_cpp_ds.Common.Counts.{count}
use modern_cpp_ds.Stack.Chain.{Cells, values, has, Chain}
use modern_cpp_ds.Stack.Linear.{History}
use modern_cpp_ds.Stack.HazardStack.{max_ptr, After, idle, deleting, fault, System, create}
use modern_cpp_ds.Stack.HazardStack
use modern_cpp_ds.Stack.HazardStack.Inv.{owns, guards}
use modern_cpp_ds.Stack.HazardStack.Safety.{
  effects, hazard_linearizable, no_use_after_free, deletes_alone, no_leak,
}
use modern_cpp_ds.Stack.HazardStack.Threads.{
  Seat, without, searching, found, having, cleared, gone, index, Move, Threads, place, run, start,
  calls, Orderly,
}
use modern_cpp_ds.Stack.HazardStack.Threads.Inv.{Inv, slot}
use modern_cpp_ds.Stack.HazardStack.Threads.Simulates.{run-Inv, start-Inv}

module _ {T : Type 0} where
  -- Two threads do not make their accesses from one index.
  pub index_alone :
      (t u : ℕ) (w : Threads T) → Inv w → index t (w.seat t) ≡ index u (w.seat u) → t ≡ u
  index_alone t u w v e = by_seats (w.seat t) (w.seat u) refl refl e
    where
      aside : (c : Seat) → ((i : ℕ) × (c ≡ having i)) ⊎ ((x : ℕ) → index x c ≡ max_ptr + x)
      aside (having i) = inl (i, refl)
      aside without = inr (λ x. refl)
      aside (searching i) = inr (λ x. refl)
      aside (found i) = inr (λ x. refl)
      aside (cleared i) = inr (λ x. refl)
      aside gone = inr (λ x. refl)

      by_seats : (c d : Seat) → w.seat t ≡ c → w.seat u ≡ d → index t c ≡ index u d → t ≡ u
      by_seats c d at at' same = elim (aside c) [
        | inl (i, ec) ↦ elim (aside d) [
          | inl (j, ed) ↦
              v.alone t u i (ap slot (at ∙ ec)) (
                ap slot (at' ∙ ed) ∙ ap some (sym (ap (index t) (sym ec) ∙ same ∙ ap (index u) ed)))
          | inr far ↦
              let low = v.low t i (ap slot (at ∙ ec)) in
              let i_far : i ≡ max_ptr + u = ap (index t) (sym ec) ∙ same ∙ far u in
              absurd (omega (arith, low, i_far))
        ]
        | inr far ↦ elim (aside d) [
          | inl (j, ed) ↦
              let low = v.low u j (ap slot (at' ∙ ed)) in
              let j_far : j ≡ max_ptr + t = sym (sym (far t) ∙ same ∙ ap (index u) ed) in
              absurd (omega (arith, low, j_far))
          | inr far' ↦
              let both : max_ptr + t ≡ max_ptr + u = sym (far t) ∙ same ∙ far' u in
              omega (arith, both)
        ]
      ]

module _ {T : Type 0} (nothing : T) where
  -- The stack after a schedule of the threads.
  after_calls :
      (es : List (ℕ × Move T))
      → Orderly nothing es start
      → (run nothing es start).stack ≡ HazardStack.run nothing (calls nothing es start) create
  after_calls es o = (run-Inv nothing es start o (start-Inv nothing)).1

  -- Linearizability with reclamation: for threads that get a slot of the table at their first `pop`, make
  -- their accesses in any order and may exit, as long as no thread comes to a slot in `hp_owner()`
  -- between the two stores by which another one gives it back, the successful exchanges on the head and
  -- the second loads by which `pop` finds a null head are the operations of a sequential stack that starts
  -- empty, and the linked list holds its contents at the end, nodes deleted and addresses used again
  -- included.
  pub threads_linearizable :
      (es : List (ℕ × Move T))
      → Orderly nothing es start
      → let s = (run nothing es start).stack in
        (cs : Cells T) × Chain s.mem.heap s.mem.head cs
        × History (effects nothing (calls nothing es start) create) [] (values cs)
  threads_linearizable es o =
      rw (after_calls es o) (hazard_linearizable nothing (calls nothing es start))

  -- Memory safety of `hazard_ptr::stack`: as long as no thread comes to a slot in `hp_owner()` between
  -- the two stores by which another one gives it back, no thread ever reads, writes or deletes a
  -- node that has been deleted or was never made; so no node is deleted twice.
  pub threads_touch_no_freed :
      (es : List (ℕ × Move T)) (t : ℕ)
      → Orderly nothing es start
      → place t (run nothing es start) ≢ fault
  threads_touch_no_freed es t o e =
      let w = run nothing es start in
      no_use_after_free nothing (calls nothing es start) (index t (w.seat t))
        (ap (λ (s : System T). s.pc (index t (w.seat t))) (sym (after_calls es o)) ∙ e)

  -- As long as no thread comes to a slot in `hp_owner()` between the two stores by which another one
  -- gives it back: what a thread is about to delete, no thread guards, no other thread is about to delete
  -- it or waits to, it is not in the reclaim list, and it is not in the stack.
  pub threads_delete_alone :
      (es : List (ℕ × Move T)) (t p : ℕ) (after : After)
      → Orderly nothing es start
      → place t (run nothing es start) ≡ deleting p after
      → let w = run nothing es start in
        ((u : ℕ) → guards (place u w) ≢ some p)
        × ((u : ℕ) → 0 < count p (owns (place u w)) → t ≡ u)
        × (count p w.stack.mem.nodes_to_reclaim ≡ 0)
        × ((cs : Cells T) × Chain w.stack.mem.heap w.stack.mem.head cs × (has p cs ≡ false))
  threads_delete_alone es t p after o at =
      let w = run nothing es start in
      let (v, same) = run-Inv nothing es start o (start-Inv nothing) in
      let (unguarded, alone, z, c) =
        deletes_alone nothing (calls nothing es start) (index t (w.seat t)) p after
          (ap (λ (s : System T). s.pc (index t (w.seat t))) (sym same) ∙ at) in
      (
        λ u. rw same (unguarded (index u (w.seat u))),
        λ u h. index_alone t u w v (alone (index u (w.seat u)) (rw same at h)),
        rw same z,
        rw same c,
      )

  -- No node is lost: as long as no thread comes to a slot in `hp_owner()` between the two stores by which
  -- another one gives it back, whenever nobody is in an operation, every node that is there is in the stack
  -- or in the reclaim list, in one of the two and there once.
  pub threads_lose_nothing :
      (es : List (ℕ × Move T)) (a : ℕ)
      → Orderly nothing es start
      → ((i : ℕ) → (run nothing es start).stack.pc i ≡ idle)
      → (run nothing es start).stack.mem.heap a ≢ none
      → let m = (run nothing es start).stack.mem in
        (cs : Cells T) × Chain m.heap m.head cs
        × (((has a cs ≡ true) × (count a m.nodes_to_reclaim ≡ 0))
            ⊎ ((has a cs ≡ false) × (count a m.nodes_to_reclaim ≡ 1)))
  threads_lose_nothing es a o quiet live =
      let same = after_calls es o in
      rw same
        (no_leak nothing (calls nothing es start) a (λ i. rw same at (quiet i)) (rw same at live))
