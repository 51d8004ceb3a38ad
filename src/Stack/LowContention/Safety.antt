-- ===== src/Stack/LowContention/Safety.antt =====
-- stack_lockfree.cpp, namespace `low_contention`: the histories of the stack, and its memory.
use modern_cpp_ds.Common.{
  ℕ, ◌+◌, ◌^◌, ◌<◌, ◌≡◌, ◌≢◌, refl, ap, ◌∙◌, false, none, some, List, [], ◌∷◌, ◌==◌, length, arith,
  if◌then◌else◌, Option,
}
use modern_cpp_ds.Common.Counts.{count}
use modern_cpp_ds.Stack.{null}
use modern_cpp_ds.Stack.Chain.{Cells, values, Chain, has}
use modern_cpp_ds.Stack.Linear.{History}
use modern_cpp_ds.Stack.LowContention.{
  Pc, idle, deleting, dropping, fault, Shared, Action, run, create,
}
use modern_cpp_ds.Stack.LowContention.Inv.{
  Place, nowhere, stacked, pending, held, claimed, is_stacked, is_pending, seen, counted, Owns,
  addresses, Leads, Local, Inv,
}
use modern_cpp_ds.Stack.LowContention.Places.{claimed_of, unlisted}
use modern_cpp_ds.Stack.LowContention.Runs.{effects, ran}
use modern_cpp_ds.Stack.{Heap}

pub nobody : (xs : List ℕ) → ((i : ℕ) → count i xs ≡ 0) → length xs ≡ 0
unfolding count
nobody [] z = refl
nobody (j ∷ js) z = let first = z j in absurd (ground arith)

-- The node that the thread deletes by its next access.
abbrev pub deletes_next : Pc → Option ℕ
deletes_next (deleting list old) = if list == null then none else some list
deletes_next (dropping old) = some old
deletes_next _ = none

module _ {T : Type 0} where
  -- It claims that node.
  claimed_next :
      (i a : ℕ) (c : Pc) (h : Heap T) (place : ℕ → Place)
      → deletes_next c ≡ some a
      → Local i c place h
      → place a ≡ claimed i
  unfolding count
  claimed_next i a (dropping old) h place e o = claimed_of i (place a) (ground (arith, o a))
  claimed_next i a (deleting list old) h place e ([], path, o) = absurd (ground arith)
  claimed_next i a (deleting list old) h place e (b ∷ xs, (same, rest), o) =
      claimed_of i (place a) (ground (arith, o a))
  claimed_next i a c h place e o = absurd (cc)

  -- If no thread is in an operation, every node is in the stack or on the list.
  pub placed :
      (m : Shared T) (pc : ℕ → Pc) (cs : Cells T) (inside ps : List ℕ) (place : ℕ → Place) (a : ℕ)
      (p : Place)
      → Inv cs inside ps place m pc
      → ((i : ℕ) → pc i ≡ idle)
      → m.heap a ≢ none
      → place a ≡ p
      → is_stacked (place a) + is_pending (place a) ≡ 1
  unfolding count
  placed m pc cs inside ps place a nowhere v q live e = absurd (live (v.gone a e))
  placed m pc cs inside ps place a stacked v q live e = rw e refl
  placed m pc cs inside ps place a pending v q live e = rw e refl
  placed m pc cs inside ps place a (held k) v q live e =
      let o : Owns k place [] [] = rw (q k) at (v.locals k) in absurd (ground (arith, e, o a))
  placed m pc cs inside ps place a (claimed k) v q live e =
      let o : Owns k place [] [] = rw (q k) at (v.locals k) in absurd (ground (arith, e, o a))

module _ {T : Type 0} (nothing : T) where
  -- Linearizability with the counter: whatever the threads do and in whatever order, in fewer than 2 ^ 64
  -- accesses, nodes deleted and addresses used again included, the successful exchanges on the head, and the
  -- loads by which `pop` finds a null head, are the operations of a sequential stack that starts empty, and
  -- the linked list holds its contents at the end.
  pub counted_linearizable :
      (es : List (ℕ × Action T))
      → length es < 2 ^ 64
      → (cs : Cells T) × Chain (run nothing es create).mem.heap (run nothing es create).mem.head cs
        × History (effects nothing es create) [] (values cs)
  counted_linearizable es few = let r = ran nothing es few in (r.cells, r.inv.chain, r.history)

  -- Memory safety of `low_contention::stack`: in no schedule of fewer than 2 ^ 64 accesses does a
  -- thread read, write or delete a node that has been deleted or was never made; so no node is
  -- deleted twice.
  pub counted_no_fault :
      (es : List (ℕ × Action T)) (i : ℕ) → length es < 2 ^ 64 → (run nothing es create).pc i ≢ fault
  counted_no_fault es i few e =
      let r = ran nothing es few in
      let impossible : Local i fault r.place (run nothing es create).mem.heap =
        rw e at (r.inv.locals i) in
      impossible

  -- The counter is right: after fewer than 2 ^ 64 accesses, with no thread in an operation, it is 0, and
  -- no node is lost: every node that is there is in the stack or on the list of nodes to be deleted, in one of
  -- the two and there once.
  pub counted_no_leak :
      (es : List (ℕ × Action T))
      → length es < 2 ^ 64
      → ((i : ℕ) → (run nothing es create).pc i ≡ idle)
      → let m = (run nothing es create).mem in
        (m.threads_in_pop ≡ 0)
        × ((cs : Cells T) × (ps : List ℕ) × Chain m.heap m.head cs
            × Leads m.heap m.to_be_deleted ps null
            × ((a : ℕ) → m.heap a ≢ none → count a (addresses cs) + count a ps ≡ 1))
  counted_no_leak es few quiet_now =
      let r = ran nothing es few in
      let s = run nothing es create in
      (
        r.inv.counter ∙ nobody r.inside (λ i. r.inv.counts i ∙ ap counted (quiet_now i)),
        (
          r.cells,
          r.waiting,
          r.inv.chain,
          r.inv.pending_list,
          λ a live. omega (
            arith,
            r.inv.in_stack a,
            r.inv.in_list a,
            placed s.mem s.pc r.cells r.inside r.waiting r.place a (r.place a) r.inv quiet_now live
                refl,
          ),
        ),
      )

  -- What a thread is about to delete, after fewer than 2 ^ 64 accesses, no thread has loaded, nobody else is
  -- about to delete, and it is neither in the stack nor on the list of nodes to be deleted.
  pub counted_deletes_alone :
      (es : List (ℕ × Action T)) (i a : ℕ)
      → length es < 2 ^ 64
      → deletes_next ((run nothing es create).pc i) ≡ some a
      → let s = run nothing es create in
        ((j : ℕ) → seen (s.pc j) ≢ some a)
        × ((j : ℕ) → deletes_next (s.pc j) ≡ some a → i ≡ j)
        × ((cs : Cells T) × Chain s.mem.heap s.mem.head cs × (has a cs ≡ false))
        × ((ps : List ℕ) × Leads s.mem.heap s.mem.to_be_deleted ps null × (count a ps ≡ 0))
  counted_deletes_alone es i a few next =
      let r = ran nothing es few in
      let s = run nothing es create in
      let mine = claimed_next i a (s.pc i) s.mem.heap r.place next (r.inv.locals i) in
      (
        λ j e. let hidden = rw mine at (r.inv.visible j a e) in hidden,
        λ j e.
            let theirs = claimed_next j a (s.pc j) s.mem.heap r.place e (r.inv.locals j) in
            ground (arith, mine, theirs),
        (r.cells, r.inv.chain, unlisted a r.cells (r.inv.in_stack a ∙ rw mine refl)),
        (r.waiting, r.inv.pending_list, r.inv.in_list a ∙ rw mine refl),
      )
