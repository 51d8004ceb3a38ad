-- ===== src/Stack/HazardStack/Deliver.antt =====
-- stack_lockfree.cpp, `hazard_ptr::stack`: what `pop` returns, when each slot is used by one thread.
use modern_cpp_ds.Common.{
  ℕ, ◌<◌, ◌≡◌, ◌≢◌, refl, ◌∙◌, false, none, some, List, [], ◌∷◌, arith, ℕ_discrete,
}
use modern_cpp_ds.Common.Counts.{count}
use modern_cpp_ds.Stack.{node}
use modern_cpp_ds.Stack.Chain.{Cells}
use modern_cpp_ds.Stack.Refine.{pops}
use modern_cpp_ds.Stack.HazardStack.{
  then_sweep, then_next, Pc, idle, allocated, pushing, published, validated, exchanging, clearing,
  taking, scanning, adding, deleting, sweeping, Shared, System, Action, begin_push, begin_pop, go,
  move, step, run,
}
use modern_cpp_ds.Stack.HazardStack.Inv.{owns, Local, Inv}
use modern_cpp_ds.Stack.HazardStack.Refine.{effect}
use modern_cpp_ds.Stack.HazardStack.Safety.{move-Moved, run-Inv}

module _ {T : Type 0} (nothing : T) where
  -- A thread writes and deletes only what it owns, and makes only what is not there.
  move_keeps :
      (a : ℕ) (act : Action T) (c : Pc) (j : ℕ) (m : Shared T)
      → count a (owns c) ≡ 0
      → m.heap a ≢ none
      → (move nothing j act c m).0.heap a ≡ m.heap a
  unfolding move count
  move_keeps a (begin_push x fresh junk) idle j m o l = ground arith
  move_keeps a begin_pop idle j m o l = ground arith
  move_keeps a (go b) (allocated p) j m o l = ground arith
  move_keeps a (go b) (pushing p) j m o l = ground arith
  move_keeps a (go b) (published p) j m o l = ground arith
  move_keeps a (go b) (validated p) j m o l = ground arith
  move_keeps a (go b) (exchanging p n) j m o l = ground arith
  move_keeps a (go b) (taking p) j m o l = ground arith
  move_keeps a (go b) (scanning p k after) j m o l = ground arith
  move_keeps a (go b) (adding p after) j m o l = ground arith
  move_keeps a (go b) (deleting p after) j m o l = ground arith
  move_keeps a (go b) (sweeping then_sweep) j m o l = refl
  move_keeps a (go b) (sweeping (then_next [])) j m o l = refl
  move_keeps a (go b) (sweeping (then_next (p ∷ next))) j m o l = refl
  move_keeps a _ _ j m o l = refl

  -- The thread does not move in this schedule.
  abbrev pub Absent : ℕ → List (ℕ × Action T) → Type 0
  Absent i [] = Unit {0}
  Absent i ((j, _) ∷ es) = (i ≢ j) × Absent i es

  -- While others move, a thread stays where it is, and so does a node of its own.
  waits :
      (i a : ℕ) (c : Pc) (es : List (ℕ × Action T)) (s : System T) (cs : Cells T)
      → Inv cs s.mem s.pc
      → Absent i es
      → s.pc i ≡ c
      → 0 < count a (owns c)
      → ((run nothing es s).mem.heap a ≡ s.mem.heap a) × ((run nothing es s).pc i ≡ c)
  unfolding run step
  waits i a c [] s cs v away at own = (refl, at)
  waits i a c ((j, act) ∷ es) s cs v (ne, away) at own =
      let one = move-Moved nothing act (s.pc j) j s.mem s.pc cs v refl in
      let mine : 0 < count a (owns (s.pc i)) = rw at own in
      let (u, _, _) = v.owned i a mine in
      let not_theirs : count a (owns (s.pc j)) ≡ 0 = elim (ℕ_discrete (count a (owns (s.pc j))) 0) [
        | yes z ↦ z
        | no nz ↦ absurd (ne (v.apart i j a mine (omega arith)))
      ] in
      let same = move_keeps a act (s.pc j) j s.mem not_theirs u.live in
      let (later, there) =
        waits i a c es (step nothing (j, act) s) one.cells one.inv away (ground arith) own in
      (later ∙ same, there)

  exchanged :
      (s : System T) (i old next : ℕ)
      → s.pc i ≡ exchanging old next
      → s.mem.head ≡ old
      → let s' = step nothing (i, go false) s in
        (s'.mem.heap old ≡ s.mem.heap old) × (s'.pc i ≡ clearing old)
  unfolding step
  exchanged s i old next at top = ground arith

  cleared :
      (s : System T) (i old : ℕ)
      → s.pc i ≡ clearing old
      → let s' = step nothing (i, go false) s in
        (s'.mem.heap old ≡ s.mem.heap old) × (s'.pc i ≡ taking old)
  unfolding step
  cleared s i old at = ground arith

  -- The node that a successful exchange has taken keeps its value until it is swapped out.
  pub delivers :
      (s : System T) (cs : Cells T)
      → Inv cs s.mem s.pc
      → (others others' : List (ℕ × Action T)) (i old next : ℕ) → s.pc i ≡ exchanging old next
      → s.mem.head ≡ old
      → Absent i others
      → Absent i others'
      → let after =
          step nothing (i, go false) (run nothing others (step nothing (i, go false) s)) in
        let before_swap = run nothing others' after in
        (v : T) × (effect (go false) (exchanging old next) s.mem ≡ pops v)
        × (before_swap.pc i ≡ taking old)
        × (before_swap.mem.heap old ≡ some (node v next))
  unfolding count step
  delivers s cs v others others' i old next at top away away' =
      let (_, _, nz, (d, f)) : Local i (exchanging old next) s.mem = rw at at (v.locals i) in
      let first = move-Moved nothing (go false) (s.pc i) i s.mem s.pc cs v refl in
      let (same, at_clear) = exchanged s i old next at top in
      let s' = step nothing (i, go false) s in
      let (kept, still) =
        waits i old (clearing old) others s' first.cells first.inv away at_clear (ground arith) in
      let (cs'', v'', _) = run-Inv nothing others s' first.cells first.inv in
      let s'' = run nothing others s' in
      let second = move-Moved nothing (go false) (s''.pc i) i s''.mem s''.pc cs'' v'' refl in
      let (same', at_take) = cleared s'' i old still in
      let (kept', still') =
        waits i old (taking old) others' (step nothing (i, go false) s'') second.cells second.inv
          away' at_take (ground arith) in
      (d, ground arith, still', kept' ∙ same' ∙ kept ∙ same ∙ f)
