-- ===== src/Stack/Linear.antt =====
-- stack_lockfree.cpp: the histories of the stack.
use modern_cpp_ds.Common.{ℕ, ◌≡◌, ◌≢◌, refl, sym, ◌∙◌, ap, false, none, some, List, [], ◌∷◌, arith}
use modern_cpp_ds.Common.Histories.{Steps, done, then_}
use modern_cpp_ds.Stack.{
  Shared, Pc, idle, allocated, pushing, loaded, popping, took, fault, System, empty, Action,
  begin_push, begin_pop, go, move, step, run, result,
}
use modern_cpp_ds.Stack.Chain.{Cells, values}
use modern_cpp_ds.Stack.Inv.{owns, seen, Local, Inv, empty-Inv}
use modern_cpp_ds.Stack.Refine.{Effect, pops, effect, Applies, move-Refines}

module _ {T : Type 0} where
  step-Refines :
      (i : ℕ) (a : Action T) (s : System T) (cs : Cells T)
      → Inv cs s
      → (cs' : Cells T) × Inv cs' (step (i, a) s)
        × Applies (effect a (s.pc i) s.mem) (values cs) (values cs')
  unfolding step
  step-Refines i a s cs v =
      let r = move-Refines a (s.pc i) i s.mem s.pc cs refl v in (r.cells, r.inv, r.applies)

  -- The effects of the accesses of a schedule, in order.
  unfoldable pub effects : List (ℕ × Action T) → System T → List (Effect T)
  unfolding step
  effects [] s = []
  effects ((i, a) ∷ es) s = effect a (s.pc i) s.mem ∷ effects es (step (i, a) s)

  -- A sequential stack with contents `xs` has this history, and ends with contents `ys`.
  abbrev pub History : List (Effect T) → List T → List T → Type 0
  History = Steps Applies

  run-Refines :
      (es : List (ℕ × Action T)) (s : System T) (cs : Cells T)
      → Inv cs s
      → (cs' : Cells T) × Inv cs' (run es s) × History (effects es s) (values cs) (values cs')
  unfolding run effects
  run-Refines [] s cs v = (cs, v, done)
  run-Refines ((i, a) ∷ es) s cs v =
      let (cs', v', one) = step-Refines i a s cs v in
      let (end, v'', rest) = run-Refines es (step (i, a) s) cs' v' in (end, v'', then_ one rest)

  -- Linearizability: whatever the threads do and in whatever order, the successful exchanges of
  -- `push` and of `pop`, and the loads by which `pop` finds a null head, are the operations of a
  -- sequential stack that starts empty, and the linked list holds its contents at the end.
  pub linearizable :
      (es : List (ℕ × Action T))
      → (cs : Cells T) × Inv cs (run es empty) × History (effects es empty) [] (values cs)
  linearizable es = run-Refines es empty [] empty-Inv

  -- No thread ever reads or writes memory that is not a node.
  pub no_fault : (es : List (ℕ × Action T)) (i : ℕ) → (run es (empty {T = T})).pc i ≢ fault
  no_fault es i e = let (cs, v, _) = linearizable es in rw e at (v.locals i)

  -- A move of another thread leaves a node alone that this one points at.
  move_keeps :
      (a : ℕ) (act : Action T) (p : Pc) (m : Shared T)
      → owns p ≢ some a
      → m.heap a ≢ none
      → (move act p m).0.heap a ≡ m.heap a
  unfolding move
  move_keeps a (begin_push x fresh junk) idle m o l = ground arith
  move_keeps a (go _) (allocated b) m o l = ground arith
  move_keeps a (go _) (pushing b) m o l = ground arith
  move_keeps a (go _) (loaded b) m o l = ground arith
  move_keeps a (go _) (popping b n) m o l = ground arith
  move_keeps a begin_pop idle m o l = refl
  move_keeps a _ _ m o l = refl

  -- The thread does not move in this schedule.
  abbrev pub Absent : ℕ → List (ℕ × Action T) → Type 0
  Absent i [] = Unit {0}
  Absent i ((j, _) ∷ es) = (i ≢ j) × Absent i es

  stays :
      (i old : ℕ) (es : List (ℕ × Action T)) (s : System T) (cs : Cells T)
      → Inv cs s
      → Absent i es
      → s.pc i ≡ took old
      → s.mem.heap old ≢ none
      → (run es s).mem.heap old ≡ s.mem.heap old
  unfolding run step
  stays i old [] s cs v away at live = refl
  stays i old ((j, a) ∷ es) s cs v (ne, away) at live =
      let (cs', v', _) = step-Refines j a s cs v in
      let kept =
        move_keeps old a (s.pc j) s.mem (λ o. (v.apart j i (λ k. ne (sym k)) old o).1 (ap seen at))
          live in
      stays i old es (step (j, a) s) cs' v' away (ground arith) (rw kept live) ∙ kept

  exchanged :
      (s : System T) (i old next : ℕ)
      → s.pc i ≡ popping old next
      → s.mem.head ≡ old
      → let s' = step (i, go false) s in (s'.mem.heap old ≡ s.mem.heap old) × (s'.pc i ≡ took old)
  unfolding step
  exchanged s i old next at top = ground arith

  delivers :
      (s : System T) (cs : Cells T) (others : List (ℕ × Action T)) (i old next : ℕ) (default : T)
      → Inv cs s
      → s.pc i ≡ popping old next
      → s.mem.head ≡ old
      → Absent i others
      → (v : T) × (effect (go false) (popping old next) s.mem ≡ pops v)
        × (result default old (run others (step (i, go false) s)).mem ≡ some v)
  unfolding result
  delivers s cs others i old next default inv at top away =
      let (ne, (x, f)) : Local s.mem.heap cs (popping old next) = rw at at (inv.locals i) in
      let (cs', inv', _) = step-Refines i (go false) s cs inv in
      let (heap_same, at_took) = exchanged s i old next at top in
      let kept =
        stays i old others (step (i, go false) s) cs' inv' away at_took
          (rw (heap_same, f) (λ e. cc)) in
      (x, ground arith, ground (arith, kept, heap_same))

  -- A `pop` whose exchange succeeds delivers the value that was on top at that moment, however many
  -- accesses other threads make before it reads the node.
  pub pop_delivers :
      (es others : List (ℕ × Action T)) (i old next : ℕ) (default : T)
      → (run es empty).pc i ≡ popping old next
      → (run es empty).mem.head ≡ old
      → Absent i others
      → (v : T) × (effect (go false) (popping old next) (run es empty).mem ≡ pops v)
        × (result default old (run others (step (i, go false) (run es empty))).mem ≡ some v)
  pop_delivers es others i old next default at top away =
      let (cs, v, _) = linearizable es in
      delivers (run es empty) cs others i old next default v at top away
