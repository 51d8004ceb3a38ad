-- ===== src/Stack/HazardStack/Threads/Simulates.antt =====
-- stack_lockfree.cpp, `hazard_ptr`: the stack under the threads is the stack after the accesses that they make.
use modern_cpp_ds.Common.{
  ℕ, ◌+◌, ◌≡◌, ◌≢◌, refl, sym, ap, ◌∙◌, List, [], ◌∷◌, ◌++◌, Bool-cases, inl, inr, ltb,
}
use modern_cpp_ds.Stack.HazardStack.{
  max_ptr, idle, System, Action, begin_push, begin_pop, go, create,
}
use modern_cpp_ds.Stack.HazardStack
use modern_cpp_ds.Stack.HazardStack.Threads.{
  Seat, without, searching, found, having, cleared, gone, is_idle, Move, acts, exits, Threads,
  try_slot, thread_move, step, run, calls_of, start, calls, Orderly,
}
use modern_cpp_ds.Stack.HazardStack.Threads.Inv.{Inv, sits_aside}
use modern_cpp_ds.Stack.HazardStack.Threads.Steps.{
  call_beyond, call_own, try_slot-Inv, first_pop-Inv, store_id-Inv, store_pointer_lem,
}

module _ {T : Type 0} (nothing : T) where
  -- The threads after a move, whose calls are these.
  record Moved (w w' : Threads T) (es : List (ℕ × Action T)) : Type 0 where
    inv : Inv w'
    same : w'.stack ≡ HazardStack.run nothing es w.stack

  try_slot-stack : (t i : ℕ) (w : Threads T) → (try_slot t i w).stack ≡ w.stack
  try_slot-stack t i w = elim (Bool-cases (ltb i max_ptr)) [
    | inr e ↦ rw e refl
    | inl e ↦ elim (Bool-cases (w.taken i)) [ inl e' ↦ rw (e, e') refl | inr e' ↦ rw (e, e') refl ]
  ]

  move-Moved :
      (t : ℕ) (a : Move T) (c : Seat) (w : Threads T)
      → w.seat t ≡ c
      → ((i : ℕ) → c ≡ searching i → (u : ℕ) → w.seat u ≢ cleared i)
      → Inv w
      → Moved w (thread_move nothing t a c w) (calls_of t a c)
  unfolding thread_move HazardStack.run
  move-Moved t (acts begin_pop) without w at o v =
      elim (Bool-cases (is_idle (w.stack.pc (max_ptr + t)))) [
        | inl e ↦ rw e (record { inv = sits_aside t (searching 0) w refl refl v; same = refl })
        | inr e ↦ rw e (record { inv = v; same = refl })
      ]
  move-Moved t (acts (go b)) (searching i) w at o v = record {
    inv = try_slot-Inv nothing t i w at (o i refl) v;
    same = try_slot-stack t i w;
  }
  move-Moved t (acts (go b)) (found i) w at o v = record {
    inv = first_pop-Inv nothing t i w at v;
    same = refl;
  }
  move-Moved t (acts (begin_push x fresh junk)) without w at o v = record {
    inv = call_beyond nothing t (begin_push x fresh junk) w v;
    same = refl;
  }
  move-Moved t (acts (go b)) without w at o v = record {
    inv = call_beyond nothing t (go b) w v;
    same = refl;
  }
  move-Moved t (acts a) (having i) w at o v = record {
    inv = call_own nothing t i a w at v;
    same = refl;
  }
  move-Moved t exits without w at o v = elim (Bool-cases (is_idle (w.stack.pc (max_ptr + t)))) [
    | inl e ↦ rw e (record { inv = sits_aside t gone w refl refl v; same = refl })
    | inr e ↦ rw e (record { inv = v; same = refl })
  ]
  move-Moved t exits (having i) w at o v = elim (Bool-cases (is_idle (w.stack.pc i))) [
    | inl e ↦ rw e (record { inv = store_id-Inv nothing t i w at e v; same = refl })
    | inr e ↦ rw e (record { inv = v; same = refl })
  ]
  move-Moved t (acts (go b)) (cleared i) w at o v =
      let e = store_pointer_lem nothing t i w at v in
      record { inv = rw e (sits_aside t gone w refl refl v); same = e }
  move-Moved t _ _ w at o v = record { inv = v; same = refl }

  pub step-Inv :
      (t : ℕ) (a : Move T) (w : Threads T)
      → ((i : ℕ) → w.seat t ≡ searching i → (u : ℕ) → w.seat u ≢ cleared i)
      → Inv w
      → Inv (step nothing (t, a) w)
  unfolding step
  step-Inv t a w o v = (move-Moved t a (w.seat t) w refl o v).inv

  run-append :
      (es es' : List (ℕ × Action T)) (s : System T)
      → HazardStack.run nothing (es ++ es') s
        ≡ HazardStack.run nothing es' (HazardStack.run nothing es s)
  unfolding HazardStack.run
  run-append [] es' s = refl
  run-append (e ∷ es) es' s = run-append es es' (HazardStack.step nothing e s)

  pub run-Inv :
      (es : List (ℕ × Move T)) (w : Threads T)
      → Orderly nothing es w
      → Inv w
      → Inv (run nothing es w)
        × ((run nothing es w).stack ≡ HazardStack.run nothing (calls nothing es w) w.stack)
  unfolding run step calls Orderly HazardStack.run
  run-Inv [] w o v = (v, refl)
  run-Inv ((t, a) ∷ es) w (o, os) v =
      let one = move-Moved t a (w.seat t) w refl o v in
      let (end, same) = run-Inv es (step nothing (t, a) w) os one.inv in
      (
        end,
        same
            ∙ ap (HazardStack.run nothing (calls nothing es (step nothing (t, a) w))) one.same
            ∙ sym (
                run-append (calls_of t a (w.seat t)) (calls nothing es (step nothing (t, a) w))
                  w.stack),
      )

  pub start-Inv : Inv (start {T = T})
  start-Inv = record {
    clear = λ i e. refl;
    low = λ t i e. absurd (cc);
    alone = λ t u i e. absurd (cc);
    held = λ t i e. absurd (cc);
    left = λ t i e. absurd (cc);
  }
