-- ===== src/Stack/HazardStack/Threads/Pops.antt =====
-- stack_lockfree.cpp, `hazard_ptr`: what `pop` returns to a thread.
use modern_cpp_ds.Common.{
  ℕ, ◌+◌, ◌≡◌, ◌≢◌, refl, sym, ap, ◌∙◌, false, some, List, [], ◌∷◌, ◌++◌, Bool, arith, Bool-cases,
  inl, inr, ltb,
}
use modern_cpp_ds.Stack.{node}
use modern_cpp_ds.Stack.Refine.{pops}
use modern_cpp_ds.Stack.HazardStack.{
  max_ptr, idle, exchanging, taking, System, Action, begin_push, begin_pop, go, create,
}
use modern_cpp_ds.Stack.HazardStack
use modern_cpp_ds.Stack.HazardStack.Refine.{effect}
use modern_cpp_ds.Stack.HazardStack.Safety
use modern_cpp_ds.Stack.HazardStack.Safety.{create-Inv}
use modern_cpp_ds.Stack.HazardStack.Deliver.{Absent, delivers}
use modern_cpp_ds.Stack.HazardStack.Threads.{
  Seat, without, searching, found, having, cleared, is_idle, Move, acts, exits, Threads, try_slot,
  call, thread_move, step, run, calls_of, start, calls, Orderly,
}
use modern_cpp_ds.Stack.HazardStack.Threads.Inv.{Inv, slot, set_other}
use modern_cpp_ds.Stack.HazardStack.Threads.Simulates.{step-Inv, run-Inv, start-Inv}

module _ {T : Type 0} (nothing : T) where
  -- The thread does not move in this schedule.
  abbrev pub Rests : ℕ → List (ℕ × Move T) → Type 0
  Rests t [] = Unit {0}
  Rests t ((u, _) ∷ es) = (t ≢ u) × Rests t es

  try_slot-seat : (t u i : ℕ) (w : Threads T) → u ≢ t → (try_slot u i w).seat t ≡ w.seat t
  try_slot-seat t u i w ne = elim (Bool-cases (ltb i max_ptr)) [
    | inr e ↦ rw e (set_other w.seat u t without ne)
    | inl e ↦ elim (Bool-cases (w.taken i)) [
      | inl e' ↦ rw (e, e') (set_other w.seat u t _ ne)
      | inr e' ↦ rw (e, e') (set_other w.seat u t _ ne)
    ]
  ]

  -- A thread changes no seat but its own.
  seat-stays :
      (t u : ℕ) (a : Move T) (c : Seat) (w : Threads T)
      → u ≢ t
      → (thread_move nothing u a c w).seat t ≡ w.seat t
  unfolding thread_move
  seat-stays t u (acts begin_pop) without w ne =
      elim (Bool-cases (is_idle (w.stack.pc (max_ptr + u)))) [
        | inl e ↦ rw e (set_other w.seat u t _ ne)
        | inr e ↦ rw e refl
      ]
  seat-stays t u (acts (begin_push x fresh junk)) without w ne = refl
  seat-stays t u (acts (go b)) (searching i) w ne = try_slot-seat t u i w ne
  seat-stays t u (acts (go b)) (found i) w ne = set_other w.seat u t _ ne
  seat-stays t u exits without w ne = elim (Bool-cases (is_idle (w.stack.pc (max_ptr + u)))) [
    | inl e ↦ rw e (set_other w.seat u t _ ne)
    | inr e ↦ rw e refl
  ]
  seat-stays t u exits (having i) w ne = elim (Bool-cases (is_idle (w.stack.pc i))) [
    | inl e ↦ rw e (set_other w.seat u t _ ne)
    | inr e ↦ rw e refl
  ]
  seat-stays t u (acts (go b)) (cleared i) w ne = set_other w.seat u t _ ne
  seat-stays t u _ _ w ne = refl

  -- The calls of another thread come from other indices.
  calls_of-Absent :
      (t u i : ℕ) (a : Move T) (c : Seat) (w : Threads T)
      → Inv w
      → w.seat t ≡ having i
      → w.seat u ≡ c
      → t ≢ u
      → Absent nothing i (calls_of u a c)
  calls_of-Absent t u i (acts (go b)) (found j) w v at at' ne =
      (λ e. ne (v.alone t u i (ap slot at) (ap slot at' ∙ ap some (sym e))), tt)
  calls_of-Absent t u i (acts (begin_push x fresh junk)) without w v at at' ne =
      (λ e. let low = v.low t i (ap slot at) in omega arith, tt)
  calls_of-Absent t u i (acts (go b)) without w v at at' ne =
      (λ e. let low = v.low t i (ap slot at) in omega arith, tt)
  calls_of-Absent t u i (acts a) (having j) w v at at' ne =
      (λ e. ne (v.alone t u i (ap slot at) (ap slot at' ∙ ap some (sym e))), tt)
  calls_of-Absent t u i _ _ w v at at' ne = tt

  Absent-append :
      (i : ℕ) (es es' : List (ℕ × Action T))
      → Absent nothing i es
      → Absent nothing i es'
      → Absent nothing i (es ++ es')
  Absent-append i [] es' a a' = a'
  Absent-append i ((j, _) ∷ es) es' (ne, a) a' = (ne, Absent-append i es es' a a')

  rests :
      (t i : ℕ) (es : List (ℕ × Move T)) (w : Threads T)
      → Inv w
      → Orderly nothing es w
      → Rests t es
      → w.seat t ≡ having i
      → Absent nothing i (calls nothing es w) × ((run nothing es w).seat t ≡ having i)
  unfolding run step calls Orderly
  rests t i [] w v o r at = (tt, at)
  rests t i ((u, a) ∷ es) w v (o, os) (ne, r) at =
      let w' = step nothing (u, a) w in
      let same = seat-stays t u a (w.seat u) w (λ e. ne (sym e)) in
      let (away, there) = rests t i es w' (step-Inv nothing u a w o v) os r (same ∙ at) in
      (
        Absent-append i (calls_of u a (w.seat u)) (calls nothing es w')
            (calls_of-Absent t u i a (w.seat u) w v at refl ne) away,
        there,
      )

  own_step :
      (t i : ℕ) (b : Bool) (w : Threads T)
      → w.seat t ≡ having i
      → step nothing (t, acts (go b)) w ≡ call nothing i (go b) w
  unfolding step thread_move
  own_step t i b w at = ap (λ c. thread_move nothing t (acts (go b)) c w) at

  -- Thread `t` makes an access, and then others move.
  while_others :
      (t i : ℕ) (others : List (ℕ × Move T)) (w : Threads T)
      → Inv w
      → w.seat t ≡ having i
      → Rests t others
      → let w' = step nothing (t, acts (go false)) w in
        Orderly nothing others w'
        → Absent nothing i (calls nothing others w')
          × ((run nothing others w').stack
              ≡ HazardStack.run nothing
                  (calls nothing others w')
                  (HazardStack.step nothing (i, go false) w.stack))
          × Inv (run nothing others w')
          × ((run nothing others w').seat t ≡ having i)
  while_others t i others w v at r o =
      let w' = step nothing (t, acts (go false)) w in
      let own = own_step t i false w at in
      let v' =
        step-Inv nothing t (acts (go false)) w
          (λ j e. let clash : having i ≡ searching j = sym at ∙ e in absurd (cc)) v in
      let (away, there) = rests t i others w' v' o r (ap (λ q. q.seat t) own ∙ at) in
      let (v2, same) = run-Inv nothing others w' o v' in
      (
        away,
        same ∙ ap (λ q. HazardStack.run nothing (calls nothing others w') q.stack) own,
        v2,
        there,
      )

  -- For a thread with slot `i`, as long as no thread comes to a slot in `hp_owner()` between the two
  -- stores by which another one gives it back: a `pop` whose exchange succeeds returns the value that was
  -- on top at that moment, whatever the other threads do (they use the stack, get slots, give them back and
  -- exit) before it clears its hazard pointer and before it swaps the data out.
  pub threads_pop_deliver :
      (es others others' : List (ℕ × Move T)) (t i old next : ℕ)
      → (run nothing es start).seat t ≡ having i
      → (run nothing es start).stack.pc i ≡ exchanging old next
      → (run nothing es start).stack.mem.head ≡ old
      → Rests t others
      → Rests t others'
      → let w = run nothing es start in
        let exchanged = step nothing (t, acts (go false)) w in
        let cleared_pointer = step nothing (t, acts (go false)) (run nothing others exchanged) in
        let before_swap = run nothing others' cleared_pointer in
        Orderly nothing es start
        → Orderly nothing others exchanged
        → Orderly nothing others' cleared_pointer
        → (v : T) × (effect (go false) (exchanging old next) w.stack.mem ≡ pops v)
          × (before_swap.seat t ≡ having i)
          × (before_swap.stack.pc i ≡ taking old)
          × (before_swap.stack.mem.heap old ≡ some (node v next))
  threads_pop_deliver es others others' t i old next seat at top r r' o o1 o2 =
      let w = run nothing es start in
      let (v, same) = run-Inv nothing es start o (start-Inv nothing) in
      let (cs, hv, _) =
        Safety.run-Inv nothing (calls nothing es start) create [] (create-Inv nothing) in
      let w1 = step nothing (t, acts (go false)) w in
      let (away, stack2, v2, seat2) = while_others t i others w v seat r o1 in
      let w3 = step nothing (t, acts (go false)) (run nothing others w1) in
      let (away', stack4, _, seat4) =
        while_others t i others' (run nothing others w1) v2 seat2 r' o2 in
      let (x, taken, still, kept) =
        delivers nothing w.stack cs (rw same hv) (calls nothing others w1)
          (calls nothing others' w3) i old next at top away away' in
      let all =
        stack4
        ∙ ap
            (λ s.
              HazardStack.run nothing (calls nothing others' w3)
                (HazardStack.step nothing (i, go false) s))
            stack2 in
      (x, taken, seat4, rw all still, rw all kept)
