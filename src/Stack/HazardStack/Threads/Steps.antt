-- ===== src/Stack/HazardStack/Threads/Steps.antt =====
-- stack_lockfree.cpp, `hazard_ptr`: every move of a thread keeps the invariant, and does to the stack what
-- its calls do; the second store of `~hp_owner()` changes nothing.
use mathlib.Core.Path.{fun_ext}
use modern_cpp_ds.Common.{
  ◌==◌, ℕ, suc, ◌+◌, ◌<◌, ◌≡◌, ◌≢◌, refl, sym, ap, ◌∙◌, true, false, some, ltb, ltb→lt,
  if◌then◌else◌, ℕ_discrete, arith, Bool-cases, inl, inr, ◌⊎◌,
}
use modern_cpp_ds.Stack.{null}
use modern_cpp_ds.Stack.HazardStack.{
  max_ptr, Pc, idle, Shared, System, Action, begin_push, begin_pop, go, protect,
}
use modern_cpp_ds.Stack.HazardStack
use modern_cpp_ds.Stack.HazardStack.Threads.{
  Seat, without, searching, found, having, cleared, gone, is_idle, set_at, Threads, sit, try_slot,
  store_id, store_pointer, call,
}
use modern_cpp_ds.Stack.HazardStack.Threads.Inv.{
  unprotected, step-other, step-Cleared, set_same, set_other, slot, owned, Inv, sits, moves,
  sits_aside,
}

idle-unprotected : (c : Pc) → is_idle c ≡ true → unprotected c ≡ true
idle-unprotected c e = ground arith

same_slot : (i j : ℕ) → some i ≡ some j → i ≡ j
same_slot i j e = cc

owned-slot : (c : Seat) (i : ℕ) → owned c ≡ some i → slot c ≡ some i
owned-slot (found j) i e = e
owned-slot (having j) i e = e
owned-slot without i e = absurd (cc)
owned-slot (searching j) i e = absurd (cc)
owned-slot (cleared j) i e = absurd (cc)
owned-slot gone i e = absurd (cc)

slot_cases : (c : Seat) (i : ℕ) → slot c ≡ some i → (owned c ≡ some i) ⊎ (c ≡ cleared i)
slot_cases (found j) i e = inl e
slot_cases (having j) i e = inl e
slot_cases (cleared j) i e = inr (ap cleared (same_slot j i e))
slot_cases without i e = absurd (cc)
slot_cases (searching j) i e = absurd (cc)
slot_cases gone i e = absurd (cc)

module _ {T : Type 0} (nothing : T) where
  -- The accesses of a thread without a slot, and of one with a slot, move no slot that is given back.
  pub call_beyond :
      (t : ℕ) (a : Action T) (w : Threads T) → Inv w → Inv (call nothing (max_ptr + t) a w)
  call_beyond t a w v =
      moves w (HazardStack.step nothing (max_ptr + t, a) w.stack) v
        (step-Cleared nothing (max_ptr + t) a w.stack v.clear)
        (λ u i e.
          let lt : i < max_ptr = v.low u i (ap slot e) in
          step-other nothing (max_ptr + t) a w.stack i (λ same. omega arith))

  pub call_own :
      (t i : ℕ) (a : Action T) (w : Threads T)
      → w.seat t ≡ having i
      → Inv w
      → Inv (call nothing i a w)
  call_own t i a w at v =
      moves w (HazardStack.step nothing (i, a) w.stack) v (step-Cleared nothing i a w.stack v.clear)
        (λ u j e. step-other nothing i a w.stack j (λ same.
          let me = v.alone t u j (ap slot at ∙ ap some same) (ap slot e) in
          let clash : having i ≡ cleared j = sym at ∙ ap w.seat me ∙ e in absurd (cc)))

  pub try_slot-Inv :
      (t i : ℕ) (w : Threads T)
      → w.seat t ≡ searching i
      → ((u : ℕ) → w.seat u ≢ cleared i)
      → Inv w
      → Inv (try_slot t i w)
  try_slot-Inv t i w at free v = elim (Bool-cases (ltb i max_ptr)) [
    | inr no_more ↦ rw no_more (sits_aside t without w refl refl v)
    | inl more ↦ elim (Bool-cases (w.taken i)) [
      | inl other ↦ rw (more, other) (sits_aside t (searching (suc i)) w refl refl v)
      | inr mine ↦
          rw (more, mine)
            (sits t (found i) w w.stack (set_at w.taken i true) v v.clear
              (λ j e. (
                rw (← same_slot i j e) (ltb→lt i max_ptr more),
                λ u ne h. by_seat u j (same_slot i j e) h mine,
              ))
              (λ j e. rw (← same_slot i j e) (set_same w.taken i true))
              (λ u j ne e. is_taken u j ne e (ℕ_discrete i j)) (λ j e. absurd (cc))
              (λ u j ne e. v.left u j e))
    ]
  ]
    where
      by_seat : (u j : ℕ) → i ≡ j → slot (w.seat u) ≡ some j → w.taken i ≡ false → ⊥
      by_seat u j e h mine = elim (slot_cases (w.seat u) j h) [
        | inl o ↦ let k = v.held u j o in let k' = ap w.taken e in absurd (cc)
        | inr c ↦ free u (c ∙ ap cleared (sym e))
      ]

      is_taken :
          (u j : ℕ)
          → t ≢ u
          → owned (w.seat u) ≡ some j
          → Dec (i ≡ j)
          → set_at w.taken i true j ≡ true
      is_taken u j ne e (yes same) = rw (← same) (set_same w.taken i true)
      is_taken u j ne e (no other) = set_other w.taken i j true other ∙ v.held u j e

  -- The exchange for the slot that was found, with the first access of `pop`.
  pub first_pop-Inv :
      (t i : ℕ) (w : Threads T)
      → w.seat t ≡ found i
      → Inv w
      → Inv (call nothing i begin_pop (sit t (having i) w))
  first_pop-Inv t i w at v =
      sits t (having i) w (HazardStack.step nothing (i, begin_pop) w.stack) w.taken v
        (step-Cleared nothing i begin_pop w.stack v.clear)
        (λ j e. (v.low t j (ap slot at ∙ e), λ u ne h. ne (v.alone t u j (ap slot at ∙ e) h)))
        (λ j e. v.held t j (ap owned at ∙ e)) (λ u j ne e. v.held u j e) (λ j e. absurd (cc))
        (λ u j ne e.
          ap is_idle (
            step-other nothing i begin_pop w.stack j
              (λ same. ne (v.alone t u j (ap slot at ∙ ap some same) (ap slot e))))
          ∙ v.left u j e)

  pub store_id-Inv :
      (t i : ℕ) (w : Threads T)
      → w.seat t ≡ having i
      → is_idle (w.stack.pc i) ≡ true
      → Inv w
      → Inv (sit t (cleared i) (store_id i w))
  store_id-Inv t i w at quiet v =
      sits t (cleared i) w w.stack (set_at w.taken i false) v v.clear
        (λ j e. (v.low t j (ap slot at ∙ e), λ u ne h. ne (v.alone t u j (ap slot at ∙ e) h)))
        (λ j e. absurd (cc))
        (λ u j ne e.
          set_other w.taken i j false
            (λ same. ne (v.alone t u j (ap slot at ∙ ap some same) (owned-slot (w.seat u) j e)))
          ∙ v.held u j e)
        (λ j e. rw (← same_slot i j (ap slot e)) quiet) (λ u j ne e. v.left u j e)

  -- The second store of `~hp_owner()` finds the hazard pointer null.
  pub store_pointer_lem :
      (t i : ℕ) (w : Threads T) → w.seat t ≡ cleared i → Inv w → store_pointer i w.stack ≡ w.stack
  store_pointer_lem t i w at v =
      ap (λ (f : ℕ → ℕ). record w.stack { mem = record w.stack.mem { hazard_pointers = f } })
        (fun_ext (λ j. same j))
    where
      same :
          (j : ℕ)
          → (if i == j then null else w.stack.mem.hazard_pointers j) ≡ w.stack.mem.hazard_pointers j
      same j =
          let z = v.clear i (idle-unprotected (w.stack.pc i) (v.left t i at)) in ground (arith, z)
