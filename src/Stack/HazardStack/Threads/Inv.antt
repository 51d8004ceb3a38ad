-- ===== src/Stack/HazardStack/Threads/Inv.antt =====
-- stack_lockfree.cpp, `hazard_ptr`: what the threads and the table of hazard pointers keep, as long as no slot is
-- taken between the two stores of `~hp_owner()`.
use modern_cpp_ds.Common.{
  ℕ, ◌<◌, ◌≡◌, ◌≢◌, refl, sym, ap, ◌∙◌, Bool, true, false, Option, some, none, [], ◌∷◌, ite,
  ℕ_discrete, arith, inl, inr, ◌⊎◌,
}
use modern_cpp_ds.Stack.{null}
use modern_cpp_ds.Stack.HazardStack.{
  max_ptr, then_sweep, then_next, Pc, idle, allocated, pushing, loaded, published, validated,
  exchanging, found_empty, clearing, taking, scanning, adding, deleting, sweeping, fault, Shared,
  System, Action, begin_push, begin_pop, go, protect, update, move,
}
use modern_cpp_ds.Stack.HazardStack
use modern_cpp_ds.Stack.HazardStack.Threads.{
  Seat, found, having, cleared, is_idle, set_at, Threads, sit,
}

module _ {ℓ} {A : Type ℓ} where
  pub set_same : (f : ℕ → A) (i : ℕ) (x : A) → set_at f i x i ≡ x
  set_same f i x = own (ℕ_discrete i i)
    where
      own : (d : Dec (i ≡ i)) → ite d x (f i) ≡ x
      own (yes e) = refl
      own (no ne) = absurd (ne refl)

  pub set_other : (f : ℕ → A) (i j : ℕ) (x : A) → i ≢ j → set_at f i x j ≡ f j
  set_other f i j x ne = other (ℕ_discrete i j)
    where
      other : (d : Dec (i ≡ j)) → ite d x (f j) ≡ f j
      other (yes e) = absurd (ne e)
      other (no ne') = refl

  pub set_cases :
      (f : ℕ → A) (i j : ℕ) (x : A)
      → ((i ≡ j) × (set_at f i x j ≡ x)) ⊎ ((i ≢ j) × (set_at f i x j ≡ f j))
  set_cases f i j x = elim (ℕ_discrete i j) [
    | yes e ↦ inl (e, rw (← e) (set_same f i x))
    | no ne ↦ inr (ne, set_other f i j x ne)
  ]

-- Between two operations and in a `push`, and in a `pop` after the hazard pointer was cleared.
abbrev pub unprotected : Pc → Bool
unprotected (loaded _) = false
unprotected (published _) = false
unprotected (validated _) = false
unprotected (exchanging _ _) = false
unprotected found_empty = false
unprotected (clearing _) = false
unprotected fault = false
unprotected _ = true

module _ {T : Type 0} where
  -- A slot from which nobody protects a node is null.
  abbrev pub Cleared : System T → Type 0
  Cleared s = (i : ℕ) → unprotected (s.pc i) ≡ true → s.mem.hazard_pointers i ≡ null

module _ {T : Type 0} (nothing : T) where
  move-other :
      (i : ℕ) (a : Action T) (c : Pc) (m : Shared T) (j : ℕ)
      → i ≢ j
      → (move nothing i a c m).0.hazard_pointers j ≡ m.hazard_pointers j
  unfolding move
  move-other i (begin_push v fresh junk) idle m j ne = ground arith
  move-other i begin_pop idle m j ne = ground arith
  move-other i (go _) (allocated a) m j ne = ground arith
  move-other i (go _) (pushing a) m j ne = ground arith
  move-other i (go _) (loaded old) m j ne = ground arith
  move-other i (go _) (published tmp) m j ne = ground arith
  move-other i (go _) (validated old) m j ne = ground arith
  move-other i (go _) (exchanging old next) m j ne = ground arith
  move-other i (go _) found_empty m j ne = ground arith
  move-other i (go _) (clearing old) m j ne = ground arith
  move-other i (go _) (taking old) m j ne = ground arith
  move-other i (go _) (scanning p k after) m j ne = ground arith
  move-other i (go fails) (adding p after) m j ne = ground arith
  move-other i (go _) (deleting p after) m j ne = ground arith
  move-other i (go _) (sweeping then_sweep) m j ne = refl
  move-other i (go _) (sweeping (then_next [])) m j ne = refl
  move-other i (go _) (sweeping (then_next (current ∷ next))) m j ne = refl
  move-other i _ p m j ne = refl

  move-own :
      (i : ℕ) (a : Action T) (c : Pc) (m : Shared T)
      → (unprotected c ≡ true → m.hazard_pointers i ≡ null)
      → unprotected (move nothing i a c m).1 ≡ true
      → (move nothing i a c m).0.hazard_pointers i ≡ null
  unfolding move
  move-own i (begin_push v fresh junk) idle m q e = ground (arith, q refl)
  move-own i begin_pop idle m q e = ground (arith, q refl)
  move-own i (go _) (allocated a) m q e = ground (arith, q refl)
  move-own i (go _) (pushing a) m q e = ground (arith, q refl)
  move-own i (go _) (loaded old) m q e = absurd (cc)
  move-own i (go _) (published tmp) m q e = ground arith
  move-own i (go _) (validated old) m q e = ground arith
  move-own i (go _) (exchanging old next) m q e = ground arith
  move-own i (go _) found_empty m q e = ground arith
  move-own i (go _) (clearing old) m q e = ground arith
  move-own i (go _) (taking old) m q e = ground (arith, q refl)
  move-own i (go _) (scanning p k after) m q e = ground (arith, q refl)
  move-own i (go fails) (adding p after) m q e = ground (arith, q refl)
  move-own i (go _) (deleting p after) m q e = ground (arith, q refl)
  move-own i (go _) (sweeping then_sweep) m q e = q refl
  move-own i (go _) (sweeping (then_next [])) m q e = q refl
  move-own i (go _) (sweeping (then_next (current ∷ next))) m q e = q refl
  move-own i _ p m q e = q e

  -- Only the place of the thread that moves changes.
  pub step-other :
      (i : ℕ) (a : Action T) (s : System T) (j : ℕ)
      → i ≢ j
      → (HazardStack.step nothing (i, a) s).pc j ≡ s.pc j
  unfolding HazardStack.step
  step-other i a s j ne = set_other s.pc i j _ ne

  pub step-Cleared :
      (i : ℕ) (a : Action T) (s : System T)
      → Cleared s
      → Cleared (HazardStack.step nothing (i, a) s)
  unfolding HazardStack.step
  step-Cleared i a s q j u = by_index (ℕ_discrete i j)
    where
      by_index : Dec (i ≡ j) → (HazardStack.step nothing (i, a) s).mem.hazard_pointers j ≡ null
      by_index (yes e) = rw (← e) (
          move-own i a (s.pc i) s.mem (q i) (
            ap unprotected (sym (set_same s.pc i (move nothing i a (s.pc i) s.mem).1))
            ∙ rw (← e) at u))
      by_index (no ne) =
          move-other i a (s.pc i) s.mem j ne
          ∙ q j (ap unprotected (sym (step-other i a s j ne)) ∙ u)

-- The slot that nobody else may have, and the slot whose `id` is the thread's.
abbrev pub slot : Seat → Option ℕ
slot (found i) = some i
slot (having i) = some i
slot (cleared i) = some i
slot _ = none

abbrev pub owned : Seat → Option ℕ
owned (found i) = some i
owned (having i) = some i
owned _ = none

module _ {T : Type 0} where
  pub record Inv (w : Threads T) : Type 0 where
    pub clear : Cleared w.stack
    pub low : (t i : ℕ) → slot (w.seat t) ≡ some i → i < max_ptr
    pub alone : (t u i : ℕ) → slot (w.seat t) ≡ some i → slot (w.seat u) ≡ some i → t ≡ u
    pub held : (t i : ℕ) → owned (w.seat t) ≡ some i → w.taken i ≡ true
    pub left : (t i : ℕ) → w.seat t ≡ cleared i → is_idle (w.stack.pc i) ≡ true

  -- Thread `t` changes its seat, and with it the stack or the table.
  pub sits :
      (t : ℕ) (c : Seat) (w : Threads T) (s : System T) (k : ℕ → Bool)
      → Inv w
      → Cleared s
      → ((i : ℕ) → slot c ≡ some i → (i < max_ptr) × ((u : ℕ) → t ≢ u → slot (w.seat u) ≢ some i))
      → ((i : ℕ) → owned c ≡ some i → k i ≡ true)
      → ((u i : ℕ) → t ≢ u → owned (w.seat u) ≡ some i → k i ≡ true)
      → ((i : ℕ) → c ≡ cleared i → is_idle (s.pc i) ≡ true)
      → ((u i : ℕ) → t ≢ u → w.seat u ≡ cleared i → is_idle (s.pc i) ≡ true)
      → Inv (record { stack = s; taken = k; seat = set_at w.seat t c })
  sits t c w s k v q new_slot new_held old_held new_left old_left = record {
    clear = q;
    low = λ u i e. elim (set_cases w.seat t u c) [
      | inl (_, h) ↦ (new_slot i (ap slot (sym h) ∙ e)).0
      | inr (_, h) ↦ v.low u i (ap slot (sym h) ∙ e)
    ];
    alone = λ u u' i e e'. elim (set_cases w.seat t u c) [
      | inl (s, h) ↦ elim (set_cases w.seat t u' c) [
        | inl (s', _) ↦ sym s ∙ s'
        | inr (ne, h') ↦ absurd ((new_slot i (ap slot (sym h) ∙ e)).1 u' ne (ap slot (sym h') ∙ e'))
      ]
      | inr (ne, h) ↦ elim (set_cases w.seat t u' c) [
        | inl (_, h') ↦ absurd ((new_slot i (ap slot (sym h') ∙ e')).1 u ne (ap slot (sym h) ∙ e))
        | inr (_, h') ↦ v.alone u u' i (ap slot (sym h) ∙ e) (ap slot (sym h') ∙ e')
      ]
    ];
    held = λ u i e. elim (set_cases w.seat t u c) [
      | inl (_, h) ↦ new_held i (ap owned (sym h) ∙ e)
      | inr (ne, h) ↦ old_held u i ne (ap owned (sym h) ∙ e)
    ];
    left = λ u i e. elim (set_cases w.seat t u c) [
      | inl (_, h) ↦ new_left i (sym h ∙ e)
      | inr (ne, h) ↦ old_left u i ne (sym h ∙ e)
    ];
  }

  -- Nothing but the stack changes, and no slot that is being given back.
  pub moves :
      (w : Threads T) (s : System T)
      → Inv w
      → Cleared s
      → ((u i : ℕ) → w.seat u ≡ cleared i → s.pc i ≡ w.stack.pc i)
      → Inv (record w { stack = s })
  moves w s v q same = record {
    clear = q;
    low = v.low;
    alone = v.alone;
    held = v.held;
    left = λ u i e. ap is_idle (same u i e) ∙ v.left u i e;
  }

  -- Thread `t` changes its seat and does not get a slot.
  pub sits_aside :
      (t : ℕ) (c : Seat) (w : Threads T) → slot c ≡ none → owned c ≡ none → Inv w → Inv (sit t c w)
  sits_aside t c w no_slot no_owned v =
      sits t c w w.stack w.taken v v.clear (λ i e. absurd (cc)) (λ i e. absurd (cc))
        (λ u i ne e. v.held u i e) (λ i e. let e' : slot c ≡ some i = ap slot e in absurd (cc))
        (λ u i ne e. v.left u i e)
