-- ===== src/Stack/HazardStack/Threads/Stay.antt =====
-- stack_lockfree.cpp, `hazard_ptr`: threads that do not exit never meet `~hp_owner()`.
use modern_cpp_ds.Common.{
  ℕ, suc, ◌+◌, ◌≡◌, ◌≢◌, refl, sym, ◌∙◌, true, List, [], ◌∷◌, ◌++◌, Bool-cases, inl, inr, ltb,
}
use modern_cpp_ds.Stack.HazardStack.{max_ptr, Action, begin_push, begin_pop, go}
use modern_cpp_ds.Stack.HazardStack.Threads.{
  Seat, without, searching, found, having, cleared, is_idle, Move, acts, exits, Threads, sit,
  set_at, thread_move, step, run, start, Orderly,
}
use modern_cpp_ds.Stack.HazardStack.Threads.Inv.{set_cases}

module _ {T : Type 0} (nothing : T) where
  -- No thread exits in this schedule.
  abbrev pub Stays : List (ℕ × Move T) → Type 0
  Stays [] = Unit {0}
  Stays ((_, acts _) ∷ es) = Stays es
  Stays ((_, exits) ∷ es) = ⊥

  abbrev NoneCleared : Threads T → Type 0
  NoneCleared w = (u i : ℕ) → w.seat u ≢ cleared i

  sit-NoneCleared :
      (t : ℕ) (c : Seat) (w : Threads T)
      → ((i : ℕ) → c ≢ cleared i)
      → NoneCleared w
      → NoneCleared (sit t c w)
  sit-NoneCleared t c w ne n u i e = elim (set_cases w.seat t u c) [
    | inl (_, h) ↦ ne i (sym h ∙ e)
    | inr (_, h) ↦ n u i (sym h ∙ e)
  ]

  acts-NoneCleared :
      (t : ℕ) (a : Action T) (c : Seat) (w : Threads T)
      → w.seat t ≡ c
      → NoneCleared w
      → NoneCleared (thread_move nothing t (acts a) c w)
  unfolding thread_move
  acts-NoneCleared t begin_pop without w at n =
      elim (Bool-cases (is_idle (w.stack.pc (max_ptr + t)))) [
        | inl e ↦ rw e (sit-NoneCleared t (searching 0) w (λ i h. absurd (cc)) n)
        | inr e ↦ rw e n
      ]
  acts-NoneCleared t (go b) (searching i) w at n = elim (Bool-cases (ltb i max_ptr)) [
    | inr e ↦ rw e (sit-NoneCleared t without w (λ i h. absurd (cc)) n)
    | inl e ↦ elim (Bool-cases (w.taken i)) [
      | inl e' ↦ rw (e, e') (sit-NoneCleared t (searching (suc i)) w (λ i h. absurd (cc)) n)
      | inr e' ↦
          rw (e, e')
            (sit-NoneCleared t (found i) (record w { taken = set_at w.taken i true })
              (λ i h. absurd (cc)) n)
    ]
  ]
  acts-NoneCleared t (go b) (found i) w at n = sit-NoneCleared t (having i) w (λ i h. absurd (cc)) n
  acts-NoneCleared t (begin_push x fresh junk) without w at n = n
  acts-NoneCleared t (go b) without w at n = n
  acts-NoneCleared t a (having i) w at n = n
  acts-NoneCleared t (go b) (cleared i) w at n = absurd (n t i at)
  acts-NoneCleared t _ _ w at n = n

  stays : (es : List (ℕ × Move T)) (w : Threads T) → NoneCleared w → Stays es → Orderly nothing es w
  unfolding step Orderly
  stays [] w n s = tt
  stays ((t, acts a) ∷ es) w n s = (
    λ i e u. n u i,
    stays es (step nothing (t, acts a) w) (acts-NoneCleared t a (w.seat t) w refl n) s,
  )
  stays ((t, exits) ∷ es) w n s = absurd s

  -- As long as no thread exits, no slot is taken between the two stores of `~hp_owner()`.
  pub Stays-Orderly : (es : List (ℕ × Move T)) → Stays es → Orderly nothing es start
  Stays-Orderly es s = stays es start (λ u i e. absurd (cc)) s

  -- One schedule after another.
  pub Orderly-append :
      (es es' : List (ℕ × Move T)) (w : Threads T)
      → Orderly nothing es w
      → Orderly nothing es' (run nothing es w)
      → Orderly nothing (es ++ es') w
  unfolding run step Orderly
  Orderly-append [] es' w o o' = o'
  Orderly-append ((t, a) ∷ es) es' w (o, os) o' =
      (o, Orderly-append es es' (step nothing (t, a) w) os o')

  pub Orderly-rest :
      (es es' : List (ℕ × Move T)) (w : Threads T)
      → Orderly nothing (es ++ es') w
      → Orderly nothing es' (run nothing es w)
  unfolding run step Orderly
  Orderly-rest [] es' w o = o
  Orderly-rest (e ∷ es) es' w (_, os) = Orderly-rest es es' (step nothing e w) os
