-- ===== src/Stack/LowContention/Recycles.antt =====
-- stack_lockfree.cpp, namespace `low_contention`: every access of `pop` to a node, and of `try_reclaim`.
use modern_cpp_ds.Common.{
  ℕ, ◌+◌, ◌^◌, ◌<◌, ◌≡◌, ◌≢◌, refl, sym, ap, ◌∙◌, Bool, inl, inr, none, List, [], ◌∷◌, length,
  arith, ℕ_discrete, Option-cases,
}
use modern_cpp_ds.Common.Counts.{count}
use modern_cpp_ds.Stack.{null, node}
use modern_cpp_ds.Stack.Chain.{Cells}
use modern_cpp_ds.Stack.Refine.{silent}
use modern_cpp_ds.Stack.LowContention.{
  then_leave, Pc, idle, loaded, popping, taking, reclaiming, sole, exchanged, deleting, walking,
  linking, dropping, leaving, Shared, go, move, decremented,
}
use modern_cpp_ds.Stack.LowContention.Inv.{
  Place, held, claimed, Seeable, seen, counted, Owns, Local, Inv,
}
use modern_cpp_ds.Stack.LowContention.Places.{held_of}
use modern_cpp_ds.Stack.LowContention.Moves.{quiet, writes}
use modern_cpp_ds.Stack.LowContention.Pops.{uncounts, length-without, claims_own}
use modern_cpp_ds.Stack.LowContention.Paths.{empty_after_null}
use modern_cpp_ds.Stack.LowContention.Reclaims.{takes, claims_list}
use modern_cpp_ds.Stack.LowContention.Refine.{Moved, Moved-of, silently}
use modern_cpp_ds.Stack.LowContention.Accesses.{live}

module _ {T : Type 0} (nothing : T) (i : ℕ) (m : Shared T) (pc : ℕ → Pc) (cs : Cells T)
    (inside ps : List ℕ) (place : ℕ → Place) (v : Inv cs inside ps place m pc)
    (few : length inside + 1 < 2 ^ 64) where
  abbrev Goes : (b : Bool) → Pc → Type 0
  Goes b c = Moved i (move nothing (go b) c m) pc silent cs (length inside + 1)

  -- A move that changes no memory, to a place where no node is loaded.
  pub onward :
      (c c' : Pc)
      → pc i ≡ c
      → counted c' ≡ counted c
      → Local i c' place m.heap
      → seen c' ≡ none
      → Moved i (m, c') pc silent cs (length inside + 1)
  onward c c' at n self blind =
      silently
        (quiet i m pc cs inside ps place v c' (n ∙ ap counted (sym at)) self (λ a s. absurd (cc)))
        (omega arith)

  pub null_free : m.heap null ≡ none
  null_free = v.gone null v.no_null

  pub held_live : (a : ℕ) → place a ≡ held i → m.heap a ≢ none
  held_live a e = live nothing i m pc cs inside ps place v few a e (λ e. cc)

  pub claimed_live : (a : ℕ) → place a ≡ claimed i → m.heap a ≢ none
  claimed_live a e = live nothing i m pc cs inside ps place v few a e (λ e. cc)

  -- The thread decrements the counter.
  leaves :
      (c c' : Pc)
      → pc i ≡ c
      → counted c ≡ 1
      → counted c' ≡ 0
      → Local i c' place m.heap
      → seen c' ≡ none
      → Moved i (record m { threads_in_pop = decremented m }, c') pc silent cs (length inside + 1)
  leaves c c' at one zero self blind =
      silently
        (uncounts i m pc cs inside ps place v c' (ap counted at ∙ one) (omega arith) zero self
          blind)
        (omega (arith, length-without i inside))

  pub follows : (b : Bool) (old : ℕ) → pc i ≡ loaded old → Goes b (loaded old)
  unfolding move
  follows b old at =
      let o : Owns i place [] [] = rw at at (v.locals i) in
      elim (ℕ_discrete old null) [
        | yes z ↦ Moved-of (ground arith) refl (onward (loaded old) leaving at refl o refl)
        | no nz ↦
            let sees : Seeable (place old) = v.visible i old (ap seen at ∙ ground arith) in
            elim (Option-cases (m.heap old)) [
              | inl f ↦ absurd (let hidden = rw (v.there old f) at sees in hidden)
              | inr (node x next, f) ↦ Moved-of {r = (m, popping old next)} (ground arith) refl (
                  silently
                    (quiet i m pc cs inside ps place v (popping old next) (ap counted (sym at))
                      (o, nz, λ h. (x, f))
                      (λ a s. let same : old ≡ a = ground arith in rw (← same) sees))
                    (omega arith))
            ]
      ]

  pub swaps : (b : Bool) (old : ℕ) → pc i ≡ taking old → Goes b (taking old)
  unfolding move count
  swaps b old at =
      let o : Owns i place (old ∷ []) [] = rw at at (v.locals i) in
      let mine = held_of i (place old) (ground (arith, o old)) in
      elim (Option-cases (m.heap old)) [
        | inl f ↦ absurd (held_live old mine f)
        | inr (node x next, f) ↦ Moved-of (ground arith) refl (
            silently
              (writes i m pc cs inside ps place v old (node x next) (node nothing next)
                (reclaiming old) f (inl mine) (ap counted (sym at)) o refl)
              (omega arith))
      ]

  pub tests_count : (b : Bool) (old : ℕ) → pc i ≡ reclaiming old → Goes b (reclaiming old)
  unfolding move
  tests_count b old at = elim (ℕ_discrete m.threads_in_pop 1) [
    | yes one ↦
        Moved-of (ground arith) refl
          (silently (claims_own i m pc cs inside ps place v old at one) (omega arith))
    | no more ↦ Moved-of (ground arith) refl (
        onward (reclaiming old) (linking old old then_leave) at refl
          ([], refl, rw at at (v.locals i)) refl)
  ]

  pub takes_list : (b : Bool) (old : ℕ) → pc i ≡ sole old → Goes b (sole old)
  unfolding move
  takes_list b old at = silently (takes i m pc cs inside ps place v old at) (omega arith)

  pub decrements :
      (b : Bool) (nodes old : ℕ) → pc i ≡ exchanged nodes old → Goes b (exchanged nodes old)
  unfolding move
  decrements b nodes old at =
      let (xs, path, o) : Local i (exchanged nodes old) place m.heap = rw at at (v.locals i) in
      elim (ℕ_discrete (decremented m) 0) [
        | yes z ↦
            Moved-of {r = (record m { threads_in_pop = decremented m }, deleting nodes old)}
              (rw z refl) refl
              (silently (claims_list i m pc cs inside ps place v nodes old at (omega arith) z)
                (omega (arith, length-without i inside)))
        | no some_left ↦ elim (ℕ_discrete nodes null) [
          | yes e ↦
              let empty = empty_after_null m.heap xs null null_free (rw e at path) in
              Moved-of {r = (record m { threads_in_pop = decremented m }, dropping old)}
                (ground arith) refl
                (leaves (exchanged nodes old) (dropping old) at refl refl (rw empty at o) refl)
          | no ne ↦
              Moved-of {r = (record m { threads_in_pop = decremented m }, walking nodes nodes old)}
                (ground arith) refl
                (leaves (exchanged nodes old) (walking nodes nodes old) at refl refl
                  ([], xs, refl, path, ne, o) refl)
        ]
      ]

  pub departs : (b : Bool) → pc i ≡ leaving → Goes b leaving
  unfolding move
  departs b at = leaves leaving idle at refl refl (rw at at (v.locals i)) refl
