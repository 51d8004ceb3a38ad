-- ===== src/Stack/LowContention/Lists.antt =====
-- stack_lockfree.cpp, namespace `low_contention`: the accesses of `delete_nodes` and
-- `chain_pending_nodes`.
use modern_cpp_ds.Common.{
  ℕ, ◌+◌, ◌^◌, ◌<◌, ◌≡◌, ◌≢◌, refl, sym, ap, ◌∙◌, Bool, inl, inr, some, List, [], ◌∷◌, ◌++◌, length,
  arith, ℕ_discrete, Option-cases,
}
use modern_cpp_ds.Common.Counts.{count, count-append}
use modern_cpp_ds.Stack.{null, node, store, Heap}
use modern_cpp_ds.Stack.Chain.{Cells}
use modern_cpp_ds.Stack.Refine.{silent}
use modern_cpp_ds.Stack.LowContention.{
  After, then_delete, Pc, idle, deleting, walking, linking, chaining, dropping, Shared, go, move,
  resume, delete_node,
}
use modern_cpp_ds.Stack.LowContention.Inv.{Place, held, counted, Owns, Leads, Local, Inv, later}
use modern_cpp_ds.Stack.LowContention.Change.{Leads-Kept}
use modern_cpp_ds.Stack.LowContention.Places.{held_of, claimed_of}
use modern_cpp_ds.Stack.LowContention.Moves.{writes}
use modern_cpp_ds.Stack.LowContention.Reclaims.{frees, gives}
use modern_cpp_ds.Stack.LowContention.Paths.{Leads-append, empty_after_null}
use modern_cpp_ds.Stack.LowContention.Refine.{Moved, Moved-of, silently}
use modern_cpp_ds.Stack.LowContention.Recycles.{onward, null_free, held_live, claimed_live}

-- A list that is not null has a first node.
first_node :
    {T : Type 0} (h : Heap T) (p : ℕ) (xs : List ℕ)
    → p ≢ null
    → Leads h p xs null
    → (d : T) × (next : ℕ) × (ys : List ℕ) × (xs ≡ p ∷ ys)
      × (h p ≡ some (node d next))
      × Leads h next ys null
first_node h p [] nz e = absurd (nz e)
first_node h p (a ∷ xs) nz (e, (d, next, f, rest)) = (d, next, xs, rw e refl, rw e f, rest)

module _ {T : Type 0} (nothing : T) (i : ℕ) (m : Shared T) (pc : ℕ → Pc) (cs : Cells T)
    (inside ps : List ℕ) (place : ℕ → Place) (v : Inv cs inside ps place m pc)
    (few : length inside + 1 < 2 ^ 64) where
  abbrev Goes : (b : Bool) → Pc → Type 0
  Goes b c = Moved i (move nothing (go b) c m) pc silent cs (length inside + 1)

  pub deletes : (b : Bool) (list old : ℕ) → pc i ≡ deleting list old → Goes b (deleting list old)
  unfolding move count
  deletes b list old at =
      let (xs, path, o) : Local i (deleting list old) place m.heap = rw at at (v.locals i) in
      elim (ℕ_discrete list null) [
        | yes z ↦
            let none_left =
              empty_after_null m.heap xs null (null_free nothing i m pc cs inside ps place v few)
                (rw z at path) in
            Moved-of {r = (m, dropping old)} (ground arith) refl (
              onward nothing i m pc cs inside ps place v few (deleting list old) (dropping old) at
                refl (rw none_left at o) refl)
        | no nz ↦
            let (d, next, ys, e, f, rest) = first_node m.heap list xs nz path in
            let o' : Owns i place [] (old ∷ list ∷ ys) = rw e at o in
            let mine = claimed_of i (place list) (ground (arith, o' list)) in
            let once : (count list ys ≡ 0) = ground (arith, o' list, mine) in
            let kept =
              Leads-Kept m.heap (delete_node list m).heap next ys null (λ a l. ground arith) rest in
            Moved-of {r = (delete_node list m, deleting next old)} (ground arith) refl (
              silently
                (frees i m pc cs inside ps place v list (deleting next old)
                  (claimed_live nothing i m pc cs inside ps place v few list mine) mine
                  (ap counted (sym at)) (ys, kept, λ a. ground (arith, o' a, mine)) refl)
                (omega arith))
      ]

  pub walks :
      (b : Bool) (first list old : ℕ)
      → pc i ≡ walking first list old
      → Goes b (walking first list old)
  unfolding move count
  walks b first list old at =
      let (xs, ys, px, py, nz, o) : Local i (walking first list old) place m.heap =
        rw at at (v.locals i) in
      let (d, next, zs, e, f, rest) = first_node m.heap list ys nz py in
      let o' : Owns i place (xs ++ (list ∷ zs)) (old ∷ []) = rw e at o in
      elim (ℕ_discrete next null) [
        | yes z ↦
            let last =
              empty_after_null m.heap zs null (null_free nothing i m pc cs inside ps place v few)
                (rw z at rest) in
            Moved-of {r = (m, linking first list (then_delete old))} (ground arith) refl (
              onward nothing i m pc cs inside ps place v few (walking first list old)
                (linking first list (then_delete old)) at refl (xs, px, rw last at o') refl)
        | no ne ↦
            let one : Leads m.heap list (list ∷ []) next = (refl, (d, next, f, refl)) in
            let passed = Leads-append m.heap first xs list (list ∷ []) next px one in
            Moved-of {r = (m, walking first next old)} (ground arith) refl (
              onward nothing i m pc cs inside ps place v few (walking first list old)
                (walking first next old) at refl
                (
                  xs ++ (list ∷ []),
                  zs,
                  passed,
                  rest,
                  ne,
                  λ a. (
                    omega (
                      arith,
                      (o' a).0,
                      count-append a xs (list ∷ zs),
                      count-append a (xs ++ (list ∷ [])) zs,
                      count-append a xs (list ∷ []),
                      count-append a (list ∷ []) zs,
                    ),
                    (o' a).1,
                  ),
                )
                refl)
      ]

  module _ (first last : ℕ) (after : After) (c : Pc) (at : pc i ≡ c)
      (same : counted c ≡ counted (chaining first last after)) (xs : List ℕ)
      (path : Leads m.heap first xs last) (o : Owns i place (xs ++ (last ∷ [])) (later after)) where
    last_held : place last ≡ held i
    unfolding count
    last_held = held_of i (place last) (ground (arith, o last, count-append last xs (last ∷ [])))

    -- The thread writes `to_be_deleted` into the last node of its list.
    links_last :
        (x : T) (next : ℕ)
        → m.heap last ≡ some (node x next)
        → Moved i
            (
              record m { heap = store m.heap last (node x m.to_be_deleted) },
              chaining first last after,
            )
            pc
            silent
            cs
            (length inside + 1)
    unfolding count
    links_last x next f =
        let once : count last xs ≡ 0 =
          ground (arith, o last, count-append last xs (last ∷ []), last_held) in
        let kept =
          Leads-Kept m.heap (store m.heap last (node x m.to_be_deleted)) first xs last
            (λ a l. ground arith) path in
        silently
          (writes i m pc cs inside ps place v last (node x next) (node x m.to_be_deleted)
            (chaining first last after) f (inl last_held) (sym (ap counted at ∙ same)) (xs, kept, o)
            refl)
          (omega arith)

  pub loads_pending :
      (b : Bool) (first last : ℕ) (after : After)
      → pc i ≡ linking first last after
      → Goes b (linking first last after)
  unfolding move
  loads_pending b first last after at =
      let (xs, path, o) : Local i (linking first last after) place m.heap = rw at at (v.locals i) in
      elim (Option-cases (m.heap last)) [
        | inl f ↦ absurd (
            held_live nothing i m pc cs inside ps place v few last
              (last_held first last after (linking first last after) at refl xs path o) f)
        | inr (node x next, f) ↦
            Moved-of (ground arith) refl
              (links_last first last after (linking first last after) at refl xs path o x next f)
      ]

  pub chains :
      (b : Bool) (first last : ℕ) (after : After)
      → pc i ≡ chaining first last after
      → Goes b (chaining first last after)
  unfolding move
  chains b first last after at =
      let (xs, path, o) : Local i (chaining first last after) place m.heap =
        rw at at (v.locals i) in
      elim (Option-cases (m.heap last)) [
        | inl f ↦ absurd (
            held_live nothing i m pc cs inside ps place v few last
              (last_held first last after (chaining first last after) at refl xs path o) f)
        | inr (node x next, f) ↦ elim (ℕ_discrete m.to_be_deleted next) [
          | yes h ↦
              let (ps', inv) = gives i m pc cs inside ps place v first last after x at (rw h f) in
              Moved-of {r = (record m { to_be_deleted = first }, resume after)} (ground arith) refl
                (silently inv (omega arith))
          | no ne ↦
              Moved-of (ground arith) refl
                (links_last first last after (chaining first last after) at refl xs path o x next f)
        ]
      ]

  pub drops : (b : Bool) (old : ℕ) → pc i ≡ dropping old → Goes b (dropping old)
  unfolding move count
  drops b old at =
      let o : Owns i place [] (old ∷ []) = rw at at (v.locals i) in
      let mine = claimed_of i (place old) (ground (arith, o old)) in
      let here = claimed_live nothing i m pc cs inside ps place v few old mine in
      elim (Option-cases (m.heap old)) [
        | inl f ↦ absurd (here f)
        | inr (n, f) ↦ Moved-of {r = (delete_node old m, idle)} (ground arith) refl (
            silently
              (frees i m pc cs inside ps place v old idle here mine (ap counted (sym at))
                (λ a. ground (arith, o a, mine)) refl)
              (omega arith))
      ]
