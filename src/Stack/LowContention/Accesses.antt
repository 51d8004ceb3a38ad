-- ===== src/Stack/LowContention/Accesses.antt =====
-- stack_lockfree.cpp, namespace `low_contention`: every access of `push`, and those of `pop` to the list.
use modern_cpp_ds.Common.{
  ℕ, ◌+◌, ◌^◌, ◌<◌, ◌≡◌, ◌≢◌, refl, sym, ap, ◌∙◌, Bool, inl, inr, none, some, List, [], ◌∷◌, ◌==◌,
  length, arith, ℕ_discrete, if◌then◌else◌, Option-cases, Bool-cases,
}
use modern_cpp_ds.Common.Counts.{count}
use modern_cpp_ds.Stack.{null, node, is_free, store}
use modern_cpp_ds.Stack.Chain.{Cells, values, Chain}
use modern_cpp_ds.Stack.Refine.{silent, pushes, pops, finds_empty}
use modern_cpp_ds.Stack.LowContention.{
  Pc, idle, allocated, pushing, entered, loaded, popping, taking, Shared, Action, begin_push,
  begin_pop, go, move,
}
use modern_cpp_ds.Stack.LowContention.Inv.{
  Place, stacked, held, claimed, is_claimed, Seeable, seen, counted, Owns, Local, Inv, nowhere,
  addresses, is_stacked,
}
use modern_cpp_ds.Stack.LowContention.Places.{claimed_of, stacked_of, put}
use modern_cpp_ds.Stack.LowContention.Moves.{quiet, writes, makes, enters, links}
use modern_cpp_ds.Stack.LowContention.Pops.{unlinks}
use modern_cpp_ds.Stack.LowContention.Refine.{effect, Moved, Moved-of, silently, load-Applies}

module _ {T : Type 0} (nothing : T) (i : ℕ) (m : Shared T) (pc : ℕ → Pc) (cs : Cells T)
    (inside ps : List ℕ) (place : ℕ → Place) (v : Inv cs inside ps place m pc)
    (few : length inside + 1 < 2 ^ 64) where
  abbrev Goes : Action T → Pc → Type 0
  Goes a c = Moved i (move nothing a c m) pc (effect a c m) cs (length inside + 1)

  -- What is somewhere is there.
  pub live : (a : ℕ) {p : Place} → place a ≡ p → p ≢ nowhere → m.heap a ≢ none
  live a e ne f = ne (sym e ∙ v.there a f)

  pub claimed_here : (a : ℕ) → 0 < is_claimed i (place a) → place a ≡ claimed i
  claimed_here a h = claimed_of i (place a) h

  pub allocates : (x : T) (fresh junk : ℕ) → pc i ≡ idle → Goes (begin_push x fresh junk) idle
  unfolding move
  allocates x fresh junk at = elim (Bool-cases (is_free m.heap fresh)) [
    | inl free ↦
        let facts : (m.heap fresh ≡ none) × (fresh ≢ null) = ground arith in
        Moved-of (ground arith) refl (
          silently (makes i m pc cs inside ps place v fresh (node x junk) facts.0 facts.1 at)
            (omega arith))
    | inr used ↦ Moved-of {r = (m, idle)} (ground arith) refl (
        silently
          (quiet i m pc cs inside ps place v idle (ap counted (sym at)) (rw at at (v.locals i))
            (λ a s. absurd (cc)))
          (omega arith))
  ]

  pub begins_pop : pc i ≡ idle → Goes begin_pop idle
  unfolding move
  begins_pop at = silently (enters i m pc cs inside ps place v at few) (omega arith)

  pub first_load : (b : Bool) (a : ℕ) → pc i ≡ allocated a → Goes (go b) (allocated a)
  unfolding move count
  first_load b a at =
      let o : Owns i place [] (a ∷ []) = rw at at (v.locals i) in
      let mine = claimed_of i (place a) (ground (arith, o a)) in
      elim (Option-cases (m.heap a)) [
        | inl f ↦ absurd (live a mine (λ e. cc) f)
        | inr (node x next, f) ↦ Moved-of (ground arith) refl (
            silently
              (writes i m pc cs inside ps place v a (node x next) (node x m.head) (pushing a) f
                (inr mine) (ap counted (sym at)) o refl)
              (omega arith))
      ]

  pub exchanges_push : (b : Bool) (a : ℕ) → pc i ≡ pushing a → Goes (go b) (pushing a)
  unfolding move count
  exchanges_push b a at =
      let o : Owns i place [] (a ∷ []) = rw at at (v.locals i) in
      let mine = claimed_of i (place a) (ground (arith, o a)) in
      elim (Option-cases (m.heap a)) [
        | inl f ↦ absurd (live a mine (λ e. cc) f)
        | inr (node x next, f) ↦
            let again : Moved i (record m { heap = store m.heap a (node x m.head) }, pushing a) pc
                silent cs (length inside + 1) =
              silently
                (writes i m pc cs inside ps place v a (node x next) (node x m.head) (pushing a) f
                  (inr mine) (ap counted (sym at)) o refl)
                (omega arith) in
            elim (Bool-cases b) [
              | inl weak ↦ Moved-of (ground arith) (ground arith) again
              | inr strong ↦ elim (ℕ_discrete m.head next) [
                | yes h ↦
                    Moved-of {r = (record m { head = a }, idle)} {eff = pushes x} (ground arith)
                      (ground arith)
                      (record {
                        cells = (a, x) ∷ cs;
                        inside = inside;
                        waiting = ps;
                        place = put place a stacked;
                        inv = links i m pc cs inside ps place v a x at (rw h f);
                        fits = omega arith;
                        applies = refl;
                      })
                | no ne ↦ Moved-of (ground arith) (ground arith) again
              ]
            ]
      ]

  -- The head is loaded, by the first load of `pop` or by its failed exchange.
  loads_head :
      (c : Pc)
      → pc i ≡ c
      → counted c ≡ 1
      → Owns i place [] []
      → Moved i
          (m, loaded m.head)
          pc
          (if m.head == null then finds_empty else silent)
          cs
          (length inside + 1)
  unfolding count
  loads_head c at n o = record {
    cells = cs;
    inside = inside;
    waiting = ps;
    place = place;
    inv =
        quiet i m pc cs inside ps place v (loaded m.head) (sym (ap counted at ∙ n)) o
          (λ a s. sees a cs v.chain v.in_stack s);
    fits = omega arith;
    applies = load-Applies m cs v.chain;
  }
    where
      sees :
          (a : ℕ) (ds : Cells T)
          → Chain m.heap m.head ds
          → ((b : ℕ) → count b (addresses ds) ≡ is_stacked (place b))
          → seen (loaded m.head) ≡ some a
          → Seeable (place a)
      sees a [] c n s = absurd (ground arith)
      sees a ((b, x) ∷ ds) (at_b, nz, r) n s =
          let same : b ≡ a = ground arith in
          let here = stacked_of (place a) (ground (arith, n a)) in rw here tt

  pub loads : (b : Bool) → pc i ≡ entered → Goes (go b) entered
  unfolding move
  loads b at = loads_head entered at refl (rw at at (v.locals i))

  pub exchanges_pop :
      (b : Bool) (old next : ℕ) → pc i ≡ popping old next → Goes (go b) (popping old next)
  unfolding move
  exchanges_pop b old next at = elim (ℕ_discrete m.head old) [
    | yes h ↦
        let (x, rest, list, f, inv) = unlinks i m pc cs inside ps place v old next at h in
        Moved-of {r = (record m { head = next }, taking old)} {eff = pops x} (ground arith)
          (ground arith)
          (record {
            cells = rest;
            inside = inside;
            waiting = ps;
            place = put place old (held i);
            inv = inv;
            fits = omega arith;
            applies = ap values list;
          })
    | no ne ↦
        let (o, _, _) : Local i (popping old next) place m.heap = rw at at (v.locals i) in
        Moved-of (ground arith) (ground arith) (loads_head (popping old next) at refl o)
  ]
