-- ===== src/Stack/LowContention/Deliver.antt =====
-- stack_lockfree.cpp, namespace `low_contention`: the value that `pop` returns.
use modern_cpp_ds.Common.{
  ℕ, ◌+◌, ◌^◌, ◌<◌, ◌≡◌, ◌≢◌, refl, ◌∙◌, false, none, some, List, [], ◌∷◌, length, arith, Option,
}
use modern_cpp_ds.Common.Counts.{count, count-append}
use modern_cpp_ds.Stack.{null, node, Heap}
use modern_cpp_ds.Stack.Chain.{Cells}
use modern_cpp_ds.Stack.Refine.{pops}
use modern_cpp_ds.Stack.LowContention.{
  Pc, idle, allocated, pushing, popping, taking, deleting, linking, chaining, dropping, Shared,
  System, Action, begin_push, go, move, step, run, create,
}
use modern_cpp_ds.Stack.LowContention.Inv.{is_held, is_claimed, Place, Owns, Local, Inv}
use modern_cpp_ds.Stack.LowContention.Places.{held_of}
use modern_cpp_ds.Stack.LowContention.Pops.{unlinks}
use modern_cpp_ds.Stack.LowContention.Refine.{effect}
use modern_cpp_ds.Stack.LowContention.Runs.{move-Moved, ran}

-- The node that the thread writes or deletes by its next access.
abbrev touches : Pc → Option ℕ
touches (allocated a) = some a
touches (pushing a) = some a
touches (taking a) = some a
touches (deleting a _) = some a
touches (linking _ a _) = some a
touches (chaining _ a _) = some a
touches (dropping a) = some a
touches _ = none

-- The thread does not move in this schedule.
abbrev pub Absent {ℓ} : {A : Type ℓ} → ℕ → List (ℕ × A) → Type 0
Absent i [] = Unit {0}
Absent i ((j, _) ∷ es) = (i ≢ j) × Absent i es

module _ {T : Type 0} (nothing : T) where
  -- A move leaves alone whatever it does not write to.
  pub move_keeps :
      (a : ℕ) (act : Action T) (c : Pc) (m : Shared T)
      → touches c ≢ some a
      → m.heap a ≢ none
      → (move nothing act c m).0.heap a ≡ m.heap a
  unfolding move
  move_keeps a (begin_push x fresh junk) idle m o l = ground arith
  move_keeps a (go b) (allocated c) m o l = ground arith
  move_keeps a (go b) (pushing c) m o l = ground arith
  move_keeps a (go b) (taking c) m o l = ground arith
  move_keeps a (go b) (deleting c old) m o l = ground arith
  move_keeps a (go b) (linking first last after) m o l = ground arith
  move_keeps a (go b) (chaining first last after) m o l = ground arith
  move_keeps a (go b) (dropping c) m o l = ground arith
  move_keeps a _ _ m o l = ground arith

  -- What another thread holds or claims, this one does not touch.
  pub untouched :
      (i j a : ℕ) (c : Pc) (place : ℕ → Place) (h : Heap T)
      → i ≢ j
      → 0 < is_held i (place a) + is_claimed i (place a)
      → h a ≢ none
      → h null ≡ none
      → Local j c place h
      → touches c ≢ some a
  unfolding count
  untouched i j a (allocated b) place h ne at live nl o e = ground (arith, o a)
  untouched i j a (pushing b) place h ne at live nl o e = ground (arith, o a)
  untouched i j a (taking b) place h ne at live nl o e = ground (arith, o a)
  untouched i j a (dropping b) place h ne at live nl o e = ground (arith, o a)
  untouched i j a (deleting b old) place h ne at live nl ([], path, o) e =
      let z : b ≡ null = path in ground arith
  untouched i j a (deleting b old) place h ne at live nl (d ∷ xs, (same, rest), o) e =
      ground (arith, o a)
  untouched i j a (linking first last after) place h ne at live nl (xs, path, o) e =
      ground (arith, o a, count-append a xs (last ∷ []))
  untouched i j a (chaining first last after) place h ne at live nl (xs, path, o) e =
      ground (arith, o a, count-append a xs (last ∷ []))
  untouched i j a c place h ne at live nl o e = cc

  stays :
      (i old : ℕ) (es : List (ℕ × Action T)) (s : System T) (cs : Cells T) (inside ps : List ℕ)
      (place : ℕ → Place)
      → Inv cs inside ps place s.mem s.pc
      → length inside + length es < 2 ^ 64
      → Absent i es
      → s.pc i ≡ taking old
      → ((run nothing es s).mem.heap old ≡ s.mem.heap old) × ((run nothing es s).pc i ≡ taking old)
  unfolding run step count
  stays i old [] s cs inside ps place v few away at = (refl, at)
  stays i old ((j, a) ∷ es) s cs inside ps place v few (ne, away) at =
      let o : Owns i place (old ∷ []) [] = rw at at (v.locals i) in
      let mine = held_of i (place old) (ground (arith, o old)) in
      let live : s.mem.heap old ≢ none = λ f. cc (v.there old f, mine) in
      let kept =
        move_keeps old a (s.pc j) s.mem
          (untouched i j old (s.pc j) place s.mem.heap ne (ground (arith, o old)) live
            (v.gone null v.no_null) (v.locals j))
          live in
      let one =
        move-Moved nothing a (s.pc j) j s.mem s.pc cs inside ps place v (omega arith) refl in
      let rest =
        stays i old es (step nothing (j, a) s) one.cells one.inside one.waiting one.place one.inv
          (omega (arith, one.fits)) away (ground arith) in
      (rest.0 ∙ kept, rest.1)

  delivers :
      (s : System T) (others : List (ℕ × Action T)) (i old next : ℕ) (cs : Cells T)
      (inside ps : List ℕ) (place : ℕ → Place)
      → Inv cs inside ps place s.mem s.pc
      → length inside + 1 + length others < 2 ^ 64
      → s.pc i ≡ popping old next
      → s.mem.head ≡ old
      → Absent i others
      → let before_swap = run nothing others (step nothing (i, go false) s) in
        (v : T) × (effect (go false) (popping old next) s.mem ≡ pops v)
        × (before_swap.pc i ≡ taking old)
        × (before_swap.mem.heap old ≡ some (node v next))
  unfolding step move
  delivers s others i old next cs inside ps place v few at top away =
      let (x, _, _, f, _) = unlinks i s.mem s.pc cs inside ps place v old next at top in
      let one =
        move-Moved nothing (go false) (s.pc i) i s.mem s.pc cs inside ps place v (omega arith)
          refl in
      let then_pc : (step nothing (i, go false) s).pc i ≡ taking old = ground arith in
      let then_heap : (step nothing (i, go false) s).mem.heap old ≡ s.mem.heap old = ground arith in
      let (kept, there) =
        stays i old others (step nothing (i, go false) s) one.cells one.inside one.waiting one.place
          one.inv (omega (arith, one.fits)) away then_pc in
      (x, ground arith, there, kept ∙ then_heap ∙ f)

  -- A `pop` whose exchange succeeds delivers the value that was on top at that moment, however many
  -- accesses other threads make before it reads the node, in fewer than 2 ^ 64 accesses: the node is there
  -- and holds the value.
  pub counted_pop_delivers :
      (es others : List (ℕ × Action T)) (i old next : ℕ)
      → length es + 1 + length others < 2 ^ 64
      → (run nothing es create).pc i ≡ popping old next
      → (run nothing es create).mem.head ≡ old
      → Absent i others
      → let s = run nothing es create in
        let before_swap = run nothing others (step nothing (i, go false) s) in
        (v : T) × (effect (go false) (popping old next) s.mem ≡ pops v)
        × (before_swap.pc i ≡ taking old)
        × (before_swap.mem.heap old ≡ some (node v next))
  counted_pop_delivers es others i old next few at top away =
      let r = ran nothing es (omega arith) in
      delivers (run nothing es create) others i old next r.cells r.inside r.waiting r.place r.inv
        (omega (arith, r.fits)) at top away
