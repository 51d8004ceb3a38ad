-- ===== src/Stack/HazardStack/Accesses.antt =====
-- stack_lockfree.cpp, `hazard_ptr::stack`: every access of a thread, in every place.
use modern_cpp_ds.Common.{
  ℕ, suc, ◌<◌, ◌≡◌, ◌≢◌, refl, sym, ap, ◌∙◌, Bool, true, false, inl, inr, none, some, [], ◌∷◌,
  arith, ℕ_discrete, dec_lt, Option-cases, Bool-cases,
}
use modern_cpp_ds.Common.Counts.{count}
use modern_cpp_ds.Stack.{null, node, store, is_free}
use modern_cpp_ds.Stack.Chain.{Cells, values, Chain}
use modern_cpp_ds.Stack.Refine.{silent, pushes, pops, finds_empty, Applies}
use modern_cpp_ds.Stack.HazardStack.{
  max_ptr, After, then_sweep, Pc, idle, allocated, pushing, loaded, published, validated,
  exchanging, found_empty, clearing, taking, scanning, adding, deleting, sweeping, Shared,
  begin_push, begin_pop, go, delete_node, move, update,
}
use modern_cpp_ds.Stack.HazardStack.Inv.{owns, makes, Local, Inv}
use modern_cpp_ds.Stack.HazardStack.Moves.{make, write_own, publish, unlink}
use modern_cpp_ds.Stack.HazardStack.Reclaims.{reclaim, free}
use modern_cpp_ds.Stack.HazardStack.Refine.{
  effect, Moved, Moved-of, silently, goes, validates, follows, looks,
}

module _ {T : Type 0} (nothing : T) (i : ℕ) (m : Shared T) (pc : ℕ → Pc) (cs : Cells T)
    (v : Inv cs m pc) where
  -- A thread's own node is there.
  own_live : (a : ℕ) (c : Pc) → pc i ≡ c → 0 < count a (owns c) → m.heap a ≢ none
  own_live a c at own = (v.owned i a (rw at own)).0.live

  pub allocates :
      (x : T) (fresh junk : ℕ)
      → pc i ≡ idle
      → Moved i (move nothing i (begin_push x fresh junk) idle m) pc silent cs
  unfolding move
  allocates x fresh junk at = elim (Bool-cases (is_free m.heap fresh)) [
    | inl free ↦
        let facts : (m.heap fresh ≡ none) × (fresh ≢ null) = ground arith in
        Moved-of (ground arith)
          (silently cs (make i m pc cs v fresh (node x junk) facts.0 facts.1 (ap owns at)))
    | inr used ↦
        Moved-of {r = (m, idle)} (ground arith)
          (silently cs (goes i m pc cs v idle idle at refl refl refl refl tt))
  ]

  pub begins_pop : pc i ≡ idle → Moved i (move nothing i begin_pop idle m) pc silent cs
  unfolding move
  begins_pop at = elim (dec_lt i max_ptr) [
    | yes low ↦
        Moved-of {r = (m, loaded m.head)} (ground arith)
          (silently cs (goes i m pc cs v idle (loaded m.head) at refl refl refl refl low))
    | no high ↦
        Moved-of {r = (m, idle)} (ground arith)
          (silently cs (goes i m pc cs v idle idle at refl refl refl refl tt))
  ]

  -- The head is written into the `next` of the new node.
  links :
      (a next : ℕ) (x : T) (c : Pc)
      → pc i ≡ c
      → owns c ≡ a ∷ []
      → makes c ≡ some a
      → Inv cs (record m { heap = store m.heap a (node x m.head) }) (update pc i (pushing a))
  unfolding count
  links a next x c at o mk =
      write_own i m pc cs v a (node x m.head) (pushing a) (rw (at, o) (ground arith))
        (sym (ap owns at ∙ o)) tt refl (λ b e. rw at (mk ∙ e))
        (λ j ne g. absurd (v.unguarded i j a (rw at mk) g)) (λ j p k ne e. absurd (cc))

  pub first_load :
      (b : Bool) (a : ℕ)
      → pc i ≡ allocated a
      → Moved i (move nothing i (go b) (allocated a) m) pc silent cs
  unfolding move count
  first_load b a at = elim (Option-cases (m.heap a)) [
    | inl f ↦ absurd (own_live a (allocated a) at (ground arith) f)
    | inr (node x next, f) ↦
        Moved-of (ground arith) (silently cs (links a next x (allocated a) at refl refl))
  ]

  pub exchanges_push :
      (b : Bool) (a : ℕ)
      → pc i ≡ pushing a
      → Moved i (move nothing i (go b) (pushing a) m) pc (effect (go b) (pushing a) m) cs
  unfolding move count
  exchanges_push b a at = elim (Option-cases (m.heap a)) [
    | inl f ↦ absurd (own_live a (pushing a) at (ground arith) f)
    | inr (node x next, f) ↦ elim (ℕ_discrete m.head next) [
      | yes h ↦
          let e : effect (go b) (pushing a) m ≡ pushes x = ground arith in
          rw e (
            Moved-of {r = (record m { head = a }, idle)} (ground arith) (record {
              cells = (a, x) ∷ cs;
              inv = publish i m pc cs v a next x at f h;
              applies = refl;
            }))
      | no ne ↦
          let e : effect (go b) (pushing a) m ≡ silent = ground arith in
          rw e (
            Moved-of {r = (record m { heap = store m.heap a (node x m.head) }, pushing a)}
              (ground arith) (silently cs (links a next x (pushing a) at refl refl)))
    ]
  ]

  pub compares :
      (b : Bool) (tmp : ℕ)
      → pc i ≡ published tmp
      → Moved i (move nothing i (go b) (published tmp) m) pc (effect (go b) (published tmp) m) cs
  unfolding move
  compares b tmp at = elim (ℕ_discrete m.head tmp) [
    | no ne ↦
        let low : (i < max_ptr) × (m.hazard_pointers i ≡ tmp) = rw at at (v.locals i) in
        let e : effect (go b) (published tmp) m ≡ silent = ground arith in
        rw e (
          Moved-of {r = (m, loaded m.head)} (ground arith) (
            silently cs
              (goes i m pc cs v (published tmp) (loaded m.head) at refl refl refl refl low.0)))
    | yes h ↦ Moved-of {r = (m, validated tmp)} (ground arith) (record {
      cells = cs;
      inv = validates i m pc cs v tmp at h;
      applies = empties cs v.chain (ℕ_discrete tmp null);
    })
  ]
    where
      empties :
          (cs : Cells T)
          → Chain m.heap m.head cs
          → Dec (tmp ≡ null)
          → Applies (effect (go b) (published tmp) m) (values cs) (values cs)
      empties cs c (no nz) =
          let e : effect (go b) (published tmp) m ≡ silent = ground arith in rw e refl
      empties [] c (yes z) = elim (ℕ_discrete m.head tmp) [
        | yes h ↦
            let e : effect (go b) (published tmp) m ≡ finds_empty = ground arith in
            rw e (refl, refl)
        | no ne ↦ let e : effect (go b) (published tmp) m ≡ silent = ground arith in rw e refl
      ]
      empties ((a, x) ∷ cs) c (yes z) =
          let (at_a, nz, _) = c in
          let e : effect (go b) (published tmp) m ≡ silent = ground arith in rw e refl

  pub reads_next :
      (b : Bool) (old : ℕ)
      → pc i ≡ validated old
      → Moved i (move nothing i (go b) (validated old) m) pc silent cs
  unfolding move
  reads_next b old at = elim (ℕ_discrete old null) [
    | yes z ↦
        Moved-of {r = (m, found_empty)} (ground arith)
          (silently cs (goes i m pc cs v (validated old) found_empty at refl refl refl refl tt))
    | no nz ↦
        let (_, _, known) : Local i (validated old) m = rw at at (v.locals i) in
        elim known [
          | inl z ↦ absurd (nz z)
          | inr (d, next, f) ↦
              Moved-of {r = (m, exchanging old next)} (ground arith)
                (silently cs (follows i m pc cs v old next d at nz f))
        ]
  ]

  pub exchanges_pop :
      (b : Bool) (old next : ℕ)
      → pc i ≡ exchanging old next
      → Moved i
          (move nothing i (go b) (exchanging old next) m)
          pc
          (effect (go b) (exchanging old next) m)
          cs
  unfolding move
  exchanges_pop b old next at =
      let (low, _, nz, (d, f)) : Local i (exchanging old next) m = rw at at (v.locals i) in
      elim (ℕ_discrete m.head old) [
        | yes h ↦
            let (cs', inv, popped) = unlink i m pc cs old next d v nz f h (ap owns at) in
            let e : effect (go b) (exchanging old next) m ≡ pops d = ground arith in
            rw e (
              Moved-of {r = (record m { head = next }, clearing old)} (ground arith)
                (record { cells = cs'; inv = inv; applies = popped }))
        | no ne ↦
            let e : effect (go b) (exchanging old next) m ≡ silent = ground arith in
            rw e (
              Moved-of {r = (m, loaded m.head)} (ground arith) (
                silently cs (
                  goes i m pc cs v (exchanging old next) (loaded m.head) at refl refl refl refl
                    low)))
      ]

  pub swaps :
      (b : Bool) (old : ℕ)
      → pc i ≡ taking old
      → Moved i (move nothing i (go b) (taking old) m) pc silent cs
  unfolding move count
  swaps b old at = elim (Option-cases (m.heap old)) [
    | inl f ↦ absurd (own_live old (taking old) at (ground arith) f)
    | inr (node x next, f) ↦ Moved-of (ground arith) (
        silently cs (
          write_own i m pc cs v old (node nothing next) (scanning old 0 then_sweep)
            (rw at (ground arith)) (sym (ap owns at)) tt refl (λ a e. absurd (cc))
            (λ j ne g d k e. (nothing, ground arith)) (λ j p k ne e lt. absurd (ground arith))))
  ]

  pub scans_slot :
      (b : Bool) (p k : ℕ) (after : After)
      → pc i ≡ scanning p k after
      → Moved i (move nothing i (go b) (scanning p k after) m) pc silent cs
  unfolding move
  scans_slot b p k after at = elim (dec_lt k max_ptr) [
    | no past ↦ Moved-of {r = (m, deleting p after)} (ground arith) (
        silently cs (
          looks i m pc cs v p k after (deleting p after) max_ptr at refl refl refl refl tt
            (λ j lt. inl (omega arith))))
    | yes low ↦ elim (ℕ_discrete (m.hazard_pointers k) p) [
      | yes held ↦ Moved-of {r = (m, adding p after)} (ground arith) (
          silently cs
            (goes i m pc cs v (scanning p k after) (adding p after) at refl refl refl refl tt))
      | no other ↦ Moved-of {r = (m, scanning p (suc k) after)} (ground arith) (
          silently cs (
            looks i m pc cs v p k after (scanning p (suc k) after) (suc k) at refl refl refl refl tt
              (λ j lt. elim (ℕ_discrete j k) [
                | yes s ↦ inr (rw s other)
                | no ns ↦ inl (omega arith)
              ])))
    ]
  ]

  pub adds :
      (b : Bool) (p : ℕ) (after : After)
      → pc i ≡ adding p after
      → Moved i (move nothing i (go b) (adding p after) m) pc silent cs
  unfolding move
  adds true p after at =
      silently cs (goes i m pc cs v (adding p after) (adding p after) at refl refl refl refl tt)
  adds false p after at = silently cs (reclaim i m pc cs v p after at)

  pub deletes :
      (b : Bool) (p : ℕ) (after : After)
      → pc i ≡ deleting p after
      → Moved i (move nothing i (go b) (deleting p after) m) pc silent cs
  unfolding move count
  deletes b p after at = elim (Option-cases (m.heap p)) [
    | inl f ↦ absurd (own_live p (deleting p after) at (ground arith) f)
    | inr (n, f) ↦
        Moved-of {r = (delete_node p m, sweeping after)} (ground arith)
          (silently cs (free i m pc cs v p after at))
  ]
