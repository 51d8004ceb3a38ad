-- ===== src/Stack/HazardStack/Refine.antt =====
-- stack_lockfree.cpp, `hazard_ptr::stack`: the accesses as steps of a stack of values.
use modern_cpp_ds.Common.{
  ℕ, ◌<◌, ◌≡◌, ◌≢◌, refl, sym, ap, ◌∙◌, ◌⊎◌, inl, inr, none, some, List, [], ◌∷◌, ◌==◌, arith,
  if◌then◌else◌,
}
use modern_cpp_ds.Common.Counts.{count}
use modern_cpp_ds.Stack.{null, node}
use modern_cpp_ds.Stack.Chain.{Cells, values, Chain, head-ne}
use modern_cpp_ds.Stack.Refine.{Effect, silent, pushes, pops, finds_empty, Applies}
use modern_cpp_ds.Stack.HazardStack.{
  After, then_next, Pc, allocated, pushing, published, validated, exchanging, scanning, sweeping,
  Shared, Action, go, protect, update,
}
use modern_cpp_ds.Stack.HazardStack.Inv.{owns, makes, guards, scans, Local, guards-Local, Inv}
use modern_cpp_ds.Stack.HazardStack.Change.{quiet}

makes-owns : (c : Pc) (a : ℕ) → makes c ≡ some a → 0 < count a (owns c)
unfolding count
makes-owns (allocated b) a e = ground arith
makes-owns c a e = ground arith

scans-owns : (c : Pc) (p k : ℕ) → scans c ≡ some (p, k) → 0 < count p (owns c)
unfolding count
scans-owns (scanning q l after) p k e = ground arith
scans-owns c p k e = ground arith

module _ {T : Type 0} where
  -- What an access does to the stack of values. A `pop` that loads a null head for the second time is the
  -- one that finds the stack empty.
  abbrev pub effect : Action T → Pc → Shared T → Effect T
  effect (go _) (pushing a) m = elim (m.heap a) [
    | some (node v next) ↦ if m.head == next then pushes v else silent
    | none ↦ silent
  ]
  effect (go _) (published tmp) m =
      if m.head == tmp then if tmp == null then finds_empty else silent else silent
  effect (go _) (exchanging old next) m =
      if m.head == old
      then elim (m.heap old) [ some (node v _) ↦ pops v | none ↦ silent ]
      else silent
  effect _ _ m = silent

  -- The state after a move of thread `i`, and the list that it holds.
  pub record Moved (i : ℕ) (r : Shared T × Pc) (pc : ℕ → Pc) (eff : Effect T) (cs : Cells T)
      : Type 0 where
    pub cells : Cells T
    pub inv : Inv cells r.0 (update pc i r.1)
    pub applies : Applies eff (values cs) (values cells)

  pub Moved-of :
      {i : ℕ} {pc : ℕ → Pc} {cs : Cells T} {r r' : Shared T × Pc} {eff : Effect T}
      → r' ≡ r
      → Moved i r pc eff cs
      → Moved i r' pc eff cs
  Moved-of e a = rw e a

  pub silently :
      {i : ℕ} {r : Shared T × Pc} {pc : ℕ → Pc} (cs : Cells T)
      → Inv cs r.0 (update pc i r.1)
      → Moved i r pc silent cs
  silently cs v = record { cells = cs; inv = v; applies = refl }

module _ {T : Type 0} (i : ℕ) (m : Shared T) (pc : ℕ → Pc) (cs : Cells T) (v : Inv cs m pc) where
  -- A move that changes no memory, to a place where nothing is made, guarded or looked for.
  pub goes :
      (c c' : Pc)
      → pc i ≡ c
      → owns c' ≡ owns c
      → makes c' ≡ none
      → guards c' ≡ none
      → scans c' ≡ none
      → Local i c' m
      → Inv cs m (update pc i c')
  goes c c' at o mk g s self =
      quiet i m pc m cs c' v refl refl refl (λ j ne. refl) self (o ∙ sym (ap owns at))
        (λ a e. absurd (cc)) (λ j a ne e. absurd (cc)) (λ j p k ne e. absurd (cc))

  -- The same where the thread stores its hazard pointer.
  pub protects :
      (p : ℕ) (c c' : Pc)
      → pc i ≡ c
      → owns c' ≡ owns c
      → makes c' ≡ none
      → guards c' ≡ none
      → scans c' ≡ none
      → Local i c' (protect i p m)
      → Inv cs (protect i p m) (update pc i c')
  protects p c c' at o mk g s self =
      quiet i m pc (protect i p m) cs c' v refl refl refl (λ j ne. ground arith) self
        (o ∙ sym (ap owns at)) (λ a e. absurd (cc)) (λ j a ne e. absurd (cc))
        (λ j p k ne e. absurd (cc))

  -- The hazard pointer holds what is still the head.
  pub validates :
      (tmp : ℕ) → pc i ≡ published tmp → m.head ≡ tmp → Inv cs m (update pc i (validated tmp))
  validates tmp at h =
      let (low, mine) : Local i (published tmp) m = rw at at (v.locals i) in
      quiet i m pc m cs (validated tmp) v refl refl refl (λ j ne. refl)
        (low, mine, head_live cs v.chain) (sym (ap owns at)) (λ a e. absurd (cc)) others
        (λ j p k ne e. absurd (cc))
    where
      head_live :
          (cs : Cells T)
          → Chain m.heap m.head cs
          → (tmp ≡ null) ⊎ ((d : T) × (n : ℕ) × (m.heap tmp ≡ some (node d n)))
      head_live [] c = inl (sym h ∙ c)
      head_live ((a, x) ∷ cs) (at_a, _, (n, f, _)) = inr (x, n, rw (sym h ∙ at_a) f)

      owned_apart : (j a : ℕ) → tmp ≡ a → 0 < count a (owns (pc j)) → ⊥
      owned_apart j a same l =
          let u = (v.owned j a l).0 in head-ne m.heap m.head a cs v.chain u.address u.out (h ∙ same)

      others :
          (j a : ℕ)
          → i ≢ j
          → some tmp ≡ some a
          → (makes (pc j) ≢ some a) × ((k : ℕ) → scans (pc j) ≡ some (a, k) → i < k → ⊥)
      others j a ne e = (
        λ k. owned_apart j a (ground arith) (makes-owns (pc j) a k),
        λ k l lt. owned_apart j a (ground arith) (scans-owns (pc j) a k l),
      )

  -- The guarded node is read.
  pub follows :
      (old next : ℕ) (d : T)
      → pc i ≡ validated old
      → old ≢ null
      → m.heap old ≡ some (node d next)
      → Inv cs m (update pc i (exchanging old next))
  follows old next d at nz f =
      let (low, mine, _) : Local i (validated old) m = rw at at (v.locals i) in
      quiet i m pc m cs (exchanging old next) v refl refl refl (λ j ne. refl)
        (low, mine, nz, (d, f)) (sym (ap owns at)) (λ a e. absurd (cc))
        (λ j a ne e.
          let g : guards (pc i) ≡ some a = ap guards at ∙ e in
          (λ k. v.unguarded j i a k g, λ k l lt. v.scanned j i a k l lt g))
        (λ j p k ne e. absurd (cc))

  -- One slot of the table is looked at.
  pub looks :
      (p k : ℕ) (after : After) (c' : Pc) (k' : ℕ)
      → pc i ≡ scanning p k after
      → owns c' ≡ owns (scanning p k after)
      → makes c' ≡ none
      → guards c' ≡ none
      → scans c' ≡ some (p, k')
      → Local i c' m
      → ((j : ℕ) → j < k' → (j < k) ⊎ (m.hazard_pointers j ≢ p))
      → Inv cs m (update pc i c')
  looks p k after c' k' at o mk g s self passed =
      quiet i m pc m cs c' v refl refl refl (λ j ne. refl) self (o ∙ sym (ap owns at))
        (λ a e. absurd (cc)) (λ j a ne e. absurd (cc)) (λ j q l ne e lt f. looked j q l e lt f)
    where
      looked : (j q l : ℕ) → scans c' ≡ some (q, l) → j < l → guards (pc j) ≡ some q → ⊥
      looked j q l e lt f =
          let same : (p ≡ q) × (k' ≡ l) = ground arith in
          elim (passed j (rw same.1 lt)) [
            | inl before ↦ v.scanned i j q k (rw (← same.0) (ap scans at)) before f
            | inr other ↦ other ((guards-Local j (pc j) q m f (v.locals j)).1 ∙ sym same.0)
          ]

  -- The scan of the next node begins.
  pub begins :
      (p : ℕ) (next : List ℕ)
      → pc i ≡ sweeping (then_next (p ∷ next))
      → Inv cs m (update pc i (scanning p 0 (then_next next)))
  begins p next at =
      quiet i m pc m cs (scanning p 0 (then_next next)) v refl refl refl (λ j ne. refl) tt
        (sym (ap owns at)) (λ a e. absurd (cc)) (λ j a ne e. absurd (cc))
        (λ j q l ne e lt. absurd (ground arith))
