-- ===== src/Stack/HazardStack/Inv.antt =====
-- stack_lockfree.cpp, `hazard_ptr::stack`: who owns a node, who guards it, and who is looking for guards.
use modern_cpp_ds.Common.{
  ℕ, ◌<◌, ◌≡◌, ◌≢◌, refl, ◌∙◌, true, false, Option, none, some, List, [], ◌∷◌, arith, ℕ_discrete,
  ◌⊎◌, inl, inr,
}
use modern_cpp_ds.Common.Counts.{count}
use modern_cpp_ds.Stack.{null, node, Heap}
use modern_cpp_ds.Stack.Chain.{Cells, has, Chain}
use modern_cpp_ds.Stack.HazardStack.{
  max_ptr, After, then_sweep, then_next, Pc, idle, allocated, pushing, loaded, published, validated,
  exchanging, found_empty, clearing, taking, scanning, adding, deleting, sweeping, fault, Shared,
}

abbrev pub rest : After → List ℕ
rest then_sweep = []
rest (then_next next) = next

-- The nodes that only this thread may delete.
abbrev pub owns : Pc → List ℕ
owns (allocated a) = a ∷ []
owns (pushing a) = a ∷ []
owns (clearing a) = a ∷ []
owns (taking a) = a ∷ []
owns (scanning p _ after) = p ∷ rest after
owns (adding p after) = p ∷ rest after
owns (deleting p after) = p ∷ rest after
owns (sweeping after) = rest after
owns _ = []

-- The node that a thread has made and not yet published.
abbrev pub makes : Pc → Option ℕ
makes (allocated a) = some a
makes (pushing a) = some a
makes _ = none

-- The node that a thread may read because its hazard pointer held it while it was the head.
abbrev pub guards : Pc → Option ℕ
guards (validated a) = some a
guards (exchanging a _) = some a
guards _ = none

-- The node that a thread looks for in the table, and the slots that it has passed.
abbrev pub scans : Pc → Option (ℕ × ℕ)
scans (scanning p k _) = some (p, k)
scans (deleting p _) = some (p, max_ptr)
scans _ = none

pub guards_only : (c : Pc) (a : ℕ) → guards c ≡ some a → (makes c ≡ none) × (scans c ≡ none)
guards_only (validated b) a e = (refl, refl)
guards_only (exchanging b n) a e = (refl, refl)
guards_only idle a e = absurd (cc)
guards_only (allocated b) a e = absurd (cc)
guards_only (pushing b) a e = absurd (cc)
guards_only (loaded b) a e = absurd (cc)
guards_only (published b) a e = absurd (cc)
guards_only found_empty a e = absurd (cc)
guards_only (clearing b) a e = absurd (cc)
guards_only (taking b) a e = absurd (cc)
guards_only (scanning p k n) a e = absurd (cc)
guards_only (adding p n) a e = absurd (cc)
guards_only (deleting p n) a e = absurd (cc)
guards_only (sweeping n) a e = absurd (cc)
guards_only fault a e = absurd (cc)

module _ {T : Type 0} where
  abbrev pub Distinct : Cells T → Type 0
  Distinct [] = Unit {0}
  Distinct ((a, _) ∷ cs) = (has a cs ≡ false) × Distinct cs

  -- The node is there, and is not in the stack.
  pub record Unlinked (a : ℕ) (cs : Cells T) (m : Shared T) : Type 0 where
    pub address : a ≢ null
    pub live : m.heap a ≢ none
    pub out : has a cs ≡ false

  -- A write that leaves the node there with its `next`.
  abbrev pub Kept : ℕ → Heap T → Heap T → Type 0
  Kept a h h' = (d : T) (n : ℕ) → h a ≡ some (node d n) → (d' : T) × (h' a ≡ some (node d' n))

  -- What the locals of thread `i` say about the shared memory.
  abbrev pub Local : ℕ → Pc → Shared T → Type 0
  Local i (loaded old) m = i < max_ptr
  Local i (published tmp) m = (i < max_ptr) × (m.hazard_pointers i ≡ tmp)
  Local i (validated old) m =
      (i < max_ptr)
      × (m.hazard_pointers i ≡ old)
      × ((old ≡ null) ⊎ ((d : T) × (n : ℕ) × (m.heap old ≡ some (node d n))))
  Local i (exchanging old next) m =
      (i < max_ptr)
      × (m.hazard_pointers i ≡ old)
      × (old ≢ null)
      × ((d : T) × (m.heap old ≡ some (node d next)))
  Local i fault m = ⊥
  Local i _ m = Unit {0}

  pub guards-Local :
      (i : ℕ) (c : Pc) (a : ℕ) (m : Shared T)
      → guards c ≡ some a
      → Local i c m
      → (i < max_ptr) × (m.hazard_pointers i ≡ a)
  guards-Local i (validated b) a m e l = ground arith
  guards-Local i (exchanging b n) a m e l = ground arith
  guards-Local i idle a m e l = absurd (cc)
  guards-Local i (allocated b) a m e l = absurd (cc)
  guards-Local i (pushing b) a m e l = absurd (cc)
  guards-Local i (loaded b) a m e l = absurd (cc)
  guards-Local i (published b) a m e l = absurd (cc)
  guards-Local i found_empty a m e l = absurd (cc)
  guards-Local i (clearing b) a m e l = absurd (cc)
  guards-Local i (taking b) a m e l = absurd (cc)
  guards-Local i (scanning p k n) a m e l = absurd (cc)
  guards-Local i (adding p n) a m e l = absurd (cc)
  guards-Local i (deleting p n) a m e l = absurd (cc)
  guards-Local i (sweeping n) a m e l = absurd (cc)
  guards-Local i fault a m e l = absurd l

  pub guards_live :
      (i : ℕ) (c : Pc) (a : ℕ) (m : Shared T)
      → guards c ≡ some a
      → a ≢ null
      → Local i c m
      → m.heap a ≢ none
  guards_live i (validated b) a m e ne (_, _, inl z) = absurd (ground arith)
  guards_live i (validated b) a m e ne (_, _, inr (d, n, f)) = ground arith
  guards_live i (exchanging b n) a m e ne (_, _, _, (d, f)) = ground arith
  guards_live i idle a m e ne l = absurd (cc)
  guards_live i (allocated b) a m e ne l = absurd (cc)
  guards_live i (pushing b) a m e ne l = absurd (cc)
  guards_live i (loaded b) a m e ne l = absurd (cc)
  guards_live i (published b) a m e ne l = absurd (cc)
  guards_live i found_empty a m e ne l = absurd (cc)
  guards_live i (clearing b) a m e ne l = absurd (cc)
  guards_live i (taking b) a m e ne l = absurd (cc)
  guards_live i (scanning p k n) a m e ne l = absurd (cc)
  guards_live i (adding p n) a m e ne l = absurd (cc)
  guards_live i (deleting p n) a m e ne l = absurd (cc)
  guards_live i (sweeping n) a m e ne l = absurd (cc)
  guards_live i fault a m e ne l = absurd l

  -- A change that keeps the node that a thread guards, and its slot, does not concern the thread.
  pub Local-Kept :
      (i : ℕ) (c : Pc) (m m' : Shared T)
      → m'.hazard_pointers i ≡ m.hazard_pointers i
      → ((a : ℕ) → guards c ≡ some a → a ≢ null → Kept a m.heap m'.heap)
      → Local i c m
      → Local i c m'
  Local-Kept i (loaded b) m m' s k l = l
  Local-Kept i (published b) m m' s k (lt, e) = (lt, s ∙ e)
  Local-Kept i (validated b) m m' s k (lt, e, inl z) = (lt, s ∙ e, inl z)
  Local-Kept i (validated b) m m' s k (lt, e, inr (d, n, f)) = (
    lt,
    s ∙ e,
    (elim (ℕ_discrete b null) [
      | yes z ↦ inl z
      | no nz ↦ let (d', f') = k b refl nz d n f in inr (d', n, f')
    ]),
  )
  Local-Kept i (exchanging b n) m m' s k (lt, e, nz, (d, f)) =
      let (d', f') = k b refl nz d n f in (lt, s ∙ e, nz, (d', f'))
  Local-Kept i idle m m' s k l = tt
  Local-Kept i (allocated b) m m' s k l = tt
  Local-Kept i (pushing b) m m' s k l = tt
  Local-Kept i found_empty m m' s k l = tt
  Local-Kept i (clearing b) m m' s k l = tt
  Local-Kept i (taking b) m m' s k l = tt
  Local-Kept i (scanning p k' n) m m' s k l = tt
  Local-Kept i (adding p n) m m' s k l = tt
  Local-Kept i (deleting p n) m m' s k l = tt
  Local-Kept i (sweeping n) m m' s k l = tt
  Local-Kept i fault m m' s k l = l

  -- Every node is in the stack, in the reclaim list, or owned by one thread, and in one of these only;
  -- what a thread makes nobody guards, and no slot that a scan has passed guards what it looks for.
  pub record Inv (cs : Cells T) (m : Shared T) (pc : ℕ → Pc) : Type 0 where
    pub chain : Chain m.heap m.head cs
    pub distinct : Distinct cs
    pub locals : (i : ℕ) → Local i (pc i) m
    pub owned :
        (i a : ℕ)
        → 0 < count a (owns (pc i))
        → Unlinked a cs m × (count a (owns (pc i)) ≡ 1) × (count a m.nodes_to_reclaim ≡ 0)
    pub waiting :
        (a : ℕ)
        → 0 < count a m.nodes_to_reclaim
        → Unlinked a cs m × (count a m.nodes_to_reclaim ≡ 1)
    pub apart : (i j a : ℕ) → 0 < count a (owns (pc i)) → 0 < count a (owns (pc j)) → i ≡ j
    pub unguarded : (i j a : ℕ) → makes (pc i) ≡ some a → guards (pc j) ≢ some a
    pub scanned : (i j p k : ℕ) → scans (pc i) ≡ some (p, k) → j < k → guards (pc j) ≢ some p
    pub accounted :
        (a : ℕ)
        → m.heap a ≢ none
        → (has a cs ≡ true)
          ⊎ (0 < count a m.nodes_to_reclaim)
          ⊎ ((j : ℕ) × (0 < count a (owns (pc j))))
