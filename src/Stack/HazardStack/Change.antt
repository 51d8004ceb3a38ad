-- ===== src/Stack/HazardStack/Change.antt =====
-- stack_lockfree.cpp, `hazard_ptr::stack`: what a move of one thread must show to keep the invariant.
use modern_cpp_ds.Common.{
  ℕ, ◌<◌, ◌≡◌, ◌≢◌, sym, ◌∙◌, some, ite, ℕ_discrete, none, true, inl, ◌⊎◌, inr, refl,
}
use modern_cpp_ds.Common.Counts.{count}
use modern_cpp_ds.Stack.{null}
use modern_cpp_ds.Stack.Chain.{Cells, Chain, has}
use modern_cpp_ds.Stack.HazardStack.{Pc, Shared, update}
use modern_cpp_ds.Stack.HazardStack.Inv.{
  owns, makes, guards, scans, guards_only, Distinct, Unlinked, Kept, Local, Local-Kept, Inv,
}

module _ {T : Type 0} (i : ℕ) (m : Shared T) (pc : ℕ → Pc) where
  -- Where a node is, as thread `i` sees it.
  abbrev pub Place : ℕ → Shared T → Cells T → Pc → Type 0
  Place a m' cs c =
      (has a cs ≡ true)
      ⊎ (0 < count a m'.nodes_to_reclaim)
      ⊎ (0 < count a (owns c))
      ⊎ ((j : ℕ) × (i ≢ j) × (0 < count a (owns (pc j))))

  pub was_somewhere : (cs : Cells T) (a : ℕ) → Inv cs m pc → m.heap a ≢ none → Place a m cs (pc i)
  was_somewhere cs a v l = elim (v.accounted a l) [
    | inl h ↦ inl h
    | inr (inl h) ↦ inr (inl h)
    | inr (inr (j, h)) ↦ elim (ℕ_discrete i j) [
      | yes e ↦ inr (inr (inl (rw e h)))
      | no ne ↦ inr (inr (inr (j, ne, h)))
    ]
  ]

  -- Thread `i` goes to `c`, the memory becomes `m'` and the stack `cs`.
  pub record Change (m' : Shared T) (cs : Cells T) (c : Pc) : Type 0 where
    pub chain : Chain m'.heap m'.head cs
    pub distinct : Distinct cs
    pub self : Local i c m'
    pub slots : (j : ℕ) → i ≢ j → m'.hazard_pointers j ≡ m.hazard_pointers j
    pub kept : (j a : ℕ) → i ≢ j → guards (pc j) ≡ some a → a ≢ null → Kept a m.heap m'.heap
    pub theirs :
        (j a : ℕ)
        → i ≢ j
        → 0 < count a (owns (pc j))
        → Unlinked a cs m' × (count a m'.nodes_to_reclaim ≡ 0)
    pub mine :
        (a : ℕ)
        → 0 < count a (owns c)
        → Unlinked a cs m' × (count a (owns c) ≡ 1) × (count a m'.nodes_to_reclaim ≡ 0)
    pub waits :
        (a : ℕ)
        → 0 < count a m'.nodes_to_reclaim
        → Unlinked a cs m' × (count a m'.nodes_to_reclaim ≡ 1)
    pub alone : (j a : ℕ) → i ≢ j → 0 < count a (owns c) → 0 < count a (owns (pc j)) → ⊥
    pub made : (j a : ℕ) → i ≢ j → makes c ≡ some a → guards (pc j) ≢ some a
    pub guarded :
        (j a : ℕ)
        → i ≢ j
        → guards c ≡ some a
        → (makes (pc j) ≢ some a) × ((k : ℕ) → scans (pc j) ≡ some (a, k) → i < k → ⊥)
    pub places : (a : ℕ) → m'.heap a ≢ none → Place a m' cs c
    pub looked : (j p k : ℕ) → i ≢ j → scans c ≡ some (p, k) → j < k → guards (pc j) ≢ some p

  pub Change-Inv :
      (m' : Shared T) (cs cs' : Cells T) (c : Pc)
      → Inv cs m pc
      → Change m' cs' c
      → Inv cs' m' (update pc i c)
  Change-Inv m' cs cs' c v x = record {
    chain = x.chain;
    distinct = x.distinct;
    locals = λ j. local j (ℕ_discrete i j);
    owned = λ j a h. owned j a (ℕ_discrete i j) h;
    waiting = x.waits;
    apart = λ j k a h l. apart j k a (ℕ_discrete i j) (ℕ_discrete i k) h l;
    unguarded = λ j k a h l. unguarded j k a (ℕ_discrete i j) (ℕ_discrete i k) h l;
    accounted = λ a l. accounted a (x.places a l);
    scanned = λ j k p n h lt l. scanned j k p n (ℕ_discrete i j) (ℕ_discrete i k) h lt l;
  }
    where
      local : (j : ℕ) (d : Dec (i ≡ j)) → Local j (ite d c (pc j)) m'
      local j (yes e) = rw (← e) x.self
      local j (no ne) =
          Local-Kept j (pc j) m m' (x.slots j ne) (λ a g nz. x.kept j a ne g nz) (v.locals j)

      owned :
          (j a : ℕ) (d : Dec (i ≡ j))
          → 0 < count a (owns (ite d c (pc j)))
          → Unlinked a cs' m'
            × (count a (owns (ite d c (pc j))) ≡ 1)
            × (count a m'.nodes_to_reclaim ≡ 0)
      owned j a (yes e) h = x.mine a h
      owned j a (no ne) h = let t = x.theirs j a ne h in (t.0, (v.owned j a h).1, t.1)

      apart :
          (j k a : ℕ) (d : Dec (i ≡ j)) (e : Dec (i ≡ k))
          → 0 < count a (owns (ite d c (pc j)))
          → 0 < count a (owns (ite e c (pc k)))
          → j ≡ k
      apart j k a (yes d) (yes e) h l = sym d ∙ e
      apart j k a (yes d) (no e) h l = absurd (x.alone k a e h l)
      apart j k a (no d) (yes e) h l = absurd (x.alone j a d l h)
      apart j k a (no d) (no e) h l = v.apart j k a h l

      unguarded :
          (j k a : ℕ) (d : Dec (i ≡ j)) (e : Dec (i ≡ k))
          → makes (ite d c (pc j)) ≡ some a
          → guards (ite e c (pc k)) ≢ some a
      unguarded j k a (yes d) (yes e) h l = let none_made = (guards_only c a l).0 in cc
      unguarded j k a (yes d) (no e) h l = x.made k a e h l
      unguarded j k a (no d) (yes e) h l = (x.guarded j a d l).0 h
      unguarded j k a (no d) (no e) h l = v.unguarded j k a h l

      update_other : (j : ℕ) (d : Dec (i ≡ j)) → i ≢ j → ite d c (pc j) ≡ pc j
      update_other j (yes e) ne = absurd (ne e)
      update_other j (no ne') ne = refl

      update_own : (d : Dec (i ≡ i)) → ite d c (pc i) ≡ c
      update_own (yes e) = refl
      update_own (no ne) = absurd (ne refl)

      accounted :
          (a : ℕ)
          → Place a m' cs' c
          → (has a cs' ≡ true)
            ⊎ (0 < count a m'.nodes_to_reclaim)
            ⊎ ((j : ℕ) × (0 < count a (owns (update pc i c j))))
      accounted a (inl h) = inl h
      accounted a (inr (inl h)) = inr (inl h)
      accounted a (inr (inr (inl h))) = inr (inr (i, rw (update_own (ℕ_discrete i i)) h))
      accounted a (inr (inr (inr (j, ne, h)))) =
          inr (inr (j, rw (update_other j (ℕ_discrete i j) ne) h))

      scanned :
          (j k p n : ℕ) (d : Dec (i ≡ j)) (e : Dec (i ≡ k))
          → scans (ite d c (pc j)) ≡ some (p, n)
          → k < n
          → guards (ite e c (pc k)) ≢ some p
      scanned j k p n (yes d) (yes e) h lt l = let none_looked = (guards_only c p l).1 in cc
      scanned j k p n (yes d) (no e) h lt l = x.looked k p n e h lt l
      scanned j k p n (no d) (yes e) h lt l = (x.guarded j p d l).1 n h (rw e lt)
      scanned j k p n (no d) (no e) h lt l = v.scanned j k p n h lt l

  -- A move that leaves nodes and lists alone: at most the thread's own hazard pointer changes.
  pub quiet :
      (m' : Shared T) (cs : Cells T) (c : Pc)
      → Inv cs m pc
      → m'.heap ≡ m.heap
      → m'.head ≡ m.head
      → m'.nodes_to_reclaim ≡ m.nodes_to_reclaim
      → ((j : ℕ) → i ≢ j → m'.hazard_pointers j ≡ m.hazard_pointers j)
      → Local i c m'
      → owns c ≡ owns (pc i)
      → ((a : ℕ) → makes c ≡ some a → makes (pc i) ≡ some a)
      → ((j a : ℕ)
          → i ≢ j
          → guards c ≡ some a
          → (makes (pc j) ≢ some a) × ((k : ℕ) → scans (pc j) ≡ some (a, k) → i < k → ⊥))
      → ((j p k : ℕ) → i ≢ j → scans c ≡ some (p, k) → j < k → guards (pc j) ≢ some p)
      → Inv cs m' (update pc i c)
  quiet m' cs c v heap head list slots self o mk g s = Change-Inv m' cs cs c v (record {
    chain = rw (heap, head) v.chain;
    distinct = v.distinct;
    self = self;
    slots = slots;
    kept = λ j a ne e nz d n f. (d, rw heap f);
    theirs = λ j a ne h.
        let (u, _, z) = v.owned j a h in
        (record { address = u.address; live = rw heap u.live; out = u.out }, rw list z);
    mine = λ a h.
        let (u, one, z) = v.owned i a (rw (← o) h) in
        (record { address = u.address; live = rw heap u.live; out = u.out }, rw o one, rw list z);
    waits = λ a h.
        let (u, one) = v.waiting a (rw (← list) h) in
        (record { address = u.address; live = rw heap u.live; out = u.out }, rw list one);
    alone = λ j a ne h l. ne (v.apart i j a (rw (← o) h) l);
    made = λ j a ne h. v.unguarded i j a (mk a h);
    guarded = g;
    places = λ a l. elim (was_somewhere cs a v (rw (← heap) l)) [
      | inl h ↦ inl h
      | inr (inl h) ↦ inr (inl (rw list h))
      | inr (inr (inl h)) ↦ inr (inr (inl (rw o h)))
      | inr (inr (inr t)) ↦ inr (inr (inr t))
    ];
    looked = s;
  })
