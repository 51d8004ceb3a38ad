-- ===== src/Stack/HazardStack/Moves.antt =====
-- stack_lockfree.cpp, `hazard_ptr::stack`: the moves that make, publish and unlink nodes.
use modern_cpp_ds.Common.{
  ℕ, ◌<◌, ◌≡◌, ◌≢◌, refl, sym, ap, ◌∙◌, none, some, [], ◌∷◌, arith, ℕ_discrete, inr, inl,
}
use modern_cpp_ds.Common.Counts.{count}
use modern_cpp_ds.Stack.{null, node, Node, store}
use modern_cpp_ds.Stack.Chain.{Cells, values, Chain-store, has_free}
use modern_cpp_ds.Stack.HazardStack.{Pc, idle, allocated, pushing, clearing, Shared, update}
use modern_cpp_ds.Stack.HazardStack.Inv.{owns, makes, guards, scans, Kept, Local, guards_live, Inv}
use modern_cpp_ds.Stack.HazardStack.Change.{Change-Inv, was_somewhere}

module _ {T : Type 0} (i : ℕ) (m : Shared T) (pc : ℕ → Pc) (cs : Cells T) (v : Inv cs m pc) where
  -- `new` returns an address that is not in use.
  pub make :
      (fresh : ℕ) (n : Node T)
      → m.heap fresh ≡ none
      → fresh ≢ null
      → owns (pc i) ≡ []
      → Inv cs (record m { heap = store m.heap fresh n }) (update pc i (allocated fresh))
  unfolding count
  make fresh n free nz empty =
      let out = has_free m.heap m.head fresh cs v.chain free in
      Change-Inv i m pc (record m { heap = store m.heap fresh n }) cs cs (allocated fresh) v
        (record {
          chain = Chain-store m.heap m.head fresh n cs out v.chain;
          distinct = v.distinct;
          self = tt;
          slots = λ j ne. refl;
          kept = λ j a ne g az d k f. (d, ground arith);
          theirs = λ j a ne h.
              let (u, _, z) = v.owned j a h in
              (record { address = u.address; live = ground (arith, u.live); out = u.out }, z);
          mine = λ a h.
              let same : a ≡ fresh = ground arith in
              (
                record { address = ground arith; live = ground arith; out = rw same out },
                ground arith,
                elim (ℕ_discrete (count a m.nodes_to_reclaim) 0) [
                  | yes z ↦ z
                  | no nz ↦ absurd ((v.waiting a (omega arith)).0.live (rw same free))
                ],
              );
          waits = λ a h.
              let (u, one) = v.waiting a h in
              (record { address = u.address; live = ground (arith, u.live); out = u.out }, one);
          alone = λ j a ne h l.
              let same : a ≡ fresh = ground arith in (v.owned j a l).0.live (rw same free);
          made = λ j a ne h g.
              let same : a ≡ fresh = ground arith in
              guards_live j (pc j) a m g (rw same nz) (v.locals j) (rw same free);
          guarded = λ j a ne h. absurd (cc);
          places = λ a l. elim (ℕ_discrete a fresh) [
            | yes s ↦ inr (inr (inl (rw s (ground arith))))
            | no ns ↦ elim (was_somewhere i m pc cs a v (ground arith)) [
              | inl h ↦ inl h
              | inr (inl h) ↦ inr (inl h)
              | inr (inr (inl h)) ↦ let none_own = rw empty at h in absurd (omega (arith, none_own))
              | inr (inr (inr t)) ↦ inr (inr (inr t))
            ]
          ];
          looked = λ j p k ne h. absurd (cc);
        })

  -- A thread writes to a node of its own, which keeps its `next` if anybody guards it.
  pub write_own :
      (a : ℕ) (n : Node T) (c : Pc)
      → 0 < count a (owns (pc i))
      → owns c ≡ owns (pc i)
      → Local i c (record m { heap = store m.heap a n })
      → guards c ≡ none
      → ((b : ℕ) → makes c ≡ some b → makes (pc i) ≡ some b)
      → ((j : ℕ) → i ≢ j → guards (pc j) ≡ some a → Kept a m.heap (store m.heap a n))
      → ((j p k : ℕ) → i ≢ j → scans c ≡ some (p, k) → j < k → guards (pc j) ≢ some p)
      → Inv cs (record m { heap = store m.heap a n }) (update pc i c)
  write_own a n c own o self g mk keep look =
      let (mine_a, _, _) = v.owned i a own in
      Change-Inv i m pc (record m { heap = store m.heap a n }) cs cs c v
        (record {
          chain = Chain-store m.heap m.head a n cs mine_a.out v.chain;
          distinct = v.distinct;
          self = self;
          slots = λ j ne. refl;
          kept = λ j b ne e nz. elim (ℕ_discrete a b) [
            | yes s ↦ λ d k f. let (d', f') = keep j ne (rw s e) d k (rw s f) in (d', ground arith)
            | no ns ↦ λ d k f. (d, ground arith)
          ];
          theirs = λ j b ne h.
              let (u, _, z) = v.owned j b h in
              (record { address = u.address; live = ground (arith, u.live); out = u.out }, z);
          mine = λ b h.
              let (u, one, z) = v.owned i b (rw (← o) h) in
              (
                record { address = u.address; live = ground (arith, u.live); out = u.out },
                rw o one,
                z,
              );
          waits = λ b h.
              let (u, one) = v.waiting b h in
              (record { address = u.address; live = ground (arith, u.live); out = u.out }, one);
          alone = λ j b ne h l. ne (v.apart i j b (rw (← o) h) l);
          made = λ j b ne h. v.unguarded i j b (mk b h);
          guarded = λ j b ne h. absurd (cc);
          places = λ b l. elim (ℕ_discrete a b) [
            | yes s ↦ inr (inr (inl (rw (o, ← s) own)))
            | no ns ↦ elim (was_somewhere i m pc cs b v (ground arith)) [
              | inl h ↦ inl h
              | inr (inl h) ↦ inr (inl h)
              | inr (inr (inl h)) ↦ inr (inr (inl (rw o h)))
              | inr (inr (inr t)) ↦ inr (inr (inr t))
            ]
          ];
          looked = look;
        })

  -- The exchange of `push` succeeds.
  pub publish :
      (a next : ℕ) (x : T)
      → pc i ≡ pushing a
      → m.heap a ≡ some (node x next)
      → m.head ≡ next
      → Inv ((a, x) ∷ cs) (record m { head = a }) (update pc i idle)
  unfolding count
  publish a next x at f h =
      let own : 0 < count a (owns (pc i)) = rw at (ground arith) in
      let (u, one, z) = v.owned i a own in
      Change-Inv i m pc (record m { head = a }) cs ((a, x) ∷ cs) idle v
        (record {
          chain = (refl, u.address, (next, f, rw h at v.chain));
          distinct = (u.out, v.distinct);
          self = tt;
          slots = λ j ne. refl;
          kept = λ j b ne e nz d k e'. (d, e');
          theirs = λ j b ne l.
              let (w, _, z') = v.owned j b l in
              let other : a ≢ b = λ s. ne (v.apart i j b (rw s at own) l) in
              (record { address = w.address; live = w.live; out = ground (arith, w.out) }, z');
          mine = λ b l. absurd (omega arith);
          waits = λ b l.
              let (w, one') = v.waiting b l in
              (record { address = w.address; live = w.live; out = ground (arith, w.out) }, one');
          alone = λ j b ne l. absurd (omega arith);
          made = λ j b ne e. absurd (cc);
          guarded = λ j b ne e. absurd (cc);
          places = λ b l. elim (was_somewhere i m pc cs b v l) [
            | inl e ↦ inl (ground arith)
            | inr (inl e) ↦ inr (inl e)
            | inr (inr (inl e)) ↦ let e' = rw at at e in inl (ground arith)
            | inr (inr (inr t)) ↦ inr (inr (inr t))
          ];
          looked = λ j p k ne e. absurd (cc);
        })

module _ {T : Type 0} (i : ℕ) (m : Shared T) (pc : ℕ → Pc) where
  -- The exchange of `pop` succeeds: the head leaves the stack.
  pub unlink :
      (cs : Cells T) (old next : ℕ) (d : T)
      → Inv cs m pc
      → old ≢ null
      → m.heap old ≡ some (node d next)
      → m.head ≡ old
      → owns (pc i) ≡ []
      → (cs' : Cells T) × Inv cs' (record m { head = next }) (update pc i (clearing old))
        × (values cs ≡ d ∷ values cs')
  unfolding count
  unlink [] old next d v nz f h empty = absurd (nz (sym h ∙ v.chain))
  unlink ((a, x) ∷ cs) old next d v nz f h empty =
      let (at_a, _, (q, g, chain)) = v.chain in
      let same : a ≡ old = sym at_a ∙ h in
      let parts : (x ≡ d) × (q ≡ next) = ground (arith, rw same at g) in
      (
        cs,
        Change-Inv i m pc (record m { head = next }) ((a, x) ∷ cs) cs (clearing old) v
            (record {
              chain = rw parts.1 at chain;
              distinct = v.distinct.1;
              self = tt;
              slots = λ j ne. refl;
              kept = λ j b ne e nz' d' k f'. (d', f');
              theirs = λ j b ne l.
                  let (w, _, z) = v.owned j b l in
                  (record { address = w.address; live = w.live; out = ground (arith, w.out) }, z);
              mine = λ b l.
                  let s : b ≡ old = ground arith in
                  (
                    record {
                      address = rw s nz;
                      live = ground arith;
                      out = rw (s, ← same) v.distinct.0;
                    },
                    ground arith,
                    elim (ℕ_discrete (count b m.nodes_to_reclaim) 0) [
                      | yes z ↦ z
                      | no some_wait ↦
                          let w = (v.waiting b (omega arith)).0 in absurd (ground (arith, w.out))
                    ],
                  );
              waits = λ b l.
                  let (w, one) = v.waiting b l in
                  (record { address = w.address; live = w.live; out = ground (arith, w.out) }, one);
              alone = λ j b ne l k.
                  let s : b ≡ old = ground arith in
                  let w = (v.owned j b k).0 in ground (arith, w.out);
              made = λ j b ne e. absurd (cc);
              guarded = λ j b ne e. absurd (cc);
              places = λ b l. elim (was_somewhere i m pc ((a, x) ∷ cs) b v l) [
                | inl e ↦ elim (ℕ_discrete old b) [
                  | yes s ↦ inr (inr (inl (ground arith)))
                  | no ns ↦ inl (ground arith)
                ]
                | inr (inl e) ↦ inr (inl e)
                | inr (inr (inl e)) ↦ let e' = rw empty at e in absurd (omega (arith, e'))
                | inr (inr (inr t)) ↦ inr (inr (inr t))
              ];
              looked = λ j q k ne e. absurd (cc);
            }),
        ap (λ y. y ∷ values cs) parts.0,
      )
