-- ===== src/Stack/HazardStack/Reclaims.antt =====
-- stack_lockfree.cpp, `hazard_ptr::stack`: the moves that delete nodes or put them off.
use modern_cpp_ds.Common.{
  ℕ, ◌<◌, ◌≡◌, ◌≢◌, refl, ap, false, none, [], ◌∷◌, arith, ℕ_discrete, ◌==◌, if◌then◌else◌, inr,
  inl,
}
use modern_cpp_ds.Common.Counts.{count}
use modern_cpp_ds.Stack.{Heap}
use modern_cpp_ds.Stack.Chain.{Cells, has, Chain}
use modern_cpp_ds.Stack.HazardStack.{
  max_ptr, After, then_next, Pc, adding, deleting, sweeping, Shared, update, delete_node,
}
use modern_cpp_ds.Stack.HazardStack.Inv.{rest, owns, scans, guards-Local, Inv}
use modern_cpp_ds.Stack.HazardStack.Change.{Change-Inv, was_somewhere}

module _ {T : Type 0} where
  Chain-delete :
      (h : Heap T) (p b : ℕ) (cs : Cells T)
      → has b cs ≡ false
      → Chain h p cs
      → Chain (λ a. if b == a then none else h a) p cs
  Chain-delete h p b [] out c = c
  Chain-delete h p b ((a, v) ∷ cs) out (at_p, ne, (next, e, chain)) =
      (at_p, ne, (next, ground arith, Chain-delete h next b cs (ground arith) chain))

module _ {T : Type 0} (i : ℕ) (m : Shared T) (pc : ℕ → Pc) (cs : Cells T) (v : Inv cs m pc) where
  -- A thread appends to the reclaim list.
  pub reclaim :
      (p : ℕ) (after : After)
      → pc i ≡ adding p after
      → Inv cs
          (record m { nodes_to_reclaim = p ∷ m.nodes_to_reclaim })
          (update pc i (sweeping after))
  unfolding count
  reclaim p after at =
      let all : owns (pc i) ≡ p ∷ rest after = ap owns at in
      let own : 0 < count p (owns (pc i)) = rw all (ground arith) in
      let (u, one, z) = v.owned i p own in
      Change-Inv i m pc (record m { nodes_to_reclaim = p ∷ m.nodes_to_reclaim }) cs cs
        (sweeping after) v
        (record {
          chain = v.chain;
          distinct = v.distinct;
          self = tt;
          slots = λ j ne. refl;
          kept = λ j b ne e nz d k f. (d, f);
          theirs = λ j b ne l.
              let (w, _, z') = v.owned j b l in
              let other : p ≢ b = λ s. ne (v.apart i j b (rw s at own) l) in
              (record { address = w.address; live = w.live; out = w.out }, ground arith);
          mine = λ b l.
              let (w, one', z') = rw all at (v.owned i b (rw all (ground arith))) in
              (
                record { address = w.address; live = w.live; out = w.out },
                ground arith,
                ground arith,
              );
          waits = λ b l. elim (ℕ_discrete b p) [
            | yes s ↦ (
              record { address = rw s u.address; live = rw s u.live; out = rw s u.out },
              rw s (ground arith),
            )
            | no ns ↦
                let (w, one') = v.waiting b (ground arith) in
                (record { address = w.address; live = w.live; out = w.out }, ground arith)
          ];
          alone = λ j b ne l k. ne (v.apart i j b (rw all (ground arith)) k);
          made = λ j b ne e. absurd (cc);
          guarded = λ j b ne e. absurd (cc);
          places = λ b l. elim (was_somewhere i m pc cs b v l) [
            | inl e ↦ inl e
            | inr (inl e) ↦ inr (inl (ground arith))
            | inr (inr (inl e)) ↦
                let e' = rw all at e in
                elim (ℕ_discrete b p) [
                  | yes s ↦ inr (inl (ground arith))
                  | no ns ↦ inr (inr (inl (ground arith)))
                ]
            | inr (inr (inr t)) ↦ inr (inr (inr t))
          ];
          looked = λ j q k ne e. absurd (cc);
        })

  -- A thread deletes a node that no slot held.
  pub free :
      (p : ℕ) (after : After)
      → pc i ≡ deleting p after
      → Inv cs (delete_node p m) (update pc i (sweeping after))
  unfolding count
  free p after at =
      let all : owns (pc i) ≡ p ∷ rest after = ap owns at in
      let own : 0 < count p (owns (pc i)) = rw all (ground arith) in
      let (u, one, z) = v.owned i p own in
      Change-Inv i m pc (delete_node p m) cs cs (sweeping after) v (record {
        chain = Chain-delete m.heap m.head p cs u.out v.chain;
        distinct = v.distinct;
        self = tt;
        slots = λ j ne. refl;
        kept = λ j b ne e nz d k f.
            let low = (guards-Local j (pc j) b m e (v.locals j)).0 in
            let other : p ≢ b = λ s. v.scanned i j b max_ptr (rw s at (ap scans at)) low e in
            (d, ground arith);
        theirs = λ j b ne l.
            let (w, _, z') = v.owned j b l in
            let other : p ≢ b = λ s. ne (v.apart i j b (rw s at own) l) in
            (record { address = w.address; live = ground (arith, w.live); out = w.out }, z');
        mine = λ b l.
            let (w, one', z') = rw all at (v.owned i b (rw all (ground arith))) in
            let other : p ≢ b = ground arith in
            (
              record { address = w.address; live = ground (arith, w.live); out = w.out },
              ground arith,
              z',
            );
        waits = λ b l.
            let (w, one') = v.waiting b l in
            let other : p ≢ b = ground arith in
            (record { address = w.address; live = ground (arith, w.live); out = w.out }, one');
        alone = λ j b ne l k. ne (v.apart i j b (rw all (ground arith)) k);
        made = λ j b ne e. absurd (cc);
        guarded = λ j b ne e. absurd (cc);
        places = λ b l. elim (was_somewhere i m pc cs b v (ground arith)) [
          | inl e ↦ inl e
          | inr (inl e) ↦ inr (inl e)
          | inr (inr (inl e)) ↦ let e' = rw all at e in inr (inr (inl (ground arith)))
          | inr (inr (inr t)) ↦ inr (inr (inr t))
        ];
        looked = λ j q k ne e. absurd (cc);
      })

  -- A thread takes the whole reclaim list.
  pub take_list :
      owns (pc i) ≡ []
      → Inv cs
          (record m { nodes_to_reclaim = [] })
          (update pc i (sweeping (then_next m.nodes_to_reclaim)))
  unfolding count
  take_list empty =
      Change-Inv i m pc (record m { nodes_to_reclaim = [] }) cs cs
        (sweeping (then_next m.nodes_to_reclaim)) v
        (record {
          chain = v.chain;
          distinct = v.distinct;
          self = tt;
          slots = λ j ne. refl;
          kept = λ j b ne e nz d k f. (d, f);
          theirs = λ j b ne l.
              let w = (v.owned j b l).0 in
              (record { address = w.address; live = w.live; out = w.out }, refl);
          mine = λ b l.
              let (w, one) = v.waiting b l in
              (record { address = w.address; live = w.live; out = w.out }, one, refl);
          waits = λ b l. absurd (omega arith);
          alone = λ j b ne l k. let z = (v.owned j b k).2 in omega (arith, z);
          made = λ j b ne e. absurd (cc);
          guarded = λ j b ne e. absurd (cc);
          places = λ b l. elim (was_somewhere i m pc cs b v l) [
            | inl e ↦ inl e
            | inr (inl e) ↦ inr (inr (inl e))
            | inr (inr (inl e)) ↦ let e' = rw empty at e in absurd (omega (arith, e'))
            | inr (inr (inr t)) ↦ inr (inr (inr t))
          ];
          looked = λ j q k ne e. absurd (cc);
        })
