-- ===== src/Vector/Alive.antt =====
-- vector.cpp: a vector among the blocks of others.
use modern_cpp_ds.Common.{
  ℕ, suc, ◌+◌, ◌*◌, ◌^◌, ◌<◌, length, length-append, ◌==◌, if◌then◌else◌, ◌≤◌, ◌≡◌, ◌≢◌, refl, sym,
  ◌∙◌, ◌⊎◌, inl, inr, none, List, [], ◌∷◌, ◌++◌, arith, ℕ_discrete,
}
use modern_cpp_ds.Vector.{null, Result, Heap, Vector, empty, outside, grown}
use modern_cpp_ds.Vector.Holds.{IsFresh, Holds}
use modern_cpp_ds.Vector.Push.{Pushed}
use modern_cpp_ds.Vector.Shrink.{Shrunk}

capacity_small :
    (size cap done : ℕ)
    → cap ≤ 2 * done
    → size ≤ done
    → cap < 2 ^ 63
    → (if size == cap then grown cap else cap) ≤ 2 * suc done
capacity_small size cap done le short small = ground arith

module _ {T : Type 0} where
  -- The vector holds the list, every other block is as it was before the vector was made, and no object is lost.
  pub record Alive (start h : Heap T) (v : Vector) (xs : List T) : Type 0 where
    pub fresh : IsFresh h
    pub holds : Holds h v xs
    pub later : start.next ≤ h.next
    pub others : (p : ℕ) → p ≢ null → p ≢ v.ptr → h.block p ≡ start.block p
    pub own : v.ptr ≢ null → start.block v.ptr ≡ none
    pub unleaked : h.leaked ≡ start.leaked

  pub Shrunk-Alive :
      (start h : Heap T) (v : Vector) (xs ys : List T) (r : Result (Vector × Heap T))
      → Alive start h v xs
      → (s : Shrunk r v h ys) → Alive start s.heap s.vector ys
  Shrunk-Alive start h v xs ys r a s = record {
    fresh = record {
      positive = λ z. a.fresh.positive (sym s.next_eq ∙ z);
      unused = λ p le. elim (ℕ_discrete p v.ptr) [
        | yes e ↦ absurd (ptr_used (rw (← e) (omega (arith, s.next_eq))))
        | no ne ↦ s.same p ne ∙ a.fresh.unused p (omega (arith, s.next_eq))
      ];
    };
    holds = s.holds;
    later = omega (arith, s.next_eq, a.later);
    others = λ p nz ne.
        let ne' : p ≢ v.ptr = λ e. ne (e ∙ sym s.ptr_eq) in s.same p ne' ∙ a.others p nz ne';
    own = rw s.ptr_eq a.own;
    unleaked = s.leaked_eq ∙ a.unleaked;
  }
    where
      ptr_used : h.next ≤ v.ptr → ⊥
      ptr_used le = elim a.holds.block_eq [
        | inl (z, _) ↦ a.fresh.positive (omega (arith, z))
        | inr (_, b) ↦ let gone = a.fresh.unused v.ptr le in absurd (cc)
      ]

  pub empty-Alive : (start : Heap T) → IsFresh start → Alive start start empty []
  empty-Alive start f = record {
    fresh = f;
    holds = record { size_eq = refl; spare = 0; cap_eq = refl; block_eq = inl (refl, refl) };
    later = omega arith;
    others = λ p nz ne. refl;
    own = λ nz. absurd (nz refl);
    unleaked = refl;
  }

  -- After `done` calls, with `left` more to come, the capacity is at most twice the number of calls.
  pub record Small (done left : ℕ) (v : Vector) (xs : List T) : Type 0 where
    pub room : v.cap ≤ 2 * done
    pub short : length xs ≤ done
    pub bound : done + left < 2 ^ 62

  pub Shrunk-Small :
      (done left : ℕ) (v : Vector) (h : Heap T) (xs ys : List T) (r : Result (Vector × Heap T))
      → length ys ≤ length xs
      → Small done (suc left) v xs
      → (s : Shrunk r v h ys) → Small (suc done) left s.vector ys
  Shrunk-Small done left v h xs ys r le m s = record {
    room = omega (arith, m.room, s.cap_eq);
    short = omega (arith, m.short, le);
    bound = omega (arith, m.bound);
  }

module _ {T : Type 0} (moved_from : T → T) where
  pub Pushed-Alive :
      (start h : Heap T) (v : Vector) (xs : List T) (x : T)
      → IsFresh start
      → Alive start h v xs
      → (u : Pushed moved_from (outside x) x v h xs) → Alive start u.heap u.vector (xs ++ (x ∷ []))
  Pushed-Alive start h v xs x f a u = record {
    fresh = u.fresh;
    holds = u.holds;
    later = elim u.stands [
      | inl (_, n) ↦ omega (arith, a.later)
      | inr (_, n) ↦ omega (arith, a.later)
    ];
    others = λ p nz ne. elsewhere p nz ne u.stands;
    own = λ nz. elim u.stands [
      | inl (e, _) ↦ rw e (a.own (λ z. nz (e ∙ z)))
      | inr (e, _) ↦ rw e (f.unused h.next a.later)
    ];
    unleaked = u.leaked_eq ∙ a.unleaked;
  }
    where
      elsewhere :
          (p : ℕ)
          → p ≢ null
          → p ≢ u.vector.ptr
          → ((u.vector.ptr ≡ v.ptr) × (u.heap.next ≡ h.next))
            ⊎ ((u.vector.ptr ≡ h.next) × (u.heap.next ≡ suc h.next))
          → u.heap.block p ≡ start.block p
      elsewhere p nz ne (inl (e, n)) =
          let ne' : p ≢ v.ptr = λ s. ne (s ∙ sym e) in
          elim (ℕ_discrete p h.next) [
            | yes s ↦
                u.fresh.unused p (omega (arith, n, s))
                ∙ sym (f.unused p (omega (arith, s, a.later)))
            | no s ↦ u.same p ne' s ∙ a.others p nz ne'
          ]
      elsewhere p nz ne (inr (e, n)) =
          let ne' : p ≢ h.next = λ s. ne (s ∙ sym e) in
          elim (ℕ_discrete p v.ptr) [
            | no s ↦ u.same p s ne' ∙ a.others p nz s
            | yes s ↦
                let there : v.ptr ≢ null = λ z. nz (s ∙ z) in
                let gone = u.freed (λ t. ne (s ∙ sym t)) there in rw s (gone ∙ sym (a.own there))
          ]

  pub Pushed-Small :
      (done left : ℕ) (v : Vector) (h : Heap T) (xs : List T) (x : T)
      → Holds h v xs
      → Small done (suc left) v xs
      → (u : Pushed moved_from (outside x) x v h xs)
      → Small (suc done) left u.vector (xs ++ (x ∷ []))
  Pushed-Small done left v h xs x w m u = record {
    room = rw u.cap_eq (
        capacity_small v.size v.cap done m.room (omega (arith, w.size_eq, m.short))
          (omega (arith, m.room, m.bound)));
    short = omega (arith, m.short, length-append xs (x ∷ []));
    bound = omega (arith, m.bound);
  }
