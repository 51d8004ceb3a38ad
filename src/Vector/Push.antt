-- ===== src/Vector/Push.antt =====
-- vector.cpp: `push_back`, with an object from outside and with a reference to an own element.
use mathlib.Core.List.{append_assoc, map-append}
use modern_cpp_ds.Common.{
  ℕ, zero, suc, ◌+◌, ◌-◌, ◌^◌, ◌<◌, ◌≡◌, ◌≢◌, refl, none, some, List, [], ◌∷◌, ◌++◌, arith, length,
  length-map, length-append, get_elem?, replicate, ◌⊎◌, inl, inr, if◌then◌else◌, ◌==◌, ℕ_discrete,
}
use modern_cpp_ds.Vector.{
  null, ok, fault, Heap, Vector, store, block_at, append, push_back, grown, Source, outside,
  element, referred,
}
use modern_cpp_ds.Vector.Loops.{live, construct_middle}
use modern_cpp_ds.Vector.Holds.{slots, IsFresh, Holds, SameBut}
use modern_cpp_ds.Vector.Grow.{Moved, re_alloc_lem}

module _ {T : Type 0} where
  slots_snoc :
      (xs : List T) (x : T) (s : ℕ)
      → live xs ++ (some x ∷ replicate s none) ≡ slots (xs ++ (x ∷ [])) s
  slots_snoc xs x s = rw (map-append, append_assoc)

  append_lem :
      (x : T) (v : Vector) (h : Heap T) (xs : List T) (s : ℕ)
      → v.size ≡ length xs
      → h.block v.ptr ≡ some (slots xs (suc s))
      → append x v h
        ≡ ok (record v { size = v.size + 1 }, store h v.ptr (some (slots (xs ++ (x ∷ [])) s)))
  unfolding append
  append_lem x v h xs s e b = rw (
    b,
    block_at,
    e,
    ← length-map xs some,
    construct_middle (live xs) (replicate s none) none x,
    slots_snoc xs x s,
  )

  get_elem?-slots :
      (xs : List T) (s i : ℕ) (x : T)
      → get_elem? xs i ≡ some x
      → get_elem? (slots xs s) i ≡ some (some x)
  get_elem?-slots [] s i x e = absurd (cc)
  get_elem?-slots (y ∷ xs) s zero x e = ground arith
  get_elem?-slots (y ∷ xs) s (suc i) x e = get_elem?-slots xs s i x e

  -- A vector with an element has a block.
  pub allocated :
      (i : ℕ) (x : T) (v : Vector) (h : Heap T) (xs : List T) (w : Holds h v xs)
      → get_elem? xs i ≡ some x
      → (v.ptr ≢ null) × (h.block v.ptr ≡ some (slots xs w.spare))
  allocated i x v h [] w e = absurd (cc)
  allocated i x v h (y ∷ xs) w e = by_block w.block_eq
    where
      by_block :
          ((v.ptr ≡ null) × (v.cap ≡ 0))
            ⊎ ((v.ptr ≢ null) × (h.block v.ptr ≡ some (slots (y ∷ xs) w.spare)))
          → (v.ptr ≢ null) × (h.block v.ptr ≡ some (slots (y ∷ xs) w.spare))
      by_block (inl (_, c)) = absurd (omega (arith, w.cap_eq))
      by_block (inr b) = b

  refers_to :
      (i : ℕ) (x : T) (v : Vector) (h : Heap T) (xs : List T)
      → Holds h v xs
      → get_elem? xs i ≡ some x
      → referred (element i) v.ptr h ≡ ok x
  refers_to i x v h xs w e =
      ground (arith, allocated i x v h xs w e, get_elem?-slots xs w.spare i x e)

module _ {T : Type 0} (moved_from : T → T) where
  -- A `push_back` that returns: the vector holds the list with `x` behind it, its capacity has grown
  -- as the code says if it was used up, the old block is given back if there is a new one, and no
  -- other block has changed.
  pub record Pushed (val : Source T) (x : T) (v : Vector) (h : Heap T) (xs : List T) : Type 0 where
    pub vector : Vector
    pub heap : Heap T
    pub returns : push_back moved_from val v h ≡ ok (vector, heap)
    pub holds : Holds heap vector (xs ++ (x ∷ []))
    pub fresh : IsFresh heap
    pub cap_eq : vector.cap ≡ (if v.size == v.cap then grown v.cap else v.cap)
    pub freed : vector.ptr ≢ v.ptr → v.ptr ≢ null → heap.block v.ptr ≡ none
    pub same : SameBut v.ptr h.next h heap
    pub leaked_eq : heap.leaked ≡ h.leaked
    pub stands :
        ((vector.ptr ≡ v.ptr) × (heap.next ≡ h.next))
        ⊎ ((vector.ptr ≡ h.next) × (heap.next ≡ suc h.next))

  -- There is room: the object is constructed behind the others.
  push_room :
      (val : Source T) (x : T) (v : Vector) (h : Heap T) (xs : List T)
      → IsFresh h
      → Holds h v xs
      → v.size ≢ v.cap
      → referred val v.ptr h ≡ ok x
      → Pushed val x v h xs
  unfolding push_back
  push_room val x v h xs f w room r = by_spare w.spare w.cap_eq (block_of w.block_eq)
    where
      block_of :
          ((v.ptr ≡ null) × (v.cap ≡ 0))
            ⊎ ((v.ptr ≢ null) × (h.block v.ptr ≡ some (slots xs w.spare)))
          → (v.ptr ≢ null) × (h.block v.ptr ≡ some (slots xs w.spare))
      block_of (inl (_, c)) = absurd (omega (arith, w.size_eq, w.cap_eq))
      block_of (inr b) = b

      by_spare :
          (s : ℕ)
          → v.cap ≡ length xs + s
          → (v.ptr ≢ null) × (h.block v.ptr ≡ some (slots xs s))
          → Pushed val x v h xs
      by_spare zero c b = absurd (omega (arith, w.size_eq))
      by_spare (suc s) c (nz, b) = record {
        vector = record v { size = v.size + 1 };
        heap = store h v.ptr (some (slots (xs ++ (x ∷ [])) s));
        returns = ground (arith, r, append_lem x v h xs s w.size_eq b);
        holds = record {
          size_eq = omega (arith, w.size_eq, length-append xs (x ∷ []));
          spare = s;
          cap_eq = omega (arith, length-append xs (x ∷ []));
          block_eq = inr (nz, ground arith);
        };
        fresh = record {
          positive = f.positive;
          unused = λ p le. ground (arith, f.unused p, f.unused v.ptr);
        };
        cap_eq = ground arith;
        freed = λ ne _. absurd (ne refl);
        same = λ p a c'. ground arith;
        leaked_eq = refl;
        stands = inl (refl, refl);
      }

  -- The elements have moved: the object is constructed behind them.
  push-Moved :
      (val : Source T) (x : T) (v : Vector) (h : Heap T) (xs : List T) (rest : ℕ)
      → IsFresh h
      → v.size ≡ length xs
      → v.size ≡ v.cap
      → grown v.cap ≡ length xs + suc rest
      → (m : Moved moved_from (grown v.cap) (suc rest) h v xs) → referred val v.ptr m.heap ≡ ok x
      → Pushed val x v h xs
  unfolding push_back
  push-Moved val x v h xs rest f size_eq full room m r = record {
    vector = record v { ptr = h.next; cap = grown v.cap; size = v.size + 1 };
    heap = store m.heap h.next (some (slots (xs ++ (x ∷ [])) rest));
    returns = ground (
      arith,
      m.returns,
      r,
      append_lem x (record v { ptr = h.next; cap = grown v.cap }) m.heap xs rest size_eq m.holds,
    );
    holds = record {
      size_eq = omega (arith, length-append xs (x ∷ []));
      spare = rest;
      cap_eq = omega (arith, room, length-append xs (x ∷ []));
      block_eq = inr (f.positive, ground arith);
    };
    fresh = record {
      positive = λ z. omega (arith, m.next);
      unused = λ p le. unused p (omega (arith, m.next)) (ℕ_discrete p v.ptr);
    };
    cap_eq = ground arith;
    freed = λ ne nz. ground (arith, m.freed nz);
    same = λ p a b. ground (arith, m.same p a b);
    leaked_eq = m.leaked_eq;
    stands = inr (refl, m.next);
  }
    where
      unused :
          (p : ℕ)
          → h.next < p
          → Dec (p ≡ v.ptr)
          → (store m.heap h.next (some (slots (xs ++ (x ∷ [])) rest))).block p ≡ none
      unused p lt (yes e) = ground (arith, m.freed (λ z. omega (arith, e)))
      unused p lt (no ne) = ground (arith, m.same p ne, f.unused p)

  -- The new capacity has room for one more.
  grown_room :
      (v : Vector) (xs : List T)
      → v.cap ≡ length xs
      → v.cap < 2 ^ 63
      → grown v.cap ≡ length xs + suc (grown v.cap - length xs - 1)
  grown_room v xs full small = ground arith

  -- The capacity is used up: the elements move first.
  push_grow :
      (val : Source T) (x : T) (v : Vector) (h : Heap T) (xs : List T)
      → IsFresh h
      → Holds h v xs
      → v.size ≡ v.cap
      → v.cap < 2 ^ 63
      → ((h' : Heap T) → referred val v.ptr h' ≡ ok x)
      → Pushed val x v h xs
  push_grow val x v h xs f w full small r =
      let rest : ℕ = grown v.cap - length xs - 1 in
      let room : grown v.cap ≡ length xs + suc rest =
        grown_room v xs (omega (arith, w.size_eq)) small in
      let m = re_alloc_lem moved_from (grown v.cap) (suc rest) h v xs f w room in
      push-Moved val x v h xs rest f w.size_eq full room m (r m.heap)

  -- For a capacity whose double is a `size_t`, `push_back` of an object that is not an element of the vector appends it, whether or not the
  -- vector has to grow.
  pub push_back_appends :
      (x : T) (v : Vector) (h : Heap T) (xs : List T)
      → IsFresh h
      → Holds h v xs
      → v.cap < 2 ^ 63
      → Pushed (outside x) x v h xs
  push_back_appends x v h xs f w small = elim (ℕ_discrete v.size v.cap) [
    | yes full ↦ push_grow (outside x) x v h xs f w full small (λ h'. refl)
    | no room ↦ push_room (outside x) x v h xs f w room refl
  ]

  dangles :
      (i : ℕ) (v : Vector) (h : Heap T) (xs : List T) (rest : ℕ)
      → v.size ≡ v.cap
      → v.ptr ≢ null
      → Moved moved_from (grown v.cap) rest h v xs
      → push_back moved_from (element i) v h ≡ fault
  unfolding push_back
  dangles i v h xs rest full nz m = ground (arith, m.returns, m.freed nz)

  -- `push_back(v[i])` of an own element is right while there is room, and reads freed memory when
  -- the capacity is used up: the reference points into the block that `re_alloc` has given back.
  pub push_back_alias :
      (i : ℕ) (x : T) (v : Vector) (h : Heap T) (xs : List T)
      → IsFresh h
      → Holds h v xs
      → get_elem? xs i ≡ some x
      → v.cap < 2 ^ 63
      → (v.size ≢ v.cap → Pushed (element i) x v h xs)
        × (v.size ≡ v.cap → push_back moved_from (element i) v h ≡ fault)
  push_back_alias i x v h xs f w e small = (
    λ room. push_room (element i) x v h xs f w room (refers_to i x v h xs w e),
    λ full.
        let rest : ℕ = grown v.cap - length xs - 1 in
        let room : grown v.cap ≡ length xs + suc rest =
          grown_room v xs (omega (arith, w.size_eq)) small in
        dangles i v h xs (suc rest) full (allocated i x v h xs w e).0
          (re_alloc_lem moved_from (grown v.cap) (suc rest) h v xs f w room),
  )
