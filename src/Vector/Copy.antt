-- ===== src/Vector/Copy.antt =====
-- vector.cpp: the constructors, the copies and the moves.
use mathlib.Core.List.{append-nil}
use modern_cpp_ds.Common.{
  ℕ, zero, suc, ◌+◌, ◌≡◌, ◌≢◌, refl, sym, ap, ◌∙◌, Option, none, some, List, [], ◌∷◌, ◌++◌, arith,
  length, length-replicate, replicate, ◌⊎◌, inl, inr,
}
use modern_cpp_ds.Vector.{
  null, Result, ok, Block, Heap, Vector, store, allocate, fill, copy_loop, live_count, create, copy,
  destructor,
}
use modern_cpp_ds.Vector.Loops.{live, live_count_raw, fill_lem, copy_lem, destroy_lem}
use modern_cpp_ds.Vector.Holds.{slots, IsFresh, Holds, replicate-add, elements-Holds}

module _ {T : Type 0} where
  -- A heap that has changed at most at one fresh address.
  new_block-IsFresh :
      (h : Heap T) (n : ℕ) (b : Block T)
      → IsFresh h
      → IsFresh (store (allocate n h) h.next (some b))
  new_block-IsFresh h n b f = record {
    positive = λ z. omega arith;
    unused = λ p le. ground (arith, f.unused p);
  }

  -- A block that is already there stays.
  pub Holds_same :
      (h h' : Heap T) (v : Vector) (xs : List T)
      → (v.ptr ≢ null → h'.block v.ptr ≡ h.block v.ptr)
      → Holds h v xs
      → Holds h' v xs
  Holds_same h h' v xs same w = record {
    size_eq = w.size_eq;
    spare = w.spare;
    cap_eq = w.cap_eq;
    block_eq = by_block w.block_eq;
  }
    where
      by_block :
          ((v.ptr ≡ null) × (v.cap ≡ 0))
            ⊎ ((v.ptr ≢ null) × (h.block v.ptr ≡ some (slots xs w.spare)))
          → ((v.ptr ≡ null) × (v.cap ≡ 0))
            ⊎ ((v.ptr ≢ null) × (h'.block v.ptr ≡ some (slots xs w.spare)))
      by_block (inl b) = inl b
      by_block (inr (nz, b)) = inr (nz, same nz ∙ b)

  -- The address of a vector's block has been handed out.
  pub ptr-ne-next :
      (h : Heap T) (v : Vector) (xs : List T) → IsFresh h → Holds h v xs → v.ptr ≢ h.next
  ptr-ne-next h v xs f w e = by_block w.block_eq
    where
      by_block :
          ((v.ptr ≡ null) × (v.cap ≡ 0))
            ⊎ ((v.ptr ≢ null) × (h.block v.ptr ≡ some (slots xs w.spare)))
          → ⊥
      by_block (inl (z, _)) = f.positive (sym e ∙ z)
      by_block (inr (_, b)) = ground (arith, f.unused v.ptr)

  map-replicate : (n : ℕ) (x : T) → live (replicate n x) ≡ replicate n (some x)
  map-replicate zero x = refl
  map-replicate (suc n) x = ap (λ l. some x ∷ l) (map-replicate n x)

  -- What a constructor leaves: the new vector on the new heap, which differs from the old one in the
  -- new block only.
  pub record Built (r : Result (Vector × Heap T)) (h : Heap T) (xs : List T) (cap : ℕ)
      : Type 0 where
    pub vector : Vector
    pub heap : Heap T
    pub returns : r ≡ ok (vector, heap)
    pub holds : Holds heap vector xs
    pub cap_eq : vector.cap ≡ cap
    pub fresh : IsFresh heap
    pub own : vector.ptr ≡ h.next
    pub same : (p : ℕ) → p ≢ h.next → heap.block p ≡ h.block p

  -- `vector(n, val)` holds `n` copies of the value, with no room to spare.
  pub create_lem :
      (n : ℕ) (x : T) (h : Heap T) → IsFresh h → Built (create n x h) h (replicate n x) n
  unfolding create
  create_lem n x h f = record {
    vector = record { ptr = h.next; size = n; cap = n };
    heap = store (allocate n h) h.next (some (replicate n (some x)));
    returns = rw filled;
    holds = record {
      size_eq = sym (length-replicate n x);
      spare = 0;
      cap_eq = omega (arith, length-replicate n x);
      block_eq = inr (f.positive, rw (map-replicate n x, append-nil) (ground arith));
    };
    cap_eq = refl;
    fresh = new_block-IsFresh h n (replicate n (some x)) f;
    own = refl;
    same = λ p ne. ground arith;
  }
    where
      filled : fill x n 0 (replicate n none) ≡ ok (replicate n (some x))
      filled = simp append-nil at (fill_lem x n [] [])

  -- The copy constructor makes a vector with the same elements and capacity in a block of its own;
  -- the original stays as it was.
  pub copy-Built :
      (other : Vector) (h : Heap T) (xs : List T)
      → IsFresh h
      → Holds h other xs
      → Built (copy other h) h xs other.cap
  unfolding copy
  copy-Built other h xs f w = record {
    vector = record other { ptr = h.next };
    heap = store (allocate other.cap h) h.next (some (slots xs w.spare));
    returns = rw (elements-Holds w, copied);
    holds = record {
      size_eq = w.size_eq;
      spare = w.spare;
      cap_eq = w.cap_eq;
      block_eq = inr (f.positive, ground arith);
    };
    cap_eq = refl;
    fresh = new_block-IsFresh h other.cap (slots xs w.spare) f;
    own = refl;
    same = λ p ne. ground arith;
  }
    where
      copied :
          copy_loop other.size 0 (replicate other.cap none) (slots xs w.spare)
          ≡ ok (slots xs w.spare)
      copied =
          rw (replicate-add {A = Option T} other.cap (length xs) w.spare none w.cap_eq, w.size_eq)
            (copy_lem xs [] [] (replicate w.spare none) (replicate w.spare none) refl)

  -- What the destructor leaves.
  pub record Freed (r : Result (Heap T)) (v : Vector) (h : Heap T) : Type 0 where
    pub heap : Heap T
    pub returns : r ≡ ok heap
    pub gone : v.ptr ≢ null → heap.block v.ptr ≡ none
    pub same : (p : ℕ) → p ≢ v.ptr → heap.block p ≡ h.block p
    pub next : heap.next ≡ h.next
    pub leaked_eq : heap.leaked ≡ h.leaked

  -- The destructor destroys every element and gives the block back, and no other block changes.
  pub destructor_lem :
      (v : Vector) (h : Heap T) (xs : List T) → Holds h v xs → Freed (destructor v h) v h
  unfolding destructor
  destructor_lem v h xs w = by_block w.block_eq
    where
      by_block :
          ((v.ptr ≡ null) × (v.cap ≡ 0))
            ⊎ ((v.ptr ≢ null) × (h.block v.ptr ≡ some (slots xs w.spare)))
          → Freed (destructor v h) v h
      by_block (inl (z, _)) = record {
        heap = h;
        returns =
            rw (elements-Holds w, w.size_eq, destroy_lem xs [] (replicate w.spare none))
              (ground arith);
        gone = λ nz. absurd (nz z);
        same = λ p ne. refl;
        next = refl;
        leaked_eq = refl;
      }
      by_block (inr (nz, b)) = record {
        heap =
            record (store
              (store h v.ptr (some (replicate (length xs) none ++ replicate w.spare none))) v.ptr
              none) {
                leaked =
                    live_count {T = T} (replicate (length xs) none ++ replicate w.spare none)
                    + h.leaked;
              };
        returns =
            rw (elements-Holds w, w.size_eq, destroy_lem xs [] (replicate w.spare none))
              (ground arith);
        gone = λ _. ground arith;
        same = λ p ne. ground arith;
        next = refl;
        leaked_eq = omega (arith, live_count_raw T (length xs) w.spare);
      }
