-- ===== src/Vector/Shrink.antt =====
-- vector.cpp: `pop_back` and `clear`.
use mathlib.Core.List.{append_assoc, map-append}
use modern_cpp_ds.Common.{
  ℕ, suc, ◌-◌, ◌≡◌, ◌≢◌, refl, Option, none, some, List, [], ◌∷◌, ◌++◌, arith, length,
  length-append, length-map, replicate, ◌⊎◌, inl, inr,
}
use modern_cpp_ds.Vector.{null, Result, ok, fault, Heap, Vector, store, destruct, pop_back, clear}
use modern_cpp_ds.Vector.Loops.{live, destruct_middle, destroy_lem}
use modern_cpp_ds.Vector.Holds.{slots, Holds, elements-Holds, replicate-add}

module _ {T : Type 0} where
  -- What `pop_back` and `clear` leave: fewer elements in the same block, with the same capacity.
  pub record Shrunk (r : Result (Vector × Heap T)) (v : Vector) (h : Heap T) (xs : List T)
      : Type 0 where
    pub vector : Vector
    pub heap : Heap T
    pub returns : r ≡ ok (vector, heap)
    pub holds : Holds heap vector xs
    pub cap_eq : vector.cap ≡ v.cap
    pub ptr_eq : vector.ptr ≡ v.ptr
    pub next_eq : heap.next ≡ h.next
    pub leaked_eq : heap.leaked ≡ h.leaked
    pub same : (p : ℕ) → p ≢ v.ptr → heap.block p ≡ h.block p

  last_slot :
      (xs : List T) (x : T) (s : ℕ)
      → slots (xs ++ (x ∷ [])) s ≡ live xs ++ (some x ∷ replicate s none)
  last_slot xs x s = rw (map-append, append_assoc)

  popped :
      (xs : List T) (x : T) (s n : ℕ)
      → n ≡ length xs
      → destruct (slots (xs ++ (x ∷ [])) s) n ≡ ok (slots xs (suc s))
  popped xs x s n e =
      rw (last_slot xs x s, e, ← length-map xs some)
        (destruct_middle (live xs) (replicate s none) x)

  -- `pop_back` destroys the last element and keeps the others and the capacity.
  pub pop_back_lem :
      (v : Vector) (h : Heap T) (xs : List T) (x : T)
      → Holds h v (xs ++ (x ∷ []))
      → Shrunk (pop_back v h) v h xs
  unfolding pop_back
  pop_back_lem v h xs x w = by_block w.block_eq
    where
      by_block :
          ((v.ptr ≡ null) × (v.cap ≡ 0))
            ⊎ ((v.ptr ≢ null) × (h.block v.ptr ≡ some (slots (xs ++ (x ∷ [])) w.spare)))
          → Shrunk (pop_back v h) v h xs
      by_block (inl (_, c)) = absurd (omega (arith, w.cap_eq, length-append xs (x ∷ [])))
      by_block (inr (nz, b)) = record {
        vector = record v { size = v.size - 1 };
        heap = store h v.ptr (some (slots xs (suc w.spare)));
        returns = ground (
          arith,
          w.size_eq,
          length-append xs (x ∷ []),
          elements-Holds w,
          popped xs x w.spare (v.size - 1),
        );
        holds = record {
          size_eq = omega (arith, w.size_eq, length-append xs (x ∷ []));
          spare = suc w.spare;
          cap_eq = omega (arith, w.cap_eq, length-append xs (x ∷ []));
          block_eq = inr (nz, ground arith);
        };
        cap_eq = refl;
        ptr_eq = refl;
        next_eq = refl;
        leaked_eq = refl;
        same = λ p ne. ground arith;
      }

  -- `pop_back` of an empty vector touches memory that is no element.
  pub pop_back_empty : (v : Vector) (h : Heap T) → Holds h v [] → pop_back v h ≡ fault
  unfolding pop_back
  pop_back_empty v h w = ground (arith, w.size_eq)

  -- `clear` destroys every element and keeps the capacity.
  pub clear_lem : (v : Vector) (h : Heap T) (xs : List T) → Holds h v xs → Shrunk (clear v h) v h []
  unfolding clear
  clear_lem v h xs w = by_block w.block_eq
    where
      by_block :
          ((v.ptr ≡ null) × (v.cap ≡ 0))
            ⊎ ((v.ptr ≢ null) × (h.block v.ptr ≡ some (slots xs w.spare)))
          → Shrunk (clear v h) v h []
      by_block (inl (z, c)) = record {
        vector = record v { size = 0 };
        heap = h;
        returns =
            rw (elements-Holds w, w.size_eq, destroy_lem xs [] (replicate w.spare none))
              (ground arith);
        holds = record {
          size_eq = refl;
          spare = v.cap;
          cap_eq = omega arith;
          block_eq = inl (z, c);
        };
        cap_eq = refl;
        ptr_eq = refl;
        next_eq = refl;
        leaked_eq = refl;
        same = λ p ne. refl;
      }
      by_block (inr (nz, b)) = record {
        vector = record v { size = 0 };
        heap = store h v.ptr (some (replicate v.cap none));
        returns =
            rw
              (
                replicate-add {A = Option T} v.cap (length xs) w.spare none w.cap_eq,
                elements-Holds w,
                w.size_eq,
                destroy_lem xs [] (replicate w.spare none),
              )
              (ground arith);
        holds = record {
          size_eq = refl;
          spare = v.cap;
          cap_eq = omega arith;
          block_eq = inr (nz, ground arith);
        };
        cap_eq = refl;
        ptr_eq = refl;
        next_eq = refl;
        leaked_eq = refl;
        same = λ p ne. ground arith;
      }
