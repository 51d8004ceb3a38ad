-- ===== src/Vector/Grow.antt =====
-- vector.cpp: `re_alloc` and `push_back`.
use modern_cpp_ds.Common.{
  ℕ, suc, ◌+◌, ◌≡◌, ◌≢◌, refl, Option, none, some, List, [], ◌++◌, map, arith, length, length-map,
  replicate, ◌⊎◌, inl, inr,
}
use modern_cpp_ds.Vector.{
  null, ok, Block, live_count, Heap, Vector, store, allocate, move_loop, destroy, re_alloc,
}
use modern_cpp_ds.Vector.Loops.{live, live_count_raw, destroy_lem, move_lem}
use modern_cpp_ds.Vector.Holds.{slots, IsFresh, Holds, SameBut, replicate-add, elements-Holds}

module _ {T : Type 0} (moved_from : T → T) where
  moved :
      (new_cap spare : ℕ) (h : Heap T) (v : Vector) (xs : List T) (w : Holds h v xs)
      → new_cap ≡ length xs + spare
      → move_loop moved_from v.size 0 (replicate new_cap none) (slots xs w.spare)
        ≡ ok (slots xs spare, live (map moved_from xs) ++ replicate w.spare none)
  moved new_cap spare h v xs w e =
      rw (replicate-add {A = Option T} new_cap (length xs) spare none e, w.size_eq)
        (move_lem moved_from xs [] [] (replicate spare none) (replicate w.spare none) refl)

  destroyed :
      (h : Heap T) (v : Vector) (xs : List T) (w : Holds h v xs)
      → destroy v.size 0 (live (map moved_from xs) ++ replicate w.spare none)
        ≡ ok (replicate (length (map moved_from xs)) none ++ replicate w.spare none)
  destroyed h v xs w =
      rw (w.size_eq, ← length-map xs moved_from)
        (destroy_lem (map moved_from xs) [] (replicate w.spare none))

  -- What `re_alloc` returns, and the heap that it leaves.
  pub record Moved (new_cap spare : ℕ) (h : Heap T) (v : Vector) (xs : List T) : Type 0 where
    pub heap : Heap T
    pub returns :
        re_alloc moved_from new_cap v h ≡ ok (record v { ptr = h.next; cap = new_cap }, heap)
    pub holds : heap.block h.next ≡ some (slots xs spare)
    pub freed : v.ptr ≢ null → heap.block v.ptr ≡ none
    pub same : SameBut v.ptr h.next h heap
    pub next : heap.next ≡ suc h.next
    pub leaked_eq : heap.leaked ≡ h.leaked

  -- `re_alloc` to a capacity that suffices returns: the elements stand in the same order in a new
  -- block of that capacity, the old block is given back without an object in it, and no other block has changed.
  pub re_alloc_lem :
      (new_cap spare : ℕ) (h : Heap T) (v : Vector) (xs : List T)
      → IsFresh h
      → Holds h v xs
      → new_cap ≡ length xs + spare
      → Moved new_cap spare h v xs
  unfolding re_alloc
  re_alloc_lem new_cap spare h v xs f w e = by_block w.block_eq
    where
      new_heap : Heap T
      new_heap = store (allocate new_cap h) h.next (some (slots xs spare))

      raw : Block T
      raw = replicate (length (map moved_from xs)) none ++ replicate w.spare none

      ptr-ne : h.block v.ptr ≡ some (slots xs w.spare) → v.ptr ≢ h.next
      ptr-ne b n = ground (arith, f.unused v.ptr)

      by_block :
          ((v.ptr ≡ null) × (v.cap ≡ 0))
            ⊎ ((v.ptr ≢ null) × (h.block v.ptr ≡ some (slots xs w.spare)))
          → Moved new_cap spare h v xs
      by_block (inl (z, _)) = record {
        heap = new_heap;
        returns =
            rw (elements-Holds w, moved new_cap spare h v xs w e, destroyed h v xs w)
              (ground arith);
        holds = ground arith;
        freed = λ nz. absurd (nz z);
        same = λ p a b. ground arith;
        next = refl;
        leaked_eq = refl;
      }
      by_block (inr (nz, b)) = record {
        heap = record (store (store new_heap v.ptr (some raw)) v.ptr none) {
          leaked = live_count raw + h.leaked;
        };
        returns =
            rw (elements-Holds w, moved new_cap spare h v xs w e, destroyed h v xs w)
              (ground (arith, ptr-ne b));
        holds = ground (arith, ptr-ne b);
        freed = λ _. ground arith;
        same = λ p a b'. ground arith;
        next = refl;
        leaked_eq = omega (arith, live_count_raw T (length (map moved_from xs)) w.spare);
      }
