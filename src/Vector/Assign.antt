-- ===== src/Vector/Assign.antt =====
-- vector.cpp: copy assignment.
use modern_cpp_ds.Common.{◌≡◌, ◌≢◌, sym, ◌∙◌, none, List, arith}
use modern_cpp_ds.Vector.{null, ok, Heap, Vector, copy, destructor, assign}
use modern_cpp_ds.Vector.Holds.{IsFresh, Holds}
use modern_cpp_ds.Vector.Copy.{Built, copy-Built, Freed, destructor_lem, Holds_same, ptr-ne-next}

module _ {T : Type 0} where
  -- What `operator=` leaves in the target and on the heap.
  pub record Assigned (v other : Vector) (h : Heap T) (ys : List T) : Type 0 where
    pub vector : Vector
    pub heap : Heap T
    pub returns : assign v other h ≡ ok (vector, heap)
    pub holds : Holds heap vector ys
    pub cap_eq : vector.cap ≡ other.cap
    pub other_holds : Holds heap other ys
    pub apart : vector.ptr ≢ other.ptr
    pub gone : v.ptr ≢ null → heap.block v.ptr ≡ none

  -- Copy assignment of another vector that shares no block with the target: the target holds the
  -- other's list, in a block of its own and with the other's capacity, the other still holds its
  -- list, and the target's old block is given back.
  pub assign_lem :
      (v other : Vector) (h : Heap T) (xs ys : List T)
      → IsFresh h
      → Holds h v xs
      → Holds h other ys
      → (v.ptr ≢ null → v.ptr ≢ other.ptr)
      → Assigned v other h ys
  unfolding assign
  assign_lem v other h xs ys f w o ne = finish (copy-Built other h ys f o)
    where
      dropped :
          (c : Built (copy other h) h ys other.cap)
          → Freed (destructor v c.heap) v c.heap
          → Assigned v other h ys
      dropped c d = record {
        vector = c.vector;
        heap = d.heap;
        returns = rw (c.returns, d.returns);
        holds =
            Holds_same c.heap d.heap c.vector ys
              (λ _. d.same c.vector.ptr (λ e. ptr-ne-next h v xs f w (ground (arith, c.own))))
              c.holds;
        cap_eq = c.cap_eq;
        other_holds =
            Holds_same h d.heap other ys
              (λ nz.
                d.same other.ptr (λ e. ne (λ z. nz (e ∙ z)) (sym e))
                ∙ c.same other.ptr (ptr-ne-next h other ys f o))
              o;
        apart = λ e. ptr-ne-next h other ys f o (ground (arith, c.own));
        gone = d.gone;
      }

      finish : Built (copy other h) h ys other.cap → Assigned v other h ys
      finish c = dropped c (
          destructor_lem v c.heap xs
            (Holds_same h c.heap v xs (λ _. c.same v.ptr (ptr-ne-next h v xs f w)) w))
