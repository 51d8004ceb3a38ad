-- ===== src/Vector/Equal.antt =====
-- vector.cpp: `operator==`.
use modern_cpp_ds.Common.{
  replicate, ℕ_discrete, ◌≡◌, refl, Bool, true, false, ◌&&◌, none, some, List, [], ◌∷◌, ◌++◌, arith,
  length, if◌then◌else◌, ◌==◌,
}
use modern_cpp_ds.Vector.{ok, Block, Heap, Vector, compare_loop, equals}
use modern_cpp_ds.Vector.Loops.{live, read_middle, snoc, length_snoc}
use modern_cpp_ds.Vector.Holds.{Holds, elements-Holds}

module _ {T : Type 0} (eq : T → T → Bool) where
  -- Elements at the same places are equal, and there are as many.
  pub all_equal : List T → List T → Bool
  all_equal [] [] = true
  all_equal (x ∷ xs) (y ∷ ys) = if eq x y then all_equal xs ys else false
  all_equal _ _ = false

  compare_lem :
      (xs ys : List T) (pre pre' rest rest' : Block T)
      → length xs ≡ length ys
      → length pre ≡ length pre'
      → compare_loop eq
          (length xs)
          (length pre)
          (pre ++ (live xs ++ rest))
          (pre' ++ (live ys ++ rest'))
        ≡ ok (all_equal xs ys)
  unfolding compare_loop all_equal
  compare_lem [] [] pre pre' rest rest' l e = refl
  compare_lem [] (y ∷ ys) pre pre' rest rest' l e = absurd (omega arith)
  compare_lem (x ∷ xs) [] pre pre' rest rest' l e = absurd (omega arith)
  compare_lem (x ∷ xs) (y ∷ ys) pre pre' rest rest' l e =
      rw (read_middle pre (live xs ++ rest) x, e, read_middle pre' (live ys ++ rest') y, ← e)
        (ground (
          arith,
          simp (snoc, length_snoc) at
              (compare_lem xs ys (pre ++ (some x ∷ [])) (pre' ++ (some y ∷ [])) rest rest'
                (omega arith) (omega (arith, length_snoc pre (some x), length_snoc pre' (some y)))),
        ))

  -- `operator==` is true exactly when both the elements and the capacities are equal: vectors that
  -- hold the same list but have grown differently are told apart.
  pub equals_lem :
      (v other : Vector) (h : Heap T) (xs ys : List T)
      → Holds h v xs
      → Holds h other ys
      → equals eq v other h
        ≡ ok ((length xs == length ys) && (v.cap == other.cap) && all_equal xs ys)
  unfolding equals
  equals_lem v other h xs ys w o = elim (ℕ_discrete (length xs) (length ys)) [
    | yes e ↦ ground (
      arith,
      elements-Holds w,
      elements-Holds o,
      w.size_eq,
      o.size_eq,
      compare_lem xs ys [] [] (replicate w.spare none) (replicate o.spare none) e refl,
    )
    | no ne ↦ ground (arith, w.size_eq, o.size_eq)
  ]
