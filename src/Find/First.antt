-- ===== src/Find/First.antt =====
-- dsa_from_scratch/stl_algorithms/single_pass.cpp: which iterator `find` returns.
use modern_cpp_ds.Common.{
  ℕ, zero, suc, ◌+◌, ◌<◌, ◌≡◌, refl, ap, ◌⊎◌, inl, inr, Bool, true, false, some, List, [], ◌∷◌,
  length, get_elem?, arith, Bool-cases,
}
use modern_cpp_ds.Find.{find_impl, find}

module _ {T : Type 0} (equal : T → T → Bool) where
  -- The place of the first element that equals the value, or the length if there is none.
  data FirstAt (value : T) : List T → ℕ → Type 0 where
    here : (x : T) (xs : List T) → equal value x ≡ true → FirstAt value (x ∷ xs) 0
    later :
        (x : T) (xs : List T) (n : ℕ)
        → equal value x ≡ false
        → FirstAt value xs n
        → FirstAt value (x ∷ xs) (suc n)
    nowhere : FirstAt value [] 0

  shifted :
      (begin : ℕ) (elements : List T) (value : T)
      → (n : ℕ) × (find_impl equal begin elements value ≡ begin + n) × FirstAt value elements n
  unfolding find_impl
  shifted begin [] value = (0, omega arith, nowhere)
  shifted begin (x ∷ rest) value = elim (Bool-cases (equal value x)) [
    | inl e ↦ (0, ground arith, here x rest e)
    | inr e ↦
        let (n, at, first) = shifted (suc begin) rest value in
        (suc n, ground arith, later x rest n e first)
  ]

  -- `find` returns the first place whose element equals the value, and the end of the range exactly when no
  -- element does.
  pub find_lem :
      (elements : List T) (value : T)
      → let n = find equal elements value in
        ((j : ℕ) (x : T) → j < n → get_elem? elements j ≡ some x → equal value x ≡ false)
        × ((n ≡ length elements)
            ⊎ ((n < length elements)
                × ((x : T) × (get_elem? elements n ≡ some x) × (equal value x ≡ true))))
  find_lem elements value =
      let (n, at, first) = shifted 0 elements value in
      let same : find equal elements value ≡ n = omega arith in
      rw same (before elements n first, place elements n first)
    where
      before :
          (xs : List T) (n : ℕ)
          → FirstAt value xs n
          → (j : ℕ) (x : T) → j < n
          → get_elem? xs j ≡ some x
          → equal value x ≡ false
      before _ _ (here y ys e) j x lt f = absurd (omega arith)
      before _ _ (later y ys n e first) zero x lt f = ground arith
      before _ _ (later y ys n e first) (suc j) x lt f = before ys n first j x (omega arith) f
      before _ _ nowhere j x lt f = absurd (omega arith)

      place :
          (xs : List T) (n : ℕ)
          → FirstAt value xs n
          → (n ≡ length xs)
            ⊎ ((n < length xs) × ((x : T) × (get_elem? xs n ≡ some x) × (equal value x ≡ true)))
      place _ _ (here y ys e) = inr (omega arith, (y, refl, e))
      place _ _ (later y ys n e first) = elim (place ys n first) [
        | inl s ↦ inl (ap suc s)
        | inr (lt, (x, f, h)) ↦ inr (omega arith, (x, f, h))
      ]
      place _ _ nowhere = inl refl
