-- ===== src/Search/Bound.antt =====
-- branchless_binary_search.cpp: where the loop ends.
use modern_cpp_ds.Common.{
  ℕ, zero, suc, ◌+◌, ◌-◌, ◌*◌, ◌/◌, ◌≤◌, ◌<◌, ◌≡◌, ◌⊎◌, inl, inr, some, arith, dec_lt,
}
use modern_cpp_ds.Search.{at_most, search_loop}

-- Every element before `i` is at most `x`, and the last of the `len` that are left is above it, if it
-- is not the last of all.
record Range (n : ℕ) (a : ℕ → ℕ) (x i len : ℕ) : Type 0 where
  some_left : 0 < len
  inside : i + len ≤ n
  below : (j : ℕ) → j < i → a j ≤ x
  above : (i + len ≡ n) ⊎ (x < a (i + len - 1))

abbrev Sorted : ℕ → (ℕ → ℕ) → Type 0
Sorted n a = (i j : ℕ) → i ≤ j → j < n → a i ≤ a j

halve :
    (n : ℕ) (a : ℕ → ℕ) (x i len : ℕ)
    → Sorted n a
    → 1 < len
    → Range n a x i len
    → let mid = len / 2 in Range n a x (i + at_most a (i + mid - 1) x * mid) (len - mid)
halve n a x i len s more r = elim (dec_lt x (a (i + len / 2 - 1))) [
  | yes up ↦
      let stay : i + at_most a (i + len / 2 - 1) x * (len / 2) ≡ i = ground arith in
      rw stay (record {
        some_left = omega arith;
        inside = omega (arith, r.inside);
        below = r.below;
        above = inr (
            omega (
              arith,
              s (i + len / 2 - 1) (i + (len - len / 2) - 1) (omega arith) (omega (arith, r.inside)),
            ));
      })
  | no low ↦
      let go : at_most a (i + len / 2 - 1) x * (len / 2) ≡ len / 2 = ground arith in
      let end : i + len / 2 + (len - len / 2) ≡ i + len = omega arith in
      rw go (record {
        some_left = omega arith;
        inside = omega (arith, r.inside);
        below = λ j h. omega (arith, s j (i + len / 2 - 1) (omega arith) (omega (arith, r.inside)));
        above = rw end r.above;
      })
]

loop_ends :
    (fuel n : ℕ) (a : ℕ → ℕ) (x i len : ℕ)
    → Sorted n a
    → len ≤ fuel
    → Range n a x i len
    → (k : ℕ) × (search_loop fuel a x i len ≡ some k) × Range n a x k 1
unfolding search_loop
loop_ends zero n a x i len s h r = absurd (omega (arith, r.some_left))
loop_ends (suc fuel) n a x i len s h r = elim (dec_lt 1 len) [
  | yes more ↦
      let (k, e, r') =
        loop_ends fuel n a x (i + at_most a (i + len / 2 - 1) x * (len / 2)) (len - len / 2) s
          (omega arith) (halve n a x i len s more r) in
      (k, ground (arith, e), r')
  | no last ↦ let one : len ≡ 1 = omega (arith, r.some_left) in (i, ground arith, rw (← one) r)
]

-- On `n` sorted elements, `n` not 0, the loop ends within `n` rounds at an index in range: every
-- element before it is at most `x`, and the one there is above `x`, unless it is the last one. So it
-- is the first element above `x` if there is one, and the last element otherwise.
pub search_lem :
    (n : ℕ) (a : ℕ → ℕ) (x : ℕ)
    → 0 < n
    → ((i j : ℕ) → i ≤ j → j < n → a i ≤ a j)
    → (k : ℕ) × (search_loop n a x 0 n ≡ some k)
      × (k < n)
      × ((j : ℕ) → j < k → a j ≤ x)
      × ((k + 1 ≡ n) ⊎ (x < a k))
search_lem n a x some_elements sorted =
    let (k, e, r) = loop_ends n n a x 0 n sorted (omega arith) (record {
      some_left = some_elements;
      inside = omega arith;
      below = λ j h. absurd (omega arith);
      above = inl (omega arith);
    }) in
    let here : k + 1 - 1 ≡ k = omega arith in
    (k, e, omega (arith, r.inside), r.below, rw here at r.above)
