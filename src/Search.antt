-- ===== src/Search.antt =====
-- c++_features_experiment/branchless_binary_search.cpp: the loop of `main`, on a function that gives
-- the elements.
mod Bound
mod Tests
use modern_cpp_ds.Common.{
  ℕ, zero, suc, ◌+◌, ◌-◌, ◌*◌, ◌/◌, Option, none, some, leb, ltb, if◌then◌else◌,
}

-- `a[i + mid - 1] <= x` as a number
abbrev pub at_most : (ℕ → ℕ) → ℕ → ℕ → ℕ
at_most a j x = if leb (a j) x then 1 else 0

-- The index that the loop ends with; the fuel bounds the rounds.
unfoldable pub search_loop : ℕ → (ℕ → ℕ) → ℕ → ℕ → ℕ → Option ℕ
search_loop zero a x i len = none
search_loop (suc fuel) a x i len =
    let mid = len / 2 in
    let rest = search_loop fuel a x (i + at_most a (i + mid - 1) x * mid) (len - mid) in
    if ltb 1 len then rest else some i
