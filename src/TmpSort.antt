-- ===== src/TmpSort.antt =====
-- c++_features_experiment/template_metaprogramming.cpp: the bubble sort that is unrolled at compile time,
-- as a recursion over its two template arguments. An `int` x stands as x + 2 ^ 31, since the code only
-- compares and moves it; the fuel bounds the number of instantiations.
mod Sorted
mod Pass
mod Sort
mod Reference
mod Tests
use modern_cpp_ds.Common.{
  ℕ, zero, suc, ◌-◌, Option, none, some, List, [], ◌∷◌, ◌==◌, ltb, if◌then◌else◌,
}

pub data Outcome : Type 0 where
  done : List ℕ → Outcome
  outside : Outcome  -- `data[j]` or `data[j + 1]` is not in the array
  unfinished : Outcome  -- the fuel is used up, or the instantiations do not end

-- `data[j]` and `data[j + 1]` exchanged if they stand in the wrong order; none outside of the array.
unfoldable pub compare_swap : ℕ → List ℕ → Option (List ℕ)
compare_swap zero (x ∷ y ∷ data_) = some (if ltb y x then y ∷ x ∷ data_ else x ∷ y ∷ data_)
compare_swap (suc j) (x ∷ data_) =
    let rest = compare_swap j data_ in elim rest [ some r ↦ some (x ∷ r) | none ↦ none ]
compare_swap zero (x ∷ []) = none
compare_swap j [] = none

-- `inbubsort<i, j>(data)`
unfoldable pub inbubsort : ℕ → ℕ → ℕ → List ℕ → Outcome
unfolding compare_swap
inbubsort zero i j data_ = unfinished
inbubsort (suc fuel) i j data_ =
    let inner = inbubsort fuel i (suc j) in
    let outer = inbubsort fuel (i - 1) 0 data_ in
    if ltb j i
    then elim (compare_swap j data_) [ some swapped ↦ inner swapped | none ↦ outside ]
    else if i == 0
    then (if j == 0 then done data_ else unfinished)
    else outer
