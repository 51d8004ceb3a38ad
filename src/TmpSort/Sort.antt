-- ===== src/TmpSort/Sort.antt =====
-- c++_features_experiment/template_metaprogramming.cpp: what the sort returns, and where it leaves the array.
use modern_cpp_ds.Common.{
  ℕ, zero, suc, ◌+◌, ◌-◌, ◌<◌, ◌≤◌, ◌≡◌, refl, sym, ap, ◌∙◌, dec_lt, some, none, List, [], ◌∷◌,
  ◌++◌, length, arith,
}
use modern_cpp_ds.Common.Counts.{count}
use mathlib.Core.List.{append-nil}
use modern_cpp_ds.TmpSort.{done, outside, compare_swap, inbubsort}
use modern_cpp_ds.TmpSort.Sorted.{IsSorted, Below, Below-cons}
use modern_cpp_ds.TmpSort.Pass.{one_round, pass}

-- The instantiations that `inbubsort<i, 0>` needs.
abbrev pub rounds : ℕ → ℕ
rounds zero = 1
rounds (suc i) = suc i + suc (rounds i)

-- The sort ends with this list.
record Sorts (i : ℕ) (before : List ℕ) : Type 0 where
  after : List ℕ
  runs : inbubsort (rounds i) i 0 before ≡ done after
  sorted : IsSorted after
  same : (a : ℕ) → count a after ≡ count a before

next_pass :
    (i fuel : ℕ) (before : List ℕ)
    → inbubsort (suc fuel) (suc i) (suc i) before ≡ inbubsort fuel i 0 before
unfolding inbubsort
next_pass i fuel before = ground arith

sorts :
    (i : ℕ) (before fin : List ℕ)
    → length before ≡ suc i
    → Below before fin
    → IsSorted fin
    → Sorts i (before ++ fin)
unfolding inbubsort
sorts i [] fin e b s = absurd (omega arith)
sorts zero (m ∷ []) fin e (l, b) s = record {
  after = m ∷ fin;
  runs = refl;
  sorted = (l, s);
  same = λ a. refl;
}
sorts zero (m ∷ (y ∷ mid)) fin e b s = absurd (omega arith)
sorts (suc i) (m ∷ mid) fin e (l, b) s =
    let p =
      pass [] mid fin m (suc i) (suc i + suc (rounds i)) (suc (rounds i)) (omega arith)
        (omega arith) tt tt l b in
    let r =
      sorts i p.front (p.most ∷ fin) p.size (Below-cons p.front fin p.most p.below p.apart)
        (p.least, s) in
    record {
      after = r.after;
      runs = p.runs ∙ next_pass i (rounds i) (p.front ++ (p.most ∷ fin)) ∙ r.runs;
      sorted = r.sorted;
      same = λ a. r.same a ∙ p.same a;
    }

Below-nil : (xs : List ℕ) → Below xs []
Below-nil [] = tt
Below-nil (x ∷ xs) = (tt, Below-nil xs)

-- `inbubsort<n - 1, 0>` on an array of n ints, n not 0, ends after at most `rounds (n - 1)` instantiations
-- without an access outside of the array, and leaves the same ints in ascending order.
pub inbubsort_lem :
    (i : ℕ) (before : List ℕ)
    → length before ≡ suc i
    → (after : List ℕ) × (inbubsort (rounds i) i 0 before ≡ done after)
      × IsSorted after
      × ((a : ℕ) → count a after ≡ count a before)
inbubsort_lem i before e =
    let r = sorts i before [] e (Below-nil before) tt in
    let whole = append-nil before in
    (
      r.after,
      ap (inbubsort (rounds i) i 0) (sym whole) ∙ r.runs,
      r.sorted,
      λ a. r.same a ∙ ap (count a) whole,
    )

compare_swap-length :
    (j : ℕ) (before : List ℕ)
    → suc j < length before
    → (after : List ℕ) × (compare_swap j before ≡ some after) × (length after ≡ length before)
unfolding compare_swap
compare_swap-length j [] lt = absurd (omega arith)
compare_swap-length zero (x ∷ []) lt = absurd (omega arith)
compare_swap-length zero (x ∷ (y ∷ before)) lt = elim (dec_lt y x) [
  | yes l ↦ (y ∷ (x ∷ before), ground arith, refl)
  | no nl ↦ (x ∷ (y ∷ before), ground arith, refl)
]
compare_swap-length (suc j) (x ∷ before) lt =
    let (after, e, l) = compare_swap-length j before (omega arith) in
    (x ∷ after, ground arith, ap suc l)

compare_swap-end : (j : ℕ) (before : List ℕ) → length before ≡ suc j → compare_swap j before ≡ none
unfolding compare_swap
compare_swap-end j [] e = absurd (omega arith)
compare_swap-end zero (x ∷ []) e = refl
compare_swap-end zero (x ∷ (y ∷ before)) e = absurd (omega arith)
compare_swap-end (suc j) (x ∷ before) e =
    let f = compare_swap-end j before (omega arith) in ground arith

overruns :
    (k j i fuel : ℕ) (before : List ℕ)
    → j + suc k ≡ i
    → k < fuel
    → length before ≡ i
    → inbubsort fuel i j before ≡ outside
unfolding inbubsort
overruns k j i zero before e f l = absurd (omega arith)
overruns zero j i (suc fuel) before e f l =
    let n = compare_swap-end j before (omega arith) in ground arith
overruns (suc k) j i (suc fuel) before e f l =
    let (after, s, l') = compare_swap-length j before (omega arith) in
    one_round fuel i j before after (omega arith) s
    ∙ overruns k (suc j) i fuel after (omega arith) (omega arith) (l' ∙ l)

-- `inbubsort<n, 0>` on an array of n ints, n not 0, which is how `main` calls it, leaves the array in its
-- first pass; n instantiations are enough for that.
pub inbubsort_overruns :
    (n fuel : ℕ) (before : List ℕ)
    → 0 < n
    → length before ≡ n
    → n ≤ fuel
    → inbubsort fuel n 0 before ≡ outside
inbubsort_overruns n fuel before lt e le =
    overruns (n - 1) 0 n fuel before (omega arith) (omega arith) e
