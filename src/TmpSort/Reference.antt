-- ===== src/TmpSort/Reference.antt =====
-- c++_features_experiment/template_metaprogramming.cpp: the sort against an insertion sort.
use modern_cpp_ds.Common.{
  false, true, ℕ, suc, ◌<◌, ◌≤◌, ◌≡◌, refl, sym, ap, ap₂, ◌∙◌, List, [], ◌∷◌, length, leb,
  if◌then◌else◌, dec_lt, ℕ_discrete, arith, false, true,
}
use modern_cpp_ds.Common.Counts.{count}
use modern_cpp_ds.TmpSort.{done, inbubsort}
use modern_cpp_ds.TmpSort.Sorted.{Least, IsSorted, Least-trans}
use modern_cpp_ds.TmpSort.Sort.{rounds, inbubsort_lem}

unfoldable pub insert : ℕ → List ℕ → List ℕ
insert x [] = x ∷ []
insert x (y ∷ ys) = let rest = insert x ys in if leb x y then x ∷ y ∷ ys else y ∷ rest

unfoldable pub insertion_sort : List ℕ → List ℕ
unfolding insert
insertion_sort [] = []
insertion_sort (x ∷ xs) = insert x (insertion_sort xs)

insert-count : (x a : ℕ) (ys : List ℕ) → count a (insert x ys) ≡ count a (x ∷ ys)
unfolding insert count
insert-count x a [] = refl
insert-count x a (y ∷ ys) = ground (arith, insert-count x a ys)

goes_on : (x y : ℕ) → y < x → leb x y ≡ false
goes_on x y lt = ground arith

goes_first : (x y : ℕ) → ¬ (y < x) → leb x y ≡ true
goes_first x y nl = ground arith

insert-Least : (m x : ℕ) (ys : List ℕ) → m ≤ x → Least m ys → Least m (insert x ys)
unfolding insert
insert-Least m x [] le l = (le, tt)
insert-Least m x (y ∷ ys) le (h, l) = elim (dec_lt y x) [
  | yes lt ↦ rw (goes_on x y lt) (h, insert-Least m x ys le l)
  | no nl ↦ rw (goes_first x y nl) (le, (h, l))
]

insert-IsSorted : (x : ℕ) (ys : List ℕ) → IsSorted ys → IsSorted (insert x ys)
unfolding insert
insert-IsSorted x [] s = (tt, tt)
insert-IsSorted x (y ∷ ys) (l, s) = elim (dec_lt y x) [
  | yes lt ↦ rw (goes_on x y lt) (insert-Least y x ys (omega arith) l, insert-IsSorted x ys s)
  | no nl ↦ rw (goes_first x y nl) ((omega arith, Least-trans x y ys (omega arith) l), (l, s))
]

insertion_sort_lem :
    (xs : List ℕ)
    → IsSorted (insertion_sort xs) × ((a : ℕ) → count a (insertion_sort xs) ≡ count a xs)
unfolding insertion_sort count
insertion_sort_lem [] = (tt, λ a. refl)
insertion_sort_lem (x ∷ xs) =
    let (s, c) = insertion_sort_lem xs in
    (
      insert-IsSorted x (insertion_sort xs) s,
      λ a. let c' = c a in insert-count x a (insertion_sort xs) ∙ ground arith,
    )

Least-count : (m a : ℕ) (xs : List ℕ) → Least m xs → 0 < count a xs → m ≤ a
unfolding count
Least-count m a [] l h = absurd (omega arith)
Least-count m a (x ∷ xs) (le, l) h = elim (ℕ_discrete a x) [
  | yes s ↦ omega arith
  | no ns ↦ Least-count m a xs l (ground arith)
]

-- An ascending list is the only one with its numbers.
IsSorted-eq :
    (xs ys : List ℕ) → IsSorted xs → IsSorted ys → ((a : ℕ) → count a xs ≡ count a ys) → xs ≡ ys
unfolding count
IsSorted-eq [] [] s t c = refl
IsSorted-eq [] (y ∷ ys) s t c = let d = c y in absurd (ground arith)
IsSorted-eq (x ∷ xs) [] s t c = let d = c x in absurd (ground arith)
IsSorted-eq (x ∷ xs) (y ∷ ys) (l, s) (k, t) c =
    let le : y ≤ x = elim (ℕ_discrete x y) [
      | yes e ↦ omega arith
      | no ne ↦ let d = c x in Least-count y x ys k (ground arith)
    ] in
    let ge : x ≤ y = elim (ℕ_discrete y x) [
      | yes e ↦ omega arith
      | no ne ↦ let d = c y in Least-count x y xs l (ground arith)
    ] in
    let same : x ≡ y = omega arith in
    ap₂ (λ z zs. z ∷ zs) same (IsSorted-eq xs ys s t (λ a. let d = c a in ground arith))

-- `inbubsort<n - 1, 0>` on an array of n ints, n not 0, returns what insertion sort returns.
pub inbubsort-insertion_sort :
    (i : ℕ) (before : List ℕ)
    → length before ≡ suc i
    → inbubsort (rounds i) i 0 before ≡ done (insertion_sort before)
inbubsort-insertion_sort i before e =
    let (after, runs, s, c) = inbubsort_lem i before e in
    let (s', c') = insertion_sort_lem before in
    runs ∙ ap done (IsSorted-eq after (insertion_sort before) s s' (λ a. c a ∙ sym (c' a)))
