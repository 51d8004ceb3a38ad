-- ===== src/TmpSort/Sorted.antt =====
-- c++_features_experiment/template_metaprogramming.cpp: ascending lists of numbers.
use modern_cpp_ds.Common.{ℕ, ◌≤◌, List, [], ◌∷◌, ◌++◌, arith}

-- The number is at most each of the list.
abbrev pub Least : ℕ → List ℕ → Type 0
Least x [] = Unit {0}
Least x (y ∷ ys) = (x ≤ y) × Least x ys

abbrev pub IsSorted : List ℕ → Type 0
IsSorted [] = Unit {0}
IsSorted (x ∷ xs) = Least x xs × IsSorted xs

-- Each number of the first list is at most each of the second.
abbrev pub Below : List ℕ → List ℕ → Type 0
Below [] ys = Unit {0}
Below (x ∷ xs) ys = Least x ys × Below xs ys

pub Least-trans : (x y : ℕ) (ys : List ℕ) → x ≤ y → Least y ys → Least x ys
Least-trans x y [] le l = tt
Least-trans x y (z ∷ ys) le (h, l) = (omega arith, Least-trans x y ys le l)

pub Below-append : (xs xs' ys : List ℕ) → Below xs ys → Below xs' ys → Below (xs ++ xs') ys
Below-append [] xs' ys b c = c
Below-append (x ∷ xs) xs' ys (l, b) c = (l, Below-append xs xs' ys b c)

pub Below-cons : (xs ys : List ℕ) (y : ℕ) → Below xs (y ∷ []) → Below xs ys → Below xs (y ∷ ys)
Below-cons [] ys y a b = tt
Below-cons (x ∷ xs) ys y ((h, _), a) (l, b) = ((h, l), Below-cons xs ys y a b)

pub Below-raise : (xs : List ℕ) (y z : ℕ) → y ≤ z → Below xs (y ∷ []) → Below xs (z ∷ [])
Below-raise [] y z le b = tt
Below-raise (x ∷ xs) y z le ((h, _), b) = ((omega arith, tt), Below-raise xs y z le b)
