-- ===== src/SmallString/Arrays.antt =====
-- dsa_from_scratch/data_structures/string.cpp: what `memcpy` leaves in an array.
use mathlib.Core.List.{append-nil}
use modern_cpp_ds.Common.{
  length-append, length-replicate, length-drop, Option, length-take, length-drop, ℕ, zero, suc, ◌<◌,
  ◌≤◌, ◌≡◌, refl, ◌⊎◌, inl, inr, none, some, [], ◌∷◌, ◌++◌, length, take, drop, arith, ap,
  length-take, replicate, ◌∙◌, Option,
}
use modern_cpp_ds.SmallString.{Slots, sso_len, memcpy}

-- `memcpy` within both arrays copies the first characters and leaves the others.
pub memcpy_lem :
    (dst src : Slots) (n : ℕ)
    → n ≤ length dst
    → n ≤ length src
    → memcpy dst src n ≡ some (take n src ++ drop n dst)
unfolding memcpy
memcpy_lem dst src zero d s = refl
memcpy_lem [] src (suc n) d s = absurd (omega arith)
memcpy_lem (x ∷ dst) [] (suc n) d s = absurd (omega arith)
memcpy_lem (x ∷ dst) (y ∷ src) (suc n) d s = rw (memcpy_lem dst src n (omega arith) (omega arith))

-- `memcpy` past the end of either array is undefined.
pub memcpy_outside :
    (dst src : Slots) (n : ℕ) → (length dst < n) ⊎ (length src < n) → memcpy dst src n ≡ none
unfolding memcpy
memcpy_outside dst src zero (inl l) = absurd (omega arith)
memcpy_outside dst src zero (inr l) = absurd (omega arith)
memcpy_outside [] src (suc n) o = refl
memcpy_outside (x ∷ dst) [] (suc n) o = refl
memcpy_outside (x ∷ dst) (y ∷ src) (suc n) (inl l) =
    rw (memcpy_outside dst src n (inl (omega arith)))
memcpy_outside (x ∷ dst) (y ∷ src) (suc n) (inr l) =
    rw (memcpy_outside dst src n (inr (omega arith)))

pub take_all : (xs : Slots) (n : ℕ) → length xs ≤ n → take n xs ≡ xs
take_all [] zero l = refl
take_all [] (suc n) l = refl
take_all (x ∷ xs) zero l = absurd (omega arith)
take_all (x ∷ xs) (suc n) l = ap (λ t. x ∷ t) (take_all xs n (omega arith))

pub take-prefix : (n : ℕ) (xs ys : Slots) → length xs ≡ n → take n (xs ++ ys) ≡ xs
take-prefix zero [] ys e = refl
take-prefix zero (x ∷ xs) ys e = absurd (omega arith)
take-prefix (suc n) [] ys e = absurd (omega arith)
take-prefix (suc n) (x ∷ xs) ys e = ap (λ t. x ∷ t) (take-prefix n xs ys (omega arith))

pub length-prefix : (n : ℕ) (xs text : Slots) → take n xs ≡ text → n ≤ length xs → length text ≡ n
length-prefix n xs text e l = let m = length-take n xs in let t = ap length e in omega (arith, m, t)

pub overwritten :
    (src : Slots) (n : ℕ)
    → n ≤ length src
    → n ≤ sso_len
    → length (take n src ++ drop n (replicate sso_len none)) ≡ sso_len
overwritten src n fits le =
    let dst : Slots = replicate sso_len none in
    let a = length-append (take n src) (drop n dst) in
    let t = length-take n src in let d = length-drop n dst in omega (arith, a, t, d)

nothing_left : (n : ℕ) (x : Option ℕ) → drop n (replicate n x) ≡ []
nothing_left zero x = refl
nothing_left (suc n) x = nothing_left n x

pub filled :
    (src text : Slots) (n : ℕ)
    → take n src ≡ text
    → n ≤ length src
    → memcpy (replicate n none) src n ≡ some text
filled src text n e fits =
    let dst : Slots = replicate n none in
    let empty_slot : Option ℕ = none in
    memcpy_lem dst src n (let l = length-replicate n empty_slot in omega (arith, l)) fits
    ∙ ap some (ap (λ t. take n src ++ t) (nothing_left n none) ∙ append-nil (take n src) ∙ e)
