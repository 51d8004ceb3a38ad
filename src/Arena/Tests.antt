-- ===== src/Arena/Tests.antt =====
-- c++_features_experiment/arena_allocator.cpp: the theorems with a concrete `std::align`.
use native.Mathlib.Nat.{
  lt-div-mul-add, mul-mod_left, le-div_iff_mul-le, div-lt_iff_lt-mul, div-add-mod', suc-mul,
}
use modern_cpp_ds.Common.{
  ap, ◌∙◌, suc, ℕ, ◌+◌, ◌-◌, ◌*◌, ◌/◌, ◌%◌, ◌≤◌, ◌<◌, ◌≡◌, true, false, Option, none, some, List,
  [], ◌∷◌, leb, if◌then◌else◌, arith, Bool-cases, inl, inr, leb→le,
}
use modern_cpp_ds.Arena.{Request, create, Aligns, malloc_all}
use modern_cpp_ds.Arena.Laid.{Laid, arena_blocks}

-- The first multiple of `a` from `p` on.
up : ℕ → ℕ → ℕ
up a p = (p + (a - 1)) / a * a

align_up : ℕ → ℕ → ℕ → ℕ → Option (ℕ × ℕ)
align_up a size p space =
    if leb (up a p - p + size) space then some (up a p, space - (up a p - p)) else none

up-le : (a p : ℕ) → 0 < a → p ≤ up a p
unfolding up
up-le a p lt = from ((p + (a - 1)) / a * a) (lt-div-mul-add lt)
  where
    from : (u : ℕ) → p + (a - 1) < u + a → p ≤ u
    from u h = omega arith

up-least : (a p q : ℕ) → 0 < a → p ≤ q → q % a ≡ 0 → up a p ≤ q
unfolding up
up-least a p q lt le al =
    let small : p + (a - 1) < suc (q / a) * a = rw suc-mul (from (q / a * a) (div-add-mod' q a)) in
    let below : (p + (a - 1)) / a < suc (q / a) = (div-lt_iff_lt-mul lt).1 small in
    (le-div_iff_mul-le lt).0 (at_most ((p + (a - 1)) / a) (q / a) below)
  where
    from : (m : ℕ) → m + q % a ≡ q → p + (a - 1) < m + a
    from m e = omega arith

    at_most : (x y : ℕ) → x < suc y → x ≤ y
    at_most x y h = omega arith

align_up-Aligns : Aligns align_up
unfolding align_up up
align_up-Aligns = record {
  fits = λ a size p space q rest lt e. elim (Bool-cases (leb (up a p - p + size) space)) [
    | inl fit ↦
        let le = up-le a p lt in
        let al = mul-mod_left ((p + (a - 1)) / a) a in
        let parts : (q ≡ up a p) × (rest ≡ space - (up a p - p)) = ground arith in
        let room = leb→le (up a p - p + size) space fit in
        (omega arith, ap (λ x. x % a) parts.0 ∙ al, omega arith, omega arith)
    | inr no_room ↦ absurd (ground arith)
  ];
  full = λ a size p space q lt e le al end.
      let least = up-least a p q lt le al in
      let above = up-le a p lt in
      let room : up a p - p + size ≤ space = omega arith in absurd (ground arith);
}

-- 24 bytes, 8 bytes with a constructor that throws, and 100 bytes.
abbrev requests : List Request
requests =
    record { size = 24; alignof = 8; constructs = true }
    ∷ record { size = 8; alignof = 8; constructs = false }
    ∷ record { size = 100; alignof = 128; constructs = true }
    ∷ []

arena_blocks_example : Laid 4096 (4096 + 10000) (malloc_all align_up requests (create 10000 4096)).0
arena_blocks_example = arena_blocks align_up align_up-Aligns requests 10000 4096 (omega arith)
