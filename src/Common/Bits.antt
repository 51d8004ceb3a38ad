-- ===== src/Common/Bits.antt =====
-- `&` with a mask of ones, `&` under a right shift, and `|` of disjoint fields, at variables.
use Prim.Native.Nat.{
  ℕ, zero, suc, ◌+◌, ◌-◌, ◌*◌, ◌/◌, ◌%◌, ◌^◌, ◌≤◌, ◌<◌, min, max, bit_and, bit_or, digits, bitwise,
  bit_and-bitwise, bit_or-bitwise,
}
use mathlib.Core.Path.{◌≡◌, refl, sym, ap, ap₂, ◌∙◌}
use native.Mathlib.Decide.{dec_lt}
use native.Mathlib.Omega.{arith}
use native.Mathlib.Nat.{pow-suc, div-one, div-div-eq-div-mul, div-add-mod, mul_comm}

-- The digits of `&` and of `|` differ in what is left when the first number runs out, and in how two
-- digits are joined.
module _ (stop : ℕ → ℕ) (join : ℕ → ℕ → ℕ) where
  run_out : (n b : ℕ) → digits stop join n 0 b ≡ stop b
  run_out zero b = refl
  run_out (suc n) b = refl

  -- Any two counts that cover the first number give the same.
  covered : (a n m b : ℕ) → a ≤ n → a ≤ m → digits stop join n a b ≡ digits stop join m a b
  covered zero n m b _ _ = run_out n b ∙ sym (run_out m b)
  covered (suc a) zero _ b p _ = absurd (omega arith)
  covered (suc a) (suc n) zero b _ q = absurd (omega arith)
  covered (suc a) (suc n) (suc m) b p q =
      let higher = covered (suc a / 2) n m (b / 2) (omega arith) (omega arith) in
      ap (λ (t : ℕ). t * 2 + join (suc a % 2) (b % 2)) higher

  -- The lowest digit apart from the others.
  lowest :
      ((b : ℕ) → stop b ≡ stop (b / 2) * 2 + join 0 (b % 2))
      → (a b : ℕ)
      → bitwise stop join a b ≡ bitwise stop join (a / 2) (b / 2) * 2 + join (a % 2) (b % 2)
  lowest splits zero b = splits b
  lowest splits (suc a) b =
      ap (λ (t : ℕ). t * 2 + join (suc a % 2) (b % 2))
        (covered (suc a / 2) a (suc a / 2) (b / 2) (omega arith) (omega arith))

bit_and_step : (a b : ℕ) → bit_and a b ≡ bit_and (a / 2) (b / 2) * 2 + min (a % 2) (b % 2)
bit_and_step a b = omega (
  arith,
  lowest (λ b. zero) min (λ b. omega arith) a b,
  bit_and-bitwise (a / 2) (b / 2),
  bit_and-bitwise a b,
)

bit_or_step : (a b : ℕ) → bit_or a b ≡ bit_or (a / 2) (b / 2) * 2 + max (a % 2) (b % 2)
bit_or_step a b = omega (
  arith,
  lowest (λ b. b) max (λ b. omega arith) a b,
  bit_or-bitwise (a / 2) (b / 2),
  bit_or-bitwise a b,
)

-- One more binary digit of a quotient and of a remainder.
div-double : (m a : ℕ) → a / (m * 2) ≡ a / 2 / m
div-double m a = ap (λ (d : ℕ). a / d) (mul_comm m 2) ∙ sym (div-div-eq-div-mul a 2 m)

mod-double : (m a : ℕ) → 0 < m → a % (m * 2) ≡ a / 2 % m * 2 + a % 2
mod-double m a h =
    omega
      (arith, div-add-mod a (m * 2), div-add-mod (a / 2) m, ap (λ (t : ℕ). m * t) (div-double m a))

two-pow-pos : (k : ℕ) → 0 < 2 ^ k
two-pow-pos zero = omega arith
two-pow-pos (suc k) = rw pow-suc (omega (arith, two-pow-pos k))

-- (a & b) >> k
pub bit_and-shr : (k a b : ℕ) → bit_and a b / 2 ^ k ≡ bit_and (a / 2 ^ k) (b / 2 ^ k)
bit_and-shr zero a b = omega (arith, ap₂ bit_and (div-one a) (div-one b), div-one (bit_and a b))
bit_and-shr (suc k) a b =
    simp (pow-suc, div-double) (ap (λ (t : ℕ). t / 2 ^ k) half ∙ bit_and-shr k (a / 2) (b / 2))
  where
    half : bit_and a b / 2 ≡ bit_and (a / 2) (b / 2)
    half = omega (arith, bit_and_step a b)

bit_and_none : (bound a : ℕ) → a < suc bound → bit_and a 0 ≡ 0
bit_and_none zero a h = let z : a ≡ 0 = omega arith in rw z (bit_and-bitwise 0 0)
bit_and_none (suc bound) a h = elim (dec_lt 0 a) [
  | yes more ↦ omega (arith, bit_and_none bound (a / 2) (omega arith), bit_and_step a 0)
  | no none_left ↦ bit_and_none bound a (omega arith)
]

-- a & (2 ^ k - 1)
pub bit_and-ones : (k a : ℕ) → bit_and a (2 ^ k - 1) ≡ a % 2 ^ k
bit_and-ones zero a = omega (arith, bit_and_none a a (omega arith))
bit_and-ones (suc k) a =
    rw (pow-suc, mod-double (2 ^ k) a (two-pow-pos k))
      (omega (
        arith,
        bit_and_step a (2 ^ k * 2 - 1),
        ap (bit_and (a / 2)) half ∙ bit_and-ones k (a / 2),
        two-pow-pos k,
      ))
  where
    half : (2 ^ k * 2 - 1) / 2 ≡ 2 ^ k - 1
    half = omega (arith, two-pow-pos k)

bit_or_none : (bound a : ℕ) → a < suc bound → bit_or a 0 ≡ a
bit_or_none zero a h = let z : a ≡ 0 = omega arith in rw z (bit_or-bitwise 0 0)
bit_or_none (suc bound) a h = elim (dec_lt 0 a) [
  | yes more ↦ omega (arith, bit_or_none bound (a / 2) (omega arith), bit_or_step a 0)
  | no none_left ↦ bit_or_none bound a (omega arith)
]

-- (a << k) | b, where b fits into the k low bits.
pub bit_or-fields : (k a b : ℕ) → b < 2 ^ k → bit_or (a * 2 ^ k) b ≡ a * 2 ^ k + b
bit_or-fields zero a b h = let e : b ≡ 0 = omega arith in rw e (omega (arith, or-zero))
  where
    or-zero : bit_or (a * 1) 0 ≡ a * 1
    or-zero = bit_or_none (a * 1) (a * 1) (omega arith)
bit_or-fields (suc k) a b h = rw pow-suc (
    omega (
      arith,
      bit_or_step (a * (2 ^ k * 2)) b,
      ap (λ (t : ℕ). bit_or t (b / 2)) half ∙ bit_or-fields k a (b / 2) (omega (arith, fits)),
    ))
  where
    half : a * (2 ^ k * 2) / 2 ≡ a * 2 ^ k
    half = omega arith

    fits : b < 2 ^ k * 2
    fits = rw pow-suc at h
