-- ===== src/MpmcLock/Contents.antt =====
-- mpmc_lock.cpp: the buffer read from `in_` on, and what the two accesses to it do.
use modern_cpp_ds.Common.{
  ℕ, zero, suc, ◌+◌, ◌-◌, ◌%◌, ◌^◌, ◌≤◌, ◌<◌, ◌≡◌, ◌≢◌, refl, sym, ap, ap₂, List, [], ◌∷◌, ◌++◌,
  arith, length, ◌==◌, if◌then◌else◌, false, true,
}
use modern_cpp_ds.Common.Bits.{bit_and-ones}
use modern_cpp_ds.MpmcLock.{maxsize, size_t, mask, Queue, size, put, take_front, empty, full}

pub mask_lem : (i : ℕ) → mask i ≡ i % 1024
unfolding mask
mask_lem i = bit_and-ones 10 i

module _ {T : Type 0} where
  -- The `n` objects from index `i` on.
  abbrev pub window : (ℕ → T) → ℕ → ℕ → List T
  window b i zero = []
  window b i (suc n) = b (i % 1024) ∷ window b (i + 1) n

  abbrev pub contents : Queue T → List T
  contents q = window q.buffer q.in_ (size q)

  -- The counters are in range, and the queue holds at most `maxsize` objects.
  pub record Inv (q : Queue T) : Type 0 where
    pub in_small : q.in_ < 2 ^ 64
    pub out_small : q.out_ < 2 ^ 64
    pub fits : size q ≤ maxsize

  pub length-window : (b : ℕ → T) (i n : ℕ) → length (window b i n) ≡ n
  length-window b i zero = refl
  length-window b i (suc n) = ap suc (length-window b (i + 1) n)

  -- The start of a window counts modulo the size of the buffer.
  window_mod : (b : ℕ → T) (i j n : ℕ) → i % 1024 ≡ j % 1024 → window b i n ≡ window b j n
  window_mod b i j zero e = refl
  window_mod b i j (suc n) e = ap₂ ◌∷◌ (ap b e) (window_mod b (i + 1) (j + 1) n (omega arith))

  -- A write behind a window that leaves room extends it.
  window_write :
      (b : ℕ → T) (x : T) (i k n : ℕ)
      → n < 1024
      → k ≡ (i + n) % 1024
      → window (λ j. if k == j then x else b j) i (suc n) ≡ window b i n ++ (x ∷ [])
  window_write b x i k zero lt e = ap (λ y. y ∷ []) (ground arith)
  window_write b x i k (suc n) lt e =
      ap₂ ◌∷◌ (ground arith) (window_write b x (i + 1) k n (omega arith) (omega arith))

  pub contents-put :
      (q : Queue T) (x : T)
      → Inv q
      → full q ≡ false
      → (contents (put x q) ≡ contents q ++ (x ∷ [])) × Inv (put x q)
  unfolding put
  contents-put q x v room =
      let apart : size q ≢ 1024 = ground arith in
      let grown : size_t (size_t (q.out_ + 1) + 2 ^ 64 - q.in_) ≡ suc (size q) =
        omega (arith, v.in_small, v.out_small, v.fits) in
      (
        rw grown (
            window_write q.buffer x q.in_ (mask q.out_) (size q) (omega (arith, v.fits))
              (omega (arith, mask_lem q.out_, v.in_small, v.out_small))),
        record { in_small = v.in_small; out_small = omega arith; fits = omega (arith, v.fits) },
      )

  pub contents-take_front :
      (q : Queue T)
      → Inv q
      → empty q ≡ false
      → (contents q ≡ (take_front q).0 ∷ contents (take_front q).1) × Inv (take_front q).1
  unfolding take_front
  contents-take_front q v some_left =
      let apart : q.out_ ≢ q.in_ = ground arith in
      let shrunk : size q ≡ suc (size_t (q.out_ + 2 ^ 64 - size_t (q.in_ + 1))) =
        omega (arith, v.in_small, v.out_small, v.fits) in
      (
        rw shrunk (
            ap₂ ◌∷◌ (ap q.buffer (sym (mask_lem q.in_)))
              (window_mod q.buffer (q.in_ + 1) (size_t (q.in_ + 1)) _ (omega arith))),
        record { in_small = omega arith; out_small = v.out_small; fits = omega (arith, v.fits) },
      )

  -- Nothing is in the queue exactly when the counters are equal.
  pub contents-empty : (q : Queue T) → empty q ≡ true → Inv q → contents q ≡ []
  contents-empty q e v =
      let none_left : size q ≡ 0 = ground (arith, v.in_small, v.out_small) in rw none_left
