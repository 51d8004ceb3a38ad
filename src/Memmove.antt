-- ===== src/Memmove.antt =====
-- prac.cpp, `memmove`, on a memory that gives a byte for each address.
mod Copy
mod Tests
use modern_cpp_ds.Common.{ℕ, zero, suc, ◌+◌, Bool, true, false, ◌||◌, ◌==◌, ltb, if◌then◌else◌}

-- `nullptr`
abbrev pub null : ℕ
null = 0

module _ {T : Type 0} where
  abbrev pub write : (ℕ → T) → ℕ → T → ℕ → T
  write m p b q = if p == q then b else m q

  -- The loop from start to end, by the bytes that are left.
  unfoldable pub forward : ℕ → (dst ptr : ℕ) → (ℕ → T) → ℕ → T
  forward zero dst ptr m = m
  forward (suc left) dst ptr m = forward left (dst + 1) (ptr + 1) (write m dst (m ptr))

  -- The loop from end to start.
  unfoldable pub backward : ℕ → (dst ptr : ℕ) → (ℕ → T) → ℕ → T
  backward zero dst ptr m = m
  backward (suc count) dst ptr m = backward count dst ptr (write m (dst + count) (m (ptr + count)))

  -- `memmove`: what it returns, and the memory after it.
  unfoldable pub memmove : (dest src count : ℕ) → (ℕ → T) → ℕ × (ℕ → T)
  unfolding forward backward
  memmove dest src count m =
      let ahead = forward count dest src m in
      let behind = backward count dest src m in
      if (src == null) || (dest == null)
      then (null, m)
      else if ltb dest src
      then (dest, ahead)
      else if ltb src dest
      then (dest, behind)
      else (dest, m)
