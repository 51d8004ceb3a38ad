-- ===== src/Arena.antt =====
-- c++_features_experiment/arena_allocator.cpp: `mempool`, which hands out a buffer from its start to its end
-- and takes nothing back. Addresses are numbers; `align` is `std::align`, which answers with the new
-- pointer and the new space, or with none for the null pointer.
mod Laid
mod Tests
use modern_cpp_ds.Common.{
  ℕ, ◌+◌, ◌-◌, ◌%◌, ◌^◌, ◌≤◌, ◌<◌, ◌≡◌, ◌≢◌, Bool, Option, none, some, List, [], ◌∷◌, leb,
  if◌then◌else◌,
}

pub record Arena : Type 0 where
  pub pool : ℕ
  pub left : ℕ
  pub base : ℕ

-- A call of `malloc<T>`: `sizeof(T)`, `alignof(T)`, and whether the constructor of `T` returns.
pub record Request : Type 0 where
  pub size : ℕ
  pub alignof : ℕ
  pub constructs : Bool

pub data Result : Type 0 where
  returned : (p : ℕ) → Arena → Result
  throws : Arena → Result  -- `std::bad_alloc`, or what the constructor of `T` threw

-- `mempool()`, where `operator new` has returned `p`.
abbrev pub create : ℕ → ℕ → Arena
create max_bytes p = record { pool = p; left = max_bytes; base = p }

-- `get_alignment<T>()`
abbrev pub get_alignment : ℕ → ℕ
get_alignment a = if leb 64 a then a else 64

-- What the documentation of `std::align` says: the first address from `p` on that has the alignment, if
-- `size` bytes from there on are within the space.
pub record Aligns (align : ℕ → ℕ → ℕ → ℕ → Option (ℕ × ℕ)) : Type 0 where
  pub fits :
      (a size p space q rest : ℕ)
      → 0 < a
      → align a size p space ≡ some (q, rest)
      → (p ≤ q) × (q % a ≡ 0) × (q + rest ≡ p + space) × (size ≤ rest)
  pub full :
      (a size p space q : ℕ)
      → 0 < a
      → align a size p space ≡ none
      → p ≤ q
      → q % a ≡ 0
      → q + size ≤ p + space
      → ⊥

module _ (align : ℕ → ℕ → ℕ → ℕ → Option (ℕ × ℕ)) where
  -- `malloc<T>(args...)` and `malloc<T>()`
  unfoldable pub malloc : Request → Arena → Result
  malloc r m = elim (align (get_alignment r.alignof) r.size m.pool m.left) [
    | some (p, rest) ↦
        if r.constructs
        then returned p
            (record { pool = p + r.size; left = (rest + 2 ^ 64 - r.size) % 2 ^ 64; base = m.base })
        else throws (record m { left = rest })
    | none ↦ throws m
  ]

  -- The blocks that a sequence of calls returns, with the requests, and the arena that it leaves.
  unfoldable pub malloc_all : List Request → Arena → List (ℕ × Request) × Arena
  unfolding malloc
  malloc_all [] m = ([], m)
  malloc_all (r ∷ rs) m = elim (malloc r m) [
    | returned p m' ↦ let (blocks, last) = malloc_all rs m' in ((p, r) ∷ blocks, last)
    | throws m' ↦ malloc_all rs m'
  ]
