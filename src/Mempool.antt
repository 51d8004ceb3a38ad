-- ===== src/Mempool.antt =====
-- c++_features_experiment/mempool.cpp, and the same class in prac.cpp: a pool of chunks with a free list
-- through the chunks that are not in use. A pointer to a chunk is its index, none the null pointer.
mod Free
mod Create
mod Steps
mod Tests
use modern_cpp_ds.Common.{
  ℕ, zero, suc, Bool, true, false, Option, none, some, List, [], ◌∷◌, ltb, if◌then◌else◌, length,
  get_elem?, set, replicate, ◌+◌, ◌-◌, ◌%◌, ◌^◌,
}

-- The largest value of `int`.
abbrev pub int_max : ℕ
int_max = 2147483647

-- `n - 1` in `size_t`
abbrev pub before : ℕ → ℕ
before n = (n + 2 ^ 64 - 1) % 2 ^ 64

-- `union chunk`, with its active member.
pub data Chunk (T : Type 0) : Type 0 where
  zeroed : Chunk T  -- as `new chunk[n]()` leaves it
  next : (c : Option ℕ) → Chunk T
  object : (v : T) → Chunk T  -- an object of type `T` lives in `buf`

module _ (T : Type 0) where
  pub record Pool : Type 0 where
    pub free_list : Option ℕ
    pub blocks : List (Chunk T)

  pub data Result : Type 0 where
    returned : (c : ℕ) → Pool → Result
    throws : Result  -- `std::bad_alloc`
    undefined : Result  -- an access outside of `blocks`, or to a member of the union that is not active

module _ {T : Type 0} where
  -- `blocks[i].next = p`
  abbrev pub write_next : ℕ → Option ℕ → List (Chunk T) → Option (List (Chunk T))
  write_next i p blocks = if ltb i (length blocks) then some (set blocks i (next p)) else none

  -- The loop of the constructor, with `k` rounds to go.
  unfoldable pub link : ℕ → ℕ → List (Chunk T) → Option (List (Chunk T))
  link i zero blocks = some blocks
  link i (suc k) blocks =
      let rest = link (suc i) k in
      elim (write_next i (some (suc i)) blocks) [
        | some linked ↦ if ltb i int_max then rest linked else none
        | none ↦ none
      ]

  -- `Pool(n)`; none where it writes outside of `blocks` or its `int` overflows.
  unfoldable pub create : ℕ → Option (Pool T)
  unfolding link
  create n = elim (link 0 (before n) (replicate n zeroed)) [
    | some linked ↦ elim (write_next (before n) none linked) [
      | some blocks ↦ some (record { free_list = some 0; blocks = blocks })
      | none ↦ none
    ]
    | none ↦ none
  ]

  -- `allocate`, with `v` the value of `T()`.
  abbrev take_chunk : T → Option ℕ → List (Chunk T) → Result T
  take_chunk v none blocks = throws
  take_chunk v (some c) blocks = elim (get_elem? blocks c) [
    | some (next n) ↦ returned c (record { free_list = n; blocks = set blocks c (object v) })
    | some zeroed ↦ undefined
    | some (object _) ↦ undefined
    | none ↦ undefined
  ]

  unfoldable pub allocate : T → Pool T → Result T
  allocate v p = take_chunk v p.free_list p.blocks

  -- `deallocate` of the object in chunk `c`; none where no object lives there.
  unfoldable pub deallocate : ℕ → Pool T → Option (Pool T)
  deallocate c p = elim (get_elem? p.blocks c) [
    | some (object _) ↦
        some (record { free_list = some c; blocks = set p.blocks c (next p.free_list) })
    | some (next _) ↦ none
    | some zeroed ↦ none
    | none ↦ none
  ]

  -- `~Pool`: the array goes, and no object in it is destroyed.
  abbrev pub destroy : Pool T → Pool T
  destroy p = record p { blocks = [] }
