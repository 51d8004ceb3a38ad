-- ===== src/Vector.antt =====
-- dsa_from_scratch/data_structures/vector.cpp: `prat::vector<T>` on an explicit heap of blocks. A
-- slot of a block holds an object, or is raw memory. Undefined behaviour (an access to a freed
-- block, to a raw slot or past the end) is `fault`.
mod Loops
mod Holds
mod Grow
mod Push
mod Copy
mod Shrink
mod Assign
mod Equal
mod Alive
mod Life
mod Tests
use modern_cpp_ds.Common.{
  ℕ, zero, suc, ◌+◌, ◌-◌, ◌*◌, ◌%◌, ◌^◌, Bool, true, false, Option, none, some, List, [], ◌∷◌, ◌==◌,
  ltb, if◌then◌else◌, length, get_elem?, set, replicate,
}

-- `nullptr`
abbrev pub null : ℕ
null = 0

pub data Result (A : Type 0) : Type 0 where
  ok : A → Result A
  fault : Result A

infixl 5 ◌>>=◌
abbrev pub ◌>>=◌ : {A B : Type 0} → Result A → (A → Result B) → Result B
ok a >>= f = f a
fault >>= f = fault

abbrev pub Block : Type 0 → Type 0
Block T = List (Option T)

-- `next` is the address that `operator new` returns next: each block has its own. `leaked` counts the objects
-- that stood in a block when it was given back, so that nobody can destroy them any more.
pub record Heap (T : Type 0) : Type 0 where
  pub block : ℕ → Option (Block T)
  pub next : ℕ
  pub leaked : ℕ

-- `ptr_`, `size_`, `cap_`
pub record Vector : Type 0 where
  pub ptr : ℕ
  pub size : ℕ
  pub cap : ℕ

-- `vector()`
abbrev pub empty : Vector
empty = record { ptr = null; size = 0; cap = 0 }

module _ {T : Type 0} where
  abbrev pub store : Heap T → ℕ → Option (Block T) → Heap T
  store h p b = record h { block = λ q. if p == q then b else h.block q }

  -- `::operator new(n * sizeof(T))`
  abbrev pub allocate : ℕ → Heap T → Heap T
  allocate n h = record (store h h.next (some (replicate n none))) { next = suc h.next }

  abbrev pub block_at : ℕ → Heap T → Result (Block T)
  block_at p h = elim (h.block p) [ some b ↦ ok b | none ↦ fault ]

  -- The objects in a block.
  abbrev pub live_count : Block T → ℕ
  live_count [] = 0
  live_count (some _ ∷ b) = suc (live_count b)
  live_count (none ∷ b) = live_count b

  -- `::operator delete(p)`, which does nothing for a null pointer.
  unfoldable pub release : ℕ → Heap T → Result (Heap T)
  release p h = if p == null then ok h else elim (h.block p) [
    | some b ↦ ok (record (store h p none) { leaked = live_count b + h.leaked })
    | none ↦ fault
  ]

  -- The object in slot `i`.
  abbrev pub object : Option (Option T) → Result T
  object (some (some x)) = ok x
  object _ = fault

  abbrev pub read : Block T → ℕ → Result T
  read b i = object (get_elem? b i)

  -- `new (p + i) T(x)`
  abbrev pub construct : Block T → ℕ → T → Result (Block T)
  construct b i x = elim (get_elem? b i) [ some _ ↦ ok (set b i (some x)) | none ↦ fault ]

  -- `p[i].~T()`
  abbrev pub destruct : Block T → ℕ → Result (Block T)
  destruct b i = elim (get_elem? b i) [
    | some (some _) ↦ ok (set b i none)
    | some none ↦ fault
    | none ↦ fault
  ]

  -- The loops, by the rounds that are left and the index.
  unfoldable pub fill : T → ℕ → ℕ → Block T → Result (Block T)
  fill val zero i b = ok b
  fill val (suc n) i b = construct b i val >>= λ b'. fill val n (suc i) b'

  unfoldable pub copy_loop : ℕ → ℕ → Block T → Block T → Result (Block T)
  copy_loop zero i b other = ok b
  copy_loop (suc n) i b other =
      read other i >>= λ x. construct b i x >>= λ b'. copy_loop n (suc i) b' other

  unfoldable pub destroy : ℕ → ℕ → Block T → Result (Block T)
  destroy zero i b = ok b
  destroy (suc n) i b = destruct b i >>= λ b'. destroy n (suc i) b'

  -- The vectors without elements of a block have the null pointer.
  unfoldable pub elements : Vector → Heap T → Result (Block T)
  elements v h = if v.ptr == null then ok [] else block_at v.ptr h

  -- `vector(n, val)`; `vector(n)` is the same with the default object.
  unfoldable pub create : ℕ → T → Heap T → Result (Vector × Heap T)
  unfolding fill
  create n val h = fill val n 0 (replicate n none) >>= λ b.
      ok (record { ptr = h.next; size = n; cap = n }, store (allocate n h) h.next (some b))

  -- `vector(const vector& other)`
  unfoldable pub copy : Vector → Heap T → Result (Vector × Heap T)
  unfolding copy_loop
  copy other h = elements other h >>= λ source.
      copy_loop other.size 0 (replicate other.cap none) source >>= λ b.
      ok (record other { ptr = h.next }, store (allocate other.cap h) h.next (some b))

  -- `~vector()`
  unfoldable pub destructor : Vector → Heap T → Result (Heap T)
  unfolding destroy release
  destructor v h = elements v h >>= λ b. destroy v.size 0 b >>= λ b'.
      release v.ptr (if v.ptr == null then h else store h v.ptr (some b'))

  -- `operator=(const vector& other)` of two different objects: copy, swap, and the copy, which now
  -- has the old parts, is destroyed.
  unfoldable pub assign : Vector → Vector → Heap T → Result (Vector × Heap T)
  unfolding copy destructor
  assign v other h = copy other h >>= λ (tmp, h'). destructor v h' >>= λ h''. ok (tmp, h'')

  -- `pop_back()`
  unfoldable pub pop_back : Vector → Heap T → Result (Vector × Heap T)
  pop_back v h =
      if v.size == 0
      then fault
      else elements v h >>= λ b. destruct b (v.size - 1) >>= λ b'.
          ok (record v { size = v.size - 1 }, store h v.ptr (some b'))

  -- `clear()`
  unfoldable pub clear : Vector → Heap T → Result (Vector × Heap T)
  unfolding destroy
  clear v h = elements v h >>= λ b. destroy v.size 0 b >>= λ b'.
      ok (record v { size = 0 }, if v.ptr == null then h else store h v.ptr (some b'))

  -- `operator==`; `eq` is the negation of the elements' `!=`.
  unfoldable pub compare_loop : (T → T → Bool) → ℕ → ℕ → Block T → Block T → Result Bool
  compare_loop eq zero i b c = ok true
  compare_loop eq (suc n) i b c =
      let rest = compare_loop eq n (suc i) b c in
      read b i >>= λ x. read c i >>= λ y. if eq x y then rest else ok false

  unfoldable pub equals : (T → T → Bool) → Vector → Vector → Heap T → Result Bool
  unfolding compare_loop
  equals eq v other h =
      let compared = elements v h >>= λ b. elements other h >>= λ c. compare_loop eq v.size 0 b c in
      if v.size == other.size then if v.cap == other.cap then compared else ok false else ok false

  -- `operator[]`
  unfoldable pub at : Vector → ℕ → Heap T → Result T
  at v index h = elements v h >>= λ b. read b index

-- `vector(vector&& other)`: the new vector, and what is left of `other`.
unfoldable pub move_construct : Vector → Vector × Vector
move_construct other = (other, record { ptr = null; size = 0; cap = 0 })

-- `operator=(vector&& other)` of two different objects swaps them.
unfoldable pub move_assign : Vector → Vector → Vector × Vector
move_assign v other = (other, v)

-- What `push_back` is given: an object outside the vector, or a reference to element `i`.
pub data Source (T : Type 0) : Type 0 where
  outside : T → Source T
  element : (i : ℕ) → Source T

-- `cap_ > 0 ? 2*cap_ : 1`
abbrev pub grown : ℕ → ℕ
grown cap = if ltb 0 cap then 2 * cap % 2 ^ 64 else 1

module _ {T : Type 0} where
  -- The object that `val` refers to, when the vector's elements stood at `ptr` at the call.
  abbrev pub referred : Source T → ℕ → Heap T → Result T
  referred (outside x) ptr h = ok x
  referred (element i) ptr h = block_at ptr h >>= λ b. read b i

  -- `new (ptr_ + size_) T(val); size_++;`
  unfoldable pub append : T → Vector → Heap T → Result (Vector × Heap T)
  append x v h = block_at v.ptr h >>= λ b.
      construct b v.size x >>= λ b'. ok (record v { size = v.size + 1 }, store h v.ptr (some b'))

-- `moved_from` is what the move constructor of `T` leaves behind.
module _ {T : Type 0} (moved_from : T → T) where
  unfoldable pub move_loop : ℕ → ℕ → Block T → Block T → Result (Block T × Block T)
  move_loop zero i new old = ok (new, old)
  move_loop (suc n) i new old = read old i >>= λ x.
      construct new i x >>= λ new'. move_loop n (suc i) new' (set old i (some (moved_from x)))

  -- `re_alloc(new_cap)`
  unfoldable pub re_alloc : ℕ → Vector → Heap T → Result (Vector × Heap T)
  unfolding move_loop destroy release
  re_alloc new_cap v h = elements v h >>= λ old.
      move_loop v.size 0 (replicate new_cap none) old >>= λ (new, left).
      destroy v.size 0 left >>= λ raw.
      let moved = store (allocate new_cap h) h.next (some new) in
      release v.ptr (if v.ptr == null then moved else store moved v.ptr (some raw)) >>= λ h'.
      ok (record v { ptr = h.next; cap = new_cap }, h')

  -- `push_back(T& val)`; `push_back(T&&)` and `emplace_back` have the same steps, with the object
  -- that they construct.
  unfoldable pub push_back : Source T → Vector → Heap T → Result (Vector × Heap T)
  unfolding re_alloc append
  push_back val v h =
      (if v.size == v.cap then re_alloc (grown v.cap) v h else ok (v, h)) >>= λ (v', h').
      referred val v.ptr h' >>= λ x. append x v' h'
