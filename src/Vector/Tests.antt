-- ===== src/Vector/Tests.antt =====
-- vector.cpp: the theorems at concrete vectors.
use modern_cpp_ds.Common.{ℕ, none, some, List, [], ◌∷◌, arith, ◌==◌, if◌then◌else◌}
use modern_cpp_ds.Vector.{Heap}
use modern_cpp_ds.Vector.Holds.{IsFresh}
use modern_cpp_ds.Vector.Life.{Call, pushes, pops, Outcome, vector_life}

-- Block 1 holds 5 and 6 and is full, block 2 holds 7 and has room for one more.
abbrev heap : Heap ℕ
heap = record {
  block = λ p.
      if p == 1
      then some (some 5 ∷ some 6 ∷ [])
      else if p == 2
      then some (some 7 ∷ none ∷ [])
      else none;
  next = 3;
  leaked = 0;
}

heap-IsFresh : IsFresh heap
heap-IsFresh = record { positive = λ e. omega arith; unused = λ p le. ground arith }

abbrev moved_zero : ℕ → ℕ
moved_zero n = 0

-- It grows three times, and loses an element in between.
abbrev some_calls : List (Call ℕ)
some_calls = pushes 5 ∷ pushes 6 ∷ pops ∷ pushes 7 ∷ pushes 8 ∷ []

vector_life_example : Outcome moved_zero some_calls heap (some (5 ∷ 7 ∷ 8 ∷ []))
vector_life_example = vector_life moved_zero some_calls heap heap-IsFresh (omega arith)
