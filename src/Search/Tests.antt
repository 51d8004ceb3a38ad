-- ===== src/Search/Tests.antt =====
-- branchless_binary_search.cpp: the theorem at concrete elements.
use modern_cpp_ds.Common.{ℕ, ◌+◌, ◌*◌, ◌<◌, ◌≤◌, ◌≡◌, ◌⊎◌, some, arith}
use modern_cpp_ds.Search.{search_loop}
use modern_cpp_ds.Search.Bound.{search_lem}

abbrev evens : ℕ → ℕ
evens i = i * 2

search_example :
    (k : ℕ) × (search_loop 5 evens 3 0 5 ≡ some k)
    × (k < 5)
    × ((j : ℕ) → j < k → evens j ≤ 3)
    × ((k + 1 ≡ 5) ⊎ (3 < evens k))
search_example = search_lem 5 evens 3 (omega arith) (λ i j h k. omega arith)
