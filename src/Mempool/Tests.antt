-- ===== src/Mempool/Tests.antt =====
-- c++_features_experiment/mempool.cpp: the theorems at concrete pools.
use modern_cpp_ds.Common.{ℕ, ◌≡◌, refl, none, some, [], ◌∷◌, arith}
use modern_cpp_ds.Mempool.{next, object, Pool, returned, create, allocate, deallocate}
use modern_cpp_ds.Mempool.Steps.{
  Reachable, created, allocated, Allocates, allocate_lem, allocate-deallocate,
}

abbrev new_pool : Pool ℕ
new_pool = record { free_list = some 0; blocks = next (some 1) ∷ next none ∷ [] }

abbrev one_taken : Pool ℕ
one_taken = record { free_list = some 1; blocks = object 7 ∷ next none ∷ [] }

made : create 2 ≡ some new_pool
unfolding create
made = refl

taken : allocate 7 new_pool ≡ returned 0 one_taken
unfolding allocate
taken = refl

one_taken-Reachable : Reachable 2 one_taken
one_taken-Reachable = allocated new_pool one_taken 7 0 (created new_pool made) taken

allocate_example : Allocates 2 one_taken 9 (allocate 9 one_taken)
allocate_example = allocate_lem 2 one_taken 9 (omega arith) (omega arith) one_taken-Reachable

given_back :
    deallocate 0 one_taken
    ≡ some (record { free_list = some 0; blocks = next (some 1) ∷ next none ∷ [] })
unfolding deallocate
given_back = refl

allocate-deallocate_example :
    allocate 9 new_pool
    ≡ returned 0 (record { free_list = some 1; blocks = object 9 ∷ next none ∷ [] })
allocate-deallocate_example = allocate-deallocate one_taken new_pool 0 9 given_back
