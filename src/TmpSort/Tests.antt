-- ===== src/TmpSort/Tests.antt =====
-- c++_features_experiment/template_metaprogramming.cpp: the theorem at the array of `main`.
use modern_cpp_ds.Common.{ℕ, ◌≡◌, refl, List, [], ◌∷◌}
use modern_cpp_ds.TmpSort.{done, inbubsort}
use modern_cpp_ds.TmpSort.Reference.{insertion_sort, inbubsort-insertion_sort}
use modern_cpp_ds.TmpSort.Sort.{rounds}

abbrev main_array : List ℕ
main_array = 4 ∷ 5 ∷ 1 ∷ 3 ∷ 2 ∷ []

inbubsort_example : inbubsort (rounds 4) 4 0 main_array ≡ done (insertion_sort main_array)
inbubsort_example = inbubsort-insertion_sort 4 main_array refl
