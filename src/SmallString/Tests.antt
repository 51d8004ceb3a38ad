-- ===== src/SmallString/Tests.antt =====
-- dsa_from_scratch/data_structures/string.cpp: the theorems at concrete strings.
use modern_cpp_ds.Common.{
  ◌==◌, if◌then◌else◌, inr, ℕ, ◌≡◌, refl, none, some, List, map, replicate, arith,
}
use modern_cpp_ds.SmallString.{hbuf, Str, Heap, copy}
use modern_cpp_ds.SmallString.Text.{Holds, Makes, copy_string_lem}

-- Eighteen characters.
abbrev long_text : List ℕ
long_text = replicate 18 7

abbrev one_array : Heap
one_array a = if a == 1 then some (map some long_text) else none

abbrev long_str : Str
long_str = record { buffer = hbuf 1; len = 18; cap = 18 }

long_str-Holds : Holds one_array long_str (map some long_text)
long_str-Holds = record { size = refl; place = inr (refl, omega arith, (1, refl, refl)) }

copy_string_example :
    (h' : Heap) × (t : Str) × (copy long_str 2 one_array ≡ some (h', t))
    × Makes one_array h' t (map some long_text)
    × Holds h' long_str (map some long_text)
copy_string_example = copy_string_lem long_str (map some long_text) 2 one_array long_str-Holds refl
