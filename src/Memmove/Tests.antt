-- ===== src/Memmove/Tests.antt =====
-- prac.cpp, `memmove`: the theorem at overlapping regions.
use modern_cpp_ds.Common.{ℕ, ◌≡◌, ◌≢◌, ◌⊎◌}
use modern_cpp_ds.Memmove.{null, memmove}
use modern_cpp_ds.Memmove.Copy.{Copied, memmove_lem}

-- Each byte is its own address.
abbrev memory : ℕ → ℕ
memory p = p

abbrev target : ℕ
target = 12

abbrev origin : ℕ
origin = 10

memmove_example :
    ((target ≢ null)
      × (origin ≢ null)
      × ((memmove target origin 4 memory).0 ≡ target)
      × Copied target origin 4 memory (memmove target origin 4 memory).1)
    ⊎ (((target ≡ null) ⊎ (origin ≡ null)) × (memmove target origin 4 memory ≡ (null, memory)))
memmove_example = memmove_lem target origin 4 memory
