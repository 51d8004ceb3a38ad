-- ===== src/Find.antt =====
-- dsa_from_scratch/stl_algorithms/single_pass.cpp: the linear search over a range of elements with an
-- equality test. An iterator is the number of elements that it has passed, and the range is given by the
-- elements from `begin` on.
mod First
use modern_cpp_ds.Common.{ℕ, suc, Bool, List, [], ◌∷◌, if◌then◌else◌}

module _ {T : Type 0} (equal : T → T → Bool) where
  -- `find_impl` with `begin` at this place
  unfoldable pub find_impl : ℕ → List T → T → ℕ
  find_impl begin [] value = begin
  find_impl begin (x ∷ rest) value =
      let next = find_impl (suc begin) rest value in if equal value x then begin else next

  -- `find(begin, end, value)`
  abbrev pub find : List T → T → ℕ
  find elements value = find_impl 0 elements value
