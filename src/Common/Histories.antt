-- ===== src/Common/Histories.antt =====
-- Runs of an abstract machine, given as a relation.
use mathlib.Core.List.{List, [], ◌∷◌}

-- The events lead from one state to the other, one step each.
pub data Steps {E A : Type 0} (Applies : E → A → A → Type 0) : List E → A → A → Type 0 where
  done : {a : A} → Steps Applies [] a a
  then_ :
      {e : E} {es : List E} {a b c : A}
      → Applies e a b
      → Steps Applies es b c
      → Steps Applies (e ∷ es) a c
