-- ===== src/Stack/LowContention/Progress.antt =====
-- stack_lockfree.cpp, namespace `low_contention`: when an exchange fails, and what one access does to that.
use modern_cpp_ds.Common.{
  ℕ, ◌+◌, ◌<◌, ◌≤◌, ◌≡◌, refl, true, false, Option, none, some, [], ◌∷◌, ◌==◌, arith, if◌then◌else◌,
}
use modern_cpp_ds.Common.Counts.{count, count-append}
use modern_cpp_ds.Stack.{node, Node}
use modern_cpp_ds.Stack.LowContention.{
  Pc, pushing, loaded, popping, sole, chaining, Shared, Action, go, move,
}
use modern_cpp_ds.Stack.LowContention.Inv.{Place, is_held, is_claimed, Local}

module _ {T : Type 0} where
  -- 1 for a node whose `next` is not this value.
  abbrev pub differs : ℕ → Option (Node T) → ℕ
  differs p none = 0
  differs p (some (node _ next)) = if p == next then 0 else 1

  -- 1 for a thread whose next compare-exchange would fail, if nothing changed before.
  abbrev pub stale : Shared T → Pc → ℕ
  stale m (pushing a) = differs m.head (m.heap a)
  stale m (loaded old) = if m.head == old then 0 else 1
  stale m (popping old _) = if m.head == old then 0 else 1
  stale m (chaining _ last _) = differs m.to_be_deleted (m.heap last)
  stale m _ = 0

  -- 1 for a compare-exchange that finds another value.
  abbrev pub fails : Action T → Pc → Shared T → ℕ
  fails (go false) (pushing a) m = differs m.head (m.heap a)
  fails (go _) (popping old _) m = if m.head == old then 0 else 1
  fails (go _) (chaining _ last _) m = differs m.to_be_deleted (m.heap last)
  fails _ _ m = 0

  abbrev pub agrees : ℕ → Option (Node T) → ℕ
  agrees p none = 0
  agrees p (some (node _ next)) = if p == next then 1 else 0

  -- 1 for a write to `head` or to `to_be_deleted`: a successful compare-exchange, or the exchange by which
  -- `try_reclaim` takes the list.
  abbrev pub changes : Action T → Pc → Shared T → ℕ
  changes (go false) (pushing a) m = agrees m.head (m.heap a)
  changes (go _) (popping old _) m = if m.head == old then 1 else 0
  changes (go _) (sole _) m = 1
  changes (go _) (chaining _ last _) m = agrees m.to_be_deleted (m.heap last)
  changes _ _ m = 0

  pub stale_once : (m : Shared T) (c : Pc) → stale m c ≤ 1
  stale_once m c = ground arith

module _ {T : Type 0} (nothing : T) where
  -- A thread's own access, if it does not write `head` or `to_be_deleted`.
  pub own_change :
      (a : Action T) (c : Pc) (m : Shared T)
      → changes a c m ≡ 0
      → let r = move nothing a c m in fails a c m + stale r.0 r.1 ≤ stale m c
  unfolding move
  own_change (go false) (pushing a) m z = ground arith
  own_change (go true) (pushing a) m z = ground arith
  own_change (go b) (popping old next) m z = ground arith
  own_change (go b) (sole old) m z = absurd (omega arith)
  own_change (go b) (chaining first last after) m z = ground arith
  own_change a c m z = ground arith

  pub same_head :
      (a : Action T) (c : Pc) (m : Shared T)
      → changes a c m ≡ 0
      → let m' = (move nothing a c m).0 in (m'.head ≡ m.head) × (m'.to_be_deleted ≡ m.to_be_deleted)
  unfolding move
  same_head (go false) (pushing a) m z = ground arith
  same_head (go true) (pushing a) m z = ground arith
  same_head (go b) (popping old next) m z = ground arith
  same_head (go b) (sole old) m z = absurd (omega arith)
  same_head (go b) (chaining first last after) m z = ground arith
  same_head a c m z = ground arith

module _ {T : Type 0} where
  -- Another thread's access, if it does not write `head` or `to_be_deleted`.
  pub other_change :
      (j : ℕ) (c : Pc) (m m' : Shared T) (place : ℕ → Place)
      → m'.head ≡ m.head
      → m'.to_be_deleted ≡ m.to_be_deleted
      → ((a : ℕ) → 0 < is_held j (place a) + is_claimed j (place a) → m'.heap a ≡ m.heap a)
      → Local j c place m.heap
      → stale m' c ≡ stale m c
  unfolding count
  other_change j (pushing a) m m' place h l k o =
      let same : m'.heap a ≡ m.heap a = k a (ground (arith, o a)) in rw (h, same) refl
  other_change j (chaining first last after) m m' place h l k (xs, path, o) =
      let same : m'.heap last ≡ m.heap last =
        k last (ground (arith, o last, count-append last xs (last ∷ []))) in
      rw (l, same) refl
  other_change j (loaded old) m m' place h l k o = rw h refl
  other_change j (popping old next) m m' place h l k o = rw h refl
  other_change j c m m' place h l k o = refl

  pub exclusive : (a : Action T) (c : Pc) (m : Shared T) → changes a c m + fails a c m ≤ 1
  exclusive (go false) (pushing a) m = ground arith
  exclusive (go true) (pushing a) m = ground arith
  exclusive (go b) (popping old next) m = ground arith
  exclusive (go b) (sole old) m = omega arith
  exclusive (go b) (chaining first last after) m = ground arith
  exclusive a c m = ground arith
