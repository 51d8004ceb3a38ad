-- ===== src/Stack/LowContention/Refine.antt =====
-- stack_lockfree.cpp, namespace `low_contention`: the accesses of `push` and `pop` as steps of a stack of
-- values.
use modern_cpp_ds.Common.{
  ℕ, ◌≤◌, ◌≡◌, refl, Bool, none, some, List, [], ◌∷◌, ◌==◌, length, arith, if◌then◌else◌,
}
use modern_cpp_ds.Stack.{null, node, Node}
use modern_cpp_ds.Stack.Chain.{Cells, values, Chain}
use modern_cpp_ds.Stack.Refine.{Effect, silent, pushes, pops, finds_empty, Applies}
use modern_cpp_ds.Stack.LowContention.{Pc, pushing, entered, popping, Shared, Action, go, update}
use modern_cpp_ds.Stack.LowContention.Inv.{Place, Inv}

module _ {T : Type 0} where
  abbrev pub push_effect : Bool → Shared T → Node T → Effect T
  push_effect spurious m (node v next) =
      if spurious then silent else if m.head == next then pushes v else silent

  -- What an access does to the stack of values. A `pop` that loads a null head is the one that finds the
  -- stack empty.
  abbrev pub effect : Action T → Pc → Shared T → Effect T
  effect (go spurious) (pushing a) m = elim (m.heap a) [
    | some n ↦ push_effect spurious m n
    | none ↦ silent
  ]
  effect (go _) entered m = if m.head == null then finds_empty else silent
  effect (go _) (popping old next) m =
      if m.head == old
      then elim (m.heap old) [ some (node v _) ↦ pops v | none ↦ silent ]
      else if m.head == null
      then finds_empty
      else silent
  effect _ _ m = silent

  -- The state after a move of thread `i`, and the list that it holds, with at most so many threads in `pop`.
  pub record Moved (i : ℕ) (r : Shared T × Pc) (pc : ℕ → Pc) (eff : Effect T) (cs : Cells T)
      (most : ℕ) : Type 0 where
    pub cells : Cells T
    pub inside : List ℕ
    pub waiting : List ℕ
    pub place : ℕ → Place
    pub inv : Inv cells inside waiting place r.0 (update pc i r.1)
    pub fits : length inside ≤ most
    pub applies : Applies eff (values cs) (values cells)

  pub Moved-of :
      {i : ℕ} {pc : ℕ → Pc} {cs : Cells T} {n : ℕ} {r r' : Shared T × Pc} {eff eff' : Effect T}
      → r' ≡ r
      → eff' ≡ eff
      → Moved i r pc eff cs n
      → Moved i r' pc eff' cs n
  Moved-of e f a = rw (e, f) a

  pub silently :
      {i n : ℕ} {r : Shared T × Pc} {pc : ℕ → Pc} {cs : Cells T} {inside ps : List ℕ}
      {place : ℕ → Place}
      → Inv cs inside ps place r.0 (update pc i r.1)
      → length inside ≤ n
      → Moved i r pc silent cs n
  silently {cs} {inside} {ps} {place} v l = record {
    cells = cs;
    inside = inside;
    waiting = ps;
    place = place;
    inv = v;
    fits = l;
    applies = refl;
  }

  -- A thread that loads the head finds a null one exactly if the stack is empty.
  pub load-Applies :
      (m : Shared T) (cs : Cells T)
      → Chain m.heap m.head cs
      → Applies (if m.head == null then finds_empty else silent) (values cs) (values cs)
  load-Applies m [] c = ground arith
  load-Applies m ((a, x) ∷ cs) c = ground arith
