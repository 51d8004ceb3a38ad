-- ===== src/Stack/LowContention/Inv.antt =====
-- stack_lockfree.cpp, namespace `low_contention`: where every node is, and who may still read it.
use modern_cpp_ds.Common.{
  ℕ, ◌≡◌, ◌≢◌, Option, none, some, List, [], ◌∷◌, ◌++◌, ◌==◌, if◌then◌else◌, length,
}
use modern_cpp_ds.Common.Counts.{count}
use modern_cpp_ds.Stack.{null, node, Heap}
use modern_cpp_ds.Stack.Chain.{Cells, Chain}
use modern_cpp_ds.Stack.LowContention.{
  After, then_leave, then_delete, Pc, allocated, pushing, entered, loaded, popping, taking,
  reclaiming, sole, exchanged, deleting, walking, linking, chaining, dropping, leaving, fault,
  Shared,
}

-- Where an address is: a thread holds a node that others may still read, and claims one that nobody
-- else does.
pub data Place : Type 0 where
  nowhere : Place
  stacked : Place
  pending : Place
  held : ℕ → Place
  claimed : ℕ → Place

abbrev pub is_stacked : Place → ℕ
is_stacked stacked = 1
is_stacked _ = 0

abbrev pub is_pending : Place → ℕ
is_pending pending = 1
is_pending _ = 0

abbrev pub is_held : ℕ → Place → ℕ
is_held i (held j) = if i == j then 1 else 0
is_held i _ = 0

abbrev pub is_claimed : ℕ → Place → ℕ
is_claimed i (claimed j) = if i == j then 1 else 0
is_claimed i _ = 0

-- A thread in `pop` may still read the node.
abbrev pub Seeable : Place → Type 0
Seeable nowhere = ⊥
Seeable (claimed _) = ⊥
Seeable _ = Unit {0}

-- The node that a thread has loaded from `head`.
abbrev pub seen : Pc → Option ℕ
seen (loaded old) = if old == null then none else some old
seen (popping old _) = some old
seen _ = none

abbrev pub counted_after : After → ℕ
counted_after then_leave = 1
counted_after (then_delete _) = 0

-- 1 for a thread that `threads_in_pop` counts.
abbrev pub counted : Pc → ℕ
counted entered = 1
counted (loaded _) = 1
counted (popping _ _) = 1
counted (taking _) = 1
counted (reclaiming _) = 1
counted (sole _) = 1
counted (exchanged _ _) = 1
counted (linking _ _ after) = counted_after after
counted (chaining _ _ after) = counted_after after
counted leaving = 1
counted _ = 0

abbrev pub later : After → List ℕ
later then_leave = []
later (then_delete old) = old ∷ []

-- Thread `i` holds and claims exactly these nodes, each once.
abbrev pub Owns : ℕ → (ℕ → Place) → List ℕ → List ℕ → Type 0
Owns i place hs ks =
    (a : ℕ) → (count a hs ≡ is_held i (place a)) × (count a ks ≡ is_claimed i (place a))

module _ {T : Type 0} where
  abbrev pub addresses : Cells T → List ℕ
  addresses [] = []
  addresses ((a, _) ∷ cs) = a ∷ addresses cs

  -- From `p` the `next` pointers lead through exactly these nodes to `q`.
  abbrev pub Leads : Heap T → ℕ → List ℕ → ℕ → Type 0
  Leads h p [] q = p ≡ q
  Leads h p (a ∷ xs) q =
      (p ≡ a) × ((d : T) × (next : ℕ) × (h a ≡ some (node d next)) × Leads h next xs q)

  -- What the locals of thread `i` say about the nodes.
  abbrev pub Local : ℕ → Pc → (ℕ → Place) → Heap T → Type 0
  Local i (allocated a) place h = Owns i place [] (a ∷ [])
  Local i (pushing a) place h = Owns i place [] (a ∷ [])
  Local i (popping old next) place h =
      Owns i place [] []
      × (old ≢ null)
      × (place old ≡ stacked → (d : T) × (h old ≡ some (node d next)))
  Local i (taking old) place h = Owns i place (old ∷ []) []
  Local i (reclaiming old) place h = Owns i place (old ∷ []) []
  Local i (sole old) place h = Owns i place [] (old ∷ [])
  Local i (exchanged nodes old) place h =
      (xs : List ℕ) × Leads h nodes xs null × Owns i place xs (old ∷ [])
  Local i (deleting list old) place h =
      (xs : List ℕ) × Leads h list xs null × Owns i place [] (old ∷ xs)
  Local i (walking first list old) place h =
      (xs ys : List ℕ) × Leads h first xs list
      × Leads h list ys null
      × (list ≢ null)
      × Owns i place (xs ++ ys) (old ∷ [])
  Local i (linking first last after) place h =
      (xs : List ℕ) × Leads h first xs last × Owns i place (xs ++ (last ∷ [])) (later after)
  Local i (chaining first last after) place h =
      (xs : List ℕ) × Leads h first xs last × Owns i place (xs ++ (last ∷ [])) (later after)
  Local i (dropping old) place h = Owns i place [] (old ∷ [])
  Local i fault place h = ⊥
  Local i _ place h = Owns i place [] []

  -- Every node is in the stack, on the list of nodes to be deleted, or with one thread, and in one of these
  -- only; the counter counts the threads in `pop`; and whatever a thread has loaded is there, and claimed
  -- by nobody.
  pub record Inv (cs : Cells T) (inside ps : List ℕ) (place : ℕ → Place) (m : Shared T)
      (pc : ℕ → Pc) : Type 0 where
    pub chain : Chain m.heap m.head cs
    pub in_stack : (a : ℕ) → count a (addresses cs) ≡ is_stacked (place a)
    pub pending_list : Leads m.heap m.to_be_deleted ps null
    pub in_list : (a : ℕ) → count a ps ≡ is_pending (place a)
    pub counter : m.threads_in_pop ≡ length inside
    pub counts : (i : ℕ) → count i inside ≡ counted (pc i)
    pub no_null : place null ≡ nowhere
    pub gone : (a : ℕ) → place a ≡ nowhere → m.heap a ≡ none
    pub there : (a : ℕ) → m.heap a ≡ none → place a ≡ nowhere
    pub locals : (i : ℕ) → Local i (pc i) place m.heap
    pub visible : (i a : ℕ) → seen (pc i) ≡ some a → Seeable (place a)
