-- ===== src/Stack.antt =====
-- stack_lockfree.cpp, namespaces `exception` and `mem_leak`: the stack on a linked list whose head
-- is exchanged atomically, and whose nodes are never deleted. Any number of threads push and pop;
-- each moves one shared access at a time, in any order.
mod Chain
mod Inv
mod Moves
mod Refine
mod Linear
mod HazardStack
mod LowContention
mod Tests
use modern_cpp_ds.Common.{
  ℕ, zero, suc, Bool, true, false, Option, none, some, List, [], ◌∷◌, ◌==◌, ◌||◌, if◌then◌else◌,
  ite, ℕ_discrete,
}

-- An address; `nullptr` is 0.
abbrev pub null : ℕ
null = 0

module _ (T : Type 0) where
  pub data Node : Type 0 where
    node : T → (next : ℕ) → Node

  -- `none` is memory that `new` has not handed out.
  abbrev pub Heap : Type 0
  Heap = ℕ → Option Node

  pub record Shared : Type 0 where
    pub heap : Heap
    pub head : ℕ

-- Where a thread stands, with the local variables that are live there.
pub data Pc : Type 0 where
  idle : Pc
  allocated : (new_head : ℕ) → Pc  -- `push`, about to load `head` into `new_head->next`
  pushing : (new_head : ℕ) → Pc  -- at the compare-exchange of `push`
  loaded : (old_head : ℕ) → Pc  -- `pop`, about to test `old_head` and read `old_head->next`
  popping : (old_head next : ℕ) → Pc  -- at the compare-exchange of `pop`
  took : (old_head : ℕ) → Pc  -- the loop of `pop` is left, about to read `old_head->data`
  fault : Pc  -- an access to memory that is not a node

pub data Action (T : Type 0) : Type 0 where
  -- `push(obj)` begins: `new` returns `fresh`, where `next` holds whatever was there.
  begin_push : T → (fresh junk : ℕ) → Action T
  begin_pop : Action T
  -- The next access; `compare_exchange_weak` may fail without reason.
  go : (spurious : Bool) → Action T

module _ {T : Type 0} where
  abbrev pub store : Heap T → ℕ → Node T → Heap T
  store h a n b = if a == b then some n else h b

  abbrev pub is_free : Heap T → ℕ → Bool
  is_free h a = elim (h a) [ none ↦ if a == null then false else true | some _ ↦ false ]

  -- `compare_exchange_weak(new_head->next, new_head)`: a failure stores the head into `next`.
  abbrev pub exchange_push : Bool → ℕ → Shared T → Node T → Shared T × Pc
  exchange_push spurious a m (node v next) =
      if spurious
      then (record m { heap = store m.heap a (node v m.head) }, pushing a)
      else if m.head == next
      then (record m { head = a }, idle)
      else (record m { heap = store m.heap a (node v m.head) }, pushing a)

  -- One access of a thread that stands at the given place.
  unfoldable pub move : Action T → Pc → Shared T → Shared T × Pc
  move (begin_push v fresh junk) idle m =
      if is_free m.heap fresh
      then (record m { heap = store m.heap fresh (node v junk) }, allocated fresh)
      else (m, idle)
  move begin_pop idle m = (m, loaded m.head)
  move (go _) (allocated a) m = elim (m.heap a) [
    | some (node v _) ↦ (record m { heap = store m.heap a (node v m.head) }, pushing a)
    | none ↦ (m, fault)
  ]
  move (go spurious) (pushing a) m = elim (m.heap a) [
    | some n ↦ exchange_push spurious a m n
    | none ↦ (m, fault)
  ]
  move (go _) (loaded old) m =
      if old == null
      then (m, took null)
      else elim (m.heap old) [ some (node _ next) ↦ (m, popping old next) | none ↦ (m, fault) ]
  move (go spurious) (popping old next) m =
      if spurious
      then (m, loaded m.head)
      else if m.head == old
      then (record m { head = next }, took old)
      else (m, loaded m.head)
  move (go _) (took old) m = (m, idle)
  move _ pc m = (m, pc)

  -- What `pop` assigns to `result` (and `mem_leak`'s `pop` returns): the data of the node, or the
  -- default of the type if the stack was empty.
  unfoldable pub result : T → ℕ → Shared T → Option T
  result default old m =
      if old == null
      then some default
      else elim (m.heap old) [ some (node v _) ↦ some v | none ↦ none ]

abbrev pub update : (ℕ → Pc) → ℕ → Pc → ℕ → Pc
update pc i p j = ite (ℕ_discrete i j) p (pc j)

module _ (T : Type 0) where
  -- All threads over one stack, and their steps.
  pub record System : Type 0 where
    pub mem : Shared T
    pub pc : ℕ → Pc

module _ {T : Type 0} where
  -- The empty stack, with no thread in an operation.
  abbrev pub empty : System T
  empty = record { mem = record { heap = λ _. none; head = null }; pc = λ _. idle }

  unfoldable pub step : ℕ × Action T → System T → System T
  unfolding move
  step (i, a) s = let (m, p) = move a (s.pc i) s.mem in record { mem = m; pc = update s.pc i p }

  unfoldable pub run : List (ℕ × Action T) → System T → System T
  unfolding step
  run [] s = s
  run (e ∷ es) s = run es (step e s)
