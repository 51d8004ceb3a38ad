-- ===== src/Stack/HazardStack.antt =====
-- stack_lockfree.cpp, `hazard_ptr::stack`: push and pop with hazard pointers and the reclaim list, for
-- any number of threads, one access to shared memory at a time, in any order. An index below `max_ptr` is a slot of
-- `hazard_pointers`, used by the thread that has it; a thread without a slot has an index beyond the table and
-- cannot pop. Threads says how threads get slots and give them back. `nothing` is the null `shared_ptr`.
mod Inv
mod Change
mod Moves
mod Reclaims
mod Refine
mod Accesses
mod Safety
mod Deliver
mod Threads
mod Tests
use modern_cpp_ds.Common.{
  ℕ, suc, Bool, true, false, Option, none, some, List, [], ◌∷◌, ◌==◌, ltb, if◌then◌else◌, ite,
  ℕ_discrete,
}
use modern_cpp_ds.Stack.{null, node, Node, Heap, store, is_free}

-- `MAX_PTR`
abbrev pub max_ptr : ℕ
max_ptr = 100

-- What follows when a node has been looked at: `delete_nodes_with_no_hazard` begins, after the node that
-- `pop` itself removed, or goes on with the nodes that it has taken and not looked at.
pub data After : Type 0 where
  then_sweep : After
  then_next : (next : List ℕ) → After

-- Where a thread stands, with its locals.
pub data Pc : Type 0 where
  idle : Pc
  allocated : (new_head : ℕ) → Pc  -- `push`, about to load `head` into `new_head->next`
  pushing : (new_head : ℕ) → Pc  -- at the compare-exchange of `push`
  loaded : (old_head : ℕ) → Pc  -- `pop`, about to store `old_head` into its hazard pointer
  published : (tmp : ℕ) → Pc  -- about to load `head` again and compare
  validated : (old_head : ℕ) → Pc  -- about to test `old_head` and read `old_head->next`
  exchanging : (old_head next : ℕ) → Pc  -- at the compare-exchange of `pop`
  found_empty : Pc  -- `old_head` is null; about to clear the hazard pointer
  clearing : (old_head : ℕ) → Pc  -- the exchange succeeded; about to clear the hazard pointer
  taking : (old_head : ℕ) → Pc  -- about to swap the data out of the node
  scanning : (p i : ℕ) → After → Pc  -- in `outstanding_hazard_pointers_for(p)`, at slot `i`
  adding : (p : ℕ) → After → Pc  -- a slot holds `p`; in `add_to_reclaim_list`
  deleting : (p : ℕ) → After → Pc  -- no slot holds `p`; about to delete it
  sweeping : After → Pc  -- about to take the list, or at the head of the loop over it
  fault : Pc  -- an access to memory that is not a node

module _ (T : Type 0) where
  pub record Shared : Type 0 where
    pub heap : Heap T
    pub head : ℕ
    pub hazard_pointers : ℕ → ℕ
    pub nodes_to_reclaim : List ℕ

  pub record System : Type 0 where
    pub mem : Shared
    pub pc : ℕ → Pc

  pub data Action : Type 0 where
    -- `push(obj)` begins: `new` returns `fresh`, where `next` holds whatever was there.
    begin_push : T → (fresh junk : ℕ) → Action
    begin_pop : Action
    -- The next access; the exchange on `nodes_to_reclaim` may fail.
    go : (fails : Bool) → Action

module _ {T : Type 0} where
  -- `hp.store(p)` on slot `i`.
  abbrev pub protect : ℕ → ℕ → Shared T → Shared T
  protect i p m = record m { hazard_pointers = λ j. if i == j then p else m.hazard_pointers j }

  abbrev pub delete_node : ℕ → Shared T → Shared T
  delete_node p m = record m { heap = λ a. if p == a then none else m.heap a }

  -- `compare_exchange_strong(new_head->next, new_head)`: a failure stores the head into `next`.
  abbrev pub exchange_push : ℕ → Shared T → Node T → Shared T × Pc
  exchange_push a m (node v next) =
      if m.head == next
      then (record m { head = a }, idle)
      else (record m { heap = store m.heap a (node v m.head) }, pushing a)

module _ {T : Type 0} (nothing : T) where
  -- The next access from index `i`, which stands at the given place.
  unfoldable pub move : ℕ → Action T → Pc → Shared T → Shared T × Pc
  move i (begin_push v fresh junk) idle m =
      if is_free m.heap fresh
      then (record m { heap = store m.heap fresh (node v junk) }, allocated fresh)
      else (m, idle)
  move i begin_pop idle m = if ltb i max_ptr then (m, loaded m.head) else (m, idle)
  move i (go _) (allocated a) m = elim (m.heap a) [
    | some (node v _) ↦ (record m { heap = store m.heap a (node v m.head) }, pushing a)
    | none ↦ (m, fault)
  ]
  move i (go _) (pushing a) m = elim (m.heap a) [ some n ↦ exchange_push a m n | none ↦ (m, fault) ]
  move i (go _) (loaded old) m = (protect i old m, published old)
  move i (go _) (published tmp) m = if m.head == tmp then (m, validated tmp) else (m, loaded m.head)
  move i (go _) (validated old) m =
      if old == null
      then (m, found_empty)
      else elim (m.heap old) [ some (node _ next) ↦ (m, exchanging old next) | none ↦ (m, fault) ]
  move i (go _) (exchanging old next) m =
      if m.head == old then (record m { head = next }, clearing old) else (m, loaded m.head)
  move i (go _) found_empty m = (protect i null m, idle)
  move i (go _) (clearing old) m = (protect i null m, taking old)
  move i (go _) (taking old) m = elim (m.heap old) [
    | some (node _ next) ↦
        (record m { heap = store m.heap old (node nothing next) }, scanning old 0 then_sweep)
    | none ↦ (m, fault)
  ]
  move i (go _) (scanning p k after) m =
      if ltb k max_ptr
      then if m.hazard_pointers k == p then (m, adding p after) else (m, scanning p (suc k) after)
      else (m, deleting p after)
  move i (go fails) (adding p after) m =
      if fails
      then (m, adding p after)
      else (record m { nodes_to_reclaim = p ∷ m.nodes_to_reclaim }, sweeping after)
  move i (go _) (deleting p after) m = elim (m.heap p) [
    | some _ ↦ (delete_node p m, sweeping after)
    | none ↦ (m, fault)
  ]
  move i (go _) (sweeping then_sweep) m =
      (record m { nodes_to_reclaim = [] }, sweeping (then_next m.nodes_to_reclaim))
  move i (go _) (sweeping (then_next [])) m = (m, idle)
  move i (go _) (sweeping (then_next (current ∷ next))) m = (m, scanning current 0 (then_next next))
  move i _ p m = (m, p)

abbrev pub update : (ℕ → Pc) → ℕ → Pc → ℕ → Pc
update pc i p j = ite (ℕ_discrete i j) p (pc j)

module _ {T : Type 0} (nothing : T) where
  unfoldable pub step : ℕ × Action T → System T → System T
  unfolding move
  step (i, a) s =
      let (m, p) = move nothing i a (s.pc i) s.mem in record { mem = m; pc = update s.pc i p }

  unfoldable pub run : List (ℕ × Action T) → System T → System T
  unfolding step
  run [] s = s
  run (e ∷ es) s = run es (step e s)

module _ {T : Type 0} where
  -- The empty stack, all hazard pointers null and no thread in an operation.
  abbrev pub create : System T
  create = record {
    mem = record {
      heap = λ _. none;
      head = null;
      hazard_pointers = λ _. null;
      nodes_to_reclaim = [];
    };
    pc = λ _. idle;
  }
