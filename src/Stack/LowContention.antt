-- ===== src/Stack/LowContention.antt =====
-- stack_lockfree.cpp, namespace `low_contention`: the stack that counts the threads in `pop` and deletes
-- nodes while it counts one, for any number of threads, one access to shared memory at a time, in any
-- order. `nothing` is the null `shared_ptr`.
mod Inv
mod Change
mod Places
mod Moves
mod Pops
mod Paths
mod Reclaims
mod Refine
mod Accesses
mod Recycles
mod Lists
mod Runs
mod Safety
mod Deliver
mod Solo
mod Clears
mod Progress
mod LockFree
mod Tests
use modern_cpp_ds.Common.{
  ℕ, ◌+◌, ◌-◌, ◌%◌, ◌^◌, Bool, true, false, Option, none, some, List, [], ◌∷◌, ◌==◌, if◌then◌else◌,
  ite, ℕ_discrete,
}
use modern_cpp_ds.Stack.{null, node, Node, Heap, store, is_free}

-- What follows when nodes have been put on the list of nodes to be deleted.
pub data After : Type 0 where
  then_leave : After  -- `--threads_in_pop`
  then_delete : (old_head : ℕ) → After  -- `delete old_head`

-- Where a thread stands, with its locals.
pub data Pc : Type 0 where
  idle : Pc
  allocated : (new_head : ℕ) → Pc  -- `push`, about to load `head` into `new_head->next`
  pushing : (new_head : ℕ) → Pc  -- at the compare-exchange of `push`
  entered : Pc  -- `pop` has counted itself; about to load `head`
  loaded : (old_head : ℕ) → Pc  -- about to test `old_head` and read `old_head->next`
  popping : (old_head next : ℕ) → Pc  -- at the compare-exchange of `pop`
  taking : (old_head : ℕ) → Pc  -- about to swap the data out of the node
  reclaiming : (old_head : ℕ) → Pc  -- in `try_reclaim`, about to compare `threads_in_pop` with 1
  sole : (old_head : ℕ) → Pc  -- it was 1; about to exchange `to_be_deleted`
  exchanged : (nodes_to_delete old_head : ℕ) → Pc  -- about to decrement `threads_in_pop`
  deleting : (list old_head : ℕ) → Pc  -- in `delete_nodes`
  walking : (first list old_head : ℕ) → Pc  -- in `chain_pending_nodes`, looking for the last node
  linking : (first last : ℕ) → After → Pc  -- about to load `to_be_deleted` into `last->next`
  chaining : (first last : ℕ) → After → Pc  -- at the compare-exchange of `chain_pending_nodes`
  dropping : (old_head : ℕ) → Pc  -- about to delete `old_head`
  leaving : Pc  -- about to decrement `threads_in_pop` and return
  fault : Pc  -- an access to memory that is not a node

module _ (T : Type 0) where
  pub record Shared : Type 0 where
    pub heap : Heap T
    pub head : ℕ
    pub threads_in_pop : ℕ
    pub to_be_deleted : ℕ

  pub record System : Type 0 where
    pub mem : Shared
    pub pc : ℕ → Pc

  pub data Action : Type 0 where
    -- `push(obj)` begins: `new` returns `fresh`, where `next` holds whatever was there.
    begin_push : T → (fresh junk : ℕ) → Action
    begin_pop : Action
    -- The next access; `compare_exchange_weak` in `push` may fail without reason.
    go : (spurious : Bool) → Action

-- `std::size_t`
abbrev pub size_t : ℕ → ℕ
size_t n = n % 2 ^ 64

abbrev pub resume : After → Pc
resume then_leave = leaving
resume (then_delete old) = dropping old

module _ {T : Type 0} where
  abbrev pub delete_node : ℕ → Shared T → Shared T
  delete_node p m = record m { heap = λ a. if p == a then none else m.heap a }

  -- `compare_exchange_weak(new_head->next, new_head)`: a failure stores the head into `next`.
  abbrev pub exchange_push : Bool → ℕ → Shared T → Node T → Shared T × Pc
  exchange_push spurious a m (node v next) =
      if spurious
      then (record m { heap = store m.heap a (node v m.head) }, pushing a)
      else if m.head == next
      then (record m { head = a }, idle)
      else (record m { heap = store m.heap a (node v m.head) }, pushing a)

  -- `compare_exchange_strong(last->next, first)`: a failure stores `to_be_deleted` into `last->next`.
  abbrev pub exchange_pending : ℕ → ℕ → After → Shared T → Node T → Shared T × Pc
  exchange_pending first last after m (node v next) =
      if m.to_be_deleted == next then (record m { to_be_deleted = first }, resume after) else (
        record m { heap = store m.heap last (node v m.to_be_deleted) },
        chaining first last after,
      )

  -- `--threads_in_pop`
  abbrev pub decremented : Shared T → ℕ
  decremented m = size_t (m.threads_in_pop + 2 ^ 64 - 1)

module _ {T : Type 0} (nothing : T) where
  -- The next access of a thread that stands at the given place.
  unfoldable pub move : Action T → Pc → Shared T → Shared T × Pc
  move (begin_push v fresh junk) idle m =
      if is_free m.heap fresh
      then (record m { heap = store m.heap fresh (node v junk) }, allocated fresh)
      else (m, idle)
  move begin_pop idle m = (record m { threads_in_pop = size_t (m.threads_in_pop + 1) }, entered)
  move (go _) (allocated a) m = elim (m.heap a) [
    | some (node v _) ↦ (record m { heap = store m.heap a (node v m.head) }, pushing a)
    | none ↦ (m, fault)
  ]
  move (go spurious) (pushing a) m = elim (m.heap a) [
    | some n ↦ exchange_push spurious a m n
    | none ↦ (m, fault)
  ]
  move (go _) entered m = (m, loaded m.head)
  move (go _) (loaded old) m =
      if old == null
      then (m, leaving)
      else elim (m.heap old) [ some (node _ next) ↦ (m, popping old next) | none ↦ (m, fault) ]
  move (go _) (popping old next) m =
      if m.head == old then (record m { head = next }, taking old) else (m, loaded m.head)
  move (go _) (taking old) m = elim (m.heap old) [
    | some (node _ next) ↦
        (record m { heap = store m.heap old (node nothing next) }, reclaiming old)
    | none ↦ (m, fault)
  ]
  move (go _) (reclaiming old) m =
      if m.threads_in_pop == 1 then (m, sole old) else (m, linking old old then_leave)
  move (go _) (sole old) m = (record m { to_be_deleted = null }, exchanged m.to_be_deleted old)
  move (go _) (exchanged nodes old) m = (
    record m { threads_in_pop = decremented m },
    if decremented m == 0
        then deleting nodes old
        else if nodes == null
        then dropping old
        else walking nodes nodes old,
  )
  move (go _) (deleting list old) m =
      if list == null then (m, dropping old) else elim (m.heap list) [
        | some (node _ next) ↦ (delete_node list m, deleting next old)
        | none ↦ (m, fault)
      ]
  move (go _) (walking first list old) m = elim (m.heap list) [
    | some (node _ next) ↦
        (m, if next == null then linking first list (then_delete old) else walking first next old)
    | none ↦ (m, fault)
  ]
  move (go _) (linking first last after) m = elim (m.heap last) [
    | some (node v _) ↦
        (record m { heap = store m.heap last (node v m.to_be_deleted) }, chaining first last after)
    | none ↦ (m, fault)
  ]
  move (go _) (chaining first last after) m = elim (m.heap last) [
    | some n ↦ exchange_pending first last after m n
    | none ↦ (m, fault)
  ]
  move (go _) (dropping old) m = elim (m.heap old) [
    | some _ ↦ (delete_node old m, idle)
    | none ↦ (m, fault)
  ]
  move (go _) leaving m = (record m { threads_in_pop = decremented m }, idle)
  move _ p m = (m, p)

abbrev pub update : (ℕ → Pc) → ℕ → Pc → ℕ → Pc
update pc i p j = ite (ℕ_discrete i j) p (pc j)

module _ {T : Type 0} (nothing : T) where
  unfoldable pub step : ℕ × Action T → System T → System T
  unfolding move
  step (i, a) s =
      let (m, p) = move nothing a (s.pc i) s.mem in record { mem = m; pc = update s.pc i p }

  unfoldable pub run : List (ℕ × Action T) → System T → System T
  unfolding step
  run [] s = s
  run (e ∷ es) s = run es (step e s)

module _ {T : Type 0} where
  -- The empty stack, with no thread in an operation.
  abbrev pub create : System T
  create = record {
    mem = record { heap = λ _. none; head = null; threads_in_pop = 0; to_be_deleted = null };
    pc = λ _. idle;
  }
