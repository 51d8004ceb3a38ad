-- ===== src/Deferred.antt =====
-- stack_lockfree.cpp, namespace `low_contention`: when the nodes of the stack are deleted. A thread
-- runs `try_reclaim`; between its exchange and its decrement others may come and leave nodes
-- behind.
mod Delete
use modern_cpp_ds.Common.{ℕ, ◌+◌, ◌-◌, List, [], ◌∷◌, ◌++◌, ◌==◌, if◌then◌else◌}

-- `nullptr`
abbrev pub null : ℕ
null = 0

-- `threads_in_pop`, the list from `to_be_deleted`, and the addresses that were deleted, the latest
-- first.
pub record State : Type 0 where
  pub threads_in_pop : ℕ
  pub to_be_deleted : List ℕ
  pub deleted : List ℕ

-- `delete_nodes`
unfoldable pub delete_nodes : List ℕ → State → State
delete_nodes [] s = s
delete_nodes (p ∷ next) s = delete_nodes next (record s { deleted = p ∷ s.deleted })

-- `chain_pending_nodes(list)`: its last node now leads to what is in `to_be_deleted`.
unfoldable pub chain_pending_nodes : List ℕ → State → State
chain_pending_nodes list s = record s { to_be_deleted = list ++ s.to_be_deleted }

-- What other threads do meanwhile: `more` of them are in `pop` in the end, and the nodes of `left`
-- have been put before the others.
pub record Meanwhile : Type 0 where
  pub more : ℕ
  pub left : List ℕ

abbrev pub interrupted : Meanwhile → State → State
interrupted w s = record s {
  threads_in_pop = s.threads_in_pop + w.more;
  to_be_deleted = w.left ++ s.to_be_deleted;
}

-- `--threads_in_pop`
abbrev pub decrement : State → State
decrement s = record s { threads_in_pop = s.threads_in_pop - 1 }

-- `try_reclaim` on a node, when `threads_in_pop` was read as 1.
unfoldable pub reclaim_alone : Meanwhile → ℕ → State → State
unfolding delete_nodes chain_pending_nodes
reclaim_alone w old_head s =
    let nodes_to_delete = s.to_be_deleted in
    let s' = decrement (interrupted w (record s { to_be_deleted = [] })) in
    let s'' =
      if s'.threads_in_pop == 0
      then delete_nodes nodes_to_delete s'
      else chain_pending_nodes nodes_to_delete s' in
    record s'' { deleted = old_head ∷ s''.deleted }

unfoldable pub try_reclaim : Meanwhile → ℕ → State → State
unfolding reclaim_alone
try_reclaim w old_head s =
    let alone = reclaim_alone w old_head s in
    let crowded = decrement (interrupted w (chain_pending_nodes (old_head ∷ []) s)) in
    if old_head == null then decrement s else if s.threads_in_pop == 1 then alone else crowded
