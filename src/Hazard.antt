-- ===== src/Hazard.antt =====
-- stack_lockfree.cpp, namespace `hazard_ptr`: the table of hazard pointers, and the list of nodes
-- that wait to be deleted. One thread runs each function here while the others do not move.
mod Slots
mod Sweep
use modern_cpp_ds.Common.{
  ℕ, zero, suc, Bool, true, false, Option, none, some, List, [], ◌∷◌, ◌==◌, if◌then◌else◌,
}

-- `nullptr`
abbrev pub null : ℕ
null = 0

-- `hazard_pointer`; a default `std::thread::id` is `none`.
pub record HazardPointer : Type 0 where
  pub pointer : ℕ
  pub id : Option ℕ

abbrev pub is_free : Option ℕ → Bool
is_free none = true
is_free (some _) = false

-- `hp_owner()` of thread `me` on `hazard_pointers`: the index of the slot and the new table, or
-- `none` for the exception.
unfoldable pub acquire : ℕ → List HazardPointer → Option (ℕ × List HazardPointer)
acquire me [] = none
acquire me (s ∷ rest) =
    let later = acquire me rest in
    if is_free s.id
    then some (0, record s { id = some me } ∷ rest)
    else elim later [ some (i, rest') ↦ some (suc i, s ∷ rest') | none ↦ none ]

-- `hp.store(p)` on the slot with index `i`.
unfoldable pub publish : ℕ → ℕ → List HazardPointer → List HazardPointer
publish i p [] = []
publish zero p (s ∷ rest) = record s { pointer = p } ∷ rest
publish (suc i) p (s ∷ rest) = s ∷ publish i p rest

-- `hp->id = std::thread::id()` of the slot with index `i`.
unfoldable pub free_id : ℕ → List HazardPointer → List HazardPointer
free_id i [] = []
free_id zero (s ∷ rest) = record s { id = none } ∷ rest
free_id (suc i) (s ∷ rest) = s ∷ free_id i rest

-- `~hp_owner()`: the slot is free before its pointer is null; nobody else moves between the two stores here.
unfoldable pub give_up : ℕ → List HazardPointer → List HazardPointer
unfolding free_id publish
give_up i table = publish i null (free_id i table)

-- `outstanding_hazard_pointers_for`
unfoldable pub outstanding : ℕ → List HazardPointer → Bool
outstanding p [] = false
outstanding p (s ∷ rest) = if s.pointer == p then true else outstanding p rest

-- `nodes_to_reclaim` from its head, and the addresses that were deleted, the latest first.
pub record Reclaim : Type 0 where
  pub nodes_to_reclaim : List ℕ
  pub deleted : List ℕ

-- `add_to_reclaim_list`
abbrev pub add_to_reclaim_list : ℕ → Reclaim → Reclaim
add_to_reclaim_list p r = record r { nodes_to_reclaim = p ∷ r.nodes_to_reclaim }

-- `delete current`, whose destructor deletes the data.
abbrev pub delete_node : ℕ → Reclaim → Reclaim
delete_node p r = record r { deleted = p ∷ r.deleted }

-- The loop of `delete_nodes_with_no_hazard` over the list that it has taken.
unfoldable pub sweep : List HazardPointer → List ℕ → Reclaim → Reclaim
unfolding outstanding
sweep table [] r = r
sweep table (current ∷ next) r =
    sweep table next
      (if outstanding current table then add_to_reclaim_list current r else delete_node current r)

unfoldable pub delete_nodes_with_no_hazard : List HazardPointer → Reclaim → Reclaim
unfolding sweep
delete_nodes_with_no_hazard table r =
    sweep table r.nodes_to_reclaim (record r { nodes_to_reclaim = [] })

-- The end of `pop`, after the node at `old_head` is unlinked and the own pointer cleared.
unfoldable pub retire : List HazardPointer → ℕ → Reclaim → Reclaim
unfolding delete_nodes_with_no_hazard
retire table old_head r =
    delete_nodes_with_no_hazard table (
      if outstanding old_head table then add_to_reclaim_list old_head r else delete_node old_head r)
