-- ===== src/Hazard/Sweep.antt =====
-- stack_lockfree.cpp, `hazard_ptr`: which nodes are deleted.
use modern_cpp_ds.Common.{ℕ, ◌+◌, ◌≡◌, true, false, List, [], ◌∷◌, arith, Bool-cases, inl, inr}
use modern_cpp_ds.Common.Counts.{count}
use modern_cpp_ds.Hazard.{
  HazardPointer, outstanding, Reclaim, sweep, delete_nodes_with_no_hazard, retire,
  add_to_reclaim_list, delete_node,
}

-- What happens to the nodes at `a` when the nodes of `taken` are looked at.
pub record Swept (table : List HazardPointer) (a : ℕ) (taken : List ℕ) (r r' : Reclaim)
    : Type 0 where
  pub kept :
      outstanding a table ≡ true
      → (count a r'.deleted ≡ count a r.deleted)
        × (count a r'.nodes_to_reclaim ≡ count a r.nodes_to_reclaim + count a taken)
  pub freed :
      outstanding a table ≡ false
      → (count a r'.deleted ≡ count a r.deleted + count a taken)
        × (count a r'.nodes_to_reclaim ≡ count a r.nodes_to_reclaim)

sweep-Swept :
    (table : List HazardPointer) (a : ℕ) (taken : List ℕ) (r : Reclaim)
    → Swept table a taken r (sweep table taken r)
unfolding sweep count
sweep-Swept table a [] r = record { kept = λ o. omega arith; freed = λ o. omega arith }
sweep-Swept table a (c ∷ cs) r = elim (Bool-cases (outstanding c table)) [
  | inl e ↦
      let w = sweep-Swept table a cs (add_to_reclaim_list c r) in
      rw e (record { kept = λ o. ground (arith, w.kept o); freed = λ o. ground (arith, w.freed o) })
  | inr e ↦
      let w = sweep-Swept table a cs (delete_node c r) in
      rw e (record { kept = λ o. ground (arith, w.kept o); freed = λ o. ground (arith, w.freed o) })
]

-- Retiring a node is safe and complete, for every address: while a hazard pointer holds it, no node
-- there is deleted and all of them wait, the retired one too; otherwise all of them are deleted, each
-- once, and none is left waiting.
pub retire_lem :
    (table : List HazardPointer) (old_head a : ℕ) (r : Reclaim)
    → let r' = retire table old_head r in
      let pending = count a (old_head ∷ r.nodes_to_reclaim) in
      (outstanding a table ≡ true
        → (count a r'.deleted ≡ count a r.deleted) × (count a r'.nodes_to_reclaim ≡ pending))
      × (outstanding a table ≡ false
          → (count a r'.deleted ≡ count a r.deleted + pending) × (count a r'.nodes_to_reclaim ≡ 0))
unfolding retire delete_nodes_with_no_hazard count
retire_lem table old_head a r = elim (Bool-cases (outstanding old_head table)) [
  | inl e ↦
      let w =
        sweep-Swept table a (old_head ∷ r.nodes_to_reclaim) (record r { nodes_to_reclaim = [] }) in
      rw e (λ o. ground (arith, w.kept o), λ o. ground (arith, w.freed o))
  | inr e ↦
      let w =
        sweep-Swept table a r.nodes_to_reclaim
          (record { nodes_to_reclaim = []; deleted = old_head ∷ r.deleted }) in
      rw e (λ o. ground (arith, w.kept o), λ o. ground (arith, w.freed o))
]
