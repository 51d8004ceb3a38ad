-- ===== src/Deferred/Delete.antt =====
-- stack_lockfree.cpp, `low_contention`: which nodes `try_reclaim` deletes.
use modern_cpp_ds.Common.{
  ℕ, ◌+◌, ◌-◌, ◌≡◌, ◌≢◌, refl, List, [], ◌∷◌, ◌++◌, arith, ◌⊎◌, inl, inr, ℕ_discrete,
}
use modern_cpp_ds.Common.Counts.{count, count-append}
use modern_cpp_ds.Deferred.{
  null, State, delete_nodes, chain_pending_nodes, Meanwhile, interrupted, decrement, reclaim_alone,
  try_reclaim,
}

delete_nodes_lem :
    (a : ℕ) (list : List ℕ) (s : State)
    → (count a (delete_nodes list s).deleted ≡ count a s.deleted + count a list)
      × ((delete_nodes list s).to_be_deleted ≡ s.to_be_deleted)
      × ((delete_nodes list s).threads_in_pop ≡ s.threads_in_pop)
unfolding delete_nodes count
delete_nodes_lem a [] s = (omega arith, refl, refl)
delete_nodes_lem a (p ∷ next) s =
    let (d, t, n) = delete_nodes_lem a next (record s { deleted = p ∷ s.deleted }) in
    (ground (arith, d), t, n)

-- `try_reclaim` on a node, with this thread counted in `threads_in_pop`. If another thread was in
-- `pop` when it looked, it deletes nothing and the node waits with the others. If it was alone, it
-- deletes the node, and the nodes that waited before it came are all deleted, each once, when no
-- thread has come meanwhile, and otherwise all wait on. What others left meanwhile waits in every
-- case.
pub try_reclaim_lem :
    (w : Meanwhile) (old_head a : ℕ) (s : State)
    → old_head ≢ null
    → s.threads_in_pop ≢ 0
    → let s' = try_reclaim w old_head s in
      let waiting = count a s.to_be_deleted in
      (s'.threads_in_pop ≡ s.threads_in_pop + w.more - 1)
      × (((s.threads_in_pop ≢ 1)
            × (s'.deleted ≡ s.deleted)
            × (count a s'.to_be_deleted ≡ count a w.left + count a (old_head ∷ []) + waiting))
          ⊎ ((s.threads_in_pop ≡ 1)
              × (w.more ≡ 0)
              × (count a s'.deleted ≡ count a s.deleted + count a (old_head ∷ []) + waiting)
              × (count a s'.to_be_deleted ≡ count a w.left))
          ⊎ ((s.threads_in_pop ≡ 1)
              × (w.more ≢ 0)
              × (s'.deleted ≡ old_head ∷ s.deleted)
              × (count a s'.to_be_deleted ≡ count a w.left + waiting)))
unfolding try_reclaim reclaim_alone chain_pending_nodes count
try_reclaim_lem w old_head a s nz counted = elim (ℕ_discrete s.threads_in_pop 1) [
  | no crowded ↦ (
    ground arith,
    inl (crowded, ground arith, ground (arith, count-append a w.left (old_head ∷ s.to_be_deleted))),
  )
  | yes alone ↦
      let taken = decrement (interrupted w (record s { to_be_deleted = [] })) in
      let (d, t, n) = delete_nodes_lem a s.to_be_deleted taken in
      elim (ℕ_discrete w.more 0) [
        | yes nobody ↦ (
          ground (arith, n),
          inr (inl (alone, nobody, ground (arith, d), ground (arith, t, count-append a w.left []))),
        )
        | no came ↦ (
          ground arith,
          inr (
              inr (
                alone,
                came,
                ground arith,
                ground (
                  arith,
                  count-append a w.left [],
                  count-append a s.to_be_deleted (w.left ++ []),
                ),
              )),
        )
      ]
]
