-- ===== src/Stack/Chain.antt =====
-- stack_lockfree.cpp: the linked list from `head`, as addresses with their data.
use modern_cpp_ds.Common.{
  ℕ, ◌≡◌, ◌≢◌, refl, Bool, false, ◌||◌, none, some, List, [], ◌∷◌, ◌==◌, arith,
}
use modern_cpp_ds.Stack.{null, node, Node, Heap, store}

abbrev pub Cells : Type 0 → Type 0
Cells T = List (ℕ × T)

module _ {T : Type 0} where
  abbrev pub has : ℕ → Cells T → Bool
  has b [] = false
  has b ((a, _) ∷ cs) = (a == b) || has b cs

  -- The data alone, the head first.
  abbrev pub values : Cells T → List T
  values [] = []
  values ((_, v) ∷ cs) = v ∷ values cs

  -- From `p` the `next` pointers lead through exactly these nodes to `nullptr`.
  abbrev pub Chain : Heap T → ℕ → Cells T → Type 0
  Chain h p [] = p ≡ null
  Chain h p ((a, v) ∷ cs) =
      (p ≡ a) × (a ≢ null) × ((next : ℕ) × (h a ≡ some (node v next)) × Chain h next cs)

  pub Chain-store :
      (h : Heap T) (p b : ℕ) (n : Node T) (cs : Cells T)
      → has b cs ≡ false
      → Chain h p cs
      → Chain (store h b n) p cs
  Chain-store h p b n [] out c = c
  Chain-store h p b n ((a, v) ∷ cs) out (at_p, ne, (next, e, rest)) =
      (at_p, ne, (next, ground arith, Chain-store h next b n cs (ground arith) rest))

  -- No unallocated address is in the list.
  pub has_free :
      (h : Heap T) (p b : ℕ) (cs : Cells T) → Chain h p cs → h b ≡ none → has b cs ≡ false
  has_free h p b [] c free = refl
  has_free h p b ((a, v) ∷ cs) (at_p, ne, (next, e, rest)) free =
      ground (arith, has_free h next b cs rest free)

  -- The head is in the list, or null.
  pub head-ne :
      (h : Heap T) (p b : ℕ) (cs : Cells T) → Chain h p cs → b ≢ null → has b cs ≡ false → p ≢ b
  head-ne h p b [] c ne out = ground arith
  head-ne h p b ((a, v) ∷ cs) c ne out = ground arith

  pub head_allocated : (h : Heap T) (p : ℕ) (cs : Cells T) → Chain h p cs → p ≢ null → h p ≢ none
  head_allocated h p [] c ne = absurd (ne c)
  head_allocated h p ((a, v) ∷ cs) (at_p, _, (next, e, _)) ne = ground arith
