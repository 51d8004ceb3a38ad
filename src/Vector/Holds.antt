-- ===== src/Vector/Holds.antt =====
-- vector.cpp: what it means that a vector on a heap holds a list.
use modern_cpp_ds.Common.{
  ℕ, zero, suc, ◌+◌, ◌≤◌, ◌≡◌, ◌≢◌, refl, ap, none, some, List, [], ◌∷◌, ◌++◌, arith, length,
  replicate, ◌⊎◌, inl, inr,
}
use modern_cpp_ds.Vector.{null, ok, Block, Heap, Vector, elements}
use modern_cpp_ds.Vector.Loops.{live}

pub replicate-add {ℓ} :
    {A : Type ℓ} (n a b : ℕ) (x : A) → n ≡ a + b → replicate n x ≡ replicate a x ++ replicate b x
replicate-add n zero b x e = let e' : n ≡ b = omega arith in rw e'
replicate-add zero (suc a) b x e = absurd (omega arith)
replicate-add (suc n) (suc a) b x e = ap (λ l. x ∷ l) (replicate-add n a b x (omega arith))

module _ {T : Type 0} where
  -- The objects, and behind them the raw rest of the capacity.
  abbrev pub slots : List T → ℕ → Block T
  slots xs spare = live xs ++ replicate spare none

  -- `new` has not handed out the addresses from `next` on.
  pub record IsFresh (h : Heap T) : Type 0 where
    pub positive : h.next ≢ null
    pub unused : (p : ℕ) → h.next ≤ p → h.block p ≡ none

  -- A vector with no block has no capacity; any other owns a block of `cap` slots, of which the
  -- first `size` hold the objects.
  pub record Holds (h : Heap T) (v : Vector) (xs : List T) : Type 0 where
    pub size_eq : v.size ≡ length xs
    pub spare : ℕ
    pub cap_eq : v.cap ≡ length xs + spare
    pub block_eq :
        ((v.ptr ≡ null) × (v.cap ≡ 0)) ⊎ ((v.ptr ≢ null) × (h.block v.ptr ≡ some (slots xs spare)))

  -- The heaps agree but at these two addresses.
  abbrev pub SameBut : ℕ → ℕ → Heap T → Heap T → Type 0
  SameBut a b h h' = (p : ℕ) → p ≢ a → p ≢ b → h'.block p ≡ h.block p

  nil_of_length : (xs : List T) → length xs ≡ 0 → xs ≡ []
  nil_of_length [] e = refl
  nil_of_length (x ∷ xs) e = absurd (omega arith)

  slots_empty : (xs : List T) (spare : ℕ) → length xs + spare ≡ 0 → slots xs spare ≡ []
  slots_empty [] zero e = refl
  slots_empty [] (suc n) e = absurd (omega arith)
  slots_empty (x ∷ xs) n e = absurd (omega arith)

  -- With or without a block, the elements are the slots.
  pub elements-Holds :
      {h : Heap T} {v : Vector} {xs : List T} (w : Holds h v xs)
      → elements v h ≡ ok (slots xs w.spare)
  unfolding elements
  elements-Holds {h} {v} {xs} w = by_block w.block_eq
    where
      by_block :
          ((v.ptr ≡ null) × (v.cap ≡ 0))
            ⊎ ((v.ptr ≢ null) × (h.block v.ptr ≡ some (slots xs w.spare)))
          → elements v h ≡ ok (slots xs w.spare)
      by_block (inl (z, c)) = ground (arith, slots_empty xs w.spare (omega (arith, w.cap_eq)))
      by_block (inr (nz, e)) = ground arith
