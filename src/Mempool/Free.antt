-- ===== src/Mempool/Free.antt =====
-- c++_features_experiment/mempool.cpp: the chunks on the free list.
use modern_cpp_ds.Common.{
  ℕ, zero, suc, ◌<◌, ◌≤◌, ◌≡◌, ◌≢◌, refl, ap, ◌∙◌, Option, none, some, List, [], ◌∷◌, length,
  get_elem?, set, get_elem?-set_ne, arith, ℕ_discrete,
}
use modern_cpp_ds.Common.Counts.{count}
use modern_cpp_ds.Mempool.{Chunk, next, object, Pool}

module _ {T : Type 0} where
  -- The free list from `p` on runs through these chunks.
  abbrev pub Chain : List (Chunk T) → Option ℕ → List ℕ → Type 0
  Chain blocks p [] = p ≡ none
  Chain blocks p (c ∷ cs) =
      (p ≡ some c) × ((n : Option ℕ) × (get_elem? blocks c ≡ some (next n)) × Chain blocks n cs)

  -- An object lives in the chunk.
  abbrev pub Live : Pool T → ℕ → Type 0
  Live p c = (v : T) × (get_elem? p.blocks c ≡ some (object v))

  -- The chunks on the free list, each once, are those in which no object lives.
  pub record Inv (cs : List ℕ) (p : Pool T) : Type 0 where
    pub chain : Chain p.blocks p.free_list cs
    pub once : (i : ℕ) → count i cs ≤ 1
    pub used : (i : ℕ) → i < length p.blocks → count i cs ≡ 0 → Live p i

  pub Chain-set :
      (blocks : List (Chunk T)) (p : Option ℕ) (cs : List ℕ) (c : ℕ) (x : Chunk T)
      → count c cs ≡ 0
      → Chain blocks p cs
      → Chain (set blocks c x) p cs
  unfolding count
  Chain-set blocks p [] c x out h = h
  Chain-set blocks p (d ∷ cs) c x out (e, (n, at, more)) =
      let other : c ≢ d = λ s. ground arith in
      (e, (n, get_elem?-set_ne blocks x other ∙ at, Chain-set blocks n cs c x (ground arith) more))

  pub Chain-next :
      (blocks : List (Chunk T)) (p : Option ℕ) (cs : List ℕ) (i : ℕ)
      → Chain blocks p cs
      → 0 < count i cs
      → (n : Option ℕ) × (get_elem? blocks i ≡ some (next n))
  unfolding count
  Chain-next blocks p [] i h lt = absurd (omega arith)
  Chain-next blocks p (d ∷ cs) i (e, (n, at, more)) lt = elim (ℕ_discrete i d) [
    | yes s ↦ (n, rw s at)
    | no ns ↦ Chain-next blocks n cs i more (ground arith)
  ]

  pub get-length :
      (blocks : List (Chunk T)) (i : ℕ) (x : Chunk T)
      → get_elem? blocks i ≡ some x
      → i < length blocks
  get-length [] i x e = absurd (cc)
  get-length (b ∷ blocks) zero x e = omega arith
  get-length (b ∷ blocks) (suc i) x e = let lt = get-length blocks i x e in omega (arith, lt)

  pub set-set :
      (blocks : List (Chunk T)) (i : ℕ) (x y : Chunk T) → set (set blocks i x) i y ≡ set blocks i y
  set-set [] i x y = refl
  set-set (b ∷ blocks) zero x y = refl
  set-set (b ∷ blocks) (suc i) x y = ap (λ l. b ∷ l) (set-set blocks i x y)
