-- ===== src/Mempool/Create.antt =====
-- c++_features_experiment/mempool.cpp: the constructor of the pool.
use modern_cpp_ds.Common.{
  dec_lt, ℕ, zero, suc, ◌+◌, ◌-◌, ◌<◌, ◌≤◌, ◌≡◌, refl, ◌∙◌, ◌⊎◌, inl, inr, none, some, List, [],
  ◌∷◌, length, get_elem?, set, replicate, get_elem?-set_self, get_elem?-set_ne, length-set,
  length-replicate, arith, ℕ_discrete, dec_lt,
}
use modern_cpp_ds.Common.Counts.{count}
use modern_cpp_ds.Mempool.{Chunk, zeroed, next, Pool, link, create, before, int_max}
use modern_cpp_ds.Mempool.Free.{Chain, Inv}

module _ {T : Type 0} where
  -- The loop links the chunks from `i` to `i + k`, each to the one behind it.
  record Linked (i k : ℕ) (blocks linked : List (Chunk T)) : Type 0 where
    same_length : length linked ≡ length blocks
    inside : (j : ℕ) → i ≤ j → j < i + k → get_elem? linked j ≡ some (next (some (suc j)))
    outside : (j : ℕ) → (j < i) ⊎ (i + k ≤ j) → get_elem? linked j ≡ get_elem? blocks j

  link_step :
      (i k : ℕ) (blocks : List (Chunk T))
      → i < length blocks
      → i < int_max
      → link i (suc k) blocks ≡ link (suc i) k (set blocks i (next (some (suc i))))
  unfolding link
  link_step i k blocks fits int = ground arith

  link_lem :
      (i k : ℕ) (blocks : List (Chunk T))
      → i + k ≤ length blocks
      → i + k ≤ int_max
      → (linked : List (Chunk T)) × (link i k blocks ≡ some linked) × Linked i k blocks linked
  unfolding link
  link_lem i zero blocks fits int = (
    blocks,
    refl,
    record { same_length = refl; inside = λ j l h. absurd (omega arith); outside = λ j o. refl },
  )
  link_lem i (suc k) blocks fits int =
      let one = set blocks i (next (some (suc i))) in
      let (linked, e, r) =
        link_lem (suc i) k one (omega (arith, length-set blocks i (next (some (suc i)))))
          (omega arith) in
      (
        linked,
        link_step i k blocks (omega arith) (omega arith) ∙ e,
        record {
          same_length = r.same_length ∙ length-set blocks i (next (some (suc i)));
          inside = λ j l h. elim (ℕ_discrete i j) [
            | yes s ↦
                r.outside j (inl (omega arith))
                ∙ rw s (get_elem?-set_self blocks j (next (some (suc j))) (omega arith))
            | no ns ↦ r.inside j (omega arith) (omega arith)
          ];
          outside = λ j o. elim o [
            | inl l ↦
                r.outside j (inl (omega arith))
                ∙ get_elem?-set_ne blocks (next (some (suc i))) (λ s. omega arith)
            | inr l ↦
                r.outside j (inr (omega arith))
                ∙ get_elem?-set_ne blocks (next (some (suc i))) (λ s. omega arith)
          ];
        },
      )

-- The indices from `i` on, `k` of them.
abbrev pub upto : ℕ → ℕ → List ℕ
upto i zero = []
upto i (suc k) = i ∷ upto (suc i) k

count-upto :
    (j i k : ℕ)
    → ((i ≤ j) × (j < i + k) × (count j (upto i k) ≡ 1))
      ⊎ (((j < i) ⊎ (i + k ≤ j)) × (count j (upto i k) ≡ 0))
unfolding count
count-upto j i zero = elim (dec_lt j i) [
  | yes l ↦ inr (inl l, refl)
  | no nl ↦ inr (inr (omega arith), refl)
]
count-upto j i (suc k) = elim (count-upto j (suc i) k) [
  | inl (l, h, e) ↦ inl (omega arith, omega arith, ground arith)
  | inr (inl l, e) ↦ elim (ℕ_discrete j i) [
    | yes s ↦ inl (omega arith, omega arith, ground arith)
    | no ns ↦ inr (inl (omega arith), ground arith)
  ]
  | inr (inr l, e) ↦ inr (inr (omega arith), ground arith)
]

before_lem : (n : ℕ) → 0 < n → n ≤ suc int_max → before n ≡ n - 1
before_lem n lt le = omega arith

module _ {T : Type 0} where
  Chain-upto :
      (blocks : List (Chunk T)) (i k l : ℕ)
      → l ≡ i + k
      → ((j : ℕ) → i ≤ j → j < l → get_elem? blocks j ≡ some (next (some (suc j))))
      → get_elem? blocks l ≡ some (next none)
      → Chain blocks (some i) (upto i (suc k))
  Chain-upto blocks i zero l e inner last =
      let same : i ≡ l = omega arith in (refl, (none, rw same last, refl))
  Chain-upto blocks i (suc k) l e inner last = (
    refl,
    (
      some (suc i),
      inner i (omega arith) (omega arith),
      Chain-upto blocks (suc i) k l (omega arith) (λ j g h. inner j (omega arith) h) last,
    ),
  )

  created :
      (k : ℕ) (linked : List (Chunk T))
      → suc k ≤ suc int_max
      → link 0 k (replicate (suc k) zeroed) ≡ some linked
      → k < length linked
      → create (suc k) ≡ some (record { free_list = some 0; blocks = set linked k (next none) })
  unfolding create
  created k linked le e lt = ground (arith, e, before_lem (suc k) (omega arith) le)

  all_free :
      (k : ℕ) (blocks linked : List (Chunk T))
      → Linked 0 k blocks linked
      → length linked ≡ suc k
      → Inv (upto 0 (suc k)) (record { free_list = some 0; blocks = set linked k (next none) })
  all_free k blocks linked r size = record {
    chain =
        Chain-upto (set linked k (next none)) 0 k k (omega arith)
          (λ j l h.
            get_elem?-set_ne linked (next none) (λ s. omega arith) ∙ r.inside j l (omega arith))
          (get_elem?-set_self linked k (next none) (omega (arith, size)));
    once = λ j. elim (count-upto j 0 (suc k)) [
      | inl (_, _, c) ↦ omega arith
      | inr (_, c) ↦ omega arith
    ];
    used = λ j l z. elim (count-upto j 0 (suc k)) [
      | inl (_, _, c) ↦ absurd (omega arith)
      | inr (inl h, c) ↦ absurd (omega arith)
      | inr (inr h, c) ↦
          let whole = length-set linked k (next none) in absurd (omega (arith, whole, size))
    ];
  }

  -- A pool of one chunk or more, as many as an `int` counts, is made without an access outside of the
  -- array, and with every chunk free.
  pub create_lem :
      (n : ℕ)
      → 0 < n
      → n ≤ suc int_max
      → (p : Pool T) × (create n ≡ some p) × (length p.blocks ≡ n) × Inv (upto 0 n) p
  create_lem zero lt le = absurd (omega arith)
  create_lem (suc k) lt le =
      let z : Chunk T = zeroed in
      let fits : 0 + k ≤ length (replicate (suc k) z) =
        let n = length-replicate (suc k) z in omega (arith, n) in
      let (linked, e, r) = link_lem 0 k (replicate (suc k) z) fits (omega arith) in
      let size : length linked ≡ suc k = r.same_length ∙ length-replicate (suc k) z in
      (
        record { free_list = some 0; blocks = set linked k (next none) },
        created k linked le e (omega (arith, size)),
        length-set linked k (next none) ∙ size,
        all_free k (replicate (suc k) z) linked r size,
      )
