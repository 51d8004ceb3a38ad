-- ===== src/Vector/Life.antt =====
-- vector.cpp: a vector from its construction to its destruction.
use modern_cpp_ds.Common.{
  ℕ, suc, ◌^◌, ◌<◌, length, length-append, ◌≡◌, ◌≢◌, refl, sym, ap, ◌∙◌, ◌⊎◌, inl, inr, Option,
  none, some, List, [], ◌∷◌, ◌++◌, arith, ℕ_discrete,
}
use modern_cpp_ds.Vector.{
  null, Result, ok, fault, ◌>>=◌, Heap, Vector, empty, outside, push_back, pop_back, clear,
  destructor,
}
use modern_cpp_ds.Vector.Holds.{IsFresh, Holds}
use modern_cpp_ds.Vector.Push.{push_back_appends}
use modern_cpp_ds.Vector.Shrink.{pop_back_lem, pop_back_empty, clear_lem}
use modern_cpp_ds.Vector.Copy.{destructor_lem}
use modern_cpp_ds.Vector.Alive.{
  Alive, Shrunk-Alive, Pushed-Alive, empty-Alive, Small, Shrunk-Small, Pushed-Small,
}

-- What a client does with a vector of its own.
pub data Call (T : Type 0) : Type 0 where
  pushes : T → Call T
  pops : Call T
  clears : Call T

module _ {T : Type 0} where
  -- The list without its last element, if it has one.
  abbrev pub front : List T → Option (List T)
  front [] = none
  front (x ∷ []) = some []
  front (x ∷ (y ∷ ys)) = elim (front (y ∷ ys)) [ some zs ↦ some (x ∷ zs) | none ↦ none ]

  -- What the calls make of a list; `none` where an empty list is popped.
  abbrev pub expected : List (Call T) → List T → Option (List T)
  expected [] xs = some xs
  expected (pushes x ∷ cs) xs = expected cs (xs ++ (x ∷ []))
  expected (pops ∷ cs) xs = elim (front xs) [ some ys ↦ expected cs ys | none ↦ none ]
  expected (clears ∷ cs) xs = expected cs []

  front_cases :
      (xs : List T)
      → ((xs ≡ []) × (front xs ≡ none))
        ⊎ ((ys : List T) × (x : T) × (xs ≡ ys ++ (x ∷ [])) × (front xs ≡ some ys))
  front_cases [] = inl (refl, refl)
  front_cases (x ∷ []) = inr ([], x, refl, refl)
  front_cases (x ∷ (y ∷ ys)) = elim (front_cases (y ∷ ys)) [
    | inl (e, _) ↦ absurd (cc)
    | inr (zs, z, e, f) ↦ inr (x ∷ zs, z, ap (λ l. x ∷ l) e, rw f refl)
  ]

module _ {T : Type 0} (moved_from : T → T) where
  unfoldable pub performs : Call T → Vector → Heap T → Result (Vector × Heap T)
  performs (pushes x) v h = push_back moved_from (outside x) v h
  performs pops v h = pop_back v h
  performs clears v h = clear v h

  unfoldable pub lives : List (Call T) → Vector → Heap T → Result (Vector × Heap T)
  unfolding performs
  lives [] v h = ok (v, h)
  lives (c ∷ cs) v h = performs c v h >>= λ (v', h'). lives cs v' h'

  -- After the calls: the vector, which holds the list, and the heap.
  pub record Lived (start : Heap T) (cs : List (Call T)) (v : Vector) (h : Heap T) (ys : List T)
      : Type 0 where
    pub vector : Vector
    pub heap : Heap T
    pub returns : lives cs v h ≡ ok (vector, heap)
    pub alive : Alive start heap vector ys

  lives-Alive :
      (start : Heap T)
      → IsFresh start
      → (cs : List (Call T)) (done : ℕ) (v : Vector) (h : Heap T) (xs : List T) → Alive start h v xs
      → Small done (length cs) v xs
      → (expected cs xs ≡ none → lives cs v h ≡ fault)
        × ((ys : List T) → expected cs xs ≡ some ys → Lived start cs v h ys)
  unfolding lives
  lives-Alive start f [] done v h xs a m = (
    λ e. absurd (cc),
    λ ys e.
        let same : xs ≡ ys = ground arith in
        record { vector = v; heap = h; returns = refl; alive = rw (← same) a },
  )
  lives-Alive start f (pushes x ∷ cs) done v h xs a m =
      let u =
        push_back_appends moved_from x v h xs a.fresh a.holds (omega (arith, m.room, m.bound)) in
      let (bad, good) =
        lives-Alive start f cs (suc done) u.vector u.heap (xs ++ (x ∷ []))
          (Pushed-Alive moved_from start h v xs x f a u)
          (Pushed-Small moved_from done (length cs) v h xs x a.holds m u) in
      (
        λ e. rw u.returns (bad e),
        λ ys e.
            let g = good ys e in
            record {
              vector = g.vector;
              heap = g.heap;
              returns = rw u.returns g.returns;
              alive = g.alive;
            },
      )
  lives-Alive start f (clears ∷ cs) done v h xs a m =
      let u = clear_lem v h xs a.holds in
      let (bad, good) =
        lives-Alive start f cs (suc done) u.vector u.heap []
          (Shrunk-Alive start h v xs [] (clear v h) a u)
          (Shrunk-Small done (length cs) v h xs [] (clear v h) (omega arith) m u) in
      (
        λ e. rw u.returns (bad e),
        λ ys e.
            let g = good ys e in
            record {
              vector = g.vector;
              heap = g.heap;
              returns = rw u.returns g.returns;
              alive = g.alive;
            },
      )
  lives-Alive start f (pops ∷ cs) done v h xs a m = elim (front_cases xs) [
    | inl (e, z) ↦ (
      λ _. let out = pop_back_empty v h (rw e at a.holds) in rw out refl,
      λ ys k. absurd (cc (rw (z, expected) at k)),
    )
    | inr (zs, x, e, z) ↦
        let u = pop_back_lem v h zs x (rw e at a.holds) in
        let (bad, good) =
          lives-Alive start f cs (suc done) u.vector u.heap zs
            (Shrunk-Alive start h v xs zs (pop_back v h) a u)
            (Shrunk-Small done (length cs) v h xs zs (pop_back v h)
              (rw e (omega (arith, length-append zs (x ∷ [])))) m u) in
        (
          λ k. rw u.returns (bad (rw (z, expected) at k)),
          λ ys k.
              let g = good ys (rw (z, expected) at k) in
              record {
                vector = g.vector;
                heap = g.heap;
                returns = rw u.returns g.returns;
                alive = g.alive;
              },
        )
  ]

  -- How the life of a vector ends, by what the calls make of a list.
  abbrev pub Outcome : List (Call T) → Heap T → Option (List T) → Type 0
  Outcome cs start none = lives cs empty start ≡ fault
  Outcome cs start (some xs) =
      (v : Vector) × (h h' : Heap T) × (lives cs empty start ≡ ok (v, h))
      × Holds h v xs
      × (destructor v h ≡ ok h')
      × ((p : ℕ) → p ≢ null → h'.block p ≡ start.block p)
      × (h'.leaked ≡ start.leaked)

  -- The life of a vector, for any sequence of `push_back` (of objects from outside), `pop_back` and `clear` on
  -- a new vector, fewer than 2 ^ 62 of them: if an empty vector is popped, the behaviour is undefined; otherwise the vector holds what
  -- the calls make of a list, and after the destructor every block is as it was before the vector was made, and
  -- no block was given back with an object in it, so that neither memory nor an object leaks and nothing of
  -- others is touched.
  pub vector_life :
      (cs : List (Call T)) (start : Heap T)
      → IsFresh start
      → length cs < 2 ^ 62
      → Outcome cs start (expected cs [])
  vector_life cs start f short = go (expected cs []) (
      lives-Alive start f cs 0 empty start [] (empty-Alive start f)
        (record { room = omega arith; short = omega arith; bound = omega (arith, short) }))
    where
      go :
          (o : Option (List T))
          → ((o ≡ none → lives cs empty start ≡ fault)
              × ((ys : List T) → o ≡ some ys → Lived start cs empty start ys))
          → Outcome cs start o
      go none (bad, good) = bad refl
      go (some xs) (bad, good) =
          let g = good xs refl in
          let d = destructor_lem g.vector g.heap xs g.alive.holds in
          (
            g.vector,
            g.heap,
            d.heap,
            g.returns,
            g.alive.holds,
            d.returns,
            λ p nz. elim (ℕ_discrete p g.vector.ptr) [
              | no ne ↦ d.same p ne ∙ g.alive.others p nz ne
              | yes s ↦
                  let there : g.vector.ptr ≢ null = λ z. nz (s ∙ z) in
                  rw s (d.gone there ∙ sym (g.alive.own there))
            ],
            d.leaked_eq ∙ g.alive.unleaked,
          )
