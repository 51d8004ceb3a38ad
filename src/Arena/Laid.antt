-- ===== src/Arena/Laid.antt =====
-- c++_features_experiment/arena_allocator.cpp: where the blocks lie.
use modern_cpp_ds.Common.{
  ℕ, ◌+◌, ◌-◌, ◌%◌, ◌^◌, ◌≤◌, ◌<◌, ◌≡◌, true, Option, none, some, List, [], ◌∷◌, refl, arith,
  Bool-cases, inl, inr, dec_lt,
}
use modern_cpp_ds.Arena.{
  Arena, Request, Result, returned, throws, create, get_alignment, Aligns, malloc, malloc_all,
}

-- The blocks lie one after the other between the two addresses, each aligned as it was asked for and at
-- least to 64.
abbrev pub Laid : ℕ → ℕ → List (ℕ × Request) → Type 0
Laid start end [] = start ≤ end
Laid start end ((p, r) ∷ blocks) =
    (start ≤ p) × (p % get_alignment r.alignof ≡ 0) × Laid (p + r.size) end blocks

Laid-eq :
    (start start' end end' : ℕ) (blocks : List (ℕ × Request))
    → start ≡ start'
    → end ≡ end'
    → Laid start end blocks
    → Laid start' end' blocks
Laid-eq start start' end end' blocks s e l = rw (← s, ← e) l

Laid-end :
    (start end end' : ℕ) (blocks : List (ℕ × Request))
    → end ≤ end'
    → Laid start end blocks
    → Laid start end' blocks
Laid-end start end end' [] le l = omega arith
Laid-end start end end' ((q, r) ∷ blocks) le (a, b, l) =
    (a, b, Laid-end (q + r.size) end end' blocks le l)

-- What one call does.
abbrev pub Mallocs : Request → Arena → Result → Type 0
Mallocs r m (returned p m') =
    (m.pool ≤ p)
    × (p % get_alignment r.alignof ≡ 0)
    × (m'.pool ≡ p + r.size)
    × (m'.pool + m'.left ≡ m.pool + m.left)
Mallocs r m (throws m') =
    (m'.pool ≡ m.pool)
    × (m'.left ≤ m.left)
    × (r.constructs ≡ true
        → (m' ≡ m)
          × ((q : ℕ) → m.pool ≤ q → q % get_alignment r.alignof ≡ 0 → m.pool + m.left < q + r.size))

module _ (align : ℕ → ℕ → ℕ → ℕ → Option (ℕ × ℕ)) (spec : Aligns align) where
  -- A call of `malloc` on an arena whose space a `size_t` holds returns a block of the space that is left,
  -- at or after the place it has come to and aligned to 64 and to its type, and goes on behind it with
  -- nothing lost; it throws for lack of room only if no such block fits, and then changes nothing.
  pub malloc_lem : (r : Request) (m : Arena) → m.left < 2 ^ 64 → Mallocs r m (malloc align r m)
  unfolding malloc
  malloc_lem r m lt = by_answer (align (get_alignment r.alignof) r.size m.pool m.left) refl
    where
      positive : 0 < get_alignment r.alignof
      positive = ground arith

      by_answer :
          (o : Option (ℕ × ℕ))
          → align (get_alignment r.alignof) r.size m.pool m.left ≡ o
          → Mallocs r m (malloc align r m)
      by_answer none e =
          let stays : malloc align r m ≡ throws m = ground (arith, e) in
          rw stays (
            refl,
            omega arith,
            λ c. (
              refl,
              λ q l a. elim (dec_lt (m.pool + m.left) (q + r.size)) [
                | yes g ↦ g
                | no n ↦ absurd (
                    spec.full (get_alignment r.alignof) r.size m.pool m.left q positive e l a
                      (omega arith))
              ],
            ),
          )
      by_answer (some (p, rest)) e =
          let (le, al, sum, fit) =
            spec.fits (get_alignment r.alignof) r.size m.pool m.left p rest positive e in
          let exact : (rest + 2 ^ 64 - r.size) % 2 ^ 64 ≡ rest - r.size = omega arith in
          elim (Bool-cases r.constructs) [
            | inl c ↦
                let goes : malloc align r m
                    ≡ returned p (record {
                      pool = p + r.size;
                      left = (rest + 2 ^ 64 - r.size) % 2 ^ 64;
                      base = m.base;
                    }) =
                  ground (arith, e, c) in
                rw goes (le, al, refl, omega (arith, exact))
            | inr c ↦
                let goes : malloc align r m ≡ throws (record m { left = rest }) =
                  ground (arith, e, c) in
                rw goes (refl, omega arith, λ c'. absurd (cc))
          ]

  -- The first call, given where the later ones lie.
  first_call :
      (r : Request) (rs : List Request) (m : Arena) (o : Result)
      → m.left < 2 ^ 64
      → ((m' : Arena)
          → m'.left < 2 ^ 64
          → Laid m'.pool (m'.pool + m'.left) (malloc_all align rs m').0)
      → malloc align r m ≡ o
      → Mallocs r m o
      → Laid m.pool (m.pool + m.left) (malloc_all align (r ∷ rs) m).0
  unfolding malloc_all
  first_call r rs m (returned q m') lt later e (le, al, at, sum) =
      let more = later m' (omega (arith, at, sum)) in
      let blocks : (malloc_all align (r ∷ rs) m).0 ≡ (q, r) ∷ (malloc_all align rs m').0 =
        ground (arith, e) in
      rw blocks (
        le,
        al,
        Laid-eq m'.pool (q + r.size) (m'.pool + m'.left) (m.pool + m.left)
            (malloc_all align rs m').0 at sum more,
      )
  first_call r rs m (throws m') lt later e (at, le, _) =
      let more = later m' (omega arith) in
      let blocks : (malloc_all align (r ∷ rs) m).0 ≡ (malloc_all align rs m').0 =
        ground (arith, e) in
      rw blocks (
        Laid-end m.pool (m'.pool + m'.left) (m.pool + m.left) (malloc_all align rs m').0
          (omega (arith, at))
          (Laid-eq m'.pool m.pool (m'.pool + m'.left) (m'.pool + m'.left) (malloc_all align rs m').0
            at refl more))

  laid :
      (rs : List Request) (m : Arena)
      → m.left < 2 ^ 64
      → Laid m.pool (m.pool + m.left) (malloc_all align rs m).0
  unfolding malloc_all
  laid [] m lt = omega arith
  laid (r ∷ rs) m lt =
      first_call r rs m (malloc align r m) lt (λ m' l. laid rs m' l) refl (malloc_lem r m lt)

  -- Every block that the arena hands out lies within its buffer, is aligned to 64 and to its type, and
  -- overlaps no other, whatever is asked for, and whatever throws in between; the buffer is smaller than
  -- a `size_t` counts.
  pub arena_blocks :
      (rs : List Request) (max_bytes p : ℕ)
      → max_bytes < 2 ^ 64
      → Laid p (p + max_bytes) (malloc_all align rs (create max_bytes p)).0
  arena_blocks rs max_bytes p lt = laid rs (create max_bytes p) lt
