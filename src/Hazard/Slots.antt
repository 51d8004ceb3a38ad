-- ===== src/Hazard/Slots.antt =====
-- stack_lockfree.cpp, `hazard_ptr`: the slots of the threads.
use modern_cpp_ds.Common.{
  Bool-cases, inl, inr, ◌⊎◌, ap, ℕ, zero, suc, ◌≡◌, ◌≢◌, refl, true, some, List, [], ◌∷◌, arith,
  get_elem?, ap, ◌⊎◌, none, false, inr, Bool-cases,
}
use modern_cpp_ds.Hazard.{
  HazardPointer, publish, outstanding, acquire, free_id, give_up, is_free, null,
}

-- The slots of `after` are those of `table`, but for the one with index `i`, which is now `s`.
pub record Changed (table after : List HazardPointer) (i : ℕ) (s : HazardPointer) : Type 0 where
  pub here : get_elem? after i ≡ some s
  pub others : (j : ℕ) → j ≢ i → get_elem? after j ≡ get_elem? table j

change_later :
    (t s : HazardPointer) (table after : List HazardPointer) (i : ℕ)
    → Changed table after i s
    → Changed (t ∷ table) (t ∷ after) (suc i) s
change_later t s table after i c = record { here = c.here; others = others }
  where
    others : (j : ℕ) → j ≢ suc i → get_elem? (t ∷ after) j ≡ get_elem? (t ∷ table) j
    others zero ne = refl
    others (suc j) ne = c.others j (λ e. ne (ap suc e))

change_first :
    (t s : HazardPointer) (table : List HazardPointer) → Changed (t ∷ table) (s ∷ table) 0 s
change_first t s table = record { here = refl; others = others }
  where
    others : (j : ℕ) → j ≢ 0 → get_elem? (s ∷ table) j ≡ get_elem? (t ∷ table) j
    others zero ne = absurd (ne refl)
    others (suc j) ne = refl

-- What `hp_owner()` leaves when it finds a free slot.
pub record Acquired (me : ℕ) (table : List HazardPointer) : Type 0 where
  pub index : ℕ
  pub after : List HazardPointer
  pub before : HazardPointer
  pub returns : acquire me table ≡ some (index, after)
  pub was : get_elem? table index ≡ some before
  pub was_free : is_free before.id ≡ true
  pub changed : Changed table after index (record before { id = some me })

-- A thread gets a slot that no thread owned, and no other slot changes; it gets none only when every
-- slot of the table is owned.
pub acquire_lem :
    (me : ℕ) (table : List HazardPointer)
    → Acquired me table
      ⊎ ((acquire me table ≡ none)
          × ((j : ℕ) (s : HazardPointer) → get_elem? table j ≡ some s → is_free s.id ≡ false))
unfolding acquire
acquire_lem me [] = inr (refl, λ j s e. absurd (cc))
acquire_lem me (t ∷ rest) = elim (Bool-cases (is_free t.id)) [
  | inl free ↦ inl (record {
    index = 0;
    after = record t { id = some me } ∷ rest;
    before = t;
    returns = ground arith;
    was = refl;
    was_free = free;
    changed = change_first t (record t { id = some me }) rest;
  })
  | inr owned ↦ elim (acquire_lem me rest) [
    | inl got ↦ inl (record {
      index = suc got.index;
      after = t ∷ got.after;
      before = got.before;
      returns = ground (arith, got.returns);
      was = got.was;
      was_free = got.was_free;
      changed = change_later t _ rest got.after got.index got.changed;
    })
    | inr (nothing, all_owned) ↦ inr (ground (arith, nothing), owned_all t rest owned all_owned)
  ]
]
  where
    owned_all :
        (t : HazardPointer) (rest : List HazardPointer)
        → is_free t.id ≡ false
        → ((j : ℕ) (s : HazardPointer) → get_elem? rest j ≡ some s → is_free s.id ≡ false)
        → (j : ℕ) (s : HazardPointer) → get_elem? (t ∷ rest) j ≡ some s
        → is_free s.id ≡ false
    owned_all t rest o all zero s e = ground arith
    owned_all t rest o all (suc j) s e = all j s e

-- A thread that publishes a pointer in a slot of the table makes it outstanding, and no other slot
-- changes; its destructor makes the slot free again, and changes no other either.
pub publish_lem :
    (table : List HazardPointer) (i p : ℕ) (s : HazardPointer)
    → get_elem? table i ≡ some s
    → (outstanding p (publish i p table) ≡ true)
      × Changed table (publish i p table) i (record s { pointer = p })
      × Changed table (give_up i table) i (record { pointer = null; id = none })
unfolding publish outstanding free_id give_up
publish_lem [] i p s e = absurd (cc)
publish_lem (t ∷ rest) zero p s e =
    let same : t ≡ s = ground arith in
    (
      ground arith,
      rw same (change_first s (record s { pointer = p }) rest),
      change_first t (record { pointer = null; id = none }) rest,
    )
publish_lem (t ∷ rest) (suc i) p s e =
    let (found, stored, freed) = publish_lem rest i p s e in
    (ground arith, change_later t _ rest _ i stored, change_later t _ rest _ i freed)
