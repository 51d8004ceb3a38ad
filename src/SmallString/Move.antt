-- ===== src/SmallString/Move.antt =====
-- dsa_from_scratch/data_structures/string.cpp: what the move constructor leaves on both sides.
use modern_cpp_ds.Common.{
  ℕ, zero, suc, ◌<◌, ◌≤◌, ◌≡◌, refl, sym, ◌∙◌, inl, inr, none, some, [], ◌∷◌, ◌++◌, get_elem?,
  length, replicate, take, drop, arith,
}
use modern_cpp_ds.SmallString.{Slots, sso_len, null, sbuf, hbuf, Str, Heap, copy, move}
use modern_cpp_ds.SmallString.Arrays.{memcpy_lem, memcpy_outside}
use modern_cpp_ds.SmallString.Text.{Holds}

get-take :
    (xs ys : Slots) (n i : ℕ)
    → i < n
    → i < length xs
    → get_elem? (take n xs ++ ys) i ≡ get_elem? xs i
get-take xs ys zero i l h = absurd (omega arith)
get-take [] ys (suc n) i l h = absurd (omega arith)
get-take (x ∷ xs) ys (suc n) zero l h = refl
get-take (x ∷ xs) ys (suc n) (suc i) l h = get-take xs ys n i (omega arith) (omega arith)

get-rest :
    (xs : Slots) (n m i : ℕ)
    → n ≤ i
    → i < m
    → n ≤ length xs
    → get_elem? (take n xs ++ drop n (replicate m none)) i ≡ some none
get-rest xs zero zero i l h f = absurd (omega arith)
get-rest xs zero (suc m) zero l h f = refl
get-rest xs zero (suc m) (suc i) l h f =
    get-rest xs zero m i (omega arith) (omega arith) (omega arith)
get-rest xs (suc n) zero i l h f = absurd (omega arith)
get-rest xs (suc n) (suc m) zero l h f = absurd (omega arith)
get-rest [] (suc n) (suc m) (suc i) l h f = absurd (omega arith)
get-rest (x ∷ xs) (suc n) (suc m) (suc i) l h f =
    get-rest xs n m i (omega arith) (omega arith) (omega arith)

get-text :
    (xs text : Slots) (n i : ℕ) → take n xs ≡ text → i < n → get_elem? text i ≡ get_elem? xs i
get-text xs text n i e l = rw (← e) (taken xs n i l)
  where
    taken : (ys : Slots) (m j : ℕ) → j < m → get_elem? (take m ys) j ≡ get_elem? ys j
    taken ys zero j h = absurd (omega arith)
    taken [] (suc m) j h = refl
    taken (y ∷ ys) (suc m) zero h = refl
    taken (y ∷ ys) (suc m) (suc j) h = taken ys m j (omega arith)

-- Moving a string that keeps its characters in the heap hands the array over; the old object keeps its
-- length and counts as a short string, so that copying it is undefined.
pub move_long :
    (h : Heap) (s : Str) (text : Slots) (junk p : ℕ)
    → Holds h s text
    → sso_len < s.len
    → (t : Str) × (old : Str) × (move s junk ≡ some (t, old))
      × Holds h t text
      × (old.len ≡ s.len)
      × (copy old p h ≡ none)
unfolding move copy
move_long h s text junk p x lt = elim x.place [
  | inl (c, l, _) ↦ absurd (omega arith)
  | inr (c, l, (q, at, f)) ↦ (
    record { buffer = s.buffer; len = s.len; cap = s.cap },
    record { buffer = hbuf null; len = s.len; cap = 0 },
    ground arith,
    record { size = x.size; place = inr (c, l, (q, at, f)) },
    refl,
    refl,
  )
]

-- Moving a string that keeps its characters in its own buffer copies as many of them as the unwritten
-- `len_` of the new object happens to say: those are right, the others are not written at all, and with
-- more than the buffer has room for the constructor is undefined.
pub move_short :
    (h : Heap) (s : Str) (text : Slots) (junk : ℕ)
    → Holds h s text
    → s.len ≤ sso_len
    → (junk ≤ sso_len
        → (t : Str) × (b : Slots) × (move s junk ≡ some (t, s))
          × (t.buffer ≡ sbuf b)
          × (t.len ≡ s.len)
          × ((i : ℕ)
              → i < s.len
              → (i < junk → get_elem? b i ≡ get_elem? text i)
                × (junk ≤ i → get_elem? b i ≡ some none)))
      × (sso_len < junk → move s junk ≡ none)
unfolding move
move_short h s text junk x le = elim x.place [
  | inr (c, l, _) ↦ absurd (omega arith)
  | inl (c, l, (b, at, size, chars)) ↦ (
    λ fits.
        let written = take junk b ++ drop junk (replicate sso_len none) in
        let copied = memcpy_lem (replicate sso_len none) b junk fits (omega (arith, size)) in
        (
          record { buffer = sbuf written; len = s.len; cap = sso_len },
          written,
          ground (arith, copied),
          refl,
          refl,
          λ i li. (
            λ lj.
                get-take b (drop junk (replicate sso_len none)) junk i lj (omega (arith, size))
                ∙ sym (get-text b text s.len i chars li),
            λ lj. get-rest b junk sso_len i lj (omega arith) (omega (arith, size)),
          ),
        ),
    λ gt.
        let fails = memcpy_outside (replicate sso_len none) b junk (inl gt) in
        ground (arith, fails),
  )
]
