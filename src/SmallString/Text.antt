-- ===== src/SmallString/Text.antt =====
-- dsa_from_scratch/data_structures/string.cpp: the characters of a string.
use mathlib.Core.List.{map-append}
use modern_cpp_ds.Common.{
  length-append, length-map, map, tests, leb, leb→le, Option, Bool-cases, ℕ, ◌<◌, ◌≤◌, ◌≡◌, ◌≢◌,
  refl, ◌⊎◌, inl, inr, none, some, List, [], ◌∷◌, ◌++◌, length, take, drop, arith, ap, replicate,
  sym, ◌∙◌, Option, Bool-cases, leb, leb→le, tests,
}
use modern_cpp_ds.SmallString.{
  Slots, sso_len, sbuf, hbuf, Str, Heap, str_len, small, large, store, create, copy,
}
use modern_cpp_ds.SmallString.Arrays.{
  memcpy_lem, take_all, take-prefix, length-prefix, overwritten, filled,
}

abbrev pub NonZero : List ℕ → Type 0
NonZero [] = Unit {0}
NonZero (c ∷ cs) = (c ≢ 0) × NonZero cs

str_len_lem : (cs rest : List ℕ) → NonZero cs → str_len (cs ++ (0 ∷ rest)) ≡ some (length cs)
unfolding str_len
str_len_lem [] rest z = refl
str_len_lem (c ∷ cs) rest (ne, z) = let e = str_len_lem cs rest z in ground arith

-- The string holds these characters, in its own buffer if they are few and otherwise in an array of
-- exactly their length.
pub record Holds (h : Heap) (s : Str) (text : Slots) : Type 0 where
  pub size : s.len ≡ length text
  pub place :
      ((s.cap ≤ sso_len)
        × (s.len ≤ sso_len)
        × ((b : Slots) × (s.buffer ≡ sbuf b) × (length b ≡ sso_len) × (take s.len b ≡ text)))
      ⊎ ((s.cap ≡ s.len) × (sso_len < s.len) × ((p : ℕ) × (s.buffer ≡ hbuf p) × (h p ≡ some text)))

-- The string does not use this array.
abbrev pub Apart : ℕ → Str → Type 0
Apart p s = s.buffer ≢ hbuf p

small_lem :
    (h : Heap) (src text : Slots) (n : ℕ)
    → take n src ≡ text
    → n ≤ length src
    → n ≤ sso_len
    → (s : Str) × (small h src n ≡ some (h, s))
      × Holds h s text
      × ((b : Slots) × (s.buffer ≡ sbuf b))
small_lem h src text n e fits le =
    let b = take n src ++ drop n (replicate sso_len none) in
    let size = length-prefix n src text e fits in
    (
      record { buffer = sbuf b; len = n; cap = sso_len },
      rw (small, memcpy_lem (replicate sso_len none) src n le fits) refl,
      record {
        size = sym size;
        place = inl (
          omega arith,
          le,
          (
            b,
            refl,
            overwritten src n fits le,
            take-prefix n (take n src) (drop n (replicate sso_len none)) (ap length e ∙ size) ∙ e,
          ),
        );
      },
      (b, refl),
    )

large_lem :
    (h : Heap) (p : ℕ) (src text : Slots) (n : ℕ)
    → take n src ≡ text
    → n ≤ length src
    → sso_len < n
    → (s : Str) × (large h p src n ≡ some (store h p text, s))
      × Holds (store h p text) s text
      × (s.buffer ≡ hbuf p)
large_lem h p src text n e fits lt = (
  record { buffer = hbuf p; len = n; cap = n },
  rw (large, filled src text n e fits) refl,
  record {
    size = sym (length-prefix n src text e fits);
    place = inr (refl, lt, (p, refl, ground arith));
  },
  refl,
)

Holds-kept :
    (h h' : Heap) (text : Slots) (s : Str)
    → ((a : ℕ) → h a ≢ none → h' a ≡ h a)
    → Holds h s text
    → Holds h' s text
Holds-kept h h' text s k x = record {
  size = x.size;
  place = elim x.place [
    | inl o ↦ inl o
    | inr (c, l, (q, e, f)) ↦ inr (c, l, (q, e, k q (λ z. cc) ∙ f))
  ];
}

-- What a constructor that copies characters does: the new string holds them, whatever array was there is
-- still there, and an array of the new string's own was not there before.
pub record Makes (h h' : Heap) (s : Str) (text : Slots) : Type 0 where
  pub holds : Holds h' s text
  pub kept : (a : ℕ) → h a ≢ none → h' a ≡ h a
  pub own : (a : ℕ) → s.buffer ≡ hbuf a → h a ≡ none

small-Makes :
    (h : Heap) (src text : Slots) (n : ℕ)
    → take n src ≡ text
    → n ≤ length src
    → n ≤ sso_len
    → (h' : Heap) × (s : Str) × (small h src n ≡ some (h', s)) × Makes h h' s text
small-Makes h src text n e fits le =
    let (s, eq, x, (b, at)) = small_lem h src text n e fits le in
    (h, s, eq, record { holds = x; kept = λ a l. refl; own = λ a f. absurd (cc) })

large-Makes :
    (h : Heap) (p : ℕ) (src text : Slots) (n : ℕ)
    → take n src ≡ text
    → n ≤ length src
    → sso_len < n
    → h p ≡ none
    → (h' : Heap) × (s : Str) × (large h p src n ≡ some (h', s)) × Makes h h' s text
large-Makes h p src text n e fits lt free =
    let (s, eq, x, at) = large_lem h p src text n e fits lt in
    (
      store h p text,
      s,
      eq,
      record { holds = x; kept = λ a l. ground arith; own = λ a f. ground arith },
    )

-- `string(const char *)`, on an array with a terminating zero and given a free address, makes a string of
-- the characters before the first zero, however many, and touches no array that was there.
pub create_string_lem :
    (cs rest : List ℕ) (p : ℕ) (h : Heap)
    → NonZero cs
    → h p ≡ none
    → (h' : Heap) × (s : Str) × (create (cs ++ (0 ∷ rest)) p h ≡ some (h', s))
      × Makes h h' s (map some cs)
unfolding create
create_string_lem cs rest p h z free =
    let src : Slots = map some (cs ++ (0 ∷ rest)) in
    let chars : take (length cs) src ≡ map some cs =
      ap (take (length cs)) (map-append some cs (0 ∷ rest))
      ∙ take-prefix (length cs) (map some cs) (map some (0 ∷ rest)) (length-map cs some) in
    let fits : length cs ≤ length src =
      let a = length-append cs (0 ∷ rest) in
      let m = length-map {B = Option ℕ} (cs ++ (0 ∷ rest)) some in omega (arith, a, m) in
    elim (Bool-cases (leb (length cs) sso_len)) [
      | inl le ↦
          let (h', s, e, m) =
            small-Makes h src (map some cs) (length cs) chars fits
              (leb→le (length cs) sso_len le) in
          let found = str_len_lem cs rest z in (h', s, ground (arith, e, found), m)
      | inr gt ↦
          let (h', s, e, m) =
            large-Makes h p src (map some cs) (length cs) chars fits (grind (arith, tests)) free in
          let found = str_len_lem cs rest z in (h', s, ground (arith, e, found), m)
    ]

-- `string(const string &)`, given a free address, makes a string of the same characters, in an array of its
-- own if they are many; the source still holds them, and every array that was there is as it was.
pub copy_string_lem :
    (s : Str) (text : Slots) (p : ℕ) (h : Heap)
    → Holds h s text
    → h p ≡ none
    → (h' : Heap) × (t : Str) × (copy s p h ≡ some (h', t)) × Makes h h' t text × Holds h' s text
unfolding copy
copy_string_lem s text p h x free = elim x.place [
  | inl (c, l, (b, at, size, chars)) ↦
      let (h', t, e, m) = small-Makes h b text s.len chars (omega (arith, size)) l in
      (h', t, ground (arith, e), m, Holds-kept h h' text s m.kept x)
  | inr (c, l, (q, at, f)) ↦
      let n = x.size in
      let (h', t, e, m) =
        large-Makes h p text text s.len (take_all text s.len (omega (arith, n))) (omega (arith, n))
          l free in
      (h', t, ground (arith, e), m, Holds-kept h h' text s m.kept x)
]
