-- ===== src/SmallString.antt =====
-- dsa_from_scratch/data_structures/string.cpp: the string with a buffer of its own for short contents.
-- A character is a number; a slot of a buffer that was never written is none.
mod Arrays
mod Text
mod Move
mod Tests
use modern_cpp_ds.Common.{
  ℕ, zero, suc, Bool, true, false, Option, none, some, List, [], ◌∷◌, map, ◌==◌, leb, if◌then◌else◌,
  replicate, ◌+◌,
}

abbrev pub Slots : Type 0
Slots = List (Option ℕ)

-- `SSO_LEN`
abbrev pub sso_len : ℕ
sso_len = 15

abbrev pub null : ℕ
null = 0

-- `union str`, with its active member.
pub data Buffer : Type 0 where
  sbuf : Slots → Buffer
  hbuf : ℕ → Buffer

pub record Str : Type 0 where
  pub buffer : Buffer
  pub len : ℕ
  pub cap : ℕ

-- The arrays that `new char[n]` has made.
abbrev pub Heap : Type 0
Heap = ℕ → Option Slots

abbrev pub store : Heap → ℕ → Slots → Heap
store h p b a = if p == a then some b else h a

-- The loop that looks for the terminating zero; none where it leaves the array.
unfoldable pub str_len : List ℕ → Option ℕ
str_len [] = none
str_len (c ∷ obj) =
    let rest = str_len obj in
    if c == 0 then some 0 else elim rest [ some len ↦ some (suc len) | none ↦ none ]

-- `std::memcpy(dst, src, n)`; none where it leaves one of the two arrays.
unfoldable pub memcpy : Slots → Slots → ℕ → Option Slots
memcpy dst src zero = some dst
memcpy (d ∷ dst) (s ∷ src) (suc n) =
    let rest = memcpy dst src n in elim rest [ some b ↦ some (s ∷ b) | none ↦ none ]
memcpy _ _ (suc n) = none

abbrev pub is_sso : Str → Bool
is_sso s = leb s.cap sso_len

-- `string()`
abbrev pub empty : Str
empty = record { buffer = sbuf (replicate sso_len (some 0)); len = 0; cap = 0 }

-- A buffer of the string's own, filled from `src`.
abbrev pub small : Heap → Slots → ℕ → Option (Heap × Str)
small h src len = elim (memcpy (replicate sso_len none) src len) [
  | some b ↦ some (h, record { buffer = sbuf b; len = len; cap = sso_len })
  | none ↦ none
]

-- `new char[len]`, which returns `p`, filled from `src`.
abbrev pub large : Heap → ℕ → Slots → ℕ → Option (Heap × Str)
large h p src len = elim (memcpy (replicate len none) src len) [
  | some b ↦ some (store h p b, record { buffer = hbuf p; len = len; cap = len })
  | none ↦ none
]

-- `string(const char *)`
unfoldable pub create : List ℕ → ℕ → Heap → Option (Heap × Str)
unfolding str_len
create obj p h = elim (str_len obj) [
  | some len ↦ if leb len sso_len then small h (map some obj) len else large h p (map some obj) len
  | none ↦ none
]

-- The array of a string that keeps its characters in its own buffer.
abbrev pub short : Buffer → Option Slots
short (sbuf b) = some b
short (hbuf _) = none

-- The array of a string that keeps its characters in the heap.
abbrev pub long : Heap → Buffer → Option Slots
long h (sbuf _) = none
long h (hbuf p) = h p

-- `string(const string &)`
unfoldable pub copy : Str → ℕ → Heap → Option (Heap × Str)
copy other p h =
    if is_sso other
    then elim (short other.buffer) [ some src ↦ small h src other.len | none ↦ none ]
    else elim (long h other.buffer) [ some src ↦ large h p src other.len | none ↦ none ]

-- `string(string &&)`, with what it leaves of `other`; `junk` is what the new `len_`, which nothing has
-- written, happens to hold.
unfoldable pub move : Str → ℕ → Option (Str × Str)
move other junk =
    if is_sso other
    then elim (short other.buffer) [
      | some src ↦ elim (memcpy (replicate sso_len none) src junk) [
        | some b ↦ some (record { buffer = sbuf b; len = other.len; cap = sso_len }, other)
        | none ↦ none
      ]
      | none ↦ none
    ]
    else some (
      record { buffer = other.buffer; len = other.len; cap = other.cap },
      record { buffer = hbuf null; len = other.len; cap = 0 },
    )
