-- ===== src/Stack/LowContention/Places.antt =====
-- stack_lockfree.cpp, namespace `low_contention`: where the nodes are after a move.
use modern_cpp_ds.Common.{
  ℕ, ◌<◌, ◌≡◌, ◌≢◌, refl, Option, [], ◌∷◌, ◌==◌, false, if◌then◌else◌, arith, ℕ_discrete, true, ◌+◌,
}
use modern_cpp_ds.Common.Counts.{count}
use modern_cpp_ds.Stack.{Node, Heap}
use modern_cpp_ds.Stack.Chain.{Cells, has}
use modern_cpp_ds.Stack.LowContention.Inv.{
  Place, nowhere, stacked, pending, held, claimed, is_stacked, is_pending, is_held, is_claimed,
  Seeable, addresses,
}
use modern_cpp_ds.Stack.LowContention.Change.{Turn, still, took, gave, claims}

pub ==_self : (a : ℕ) → (a == a) ≡ true
==_self a = ground arith

pub ==_other : (a b : ℕ) → a ≢ b → (a == b) ≡ false
==_other a b ne = ground arith

pub stacked_of : (p : Place) → 0 < is_stacked p → p ≡ stacked
stacked_of stacked h = refl
stacked_of _ h = absurd (omega arith)

pub pending_of : (p : Place) → 0 < is_pending p → p ≡ pending
pending_of pending h = refl
pending_of _ h = absurd (omega arith)

pub held_of : (i : ℕ) (p : Place) → 0 < is_held i p → p ≡ held i
held_of i (held j) h = ground arith
held_of i _ h = absurd (omega arith)

pub claimed_of : (i : ℕ) (p : Place) → 0 < is_claimed i p → p ≡ claimed i
claimed_of i (claimed j) h = ground arith
claimed_of i _ h = absurd (omega arith)

-- One address has a new place.
abbrev pub put : (ℕ → Place) → ℕ → Place → ℕ → Place
put place a p b = if a == b then p else place b

-- The list of nodes to be deleted becomes the thread's.
abbrev pub take_all : ℕ → Place → Place
take_all i pending = held i
take_all i p = p

-- The thread claims what it holds.
abbrev pub claim_all : ℕ → Place → Place
claim_all i (held j) = if i == j then claimed i else held j
claim_all i p = p

-- What the thread holds is on the list of nodes to be deleted.
abbrev pub give_all : ℕ → Place → Place
give_all i (held j) = if i == j then pending else held j
give_all i p = p

pub take_all_lem :
    (i : ℕ) (p : Place)
    → (is_stacked (take_all i p) ≡ is_stacked p)
      × (is_pending (take_all i p) ≡ 0)
      × (is_held i (take_all i p) ≡ is_held i p + is_pending p)
      × (is_claimed i (take_all i p) ≡ is_claimed i p)
take_all_lem i p = ground arith

pub claim_all_lem :
    (i : ℕ) (p : Place)
    → (is_stacked (claim_all i p) ≡ is_stacked p)
      × (is_pending (claim_all i p) ≡ is_pending p)
      × (is_held i (claim_all i p) ≡ 0)
      × (is_claimed i (claim_all i p) ≡ is_claimed i p + is_held i p)
claim_all_lem i p = ground arith

pub give_all_lem :
    (i : ℕ) (p : Place)
    → (is_stacked (give_all i p) ≡ is_stacked p)
      × (is_pending (give_all i p) ≡ is_pending p + is_held i p)
      × (is_held i (give_all i p) ≡ 0)
      × (is_claimed i (give_all i p) ≡ is_claimed i p)
give_all_lem i p = ground arith

pub Seeable-take_all : (i : ℕ) (p : Place) → Seeable p → Seeable (take_all i p)
Seeable-take_all i pending l = tt
Seeable-take_all i stacked l = l
Seeable-take_all i (held j) l = l
Seeable-take_all i nowhere l = l
Seeable-take_all i (claimed j) l = l

pub Seeable-give_all : (i : ℕ) (p : Place) → Seeable p → Seeable (give_all i p)
Seeable-give_all i (held j) l = elim (ℕ_discrete i j) [
  | yes e ↦ rw (← e, ==_self i) tt
  | no ne ↦ rw (==_other i j ne) tt
]
Seeable-give_all i pending l = l
Seeable-give_all i stacked l = l
Seeable-give_all i nowhere l = l
Seeable-give_all i (claimed j) l = l

module _ {T : Type 0} (i : ℕ) (o : Option (Node T)) where
  pub turn-take_all : (p : Place) → Turn i p o (take_all i p) o
  turn-take_all pending = took
  turn-take_all nowhere = still
  turn-take_all stacked = still
  turn-take_all (held j) = still
  turn-take_all (claimed j) = still

  pub turn-claim_all : (p : Place) → Turn i p o (claim_all i p) o
  turn-claim_all (held j) = elim (ℕ_discrete i j) [
    | yes e ↦ rw (← e, ==_self i) claims
    | no ne ↦ rw (==_other i j ne) still
  ]
  turn-claim_all pending = still
  turn-claim_all nowhere = still
  turn-claim_all stacked = still
  turn-claim_all (claimed j) = still

  pub turn-give_all : (p : Place) → Turn i p o (give_all i p) o
  turn-give_all (held j) = elim (ℕ_discrete i j) [
    | yes e ↦ rw (← e, ==_self i) gave
    | no ne ↦ rw (==_other i j ne) still
  ]
  turn-give_all pending = still
  turn-give_all nowhere = still
  turn-give_all stacked = still
  turn-give_all (claimed j) = still

module _ {T : Type 0} where
  pub turn-put :
      (i : ℕ) (place : ℕ → Place) (a : ℕ) (p : Place) (h h' : Heap T)
      → Turn i (place a) (h a) p (h' a)
      → ((b : ℕ) → a ≢ b → h' b ≡ h b)
      → (b : ℕ) → Turn i (place b) (h b) (put place a p b) (h' b)
  turn-put i place a p h h' t k b = elim (ℕ_discrete a b) [
    | yes e ↦ rw (← e, ==_self a) t
    | no ne ↦ rw (==_other a b ne, k b ne) still
  ]

  pub unlisted : (a : ℕ) (cs : Cells T) → count a (addresses cs) ≡ 0 → has a cs ≡ false
  unfolding count
  unlisted a [] e = refl
  unlisted a ((b, x) ∷ cs) e = ground (arith, unlisted a cs)
