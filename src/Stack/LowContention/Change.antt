-- ===== src/Stack/LowContention/Change.antt =====
-- stack_lockfree.cpp, namespace `low_contention`: what a move of one thread must show to keep the
-- invariant.
use modern_cpp_ds.Common.{
  ℕ, ◌+◌, ◌<◌, ◌≡◌, ◌≢◌, refl, sym, ◌∙◌, Option, none, some, List, [], ◌∷◌, ◌++◌, length, arith,
  ite, ℕ_discrete,
}
use modern_cpp_ds.Common.Counts.{count, count-append}
use modern_cpp_ds.Stack.{null, Node, Heap}
use modern_cpp_ds.Stack.Chain.{Cells, Chain}
use modern_cpp_ds.Stack.LowContention.{
  Pc, popping, exchanged, deleting, walking, linking, chaining, fault, Shared, update,
}
use modern_cpp_ds.Stack.LowContention.Inv.{
  Place, nowhere, stacked, pending, held, claimed, is_stacked, is_pending, is_held, is_claimed,
  Seeable, seen, counted, Owns, addresses, Leads, Local, Inv,
}

-- What a move of thread `i` may do to one address.
pub data Turn {T : Type 0} (i : ℕ)
    : Place → Option (Node T) → Place → Option (Node T) → Type 0 where
  still : {p : Place} {o : Option (Node T)} → Turn i p o p o
  made : {n : Node T} → Turn i nowhere none (claimed i) (some n)
  wrote_held : {n n' : Node T} → Turn i (held i) (some n) (held i) (some n')
  wrote_claimed : {n n' : Node T} → Turn i (claimed i) (some n) (claimed i) (some n')
  pushed : {o : Option (Node T)} → Turn i (claimed i) o stacked o
  popped : {o : Option (Node T)} → Turn i stacked o (held i) o
  took : {o : Option (Node T)} → Turn i pending o (held i) o
  gave : {o : Option (Node T)} → Turn i (held i) o pending o
  claims : {o : Option (Node T)} → Turn i (held i) o (claimed i) o
  freed : {n : Node T} → Turn i (claimed i) (some n) nowhere none

module _ {T : Type 0} {i : ℕ} where
  turn_gone :
      {p p' : Place} {o o' : Option (Node T)}
      → Turn i p o p' o'
      → (p ≡ nowhere → o ≡ none)
      → p' ≡ nowhere
      → o' ≡ none
  turn_gone still g e = g e
  turn_gone freed g e = refl
  turn_gone _ g e = cc

  turn_there :
      {p p' : Place} {o o' : Option (Node T)}
      → Turn i p o p' o'
      → (o ≡ none → p ≡ nowhere)
      → o' ≡ none
      → p' ≡ nowhere
  turn_there still g e = g e
  turn_there freed g e = refl
  turn_there pushed g e = absurd (cc (g e))
  turn_there popped g e = absurd (cc (g e))
  turn_there took g e = absurd (cc (g e))
  turn_there gave g e = absurd (cc (g e))
  turn_there claims g e = absurd (cc (g e))
  turn_there _ g e = cc

  -- The nodes of another thread are left alone.
  turn_others :
      {p p' : Place} {o o' : Option (Node T)} (j : ℕ)
      → Turn i p o p' o'
      → i ≢ j
      → (is_held j p' ≡ is_held j p) × (is_claimed j p' ≡ is_claimed j p)
  turn_others j still ne = (refl, refl)
  turn_others j _ ne = ground arith

  turn_same :
      {p p' : Place} {o o' : Option (Node T)} (j : ℕ)
      → Turn i p o p' o'
      → i ≢ j
      → 0 < is_held j p + is_claimed j p
      → o' ≡ o
  turn_same j made ne h = ground arith
  turn_same j wrote_held ne h = ground arith
  turn_same j wrote_claimed ne h = ground arith
  turn_same j freed ne h = ground arith
  turn_same j _ ne h = refl

  -- What a thread may read and is in the stack was there already, and unchanged.
  turn_stays :
      {p p' : Place} {o o' : Option (Node T)}
      → Turn i p o p' o'
      → Seeable p
      → p' ≡ stacked
      → (p ≡ stacked) × (o' ≡ o)
  turn_stays still s e = (e, refl)
  turn_stays pushed s e = absurd s
  turn_stays _ s e = cc

Owns-Kept :
    (j : ℕ) (place place' : ℕ → Place) (hs ks : List ℕ)
    → ((a : ℕ)
        → (is_held j (place' a) ≡ is_held j (place a))
          × (is_claimed j (place' a) ≡ is_claimed j (place a)))
    → Owns j place hs ks
    → Owns j place' hs ks
Owns-Kept j place place' hs ks k o a = ((o a).0 ∙ sym (k a).0, (o a).1 ∙ sym (k a).1)

module _ {T : Type 0} where
  pub Leads-Kept :
      (h h' : Heap T) (p : ℕ) (xs : List ℕ) (q : ℕ)
      → ((a : ℕ) → 0 < count a xs → h' a ≡ h a)
      → Leads h p xs q
      → Leads h' p xs q
  unfolding count
  Leads-Kept h h' p [] q k e = e
  Leads-Kept h h' p (a ∷ xs) q k (e, (d, next, f, rest)) = (
    e,
    (d, next, k a (ground arith) ∙ f, Leads-Kept h h' next xs q (λ b l. k b (ground arith)) rest),
  )

  Local-Kept :
      (j : ℕ) (c : Pc) (place place' : ℕ → Place) (h h' : Heap T)
      → ((a : ℕ)
          → (is_held j (place' a) ≡ is_held j (place a))
            × (is_claimed j (place' a) ≡ is_claimed j (place a)))
      → ((a : ℕ) → 0 < is_held j (place a) + is_claimed j (place a) → h' a ≡ h a)
      → ((a : ℕ) → seen c ≡ some a → place' a ≡ stacked → (place a ≡ stacked) × (h' a ≡ h a))
      → Local j c place h
      → Local j c place' h'
  unfolding count
  Local-Kept j (popping old next) place place' h h' k s st (o, nz, l) = (
    Owns-Kept j place place' [] [] k o,
    nz,
    λ e. let t = st old refl e in let (d, f) = l t.0 in (d, t.1 ∙ f),
  )
  Local-Kept j (exchanged nodes old) place place' h h' k s st (xs, path, o) = (
    xs,
    Leads-Kept h h' nodes xs null (λ a l. s a (omega (arith, (o a).0))) path,
    Owns-Kept j place place' xs (old ∷ []) k o,
  )
  Local-Kept j (deleting list old) place place' h h' k s st (xs, path, o) = (
    xs,
    Leads-Kept h h' list xs null (λ a l. s a (ground (arith, (o a).1))) path,
    Owns-Kept j place place' [] (old ∷ xs) k o,
  )
  Local-Kept j (walking first list old) place place' h h' k s st (xs, ys, px, py, nz, o) = (
    xs,
    ys,
    Leads-Kept h h' first xs list (λ a l. s a (omega (arith, (o a).0, count-append a xs ys))) px,
    Leads-Kept h h' list ys null (λ a l. s a (omega (arith, (o a).0, count-append a xs ys))) py,
    nz,
    Owns-Kept j place place' (xs ++ ys) (old ∷ []) k o,
  )
  Local-Kept j (linking first last after) place place' h h' k s st (xs, px, o) = (
    xs,
    Leads-Kept h h' first xs last
        (λ a l. s a (omega (arith, (o a).0, count-append a xs (last ∷ [])))) px,
    Owns-Kept j place place' (xs ++ (last ∷ [])) _ k o,
  )
  Local-Kept j (chaining first last after) place place' h h' k s st (xs, px, o) = (
    xs,
    Leads-Kept h h' first xs last
        (λ a l. s a (omega (arith, (o a).0, count-append a xs (last ∷ [])))) px,
    Owns-Kept j place place' (xs ++ (last ∷ [])) _ k o,
  )
  Local-Kept j fault place place' h h' k s st o = o
  Local-Kept j _ place place' h h' k s st o = λ a. ((o a).0 ∙ sym (k a).0, (o a).1 ∙ sym (k a).1)

module _ {T : Type 0} (i : ℕ) (place : ℕ → Place) (inside : List ℕ) (m : Shared T)
    (pc : ℕ → Pc) where
  -- Thread `i` goes to `c`, and the memory becomes `m'`.
  pub record Change (cs : Cells T) (inside' ps : List ℕ) (place' : ℕ → Place) (m' : Shared T)
      (c : Pc) : Type 0 where
    pub chain : Chain m'.heap m'.head cs
    pub in_stack : (a : ℕ) → count a (addresses cs) ≡ is_stacked (place' a)
    pub pending_list : Leads m'.heap m'.to_be_deleted ps null
    pub in_list : (a : ℕ) → count a ps ≡ is_pending (place' a)
    pub counter : m'.threads_in_pop ≡ length inside'
    pub my_count : count i inside' ≡ counted c
    pub counts : (j : ℕ) → i ≢ j → count j inside' ≡ count j inside
    pub no_null : place' null ≡ nowhere
    pub turn : (a : ℕ) → Turn i (place a) (m.heap a) (place' a) (m'.heap a)
    pub self : Local i c place' m'.heap
    pub my_seen : (a : ℕ) → seen c ≡ some a → Seeable (place' a)
    pub visible : (j a : ℕ) → i ≢ j → seen (pc j) ≡ some a → Seeable (place a) → Seeable (place' a)

  pub Change-Inv :
      (cs cs' : Cells T) (inside' ps ps' : List ℕ) (place' : ℕ → Place) (m' : Shared T) (c : Pc)
      → Inv cs inside ps place m pc
      → Change cs' inside' ps' place' m' c
      → Inv cs' inside' ps' place' m' (update pc i c)
  Change-Inv cs cs' inside' ps ps' place' m' c v x = record {
    chain = x.chain;
    in_stack = x.in_stack;
    pending_list = x.pending_list;
    in_list = x.in_list;
    counter = x.counter;
    counts = λ j. counts j (ℕ_discrete i j);
    no_null = x.no_null;
    gone = λ a. turn_gone (x.turn a) (v.gone a);
    there = λ a. turn_there (x.turn a) (v.there a);
    locals = λ j. local j (ℕ_discrete i j);
    visible = λ j a. visible j a (ℕ_discrete i j);
  }
    where
      counts : (j : ℕ) (d : Dec (i ≡ j)) → count j inside' ≡ counted (ite d c (pc j))
      counts j (yes e) = rw (← e) x.my_count
      counts j (no ne) = x.counts j ne ∙ v.counts j

      local : (j : ℕ) (d : Dec (i ≡ j)) → Local j (ite d c (pc j)) place' m'.heap
      local j (yes e) = rw (← e) x.self
      local j (no ne) =
          Local-Kept j (pc j) place place' m.heap m'.heap (λ a. turn_others j (x.turn a) ne)
            (λ a. turn_same j (x.turn a) ne) (λ a s. turn_stays (x.turn a) (v.visible j a s))
            (v.locals j)

      visible : (j a : ℕ) (d : Dec (i ≡ j)) → seen (ite d c (pc j)) ≡ some a → Seeable (place' a)
      visible j a (yes e) s = x.my_seen a s
      visible j a (no ne) s = x.visible j a ne s (v.visible j a s)
