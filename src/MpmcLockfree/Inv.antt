-- ===== src/MpmcLockfree/Inv.antt =====
-- mpmc_lockfree.cpp: the invariant of the queue, and the five changes of the shared state.
use modern_cpp_ds.Common.{
  ℕ, suc, ◌+◌, ◌≤◌, ◌<◌, ◌≡◌, ◌≢◌, sym, ◌∙◌, ◌⊎◌, Option, some, arith, ite, ℕ_discrete, dec_lt,
  none,
}
use modern_cpp_ds.MpmcLockfree.{buffer_size, slot, Pc, Shared, update}
use modern_cpp_ds.MpmcLockfree.Frame.{
  slot_lem, fills, empties, Filling, Emptying, Local, claim, fill, publish, claim_out, give_back,
}

module _ {T : Type 0} where
  -- The positions between the counters have their datum or wait for it; those ahead are free, or wait
  -- for the consumer of the round before. `n` bounds the positions claimed.
  pub record Cells (n : ℕ) (m : Shared T) : Type 0 where
    pub bound : m.enqueue_pos ≤ n
    pub ordered : m.dequeue_pos ≤ m.enqueue_pos
    pub room : m.enqueue_pos ≤ m.dequeue_pos + buffer_size
    pub stored : (p : ℕ) → p < m.enqueue_pos → m.sent_at p ≢ none
    pub live :
        (p : ℕ)
        → m.dequeue_pos ≤ p
        → p < m.enqueue_pos
        → (m.sequence (slot p) ≡ p)
          ⊎ ((m.sequence (slot p) ≡ p + 1) × (m.datum (slot p) ≡ m.sent_at p))
    pub ahead :
        (p : ℕ)
        → m.enqueue_pos ≤ p
        → p < m.dequeue_pos + buffer_size
        → (m.sequence (slot p) ≡ p) ⊎ (m.sequence (slot p) + buffer_size ≡ p + 1)

  pub claim-Cells :
      (n p : ℕ) (d : T) (m : Shared T)
      → m.enqueue_pos ≡ p
      → m.sequence (slot p) ≡ p
      → Cells n m
      → Cells (suc n) (claim p d m)
  claim-Cells n p d m e s v = record {
    bound = omega (arith, v.bound);
    ordered = omega (arith, v.ordered);
    room = elim (dec_lt m.enqueue_pos (m.dequeue_pos + buffer_size)) [
      | yes lt ↦ omega arith
      | no full ↦
          absurd (ground (arith, v.room, v.live m.dequeue_pos, slot_lem p, slot_lem m.dequeue_pos))
    ];
    stored = λ q a z. ground (arith, v.stored q);
    live = λ q a b. ground (arith, v.live q);
    ahead = λ q a b. ground (arith, v.ahead q);
  }

  pub fill-Cells :
      (n p : ℕ) (d : T) (m : Shared T) → Filling p m → Cells n m → Cells (suc n) (fill p d m)
  fill-Cells n p d m f v = record {
    bound = omega (arith, v.bound);
    ordered = v.ordered;
    room = v.room;
    stored = v.stored;
    live = λ q a b. ground (arith, v.live q, v.room, slot_lem p, slot_lem q);
    ahead = v.ahead;
  }

  pub publish-Cells :
      (n p : ℕ) (m : Shared T)
      → Filling p m
      → m.datum (slot p) ≡ m.sent_at p
      → Cells n m
      → Cells (suc n) (publish p m)
  publish-Cells n p m f h v = record {
    bound = omega (arith, v.bound);
    ordered = v.ordered;
    room = v.room;
    stored = v.stored;
    live = λ q a b. ground (arith, v.live q, v.room, slot_lem p, slot_lem q);
    ahead = λ q a b. ground (arith, v.ahead q, v.room, slot_lem p, slot_lem q);
  }

  pub claim_out-Cells :
      (n p : ℕ) (m : Shared T)
      → m.dequeue_pos ≡ p
      → m.sequence (slot p) ≡ p + 1
      → Cells n m
      → Cells (suc n) (claim_out p m)
  claim_out-Cells n p m e s v = record {
    bound = omega (arith, v.bound);
    ordered = elim (dec_lt m.dequeue_pos m.enqueue_pos) [
      | yes lt ↦ omega arith
      | no all_out ↦ absurd (ground (arith, v.ordered, v.ahead p))
    ];
    room = omega (arith, v.room);
    stored = v.stored;
    live = λ q a b. v.live q (omega arith) b;
    ahead = λ q a b. ground (arith, v.ahead q, v.ordered, slot_lem p, slot_lem q);
  }

  pub give_back-Cells :
      (n p : ℕ) (m : Shared T) → Emptying p m → Cells n m → Cells (suc n) (give_back p m)
  give_back-Cells n p m f v = record {
    bound = omega (arith, v.bound);
    ordered = v.ordered;
    room = v.room;
    stored = v.stored;
    live = λ q a b. ground (arith, v.live q, v.room, slot_lem p, slot_lem q);
    ahead = λ q a b. ground (arith, v.ahead q, v.ordered, slot_lem p, slot_lem q);
  }

  pub same-Cells : (n : ℕ) (m : Shared T) → Cells n m → Cells (suc n) m
  same-Cells n m v = record {
    bound = omega (arith, v.bound);
    ordered = v.ordered;
    room = v.room;
    stored = v.stored;
    live = v.live;
    ahead = v.ahead;
  }

  -- No two threads are at the same position.
  abbrev pub Once : (Pc T → Option ℕ) → (ℕ → Pc T) → Type 0
  Once f pc = (j k p : ℕ) → f (pc j) ≡ some p → f (pc k) ≡ some p → j ≡ k

  pub record Inv (n : ℕ) (m : Shared T) (pc : ℕ → Pc T) : Type 0 where
    pub cells : Cells n m
    pub locals : (i : ℕ) → Local (pc i) m
    pub fills_once : Once fills pc
    pub empties_once : Once empties pc

  -- Nobody but thread `i` is at a position that `c` is at.
  abbrev pub Alone : (Pc T → Option ℕ) → (ℕ → Pc T) → ℕ → Pc T → Type 0
  Alone f pc i c = (p : ℕ) → f c ≡ some p → (j : ℕ) → i ≢ j → f (pc j) ≢ some p

  Once-update :
      (f : Pc T → Option ℕ) (pc : ℕ → Pc T) (i : ℕ) (c : Pc T)
      → Once f pc
      → Alone f pc i c
      → Once f (update pc i c)
  Once-update f pc i c o h j k p a b = pick (ℕ_discrete i j) (ℕ_discrete i k) a b
    where
      pick :
          (d : Dec (i ≡ j)) (e : Dec (i ≡ k))
          → f (ite d c (pc j)) ≡ some p
          → f (ite e c (pc k)) ≡ some p
          → j ≡ k
      pick (yes x) (yes y) a b = sym x ∙ y
      pick (yes x) (no y) a b = absurd (h p a k y b)
      pick (no x) (yes y) a b = absurd (h p b j x a)
      pick (no x) (no y) a b = o j k p a b

  -- The state after thread `i` has moved.
  pub moved-Inv :
      (n i : ℕ) (m m' : Shared T) (pc : ℕ → Pc T) (c : Pc T)
      → Inv n m pc
      → Cells (suc n) m'
      → Local c m'
      → ((j : ℕ) → i ≢ j → Local (pc j) m')
      → Alone fills pc i c
      → Alone empties pc i c
      → Inv (suc n) m' (update pc i c)
  moved-Inv n i m m' pc c v cells here others f e = record {
    cells = cells;
    locals = λ j. pick j (ℕ_discrete i j);
    fills_once = Once-update fills pc i c v.fills_once f;
    empties_once = Once-update empties pc i c v.empties_once e;
  }
    where
      pick : (j : ℕ) (d : Dec (i ≡ j)) → Local (ite d c (pc j)) m'
      pick j (yes x) = here
      pick j (no x) = others j x
