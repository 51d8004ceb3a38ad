-- ===== src/Spsc/Destroy.antt =====
-- spsc_lockfree.cpp: the destructor.
use modern_cpp_ds.Common.{
  ℕ, zero, suc, ◌+◌, ◌-◌, ◌%◌, ◌^◌, ◌≤◌, ◌<◌, ◌≡◌, ◌≢◌, none, some, arith, ℕ_discrete,
}
use modern_cpp_ds.Spsc.{PushPc, PopPc, Queue, capacity, size_t, write, destroy}
use modern_cpp_ds.Spsc.Inv.{Inv, Pushing, sent_bound}

module _ {T : Type 0} where
  -- What the loop of `~SPSC` keeps: outside the window from `head` to `tail` all memory is raw.
  record Window (q : Queue T) : Type 0 where
    ordered : q.head ≤ q.tail
    room : q.tail ≤ q.head + capacity
    small : q.tail < 2 ^ 64
    raw : (i : ℕ) → q.tail ≤ i → i < q.head + capacity → q.ring (i % capacity) ≡ none

  all_raw : (q : Queue T) → Window q → q.tail ≡ q.head → (j : ℕ) → j < capacity → q.ring j ≡ none
  all_raw q w e j h =
      let i = q.tail + (j + capacity - q.tail % capacity) % capacity in
      let slot : j ≡ i % capacity = omega arith in rw slot (w.raw i (omega arith) (omega arith))

  abbrev drop_head : Queue T → Queue T
  drop_head q = record q {
    ring = write q.ring (q.head % capacity) none;
    head = size_t (q.head + 1);
  }

  drop_head-Window : (q : Queue T) → Window q → q.tail ≢ q.head → Window (drop_head q)
  drop_head-Window q w more =
      let next : size_t (q.head + 1) ≡ q.head + 1 = omega (arith, w.ordered, w.small) in
      record {
        ordered = omega (arith, w.ordered);
        room = omega (arith, w.room);
        small = w.small;
        raw = λ i a b. ground (arith, w.raw i);
      }

  destroy_loop :
      (fuel : ℕ) (q : Queue T)
      → Window q
      → q.tail < q.head + fuel
      → (q' : Queue T) × (destroy fuel q ≡ some q') × ((j : ℕ) → j < capacity → q'.ring j ≡ none)
  unfolding destroy
  destroy_loop zero q w h = absurd (omega (arith, w.ordered))
  destroy_loop (suc fuel) q w h = elim (ℕ_discrete q.tail q.head) [
    | yes e ↦ (q, ground arith, all_raw q w e)
    | no more ↦
        let rest =
          destroy_loop fuel (drop_head q) (drop_head-Window q w more)
            (omega (arith, w.ordered, w.small)) in
        (rest.0, ground (arith, rest.1), rest.2)
  ]

  -- The destructor of a queue that no thread uses ends within 1025 rounds, and leaves no object
  -- undestroyed in the ring.
  pub spsc_destroy_lem :
      (n : ℕ) (q : Queue T)
      → n < 2 ^ 64
      → Inv n q
      → q.producer ≡ PushPc.idle
      → q.consumer ≡ PopPc.idle
      → (q' : Queue T) × (destroy 1025 q ≡ some q') × ((j : ℕ) → j < capacity → q'.ring j ≡ none)
  spsc_destroy_lem n q small v p c =
      destroy_loop 1025 q
        (record {
          ordered = v.ordered.0;
          room = omega (arith, v.room, sent_bound v);
          small = omega (arith, v.bound, sent_bound v);
          raw = λ i a b. v.raw i (omega (arith, idle_tail q.producer p v.pushing)) b;
        })
        (omega (arith, v.room, sent_bound v))
    where
      idle_tail : (pc : PushPc T) → pc ≡ PushPc.idle → Pushing pc q → q.tail ≡ q.sent
      idle_tail PushPc.idle e f = f
      idle_tail (PushPc.got_tail _ _) e f = cc
      idle_tail (PushPc.got_head _ _ _) e f = cc
      idle_tail (PushPc.constructed _) e f = cc
