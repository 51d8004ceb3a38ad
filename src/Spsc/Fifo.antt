-- ===== src/Spsc/Fifo.antt =====
-- spsc_lockfree.cpp: first in, first out, under every interleaving; and either thread alone.
use modern_cpp_ds.Common.{
  ℕ, ◌+◌, ◌%◌, ◌^◌, ◌≤◌, ◌<◌, ◌≡◌, ◌≢◌, none, some, arith, List, [], ◌∷◌, length,
}
use modern_cpp_ds.Spsc.{
  PushPc, PopPc, Queue, Event, produce, consume, capacity, size_t, create, run,
}
use modern_cpp_ds.Spsc.Inv.{Inv, create-Inv, run-Inv, sent_bound, head-le-received}

module _ {T : Type 0} (moved_from : T → T) where
  pub reached :
      (es : List (Event T)) → length es < 2 ^ 64 → Inv (length es) (run moved_from es create)
  reached es small = run-Inv moved_from 0 (length es) es create (omega arith) small create-Inv

  -- In every schedule of fewer than 2 ^ 64 accesses, the values that `pop` has moved out are the
  -- first of the values that `push` has put in, in the same order: none is lost, made up, repeated
  -- or read from a raw slot.
  pub fifo :
      (es : List (Event T))
      → length es < 2 ^ 64
      → let q = run moved_from es create in
        (q.received ≤ q.sent)
        × ((i : ℕ) → i < q.received → (q.received_at i ≡ q.sent_at i) × (q.sent_at i ≢ none))
  fifo es small =
      let v = reached es small in
      let b = sent_bound v in (b.1, λ i h. (v.fifo i h, v.stored i (omega arith)))

  -- In every schedule of fewer than 2 ^ 64 accesses the ring holds each value that is pushed and
  -- not yet popped, in its own slot, there are at most 1024 of them, and every slot ahead of them
  -- is raw memory.
  pub contents_kept :
      (es : List (Event T))
      → length es < 2 ^ 64
      → let q = run moved_from es create in
        (q.sent ≤ q.received + capacity)
        × ((i : ℕ) → q.received ≤ i → i < q.sent → q.ring (i % capacity) ≡ q.sent_at i)
        × ((i : ℕ) → q.sent ≤ i → i < q.head + capacity → q.ring (i % capacity) ≡ none)
  contents_kept es small =
      let v = reached es small in (omega (arith, v.room, head-le-received v), v.live, v.raw)

  -- `push` alone: on a full ring three accesses find it full and change nothing; otherwise four
  -- accesses put the value behind the others.
  pub push_alone :
      (n : ℕ) (val : T) (q : Queue T)
      → n < 2 ^ 64
      → Inv n q
      → q.producer ≡ PushPc.idle
      → let p = produce val in
        let full = run moved_from (p ∷ p ∷ p ∷ []) q in
        let pushed = run moved_from (p ∷ p ∷ p ∷ p ∷ []) q in
        (q.tail ≡ q.head + capacity → full ≡ q)
        × (q.tail ≢ q.head + capacity
            → (pushed.tail ≡ size_t (q.tail + 1))
              × (pushed.ring (q.tail % capacity) ≡ some val)
              × (pushed.sent ≡ q.sent + 1)
              × (pushed.sent_at q.sent ≡ some val))
  unfolding run
  push_alone n val q small v e =
      (λ h. ground (arith, sent_bound v), λ h. ground (arith, sent_bound v))

  -- `pop` alone: on an empty ring three accesses find it empty and change nothing; otherwise five
  -- accesses deliver the oldest value and give its slot back.
  pub pop_alone :
      (n : ℕ) (q : Queue T)
      → n < 2 ^ 64
      → Inv n q
      → q.consumer ≡ PopPc.idle
      → let c = consume in
        let none_left = run moved_from (c ∷ c ∷ c ∷ []) q in
        let popped = run moved_from (c ∷ c ∷ c ∷ c ∷ c ∷ []) q in
        (q.head ≡ q.tail → none_left ≡ q)
        × (q.head ≢ q.tail
            → (popped.head ≡ size_t (q.head + 1))
              × (popped.received ≡ q.received + 1)
              × (popped.received_at q.received ≡ q.sent_at q.received)
              × (popped.ring (q.head % capacity) ≡ none))
  unfolding run
  pop_alone n q small v e =
      (λ h. ground (arith, sent_bound v), λ h. ground (arith, sent_bound v, v.live q.received))
