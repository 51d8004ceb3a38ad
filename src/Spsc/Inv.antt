-- ===== src/Spsc/Inv.antt =====
-- spsc_lockfree.cpp: the invariant of the ring, kept by every access of either thread while fewer
-- than 2 ^ 64 values have been pushed.
use mathlib.Core.Option
use modern_cpp_ds.Common.{
  ℕ, suc, ◌+◌, ◌%◌, ◌^◌, ◌≤◌, ◌<◌, ◌≡◌, refl, none, some, arith, List, [], ◌∷◌, length, ℕ_discrete,
  ◌≢◌, dec_lt,
}
use modern_cpp_ds.Spsc.{
  PushPc, PopPc, Queue, Event, produce, consume, capacity, create, push, pop, step, run, distance,
  write, size_t,
}

module _ {T : Type 0} where
  -- What the locals of `push` say of the shared state.
  abbrev pub Pushing : PushPc T → Queue T → Type 0
  Pushing PushPc.idle q = q.tail ≡ q.sent
  Pushing (PushPc.got_tail _ t) q = (q.tail ≡ q.sent) × (t ≡ q.tail)
  Pushing (PushPc.got_head _ t h) q =
      (q.tail ≡ q.sent) × (t ≡ q.tail) × (h ≤ q.head) × (t ≤ h + capacity)
  Pushing (PushPc.constructed t) q = (t ≡ q.tail) × (q.tail + 1 ≡ q.sent)

  -- And those of `pop`.
  abbrev pub Popping : PopPc T → Queue T → Type 0
  Popping PopPc.idle q = q.head ≡ q.received
  Popping (PopPc.got_head h) q = (q.head ≡ q.received) × (h ≡ q.head)
  Popping (PopPc.got_tail h t) q = (q.head ≡ q.received) × (h ≡ q.head) × (t ≤ q.tail)
  Popping (PopPc.moved h) q = (h ≡ q.head) × (q.head + 1 ≡ q.received) × (q.head < q.tail)
  Popping (PopPc.destroyed h) q =
      (h ≡ q.head)
      × (q.head + 1 ≡ q.received)
      × (q.head < q.tail)
      × (q.ring (q.head % capacity) ≡ none)

  -- `n` bounds the number of values pushed.
  pub record Inv (n : ℕ) (q : Queue T) : Type 0 where
    pub bound : q.sent ≤ n
    pub pushing : Pushing q.producer q
    pub popping : Popping q.consumer q
    pub ordered : (q.head ≤ q.tail) × (q.received ≤ q.tail)
    pub room : q.sent ≤ q.head + capacity
    pub live : (i : ℕ) → q.received ≤ i → i < q.sent → q.ring (i % capacity) ≡ q.sent_at i
    pub raw : (i : ℕ) → q.sent ≤ i → i < q.head + capacity → q.ring (i % capacity) ≡ none
    pub stored : (i : ℕ) → i < q.sent → q.sent_at i ≢ none
    pub fifo : (i : ℕ) → i < q.received → q.received_at i ≡ q.sent_at i

  pub create-Inv : Inv 0 (create {T = T})
  create-Inv = record {
    bound = omega arith;
    pushing = omega arith;
    popping = omega arith;
    ordered = omega arith;
    room = omega arith;
    live = λ i h k. refl;
    raw = λ i h k. refl;
    stored = λ i h e. omega arith;
    fifo = λ i h. refl;
  }

  pub sent_bound : {n : ℕ} {q : Queue T} → Inv n q → (q.tail ≤ q.sent) × (q.received ≤ q.sent)
  sent_bound {q} v = ordered_by q.producer v.pushing v.ordered
    where
      ordered_by :
          (c : PushPc T)
          → Pushing c q
          → (q.head ≤ q.tail) × (q.received ≤ q.tail)
          → (q.tail ≤ q.sent) × (q.received ≤ q.sent)
      ordered_by PushPc.idle p o = omega arith
      ordered_by (PushPc.got_tail _ _) p o = omega arith
      ordered_by (PushPc.got_head _ _ _) p o = omega arith
      ordered_by (PushPc.constructed _) p o = omega arith

  pub head-le-received : {n : ℕ} {q : Queue T} → Inv n q → q.head ≤ q.received
  head-le-received {q} v = behind q.consumer v.popping
    where
      behind : (c : PopPc T) → Popping c q → q.head ≤ q.received
      behind PopPc.idle p = omega arith
      behind (PopPc.got_head _) p = omega arith
      behind (PopPc.got_tail _ _) p = omega arith
      behind (PopPc.moved _) p = omega arith
      behind (PopPc.destroyed _) p = omega arith

  -- `push` writes one slot, which no other fact of the invariant is about.
  construct-Inv :
      (n : ℕ) (val : T) (t h : ℕ) (q : Queue T)
      → suc n < 2 ^ 64
      → Pushing (PushPc.got_head val t h) q
      → distance t h ≢ capacity
      → Inv n q
      → Inv (suc n) (record q {
        ring = write q.ring (t % capacity) (some val);
        producer = PushPc.constructed t;
        sent = q.sent + 1;
        sent_at = write q.sent_at q.sent (some val);
      })
  construct-Inv n val t h q small p free v = record {
    bound = omega arith;
    pushing = omega arith;
    popping = kept q.consumer v.popping;
    ordered = omega arith;
    room = omega arith;
    live = λ i a b. ground (arith, v.live i);
    raw = λ i a b. ground (arith, v.raw i);
    stored = λ i a. ground (arith, v.stored i);
    fifo = λ i a. ground (arith, v.fifo i, sent_bound v);
  }
    where
      kept :
          (c : PopPc T)
          → Popping c q
          → Popping c (record q {
            ring = write q.ring (t % capacity) (some val);
            producer = PushPc.constructed t;
            sent = q.sent + 1;
            sent_at = write q.sent_at q.sent (some val);
          })
      kept PopPc.idle f = f
      kept (PopPc.got_head _) f = f
      kept (PopPc.got_tail _ _) f = f
      kept (PopPc.moved _) f = f
      kept (PopPc.destroyed _) f = ground arith

  push-Inv :
      (n : ℕ) (val : T) (c : PushPc T) (q : Queue T)
      → suc n < 2 ^ 64
      → q.producer ≡ c
      → Inv n q
      → Inv (suc n) (push val c q)
  unfolding push
  push-Inv n val PushPc.idle q small e v = ground arith
  push-Inv n val (PushPc.got_tail _ t) q small e v = ground arith
  push-Inv n val (PushPc.got_head val' t h) q small e v =
      elim (ℕ_discrete (distance t h) capacity) [
        | yes full ↦ ground arith
        | no free ↦ ground (arith, construct-Inv n val' t h q small (rw e at v.pushing) free v)
      ]
  push-Inv n val (PushPc.constructed t) q small e v = ground arith

  -- The slot that is given back is the one of the index that comes into the window.
  raw_again :
      {h : ℕ} (q : Queue T) (i : ℕ)
      → Popping (PopPc.destroyed h) q
      → i ≡ q.head + capacity
      → q.ring (i % capacity) ≡ none
  raw_again q i p e = let same : i % capacity ≡ q.head % capacity = omega arith in rw same p.3

  -- The producer relies on nothing that the consumer changes but `head`, which only grows.
  Pushing-mono :
      (c : PushPc T) (q q' : Queue T)
      → q'.tail ≡ q.tail
      → q'.sent ≡ q.sent
      → q.head ≤ q'.head
      → Pushing c q
      → Pushing c q'
  Pushing-mono PushPc.idle q q' t s h p = omega arith
  Pushing-mono (PushPc.got_tail _ _) q q' t s h p = omega arith
  Pushing-mono (PushPc.got_head _ _ _) q q' t s h p = omega arith
  Pushing-mono (PushPc.constructed _) q q' t s h p = omega arith

module _ {T : Type 0} (moved_from : T → T) where
  abbrev moved_out : ℕ → Queue T → Queue T
  moved_out h q = record q {
    ring = write q.ring (h % capacity) (Option.map moved_from (q.ring (h % capacity)));
    consumer = PopPc.moved h;
    received = q.received + 1;
    received_at = write q.received_at q.received (q.ring (h % capacity));
  }

  move-Inv :
      (n h t : ℕ) (q : Queue T)
      → Popping (PopPc.got_tail h t) q
      → h < t
      → Inv n q
      → Inv (suc n) (moved_out h q)
  move-Inv n h t q p some_left v = record {
    bound = omega (arith, v.bound);
    pushing = Pushing-mono q.producer q (moved_out h q) refl refl (omega arith) v.pushing;
    popping = omega (arith, v.ordered);
    ordered = omega (arith, v.ordered);
    room = v.room;
    live = λ i a b. ground (arith, v.live i, v.room, v.ordered);
    raw = λ i a b. ground (arith, v.raw i, v.ordered, sent_bound v);
    stored = v.stored;
    fifo = λ i a. ground (arith, v.fifo i, v.live i, sent_bound v);
  }

  pop-Inv :
      (n : ℕ) (c : PopPc T) (q : Queue T)
      → suc n < 2 ^ 64
      → q.consumer ≡ c
      → Inv n q
      → Inv (suc n) (pop moved_from c q)
  unfolding pop
  pop-Inv n PopPc.idle q small e v = ground arith
  pop-Inv n (PopPc.got_head h) q small e v = ground (arith, sent_bound v)
  pop-Inv n (PopPc.got_tail h t) q small e v = elim (dec_lt h t) [
    | yes some_left ↦ ground (arith, move-Inv n h t q (rw e at v.popping) some_left v)
    | no empty ↦ ground arith
  ]
  pop-Inv n (PopPc.moved h) q small e v =
      let p : Popping (PopPc.moved h) q = rw e at v.popping in
      record {
        bound = omega (arith, v.bound);
        pushing = Pushing-mono q.producer q _ refl refl (omega arith) v.pushing;
        popping = ground arith;
        ordered = v.ordered;
        room = v.room;
        live = λ i a b. ground (arith, v.live i, v.room);
        raw = λ i a b. ground (arith, v.raw i, v.ordered);
        stored = v.stored;
        fifo = v.fifo;
      }
  pop-Inv n (PopPc.destroyed h) q small e v =
      let p : Popping (PopPc.destroyed h) q = rw e at v.popping in
      let next : size_t (1 + h) ≡ q.head + 1 = omega (arith, v.bound, sent_bound v) in
      record {
        bound = omega (arith, v.bound);
        pushing = Pushing-mono q.producer q _ refl refl (omega arith) v.pushing;
        popping = omega arith;
        ordered = omega (arith, v.ordered);
        room = omega (arith, v.room);
        live = v.live;
        raw = λ i a b. ground (arith, v.raw i, raw_again q i p);
        stored = v.stored;
        fifo = v.fifo;
      }

  pub step-Inv :
      (n : ℕ) (e : Event T) (q : Queue T)
      → suc n < 2 ^ 64
      → Inv n q
      → Inv (suc n) (step moved_from e q)
  unfolding step
  step-Inv n (produce val) q small v = push-Inv n val q.producer q small refl v
  step-Inv n consume q small v = pop-Inv n q.consumer q small refl v

  pub run-Inv :
      (n m : ℕ) (es : List (Event T)) (q : Queue T)
      → n + length es ≡ m
      → m < 2 ^ 64
      → Inv n q
      → Inv m (run moved_from es q)
  unfolding run
  run-Inv n m [] q e small v = let same : n ≡ m = omega arith in rw (← same) v
  run-Inv n m (x ∷ es) q e small v =
      run-Inv (suc n) m es (step moved_from x q) (omega arith) small
        (step-Inv n x q (omega arith) v)
