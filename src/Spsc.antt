-- ===== src/Spsc.antt =====
-- spsc_lockfree.cpp: the ring of one producer and one consumer. Each thread is a sequence of single
-- accesses to shared memory, taken as sequentially consistent; a schedule names the thread that
-- moves next. `size_t` has 64 bits.
mod Inv
mod Fifo
mod Destroy
mod Tests
use mathlib.Core.Option
use modern_cpp_ds.Common.{
  ℕ, zero, suc, ◌+◌, ◌-◌, ◌%◌, ◌^◌, Bool, true, false, Option, none, some, List, [], ◌∷◌, ◌==◌, ltb,
  if◌then◌else◌,
}

abbrev pub capacity : ℕ
capacity = 1024

abbrev pub size_t : ℕ → ℕ
size_t n = n % 2 ^ 64

-- `tail - head`, in `size_t`
abbrev pub distance : ℕ → ℕ → ℕ
distance tail head = size_t (tail + 2 ^ 64 - head)

module _ (T : Type 0) where
  -- Where `push` stands, with its locals.
  pub data PushPc : Type 0 where
    idle : PushPc  -- outside `push`
    got_tail : T → ℕ → PushPc  -- `tail_` is loaded
    got_head : T → ℕ → ℕ → PushPc  -- `head_` is loaded, the test is not made
    constructed : ℕ → PushPc  -- the copy stands in the ring, `tail_` is not stored

  -- Where `pop` stands.
  pub data PopPc : Type 0 where
    idle : PopPc
    got_head : ℕ → PopPc
    got_tail : ℕ → ℕ → PopPc
    moved : ℕ → PopPc  -- the object is moved out, its slot not destroyed
    destroyed : ℕ → PopPc  -- the slot is raw again, `head_` is not stored

  -- A slot of the ring holds an object, or raw memory. The last four fields are the history, which
  -- the code does not keep: how many values were pushed and popped, and the i-th of each.
  pub record Queue : Type 0 where
    pub ring : ℕ → Option T
    pub head : ℕ
    pub tail : ℕ
    pub producer : PushPc
    pub consumer : PopPc
    pub sent : ℕ
    pub sent_at : ℕ → Option T
    pub received : ℕ
    pub received_at : ℕ → Option T

  -- `produce val` moves the producer (which pushes `val`, if it begins a call), `consume` the
  -- consumer.
  pub data Event : Type 0 where
    produce : T → Event
    consume : Event

module _ {T : Type 0} where
  abbrev pub write : (ℕ → Option T) → ℕ → Option T → ℕ → Option T
  write ring i v j = if i == j then v else ring j

  -- The constructor `SPSC()`.
  abbrev pub create : Queue T
  create = record {
    ring = λ _. none;
    head = 0;
    tail = 0;
    producer = PushPc.idle;
    consumer = PopPc.idle;
    sent = 0;
    sent_at = λ _. none;
    received = 0;
    received_at = λ _. none;
  }

  -- The next access of `push`; outside it, the call `push(val)` begins.
  unfoldable pub push : T → PushPc T → Queue T → Queue T
  push val PushPc.idle q = record q { producer = PushPc.got_tail val q.tail }
  push _ (PushPc.got_tail val tail) q = record q { producer = PushPc.got_head val tail q.head }
  push _ (PushPc.got_head val tail head) q =
      if distance tail head == capacity then record q { producer = PushPc.idle } else record q {
        ring = write q.ring (tail % capacity) (some val);
        producer = PushPc.constructed tail;
        sent = q.sent + 1;
        sent_at = write q.sent_at q.sent (some val);
      }
  push _ (PushPc.constructed tail) q = record q { tail = size_t (1 + tail); producer = PushPc.idle }

-- `moved_from` is what the move constructor of `T` leaves behind.
module _ {T : Type 0} (moved_from : T → T) where
  -- The next access of `pop(place)`.
  unfoldable pub pop : PopPc T → Queue T → Queue T
  pop PopPc.idle q = record q { consumer = PopPc.got_head q.head }
  pop (PopPc.got_head head) q = record q { consumer = PopPc.got_tail head q.tail }
  pop (PopPc.got_tail head tail) q =
      let slot = q.ring (head % capacity) in
      if ltb head tail
      then record q {
        ring = write q.ring (head % capacity) (Option.map moved_from slot);
        consumer = PopPc.moved head;
        received = q.received + 1;
        received_at = write q.received_at q.received slot;
      }
      else record q { consumer = PopPc.idle }
  pop (PopPc.moved head) q = record q {
    ring = write q.ring (head % capacity) none;
    consumer = PopPc.destroyed head;
  }
  pop (PopPc.destroyed head) q = record q { head = size_t (1 + head); consumer = PopPc.idle }

  unfoldable pub step : Event T → Queue T → Queue T
  unfolding push pop
  step (produce val) q = push val q.producer q
  step consume q = pop q.consumer q

  unfoldable pub run : List (Event T) → Queue T → Queue T
  unfolding step
  run [] q = q
  run (e ∷ es) q = run es (step e q)

-- The loop of `~SPSC`, which runs `while (!empty())`, with the fuel that bounds its rounds.
unfoldable pub destroy : {T : Type 0} → ℕ → Queue T → Option (Queue T)
destroy zero q = none
destroy (suc fuel) q =
    let rest =
      destroy fuel
        (record q { ring = write q.ring (q.head % capacity) none; head = size_t (q.head + 1) }) in
    if q.tail == q.head then some q else rest
