-- ===== src/MpmcLockfree.antt =====
-- mpmc_lockfree.cpp: Vyukov's bounded queue. Any number of threads enqueue and dequeue, one access to
-- shared memory at a time, in any order (sequentially consistent). `size_t` has 64 bits. The capacity
-- is that of the queue in `main`.
mod Frame
mod Inv
mod Moves
mod Keeps
mod Fifo
mod Answers
mod Refine
mod Tests
use Prim.Native.Nat.{bit_and}
use modern_cpp_ds.Common.{
  ℕ, ◌+◌, ◌-◌, ◌%◌, ◌^◌, Bool, true, false, Option, none, some, List, [], ◌∷◌, ◌==◌, ltb,
  if◌then◌else◌, ite, ℕ_discrete,
}

abbrev pub buffer_size : ℕ
buffer_size = 2048

abbrev pub buffer_mask : ℕ
buffer_mask = buffer_size - 1

abbrev pub size_t : ℕ → ℕ
size_t n = n % 2 ^ 64

-- `pos & buffer_mask_`
unfoldable pub slot : ℕ → ℕ
slot pos = bit_and pos buffer_mask

-- `dif < 0` for `dif` the difference of the two as `std::intptr_t`.
abbrev pub negative : ℕ → ℕ → Bool
negative seq pos = ltb (size_t (seq + 2 ^ 63)) (size_t (pos + 2 ^ 63))

module _ (T : Type 0) where
  -- Where a thread stands, with its locals.
  pub data Pc : Type 0 where
    idle : Pc
    enqueueing : T → (pos : ℕ) → Pc  -- at the head of the loop of `enqueue`
    compared : T → (pos seq : ℕ) → Pc  -- `seq` is read, `dif` decides
    claimed : T → (pos : ℕ) → Pc  -- the exchange succeeded, `cell->data_ = data` is next
    written : (pos : ℕ) → Pc  -- the data is written, the new sequence is not
    dequeueing : (pos : ℕ) → Pc
    compared_out : (pos seq : ℕ) → Pc
    claimed_out : (pos : ℕ) → Pc  -- the exchange succeeded, `data = cell->data_` is next
    read_out : (pos : ℕ) → Option T → Pc  -- the data is read, the new sequence is not

  -- The cells and the two positions. A cell starts with the default object, here `none`. `sent_at`
  -- is the history: the datum of the producer that claimed a position.
  pub record Shared : Type 0 where
    pub sequence : ℕ → ℕ
    pub datum : ℕ → Option T
    pub enqueue_pos : ℕ
    pub dequeue_pos : ℕ
    pub sent_at : ℕ → Option T

  pub record System : Type 0 where
    pub mem : Shared
    pub pc : ℕ → Pc

  -- A thread that is idle begins a call; otherwise it makes its next access, where
  -- `compare_exchange_weak` may fail without reason.
  pub data Action : Type 0 where
    begin_enqueue : T → Action
    begin_dequeue : Action
    go : (spurious : Bool) → Action

abbrev pub write {ℓ} : {A : Type ℓ} → (ℕ → A) → ℕ → A → ℕ → A
write f i a j = if i == j then a else f j

module _ {T : Type 0} where
  unfoldable pub move : Action T → Pc T → Shared T → Shared T × Pc T
  move (begin_enqueue d) idle m = (m, enqueueing d m.enqueue_pos)
  move begin_dequeue idle m = (m, dequeueing m.dequeue_pos)
  move (go _) (enqueueing d pos) m = (m, compared d pos (m.sequence (slot pos)))
  move (go spurious) (compared d pos seq) m =
      if seq == pos
      then if spurious
        then (m, enqueueing d m.enqueue_pos)
        else if m.enqueue_pos == pos
        then (
          record m { enqueue_pos = size_t (pos + 1); sent_at = write m.sent_at pos (some d) },
          claimed d pos,
        )
        else (m, enqueueing d m.enqueue_pos)
      else if negative seq pos
      then (m, idle)
      else (m, enqueueing d m.enqueue_pos)
  move (go _) (claimed d pos) m =
      (record m { datum = write m.datum (slot pos) (some d) }, written pos)
  move (go _) (written pos) m =
      (record m { sequence = write m.sequence (slot pos) (size_t (pos + 1)) }, idle)
  move (go _) (dequeueing pos) m = (m, compared_out pos (m.sequence (slot pos)))
  move (go spurious) (compared_out pos seq) m =
      if seq == size_t (pos + 1)
      then if spurious
        then (m, dequeueing m.dequeue_pos)
        else if m.dequeue_pos == pos
        then (record m { dequeue_pos = size_t (pos + 1) }, claimed_out pos)
        else (m, dequeueing m.dequeue_pos)
      else if negative seq (size_t (pos + 1))
      then (m, idle)
      else (m, dequeueing m.dequeue_pos)
  move (go _) (claimed_out pos) m = (m, read_out pos (m.datum (slot pos)))
  move (go _) (read_out pos d) m =
      (record m { sequence = write m.sequence (slot pos) (size_t (pos + buffer_mask + 1)) }, idle)
  move _ p m = (m, p)

  abbrev pub update : (ℕ → Pc T) → ℕ → Pc T → ℕ → Pc T
  update pc i p j = ite (ℕ_discrete i j) p (pc j)

  unfoldable pub step : ℕ × Action T → System T → System T
  unfolding move
  step (i, a) s = let (m, p) = move a (s.pc i) s.mem in record { mem = m; pc = update s.pc i p }

  unfoldable pub run : List (ℕ × Action T) → System T → System T
  unfolding step
  run [] s = s
  run (e ∷ es) s = run es (step e s)

  -- The constructor, with the sequence of each cell its index.
  abbrev pub create : System T
  create = record {
    mem = record {
      sequence = λ i. i;
      datum = λ _. none;
      enqueue_pos = 0;
      dequeue_pos = 0;
      sent_at = λ _. none;
    };
    pc = λ _. idle;
  }
