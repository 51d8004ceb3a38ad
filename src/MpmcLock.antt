-- ===== src/MpmcLock.antt =====
-- mpmc_lock.cpp: the bounded queue under one mutex, with its two condition variables. Each body runs
-- under the lock, so it is one step; a wait gives the lock back, and a woken thread runs its test
-- again in a later step. `size_t` has 64 bits.
mod Contents
mod Fifo
mod Waiting
mod Tests
use Prim.Native.Nat.{bit_and}
use modern_cpp_ds.Common.{
  ℕ, zero, suc, ◌+◌, ◌-◌, ◌%◌, ◌^◌, Bool, true, false, Option, none, some, List, [], ◌∷◌, ◌++◌,
  ◌==◌, if◌then◌else◌,
}

abbrev pub maxsize : ℕ
maxsize = 2 ^ 10

abbrev pub size_t : ℕ → ℕ
size_t n = n % 2 ^ 64

-- `mask(index)`
unfoldable pub mask : ℕ → ℕ
mask index = bit_and index (maxsize - 1)

-- The members, and the threads that a condition variable holds: those that sleep, and those that a
-- notification has woken and that have not run since. A producer waits with the object it brings.
pub record Queue (T : Type 0) : Type 0 where
  pub buffer : ℕ → T
  pub in_ : ℕ
  pub out_ : ℕ
  pub asleep_producers : List T
  pub woken_producers : List T
  pub asleep_consumers : ℕ
  pub woken_consumers : ℕ

module _ {T : Type 0} where
  abbrev pub size : Queue T → ℕ
  size q = size_t (q.out_ + 2 ^ 64 - q.in_)

  abbrev pub empty : Queue T → Bool
  empty q = q.out_ == q.in_

  abbrev pub full : Queue T → Bool
  full q = size q == maxsize

  -- `empty_check_.notify_one()`
  abbrev pub notify_consumer : Queue T → Queue T
  notify_consumer q = elim q.asleep_consumers [
    | zero ↦ q
    | suc n ↦ record q { asleep_consumers = n; woken_consumers = suc q.woken_consumers }
  ]

  -- `full_check_.notify_one()`; which thread is woken is left to the library: here the first.
  abbrev pub notify_producer : Queue T → Queue T
  notify_producer q = elim q.asleep_producers [
    | [] ↦ q
    | x ∷ xs ↦ record q { asleep_producers = xs; woken_producers = q.woken_producers ++ (x ∷ []) }
  ]

  -- `buffer_[mask(out_++)] = std::move(obj)`
  unfoldable pub put : T → Queue T → Queue T
  put obj q = record q {
    buffer = λ i. if mask q.out_ == i then obj else q.buffer i;
    out_ = size_t (q.out_ + 1);
  }

  -- `make_shared<T>(buffer_[mask(in_)]); in_++;`
  unfoldable pub take_front : Queue T → T × Queue T
  take_front q = (q.buffer (mask q.in_), record q { in_ = size_t (q.in_ + 1) })

  -- `try_produce`: false stands for the exception "filled buffer".
  unfoldable pub try_produce : T → Queue T → Bool × Queue T
  unfolding put
  try_produce obj q = if full q then (false, q) else (true, notify_consumer (put obj q))

  -- `produce`: the body up to its end, or up to the wait.
  unfoldable pub produce : T → Queue T → Queue T
  unfolding put
  produce obj q =
      if full q
      then record q { asleep_producers = q.asleep_producers ++ (obj ∷ []) }
      else notify_consumer (put obj q)

  -- A woken producer takes the lock and tests again.
  unfoldable pub resume_producer : Queue T → Queue T
  unfolding produce
  resume_producer q = elim q.woken_producers [
    | [] ↦ q
    | x ∷ xs ↦ produce x (record q { woken_producers = xs })
  ]

  -- `consume`: none if the thread goes to sleep.
  unfoldable pub consume : Queue T → Option T × Queue T
  unfolding take_front
  consume q =
      if empty q
      then (none, record q { asleep_consumers = suc q.asleep_consumers })
      else (some (take_front q).0, notify_producer (take_front q).1)

  unfoldable pub resume_consumer : Queue T → Option T × Queue T
  unfolding consume
  resume_consumer q = elim q.woken_consumers [
    | zero ↦ (none, q)
    | suc n ↦ consume (record q { woken_consumers = n })
  ]

  -- `try_consume`: none stands for `nullptr`. It notifies nobody.
  unfoldable pub try_consume : Queue T → Option T × Queue T
  unfolding take_front
  try_consume q = if empty q then (none, q) else (some (take_front q).0, (take_front q).1)
