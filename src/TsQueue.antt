-- ===== src/TsQueue.antt =====
-- c++_features_experiment/threadsafe_queue.cpp: the queue under its mutex; what runs under the mutex is one
-- step. The threads in `wait_and_pop` are counted: those that sleep and those that have been woken and are
-- about to test the predicate of `wait` again.
mod Wake
mod Tests
use modern_cpp_ds.Common.{ℕ, suc, zero, ◌-◌, Bool, true, false, List, [], ◌∷◌, ◌++◌, if◌then◌else◌}

module _ (T : Type 0) where
  pub record Queue : Type 0 where
    pub safe_queue : List T
    pub asleep : ℕ
    pub woken : ℕ

  pub data Action : Type 0 where
    add_elem : T → Action
    wait_and_pop : Action  -- a call locks the mutex and comes to `wait`
    resume : Action  -- a woken thread has the mutex again
    wake : Action  -- a spurious wake-up

module _ {T : Type 0} where
  abbrev pub create : Queue T
  create = record { safe_queue = []; asleep = 0; woken = 0 }

  -- `empty_check.notify_one()`, or a spurious wake-up, with so many threads asleep.
  abbrev pub wake_one : ℕ → Queue T → Queue T
  wake_one zero q = q
  wake_one (suc n) q = record q { asleep = n; woken = suc q.woken }

  abbrev pub push : T → Queue T → Queue T
  push obj q = record q { safe_queue = q.safe_queue ++ (obj ∷ []) }

  -- The predicate, and `front` and `pop` if it holds.
  abbrev pub pop_or_wait : List T → Queue T → Queue T
  pop_or_wait [] q = record q { asleep = suc q.asleep }
  pop_or_wait (_ ∷ rest) q = record q { safe_queue = rest }

  abbrev pub resume_one : ℕ → Queue T → Queue T
  resume_one zero q = q
  resume_one (suc n) q = pop_or_wait q.safe_queue (record q { woken = n })

  unfoldable pub step : Action T → Queue T → Queue T
  step (add_elem obj) q = wake_one q.asleep (push obj q)
  step wait_and_pop q = pop_or_wait q.safe_queue q
  step resume q = resume_one q.woken q
  step wake q = wake_one q.asleep q

  unfoldable pub run : List (Action T) → Queue T → Queue T
  unfolding step
  run [] q = q
  run (e ∷ es) q = run es (step e q)

  -- `empty()`, as it is written
  unfoldable pub empty : Queue T → Bool
  empty q = elim q.safe_queue [ [] ↦ false | _ ∷ _ ↦ true ]
