-- ===== src/MpmcLockfree/Tests.antt =====
-- mpmc_lockfree.cpp: the theorems at a concrete schedule.
use modern_cpp_ds.Common.{
  ℕ, ◌+◌, ◌++◌, ◌⊎◌, ◌↔◌, ◌<◌, ◌≡◌, ◌≢◌, inl, refl, ℕ_discrete, false, Option, none, some, List, [],
  ◌∷◌, arith,
}
use modern_cpp_ds.MpmcLockfree.Refine.{Between, History, effects, queue_linearizable}
use modern_cpp_ds.MpmcLockfree.Answers.{twice, dequeue_empty, enqueue_full}
use modern_cpp_ds.MpmcLockfree.{
  idle, enqueueing, dequeueing, buffer_size, slot, read_out, Action, begin_enqueue, begin_dequeue,
  go, run, create,
}
use modern_cpp_ds.MpmcLockfree.Fifo.{delivered, no_race}
use modern_cpp_ds.MpmcLockfree.Frame.{fills}

-- Thread 0 enqueues 5, thread 1 takes it and has not given the cell back, thread 2 has claimed the
-- next cell.
abbrev schedule : List (ℕ × Action ℕ)
schedule =
    (0, begin_enqueue 5)
    ∷ (0, go false)
    ∷ (0, go false)
    ∷ (0, go false)
    ∷ (0, go false)
    ∷ (1, begin_dequeue)
    ∷ (1, go false)
    ∷ (1, go false)
    ∷ (1, go false)
    ∷ (2, begin_enqueue 6)
    ∷ (2, go false)
    ∷ (2, go false)
    ∷ []

abbrev five : Option ℕ
five = some 5

about_to_return : (run schedule create).pc 1 ≡ read_out 0 five
unfolding run slot ℕ_discrete
about_to_return = refl

delivered_example :
    let s = run schedule create in
    (five ≡ s.mem.sent_at 0)
    × (five ≢ none)
    × (0 < s.mem.dequeue_pos)
    × ((j : ℕ) (d' : Option ℕ) → s.pc j ≡ read_out 0 d' → 1 ≡ j)
delivered_example = delivered schedule 1 0 five (omega arith) about_to_return

writer : fills ((run schedule create).pc 2) ≡ some 1
unfolding run slot ℕ_discrete
writer = refl

abbrev thread_two : ℕ
thread_two = 2

no_race_example : thread_two ≡ thread_two
no_race_example =
    no_race schedule thread_two thread_two 1 1 (omega arith) (inl writer) (inl writer) refl

-- Thread 2 has claimed position 1 and not written it when thread 3 begins to dequeue.
abbrev stalled : List (ℕ × Action ℕ)
stalled = schedule ++ ((3, begin_dequeue) ∷ [])

at_one : (run stalled create).pc 3 ≡ dequeueing 1
unfolding run slot ℕ_discrete
at_one = refl

dequeue_empty_example :
    let s = run stalled create in
    ((twice 3 s).pc 3 ≡ idle) ↔ (
      (1 ≡ s.mem.dequeue_pos)
      × ((s.mem.enqueue_pos ≡ 1) ⊎ ((1 < s.mem.enqueue_pos) × (s.mem.sequence (slot 1) ≡ 1))))
dequeue_empty_example = dequeue_empty stalled 3 1 (omega arith) at_one

abbrev beginning : List (ℕ × Action ℕ)
beginning = schedule ++ ((3, begin_enqueue 8) ∷ [])

at_two : (run beginning create).pc 3 ≡ enqueueing 8 2
unfolding run slot ℕ_discrete
at_two = refl

enqueue_full_example :
    let s = run beginning create in
    ((twice 3 s).pc 3 ≡ idle) ↔ (
      (2 ≡ s.mem.enqueue_pos)
      × ((2 ≡ s.mem.dequeue_pos + buffer_size)
          ⊎ ((2 < s.mem.dequeue_pos + buffer_size)
              × (s.mem.sequence (slot 2) + buffer_size ≡ 2 + 1))))
enqueue_full_example = enqueue_full beginning 3 2 8 (omega arith) at_two

queue_linearizable_example :
    (xs : List ℕ) × (let m = (run schedule create).mem in
      Between m.sent_at m.dequeue_pos xs m.enqueue_pos)
    × History (effects schedule create) [] xs
queue_linearizable_example = queue_linearizable schedule (omega arith)
