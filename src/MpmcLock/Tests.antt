-- ===== src/MpmcLock/Tests.antt =====
-- mpmc_lock.cpp: the theorems at concrete queues.
use modern_cpp_ds.Common.{ℕ, ◌+◌, ◌≡◌, ◌≢◌, true, false, [], ◌∷◌, ◌++◌, arith, length}
use modern_cpp_ds.MpmcLock.{maxsize, Queue, try_produce}
use modern_cpp_ds.MpmcLock.Contents.{Inv, contents}
use modern_cpp_ds.MpmcLock.Fifo.{try_produce_lem}

-- The objects 5, 6 and 7, where the buffer holds the index plus 5.
abbrev three : Queue ℕ
three = record {
  buffer = λ i. i + 5;
  in_ = 0;
  out_ = 3;
  asleep_producers = [];
  woken_producers = [];
  asleep_consumers = 1;
  woken_consumers = 0;
}

three-Inv : Inv three
three-Inv = record { in_small = omega arith; out_small = omega arith; fits = omega arith }

try_produce_example :
    (length (contents three) ≡ maxsize → try_produce 9 three ≡ (false, three))
    × (length (contents three) ≢ maxsize
        → ((try_produce 9 three).0 ≡ true)
          × (contents (try_produce 9 three).1 ≡ contents three ++ (9 ∷ []))
          × Inv (try_produce 9 three).1)
try_produce_example = try_produce_lem three 9 three-Inv
