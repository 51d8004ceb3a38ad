-- ===== src/Spsc/Tests.antt =====
-- spsc_lockfree.cpp: the theorems at concrete schedules.
use modern_cpp_ds.Common.{ℕ, ◌≤◌, ◌<◌, ◌≡◌, ◌≢◌, refl, none, some, List, [], ◌∷◌, arith}
use modern_cpp_ds.Spsc.{
  PushPc, PopPc, Queue, Event, produce, consume, capacity, create, run, destroy,
}
use modern_cpp_ds.Spsc.Inv.{Inv}
use modern_cpp_ds.Spsc.Fifo.{fifo, reached}
use modern_cpp_ds.Spsc.Destroy.{spsc_destroy_lem}

abbrev moved_zero : ℕ → ℕ
moved_zero n = 0

-- The producer pushes 4, the consumer overtakes it in the middle of its second push.
abbrev schedule : List (Event ℕ)
schedule =
    produce 4
    ∷ produce 4
    ∷ produce 4
    ∷ produce 4
    ∷ produce 6
    ∷ consume
    ∷ produce 6
    ∷ consume
    ∷ consume
    ∷ produce 6
    ∷ []

fifo_example :
    let q = run moved_zero schedule create in
    (q.received ≤ q.sent)
    × ((i : ℕ) → i < q.received → (q.received_at i ≡ q.sent_at i) × (q.sent_at i ≢ none))
fifo_example = fifo moved_zero schedule (omega arith)

-- One value is pushed.
abbrev one_push : List (Event ℕ)
one_push = produce 4 ∷ produce 4 ∷ produce 4 ∷ produce 4 ∷ []

abbrev holds_four : Queue ℕ
holds_four = run moved_zero one_push create

holds_four-Inv : Inv 4 holds_four
holds_four-Inv = reached moved_zero one_push (omega arith)

no_producer : holds_four.producer ≡ PushPc.idle
unfolding run
no_producer = refl

no_consumer : holds_four.consumer ≡ PopPc.idle
unfolding run
no_consumer = refl

spsc_destroy_example :
    (q : Queue ℕ) × (destroy 1025 holds_four ≡ some q) × ((j : ℕ) → j < capacity → q.ring j ≡ none)
spsc_destroy_example =
    spsc_destroy_lem 4 holds_four (omega arith) holds_four-Inv no_producer no_consumer
