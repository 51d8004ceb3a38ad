-- ===== src/Stack/LowContention/Tests.antt =====
-- stack_lockfree.cpp, namespace `low_contention`: the theorems at concrete schedules.
use modern_cpp_ds.Common.{
  ℕ, ◌*◌, ◌≤◌, true, ◌+◌, ◌≡◌, ◌≢◌, refl, false, none, some, List, [], ◌∷◌, ◌++◌, arith, ℕ_discrete,
  replicate,
}
use modern_cpp_ds.Common.Counts.{count}
use modern_cpp_ds.Stack.{null, node}
use modern_cpp_ds.Stack.Chain.{Cells, values, has, Chain}
use modern_cpp_ds.Stack.Refine.{pops}
use modern_cpp_ds.Stack.Linear.{History}
use modern_cpp_ds.Stack.LowContention.{
  idle, popping, taking, fault, Action, begin_push, begin_pop, go, step, run, create,
}
use modern_cpp_ds.Stack.LowContention.Inv.{seen, addresses, Leads}
use modern_cpp_ds.Stack.LowContention.Refine.{effect}
use modern_cpp_ds.Stack.LowContention.Runs.{effects}
use modern_cpp_ds.Stack.LowContention.Safety.{
  counted_linearizable, counted_no_fault, counted_no_leak, deletes_next, counted_deletes_alone,
}
use modern_cpp_ds.Stack.LowContention.Clears.{counted_clears}
use modern_cpp_ds.Stack.LowContention.LockFree.{Below, failures, successes, counted_lock_free}
use modern_cpp_ds.Stack.LowContention.Deliver.{Absent, counted_pop_delivers}

-- Thread 0 pushes 7.
abbrev one_push : List (ℕ × Action ℕ)
one_push = (0, begin_push 7 1 0) ∷ (0, go false) ∷ (0, go false) ∷ []

-- Thread 1 begins a pop, up to its exchange on the head.
abbrev to_exchange : List (ℕ × Action ℕ)
to_exchange = (1, begin_pop) ∷ (1, go false) ∷ (1, go false) ∷ []

-- Thread 2 has loaded the node when thread 1 takes it, and reads it after that.
abbrev shared_pop : List (ℕ × Action ℕ)
shared_pop =
    one_push
    ++ ((2, begin_pop) ∷ (2, go false) ∷ [])
    ++ to_exchange
    ++ replicate 6 (1, go false)
    ++ replicate 4 (2, go false)

-- Nobody else is in `pop`: thread 1 is about to delete the node.
abbrev alone_pop : List (ℕ × Action ℕ)
alone_pop = one_push ++ to_exchange ++ replicate 6 (1, go false)

counted_linearizable_example :
    (cs : Cells ℕ) × Chain (run 0 shared_pop create).mem.heap (run 0 shared_pop create).mem.head cs
    × History (effects 0 shared_pop create) [] (values cs)
counted_linearizable_example = counted_linearizable 0 shared_pop (omega arith)

counted_no_fault_example : (run 0 shared_pop create).pc 2 ≢ fault
counted_no_fault_example = counted_no_fault 0 shared_pop 2 (omega arith)

all_idle : (i : ℕ) → (run 0 shared_pop create).pc i ≡ idle
unfolding run ℕ_discrete
all_idle i = ground arith

counted_no_leak_example :
    let m = (run 0 shared_pop create).mem in
    (m.threads_in_pop ≡ 0)
    × ((cs : Cells ℕ) × (ps : List ℕ) × Chain m.heap m.head cs
        × Leads m.heap m.to_be_deleted ps null
        × ((a : ℕ) → m.heap a ≢ none → count a (addresses cs) + count a ps ≡ 1))
counted_no_leak_example = counted_no_leak 0 shared_pop (omega arith) all_idle

-- The node that thread 1 took is not lost.
left_pending : (run 0 shared_pop create).mem.to_be_deleted ≡ 1
unfolding run ℕ_discrete
left_pending = refl

drops_next : deletes_next ((run 0 alone_pop create).pc 1) ≡ some 1
unfolding run ℕ_discrete
drops_next = refl

counted_deletes_alone_example :
    let s = run 0 alone_pop create in
    ((j : ℕ) → seen (s.pc j) ≢ some 1)
    × ((j : ℕ) → deletes_next (s.pc j) ≡ some 1 → 1 ≡ j)
    × ((cs : Cells ℕ) × Chain s.mem.heap s.mem.head cs × (has 1 cs ≡ false))
    × ((ps : List ℕ) × Leads s.mem.heap s.mem.to_be_deleted ps null × (count 1 ps ≡ 0))
counted_deletes_alone_example = counted_deletes_alone 0 alone_pop 1 1 (omega arith) drops_next

at_exchange_now : (run 0 (one_push ++ to_exchange) create).pc 1 ≡ popping 1 0
unfolding run ℕ_discrete
at_exchange_now = refl

on_top_now : (run 0 (one_push ++ to_exchange) create).mem.head ≡ 1
unfolding run ℕ_discrete
on_top_now = refl

-- Another thread pushes before the data is taken.
abbrev another_push : List (ℕ × Action ℕ)
another_push = (0, begin_push 9 2 0) ∷ (0, go false) ∷ (0, go false) ∷ []

another_push-Absent : Absent 1 another_push
another_push-Absent = ((λ e. omega arith), ((λ e. omega arith), ((λ e. omega arith), tt)))

counted_pop_delivers_example :
    let s = run 0 (one_push ++ to_exchange) create in
    let before_swap = run 0 another_push (step 0 (1, go false) s) in
    (v : ℕ) × (effect (go false) (popping 1 0) s.mem ≡ pops v)
    × (before_swap.pc 1 ≡ taking 1)
    × (before_swap.mem.heap 1 ≡ some (node v 0))
counted_pop_delivers_example =
    counted_pop_delivers 0 (one_push ++ to_exchange) another_push 1 1 0 (omega arith)
      at_exchange_now on_top_now another_push-Absent

-- The node that thread 1 took waits to be deleted, and thread 0 has pushed another.
abbrev left_and_pushed : List (ℕ × Action ℕ)
left_and_pushed = shared_pop ++ another_push

idle_after_push : (i : ℕ) → (run 0 left_and_pushed create).pc i ≡ idle
unfolding run ℕ_discrete
idle_after_push i = ground arith

head_after_push : (run 0 left_and_pushed create).mem.head ≢ null
unfolding run ℕ_discrete
head_after_push e = absurd (omega arith)

counted_clears_example :
    (n : ℕ) × (let s =
        run 0 ((3, begin_pop) ∷ replicate n (3, go false)) (run 0 left_and_pushed create) in
      ((j : ℕ) → s.pc j ≡ idle)
      × (s.mem.to_be_deleted ≡ null)
      × ((cs : Cells ℕ) × Chain s.mem.heap s.mem.head cs
          × ((a : ℕ) → s.mem.heap a ≢ none → has a cs ≡ true)))
counted_clears_example =
    counted_clears 0 3 left_and_pushed (omega arith) idle_after_push head_after_push

shared_pop-Below : Below 3 shared_pop
shared_pop-Below = grind arith

-- Thread 2 fails once.
fails_once : failures 0 shared_pop create ≡ 1
unfolding failures ℕ_discrete
fails_once = refl

counted_lock_free_example : failures 0 shared_pop create ≤ 3 * successes 0 shared_pop create
counted_lock_free_example = counted_lock_free 0 3 shared_pop (omega arith) shared_pop-Below
