-- ===== src/Stack/HazardStack/Tests.antt =====
-- stack_lockfree.cpp, `hazard_ptr::stack`: the theorems at concrete schedules, and the schedule of the race in
-- `~hp_owner()`.
use modern_cpp_ds.Common.{
  replicate, ◌⊎◌, true, ℕ, ◌≡◌, ◌≢◌, ◌<◌, refl, sym, ◌∙◌, false, some, none, List, [], ◌∷◌, ◌++◌,
  arith, ℕ_discrete,
}
use modern_cpp_ds.Common.Counts.{count}
use modern_cpp_ds.Stack.{node}
use modern_cpp_ds.Stack.Chain.{Cells, values, has, Chain}
use modern_cpp_ds.Stack.Refine.{pops}
use modern_cpp_ds.Stack.Linear.{History}
use modern_cpp_ds.Stack.HazardStack.{
  then_sweep, idle, exchanging, taking, deleting, fault, begin_push, begin_pop, go, create,
}
use modern_cpp_ds.Stack.HazardStack
use modern_cpp_ds.Stack.HazardStack.Inv.{owns, guards}
use modern_cpp_ds.Stack.HazardStack.Refine.{effect}
use modern_cpp_ds.Stack.HazardStack.Safety.{effects}
use modern_cpp_ds.Stack.HazardStack.Threads.{
  searching, having, cleared, Move, acts, exits, place, step, run, start, calls, Orderly,
}
use modern_cpp_ds.Stack.HazardStack.Threads.Safety.{
  threads_linearizable, threads_touch_no_freed, threads_delete_alone, threads_lose_nothing,
}
use modern_cpp_ds.Stack.HazardStack.Threads.Pops.{threads_pop_deliver, Rests}
use modern_cpp_ds.Stack.HazardStack.Threads.Stay.{Stays-Orderly, Orderly-append, Orderly-rest}

abbrev goes : ℕ → ℕ × Move ℕ
goes t = (t, acts (go false))

-- Thread 0, which has no slot, pushes 7.
abbrev one_push : List (ℕ × Move ℕ)
one_push = (0, acts (begin_push 7 1 0)) ∷ goes 0 ∷ goes 0 ∷ []

-- Thread 3 gets slot 0 and pops from the empty stack.
abbrev first_pop : List (ℕ × Move ℕ)
first_pop = (3, acts begin_pop) ∷ replicate 6 (goes 3)

-- Thread 1 gets slot 0 if it is free, and begins a pop, up to its exchange on the head.
abbrev to_exchange : List (ℕ × Move ℕ)
to_exchange = (1, acts begin_pop) ∷ replicate 5 (goes 1)

-- Thread 2 guards the node in slot 1 when thread 1, in slot 2, takes it; thread 3 has slot 0.
abbrev guarded_pop : List (ℕ × Move ℕ)
guarded_pop =
    first_pop
    ++ one_push
    ++ ((2, acts begin_pop) ∷ replicate 4 (goes 2))
    ++ ((1, acts begin_pop) ∷ replicate 16 (goes 1))

-- Thread 3 exits.
abbrev exit_3 : List (ℕ × Move ℕ)
exit_3 = (3, exits) ∷ goes 3 ∷ []

before_exit : (run 0 guarded_pop start).seat 3 ≡ having 0
unfolding run ℕ_discrete HazardStack.step
before_exit = refl

in_exit : (step 0 (3, exits) (run 0 guarded_pop start)).seat 3 ≡ cleared 0
unfolding run ℕ_discrete HazardStack.step
in_exit = refl

guarded_pop-Orderly : Orderly 0 (guarded_pop ++ exit_3) start
unfolding Orderly
guarded_pop-Orderly = Orderly-append 0 guarded_pop exit_3 start (Stays-Orderly 0 guarded_pop tt) (
  λ i e. let clash : having 0 ≡ searching i = sym before_exit ∙ e in absurd (cc),
  (λ i e. let clash : cleared 0 ≡ searching i = sym in_exit ∙ e in absurd (cc), tt),
)

-- Nobody else guards the node: thread 1 has looked at every slot.
abbrev alone_pop : List (ℕ × Move ℕ)
alone_pop = one_push ++ to_exchange ++ replicate 104 (goes 1)

threads_linearizable_example :
    let s = (run 0 (guarded_pop ++ exit_3) start).stack in
    (cs : Cells ℕ) × Chain s.mem.heap s.mem.head cs
    × History (effects 0 (calls 0 (guarded_pop ++ exit_3) start) create) [] (values cs)
threads_linearizable_example = threads_linearizable 0 (guarded_pop ++ exit_3) guarded_pop-Orderly

threads_touch_no_freed_example : place 2 (run 0 (guarded_pop ++ exit_3) start) ≢ fault
threads_touch_no_freed_example =
    threads_touch_no_freed 0 (guarded_pop ++ exit_3) 2 guarded_pop-Orderly

about_to_delete : place 1 (run 0 alone_pop start) ≡ deleting 1 then_sweep
unfolding run ℕ_discrete HazardStack.step
about_to_delete = refl

threads_delete_alone_example :
    let w = run 0 alone_pop start in
    ((u : ℕ) → guards (place u w) ≢ some 1)
    × ((u : ℕ) → 0 < count 1 (owns (place u w)) → 1 ≡ u)
    × (count 1 w.stack.mem.nodes_to_reclaim ≡ 0)
    × ((cs : Cells ℕ) × Chain w.stack.mem.heap w.stack.mem.head cs × (has 1 cs ≡ false))
threads_delete_alone_example =
    threads_delete_alone 0 alone_pop 1 1 then_sweep (Stays-Orderly 0 alone_pop tt) about_to_delete

has_slot : (run 0 (one_push ++ to_exchange) start).seat 1 ≡ having 0
unfolding run ℕ_discrete HazardStack.step
has_slot = refl

at_exchange_now : (run 0 (one_push ++ to_exchange) start).stack.pc 0 ≡ exchanging 1 0
unfolding run ℕ_discrete HazardStack.step
at_exchange_now = refl

on_top_now : (run 0 (one_push ++ to_exchange) start).stack.mem.head ≡ 1
unfolding run ℕ_discrete HazardStack.step
on_top_now = refl

pushed_there : (run 0 one_push start).stack.mem.heap 1 ≢ none
unfolding run ℕ_discrete HazardStack.step
pushed_there e = ground arith

all_idle : (i : ℕ) → (run 0 one_push start).stack.pc i ≡ idle
unfolding run ℕ_discrete HazardStack.step
all_idle i = ground arith

threads_lose_nothing_example :
    let m = (run 0 one_push start).stack.mem in
    (cs : Cells ℕ) × Chain m.heap m.head cs
    × (((has 1 cs ≡ true) × (count 1 m.nodes_to_reclaim ≡ 0))
        ⊎ ((has 1 cs ≡ false) × (count 1 m.nodes_to_reclaim ≡ 1)))
threads_lose_nothing_example =
    threads_lose_nothing 0 one_push 1 (Stays-Orderly 0 one_push tt) all_idle pushed_there

-- Another thread pushes before the hazard pointer is cleared.
abbrev another_push : List (ℕ × Move ℕ)
another_push = (0, acts (begin_push 9 2 0)) ∷ goes 0 ∷ goes 0 ∷ []

another_push-Rests : Rests 0 1 another_push
another_push-Rests = ((λ e. omega arith), ((λ e. omega arith), ((λ e. omega arith), tt)))

another_push-Orderly :
    Orderly 0 another_push (step 0 (goes 1) (run 0 (one_push ++ to_exchange) start))
unfolding run
another_push-Orderly =
    Orderly-rest 0 (one_push ++ to_exchange ++ (goes 1 ∷ [])) another_push start
      (Stays-Orderly 0 (one_push ++ to_exchange ++ (goes 1 ∷ []) ++ another_push) tt)

nothing_left :
    Orderly 0 [] (
      step 0
        (goes 1)
        (run 0 another_push (step 0 (goes 1) (run 0 (one_push ++ to_exchange) start))))
unfolding Orderly
nothing_left = tt

threads_pop_deliver_example :
    let w = run 0 (one_push ++ to_exchange) start in
    let before_swap = step 0 (goes 1) (run 0 another_push (step 0 (goes 1) w)) in
    (v : ℕ) × (effect (go false) (exchanging 1 0) w.stack.mem ≡ pops v)
    × (before_swap.seat 1 ≡ having 0)
    × (before_swap.stack.pc 0 ≡ taking 1)
    × (before_swap.stack.mem.heap 1 ≡ some (node v 0))
unfolding run
threads_pop_deliver_example =
    threads_pop_deliver 0 (one_push ++ to_exchange) another_push [] 1 0 1 0 has_slot at_exchange_now
      on_top_now another_push-Rests tt (Stays-Orderly 0 (one_push ++ to_exchange) tt)
      another_push-Orderly nothing_left

-- The race in `~hp_owner()`: thread 3 exits and stores the `id` of slot 0; thread 1 takes the slot and publishes
-- the node in it; then thread 3 stores null into the pointer of the slot. Thread 2 pops and deletes the node.
abbrev slot_race : List (ℕ × Move ℕ)
slot_race =
    first_pop
    ++ one_push
    ++ ((3, exits) ∷ [])
    ++ ((1, acts begin_pop) ∷ replicate 4 (goes 1))
    ++ (goes 3 ∷ [])
    ++ ((2, acts begin_pop) ∷ replicate 111 (goes 2))

-- Thread 1 reads the node that has been deleted.
use_after_free : place 1 (run 0 (slot_race ++ (goes 1 ∷ [])) start) ≡ fault
unfolding run ℕ_discrete HazardStack.step
use_after_free = refl
