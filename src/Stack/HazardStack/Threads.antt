-- ===== src/Stack/HazardStack/Threads.antt =====
-- stack_lockfree.cpp, `hazard_ptr`: the threads, which get a slot of `hazard_pointers` from `hp_owner()` at their
-- first `pop`, keep it, and give it back when they exit, in the two stores of `~hp_owner()`. The accesses
-- to the stack are those of HazardStack, made from the slot of the thread; a thread without a slot makes them from
-- an index beyond the table.
mod Inv
mod Steps
mod Simulates
pub mod Safety
pub mod Pops
pub mod Stay
use modern_cpp_ds.Common.{
  ℕ, suc, ◌+◌, ◌≡◌, ◌≢◌, Bool, true, false, List, [], ◌∷◌, ◌++◌, ltb, if◌then◌else◌, ite,
  ℕ_discrete,
}
use modern_cpp_ds.Stack.{null}
use modern_cpp_ds.Stack.HazardStack.{
  max_ptr, Pc, idle, System, Action, begin_push, begin_pop, go, protect,
}
use modern_cpp_ds.Stack.HazardStack

-- What a thread has of the table.
pub data Seat : Type 0 where
  without : Seat
  searching : (i : ℕ) → Seat  -- in `hp_owner()`, about to compare and exchange the `id` of slot `i`
  found : (i : ℕ) → Seat  -- the exchange succeeded; `pop` goes on
  having : (i : ℕ) → Seat
  cleared : (i : ℕ) → Seat  -- in `~hp_owner()`, `id` is stored; about to store null into `pointer`
  gone : Seat  -- the thread has exited

-- The index from which a thread makes its accesses to the stack.
abbrev pub index : ℕ → Seat → ℕ
index t (having i) = i
index t _ = max_ptr + t

abbrev pub is_idle : Pc → Bool
is_idle idle = true
is_idle _ = false

abbrev pub set_at {ℓ} : {A : Type ℓ} → (ℕ → A) → ℕ → A → ℕ → A
set_at f i x j = ite (ℕ_discrete i j) x (f j)

module _ (T : Type 0) where
  pub data Move : Type 0 where
    acts : Action T → Move
    exits : Move

  -- `taken i` tells that the `id` of slot `i` is not the default one.
  pub record Threads : Type 0 where
    pub stack : System T
    pub taken : ℕ → Bool
    pub seat : ℕ → Seat

module _ {T : Type 0} where
  -- Where thread `t` stands in the operations of the stack.
  abbrev pub place : ℕ → Threads T → Pc
  place t w = w.stack.pc (index t (w.seat t))

  abbrev pub sit : ℕ → Seat → Threads T → Threads T
  sit t c w = record w { seat = set_at w.seat t c }

  -- The exchange on the `id` of slot `i`; after the last slot, `hp_owner()` throws.
  abbrev pub try_slot : ℕ → ℕ → Threads T → Threads T
  try_slot t i w =
      if ltb i max_ptr
      then if w.taken i
        then sit t (searching (suc i)) w
        else sit t (found i) (record w { taken = set_at w.taken i true })
      else sit t without w

  -- `hp->id = std::thread::id()`
  abbrev pub store_id : ℕ → Threads T → Threads T
  store_id i w = record w { taken = set_at w.taken i false }

  -- `hp->pointer = nullptr`
  abbrev pub store_pointer : ℕ → System T → System T
  store_pointer i s = record s { mem = protect i null s.mem }

module _ {T : Type 0} (nothing : T) where
  abbrev pub call : ℕ → Action T → Threads T → Threads T
  call i a w = record w { stack = HazardStack.step nothing (i, a) w.stack }

  -- The next access of thread `t`, or the begin of an operation or of its exit.
  unfoldable pub thread_move : ℕ → Move T → Seat → Threads T → Threads T
  thread_move t (acts begin_pop) without w =
      if is_idle (w.stack.pc (max_ptr + t)) then sit t (searching 0) w else w
  thread_move t (acts (go _)) (searching i) w = try_slot t i w
  thread_move t (acts (go _)) (found i) w = call i begin_pop (sit t (having i) w)
  thread_move t (acts (begin_push v fresh junk)) without w =
      call (max_ptr + t) (begin_push v fresh junk) w
  thread_move t (acts (go b)) without w = call (max_ptr + t) (go b) w
  thread_move t (acts a) (having i) w = call i a w
  thread_move t exits without w = if is_idle (w.stack.pc (max_ptr + t)) then sit t gone w else w
  thread_move t exits (having i) w =
      if is_idle (w.stack.pc i) then sit t (cleared i) (store_id i w) else w
  thread_move t (acts (go _)) (cleared i) w =
      sit t gone (record w { stack = store_pointer i w.stack })
  thread_move t _ _ w = w

  unfoldable pub step : ℕ × Move T → Threads T → Threads T
  unfolding thread_move
  step (t, a) w = thread_move t a (w.seat t) w

  unfoldable pub run : List (ℕ × Move T) → Threads T → Threads T
  unfolding step
  run [] w = w
  run (e ∷ es) w = run es (step e w)

module _ {T : Type 0} where
  -- The accesses to the stack that a move makes, each with the index from which it is made.
  abbrev pub calls_of : ℕ → Move T → Seat → List (ℕ × Action T)
  calls_of t (acts (go _)) (found i) = (i, begin_pop) ∷ []
  calls_of t (acts (begin_push v fresh junk)) without = (max_ptr + t, begin_push v fresh junk) ∷ []
  calls_of t (acts (go b)) without = (max_ptr + t, go b) ∷ []
  calls_of t (acts a) (having i) = (i, a) ∷ []
  calls_of t _ _ = []

  -- The empty stack; no thread has a slot.
  abbrev pub start : Threads T
  start = record { stack = HazardStack.create; taken = λ _. false; seat = λ _. without }

module _ {T : Type 0} (nothing : T) where
  unfoldable pub calls : List (ℕ × Move T) → Threads T → List (ℕ × Action T)
  unfolding step
  calls [] w = []
  calls ((t, a) ∷ es) w = calls_of t a (w.seat t) ++ calls es (step nothing (t, a) w)

  -- No thread comes to a slot in `hp_owner()` while the thread that had it is between the two stores
  -- of `~hp_owner()`.
  unfoldable pub Orderly : List (ℕ × Move T) → Threads T → Type 0
  unfolding step
  Orderly [] w = Unit {0}
  Orderly ((t, a) ∷ es) w =
      ((i : ℕ) → w.seat t ≡ searching i → (u : ℕ) → w.seat u ≢ cleared i)
      × Orderly es (step nothing (t, a) w)
