-- ===== src/MpmcLockfree/Refine.antt =====
-- mpmc_lockfree.cpp: the exchanges on the two positions as steps of a sequential queue.
use modern_cpp_ds.Common.{
  ℕ, suc, ◌+◌, ◌^◌, ◌≤◌, ◌<◌, ◌≡◌, refl, ◌∙◌, Bool, true, false, Option, some, List, [], ◌∷◌, ◌++◌,
  ◌==◌, arith, length, ℕ_discrete, if◌then◌else◌,
}
use modern_cpp_ds.Common.Histories.{Steps, done, then_}
use modern_cpp_ds.MpmcLockfree.{
  slot, size_t, begin_enqueue, begin_dequeue, Pc, compared, compared_out, Shared, System, Action,
  go, write, move, step, run, create,
}
use modern_cpp_ds.MpmcLockfree.Frame.{Local, claim, claim_out}
use modern_cpp_ds.MpmcLockfree.Inv.{Cells, Inv}
use modern_cpp_ds.MpmcLockfree.Keeps.{move-Keeps}
use modern_cpp_ds.MpmcLockfree.Fifo.{create-Inv}

-- What an access does to the queue of values.
pub data Effect (T : Type 0) : Type 0 where
  silent : Effect T
  enqueues : T → Effect T
  dequeues : Option T → Effect T

module _ {T : Type 0} where
  -- A `dequeue` whose exchange succeeds takes what its cell holds.
  abbrev pub effect : Action T → Pc T → Shared T → Effect T
  effect (go spurious) (compared d pos seq) m =
      if seq == pos
      then if spurious then silent else if m.enqueue_pos == pos then enqueues d else silent
      else silent
  effect (go spurious) (compared_out pos seq) m =
      if seq == size_t (pos + 1)
      then if spurious
        then silent
        else if m.dequeue_pos == pos
        then dequeues (m.datum (slot pos))
        else silent
      else silent
  effect _ _ m = silent

  -- The sequential queue, the oldest value first.
  abbrev pub Applies : Effect T → List T → List T → Type 0
  Applies silent xs ys = ys ≡ xs
  Applies (enqueues d) xs ys = ys ≡ xs ++ (d ∷ [])
  Applies (dequeues o) xs ys = (v : T) × (o ≡ some v) × (xs ≡ v ∷ ys)

  -- The values of the positions from `p` up to `q`.
  abbrev pub Between : (ℕ → Option T) → ℕ → List T → ℕ → Type 0
  Between f p [] q = p ≡ q
  Between f p (x ∷ xs) q = (f p ≡ some x) × Between f (p + 1) xs q

  Between-le : (f : ℕ → Option T) (p : ℕ) (xs : List T) (q : ℕ) → Between f p xs q → p ≤ q
  Between-le f p [] q e = omega arith
  Between-le f p (x ∷ xs) q (h, rest) = omega (arith, Between-le f (p + 1) xs q rest)

  -- A value is written behind the others.
  Between-write :
      (f : ℕ → Option T) (p : ℕ) (xs : List T) (q : ℕ) (d : T)
      → Between f p xs q
      → Between (write f q (some d)) p (xs ++ (d ∷ [])) (q + 1)
  Between-write f p [] q d e = (ground arith, omega arith)
  Between-write f p (x ∷ xs) q d (h, rest) =
      let le = Between-le f (p + 1) xs q rest in (ground arith, Between-write f (p + 1) xs q d rest)

  -- The state after an access, and the values that are left.
  abbrev Next : Shared T → Effect T → List T → Type 0
  Next m' e xs =
      (ys : List T) × Between m'.sent_at m'.dequeue_pos ys m'.enqueue_pos × Applies e xs ys

  Next-of :
      (m m' : Shared T) (e e' : Effect T) (xs : List T)
      → m' ≡ m
      → e' ≡ e
      → Next m e xs
      → Next m' e' xs
  Next-of m m' e e' xs f g h = rw (f, g) h

  enqueued :
      (b : Bool) (d : T) (pos seq n : ℕ) (m : Shared T) (xs : List T)
      → Cells n m
      → n < 2 ^ 62
      → Between m.sent_at m.dequeue_pos xs m.enqueue_pos
      → Next (move (go b) (compared d pos seq) m).0 (effect (go b) (compared d pos seq) m) xs
  unfolding move
  enqueued true d pos seq n m xs v small old =
      Next-of m (move (go true) (compared d pos seq) m).0 silent
        (effect (go true) (compared d pos seq) m) xs (ground arith) (ground arith) (xs, old, refl)
  enqueued false d pos seq n m xs v small old = elim (ℕ_discrete seq pos) [
    | no ne ↦
        Next-of m (move (go false) (compared d pos seq) m).0 silent
          (effect (go false) (compared d pos seq) m) xs (ground arith) (ground arith)
          (xs, old, refl)
    | yes same ↦ elim (ℕ_discrete m.enqueue_pos pos) [
      | no ne ↦
          Next-of m (move (go false) (compared d pos seq) m).0 silent
            (effect (go false) (compared d pos seq) m) xs (ground arith) (ground arith)
            (xs, old, refl)
      | yes e ↦
          let next : size_t (pos + 1) ≡ pos + 1 = omega (arith, v.bound) in
          Next-of (claim pos d m) (move (go false) (compared d pos seq) m).0 (enqueues d)
            (effect (go false) (compared d pos seq) m) xs (ground (arith, next)) (ground arith)
            (xs ++ (d ∷ []), Between-write m.sent_at m.dequeue_pos xs pos d (rw (← e) old), refl)
    ]
  ]

  -- The oldest value is the one in the cell.
  oldest :
      (pos n : ℕ) (m : Shared T) (xs : List T)
      → Cells n m
      → m.dequeue_pos ≡ pos
      → m.sequence (slot pos) ≡ pos + 1
      → Between m.sent_at m.dequeue_pos xs m.enqueue_pos
      → Next (claim_out pos m) (dequeues (m.datum (slot pos))) xs
  oldest pos n m [] v e s old = absurd (ground (arith, v.ahead pos, v.ordered))
  oldest pos n m (x ∷ xs) v e s (h, rest) =
      let le = Between-le m.sent_at (m.dequeue_pos + 1) xs m.enqueue_pos rest in
      let holds : m.datum (slot pos) ≡ m.sent_at pos = ground (arith, v.live pos) in
      (xs, rw (← e) rest, (x, holds ∙ rw (← e) h, refl))

  dequeued :
      (b : Bool) (pos seq n : ℕ) (m : Shared T) (xs : List T)
      → Cells n m
      → n < 2 ^ 62
      → Local (compared_out pos seq) m
      → Between m.sent_at m.dequeue_pos xs m.enqueue_pos
      → Next (move (go b) (compared_out pos seq) m).0 (effect (go b) (compared_out pos seq) m) xs
  unfolding move
  dequeued true pos seq n m xs v small l old =
      Next-of m (move (go true) (compared_out pos seq) m).0 silent
        (effect (go true) (compared_out pos seq) m) xs (ground arith) (ground arith) (xs, old, refl)
  dequeued false pos seq n m xs v small l old =
      let next : size_t (pos + 1) ≡ pos + 1 = omega (arith, v.bound, v.ordered, l.0) in
      elim (ℕ_discrete seq (pos + 1)) [
        | no ne ↦
            Next-of m (move (go false) (compared_out pos seq) m).0 silent
              (effect (go false) (compared_out pos seq) m) xs (ground (arith, next))
              (ground (arith, next)) (xs, old, refl)
        | yes same ↦ elim (ℕ_discrete m.dequeue_pos pos) [
          | no ne ↦
              Next-of m (move (go false) (compared_out pos seq) m).0 silent
                (effect (go false) (compared_out pos seq) m) xs (ground (arith, next))
                (ground (arith, next)) (xs, old, refl)
          | yes e ↦
              Next-of (claim_out pos m) (move (go false) (compared_out pos seq) m).0
                (dequeues (m.datum (slot pos))) (effect (go false) (compared_out pos seq) m) xs
                (ground (arith, next)) (ground (arith, next))
                (oldest pos n m xs v e (l.1 same e) old)
        ]
      ]

  move-Next :
      (a : Action T) (c : Pc T) (n : ℕ) (m : Shared T) (xs : List T)
      → Cells n m
      → n < 2 ^ 62
      → Local c m
      → Between m.sent_at m.dequeue_pos xs m.enqueue_pos
      → Next (move a c m).0 (effect a c m) xs
  unfolding move
  move-Next (go b) (compared d pos seq) n m xs v small l old =
      enqueued b d pos seq n m xs v small old
  move-Next (go b) (compared_out pos seq) n m xs v small l old =
      dequeued b pos seq n m xs v small l old
  move-Next (begin_enqueue d) c n m xs v small l old =
      Next-of m (move (begin_enqueue d) c m).0 silent (effect (begin_enqueue d) c m) xs
        (ground arith) refl (xs, old, refl)
  move-Next begin_dequeue c n m xs v small l old =
      Next-of m (move begin_dequeue c m).0 silent (effect begin_dequeue c m) xs (ground arith) refl
        (xs, old, refl)
  move-Next (go b) c n m xs v small l old = (xs, old, refl)

  -- The effects of the accesses of a schedule, in order.
  unfoldable pub effects : List (ℕ × Action T) → System T → List (Effect T)
  unfolding step
  effects [] s = []
  effects ((i, a) ∷ es) s = effect a (s.pc i) s.mem ∷ effects es (step (i, a) s)

  -- A sequential queue with contents `xs` has this history, and ends with contents `ys`.
  abbrev pub History : List (Effect T) → List T → List T → Type 0
  History = Steps Applies

  run-History :
      (n : ℕ) (es : List (ℕ × Action T)) (s : System T) (xs : List T)
      → n + length es < 2 ^ 62
      → Inv n s.mem s.pc
      → Between s.mem.sent_at s.mem.dequeue_pos xs s.mem.enqueue_pos
      → (ys : List T) × (let m = (run es s).mem in Between m.sent_at m.dequeue_pos ys m.enqueue_pos)
        × History (effects es s) xs ys
  unfolding run effects step
  run-History n [] s xs small v old = (xs, old, done)
  run-History n ((i, a) ∷ es) s xs small v old =
      let (ys, left, one) =
        move-Next a (s.pc i) n s.mem xs v.cells (omega arith) (v.locals i) old in
      let v' = move-Keeps a (s.pc i) n i s.mem s.pc (omega arith) refl v in
      let (end, left', more) = run-History (suc n) es (step (i, a) s) ys (omega arith) v' left in
      (end, left', then_ one more)

  -- Refinement of a queue: in every schedule of fewer than 2 ^ 62 accesses, by any number of threads, the
  -- successful exchanges are the operations of a sequential first-in first-out queue that starts empty. The
  -- exchange of `enqueue` puts its value in, and that of `dequeue` takes the oldest value out, which its cell
  -- holds at that moment. What is left are the values of the positions between the two counters.
  pub queue_linearizable :
      (es : List (ℕ × Action T))
      → length es < 2 ^ 62
      → (xs : List T) × (let m = (run es create).mem in
          Between m.sent_at m.dequeue_pos xs m.enqueue_pos)
        × History (effects es create) [] xs
  queue_linearizable es small = run-History 0 es create [] (omega arith) create-Inv refl
