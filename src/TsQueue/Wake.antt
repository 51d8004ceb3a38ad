-- ===== src/TsQueue/Wake.antt =====
-- c++_features_experiment/threadsafe_queue.cpp: what is popped, and that no wake-up is lost.
use mathlib.Core.List.{append_assoc, append-nil}
use modern_cpp_ds.Common.{
  ℕ, suc, zero, ◌≤◌, ◌<◌, ◌≡◌, ◌≢◌, ◌↔◌, refl, sym, ap, ◌∙◌, true, List, [], ◌∷◌, ◌++◌, length,
  length-append, arith,
}
use modern_cpp_ds.TsQueue.{
  Queue, Action, add_elem, wait_and_pop, resume, wake, create, wake_one, push, pop_or_wait,
  resume_one, step, run, empty,
}

module _ {T : Type 0} where
  abbrev front : List T → List T
  front [] = []
  front (x ∷ _) = x ∷ []

  abbrev takes : ℕ → Queue T → List T
  takes zero q = []
  takes (suc n) q = front q.safe_queue

  -- What a step adds, and what the `wait_and_pop` that it ends returns.
  abbrev pub adds : Action T → List T
  adds (add_elem x) = x ∷ []
  adds _ = []

  abbrev pub pops : Action T → Queue T → List T
  pops wait_and_pop q = front q.safe_queue
  pops resume q = takes q.woken q
  pops _ q = []

  unfoldable pub added : List (Action T) → List T
  added [] = []
  added (e ∷ es) = adds e ++ added es

  unfoldable pub popped : List (Action T) → Queue T → List T
  unfolding step
  popped [] q = []
  popped (e ∷ es) q = pops e q ++ popped es (step e q)

  wake-queue : (n : ℕ) (q : Queue T) → (wake_one n q).safe_queue ≡ q.safe_queue
  wake-queue zero q = refl
  wake-queue (suc n) q = refl

  pop_step :
      (xs : List T) (q : Queue T)
      → q.safe_queue ≡ xs
      → front xs ++ (pop_or_wait xs q).safe_queue ≡ xs
  pop_step [] q e = e
  pop_step (x ∷ xs) q e = refl

  resume_step : (n : ℕ) (q : Queue T) → takes n q ++ (resume_one n q).safe_queue ≡ q.safe_queue
  resume_step zero q = refl
  resume_step (suc n) q = pop_step q.safe_queue (record q { woken = n }) refl

  queue_step :
      (e : Action T) (q : Queue T) → pops e q ++ (step e q).safe_queue ≡ q.safe_queue ++ adds e
  unfolding step
  queue_step (add_elem x) q = wake-queue q.asleep (push x q)
  queue_step wait_and_pop q = pop_step q.safe_queue q refl ∙ sym (append-nil q.safe_queue)
  queue_step resume q = resume_step q.woken q ∙ sym (append-nil q.safe_queue)
  queue_step wake q = wake-queue q.asleep q ∙ sym (append-nil q.safe_queue)

  -- First in, first out: what `wait_and_pop` has returned so far, in the order of the calls' ends, followed
  -- by what the queue holds, is what `add_elem` has added, in its order.
  pub pops_in_order :
      (es : List (Action T)) (q : Queue T)
      → popped es q ++ (run es q).safe_queue ≡ q.safe_queue ++ added es
  unfolding run popped added
  pops_in_order [] q = sym (append-nil q.safe_queue)
  pops_in_order (e ∷ es) q =
      append_assoc (pops e q) (popped es (step e q)) (run es (step e q)).safe_queue
      ∙ ap (λ x. pops e q ++ x) (pops_in_order es (step e q))
      ∙ sym (append_assoc (pops e q) (step e q).safe_queue (added es))
      ∙ ap (λ x. x ++ added es) (queue_step e q)
      ∙ append_assoc q.safe_queue (adds e) (added es)

  -- If a thread sleeps, every element in the queue has a thread that has been woken for it.
  abbrev pub Covered : Queue T → Type 0
  Covered q = 0 < q.asleep → length q.safe_queue ≤ q.woken

  pop-Covered :
      (xs : List T) (q : Queue T)
      → q.safe_queue ≡ xs
      → (0 < q.asleep → length xs ≤ suc q.woken)
      → Covered (pop_or_wait xs q)
  pop-Covered [] q e c lt = let none_left = ap length e in omega (arith, none_left)
  pop-Covered (x ∷ xs) q e c lt = let le = c lt in omega (arith, le)

  resume-Covered : (n : ℕ) (q : Queue T) → q.woken ≡ n → Covered q → Covered (resume_one n q)
  resume-Covered zero q e c = c
  resume-Covered (suc n) q e c =
      pop-Covered q.safe_queue (record q { woken = n }) refl (λ lt. let le = c lt in omega arith)

  step-Covered : (e : Action T) (q : Queue T) → Covered q → Covered (step e q)
  unfolding step
  step-Covered (add_elem x) q c = add-Covered q.asleep refl
    where
      add-Covered : (n : ℕ) → q.asleep ≡ n → Covered (wake_one n (push x q))
      add-Covered zero e lt = absurd (omega arith)
      add-Covered (suc n) e lt =
          let le = c (omega arith) in
          let longer = length-append q.safe_queue (x ∷ []) in omega arith
  step-Covered wait_and_pop q c =
      pop-Covered q.safe_queue q refl (λ lt. let le = c lt in omega arith)
  step-Covered resume q c = resume-Covered q.woken q refl c
  step-Covered wake q c = woken-Covered q.asleep refl
    where
      woken-Covered : (n : ℕ) → q.asleep ≡ n → Covered (wake_one n q)
      woken-Covered zero e lt = absurd (omega arith)
      woken-Covered (suc n) e lt = let le = c (omega arith) in omega arith

  run-Covered : (es : List (Action T)) (q : Queue T) → Covered q → Covered (run es q)
  unfolding run
  run-Covered [] q c = c
  run-Covered (e ∷ es) q c = run-Covered es (step e q) (step-Covered e q c)

  -- No wake-up is lost: whatever the threads do and in whatever order, spurious wake-ups included, while a
  -- thread sleeps in `wait_and_pop` there are at least as many woken threads as elements in the queue.
  pub nobody_starves :
      (es : List (Action T))
      → 0 < (run es create).asleep
      → length (run es create).safe_queue ≤ (run es create).woken
  nobody_starves es = run-Covered es create (λ lt. absurd (omega arith))

  -- `empty()` answers true exactly when the queue is not empty.
  pub empty_inverted : (q : Queue T) → (empty q ≡ true) ↔ (q.safe_queue ≢ [])
  unfolding empty
  empty_inverted q = inverted q.safe_queue refl
    where
      inverted : (xs : List T) → q.safe_queue ≡ xs → (empty q ≡ true) ↔ (q.safe_queue ≢ [])
      inverted [] e = (λ t. absurd (ground arith), λ ne. absurd (ne e))
      inverted (x ∷ xs) e = (λ t. λ n. absurd (cc), λ ne. ground arith)
