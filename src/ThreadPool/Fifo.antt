-- ===== src/ThreadPool/Fifo.antt =====
-- c++_features_experiment/threadpools.cpp: which jobs are taken, and in which order.
use mathlib.Core.List.{append_assoc, append-nil}
use modern_cpp_ds.Common.{
  dec_lt, ℕ, ◌≡◌, refl, sym, ap, ◌∙◌, Bool, true, false, List, [], ◌∷◌, ◌++◌, arith, ltb,
  if◌then◌else◌,
}
use modern_cpp_ds.ThreadPool.{
  Worker, looking, Pool, Action, push_job, destroy, do_work, look, asleep, busy, exited, Closer,
  serving, stopping, joining, gone, close, notify, wake, submit, work, step, run,
}

module _ {J : Type 0} where
  -- The jobs that `submit_job` accepts in a step.
  abbrev pub accepts : Action J → Bool → List J
  accepts (submit job) false = job ∷ []
  accepts _ _ = []

  abbrev front : List J → List J
  front [] = []
  front (job ∷ _) = job ∷ []

  abbrev takes_at : Worker J → List J → List J
  takes_at looking jobs = front jobs
  takes_at _ jobs = []

  -- The jobs that a worker takes in a step.
  abbrev pub takes : Action J → Pool J → List J
  takes (work i) p = if ltb i p.threads then takes_at (p.workers i) p.jobs else []
  takes _ p = []

  unfoldable pub accepted : List (Action J) → Pool J → List J
  unfolding step
  accepted [] p = []
  accepted (a ∷ es) p = accepts a p.stop ++ accepted es (step a p)

  unfoldable pub begun : List (Action J) → Pool J → List J
  unfolding step
  begun [] p = []
  begun (a ∷ es) p = takes a p ++ begun es (step a p)

  look_step :
      (i : ℕ) (b : Bool) (jobs : List J) (p : Pool J)
      → p.jobs ≡ jobs
      → front jobs ++ (look i b jobs p).jobs ≡ jobs
  look_step i true [] p e = e
  look_step i false [] p e = e
  look_step i b (job ∷ rest) p e = refl

  work_step :
      (i : ℕ) (w : Worker J) (p : Pool J) → takes_at w p.jobs ++ (do_work i w p).jobs ≡ p.jobs
  work_step i looking p = look_step i p.stop p.jobs p refl
  work_step i asleep p = refl
  work_step i (busy job) p = refl
  work_step i exited p = refl

  -- A step takes what stood at the front, and appends what it accepts.
  queue_step :
      (a : Action J) (p : Pool J) → takes a p ++ (step a p).jobs ≡ p.jobs ++ accepts a p.stop
  unfolding step
  queue_step (submit job) p = submits p.stop
    where
      submits : (b : Bool) → (push_job b job p).jobs ≡ p.jobs ++ accepts (submit job) b
      submits true = sym (append-nil p.jobs)
      submits false = refl
  queue_step (notify i) p = ground (arith, append-nil p.jobs)
  queue_step (wake i) p = ground (arith, append-nil p.jobs)
  queue_step close p = closes p.closer
    where
      closes : (c : Closer) → (destroy c p).jobs ≡ p.jobs ++ []
      closes serving = sym (append-nil p.jobs)
      closes stopping = sym (append-nil p.jobs)
      closes (joining i) = ground (arith, append-nil p.jobs)
      closes gone = sym (append-nil p.jobs)
  queue_step (work i) p = elim (dec_lt i p.threads) [
    | yes lt ↦ ground (arith, append-nil p.jobs, work_step i (p.workers i) p)
    | no nl ↦ ground (arith, append-nil p.jobs)
  ]

  pub queue_run :
      (es : List (Action J)) (p : Pool J) → begun es p ++ (run es p).jobs ≡ p.jobs ++ accepted es p
  unfolding run accepted begun
  queue_run [] p = sym (append-nil p.jobs)
  queue_run (a ∷ es) p =
      append_assoc (takes a p) (begun es (step a p)) (run es (step a p)).jobs
      ∙ ap (λ x. takes a p ++ x) (queue_run es (step a p))
      ∙ sym (append_assoc (takes a p) (step a p).jobs (accepted es (step a p)))
      ∙ ap (λ x. x ++ accepted es (step a p)) (queue_step a p)
      ∙ append_assoc p.jobs (accepts a p.stop) (accepted es (step a p))
