-- ===== src/ThreadPool/Shutdown.antt =====
-- c++_features_experiment/threadpools.cpp: that jobs are served, and what the destructor leaves behind.
use modern_cpp_ds.Common.{
  ℕ, ◌<◌, ◌≡◌, ◌≢◌, sym, ap, ◌∙◌, true, false, List, [], ◌++◌, ◌⊎◌, inl, inr,
}
use modern_cpp_ds.ThreadPool.{gone, Action, create, is_asleep, is_exited, run}
use modern_cpp_ds.ThreadPool.Inv.{Notified, Awake, Joined, create-Inv}
use modern_cpp_ds.ThreadPool.Fifo.{accepted, begun, queue_run}
use mathlib.Core.List.{append-nil}
use modern_cpp_ds.ThreadPool.Steps.{run-Inv, threads_fixed}

module _ {J : Type 0} where
  -- First in, first out: the jobs that the workers have taken, followed by those that wait in the queue,
  -- are the jobs that `submit_job` has accepted, in the order in which it accepted them.
  pub jobs_in_order :
      (n : ℕ) (es : List (Action J))
      → begun es (create n) ++ (run es (create n)).jobs ≡ accepted es (create n)
  jobs_in_order n es = queue_run es (create n)

  -- No job is stranded: in a pool with a thread, whenever a job waits, some thread that submitted a job is
  -- about to call `notify_one` or some worker is neither asleep nor gone.
  pub job_served :
      (n : ℕ) (es : List (Action J))
      → 0 < n
      → (run es (create n)).jobs ≢ []
      → (0 < (run es (create n)).notifying)
        ⊎ ((i : ℕ) × (i < n) × Awake ((run es (create n)).workers i))
  job_served n es lt ne = elim ((run-Inv es (create n) (create-Inv n lt)).served ne) [
    | inl l ↦ inl l
    | inr (i, l, a) ↦ inr (i, rw (threads_fixed es (create n)) at l, a)
  ]

  -- Once the destructor has called `notify_all`, no worker is asleep.
  pub nobody_sleeps_on :
      (n : ℕ) (es : List (Action J)) (i : ℕ)
      → 0 < n
      → Notified (run es (create n)).closer
      → is_asleep ((run es (create n)).workers i) ≡ false
  nobody_sleeps_on n es i lt h = (run-Inv es (create n) (create-Inv n lt)).wakened h i

  -- When the destructor of a pool with a thread returns, the workers have taken all jobs that `submit_job`
  -- ever accepted, in that order, and every worker has ended, so that each of the jobs has run to its end.
  pub destructor_drains :
      (n : ℕ) (es : List (Action J))
      → 0 < n
      → (run es (create n)).closer ≡ gone
      → (begun es (create n) ≡ accepted es (create n))
        × ((i : ℕ) → i < n → is_exited ((run es (create n)).workers i) ≡ true)
  destructor_drains n es lt at =
      let v = run-Inv es (create n) (create-Inv n lt) in
      let done : Joined gone (run es (create n)).threads (run es (create n)).workers =
        rw at at v.joined in
      let all : (i : ℕ) → i < n → is_exited ((run es (create n)).workers i) ≡ true =
        λ i l. done i (rw (threads_fixed es (create n)) l) in
      let (_, empty) = v.drained 0 (all 0 lt) in
      (
        sym (append-nil (begun es (create n)))
            ∙ ap (λ jobs. begun es (create n) ++ jobs) (sym empty)
            ∙ jobs_in_order n es,
        all,
      )
