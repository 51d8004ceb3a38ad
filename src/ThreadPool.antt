-- ===== src/ThreadPool.antt =====
-- c++_features_experiment/threadpools.cpp: the pool of worker threads, any number of threads that submit
-- jobs, and the thread that destroys the pool; what runs under the mutex is one step, and so is each
-- call on the condition variable. A job is a value of `J`; what it does when it is called is not modelled.
mod Fifo
mod Inv
mod Steps
mod Shutdown
mod Finish
mod Tests
use modern_cpp_ds.Common.{
  ℕ, zero, suc, Bool, true, false, List, [], ◌∷◌, ◌++◌, ltb, if◌then◌else◌, ite, ℕ_discrete, ◌&&◌,
  ◌-◌,
}

-- Where `do_work` stands in a worker.
pub data Worker (J : Type 0) : Type 0 where
  looking : Worker J  -- about to lock the mutex and test the predicate of `wait`
  asleep : Worker J  -- in `start.wait`
  busy : (job : J) → Worker J  -- in `job()`
  exited : Worker J

-- Where the destructor stands.
pub data Closer : Type 0 where
  serving : Closer  -- not called
  stopping : Closer  -- `stop` is set; about to call `notify_all`
  joining : (i : ℕ) → Closer  -- about to join worker `i`
  gone : Closer

module _ (J : Type 0) where
  pub record Pool : Type 0 where
    pub stop : Bool
    pub threads : ℕ
    pub jobs : List J
    pub workers : ℕ → Worker J
    pub notifying : ℕ  -- threads in `submit_job` that have pushed a job and not yet called `notify_one`
    pub closer : Closer

  pub data Action : Type 0 where
    submit : J → Action  -- `submit_job` up to the end of its inner block
    notify : ℕ → Action  -- `notify_one`, which wakes this worker if it wakes any
    work : ℕ → Action  -- the next step of this worker
    wake : ℕ → Action  -- a spurious wake-up of this worker
    close : Action  -- the next step of the destructor

module _ {J : Type 0} where
  -- `threadpool(n)`: every worker has been started.
  abbrev pub create : ℕ → Pool J
  create n = record {
    stop = false;
    threads = n;
    jobs = [];
    workers = λ _. looking;
    notifying = 0;
    closer = serving;
  }

  abbrev pub update : (ℕ → Worker J) → ℕ → Worker J → ℕ → Worker J
  update workers i w j = ite (ℕ_discrete i j) w (workers j)

  abbrev pub is_asleep : Worker J → Bool
  is_asleep asleep = true
  is_asleep _ = false

  abbrev pub is_exited : Worker J → Bool
  is_exited exited = true
  is_exited _ = false

  -- Nobody among the first `n` workers waits.
  abbrev pub none_asleep : ℕ → (ℕ → Worker J) → Bool
  none_asleep zero workers = true
  none_asleep (suc n) workers =
      let rest = none_asleep n workers in if is_asleep (workers n) then false else rest

  abbrev pub woken : Worker J → Worker J
  woken asleep = looking
  woken w = w

  -- `submit_job` throws once `stop` is set.
  abbrev pub push_job : Bool → J → Pool J → Pool J
  push_job true job p = p
  push_job false job p = record p { jobs = p.jobs ++ (job ∷ []); notifying = suc p.notifying }

  -- `notify_one`: some waiting worker, if there is one.
  abbrev pub notify_one : ℕ → Pool J → Pool J
  notify_one i p =
      if is_asleep (p.workers i)
      then record p { notifying = p.notifying - 1; workers = update p.workers i looking }
      else if none_asleep p.threads p.workers
      then record p { notifying = p.notifying - 1 }
      else p

  -- A worker that holds the mutex: the predicate, the exit, or the job at the front.
  abbrev pub look : ℕ → Bool → List J → Pool J → Pool J
  look i true [] p = record p { workers = update p.workers i exited }
  look i false [] p = record p { workers = update p.workers i asleep }
  look i stop (job ∷ rest) p = record p { jobs = rest; workers = update p.workers i (busy job) }

  abbrev pub do_work : ℕ → Worker J → Pool J → Pool J
  do_work i looking p = look i p.stop p.jobs p
  do_work i (busy job) p = record p { workers = update p.workers i looking }
  do_work i _ p = p

  abbrev pub destroy : Closer → Pool J → Pool J
  destroy serving p = record p { stop = true; closer = stopping }
  destroy stopping p = record p { workers = λ j. woken (p.workers j); closer = joining 0 }
  destroy (joining i) p =
      if ltb i p.threads
      then if is_exited (p.workers i) then record p { closer = joining (suc i) } else p
      else record p { closer = gone }
  destroy gone p = p

  unfoldable pub step : Action J → Pool J → Pool J
  step (submit job) p = push_job p.stop job p
  step (notify i) p =
      if ltb 0 p.notifying then (if ltb i p.threads then notify_one i p else p) else p
  step (work i) p = if ltb i p.threads then do_work i (p.workers i) p else p
  step (wake i) p =
      if ltb i p.threads then record p { workers = update p.workers i (woken (p.workers i)) } else p
  step close p = destroy p.closer p

  unfoldable pub run : List (Action J) → Pool J → Pool J
  unfolding step
  run [] p = p
  run (a ∷ es) p = run es (step a p)
