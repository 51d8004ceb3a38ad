-- ===== src/ThreadPool/Tests.antt =====
-- c++_features_experiment/threadpools.cpp: the theorems at concrete runs.
use modern_cpp_ds.Common.{ℕ, ◌≡◌, ◌≢◌, ◌<◌, refl, true, List, [], ◌∷◌, ◌++◌, arith, ℕ_discrete, ◌⊎◌}
use modern_cpp_ds.ThreadPool.{
  joining, gone, Action, submit, notify, work, close, create, is_exited, run,
}
use modern_cpp_ds.ThreadPool.Finish.{Unaided, shutdown_completes}
use modern_cpp_ds.ThreadPool.Inv.{Awake}
use modern_cpp_ds.ThreadPool.Fifo.{accepted, begun}
use modern_cpp_ds.ThreadPool.Shutdown.{job_served, destructor_drains}

-- Both workers fall asleep; jobs 5 and 7 arrive, and worker 1 is woken and takes the first.
abbrev busy_pool : List (Action ℕ)
busy_pool = work 0 ∷ work 1 ∷ submit 5 ∷ submit 7 ∷ notify 1 ∷ work 1 ∷ []

-- Then the pool is destroyed.
abbrev whole_run : List (Action ℕ)
whole_run =
    busy_pool
    ++ (close
        ∷ submit 9
        ∷ close
        ∷ work 0
        ∷ work 0
        ∷ work 0
        ∷ work 1
        ∷ work 1
        ∷ close
        ∷ close
        ∷ close
        ∷ [])

job_waits : (run busy_pool (create 2)).jobs ≢ []
unfolding run ℕ_discrete
job_waits e = cc

job_served_example :
    (0 < (run busy_pool (create 2)).notifying)
    ⊎ ((i : ℕ) × (i < 2) × Awake ((run busy_pool (create 2)).workers i))
job_served_example = job_served 2 busy_pool (omega arith) job_waits

pool_gone : (run whole_run (create 2)).closer ≡ gone
unfolding run ℕ_discrete
pool_gone = refl

destructor_drains_example :
    (begun whole_run (create 2) ≡ accepted whole_run (create 2))
    × ((i : ℕ) → i < 2 → is_exited ((run whole_run (create 2)).workers i) ≡ true)
destructor_drains_example = destructor_drains 2 whole_run (omega arith) pool_gone

-- Worker 1 has a job, and the pool is about to join worker 0.
abbrev closing_run : List (Action ℕ)
closing_run = busy_pool ++ (close ∷ close ∷ [])

about_to_join : (run closing_run (create 2)).closer ≡ joining 0
unfolding run ℕ_discrete
about_to_join = refl

shutdown_completes_example :
    (es' : List (Action ℕ)) × Unaided es' × ((run es' (run closing_run (create 2))).closer ≡ gone)
shutdown_completes_example = shutdown_completes 2 0 closing_run (omega arith) about_to_join
