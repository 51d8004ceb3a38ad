-- ===== src/ThreadPool/Finish.antt =====
-- c++_features_experiment/threadpools.cpp: that the destructor can always come to its end.
use modern_cpp_ds.Common.{
  zero, ℕ, ◌<◌, ◌≡◌, refl, ap, ◌∙◌, true, List, [], ◌∷◌, ◌++◌, lt→ltb, ite, ℕ_discrete, arith, ◌≤◌,
  suc, ◌+◌, dec_lt,
}
use modern_cpp_ds.ThreadPool.{
  asleep, Worker, looking, busy, exited, Closer, serving, stopping, joining, gone, Pool, Action,
  submit, notify, work, wake, update, is_exited, look, do_work, step, run, close, create, destroy,
}
use modern_cpp_ds.ThreadPool.Inv.{Stage, Notified, Inv, create-Inv}
use modern_cpp_ds.ThreadPool.Steps.{step-Inv, run-Inv, step-threads, threads_fixed}

module _ {J : Type 0} where
  update_self : (workers : ℕ → Worker J) (i : ℕ) (w : Worker J) → update workers i w i ≡ w
  update_self workers i w = own (ℕ_discrete i i)
    where
      own : (d : Dec (i ≡ i)) → ite d w (workers i) ≡ w
      own (yes e) = refl
      own (no ne) = absurd (ne refl)

  -- The next step of worker `i`.
  works : (i : ℕ) (p : Pool J) → i < p.threads → step (work i) p ≡ do_work i (p.workers i) p
  unfolding step
  works i p lt = rw (lt→ltb i p.threads lt) refl

  record Worked (i : ℕ) (p : Pool J) (w : Worker J) (jobs : List J) : Type 0 where
    at : (step (work i) p).workers i ≡ w
    left : (step (work i) p).jobs ≡ jobs
    closing : (step (work i) p).closer ≡ p.closer

  ends_job :
      (i : ℕ) (p : Pool J) (job : J)
      → i < p.threads
      → p.workers i ≡ busy job
      → Worked i p looking p.jobs
  ends_job i p job lt e =
      let s : step (work i) p ≡ record p { workers = update p.workers i looking } =
        works i p lt ∙ ap (λ w. do_work i w p) e in
      record {
        at = ap (λ q. q.workers i) s ∙ update_self p.workers i looking;
        left = ap (λ q. q.jobs) s;
        closing = ap (λ q. q.closer) s;
      }

  takes_job :
      (i : ℕ) (p : Pool J) (job : J) (rest : List J)
      → i < p.threads
      → p.workers i ≡ looking
      → p.jobs ≡ job ∷ rest
      → Worked i p (busy job) rest
  takes_job i p job rest lt e f =
      let s : step (work i) p ≡ record p { jobs = rest; workers = update p.workers i (busy job) } =
        works i p lt ∙ ap (λ w. do_work i w p) e ∙ ap (λ xs. look i p.stop xs p) f in
      record {
        at = ap (λ q. q.workers i) s ∙ update_self p.workers i (busy job);
        left = ap (λ q. q.jobs) s;
        closing = ap (λ q. q.closer) s;
      }

  ends :
      (i : ℕ) (p : Pool J)
      → i < p.threads
      → p.workers i ≡ looking
      → p.jobs ≡ []
      → p.stop ≡ true
      → Worked i p exited []
  ends i p lt e f st =
      let s : step (work i) p ≡ record p { workers = update p.workers i exited } =
        works i p lt
        ∙ ap (λ w. do_work i w p) e
        ∙ ap (λ xs. look i p.stop xs p) f
        ∙ ap (λ b. look i b [] p) st in
      record {
        at = ap (λ q. q.workers i) s ∙ update_self p.workers i exited;
        left = ap (λ q. q.jobs) s ∙ f;
        closing = ap (λ q. q.closer) s;
      }

  run-append : (xs ys : List (Action J)) (p : Pool J) → run (xs ++ ys) p ≡ run ys (run xs p)
  unfolding run
  run-append [] ys p = refl
  run-append (x ∷ xs) ys p = run-append xs ys (step x p)

  stopped : (p : Pool J) → Inv p → Notified p.closer → p.stop ≡ true
  stopped p v n = from p.closer n v.stage
    where
      from : (c : Closer) → Notified c → Stage c p.stop → p.stop ≡ true
      from serving n s = absurd n
      from stopping n s = s
      from (joining k) n s = s
      from gone n s = s

  -- Only the workers and the destructor take steps, and no worker is woken without a reason.
  abbrev pub Unaided : List (Action J) → Type 0
  Unaided [] = Unit {0}
  Unaided (work _ ∷ es) = Unaided es
  Unaided (close ∷ es) = Unaided es
  Unaided (submit _ ∷ es) = ⊥
  Unaided (notify _ ∷ es) = ⊥
  Unaided (wake _ ∷ es) = ⊥

  Unaided-append : (xs ys : List (Action J)) → Unaided xs → Unaided ys → Unaided (xs ++ ys)
  Unaided-append [] ys u u' = u'
  Unaided-append (work _ ∷ xs) ys u u' = Unaided-append xs ys u u'
  Unaided-append (close ∷ xs) ys u u' = Unaided-append xs ys u u'
  Unaided-append (submit _ ∷ xs) ys u u' = absurd u
  Unaided-append (notify _ ∷ xs) ys u u' = absurd u
  Unaided-append (wake _ ∷ xs) ys u u' = absurd u

  -- A schedule after which worker `i` has ended, and the destructor stands where it stood.
  abbrev Ends : ℕ → Pool J → Type 0
  Ends i p =
      (es : List (Action J)) × Unaided es
      × (is_exited ((run es p).workers i) ≡ true)
      × ((run es p).closer ≡ p.closer)

  first_work :
      (i : ℕ) (p : Pool J) (w : Worker J) (jobs : List J)
      → Worked i p w jobs
      → Ends i (step (work i) p)
      → Ends i p
  unfolding run
  first_work i p w jobs k (es, u, e, c) = (work i ∷ es, u, e, c ∙ k.closing)

  -- Worker `i` is at the predicate: it takes job after job, and ends.
  finish_looking :
      (jobs : List J) (i : ℕ) (p : Pool J)
      → p.jobs ≡ jobs
      → Inv p
      → Notified p.closer
      → i < p.threads
      → p.workers i ≡ looking
      → Ends i p
  unfolding run step
  finish_looking [] i p f v n lt e =
      let k = ends i p lt e f (stopped p v n) in
      first_work i p exited [] k ([], tt, ended (step (work i) p) k.at, refl)
    where
      ended : (q : Pool J) → q.workers i ≡ exited → is_exited (q.workers i) ≡ true
      ended q h = ap is_exited h
  finish_looking (job ∷ rest) i p f v n lt e =
      let k = takes_job i p job rest lt e f in
      let p' = step (work i) p in
      let lt' : i < p'.threads = rw (step-threads (work i) p) lt in
      let k' = ends_job i p' job lt' k.at in
      let p'' = step (work i) p' in
      let v'' = step-Inv (work i) p' (step-Inv (work i) p v) in
      first_work i p (busy job) rest k (
        first_work i p' looking p'.jobs k' (
          finish_looking rest i p'' (k'.left ∙ k.left) v'' (rw (k'.closing, k.closing) n)
            (rw (step-threads (work i) p') lt') k'.at))

  -- Wherever worker `i` stands, it can end.
  finish :
      (w : Worker J) (i : ℕ) (p : Pool J)
      → p.workers i ≡ w
      → Inv p
      → Notified p.closer
      → i < p.threads
      → Ends i p
  unfolding run
  finish looking i p e v n lt = finish_looking p.jobs i p refl v n lt e
  finish asleep i p e v n lt = let up = v.wakened n i in absurd (ground (arith, e, up))
  finish (busy job) i p e v n lt =
      let k = ends_job i p job lt e in
      first_work i p looking p.jobs k (
        finish_looking (step (work i) p).jobs i (step (work i) p) refl (step-Inv (work i) p v)
          (rw k.closing n) (rw (step-threads (work i) p) lt) k.at)
  finish exited i p e v n lt = ([], tt, ap is_exited e, refl)

  -- The destructor joins the worker that has ended.
  joins :
      (k : ℕ) (p : Pool J)
      → p.closer ≡ joining k
      → k < p.threads
      → is_exited (p.workers k) ≡ true
      → (step close p).closer ≡ joining (suc k)
  unfolding step
  joins k p e lt x = ap (λ c. (destroy c p).closer) e ∙ ground (arith, x)

  leaves :
      (k : ℕ) (p : Pool J) → p.closer ≡ joining k → p.threads ≤ k → (step close p).closer ≡ gone
  unfolding step
  leaves k p e le = ap (λ c. (destroy c p).closer) e ∙ ground arith

  join_all :
      (left k : ℕ) (p : Pool J)
      → p.closer ≡ joining k
      → Inv p
      → p.threads ≤ k + left
      → (es : List (Action J)) × Unaided es × ((run es p).closer ≡ gone)
  unfolding run
  join_all zero k p e v le = (close ∷ [], tt, leaves k p e (omega arith))
  join_all (suc left) k p e v le = elim (dec_lt k p.threads) [
    | no nl ↦ (close ∷ [], tt, leaves k p e (omega arith))
    | yes lt ↦
        let (es, u, x, same) = finish (p.workers k) k p refl v (rw e tt) lt in
        let q = run es p in
        let next = joins k q (same ∙ e) (rw (threads_fixed es p) lt) x in
        let fewer : (step close q).threads ≤ suc k + left =
          let t = step-threads close q in let t' = threads_fixed es p in omega (arith, t, t') in
        let (es', u', end) =
          join_all left (suc k) (step close q) next (step-Inv close q (run-Inv es p v)) fewer in
        (
          es ++ (close ∷ es'),
          Unaided-append es (close ∷ es') u u',
          ap (λ r. r.closer) (run-append es (close ∷ es') p) ∙ end,
        )
  ]

  -- The destructor does not hang: in a pool with a thread, from whatever state the pool has come to once
  -- `notify_all` was called, there are steps of the workers and of the destructor alone, without a spurious
  -- wake-up and without a call from outside, after which the destructor has returned.
  pub shutdown_completes :
      (n k : ℕ) (es : List (Action J))
      → 0 < n
      → (run es (create n)).closer ≡ joining k
      → (es' : List (Action J)) × Unaided es' × ((run es' (run es (create n))).closer ≡ gone)
  shutdown_completes n k es lt at =
      let p = run es (create n) in
      join_all p.threads k p at (run-Inv es (create n) (create-Inv n lt)) (omega arith)
