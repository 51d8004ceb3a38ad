-- ===== src/ThreadPool/Steps.antt =====
-- c++_features_experiment/threadpools.cpp: that every step keeps what holds between the steps.
use modern_cpp_ds.Common.{
  ltb→lt, ◌-◌, tests, ℕ, ◌<◌, ◌≡◌, ◌≢◌, refl, sym, ◌∙◌, Bool, true, false, List, [], ◌∷◌, arith,
  ltb, ℕ_discrete, ◌⊎◌, inl, inr, Bool-cases,
}
use modern_cpp_ds.ThreadPool.{
  Worker, looking, asleep, busy, exited, Closer, serving, stopping, joining, gone, Pool, Action,
  submit, notify, work, wake, close, update, is_asleep, is_exited, none_asleep, woken, push_job,
  notify_one, look, do_work, destroy, step, run,
}
use modern_cpp_ds.ThreadPool.Inv.{Stage, Notified, Joined, Inv, worker_changes, none_asleep_lem}

module _ {J : Type 0} where
  submit-Inv : (b : Bool) (job : J) (p : Pool J) → p.stop ≡ b → Inv p → Inv (push_job b job p)
  submit-Inv true job p e v = v
  submit-Inv false job p e v = record {
    staffed = v.staffed;
    stage = v.stage;
    drained = λ i x. let (st, _) = v.drained i x in absurd (cc);
    wakened = v.wakened;
    joined = v.joined;
    served = λ ne. inl (omega arith);
  }

  notify-Inv : (i : ℕ) (p : Pool J) → i < p.threads → Inv p → Inv (notify_one i p)
  notify-Inv i p lt v = elim (Bool-cases (is_asleep (p.workers i))) [
    | inl a ↦ rw a (
        worker_changes p i looking p.jobs (p.notifying - 1) v lt
          (λ e. absurd (sleeper (p.workers i) a e)) (λ e. e) (λ e. absurd (cc)) (λ n. refl)
          (λ ne. (refl, refl)))
    | inr u ↦ elim (Bool-cases (none_asleep p.threads p.workers)) [
      | inl all ↦
          rw (u, all)
            (record {
              staffed = v.staffed;
              stage = v.stage;
              drained = v.drained;
              wakened = v.wakened;
              joined = v.joined;
              served = λ ne. inr (
                0,
                v.staffed,
                (
                  none_asleep_lem p.threads 0 p.workers all v.staffed,
                  live ne (Bool-cases (is_exited (p.workers 0))),
                ),
              );
            })
      | inr some_asleep ↦ rw (u, some_asleep) v
    ]
  ]
    where
      sleeper : (w : Worker J) → is_asleep w ≡ true → is_exited w ≡ true → ⊥
      sleeper asleep a e = cc
      sleeper looking a e = cc
      sleeper (busy j) a e = cc
      sleeper exited a e = cc

      live :
          p.jobs ≢ []
          → (is_exited (p.workers 0) ≡ true) ⊎ (is_exited (p.workers 0) ≡ false)
          → is_exited (p.workers 0) ≡ false
      live ne (inl x) = absurd (ne (v.drained 0 x).1)
      live ne (inr x) = x

  look-Inv :
      (i : ℕ) (b : Bool) (jobs : List J) (p : Pool J)
      → p.stop ≡ b
      → p.jobs ≡ jobs
      → p.workers i ≡ looking
      → i < p.threads
      → Inv p
      → Inv (look i b jobs p)
  look-Inv i true [] p st em at lt v =
      worker_changes p i exited p.jobs p.notifying v lt (λ e. refl) (λ e. e) (λ e. (st, em))
        (λ n. refl) (λ ne. absurd (ne em))
  look-Inv i false [] p st em at lt v =
      worker_changes p i asleep p.jobs p.notifying v lt (λ e. absurd (ground arith)) (λ e. e)
        (λ e. absurd (cc)) (λ n. absurd (open_yet p.closer n v.stage)) (λ ne. absurd (ne em))
    where
      open_yet : (c : Closer) → Notified c → Stage c p.stop → ⊥
      open_yet serving n s = n
      open_yet stopping n s = n
      open_yet (joining k) n s = cc
      open_yet gone n s = cc
  look-Inv i b (job ∷ rest) p st em at lt v =
      worker_changes p i (busy job) rest p.notifying v lt (λ e. absurd (ground arith))
        (λ e. absurd (cc)) (λ e. absurd (cc)) (λ n. refl) (λ ne. (refl, refl))

  do_work-Inv :
      (i : ℕ) (w : Worker J) (p : Pool J)
      → p.workers i ≡ w
      → i < p.threads
      → Inv p
      → Inv (do_work i w p)
  do_work-Inv i looking p at lt v = look-Inv i p.stop p.jobs p refl refl at lt v
  do_work-Inv i (busy job) p at lt v =
      worker_changes p i looking p.jobs p.notifying v lt (λ e. absurd (ground arith)) (λ e. e)
        (λ e. absurd (cc)) (λ n. refl) (λ ne. (refl, refl))
  do_work-Inv i asleep p at lt v = v
  do_work-Inv i exited p at lt v = v

  woken_lem : (w : Worker J) → (is_asleep (woken w) ≡ false) × (is_exited (woken w) ≡ is_exited w)
  woken_lem looking = (refl, refl)
  woken_lem asleep = (refl, refl)
  woken_lem (busy job) = (refl, refl)
  woken_lem exited = (refl, refl)

  wake-Inv :
      (i : ℕ) (p : Pool J)
      → i < p.threads
      → Inv p
      → Inv (record p { workers = update p.workers i (woken (p.workers i)) })
  wake-Inv i p lt v =
      let (up, same) = woken_lem (p.workers i) in
      worker_changes p i (woken (p.workers i)) p.jobs p.notifying v lt (λ e. same ∙ e) (λ e. e)
        (λ e. v.drained i (sym same ∙ e)) (λ n. up)
        (λ ne. (
          up,
          elim (Bool-cases (is_exited (p.workers i))) [
            | inl x ↦ absurd (ne (v.drained i x).1)
            | inr x ↦ same ∙ x
          ],
        ))

  destroy-Inv : (c : Closer) (p : Pool J) → p.closer ≡ c → Inv p → Inv (destroy c p)
  destroy-Inv serving p at v = record {
    staffed = v.staffed;
    stage = refl;
    drained = λ i e. (refl, (v.drained i e).1);
    wakened = λ n. absurd n;
    joined = tt;
    served = v.served;
  }
  destroy-Inv stopping p at v = record {
    staffed = v.staffed;
    stage = rw at at v.stage;
    drained = λ i e. v.drained i (sym (woken_lem (p.workers i)).1 ∙ e);
    wakened = λ n i. (woken_lem (p.workers i)).0;
    joined = λ i lt. absurd (omega arith);
    served = λ ne. elim (v.served ne) [
      | inl l ↦ inl l
      | inr (i, lt, (a, x)) ↦
          inr (i, lt, ((woken_lem (p.workers i)).0, (woken_lem (p.workers i)).1 ∙ x))
    ];
  }
  destroy-Inv (joining k) p at v =
      let done_before : Joined (joining k) p.threads p.workers = rw at at v.joined in
      elim (Bool-cases (ltb k p.threads)) [
        | inl lt ↦ elim (Bool-cases (is_exited (p.workers k))) [
          | inl x ↦
              rw (lt, x)
                (record {
                  staffed = v.staffed;
                  stage = rw at at v.stage;
                  drained = v.drained;
                  wakened = λ n. v.wakened (rw at tt);
                  joined = λ i l. elim (ℕ_discrete i k) [
                    | yes s ↦ rw s x
                    | no ns ↦ done_before i (omega arith)
                  ];
                  served = v.served;
                })
          | inr x ↦ rw (lt, x) v
        ]
        | inr nl ↦ rw nl (record {
          staffed = v.staffed;
          stage = rw at at v.stage;
          drained = v.drained;
          wakened = λ n. v.wakened (rw at tt);
          joined = λ i l. done_before i (grind (arith, tests));
          served = v.served;
        })
      ]
  destroy-Inv gone p at v = v

  pub step-Inv : (a : Action J) (p : Pool J) → Inv p → Inv (step a p)
  unfolding step
  step-Inv (submit job) p v = submit-Inv p.stop job p refl v
  step-Inv (notify i) p v = elim (Bool-cases (ltb 0 p.notifying)) [
    | inl some_job ↦ elim (Bool-cases (ltb i p.threads)) [
      | inl lt ↦ rw (some_job, lt) (notify-Inv i p (ltb→lt i p.threads lt) v)
      | inr nl ↦ rw (some_job, nl) v
    ]
    | inr none ↦ rw none v
  ]
  step-Inv (work i) p v = elim (Bool-cases (ltb i p.threads)) [
    | inl lt ↦ rw lt (do_work-Inv i (p.workers i) p refl (ltb→lt i p.threads lt) v)
    | inr nl ↦ rw nl v
  ]
  step-Inv (wake i) p v = elim (Bool-cases (ltb i p.threads)) [
    | inl lt ↦ rw lt (wake-Inv i p (ltb→lt i p.threads lt) v)
    | inr nl ↦ rw nl v
  ]
  step-Inv close p v = destroy-Inv p.closer p refl v

  pub run-Inv : (es : List (Action J)) (p : Pool J) → Inv p → Inv (run es p)
  unfolding run
  run-Inv [] p v = v
  run-Inv (a ∷ es) p v = run-Inv es (step a p) (step-Inv a p v)

  look-threads :
      (i : ℕ) (b : Bool) (jobs : List J) (p : Pool J) → (look i b jobs p).threads ≡ p.threads
  look-threads i true [] p = refl
  look-threads i false [] p = refl
  look-threads i b (job ∷ rest) p = refl

  work-threads : (i : ℕ) (w : Worker J) (p : Pool J) → (do_work i w p).threads ≡ p.threads
  work-threads i looking p = look-threads i p.stop p.jobs p
  work-threads i (busy job) p = refl
  work-threads i asleep p = refl
  work-threads i exited p = refl

  destroy-threads : (c : Closer) (p : Pool J) → (destroy c p).threads ≡ p.threads
  destroy-threads serving p = refl
  destroy-threads stopping p = refl
  destroy-threads (joining k) p = ground arith
  destroy-threads gone p = refl

  submit-threads : (b : Bool) (job : J) (p : Pool J) → (push_job b job p).threads ≡ p.threads
  submit-threads true job p = refl
  submit-threads false job p = refl

  pub step-threads : (a : Action J) (p : Pool J) → (step a p).threads ≡ p.threads
  unfolding step
  step-threads (submit job) p = submit-threads p.stop job p
  step-threads (notify i) p = ground arith
  step-threads (work i) p = ground (arith, work-threads i (p.workers i) p)
  step-threads (wake i) p = ground arith
  step-threads close p = destroy-threads p.closer p

  pub threads_fixed : (es : List (Action J)) (p : Pool J) → (run es p).threads ≡ p.threads
  unfolding run
  threads_fixed [] p = refl
  threads_fixed (a ∷ es) p = threads_fixed es (step a p) ∙ step-threads a p
