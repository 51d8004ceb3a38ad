-- ===== src/ThreadPool/Inv.antt =====
-- c++_features_experiment/threadpools.cpp: what holds between the steps of the pool.
use modern_cpp_ds.Common.{
  ℕ, zero, suc, ◌<◌, ◌≡◌, ◌≢◌, refl, Bool, true, false, List, [], arith, ite, ℕ_discrete, ◌⊎◌, inr,
}
use modern_cpp_ds.ThreadPool.{
  Worker, Closer, serving, stopping, joining, gone, Pool, create, update, is_asleep, is_exited,
  none_asleep,
}

-- `stop` is set exactly when the destructor has begun.
abbrev pub Stage : Closer → Bool → Type 0
Stage serving b = b ≡ false
Stage _ b = b ≡ true

-- The destructor has called `notify_all`.
abbrev pub Notified : Closer → Type 0
Notified (joining _) = Unit {0}
Notified gone = Unit {0}
Notified _ = ⊥

module _ {J : Type 0} where
  abbrev pub Awake : Worker J → Type 0
  Awake w = (is_asleep w ≡ false) × (is_exited w ≡ false)

  -- The destructor has joined these workers.
  abbrev pub Joined : Closer → ℕ → (ℕ → Worker J) → Type 0
  Joined (joining k) n workers = (i : ℕ) → i < k → is_exited (workers i) ≡ true
  Joined gone n workers = (i : ℕ) → i < n → is_exited (workers i) ≡ true
  Joined _ n workers = Unit {0}

  pub record Inv (p : Pool J) : Type 0 where
    pub staffed : 0 < p.threads
    pub stage : Stage p.closer p.stop
    pub drained : (i : ℕ) → is_exited (p.workers i) ≡ true → (p.stop ≡ true) × (p.jobs ≡ [])
    pub wakened : Notified p.closer → (i : ℕ) → is_asleep (p.workers i) ≡ false
    pub joined : Joined p.closer p.threads p.workers
    pub served : p.jobs ≢ [] → (0 < p.notifying) ⊎ ((i : ℕ) × (i < p.threads) × Awake (p.workers i))

  pub create-Inv : (n : ℕ) → 0 < n → Inv (create {J = J} n)
  create-Inv n lt = record {
    staffed = lt;
    stage = refl;
    drained = λ i e. absurd (cc);
    wakened = λ x. absurd x;
    joined = tt;
    served = λ ne. absurd (ne refl);
  }

  pub Joined-kept :
      (c : Closer) (n : ℕ) (v w : ℕ → Worker J)
      → ((i : ℕ) → is_exited (v i) ≡ true → is_exited (w i) ≡ true)
      → Joined c n v
      → Joined c n w
  Joined-kept serving n v w k h = tt
  Joined-kept stopping n v w k h = tt
  Joined-kept (joining i) n v w k h = λ j lt. k j (h j lt)
  Joined-kept gone n v w k h = λ j lt. k j (h j lt)

  pub none_asleep_lem :
      (n i : ℕ) (workers : ℕ → Worker J)
      → none_asleep n workers ≡ true
      → i < n
      → is_asleep (workers i) ≡ false
  none_asleep_lem zero i workers e lt = absurd (omega arith)
  none_asleep_lem (suc n) i workers e lt = elim (ℕ_discrete i n) [
    | yes s ↦ ground arith
    | no ns ↦ none_asleep_lem n i workers (ground arith) (omega arith)
  ]

  -- One worker changes, and the queue may shrink.
  pub worker_changes :
      (p : Pool J) (i : ℕ) (w : Worker J) (jobs : List J) (notifying : ℕ)
      → Inv p
      → i < p.threads
      → (is_exited (p.workers i) ≡ true → is_exited w ≡ true)
      → (p.jobs ≡ [] → jobs ≡ [])
      → (is_exited w ≡ true → (p.stop ≡ true) × (jobs ≡ []))
      → (Notified p.closer → is_asleep w ≡ false)
      → (jobs ≢ [] → Awake w)
      → Inv (record p { jobs = jobs; workers = update p.workers i w; notifying = notifying })
  worker_changes p i w jobs notifying v lt keeps shrinks out still up = record {
    staffed = v.staffed;
    stage = v.stage;
    drained = λ j. drained j (ℕ_discrete i j);
    wakened = λ n j. wakened n j (ℕ_discrete i j);
    joined =
        Joined-kept p.closer p.threads p.workers (update p.workers i w)
          (λ j. kept j (ℕ_discrete i j)) v.joined;
    served = λ ne. inr (i, lt, mine (ℕ_discrete i i) (up ne));
  }
    where
      drained :
          (j : ℕ) (d : Dec (i ≡ j))
          → is_exited (ite d w (p.workers j)) ≡ true
          → (p.stop ≡ true) × (jobs ≡ [])
      drained j (yes s) e = out e
      drained j (no ns) e = let (st, em) = v.drained j e in (st, shrinks em)

      wakened :
          Notified p.closer → (j : ℕ) (d : Dec (i ≡ j)) → is_asleep (ite d w (p.workers j)) ≡ false
      wakened n j (yes s) = still n
      wakened n j (no ns) = v.wakened n j

      kept :
          (j : ℕ) (d : Dec (i ≡ j))
          → is_exited (p.workers j) ≡ true
          → is_exited (ite d w (p.workers j)) ≡ true
      kept j (yes s) e = keeps (rw s e)
      kept j (no ns) e = e

      mine : (d : Dec (i ≡ i)) → Awake w → Awake (ite d w (p.workers i))
      mine (yes s) a = a
      mine (no ns) a = absurd (ns refl)
