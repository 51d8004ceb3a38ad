-- ===== src/MpmcLock/Fifo.antt =====
-- mpmc_lock.cpp: the queue as a list.
use modern_cpp_ds.Common.{
  ℕ, suc, ◌≡◌, ◌≢◌, refl, sym, ap, ◌∙◌, true, false, none, some, List, [], ◌∷◌, ◌++◌, arith, length,
  Bool-cases, ◌⊎◌, inl, inr,
}
use modern_cpp_ds.MpmcLock.{
  maxsize, Queue, size, empty, full, notify_consumer, notify_producer, put, take_front, try_produce,
  try_consume, consume,
}
use modern_cpp_ds.MpmcLock.Contents.{
  Inv, contents, contents-put, contents-take_front, contents-empty, length-window,
}

module _ {T : Type 0} where
  -- A notification leaves buffer and counters alone.
  consumer_notified :
      (q : Queue T) (n : ℕ)
      → q.asleep_consumers ≡ n
      → (contents (notify_consumer q) ≡ contents q) × (Inv q → Inv (notify_consumer q))
  consumer_notified q ℕ.zero e = rw e (refl, λ v. v)
  consumer_notified q (suc n) e =
      rw e (refl, λ v. record { in_small = v.in_small; out_small = v.out_small; fits = v.fits })

  producer_notified :
      (q : Queue T) (l : List T)
      → q.asleep_producers ≡ l
      → (contents (notify_producer q) ≡ contents q) × (Inv q → Inv (notify_producer q))
  producer_notified q [] e = rw e (refl, λ v. v)
  producer_notified q (x ∷ xs) e =
      rw e (refl, λ v. record { in_small = v.in_small; out_small = v.out_small; fits = v.fits })

  -- The counters tell a full queue from one that is not.
  length-contents : (q : Queue T) → length (contents q) ≡ size q
  length-contents q = length-window q.buffer q.in_ (size q)

  -- `try_produce` appends the object and says so, unless the queue holds 1024 objects: then it throws
  -- and changes nothing. It keeps the invariant.
  pub try_produce_lem :
      (q : Queue T) (x : T)
      → Inv q
      → (length (contents q) ≡ maxsize → try_produce x q ≡ (false, q))
        × (length (contents q) ≢ maxsize
            → ((try_produce x q).0 ≡ true)
              × (contents (try_produce x q).1 ≡ contents q ++ (x ∷ []))
              × Inv (try_produce x q).1)
  unfolding try_produce
  try_produce_lem q x v = (
    λ e. let is_full : full q ≡ true = ground (arith, length-contents q) in rw is_full,
    λ ne.
        let room : full q ≡ false = ground (arith, length-contents q) in
        let (appended, v') = contents-put q x v room in
        let (same, keeps) = consumer_notified (put x q) (put x q).asleep_consumers refl in
        rw room (refl, same ∙ appended, keeps v'),
  )

  -- `try_consume` delivers and removes the oldest object, unless the queue is empty: then it returns
  -- null and changes nothing. It keeps the invariant.
  pub try_consume_lem :
      (q : Queue T)
      → Inv q
      → ((contents q ≡ []) × (try_consume q ≡ (none, q)))
        ⊎ ((x : T) × (contents q ≡ x ∷ contents (try_consume q).1)
            × ((try_consume q).0 ≡ some x)
            × Inv (try_consume q).1)
  unfolding try_consume
  try_consume_lem q v = elim (Bool-cases (empty q)) [
    | inl e ↦ rw e (inl (contents-empty q e v, refl))
    | inr more ↦
        let (removed, v') = contents-take_front q v more in
        rw more (inr ((take_front q).0, removed, refl, v'))
  ]

  -- `consume` delivers and removes the oldest object, unless the queue is empty: then the thread
  -- sleeps and nothing else changes. It keeps the invariant.
  pub consume_lem :
      (q : Queue T)
      → Inv q
      → ((contents q ≡ [])
          × (consume q ≡ (none, record q { asleep_consumers = suc q.asleep_consumers })))
        ⊎ ((x : T) × (contents q ≡ x ∷ contents (consume q).1)
            × ((consume q).0 ≡ some x)
            × Inv (consume q).1)
  unfolding consume
  consume_lem q v = elim (Bool-cases (empty q)) [
    | inl e ↦ rw e (inl (contents-empty q e v, refl))
    | inr more ↦
        let (removed, v') = contents-take_front q v more in
        let (same, keeps) =
          producer_notified (take_front q).1 (take_front q).1.asleep_producers refl in
        rw more (
          inr
            ((take_front q).0, removed ∙ ap (λ l. (take_front q).0 ∷ l) (sym same), refl, keeps v'))
  ]
