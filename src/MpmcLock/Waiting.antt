-- ===== src/MpmcLock/Waiting.antt =====
-- mpmc_lock.cpp: who sleeps, and who is woken.
use modern_cpp_ds.Common.{◌+◌, ◌-◌, ◌≡◌, ◌≢◌, true, false, List, [], ◌∷◌, arith, ◌^◌}
use modern_cpp_ds.MpmcLock.{
  size_t, Queue, size, full, take_front, try_consume, consume, resume_producer,
}
use modern_cpp_ds.MpmcLock.Contents.{Inv}

module _ {T : Type 0} where
  -- `consume` on a queue with a sleeping producer wakes it; `try_consume` makes the same room and
  -- wakes nobody: the producer sleeps on beside a queue that is not full, and no thread is on its way
  -- to test again.
  pub try_consume_strands :
      (q : Queue T) (x : T) (xs : List T)
      → Inv q
      → full q ≡ true
      → q.asleep_producers ≡ x ∷ xs
      → q.woken_producers ≡ []
      → let stranded = (try_consume q).1 in
        let served = (consume q).1 in
        (full stranded ≡ false)
        × (stranded.asleep_producers ≡ x ∷ xs)
        × (resume_producer stranded ≡ stranded)
        × (served.woken_producers ≡ x ∷ [])
  unfolding try_consume consume resume_producer take_front
  try_consume_strands q x xs v f a w =
      let at_limit : size q ≡ 1024 = ground arith in
      let more : q.out_ ≢ q.in_ = omega (arith, v.in_small, v.out_small) in
      let room : size_t (q.out_ + 2 ^ 64 - size_t (q.in_ + 1)) ≢ 1024 =
        omega (arith, v.in_small, v.out_small) in
      (ground arith, ground arith, ground arith, ground arith)
