-- ===== src/MpmcLockfree/Answers.antt =====
-- mpmc_lockfree.cpp: when `enqueue` answers that the queue is full, and `dequeue` that it is empty.
use modern_cpp_ds.Common.{
  ℕ, ◌+◌, ◌*◌, ◌%◌, ◌^◌, ◌≤◌, ◌<◌, ◌≡◌, ◌⊎◌, ◌↔◌, inl, inr, false, List, [], ◌∷◌, arith, length,
  dec_lt,
}
use modern_cpp_ds.MpmcLockfree.{
  buffer_size, slot, idle, enqueueing, dequeueing, Shared, System, Action, go, move, step, run,
  create,
}
use modern_cpp_ds.MpmcLockfree.Frame.{slot_lem, Local}
use modern_cpp_ds.MpmcLockfree.Inv.{Cells}
use modern_cpp_ds.MpmcLockfree.Fifo.{reached}

module _ {T : Type 0} where
  -- The sequence number of a cell belongs to the one position of the window that uses the cell.
  window :
      (n p : ℕ) (m : Shared T)
      → Cells n m
      → (q : ℕ) × (m.dequeue_pos ≤ q)
        × (q < m.dequeue_pos + buffer_size)
        × (slot q ≡ slot p)
        × (q + 1 ≤ m.sequence (slot p) + buffer_size)
        × (m.sequence (slot p) ≤ q + 1)
  window n p m v =
      let q = m.dequeue_pos + (p + 2047 * m.dequeue_pos) % 2048 in
      let same : slot q ≡ slot p = omega (arith, slot_lem q, slot_lem p) in
      let near : (q + 1 ≤ m.sequence (slot q) + buffer_size) × (m.sequence (slot q) ≤ q + 1) =
        elim (dec_lt q m.enqueue_pos) [
          | yes lt ↦ ground (arith, v.live q)
          | no ge ↦ ground (arith, v.ahead q)
        ] in
      (q, omega arith, omega arith, same, rw (← same) near.0, rw (← same) near.1)

  waits_out :
      (n p : ℕ) (m : Shared T)
      → Cells n m
      → p ≤ m.dequeue_pos
      → (m.sequence (slot p) < p + 1) ↔ (
          (p ≡ m.dequeue_pos)
          × ((m.enqueue_pos ≡ p) ⊎ ((p < m.enqueue_pos) × (m.sequence (slot p) ≡ p))))
  waits_out n p m v le =
      let (q, low, high, same, near, far) = window n p m v in
      (
        λ h.
            let here : p ≡ m.dequeue_pos = omega (arith, slot_lem p, slot_lem q) in
            (
              here,
              elim (dec_lt p m.enqueue_pos) [
                | yes lt ↦ inr (lt, ground (arith, v.live p))
                | no ge ↦ inl (omega (arith, v.ordered))
              ],
            ),
        λ h. ground (arith, v.ahead p),
      )

  waits_in :
      (n p : ℕ) (m : Shared T)
      → Cells n m
      → p ≤ m.enqueue_pos
      → (m.sequence (slot p) < p) ↔ (
          (p ≡ m.enqueue_pos)
          × ((p ≡ m.dequeue_pos + buffer_size)
              ⊎ ((p < m.dequeue_pos + buffer_size) × (m.sequence (slot p) + buffer_size ≡ p + 1))))
  waits_in n p m v le =
      let (q, low, high, same, near, far) = window n p m v in
      (
        λ h.
            let here : p ≡ m.enqueue_pos = elim (dec_lt p m.enqueue_pos) [
              | no ge ↦ omega arith
              | yes lt ↦ elim (dec_lt p m.dequeue_pos) [
                | yes early ↦ absurd (omega (arith, slot_lem p, slot_lem q))
                | no late ↦ absurd (ground (arith, v.live p))
              ]
            ] in
            (
              here,
              elim (dec_lt p (m.dequeue_pos + buffer_size)) [
                | yes lt ↦ inr (lt, ground (arith, v.ahead p))
                | no ge ↦ inl (omega (arith, v.room))
              ],
            ),
        λ h. omega_case h,
      )
    where
      omega_case :
          (p ≡ m.enqueue_pos)
            × ((p ≡ m.dequeue_pos + buffer_size)
                ⊎ ((p < m.dequeue_pos + buffer_size) × (m.sequence (slot p) + buffer_size ≡ p + 1)))
          → m.sequence (slot p) < p
      omega_case (e, inl full) =
          let same : slot p ≡ slot m.dequeue_pos =
            omega (arith, slot_lem p, slot_lem m.dequeue_pos) in
          rw same (ground (arith, v.live m.dequeue_pos))
      omega_case (e, inr (lt, f)) = omega arith

  -- A thread makes its next two accesses.
  abbrev pub twice : ℕ → System T → System T
  twice i s = run ((i, go false) ∷ (i, go false) ∷ []) s

  decides_out :
      (i pos : ℕ) (s : System T)
      → s.pc i ≡ dequeueing pos
      → pos + 1 < 2 ^ 63
      → s.mem.sequence (slot pos) < 2 ^ 63
      → ((twice i s).pc i ≡ idle) ↔ (s.mem.sequence (slot pos) < pos + 1)
  unfolding run step move
  decides_out i pos s at small low = (λ h. ground arith, λ h. ground arith)

  decides_in :
      (i pos : ℕ) (d : T) (s : System T)
      → s.pc i ≡ enqueueing d pos
      → pos < 2 ^ 63
      → s.mem.sequence (slot pos) < 2 ^ 63
      → ((twice i s).pc i ≡ idle) ↔ (s.mem.sequence (slot pos) < pos)
  unfolding run step move
  decides_in i pos d s at small low = (λ h. ground arith, λ h. ground arith)

  -- In every schedule of fewer than 2 ^ 62 accesses: a `dequeue` that loads the sequence number of its
  -- position and decides next answers that the queue is empty exactly if its position is still the next one
  -- to be taken, and no `enqueue` has claimed it or the one that has claimed it has not stored the sequence
  -- number.
  pub dequeue_empty :
      (es : List (ℕ × Action T)) (i pos : ℕ)
      → length es < 2 ^ 62
      → (run es create).pc i ≡ dequeueing pos
      → let s = run es create in
        ((twice i s).pc i ≡ idle) ↔ (
          (pos ≡ s.mem.dequeue_pos)
          × ((s.mem.enqueue_pos ≡ pos)
              ⊎ ((pos < s.mem.enqueue_pos) × (s.mem.sequence (slot pos) ≡ pos))))
  dequeue_empty es i pos small at =
      let s = run es create in
      let v = reached es small in
      let le : Local (dequeueing pos) s.mem = rw at at (v.locals i) in
      let w = window (length es) pos s.mem v.cells in
      let decides =
        decides_out i pos s at (omega (arith, v.cells.ordered, v.cells.bound))
          (omega (arith, v.cells.ordered, v.cells.bound, w.2, w.5)) in
      let waits = waits_out (length es) pos s.mem v.cells le in
      (λ h. waits.0 (decides.0 h), λ h. decides.1 (waits.1 h))

  -- In every schedule of fewer than 2 ^ 62 accesses: an `enqueue` that loads the sequence number of its
  -- position and decides next answers that the queue is full exactly if its position is still the next one to
  -- be claimed, and 2048 positions are claimed and not taken, or the `dequeue` that has taken the position
  -- 2048 before has not stored the sequence number.
  pub enqueue_full :
      (es : List (ℕ × Action T)) (i pos : ℕ) (d : T)
      → length es < 2 ^ 62
      → (run es create).pc i ≡ enqueueing d pos
      → let s = run es create in
        ((twice i s).pc i ≡ idle) ↔ (
          (pos ≡ s.mem.enqueue_pos)
          × ((pos ≡ s.mem.dequeue_pos + buffer_size)
              ⊎ ((pos < s.mem.dequeue_pos + buffer_size)
                  × (s.mem.sequence (slot pos) + buffer_size ≡ pos + 1))))
  enqueue_full es i pos d small at =
      let s = run es create in
      let v = reached es small in
      let le : Local (enqueueing d pos) s.mem = rw at at (v.locals i) in
      let w = window (length es) pos s.mem v.cells in
      let decides =
        decides_in i pos d s at (omega (arith, v.cells.bound))
          (omega (arith, v.cells.ordered, v.cells.bound, w.2, w.5)) in
      let waits = waits_in (length es) pos s.mem v.cells le in
      (λ h. waits.0 (decides.0 h), λ h. decides.1 (waits.1 h))
