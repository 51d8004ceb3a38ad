-- ===== src/MpmcLockfree/Keeps.antt =====
-- mpmc_lockfree.cpp: an access of any thread, in any place.
use modern_cpp_ds.Common.{
  ℕ, suc, ◌+◌, ◌^◌, ◌≤◌, ◌<◌, ◌≡◌, refl, ap, ◌∙◌, Bool, arith, ℕ_discrete, Bool-cases, inl, inr,
}
use modern_cpp_ds.MpmcLockfree.{
  buffer_size, buffer_mask, size_t, slot, negative, Pc, idle, enqueueing, compared, claimed,
  written, dequeueing, compared_out, claimed_out, read_out, Shared, update, Action, begin_enqueue,
  begin_dequeue, go, move,
}
use modern_cpp_ds.MpmcLockfree.Frame.{fills, empties, Local, claim, claim_out, Filling}
use modern_cpp_ds.MpmcLockfree.Inv.{Inv, same-Cells, moved-Inv}
use modern_cpp_ds.MpmcLockfree.Moves.{
  quiet, claims, stores, publishes, claims_out, reads, gives_back,
}

module _ {T : Type 0} where
  -- What a move leaves, as an invariant.
  abbrev pub Keeps : ℕ → ℕ → (ℕ → Pc T) → Shared T × Pc T → Type 0
  Keeps n i pc r = Inv (suc n) r.0 (update pc i r.1)

  compared-Keeps :
      (spurious : Bool) (d : T) (pos seq n i : ℕ) (m : Shared T) (pc : ℕ → Pc T)
      → n < 2 ^ 62
      → pc i ≡ compared d pos seq
      → Inv n m pc
      → Keeps n i pc (move (go spurious) (compared d pos seq) m)
  unfolding move
  compared-Keeps spurious d pos seq n i m pc small at v =
      let l : Local (compared d pos seq) m = rw at at (v.locals i) in
      let retry : Inv (suc n) m (update pc i (enqueueing d m.enqueue_pos)) =
        quiet n i m pc v (enqueueing d m.enqueue_pos) (omega arith) refl refl in
      let stop : Inv (suc n) m (update pc i idle) = quiet n i m pc v idle tt refl refl in
      elim (ℕ_discrete seq pos) [
        | no ne ↦ elim (Bool-cases (negative seq pos)) [
          | inl neg ↦
              let picks : move (go spurious) (compared d pos seq) m ≡ (m, idle) = ground arith in
              rw picks stop
          | inr pos_ ↦
              let picks : move (go spurious) (compared d pos seq) m
                  ≡ (m, enqueueing d m.enqueue_pos) =
                ground arith in
              rw picks retry
        ]
        | yes same ↦ elim (Bool-cases spurious) [
          | inl s ↦
              let picks : move (go spurious) (compared d pos seq) m
                  ≡ (m, enqueueing d m.enqueue_pos) =
                ground arith in
              rw picks retry
          | inr s ↦ elim (ℕ_discrete m.enqueue_pos pos) [
            | no ne ↦
                let picks : move (go spurious) (compared d pos seq) m
                    ≡ (m, enqueueing d m.enqueue_pos) =
                  ground arith in
                rw picks retry
            | yes e ↦
                let next : size_t (pos + 1) ≡ pos + 1 = omega (arith, v.cells.bound) in
                let picks : move (go spurious) (compared d pos seq) m
                    ≡ (claim pos d m, claimed d pos) =
                  ground (arith, next) in
                rw picks (claims n i m pc v d pos e (l.1 same e))
          ]
        ]
      ]

  compared_out-Keeps :
      (spurious : Bool) (pos seq n i : ℕ) (m : Shared T) (pc : ℕ → Pc T)
      → n < 2 ^ 62
      → pc i ≡ compared_out pos seq
      → Inv n m pc
      → Keeps n i pc (move (go spurious) (compared_out pos seq) m)
  unfolding move
  compared_out-Keeps spurious pos seq n i m pc small at v =
      let l : Local (compared_out pos seq) m = rw at at (v.locals i) in
      let next : size_t (pos + 1) ≡ pos + 1 = omega (arith, v.cells.bound, v.cells.ordered, l.0) in
      let retry : Inv (suc n) m (update pc i (dequeueing m.dequeue_pos)) =
        quiet n i m pc v (dequeueing m.dequeue_pos) (omega arith) refl refl in
      let stop : Inv (suc n) m (update pc i idle) = quiet n i m pc v idle tt refl refl in
      elim (ℕ_discrete seq (pos + 1)) [
        | no ne ↦ elim (Bool-cases (negative seq (size_t (pos + 1)))) [
          | inl neg ↦
              let picks : move (go spurious) (compared_out pos seq) m ≡ (m, idle) =
                ground (arith, next) in
              rw picks stop
          | inr pos_ ↦
              let picks : move (go spurious) (compared_out pos seq) m
                  ≡ (m, dequeueing m.dequeue_pos) =
                ground (arith, next) in
              rw picks retry
        ]
        | yes same ↦ elim (Bool-cases spurious) [
          | inl s ↦
              let picks : move (go spurious) (compared_out pos seq) m
                  ≡ (m, dequeueing m.dequeue_pos) =
                ground (arith, next) in
              rw picks retry
          | inr s ↦ elim (ℕ_discrete m.dequeue_pos pos) [
            | no ne ↦
                let picks : move (go spurious) (compared_out pos seq) m
                    ≡ (m, dequeueing m.dequeue_pos) =
                  ground (arith, next) in
                rw picks retry
            | yes e ↦
                let picks : move (go spurious) (compared_out pos seq) m
                    ≡ (claim_out pos m, claimed_out pos) =
                  ground (arith, next) in
                rw picks (claims_out n i m pc v pos e (l.1 same e))
          ]
        ]
      ]

  -- The thread does what its place does not allow, which is nothing.
  stays :
      (n i : ℕ) (m : Shared T) (pc : ℕ → Pc T) (c : Pc T)
      → pc i ≡ c
      → Inv n m pc
      → Inv (suc n) m (update pc i c)
  stays n i m pc c at v =
      moved-Inv n i m m pc c v (same-Cells n m v.cells) (rw at at (v.locals i)) (λ j ne. v.locals j)
        (λ p h j ne k. ne (v.fills_once i j p (ap fills at ∙ h) k))
        (λ p h j ne k. ne (v.empties_once i j p (ap empties at ∙ h) k))

  pub move-Keeps :
      (a : Action T) (c : Pc T) (n i : ℕ) (m : Shared T) (pc : ℕ → Pc T)
      → n < 2 ^ 62
      → pc i ≡ c
      → Inv n m pc
      → Keeps n i pc (move a c m)
  unfolding move
  move-Keeps (begin_enqueue d) idle n i m pc small at v =
      quiet n i m pc v (enqueueing d m.enqueue_pos) (omega arith) refl refl
  move-Keeps begin_dequeue idle n i m pc small at v =
      quiet n i m pc v (dequeueing m.dequeue_pos) (omega arith) refl refl
  move-Keeps (go _) (enqueueing d pos) n i m pc small at v =
      let l : Local (enqueueing d pos) m = rw at at (v.locals i) in
      quiet n i m pc v (compared d pos (m.sequence (slot pos))) (l, λ a b. a) refl refl
  move-Keeps (go s) (compared d pos seq) n i m pc small at v =
      compared-Keeps s d pos seq n i m pc small at v
  move-Keeps (go _) (claimed d pos) n i m pc small at v =
      stores n i m pc v d pos at (rw at at (v.locals i))
  move-Keeps (go _) (written pos) n i m pc small at v =
      let l : Filling pos m × (m.datum (slot pos) ≡ m.sent_at pos) = rw at at (v.locals i) in
      let next : size_t (pos + 1) ≡ pos + 1 = omega (arith, v.cells.bound, l.0.taken) in
      rw next (publishes n i m pc v pos at l)
  move-Keeps (go _) (dequeueing pos) n i m pc small at v =
      let l : pos ≤ m.dequeue_pos = rw at at (v.locals i) in
      quiet n i m pc v (compared_out pos (m.sequence (slot pos))) (l, λ a b. a) refl refl
  move-Keeps (go s) (compared_out pos seq) n i m pc small at v =
      compared_out-Keeps s pos seq n i m pc small at v
  move-Keeps (go _) (claimed_out pos) n i m pc small at v =
      reads n i m pc v pos at (rw at at (v.locals i))
  move-Keeps (go _) (read_out pos d) n i m pc small at v =
      let l : Local (read_out pos d) m = rw at at (v.locals i) in
      let next : size_t (pos + buffer_mask + 1) ≡ pos + buffer_size =
        omega (arith, v.cells.bound, v.cells.ordered, l.0.taken) in
      rw next (gives_back n i m pc v pos d at l.0)
  move-Keeps _ c n i m pc small at v = stays n i m pc c at v
