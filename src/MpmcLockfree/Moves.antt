-- ===== src/MpmcLockfree/Moves.antt =====
-- mpmc_lockfree.cpp: every access keeps the invariant.
use modern_cpp_ds.Common.{ℕ, suc, ◌+◌, ◌≡◌, ap, Option, none, some, arith}
use modern_cpp_ds.MpmcLockfree.{
  slot, Pc, idle, enqueueing, compared, claimed, written, dequeueing, compared_out, claimed_out,
  read_out, Shared, update,
}
use modern_cpp_ds.MpmcLockfree.Frame.{
  fills, empties, Filling, Emptying, Local, claim, fill, publish, claim_out, give_back, claim-Local,
  fill-Local, publish-Local, claim_out-Local, give_back-Local,
}
use modern_cpp_ds.MpmcLockfree.Inv.{
  claim-Cells, fill-Cells, publish-Cells, claim_out-Cells, give_back-Cells, same-Cells, Inv,
  moved-Inv,
}

module _ {T : Type 0} where
  pub fills-Filling : (c : Pc T) (m : Shared T) (p : ℕ) → fills c ≡ some p → Local c m → Filling p m
  fills-Filling (claimed d q) m p e l = ground arith
  fills-Filling (written q) m p e l = ground arith
  fills-Filling idle m p e l = cc
  fills-Filling (enqueueing d q) m p e l = cc
  fills-Filling (compared d q x) m p e l = cc
  fills-Filling (dequeueing q) m p e l = cc
  fills-Filling (compared_out q x) m p e l = cc
  fills-Filling (claimed_out q) m p e l = cc
  fills-Filling (read_out q x) m p e l = cc

  pub empties-Emptying :
      (c : Pc T) (m : Shared T) (p : ℕ) → empties c ≡ some p → Local c m → Emptying p m
  empties-Emptying (claimed_out q) m p e l = ground arith
  empties-Emptying (read_out q x) m p e l = ground arith
  empties-Emptying idle m p e l = cc
  empties-Emptying (enqueueing d q) m p e l = cc
  empties-Emptying (compared d q x) m p e l = cc
  empties-Emptying (claimed d q) m p e l = cc
  empties-Emptying (written q) m p e l = cc
  empties-Emptying (dequeueing q) m p e l = cc
  empties-Emptying (compared_out q x) m p e l = cc

  module _ (n i : ℕ) (m : Shared T) (pc : ℕ → Pc T) (v : Inv n m pc) where
    -- A move that changes no shared memory and claims nothing.
    pub quiet :
        (c : Pc T) → Local c m → fills c ≡ none → empties c ≡ none → Inv (suc n) m (update pc i c)
    quiet c l f e =
        moved-Inv n i m m pc c v (same-Cells n m v.cells) l (λ j ne. v.locals j) (λ p h. cc)
          (λ p h. cc)

    -- Thread `i` claims the next position for its datum.
    pub claims :
        (d : T) (p : ℕ)
        → m.enqueue_pos ≡ p
        → m.sequence (slot p) ≡ p
        → Inv (suc n) (claim p d m) (update pc i (claimed d p))
    claims d p e s =
        moved-Inv n i m (claim p d m) pc (claimed d p) v (claim-Cells n p d m e s v.cells)
          (
            record { ahead = omega (arith, v.cells.ordered); taken = omega arith; waiting = s },
            ground arith,
          )
          (λ j ne. claim-Local (pc j) p d m e (omega (arith, v.cells.ordered)) s (v.locals j))
          (λ q h j ne k. let low = fills-Filling (pc j) m q k (v.locals j) in ground (arith, low))
          (λ q h. cc)

    -- It stores its datum.
    pub stores :
        (d : T) (p : ℕ)
        → pc i ≡ claimed d p
        → Filling p m × (m.sent_at p ≡ some d)
        → Inv (suc n) (fill p d m) (update pc i (written p))
    stores d p at (f, s) =
        let mine : fills (pc i) ≡ some p = ap fills at in
        moved-Inv n i m (fill p d m) pc (written p) v (fill-Cells n p d m f v.cells)
          (record { ahead = f.ahead; taken = f.taken; waiting = f.waiting }, ground arith)
          (λ j ne.
            fill-Local (pc j) p d m f v.cells.room (λ k. ne (v.fills_once i j p mine k))
              (v.locals j))
          (λ q h j ne k. ne (v.fills_once i j p mine (ground arith))) (λ q h. cc)

    -- It publishes the sequence number.
    pub publishes :
        (p : ℕ)
        → pc i ≡ written p
        → Filling p m × (m.datum (slot p) ≡ m.sent_at p)
        → Inv (suc n) (publish p m) (update pc i idle)
    publishes p at (f, s) =
        let mine : fills (pc i) ≡ some p = ap fills at in
        moved-Inv n i m (publish p m) pc idle v (publish-Cells n p m f s v.cells) tt
          (λ j ne.
            publish-Local (pc j) p m f v.cells.room (λ k. ne (v.fills_once i j p mine k))
              (v.locals j))
          (λ q h. cc) (λ q h. cc)

    -- Thread `i` claims the oldest position.
    pub claims_out :
        (p : ℕ)
        → m.dequeue_pos ≡ p
        → m.sequence (slot p) ≡ p + 1
        → Inv (suc n) (claim_out p m) (update pc i (claimed_out p))
    claims_out p e s =
        let after = claim_out-Cells n p m e s v.cells in
        moved-Inv n i m (claim_out p m) pc (claimed_out p) v after
          (
            record { taken = omega arith; near = omega (arith, v.cells.room); full = s },
            ground (arith, v.cells.live p, after.ordered),
          )
          (λ j ne. claim_out-Local (pc j) p m e s (v.locals j)) (λ q h. cc)
          (λ q h j ne k.
            let low = empties-Emptying (pc j) m q k (v.locals j) in ground (arith, low))

    -- It reads the datum.
    pub reads :
        (p : ℕ)
        → pc i ≡ claimed_out p
        → Emptying p m × (m.datum (slot p) ≡ m.sent_at p)
        → Inv (suc n) m (update pc i (read_out p (m.datum (slot p))))
    reads p at l =
        let mine : empties (pc i) ≡ some p = ap empties at in
        moved-Inv n i m m pc (read_out p (m.datum (slot p))) v (same-Cells n m v.cells) l
          (λ j ne. v.locals j) (λ q h. cc)
          (λ q h j ne k. ne (v.empties_once i j p mine (ground arith)))

    -- It gives the cell back.
    pub gives_back :
        (p : ℕ) (d : Option T)
        → pc i ≡ read_out p d
        → Emptying p m
        → Inv (suc n) (give_back p m) (update pc i idle)
    gives_back p d at f =
        let mine : empties (pc i) ≡ some p = ap empties at in
        moved-Inv n i m (give_back p m) pc idle v (give_back-Cells n p m f v.cells) tt
          (λ j ne.
            give_back-Local (pc j) p m f v.cells.ordered (λ k. ne (v.empties_once i j p mine k))
              (v.locals j))
          (λ q h. cc) (λ q h. cc)
