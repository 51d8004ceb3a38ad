-- ===== src/MpmcLockfree/Fifo.antt =====
-- mpmc_lockfree.cpp: what any schedule delivers.
use modern_cpp_ds.Common.{
  ℕ, suc, ◌+◌, ◌^◌, ◌≤◌, ◌<◌, ◌≡◌, ◌≢◌, ◌⊎◌, inl, inr, refl, Option, none, some, List, [], ◌∷◌,
  arith, length,
}
use modern_cpp_ds.MpmcLockfree.{buffer_size, slot, read_out, System, Action, step, run, create}
use modern_cpp_ds.MpmcLockfree.Frame.{slot_lem, fills, empties, Local}
use modern_cpp_ds.MpmcLockfree.Inv.{Inv}
use modern_cpp_ds.MpmcLockfree.Moves.{fills-Filling, empties-Emptying}
use modern_cpp_ds.MpmcLockfree.Keeps.{move-Keeps}

module _ {T : Type 0} where
  run-Inv :
      (n k : ℕ) (es : List (ℕ × Action T)) (s : System T)
      → n + length es ≡ k
      → k < 2 ^ 62
      → Inv n s.mem s.pc
      → Inv k (run es s).mem (run es s).pc
  unfolding run step
  run-Inv n k [] s e small v = let same : n ≡ k = omega arith in rw (← same) v
  run-Inv n k ((i, a) ∷ es) s e small v =
      run-Inv (suc n) k es (step (i, a) s) (omega arith) small
        (move-Keeps a (s.pc i) n i s.mem s.pc (omega arith) refl v)

  pub create-Inv : Inv 0 (create {T = T}).mem (create {T = T}).pc
  create-Inv = record {
    cells = record {
      bound = omega arith;
      ordered = omega arith;
      room = omega arith;
      stored = λ p h e. omega arith;
      live = λ p a b. absurd (omega arith);
      ahead = λ p a b. inl (ground (arith, slot_lem p));
    };
    locals = λ i. tt;
    fills_once = λ j k p a b. cc;
    empties_once = λ j k p a b. cc;
  }

  pub reached :
      (es : List (ℕ × Action T))
      → length es < 2 ^ 62
      → Inv (length es) (run es create).mem (run es create).pc
  reached es small = run-Inv 0 (length es) es create (omega arith) small create-Inv

  -- In every schedule of fewer than 2 ^ 62 accesses, by any number of threads: a `dequeue` that is
  -- about to return has read the datum that the `enqueue` of the same position stored, whole and not
  -- the default object; its position is one that was handed out, and no other thread has it.
  pub delivered :
      (es : List (ℕ × Action T)) (i p : ℕ) (d : Option T)
      → length es < 2 ^ 62
      → (run es create).pc i ≡ read_out p d
      → let s = run es create in
        (d ≡ s.mem.sent_at p)
        × (d ≢ none)
        × (p < s.mem.dequeue_pos)
        × ((j : ℕ) (d' : Option T) → s.pc j ≡ read_out p d' → i ≡ j)
  delivered es i p d small at =
      let v = reached es small in
      let l : Local (read_out p d) (run es create).mem = rw at at (v.locals i) in
      (
        l.1,
        λ z. v.cells.stored p (omega (arith, v.cells.ordered, l.0.taken)) (ground arith),
        l.0.taken,
        λ j d' at'. v.empties_once i j p (ground arith) (ground arith),
      )

  -- In every schedule of fewer than 2 ^ 62 accesses: at most 2048 positions are claimed and not yet
  -- taken, and the cell of each of them holds its datum, or is still being written.
  pub bounded :
      (es : List (ℕ × Action T))
      → length es < 2 ^ 62
      → let m = (run es create).mem in
        (m.dequeue_pos ≤ m.enqueue_pos)
        × (m.enqueue_pos ≤ m.dequeue_pos + buffer_size)
        × ((p : ℕ)
            → m.dequeue_pos ≤ p
            → p < m.enqueue_pos
            → (m.sequence (slot p) ≡ p)
              ⊎ ((m.sequence (slot p) ≡ p + 1) × (m.datum (slot p) ≡ m.sent_at p)))
  bounded es small = let v = reached es small in (v.cells.ordered, v.cells.room, v.cells.live)

  -- In every schedule of fewer than 2 ^ 62 accesses no two threads access the data of the same
  -- cell: a thread between its exchange and its store of the sequence number has the cell to
  -- itself.
  pub no_race :
      (es : List (ℕ × Action T)) (i j p q : ℕ)
      → length es < 2 ^ 62
      → (fills ((run es create).pc i) ≡ some p) ⊎ (empties ((run es create).pc i) ≡ some p)
      → (fills ((run es create).pc j) ≡ some q) ⊎ (empties ((run es create).pc j) ≡ some q)
      → slot p ≡ slot q
      → i ≡ j
  no_race es i j p q small a b e = let v = reached es small in apart v a b
    where
      apart :
          (v : Inv (length es) (run es create).mem (run es create).pc)
          → (fills ((run es create).pc i) ≡ some p) ⊎ (empties ((run es create).pc i) ≡ some p)
          → (fills ((run es create).pc j) ≡ some q) ⊎ (empties ((run es create).pc j) ≡ some q)
          → i ≡ j
      apart v (inl a) (inl b) =
          let f = fills-Filling _ (run es create).mem p a (v.locals i) in
          let g = fills-Filling _ (run es create).mem q b (v.locals j) in
          let same : p ≡ q = ground (arith, f.waiting, g.waiting) in
          v.fills_once i j q (rw same at a) b
      apart v (inl a) (inr b) =
          let f = fills-Filling _ (run es create).mem p a (v.locals i) in
          let g = empties-Emptying _ (run es create).mem q b (v.locals j) in
          absurd (ground (arith, f.waiting, g.full, slot_lem p, slot_lem q))
      apart v (inr a) (inl b) =
          let f = empties-Emptying _ (run es create).mem p a (v.locals i) in
          let g = fills-Filling _ (run es create).mem q b (v.locals j) in
          absurd (ground (arith, f.full, g.waiting, slot_lem p, slot_lem q))
      apart v (inr a) (inr b) =
          let f = empties-Emptying _ (run es create).mem p a (v.locals i) in
          let g = empties-Emptying _ (run es create).mem q b (v.locals j) in
          let same : p ≡ q = ground (arith, f.full, g.full) in v.empties_once i j q (rw same at a) b
