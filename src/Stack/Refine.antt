-- ===== src/Stack/Refine.antt =====
-- stack_lockfree.cpp: the accesses as steps of a stack of values.
use modern_cpp_ds.Common.{
  ℕ, ◌≡◌, ◌≢◌, refl, sym, Bool, ◌⊎◌, inl, inr, none, some, List, [], ◌∷◌, ◌==◌, arith, ℕ_discrete,
  if◌then◌else◌, ap, Option-cases, Bool-cases, false,
}
use modern_cpp_ds.Stack.{
  null, node, Node, Shared, Pc, idle, allocated, pushing, loaded, popping, store, update, Action,
  begin_pop, go, took, move, begin_push, is_free,
}
use modern_cpp_ds.Stack.Chain.{Cells, values, Chain}
use modern_cpp_ds.Stack.Inv.{owns, seen, Local, Inv}
use modern_cpp_ds.Stack.Moves.{
  forget, look, follow, same_place, write_own, allocate, publish, unlink,
}

-- What an access does to the stack of values.
pub data Effect (T : Type 0) : Type 0 where
  silent : Effect T
  pushes : T → Effect T
  pops : T → Effect T
  finds_empty : Effect T

module _ {T : Type 0} where
  -- A `pop` that loads a null head is the one that finds the stack empty.
  abbrev pub load_effect : Shared T → Effect T
  load_effect m = if m.head == null then finds_empty else silent

  abbrev pub push_effect : Bool → Shared T → Node T → Effect T
  push_effect spurious m (node v next) =
      if spurious then silent else if m.head == next then pushes v else silent

  abbrev pub effect : Action T → Pc → Shared T → Effect T
  effect begin_pop idle m = load_effect m
  effect (go spurious) (pushing a) m = elim (m.heap a) [
    | some n ↦ push_effect spurious m n
    | none ↦ silent
  ]
  effect (go spurious) (popping old next) m =
      if spurious
      then load_effect m
      else if m.head == old
      then elim (m.heap old) [ some (node v _) ↦ pops v | none ↦ silent ]
      else load_effect m
  effect _ _ m = silent

  -- The sequential stack.
  abbrev pub Applies : Effect T → List T → List T → Type 0
  Applies silent xs ys = ys ≡ xs
  Applies (pushes v) xs ys = ys ≡ v ∷ xs
  Applies (pops v) xs ys = xs ≡ v ∷ ys
  Applies finds_empty xs ys = (xs ≡ []) × (ys ≡ [])

  -- The state after a move, and the list that it holds.
  pub record After (i : ℕ) (r : Shared T × Pc) (pc : ℕ → Pc) (eff : Effect T) (cs : Cells T)
      : Type 0 where
    pub cells : Cells T
    pub inv : Inv cells (record { mem = r.0; pc = update pc i r.1 })
    pub applies : Applies eff (values cs) (values cells)

  quiet :
      {i : ℕ} {r : Shared T × Pc} {pc : ℕ → Pc} (cs : Cells T)
      → Inv cs (record { mem = r.0; pc = update pc i r.1 })
      → After i r pc silent cs
  quiet cs v = record { cells = cs; inv = v; applies = refl }

  After-of :
      {i : ℕ} {pc : ℕ → Pc} {cs : Cells T} {r r' : Shared T × Pc} {eff eff' : Effect T}
      → r' ≡ r
      → eff' ≡ eff
      → After i r pc eff cs
      → After i r' pc eff' cs
  After-of e f a = rw (e, f) a

  load-Applies :
      (m : Shared T) (cs : Cells T)
      → Chain m.heap m.head cs
      → Applies (load_effect m) (values cs) (values cs)
  load-Applies m [] c = let e : load_effect m ≡ finds_empty = ground arith in rw e (refl, refl)
  load-Applies m ((a, v) ∷ cs) (at_a, ne, rest) =
      let e : load_effect m ≡ silent = ground arith in rw e refl

  allocation :
      (x : T) (fresh junk i : ℕ) (m : Shared T) (pc : ℕ → Pc) (cs : Cells T)
      → Inv cs (record { mem = m; pc = pc })
      → After i (move (begin_push x fresh junk) idle m) pc silent cs
  unfolding move
  allocation x fresh junk i m pc cs v = elim (Bool-cases (is_free m.heap fresh)) [
    | inl free ↦
        let facts : (m.heap fresh ≡ none) × (fresh ≢ null) = ground arith in
        After-of (ground arith) refl
          (quiet cs (allocate i m pc cs v fresh (node x junk) facts.0 facts.1))
    | inr used ↦
        After-of {r = (m, idle)} (ground arith) refl
          (quiet cs (forget i m pc cs v idle refl refl tt))
  ]

  first_load :
      (b : Bool) (a i : ℕ) (m : Shared T) (pc : ℕ → Pc) (cs : Cells T)
      → pc i ≡ allocated a
      → Inv cs (record { mem = m; pc = pc })
      → After i (move (go b) (allocated a) m) pc silent cs
  unfolding move
  first_load b a i m pc cs e v =
      let (ne, live, out) : Local m.heap cs (allocated a) = rw e at (v.locals i) in
      elim (Option-cases (m.heap a)) [
        | inl f ↦ absurd (live f)
        | inr (node x next, f) ↦ After-of (ground arith) refl (
            quiet cs (
              write_own i m pc cs v a (node x m.head) (pushing a) (ap owns e) refl refl
                (ne, ground arith, out)))
      ]

  exchange :
      (spurious : Bool) (a i : ℕ) (m : Shared T) (pc : ℕ → Pc) (cs : Cells T)
      → pc i ≡ pushing a
      → Inv cs (record { mem = m; pc = pc })
      → After i (move (go spurious) (pushing a) m) pc (effect (go spurious) (pushing a) m) cs
  unfolding move
  exchange spurious a i m pc cs e v =
      let (ne, live, out) : Local m.heap cs (pushing a) = rw e at (v.locals i) in
      elim (Option-cases (m.heap a)) [
        | inl f ↦ absurd (live f)
        | inr (node x next, f) ↦ elim (Bool-cases (if spurious then false else m.head == next)) [
          | inl wins ↦
              After-of {r = (record m { head = a }, idle)} {eff = pushes x} (ground arith)
                (ground arith)
                (record {
                  cells = (a, x) ∷ cs;
                  inv = publish i m pc cs v a next x (ap owns e) f (ground arith);
                  applies = refl;
                })
          | inr loses ↦
              After-of {r = (record m { heap = store m.heap a (node x m.head) }, pushing a)}
                {eff = silent} (ground arith) (ground arith)
                (quiet cs (
                  write_own i m pc cs v a (node x m.head) (pushing a) (ap owns e) refl refl
                    (ne, ground arith, out)))
        ]
      ]

  follow_next :
      (b : Bool) (old i : ℕ) (m : Shared T) (pc : ℕ → Pc) (cs : Cells T)
      → pc i ≡ loaded old
      → Inv cs (record { mem = m; pc = pc })
      → After i (move (go b) (loaded old) m) pc silent cs
  unfolding move
  follow_next b old i m pc cs e v = elim (ℕ_discrete old null) [
    | yes z ↦
        After-of {r = (m, took null)} (ground arith) refl
          (quiet cs (follow i m pc cs v (took null) refl (ap seen (sym (rw z at e))) (inl refl)))
    | no nz ↦
        let known : (old ≡ null) ⊎ (m.heap old ≢ none) = rw e at (v.locals i) in
        elim (Option-cases (m.heap old)) [
          | inl f ↦ absurd (ground arith)
          | inr (node x next, f) ↦
              After-of {r = (m, popping old next)} (ground arith) refl (
                quiet cs
                  (follow i m pc cs v (popping old next) refl (sym (ap seen e)) (nz, (x, f))))
        ]
  ]

  exchange_back :
      (spurious : Bool) (old next i : ℕ) (m : Shared T) (pc : ℕ → Pc) (cs : Cells T)
      → pc i ≡ popping old next
      → Inv cs (record { mem = m; pc = pc })
      → After i
          (move (go spurious) (popping old next) m)
          pc
          (effect (go spurious) (popping old next) m)
          cs
  unfolding move
  exchange_back spurious old next i m pc cs e v =
      let (ne, (x, f)) : Local m.heap cs (popping old next) = rw e at (v.locals i) in
      elim (Bool-cases (if spurious then false else m.head == old)) [
        | inl wins ↦
            let (cs', inv, popped) = unlink i m pc cs old next x v e f ne (ground arith) in
            After-of {r = (record m { head = next }, took old)} {eff = pops x} (ground arith)
              (ground arith) (record { cells = cs'; inv = inv; applies = popped })
        | inr loses ↦
            After-of {r = (m, loaded m.head)} {eff = load_effect m} (ground arith) (ground arith)
              (record { cells = cs; inv = look i m pc cs v; applies = load-Applies m cs v.chain })
      ]

  -- Each access of thread `i` keeps the invariant, for the list that its effect leaves.
  pub move-Refines :
      (a : Action T) (p : Pc) (i : ℕ) (m : Shared T) (pc : ℕ → Pc) (cs : Cells T)
      → pc i ≡ p
      → Inv cs (record { mem = m; pc = pc })
      → After i (move a p m) pc (effect a p m) cs
  unfolding move
  move-Refines (begin_push x fresh junk) idle i m pc cs e v = allocation x fresh junk i m pc cs v
  move-Refines begin_pop idle i m pc cs e v = record {
    cells = cs;
    inv = look i m pc cs v;
    applies = load-Applies m cs v.chain;
  }
  move-Refines (go b) (allocated a) i m pc cs e v = first_load b a i m pc cs e v
  move-Refines (go b) (pushing a) i m pc cs e v = exchange b a i m pc cs e v
  move-Refines (go b) (loaded old) i m pc cs e v = follow_next b old i m pc cs e v
  move-Refines (go b) (popping old next) i m pc cs e v = exchange_back b old next i m pc cs e v
  move-Refines (go _) (took old) i m pc cs e v = quiet cs (forget i m pc cs v idle refl refl tt)
  move-Refines _ _ i m pc cs e v = quiet cs (same_place i m pc cs v e)
