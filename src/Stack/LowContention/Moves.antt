-- ===== src/Stack/LowContention/Moves.antt =====
-- stack_lockfree.cpp, namespace `low_contention`: the moves of `push` and `pop` keep the invariant.
use modern_cpp_ds.Common.{
  ℕ, ◌+◌, ◌^◌, ◌<◌, ◌≡◌, ◌≢◌, refl, sym, ap, ◌∙◌, none, some, List, [], ◌∷◌, length, arith,
  ℕ_discrete, ◌⊎◌, inl, inr,
}
use modern_cpp_ds.Common.Counts.{count}
use modern_cpp_ds.Stack.{null, node, Node, store}
use modern_cpp_ds.Stack.Chain.{Cells, Chain-store, has_free}
use modern_cpp_ds.Stack.LowContention.{
  Pc, idle, allocated, pushing, entered, Shared, update, size_t,
}
use modern_cpp_ds.Stack.LowContention.Inv.{
  Place, stacked, held, claimed, is_stacked, is_pending, Seeable, seen, counted, Owns, Local, Inv,
}
use modern_cpp_ds.Stack.LowContention.Change.{
  still, made, wrote_held, wrote_claimed, pushed, Leads-Kept, Change-Inv, Turn,
}
use modern_cpp_ds.Stack.LowContention.Places.{
  claimed_of, put, turn-put, unlisted, ==_self, ==_other,
}

module _ {T : Type 0} (i : ℕ) (m : Shared T) (pc : ℕ → Pc) (cs : Cells T) (inside ps : List ℕ)
    (place : ℕ → Place) (v : Inv cs inside ps place m pc) where
  -- A move that changes no memory.
  pub quiet :
      (c' : Pc)
      → counted c' ≡ counted (pc i)
      → Local i c' place m.heap
      → ((a : ℕ) → seen c' ≡ some a → Seeable (place a))
      → Inv cs inside ps place m (update pc i c')
  quiet c' n self sees = Change-Inv i place inside m pc cs cs inside ps ps place m c' v (record {
    chain = v.chain;
    in_stack = v.in_stack;
    pending_list = v.pending_list;
    in_list = v.in_list;
    counter = v.counter;
    my_count = v.counts i ∙ sym n;
    counts = λ j ne. refl;
    no_null = v.no_null;
    turn = λ a. still;
    self = self;
    my_seen = sees;
    visible = λ j a ne s l. l;
  })

  -- A thread writes to a node of its own.
  pub writes :
      (a : ℕ) (n n' : Node T) (c' : Pc)
      → m.heap a ≡ some n
      → (place a ≡ held i) ⊎ (place a ≡ claimed i)
      → counted c' ≡ counted (pc i)
      → Local i c' place (store m.heap a n')
      → seen c' ≡ none
      → Inv cs inside ps place (record m { heap = store m.heap a n' }) (update pc i c')
  writes a n n' c' live mine e self blind =
      Change-Inv i place inside m pc cs cs inside ps ps place
        (record m { heap = store m.heap a n' }) c' v
        (record {
          chain =
              Chain-store m.heap m.head a n' cs (unlisted a cs (v.in_stack a ∙ not_stacked mine))
                v.chain;
          in_stack = v.in_stack;
          pending_list =
              Leads-Kept m.heap (store m.heap a n') m.to_be_deleted ps null
                (λ b l. elim (ℕ_discrete a b) [
                  | yes s ↦
                      let z : is_pending (place b) ≡ 0 = rw (← s) (not_pending mine) in
                      absurd (omega (arith, v.in_list b, z))
                  | no ns ↦ ground arith
                ])
                v.pending_list;
          in_list = v.in_list;
          counter = v.counter;
          my_count = v.counts i ∙ sym e;
          counts = λ j ne. refl;
          no_null = v.no_null;
          turn =
              λ b. elim (ℕ_discrete a b) [ yes s ↦ rw (← s) (written mine) | no ns ↦ other b ns ];
          self = self;
          my_seen = λ b s. absurd (cc);
          visible = λ j b ne s l. l;
        })
    where
      not_stacked : (place a ≡ held i) ⊎ (place a ≡ claimed i) → is_stacked (place a) ≡ 0
      not_stacked (inl h) = rw h
      not_stacked (inr h) = rw h

      not_pending : (place a ≡ held i) ⊎ (place a ≡ claimed i) → is_pending (place a) ≡ 0
      not_pending (inl h) = rw h
      not_pending (inr h) = rw h

      written :
          (place a ≡ held i) ⊎ (place a ≡ claimed i)
          → Turn i (place a) (m.heap a) (place a) (store m.heap a n' a)
      written (inl h) = rw (h, live, ==_self a) wrote_held
      written (inr h) = rw (h, live, ==_self a) wrote_claimed

      other : (b : ℕ) → a ≢ b → Turn i (place b) (m.heap b) (place b) (store m.heap a n' b)
      other b ne = let same : store m.heap a n' b ≡ m.heap b = ground arith in rw same still

  -- `new` returns an address that is not in use.
  pub makes :
      (a : ℕ) (n : Node T)
      → m.heap a ≡ none
      → a ≢ null
      → pc i ≡ idle
      → Inv cs inside ps
          (put place a (claimed i))
          (record m { heap = store m.heap a n })
          (update pc i (allocated a))
  unfolding count
  makes a n free nz at =
      let o : Owns i place [] [] = rw at at (v.locals i) in
      let was = v.there a free in
      Change-Inv i place inside m pc cs cs inside ps ps (put place a (claimed i))
        (record m { heap = store m.heap a n }) (allocated a) v
        (record {
          chain =
              Chain-store m.heap m.head a n cs (has_free m.heap m.head a cs v.chain free) v.chain;
          in_stack = λ b. ground (arith, v.in_stack b);
          pending_list =
              Leads-Kept m.heap (store m.heap a n) m.to_be_deleted ps null
                (λ b l. ground (arith, v.in_list b)) v.pending_list;
          in_list = λ b. ground (arith, v.in_list b);
          counter = v.counter;
          my_count = v.counts i ∙ ap counted at;
          counts = λ j ne. refl;
          no_null = ground (arith, v.no_null);
          turn =
              turn-put i place a (claimed i) m.heap (store m.heap a n)
                (rw (was, free, ==_self a) made) (λ b ne. ground arith);
          self = λ b. ground (arith, o b);
          my_seen = λ b s. absurd (cc);
          visible = λ j b ne s l. elim (ℕ_discrete a b) [
            | yes e ↦ absurd (let gone = rw (← e, was) at l in gone)
            | no ns ↦ let same : put place a (claimed i) b ≡ place b = ground arith in rw same l
          ];
        })

  -- `pop` counts itself.
  pub enters :
      pc i ≡ idle
      → length inside + 1 < 2 ^ 64
      → Inv cs
          (i ∷ inside)
          ps
          place
          (record m { threads_in_pop = size_t (m.threads_in_pop + 1) })
          (update pc i entered)
  unfolding count
  enters at few =
      let o : Owns i place [] [] = rw at at (v.locals i) in
      Change-Inv i place inside m pc cs cs (i ∷ inside) ps ps place
        (record m { threads_in_pop = size_t (m.threads_in_pop + 1) }) entered v
        (record {
          chain = v.chain;
          in_stack = v.in_stack;
          pending_list = v.pending_list;
          in_list = v.in_list;
          counter = omega (arith, v.counter);
          my_count = ground (arith, v.counts i, ap counted at);
          counts = λ j ne. ground arith;
          no_null = v.no_null;
          turn = λ a. still;
          self = o;
          my_seen = λ b s. absurd (cc);
          visible = λ j b ne s l. l;
        })

  -- The successful exchange of `push`.
  pub links :
      (a : ℕ) (x : T)
      → pc i ≡ pushing a
      → m.heap a ≡ some (node x m.head)
      → Inv ((a, x) ∷ cs) inside ps (put place a stacked) (record m { head = a }) (update pc i idle)
  unfolding count
  links a x at f =
      let o : Owns i place [] (a ∷ []) = rw at at (v.locals i) in
      let mine = claimed_of i (place a) (ground (arith, o a)) in
      let nz : a ≢ null = λ e. absurd (cc (rw e at mine, v.no_null)) in
      Change-Inv i place inside m pc cs ((a, x) ∷ cs) inside ps ps (put place a stacked)
        (record m { head = a }) idle v
        (record {
          chain = (refl, nz, (m.head, f, v.chain));
          in_stack = λ b. ground (arith, v.in_stack b);
          pending_list = v.pending_list;
          in_list = λ b. ground (arith, v.in_list b);
          counter = v.counter;
          my_count = v.counts i ∙ ap counted at;
          counts = λ j ne. refl;
          no_null = ground (arith, v.no_null);
          turn = turn-put i place a stacked m.heap m.heap (rw mine pushed) (λ b ne. refl);
          self = λ b. ground (arith, o b);
          my_seen = λ b s. absurd (cc);
          visible = λ j b ne s l. elim (ℕ_discrete a b) [
            | yes e ↦ rw (← e, ==_self a) tt
            | no ns ↦ rw (==_other a b ns) l
          ];
        })
