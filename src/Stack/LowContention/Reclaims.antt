-- ===== src/Stack/LowContention/Reclaims.antt =====
-- stack_lockfree.cpp, namespace `low_contention`: the moves of `try_reclaim` keep the invariant.
use modern_cpp_ds.Common.{
  ℕ, ◌^◌, ◌<◌, ◌≡◌, ◌≢◌, refl, sym, ap, ◌∙◌, none, some, List, [], ◌∷◌, ◌++◌, length, arith,
  ℕ_discrete, Option,
}
use modern_cpp_ds.Common.Counts.{count, count-append}
use modern_cpp_ds.Stack.{null, node, Node}
use modern_cpp_ds.Stack.Chain.{Cells}
use modern_cpp_ds.Stack.LowContention.{
  After, then_leave, then_delete, Pc, sole, exchanged, deleting, chaining, Shared, update,
  decremented, resume, delete_node, then_delete,
}
use modern_cpp_ds.Stack.LowContention.Inv.{
  Place, nowhere, claimed, Seeable, seen, counted, Owns, Leads, Local, Inv, later,
}
use modern_cpp_ds.Stack.LowContention.Change.{Turn, freed, Leads-Kept, Change-Inv}
use modern_cpp_ds.Stack.LowContention.Places.{
  put, take_all, claim_all, give_all, take_all_lem, claim_all_lem, give_all_lem, Seeable-take_all,
  Seeable-give_all, turn-take_all, turn-claim_all, turn-give_all, turn-put, ==_self,
}
use modern_cpp_ds.Stack.LowContention.Pops.{
  without, count-without_self, count-without_other, unseen, decremented_lem, length-without,
}
use modern_cpp_ds.Stack.LowContention.Paths.{Chain-Kept, Leads-append}

module _ {T : Type 0} (i : ℕ) (m : Shared T) (pc : ℕ → Pc) (cs : Cells T) (inside ps : List ℕ)
    (place : ℕ → Place) (v : Inv cs inside ps place m pc) where
  -- The exchange of `to_be_deleted` takes the whole list.
  pub takes :
      (old : ℕ)
      → pc i ≡ sole old
      → Inv cs inside []
          (λ a. take_all i (place a))
          (record m { to_be_deleted = null })
          (update pc i (exchanged m.to_be_deleted old))
  unfolding count
  takes old at =
      let o : Owns i place [] (old ∷ []) = rw at at (v.locals i) in
      Change-Inv i place inside m pc cs cs inside ps [] (λ a. take_all i (place a))
        (record m { to_be_deleted = null }) (exchanged m.to_be_deleted old) v
        (record {
          chain = v.chain;
          in_stack = λ b. v.in_stack b ∙ sym (take_all_lem i (place b)).0;
          pending_list = refl;
          in_list = λ b. sym (take_all_lem i (place b)).1;
          counter = v.counter;
          my_count = v.counts i ∙ ap counted at;
          counts = λ j ne. refl;
          no_null = rw v.no_null refl;
          turn = λ b. turn-take_all i (m.heap b) (place b);
          self = (
            ps,
            v.pending_list,
            λ b.
                let l = take_all_lem i (place b) in
                (omega (arith, v.in_list b, (o b).0, l.2), (o b).1 ∙ sym l.3),
          );
          my_seen = λ b s. absurd (cc);
          visible = λ j b ne s l. Seeable-take_all i (place b) l;
        })

  -- Nobody is left in `pop`: the thread claims the list that it took.
  pub claims_list :
      (nodes old : ℕ)
      → pc i ≡ exchanged nodes old
      → length inside < 2 ^ 64
      → decremented m ≡ 0
      → Inv cs
          (without i inside)
          ps
          (λ a. claim_all i (place a))
          (record m { threads_in_pop = decremented m })
          (update pc i (deleting nodes old))
  unfolding count
  claims_list nodes old at few none_left =
      let (xs, path, o) : Local i (exchanged nodes old) place m.heap = rw at at (v.locals i) in
      let mine = ap counted at in
      let left = decremented_lem i m pc cs inside ps place v mine few in
      let one : length inside ≡ 1 =
        omega (arith, left, none_left, length-without i inside, v.counts i, mine) in
      Change-Inv i place inside m pc cs cs (without i inside) ps ps (λ a. claim_all i (place a))
        (record m { threads_in_pop = decremented m }) (deleting nodes old) v
        (record {
          chain = v.chain;
          in_stack = λ b. v.in_stack b ∙ sym (claim_all_lem i (place b)).0;
          pending_list = v.pending_list;
          in_list = λ b. v.in_list b ∙ sym (claim_all_lem i (place b)).1;
          counter = left;
          my_count = count-without_self i inside;
          counts = λ j ne. count-without_other i j inside ne;
          no_null = rw v.no_null refl;
          turn = λ b. turn-claim_all i (m.heap b) (place b);
          self = (
            xs,
            path,
            λ b.
                let l = claim_all_lem i (place b) in
                (sym l.2, ground (arith, (o b).0, (o b).1, l.3)),
          );
          my_seen = λ b s. absurd (cc);
          visible = λ j b ne s l. absurd (unseen i m pc cs inside ps place v mine one j b ne s);
        })

  -- A thread deletes a node that it claims.
  pub frees :
      (a : ℕ) (c' : Pc)
      → m.heap a ≢ none
      → place a ≡ claimed i
      → counted c' ≡ counted (pc i)
      → Local i c' (put place a nowhere) (delete_node a m).heap
      → seen c' ≡ none
      → Inv cs inside ps (put place a nowhere) (delete_node a m) (update pc i c')
  frees a c' live mine e self blind =
      let kept : (b : ℕ) → a ≢ b → (delete_node a m).heap b ≡ m.heap b = λ b ne. ground arith in
      Change-Inv i place inside m pc cs cs inside ps ps (put place a nowhere) (delete_node a m) c' v
        (record {
          chain =
              Chain-Kept m.heap (delete_node a m).heap m.head cs
                (λ b l. kept b (λ s. absurd (ground (arith, v.in_stack b)))) v.chain;
          in_stack = λ b. ground (arith, v.in_stack b);
          pending_list =
              Leads-Kept m.heap (delete_node a m).heap m.to_be_deleted ps null
                (λ b l. kept b (λ s. absurd (ground (arith, v.in_list b)))) v.pending_list;
          in_list = λ b. ground (arith, v.in_list b);
          counter = v.counter;
          my_count = v.counts i ∙ sym e;
          counts = λ j ne. refl;
          no_null = ground (arith, v.no_null);
          turn =
              turn-put i place a nowhere m.heap (delete_node a m).heap (gone (m.heap a) refl) kept;
          self = self;
          my_seen = λ b s. absurd (cc);
          visible = λ j b ne s l. elim (ℕ_discrete a b) [
            | yes s ↦ absurd (let hidden = rw (← s, mine) at l in hidden)
            | no ns ↦ let same : put place a nowhere b ≡ place b = ground arith in rw same l
          ];
        })
    where
      gone :
          (o : Option (Node T))
          → m.heap a ≡ o
          → Turn i (place a) (m.heap a) nowhere ((delete_node a m).heap a)
      gone none f = absurd (live f)
      gone (some n) f = rw (mine, f, ==_self a) freed

  -- The successful exchange of `chain_pending_nodes`.
  pub gives :
      (first last : ℕ) (after : After) (x : T)
      → pc i ≡ chaining first last after
      → m.heap last ≡ some (node x m.to_be_deleted)
      → (ps' : List ℕ) × Inv cs inside ps'
          (λ a. give_all i (place a))
          (record m { to_be_deleted = first })
          (update pc i (resume after))
  unfolding count
  gives first last after x at f =
      let (xs, path, o) : Local i (chaining first last after) place m.heap =
        rw at at (v.locals i) in
      let end : Leads m.heap last (last ∷ []) m.to_be_deleted = (refl, (x, _, f, refl)) in
      let list = Leads-append m.heap first xs last (last ∷ []) m.to_be_deleted path end in
      let mine = xs ++ (last ∷ []) in
      (
        mine ++ ps,
        Change-Inv i place inside m pc cs cs inside ps (mine ++ ps) (λ a. give_all i (place a))
            (record m { to_be_deleted = first }) (resume after) v
            (record {
              chain = v.chain;
              in_stack = λ b. v.in_stack b ∙ sym (give_all_lem i (place b)).0;
              pending_list =
                  Leads-append m.heap first mine m.to_be_deleted ps null list v.pending_list;
              in_list = λ b. omega (
                arith,
                count-append b mine ps,
                v.in_list b,
                (o b).0,
                (give_all_lem i (place b)).1,
              );
              counter = v.counter;
              my_count = v.counts i ∙ ap counted at ∙ same_count after;
              counts = λ j ne. refl;
              no_null = rw v.no_null refl;
              turn = λ b. turn-give_all i (m.heap b) (place b);
              self =
                  rest after
                    (λ b. let l = give_all_lem i (place b) in (sym l.2, (o b).1 ∙ sym l.3));
              my_seen = unseeing after;
              visible = λ j b ne s l. Seeable-give_all i (place b) l;
            }),
      )
    where
      same_count : (t : After) → counted (chaining first last t) ≡ counted (resume t)
      same_count then_leave = refl
      same_count (then_delete old) = refl

      rest :
          (t : After)
          → Owns i (λ a. give_all i (place a)) [] (later t)
          → Local i (resume t) (λ a. give_all i (place a)) m.heap
      rest then_leave o = o
      rest (then_delete old) o = o

      unseeing : (t : After) (b : ℕ) → seen (resume t) ≡ some b → Seeable (give_all i (place b))
      unseeing then_leave b s = absurd (cc)
      unseeing (then_delete old) b s = absurd (cc)
