-- ===== src/Stack/LowContention/Pops.antt =====
-- stack_lockfree.cpp, namespace `low_contention`: `pop` unlinks a node, and the counter of threads.
use modern_cpp_ds.Common.{
  ℕ, ◌+◌, ◌^◌, ◌<◌, ◌≤◌, ◌≡◌, ◌≢◌, refl, sym, ap, ◌∙◌, none, some, List, [], ◌∷◌, ◌==◌, length,
  arith, ℕ_discrete, if◌then◌else◌,
}
use modern_cpp_ds.Common.Counts.{count}
use modern_cpp_ds.Stack.{node}
use modern_cpp_ds.Stack.Chain.{Cells, Chain}
use modern_cpp_ds.Stack.LowContention.{
  loaded, Pc, popping, taking, reclaiming, sole, Shared, update, decremented,
}
use modern_cpp_ds.Stack.LowContention.Inv.{
  Place, stacked, held, claimed, is_stacked, seen, counted, Owns, addresses, Local, Inv,
}
use modern_cpp_ds.Stack.LowContention.Change.{still, popped, claims, Change-Inv}
use modern_cpp_ds.Stack.LowContention.Places.{stacked_of, held_of, put, turn-put, ==_self, ==_other}

-- The threads in `pop` but for one.
abbrev pub without : ℕ → List ℕ → List ℕ
without i [] = []
without i (j ∷ js) = if i == j then without i js else j ∷ without i js

pub length-without : (i : ℕ) (xs : List ℕ) → length (without i xs) + count i xs ≡ length xs
unfolding count
length-without i [] = refl
length-without i (j ∷ js) = ground (arith, length-without i js)

pub count-without_self : (i : ℕ) (xs : List ℕ) → count i (without i xs) ≡ 0
unfolding count
count-without_self i [] = refl
count-without_self i (j ∷ js) = ground (arith, count-without_self i js)

pub count-without_other : (i j : ℕ) (xs : List ℕ) → i ≢ j → count j (without i xs) ≡ count j xs
unfolding count
count-without_other i j [] ne = refl
count-without_other i j (k ∷ ks) ne = ground (arith, count-without_other i j ks ne)

count-le-length : (i : ℕ) (xs : List ℕ) → count i xs ≤ length xs
unfolding count
count-le-length i [] = omega arith
count-le-length i (j ∷ js) = ground (arith, count-le-length i js)

seen-counted : (c : Pc) (a : ℕ) → seen c ≡ some a → counted c ≡ 1
seen-counted (loaded old) a e = refl
seen-counted (popping old next) a e = refl
seen-counted _ a e = absurd (cc)

module _ {T : Type 0} (i : ℕ) (m : Shared T) (pc : ℕ → Pc) (cs : Cells T) (inside ps : List ℕ)
    (place : ℕ → Place) (v : Inv cs inside ps place m pc) where
  -- While a thread is counted alone, no other has loaded a node.
  pub unseen : counted (pc i) ≡ 1 → length inside ≡ 1 → (j a : ℕ) → i ≢ j → seen (pc j) ≢ some a
  unseen mine one j a ne s = absurd (
      omega (
        arith,
        length-without i inside,
        v.counts i,
        v.counts j,
        seen-counted (pc j) a s,
        count-without_other i j inside ne,
        count-le-length j (without i inside),
      ))

  -- The count that `--threads_in_pop` leaves.
  pub decremented_lem :
      counted (pc i) ≡ 1 → length inside < 2 ^ 64 → decremented m ≡ length (without i inside)
  decremented_lem mine few = omega (arith, v.counter, v.counts i, length-without i inside)

  -- The thread is no longer counted.
  pub uncounts :
      (c' : Pc)
      → counted (pc i) ≡ 1
      → length inside < 2 ^ 64
      → counted c' ≡ 0
      → Local i c' place m.heap
      → seen c' ≡ none
      → Inv cs
          (without i inside)
          ps
          place
          (record m { threads_in_pop = decremented m })
          (update pc i c')
  uncounts c' mine few not_mine self blind =
      Change-Inv i place inside m pc cs cs (without i inside) ps ps place
        (record m { threads_in_pop = decremented m }) c' v
        (record {
          chain = v.chain;
          in_stack = v.in_stack;
          pending_list = v.pending_list;
          in_list = v.in_list;
          counter = decremented_lem mine few;
          my_count = count-without_self i inside ∙ sym not_mine;
          counts = λ j ne. count-without_other i j inside ne;
          no_null = v.no_null;
          turn = λ a. still;
          self = self;
          my_seen = λ b s. absurd (cc);
          visible = λ j b ne s l. l;
        })

  -- A thread that is counted alone claims the node that it unlinked.
  pub claims_own :
      (old : ℕ)
      → pc i ≡ reclaiming old
      → m.threads_in_pop ≡ 1
      → Inv cs inside ps (put place old (claimed i)) m (update pc i (sole old))
  unfolding count
  claims_own old at one =
      let o : Owns i place (old ∷ []) [] = rw at at (v.locals i) in
      let mine = held_of i (place old) (ground (arith, o old)) in
      Change-Inv i place inside m pc cs cs inside ps ps (put place old (claimed i)) m (sole old) v
        (record {
          chain = v.chain;
          in_stack = λ b. ground (arith, v.in_stack b);
          pending_list = v.pending_list;
          in_list = λ b. ground (arith, v.in_list b);
          counter = v.counter;
          my_count = v.counts i ∙ ap counted at;
          counts = λ j ne. refl;
          no_null = ground (arith, v.no_null);
          turn = turn-put i place old (claimed i) m.heap m.heap (rw mine claims) (λ b ne. refl);
          self = λ b. ground (arith, o b);
          my_seen = λ b s. absurd (cc);
          visible = λ j b ne s l. absurd (unseen (ap counted at) (sym v.counter ∙ one) j b ne s);
        })

  -- The node on top is the one that the thread has loaded.
  on_top :
      (old next : ℕ)
      → pc i ≡ popping old next
      → m.head ≡ old
      → (x : T) × (rest : Cells T) × (cs ≡ (old, x) ∷ rest)
        × (place old ≡ stacked)
        × (m.heap old ≡ some (node x next))
        × Chain m.heap next rest
  unfolding count
  on_top old next at top = go cs v.chain v.in_stack
    where
      go :
          (ds : Cells T)
          → Chain m.heap m.head ds
          → ((a : ℕ) → count a (addresses ds) ≡ is_stacked (place a))
          → (x : T) × (rest : Cells T) × (ds ≡ (old, x) ∷ rest)
            × (place old ≡ stacked)
            × (m.heap old ≡ some (node x next))
            × Chain m.heap next rest
      go [] c n =
          let (o, nz, l) : Local i (popping old next) place m.heap = rw at at (v.locals i) in
          absurd (nz (sym top ∙ c))
      go ((a, x) ∷ rest) (at_a, _, (k, f, ch)) n =
          let (o, nz, l) : Local i (popping old next) place m.heap = rw at at (v.locals i) in
          let same : a ≡ old = sym at_a ∙ top in
          let here = stacked_of (place old) (ground (arith, n old)) in
          let (d, g) = l here in
          let f' : m.heap old ≡ some (node x k) = rw (← same) f in
          let eq : (x ≡ d) × (k ≡ next) = ground (arith, f', g) in
          (x, rest, rw same, here, rw (← eq.1) f', rw (← eq.1) ch)

  -- The successful exchange of `pop`.
  pub unlinks :
      (old next : ℕ)
      → pc i ≡ popping old next
      → m.head ≡ old
      → (x : T) × (rest : Cells T) × (cs ≡ (old, x) ∷ rest)
        × (m.heap old ≡ some (node x next))
        × Inv rest inside ps
            (put place old (held i))
            (record m { head = next })
            (update pc i (taking old))
  unfolding count
  unlinks old next at top =
      let (o, _, _) : Local i (popping old next) place m.heap = rw at at (v.locals i) in
      let (x, rest, list, here, f, ch) = on_top old next at top in
      (
        x,
        rest,
        list,
        f,
        Change-Inv i place inside m pc cs rest inside ps ps (put place old (held i))
            (record m { head = next }) (taking old) v
            (record {
              chain = ch;
              in_stack = λ b. ground (arith, rw list at (v.in_stack b));
              pending_list = v.pending_list;
              in_list = λ b. ground (arith, v.in_list b);
              counter = v.counter;
              my_count = v.counts i ∙ ap counted at;
              counts = λ j ne. refl;
              no_null = ground (arith, v.no_null);
              turn = turn-put i place old (held i) m.heap m.heap (rw here popped) (λ b ne. refl);
              self = λ b. ground (arith, o b);
              my_seen = λ b s. absurd (cc);
              visible = λ j b ne s l. elim (ℕ_discrete old b) [
                | yes e ↦ rw (← e, ==_self old) tt
                | no ns ↦ rw (==_other old b ns) l
              ];
            }),
      )
