-- ===== src/Stack/LowContention/Runs.antt =====
-- stack_lockfree.cpp, namespace `low_contention`: every access keeps the invariant, and so does every run.
use modern_cpp_ds.Common.{
  ℕ, ◌+◌, ◌^◌, ◌<◌, ◌≡◌, refl, sym, ap, ◌∙◌, List, [], ◌∷◌, length, arith, ◌≤◌,
}
use modern_cpp_ds.Common.Counts.{count}
use modern_cpp_ds.Stack.Chain.{Cells, values}
use modern_cpp_ds.Stack.Refine.{Effect}
use modern_cpp_ds.Common.Histories.{done, then_}
use modern_cpp_ds.Stack.Linear.{History}
use modern_cpp_ds.Stack.LowContention.{
  Pc, idle, allocated, pushing, entered, loaded, popping, taking, reclaiming, sole, exchanged,
  deleting, walking, linking, chaining, dropping, leaving, Shared, System, Action, begin_push,
  begin_pop, go, move, step, run, create,
}
use modern_cpp_ds.Stack.LowContention.Inv.{Place, nowhere, seen, counted, Inv}
use modern_cpp_ds.Stack.LowContention.Moves.{quiet}
use modern_cpp_ds.Stack.LowContention.Refine.{effect, Moved, silently}
use modern_cpp_ds.Stack.LowContention.Accesses.{
  allocates, begins_pop, first_load, exchanges_push, loads, exchanges_pop,
}
use modern_cpp_ds.Stack.LowContention.Recycles.{
  follows, swaps, tests_count, takes_list, decrements, departs,
}
use modern_cpp_ds.Stack.LowContention.Lists.{deletes, walks, loads_pending, chains, drops}

module _ {T : Type 0} (nothing : T) where
  pub move-Moved :
      (a : Action T) (c : Pc) (i : ℕ) (m : Shared T) (pc : ℕ → Pc) (cs : Cells T)
      (inside ps : List ℕ) (place : ℕ → Place)
      → Inv cs inside ps place m pc
      → length inside + 1 < 2 ^ 64
      → pc i ≡ c
      → Moved i (move nothing a c m) pc (effect a c m) cs (length inside + 1)
  unfolding move
  move-Moved (begin_push x fresh junk) idle i m pc cs inside ps place v few at =
      allocates nothing i m pc cs inside ps place v few x fresh junk at
  move-Moved begin_pop idle i m pc cs inside ps place v few at =
      begins_pop nothing i m pc cs inside ps place v few at
  move-Moved (go b) (allocated a) i m pc cs inside ps place v few at =
      first_load nothing i m pc cs inside ps place v few b a at
  move-Moved (go b) (pushing a) i m pc cs inside ps place v few at =
      exchanges_push nothing i m pc cs inside ps place v few b a at
  move-Moved (go b) entered i m pc cs inside ps place v few at =
      loads nothing i m pc cs inside ps place v few b at
  move-Moved (go b) (loaded old) i m pc cs inside ps place v few at =
      follows nothing i m pc cs inside ps place v few b old at
  move-Moved (go b) (popping old next) i m pc cs inside ps place v few at =
      exchanges_pop nothing i m pc cs inside ps place v few b old next at
  move-Moved (go b) (taking old) i m pc cs inside ps place v few at =
      swaps nothing i m pc cs inside ps place v few b old at
  move-Moved (go b) (reclaiming old) i m pc cs inside ps place v few at =
      tests_count nothing i m pc cs inside ps place v few b old at
  move-Moved (go b) (sole old) i m pc cs inside ps place v few at =
      takes_list nothing i m pc cs inside ps place v few b old at
  move-Moved (go b) (exchanged nodes old) i m pc cs inside ps place v few at =
      decrements nothing i m pc cs inside ps place v few b nodes old at
  move-Moved (go b) (deleting list old) i m pc cs inside ps place v few at =
      deletes nothing i m pc cs inside ps place v few b list old at
  move-Moved (go b) (walking first list old) i m pc cs inside ps place v few at =
      walks nothing i m pc cs inside ps place v few b first list old at
  move-Moved (go b) (linking first last after) i m pc cs inside ps place v few at =
      loads_pending nothing i m pc cs inside ps place v few b first last after at
  move-Moved (go b) (chaining first last after) i m pc cs inside ps place v few at =
      chains nothing i m pc cs inside ps place v few b first last after at
  move-Moved (go b) (dropping old) i m pc cs inside ps place v few at =
      drops nothing i m pc cs inside ps place v few b old at
  move-Moved (go b) leaving i m pc cs inside ps place v few at =
      departs nothing i m pc cs inside ps place v few b at
  move-Moved a c i m pc cs inside ps place v few at =
      silently
        (quiet i m pc cs inside ps place v c (ap counted (sym at)) (rw at at (v.locals i))
          (λ b s. v.visible i b (ap seen at ∙ s)))
        (omega arith)

  -- The effects of the accesses of a schedule, in order.
  unfoldable pub effects : List (ℕ × Action T) → System T → List (Effect T)
  unfolding step
  effects [] s = []
  effects ((i, a) ∷ es) s = effect a (s.pc i) s.mem ∷ effects es (step nothing (i, a) s)

  -- A run from a state with the invariant, with its history.
  pub record Ran (es : List (ℕ × Action T)) (s : System T) (cs : Cells T) (most : ℕ) : Type 0 where
    pub cells : Cells T
    pub inside : List ℕ
    pub waiting : List ℕ
    pub place : ℕ → Place
    pub inv : Inv cells inside waiting place (run nothing es s).mem (run nothing es s).pc
    pub fits : length inside ≤ most
    pub history : History (effects es s) (values cs) (values cells)

  pub run-Inv :
      (es : List (ℕ × Action T)) (s : System T) (cs : Cells T) (inside ps : List ℕ)
      (place : ℕ → Place)
      → Inv cs inside ps place s.mem s.pc
      → length inside + length es < 2 ^ 64
      → Ran es s cs (length inside + length es)
  unfolding run step effects
  run-Inv [] s cs inside ps place v few = record {
    cells = cs;
    inside = inside;
    waiting = ps;
    place = place;
    inv = v;
    fits = omega arith;
    history = done;
  }
  run-Inv ((i, a) ∷ es) s cs inside ps place v few =
      let one = move-Moved a (s.pc i) i s.mem s.pc cs inside ps place v (omega arith) refl in
      let rest =
        run-Inv es (step nothing (i, a) s) one.cells one.inside one.waiting one.place one.inv
          (omega (arith, one.fits)) in
      record {
        cells = rest.cells;
        inside = rest.inside;
        waiting = rest.waiting;
        place = rest.place;
        inv = rest.inv;
        fits = omega (arith, rest.fits, one.fits);
        history = then_ one.applies rest.history;
      }

  pub create-Inv : Inv [] [] [] (λ a. nowhere) (create {T = T}).mem (create {T = T}).pc
  unfolding count
  create-Inv = record {
    chain = refl;
    in_stack = λ a. refl;
    pending_list = refl;
    in_list = λ a. refl;
    counter = refl;
    counts = λ i. refl;
    no_null = refl;
    gone = λ a e. refl;
    there = λ a e. refl;
    locals = λ i a. (refl, refl);
    visible = λ i a e. absurd (cc);
  }

  pub ran : (es : List (ℕ × Action T)) → length es < 2 ^ 64 → Ran es create [] (0 + length es)
  ran es few = run-Inv es create [] [] [] (λ a. nowhere) create-Inv (omega arith)
