-- ===== src/Mempool/Steps.antt =====
-- c++_features_experiment/mempool.cpp: what the operations do, for every sequence of them.
use mathlib.Core.Path.{subst}
use modern_cpp_ds.Common.{
  ℕ, suc, ◌<◌, ◌≤◌, ◌≡◌, ◌≢◌, refl, sym, ap, ◌∙◌, Option, none, some, List, [], ◌∷◌, length,
  get_elem?, set, get_elem?-set_self, get_elem?-set_ne, length-set, arith, ℕ_discrete,
}
use modern_cpp_ds.Common.Counts.{count}
use modern_cpp_ds.Mempool.{
  Chunk, zeroed, next, object, Pool, Result, returned, throws, undefined, create, allocate,
  deallocate, int_max,
}
use modern_cpp_ds.Mempool.Free.{Live, Inv, Chain-set, Chain-next, get-length, set-set}
use modern_cpp_ds.Mempool.Create.{upto, create_lem}

module _ {T : Type 0} where
  -- The pools that a client can reach that gives back what it was given, in any order.
  pub data Reachable (n : ℕ) : Pool T → Type 0 where
    created : (p : Pool T) → create n ≡ some p → Reachable n p
    allocated :
        (p p' : Pool T) (v : T) (c : ℕ)
        → Reachable n p
        → allocate v p ≡ returned c p'
        → Reachable n p'
    deallocated :
        (p p' : Pool T) (c : ℕ) → Reachable n p → deallocate c p ≡ some p' → Reachable n p'

  -- Chunk `c` changes, and no other.
  pub record Only (c : ℕ) (p p' : Pool T) : Type 0 where
    pub same_length : length p'.blocks ≡ length p.blocks
    pub others : (j : ℕ) → c ≢ j → get_elem? p'.blocks j ≡ get_elem? p.blocks j

  -- A free chunk comes off the list.
  pub takes_first :
      (v : T) (c : ℕ) (cs : List ℕ) (p : Pool T)
      → Inv (c ∷ cs) p
      → (p' : Pool T) × (allocate v p ≡ returned c p')
        × Inv cs p'
        × Only c p p'
        × (get_elem? p'.blocks c ≡ some (object v))
  unfolding allocate count
  takes_first v c cs p i =
      let (e, (n, at, more)) = i.chain in
      let out : count c cs ≡ 0 = let h = i.once c in ground arith in
      let lt = get-length p.blocks c (next n) at in
      (
        record { free_list = n; blocks = set p.blocks c (object v) },
        ground arith,
        record {
          chain = Chain-set p.blocks n cs c (object v) out more;
          once = λ j. let h = i.once j in ground arith;
          used = λ j l z. elim (ℕ_discrete c j) [
            | yes s ↦ (
              v,
              ap (get_elem? (set p.blocks c (object v))) (sym s)
                  ∙ get_elem?-set_self p.blocks c (object v) lt,
            )
            | no ns ↦
                let (w, f) = i.used j (rw (length-set p.blocks c (object v)) at l) (ground arith) in
                (w, get_elem?-set_ne p.blocks (object v) ns ∙ f)
          ];
        },
        record {
          same_length = length-set p.blocks c (object v);
          others = λ j ne. get_elem?-set_ne p.blocks (object v) ne;
        },
        get_elem?-set_self p.blocks c (object v) lt,
      )

  -- A live chunk goes on the list.
  pub gives_back :
      (c : ℕ) (cs : List ℕ) (p : Pool T)
      → Inv cs p
      → Live p c
      → (p' : Pool T) × (deallocate c p ≡ some p')
        × Inv (c ∷ cs) p'
        × Only c p p'
        × (p' ≡ record { free_list = some c; blocks = set p.blocks c (next p.free_list) })
  unfolding deallocate count
  gives_back c cs p i (v, at) =
      let lt = get-length p.blocks c (object v) at in
      let out : count c cs ≡ 0 = elim (ℕ_discrete (count c cs) 0) [
        | yes z ↦ z
        | no nz ↦
            let (n, f) = Chain-next p.blocks p.free_list cs c i.chain (omega arith) in absurd (cc)
      ] in
      (
        record { free_list = some c; blocks = set p.blocks c (next p.free_list) },
        ground arith,
        record {
          chain = (
            refl,
            (
              p.free_list,
              get_elem?-set_self p.blocks c (next p.free_list) lt,
              Chain-set p.blocks p.free_list cs c (next p.free_list) out i.chain,
            ),
          );
          once = λ j. let h = i.once j in ground arith;
          used = λ j l z.
              let ns : c ≢ j = λ s. ground arith in
              let (w, f) =
                i.used j (rw (length-set p.blocks c (next p.free_list)) at l) (ground arith) in
              (w, get_elem?-set_ne p.blocks (next p.free_list) ns ∙ f);
        },
        record {
          same_length = length-set p.blocks c (next p.free_list);
          others = λ j ne. get_elem?-set_ne p.blocks (next p.free_list) ne;
        },
        refl,
      )

  allocate_none :
      (v : T) (p : Pool T)
      → Inv [] p
      → (allocate v p ≡ throws) × ((c : ℕ) → c < length p.blocks → Live p c)
  unfolding allocate count
  allocate_none v p i = let e = i.chain in (ground arith, λ c l. i.used c l refl)

  deallocate_needs : (c : ℕ) (p p' : Pool T) → deallocate c p ≡ some p' → Live p c
  unfolding deallocate
  deallocate_needs c p p' e = holds (get_elem? p.blocks c) refl
    where
      holds : (o : Option (Chunk T)) → get_elem? p.blocks c ≡ o → Live p c
      holds (some (object v)) f = (v, f)
      holds (some (next n)) f = absurd (ground arith)
      holds (some zeroed) f = absurd (ground arith)
      holds none f = absurd (ground arith)

  deallocate_dead : (c : ℕ) (p : Pool T) → ¬ Live p c → deallocate c p ≡ none
  unfolding deallocate
  deallocate_dead c p dead = fails (get_elem? p.blocks c) refl
    where
      fails : (o : Option (Chunk T)) → get_elem? p.blocks c ≡ o → deallocate c p ≡ none
      fails (some (object v)) f = absurd (dead (v, f))
      fails (some (next n)) f = ground arith
      fails (some zeroed) f = ground arith
      fails none f = ground arith

  abbrev Known : ℕ → Pool T → Type 0
  Known n p = (cs : List ℕ) × Inv cs p × (length p.blocks ≡ n)

  Known-eq : (n : ℕ) (p q : Pool T) → p ≡ q → Known n p → Known n q
  Known-eq n p q e k = subst (Known n) e k

  allocated-Known :
      (n : ℕ) (p p' : Pool T) (v : T) (c : ℕ)
      → allocate v p ≡ returned c p'
      → Known n p
      → Known n p'
  allocated-Known n p p' v c e ([], i, l) = let t = (allocate_none v p i).0 in absurd (cc)
  allocated-Known n p p' v c e (d ∷ cs, i, l) =
      let (q, f, i', o, _) = takes_first v d cs p i in
      Known-eq n q p' (ground arith) (cs, i', o.same_length ∙ l)

  Reachable-Known : (n : ℕ) (p : Pool T) → 0 < n → n ≤ suc int_max → Reachable n p → Known n p
  Reachable-Known n _ lt le (created p e) =
      let (q, f, l, i) = create_lem n lt le in Known-eq n q p (ground arith) (upto 0 n, i, l)
  Reachable-Known n _ lt le (allocated p p' v c r e) =
      allocated-Known n p p' v c e (Reachable-Known n p lt le r)
  Reachable-Known n _ lt le (deallocated p p' c r e) =
      let (cs, i, l) = Reachable-Known n p lt le r in
      let (q, f, i', o, _) = gives_back c cs p i (deallocate_needs c p p' e) in
      Known-eq n q p' (ground arith) (c ∷ cs, i', o.same_length ∙ l)

  -- What `allocate` may do: with every chunk in use it throws; otherwise it returns a chunk of the array
  -- in which no object lived, `T()` lives there afterwards, and nothing else has changed.
  abbrev pub Allocates : ℕ → Pool T → T → Result T → Type 0
  Allocates n p v throws = (c : ℕ) → c < n → Live p c
  Allocates n p v (returned c p') =
      (c < n) × ¬ Live p c × (get_elem? p'.blocks c ≡ some (object v)) × Only c p p'
  Allocates n p v undefined = ⊥

  -- However a client has taken chunks and given them back, `allocate` throws exactly when every chunk is
  -- in use, and otherwise returns a chunk of the array that was not in use and touches no other.
  pub allocate_lem :
      (n : ℕ) (p : Pool T) (v : T)
      → 0 < n
      → n ≤ suc int_max
      → Reachable n p
      → Allocates n p v (allocate v p)
  allocate_lem n p v lt le r = allocates (Reachable-Known n p lt le r)
    where
      allocates : Known n p → Allocates n p v (allocate v p)
      allocates ([], i, l) = let (e, all) = allocate_none v p i in rw e (λ c lt. all c (rw l lt))
      allocates (c ∷ cs, i, l) =
          let (p', e, _, o, at) = takes_first v c cs p i in
          let (_, (n', f, _)) = i.chain in
          let inside = get-length p.blocks c (next n') f in
          rw e (rw l at inside, (λ (w, g). absurd (cc)), at, o)

  -- In every pool that a client can reach, `deallocate` of a chunk in use succeeds, frees that chunk and
  -- touches no other, and of any other pointer it is undefined.
  pub deallocate_lem :
      (n : ℕ) (p : Pool T) (c : ℕ)
      → 0 < n
      → n ≤ suc int_max
      → Reachable n p
      → (Live p c → (p' : Pool T) × (deallocate c p ≡ some p') × ¬ Live p' c × Only c p p')
        × (¬ Live p c → deallocate c p ≡ none)
  deallocate_lem n p c lt le r =
      let (cs, i, l) = Reachable-Known n p lt le r in
      (
        λ live.
            let (p', e, i', o, _) = gives_back c cs p i live in
            let (_, (n', f, _)) = i'.chain in (p', e, (λ (w, g). absurd (cc)), o),
        deallocate_dead c p,
      )

  -- The pool is last in, first out: after a chunk has been given back, the next `allocate` returns that
  -- chunk, and leaves the pool as it was but for the value in the chunk.
  pub allocate-deallocate :
      (p p' : Pool T) (c : ℕ) (v : T)
      → deallocate c p ≡ some p'
      → allocate v p' ≡ returned c (record p { blocks = set p.blocks c (object v) })
  unfolding allocate deallocate
  allocate-deallocate p p' c v e =
      let (w, at) = deallocate_needs c p p' e in
      let lt = get-length p.blocks c (object w) at in
      let same : record { free_list = some c; blocks = set p.blocks c (next p.free_list) } ≡ p' =
        ground arith in
      rw (← same) (
        ground (
          arith,
          get_elem?-set_self p.blocks c (next p.free_list) lt,
          set-set p.blocks c (next p.free_list) (object v),
        ))
