-- ===== src/Stack/Moves.antt =====
-- stack_lockfree.cpp: what a move does to the linked list and to what the threads know.
use modern_cpp_ds.Common.{
  ℕ, ◌≡◌, ◌≢◌, refl, sym, ◌∙◌, ◌⊎◌, inl, inr, none, some, [], ◌∷◌, arith, ℕ_discrete, ◌∙◌, ap,
}
use modern_cpp_ds.Stack.{
  null, node, Node, Shared, Pc, idle, allocated, loaded, popping, store, update, took,
}
use modern_cpp_ds.Stack.Chain.{Cells, values, Chain-store, has_free, head-ne, head_allocated}
use modern_cpp_ds.Stack.Inv.{
  owns, seen, Local, Apart, Inv, Local-store, Local-cons, Local-free, Local-owns, Inv_move,
  Local-tail,
}

module _ {T : Type 0} where
  module _ (i : ℕ) (m : Shared T) (pc : ℕ → Pc) (cs : Cells T)
      (v : Inv cs (record { mem = m; pc = pc })) where
    -- Only the place of thread `i` changes.
    pub stay :
        (p : Pc)
        → Local m.heap cs p
        → ((j : ℕ) → i ≢ j → Apart p (pc j) × Apart (pc j) p)
        → Inv cs (record { mem = m; pc = update pc i p })
    stay p l apart =
        Inv_move i p m cs pc v.chain l (λ j ne. (v.locals j, (apart j ne).0, (apart j ne).1))
          v.apart

    -- The thread drops what it knew.
    pub forget :
        (p : Pc)
        → owns p ≡ none
        → seen p ≡ none
        → Local m.heap cs p
        → Inv cs (record { mem = m; pc = update pc i p })
    forget p o s l = stay p l (λ j ne. (λ a e. cc, λ a e. (λ f. cc, λ f. cc)))

    -- The thread looks at the head.
    pub look : Inv cs (record { mem = m; pc = update pc i (loaded m.head) })
    look =
        stay (loaded m.head) head_local
          (λ j ne. (λ a e. cc, λ a e. (λ f. cc, λ f. unowned j a e (ground arith))))
      where
        head_local : (m.head ≡ null) ⊎ (m.heap m.head ≢ none)
        head_local = elim (ℕ_discrete m.head null) [
          | yes e ↦ inl e
          | no ne ↦ inr (head_allocated m.heap m.head cs v.chain ne)
        ]

        unowned : (j a : ℕ) → owns (pc j) ≡ some a → m.head ≡ a → ⊥
        unowned j a e f =
            let l = Local-owns (pc j) m.heap cs a e (v.locals j) in
            head-ne m.heap m.head a cs v.chain l.0 l.2 f

    -- The thread goes on with the node that it points at.
    pub follow :
        (p : Pc)
        → owns p ≡ none
        → seen p ≡ seen (pc i)
        → Local m.heap cs p
        → Inv cs (record { mem = m; pc = update pc i p })
    follow p o s l =
        stay p l
          (λ j ne. (λ a e. cc, λ a e. (λ f. cc, λ f. (v.apart j i (λ k. ne (sym k)) a e).1 (cc))))

    -- The access does nothing.
    pub same_place : {p : Pc} → pc i ≡ p → Inv cs (record { mem = m; pc = update pc i p })
    same_place e =
        rw (← e)
          (stay (pc i) (v.locals i) (λ j ne. (v.apart i j ne, v.apart j i (λ k. ne (sym k)))))

    -- The thread writes its own node.
    pub write_own :
        (a : ℕ) (n : Node T) (p : Pc)
        → owns (pc i) ≡ some a
        → owns p ≡ some a
        → seen p ≡ none
        → Local (store m.heap a n) cs p
        → Inv cs (record { mem = record m { heap = store m.heap a n }; pc = update pc i p })
    write_own a n p o o' s l =
        let own = Local-owns (pc i) m.heap cs a o (v.locals i) in
        Inv_move i p _ cs pc (Chain-store m.heap m.head a n cs own.2 v.chain) l others v.apart
      where
        others :
            (j : ℕ) → i ≢ j → Local (store m.heap a n) cs (pc j) × Apart p (pc j) × Apart (pc j) p
        others j ne =
            let mine = v.apart i j ne a o in
            (
              Local-store (pc j) m.heap cs a n mine.0 mine.1 (v.locals j),
              λ b e. v.apart i j ne b (o ∙ sym o' ∙ e),
              λ b e. (λ f. (v.apart j i (λ k. ne (sym k)) b e).0 (o ∙ sym o' ∙ f), λ f. cc),
            )

    -- `new` hands out a fresh node.
    pub allocate :
        (a : ℕ) (n : Node T)
        → m.heap a ≡ none
        → a ≢ null
        → Inv cs
            (record { mem = record m { heap = store m.heap a n }; pc = update pc i (allocated a) })
    allocate a n free ne_null =
        Inv_move i (allocated a) _ cs pc
          (Chain-store m.heap m.head a n cs (has_free m.heap m.head a cs v.chain free) v.chain)
          (ne_null, ground arith, has_free m.heap m.head a cs v.chain free) others v.apart
      where
        others :
            (j : ℕ)
            → i ≢ j
            → Local (store m.heap a n) cs (pc j)
              × Apart (allocated a) (pc j)
              × Apart (pc j) (allocated a)
        others j ne =
            let unknown = Local-free (pc j) m.heap cs a free ne_null (v.locals j) in
            (
              Local-store (pc j) m.heap cs a n unknown.0 unknown.1 (v.locals j),
              λ b e. let same : a ≡ b = cc in rw (← same) unknown,
              λ b e. (λ f. unknown.0 (e ∙ sym f), λ f. cc),
            )

    -- The exchange of `push` succeeds: the node becomes the head.
    pub publish :
        (a next : ℕ) (x : T)
        → owns (pc i) ≡ some a
        → m.heap a ≡ some (node x next)
        → m.head ≡ next
        → Inv ((a, x) ∷ cs) (record { mem = record m { head = a }; pc = update pc i idle })
    publish a next x o e h =
        let own = Local-owns (pc i) m.heap cs a o (v.locals i) in
        Inv_move i idle _ ((a, x) ∷ cs) pc (refl, own.0, (next, e, rw h at v.chain)) tt others
          v.apart
      where
        others :
            (j : ℕ)
            → i ≢ j
            → Local m.heap ((a, x) ∷ cs) (pc j) × Apart idle (pc j) × Apart (pc j) idle
        others j ne = (
          Local-cons (pc j) m.heap cs a x (v.apart i j ne a o).0 (v.locals j),
          λ b f. cc,
          λ b f. (λ g. cc, λ g. cc),
        )

  -- The exchange of `pop` succeeds: the first node leaves the list, and its successor, read earlier,
  -- is still its successor.
  pub unlink :
      (i : ℕ) (m : Shared T) (pc : ℕ → Pc) (cs : Cells T) (old next : ℕ) (x : T)
      → Inv cs (record { mem = m; pc = pc })
      → pc i ≡ popping old next
      → m.heap old ≡ some (node x next)
      → old ≢ null
      → m.head ≡ old
      → (cs' : Cells T) × Inv cs'
          (record { mem = record m { head = next }; pc = update pc i (took old) })
        × (values cs ≡ x ∷ values cs')
  unlink i m pc [] old next x v at e ne h = absurd (ne (sym h ∙ v.chain))
  unlink i m pc ((a, y) ∷ cs) old next x v at e ne h =
      let (here, _, (q, f, rest)) = v.chain in
      let same : a ≡ old = sym here ∙ h in
      let parts : (y ≡ x) × (q ≡ next) = node_parts (ground arith) in
      (
        cs,
        Inv_move i (took old) (record m { head = next }) cs pc (rw parts.1 at rest)
            (inr (ground arith)) others v.apart,
        ap (λ z. z ∷ values cs) parts.0,
      )
    where
      node_parts : {q : ℕ} → some (node y q) ≡ some (node x next) → (y ≡ x) × (q ≡ next)
      node_parts e = ground arith

      others :
          (j : ℕ)
          → i ≢ j
          → Local m.heap cs (pc j) × Apart (took old) (pc j) × Apart (pc j) (took old)
      others j n = (
        Local-tail (pc j) m.heap cs a y (v.locals j),
        λ b f. cc,
        λ b f. (λ g. cc, λ g. (v.apart j i (λ k. n (sym k)) b f).1 (ap seen at ∙ g)),
      )
