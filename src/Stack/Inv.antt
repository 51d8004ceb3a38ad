-- ===== src/Stack/Inv.antt =====
-- stack_lockfree.cpp: who may touch which node, kept by every access of every thread.
use mathlib.Core.Logic.{if_pos, if_neg}
use modern_cpp_ds.Common.{
  ℕ, ◌≡◌, ◌≢◌, refl, sym, ◌∙◌, false, ◌⊎◌, Option, none, some, [], ◌∷◌, arith, ℕ_discrete,
}
use modern_cpp_ds.Stack.{
  null, node, Node, Heap, Shared, Pc, idle, allocated, pushing, loaded, popping, took, fault, store,
  System, update, empty,
}
use modern_cpp_ds.Stack.Chain.{Cells, has, Chain}

-- The node that a thread has made and not yet published.
abbrev pub owns : Pc → Option ℕ
owns (allocated a) = some a
owns (pushing a) = some a
owns _ = none

-- The published node that a thread points at.
abbrev pub seen : Pc → Option ℕ
seen (loaded a) = some a
seen (popping a _) = some a
seen (took a) = some a
seen _ = none

module _ {T : Type 0} where
  -- What the locals of a thread say about the heap and the list.
  abbrev pub Local : Heap T → Cells T → Pc → Type 0
  Local h cs idle = Unit {0}
  Local h cs (allocated a) = (a ≢ null) × (h a ≢ none) × (has a cs ≡ false)
  Local h cs (pushing a) = (a ≢ null) × (h a ≢ none) × (has a cs ≡ false)
  Local h cs (loaded old) = (old ≡ null) ⊎ (h old ≢ none)
  Local h cs (popping old next) = (old ≢ null) × ((v : T) × (h old ≡ some (node v next)))
  Local h cs (took old) = (old ≡ null) ⊎ (h old ≢ none)
  Local h cs fault = ⊥

-- `q` neither owns nor points at what `p` owns.
abbrev pub Apart : Pc → Pc → Type 0
Apart p q = (a : ℕ) → owns p ≡ some a → (owns q ≢ some a) × (seen q ≢ some a)

module _ {T : Type 0} where
  pub record Inv (cs : Cells T) (s : System T) : Type 0 where
    pub chain : Chain s.mem.heap s.mem.head cs
    pub locals : (i : ℕ) → Local s.mem.heap cs (s.pc i)
    pub apart : (i j : ℕ) → i ≢ j → Apart (s.pc i) (s.pc j)

  pub empty-Inv : Inv [] (empty {T = T})
  empty-Inv = record { chain = refl; locals = λ i. tt; apart = λ i j ne a e. cc }

  -- A write to a node that a thread neither owns nor points at does not concern that thread.
  pub Local-store :
      (p : Pc) (h : Heap T) (cs : Cells T) (b : ℕ) (n : Node T)
      → owns p ≢ some b
      → seen p ≢ some b
      → Local h cs p
      → Local (store h b n) cs p
  Local-store idle h cs b n o w l = tt
  Local-store (allocated a) h cs b n o w l = ground arith
  Local-store (pushing a) h cs b n o w l = ground arith
  Local-store (loaded a) h cs b n o w l = ground arith
  Local-store (popping a x) h cs b n o w (ne, (v, e)) = (ne, (v, ground arith))
  Local-store (took a) h cs b n o w l = ground arith
  Local-store fault h cs b n o w l = l

  -- Nor does a node's leaving or entering the list, unless the thread owns it.
  pub Local-cons :
      (p : Pc) (h : Heap T) (cs : Cells T) (b : ℕ) (v : T)
      → owns p ≢ some b
      → Local h cs p
      → Local h ((b, v) ∷ cs) p
  Local-cons idle h cs b v o l = tt
  Local-cons (allocated a) h cs b v o l = ground arith
  Local-cons (pushing a) h cs b v o l = ground arith
  Local-cons (loaded a) h cs b v o l = l
  Local-cons (popping a x) h cs b v o l = l
  Local-cons (took a) h cs b v o l = l
  Local-cons fault h cs b v o l = l

  pub Local-tail :
      (p : Pc) (h : Heap T) (cs : Cells T) (b : ℕ) (v : T) → Local h ((b, v) ∷ cs) p → Local h cs p
  Local-tail idle h cs b v l = tt
  Local-tail (allocated a) h cs b v l = ground arith
  Local-tail (pushing a) h cs b v l = ground arith
  Local-tail (loaded a) h cs b v l = l
  Local-tail (popping a x) h cs b v l = l
  Local-tail (took a) h cs b v l = l
  Local-tail fault h cs b v l = l

  -- No thread knows an address that is not allocated.
  pub Local-free :
      (p : Pc) (h : Heap T) (cs : Cells T) (b : ℕ)
      → h b ≡ none
      → b ≢ null
      → Local h cs p
      → (owns p ≢ some b) × (seen p ≢ some b)
  Local-free idle h cs b f ne l = ground arith
  Local-free (allocated a) h cs b f ne l = ground arith
  Local-free (pushing a) h cs b f ne l = ground arith
  Local-free (loaded a) h cs b f ne l = ground arith
  Local-free (popping a x) h cs b f ne (_, (v, e)) = ground arith
  Local-free (took a) h cs b f ne l = ground arith
  Local-free fault h cs b f ne l = absurd l

  -- An owned node is allocated, and not in the list.
  pub Local-owns :
      (p : Pc) (h : Heap T) (cs : Cells T) (b : ℕ)
      → owns p ≡ some b
      → Local h cs p
      → (b ≢ null) × (h b ≢ none) × (has b cs ≡ false)
  Local-owns idle h cs b e l = absurd (cc)
  Local-owns (allocated a) h cs b e l = ground arith
  Local-owns (pushing a) h cs b e l = ground arith
  Local-owns (loaded _) h cs b e l = absurd (cc)
  Local-owns (popping _ _) h cs b e l = absurd (cc)
  Local-owns (took _) h cs b e l = absurd (cc)
  Local-owns fault h cs b e l = absurd l

  -- The invariant after a move of thread `i`, from what the move shows of itself and of the others.
  pub Inv_move :
      (i : ℕ) (p : Pc) (m : Shared T) (cs : Cells T) (pc : ℕ → Pc)
      → Chain m.heap m.head cs
      → Local m.heap cs p
      → ((j : ℕ) → i ≢ j → Local m.heap cs (pc j) × Apart p (pc j) × Apart (pc j) p)
      → ((j k : ℕ) → j ≢ k → Apart (pc j) (pc k))
      → Inv cs (record { mem = m; pc = update pc i p })
  Inv_move i p m cs pc chain self others before = record {
    chain = chain;
    locals = λ j. elim (ℕ_discrete i j) [
      | yes e ↦ rw (if_pos _ e) self
      | no ne ↦ rw (if_neg _ ne) (others j ne).0
    ];
    apart = λ j k ne. apart_of j k ne (ℕ_discrete i j) (ℕ_discrete i k);
  }
    where
      apart_of :
          (j k : ℕ) → j ≢ k → Dec (i ≡ j) → Dec (i ≡ k) → Apart (update pc i p j) (update pc i p k)
      apart_of j k ne (yes a) (yes b) = absurd (ne (sym a ∙ b))
      apart_of j k ne (yes a) (no b) =
          rw (if_pos (ℕ_discrete i j) a, if_neg (ℕ_discrete i k) b) (others k b).1
      apart_of j k ne (no a) (yes b) =
          rw (if_neg (ℕ_discrete i j) a, if_pos (ℕ_discrete i k) b) (others j a).2
      apart_of j k ne (no a) (no b) =
          rw (if_neg (ℕ_discrete i j) a, if_neg (ℕ_discrete i k) b) (before j k ne)
