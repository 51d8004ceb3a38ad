-- ===== src/Stack/LowContention/Paths.antt =====
-- stack_lockfree.cpp, namespace `low_contention`: the lists that lead through the nodes.
use modern_cpp_ds.Common.{ℕ, ◌<◌, ◌≡◌, refl, ◌∙◌, none, List, [], ◌∷◌, ◌++◌, arith}
use modern_cpp_ds.Common.Counts.{count}
use modern_cpp_ds.Stack.{null, Heap}
use modern_cpp_ds.Stack.Chain.{Cells, Chain}
use modern_cpp_ds.Stack.LowContention.Inv.{addresses, Leads}

module _ {T : Type 0} where
  pub Chain-Kept :
      (h h' : Heap T) (p : ℕ) (cs : Cells T)
      → ((a : ℕ) → 0 < count a (addresses cs) → h' a ≡ h a)
      → Chain h p cs
      → Chain h' p cs
  unfolding count
  Chain-Kept h h' p [] k c = c
  Chain-Kept h h' p ((a, x) ∷ cs) k (at_p, nz, (next, f, rest)) = (
    at_p,
    nz,
    (next, k a (ground arith) ∙ f, Chain-Kept h h' next cs (λ b l. k b (ground arith)) rest),
  )

  pub Leads-append :
      (h : Heap T) (p : ℕ) (xs : List ℕ) (q : ℕ) (ys : List ℕ) (r : ℕ)
      → Leads h p xs q
      → Leads h q ys r
      → Leads h p (xs ++ ys) r
  Leads-append h p [] q ys r e f = rw e f
  Leads-append h p (a ∷ xs) q ys r (e, (d, next, f, rest)) g =
      (e, (d, next, f, Leads-append h next xs q ys r rest g))

  -- No list leads on from null.
  pub empty_after_null :
      (h : Heap T) (xs : List ℕ) (q : ℕ) → h null ≡ none → Leads h null xs q → xs ≡ []
  empty_after_null h [] q n p = refl
  empty_after_null h (a ∷ xs) q n (e, (d, next, f, rest)) = absurd (cc)
