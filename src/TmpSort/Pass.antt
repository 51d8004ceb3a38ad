-- ===== src/TmpSort/Pass.antt =====
-- c++_features_experiment/template_metaprogramming.cpp: what the sort returns.
use modern_cpp_ds.Common.{
  sym, ℕ, zero, suc, ◌+◌, ◌<◌, ◌≤◌, ◌≡◌, refl, ap, ◌∙◌, ◌⊎◌, dec_lt, some, List, [], ◌∷◌, ◌++◌,
  length, length-append, arith, inl, inr,
}
use modern_cpp_ds.Common.Counts.{count, count-append}
use mathlib.Core.List.{append_assoc}
use modern_cpp_ds.TmpSort.{compare_swap, inbubsort}
use modern_cpp_ds.TmpSort.Sorted.{Least, Below, Below-append, Below-raise}

-- What one comparison leaves, with the first `length pre` numbers passed by.
record Compared (pre : List ℕ) (x y : ℕ) (rest : List ℕ) : Type 0 where
  low : ℕ
  high : ℕ
  step : compare_swap (length pre) (pre ++ (x ∷ y ∷ rest)) ≡ some (pre ++ (low ∷ high ∷ rest))
  low_le : low ≤ high
  is_x : (low ≡ x × high ≡ y) ⊎ (low ≡ y × high ≡ x)

both_Least :
    (pre : List ℕ) (x y : ℕ) (rest fin : List ℕ) (k : Compared pre x y rest)
    → Least x fin
    → Least y fin
    → Least k.low fin × Least k.high fin
both_Least pre x y rest fin k l l' = elim k.is_x [
  | inl (e, e') ↦ (rw e l, rw e' l')
  | inr (e, e') ↦ (rw e l', rw e' l)
]

high_le : (pre : List ℕ) (x y : ℕ) (rest : List ℕ) (k : Compared pre x y rest) → x ≤ k.high
high_le pre x y rest k =
    let le = k.low_le in elim k.is_x [ inl (e, e') ↦ omega arith | inr (e, e') ↦ omega arith ]

compared-count :
    (pre : List ℕ) (x y : ℕ) (rest : List ℕ) (k : Compared pre x y rest) (a : ℕ)
    → count a (pre ++ (k.low ∷ (k.high ∷ rest))) ≡ count a (pre ++ (x ∷ (y ∷ rest)))
unfolding count
compared-count pre x y rest k a =
    let new = count-append a pre (k.low ∷ (k.high ∷ rest)) in
    let old = count-append a pre (x ∷ (y ∷ rest)) in
    elim k.is_x [
      | inl (e, e') ↦ ground (arith, new, old, e, e')
      | inr (e, e') ↦ ground (arith, new, old, e, e')
    ]

swap_lem :
    (pre : List ℕ) (a b x y : ℕ) (rest : List ℕ)
    → compare_swap 0 (x ∷ y ∷ rest) ≡ some (a ∷ b ∷ rest)
    → compare_swap (length pre) (pre ++ (x ∷ y ∷ rest)) ≡ some (pre ++ (a ∷ b ∷ rest))
unfolding compare_swap
swap_lem [] a b x y rest e = e
swap_lem (p ∷ pre) a b x y rest e = rw (swap_lem pre a b x y rest e)

compared : (pre : List ℕ) (x y : ℕ) (rest : List ℕ) → Compared pre x y rest
unfolding compare_swap
compared pre x y rest = elim (dec_lt y x) [
  | yes lt ↦ record {
    low = y;
    high = x;
    step = swap_lem pre y x x y rest (ground arith);
    low_le = omega arith;
    is_x = inr (refl, refl);
  }
  | no nl ↦ record {
    low = x;
    high = y;
    step = swap_lem pre x y x y rest (ground arith);
    low_le = omega arith;
    is_x = inl (refl, refl);
  }
]

-- What a pass leaves: the largest number of the part that is not sorted yet stands at its end.
pub record Passed (i fuel j f : ℕ) (before fin : List ℕ) : Type 0 where
  pub front : List ℕ
  pub most : ℕ
  pub runs : inbubsort fuel i j before ≡ inbubsort f i i (front ++ (most ∷ fin))
  pub size : length front ≡ i
  pub below : Below front (most ∷ [])
  pub apart : Below front fin
  pub least : Least most fin
  pub same : (a : ℕ) → count a (front ++ (most ∷ fin)) ≡ count a before

pub one_round :
    (fuel i j : ℕ) (before after : List ℕ)
    → j < i
    → compare_swap j before ≡ some after
    → inbubsort (suc fuel) i j before ≡ inbubsort fuel i (suc j) after
unfolding inbubsort
one_round fuel i j before after lt e = ground arith

pub pass :
    (pre mid fin : List ℕ) (m i fuel f : ℕ)
    → i ≡ length pre + length mid
    → fuel ≡ length mid + f
    → Below pre (m ∷ [])
    → Below pre fin
    → Least m fin
    → Below mid fin
    → Passed i fuel (length pre) f (pre ++ (m ∷ (mid ++ fin))) fin
pass pre [] fin m i fuel f ei ef b a l c =
    let at_end : length pre ≡ i = omega arith in
    let same_fuel : fuel ≡ f = omega arith in
    record {
      front = pre;
      most = m;
      runs = rw (at_end, same_fuel) refl;
      size = at_end;
      below = b;
      apart = a;
      least = l;
      same = λ x. refl;
    }
pass pre (y ∷ mid) fin m i zero f ei ef b a l c = absurd (omega arith)
pass pre (y ∷ mid) fin m i (suc fuel) f ei ef b a l (ly, c) =
    let k = compared pre m y (mid ++ fin) in
    let moved = append_assoc pre (k.low ∷ []) (k.high ∷ (mid ++ fin)) in
    let longer : length (pre ++ (k.low ∷ [])) ≡ suc (length pre) =
      let n = length-append pre (k.low ∷ []) in omega (arith, n) in
    let (lows, highs) = both_Least pre m y (mid ++ fin) fin k l ly in
    let p =
      pass (pre ++ (k.low ∷ [])) mid fin k.high i fuel f (omega (arith, longer)) (omega arith)
        (Below-append pre (k.low ∷ []) (k.high ∷ [])
          (Below-raise pre m k.high (high_le pre m y (mid ++ fin) k) b) ((k.low_le, tt), tt))
        (Below-append pre (k.low ∷ []) fin a (lows, tt)) highs c in
    record {
      front = p.front;
      most = p.most;
      runs =
          one_round fuel i (length pre) (pre ++ (m ∷ (y ∷ (mid ++ fin))))
            (pre ++ (k.low ∷ (k.high ∷ (mid ++ fin)))) (omega arith) k.step
          ∙ ap (inbubsort fuel i (suc (length pre))) (sym moved)
          ∙ ap (λ j. inbubsort fuel i j ((pre ++ (k.low ∷ [])) ++ (k.high ∷ (mid ++ fin))))
              (sym longer)
          ∙ p.runs;
      size = p.size;
      below = p.below;
      apart = p.apart;
      least = p.least;
      same = λ x. p.same x ∙ ap (count x) moved ∙ compared-count pre m y (mid ++ fin) k x;
    }
