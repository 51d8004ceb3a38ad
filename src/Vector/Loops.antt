-- ===== src/Vector/Loops.antt =====
-- vector.cpp: what each loop over the slots does to a block whose middle part it walks through.
use mathlib.Core.List.{append_assoc}
use modern_cpp_ds.Common.{
  ℕ, zero, suc, ◌≡◌, refl, sym, ap, ◌∙◌, Option, none, some, List, [], ◌∷◌, ◌++◌, map, arith,
  length, length-append, get_elem?, set, replicate,
}
use modern_cpp_ds.Vector.{
  ok, Block, read, construct, destruct, fill, live_count, copy_loop, destroy, move_loop,
}

module _ {ℓ} {A : Type ℓ} where
  get_elem?-middle :
      (pre rest : List A) (x : A) → get_elem? (pre ++ (x ∷ rest)) (length pre) ≡ some x
  get_elem?-middle [] rest x = refl
  get_elem?-middle (y ∷ pre) rest x = get_elem?-middle pre rest x

  set-middle :
      (pre rest : List A) (x y : A) → set (pre ++ (x ∷ rest)) (length pre) y ≡ pre ++ (y ∷ rest)
  set-middle [] rest x y = refl
  set-middle (z ∷ pre) rest x y = ap (λ l. z ∷ l) (set-middle pre rest x y)

  pub length_snoc : (pre : List A) (x : A) → length (pre ++ (x ∷ [])) ≡ suc (length pre)
  length_snoc pre x = omega (arith, length-append pre (x ∷ []))

  pub snoc : (pre rest : List A) (x : A) → (pre ++ (x ∷ [])) ++ rest ≡ pre ++ (x ∷ rest)
  snoc pre rest x = append_assoc pre (x ∷ []) rest

pub live_count_raw :
    (T : Type 0) (a b : ℕ) → live_count {T = T} (replicate a none ++ replicate b none) ≡ 0
live_count_raw T zero zero = refl
live_count_raw T zero (suc b) = live_count_raw T zero b
live_count_raw T (suc a) b = live_count_raw T a b

module _ {T : Type 0} where
  -- Slots that hold these objects.
  abbrev pub live : List T → Block T
  live = map some

  pub read_middle : (pre rest : Block T) (x : T) → read (pre ++ (some x ∷ rest)) (length pre) ≡ ok x
  read_middle pre rest x = rw (get_elem?-middle pre rest (some x))

  pub construct_middle :
      (pre rest : Block T) (o : Option T) (x : T)
      → construct (pre ++ (o ∷ rest)) (length pre) x ≡ ok (pre ++ (some x ∷ rest))
  construct_middle pre rest o x =
      rw (get_elem?-middle pre rest o, construct, set-middle pre rest o (some x))

  pub destruct_middle :
      (pre rest : Block T) (x : T)
      → destruct (pre ++ (some x ∷ rest)) (length pre) ≡ ok (pre ++ (none ∷ rest))
  destruct_middle pre rest x =
      rw (get_elem?-middle pre rest (some x), destruct, set-middle pre rest (some x) none)

  both_suc :
      (x y : T) (pre pre' : Block T)
      → length pre ≡ length pre'
      → length (pre ++ (some x ∷ [])) ≡ length (pre' ++ (some y ∷ []))
  both_suc x y pre pre' e = length_snoc pre (some x) ∙ ap suc e ∙ sym (length_snoc pre' (some y))

  pub fill_lem :
      (x : T) (n : ℕ) (pre rest : Block T)
      → fill x n (length pre) (pre ++ (replicate n none ++ rest))
        ≡ ok (pre ++ (replicate n (some x) ++ rest))
  unfolding fill
  fill_lem x zero pre rest = refl
  fill_lem x (suc n) pre rest =
      rw (construct_middle pre (replicate n none ++ rest) none x)
        (simp (snoc, length_snoc) at (fill_lem x n (pre ++ (some x ∷ [])) rest))

  pub destroy_lem :
      (xs : List T) (pre rest : Block T)
      → destroy (length xs) (length pre) (pre ++ (live xs ++ rest))
        ≡ ok (pre ++ (replicate (length xs) none ++ rest))
  unfolding destroy
  destroy_lem [] pre rest = refl
  destroy_lem (x ∷ xs) pre rest =
      rw (destruct_middle pre (live xs ++ rest) x)
        (simp (snoc, length_snoc) at (destroy_lem xs (pre ++ (none ∷ [])) rest))

  pub copy_lem :
      (xs : List T) (pre pre' rest rest' : Block T)
      → length pre ≡ length pre'
      → copy_loop
          (length xs)
          (length pre)
          (pre ++ (replicate (length xs) none ++ rest))
          (pre' ++ (live xs ++ rest'))
        ≡ ok (pre ++ (live xs ++ rest))
  unfolding copy_loop
  copy_lem [] pre pre' rest rest' e = refl
  copy_lem (x ∷ xs) pre pre' rest rest' e =
      rw
        (
          e,
          read_middle pre' (live xs ++ rest') x,
          ← e,
          construct_middle pre (replicate (length xs) none ++ rest) none x,
        )
        (simp (snoc, length_snoc) at
          (copy_lem xs (pre ++ (some x ∷ [])) (pre' ++ (some x ∷ [])) rest rest'
            (both_suc x x pre pre' e)))

  pub move_lem :
      (moved_from : T → T) (xs : List T) (pre pre' rest rest' : Block T)
      → length pre ≡ length pre'
      → move_loop moved_from
          (length xs)
          (length pre)
          (pre ++ (replicate (length xs) none ++ rest))
          (pre' ++ (live xs ++ rest'))
        ≡ ok (pre ++ (live xs ++ rest), pre' ++ (live (map moved_from xs) ++ rest'))
  unfolding move_loop
  move_lem moved_from [] pre pre' rest rest' e = refl
  move_lem moved_from (x ∷ xs) pre pre' rest rest' e =
      rw
        (
          e,
          read_middle pre' (live xs ++ rest') x,
          set-middle pre' (live xs ++ rest') (some x) (some (moved_from x)),
          ← e,
          construct_middle pre (replicate (length xs) none ++ rest) none x,
        )
        (simp (snoc, length_snoc) at
          (move_lem moved_from xs (pre ++ (some x ∷ [])) (pre' ++ (some (moved_from x) ∷ [])) rest
            rest' (both_suc x (moved_from x) pre pre' e)))
