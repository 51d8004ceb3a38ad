-- ===== src/Memmove/Copy.antt =====
-- prac.cpp, `memmove`: what it copies.
use modern_cpp_ds.Common.{
  ℕ, zero, suc, ◌+◌, ◌≤◌, ◌<◌, ◌≡◌, ◌≢◌, ◌⊎◌, inl, inr, refl, arith, ℕ_discrete, dec_lt, ◌-◌,
}
use modern_cpp_ds.Memmove.{null, write, forward, backward, memmove}

module _ {T : Type 0} where
  -- `count` bytes at `dest` are those that `m` has at `src`; the other bytes are those of `m`.
  pub record Copied (dest src count : ℕ) (m m' : ℕ → T) : Type 0 where
    pub moved : (i : ℕ) → i < count → m' (dest + i) ≡ m (src + i)
    pub others : (p : ℕ) → (p < dest) ⊎ (dest + count ≤ p) → m' p ≡ m p

  forward-Copied : (n d s : ℕ) (m : ℕ → T) → d < s → Copied d s n m (forward n d s m)
  unfolding forward
  forward-Copied zero d s m lt = record {
    moved = λ i h. absurd (omega arith);
    others = λ p h. refl;
  }
  forward-Copied (suc n) d s m lt =
      let c = forward-Copied n (d + 1) (s + 1) (write m d (m s)) (omega arith) in
      record { moved = λ i h. moved i h c; others = λ p h. ground (arith, c.others p) }
    where
      moved :
          (i : ℕ)
          → i < suc n
          → (c : Copied
              (d + 1)
              (s + 1)
              n
              (write m d (m s))
              (forward n (d + 1) (s + 1) (write m d (m s))))
          → forward n (d + 1) (s + 1) (write m d (m s)) (d + i) ≡ m (s + i)
      moved i h c = elim (ℕ_discrete i 0) [
        | yes z ↦ ground (arith, c.others d)
        | no ne ↦
            let at_d : d + 1 + (i - 1) ≡ d + i = omega arith in
            let at_s : s + 1 + (i - 1) ≡ s + i = omega arith in
            let here = rw (at_d, at_s) at (c.moved (i - 1) (omega arith)) in ground (arith, here)
      ]

  backward-Copied : (n d s : ℕ) (m : ℕ → T) → s < d → Copied d s n m (backward n d s m)
  unfolding backward
  backward-Copied zero d s m lt = record {
    moved = λ i h. absurd (omega arith);
    others = λ p h. refl;
  }
  backward-Copied (suc n) d s m lt =
      let c = backward-Copied n d s (write m (d + n) (m (s + n))) lt in
      record {
        moved = λ i h. elim (dec_lt i n) [
          | yes before ↦ ground (arith, c.moved i before)
          | no last ↦ ground (arith, c.others (d + n) (inr (omega arith)))
        ];
        others = λ p h. ground (arith, c.others p);
      }

  -- For addresses that are not null, `memmove` returns the destination, which then holds the bytes
  -- that the source held before, even where the two overlap, and no other byte changes; for a null
  -- address it returns null and changes nothing.
  pub memmove_lem :
      (dest src count : ℕ) (m : ℕ → T)
      → ((dest ≢ null)
          × (src ≢ null)
          × ((memmove dest src count m).0 ≡ dest)
          × Copied dest src count m (memmove dest src count m).1)
        ⊎ (((dest ≡ null) ⊎ (src ≡ null)) × (memmove dest src count m ≡ (null, m)))
  unfolding memmove
  memmove_lem dest src count m = elim (ℕ_discrete src null) [
    | yes z ↦ inr (inr z, ground arith)
    | no sn ↦ elim (ℕ_discrete dest null) [
      | yes z ↦ inr (inl z, ground arith)
      | no dn ↦ elim (dec_lt dest src) [
        | yes ahead ↦
            let picks : memmove dest src count m ≡ (dest, forward count dest src m) =
              ground arith in
            rw picks (inl (dn, sn, refl, forward-Copied count dest src m ahead))
        | no not_ahead ↦ elim (dec_lt src dest) [
          | yes behind ↦
              let picks : memmove dest src count m ≡ (dest, backward count dest src m) =
                ground arith in
              rw picks (inl (dn, sn, refl, backward-Copied count dest src m behind))
          | no not_behind ↦
              let same : dest ≡ src = omega arith in
              let picks : memmove dest src count m ≡ (dest, m) = ground arith in
              rw picks
                (inl (dn, sn, refl, record { moved = λ i h. ground arith; others = λ p h. refl }))
        ]
      ]
    ]
  ]
