-- ===== src/Merkle/Binding.antt =====
-- src/merkle.cpp: the Merkle root and the level under it.
use binarycoin.Base.{
  Bool-cases, length, All, length-append, ok, ok-injective, text_eq, text_eq_iff, ℕ, zero, suc, ◌+◌,
  ◌-◌, ◌*◌, ◌/◌, ◌<◌, ◌≡◌, refl, sym, ap, ◌∙◌, ◌≢◌, ◌⊎◌, inl, inr, List, [], ◌∷◌, ◌++◌, arith,
}
use binarycoin.Hash.Crypto.{Crypto, sha256d, sha256d_size}
use binarycoin.Merkle.{next_level, merkle_loop, root_of_level}

-- Two different 64-byte texts with one double SHA-256.
abbrev pub Collision : Crypto → Type 0
Collision c =
    (a : List ℕ) × (b : List ℕ) × (a ≢ b)
    × (length a ≡ 64)
    × (length b ≡ 64)
    × (sha256d c a ≡ sha256d c b)

abbrev pub IsDigest : List ℕ → Type 0
IsDigest d = length d ≡ 32

append-cancel : (a b x y : List ℕ) → length a ≡ length b → a ++ x ≡ b ++ y → (a ≡ b) × (x ≡ y)
append-cancel [] [] x y l e = (refl, e)
append-cancel [] (q ∷ b) x y l e = absurd (omega arith)
append-cancel (p ∷ a) [] x y l e = absurd (omega arith)
append-cancel (p ∷ a) (q ∷ b) x y l e =
    let (same, rest) = append-cancel a b x y (omega arith) (cc) in (ground arith, rest)

module _ (c : Crypto) where
  -- Equal hashes of two pairs come from equal pairs, or from a collision.
  pair_binding :
      (a b p q : List ℕ)
      → IsDigest a
      → IsDigest b
      → IsDigest p
      → IsDigest q
      → sha256d c (a ++ b) ≡ sha256d c (p ++ q)
      → ((a ≡ p) × (b ≡ q)) ⊎ Collision c
  pair_binding a b p q ha hb hp hq e = elim (Bool-cases (text_eq (a ++ b) (p ++ q))) [
    | inl same ↦ inl (append-cancel a p b q (omega arith) ((text_eq_iff (a ++ b) (p ++ q)).0 same))
    | inr other ↦ inr (
      a ++ b,
      p ++ q,
      (λ h. cc (other, (text_eq_iff (a ++ b) (p ++ q)).1 h)),
      omega (arith, length-append a b),
      omega (arith, length-append p q),
      e,
    )
  ]

  next_level_digests : (xs : List (List ℕ)) → All IsDigest (next_level c xs)
  unfolding next_level
  next_level_digests [] = tt
  next_level_digests (a ∷ []) = (sha256d_size c (a ++ a), tt)
  next_level_digests (a ∷ b ∷ rest) = (sha256d_size c (a ++ b), next_level_digests rest)

  -- Each round halves the level, rounding up.
  length-next_level : (xs : List (List ℕ)) → length (next_level c xs) ≡ (length xs + 1) / 2
  unfolding next_level
  length-next_level [] = omega arith
  length-next_level (a ∷ []) = omega arith
  length-next_level (a ∷ b ∷ rest) = omega (arith, length-next_level rest)

  next_level_binding :
      (xs ys : List (List ℕ))
      → length xs ≡ length ys
      → All IsDigest xs
      → All IsDigest ys
      → next_level c xs ≡ next_level c ys
      → (xs ≡ ys) ⊎ Collision c
  unfolding next_level
  next_level_binding [] [] l hx hy e = inl refl
  next_level_binding [] (y ∷ ys) l hx hy e = absurd (omega arith)
  next_level_binding (x ∷ xs) [] l hx hy e = absurd (omega arith)
  next_level_binding (a ∷ []) (p ∷ []) l hx hy e =
      elim (pair_binding a a p p hx.0 hx.0 hy.0 hy.0 (cc)) [
        | inl same ↦ inl (ap (λ d. d ∷ []) same.0)
        | inr found ↦ inr found
      ]
  next_level_binding (a ∷ []) (p ∷ q ∷ ys) l hx hy e = absurd (omega arith)
  next_level_binding (a ∷ b ∷ xs) (p ∷ []) l hx hy e = absurd (omega arith)
  next_level_binding (a ∷ b ∷ xs) (p ∷ q ∷ ys) l (ha, (hb, hx)) (hp, (hq, hy)) e =
      let rest = next_level_binding xs ys (omega arith) hx hy (cc) in
      elim (pair_binding a b p q ha hb hp hq (cc)) [
        | inr found ↦ inr found
        | inl same ↦ elim rest [ inr found ↦ inr found | inl tail ↦ inl (ground arith) ]
      ]

  merkle_loop-total :
      (fuel : ℕ) (x : List ℕ) (xs : List (List ℕ))
      → length xs < fuel
      → (root : List ℕ) × (merkle_loop c fuel (x ∷ xs) ≡ ok root)
  unfolding merkle_loop next_level
  merkle_loop-total zero x xs h = absurd (omega arith)
  merkle_loop-total (suc fuel) x [] h = (x, refl)
  merkle_loop-total (suc fuel) x (y ∷ rest) h =
      merkle_loop-total fuel (sha256d c (x ++ y)) (next_level c rest)
        (omega (arith, length-next_level rest))

  -- The loop over the levels returns a root for every level that is not empty.
  pub root_of_level-total :
      (x : List ℕ) (xs : List (List ℕ)) → (root : List ℕ) × (root_of_level c (x ∷ xs) ≡ ok root)
  unfolding root_of_level
  root_of_level-total x xs = merkle_loop-total (length (x ∷ xs)) x xs (omega arith)

  merkle_loop-binding :
      (fuel : ℕ) (xs ys : List (List ℕ)) {root : List ℕ}
      → length xs ≡ length ys
      → All IsDigest xs
      → All IsDigest ys
      → merkle_loop c fuel xs ≡ ok root
      → merkle_loop c fuel ys ≡ ok root
      → (xs ≡ ys) ⊎ Collision c
  unfolding merkle_loop
  merkle_loop-binding fuel [] ys l hx hy e f = absurd (cc e)
  merkle_loop-binding fuel (x ∷ xs) [] l hx hy e f = absurd (omega arith)
  merkle_loop-binding fuel (x ∷ []) (y ∷ []) l hx hy e f =
      inl (ap (λ d. d ∷ []) (ok-injective (e ∙ sym f)))
  merkle_loop-binding fuel (x ∷ []) (y ∷ y' ∷ ys) l hx hy e f = absurd (omega arith)
  merkle_loop-binding fuel (x ∷ x' ∷ xs) (y ∷ []) l hx hy e f = absurd (omega arith)
  merkle_loop-binding zero (x ∷ x' ∷ xs) (y ∷ y' ∷ ys) l hx hy e f = absurd (cc e)
  merkle_loop-binding (suc fuel) (x ∷ x' ∷ xs) (y ∷ y' ∷ ys) l hx hy e f =
      let level = x ∷ x' ∷ xs in
      let other = y ∷ y' ∷ ys in
      elim (merkle_loop-binding fuel (next_level c level) (next_level c other)
        (omega (arith, length-next_level level, length-next_level other)) (next_level_digests level)
        (next_level_digests other) e f) [
          | inr found ↦ inr found
          | inl same ↦ next_level_binding level other l hx hy same
        ]

  -- Two levels of the same number of 32-byte digests that have the same root are equal, or there
  -- are two different 64-byte texts with the same double SHA-256.
  pub root_of_level-binding :
      (xs ys : List (List ℕ)) {root : List ℕ}
      → length xs ≡ length ys
      → All IsDigest xs
      → All IsDigest ys
      → root_of_level c xs ≡ ok root
      → root_of_level c ys ≡ ok root
      → (xs ≡ ys) ⊎ Collision c
  unfolding root_of_level
  root_of_level-binding xs ys l hx hy e f =
      merkle_loop-binding (length xs) xs ys l hx hy e (rw (← l) at f)

  merkle_loop-more :
      (fuel : ℕ) (xs : List (List ℕ)) {root : List ℕ}
      → merkle_loop c fuel xs ≡ ok root
      → merkle_loop c (suc fuel) xs ≡ ok root
  unfolding merkle_loop
  merkle_loop-more fuel [] h = absurd (cc h)
  merkle_loop-more fuel (x ∷ []) h = h
  merkle_loop-more zero (x ∷ y ∷ xs) h = absurd (cc h)
  merkle_loop-more (suc fuel) (x ∷ y ∷ xs) h = merkle_loop-more fuel (next_level c (x ∷ y ∷ xs)) h

  next_level-repeat :
      (n : ℕ) (xs : List (List ℕ)) (a : List ℕ)
      → length xs ≡ 2 * n
      → next_level c (xs ++ a ∷ a ∷ []) ≡ next_level c (xs ++ a ∷ [])
  unfolding next_level
  next_level-repeat n [] a h = refl
  next_level-repeat n (x ∷ []) a h = absurd (omega arith)
  next_level-repeat n (x ∷ y ∷ xs) a h =
      ap (λ rest. sha256d c (x ++ y) ∷ rest) (next_level-repeat (n - 1) xs a (omega arith))

  -- A level of an odd number of digests, three at least, has the same root as the one in which the
  -- last digest stands twice.
  pub root_of_level-repeat :
      (n : ℕ) (x y a : List ℕ) (xs : List (List ℕ))
      → length xs ≡ 2 * n
      → root_of_level c (x ∷ y ∷ (xs ++ a ∷ a ∷ [])) ≡ root_of_level c (x ∷ y ∷ (xs ++ a ∷ []))
  unfolding root_of_level merkle_loop
  root_of_level-repeat n x y a xs h =
      let level = x ∷ y ∷ (xs ++ a ∷ []) in
      let (root, e) = root_of_level-total x (y ∷ (xs ++ a ∷ [])) in
      let more = merkle_loop-more (length level) level e in
      let longer : length (xs ++ a ∷ a ∷ []) ≡ suc (length (xs ++ a ∷ [])) =
        omega (arith, length-append xs (a ∷ a ∷ []), length-append xs (a ∷ [])) in
      let same = next_level-repeat (suc n) (x ∷ y ∷ xs) a (omega arith) in
      rw longer (ap (merkle_loop c (suc (suc (length (xs ++ a ∷ []))))) same ∙ more ∙ sym e)
