-- ===== src/Chain/Issued.antt =====
-- src/chain.cpp: the supply that a chain reports.
use binarycoin.Base.{
  length, ◌-ℤ◌, pos, ltb_ℤ, -ℤ_parts, pos-+ℤ, supply_overflow, ok, ℕ, suc, ◌+◌, ◌≤◌, ◌≡◌, refl, ap,
  ◌∙◌, false, List, [], ◌∷◌, arith,
}
use binarycoin.Amount.{max_money}
use binarycoin.Amount.Supply.{subsidy_at, block_subsidy-eq, total_subsidy, total_subsidy-le}
use binarycoin.Block.{StoredBlock}
use binarycoin.Chain.{add_checked, issued_rest, issued_supply}

-- The heights go up by one from `height`.
unfoldable pub HasHeights : ℕ → List StoredBlock → Type 0
HasHeights height [] = Unit {0}
HasHeights height (stored ∷ rest) = (stored.height ≡ height) × HasHeights (suc height) rest

add_checked-pos :
    (t s : ℕ) → t + s ≤ max_money → add_checked supply_overflow (pos t) (pos s) ≡ ok (pos (t + s))
add_checked-pos t s h = rw (below t s h, pos-+ℤ t s) refl
  where
    below : (t s : ℕ) → t + s ≤ max_money → ltb_ℤ (pos max_money -ℤ pos s) (pos t) ≡ false
    below t s h = ground (arith, -ℤ_parts (pos max_money) (pos s))

issued_rest-total :
    (n : ℕ) (blocks : List StoredBlock)
    → HasHeights (suc n) blocks
    → issued_rest blocks (pos (total_subsidy n)) ≡ ok (pos (total_subsidy (n + length blocks)))
unfolding issued_rest HasHeights
issued_rest-total n [] h =
    let e : n ≡ n + 0 = omega arith in ap (λ (k : ℕ). ok (pos (total_subsidy k))) e
issued_rest-total n (stored ∷ rest) (here, behind) =
    let granted = block_subsidy-eq (suc n) in
    let added = add_checked-pos (total_subsidy n) (subsidy_at (suc n)) (total_subsidy-le (suc n)) in
    let e : suc n + length rest ≡ n + suc (length rest) = omega arith in
    rw (here, granted, added)
      (issued_rest-total (suc n) rest behind ∙ ap (λ (k : ℕ). ok (pos (total_subsidy k))) e)

-- A chain with the heights 0, 1, 2, ... reports the sum of the subsidies of the blocks behind
-- genesis, never throws, and never reports more than the maximum, however long it is.
pub issued_supply-total :
    (genesis : StoredBlock) (blocks : List StoredBlock)
    → HasHeights 1 blocks
    → (issued_supply (genesis ∷ blocks) ≡ ok (pos (total_subsidy (length blocks))))
      × (total_subsidy (length blocks) ≤ max_money)
unfolding issued_supply
issued_supply-total genesis blocks h =
    let none_more : 0 + length blocks ≡ length blocks = omega arith in
    (
      issued_rest-total 0 blocks h ∙ ap (λ (k : ℕ). ok (pos (total_subsidy k))) none_more,
      total_subsidy-le (length blocks),
    )
