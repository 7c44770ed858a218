-- ===== src/Chain/Supply.antt =====
-- src/chain.cpp: the total value of the unspent outputs of a chain.
use binarycoin.Base.{
  leb, ◌==◌, length, ◌+ℤ◌, ◌-ℤ◌, pos, ◌≤ℤ◌, ltb_ℤ, eqb_ℤ, +ℤ_comm, +ℤ_assoc, +ℤ_zero, pos-+ℤ, Error,
  duplicate_coinbase_output, non_contiguous, bad_bits, broken_link, time_not_increasing,
  merkle_mismatch, block_fee_overflow, bad_coinbase_claim, ok, >>=-eq-ok, >>-eq-ok, ok-injective,
  text_eq, ℕ, suc, ◌+◌, ◌-◌, ◌≡◌, sym, ap, ◌∙◌, Bool, true, false, not, ◌||◌, List, [], ◌∷◌, arith,
}
use binarycoin.Amount.{Amount, max_money, testnet_halving_interval, block_subsidy}
use binarycoin.Hash.Crypto.{Crypto}
use binarycoin.Tx.{Transaction}
use binarycoin.Merkle.{merkle_root_hex}
use binarycoin.Utxo.{UtxoSet, sum_outputs, create_all, apply_transaction}
use binarycoin.Utxo.Coins.{total_value, total_value-empty, outputs_value, sum_outputs-eq}
use binarycoin.Chain.{
  no_coinbase, split_coinbase, header_of, add_checked, check_genesis, check_work, check_block,
  apply_all, add_coinbase_outputs, connect_block, verify_rest, verify_blocks, apply_each,
  build_rest, build_utxo_set,
}
use binarycoin.Amount.Supply.{subsidy_at, block_subsidy-eq, total_subsidy, total_subsidy-le}
use binarycoin.Utxo.Conservation.{total_value-create_all, apply_transaction-conserves}
use binarycoin.Block.{StoredBlock, testnet_bits, hash_hex}

add_checked-eq :
    (e : Error) (total amount : Amount) {sum : Amount}
    → add_checked e total amount ≡ ok sum
    → sum ≡ total +ℤ amount
add_checked-eq e total amount h =
    sym (ok-injective (>>-eq-ok (ltb_ℤ (pos max_money -ℤ amount) total) e _ h).1)

claim_exact : (over : Bool) (a b : Amount) → (over || not (eqb_ℤ a b)) ≡ false → a ≡ b
claim_exact over a b h = ground arith

module _ (c : Crypto) where
  pub apply_all-total :
      (e : Error) (height : ℕ) (ts : List Transaction) (fees : Amount) (u : UtxoSet) {sum : Amount}
      {v : UtxoSet}
      → apply_all c e height ts fees u ≡ ok (sum, v)
      → (apply_each c height ts u ≡ ok v) × (total_value v +ℤ sum ≡ total_value u +ℤ fees)
  unfolding apply_all apply_each
  apply_all-total e height [] fees u h =
      let e1 = ok-injective h in (ap (λ r. ok r.1) e1, ap (λ r. total_value r.1 +ℤ r.0) (sym e1))
  apply_all-total e height (t ∷ ts) fees u h =
      let w = (apply_transaction c t height u).1 in
      let (fee, e1, h1) = >>=-eq-ok (apply_transaction c t height u).0 _ h in
      let (sum', e2, h2) = >>=-eq-ok (add_checked e fees fee) _ h1 in
      let (each, moved) = apply_all-total e height ts sum' w h2 in
      let (conserved, _) = apply_transaction-conserves c t height u e1 in
      (
        rw e1 each,
        moved
            ∙ ap (λ x. total_value w +ℤ x) (add_checked-eq e fees fee e2 ∙ +ℤ_comm fees fee)
            ∙ sym (+ℤ_assoc (total_value w) fee fees)
            ∙ ap (λ x. x +ℤ fees) conserved,
      )

  total_value-add_coinbase_outputs :
      (t : Transaction) (height : ℕ) (u : UtxoSet) {v : UtxoSet}
      → add_coinbase_outputs c t height u ≡ ok v
      → total_value v ≡ total_value u +ℤ outputs_value t.outputs
  unfolding add_coinbase_outputs
  total_value-add_coinbase_outputs t height u h =
      let (_, created, same) =
        >>=-eq-ok (create_all c duplicate_coinbase_output t height true u).0 _ h in
      ap total_value (sym (ok-injective same))
      ∙ total_value-create_all c duplicate_coinbase_output t height true u created

  -- A block adds its subsidy: the fees come back in its coinbase.
  connect_block-total :
      (height : ℕ) (coinbase : Transaction) (ts : List Transaction) (u : UtxoSet) {v : UtxoSet}
      → connect_block c height coinbase ts u ≡ ok v
      → ((w : UtxoSet) × (apply_each c height ts u ≡ ok w)
          × (add_coinbase_outputs c coinbase height w ≡ ok v))
        × (total_value v ≡ total_value u +ℤ pos (subsidy_at height))
  unfolding connect_block
  connect_block-total height coinbase ts u h =
      let ((fees, w), e1, h1) =
        >>=-eq-ok (apply_all c block_fee_overflow height ts (pos 0) u) _ h in
      let (claimed, e2, h2) = >>=-eq-ok (sum_outputs coinbase) _ h1 in
      let (subsidy, e3, h3) = >>=-eq-ok (block_subsidy height testnet_halving_interval) _ h2 in
      let (checked, h4) =
        >>-eq-ok (ltb_ℤ (pos max_money -ℤ fees) subsidy || not (eqb_ℤ claimed (subsidy +ℤ fees)))
          bad_coinbase_claim _ h3 in
      let (each, moved) = apply_all-total block_fee_overflow height ts (pos 0) u e1 in
      let claim : claimed ≡ subsidy +ℤ fees = claim_exact _ claimed (subsidy +ℤ fees) checked in
      let paid = sum_outputs-eq coinbase e2 in
      (
        (w, each, h4),
        total_value-add_coinbase_outputs coinbase height w h4
            ∙ ap (λ x. total_value w +ℤ x) (sym paid ∙ claim ∙ +ℤ_comm subsidy fees)
            ∙ sym (+ℤ_assoc (total_value w) fees subsidy)
            ∙ ap (λ x. x +ℤ subsidy) (moved ∙ +ℤ_zero (total_value u))
            ∙ ap (λ x. total_value u +ℤ x) (ok-injective (sym e3 ∙ block_subsidy-eq height)),
      )

  check_block-split :
      (index : ℕ) (previous stored : StoredBlock) {coinbase : Transaction} {ts : List Transaction}
      → check_block c index previous stored ≡ ok (coinbase, ts)
      → (stored.height ≡ index) × (split_coinbase stored.block.transactions ≡ ok (coinbase, ts))
  unfolding check_block
  check_block-split index previous stored h =
      let (at, h1) = >>-eq-ok (not (stored.height == index)) non_contiguous _ h in
      let (_, _, h2) = >>=-eq-ok (check_work c stored) _ h1 in
      let (_, h3) = >>-eq-ok (not ((header_of stored).bits == testnet_bits)) bad_bits _ h2 in
      let (hash, _, h4) = >>=-eq-ok (hash_hex c (header_of previous)) _ h3 in
      let (_, h5) =
        >>-eq-ok (not (text_eq (header_of stored).previous_hash hash)) broken_link _ h4 in
      let (_, h6) =
        >>-eq-ok (leb (header_of stored).time (header_of previous).time) time_not_increasing _ h5 in
      let (split, es, h7) = >>=-eq-ok (split_coinbase stored.block.transactions) _ h6 in
      let (_, _, h8) = >>=-eq-ok (no_coinbase split.1) _ h7 in
      let (root, _, h9) = >>=-eq-ok (merkle_root_hex c stored.block.transactions) _ h8 in
      let (_, h10) =
        >>-eq-ok (not (text_eq root (header_of stored).merkle_root)) merkle_mismatch _ h9 in
      (ground arith, es ∙ h10)

  -- The set that the verification keeps is the one that `build_utxo_set` rebuilds.
  verify_rest-total :
      (previous : StoredBlock) (bs : List StoredBlock) (index : ℕ) (u : UtxoSet) {v : UtxoSet}
      → verify_rest c (suc index) previous bs u ≡ ok v
      → total_value u ≡ pos (total_subsidy index)
      → (build_rest c bs u ≡ ok v) × (total_value v ≡ pos (total_subsidy (index + length bs)))
  unfolding verify_rest build_rest
  verify_rest-total previous [] index u h t =
      let e : index ≡ index + 0 = omega arith in
      (h, ap total_value (sym (ok-injective h)) ∙ t ∙ ap (λ (k : ℕ). pos (total_subsidy k)) e)
  verify_rest-total previous (stored ∷ bs) index u h t =
      let ((coinbase, ts), e1, h1) = >>=-eq-ok (check_block c (suc index) previous stored) _ h in
      let (w, e2, h2) = >>=-eq-ok (connect_block c stored.height coinbase ts u) _ h1 in
      let (at, split) = check_block-split (suc index) previous stored e1 in
      let ((x, each, added), total) = connect_block-total stored.height coinbase ts u e2 in
      let t' : total_value w ≡ pos (total_subsidy (suc index)) =
        total
        ∙ ap (λ (k : ℕ). total_value u +ℤ pos (subsidy_at k)) at
        ∙ ap (λ x. x +ℤ pos (subsidy_at (suc index))) t
        ∙ pos-+ℤ (total_subsidy index) (subsidy_at (suc index)) in
      let (built, t'') = verify_rest-total stored bs (suc index) w h2 t' in
      let e : suc index + length bs ≡ index + suc (length bs) = omega arith in
      (rw (split, each, added) built, t'' ∙ ap (λ (k : ℕ). pos (total_subsidy k)) e)

  -- A chain that `verify_blocks` accepts has a set of unspent outputs, whose total value is the sum
  -- of the subsidies of the blocks behind genesis, and at most the maximum.
  pub verify_blocks-supply :
      (blocks : List StoredBlock)
      → verify_blocks c blocks ≡ ok tt
      → (utxos : UtxoSet) × (build_utxo_set c blocks ≡ ok utxos)
        × (total_value utxos ≡ pos (total_subsidy (length blocks - 1)))
        × (total_value utxos ≤ℤ pos max_money)
  unfolding verify_blocks build_utxo_set
  verify_blocks-supply [] h = absurd (cc h)
  verify_blocks-supply (genesis ∷ bs) h =
      let (_, _, h1) = >>=-eq-ok (check_genesis c genesis) _ h in
      let (_, _, h2) = >>=-eq-ok (check_work c genesis) _ h1 in
      let (u, e, _) = >>=-eq-ok (verify_rest c 1 genesis bs []) _ h2 in
      let (built, total) = verify_rest-total genesis bs 0 [] e total_value-empty in
      let k : 0 + length bs ≡ suc (length bs) - 1 = omega arith in
      let total' = total ∙ ap (λ (k : ℕ). pos (total_subsidy k)) k in
      (u, built, total', rw total' (omega (arith, total_subsidy-le (suc (length bs) - 1))))
