-- ===== src/Utxo/Conservation.antt =====
-- src/utxo.cpp: the money that `apply_transaction` moves.
use binarycoin.Base.{
  ltb, Option-cases, any, ◌+ℤ◌, ◌-ℤ◌, pos, ◌≤ℤ◌, ltb_ℤ, +ℤ_comm, +ℤ_assoc, +ℤ_left_comm, +ℤ_zero,
  zero-+ℤ, -ℤ_cancel, -ℤ_nonneg, Error, coinbase_as_regular, duplicate_input, immature_coinbase,
  bad_signature, input_total_overflow, spends_more, duplicate_output, ok, >>=-eq-ok, >>-eq-ok,
  Result-cases, ok-injective, ℕ, ◌+◌, ◌%◌, ◌^◌, ◌≡◌, refl, sym, ap, ◌∙◌, inl, inr, Bool, true,
  false, not, ◌&&◌, Option, none, some, List, [], ◌∷◌, arith,
}
use binarycoin.Amount.{Amount, max_money, coinbase_maturity}
use binarycoin.Hash.Crypto.{Crypto}
use binarycoin.Tx.{OutPoint, TxInput, Transaction, is_coinbase, validate_transaction_structure}
use binarycoin.Utxo.{
  Coin, outpoint_eq, UtxoSet, find, erase, add_output_values, sum_outputs, erase_inputs,
  check_input, total_inputs, check_transaction, create_all, apply_transaction,
}
use binarycoin.Utxo.Coins.{
  outpoint_eq_iff, total_value, find-erase_ne, total_value-erase, outputs_value,
  add_output_values-eq, total_value-create_outputs,
}
use binarycoin.Script.{verify_p2pk_input}
use binarycoin.Tx.Serialize.{txid_of}

abbrev seen_in : List OutPoint → OutPoint → Bool
seen_in seen o = any (λ k. outpoint_eq k o) seen

-- The inputs spend coins of the set, none of them twice and none that was seen.
abbrev Spends : List OutPoint → List TxInput → UtxoSet → Type 0
Spends seen [] u = Unit {0}
Spends seen (i ∷ is) u =
    (seen_in seen i.previous_output ≡ false)
    × (coin : Coin) × (find i.previous_output u ≡ some coin)
    × Spends (i.previous_output ∷ seen) is u

value_found : Option Coin → Amount
value_found none = pos 0
value_found (some coin) = coin.output.value

-- The value of the coins that the inputs spend.
inputs_value : List TxInput → UtxoSet → Amount
inputs_value [] u = pos 0
inputs_value (i ∷ is) u = value_found (find i.previous_output u) +ℤ inputs_value is u

seen_ne :
    (seen : List OutPoint) (o k : OutPoint)
    → seen_in seen o ≡ true
    → seen_in seen k ≡ false
    → outpoint_eq o k ≡ false
seen_ne [] o k h n = cc
seen_ne (j ∷ seen) o k h n =
    ground (arith, outpoint_eq_iff j o, outpoint_eq_iff j k, outpoint_eq_iff o k, seen_ne seen o k)

-- Coins that are not erased stay spendable, at the same value.
Spends-erase :
    (seen : List OutPoint) (is : List TxInput) (o : OutPoint) (u : UtxoSet)
    → seen_in seen o ≡ true
    → Spends seen is u
    → Spends seen is (erase o u) × (inputs_value is (erase o u) ≡ inputs_value is u)
unfolding inputs_value
Spends-erase seen [] o u h s = (tt, refl)
Spends-erase seen (i ∷ is) o u h (new, coin, e, s) =
    let same = find-erase_ne o i.previous_output u (seen_ne seen o i.previous_output h new) in
    let (s', v) = Spends-erase (i.previous_output ∷ seen) is o u (ground arith) s in
    ((new, coin, same ∙ e, s'), rw (same, v))

total_value-erase_inputs :
    (seen : List OutPoint) (is : List TxInput) (u : UtxoSet)
    → Spends seen is u
    → total_value (erase_inputs is u) +ℤ inputs_value is u ≡ total_value u
unfolding erase_inputs inputs_value value_found
total_value-erase_inputs seen [] u s = +ℤ_zero (total_value u)
total_value-erase_inputs seen (i ∷ is) u (new, coin, e, s) =
    let o = i.previous_output in
    let self : seen_in (o ∷ seen) o ≡ true = ground (arith, outpoint_eq_iff o o) in
    let (s', v) = Spends-erase (o ∷ seen) is o u self s in
    let rest = total_value-erase_inputs (o ∷ seen) is (erase o u) s' in
    rw
      (
        e,
        ← v,
        +ℤ_left_comm (total_value (erase_inputs is (erase o u))) coin.output.value
            (inputs_value is (erase o u)),
        rest,
        +ℤ_comm coin.output.value (total_value (erase o u)),
      )
      (total_value-erase o u e)

module _ (c : Crypto) where
  check_input-found :
      (t : Transaction) (index height : ℕ) (o : OutPoint) (seen : List OutPoint) (u : UtxoSet)
      {coin : Coin}
      → check_input c t index height o seen u ≡ ok coin
      → (seen_in seen o ≡ false) × (find o u ≡ some coin)
  unfolding check_input
  check_input-found t index height o seen u h = elim (Option-cases (find o u)) [
    | inl missing ↦ absurd (cc (>>-eq-ok (seen_in seen o) duplicate_input _ (rw missing at h)).1)
    | inr (coin, found) ↦
        let (new, h1) = >>-eq-ok (seen_in seen o) duplicate_input _ (rw found at h) in
        let (_, h2) =
          >>-eq-ok (coin.coinbase && ltb height ((coin.height + coinbase_maturity) % 2 ^ 64))
            immature_coinbase _ h1 in
        let (verified, _, h3) =
          >>=-eq-ok (verify_p2pk_input c t index coin.output.script_pubkey) _ h2 in
        let (_, h4) = >>-eq-ok (not verified) bad_signature _ h3 in
        (new, found ∙ ap some (ok-injective h4))
  ]

  total_inputs-Spends :
      (t : Transaction) (height index : ℕ) (is : List TxInput) (seen : List OutPoint)
      (total : Amount) (u : UtxoSet) {sum : Amount}
      → total_inputs c t height index is seen total u ≡ ok sum
      → Spends seen is u × (sum ≡ total +ℤ inputs_value is u)
  unfolding total_inputs inputs_value value_found
  total_inputs-Spends t height index [] seen total u h =
      (tt, sym (ok-injective h) ∙ sym (+ℤ_zero total))
  total_inputs-Spends t height index (i ∷ is) seen total u h =
      let o = i.previous_output in
      let (coin, e, h1) = >>=-eq-ok (check_input c t index height o seen u) _ h in
      let (_, h2) =
        >>-eq-ok (ltb_ℤ (pos max_money -ℤ coin.output.value) total) input_total_overflow _ h1 in
      let (new, found) = check_input-found t index height o seen u e in
      let (s, v) =
        total_inputs-Spends t height (index + 1) is (o ∷ seen) (total +ℤ coin.output.value) u h2 in
      ((new, coin, found, s), v ∙ rw found (+ℤ_assoc total coin.output.value (inputs_value is u)))

  -- What the checks of a transaction establish for its inputs, its outputs and its fee.
  check_transaction-balance :
      (t : Transaction) (height : ℕ) (u : UtxoSet) {fee : Amount}
      → check_transaction c t height u ≡ ok fee
      → Spends [] t.inputs u
        × (fee +ℤ outputs_value t.outputs ≡ inputs_value t.inputs u)
        × (pos 0 ≤ℤ fee)
  unfolding check_transaction sum_outputs
  check_transaction-balance t height u h =
      let (_, _, h1) = >>=-eq-ok (validate_transaction_structure t) _ h in
      let (_, h2) = >>-eq-ok (is_coinbase t) coinbase_as_regular _ h1 in
      let (inputs, e3, h3) = >>=-eq-ok (total_inputs c t height 0 t.inputs [] (pos 0) u) _ h2 in
      let (outputs, e4, h4) = >>=-eq-ok (add_output_values (pos 0) t.outputs) _ h3 in
      let (enough, h5) = >>-eq-ok (ltb_ℤ inputs outputs) spends_more _ h4 in
      let (s, v) = total_inputs-Spends t height 0 t.inputs [] (pos 0) u e3 in
      let w = add_output_values-eq (pos 0) t.outputs e4 in
      (
        s,
        rw (← ok-injective h5, ← (w ∙ zero-+ℤ (outputs_value t.outputs)))
            (-ℤ_cancel inputs outputs ∙ v ∙ zero-+ℤ (inputs_value t.inputs u)),
        rw (← ok-injective h5) (-ℤ_nonneg inputs outputs enough),
      )

  pub total_value-create_all :
      (e : Error) (t : Transaction) (height : ℕ) (coinbase : Bool) (u : UtxoSet)
      → (create_all c e t height coinbase u).0 ≡ ok tt
      → total_value (create_all c e t height coinbase u).1
        ≡ total_value u +ℤ outputs_value t.outputs
  unfolding create_all
  total_value-create_all e t height coinbase u h = elim (Result-cases (txid_of c t)) [
    | inl (txid, found) ↦
        rw (found, create_all)
          (total_value-create_outputs e txid 0 t.outputs height coinbase u
            (rw (found, create_all) at h))
    | inr (failure, failed) ↦ absurd (cc (rw (failed, create_all) at h))
  ]

  -- When `apply_transaction` returns a fee, the coins of the new set are worth as much less than
  -- those of the old one as the fee, and the fee is not negative.
  pub apply_transaction-conserves :
      (t : Transaction) (height : ℕ) (u : UtxoSet) {fee : Amount}
      → (apply_transaction c t height u).0 ≡ ok fee
      → (total_value (apply_transaction c t height u).1 +ℤ fee ≡ total_value u) × (pos 0 ≤ℤ fee)
  unfolding apply_transaction
  apply_transaction-conserves t height u h = elim (Result-cases (check_transaction c t height u)) [
    | inr (failure, failed) ↦ absurd (cc (rw (failed, apply_transaction) at h))
    | inl (fee, checked) ↦
        let (s, balance, nonneg) = check_transaction-balance t height u checked in
        let spent = erase_inputs t.inputs u in
        let (_, created, same) =
          >>=-eq-ok (create_all c duplicate_output t height false spent).0 _
            (rw (checked, apply_transaction) at h) in
        rw
          (
            checked,
            apply_transaction,
            ← ok-injective same,
            total_value-create_all duplicate_output t height false spent created,
          )
          (
            +ℤ_assoc (total_value spent) (outputs_value t.outputs) fee
                ∙ ap (λ v. total_value spent +ℤ v) (+ℤ_comm (outputs_value t.outputs) fee ∙ balance)
                ∙ total_value-erase_inputs [] t.inputs u s,
            nonneg,
          )
  ]
