-- ===== src/Utxo/Errors.antt =====
-- src/utxo.cpp: what a throw leaves of the set.
use binarycoin.Base.{
  Bool-cases, Error, duplicate_output, ok, err, ◌>>◌, Result-cases, Text, ℕ, ◌+◌, ◌%◌, ◌^◌, ◌≡◌,
  refl, sym, ◌∙◌, ◌≢◌, inl, inr, Bool, false, List, [], ◌∷◌,
}
use binarycoin.Hash.Crypto.{Crypto}
use binarycoin.Tx.{OutPoint, TxOutput, Transaction}
use binarycoin.Tx.Serialize.{txid_of}
use binarycoin.Utxo.{
  UtxoSet, contains, emplace, erase_inputs, create_outputs, check_transaction, create_all,
  apply_transaction,
}

create_outputs-error :
    (duplicate : Error) (txid : Text) (index : ℕ) (outputs : List TxOutput) (height : ℕ)
    (coinbase : Bool) (utxos : UtxoSet) {e : Error}
    → (create_outputs duplicate txid index outputs height coinbase utxos).0 ≡ err e
    → e ≡ duplicate
unfolding create_outputs
create_outputs-error duplicate txid index [] height coinbase utxos h = absurd (cc h)
create_outputs-error duplicate txid index (output ∷ rest) height coinbase utxos h =
    let outpoint : OutPoint = record { txid = txid; index = index % 2 ^ 32 } in
    elim (Bool-cases (contains outpoint utxos)) [
      | inl there ↦ cc (rw there at h)
      | inr fresh ↦
          create_outputs-error duplicate txid (index + 1) rest height coinbase
            (emplace outpoint (record { output = output; height = height; coinbase = coinbase })
              utxos)
            (rw fresh at h)
    ]

module _ (c : Crypto) where
  -- Where the identifier of the transaction can be computed, any throw of `apply_transaction` but
  -- that of an output that is there already leaves the set as it was.
  pub apply_transaction-unchanged :
      (t : Transaction) (height : ℕ) (u : UtxoSet) {txid : Text} {e : Error}
      → txid_of c t ≡ ok txid
      → (apply_transaction c t height u).0 ≡ err e
      → e ≢ duplicate_output
      → (apply_transaction c t height u).1 ≡ u
  unfolding apply_transaction create_all
  apply_transaction-unchanged t height u {txid} {e} named h other =
      elim (Result-cases (check_transaction c t height u)) [
        | inr (failure, failed) ↦ rw (failed, apply_transaction) refl
        | inl (fee, checked) ↦
            let created =
              create_outputs duplicate_output txid 0 t.outputs height false
                (erase_inputs t.inputs u) in
            let h1 : (created.0 >> ok fee) ≡ err e =
              rw (checked, apply_transaction, named, create_all) at h in
            elim (Result-cases created.0) [
              | inl (_, done) ↦ absurd (cc (rw done at h1))
              | inr (failure, failed) ↦
                  let same : failure ≡ e = cc (rw failed at h1) in
                  absurd (
                    other (
                      sym same
                      ∙ create_outputs-error duplicate_output txid 0 t.outputs height false
                          (erase_inputs t.inputs u) failed))
            ]
      ]
