-- ===== src/Tx/Serialize/RoundTrip/Bytes.antt =====
-- src/transaction.cpp: the range of what `serialize` writes.
use binarycoin.Base.{
  length, All, All-append, ok, >>=-eq-ok, ok-injective, IsByte, ℕ, ◌≡◌, sym, ap, ◌∙◌, false, List,
  [], ◌∷◌, arith,
}
use binarycoin.Hash.RoundTrip.{display_hex-round_trip}
use binarycoin.Codec.{to_unsigned}
use binarycoin.Codec.Write.{u32_bytes, u64_bytes, compact_bytes, compact_bytes_bytes}
use binarycoin.Tx.{TxInput, TxOutput, Transaction, is_empty, validate_transaction_structure}
use binarycoin.Tx.Serialize.{serialize, deserialize}
use binarycoin.Tx.Serialize.RoundTrip.{tx_bytes, serialize_lem, deserialize-serialize}
use binarycoin.Tx.Serialize.Layout.{
  InputFits, TxFits, input_bytes, inputs_bytes, output_bytes, outputs_bytes,
}

-- The scripts hold bytes.
pub record ScriptsFit (t : Transaction) : Type 0 where
  pub inputs : All (λ i. All IsByte i.script_sig) t.inputs
  pub outputs : All (λ o. All IsByte o.script_pubkey) t.outputs

u32_bytes_bytes : (v : ℕ) → All IsByte (u32_bytes v)
u32_bytes_bytes v = omega arith

u64_bytes_bytes : (v : ℕ) → All IsByte (u64_bytes v)
u64_bytes_bytes v = omega arith

module _ (rest : List ℕ) (h : All IsByte rest) where
  input_bytes_bytes :
      (i : TxInput) → InputFits i → All IsByte i.script_sig → All IsByte (input_bytes i rest)
  unfolding input_bytes
  input_bytes_bytes i fits script =
      let (wire, e, _, _, w) = display_hex-round_trip i.previous_output.txid fits.txid in
      rw e (
        All-append IsByte wire _ w (
          All-append IsByte (u32_bytes i.previous_output.index) _
            (u32_bytes_bytes i.previous_output.index)
            (All-append IsByte (compact_bytes (length i.script_sig)) _
              (compact_bytes_bytes (length i.script_sig))
              (All-append IsByte i.script_sig _ script
                (All-append IsByte (u32_bytes i.sequence) rest (u32_bytes_bytes i.sequence) h)))))

  output_bytes_bytes :
      (t : TxOutput) → All IsByte t.script_pubkey → All IsByte (output_bytes t rest)
  unfolding output_bytes
  output_bytes_bytes t script =
      All-append IsByte (u64_bytes (to_unsigned 64 t.value)) _
        (u64_bytes_bytes (to_unsigned 64 t.value))
        (All-append IsByte (compact_bytes (length t.script_pubkey)) _
          (compact_bytes_bytes (length t.script_pubkey))
          (All-append IsByte t.script_pubkey rest script h))

inputs_bytes_bytes :
    (is : List TxInput) (rest : List ℕ)
    → All InputFits is
    → All (λ i. All IsByte i.script_sig) is
    → All IsByte rest
    → All IsByte (inputs_bytes is rest)
unfolding inputs_bytes
inputs_bytes_bytes [] rest f s h = h
inputs_bytes_bytes (i ∷ is) rest (f, fs) (s, ss) h =
    input_bytes_bytes (inputs_bytes is rest) (inputs_bytes_bytes is rest fs ss h) i f s

outputs_bytes_bytes :
    (ts : List TxOutput) (rest : List ℕ)
    → All (λ o. All IsByte o.script_pubkey) ts
    → All IsByte rest
    → All IsByte (outputs_bytes ts rest)
unfolding outputs_bytes
outputs_bytes_bytes [] rest s h = h
outputs_bytes_bytes (t ∷ ts) rest (s, ss) h =
    output_bytes_bytes (outputs_bytes ts rest) (outputs_bytes_bytes ts rest ss h) t s

tx_bytes_bytes : (t : Transaction) → TxFits t → ScriptsFit t → All IsByte (tx_bytes t)
unfolding tx_bytes
tx_bytes_bytes t fits scripts =
    All-append IsByte (u32_bytes (to_unsigned 32 t.version)) _
      (u32_bytes_bytes (to_unsigned 32 t.version))
      (All-append IsByte (compact_bytes (length t.inputs)) _ (compact_bytes_bytes (length t.inputs))
        (inputs_bytes_bytes t.inputs _ fits.inputs scripts.inputs (
          All-append IsByte (compact_bytes (length t.outputs)) _
            (compact_bytes_bytes (length t.outputs))
            (outputs_bytes_bytes t.outputs (u32_bytes t.lock_time) scripts.outputs
              (u32_bytes_bytes t.lock_time)))))

serialize-valid :
    (t : Transaction) {bytes : List ℕ}
    → serialize t ≡ ok bytes
    → validate_transaction_structure t ≡ ok tt
unfolding serialize
serialize-valid t h = (>>=-eq-ok (validate_transaction_structure t) _ h).1

-- What `serialize` returns for a transaction whose fields and scripts fit their types is a list of
-- bytes, is not empty, and is read back as the transaction.
pub serialize-bytes :
    (t : Transaction) {bytes : List ℕ}
    → TxFits t
    → ScriptsFit t
    → serialize t ≡ ok bytes
    → All IsByte bytes × (deserialize bytes ≡ ok t) × (is_empty bytes ≡ false)
unfolding tx_bytes
serialize-bytes t fits scripts h =
    let valid = serialize-valid t h in
    let (bytes, e, back) = deserialize-serialize t fits valid in
    let same = ok-injective (sym e ∙ h) in
    let written = ok-injective (sym (serialize_lem t fits valid) ∙ h) in
    (rw (← written) (tx_bytes_bytes t fits scripts), rw (← same) back, ap is_empty (sym written))
