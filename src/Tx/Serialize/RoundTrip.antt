-- ===== src/Tx/Serialize/RoundTrip.antt =====
-- src/transaction.cpp: a transaction that is written and read back.
pub mod Bytes
use binarycoin.Amount.{Amount, money_range}
use binarycoin.Base.{
  ltb, ltb-false, ==_iff, not_ltb→le, length, All, ◌+ℤ◌, pos, negsuc, input_script_too_large,
  output_script_too_large, no_inputs, no_outputs, too_many_items, output_outside_money,
  output_total_overflow, ok, >>=-eq-ok, >>-eq-ok, ℕ, ◌≤◌, ◌≡◌, refl, false, not, ◌||◌, List, [],
  ◌∷◌, ◌++◌, append_assoc, arith,
}
use binarycoin.Codec.{to_unsigned, append_i32_le, append_compact_size}
use binarycoin.Codec.Read.{Ahead, Ahead-start, FitsSigned}
use binarycoin.Codec.Reads.{
  Reads, u32_Reads, i32_Reads, i64_Reads, compact_size_Reads, bytes_Reads, Ahead-end,
}
use binarycoin.Codec.Write.{
  u32_bytes, compact_bytes, append_u32_le_lem, append_i32_le_lem, append_compact_size_lem,
}
use binarycoin.Hash.{display_hex_to_wire_bytes}
use binarycoin.Hash.RoundTrip.{display_hex-round_trip}
use binarycoin.Tx.{
  TxInput, TxOutput, Transaction, max_transaction_items, max_script_size, check_inputs,
  check_outputs, is_empty, validate_transaction_structure,
}
use binarycoin.Tx.Serialize.{
  serialize, read_input, read_inputs, read_output, read_outputs, deserialize,
}
use binarycoin.Tx.Serialize.Layout.{
  InputFits, TxFits, checked_size_lem, input_bytes, inputs_bytes, output_bytes, outputs_bytes,
  serialize_inputs_lem, serialize_outputs_lem,
}

read_input_lem :
    (i : TxInput) (input rest : List ℕ) (o : ℕ)
    → InputFits i
    → length i.script_sig ≤ max_script_size
    → Ahead input o (input_bytes i rest)
    → Reads (read_input input o) input rest i
unfolding read_input input_bytes
read_input_lem i input rest o h small a =
    let (wire, e, back, size, _) = display_hex-round_trip i.previous_output.txid h.txid in
    let (o1, e1, a1) = bytes_Reads input _ o wire (rw e at a) in
    let (o2, e2, a2) = u32_Reads input _ o1 i.previous_output.index h.index a1 in
    let (o3, e3, a3) = compact_size_Reads input _ o2 (length i.script_sig) (omega arith) a2 in
    let (o4, e4, a4) = bytes_Reads input _ o3 i.script_sig a3 in
    let (o5, e5, a5) = u32_Reads input rest o4 i.sequence h.sequence a4 in
    (
      o5,
      rw (
        rw size at e1,
        e2,
        e3,
        checked_size_lem (length i.script_sig) (omega arith),
        ltb-false max_script_size (length i.script_sig) small,
        e4,
        e5,
        back,
      ),
      a5,
    )

read_inputs_lem :
    (is : List TxInput) (input rest : List ℕ) (o : ℕ)
    → All InputFits is
    → All (λ i. length i.script_sig ≤ max_script_size) is
    → Ahead input o (inputs_bytes is rest)
    → Reads (read_inputs (length is) input o) input rest is
unfolding read_inputs inputs_bytes
read_inputs_lem [] input rest o h small a = (o, refl, a)
read_inputs_lem (i ∷ is) input rest o (hi, hs) (si, ss) a =
    let (o1, e1, a1) = read_input_lem i input (inputs_bytes is rest) o hi si a in
    let (o2, e2, a2) = read_inputs_lem is input rest o1 hs ss a1 in (o2, rw (e1, e2), a2)

-- What the checks of `validate_transaction_structure` leave of an output.
record OutputFits (t : TxOutput) : Type 0 where
  value : FitsSigned 64 t.value
  small : length t.script_pubkey ≤ max_script_size

read_output_lem :
    (t : TxOutput) (input rest : List ℕ) (o : ℕ)
    → OutputFits t
    → Ahead input o (output_bytes t rest)
    → Reads (read_output input o) input rest t
unfolding read_output output_bytes
read_output_lem t input rest o h a =
    let (o1, e1, a1) = i64_Reads input _ o t.value h.value a in
    let (o2, e2, a2) =
      compact_size_Reads input _ o1 (length t.script_pubkey) (omega (arith, h.small)) a1 in
    let (o3, e3, a3) = bytes_Reads input rest o2 t.script_pubkey a2 in
    (
      o3,
      rw (
        e1,
        e2,
        checked_size_lem (length t.script_pubkey) (omega (arith, h.small)),
        ltb-false max_script_size (length t.script_pubkey) h.small,
        e3,
      ),
      a3,
    )

read_outputs_lem :
    (ts : List TxOutput) (input rest : List ℕ) (o : ℕ)
    → All OutputFits ts
    → Ahead input o (outputs_bytes ts rest)
    → Reads (read_outputs (length ts) input o) input rest ts
unfolding read_outputs outputs_bytes
read_outputs_lem [] input rest o h a = (o, refl, a)
read_outputs_lem (t ∷ ts) input rest o (ht, hs) a =
    let (o1, e1, a1) = read_output_lem t input (outputs_bytes ts rest) o ht a in
    let (o2, e2, a2) = read_outputs_lem ts input rest o1 hs a1 in (o2, rw (e1, e2), a2)

check_inputs_small :
    (is : List TxInput)
    → check_inputs is ≡ ok tt
    → All (λ i. length i.script_sig ≤ max_script_size) is
unfolding check_inputs
check_inputs_small [] h = tt
check_inputs_small (i ∷ is) h =
    let (small, h1) = >>-eq-ok _ input_script_too_large _ h in
    let (wire, e, h2) = >>=-eq-ok (display_hex_to_wire_bytes i.previous_output.txid) _ h1 in
    (not_ltb→le _ _ small, check_inputs_small is h2)

in_range_fits : (v : Amount) → not (money_range v) ≡ false → FitsSigned 64 v
in_range_fits (pos n) h = ground arith
in_range_fits (negsuc n) h = ground arith

check_outputs_fit :
    (ts : List TxOutput) (total : Amount) → check_outputs total ts ≡ ok tt → All OutputFits ts
unfolding check_outputs
check_outputs_fit [] total h = tt
check_outputs_fit (t ∷ ts) total h =
    let (in_range, h1) = >>-eq-ok _ output_outside_money _ h in
    let (small, h2) = >>-eq-ok _ output_script_too_large _ h1 in
    let (fits, h3) = >>-eq-ok _ output_total_overflow _ h2 in
    (
      record { value = in_range_fits t.value in_range; small = not_ltb→le _ _ small },
      check_outputs_fit ts (total +ℤ t.value) h3,
    )

-- What `validate_transaction_structure` establishes for the sizes on the wire.
record SizesFit (t : Transaction) : Type 0 where
  input_count : length t.inputs ≤ max_transaction_items
  output_count : length t.outputs ≤ max_transaction_items
  scripts : All (λ i. length i.script_sig ≤ max_script_size) t.inputs
  outputs : All OutputFits t.outputs

validate-SizesFit : (t : Transaction) → validate_transaction_structure t ≡ ok tt → SizesFit t
unfolding validate_transaction_structure
validate-SizesFit t h =
    let (_, h1) = >>-eq-ok (is_empty t.inputs) no_inputs _ h in
    let (_, h2) = >>-eq-ok (is_empty t.outputs) no_outputs _ h1 in
    let (counts, h3) =
      >>-eq-ok
        (ltb max_transaction_items (length t.inputs)
          || ltb max_transaction_items (length t.outputs))
        too_many_items _ h2 in
    let (u, h4, h5) = >>=-eq-ok (check_inputs t.inputs) _ h3 in
    record {
      input_count = ground arith;
      output_count = ground arith;
      scripts = check_inputs_small t.inputs h4;
      outputs = check_outputs_fit t.outputs (pos 0) h5;
    }

tx_bytes : Transaction → List ℕ
tx_bytes t =
    u32_bytes (to_unsigned 32 t.version)
    ++ (compact_bytes (length t.inputs)
        ++ inputs_bytes t.inputs
            (compact_bytes (length t.outputs) ++ outputs_bytes t.outputs (u32_bytes t.lock_time)))

serialize_lem :
    (t : Transaction)
    → TxFits t
    → validate_transaction_structure t ≡ ok tt
    → serialize t ≡ ok (tx_bytes t)
unfolding serialize tx_bytes
serialize_lem t h valid =
    let tail =
      compact_bytes (length t.outputs) ++ outputs_bytes t.outputs (u32_bytes t.lock_time) in
    let start = append_compact_size (append_i32_le [] t.version) (length t.inputs) in
    let (out, e, s) = serialize_inputs_lem t.inputs start tail h.inputs in
    rw
      (valid, e, append_u32_le_lem, serialize_outputs_lem, append_compact_size_lem, append_assoc, s)
      (simp (append_compact_size_lem, append_i32_le_lem, append_assoc))

deserialize-tx_bytes :
    (t : Transaction) (bytes : List ℕ)
    → Ahead bytes 0 (tx_bytes t)
    → TxFits t
    → SizesFit t
    → validate_transaction_structure t ≡ ok tt
    → deserialize bytes ≡ ok t
unfolding deserialize tx_bytes
deserialize-tx_bytes t bytes a h fit valid =
    let (o1, e1, a1) = i32_Reads bytes _ 0 t.version h.version a in
    let (o2, e2, a2) =
      compact_size_Reads bytes _ o1 (length t.inputs) (omega (arith, fit.input_count)) a1 in
    let (o3, e3, a3) = read_inputs_lem t.inputs bytes _ o2 h.inputs fit.scripts a2 in
    let (o4, e4, a4) =
      compact_size_Reads bytes _ o3 (length t.outputs) (omega (arith, fit.output_count)) a3 in
    let (o5, e5, a5) = read_outputs_lem t.outputs bytes _ o4 fit.outputs a4 in
    let (o6, e6, a6) = u32_Reads bytes [] o5 t.lock_time h.lock_time a5 in
    rw (
      e1,
      e2,
      checked_size_lem (length t.inputs) (omega (arith, fit.input_count)),
      ltb-false max_transaction_items (length t.inputs) fit.input_count,
      e3,
      e4,
      checked_size_lem (length t.outputs) (omega (arith, fit.output_count)),
      ltb-false max_transaction_items (length t.outputs) fit.output_count,
      e5,
      e6,
      (==_iff o6 (length bytes)).1 (Ahead-end bytes o6 a6),
      valid,
    )

-- A transaction that `validate_transaction_structure` accepts, with fields in the range of their
-- types and hashes in lower case, is serialized, and read back unchanged from the bytes, to their
-- last one.
pub deserialize-serialize :
    (t : Transaction)
    → TxFits t
    → validate_transaction_structure t ≡ ok tt
    → (bytes : List ℕ) × (serialize t ≡ ok bytes) × (deserialize bytes ≡ ok t)
deserialize-serialize t h valid = (
  tx_bytes t,
  serialize_lem t h valid,
  deserialize-tx_bytes t (tx_bytes t) (Ahead-start (tx_bytes t)) h (validate-SizesFit t valid)
      valid,
)
