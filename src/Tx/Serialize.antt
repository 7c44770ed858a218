-- ===== src/Tx/Serialize.antt =====
-- src/transaction.cpp: the wire format of a transaction.
pub mod Layout
pub mod RoundTrip
use binarycoin.Base.{
  ltb, ◌==◌, length, exceeds_platform_size, too_many_inputs, too_many_outputs,
  input_script_too_large, output_script_too_large, trailing_transaction_data, Result, ok, ◌>>=◌,
  ◌>>◌, throw_if, Text, ℕ, zero, suc, ◌-◌, ◌^◌, not, List, [], ◌∷◌, ◌++◌,
}
use binarycoin.Hash.{hash_to_display_hex, display_hex_to_wire_bytes, wire_bytes_to_display_hex}
use binarycoin.Hash.Crypto.{Crypto, sha256d}
use binarycoin.Codec.{
  append_u32_le, append_i32_le, append_i64_le, append_compact_size, read_u32_le, read_i32_le,
  read_i64_le, read_compact_size, read_bytes,
}
use binarycoin.Tx.{
  TxInput, TxOutput, Transaction, max_transaction_items, max_script_size,
  validate_transaction_structure,
}

-- `size_t` has 64 bits.
unfoldable pub checked_size : ℕ → Result ℕ
checked_size value = throw_if (ltb (2 ^ 64 - 1) value) exceeds_platform_size >> ok value

unfoldable pub serialize_input : TxInput → List ℕ → Result (List ℕ)
serialize_input i output = do
  wire ← display_hex_to_wire_bytes i.previous_output.txid
  let output1 = append_u32_le (output ++ wire) i.previous_output.index
  let output2 = append_compact_size output1 (length i.script_sig)
  ok (append_u32_le (output2 ++ i.script_sig) i.sequence)

unfoldable pub serialize_inputs : List TxInput → List ℕ → Result (List ℕ)
serialize_inputs [] output = ok output
serialize_inputs (i ∷ rest) output = do
  output' ← serialize_input i output
  serialize_inputs rest output'

unfoldable pub serialize_output : TxOutput → List ℕ → List ℕ
serialize_output tx_output output =
    append_compact_size (append_i64_le output tx_output.value) (length tx_output.script_pubkey)
    ++ tx_output.script_pubkey

unfoldable pub serialize_outputs : List TxOutput → List ℕ → List ℕ
serialize_outputs [] output = output
serialize_outputs (tx_output ∷ rest) output =
    serialize_outputs rest (serialize_output tx_output output)

unfoldable pub serialize : Transaction → Result (List ℕ)
serialize transaction = do
  validate_transaction_structure transaction
  let start = append_compact_size (append_i32_le [] transaction.version) (length transaction.inputs)
  output ← serialize_inputs transaction.inputs start
  let counted = append_compact_size output (length transaction.outputs)
  ok (append_u32_le (serialize_outputs transaction.outputs counted) transaction.lock_time)

pub virtual_size : Transaction → Result ℕ
virtual_size transaction = do output ← serialize transaction; ok (length output)

pub read_input : List ℕ → ℕ → Result (TxInput × ℕ)
read_input bytes offset = do
  (wire, offset1) ← read_bytes bytes offset 32
  (index, offset2) ← read_u32_le bytes offset1
  (size, offset3) ← read_compact_size bytes offset2
  script_size ← checked_size size
  throw_if (ltb max_script_size script_size) input_script_too_large
  (script_sig, offset4) ← read_bytes bytes offset3 script_size
  (sequence, offset5) ← read_u32_le bytes offset4
  ok (
    record {
      previous_output = record { txid = wire_bytes_to_display_hex wire; index = index };
      script_sig = script_sig;
      sequence = sequence;
    },
    offset5,
  )

pub read_inputs : ℕ → List ℕ → ℕ → Result (List TxInput × ℕ)
read_inputs zero bytes offset = ok ([], offset)
read_inputs (suc count) bytes offset = do
  (i, offset') ← read_input bytes offset
  (rest, offset'') ← read_inputs count bytes offset'
  ok (i ∷ rest, offset'')

pub read_output : List ℕ → ℕ → Result (TxOutput × ℕ)
read_output bytes offset = do
  (value, offset1) ← read_i64_le bytes offset
  (size, offset2) ← read_compact_size bytes offset1
  script_size ← checked_size size
  throw_if (ltb max_script_size script_size) output_script_too_large
  (script_pubkey, offset3) ← read_bytes bytes offset2 script_size
  ok (record { value = value; script_pubkey = script_pubkey }, offset3)

pub read_outputs : ℕ → List ℕ → ℕ → Result (List TxOutput × ℕ)
read_outputs zero bytes offset = ok ([], offset)
read_outputs (suc count) bytes offset = do
  (tx_output, offset') ← read_output bytes offset
  (rest, offset'') ← read_outputs count bytes offset'
  ok (tx_output ∷ rest, offset'')

pub deserialize : List ℕ → Result Transaction
deserialize bytes = do
  (version, offset1) ← read_i32_le bytes 0
  (inputs_size, offset2) ← read_compact_size bytes offset1
  input_count ← checked_size inputs_size
  throw_if (ltb max_transaction_items input_count) too_many_inputs
  (inputs, offset3) ← read_inputs input_count bytes offset2
  (outputs_size, offset4) ← read_compact_size bytes offset3
  output_count ← checked_size outputs_size
  throw_if (ltb max_transaction_items output_count) too_many_outputs
  (outputs, offset5) ← read_outputs output_count bytes offset4
  (lock_time, offset6) ← read_u32_le bytes offset5
  throw_if (not (offset6 == length bytes)) trailing_transaction_data
  let transaction : Transaction = record {
    version = version;
    inputs = inputs;
    outputs = outputs;
    lock_time = lock_time;
  }
  validate_transaction_structure transaction
  ok transaction

module _ (c : Crypto) where
  unfoldable pub raw_hash : Transaction → Result (List ℕ)
  raw_hash transaction = do bytes ← serialize transaction; ok (sha256d c bytes)

  unfoldable pub txid_of : Transaction → Result Text
  txid_of transaction = do digest ← raw_hash transaction; ok (hash_to_display_hex digest)
