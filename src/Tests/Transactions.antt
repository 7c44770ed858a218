-- ===== src/Tests/Transactions.antt =====
-- Examples on transactions, the unspent outputs and the mempool.
use binarycoin.Base.{
  leb, &&-split, All, ◌+ℤ◌, ◌-ℤ◌, pos, ◌≤ℤ◌, coinbase_as_regular, ok, err, text_eq, text_less, Text,
  ℕ, ◌≡◌, refl, Bool, true, ◌&&◌, ◌||◌, List, [], ◌∷◌, arith,
}
use binarycoin.Tests.{toy, toy_coinbase, toy_transaction, toy_utxos}
use binarycoin.Tx.Serialize.{
  checked_size, serialize_input, serialize_inputs, serialize_output, serialize_outputs, serialize,
  deserialize, raw_hash, txid_of,
}
use binarycoin.Utxo.Errors.{apply_transaction-unchanged}
use binarycoin.Hash.{
  hex_value, hex_pairs, hex_to_bytes, bytes_to_hex, hash_to_display_hex, display_hex_to_raw_digest,
  display_hex_to_wire_bytes,
}
use binarycoin.Hash.RoundTrip.{IsHexDigit, IsDisplayHash}
use binarycoin.Hash.Crypto.{sha256d, valid_compressed_public_key, verify_ecdsa_der}
use binarycoin.Codec.{
  append_le, append_u32_le, append_i32_le, append_u64_le, append_i64_le, append_compact_size,
}
use binarycoin.Tx.{
  is_coinbase_inputs, is_coinbase, check_inputs, check_outputs, validate_transaction_structure,
}
use binarycoin.Tx.Serialize.RoundTrip.{deserialize-serialize}
use binarycoin.Tx.Serialize.Layout.{TxFits}
use binarycoin.Script.{
  clear_scripts, set_script, script_at, is_p2pk_script, extract_p2pk_public_key, signature_hash_all,
  pushes_signature, verify_p2pk_input,
}
use binarycoin.Utxo.{
  outpoint_less, outpoint_eq, find, contains, erase, emplace, add_output_values, sum_outputs,
  erase_inputs, create_outputs, check_input, total_inputs, check_transaction, create_all,
  apply_transaction,
}
use binarycoin.Utxo.Coins.{total_value}
use binarycoin.Utxo.Conservation.{apply_transaction-conserves}
use binarycoin.Block.{testnet_genesis_txid}

unfoldable pub is_hex_digits : Text → Bool
is_hex_digits [] = true
is_hex_digits (c ∷ cs) =
    ((leb b'0' c && leb c b'9') || (leb b'a' c && leb c b'f')) && is_hex_digits cs

pub is_hex_digits→All : (text : Text) → is_hex_digits text ≡ true → All IsHexDigit text
unfolding is_hex_digits
is_hex_digits→All [] h = tt
is_hex_digits→All (c ∷ cs) h =
    let (first, rest) = &&-split ((leb b'0' c && leb c b'9') || (leb b'a' c && leb c b'f')) _ h in
    (digit c first, is_hex_digits→All cs rest)
  where
    digit :
        (c : ℕ) → ((leb b'0' c && leb c b'9') || (leb b'a' c && leb c b'f')) ≡ true → IsHexDigit c
    digit c h = ground arith

pub genesis_txid-IsDisplayHash : IsDisplayHash testnet_genesis_txid
unfolding is_hex_digits
genesis_txid-IsDisplayHash = record {
  digits = is_hex_digits→All testnet_genesis_txid refl;
  size = refl;
}

pub toy_transaction-TxFits : TxFits toy_transaction
toy_transaction-TxFits = record {
  version = omega arith;
  inputs = (
    record { txid = genesis_txid-IsDisplayHash; index = omega arith; sequence = omega arith },
    tt,
  );
  lock_time = omega arith;
}

toy_transaction-valid : validate_transaction_structure toy_transaction ≡ ok tt
unfolding serialize serialize_inputs serialize_input serialize_outputs serialize_output checked_size
    validate_transaction_structure check_inputs check_outputs display_hex_to_wire_bytes
    display_hex_to_raw_digest hex_to_bytes hex_pairs hex_value append_i32_le append_u32_le append_le
    append_compact_size append_u64_le append_i64_le ◌+ℤ◌ ◌-ℤ◌ text_eq
toy_transaction-valid = refl

deserialize-serialize_example :
    (bytes : List ℕ) × (serialize toy_transaction ≡ ok bytes)
    × (deserialize bytes ≡ ok toy_transaction)
deserialize-serialize_example =
    deserialize-serialize toy_transaction toy_transaction-TxFits toy_transaction-valid

pub toy_transaction-applies : (apply_transaction toy toy_transaction 2 toy_utxos).0 ≡ ok (pos 1)
unfolding serialize serialize_inputs serialize_input serialize_outputs serialize_output checked_size
    validate_transaction_structure check_inputs check_outputs display_hex_to_wire_bytes
    display_hex_to_raw_digest hex_to_bytes hex_pairs hex_value append_i32_le append_u32_le append_le
    append_compact_size append_u64_le append_i64_le ◌+ℤ◌ ◌-ℤ◌ text_eq apply_transaction
    check_transaction total_inputs check_input erase erase_inputs create_all create_outputs
    sum_outputs add_output_values is_coinbase is_coinbase_inputs txid_of raw_hash
    hash_to_display_hex bytes_to_hex sha256d contains find emplace outpoint_less outpoint_eq
    text_less verify_p2pk_input is_p2pk_script extract_p2pk_public_key valid_compressed_public_key
    verify_ecdsa_der signature_hash_all clear_scripts set_script script_at pushes_signature
toy_transaction-applies = refl

apply_transaction-conserves_example :
    (total_value (apply_transaction toy toy_transaction 2 toy_utxos).1 +ℤ pos 1
      ≡ total_value toy_utxos)
    × (pos 0 ≤ℤ pos 1)
apply_transaction-conserves_example =
    apply_transaction-conserves toy toy_transaction 2 toy_utxos toy_transaction-applies

toy_coinbase-txid : txid_of toy toy_coinbase ≡ ok testnet_genesis_txid
unfolding serialize serialize_inputs serialize_input serialize_outputs serialize_output checked_size
    validate_transaction_structure check_inputs check_outputs display_hex_to_wire_bytes
    display_hex_to_raw_digest hex_to_bytes hex_pairs hex_value append_i32_le append_u32_le append_le
    append_compact_size append_u64_le append_i64_le ◌+ℤ◌ ◌-ℤ◌ text_eq apply_transaction
    check_transaction total_inputs check_input erase erase_inputs create_all create_outputs
    sum_outputs add_output_values is_coinbase is_coinbase_inputs txid_of raw_hash
    hash_to_display_hex bytes_to_hex sha256d contains find emplace outpoint_less outpoint_eq
    text_less verify_p2pk_input is_p2pk_script extract_p2pk_public_key valid_compressed_public_key
    verify_ecdsa_der signature_hash_all clear_scripts set_script script_at pushes_signature
toy_coinbase-txid = refl

toy_coinbase-refused : (apply_transaction toy toy_coinbase 2 toy_utxos).0 ≡ err coinbase_as_regular
unfolding serialize serialize_inputs serialize_input serialize_outputs serialize_output checked_size
    validate_transaction_structure check_inputs check_outputs display_hex_to_wire_bytes
    display_hex_to_raw_digest hex_to_bytes hex_pairs hex_value append_i32_le append_u32_le append_le
    append_compact_size append_u64_le append_i64_le ◌+ℤ◌ ◌-ℤ◌ text_eq apply_transaction
    check_transaction total_inputs check_input erase erase_inputs create_all create_outputs
    sum_outputs add_output_values is_coinbase is_coinbase_inputs txid_of raw_hash
    hash_to_display_hex bytes_to_hex sha256d contains find emplace outpoint_less outpoint_eq
    text_less verify_p2pk_input is_p2pk_script extract_p2pk_public_key valid_compressed_public_key
    verify_ecdsa_der signature_hash_all clear_scripts set_script script_at pushes_signature
toy_coinbase-refused = refl

apply_transaction-unchanged_example : (apply_transaction toy toy_coinbase 2 toy_utxos).1 ≡ toy_utxos
apply_transaction-unchanged_example =
    apply_transaction-unchanged toy toy_coinbase 2 toy_utxos toy_coinbase-txid toy_coinbase-refused
      (λ h. cc h)
