-- ===== src/Tests/Pools.antt =====
-- Examples on the mempool.
use binarycoin.Base.{
  &&-split, All, Bool, IsByte, List, [], err, ltb, ltb→lt, none, ok, refl, sym, text_eq, text_less,
  true, ℕ, ◌&&◌, ◌++◌, ◌+ℤ◌, ◌-ℤ◌, ◌∙◌, ◌∷◌, ◌≡◌,
}
use binarycoin.Codec.{
  append_compact_size, append_i32_le, append_i64_le, append_le, append_u32_le, append_u64_le,
}
use binarycoin.Hash.{
  bytes_to_hex, display_hex_to_raw_digest, display_hex_to_wire_bytes, hash_to_display_hex,
  hex_pairs, hex_to_bytes, hex_value,
}
use binarycoin.Hash.Crypto.{sha256d, valid_compressed_public_key, verify_ecdsa_der}
use binarycoin.Mempool.{
  Mempool, add, check_add, check_new, effective_utxos, load, replay, retain, revalidate, save,
  transaction_lines,
}
use binarycoin.Mempool.Persistence.{load-save}
use binarycoin.Mempool.Validity.{add-replayable, revalidate-replayable}
use binarycoin.Script.{
  clear_scripts, extract_p2pk_public_key, is_p2pk_script, pushes_signature, script_at, set_script,
  signature_hash_all, verify_p2pk_input,
}
use binarycoin.Tests.{coinbase_digest, toy, toy_script, toy_transaction, toy_utxos}
use binarycoin.Tests.Transactions.{toy_transaction-TxFits, toy_transaction-applies}
use binarycoin.Tx.{
  check_inputs, check_outputs, is_coinbase, is_coinbase_inputs, validate_transaction_structure,
}
use binarycoin.Tx.Serialize.{
  checked_size, raw_hash, serialize, serialize_input, serialize_inputs, serialize_output,
  serialize_outputs, txid_of,
}
use binarycoin.Tx.Serialize.RoundTrip.Bytes.{ScriptsFit}
use binarycoin.Utxo.{
  UtxoSet, add_output_values, apply_transaction, check_input, check_transaction, contains,
  create_all, create_outputs, emplace, erase, erase_inputs, find, outpoint_eq, outpoint_less,
  sum_outputs, total_inputs,
}

abbrev empty_pool : Mempool
empty_pool = record { file = none; transactions = [] }

abbrev toy_pool : Mempool
toy_pool = record { file = none; transactions = toy_transaction ∷ [] }

toy_transaction-adds : (add toy true empty_pool toy_transaction toy_utxos 2).0 ≡ ok tt
unfolding add check_add check_new effective_utxos replay save transaction_lines serialize
    serialize_inputs serialize_input serialize_outputs serialize_output checked_size
    validate_transaction_structure check_inputs check_outputs display_hex_to_wire_bytes
    display_hex_to_raw_digest hex_to_bytes hex_pairs hex_value append_i32_le append_u32_le append_le
    append_compact_size append_u64_le append_i64_le ◌+ℤ◌ ◌-ℤ◌ text_eq apply_transaction
    check_transaction total_inputs check_input erase erase_inputs create_all create_outputs
    sum_outputs add_output_values is_coinbase is_coinbase_inputs txid_of raw_hash
    hash_to_display_hex bytes_to_hex sha256d contains find emplace outpoint_less outpoint_eq
    text_less verify_p2pk_input is_p2pk_script extract_p2pk_public_key valid_compressed_public_key
    verify_ecdsa_der signature_hash_all clear_scripts set_script script_at pushes_signature
toy_transaction-adds = refl

add-replayable_example :
    ((add toy true empty_pool toy_transaction toy_utxos 2).1.transactions ≡ toy_transaction ∷ [])
    × (v : UtxoSet) × (effective_utxos toy
          (add toy true empty_pool toy_transaction toy_utxos 2).1
          toy_utxos
          2
        ≡ ok v)
add-replayable_example =
    add-replayable toy true empty_pool toy_transaction toy_utxos 2 toy_transaction-adds

toy_pool-revalidates : (revalidate toy true toy_pool toy_utxos 2 []).0 ≡ ok tt
unfolding revalidate retain save transaction_lines serialize serialize_inputs serialize_input
    serialize_outputs serialize_output checked_size validate_transaction_structure check_inputs
    check_outputs display_hex_to_wire_bytes display_hex_to_raw_digest hex_to_bytes hex_pairs
    hex_value append_i32_le append_u32_le append_le append_compact_size append_u64_le append_i64_le
    ◌+ℤ◌ ◌-ℤ◌ text_eq apply_transaction check_transaction total_inputs check_input erase
    erase_inputs create_all create_outputs sum_outputs add_output_values is_coinbase
    is_coinbase_inputs txid_of raw_hash hash_to_display_hex bytes_to_hex sha256d contains find
    emplace outpoint_less outpoint_eq text_less verify_p2pk_input is_p2pk_script
    extract_p2pk_public_key valid_compressed_public_key verify_ecdsa_der signature_hash_all
    clear_scripts set_script script_at pushes_signature
toy_pool-revalidates = refl

revalidate-replayable_example :
    (v : UtxoSet) × (effective_utxos toy (revalidate toy true toy_pool toy_utxos 2 []).1 toy_utxos 2
      ≡ ok v)
revalidate-replayable_example =
    revalidate-replayable toy true toy_pool toy_utxos 2 []
      ((λ h. cc (sym toy_transaction-applies ∙ h)), tt, tt) toy_pool-revalidates

are_bytes : List ℕ → Bool
are_bytes [] = true
are_bytes (b ∷ bs) = ltb b 256 && are_bytes bs

are_bytes→All : (bs : List ℕ) → are_bytes bs ≡ true → All IsByte bs
unfolding are_bytes
are_bytes→All [] h = tt
are_bytes→All (b ∷ bs) h =
    let (first, rest) = &&-split (ltb b 256) _ h in (ltb→lt b 256 first, are_bytes→All bs rest)

toy_transaction-ScriptsFit : ScriptsFit toy_transaction
unfolding are_bytes
toy_transaction-ScriptsFit = record {
  inputs = (are_bytes→All (33 ∷ (coinbase_digest ++ 1 ∷ [])) refl, tt);
  outputs = (are_bytes→All toy_script refl, tt);
}

toy_pool-saves : (save true toy_pool).0 ≡ ok tt
unfolding save transaction_lines serialize serialize_inputs serialize_input serialize_outputs
    serialize_output checked_size validate_transaction_structure check_inputs check_outputs
    display_hex_to_wire_bytes display_hex_to_raw_digest hex_to_bytes hex_pairs hex_value
    append_i32_le append_u32_le append_le append_compact_size append_u64_le append_i64_le ◌+ℤ◌ ◌-ℤ◌
    text_eq
toy_pool-saves = refl

load-save_example :
    (load (save true toy_pool).1).0 ≡ ok tt
    × ((load (save true toy_pool).1).1.transactions ≡ toy_transaction ∷ [])
load-save_example =
    load-save toy_pool (toy_transaction-TxFits, tt) (toy_transaction-ScriptsFit, tt) toy_pool-saves

abbrev toy_bytes : List ℕ
toy_bytes = elim (serialize toy_transaction) [ ok bytes ↦ bytes | err e ↦ [] ]

toy_transaction-serializes : serialize toy_transaction ≡ ok toy_bytes
unfolding serialize serialize_inputs serialize_input serialize_outputs serialize_output checked_size
    validate_transaction_structure check_inputs check_outputs display_hex_to_wire_bytes
    display_hex_to_raw_digest hex_to_bytes hex_pairs hex_value append_i32_le append_u32_le append_le
    append_compact_size append_u64_le append_i64_le ◌+ℤ◌ ◌-ℤ◌ text_eq
toy_transaction-serializes = refl
