-- ===== src/Tests/Mining.antt =====
-- Examples on headers, mining and signatures.
use binarycoin.Amount.{block_subsidy}
use binarycoin.Base.{
  List, Result, [], arith, block_fee_overflow, err, exhausted_nonces, length, ok, pos, refl,
  some-injective, sym, text_eq, text_eq_refl, text_less, true, ℕ, ◌*◌, ◌+ℤ◌, ◌-ℤ◌, ◌^◌, ◌≡◌, ◌⊎◌,
}
use binarycoin.Block.{
  Block, BlockHeader, deserialize_header, hash_hex, header_raw_hash, mine_loop, mine_testnet_block,
  serialize_header, testnet_bits, testnet_genesis_hash,
}
use binarycoin.Block.Header.{FitsHeader, deserialize_header-serialize_header}
use binarycoin.Block.Mining.{attempts_left, mine_loop-ends}
use binarycoin.Chain.{
  add_coinbase_outputs, apply_all, check_block, check_genesis, check_work, connect_block, header_of,
  no_coinbase, split_coinbase, verify_blocks, verify_rest,
}
use binarycoin.Chain.Mined.{mine_testnet_block-connects}
use binarycoin.Codec.{
  append_compact_size, append_i32_le, append_i64_le, append_le, append_u32_le, append_u64_le,
}
use binarycoin.Hash.{
  bytes_to_hex, display_hex_to_raw_digest, display_hex_to_wire_bytes, hash_to_display_hex,
  hex_pairs, hex_to_bytes, hex_value,
}
use binarycoin.Hash.Crypto.{IsEcdsaKey, sha256d, sign_der, valid_compressed_public_key}
use binarycoin.Merkle.{
  merkle_loop, merkle_root_hex, merkle_root_raw, next_level, raw_hashes, root_of_level,
}
use binarycoin.Pow.{check_proof_of_work, compact_to_target, expand_compact, fold_digest}
use binarycoin.Script.{
  clear_scripts, extract_p2pk_public_key, is_p2pk_script, make_p2pk_script, script_at, set_script,
  sign_p2pk_input, signature_hash_all, verify_p2pk_input,
}
use binarycoin.Script.Signing.{verify_p2pk_input-sign_p2pk_input}
use binarycoin.Tests.{toy, toy_genesis, toy_key, toy_script, toy_second, toy_transaction}
use binarycoin.Tests.Transactions.{genesis_txid-IsDisplayHash, is_hex_digits, is_hex_digits→All}
use binarycoin.Tx.{
  Transaction, check_inputs, check_outputs, is_coinbase, is_coinbase_inputs,
  validate_transaction_structure,
}
use binarycoin.Tx.Coinbase.{
  encode_script_number, magnitude_bytes, make_testnet_coinbase, push_script_data, put_sign,
}
use binarycoin.Tx.Serialize.{
  checked_size, raw_hash, serialize, serialize_input, serialize_inputs, serialize_output,
  serialize_outputs, txid_of,
}
use binarycoin.Utxo.{
  add_output_values, contains, create_all, create_outputs, emplace, find, outpoint_eq,
  outpoint_less, sum_outputs,
}

abbrev pub second_header : BlockHeader
second_header = toy_second.block.header

pub second_header-FitsHeader : FitsHeader second_header
unfolding is_hex_digits
second_header-FitsHeader = record {
  version_fits = omega arith;
  previous_hash_fits = record { digits = is_hex_digits→All testnet_genesis_hash refl; size = refl };
  merkle_root_fits = genesis_txid-IsDisplayHash;
  time_fits = omega arith;
  bits_fits = omega arith;
  nonce_fits = omega arith;
}

deserialize_header-serialize_header_example :
    (bytes : List ℕ) × (serialize_header second_header ≡ ok bytes)
    × (length bytes ≡ 80)
    × (deserialize_header bytes ≡ ok second_header)
deserialize_header-serialize_header_example =
    deserialize_header-serialize_header second_header second_header-FitsHeader

testnet_bits-target : compact_to_target testnet_bits ≡ ok (0xffff * 2 ^ 224)
unfolding compact_to_target expand_compact
testnet_bits-target = refl

mine_loop-ends_example :
    ((found : BlockHeader) × (mine_loop toy (attempts_left toy second_header) second_header
        ≡ ok found))
    ⊎ (mine_loop toy (attempts_left toy second_header) second_header ≡ err exhausted_nonces)
mine_loop-ends_example =
    mine_loop-ends toy (attempts_left toy second_header) second_header second_header-FitsHeader
      testnet_bits-target (omega arith)

abbrev mined_on_genesis : Result Block
mined_on_genesis =
    mine_testnet_block toy 1 (pos 0) 1 testnet_genesis_hash (header_of toy_genesis).time
      testnet_bits toy_script [] (pos 0)

abbrev mined_block : Block
mined_block = elim mined_on_genesis [ ok block ↦ block | err e ↦ toy_genesis.block ]

mined_on_genesis-ok : mined_on_genesis ≡ ok mined_block
unfolding mine_testnet_block mine_loop make_testnet_coinbase push_script_data encode_script_number
    put_sign magnitude_bytes verify_blocks check_genesis check_work verify_rest check_block
    connect_block apply_all add_coinbase_outputs create_all create_outputs sum_outputs
    add_output_values block_subsidy split_coinbase no_coinbase hash_hex header_raw_hash
    serialize_header hash_to_display_hex bytes_to_hex display_hex_to_wire_bytes
    display_hex_to_raw_digest hex_to_bytes hex_pairs hex_value append_i32_le append_u32_le append_le
    append_compact_size append_u64_le append_i64_le sha256d text_eq is_coinbase is_coinbase_inputs
    txid_of raw_hash serialize serialize_inputs serialize_input serialize_outputs serialize_output
    checked_size validate_transaction_structure check_inputs check_outputs merkle_root_hex
    merkle_root_raw raw_hashes root_of_level merkle_loop next_level check_proof_of_work
    compact_to_target expand_compact fold_digest contains find emplace outpoint_less outpoint_eq
    text_less ◌+ℤ◌ ◌-ℤ◌
mined_on_genesis-ok = refl

genesis_hash : hash_hex toy (header_of toy_genesis) ≡ ok testnet_genesis_hash
unfolding verify_blocks check_genesis check_work verify_rest check_block connect_block apply_all
    add_coinbase_outputs create_all create_outputs sum_outputs add_output_values block_subsidy
    split_coinbase no_coinbase hash_hex header_raw_hash serialize_header hash_to_display_hex
    bytes_to_hex display_hex_to_wire_bytes display_hex_to_raw_digest hex_to_bytes hex_pairs
    hex_value append_i32_le append_u32_le append_le append_compact_size append_u64_le append_i64_le
    sha256d text_eq is_coinbase is_coinbase_inputs txid_of raw_hash serialize serialize_inputs
    serialize_input serialize_outputs serialize_output checked_size validate_transaction_structure
    check_inputs check_outputs merkle_root_hex merkle_root_raw raw_hashes root_of_level merkle_loop
    next_level check_proof_of_work compact_to_target expand_compact fold_digest contains find
    emplace outpoint_less outpoint_eq text_less ◌+ℤ◌ ◌-ℤ◌
genesis_hash = refl

nothing_applied : apply_all toy block_fee_overflow 1 [] (pos 0) [] ≡ ok (pos 0, [])
unfolding apply_all
nothing_applied = refl

no_more_coinbases : no_coinbase [] ≡ ok tt
unfolding no_coinbase
no_more_coinbases = refl

mine_testnet_block-connects_example :
    (coinbase : Transaction) × (check_block toy 1 toy_genesis
        (record { height = 1; block = mined_block })
      ≡ ok (coinbase, []))
    × (connect_block toy 1 coinbase [] [] ≡ add_coinbase_outputs toy coinbase 1 [])
mine_testnet_block-connects_example =
    mine_testnet_block-connects toy 1 (pos 0) 1 toy_genesis testnet_genesis_hash toy_script []
      (pos 0) [] [] genesis_hash (omega arith) no_more_coinbases nothing_applied mined_on_genesis-ok

toy_key-IsEcdsaKey : IsEcdsaKey toy toy_key
toy_key-IsEcdsaKey = record {
  parses = refl;
  der = λ s bytes h. sym h;
  low = λ s. refl;
  valid = λ m s h. rw (sym (some-injective h)) (text_eq_refl m);
}

toy_transaction-signs :
    sign_p2pk_input toy toy_transaction 0 toy_script toy_key ≡ ok toy_transaction
unfolding sign_p2pk_input sign_der push_script_data is_p2pk_script extract_p2pk_public_key
    valid_compressed_public_key signature_hash_all clear_scripts set_script script_at verify_blocks
    check_genesis check_work verify_rest check_block connect_block apply_all add_coinbase_outputs
    create_all create_outputs sum_outputs add_output_values block_subsidy split_coinbase no_coinbase
    hash_hex header_raw_hash serialize_header hash_to_display_hex bytes_to_hex
    display_hex_to_wire_bytes display_hex_to_raw_digest hex_to_bytes hex_pairs hex_value
    append_i32_le append_u32_le append_le append_compact_size append_u64_le append_i64_le sha256d
    text_eq is_coinbase is_coinbase_inputs txid_of raw_hash serialize serialize_inputs
    serialize_input serialize_outputs serialize_output checked_size validate_transaction_structure
    check_inputs check_outputs merkle_root_hex merkle_root_raw raw_hashes root_of_level merkle_loop
    next_level check_proof_of_work compact_to_target expand_compact fold_digest contains find
    emplace outpoint_less outpoint_eq text_less ◌+ℤ◌ ◌-ℤ◌
toy_transaction-signs = refl

verify_p2pk_input-sign_p2pk_input_example :
    verify_p2pk_input toy toy_transaction 0 toy_script ≡ ok true
verify_p2pk_input-sign_p2pk_input_example =
    verify_p2pk_input-sign_p2pk_input toy toy_transaction 0 toy_script toy_key toy_key-IsEcdsaKey
      toy_transaction-signs

toy_script-made : make_p2pk_script toy toy_key ≡ ok toy_script
unfolding make_p2pk_script valid_compressed_public_key
toy_script-made = refl
