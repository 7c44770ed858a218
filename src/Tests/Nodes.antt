-- ===== src/Tests/Nodes.antt =====
-- Examples on a node with a small disk.
use binarycoin.Amount.{block_subsidy}
use binarycoin.Base.{
  Bool, List, Option, Result, [], codes, err, false, no_chainstate, none, ok, pos, refl, some,
  text_eq, text_less, true, ◌+ℤ◌, ◌-ℤ◌, ◌∷◌, ◌≡◌,
}
use binarycoin.Block.{
  StoredBlock, hash_hex, header_raw_hash, mine_loop, mine_testnet_block, serialize_header,
  testnet_genesis_block,
}
use binarycoin.Chain.{
  add_coinbase_outputs, apply_all, build_rest, build_utxo_set, check_block, check_genesis,
  check_work, connect_block, no_coinbase, split_coinbase, verify_blocks, verify_rest,
}
use binarycoin.Chain.Node.{
  Storage, TestnetChain, append_blocks, check_loaded, create, ensure_initialized, initialize, load,
  save, tip, utxo_sets_equal,
}
use binarycoin.Chain.Node.Activation.{activate_if_more_work}
use binarycoin.Chain.Node.Activation.Switching.{Switched, activate_if_more_work-Switched}
use binarycoin.Chain.Node.Consistency.{Appended, IsConsistent, append_blocks-Appended}
use binarycoin.Chain.Node.Generation.{generate, generate_blocks, next_block}
use binarycoin.Chain.Node.Generation.Growth.{generate-IsConsistent}
use binarycoin.Chain.Node.Loading.{initialize-IsConsistent, load-IsConsistent}
use binarycoin.Codec.{
  append_compact_size, append_i32_le, append_i64_le, append_le, append_u32_le, append_u64_le,
}
use binarycoin.Hash.{
  bytes_to_hex, display_hex_to_raw_digest, display_hex_to_wire_bytes, hash_to_display_hex,
  hex_pairs, hex_to_bytes, hex_value,
}
use binarycoin.Hash.Crypto.{sha256d, valid_compressed_public_key}
use binarycoin.Merkle.{
  merkle_loop, merkle_root_hex, merkle_root_raw, next_level, raw_hashes, root_of_level,
}
use binarycoin.Pow.{check_proof_of_work, compact_to_target, expand_compact, fold_digest}
use binarycoin.Script.{make_p2pk_script}
use binarycoin.Tests.{toy, toy_genesis, toy_script, toy_second}
use binarycoin.Tx.{
  check_inputs, check_outputs, is_coinbase, is_coinbase_inputs, validate_transaction_structure,
}
use binarycoin.Tx.Coinbase.{
  encode_script_number, magnitude_bytes, make_testnet_coinbase, push_script_data, put_sign,
}
use binarycoin.Tx.Serialize.{
  checked_size, raw_hash, serialize, serialize_input, serialize_inputs, serialize_output,
  serialize_outputs, txid_of,
}
use binarycoin.Utxo.{
  UtxoSet, add_output_values, contains, create_all, create_outputs, emplace, find, outpoint_eq,
  outpoint_less, sum_outputs,
}

-- The disk holds the last commit.
abbrev pub ToyDisk : Type 0
ToyDisk = Option (List StoredBlock × UtxoSet)

abbrev toy_exists : ToyDisk → Bool
toy_exists none = false
toy_exists (some kept) = true

abbrev toy_read : UtxoSet → ToyDisk → Result (List StoredBlock) × UtxoSet
toy_read utxos none = (err no_chainstate, utxos)
toy_read utxos (some (blocks, kept)) = (ok blocks, kept)

abbrev pub toy_storage : Storage ToyDisk
toy_storage = record {
  create_directories = λ disk. (ok tt, disk);
  exists = toy_exists;
  read = toy_read;
  commit = λ blocks utxos disk. (ok tt, some (blocks, utxos));
  has_legacy_v3 = λ disk. false;
  has_older_legacy = λ disk. false;
  read_legacy_v3 = λ blocks disk. (err no_chainstate, blocks);
  mark_migrated_legacy = λ disk. disk;
}

abbrev new_chain : TestnetChain ToyDisk
new_chain = record { data_directory = codes "data"; blocks = []; utxos = []; disk = none }

abbrev stored_chain : TestnetChain ToyDisk
stored_chain = record new_chain { disk = some (toy_genesis ∷ [], []) }

abbrev pub genesis_chain : TestnetChain ToyDisk
genesis_chain = record new_chain { blocks = toy_genesis ∷ [] }

new_chain-initializes : (initialize toy toy_storage new_chain).0 ≡ ok tt
unfolding initialize create save testnet_genesis_block make_p2pk_script valid_compressed_public_key
    make_testnet_coinbase push_script_data encode_script_number put_sign magnitude_bytes
    verify_blocks check_genesis check_work verify_rest check_block connect_block apply_all
    add_coinbase_outputs create_all create_outputs sum_outputs add_output_values block_subsidy
    split_coinbase no_coinbase hash_hex header_raw_hash serialize_header hash_to_display_hex
    bytes_to_hex display_hex_to_wire_bytes display_hex_to_raw_digest hex_to_bytes hex_pairs
    hex_value append_i32_le append_u32_le append_le append_compact_size append_u64_le append_i64_le
    sha256d text_eq is_coinbase is_coinbase_inputs txid_of raw_hash serialize serialize_inputs
    serialize_input serialize_outputs serialize_output checked_size validate_transaction_structure
    check_inputs check_outputs merkle_root_hex merkle_root_raw raw_hashes root_of_level merkle_loop
    next_level check_proof_of_work compact_to_target expand_compact fold_digest contains find
    emplace outpoint_less outpoint_eq text_less ◌+ℤ◌ ◌-ℤ◌
new_chain-initializes = refl

initialize-IsConsistent_example :
    IsConsistent toy toy_storage (initialize toy toy_storage new_chain).1
initialize-IsConsistent_example =
    initialize-IsConsistent toy toy_storage new_chain new_chain-initializes

stored_chain-loads : (load toy toy_storage stored_chain).0 ≡ ok tt
unfolding load check_loaded build_utxo_set build_rest utxo_sets_equal verify_blocks check_genesis
    check_work verify_rest check_block connect_block apply_all add_coinbase_outputs create_all
    create_outputs sum_outputs add_output_values block_subsidy split_coinbase no_coinbase hash_hex
    header_raw_hash serialize_header hash_to_display_hex bytes_to_hex display_hex_to_wire_bytes
    display_hex_to_raw_digest hex_to_bytes hex_pairs hex_value append_i32_le append_u32_le append_le
    append_compact_size append_u64_le append_i64_le sha256d text_eq is_coinbase is_coinbase_inputs
    txid_of raw_hash serialize serialize_inputs serialize_input serialize_outputs serialize_output
    checked_size validate_transaction_structure check_inputs check_outputs merkle_root_hex
    merkle_root_raw raw_hashes root_of_level merkle_loop next_level check_proof_of_work
    compact_to_target expand_compact fold_digest contains find emplace outpoint_less outpoint_eq
    text_less ◌+ℤ◌ ◌-ℤ◌
stored_chain-loads = refl

load-IsConsistent_example : IsConsistent toy toy_storage (load toy toy_storage stored_chain).1
load-IsConsistent_example = load-IsConsistent toy toy_storage stored_chain stored_chain-loads

genesis_chain-IsConsistent : IsConsistent toy toy_storage genesis_chain
unfolding build_utxo_set build_rest verify_blocks check_genesis check_work verify_rest check_block
    connect_block apply_all add_coinbase_outputs create_all create_outputs sum_outputs
    add_output_values block_subsidy split_coinbase no_coinbase hash_hex header_raw_hash
    serialize_header hash_to_display_hex bytes_to_hex display_hex_to_wire_bytes
    display_hex_to_raw_digest hex_to_bytes hex_pairs hex_value append_i32_le append_u32_le append_le
    append_compact_size append_u64_le append_i64_le sha256d text_eq is_coinbase is_coinbase_inputs
    txid_of raw_hash serialize serialize_inputs serialize_input serialize_outputs serialize_output
    checked_size validate_transaction_structure check_inputs check_outputs merkle_root_hex
    merkle_root_raw raw_hashes root_of_level merkle_loop next_level check_proof_of_work
    compact_to_target expand_compact fold_digest contains find emplace outpoint_less outpoint_eq
    text_less ◌+ℤ◌ ◌-ℤ◌
genesis_chain-IsConsistent = record { verified = refl; built = refl }

append_blocks-Appended_example :
    Appended toy toy_storage
      (toy_second ∷ [])
      genesis_chain
      (append_blocks toy toy_storage (toy_second ∷ []) genesis_chain)
append_blocks-Appended_example =
    append_blocks-Appended toy toy_storage (toy_second ∷ []) genesis_chain
      genesis_chain-IsConsistent

activate_if_more_work-Switched_example :
    Switched toy toy_storage
      (toy_genesis ∷ toy_second ∷ [])
      genesis_chain
      (activate_if_more_work toy toy_storage (toy_genesis ∷ toy_second ∷ []) genesis_chain)
activate_if_more_work-Switched_example =
    activate_if_more_work-Switched toy toy_storage (toy_genesis ∷ toy_second ∷ []) genesis_chain

genesis_chain-generates :
    (generate toy toy_storage 1 (λ left. pos 0) 1 toy_script [] genesis_chain).0 ≡ ok tt
unfolding generate ensure_initialized generate_blocks next_block tip save mine_testnet_block
    mine_loop make_testnet_coinbase push_script_data encode_script_number put_sign magnitude_bytes
    verify_blocks check_genesis check_work verify_rest check_block connect_block apply_all
    add_coinbase_outputs create_all create_outputs sum_outputs add_output_values block_subsidy
    split_coinbase no_coinbase hash_hex header_raw_hash serialize_header hash_to_display_hex
    bytes_to_hex display_hex_to_wire_bytes display_hex_to_raw_digest hex_to_bytes hex_pairs
    hex_value append_i32_le append_u32_le append_le append_compact_size append_u64_le append_i64_le
    sha256d text_eq is_coinbase is_coinbase_inputs txid_of raw_hash serialize serialize_inputs
    serialize_input serialize_outputs serialize_output checked_size validate_transaction_structure
    check_inputs check_outputs merkle_root_hex merkle_root_raw raw_hashes root_of_level merkle_loop
    next_level check_proof_of_work compact_to_target expand_compact fold_digest contains find
    emplace outpoint_less outpoint_eq text_less ◌+ℤ◌ ◌-ℤ◌
genesis_chain-generates = refl

generate-IsConsistent_example :
    IsConsistent toy toy_storage
      (generate toy toy_storage 1 (λ left. pos 0) 1 toy_script [] genesis_chain).1
generate-IsConsistent_example =
    generate-IsConsistent toy toy_storage 1 (λ left. pos 0) 1 toy_script [] genesis_chain
      genesis_chain-IsConsistent genesis_chain-generates
