-- ===== src/Tests/Blocks.antt =====
-- Examples on a chain of two blocks.
use binarycoin.Amount.{block_subsidy, max_money}
use binarycoin.Amount.Supply.{total_subsidy}
use binarycoin.Base.{
  List, Text, [], ok, pos, refl, text_eq, text_less, true, ◌+ℤ◌, ◌-ℤ◌, ◌∷◌, ◌≡◌, ◌≤ℤ◌, ◌≤◌,
}
use binarycoin.Block.{
  StoredBlock, hash_hex, header_raw_hash, serialize_header, testnet_genesis_hash,
}
use binarycoin.BranchStore.{hashes_of, put_many}
use binarycoin.BranchStore.Hashes.{are_unique, put_many_unique}
use binarycoin.Chain.{
  add_coinbase_outputs, apply_all, build_utxo_set, check_block, check_genesis, check_work,
  connect_block, issued_supply, no_coinbase, split_coinbase, verify_blocks, verify_rest,
}
use binarycoin.Chain.Issued.{HasHeights, issued_supply-total}
use binarycoin.Chain.Supply.{verify_blocks-supply}
use binarycoin.Codec.{
  append_compact_size, append_i32_le, append_i64_le, append_le, append_u32_le, append_u64_le,
}
use binarycoin.Hash.{
  bytes_to_hex, display_hex_to_raw_digest, display_hex_to_wire_bytes, hash_to_display_hex,
  hex_pairs, hex_to_bytes, hex_value,
}
use binarycoin.Hash.Crypto.{sha256d}
use binarycoin.Merkle.{
  merkle_loop, merkle_root_hex, merkle_root_raw, next_level, raw_hashes, root_of_level,
}
use binarycoin.Pow.{check_proof_of_work, compact_to_target, expand_compact, fold_digest}
use binarycoin.Tests.{toy, toy_genesis, toy_second}
use binarycoin.Tx.{
  check_inputs, check_outputs, is_coinbase, is_coinbase_inputs, validate_transaction_structure,
}
use binarycoin.Tx.Serialize.{
  checked_size, raw_hash, serialize, serialize_input, serialize_inputs, serialize_output,
  serialize_outputs, txid_of,
}
use binarycoin.Utxo.{
  UtxoSet, add_output_values, contains, create_all, create_outputs, emplace, find, outpoint_eq,
  outpoint_less, sum_outputs,
}
use binarycoin.Utxo.Coins.{total_value}

abbrev toy_chain : List StoredBlock
toy_chain = toy_genesis ∷ toy_second ∷ []

toy_chain-verifies : verify_blocks toy toy_chain ≡ ok tt
unfolding verify_blocks check_genesis check_work verify_rest check_block connect_block apply_all
    add_coinbase_outputs create_all create_outputs sum_outputs add_output_values block_subsidy
    split_coinbase no_coinbase hash_hex header_raw_hash serialize_header hash_to_display_hex
    bytes_to_hex display_hex_to_wire_bytes display_hex_to_raw_digest hex_to_bytes hex_pairs
    hex_value append_i32_le append_u32_le append_le append_compact_size append_u64_le append_i64_le
    sha256d text_eq is_coinbase is_coinbase_inputs txid_of raw_hash serialize serialize_inputs
    serialize_input serialize_outputs serialize_output checked_size validate_transaction_structure
    check_inputs check_outputs merkle_root_hex merkle_root_raw raw_hashes root_of_level merkle_loop
    next_level check_proof_of_work compact_to_target expand_compact fold_digest contains find
    emplace outpoint_less outpoint_eq text_less ◌+ℤ◌ ◌-ℤ◌
toy_chain-verifies = refl

verify_blocks-supply_example :
    (utxos : UtxoSet) × (build_utxo_set toy toy_chain ≡ ok utxos)
    × (total_value utxos ≡ pos (total_subsidy 1))
    × (total_value utxos ≤ℤ pos max_money)
verify_blocks-supply_example = verify_blocks-supply toy toy_chain toy_chain-verifies

toy_heights : HasHeights 1 (toy_second ∷ [])
unfolding HasHeights
toy_heights = (refl, tt)

issued_supply-total_example :
    (issued_supply toy_chain ≡ ok (pos (total_subsidy 1))) × (total_subsidy 1 ≤ max_money)
issued_supply-total_example = issued_supply-total toy_genesis (toy_second ∷ []) toy_heights

genesis_hashes : hashes_of toy (toy_genesis ∷ []) ≡ ok (testnet_genesis_hash ∷ [])
unfolding hashes_of verify_blocks check_genesis check_work verify_rest check_block connect_block
    apply_all add_coinbase_outputs create_all create_outputs sum_outputs add_output_values
    block_subsidy split_coinbase no_coinbase hash_hex header_raw_hash serialize_header
    hash_to_display_hex bytes_to_hex display_hex_to_wire_bytes display_hex_to_raw_digest
    hex_to_bytes hex_pairs hex_value append_i32_le append_u32_le append_le append_compact_size
    append_u64_le append_i64_le sha256d text_eq is_coinbase is_coinbase_inputs txid_of raw_hash
    serialize serialize_inputs serialize_input serialize_outputs serialize_output checked_size
    validate_transaction_structure check_inputs check_outputs merkle_root_hex merkle_root_raw
    raw_hashes root_of_level merkle_loop next_level check_proof_of_work compact_to_target
    expand_compact fold_digest contains find emplace outpoint_less outpoint_eq text_less ◌+ℤ◌ ◌-ℤ◌
genesis_hashes = refl

genesis_hashes_unique : are_unique (testnet_genesis_hash ∷ []) ≡ true
unfolding are_unique
genesis_hashes_unique = refl

put_many_unique_example :
    (hashes : List Text) × (hashes_of toy (put_many toy (toy_second ∷ []) (toy_genesis ∷ [])).1
      ≡ ok hashes)
    × (are_unique hashes ≡ true)
put_many_unique_example =
    put_many_unique toy (toy_second ∷ []) (toy_genesis ∷ []) genesis_hashes genesis_hashes_unique
