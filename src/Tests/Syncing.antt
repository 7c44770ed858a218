-- ===== src/Tests/Syncing.antt =====
-- Examples on the synchronization with a peer.
use binarycoin.Base.{List, Text, [], arith, bind_ok, err, ok, refl, text_eq, ℕ, ◌∷◌, ◌≡◌}
use binarycoin.Block.{hash_hex, header_raw_hash, serialize_header, testnet_genesis_hash}
use binarycoin.Codec.{append_i32_le, append_u32_le}
use binarycoin.Hash.{
  bytes_to_hex, display_hex_to_raw_digest, display_hex_to_wire_bytes, hash_to_display_hex,
  hex_pairs, hex_to_bytes, hex_value,
}
use binarycoin.Hash.Crypto.{sha256d}
use binarycoin.Net.Blocks.{serialize_stored_blocks}
use binarycoin.Net.Headers.{
  HeaderRecord, append_hash, deserialize_headers, no_stop_hash, serialize_getheaders,
  serialize_headers,
}
use binarycoin.Net.Headers.RoundTrip.{deserialize_headers-serialize_headers}
use binarycoin.Net.Items.{write_items}
use binarycoin.Net.Locator.{
  find_below, hash_at, last_hash, locator_loop, make_block_locator, with_genesis,
}
use binarycoin.Net.Sync.{
  behind_batch, check_rest, find_fork, first_header, is_done, stored_at, sync_headers,
}
use binarycoin.Net.Sync.Bodies.{BodyAnswer, block_answer}
use binarycoin.Net.Sync.Switch.{sync_chain}
use binarycoin.Net.Sync.Switch.Outcome.{Outcome, sync_chain-Outcome}
use binarycoin.Net.Version.{PeerVersion}
use binarycoin.Tests.{toy, toy_genesis, toy_second}
use binarycoin.Tests.Messages.{second_header-work, toy_version}
use binarycoin.Tests.Mining.{second_header, second_header-FitsHeader}
use binarycoin.Tests.Nodes.{genesis_chain, toy_storage}
use binarycoin.Tests.Storage.{bytes_or_none}

abbrev second_record : HeaderRecord
second_record = record { height = 1; header = second_header }

abbrev second_peer : PeerVersion
second_peer = record toy_version { best_height = 1 }

-- The answer that holds the second header.
abbrev second_payload :
    (bytes : List ℕ) × (serialize_headers (second_record ∷ []) ≡ ok bytes)
    × (deserialize_headers toy bytes ≡ ok (second_record ∷ []))
second_payload =
    deserialize_headers-serialize_headers toy (second_record ∷ [])
      (
        record {
          height = omega arith;
          header = second_header-FitsHeader;
          work = second_header-work;
        },
        tt,
      )
      (omega arith)

abbrev genesis_locator : List Text
genesis_locator = testnet_genesis_hash ∷ []

genesis_locator-made : make_block_locator toy (toy_genesis ∷ []) ≡ ok genesis_locator
unfolding make_block_locator locator_loop hash_at hash_hex header_raw_hash serialize_header
    display_hex_to_wire_bytes display_hex_to_raw_digest hex_to_bytes hex_pairs hex_value
    append_u32_le append_i32_le with_genesis text_eq last_hash hash_to_display_hex bytes_to_hex
    sha256d
genesis_locator-made = refl

abbrev genesis_request : List ℕ
genesis_request = elim (serialize_getheaders genesis_locator no_stop_hash) [
  | ok bytes ↦ bytes
  | err e ↦ []
]

genesis_request-made : serialize_getheaders genesis_locator no_stop_hash ≡ ok genesis_request
unfolding serialize_getheaders write_items append_hash display_hex_to_wire_bytes
    display_hex_to_raw_digest hex_to_bytes hex_pairs hex_value
genesis_request-made = refl

second_peer-synced :
    sync_headers toy (toy_genesis ∷ []) second_peer (second_payload.0 ∷ [])
    ≡ ok (0, second_record ∷ [])
unfolding sync_headers find_fork stored_at find_below hash_at hash_hex header_raw_hash check_rest
    is_done behind_batch first_header serialize_header display_hex_to_wire_bytes
    display_hex_to_raw_digest hex_to_bytes hex_pairs hex_value append_u32_le append_i32_le text_eq
    hash_to_display_hex bytes_to_hex sha256d
second_peer-synced =
    bind_ok _ _ genesis_locator-made
      (bind_ok _ _ genesis_request-made (bind_ok _ _ second_payload.2 refl))

-- The answer that holds the second block.
abbrev second_answer : BodyAnswer
second_answer = block_answer (bytes_or_none (serialize_stored_blocks (toy_second ∷ []) 0 1))

sync_chain-Outcome_example :
    Outcome toy toy_storage second_peer genesis_chain
      (sync_chain toy toy_storage second_peer
        (second_payload.0 ∷ [])
        (second_answer ∷ [])
        genesis_chain
        []).1
sync_chain-Outcome_example =
    sync_chain-Outcome toy toy_storage second_peer (second_payload.0 ∷ []) (second_answer ∷ [])
      genesis_chain []
