-- ===== src/Tests/Messages.antt =====
-- Examples on the messages between nodes.
use binarycoin.Base.{
  All, List, Text, [], arith, codes, drop, err, length, map, ok, payload_too_large, pos, refl, take,
  text_eq, ℕ, ◌++◌, ◌+◌, ◌<◌, ◌∷◌, ◌≡◌, ◌≤◌, ◌⊎◌,
}
use binarycoin.Block.{
  StoredBlock, hash_hex, header_raw_hash, serialize_header, testnet_genesis_hash,
  testnet_genesis_txid,
}
use binarycoin.Codec.{append_i32_le, append_u32_le}
use binarycoin.Hash.{
  bytes_to_hex, display_hex_to_raw_digest, display_hex_to_wire_bytes, hash_to_display_hex,
  hex_pairs, hex_to_bytes, hex_value,
}
use binarycoin.Hash.Crypto.{sha256d}
use binarycoin.Hash.RoundTrip.{IsDisplayHash}
use binarycoin.Net.{max_headers_per_response, max_p2p_payload}
use binarycoin.Net.Blocks.{deserialize_stored_blocks, serialize_stored_blocks}
use binarycoin.Net.Blocks.RoundTrip.{
  IsPayloadOf, Sendable, deserialize_stored_blocks-serialize_stored_blocks, sent_blocks,
}
use binarycoin.Net.Frame.{
  all_printable, decode_p2p_frame, encode_p2p_frame, receive_message, validate_command,
}
use binarycoin.Net.Frame.RoundTrip.{receive_message-encode_p2p_frame}
use binarycoin.Net.Headers.{
  GetHeadersRequest, check_header_work, deserialize_getheaders, deserialize_headers, no_stop_hash,
  serialize_getheaders, serialize_headers,
}
use binarycoin.Net.Headers.RoundTrip.{deserialize_headers-serialize_headers}
use binarycoin.Net.Locator.{
  collect_headers, find_below, hash_at, headers_after_locator, locate_fork_index,
  make_block_locator,
}
use binarycoin.Net.Locator.Answers.{Names, headers_after_locator-answers, sent_header}
use binarycoin.Net.Locator.Asking.{serialize_getheaders-make_block_locator}
use binarycoin.Net.Locator.Bounds.{HeaderFits}
use binarycoin.Net.Version.{PeerVersion, deserialize_version, serialize_version}
use binarycoin.Net.Version.RoundTrip.{VersionFits, deserialize_version-serialize_version}
use binarycoin.Pow.{check_proof_of_work, compact_to_target, fold_digest}
use binarycoin.Tests.{toy, toy_genesis, toy_second}
use binarycoin.Tests.Mining.{second_header, second_header-FitsHeader}
use binarycoin.Tests.Storage.{genesis-BlockFits, genesis-Storable}
use binarycoin.Tests.Transactions.{genesis_txid-IsDisplayHash, is_hex_digits, is_hex_digits→All}

ping-valid : validate_command (codes "ping") ≡ ok tt
unfolding validate_command all_printable
ping-valid = refl

receive_message-encode_p2p_frame_example :
    (frame : List ℕ) × (encode_p2p_frame toy (codes "ping") (1 ∷ 2 ∷ []) ≡ ok frame)
    × (decode_p2p_frame toy frame ≡ ok (record { command = codes "ping"; payload = 1 ∷ 2 ∷ [] }))
    × (receive_message toy (frame ++ 84 ∷ [])
        ≡ ok (record { command = codes "ping"; payload = 1 ∷ 2 ∷ [] }, 84 ∷ []))
receive_message-encode_p2p_frame_example =
    receive_message-encode_p2p_frame toy (codes "ping") (1 ∷ 2 ∷ []) (84 ∷ []) ping-valid
      (omega arith)

genesis_hash-IsDisplayHash : IsDisplayHash testnet_genesis_hash
unfolding is_hex_digits
genesis_hash-IsDisplayHash = record {
  digits = is_hex_digits→All testnet_genesis_hash refl;
  size = refl;
}

abbrev pub toy_version : PeerVersion
toy_version = record {
  protocol_version = 5;
  services = 1;
  timestamp = pos 1_784_699_218;
  best_height = 0;
  genesis_hash = testnet_genesis_hash;
  tip_hash = testnet_genesis_hash;
  chainwork = testnet_genesis_txid;
  nonce = 7;
  user_agent = codes "/BinaryCoinTestnetAlpha:0.1.3/";
}

toy_version-VersionFits : VersionFits toy_version
toy_version-VersionFits = record {
  services = omega arith;
  timestamp = omega arith;
  genesis_hash = genesis_hash-IsDisplayHash;
  best_height = omega arith;
  tip_hash = genesis_hash-IsDisplayHash;
  chainwork = genesis_txid-IsDisplayHash;
  nonce = omega arith;
  user_agent = omega arith;
}

deserialize_version-serialize_version_example :
    (bytes : List ℕ) × (serialize_version toy_version ≡ ok bytes)
    × (deserialize_version bytes ≡ ok toy_version)
deserialize_version-serialize_version_example =
    deserialize_version-serialize_version toy_version toy_version-VersionFits refl refl

abbrev toy_chain : List StoredBlock
toy_chain = toy_genesis ∷ toy_second ∷ []

toy_chain-HeaderFits : All HeaderFits toy_chain
toy_chain-HeaderFits = (genesis-BlockFits.header, (second_header-FitsHeader, tt))

serialize_getheaders-make_block_locator_example :
    (locator : List Text) × (bytes : List ℕ) × (make_block_locator toy toy_chain ≡ ok locator)
    × (length locator ≤ 74)
    × (serialize_getheaders locator testnet_genesis_txid ≡ ok bytes)
    × (deserialize_getheaders bytes
        ≡ ok (record { locator = locator; stop_hash = testnet_genesis_txid }))
    × (headers_after_locator toy toy_chain
          (record { locator = locator; stop_hash = testnet_genesis_txid })
        ≡ ok [])
serialize_getheaders-make_block_locator_example =
    serialize_getheaders-make_block_locator toy toy_genesis (toy_second ∷ []) toy_chain-HeaderFits
      (omega arith) testnet_genesis_txid genesis_txid-IsDisplayHash

-- A locator that names no block of the chain.
abbrev foreign_request : GetHeadersRequest
foreign_request = record { locator = testnet_genesis_txid ∷ []; stop_hash = no_stop_hash }

foreign_request-answered :
    headers_after_locator toy toy_chain foreign_request
    ≡ ok (record { height = 1; header = second_header } ∷ [])
unfolding headers_after_locator locate_fork_index find_below hash_at collect_headers hash_hex
    header_raw_hash serialize_header display_hex_to_wire_bytes display_hex_to_raw_digest
    hex_to_bytes hex_pairs hex_value append_u32_le append_i32_le text_eq hash_to_display_hex
    bytes_to_hex sha256d
foreign_request-answered = refl

headers_after_locator-answers_example :
    (fork : ℕ) × ((fork ≡ 0)
      ⊎ ((hash : Text) × (hash_at toy toy_chain fork ≡ ok hash)
          × Names foreign_request.locator hash))
    × (n : ℕ) × (n ≤ max_headers_per_response)
    × (record { height = 1; header = second_header } ∷ []
        ≡ map sent_header (take n (drop (fork + 1) toy_chain)))
headers_after_locator-answers_example =
    headers_after_locator-answers toy toy_chain foreign_request foreign_request-answered

pub second_header-work : check_header_work toy second_header ≡ ok tt
unfolding check_header_work check_proof_of_work header_raw_hash serialize_header
    display_hex_to_wire_bytes display_hex_to_raw_digest hex_to_bytes hex_pairs hex_value
    append_u32_le append_i32_le compact_to_target fold_digest sha256d
second_header-work = refl

deserialize_headers-serialize_headers_example :
    (bytes : List ℕ) × (serialize_headers (record { height = 1; header = second_header } ∷ [])
      ≡ ok bytes)
    × (deserialize_headers toy bytes ≡ ok (record { height = 1; header = second_header } ∷ []))
deserialize_headers-serialize_headers_example =
    deserialize_headers-serialize_headers toy (record { height = 1; header = second_header } ∷ [])
      (
        record {
          height = omega arith;
          header = second_header-FitsHeader;
          work = second_header-work;
        },
        tt,
      )
      (omega arith)

genesis-Sendable : Sendable toy_genesis
genesis-Sendable = record {
  fits = genesis-BlockFits;
  small = λ bytes e. genesis-Storable.small bytes e;
}

deserialize_stored_blocks-serialize_stored_blocks_example :
    (payload : List ℕ) × IsPayloadOf (sent_blocks toy_chain 0 1) payload
    × (((length payload ≤ max_p2p_payload)
          × (serialize_stored_blocks toy_chain 0 1 ≡ ok payload)
          × (deserialize_stored_blocks payload ≡ ok (sent_blocks toy_chain 0 1)))
        ⊎ ((max_p2p_payload < length payload)
            × (serialize_stored_blocks toy_chain 0 1 ≡ err payload_too_large)))
deserialize_stored_blocks-serialize_stored_blocks_example =
    deserialize_stored_blocks-serialize_stored_blocks toy_chain 0 1 (omega arith) (omega arith)
      (genesis-Sendable, tt)
