-- ===== src/Net/Version.antt =====
-- src/net.cpp: the version message, the first that each side sends.
pub mod RoundTrip
use binarycoin.Base.{
  List, Result, Text, [], bad_protocol_version, length, ltb, not, ok, other_network, text_eq,
  throw_if, user_agent_too_large, ℕ, ℤ, ◌++◌, ◌-◌, ◌==◌, ◌>>=◌, ◌>>◌, ◌||◌,
}
use binarycoin.Block.{testnet_genesis_hash}
use binarycoin.Codec.{
  append_compact_size, append_i64_le, append_u32_le, append_u64_le, read_bytes, read_compact_size,
  read_i64_le, read_u32_le, read_u64_le,
}
use binarycoin.Hash.{display_hex_to_wire_bytes, wire_bytes_to_display_hex}
use binarycoin.Net.{at_end, p2p_protocol_version}
use binarycoin.Tx.Serialize.Layout.{wire_bytes}

pub record PeerVersion : Type 0 where
  pub protocol_version : ℕ
  pub services : ℕ
  pub timestamp : ℤ
  pub best_height : ℕ
  pub genesis_hash : Text
  pub tip_hash : Text
  pub chainwork : Text
  pub nonce : ℕ
  pub user_agent : Text

abbrev pub max_user_agent : ℕ
max_user_agent = 256

unfoldable pub serialize_version : PeerVersion → Result (List ℕ)
serialize_version version = do
  genesis ← display_hex_to_wire_bytes version.genesis_hash
  tip ← display_hex_to_wire_bytes version.tip_hash
  chainwork ← display_hex_to_wire_bytes version.chainwork
  ok (
      append_compact_size
        (append_u64_le
          (append_u64_le
              (append_i64_le
                (append_u64_le (append_u32_le [] version.protocol_version) version.services)
                version.timestamp)
              version.best_height
            ++ (genesis ++ (tip ++ chainwork)))
          version.nonce)
        (length version.user_agent)
      ++ version.user_agent)

-- `read_bytes` of 32 bytes, in the display form.
unfoldable pub read_display_hash : List ℕ → ℕ → Result (Text × ℕ)
read_display_hash payload offset = do
  (wire_bytes, offset1) ← read_bytes payload offset 32
  ok (wire_bytes_to_display_hex wire_bytes, offset1)

-- The fields, before the tests at the end.
unfoldable pub read_version : List ℕ → Result (PeerVersion × ℕ)
read_version payload = do
  (protocol_version, offset1) ← read_u32_le payload 0
  (services, offset2) ← read_u64_le payload offset1
  (timestamp, offset3) ← read_i64_le payload offset2
  (best_height, offset4) ← read_u64_le payload offset3
  (genesis_hash, offset5) ← read_display_hash payload offset4
  (tip_hash, offset6) ← read_display_hash payload offset5
  (chainwork, offset7) ← read_display_hash payload offset6
  (nonce, offset8) ← read_u64_le payload offset7
  (user_agent_size, offset9) ← read_compact_size payload offset8
  throw_if (ltb max_user_agent user_agent_size || ltb (length payload - offset9) user_agent_size)
      user_agent_too_large
  (user_agent, offset10) ← read_bytes payload offset9 user_agent_size
  ok (
    record {
      protocol_version = protocol_version;
      services = services;
      timestamp = timestamp;
      best_height = best_height;
      genesis_hash = genesis_hash;
      tip_hash = tip_hash;
      chainwork = chainwork;
      nonce = nonce;
      user_agent = user_agent;
    },
    offset10,
  )

unfoldable pub deserialize_version : List ℕ → Result PeerVersion
deserialize_version payload = do
  (version, offset) ← read_version payload
  at_end offset payload
  throw_if (not (version.protocol_version == p2p_protocol_version)) bad_protocol_version
  throw_if (not (text_eq version.genesis_hash testnet_genesis_hash)) other_network
  ok version
