-- ===== src/Net/Version/RoundTrip.antt =====
-- src/net.cpp: a version message that is written and read back.
use binarycoin.Base.{
  ==_iff, Bool, List, Text, [], ap, append-nil, append_assoc, arith, bind_ok, false, length, ltb,
  ok, refl, text_eq_refl, throw_if, user_agent_too_large, ℕ, ◌++◌, ◌<◌, ◌^◌, ◌||◌, ◌≡◌, ◌≤◌,
}
use binarycoin.Block.{testnet_genesis_hash}
use binarycoin.Codec.{to_unsigned}
use binarycoin.Codec.Read.{Ahead, Ahead-start, FitsSigned}
use binarycoin.Codec.Reads.{
  Ahead-end, Ahead-remaining, Reads, bytes_Reads, compact_size_Reads, i64_Reads, u32_Reads,
  u64_Reads,
}
use binarycoin.Codec.Write.{
  append_compact_size_lem, append_i64_le_lem, append_u32_le_lem, append_u64_le_lem, compact_bytes,
  u32_bytes, u64_bytes,
}
use binarycoin.Hash.{display_hex_to_wire_bytes, wire_bytes_to_display_hex}
use binarycoin.Hash.RoundTrip.{IsDisplayHash, display_hex-round_trip}
use binarycoin.Net.{p2p_protocol_version}
use binarycoin.Net.Version.{
  PeerVersion, deserialize_version, max_user_agent, read_display_hash, read_version,
  serialize_version,
}

-- 32 bytes ahead are read as the hash that they are written for.
pub hash_Reads :
    (input rest : List ℕ) (o : ℕ) (text : Text) (bs : List ℕ)
    → length bs ≡ 32
    → wire_bytes_to_display_hex bs ≡ text
    → Ahead input o (bs ++ rest)
    → Reads (read_display_hash input o) input rest text
unfolding read_display_hash
hash_Reads input rest o text bs size same a =
    let (o1, e, a1) = bytes_Reads input rest o bs a in (o1, rw (← size, e, same) refl, a1)

-- What the types of the source and the form of its hashes say of a version.
pub record VersionFits (version : PeerVersion) : Type 0 where
  pub services : version.services < 2 ^ 64
  pub timestamp : FitsSigned 64 version.timestamp
  pub genesis_hash : IsDisplayHash version.genesis_hash
  pub best_height : version.best_height < 2 ^ 64
  pub tip_hash : IsDisplayHash version.tip_hash
  pub chainwork : IsDisplayHash version.chainwork
  pub nonce : version.nonce < 2 ^ 64
  pub user_agent : length version.user_agent ≤ max_user_agent

user_agent_fits :
    (size left : ℕ)
    → size ≤ max_user_agent
    → size ≤ left
    → (ltb max_user_agent size || ltb left size) ≡ false
user_agent_fits size left h k = ground arith

-- The fields of a version, whose hashes are written as `genesis`, `tip` and `work`.
abbrev version_bytes : PeerVersion → List ℕ → List ℕ → List ℕ → List ℕ
version_bytes version genesis tip work =
    u32_bytes version.protocol_version
    ++ (u64_bytes version.services
        ++ (u64_bytes (to_unsigned 64 version.timestamp)
            ++ (u64_bytes version.best_height
                ++ (genesis
                    ++ (tip
                        ++ (work
                            ++ (u64_bytes version.nonce
                                ++ (compact_bytes (length version.user_agent)
                                    ++ (version.user_agent ++ [])))))))))

module _ (version : PeerVersion) (h : VersionFits version)
    (protocol : version.protocol_version ≡ p2p_protocol_version) (genesis tip work : List ℕ) where
  read_version_lem :
      (input : List ℕ)
      → length genesis ≡ 32
      → wire_bytes_to_display_hex genesis ≡ version.genesis_hash
      → length tip ≡ 32
      → wire_bytes_to_display_hex tip ≡ version.tip_hash
      → length work ≡ 32
      → wire_bytes_to_display_hex work ≡ version.chainwork
      → Ahead input 0 (version_bytes version genesis tip work)
      → Reads (read_version input) input [] version
  unfolding read_version
  read_version_lem input size0 same0 size1 same1 size2 same2 a =
      let agent = version.user_agent in
      let (o1, e1, a1) = u32_Reads input _ 0 version.protocol_version (omega (arith, protocol)) a in
      let (o2, e2, a2) = u64_Reads input _ o1 version.services h.services a1 in
      let (o3, e3, a3) = i64_Reads input _ o2 version.timestamp h.timestamp a2 in
      let (o4, e4, a4) = u64_Reads input _ o3 version.best_height h.best_height a3 in
      let (o5, e5, a5) = hash_Reads input _ o4 version.genesis_hash genesis size0 same0 a4 in
      let (o6, e6, a6) = hash_Reads input _ o5 version.tip_hash tip size1 same1 a5 in
      let (o7, e7, a7) = hash_Reads input _ o6 version.chainwork work size2 same2 a6 in
      let (o8, e8, a8) = u64_Reads input _ o7 version.nonce h.nonce a7 in
      let (o9, e9, a9) =
        compact_size_Reads input _ o8 (length agent) (omega (arith, h.user_agent)) a8 in
      let fits =
        user_agent_fits (length agent) _ h.user_agent (Ahead-remaining input agent [] o9 a9) in
      let (o10, e10, a10) = bytes_Reads input [] o9 agent a9 in
      (
        o10,
        bind_ok _ _ e1 (
            bind_ok _ _ e2 (
              bind_ok _ _ e3 (
                bind_ok _ _ e4 (
                  bind_ok _ _ e5 (
                    bind_ok _ _ e6 (
                      bind_ok _ _ e7 (
                        bind_ok _ _ e8 (
                          bind_ok _ _ e9 (
                            bind_ok _ _ (ap (λ (b : Bool). throw_if b user_agent_too_large) fits)
                              (bind_ok _ _ e10 refl)))))))))),
        a10,
      )

  serialize_version_lem :
      display_hex_to_wire_bytes version.genesis_hash ≡ ok genesis
      → display_hex_to_wire_bytes version.tip_hash ≡ ok tip
      → display_hex_to_wire_bytes version.chainwork ≡ ok work
      → serialize_version version ≡ ok (version_bytes version genesis tip work)
  unfolding serialize_version
  serialize_version_lem e0 e1 e2 =
      rw (e0, e1, e2)
        (ap ok (
          simp (
            append_compact_size_lem, append_u64_le_lem, append_i64_le_lem, append_u32_le_lem,
            append_assoc, append-nil,
          )))

-- A version whose fields fit their types, with the protocol version and the genesis hash of the
-- network and a user agent of at most 256 bytes, is serialized, and read back unchanged.
pub deserialize_version-serialize_version :
    (version : PeerVersion)
    → VersionFits version
    → version.protocol_version ≡ p2p_protocol_version
    → version.genesis_hash ≡ testnet_genesis_hash
    → (bytes : List ℕ) × (serialize_version version ≡ ok bytes)
      × (deserialize_version bytes ≡ ok version)
unfolding deserialize_version
deserialize_version-serialize_version version h protocol network =
    let (genesis, e0, same0, size0, _) =
      display_hex-round_trip version.genesis_hash h.genesis_hash in
    let (tip, e1, same1, size1, _) = display_hex-round_trip version.tip_hash h.tip_hash in
    let (work, e2, same2, size2, _) = display_hex-round_trip version.chainwork h.chainwork in
    let bytes = version_bytes version genesis tip work in
    let (o, read, a) =
      read_version_lem version h protocol genesis tip work bytes size0 same0 size1 same1 size2 same2
        (Ahead-start bytes) in
    (
      bytes,
      serialize_version_lem version h protocol genesis tip work e0 e1 e2,
      rw
          (
            read,
            (==_iff o (length bytes)).1 (Ahead-end bytes o a),
            protocol,
            network,
            text_eq_refl testnet_genesis_hash,
          )
          refl,
    )
