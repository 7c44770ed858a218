-- ===== src/Block/Header.antt =====
-- src/block.cpp: the wire format of a header.
use binarycoin.Base.{
  length, length-append, ok, ℕ, ◌^◌, ◌<◌, ◌≡◌, refl, ◌∙◌, List, [], ◌++◌, append_assoc, arith,
}
use binarycoin.Hash.RoundTrip.{IsDisplayHash, display_hex-round_trip}
use binarycoin.Codec.Read.{Ahead, Ahead-start, FitsSigned}
use binarycoin.Block.{BlockHeader, serialize_header, deserialize_header}
use binarycoin.Hash.{wire_bytes_to_display_hex}
use binarycoin.Codec.{to_unsigned, append_u32_le, append_i32_le, read_bytes}
use binarycoin.Codec.Write.{u32_bytes, append_u32_le_lem, append_i32_le_lem}
use binarycoin.Codec.Reads.{Reads, u32_Reads, i32_Reads, bytes_Reads, Ahead-end}

-- A header that the wire format can hold.
pub record FitsHeader (header : BlockHeader) : Type 0 where
  pub version_fits : FitsSigned 32 header.version
  pub previous_hash_fits : IsDisplayHash header.previous_hash
  pub merkle_root_fits : IsDisplayHash header.merkle_root
  pub time_fits : header.time < 2 ^ 32
  pub bits_fits : header.bits < 2 ^ 32
  pub nonce_fits : header.nonce < 2 ^ 32

-- The wire format: the version, the two hashes and three numbers.
header_bytes : List ℕ → List ℕ → BlockHeader → List ℕ
header_bytes previous root header =
    u32_bytes (to_unsigned 32 header.version)
    ++ (previous
        ++ (root
            ++ (u32_bytes header.time
                ++ (u32_bytes header.bits ++ (u32_bytes header.nonce ++ [])))))

header_bytes-written :
    (previous root : List ℕ) (header : BlockHeader)
    → append_u32_le
        (append_u32_le
          (append_u32_le ((append_i32_le [] header.version ++ previous) ++ root) header.time)
          header.bits)
        header.nonce
      ≡ header_bytes previous root header
unfolding header_bytes
header_bytes-written previous root header =
    simp (append_u32_le_lem, append_i32_le_lem, append_assoc)

header_bytes-size :
    (previous root : List ℕ) (header : BlockHeader)
    → length previous ≡ 32
    → length root ≡ 32
    → length (header_bytes previous root header) ≡ 80
unfolding header_bytes
header_bytes-size previous root header p r =
    let rest = u32_bytes header.time ++ (u32_bytes header.bits ++ (u32_bytes header.nonce ++ [])) in
    omega (arith, p, r, length-append previous (root ++ rest), length-append root rest)

read_bytes_32 :
    (input bs rest : List ℕ) (o : ℕ)
    → length bs ≡ 32
    → Ahead input o (bs ++ rest)
    → Reads (read_bytes input o 32) input rest bs
read_bytes_32 input bs rest o h a = let reads = bytes_Reads input rest o bs a in rw h at reads

header_bytes-read :
    (previous root : List ℕ) (header : BlockHeader)
    → FitsHeader header
    → length previous ≡ 32
    → length root ≡ 32
    → deserialize_header (header_bytes previous root header)
      ≡ ok (record header {
        previous_hash = wire_bytes_to_display_hex previous;
        merkle_root = wire_bytes_to_display_hex root;
      })
unfolding deserialize_header header_bytes
header_bytes-read previous root header h p r =
    let input = header_bytes previous root header in
    let size = header_bytes-size previous root header p r in
    let (o1, e1, a1) = i32_Reads input _ 0 header.version h.version_fits (Ahead-start input) in
    let (o2, e2, a2) = read_bytes_32 input previous _ o1 p a1 in
    let (o3, e3, a3) = read_bytes_32 input root _ o2 r a2 in
    let (o4, e4, a4) = u32_Reads input _ o3 header.time h.time_fits a3 in
    let (o5, e5, a5) = u32_Reads input _ o4 header.bits h.bits_fits a4 in
    let (o6, e6, a6) = u32_Reads input _ o5 header.nonce h.nonce_fits a5 in
    let end : o6 ≡ 80 = Ahead-end input o6 a6 ∙ size in rw (size, e1, e2, e3, e4, e5, e6, end) refl

-- A header that fits its wire format is serialized to 80 bytes, from which it is read back
-- unchanged.
pub deserialize_header-serialize_header :
    (header : BlockHeader)
    → FitsHeader header
    → (bytes : List ℕ) × (serialize_header header ≡ ok bytes)
      × (length bytes ≡ 80)
      × (deserialize_header bytes ≡ ok header)
unfolding serialize_header
deserialize_header-serialize_header header h =
    let (previous, p_read, p_back, p_size, p_bytes) =
      display_hex-round_trip header.previous_hash h.previous_hash_fits in
    let (root, m_read, m_back, m_size, m_bytes) =
      display_hex-round_trip header.merkle_root h.merkle_root_fits in
    let size = header_bytes-size previous root header p_size m_size in
    (
      header_bytes previous root header,
      rw (p_read, m_read, header_bytes-written previous root header, size) refl,
      size,
      header_bytes-read previous root header h p_size m_size ∙ rw (p_back, m_back) refl,
    )
