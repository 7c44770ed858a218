-- ===== src/Storage/Records/Frames.antt =====
-- src/storage.cpp: a record that stands in the block file is read back as the block.
use binarycoin.Base.{
  ==_iff, >>-eq-ok, >>=-eq-ok, List, [], ap, append-nil, append_assoc, arith, drop-append, length,
  length-append, ltb, ltb-false, not_ltb→le, ok, ok-injective, payload_over_limit, refl, some, sym,
  take, take-append, text_eq, text_eq_refl, ℕ, ◌++◌, ◌+◌, ◌-◌, ◌∙◌, ◌∷◌, ◌≡◌, ◌≤◌,
}
use binarycoin.Block.{StoredBlock}
use binarycoin.Codec.{append_u32_le, append_u64_le, read_bytes}
use binarycoin.Codec.Read.{Ahead, Ahead-next, Ahead-start}
use binarycoin.Codec.Reads.{Reads, bytes_Reads, u32_Reads, u64_Reads}
use binarycoin.Codec.Write.{append_u32_le_lem, append_u64_le_lem, u32_bytes, u64_bytes}
use binarycoin.Hash.Crypto.{Crypto, sha256d, sha256d_size}
use binarycoin.Storage.Records.{
  block_record_header_size, block_record_magic, block_record_version, make_record_bytes, pread_all,
  read_record_at, read_record_header, record_ahead, size_differs,
}
use binarycoin.Storage.Store.{back}
use binarycoin.Storage.Texts.{max_block_record_size}
use binarycoin.StoredBlocks.{deserialize_stored_block, serialize_stored_block}

-- The 48 bytes in front of a payload.
pub frame_header : ℕ → List ℕ → List ℕ
frame_header size checksum =
    block_record_magic ++ (u32_bytes block_record_version ++ (u64_bytes size ++ checksum))

length-frame_header :
    (size : ℕ) (checksum : List ℕ) → length checksum ≡ 32 → length (frame_header size checksum) ≡ 48
unfolding frame_header
length-frame_header size checksum h = omega (arith, h)

read_bytes_32 :
    (input bs : List ℕ) (o : ℕ)
    → length bs ≡ 32
    → Ahead input o (bs ++ [])
    → Reads (read_bytes input o 32) input [] bs
read_bytes_32 input bs o h a = let reads = bytes_Reads input [] o bs a in rw h at reads

read_record_header-frame_header :
    (size : ℕ) (checksum : List ℕ)
    → size ≤ max_block_record_size
    → length checksum ≡ 32
    → read_record_header (frame_header size checksum) ≡ ok (size, checksum)
unfolding read_record_header frame_header text_eq
read_record_header-frame_header size checksum small h =
    let input = frame_header size checksum in
    let a = Ahead-next input block_record_magic _ 0 (Ahead-start input) in
    let (o1, e1, a1) = u32_Reads input _ 4 block_record_version (omega arith) a in
    let (o2, e2, a2) = u64_Reads input checksum o1 size (omega (arith, small)) a1 in
    let (o3, e3, a3) = read_bytes_32 input checksum o2 h (rw (append-nil checksum) a2) in
    rw (e1, e2, ltb-false max_block_record_size size small, e3) refl

take_all : (bs : List ℕ) → take (length bs) bs ≡ bs
take_all [] = refl
take_all (b ∷ bs) = ap (◌∷◌ b) (take_all bs)

-- Bytes that stand in a file are read from where they start.
pread_all-middle :
    (before bs after : List ℕ) (count : ℕ)
    → length bs ≡ count
    → pread_all (before ++ (bs ++ after)) (length before) count ≡ ok bs
unfolding pread_all
pread_all-middle before bs after count e =
    rw
      (
        ← e,
        drop-append before (bs ++ after),
        ltb-false (length (bs ++ after)) (length bs) (omega (arith, length-append bs after)),
        take-append bs after,
      )
      refl

module _ (c : Crypto) where
  -- The record that `make_record_bytes` returns: its header and the payload.
  pub record Framed (block : StoredBlock) (bytes : List ℕ) : Type 0 where
    pub payload : List ℕ
    pub written : serialize_stored_block block ≡ ok payload
    pub small : length payload ≤ max_block_record_size
    pub layout : bytes ≡ frame_header (length payload) (sha256d c payload) ++ payload
    pub size : length bytes ≡ block_record_header_size + length payload

  pub make_record_bytes-Framed :
      (block : StoredBlock) {bytes : List ℕ}
      → make_record_bytes c block ≡ ok bytes
      → Framed block bytes
  unfolding make_record_bytes frame_header
  make_record_bytes-Framed block h =
      let (payload, e, h1) = >>=-eq-ok (serialize_stored_block block) _ h in
      let (fits, h2) =
        >>-eq-ok (ltb max_block_record_size (length payload)) payload_over_limit _ h1 in
      let shape : _ ≡ frame_header (length payload) (sha256d c payload) ++ payload =
        sym (ok-injective h2) ∙ simp (append_u64_le_lem, append_u32_le_lem, append_assoc) in
      record {
        payload = payload;
        written = e;
        small = not_ltb→le _ _ fits;
        layout = shape;
        size = omega (
          arith,
          ap length shape,
          length-append (frame_header (length payload) (sha256d c payload)) payload,
          length-frame_header (length payload) (sha256d c payload) (sha256d_size c payload),
        );
      }

  pub make_record_bytes-ok :
      (block : StoredBlock) {payload : List ℕ}
      → serialize_stored_block block ≡ ok payload
      → length payload ≤ max_block_record_size
      → (bytes : List ℕ) × (make_record_bytes c block ≡ ok bytes)
  unfolding make_record_bytes
  make_record_bytes-ok block {payload} e small = (
    append_u64_le (append_u32_le block_record_magic block_record_version) (length payload)
        ++ (sha256d c payload ++ payload),
    rw (e, ltb-false max_block_record_size (length payload) small) refl,
  )

  module _ (block : StoredBlock) (bytes before after : List ℕ) (f : Framed block bytes) where
    frame : List ℕ
    frame = frame_header (length f.payload) (sha256d c f.payload)

    length-frame : length frame ≡ block_record_header_size
    unfolding frame
    length-frame =
        length-frame_header (length f.payload) (sha256d c f.payload) (sha256d_size c f.payload)

    file-layout : before ++ (bytes ++ after) ≡ before ++ (frame ++ (f.payload ++ after))
    unfolding frame
    file-layout =
        ap (λ (t : List ℕ). before ++ t)
          (ap (λ (t : List ℕ). t ++ after) f.layout ∙ append_assoc frame f.payload after)

    header-read :
        pread_all (before ++ (bytes ++ after)) (length before) block_record_header_size ≡ ok frame
    header-read =
        ap (λ (t : List ℕ). pread_all t (length before) block_record_header_size) file-layout
        ∙ pread_all-middle before frame (f.payload ++ after) block_record_header_size length-frame

    payload-read :
        pread_all
          (before ++ (bytes ++ after))
          (length before + block_record_header_size)
          (length f.payload)
        ≡ ok f.payload
    payload-read =
        let e1 : length (before ++ frame) ≡ length before + block_record_header_size =
          omega (arith, length-append before frame, length-frame) in
        let e2 = file-layout ∙ sym (append_assoc before frame (f.payload ++ after)) in
        rw (e2, ← e1) (pread_all-middle (before ++ frame) f.payload after (length f.payload) refl)

    frame-parsed : read_record_header frame ≡ ok (length f.payload, sha256d c f.payload)
    unfolding frame
    frame-parsed =
        read_record_header-frame_header (length f.payload) (sha256d c f.payload) f.small
          (sha256d_size c f.payload)

    -- A scan that comes to the record sees its size.
    pub record_ahead-Framed :
        record_ahead (before ++ (bytes ++ after)) (length before) ≡ some (length f.payload)
    unfolding record_ahead
    record_ahead-Framed =
        rw (header-read, frame-parsed, record_ahead) (rw (ltb-false _ _ inside) refl)
      where
        inside :
            block_record_header_size + length f.payload
            ≤ length (before ++ (bytes ++ after)) - length before
        inside =
            omega (arith, length-append before (bytes ++ after), length-append bytes after, f.size)

    -- The record is read back as the block.
    pub read_record_at-Framed :
        deserialize_stored_block f.payload ≡ ok block
        → read_record_at c (before ++ (bytes ++ after)) (length before) (some (length f.payload))
          ≡ ok block
    unfolding read_record_at size_differs
    read_record_at-Framed back =
        rw
          (
            header-read,
            frame-parsed,
            (==_iff (length f.payload) (length f.payload)).1 refl,
            payload-read,
            text_eq_refl (sha256d c f.payload),
          )
          back
