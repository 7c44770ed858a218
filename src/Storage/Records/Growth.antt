-- ===== src/Storage/Records/Growth.antt =====
-- src/storage.cpp: what is read from the block file is read from it when it has grown.
use binarycoin.Base.{
  >>-eq-ok, >>=-eq-ok, List, Option, [], ap, arith, drop, length, length-append, length-drop, ltb,
  ltb-false, not_ltb→le, ok, ok-injective, payload_size_mismatch, refl, some, suc, sym, take,
  truncated_record, wrong_record, zero, ℕ, ◌++◌, ◌+◌, ◌-◌, ◌∷◌, ◌≡◌, ◌≤◌,
}
use binarycoin.Block.{StoredBlock, hash_hex}
use binarycoin.Hash.Crypto.{Crypto}
use binarycoin.Storage.Records.{
  block_record_header_size, is_other_block, load_indexed_chain, pread_all, read_record_at,
  read_record_header, size_differs,
}
use binarycoin.Storage.Texts.{IndexEntry}

drop_before :
    (offset : ℕ) (file extra : List ℕ)
    → offset ≤ length file
    → drop offset (file ++ extra) ≡ drop offset file ++ extra
drop_before zero file extra h = refl
drop_before (suc offset) [] extra h = absurd (omega (arith, h))
drop_before (suc offset) (b ∷ file) extra h = drop_before offset file extra (omega (arith, h))

take_before :
    (count : ℕ) (bs extra : List ℕ) → count ≤ length bs → take count (bs ++ extra) ≡ take count bs
take_before zero bs extra h = refl
take_before (suc count) [] extra h = absurd (omega (arith, h))
take_before (suc count) (b ∷ bs) extra h =
    ap (◌∷◌ b) (take_before count bs extra (omega (arith, h)))

-- Bytes that are there are read from the longer file too.
pub pread_all-append :
    (file extra : List ℕ) (offset count : ℕ)
    → offset + count ≤ length file
    → pread_all (file ++ extra) offset count ≡ pread_all file offset count
unfolding pread_all
pread_all-append file extra offset count h =
    let rest = length-drop offset file in
    let longer = length-append (drop offset file) extra in
    rw
      (
        drop_before offset file extra (omega (arith, h)),
        ltb-false (length (drop offset file ++ extra)) count (omega (arith, h, rest, longer)),
        ltb-false (length (drop offset file)) count (omega (arith, h, rest)),
        take_before count (drop offset file) extra (omega (arith, h, rest)),
      )
      refl

-- What is read stands in the file, or nothing is asked for.
pub pread_all-ok :
    (file : List ℕ) (offset count : ℕ) {bytes : List ℕ}
    → pread_all file offset count ≡ ok bytes
    → (count ≤ length file - offset) × (bytes ≡ take count (drop offset file))
unfolding pread_all
pread_all-ok file offset count h =
    let (fits, e) =
      >>-eq-ok (ltb (length (drop offset file)) count) truncated_record
        (ok (take count (drop offset file))) h in
    (omega (arith, not_ltb→le _ _ fits, length-drop offset file), sym (ok-injective e))

module _ (c : Crypto) (file extra : List ℕ) where
  -- A block that is read from a file is read from the file with more bytes behind it.
  pub read_record_at-append :
      (offset : ℕ) (expected : Option ℕ) {block : StoredBlock}
      → read_record_at c file offset expected ≡ ok block
      → read_record_at c (file ++ extra) offset expected ≡ ok block
  unfolding read_record_at
  read_record_at-append offset expected h =
      let (bytes, e1, h1) = >>=-eq-ok (pread_all file offset block_record_header_size) _ h in
      let ((payload_size, checksum), e2, h2) = >>=-eq-ok (read_record_header bytes) _ h1 in
      let (matches, h3) =
        >>-eq-ok (size_differs expected payload_size) payload_size_mismatch _ h2 in
      let (payload, e3, h4) =
        >>=-eq-ok (pread_all file (offset + block_record_header_size) payload_size) _ h3 in
      let (whole, _) = pread_all-ok file offset block_record_header_size e1 in
      let (inside, _) = pread_all-ok file (offset + block_record_header_size) payload_size e3 in
      rw
        (
          pread_all-append file extra offset block_record_header_size (omega (arith, whole)),
          e1,
          e2,
          matches,
          pread_all-append file extra (offset + block_record_header_size) payload_size
              (omega (arith, whole, inside)),
          e3,
        )
        h4

  pub load_indexed_chain-append :
      (entries : List IndexEntry) {blocks : List StoredBlock}
      → load_indexed_chain c file entries ≡ ok blocks
      → load_indexed_chain c (file ++ extra) entries ≡ ok blocks
  unfolding load_indexed_chain
  load_indexed_chain-append [] h = h
  load_indexed_chain-append (entry ∷ entries) h =
      let (block, e1, h1) =
        >>=-eq-ok (read_record_at c file entry.offset (some entry.payload_size)) _ h in
      let (hash, e2, h2) = >>=-eq-ok (hash_hex c block.block.header) _ h1 in
      let (right, h3) = >>-eq-ok (is_other_block entry block hash) wrong_record _ h2 in
      let (blocks, e3, h4) = >>=-eq-ok (load_indexed_chain c file entries) _ h3 in
      rw
        (
          read_record_at-append entry.offset (some entry.payload_size) e1,
          e2,
          right,
          load_indexed_chain-append entries e3,
        )
        h4
