-- ===== src/Storage/Records.antt =====
-- src/storage.cpp: the records of the block file, and what is found by scanning it. The file is the
-- list of its bytes.
pub mod Extended
pub mod Growth
pub mod Rounds
pub mod Frames
pub mod Scan
pub mod Catalogs
use binarycoin.Base.{
  Bool, List, Option, Result, Text, [], bad_record_magic, bad_record_version, drop, err, false,
  if◌then◌else◌, length, ltb, none, not, ok, payload_over_limit, payload_size_mismatch,
  record_checksum, some, suc, take, text_eq, text_less, throw_if, truncated_record, wrong_record,
  zero, ℕ, ◌++◌, ◌+◌, ◌-◌, ◌==◌, ◌>>=◌, ◌>>◌, ◌||◌, ◌∷◌,
}
use binarycoin.Block.{StoredBlock, hash_hex}
use binarycoin.Codec.{append_u32_le, append_u64_le, read_bytes, read_u32_le, read_u64_le}
use binarycoin.Hash.Crypto.{Crypto, sha256d}
use binarycoin.Storage.Texts.{IndexEntry, max_block_record_size}
use binarycoin.StoredBlocks.{deserialize_stored_block, serialize_stored_block}

-- 'B', 'C', 'R', '9'
abbrev pub block_record_magic : List ℕ
block_record_magic = 66 ∷ 67 ∷ 82 ∷ 57 ∷ []

abbrev pub block_record_version : ℕ
block_record_version = 1

abbrev pub block_record_header_size : ℕ
block_record_header_size = 48

-- The first bytes of a file from an offset on, as many as `count`, or the end of the file.
unfoldable pub pread_all : List ℕ → ℕ → ℕ → Result (List ℕ)
pread_all file offset count =
    throw_if (ltb (length (drop offset file)) count) truncated_record
    >> ok (take count (drop offset file))

-- The header of a record: the payload's size and its checksum.
unfoldable pub read_record_header : List ℕ → Result (ℕ × List ℕ)
read_record_header bytes = do
  throw_if (not (text_eq (take 4 bytes) block_record_magic)) bad_record_magic
  (version, offset1) ← read_u32_le bytes 4
  throw_if (not (version == block_record_version)) bad_record_version
  (payload_size, offset2) ← read_u64_le bytes offset1
  throw_if (ltb max_block_record_size payload_size) payload_over_limit
  (checksum, offset3) ← read_bytes bytes offset2 32
  ok (payload_size, checksum)

-- The entries in the order of their hashes, as `std::map` keeps them.
abbrev pub Catalog : Type 0
Catalog = List (Text × IndexEntry)

unfoldable pub catalog_find : Text → Catalog → Option IndexEntry
catalog_find hash [] = none
catalog_find hash ((key, entry) ∷ rest) =
    if text_eq key hash then some entry else catalog_find hash rest

-- `emplace` of a key that is there changes nothing.
unfoldable pub catalog_emplace : Text → IndexEntry → Catalog → Catalog
catalog_emplace hash entry [] = (hash, entry) ∷ []
catalog_emplace hash entry ((key, old) ∷ rest) =
    if text_less hash key
    then (hash, entry) ∷ (key, old) ∷ rest
    else if text_eq key hash
    then (key, old) ∷ rest
    else (key, old) ∷ catalog_emplace hash entry rest

-- Whether the size in the header is not the expected one, where one is expected.
unfoldable pub size_differs : Option ℕ → ℕ → Bool
size_differs none payload_size = false
size_differs (some expected) payload_size = not (payload_size == expected)

-- Whether the block is not the one of the index entry.
unfoldable pub is_other_block : IndexEntry → StoredBlock → Text → Bool
is_other_block entry block hash =
    not (block.height == entry.height) || not (text_eq hash entry.hash)

-- The payload's size of the record at the offset, where its header is whole and the payload ends
-- in the file. The checksum is read later.
unfoldable pub record_ahead : List ℕ → ℕ → Option ℕ
record_ahead file offset =
    elim (pread_all file offset block_record_header_size >>= read_record_header) [
      | err e ↦ none
      | ok (payload_size, checksum) ↦
          if ltb (length file - offset) (block_record_header_size + payload_size)
          then none
          else some payload_size
    ]

module _ (c : Crypto) where
  unfoldable pub make_record_bytes : StoredBlock → Result (List ℕ)
  make_record_bytes block = do
    payload ← serialize_stored_block block
    throw_if (ltb max_block_record_size (length payload)) payload_over_limit
    ok (
        append_u64_le (append_u32_le block_record_magic block_record_version) (length payload)
        ++ (sha256d c payload ++ payload))

  unfoldable pub read_record_at : List ℕ → ℕ → Option ℕ → Result StoredBlock
  read_record_at file offset expected_payload_size = do
    bytes ← pread_all file offset block_record_header_size
    (payload_size, checksum) ← read_record_header bytes
    throw_if (size_differs expected_payload_size payload_size) payload_size_mismatch
    payload ← pread_all file (offset + block_record_header_size) payload_size
    throw_if (not (text_eq (sha256d c payload) checksum)) record_checksum
    deserialize_stored_block payload

  -- The loop of `load_indexed_chain`.
  unfoldable pub load_indexed_chain : List ℕ → List IndexEntry → Result (List StoredBlock)
  load_indexed_chain file [] = ok []
  load_indexed_chain file (entry ∷ rest) = do
    block ← read_record_at file entry.offset (some entry.payload_size)
    hash ← hash_hex c block.block.header
    throw_if (is_other_block entry block hash) wrong_record
    blocks ← load_indexed_chain file rest
    ok (block ∷ blocks)

  -- The catalog with the record at the offset, where it can be read; a record that cannot is
  -- skipped.
  unfoldable pub catalog_record : List ℕ → ℕ → ℕ → Catalog → Catalog
  catalog_record file offset payload_size catalog =
      elim (read_record_at file offset (some payload_size)) [
        | err e ↦ catalog
        | ok block ↦ elim (hash_hex c block.block.header) [
          | err e ↦ catalog
          | ok hash ↦
              catalog_emplace hash
                (record {
                  height = block.height;
                  offset = offset;
                  payload_size = payload_size;
                  hash = hash;
                })
                catalog
        ]
      ]

  -- `while (offset < file_size)`, with fuel. Each round goes 48 bytes on at least.
  unfoldable pub scan_loop : ℕ → List ℕ → ℕ → Catalog → Catalog
  scan_loop zero file offset catalog = catalog
  scan_loop (suc fuel) file offset catalog = elim (record_ahead file offset) [
    | none ↦ catalog
    | some payload_size ↦
        scan_loop fuel file (offset + (block_record_header_size + payload_size))
          (catalog_record file offset payload_size catalog)
  ]

  -- The catalog of a file; of one that does not exist it is empty.
  unfoldable pub scan_catalog : Option (List ℕ) → Catalog
  scan_catalog none = []
  scan_catalog (some file) = scan_loop (length file) file 0 []

  unfoldable pub read_all : List ℕ → Catalog → Result (List StoredBlock)
  read_all file [] = ok []
  read_all file ((hash, entry) ∷ rest) = do
    block ← read_record_at file entry.offset (some entry.payload_size)
    blocks ← read_all file rest
    ok (block ∷ blocks)

  -- The blocks of the catalog, in the order of their hashes.
  unfoldable pub scan_all_blocks : Option (List ℕ) → Result (List StoredBlock)
  scan_all_blocks none = ok []
  scan_all_blocks (some file) = read_all file (scan_catalog (some file))
