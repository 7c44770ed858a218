-- ===== src/Storage/Store/Commit.antt =====
-- src/storage.cpp: the writes of a `commit`, in their order, and what they leave on the disk.
use binarycoin.Base.{
  Bool, List, Result, Text, [], block_missing, codes, empty_active_chain, err, false, length, none,
  ok, some, true, ℕ, ◌%◌, ◌++◌, ◌+◌, ◌-◌, ◌>>=◌, ◌^◌, ◌∷◌,
}
use binarycoin.Block.{StoredBlock, hash_hex}
use binarycoin.Hash.Crypto.{Crypto}
use binarycoin.Storage.Disk.{
  Disk, Write, append_bytes, apply_writes, available_generations, bytes_of, cleanup_old_generations,
  index_name, manifest_name, marker_name, put_file, utxo_name,
}
use binarycoin.Storage.Records.{
  Catalog, block_record_header_size, catalog_emplace, catalog_find, make_record_bytes, scan_catalog,
}
use binarycoin.Storage.Store.{DurableChainStore, committed_manifest, last_block, sha256_hex}
use binarycoin.Storage.Texts.{
  IndexEntry, Manifest, make_index_text, make_manifest_text, make_utxo_text,
}
use binarycoin.Utxo.{UtxoSet}

-- Behind the newest generation whose files are there.
abbrev pub after_newest : List ℕ → ℕ
after_newest [] = 1
after_newest (newest ∷ rest) = (newest + 1) % 2 ^ 64

unfoldable pub next_generation : Disk → ℕ
next_generation disk = elim (committed_manifest disk) [
  | ok manifest ↦ (manifest.generation + 1) % 2 ^ 64
  | err e ↦ after_newest (available_generations disk.files)
]

abbrev pub marker_writes : Bool → List Write
marker_writes true = put_file marker_name (codes "migrated from chain-v3.tsv" ++ 10 ∷ []) ∷ []
marker_writes false = []

-- The writes of the second part. The manifest is the commit point.
abbrev pub manifest_writes : Bool → Text × Text × Manifest → Disk → List Write
manifest_writes migrated (index_text, utxo_text, manifest) disk =
    let published =
      put_file manifest.index_file index_text
      ∷ put_file manifest.utxo_file utxo_text
      ∷ put_file manifest_name (make_manifest_text manifest)
      ∷ marker_writes migrated in
    let disk' = apply_writes published disk in
    published ++ cleanup_old_generations manifest.generation (available_generations disk'.files)

module _ (c : Crypto) where
  -- The loop that appends the blocks that the catalog does not have, with the catalog behind it.
  unfoldable pub append_records : Catalog → ℕ → List StoredBlock → List Write × Result Catalog
  append_records catalog offset [] = ([], ok catalog)
  append_records catalog offset (block ∷ rest) = elim (hash_hex c block.block.header) [
    | err e ↦ ([], err e)
    | ok hash ↦ elim (catalog_find hash catalog) [
      | some known ↦ append_records catalog offset rest
      | none ↦ elim (make_record_bytes c block) [
        | err e ↦ ([], err e)
        | ok bytes ↦
            let entry : IndexEntry = record {
              height = block.height;
              offset = offset;
              payload_size = length bytes - block_record_header_size;
              hash = hash;
            } in
            let (writes, result) =
              append_records (catalog_emplace hash entry catalog) (offset + length bytes) rest in
            (append_bytes bytes ∷ writes, result)
      ]
    ]
  ]

  unfoldable pub index_entries : Catalog → List StoredBlock → Result (List IndexEntry)
  index_entries catalog [] = ok []
  index_entries catalog (block ∷ rest) = do
    hash ← hash_hex c block.block.header
    found ← elim (catalog_find hash catalog) [ none ↦ err block_missing | some e ↦ ok e ]
    entries ← index_entries catalog rest
    ok (record found { height = block.height } ∷ entries)

  -- `manifest_for_generation`: the texts of the two files, and the manifest that names them.
  unfoldable pub manifest_for_generation :
      ℕ → List StoredBlock → UtxoSet → Disk → Result (Text × Text × Manifest)
  manifest_for_generation generation blocks utxos disk = do
    entries ← index_entries (scan_catalog c disk.blocks_file) blocks
    last ← last_block empty_active_chain blocks
    hash ← hash_hex c last.block.header
    let index_text = make_index_text entries
    let utxo_text = make_utxo_text utxos last.height hash
    ok (
      index_text,
      utxo_text,
      record {
        generation = generation;
        height = last.height;
        bestblock = hash;
        index_file = index_name generation;
        index_sha256 = sha256_hex c index_text;
        utxo_file = utxo_name generation;
        utxo_sha256 = sha256_hex c utxo_text;
        block_file_size = length (bytes_of disk.blocks_file);
      },
    )

  -- The writes of the first part of `commit`: the block file is made, and grows.
  abbrev pub block_writes : List StoredBlock → Disk → List Write × Result Catalog
  block_writes blocks disk =
      append_records (scan_catalog c disk.blocks_file) (length (bytes_of disk.blocks_file)) blocks

  -- The rest of `commit`, on the disk behind the appended records.
  unfoldable pub publish :
      Bool
      → List StoredBlock
      → UtxoSet
      → Disk
      → List Write
      → Catalog
      → List Write × Result (Manifest × Catalog)
  publish migrated blocks utxos disk' appends catalog =
      elim (manifest_for_generation (next_generation disk') blocks utxos disk') [
        | err e ↦ (appends, err e)
        | ok texts ↦ (appends ++ manifest_writes migrated texts disk', ok (texts.2, catalog))
      ]

  unfoldable pub commit_behind :
      Bool
      → List StoredBlock
      → UtxoSet
      → Disk
      → List Write × Result Catalog
      → List Write × Result (Manifest × Catalog)
  commit_behind migrated blocks utxos disk (appends, err e) = (append_bytes [] ∷ appends, err e)
  commit_behind migrated blocks utxos disk (appends, ok catalog) =
      publish migrated blocks utxos (apply_writes (append_bytes [] ∷ appends) disk)
        (append_bytes [] ∷ appends) catalog

  -- The writes of `commit`, in their order, up to the throw where it throws, and what it notes in
  -- the end.
  unfoldable pub commit_writes :
      Bool → List StoredBlock → UtxoSet → Disk → List Write × Result (Manifest × Catalog)
  commit_writes migrated [] utxos disk = ([], err empty_active_chain)
  commit_writes migrated (first ∷ rest) utxos disk =
      commit_behind migrated (first ∷ rest) utxos disk (block_writes (first ∷ rest) disk)

  unfoldable pub commit :
      List StoredBlock → UtxoSet → DurableChainStore → Result (Unit {0}) × DurableChainStore
  commit blocks utxos store =
      let (writes, result) = commit_writes store.stats.migrated_legacy blocks utxos store.disk in
      let disk' = apply_writes writes store.disk in
      elim result [
        | err e ↦ (err e, record store { disk = disk' })
        | ok (manifest, catalog) ↦ (
          ok tt,
          record store {
            disk = disk';
            stats = record store.stats {
              generation = manifest.generation;
              active_height = manifest.height;
              block_file_bytes = manifest.block_file_size;
              block_records = length catalog;
            };
          },
        )
      ]
