-- ===== src/Storage/Store.antt =====
-- src/storage.cpp: the durable store of the chain, `DurableChainStore`. A call of `commit` gives the
-- writes that it makes, in their order, so that it can be followed up to any of them.
pub mod Manifested
pub mod Indexing
pub mod Commit
pub mod Interrupted
pub mod Cleanup
pub mod Appending
pub mod Publishing
pub mod Committing
pub mod Atomic
pub mod Again
use binarycoin.Base.{
  Bool, Error, List, Option, Result, Text, [], err, false, file_missing, index_checksum,
  index_without_genesis, length, manifest_tip_mismatch, no_valid_generation, none, not, ok,
  snapshot_checksum, some, text_eq, throw_if, true, ℕ, ◌&&◌, ◌==◌, ◌>>=◌, ◌>>◌, ◌||◌, ◌∷◌,
}
use binarycoin.Block.{StoredBlock, hash_hex}
use binarycoin.Hash.{bytes_to_hex}
use binarycoin.Hash.Crypto.{Crypto, sha256}
use binarycoin.Storage.Disk.{
  Disk, available_generations, bytes_of, file_find, has_file, index_name, manifest_name,
  marker_name,
}
use binarycoin.Storage.Records.{load_indexed_chain, scan_catalog}
use binarycoin.Storage.Texts.{Manifest, parse_index_text, parse_manifest_text, parse_utxo_text}
use binarycoin.Tx.{is_empty}
use binarycoin.Utxo.{UtxoSet}

pub record ChainStorageStats : Type 0 where
  pub generation : ℕ
  pub active_height : ℕ
  pub block_records : ℕ
  pub block_file_bytes : ℕ
  pub recovered : Bool
  pub migrated_legacy : Bool

pub record DurableChainStore : Type 0 where
  pub disk : Disk
  pub stats : ChainStorageStats

-- What `load` finds.
pub record LoadedChain : Type 0 where
  pub blocks : List StoredBlock
  pub utxos : UtxoSet
  pub generation : ℕ
  pub height : ℕ

unfoldable pub read_file_bytes : Text → Disk → Result (List ℕ)
read_file_bytes name disk = elim (file_find name disk.files) [
  | none ↦ err file_missing
  | some bytes ↦ ok bytes
]

-- The manifest of a disk.
unfoldable pub committed_manifest : Disk → Result Manifest
committed_manifest disk = read_file_bytes manifest_name disk >>= parse_manifest_text

abbrev pub the_file : Option (List ℕ) → Result (List ℕ)
the_file none = err file_missing
the_file (some bytes) = ok bytes

-- `blocks.back()`
unfoldable pub back : StoredBlock → List StoredBlock → StoredBlock
back first [] = first
back first (next ∷ rest) = back next rest

unfoldable pub last_block : Error → List StoredBlock → Result StoredBlock
last_block error [] = err error
last_block error (first ∷ rest) = ok (back first rest)

module _ (c : Crypto) where
  unfoldable pub sha256_hex : List ℕ → Text
  sha256_hex bytes = bytes_to_hex (sha256 c bytes)

  -- The chain that an index lists, from the block file.
  unfoldable pub load_index : List ℕ → Disk → Result (List StoredBlock)
  load_index index_bytes disk = do
    entries ← parse_index_text index_bytes
    file ← the_file disk.blocks_file
    load_indexed_chain c file entries

  -- The end of `load_manifest_generation`, with the blocks that were loaded.
  unfoldable pub check_tip : Manifest → List ℕ → List StoredBlock → Result LoadedChain
  check_tip manifest utxo_bytes blocks = do
    last ← last_block index_without_genesis blocks
    hash ← hash_hex c last.block.header
    throw_if (not (last.height == manifest.height) || not (text_eq hash manifest.bestblock))
        manifest_tip_mismatch
    utxos ← parse_utxo_text utxo_bytes manifest.height manifest.bestblock
    ok (record {
      blocks = blocks;
      utxos = utxos;
      generation = manifest.generation;
      height = manifest.height;
    })

  -- Whether the bytes of a file have another checksum.
  unfoldable pub is_damaged : List ℕ → Text → Bool
  is_damaged bytes checksum = not (text_eq (sha256_hex bytes) checksum)

  -- With `verify_hashes` set, as its only caller does.
  unfoldable pub load_manifest_generation : Manifest → Disk → Result LoadedChain
  load_manifest_generation manifest disk = do
    index_bytes ← read_file_bytes manifest.index_file disk
    utxo_bytes ← read_file_bytes manifest.utxo_file disk
    throw_if (is_damaged index_bytes manifest.index_sha256) index_checksum
    throw_if (is_damaged utxo_bytes manifest.utxo_sha256) snapshot_checksum
    blocks ← load_index index_bytes disk
    check_tip manifest utxo_bytes blocks

  -- The chain that the manifest names.
  unfoldable pub load_committed : Disk → Result LoadedChain
  load_committed disk = do
    manifest ← committed_manifest disk
    load_manifest_generation manifest disk

  -- A generation without its manifest: the set is left to be rebuilt.
  unfoldable pub recover_generation : ℕ → Disk → Result LoadedChain
  recover_generation generation disk = do
    index_bytes ← read_file_bytes (index_name generation) disk
    blocks ← load_index index_bytes disk
    last ← last_block index_without_genesis blocks
    hash ← hash_hex c last.block.header
    ok (record { blocks = blocks; utxos = []; generation = generation; height = last.height })

  unfoldable pub recover : List ℕ → Disk → Result LoadedChain
  recover [] disk = err no_valid_generation
  recover (generation ∷ rest) disk = elim (recover_generation generation disk) [
    | ok loaded ↦ ok loaded
    | err e ↦ recover rest disk
  ]

  abbrev pub loaded_stats : LoadedChain → Bool → Disk → ChainStorageStats → ChainStorageStats
  loaded_stats loaded recovered disk stats = record stats {
    generation = loaded.generation;
    active_height = loaded.height;
    block_records = length (scan_catalog c disk.blocks_file);
    block_file_bytes = length (bytes_of disk.blocks_file);
    recovered = recovered;
  }

  -- The blocks, and what the call leaves of the set and of the store.
  unfoldable pub load :
      UtxoSet → DurableChainStore → Result (List StoredBlock) × UtxoSet × DurableChainStore
  load utxos store = elim (load_committed store.disk) [
    | ok loaded ↦ (
      ok loaded.blocks,
      loaded.utxos,
      record store { stats = loaded_stats loaded false store.disk store.stats },
    )
    | err e ↦ elim (recover (available_generations store.disk.files) store.disk) [
      | ok loaded ↦ (
        ok loaded.blocks,
        loaded.utxos,
        record store { stats = loaded_stats loaded true store.disk store.stats },
      )
      | err e' ↦ (err e', utxos, record store { stats = record store.stats { recovered = true } })
    ]
  ]

  unfoldable pub exists : DurableChainStore → Bool
  exists store =
      has_file manifest_name store.disk.files
      || (not (is_empty (available_generations store.disk.files))
          && elim store.disk.blocks_file [ none ↦ false | some bytes ↦ true ])

  unfoldable pub mark_migrated_legacy : DurableChainStore → DurableChainStore
  mark_migrated_legacy store = record store {
    stats = record store.stats { migrated_legacy = true };
  }

  -- `stats()`, what is reported.
  unfoldable pub reported_stats : DurableChainStore → ChainStorageStats
  reported_stats store = record store.stats {
    migrated_legacy = store.stats.migrated_legacy || has_file marker_name store.disk.files;
    block_file_bytes = length (bytes_of store.disk.blocks_file);
    block_records = length (scan_catalog c store.disk.blocks_file);
  }
