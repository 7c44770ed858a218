-- ===== src/Storage/Store/Manifested.antt =====
-- src/storage.cpp: the disk with the manifest of a generation, and with what comes behind it.
use binarycoin.Base.{Bool, List, Text, ok, refl, some, text_eq_refl, ℕ, ◌++◌, ◌≡◌}
use binarycoin.Block.{StoredBlock}
use binarycoin.Hash.Crypto.{Crypto}
use binarycoin.Storage.Disk.{
  Disk, available_generations, cleanup_old_generations, file_find, file_put, index_name,
  manifest_name, utxo_name,
}
use binarycoin.Storage.Disk.Files.{file_find-put, manifest-index, manifest-utxo, utxo-index}
use binarycoin.Storage.Store.{committed_manifest, load_committed}
use binarycoin.Storage.Store.Appending.{disk_of}
use binarycoin.Storage.Store.Cleanup.{later-Harmless}
use binarycoin.Storage.Store.Commit.{marker_writes}
use binarycoin.Storage.Store.Interrupted.{Interrupted, Interrupted-Keeps, load_committed-Keeps}
use binarycoin.Storage.Store.Publishing.{Published, read_found}
use binarycoin.Storage.Texts.{make_manifest_text}
use binarycoin.Storage.Texts.Manifests.{parse_manifest_text-make_manifest_text}
use binarycoin.Utxo.{UtxoSet}

module _ (c : Crypto) where
  -- The chain that a disk has by its manifest.
  abbrev pub HasChain : List StoredBlock → UtxoSet → Disk → Type 0
  HasChain chain utxos disk =
      (generation : ℕ) × (height : ℕ) × (load_committed c disk
        ≡ ok (record { blocks = chain; utxos = utxos; generation = generation; height = height }))

  module _ {chain : List StoredBlock} {utxos : UtxoSet} {g : ℕ} {file : List ℕ}
      (p : Published c chain utxos g file) (files : List (Text × List ℕ)) where
    -- The disk with the new manifest.
    unfoldable pub published_disk : Disk
    published_disk = disk_of file (
        file_put manifest_name (make_manifest_text p.manifest) (
          file_put p.manifest.utxo_file p.utxo_text
            (file_put p.manifest.index_file p.index_text files)))

    index_there : file_find p.manifest.index_file published_disk.files ≡ some p.index_text
    unfolding published_disk
    index_there =
        rw
          (
            file_find-put p.manifest.index_file manifest_name,
            p.own.index,
            manifest-index p.manifest.generation,
            file_find-put (index_name p.manifest.generation) p.manifest.utxo_file,
            p.own.utxo,
            utxo-index p.manifest.generation p.manifest.generation,
            file_find-put (index_name p.manifest.generation) (index_name p.manifest.generation),
            text_eq_refl (index_name p.manifest.generation),
          )
          refl

    utxo_there : file_find p.manifest.utxo_file published_disk.files ≡ some p.utxo_text
    unfolding published_disk
    utxo_there =
        rw
          (
            file_find-put p.manifest.utxo_file manifest_name,
            p.own.utxo,
            manifest-utxo p.manifest.generation,
            file_find-put (utxo_name p.manifest.generation) (utxo_name p.manifest.generation),
            text_eq_refl (utxo_name p.manifest.generation),
          )
          refl

    text_there : file_find manifest_name published_disk.files ≡ some (make_manifest_text p.manifest)
    unfolding published_disk
    text_there = rw (file_find-put manifest_name manifest_name, text_eq_refl manifest_name) refl

    there : published_disk.blocks_file ≡ some file
    unfolding published_disk
    there = refl

    pub manifest_there : committed_manifest published_disk ≡ ok p.manifest
    unfolding committed_manifest
    manifest_there =
        rw (read_found manifest_name published_disk text_there)
          (parse_manifest_text-make_manifest_text p.manifest p.fits)

    pub published-HasChain : HasChain chain utxos published_disk
    unfolding load_committed
    published-HasChain =
        let (height, loads) = p.loads published_disk there index_there utxo_there in
        (g, height, rw manifest_there loads)

    -- What comes behind the manifest, cut off anywhere, keeps the new chain.
    pub later-HasChain :
        (migrated : Bool) (names : List (Text × List ℕ)) (disk' : Disk)
        → Interrupted
            (marker_writes migrated
              ++ cleanup_old_generations p.manifest.generation (available_generations names))
            published_disk
            disk'
        → HasChain chain utxos disk'
    later-HasChain migrated names disk' i =
        let kept =
          Interrupted-Keeps p.manifest _ published_disk disk'
            (later-Harmless p.manifest p.own migrated names) i in
        let (generation, height, loads) = published-HasChain in
        (
          generation,
          height,
          load_committed-Keeps c p.manifest published_disk disk' manifest_there kept loads,
        )
