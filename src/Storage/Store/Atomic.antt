-- ===== src/Storage/Store/Atomic.antt =====
-- src/storage.cpp: `commit` replaces one chain by another, also where it is cut off.
use binarycoin.Base.{
  All, All-append, Bool, List, Result, Text, [], ap, append_assoc, arith, inl, inr, ok, refl, sym,
  ℕ, ◌++◌, ◌∙◌, ◌∷◌, ◌≡◌, ◌≢◌, ◌⊎◌,
}
use binarycoin.Block.{StoredBlock}
use binarycoin.Hash.Crypto.{Crypto}
use binarycoin.Storage.Disk.{
  Disk, Write, append_bytes, apply_write, apply_writes, available_generations,
  cleanup_old_generations, file_put, manifest_name, put_file,
}
use binarycoin.Storage.Records.{Catalog}
use binarycoin.Storage.Store.{
  DurableChainStore, LoadedChain, committed_manifest, load, load_committed,
}
use binarycoin.Storage.Store.Appending.{disk_of}
use binarycoin.Storage.Store.Cleanup.{OwnFiles, other-index, other-utxo}
use binarycoin.Storage.Store.Commit.{commit, commit_writes, marker_writes}
use binarycoin.Storage.Store.Committing.{
  Committable, Committed, Committed-chain, Interrupted-split, apply_writes-append,
  next_generation-manifest,
}
use binarycoin.Storage.Store.Interrupted.{
  Harmless, Interrupted, Interrupted-Keeps, Keeps, committed_manifest-same, load_committed-Keeps,
  next, stop, writes-Keeps,
}
use binarycoin.Storage.Store.Manifested.{HasChain, later-HasChain, published_disk}
use binarycoin.Storage.Texts.{Manifest, make_manifest_text}
use binarycoin.Utxo.{UtxoSet}
use mathlib.Core.Path.{subst}

module _ (c : Crypto) where
  -- The writes up to the manifest, and behind it.
  module _ {migrated : Bool} {chain : List StoredBlock} {utxos : UtxoSet} {disk : Disk}
      (d : Committed c migrated chain utxos disk) where
    early : List Write
    early =
        append_bytes [] ∷ d.appends
        ++ (put_file d.published.manifest.index_file d.published.index_text
            ∷ put_file d.published.manifest.utxo_file d.published.utxo_text
            ∷ [])

    behind_names : List (Text × List ℕ)
    behind_names =
        (apply_writes
          (put_file d.published.manifest.index_file d.published.index_text
            ∷ put_file d.published.manifest.utxo_file d.published.utxo_text
            ∷ put_file manifest_name (make_manifest_text d.published.manifest)
            ∷ marker_writes migrated)
          (disk_of d.file' disk.files)).files

    late : List Write
    late =
        put_file manifest_name (make_manifest_text d.published.manifest) ∷ marker_writes migrated
        ++ cleanup_old_generations d.published.manifest.generation
            (available_generations behind_names)

    writes_lem : (commit_writes c migrated chain utxos disk).0 ≡ early ++ late
    unfolding early late behind_names
    writes_lem =
        ap (λ (r : List Write × Result (Manifest × Catalog)). r.0) d.run ∙ simp (append_assoc)

    before_manifest : Disk
    before_manifest = disk_of d.file' (
        file_put d.published.manifest.utxo_file d.published.utxo_text
          (file_put d.published.manifest.index_file d.published.index_text disk.files))

    early-disk : apply_writes early disk ≡ before_manifest
    unfolding early before_manifest apply_writes
    early-disk =
        let texts =
          put_file d.published.manifest.index_file d.published.index_text
          ∷ put_file d.published.manifest.utxo_file d.published.utxo_text
          ∷ [] in
        apply_writes-append (append_bytes [] ∷ d.appends) texts disk
        ∙ ap (apply_writes texts) d.applied

    new_generation :
        (old : Manifest)
        → OwnFiles old
        → committed_manifest disk ≡ ok old
        → d.published.manifest.generation ≢ old.generation
    new_generation old own e same =
        let kept = committed_manifest-same disk (disk_of d.file' disk.files) refl in
        let g = next_generation-manifest (disk_of d.file' disk.files) (kept ∙ e) in
        absurd (omega (arith, same, d.published.generation, d.next, g, own.small))

    early-Harmless :
        (old : Manifest)
        → OwnFiles old
        → committed_manifest disk ≡ ok old
        → All (Harmless old) early
    unfolding early
    early-Harmless old own e =
        let m = d.published.manifest in
        let other = new_generation old own e in
        let index = other-index old own m.generation d.published.own.small other in
        let utxo = other-utxo old own m.generation d.published.own.small other in
        (
          tt,
          All-append (Harmless old) d.appends
              (put_file m.index_file d.published.index_text
                ∷ put_file m.utxo_file d.published.utxo_text
                ∷ [])
              (d.appending old).1
              (rw d.published.own.index index, (rw d.published.own.utxo utxo, tt)),
        )

    late-HasChain :
        (disk' : Disk)
        → Interrupted late before_manifest disk'
        → (disk' ≡ before_manifest) ⊎ HasChain c chain utxos disk'
    unfolding late before_manifest published_disk
    late-HasChain disk' stop = inl refl
    late-HasChain disk' (next i) =
        inr (later-HasChain c d.published disk.files migrated behind_names disk' i)

  -- A `commit` of a chain that the disk can take, cut off at any of its writes, and within one that
  -- appends to the block file, leaves a disk on which the manifest leads to the chain that was
  -- there, or to the new chain with its unspent outputs.
  pub commit-atomic :
      (migrated : Bool) (first : StoredBlock) (rest : List StoredBlock) (utxos : UtxoSet)
      (disk disk' : Disk) (old : Manifest) {loaded : LoadedChain}
      → Committable c (first ∷ rest) utxos disk
      → committed_manifest disk ≡ ok old
      → OwnFiles old
      → load_committed c disk ≡ ok loaded
      → Interrupted (commit_writes c migrated (first ∷ rest) utxos disk).0 disk disk'
      → (load_committed c disk' ≡ ok loaded) ⊎ HasChain c (first ∷ rest) utxos disk'
  commit-atomic migrated first rest utxos disk disk' old h e own loads i =
      let d = Committed-chain c migrated first rest utxos disk h in
      let harmless = early-Harmless d old own e in
      let keeps = λ (disk'' : Disk) (k : Keeps old disk disk'').
        load_committed-Keeps c old disk disk'' e k loads in
      elim (Interrupted-split (early d) (late d) disk disk' (rw (writes_lem d) at i)) [
        | inl cut ↦ inl (keeps disk' (Interrupted-Keeps old (early d) disk disk' harmless cut))
        | inr cut ↦ elim (late-HasChain d disk' (rw (early-disk d) at cut)) [
          | inr new ↦ inr new
          | inl same ↦ inl (
              rw (same, ← early-disk d)
                (keeps (apply_writes (early d) disk) (writes-Keeps old (early d) disk harmless)))
        ]
      ]

  Interrupted-all :
      (writes : List Write) (disk : Disk) → Interrupted writes disk (apply_writes writes disk)
  unfolding apply_writes
  Interrupted-all [] disk = stop
  Interrupted-all (write ∷ writes) disk = next (Interrupted-all writes (apply_write write disk))

  committed-HasChain :
      {migrated : Bool} {chain : List StoredBlock} {utxos : UtxoSet} {disk : Disk}
      (d : Committed c migrated chain utxos disk)
      → HasChain c chain utxos (apply_writes (commit_writes c migrated chain utxos disk).0 disk)
  unfolding late before_manifest published_disk apply_writes
  committed-HasChain {migrated} {disk = disk} d =
      rw (writes_lem d, apply_writes-append (early d) (late d) disk, early-disk d)
        (later-HasChain c d.published disk.files migrated (behind_names d) _ (Interrupted-all _ _))

  commit_lem :
      (chain : List StoredBlock) (utxos : UtxoSet) (store : DurableChainStore) {m : Manifest}
      {catalog : Catalog}
      → (commit_writes c store.stats.migrated_legacy chain utxos store.disk).1 ≡ ok (m, catalog)
      → ((commit c chain utxos store).0 ≡ ok tt)
        × ((commit c chain utxos store).1.disk
            ≡ apply_writes
                (commit_writes c store.stats.migrated_legacy chain utxos store.disk).0
                store.disk)
  unfolding commit
  commit_lem chain utxos store e = rw (e, commit) (refl, refl)

  load_lem :
      (given : UtxoSet) (store : DurableChainStore) {loaded : LoadedChain}
      → load_committed c store.disk ≡ ok loaded
      → ((load c given store).0 ≡ ok loaded.blocks) × ((load c given store).1 ≡ loaded.utxos)
  unfolding load
  load_lem given store e = rw (e, load) (refl, refl)

  -- A `commit` of a chain that the disk can take returns, and `load` then gives the blocks of that
  -- chain and its unspent outputs, whatever the set that it is given holds.
  pub load-commit :
      (first : StoredBlock) (rest : List StoredBlock) (utxos given : UtxoSet)
      (store : DurableChainStore)
      → Committable c (first ∷ rest) utxos store.disk
      → ((commit c (first ∷ rest) utxos store).0 ≡ ok tt)
        × ((load c given (commit c (first ∷ rest) utxos store).1).0 ≡ ok (first ∷ rest))
        × ((load c given (commit c (first ∷ rest) utxos store).1).1 ≡ utxos)
  load-commit first rest utxos given store h =
      let d = Committed-chain c store.stats.migrated_legacy first rest utxos store.disk h in
      let finished = ap (λ (r : List Write × Result (Manifest × Catalog)). r.1) d.run in
      let (returns, disk') = commit_lem (first ∷ rest) utxos store finished in
      let (generation, height, loads) =
        subst (HasChain c (first ∷ rest) utxos) (sym disk') (committed-HasChain d) in
      let (blocks, set) = load_lem given (commit c (first ∷ rest) utxos store).1 loads in
      (returns, blocks, set)
