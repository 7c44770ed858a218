-- ===== src/Storage/Store/Again.antt =====
-- src/storage.cpp: a `commit` of a chain whose blocks the block file has already.
use binarycoin.Base.{
  All, All-map, Bool, List, Text, [], append-nil, length, ok, ok-injective, refl, some, sym, ℕ, ◌∙◌,
  ◌∷◌, ◌≡◌,
}
use binarycoin.Block.{StoredBlock, hash_hex}
use binarycoin.Hash.Crypto.{Crypto}
use binarycoin.Storage.Disk.{Disk, apply_writes}
use binarycoin.Storage.Records.{Catalog, read_record_at}
use binarycoin.Storage.Records.Catalogs.{Finds}
use binarycoin.Storage.Store.Appending.{InChain, Leads, Storable, Storable-hash, disk_of}
use binarycoin.Storage.Store.Commit.{append_records}
use binarycoin.Storage.Store.Committing.{Committable, Committed}
use binarycoin.Storage.Texts.CoinLines.{CoinFits}
use binarycoin.Storage.Texts.Snapshot.{IsAscending}
use binarycoin.Utxo.{UtxoSet}

module _ (c : Crypto) where
  append_records-known :
      (catalog : Catalog) (o : ℕ) (todo : List StoredBlock)
      → All (Storable c) todo
      → All (λ b. (hash : Text) → hash_hex c b.block.header ≡ ok hash → Finds hash catalog) todo
      → append_records c catalog o todo ≡ ([], ok catalog)
  unfolding append_records
  append_records-known catalog o [] s f = refl
  append_records-known catalog o (block ∷ rest) (s, ss) (f, fs) =
      let (hash, hashed) = Storable-hash c block s in
      let (entry, found) = f hash hashed in
      rw (hashed, found, append_records) (append_records-known catalog o rest ss fs)

  -- The entries of a catalog that leads to the chain's own blocks do not lead to others.
  agrees_lem :
      (chain : List StoredBlock) (file : List ℕ) (catalog : Catalog)
      → All (Leads c chain file) catalog
      → All
          (λ x.
            (block : StoredBlock)
            → read_record_at c file x.1.offset (some x.1.payload_size) ≡ ok block
            → All (λ b. hash_hex c b.block.header ≡ ok x.0 → block ≡ b) chain)
          catalog
  agrees_lem chain file [] h = tt
  agrees_lem chain file (x ∷ catalog) (h, hs) = (
    λ block read. rw (ok-injective (sym read ∙ h.sound.read)) h.agrees,
    agrees_lem chain file catalog hs,
  )

  -- Behind a `commit`, the same chain can be committed with another set.
  pub Committed-Committable :
      {migrated : Bool} {chain : List StoredBlock} {utxos : UtxoSet} {disk : Disk}
      (d : Committed c migrated chain utxos disk) (files : List (Text × List ℕ)) (utxos' : UtxoSet)
      → Committable c chain utxos disk
      → All CoinFits utxos'
      → IsAscending utxos'
      → Committable c chain utxos' (disk_of d.file' files)
  unfolding apply_writes disk_of
  Committed-Committable {chain = chain} d files utxos' h coins ascending = record {
    blocks = h.blocks;
    counted = h.counted;
    coins = coins;
    ascending = ascending;
    whole = d.between.whole;
    agrees = rw d.between.scanned (agrees_lem chain d.file' d.catalog' d.between.leads);
    room =
        let storable = All-map (InChain c chain) (Storable c) chain (λ b i. i.storable) h.blocks in
        rw
          (
            d.between.scanned,
            append_records-known d.catalog' (length d.file') chain storable d.found,
            append-nil d.file',
          )
          d.room;
  }
