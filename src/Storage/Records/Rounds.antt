-- ===== src/Storage/Records/Rounds.antt =====
-- src/storage.cpp: the rounds of the scan of the block file, and what they find.
use binarycoin.Base.{
  List, Option-cases, Result-cases, Text, [], arith, inl, inr, length, none, ok, some,
  some-injective, suc, sym, zero, ℕ, ◌+◌, ◌∙◌, ◌≡◌, ◌≤◌,
}
use binarycoin.Block.{StoredBlock, hash_hex}
use binarycoin.Hash.Crypto.{Crypto}
use binarycoin.Storage.Records.{
  Catalog, block_record_header_size, catalog_record, read_record_at, record_ahead, scan_catalog,
  scan_loop,
}
use binarycoin.Storage.Records.Catalogs.{
  Finds, Finds-emplace, Finds-emplace_self, catalog_record-ok,
}
use binarycoin.Storage.Records.Scan.{record_ahead-short, scan_loop-none, scan_loop-some}

module _ (c : Crypto) (file : List ℕ) where
  -- The rounds of the loop from an offset on, with the catalog before them and behind them. The last
  -- one ends where no whole record is ahead.
  pub data Scanned : ℕ → Catalog → Catalog → Type 0 where
    ended : {o : ℕ} {catalog : Catalog} → record_ahead file o ≡ none → Scanned o catalog catalog
    went_on :
        {o size : ℕ} {catalog result : Catalog}
        → record_ahead file o ≡ some size
        → Scanned
            (o + (block_record_header_size + size))
            (catalog_record c file o size catalog)
            result
        → Scanned o catalog result

  scan_loop-Scanned :
      (fuel o : ℕ) (catalog : Catalog)
      → length file ≤ o + fuel
      → Scanned o catalog (scan_loop c fuel file o catalog)
  unfolding scan_loop
  scan_loop-Scanned zero o catalog enough =
      ended (record_ahead-short file o (omega (arith, enough)))
  scan_loop-Scanned (suc fuel) o catalog enough = elim (Option-cases (record_ahead file o)) [
    | inl missing ↦ rw (scan_loop-none c (suc fuel) file o catalog missing) (ended missing)
    | inr (size, found) ↦ rw (scan_loop-some c fuel file o catalog found) (
        went_on found (
          scan_loop-Scanned fuel (o + (block_record_header_size + size))
            (catalog_record c file o size catalog) (omega (arith, enough))))
  ]

  -- The scan of a block file goes on from record to record, from the start of the file until no whole
  -- record is ahead, and its result is the catalog of all these rounds.
  pub scan_catalog-Scanned : Scanned 0 [] (scan_catalog c (some file))
  unfolding scan_catalog
  scan_catalog-Scanned = scan_loop-Scanned (length file) 0 [] (omega arith)

  -- The second offset is that of a record which stands some whole records behind the first.
  pub data RecordBehind : ℕ → ℕ → Type 0 where
    here : {o : ℕ} → RecordBehind o o
    further :
        {o p size : ℕ}
        → record_ahead file o ≡ some size
        → RecordBehind (o + (block_record_header_size + size)) p
        → RecordBehind o p

  catalog_record-Finds :
      (o size : ℕ) (catalog : Catalog) (hash : Text)
      → Finds hash catalog
      → Finds hash (catalog_record c file o size catalog)
  unfolding catalog_record
  catalog_record-Finds o size catalog hash h =
      elim (Result-cases (read_record_at c file o (some size))) [
        | inr (e, failed) ↦ rw (failed, catalog_record) h
        | inl (block, read) ↦ elim (Result-cases (hash_hex c block.block.header)) [
          | inr (e, failed) ↦ rw (read, failed, catalog_record) h
          | inl (key, hashed) ↦
              rw (read, hashed, catalog_record) (Finds-emplace hash key _ catalog h)
        ]
      ]

  Scanned-Finds :
      {o : ℕ} {catalog result : Catalog} (hash : Text)
      → Scanned o catalog result
      → Finds hash catalog
      → Finds hash result
  Scanned-Finds hash (ended missing) h = h
  Scanned-Finds hash (went_on {o} {size} {catalog} found rounds) h =
      Scanned-Finds hash rounds (catalog_record-Finds o size catalog hash h)

  Scanned-Finds_behind :
      {o p size : ℕ} {catalog result : Catalog} {block : StoredBlock} {hash : Text}
      → Scanned o catalog result
      → RecordBehind o p
      → record_ahead file p ≡ some size
      → read_record_at c file p (some size) ≡ ok block
      → hash_hex c block.block.header ≡ ok hash
      → Finds hash result
  Scanned-Finds_behind (ended missing) here found read hashed = absurd (cc (missing, found))
  Scanned-Finds_behind (ended missing) (further ahead on) found read hashed =
      absurd (cc (missing, ahead))
  Scanned-Finds_behind {hash = hash} (went_on {o} {size} {catalog} ahead rounds) here found read
        hashed =
      let same = some-injective (sym ahead ∙ found) in
      Scanned-Finds hash rounds (
        rw (catalog_record-ok c file o size catalog (rw (← same) at read) hashed)
          (Finds-emplace_self hash _ catalog))
  Scanned-Finds_behind (went_on {o} {size} ahead rounds) (further {size = size'} ahead' on) found
        read hashed =
      let same = some-injective (sym ahead' ∙ ahead) in
      Scanned-Finds_behind rounds (rw same at on) found read hashed

  -- Where records with a whole header and a payload that ends in the file stand from the start of the
  -- file up to an offset, and the record at the offset can be read, the catalog of the file has an
  -- entry for the hash of its block, also when payloads before it or behind it cannot be read.
  pub scan_catalog-Finds :
      (p size : ℕ) {block : StoredBlock} {hash : Text}
      → RecordBehind 0 p
      → record_ahead file p ≡ some size
      → read_record_at c file p (some size) ≡ ok block
      → hash_hex c block.block.header ≡ ok hash
      → Finds hash (scan_catalog c (some file))
  scan_catalog-Finds p size on found read hashed =
      Scanned-Finds_behind scan_catalog-Scanned on found read hashed
