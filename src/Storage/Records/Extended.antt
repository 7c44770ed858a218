-- ===== src/Storage/Records/Extended.antt =====
-- src/storage.cpp: the scan of a block file to which a record is appended.
use binarycoin.Base.{
  List, Option-cases, [], ap, arith, inl, inr, length, length-append, none, refl, some, suc, sym,
  zero, ℕ, ◌++◌, ◌+◌, ◌∙◌, ◌≡◌, ◌≤◌,
}
use binarycoin.Hash.Crypto.{Crypto}
use binarycoin.Storage.Records.{
  Catalog, block_record_header_size, catalog_record, read_record_at, record_ahead, scan_catalog,
  scan_loop,
}
use binarycoin.Storage.Records.Growth.{pread_all-append}
use binarycoin.Storage.Records.Scan.{
  IsWhole, record_ahead-append, record_ahead-inside, record_ahead-parts, record_ahead-short,
  scan_end, scan_end-none, scan_end-some, scan_loop-none, scan_loop-some, scan_loop-whole,
}

module _ (c : Crypto) where
  -- The record at an offset is the same in the longer file, also where it is damaged.
  read_record_at-inside :
      (file extra : List ℕ) (o size : ℕ)
      → record_ahead file o ≡ some size
      → read_record_at c (file ++ extra) o (some size) ≡ read_record_at c file o (some size)
  unfolding read_record_at
  read_record_at-inside file extra o size h =
      let parts = record_ahead-parts file o h in
      let same =
        pread_all-append file extra o block_record_header_size (omega (arith, parts.inside)) in
      let payload =
        pread_all-append file extra (o + block_record_header_size) size
          (omega (arith, parts.inside)) in
      rw (same, parts.header, parts.parsed, payload) refl

  catalog_record-inside :
      (file extra : List ℕ) (o size : ℕ) (catalog : Catalog)
      → record_ahead file o ≡ some size
      → catalog_record c (file ++ extra) o size catalog ≡ catalog_record c file o size catalog
  unfolding catalog_record
  catalog_record-inside file extra o size catalog h =
      rw (read_record_at-inside file extra o size h, catalog_record) refl

  module _ (bytes : List ℕ) (size : ℕ)
      (large : length bytes ≡ block_record_header_size + size) where
    -- The two facts of a record behind a file of records.
    abbrev Scanned : ℕ → List ℕ → ℕ → Catalog → Type 0
    Scanned fuel file o catalog =
        (scan_loop c (suc fuel) (file ++ bytes) o catalog
          ≡ catalog_record c (file ++ bytes) (length file) size (scan_loop c fuel file o catalog))
        × (scan_end (suc fuel) (file ++ bytes) o ≡ length (file ++ bytes))

    scan_loop-append_end :
        (fuel : ℕ) (file : List ℕ) (o : ℕ) (catalog : Catalog)
        → scan_end fuel file o ≡ length file
        → record_ahead (file ++ bytes) (length file) ≡ some size
        → record_ahead file o ≡ none
        → Scanned fuel file o catalog
    scan_loop-append_end fuel file o catalog whole seen missing =
        let e : length file ≡ o = sym whole ∙ scan_end-none fuel file o missing in
        let seen' = rw e at seen in
        let next = o + (block_record_header_size + size) in
        let short =
          record_ahead-short (file ++ bytes) next
            (omega (arith, length-append file bytes, large, e)) in
        (
          scan_loop-some c fuel (file ++ bytes) o catalog seen'
              ∙ scan_loop-none c fuel (file ++ bytes) next
                  (catalog_record c (file ++ bytes) o size catalog) short
              ∙ rw (scan_loop-none c fuel file o catalog missing, e) refl,
          scan_end-some fuel (file ++ bytes) o seen'
              ∙ scan_end-none fuel (file ++ bytes) next short
              ∙ omega (arith, length-append file bytes, large, e),
        )

    -- A record behind a file of records is scanned last.
    scan_loop-append :
        (fuel : ℕ) (file : List ℕ) (o : ℕ) (catalog : Catalog)
        → scan_end fuel file o ≡ length file
        → record_ahead (file ++ bytes) (length file) ≡ some size
        → Scanned fuel file o catalog
    unfolding scan_end
    scan_loop-append zero file o catalog whole seen = elim (Option-cases (record_ahead file o)) [
      | inl missing ↦ scan_loop-append_end zero file o catalog whole seen missing
      | inr (found, e) ↦ absurd (omega (arith, record_ahead-inside file o e, whole))
    ]
    scan_loop-append (suc fuel) file o catalog whole seen =
        elim (Option-cases (record_ahead file o)) [
          | inl missing ↦ scan_loop-append_end (suc fuel) file o catalog whole seen missing
          | inr (found, e) ↦
              let next = o + (block_record_header_size + found) in
              let kept = record_ahead-append file bytes o e in
              let (loops, ends) =
                scan_loop-append fuel file next (catalog_record c file o found catalog)
                  (sym (scan_end-some fuel file o e) ∙ whole) seen in
              (
                scan_loop-some c (suc fuel) (file ++ bytes) o catalog kept
                    ∙ ap (λ (k : Catalog). scan_loop c (suc fuel) (file ++ bytes) next k)
                        (catalog_record-inside file bytes o found catalog e)
                    ∙ loops
                    ∙ ap (catalog_record c (file ++ bytes) (length file) size)
                        (sym (scan_loop-some c fuel file o catalog e)),
                scan_end-some (suc fuel) (file ++ bytes) o kept ∙ ends,
              )
        ]

  -- The catalog of a file of records with one more record, which is whole, behind it.
  pub scan_catalog-append :
      (file bytes : List ℕ) (size : ℕ)
      → length bytes ≡ block_record_header_size + size
      → IsWhole file
      → record_ahead (file ++ bytes) (length file) ≡ some size
      → (scan_catalog c (some (file ++ bytes))
          ≡ catalog_record c (file ++ bytes) (length file) size (scan_catalog c (some file)))
        × IsWhole (file ++ bytes)
  unfolding scan_catalog
  scan_catalog-append file bytes size large whole seen =
      let (loops, ends) = scan_loop-append bytes size large (length file) file 0 [] whole seen in
      let longer : suc (length file) ≤ length (file ++ bytes) =
        omega (arith, length-append file bytes, large) in
      let (same, end) =
        scan_loop-whole c (suc (length file)) (length (file ++ bytes)) (file ++ bytes) 0 [] ends
          longer in
      (same ∙ loops, end)
