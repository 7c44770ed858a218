-- ===== src/Storage/Records/Scan.antt =====
-- src/storage.cpp: the catalog that a scan of the block file gives.
use binarycoin.Base.{
  List, Option-cases, Result-cases, ap, arith, if◌then◌else◌, inl, inr, length, length-append, ltb,
  ltb-false, none, ok, refl, some, suc, sym, zero, ℕ, ◌++◌, ◌+◌, ◌-◌, ◌<◌, ◌∙◌, ◌≡◌, ◌≤◌,
}
use binarycoin.Hash.Crypto.{Crypto}
use binarycoin.Storage.Records.{
  Catalog, block_record_header_size, catalog_record, pread_all, read_record_header, record_ahead,
  scan_loop,
}
use binarycoin.Storage.Records.Growth.{pread_all-append, pread_all-ok}

-- Where the scan stops.
unfoldable pub scan_end : ℕ → List ℕ → ℕ → ℕ
scan_end zero file offset = offset
scan_end (suc fuel) file offset = elim (record_ahead file offset) [
  | none ↦ offset
  | some payload_size ↦ scan_end fuel file (offset + (block_record_header_size + payload_size))
]

-- The file consists of records, with no torn one at its end.
abbrev pub IsWhole : List ℕ → Type 0
IsWhole file = scan_end (length file) file 0 ≡ length file

-- What `record_ahead` has read where it finds a record.
pub record AheadParts (file : List ℕ) (o size : ℕ) : Type 0 where
  bytes : List ℕ
  checksum : List ℕ
  pub header : pread_all file o block_record_header_size ≡ ok bytes
  pub parsed : read_record_header bytes ≡ ok (size, checksum)
  pub inside : o + (block_record_header_size + size) ≤ length file

pub record_ahead-parts :
    (file : List ℕ) (o : ℕ) {size : ℕ} → record_ahead file o ≡ some size → AheadParts file o size
unfolding record_ahead
record_ahead-parts file o h = elim (Result-cases (pread_all file o block_record_header_size)) [
  | inr (e, failed) ↦ absurd (cc (rw (failed, record_ahead) at h))
  | inl (bytes, e1) ↦ elim (Result-cases (read_record_header bytes)) [
    | inr (e, failed) ↦ absurd (cc (rw (e1, failed, record_ahead) at h))
    | inl ((found, checksum), e2) ↦
        let (header, _) = pread_all-ok file o block_record_header_size e1 in
        let (same, inside) = payload_inside found header (rw (e1, e2, record_ahead) at h) in
        record {
          bytes = bytes;
          checksum = checksum;
          header = e1;
          parsed = e2 ∙ ap (λ (k : ℕ). ok (k, checksum)) same;
          inside = inside;
        }
  ]
]
  where
    payload_inside :
        (found : ℕ) {size : ℕ}
        → block_record_header_size ≤ length file - o
        → (if ltb (length file - o) (block_record_header_size + found) then none else some found)
          ≡ some size
        → (found ≡ size) × (o + (block_record_header_size + size) ≤ length file)
    payload_inside found header h = ground arith

pub record_ahead-inside :
    (file : List ℕ) (o : ℕ) {size : ℕ}
    → record_ahead file o ≡ some size
    → o + (block_record_header_size + size) ≤ length file
record_ahead-inside file o h = let parts = record_ahead-parts file o h in parts.inside

-- A file that is too short has no record.
pub record_ahead-short :
    (file : List ℕ) (o : ℕ)
    → length file < o + block_record_header_size
    → record_ahead file o ≡ none
record_ahead-short file o h = elim (Option-cases (record_ahead file o)) [
  | inl missing ↦ missing
  | inr (size, found) ↦ absurd (omega (arith, h, record_ahead-inside file o found))
]

-- A record that is whole is seen in the longer file too.
pub record_ahead-append :
    (file extra : List ℕ) (o : ℕ) {size : ℕ}
    → record_ahead file o ≡ some size
    → record_ahead (file ++ extra) o ≡ some size
unfolding record_ahead
record_ahead-append file extra o {size} h =
    let parts = record_ahead-parts file o h in
    let same =
      pread_all-append file extra o block_record_header_size (omega (arith, parts.inside)) in
    let fits =
      ltb-false (length (file ++ extra) - o) (block_record_header_size + size)
        (omega (arith, parts.inside, length-append file extra)) in
    rw (same ∙ parts.header, parts.parsed, record_ahead) (rw fits refl)

pub scan_end-none :
    (fuel : ℕ) (file : List ℕ) (o : ℕ) → record_ahead file o ≡ none → scan_end fuel file o ≡ o
unfolding scan_end
scan_end-none zero file o h = refl
scan_end-none (suc fuel) file o h = rw (h, scan_end) refl

pub scan_end-some :
    (fuel : ℕ) (file : List ℕ) (o : ℕ) {size : ℕ}
    → record_ahead file o ≡ some size
    → scan_end (suc fuel) file o ≡ scan_end fuel file (o + (block_record_header_size + size))
unfolding scan_end
scan_end-some fuel file o h = rw (h, scan_end) refl

scan_end-zero : (file : List ℕ) (o : ℕ) → scan_end zero file o ≡ length file → o ≡ length file
unfolding scan_end
scan_end-zero file o h = h

module _ (c : Crypto) where
  pub scan_loop-none :
      (fuel : ℕ) (file : List ℕ) (o : ℕ) (catalog : Catalog)
      → record_ahead file o ≡ none
      → scan_loop c fuel file o catalog ≡ catalog
  unfolding scan_loop
  scan_loop-none zero file o catalog h = refl
  scan_loop-none (suc fuel) file o catalog h = rw (h, scan_loop) refl

  pub scan_loop-some :
      (fuel : ℕ) (file : List ℕ) (o : ℕ) (catalog : Catalog) {size : ℕ}
      → record_ahead file o ≡ some size
      → scan_loop c (suc fuel) file o catalog
        ≡ scan_loop c fuel file
            (o + (block_record_header_size + size))
            (catalog_record c file o size catalog)
  unfolding scan_loop
  scan_loop-some fuel file o catalog h = rw (h, scan_loop) refl

  -- Fuel with which the scan comes to the end of the file is enough.
  pub scan_loop-whole :
      (fuel more : ℕ) (file : List ℕ) (o : ℕ) (catalog : Catalog)
      → scan_end fuel file o ≡ length file
      → fuel ≤ more
      → (scan_loop c more file o catalog ≡ scan_loop c fuel file o catalog)
        × (scan_end more file o ≡ length file)
  scan_loop-whole fuel zero file o catalog whole l =
      let e : zero ≡ fuel = omega (arith, l) in
      (ap (λ (k : ℕ). scan_loop c k file o catalog) e, rw e whole)
  scan_loop-whole zero (suc more) file o catalog whole l =
      let at_end : o ≡ length file = scan_end-zero file o whole in
      let short = record_ahead-short file o (omega (arith, at_end)) in
      (
        scan_loop-none (suc more) file o catalog short
            ∙ sym (scan_loop-none zero file o catalog short),
        scan_end-none (suc more) file o short ∙ at_end,
      )
  scan_loop-whole (suc fuel) (suc more) file o catalog whole l =
      elim (Option-cases (record_ahead file o)) [
        | inl missing ↦ (
          scan_loop-none (suc more) file o catalog missing
              ∙ sym (scan_loop-none (suc fuel) file o catalog missing),
          scan_end-none (suc more) file o missing
              ∙ sym (scan_end-none (suc fuel) file o missing)
              ∙ whole,
        )
        | inr (size, found) ↦
            let next = o + (block_record_header_size + size) in
            let (loops, ends) =
              scan_loop-whole fuel more file next (catalog_record c file o size catalog)
                (sym (scan_end-some fuel file o found) ∙ whole) (omega (arith, l)) in
            (
              scan_loop-some more file o catalog found
                  ∙ loops
                  ∙ sym (scan_loop-some fuel file o catalog found),
              scan_end-some more file o found ∙ ends,
            )
      ]
