-- ===== src/Storage/Records/Catalogs.antt =====
-- src/storage.cpp: the entries of the catalog lead to the blocks.
use binarycoin.Base.{
  All, Bool-cases, List, Option-cases, Result-cases, Text, [], inl, inr, length, ok, refl, some,
  some-injective, suc, text_eq, text_eq_iff, text_eq_refl, text_less, zero, ℕ, ◌++◌, ◌∷◌, ◌≡◌,
}
use binarycoin.Block.{StoredBlock, hash_hex}
use binarycoin.Hash.Crypto.{Crypto}
use binarycoin.Storage.Records.{
  Catalog, catalog_emplace, catalog_find, catalog_record, read_record_at, record_ahead,
  scan_catalog, scan_loop,
}
use binarycoin.Storage.Records.Growth.{read_record_at-append}
use binarycoin.Storage.Texts.{IndexEntry}

module _ {ℓ} (P : Text × IndexEntry → Type ℓ) where
  pub catalog_emplace-All :
      (hash : Text) (entry : IndexEntry) (catalog : Catalog)
      → P (hash, entry)
      → All P catalog
      → All P (catalog_emplace hash entry catalog)
  unfolding catalog_emplace
  catalog_emplace-All hash entry [] p h = (p, tt)
  catalog_emplace-All hash entry ((key, old) ∷ rest) p (h, hs) =
      elim (Bool-cases (text_less hash key)) [
        | inl less ↦ rw less (p, (h, hs))
        | inr more ↦ elim (Bool-cases (text_eq key hash)) [
          | inl same ↦ rw (more, same) (h, hs)
          | inr other ↦ rw (more, other) (h, catalog_emplace-All hash entry rest p hs)
        ]
      ]

  pub catalog_find-All :
      (hash : Text) (catalog : Catalog) {entry : IndexEntry}
      → All P catalog
      → catalog_find hash catalog ≡ some entry
      → P (hash, entry)
  unfolding catalog_find
  catalog_find-All hash [] h found = absurd (cc found)
  catalog_find-All hash ((key, old) ∷ rest) {entry} (h, hs) found =
      elim (Bool-cases (text_eq key hash)) [
        | inl same ↦
            let e : key ≡ hash = (text_eq_iff key hash).0 same in
            let e' : old ≡ entry = some-injective (rw same at found) in rw (← e, ← e') h
        | inr other ↦ catalog_find-All hash rest hs (rw other at found)
      ]

-- The catalog has an entry for the hash.
abbrev pub Finds : Text → Catalog → Type 0
Finds hash catalog = (entry : IndexEntry) × (catalog_find hash catalog ≡ some entry)

pub Finds-emplace_self :
    (hash : Text) (entry : IndexEntry) (catalog : Catalog)
    → Finds hash (catalog_emplace hash entry catalog)
unfolding catalog_emplace catalog_find
Finds-emplace_self hash entry [] = (entry, rw (text_eq_refl hash) refl)
Finds-emplace_self hash entry ((key, old) ∷ rest) = elim (Bool-cases (text_less hash key)) [
  | inl less ↦ rw less (entry, rw (text_eq_refl hash) refl)
  | inr more ↦ elim (Bool-cases (text_eq key hash)) [
    | inl same ↦ rw (more, same) (old, rw same refl)
    | inr other ↦
        let (found, e) = Finds-emplace_self hash entry rest in rw (more, other) (found, rw other e)
  ]
]

pub Finds-emplace :
    (hash key : Text) (entry : IndexEntry) (catalog : Catalog)
    → Finds hash catalog
    → Finds hash (catalog_emplace key entry catalog)
unfolding catalog_emplace catalog_find
Finds-emplace hash key entry [] (found, e) = absurd (cc e)
Finds-emplace hash key entry ((k, old) ∷ rest) (found, e) = elim (Bool-cases (text_less key k)) [
  | inl less ↦ elim (Bool-cases (text_eq key hash)) [
    | inl same ↦ rw less (entry, rw same refl)
    | inr other ↦ rw less (found, rw other e)
  ]
  | inr more ↦ elim (Bool-cases (text_eq k key)) [
    | inl same ↦ rw (more, same) (found, e)
    | inr other ↦ elim (Bool-cases (text_eq k hash)) [
      | inl here ↦ rw (more, other) (old, rw here refl)
      | inr later ↦
          let (found', e') = Finds-emplace hash key entry rest (found, rw later at e) in
          rw (more, other) (found', rw later e')
    ]
  ]
]

module _ (c : Crypto) where
  -- The entry leads to a block with the hash, in the file.
  pub record Sound (file : List ℕ) (x : Text × IndexEntry) : Type 0 where
    pub block : StoredBlock
    pub named : x.1.hash ≡ x.0
    pub read : read_record_at c file x.1.offset (some x.1.payload_size) ≡ ok block
    pub hashed : hash_hex c block.block.header ≡ ok x.0

  pub Sound-append :
      (file extra : List ℕ) (catalog : Catalog)
      → All (Sound file) catalog
      → All (Sound (file ++ extra)) catalog
  Sound-append file extra [] h = tt
  Sound-append file extra ((hash, entry) ∷ rest) (h, hs) = (
    record {
      block = h.block;
      named = h.named;
      read = read_record_at-append c file extra entry.offset (some entry.payload_size) h.read;
      hashed = h.hashed;
    },
    Sound-append file extra rest hs,
  )

  pub catalog_record-ok :
      (file : List ℕ) (o size : ℕ) (catalog : Catalog) {block : StoredBlock} {hash : Text}
      → read_record_at c file o (some size) ≡ ok block
      → hash_hex c block.block.header ≡ ok hash
      → catalog_record c file o size catalog
        ≡ catalog_emplace hash
            (record { height = block.height; offset = o; payload_size = size; hash = hash })
            catalog
  unfolding catalog_record
  catalog_record-ok file o size catalog read hashed = rw (read, hashed, catalog_record) refl

  catalog_record-Sound :
      (file : List ℕ) (o size : ℕ) (catalog : Catalog)
      → All (Sound file) catalog
      → All (Sound file) (catalog_record c file o size catalog)
  unfolding catalog_record
  catalog_record-Sound file o size catalog h =
      elim (Result-cases (read_record_at c file o (some size))) [
        | inr (e, failed) ↦ rw (failed, catalog_record) h
        | inl (block, read) ↦ elim (Result-cases (hash_hex c block.block.header)) [
          | inr (e, failed) ↦ rw (read, failed, catalog_record) h
          | inl (hash, hashed) ↦
              rw (read, hashed, catalog_record)
                (catalog_emplace-All (Sound file) hash _ catalog
                  (record { block = block; named = refl; read = read; hashed = hashed }) h)
        ]
      ]

  scan_loop-Sound :
      (fuel : ℕ) (file : List ℕ) (o : ℕ) (catalog : Catalog)
      → All (Sound file) catalog
      → All (Sound file) (scan_loop c fuel file o catalog)
  unfolding scan_loop
  scan_loop-Sound zero file o catalog h = h
  scan_loop-Sound (suc fuel) file o catalog h = elim (Option-cases (record_ahead file o)) [
    | inl missing ↦ rw (missing, scan_loop) h
    | inr (size, found) ↦
        rw (found, scan_loop)
          (scan_loop-Sound fuel file _ (catalog_record c file o size catalog)
            (catalog_record-Sound file o size catalog h))
  ]

  -- Every entry that a scan finds names the hash of a block, and the offset and the size at which
  -- that block is read from the file.
  pub scan_catalog-Sound : (file : List ℕ) → All (Sound file) (scan_catalog c (some file))
  unfolding scan_catalog
  scan_catalog-Sound file = scan_loop-Sound (length file) file 0 [] tt
