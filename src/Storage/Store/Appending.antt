-- ===== src/Storage/Store/Appending.antt =====
-- src/storage.cpp: the part of `commit` that appends the blocks to the block file.
use binarycoin.Base.{
  All, All-map, List, Option-cases, Text, [], ap, append-nil, arith, inl, inr, length,
  length-append, ok, ok-injective, refl, some, sym, ℕ, ◌++◌, ◌-◌, ◌∙◌, ◌∷◌, ◌≡◌, ◌≤◌,
}
use binarycoin.Block.{StoredBlock, hash_hex, header_raw_hash}
use binarycoin.Block.Header.{deserialize_header-serialize_header}
use binarycoin.Hash.{hash_to_display_hex}
use binarycoin.Hash.Crypto.{Crypto, sha256d}
use binarycoin.Storage.Disk.{Disk, Write, append_bytes, apply_writes}
use binarycoin.Storage.Records.{
  Catalog, block_record_header_size, catalog_emplace, catalog_find, catalog_record,
  make_record_bytes, scan_catalog,
}
use binarycoin.Storage.Records.Catalogs.{
  Finds, Finds-emplace, Finds-emplace_self, Sound, catalog_emplace-All, catalog_record-ok,
}
use binarycoin.Storage.Records.Extended.{scan_catalog-append}
use binarycoin.Storage.Records.Frames.{
  Framed, make_record_bytes-Framed, make_record_bytes-ok, read_record_at-Framed,
  record_ahead-Framed,
}
use binarycoin.Storage.Records.Growth.{read_record_at-append}
use binarycoin.Storage.Records.Scan.{IsWhole}
use binarycoin.Storage.Store.Commit.{append_records}
use binarycoin.Storage.Texts.{IndexEntry, max_block_record_size}
use binarycoin.StoredBlocks.{deserialize_stored_block, serialize_stored_block}
use binarycoin.StoredBlocks.RoundTrip.{BlockFits, deserialize_stored_block-serialize_stored_block}

abbrev pub disk_of : List ℕ → List (Text × List ℕ) → Disk
disk_of file files = record { blocks_file = some file; files = files }

module _ (c : Crypto) where
  -- A block that the store takes.
  pub record Storable (block : StoredBlock) : Type 0 where
    pub fits : BlockFits block
    pub small :
        (bytes : List ℕ)
        → serialize_stored_block block ≡ ok bytes
        → length bytes ≤ max_block_record_size

  pub Storable-hash :
      (block : StoredBlock)
      → Storable block
      → (hash : Text) × (hash_hex c block.block.header ≡ ok hash)
  unfolding hash_hex header_raw_hash
  Storable-hash block s =
      let (bytes, e, _, _) = deserialize_header-serialize_header block.block.header s.fits.header in
      (hash_to_display_hex (sha256d c bytes), rw e refl)

  -- Its record, which is read back as the block.
  pub record Recorded (block : StoredBlock) : Type 0 where
    pub bytes : List ℕ
    pub made : make_record_bytes c block ≡ ok bytes
    pub framed : Framed c block bytes
    pub back : deserialize_stored_block framed.payload ≡ ok block

  pub Storable-Recorded : (block : StoredBlock) → Storable block → Recorded block
  Storable-Recorded block s =
      let (payload, e, back) = deserialize_stored_block-serialize_stored_block block s.fits in
      let (bytes, made) = make_record_bytes-ok c block e (s.small payload e) in
      let framed = make_record_bytes-Framed c block made in
      let same = ok-injective (sym e ∙ framed.written) in
      record { bytes = bytes; made = made; framed = framed; back = rw (← same) back }

  module _ (chain : List StoredBlock) where
    -- The entry leads to a block with the hash, and to the chain's own one where it has such a
    -- block.
    pub record Leads (file : List ℕ) (x : Text × IndexEntry) : Type 0 where
      pub sound : Sound c file x
      pub agrees : All (λ b. hash_hex c b.block.header ≡ ok x.0 → sound.block ≡ b) chain

    Leads-append :
        (file extra : List ℕ) (catalog : Catalog)
        → All (Leads file) catalog
        → All (Leads (file ++ extra)) catalog
    Leads-append file extra [] h = tt
    Leads-append file extra ((hash, entry) ∷ rest) (h, hs) = (
      record {
        sound = record {
          block = h.sound.block;
          named = h.sound.named;
          read =
              read_record_at-append c file extra entry.offset (some entry.payload_size)
                h.sound.read;
          hashed = h.sound.hashed;
        };
        agrees = h.agrees;
      },
      Leads-append file extra rest hs,
    )

    -- The block file between two blocks of the loop, with the catalog in memory.
    pub record Between (file : List ℕ) (catalog : Catalog) : Type 0 where
      pub whole : IsWhole file
      pub scanned : scan_catalog c (some file) ≡ catalog
      pub leads : All (Leads file) catalog

    -- A block of the chain whose hash no other block of the chain has.
    pub record InChain (block : StoredBlock) : Type 0 where
      pub storable : Storable block
      pub alone :
          All (λ b. hash_hex c block.block.header ≡ hash_hex c b.block.header → block ≡ b) chain

    -- What the loop comes to.
    pub record Appended (todo : List StoredBlock) (file : List ℕ) (catalog : Catalog) : Type 0 where
      pub writes : List Write
      pub catalog' : Catalog
      pub file' : List ℕ
      pub run : append_records c catalog (length file) todo ≡ (writes, ok catalog')
      pub applied :
          (files : List (Text × List ℕ))
          → apply_writes writes (disk_of file files) ≡ disk_of file' files
      pub between : Between file' catalog'
      pub kept : (hash : Text) → Finds hash catalog → Finds hash catalog'
      pub found :
          All (λ b. (hash : Text) → hash_hex c b.block.header ≡ ok hash → Finds hash catalog') todo

    append_one :
        (block : StoredBlock) (hash : Text) (file : List ℕ) (catalog : Catalog) (r : Recorded block)
        → InChain block
        → hash_hex c block.block.header ≡ ok hash
        → Between file catalog
        → Between (file ++ r.bytes) (
            catalog_emplace hash
              (record {
                height = block.height;
                offset = length file;
                payload_size = length r.bytes - block_record_header_size;
                hash = hash;
              })
              catalog)
    append_one block hash file catalog r i hashed b =
        let size = length r.framed.payload in
        let e : length r.bytes - block_record_header_size ≡ size = omega (arith, r.framed.size) in
        let seen =
          rw (append-nil r.bytes) at (record_ahead-Framed c block r.bytes file [] r.framed) in
        let read =
          rw (append-nil r.bytes) at
            (read_record_at-Framed c block r.bytes file [] r.framed r.back) in
        let (scanned, whole) = scan_catalog-append c file r.bytes size r.framed.size b.whole seen in
        rw e (record {
          whole = whole;
          scanned =
              scanned
              ∙ ap (catalog_record c (file ++ r.bytes) (length file) size) b.scanned
              ∙ catalog_record-ok c (file ++ r.bytes) (length file) size catalog read hashed;
          leads =
              catalog_emplace-All (Leads (file ++ r.bytes)) hash _ catalog
                (record {
                  sound = record { block = block; named = refl; read = read; hashed = hashed };
                  agrees = All-map _ _ chain (λ other same. λ e'. same (hashed ∙ sym e')) i.alone;
                })
                (Leads-append file r.bytes catalog b.leads);
        })

    pub append_records_lem :
        (todo : List StoredBlock) (file : List ℕ) (catalog : Catalog)
        → All InChain todo
        → Between file catalog
        → Appended todo file catalog
    unfolding append_records apply_writes
    append_records_lem [] file catalog i b = record {
      writes = [];
      catalog' = catalog;
      file' = file;
      run = refl;
      applied = λ files. refl;
      between = b;
      kept = λ hash f. f;
      found = tt;
    }
    append_records_lem (block ∷ todo) file catalog (i, is) b =
        let (hash, hashed) = Storable-hash block i.storable in
        elim (Option-cases (catalog_find hash catalog)) [
          | inr (entry, known) ↦
              let rest = append_records_lem todo file catalog is b in
              record {
                writes = rest.writes;
                catalog' = rest.catalog';
                file' = rest.file';
                run = rw (hashed, known, append_records) rest.run;
                applied = rest.applied;
                between = rest.between;
                kept = rest.kept;
                found = (
                  (λ h e. rest.kept h (rw (ok-injective (sym e ∙ hashed)) (entry, known))),
                  rest.found,
                );
              }
          | inl unknown ↦
              let r = Storable-Recorded block i.storable in
              let entry : IndexEntry = record {
                height = block.height;
                offset = length file;
                payload_size = length r.bytes - block_record_header_size;
                hash = hash;
              } in
              let rest =
                append_records_lem todo (file ++ r.bytes) (catalog_emplace hash entry catalog) is
                  (append_one block hash file catalog r i hashed b) in
              let run = rw (length-append file r.bytes) at rest.run in
              record {
                writes = append_bytes r.bytes ∷ rest.writes;
                catalog' = rest.catalog';
                file' = rest.file';
                run = rw (hashed, unknown, r.made, append_records) (rw run refl);
                applied = λ files. rest.applied files;
                between = rest.between;
                kept = λ h f. rest.kept h (Finds-emplace h hash entry catalog f);
                found = (
                  (λ h e.
                      rest.kept h (
                        rw (ok-injective (sym e ∙ hashed))
                          (Finds-emplace_self hash entry catalog))),
                  rest.found,
                );
              }
        ]
