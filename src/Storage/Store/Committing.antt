-- ===== src/Storage/Store/Committing.antt =====
-- src/storage.cpp: the writes that a `commit` makes when it returns.
use binarycoin.Base.{
  All, All-map, Bool, List, Option, Option-cases, Result-cases, Text, [], ap, append-nil, arith,
  inl, inr, length, none, ok, refl, some, ℕ, ◌%◌, ◌++◌, ◌+◌, ◌<◌, ◌^◌, ◌∙◌, ◌∷◌, ◌≡◌, ◌⊎◌,
}
use binarycoin.Block.{StoredBlock, hash_hex}
use binarycoin.Hash.Crypto.{Crypto}
use binarycoin.Storage.Disk.{
  Disk, Write, append_bytes, apply_write, apply_writes, available_generations, bytes_of,
}
use binarycoin.Storage.Records.{
  Catalog, catalog_find, make_record_bytes, read_record_at, scan_catalog, scan_loop,
}
use binarycoin.Storage.Records.Catalogs.{Finds, Sound, scan_catalog-Sound}
use binarycoin.Storage.Records.Scan.{IsWhole}
use binarycoin.Storage.Store.{committed_manifest}
use binarycoin.Storage.Store.Appending.{
  Between, InChain, Leads, Storable, append_records_lem, disk_of,
}
use binarycoin.Storage.Store.Commit.{
  after_newest, append_records, block_writes, commit_behind, commit_writes, manifest_for_generation,
  manifest_writes, next_generation, publish,
}
use binarycoin.Storage.Store.Indexing.{Counted}
use binarycoin.Storage.Store.Interrupted.{Harmless, Interrupted, next, stop, torn}
use binarycoin.Storage.Store.Publishing.{Published, Published-chain}
use binarycoin.Storage.Texts.{Manifest}
use binarycoin.Storage.Texts.CoinLines.{CoinFits}
use binarycoin.Storage.Texts.Snapshot.{IsAscending}
use binarycoin.Utxo.{UtxoSet}
use mathlib.Core.Path.{subst}

next_generation-small : (disk : Disk) → next_generation disk < 2 ^ 64
unfolding next_generation
next_generation-small disk = elim (Result-cases (committed_manifest disk)) [
  | inl (m, e) ↦ rw (e, next_generation) (omega arith)
  | inr (error, e) ↦ rw (e, next_generation) (newest (available_generations disk.files))
]
  where
    newest : (gs : List ℕ) → after_newest gs < 2 ^ 64
    newest [] = omega arith
    newest (g ∷ gs) = omega arith

pub next_generation-manifest :
    (disk : Disk) {m : Manifest}
    → committed_manifest disk ≡ ok m
    → next_generation disk ≡ (m.generation + 1) % 2 ^ 64
unfolding next_generation
next_generation-manifest disk e = rw (e, next_generation) refl

-- A cut in two rows of writes is one in the first, or in the second behind the first.
pub Interrupted-split :
    (xs ys : List Write) (disk disk' : Disk)
    → Interrupted (xs ++ ys) disk disk'
    → Interrupted xs disk disk' ⊎ Interrupted ys (apply_writes xs disk) disk'
unfolding apply_writes
Interrupted-split [] ys disk disk' i = inr i
Interrupted-split (x ∷ xs) ys disk disk' stop = inl stop
Interrupted-split (x ∷ xs) ys disk disk' (torn first behind bytes e) =
    inl (torn first behind bytes e)
Interrupted-split (x ∷ xs) ys disk disk' (next i) =
    elim (Interrupted-split xs ys (apply_write x disk) disk' i) [
      | inl early ↦ inl (next early)
      | inr late ↦ inr late
    ]

pub apply_writes-append :
    (xs ys : List Write) (disk : Disk)
    → apply_writes (xs ++ ys) disk ≡ apply_writes ys (apply_writes xs disk)
unfolding apply_writes
apply_writes-append [] ys disk = refl
apply_writes-append (x ∷ xs) ys disk = apply_writes-append xs ys (apply_write x disk)

module _ (c : Crypto) where
  scan_catalog-bytes : (f : Option (List ℕ)) → scan_catalog c f ≡ scan_catalog c (some (bytes_of f))
  unfolding scan_catalog scan_loop
  scan_catalog-bytes none = refl
  scan_catalog-bytes (some file) = refl

  abbrev file_of : Disk → List ℕ
  file_of disk = bytes_of disk.blocks_file

  -- What `commit` needs of the chain and of the disk: the block file ends with a whole record and
  -- has no other block with the hash of one of the chain.
  pub record Committable (chain : List StoredBlock) (utxos : UtxoSet) (disk : Disk) : Type 0 where
    pub blocks : All (InChain c chain) chain
    pub counted : Counted 0 chain
    pub coins : All CoinFits utxos
    pub ascending : IsAscending utxos
    pub whole : IsWhole (bytes_of disk.blocks_file)
    pub agrees :
        All
          (λ x.
            (block : StoredBlock)
            → read_record_at c (bytes_of disk.blocks_file) x.1.offset (some x.1.payload_size)
              ≡ ok block
            → All (λ b. hash_hex c b.block.header ≡ ok x.0 → block ≡ b) chain)
          (scan_catalog c (some (bytes_of disk.blocks_file)))
    pub room :
        length (
          bytes_of
            (apply_writes (append_bytes [] ∷ (block_writes c chain disk).0) disk).blocks_file)
        < 2 ^ 64

  leads_lem :
      (chain : List StoredBlock) (file : List ℕ) (catalog : Catalog)
      → All (Sound c file) catalog
      → All
          (λ x.
            (block : StoredBlock)
            → read_record_at c file x.1.offset (some x.1.payload_size) ≡ ok block
            → All (λ b. hash_hex c b.block.header ≡ ok x.0 → block ≡ b) chain)
          catalog
      → All (Leads c chain file) catalog
  leads_lem chain file [] s a = tt
  leads_lem chain file (x ∷ catalog) (s, ss) (a, as') =
      (record { sound = s; agrees = a s.block s.read }, leads_lem chain file catalog ss as')

  -- The writes of a `commit` that returns.
  pub record Committed (migrated : Bool) (chain : List StoredBlock) (utxos : UtxoSet) (disk : Disk)
      : Type 0 where
    pub appends : List Write
    pub file' : List ℕ
    pub catalog' : Catalog
    pub room : length file' < 2 ^ 64
    pub between : Between c chain file' catalog'
    pub found :
        All (λ b. (hash : Text) → hash_hex c b.block.header ≡ ok hash → Finds hash catalog') chain
    pub g : ℕ
    pub next : g ≡ next_generation (disk_of file' disk.files)
    pub applied : apply_writes (append_bytes [] ∷ appends) disk ≡ disk_of file' disk.files
    pub appending : (m : Manifest) → All (Harmless m) (append_bytes [] ∷ appends)
    pub published : Published c chain utxos g file'
    pub run : commit_writes c migrated chain utxos disk ≡ (
      append_bytes [] ∷ appends
          ++ manifest_writes migrated
              (published.index_text, published.utxo_text, published.manifest)
              (disk_of file' disk.files),
      ok (published.manifest, catalog'),
    )

  append_records-Harmless :
      (m : Manifest) (blocks : List StoredBlock) (catalog : Catalog) (o : ℕ)
      → All (Harmless m) (append_records c catalog o blocks).0
  unfolding append_records
  append_records-Harmless m [] catalog o = tt
  append_records-Harmless m (block ∷ rest) catalog o =
      elim (Result-cases (hash_hex c block.block.header)) [
        | inr (e, failed) ↦ rw (failed, append_records) tt
        | inl (hash, hashed) ↦ elim (Option-cases (catalog_find hash catalog)) [
          | inr (entry, there) ↦
              rw (hashed, there, append_records) (append_records-Harmless m rest catalog o)
          | inl unknown ↦ elim (Result-cases (make_record_bytes c block)) [
            | inr (e, failed) ↦ rw (hashed, unknown, failed, append_records) tt
            | inl (bytes, made) ↦
                rw (hashed, unknown, made, append_records) (tt, append_records-Harmless m rest _ _)
          ]
        ]
      ]

  commit_writes_lem :
      (migrated : Bool) (first : StoredBlock) (rest : List StoredBlock) (utxos : UtxoSet)
      (disk d : Disk) (appends : List Write) (catalog' : Catalog) (i u : Text) (m : Manifest)
      → block_writes c (first ∷ rest) disk ≡ (appends, ok catalog')
      → apply_writes (append_bytes [] ∷ appends) disk ≡ d
      → manifest_for_generation c (next_generation d) (first ∷ rest) utxos d ≡ ok (i, u, m)
      → commit_writes c migrated (first ∷ rest) utxos disk
        ≡ (append_bytes [] ∷ appends ++ manifest_writes migrated (i, u, m) d, ok (m, catalog'))
  unfolding commit_writes commit_behind publish
  commit_writes_lem migrated first rest utxos disk d appends catalog' i u m run applied made =
      ap (commit_behind c migrated (first ∷ rest) utxos disk) run
      ∙ ap
          (λ (d' : Disk).
            publish c migrated (first ∷ rest) utxos d' (append_bytes [] ∷ appends) catalog')
          applied
      ∙ rw (made, publish) refl

  started :
      (writes : List Write) (disk : Disk)
      → apply_writes (append_bytes [] ∷ writes) disk
        ≡ apply_writes writes (disk_of (bytes_of disk.blocks_file) disk.files)
  unfolding apply_writes
  started writes disk =
      ap (λ (file : List ℕ). apply_writes writes (disk_of file disk.files))
        (append-nil (bytes_of disk.blocks_file))

  pub Committed-chain :
      (migrated : Bool) (first : StoredBlock) (rest : List StoredBlock) (utxos : UtxoSet)
      (disk : Disk)
      → Committable (first ∷ rest) utxos disk
      → Committed migrated (first ∷ rest) utxos disk
  Committed-chain migrated first rest utxos disk h =
      let chain = first ∷ rest in
      let file = bytes_of disk.blocks_file in
      let catalog = scan_catalog c (some file) in
      let a = append_records_lem c chain chain file catalog h.blocks (record {
        whole = h.whole;
        scanned = refl;
        leads = leads_lem chain file catalog (scan_catalog-Sound c file) h.agrees;
      }) in
      let run : block_writes c chain disk ≡ (a.writes, ok a.catalog') =
        rw (scan_catalog-bytes disk.blocks_file) a.run in
      let applied : apply_writes (append_bytes [] ∷ a.writes) disk ≡ disk_of a.file' disk.files =
        started a.writes disk ∙ a.applied disk.files in
      let room : length a.file' < 2 ^ 64 =
        subst (λ (d : Disk). length (bytes_of d.blocks_file) < 2 ^ 64) applied (rw run at h.room) in
      let g = next_generation (disk_of a.file' disk.files) in
      let storable = All-map (InChain c chain) (Storable c) chain (λ b i. i.storable) h.blocks in
      let p =
        Published-chain c first rest utxos g a.file' a.catalog' room
          (next_generation-small (disk_of a.file' disk.files)) a.between storable a.found h.counted
          h.coins h.ascending in
      record {
        appends = a.writes;
        file' = a.file';
        catalog' = a.catalog';
        room = room;
        between = a.between;
        found = a.found;
        g = g;
        next = refl;
        applied = applied;
        appending = λ m. (tt, rw a.run at (append_records-Harmless m chain catalog (length file)));
        published = p;
        run =
            commit_writes_lem migrated first rest utxos disk (disk_of a.file' disk.files) a.writes
              a.catalog' p.index_text p.utxo_text p.manifest run applied (p.made disk.files);
      }
