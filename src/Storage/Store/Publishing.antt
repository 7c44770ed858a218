-- ===== src/Storage/Store/Publishing.antt =====
-- src/storage.cpp: the index, the snapshot and the manifest of a chain whose blocks are in the block
-- file.
use binarycoin.AmountText.{padded}
use binarycoin.AmountText.RoundTrip.{padded_digits}
use binarycoin.Base.{
  ==_iff, All, All-append, List, Text, [], arith, codes, false, length, ok, refl, some,
  text_eq_refl, ℕ, ◌++◌, ◌<◌, ◌==◌, ◌^◌, ◌∷◌, ◌≡◌,
}
use binarycoin.Block.{StoredBlock, hash_hex}
use binarycoin.Hash.Crypto.{Crypto, sha256, sha256_bytes}
use binarycoin.Storage.Disk.{Disk, file_find, generation_name, index_name, utxo_name}
use binarycoin.Storage.Lines.Pieces.{Lacks, Lacks-digits, Lacks-literal}
use binarycoin.Storage.Records.{Catalog, load_indexed_chain}
use binarycoin.Storage.Records.Catalogs.{Finds}
use binarycoin.Storage.Store.{
  back, check_tip, is_damaged, last_block, load_index, load_manifest_generation, read_file_bytes,
  sha256_hex,
}
use binarycoin.Storage.Store.Appending.{Between, Storable, Storable-hash}
use binarycoin.Storage.Store.Cleanup.{OwnFiles}
use binarycoin.Storage.Store.Commit.{manifest_for_generation}
use binarycoin.Storage.Store.Indexing.{Counted, hash_hex-Lacks, index_entries_lem, parse_index_lem}
use binarycoin.Storage.Texts.{IndexEntry, Manifest, make_index_text, make_utxo_text}
use binarycoin.Storage.Texts.CoinLines.{CoinFits, bytes_to_hex-Lacks}
use binarycoin.Storage.Texts.Index.{EntryFits, Numbered}
use binarycoin.Storage.Texts.Manifests.{ManifestFits}
use binarycoin.Storage.Texts.Snapshot.{IsAscending, parse_utxo_text-make_utxo_text}
use binarycoin.Utxo.{UtxoSet}

generation_name-Lacks :
    (prefix : Text) (g : ℕ) → Lacks 10 prefix → Lacks 10 (generation_name prefix g)
unfolding generation_name
generation_name-Lacks prefix g h =
    All-append (λ (c : ℕ). (c == 10) ≡ false) prefix (padded 20 g ++ codes ".tsv") h
      (All-append (λ (c : ℕ). (c == 10) ≡ false) (padded 20 g) (codes ".tsv")
        (Lacks-digits 10 (padded 20 g) (omega arith) (padded_digits 20 g))
        (Lacks-literal 10 (codes ".tsv") refl))

back-All {ℓ} :
    (P : StoredBlock → Type ℓ) (first : StoredBlock) (rest : List StoredBlock)
    → All P (first ∷ rest)
    → P (back first rest)
unfolding back
back-All P first [] h = h.0
back-All P first (second ∷ rest) h = back-All P second rest h.1

pub read_found :
    (name : Text) (disk : Disk) {bytes : List ℕ}
    → file_find name disk.files ≡ some bytes
    → read_file_bytes name disk ≡ ok bytes
unfolding read_file_bytes
read_found name disk h = rw (h, read_file_bytes) refl

module _ (c : Crypto) where
  sha256_hex-Lacks : (bytes : List ℕ) → Lacks 10 (sha256_hex c bytes)
  unfolding sha256_hex
  sha256_hex-Lacks bytes =
      bytes_to_hex-Lacks 10 (sha256 c bytes) (omega arith) (sha256_bytes c bytes)

  undamaged : (bytes : List ℕ) → is_damaged c bytes (sha256_hex c bytes) ≡ false
  unfolding is_damaged
  undamaged bytes = rw (text_eq_refl (sha256_hex c bytes)) refl

  load_index_lem :
      (first : StoredBlock) (rest : List StoredBlock) (file : List ℕ) (entries : List IndexEntry)
      (disk : Disk)
      → disk.blocks_file ≡ some file
      → load_indexed_chain c file entries ≡ ok (first ∷ rest)
      → All EntryFits entries
      → Numbered 0 entries
      → load_index c (make_index_text entries) disk ≡ ok (first ∷ rest)
  unfolding load_index
  load_index_lem first rest file entries disk there loads fit numbered =
      rw (parse_index_lem c first rest file entries loads fit numbered, there) loads

  check_tip_lem :
      (m : Manifest) (first : StoredBlock) (rest : List StoredBlock) (utxos : UtxoSet)
      → m.height ≡ (back first rest).height
      → hash_hex c (back first rest).block.header ≡ ok m.bestblock
      → (back first rest).height < 2 ^ 64
      → Lacks 10 m.bestblock
      → All CoinFits utxos
      → IsAscending utxos
      → check_tip c m (make_utxo_text utxos (back first rest).height m.bestblock) (first ∷ rest)
        ≡ ok (record {
          blocks = first ∷ rest;
          utxos = utxos;
          generation = m.generation;
          height = (back first rest).height;
        })
  unfolding check_tip last_block
  check_tip_lem m first rest utxos same hashed small clean coins ascending =
      rw
        (
          hashed,
          same,
          (==_iff (back first rest).height (back first rest).height).1 refl,
          text_eq_refl m.bestblock,
          parse_utxo_text-make_utxo_text utxos (back first rest).height m.bestblock coins ascending
              small clean,
        )
        refl

  -- The texts of a generation, and that they load.
  pub record Published (chain : List StoredBlock) (utxos : UtxoSet) (g : ℕ) (file : List ℕ)
      : Type 0 where
    pub index_text : Text
    pub utxo_text : Text
    pub manifest : Manifest
    pub made :
        (files : List (Text × List ℕ))
        → manifest_for_generation c g chain utxos
            (record { blocks_file = some file; files = files })
          ≡ ok (index_text, utxo_text, manifest)
    pub generation : manifest.generation ≡ g
    pub own : OwnFiles manifest
    pub fits : ManifestFits manifest
    pub loads :
        (disk : Disk)
        → disk.blocks_file ≡ some file
        → file_find manifest.index_file disk.files ≡ some index_text
        → file_find manifest.utxo_file disk.files ≡ some utxo_text
        → (height : ℕ) × (load_manifest_generation c manifest disk
            ≡ ok (record { blocks = chain; utxos = utxos; generation = g; height = height }))

  pub Published-chain :
      (first : StoredBlock) (rest : List StoredBlock) (utxos : UtxoSet) (g : ℕ) (file : List ℕ)
      (catalog : Catalog)
      → length file < 2 ^ 64
      → g < 2 ^ 64
      → Between c (first ∷ rest) file catalog
      → All (Storable c) (first ∷ rest)
      → All
          (λ b. (hash : Text) → hash_hex c b.block.header ≡ ok hash → Finds hash catalog)
          (first ∷ rest)
      → Counted 0 (first ∷ rest)
      → All CoinFits utxos
      → IsAscending utxos
      → Published (first ∷ rest) utxos g file
  unfolding manifest_for_generation last_block load_manifest_generation
  Published-chain first rest utxos g file catalog small gs between s f n coins ascending =
      let indexed =
        index_entries_lem c (first ∷ rest) file small catalog (first ∷ rest) 0 between.leads
          (λ P h. h) s f n in
      let last = back first rest in
      let storable = back-All (Storable c) first rest s in
      let (hash, hashed) = Storable-hash c last storable in
      let index_text = make_index_text indexed.entries in
      let utxo_text = make_utxo_text utxos last.height hash in
      let m : Manifest = record {
        generation = g;
        height = last.height;
        bestblock = hash;
        index_file = index_name g;
        index_sha256 = sha256_hex c index_text;
        utxo_file = utxo_name g;
        utxo_sha256 = sha256_hex c utxo_text;
        block_file_size = length file;
      } in
      record {
        index_text = index_text;
        utxo_text = utxo_text;
        manifest = m;
        made = λ files. rw (between.scanned, indexed.made, hashed) refl;
        generation = refl;
        own = record { small = gs; index = refl; utxo = refl };
        fits = record {
          generation = gs;
          height = storable.fits.height;
          bestblock = hash_hex-Lacks c last.block.header 10 (omega arith) hashed;
          index_file =
              generation_name-Lacks (codes "block-index-v1-") g
                (Lacks-literal 10 (codes "block-index-v1-") refl);
          index_sha256 = sha256_hex-Lacks index_text;
          utxo_file =
              generation_name-Lacks (codes "utxo-v1-") g (Lacks-literal 10 (codes "utxo-v1-") refl);
          utxo_sha256 = sha256_hex-Lacks utxo_text;
          block_file_size = small;
        };
        loads = λ disk there index utxo. (
          last.height,
          rw
              (
                read_found (index_name g) disk index,
                read_found (utxo_name g) disk utxo,
                undamaged index_text,
                undamaged utxo_text,
                load_index_lem first rest file indexed.entries disk there indexed.loads indexed.fit
                    indexed.numbered,
              )
              (check_tip_lem m first rest utxos refl hashed storable.fits.height
                (hash_hex-Lacks c last.block.header 10 (omega arith) hashed) coins ascending),
        );
      }
