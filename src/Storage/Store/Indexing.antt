-- ===== src/Storage/Store/Indexing.antt =====
-- src/storage.cpp: the index of a chain whose blocks are in the block file.
use binarycoin.Base.{
  ==_iff, >>-eq-ok, >>=-eq-ok, All, All-reverse, IsByte, List, Text, [], ap, arith,
  bad_record_magic, bad_record_version, false, length, ltb, not, not_ltb→le, ok, ok-injective,
  payload_over_limit, payload_size_mismatch, refl, reverse, some, suc, take, text_eq, text_eq_refl,
  ℕ, ◌<◌, ◌==◌, ◌^◌, ◌∷◌, ◌≡◌, ◌≤◌,
}
use binarycoin.Block.{BlockHeader, StoredBlock, hash_hex, header_raw_hash, serialize_header}
use binarycoin.Codec.{read_bytes, read_u32_le, read_u64_le}
use binarycoin.Hash.{hash_to_display_hex}
use binarycoin.Hash.Crypto.{Crypto, sha256d, sha256d_bytes}
use binarycoin.Storage.Lines.Pieces.{Lacks}
use binarycoin.Storage.Records.{
  Catalog, block_record_header_size, block_record_magic, block_record_version, is_other_block,
  load_indexed_chain, pread_all, read_record_at, read_record_header, size_differs,
}
use binarycoin.Storage.Records.Catalogs.{Finds, catalog_find-All}
use binarycoin.Storage.Records.Growth.{pread_all-ok}
use binarycoin.Storage.Store.Appending.{Leads, Storable, Storable-hash}
use binarycoin.Storage.Store.Commit.{index_entries}
use binarycoin.Storage.Texts.{IndexEntry, make_index_text, max_block_record_size, parse_index_text}
use binarycoin.Storage.Texts.CoinLines.{bytes_to_hex-Lacks}
use binarycoin.Storage.Texts.Index.{EntryFits, Numbered, parse_index_text-make_index_text}

-- The heights of the blocks count from `first` on.
abbrev pub Counted : ℕ → List StoredBlock → Type 0
Counted first [] = Unit
Counted first (block ∷ blocks) = (block.height ≡ first) × Counted (suc first) blocks

module _ (c : Crypto) where
  pub hash_hex-Lacks :
      (header : BlockHeader) (separator : ℕ) {hash : Text}
      → separator < b'0'
      → hash_hex c header ≡ ok hash
      → Lacks separator hash
  unfolding hash_hex header_raw_hash hash_to_display_hex
  hash_hex-Lacks header separator small h =
      let (digest, e1, h1) = >>=-eq-ok (header_raw_hash c header) _ h in
      let (bytes, e2, h2) = >>=-eq-ok (serialize_header header) _ e1 in
      rw (← ok-injective h1, ← ok-injective h2)
        (bytes_to_hex-Lacks separator (reverse (sha256d c bytes)) small
          (All-reverse IsByte (sha256d c bytes) (sha256d_bytes c bytes)))

  read_record_header-small :
      (bytes : List ℕ) {size : ℕ} {checksum : List ℕ}
      → read_record_header bytes ≡ ok (size, checksum)
      → size ≤ max_block_record_size
  unfolding read_record_header
  read_record_header-small bytes h =
      let (_, h1) =
        >>-eq-ok (not (text_eq (take 4 bytes) block_record_magic)) bad_record_magic _ h in
      let ((version, o1), e2, h2) = >>=-eq-ok (read_u32_le bytes 4) _ h1 in
      let (_, h3) = >>-eq-ok (not (version == block_record_version)) bad_record_version _ h2 in
      let ((size, o2), e4, h4) = >>=-eq-ok (read_u64_le bytes o1) _ h3 in
      let (fits, h5) = >>-eq-ok (ltb max_block_record_size size) payload_over_limit _ h4 in
      let ((sum, o3), e6, h6) = >>=-eq-ok (read_bytes bytes o2 32) _ h5 in
      rw (← ap (λ (r : ℕ × List ℕ). r.0) (ok-injective h6)) (not_ltb→le _ _ fits)

  -- What is read lies in the file, and within the limit.
  read_record_at-bounds :
      (file : List ℕ) (o size : ℕ) {block : StoredBlock}
      → read_record_at c file o (some size) ≡ ok block
      → (o < length file) × (size ≤ max_block_record_size)
  unfolding read_record_at size_differs
  read_record_at-bounds file o size h =
      let (bytes, e1, h1) = >>=-eq-ok (pread_all file o block_record_header_size) _ h in
      let ((found, checksum), e2, h2) = >>=-eq-ok (read_record_header bytes) _ h1 in
      let (same, h3) = >>-eq-ok (not (found == size)) payload_size_mismatch _ h2 in
      let (inside, _) = pread_all-ok file o block_record_header_size e1 in
      let small = read_record_header-small bytes e2 in
      (omega (arith, inside), equal found same small)
    where
      equal :
          (found : ℕ)
          → not (found == size) ≡ false
          → found ≤ max_block_record_size
          → size ≤ max_block_record_size
      equal found same small = ground arith

  module _ (chain : List StoredBlock) (file : List ℕ) (small : length file < 2 ^ 64) where
    -- The entries of the blocks from some block of the chain on.
    pub record Indexed (catalog : Catalog) (todo : List StoredBlock) (first : ℕ) : Type 0 where
      pub entries : List IndexEntry
      pub made : index_entries c catalog todo ≡ ok entries
      pub loads : load_indexed_chain c file entries ≡ ok todo
      pub fit : All EntryFits entries
      pub numbered : Numbered first entries

    pub index_entries_lem :
        (catalog : Catalog) (todo : List StoredBlock) (first : ℕ)
        → All (Leads c chain file) catalog
        → ((P : StoredBlock → Type 0) → All P chain → All P todo)
        → All (Storable c) todo
        → All (λ b. (hash : Text) → hash_hex c b.block.header ≡ ok hash → Finds hash catalog) todo
        → Counted first todo
        → Indexed catalog todo first
    unfolding index_entries load_indexed_chain is_other_block
    index_entries_lem catalog [] first leads sub s f n = record {
      entries = [];
      made = refl;
      loads = refl;
      fit = tt;
      numbered = tt;
    }
    index_entries_lem catalog (block ∷ todo) first leads sub (s, ss) (f, fs) (n, ns) =
        let (hash, hashed) = Storable-hash c block s in
        let (entry, found) = f hash hashed in
        let lead = catalog_find-All (Leads c chain file) hash catalog leads found in
        let same : lead.sound.block ≡ block = (sub _ lead.agrees).0 hashed in
        let read = rw same at lead.sound.read in
        let (inside, fits) = read_record_at-bounds file entry.offset entry.payload_size read in
        let rest = index_entries_lem catalog todo (suc first) leads (λ P h. (sub P h).1) ss fs ns in
        record {
          entries = record entry { height = block.height } ∷ rest.entries;
          made = rw (hashed, found, rest.made) refl;
          loads =
              rw
                (
                  read,
                  hashed,
                  (==_iff block.height block.height).1 refl,
                  lead.sound.named,
                  text_eq_refl hash,
                  rest.loads,
                )
                refl;
          fit = (
            record {
              height = s.fits.height;
              offset = omega (arith, inside, small);
              payload_size = fits;
              no_tab =
                  rw lead.sound.named (hash_hex-Lacks block.block.header 9 (omega arith) hashed);
              no_line_feed =
                  rw lead.sound.named (hash_hex-Lacks block.block.header 10 (omega arith) hashed);
            },
            rest.fit,
          );
          numbered = (n, rest.numbered);
        }

  pub parse_index_lem :
      (first : StoredBlock) (rest : List StoredBlock) (file : List ℕ) (entries : List IndexEntry)
      → load_indexed_chain c file entries ≡ ok (first ∷ rest)
      → All EntryFits entries
      → Numbered 0 entries
      → parse_index_text (make_index_text entries) ≡ ok entries
  unfolding load_indexed_chain
  parse_index_lem first rest file [] loads fit numbered = absurd (cc (ok-injective loads))
  parse_index_lem first rest file (entry ∷ entries) loads fit numbered =
      parse_index_text-make_index_text entry entries fit numbered
