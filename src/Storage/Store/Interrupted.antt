-- ===== src/Storage/Store/Interrupted.antt =====
-- src/storage.cpp: a `commit` that is cut off at any of its writes.
use binarycoin.Base.{
  >>-eq-ok, >>=-eq-ok, All, List, Option, Text, [], ap, append-nil, append_assoc, false,
  index_checksum, none, ok, refl, snapshot_checksum, some, sym, text_eq, ℕ, ◌++◌, ◌∙◌, ◌∷◌, ◌≡◌,
}
use binarycoin.Block.{StoredBlock}
use binarycoin.Hash.Crypto.{Crypto}
use binarycoin.Storage.Disk.{
  Disk, Write, append_bytes, apply_write, apply_writes, bytes_of, file_find, manifest_name,
  put_file, remove_file,
}
use binarycoin.Storage.Disk.Files.{file_find-put, file_find-remove}
use binarycoin.Storage.Records.Growth.{load_indexed_chain-append}
use binarycoin.Storage.Store.{
  LoadedChain, committed_manifest, is_damaged, load_committed, load_index, load_manifest_generation,
  read_file_bytes, the_file,
}
use binarycoin.Storage.Texts.{Manifest, parse_index_text}

-- What a crash during the writes leaves: the first of them are done, and of one that appends, the
-- first bytes.
pub data Interrupted : List Write → Disk → Disk → Type 0 where
  stop : {writes : List Write} {disk : Disk} → Interrupted writes disk disk
  torn :
      {rest : List Write} {disk : Disk} (first behind bytes : List ℕ)
      → bytes ≡ first ++ behind
      → Interrupted (append_bytes bytes ∷ rest) disk (apply_write (append_bytes first) disk)
  next :
      {write : Write} {rest : List Write} {disk disk' : Disk}
      → Interrupted rest (apply_write write disk) disk'
      → Interrupted (write ∷ rest) disk disk'

-- What a chain that can be loaded by a manifest hangs on is still on the disk.
pub record Keeps (m : Manifest) (disk disk' : Disk) : Type 0 where
  pub grown :
      (file : List ℕ)
      → disk.blocks_file ≡ some file
      → (extra : List ℕ) × (disk'.blocks_file ≡ some (file ++ extra))
  pub manifest : file_find manifest_name disk'.files ≡ file_find manifest_name disk.files
  pub index : file_find m.index_file disk'.files ≡ file_find m.index_file disk.files
  pub utxo : file_find m.utxo_file disk'.files ≡ file_find m.utxo_file disk.files

Keeps-refl : (m : Manifest) (disk : Disk) → Keeps m disk disk
Keeps-refl m disk = record {
  grown = λ file e. ([], e ∙ ap some (sym (append-nil file)));
  manifest = refl;
  index = refl;
  utxo = refl;
}

Keeps-trans : {m : Manifest} {a b d : Disk} → Keeps m a b → Keeps m b d → Keeps m a d
Keeps-trans k l = record {
  grown = λ file e.
      let (extra, e1) = k.grown file e in
      let (more, e2) = l.grown (file ++ extra) e1 in
      (extra ++ more, e2 ∙ ap some (append_assoc file extra more));
  manifest = l.manifest ∙ k.manifest;
  index = l.index ∙ k.index;
  utxo = l.utxo ∙ k.utxo;
}

-- The name is that of none of the three files.
pub record OtherName (m : Manifest) (name : Text) : Type 0 where
  pub not_manifest : text_eq name manifest_name ≡ false
  pub not_index : text_eq name m.index_file ≡ false
  pub not_utxo : text_eq name m.utxo_file ≡ false

abbrev pub Harmless : Manifest → Write → Type 0
Harmless m (append_bytes bytes) = Unit
Harmless m (put_file name bytes) = OtherName m name
Harmless m (remove_file name) = OtherName m name

append_bytes-Keeps :
    (m : Manifest) (bytes : List ℕ) (disk : Disk)
    → Keeps m disk (apply_write (append_bytes bytes) disk)
append_bytes-Keeps m bytes disk = record {
  grown = λ file e. (bytes, ap (λ (f : Option (List ℕ)). some (bytes_of f ++ bytes)) e);
  manifest = refl;
  index = refl;
  utxo = refl;
}

write-Keeps :
    (m : Manifest) (write : Write) (disk : Disk)
    → Harmless m write
    → Keeps m disk (apply_write write disk)
write-Keeps m (append_bytes bytes) disk h = append_bytes-Keeps m bytes disk
write-Keeps m (put_file name bytes) disk h = record {
  grown = λ file e. ([], e ∙ ap some (sym (append-nil file)));
  manifest = file_find-put manifest_name name bytes disk.files ∙ rw h.not_manifest refl;
  index = file_find-put m.index_file name bytes disk.files ∙ rw h.not_index refl;
  utxo = file_find-put m.utxo_file name bytes disk.files ∙ rw h.not_utxo refl;
}
write-Keeps m (remove_file name) disk h = record {
  grown = λ file e. ([], e ∙ ap some (sym (append-nil file)));
  manifest = file_find-remove manifest_name name disk.files ∙ rw h.not_manifest refl;
  index = file_find-remove m.index_file name disk.files ∙ rw h.not_index refl;
  utxo = file_find-remove m.utxo_file name disk.files ∙ rw h.not_utxo refl;
}

pub writes-Keeps :
    (m : Manifest) (writes : List Write) (disk : Disk)
    → All (Harmless m) writes
    → Keeps m disk (apply_writes writes disk)
unfolding apply_writes
writes-Keeps m [] disk h = Keeps-refl m disk
writes-Keeps m (w ∷ writes) disk (h, hs) =
    Keeps-trans (write-Keeps m w disk h) (writes-Keeps m writes (apply_write w disk) hs)

-- A cut among harmless writes keeps the chain.
pub Interrupted-Keeps :
    (m : Manifest) (writes : List Write) (disk disk' : Disk)
    → All (Harmless m) writes
    → Interrupted writes disk disk'
    → Keeps m disk disk'
Interrupted-Keeps m writes disk disk' h stop = Keeps-refl m disk
Interrupted-Keeps m writes disk disk' h (torn first behind bytes e) =
    append_bytes-Keeps m first disk
Interrupted-Keeps m (w ∷ writes) disk disk' h (next i) =
    Keeps-trans (write-Keeps m w disk h.0)
      (Interrupted-Keeps m writes (apply_write w disk) disk' h.1 i)

read-same :
    (name : Text) (disk disk' : Disk)
    → file_find name disk'.files ≡ file_find name disk.files
    → read_file_bytes name disk' ≡ read_file_bytes name disk
unfolding read_file_bytes
read-same name disk disk' h = rw (h, read_file_bytes) refl

pub committed_manifest-same :
    (disk disk' : Disk)
    → file_find manifest_name disk'.files ≡ file_find manifest_name disk.files
    → committed_manifest disk' ≡ committed_manifest disk
unfolding committed_manifest
committed_manifest-same disk disk' h = rw (read-same manifest_name disk disk' h) refl

module _ (c : Crypto) where
  load_index-Keeps :
      (m : Manifest) (index_bytes : List ℕ) (disk disk' : Disk) {blocks : List StoredBlock}
      → Keeps m disk disk'
      → load_index c index_bytes disk ≡ ok blocks
      → load_index c index_bytes disk' ≡ ok blocks
  unfolding load_index
  load_index-Keeps m index_bytes disk disk' k h =
      let (entries, e1, h1) = >>=-eq-ok (parse_index_text index_bytes) _ h in
      let (file, e2, h2) = >>=-eq-ok (the_file disk.blocks_file) _ h1 in
      let (extra, e3) = k.grown file (the_file-ok disk.blocks_file e2) in
      rw (e1, e3) (load_indexed_chain-append c file extra entries h2)
    where
      the_file-ok : (f : Option (List ℕ)) {file : List ℕ} → the_file f ≡ ok file → f ≡ some file
      the_file-ok none h = cc
      the_file-ok (some bytes) h = cc

  load_manifest_generation-Keeps :
      (m : Manifest) (disk disk' : Disk) {loaded : LoadedChain}
      → Keeps m disk disk'
      → load_manifest_generation c m disk ≡ ok loaded
      → load_manifest_generation c m disk' ≡ ok loaded
  unfolding load_manifest_generation
  load_manifest_generation-Keeps m disk disk' k h =
      let (index_bytes, e1, h1) = >>=-eq-ok (read_file_bytes m.index_file disk) _ h in
      let (utxo_bytes, e2, h2) = >>=-eq-ok (read_file_bytes m.utxo_file disk) _ h1 in
      let (b1, h3) = >>-eq-ok (is_damaged c index_bytes m.index_sha256) index_checksum _ h2 in
      let (b2, h4) = >>-eq-ok (is_damaged c utxo_bytes m.utxo_sha256) snapshot_checksum _ h3 in
      let (blocks, e3, h5) = >>=-eq-ok (load_index c index_bytes disk) _ h4 in
      rw
        (
          read-same m.index_file disk disk' k.index,
          e1,
          read-same m.utxo_file disk disk' k.utxo,
          e2,
          b1,
          b2,
          load_index-Keeps m index_bytes disk disk' k e3,
        )
        h5

  pub load_committed-Keeps :
      (m : Manifest) (disk disk' : Disk) {loaded : LoadedChain}
      → committed_manifest disk ≡ ok m
      → Keeps m disk disk'
      → load_committed c disk ≡ ok loaded
      → load_committed c disk' ≡ ok loaded
  unfolding load_committed
  load_committed-Keeps m disk disk' em k h =
      let loads : load_manifest_generation c m disk ≡ ok _ = rw em at h in
      rw (committed_manifest-same disk disk' k.manifest, em)
        (load_manifest_generation-Keeps m disk disk' k loads)
