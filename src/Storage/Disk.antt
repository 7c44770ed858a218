-- ===== src/Storage/Disk.antt =====
-- src/storage.cpp: what is on the disk, and the writes that change it. A file that is replaced
-- atomically has its old or its new text; the temporary file beside it is left out.
pub mod Files
use binarycoin.AmountText.{padded}
use binarycoin.Base.{
  Bool, List, Option, Text, [], codes, err, false, if◌then◌else◌, ltb, none, ok, some, text_eq,
  true, ℕ, ◌%◌, ◌&&◌, ◌++◌, ◌+◌, ◌==◌, ◌^◌, ◌||◌, ◌∷◌,
}
use binarycoin.Storage.Lines.{parse_unsigned, strip_prefix}

-- The block file, where it exists, and the files of the chainstate directory under their names.
pub record Disk : Type 0 where
  pub blocks_file : Option (List ℕ)
  pub files : List (Text × List ℕ)

-- One durable change: bytes at the end of the block file, a file that is replaced, a file that is
-- removed.
pub data Write : Type 0 where
  append_bytes : List ℕ → Write
  put_file : Text → List ℕ → Write
  remove_file : Text → Write

unfoldable pub file_find : Text → List (Text × List ℕ) → Option (List ℕ)
file_find name [] = none
file_find name ((key, bytes) ∷ rest) = if text_eq key name then some bytes else file_find name rest

unfoldable pub file_put : Text → List ℕ → List (Text × List ℕ) → List (Text × List ℕ)
file_put name bytes [] = (name, bytes) ∷ []
file_put name bytes ((key, old) ∷ rest) =
    if text_eq key name then (key, bytes) ∷ rest else (key, old) ∷ file_put name bytes rest

unfoldable pub file_remove : Text → List (Text × List ℕ) → List (Text × List ℕ)
file_remove name [] = []
file_remove name ((key, old) ∷ rest) =
    let others = file_remove name rest in if text_eq key name then others else (key, old) ∷ others

abbrev pub bytes_of : Option (List ℕ) → List ℕ
bytes_of none = []
bytes_of (some bytes) = bytes

abbrev pub apply_write : Write → Disk → Disk
apply_write (append_bytes bytes) disk = record disk {
  blocks_file = some (bytes_of disk.blocks_file ++ bytes);
}
apply_write (put_file name bytes) disk = record disk { files = file_put name bytes disk.files }
apply_write (remove_file name) disk = record disk { files = file_remove name disk.files }

unfoldable pub apply_writes : List Write → Disk → Disk
apply_writes [] disk = disk
apply_writes (write ∷ rest) disk = apply_writes rest (apply_write write disk)

abbrev pub manifest_name : Text
manifest_name = codes "manifest-v1"

abbrev pub marker_name : Text
marker_name = codes "migrated-from-chain-v3"

-- `std::setw(20) << std::setfill('0')`: a 64-bit number has at most 20 digits.
unfoldable pub generation_name : Text → ℕ → Text
generation_name prefix generation = prefix ++ (padded 20 generation ++ codes ".tsv")

abbrev pub index_name : ℕ → Text
index_name generation = generation_name (codes "block-index-v1-") generation

abbrev pub utxo_name : ℕ → Text
utxo_name generation = generation_name (codes "utxo-v1-") generation

unfoldable pub strip_suffix : Text → Text → Option Text
strip_suffix suffix [] = none
strip_suffix suffix (c ∷ rest) =
    let behind : Option Text = elim (strip_suffix suffix rest) [
      | none ↦ none
      | some front ↦ some (c ∷ front)
    ] in
    if text_eq (c ∷ rest) suffix then some [] else behind

unfoldable pub generation_from_index_filename : Text → Option ℕ
generation_from_index_filename filename = elim (strip_prefix (codes "block-index-v1-") filename) [
  | none ↦ none
  | some rest ↦ elim (strip_suffix (codes ".tsv") rest) [
    | none ↦ none
    | some number ↦ elim (parse_unsigned 64 number) [
      | err e ↦ none
      | ok generation ↦ some generation
    ]
  ]
]

-- Into a descending list, once.
unfoldable pub insert_generation : ℕ → List ℕ → List ℕ
insert_generation generation [] = generation ∷ []
insert_generation generation (x ∷ rest) =
    if ltb x generation
    then generation ∷ x ∷ rest
    else if x == generation
    then x ∷ rest
    else x ∷ insert_generation generation rest

unfoldable pub has_file : Text → List (Text × List ℕ) → Bool
has_file name files = elim (file_find name files) [ none ↦ false | some bytes ↦ true ]

-- The generations that have an index among `names` and a snapshot among `files`, the newest first.
unfoldable pub generations_in : List (Text × List ℕ) → List (Text × List ℕ) → List ℕ
generations_in files [] = []
generations_in files ((name, bytes) ∷ rest) =
    let others = generations_in files rest in
    elim (generation_from_index_filename name) [
      | none ↦ others
      | some generation ↦
          if has_file (utxo_name generation) files
          then insert_generation generation others
          else others
    ]

unfoldable pub available_generations : List (Text × List ℕ) → List ℕ
available_generations files = generations_in files files

-- The generations that are neither the current one nor the one before it lose their files.
unfoldable pub cleanup_old_generations : ℕ → List ℕ → List Write
cleanup_old_generations current [] = []
cleanup_old_generations current (generation ∷ rest) =
    let others = cleanup_old_generations current rest in
    if generation == current || (ltb 0 current && (generation + 1) % 2 ^ 64 == current)
    then others
    else remove_file (index_name generation) ∷ remove_file (utxo_name generation) ∷ others
