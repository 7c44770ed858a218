-- ===== src/Storage/Store/Cleanup.antt =====
-- src/storage.cpp: what `commit` writes and removes beside the manifest touches no file of the chain
-- that the manifest names.
use binarycoin.Base.{
  All, Bool, Bool-cases, List, Option-cases, Result-cases, Text, [], arith, bad_integer, codes, err,
  false, if◌then◌else◌, inl, inr, ltb, ok, some, some-injective, true, ℕ, ◌%◌, ◌&&◌, ◌++◌, ◌+◌, ◌<◌,
  ◌==◌, ◌^◌, ◌||◌, ◌∷◌, ◌≡◌, ◌≢◌,
}
use binarycoin.Storage.Disk.{
  available_generations, cleanup_old_generations, generation_from_index_filename, generations_in,
  has_file, index_name, insert_generation, marker_name, strip_suffix, utxo_name,
}
use binarycoin.Storage.Disk.Files.{
  generation_name-differs, index-manifest, index-utxo, marker-index, marker-manifest, marker-utxo,
  utxo-index, utxo-manifest,
}
use binarycoin.Storage.Lines.{digits_value, parse_unsigned, strip_prefix}
use binarycoin.Storage.Store.Commit.{marker_writes}
use binarycoin.Storage.Store.Interrupted.{Harmless, OtherName}
use binarycoin.Storage.Texts.{Manifest}

-- The manifest names the files of its own generation, as `manifest_for_generation` has it.
pub record OwnFiles (m : Manifest) : Type 0 where
  pub small : m.generation < 2 ^ 64
  pub index : m.index_file ≡ index_name m.generation
  pub utxo : m.utxo_file ≡ utxo_name m.generation

parse_unsigned-lt :
    (bits : ℕ) (text : Text) {n : ℕ} → parse_unsigned bits text ≡ ok n → n < 2 ^ bits
unfolding parse_unsigned
parse_unsigned-lt bits text h = elim (Option-cases (digits_value text)) [
  | inl failed ↦ absurd (cc (rw (failed, parse_unsigned) at h))
  | inr (value, read) ↦ checked value (rw (read, parse_unsigned) at h)
]
  where
    checked :
        {n : ℕ} (value : ℕ)
        → (if ltb value (2 ^ bits) then ok value else err bad_integer) ≡ ok n
        → n < 2 ^ bits
    checked value h = ground arith

abbrev IsSmall : ℕ → Type 0
IsSmall generation = generation < 2 ^ 64

insert_generation-IsSmall :
    (g : ℕ) (gs : List ℕ) → IsSmall g → All IsSmall gs → All IsSmall (insert_generation g gs)
unfolding insert_generation
insert_generation-IsSmall g [] s h = (s, tt)
insert_generation-IsSmall g (x ∷ gs) s (h, hs) = elim (Bool-cases (ltb x g)) [
  | inl less ↦ rw less (s, (h, hs))
  | inr more ↦ elim (Bool-cases (x == g)) [
    | inl same ↦ rw (more, same) (h, hs)
    | inr other ↦ rw (more, other) (h, insert_generation-IsSmall g gs s hs)
  ]
]

filename-IsSmall : (name : Text) {g : ℕ} → generation_from_index_filename name ≡ some g → IsSmall g
unfolding generation_from_index_filename
filename-IsSmall name h = elim (Option-cases (strip_prefix (codes "block-index-v1-") name)) [
  | inl failed ↦ absurd (cc (rw (failed, generation_from_index_filename) at h))
  | inr (rest, e) ↦ elim (Option-cases (strip_suffix (codes ".tsv") rest)) [
    | inl failed ↦ absurd (cc (rw (e, failed, generation_from_index_filename) at h))
    | inr (number, e') ↦ elim (Result-cases (parse_unsigned 64 number)) [
      | inr (error, failed) ↦ absurd (cc (rw (e, e', failed, generation_from_index_filename) at h))
      | inl (value, read) ↦
          let same : value ≡ _ =
            some-injective (rw (e, e', read, generation_from_index_filename) at h) in
          rw (← same) (parse_unsigned-lt 64 number read)
    ]
  ]
]

generations_in-IsSmall :
    (files names : List (Text × List ℕ)) → All IsSmall (generations_in files names)
unfolding generations_in
generations_in-IsSmall files [] = tt
generations_in-IsSmall files ((name, bytes) ∷ names) =
    let rest = generations_in-IsSmall files names in
    elim (Option-cases (generation_from_index_filename name)) [
      | inl none_found ↦ rw (none_found, generations_in) rest
      | inr (g, found) ↦ elim (Bool-cases (has_file (utxo_name g) files)) [
        | inl there ↦
            rw (found, there, generations_in)
              (insert_generation-IsSmall g (generations_in files names)
                (filename-IsSmall name found) rest)
        | inr missing ↦ rw (found, missing, generations_in) rest
      ]
    ]

module _ (m : Manifest) (own : OwnFiles m) where
  -- The files of another generation are not those of the manifest.
  pub other-index : (g : ℕ) → g < 2 ^ 64 → g ≢ m.generation → OtherName m (index_name g)
  other-index g small d = record {
    not_manifest = index-manifest g;
    not_index =
        rw own.index
          (generation_name-differs (codes "block-index-v1-") g m.generation small own.small d);
    not_utxo = rw own.utxo (index-utxo g m.generation);
  }

  pub other-utxo : (g : ℕ) → g < 2 ^ 64 → g ≢ m.generation → OtherName m (utxo_name g)
  other-utxo g small d = record {
    not_manifest = utxo-manifest g;
    not_index = rw own.index (utxo-index g m.generation);
    not_utxo =
        rw own.utxo (generation_name-differs (codes "utxo-v1-") g m.generation small own.small d);
  }

  other-marker : OtherName m marker_name
  other-marker = record {
    not_manifest = marker-manifest;
    not_index = rw own.index (marker-index m.generation);
    not_utxo = rw own.utxo (marker-utxo m.generation);
  }

  cleanup-Harmless :
      (gs : List ℕ) → All IsSmall gs → All (Harmless m) (cleanup_old_generations m.generation gs)
  unfolding cleanup_old_generations
  cleanup-Harmless [] h = tt
  cleanup-Harmless (g ∷ gs) (h, hs) =
      elim (Bool-cases
        (g == m.generation || (ltb 0 m.generation && (g + 1) % 2 ^ 64 == m.generation))) [
          | inl kept ↦ rw kept (cleanup-Harmless gs hs)
          | inr old ↦
              let d : g ≢ m.generation = ground arith in
              rw old (other-index g h d, (other-utxo g h d, cleanup-Harmless gs hs))
        ]

  -- What follows the manifest.
  pub later-Harmless :
      (migrated : Bool) (files : List (Text × List ℕ))
      → All (Harmless m) (
          marker_writes migrated
          ++ cleanup_old_generations m.generation (available_generations files))
  unfolding available_generations
  later-Harmless true files =
      (other-marker, cleanup-Harmless _ (generations_in-IsSmall files files))
  later-Harmless false files = cleanup-Harmless _ (generations_in-IsSmall files files)
