-- ===== src/Storage/Texts/Manifests.antt =====
-- src/storage.cpp: the manifest that is written, and read back.
use binarycoin.Base.{
  All, All-append, List, Text, [], arith, codes, false, ok, refl, text_eq, ℕ, ◌++◌, ◌<◌, ◌==◌, ◌^◌,
  ◌∷◌, ◌≡◌,
}
use binarycoin.Storage.Lines.{show_number}
use binarycoin.Storage.Lines.Pieces.{
  Lacks, Lacks-literal, lines-unlines, parse_unsigned-show_number, show_number-Lacks,
}
use binarycoin.Storage.Texts.{
  Manifest, field_of, make_manifest_text, manifest_magic, named, parse_manifest_text, parse_named,
  split_name,
}

pub record ManifestFits (m : Manifest) : Type 0 where
  pub generation : m.generation < 2 ^ 64
  pub height : m.height < 2 ^ 64
  pub bestblock : Lacks 10 m.bestblock
  pub index_file : Lacks 10 m.index_file
  pub index_sha256 : Lacks 10 m.index_sha256
  pub utxo_file : Lacks 10 m.utxo_file
  pub utxo_sha256 : Lacks 10 m.utxo_sha256
  pub block_file_size : m.block_file_size < 2 ^ 64

module _ (m : Manifest) (h : ManifestFits m) where
  manifest_lines : List Text
  manifest_lines =
      named "generation" (show_number m.generation)
      ∷ named "height" (show_number m.height)
      ∷ named "bestblock" m.bestblock
      ∷ named "index_file" m.index_file
      ∷ named "index_sha256" m.index_sha256
      ∷ named "utxo_file" m.utxo_file
      ∷ named "utxo_sha256" m.utxo_sha256
      ∷ named "block_file_size" (show_number m.block_file_size)
      ∷ []

  manifest_fields : List (Text × Text)
  manifest_fields =
      (codes "generation", show_number m.generation)
      ∷ (codes "height", show_number m.height)
      ∷ (codes "bestblock", m.bestblock)
      ∷ (codes "index_file", m.index_file)
      ∷ (codes "index_sha256", m.index_sha256)
      ∷ (codes "utxo_file", m.utxo_file)
      ∷ (codes "utxo_sha256", m.utxo_sha256)
      ∷ (codes "block_file_size", show_number m.block_file_size)
      ∷ []

  named-Lacks :
      (name value : Text) → Lacks 10 name → Lacks 10 value → Lacks 10 (name ++ b'=' ∷ value)
  named-Lacks name value n v =
      All-append (λ (c : ℕ). (c == 10) ≡ false) name (b'=' ∷ value) n (refl, v)

  manifest_lines-Lacks : All (Lacks 10) manifest_lines
  unfolding manifest_lines
  manifest_lines-Lacks = (
    named-Lacks (codes "generation") _ (Lacks-literal 10 (codes "generation") refl)
        (show_number-Lacks 10 m.generation (omega arith)),
    (
      named-Lacks (codes "height") _ (Lacks-literal 10 (codes "height") refl)
          (show_number-Lacks 10 m.height (omega arith)),
      (
        named-Lacks (codes "bestblock") _ (Lacks-literal 10 (codes "bestblock") refl) h.bestblock,
        (
          named-Lacks (codes "index_file") _ (Lacks-literal 10 (codes "index_file") refl)
              h.index_file,
          (
            named-Lacks (codes "index_sha256") _ (Lacks-literal 10 (codes "index_sha256") refl)
                h.index_sha256,
            (
              named-Lacks (codes "utxo_file") _ (Lacks-literal 10 (codes "utxo_file") refl)
                  h.utxo_file,
              (
                named-Lacks (codes "utxo_sha256") _ (Lacks-literal 10 (codes "utxo_sha256") refl)
                    h.utxo_sha256,
                (
                  named-Lacks (codes "block_file_size") _
                      (Lacks-literal 10 (codes "block_file_size") refl)
                      (show_number-Lacks 10 m.block_file_size (omega arith)),
                  tt,
                ),
              ),
            ),
          ),
        ),
      ),
    ),
  )

  parse_named-manifest_lines : parse_named manifest_lines ≡ ok manifest_fields
  unfolding parse_named split_name manifest_lines manifest_fields
  parse_named-manifest_lines = refl

  -- A manifest whose numbers fit their types and whose texts have no line feed is written as a text
  -- that is read back as that manifest.
  pub parse_manifest_text-make_manifest_text : parse_manifest_text (make_manifest_text m) ≡ ok m
  unfolding parse_manifest_text make_manifest_text field_of text_eq manifest_lines manifest_fields
  parse_manifest_text-make_manifest_text =
      rw
        (
          lines-unlines (manifest_magic ∷ manifest_lines)
              (Lacks-literal 10 manifest_magic refl, manifest_lines-Lacks),
          parse_named-manifest_lines,
          parse_unsigned-show_number 64 m.generation h.generation (omega (arith, h.generation)),
          parse_unsigned-show_number 64 m.height h.height (omega (arith, h.height)),
          parse_unsigned-show_number 64 m.block_file_size h.block_file_size
              (omega (arith, h.block_file_size)),
        )
        refl
