-- ===== src/Storage/Disk/Files.antt =====
-- src/storage.cpp: the files of the chainstate directory under their names.
use binarycoin.AmountText.{padded, read_digits}
use binarycoin.AmountText.RoundTrip.{length-padded, read_digits-padded, read_end}
use binarycoin.Base.{
  ==_iff, Bool-cases, List, Text, [], ap, append-nil, arith, codes, false, if◌then◌else◌, inl, inr,
  length, none, refl, some, some-injective, sym, text_eq, text_eq_iff, ℕ, ◌++◌, ◌<◌, ◌^◌, ◌∙◌, ◌∷◌,
  ◌≡◌, ◌≢◌,
}
use binarycoin.Storage.Disk.{
  file_find, file_put, file_remove, generation_name, index_name, manifest_name, marker_name,
  utxo_name,
}

pub file_find-put :
    (name key : Text) (bytes : List ℕ) (files : List (Text × List ℕ))
    → file_find name (file_put key bytes files)
      ≡ (if text_eq key name then some bytes else file_find name files)
unfolding file_find file_put
file_find-put name key bytes [] = refl
file_find-put name key bytes ((k, old) ∷ files) = ground (
  arith,
  text_eq_iff k key,
  text_eq_iff k name,
  text_eq_iff key name,
  file_find-put name key bytes files,
)

pub file_find-remove :
    (name key : Text) (files : List (Text × List ℕ))
    → file_find name (file_remove key files)
      ≡ (if text_eq key name then none else file_find name files)
unfolding file_find file_remove
file_find-remove name key [] = ground arith
file_find-remove name key ((k, old) ∷ files) = ground (
  arith,
  text_eq_iff k key,
  text_eq_iff k name,
  text_eq_iff key name,
  file_find-remove name key files,
)

text_eq-prefix : (prefix a b : Text) → text_eq (prefix ++ a) (prefix ++ b) ≡ text_eq a b
unfolding text_eq
text_eq-prefix [] a b = refl
text_eq-prefix (c ∷ prefix) a b = rw ((==_iff c c).1 refl) (text_eq-prefix prefix a b)

append_cancel : (a b suffix : Text) → length a ≡ length b → a ++ suffix ≡ b ++ suffix → a ≡ b
append_cancel [] [] suffix e h = refl
append_cancel [] (y ∷ b) suffix e h = absurd (omega (arith, e))
append_cancel (x ∷ a) [] suffix e h = absurd (omega (arith, e))
append_cancel (x ∷ a) (y ∷ b) suffix e h =
    let tail = append_cancel a b suffix (omega (arith, e)) (cc h) in cc (h, tail)

padded-injective : (m n : ℕ) → m < 2 ^ 64 → n < 2 ^ 64 → padded 20 m ≡ padded 20 n → m ≡ n
padded-injective m n hm hn e =
    let read = λ (k : ℕ) (h : k < 2 ^ 64).
      ap (read_digits 0) (sym (append-nil (padded 20 k)))
      ∙ read_digits-padded 20 k [] (omega (arith, h))
      ∙ read_end k in
    some-injective (sym (read m hm) ∙ ap (read_digits 0) e ∙ read n hn)

-- The files of different generations have different names.
pub generation_name-differs :
    (prefix : Text) (m n : ℕ)
    → m < 2 ^ 64
    → n < 2 ^ 64
    → m ≢ n
    → text_eq (generation_name prefix m) (generation_name prefix n) ≡ false
unfolding generation_name
generation_name-differs prefix m n hm hn d =
    elim (Bool-cases (text_eq (generation_name prefix m) (generation_name prefix n))) [
      | inr other ↦ other
      | inl same ↦
          let e =
            rw (text_eq-prefix prefix (padded 20 m ++ codes ".tsv") (padded 20 n ++ codes ".tsv"))
              at same in
          let e' = (text_eq_iff (padded 20 m ++ codes ".tsv") (padded 20 n ++ codes ".tsv")).0 e in
          absurd (
            d (
              padded-injective m n hm hn (
                append_cancel (padded 20 m) (padded 20 n) (codes ".tsv")
                  (length-padded 20 m ∙ sym (length-padded 20 n)) e')))
    ]

-- The names of the other kinds of file are other names.
pub index-utxo : (m n : ℕ) → text_eq (index_name m) (utxo_name n) ≡ false
unfolding generation_name text_eq
index-utxo m n = refl

pub utxo-index : (m n : ℕ) → text_eq (utxo_name m) (index_name n) ≡ false
unfolding generation_name text_eq
utxo-index m n = refl

pub index-manifest : (m : ℕ) → text_eq (index_name m) manifest_name ≡ false
unfolding generation_name text_eq
index-manifest m = refl

pub utxo-manifest : (m : ℕ) → text_eq (utxo_name m) manifest_name ≡ false
unfolding generation_name text_eq
utxo-manifest m = refl

pub manifest-index : (m : ℕ) → text_eq manifest_name (index_name m) ≡ false
unfolding generation_name text_eq
manifest-index m = refl

pub manifest-utxo : (m : ℕ) → text_eq manifest_name (utxo_name m) ≡ false
unfolding generation_name text_eq
manifest-utxo m = refl

pub marker-manifest : text_eq marker_name manifest_name ≡ false
unfolding text_eq
marker-manifest = refl

pub marker-index : (m : ℕ) → text_eq marker_name (index_name m) ≡ false
unfolding generation_name text_eq
marker-index m = refl

pub marker-utxo : (m : ℕ) → text_eq marker_name (utxo_name m) ≡ false
unfolding generation_name text_eq
marker-utxo m = refl
