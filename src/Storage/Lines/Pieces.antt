-- ===== src/Storage/Lines/Pieces.antt =====
-- src/storage.cpp: lines, fields and integers that are written, and read back.
use binarycoin.AmountText.{decimal, is_none, read_digits}
use binarycoin.AmountText.RoundTrip.{
  IsDigit, decimal_digits, is_none-decimal, read_digits-decimal, read_end,
}
use binarycoin.Base.{
  ==_iff, All, All-append, List, Text, [], any, ap, append-nil, arith, false, lt→ltb, none, ok, pos,
  refl, some, sym, ℕ, ◌++◌, ◌<◌, ◌==◌, ◌^◌, ◌∙◌, ◌∷◌, ◌≡◌, ◌≤◌,
}
use binarycoin.Storage.Lines.{
  digits_value, lines, parse_amount, parse_unsigned, show_amount, show_number, split, tabbed,
  unlines,
}
use binarycoin.Tx.{is_empty}

-- No character of the text is the separator.
abbrev pub Lacks : ℕ → Text → Type 0
Lacks separator text = All (λ (c : ℕ). (c == separator) ≡ false) text

lines-line : (line rest : Text) → Lacks 10 line → lines (line ++ 10 ∷ rest) ≡ line ∷ lines rest
unfolding lines
lines-line [] rest h = refl
lines-line (c ∷ line) rest (hc, hs) = rw (hc, lines-line line rest hs)

lines-nil : lines [] ≡ []
unfolding lines
lines-nil = refl

-- Lines without a line feed inside are read as they were written.
pub lines-unlines : (ls : List Text) → All (Lacks 10) ls → lines (unlines ls) ≡ ls
unfolding unlines
lines-unlines [] h = lines-nil
lines-unlines (l ∷ ls) (h, hs) = lines-line l (unlines ls) h ∙ ap (◌∷◌ l) (lines-unlines ls hs)

split_last :
    (separator : ℕ) (field : Text) → Lacks separator field → split separator field ≡ field ∷ []
unfolding split
split_last separator [] h = refl
split_last separator (c ∷ field) (hc, hs) = rw (hc, split_last separator field hs)

split_first :
    (separator : ℕ) (field rest : Text)
    → Lacks separator field
    → split separator (field ++ separator ∷ rest) ≡ field ∷ split separator rest
unfolding split
split_first separator [] rest h = rw ((==_iff separator separator).1 refl) refl
split_first separator (c ∷ field) rest (hc, hs) = rw (hc, split_first separator field rest hs)

-- Fields without a tab inside are read as they were written.
pub split-tabbed :
    (field : Text) (fields : List Text)
    → All (Lacks 9) (field ∷ fields)
    → split 9 (tabbed (field ∷ fields)) ≡ field ∷ fields
unfolding tabbed
split-tabbed field [] (h, hs) = split_last 9 field h
split-tabbed field (next ∷ rest) (h, hs) =
    split_first 9 field (tabbed (next ∷ rest)) h ∙ ap (◌∷◌ field) (split-tabbed next rest hs)

-- Digits and a minus sign are none of the separators.
pub Lacks-digits :
    (separator : ℕ) (text : Text) → separator < b'0' → All IsDigit text → Lacks separator text
Lacks-digits separator [] h ds = tt
Lacks-digits separator (c ∷ cs) h ((low, high), ds) =
    (differs c low, Lacks-digits separator cs h ds)
  where
    differs : (c : ℕ) → b'0' ≤ c → (c == separator) ≡ false
    differs c low = ground arith

pub show_number_digits : (n : ℕ) → All IsDigit (show_number n)
unfolding show_number
show_number_digits n = decimal_digits 20 n

digits_value_some : (text : Text) → is_none text ≡ false → digits_value text ≡ read_digits 0 text
unfolding digits_value
digits_value_some [] h = cc
digits_value_some (c ∷ cs) h = refl

digits_value-show_number : (n : ℕ) → n < 10 ^ 20 → digits_value (show_number n) ≡ some n
unfolding show_number
digits_value-show_number n h =
    digits_value_some (decimal 20 n) (is_none-decimal 19 n)
    ∙ ap (read_digits 0) (sym (append-nil (decimal 20 n)))
    ∙ read_digits-decimal 20 n [] h
    ∙ read_end n

-- A number in the range of its type is read as it was written.
pub parse_unsigned-show_number :
    (bits n : ℕ) → n < 2 ^ bits → n < 10 ^ 20 → parse_unsigned bits (show_number n) ≡ ok n
unfolding parse_unsigned
parse_unsigned-show_number bits n h k =
    ground (arith, digits_value-show_number n k, lt→ltb n (2 ^ bits) h)

digits_value_empty : digits_value [] ≡ none
unfolding digits_value
digits_value_empty = refl

parse_amount-digits :
    (text : Text) (n : ℕ)
    → All IsDigit text
    → digits_value text ≡ some n
    → n < 2 ^ 63
    → parse_amount text ≡ ok (pos n)
unfolding parse_amount
parse_amount-digits [] n h e small = absurd (cc (digits_value_empty, e))
parse_amount-digits (c ∷ cs) n ((low, high), hs) e small =
    rw (not_minus c low, e, lt→ltb n (2 ^ 63) small)
  where
    not_minus : (c : ℕ) → b'0' ≤ c → (c == b'-') ≡ false
    not_minus c h = ground arith

-- An amount that is not negative is read as it was written.
pub parse_amount-show_amount :
    (n : ℕ) → n < 2 ^ 63 → parse_amount (show_amount (pos n)) ≡ ok (pos n)
unfolding show_amount
parse_amount-show_amount n h =
    parse_amount-digits (show_number n) n (show_number_digits n)
      (digits_value-show_number n (omega (arith, h))) h

pub tabbed-Lacks :
    (separator : ℕ) (fields : List Text)
    → (9 == separator) ≡ false
    → All (Lacks separator) fields
    → Lacks separator (tabbed fields)
unfolding tabbed
tabbed-Lacks separator [] e h = tt
tabbed-Lacks separator (field ∷ []) e (h, hs) = h
tabbed-Lacks separator (field ∷ next ∷ rest) e (h, hs) =
    All-append (λ (c : ℕ). (c == separator) ≡ false) field (9 ∷ tabbed (next ∷ rest)) h
      (e, tabbed-Lacks separator (next ∷ rest) e hs)

-- A line of two fields at least is not empty.
pub is_empty-tabbed :
    (field next : Text) (rest : List Text) → is_empty (tabbed (field ∷ next ∷ rest)) ≡ false
unfolding tabbed
is_empty-tabbed [] next rest = refl
is_empty-tabbed (c ∷ field) next rest = refl

pub show_number-Lacks : (separator n : ℕ) → separator < b'0' → Lacks separator (show_number n)
show_number-Lacks separator n small =
    Lacks-digits separator (show_number n) small (show_number_digits n)

-- For a text of the source, by evaluation.
pub Lacks-literal :
    (separator : ℕ) (text : Text) → any (λ c. c == separator) text ≡ false → Lacks separator text
Lacks-literal separator [] h = tt
Lacks-literal separator (c ∷ cs) h = (ground arith, Lacks-literal separator cs (ground arith))
