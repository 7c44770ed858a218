-- ===== src/AmountText/RoundTrip.antt =====
-- src/wallet_amount.cpp: printing an amount and parsing the text.
use binarycoin.Amount.{bits_per_bin, max_money, money_range}
use binarycoin.AmountText.{
  decimal, format_bin_amount, from_chars, padded, parse_bin_amount, read_digits, split_point,
  is_negative, is_none,
}
use binarycoin.Base.{
  All, All-append, Bool-cases, Text, [], any, ap, append-nil, append_assoc, arith, false, inl, inr,
  leb, length, length-append, ltb, ltb-false, ltb→lt, lt→ltb, ok, pos, refl, some, suc, sym, true,
  zero, ℕ, ◌%◌, ◌&&◌, ◌*◌, ◌++◌, ◌+◌, ◌/◌, ◌<◌, ◌==◌, ◌^◌, ◌||◌, ◌∙◌, ◌∷◌, ◌≡◌, ◌≤◌,
}
use native.Mathlib.Numerals.{unary_clauses}

abbrev pub IsDigit : ℕ → Type 0
IsDigit c = (b'0' ≤ c) × (c ≤ b'9')

pub decimal_digits : (digits n : ℕ) → All IsDigit (decimal digits n)
unfolding decimal
decimal_digits zero n = tt
decimal_digits (suc digits) n = elim (Bool-cases (ltb n 10)) [
  | inl small ↦ let h = ltb→lt n 10 small in rw small ((omega arith, omega (arith, h)), tt)
  | inr large ↦ rw large (
      All-append IsDigit (decimal digits (n / 10)) _ (decimal_digits digits (n / 10))
        ((omega arith, omega arith), tt))
]

pub padded_digits : (width n : ℕ) → All IsDigit (padded width n)
unfolding padded
padded_digits zero n = tt
padded_digits (suc width) n =
    All-append IsDigit (padded width (n / 10)) _ (padded_digits width (n / 10))
      ((omega arith, omega arith), tt)

pub length-padded : (width n : ℕ) → length (padded width n) ≡ width
unfolding padded
length-padded zero n = refl
length-padded (suc width) n = omega (
  arith,
  length-append (padded width (n / 10)) ((b'0' + n % 10) ∷ []),
  length-padded width (n / 10),
)

read_digits-digit :
    (v d : ℕ) (rest : Text)
    → d < 10
    → read_digits v ((b'0' + d) ∷ rest) ≡ read_digits (v * 10 + d) rest
unfolding read_digits
read_digits-digit v d rest h = rw (is_digit d h) (ap (λ (k : ℕ). read_digits k rest) (omega arith))
  where
    is_digit : (d : ℕ) → d < 10 → (leb b'0' (b'0' + d) && leb (b'0' + d) b'9') ≡ true
    is_digit d h = ground arith

shorter : (digits n : ℕ) → n < 10 ^ suc digits → n / 10 < 10 ^ digits
shorter digits n h = let h' = simp unary_clauses at h in omega (arith, h')

last_digit :
    (n : ℕ) (rest : Text) → read_digits (n / 10) ((b'0' + n % 10) ∷ rest) ≡ read_digits n rest
last_digit n rest =
    let e : n / 10 * 10 + n % 10 ≡ n = omega arith in
    read_digits-digit (n / 10) (n % 10) rest (omega arith) ∙ ap (λ (k : ℕ). read_digits k rest) e

pub read_digits-padded :
    (width n : ℕ) (rest : Text)
    → n < 10 ^ width
    → read_digits 0 (padded width n ++ rest) ≡ read_digits n rest
unfolding padded
read_digits-padded zero n rest h =
    let e : 0 ≡ n = omega (arith, h) in ap (λ (k : ℕ). read_digits k rest) e
read_digits-padded (suc width) n rest h =
    ap (read_digits 0) (append_assoc (padded width (n / 10)) ((b'0' + n % 10) ∷ []) rest)
    ∙ read_digits-padded width (n / 10) ((b'0' + n % 10) ∷ rest) (shorter width n h)
    ∙ last_digit n rest

pub read_digits-decimal :
    (digits n : ℕ) (rest : Text)
    → n < 10 ^ digits
    → read_digits 0 (decimal digits n ++ rest) ≡ read_digits n rest
unfolding decimal
read_digits-decimal zero n rest h =
    let e : 0 ≡ n = omega (arith, h) in ap (λ (k : ℕ). read_digits k rest) e
read_digits-decimal (suc digits) n rest h = elim (Bool-cases (ltb n 10)) [
  | inl small ↦ rw small (
      read_digits-digit 0 n rest (ltb→lt n 10 small)
      ∙ ap (λ (k : ℕ). read_digits k rest) (omega arith))
  | inr large ↦ rw large (
      ap (read_digits 0) (append_assoc (decimal digits (n / 10)) ((b'0' + n % 10) ∷ []) rest)
      ∙ read_digits-decimal digits (n / 10) ((b'0' + n % 10) ∷ rest) (shorter digits n h)
      ∙ last_digit n rest)
]

from_chars-digits :
    (text : Text) (n : ℕ)
    → is_none text ≡ false
    → read_digits 0 text ≡ some n
    → n < 2 ^ 64
    → from_chars text ≡ some n
unfolding from_chars
from_chars-digits [] n e h small = absurd (cc e)
from_chars-digits (c ∷ cs) n e h small = rw (h, from_chars) (rw (lt→ltb n (2 ^ 64) small) refl)

split_point-digits :
    (whole fraction : Text)
    → All IsDigit whole
    → split_point (whole ++ b'.' ∷ fraction) ≡ (whole, some fraction)
unfolding split_point
split_point-digits [] fraction h = refl
split_point-digits (c ∷ cs) fraction ((low, high), hs) =
    rw (no_point c low, split_point-digits cs fraction hs) refl
  where
    no_point : (c : ℕ) → b'0' ≤ c → (c == b'.') ≡ false
    no_point c h = ground arith

no_points : (text : Text) → All IsDigit text → any (λ c. c == b'.') text ≡ false
no_points [] h = refl
no_points (c ∷ cs) ((low, high), hs) = rw (no_point c low) (no_points cs hs)
  where
    no_point : (c : ℕ) → b'0' ≤ c → (c == b'.') ≡ false
    no_point c h = ground arith

is_none-snoc : (text : Text) (c : ℕ) → is_none (text ++ c ∷ []) ≡ false
is_none-snoc [] c = refl
is_none-snoc (x ∷ xs) c = refl

pub is_none-decimal : (digits n : ℕ) → is_none (decimal (suc digits) n) ≡ false
unfolding decimal
is_none-decimal digits n = elim (Bool-cases (ltb n 10)) [
  | inl small ↦ rw small refl
  | inr large ↦ rw large (is_none-snoc (decimal digits (n / 10)) (b'0' + n % 10))
]

starts_with_digit :
    (text rest : Text)
    → All IsDigit text
    → is_none text ≡ false
    → (is_none (text ++ rest) || is_negative (text ++ rest)) ≡ false
starts_with_digit [] rest h e = absurd (cc e)
starts_with_digit (c ∷ cs) rest ((low, high), hs) e = not_minus c low
  where
    not_minus : (c : ℕ) → b'0' ≤ c → (c == b'-') ≡ false
    not_minus c h = ground arith

pub read_end : (k : ℕ) → read_digits k [] ≡ some k
unfolding read_digits
read_end k = refl

-- Every amount in the range of money is printed, and the text is parsed as that amount.
pub parse_bin_amount-format_bin_amount :
    (n : ℕ)
    → n ≤ max_money
    → (text : Text) × (format_bin_amount (pos n) ≡ ok text) × (parse_bin_amount text ≡ ok (pos n))
unfolding format_bin_amount parse_bin_amount
parse_bin_amount-format_bin_amount n h =
    let q = n / bits_per_bin in
    let r = n % bits_per_bin in
    let whole = decimal 20 q in
    let fraction = padded 8 r in
    let starts =
      starts_with_digit whole (b'.' ∷ fraction) (decimal_digits 20 q) (is_none-decimal 19 q) in
    let split = split_point-digits whole fraction (decimal_digits 20 q) in
    let size = length-padded 8 r in
    let read_whole : read_digits 0 whole ≡ some q =
      ap (read_digits 0) (sym (append-nil whole))
      ∙ read_digits-decimal 20 q [] (omega (arith, h))
      ∙ read_end q in
    let read_fraction : read_digits 0 fraction ≡ some r =
      ap (read_digits 0) (sym (append-nil fraction))
      ∙ read_digits-padded 8 r [] (omega (arith, h))
      ∙ read_end r in
    let whole_value =
      from_chars-digits whole q (is_none-decimal 19 q) read_whole (omega (arith, h)) in
    let fraction_value =
      from_chars-digits fraction r (not_empty fraction size) read_fraction (omega (arith, h)) in
    let whole_fits = ltb-false (max_money / bits_per_bin) q (omega (arith, h)) in
    let sum : (q * bits_per_bin + r) % 2 ^ 64 ≡ n = omega (arith, h) in
    let all_fits = ltb-false max_money n h in
    (
      whole ++ b'.' ∷ fraction,
      rw (in_range n h) refl,
      rw
          (
            starts,
            split,
            no_points fraction (padded_digits 8 r),
            is_none-decimal 19 q,
            size,
            append-nil fraction,
            whole_value,
            fraction_value,
          )
          (rw (whole_fits, sum, all_fits) refl),
    )
  where
    in_range : (n : ℕ) → n ≤ max_money → money_range (pos n) ≡ true
    in_range n h = ground arith

    not_empty : (text : Text) → length text ≡ 8 → is_none text ≡ false
    not_empty [] e = absurd (omega (arith, e))
    not_empty (c ∷ cs) e = refl
