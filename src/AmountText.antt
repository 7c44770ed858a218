-- ===== src/AmountText.antt =====
-- src/wallet_amount.cpp: amounts as texts.
pub mod RoundTrip
use binarycoin.Amount.{Amount, bits_per_bin, max_money, money_range}
use binarycoin.Base.{
  Bool, Error, Option, Result, Text, [], amount_not_positive, amount_outside_money,
  amount_too_large, any, bad_amount, bad_fraction, err, false, if◌then◌else◌, leb, length, ltb,
  many_points, none, not, ok, pos, pos_part, replicate, some, suc, throw_if, too_many_decimals,
  true, zero, ℕ, ◌%◌, ◌&&◌, ◌*◌, ◌++◌, ◌+◌, ◌-◌, ◌/◌, ◌==◌, ◌>>=◌, ◌>>◌, ◌^◌, ◌||◌, ◌∷◌,
}

-- `std::from_chars` for a uint64_t, which must take the whole text: one digit at least, no sign,
-- and no overflow.
unfoldable pub read_digits : ℕ → Text → Option ℕ
read_digits value [] = some value
read_digits value (digit ∷ rest) =
    let more = read_digits (value * 10 + (digit - b'0')) rest in
    if leb b'0' digit && leb digit b'9' then more else none

pub from_chars : Text → Option ℕ
from_chars [] = none
from_chars (first ∷ rest) = elim (read_digits 0 (first ∷ rest)) [
  | none ↦ none
  | some value ↦ if ltb value (2 ^ 64) then some value else none
]

-- What stands before the first point, and what behind it.
pub split_point : Text → Text × Option Text
split_point [] = ([], none)
split_point (character ∷ rest) =
    let (whole, fraction) = split_point rest in
    if character == b'.' then ([], some rest) else (character ∷ whole, fraction)

-- `text.front() == '-'`
abbrev is_negative : Text → Bool
is_negative [] = false
is_negative (first ∷ rest) = first == b'-'

abbrev pub is_none : Text → Bool
is_none [] = true
is_none (first ∷ rest) = false

abbrev text_of : Option Text → Text
text_of none = []
text_of (some fraction) = fraction

abbrev required : Error → Option ℕ → Result ℕ
required error none = err error
required error (some value) = ok value

pub parse_bin_amount : Text → Result Amount
parse_bin_amount text = do
  throw_if (is_none text || is_negative text) amount_not_positive
  let (whole_text, found) = split_point text
  let fraction_text = text_of found
  throw_if (any (λ c. c == b'.') fraction_text) many_points
  throw_if (is_none whole_text || ltb 8 (length fraction_text)) too_many_decimals
  whole ← required bad_amount (from_chars whole_text)
  fraction ←
      required bad_fraction
        (from_chars (fraction_text ++ replicate (8 - length fraction_text) b'0'))
  throw_if (ltb (max_money / bits_per_bin) whole) amount_too_large
  let bits = (whole * bits_per_bin + fraction) % 2 ^ 64
  throw_if (ltb max_money bits) amount_outside_money
  ok (pos bits)

-- `output << number`, with fuel for the digits.
unfoldable pub decimal : ℕ → ℕ → Text
decimal zero number = []
decimal (suc digits) number =
    let higher = decimal digits (number / 10) in
    if ltb number 10 then (b'0' + number) ∷ [] else higher ++ (b'0' + number % 10) ∷ []

-- `std::setw(width) << std::setfill('0')`, for a number of at most so many digits.
unfoldable pub padded : ℕ → ℕ → Text
padded zero number = []
padded (suc width) number = padded width (number / 10) ++ (b'0' + number % 10) ∷ []

-- A 64-bit number has at most 20 digits.
pub format_bin_amount : Amount → Result Text
format_bin_amount amount = do
  throw_if (not (money_range amount)) amount_outside_money
  ok (
      decimal 20 (pos_part amount / bits_per_bin)
      ++ b'.' ∷ padded 8 (pos_part amount % bits_per_bin))
