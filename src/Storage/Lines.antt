-- ===== src/Storage/Lines.antt =====
-- src/storage.cpp: lines, fields and integers, as the texts of the store have them.
pub mod Pieces
use binarycoin.Amount.{Amount}
use binarycoin.AmountText.{decimal, read_digits}
use binarycoin.Base.{
  List, Option, Result, Text, [], bad_integer, err, if◌then◌else◌, leb, ltb, negsuc, none, ok, pos,
  some, suc, zero, ℕ, ℤ, ◌++◌, ◌+◌, ◌==◌, ◌^◌, ◌∷◌,
}

-- A character in front of the first piece.
abbrev pub put_front : ℕ → List Text → List Text
put_front c [] = (c ∷ []) ∷ []
put_front c (piece ∷ pieces) = (c ∷ piece) ∷ pieces

-- What `std::getline` reads, call by call: nothing stands behind a last line feed.
unfoldable pub lines : Text → List Text
lines [] = []
lines (c ∷ rest) = let behind = lines rest in if c == 10 then [] ∷ behind else put_front c behind

-- `split`: one field more than separators.
unfoldable pub split : ℕ → Text → List Text
split separator [] = [] ∷ []
split separator (c ∷ rest) =
    let behind = split separator rest in if c == separator then [] ∷ behind else put_front c behind

-- Each line with `'\n'` behind it.
unfoldable pub unlines : List Text → Text
unlines [] = []
unlines (line ∷ rest) = line ++ 10 ∷ unlines rest

-- The fields of a line with `'\t'` between them.
unfoldable pub tabbed : List Text → Text
tabbed [] = []
tabbed (field ∷ []) = field
tabbed (field ∷ next ∷ rest) = field ++ 9 ∷ tabbed (next ∷ rest)

-- `output << number`, of at most 64 bits.
unfoldable pub show_number : ℕ → Text
show_number number = decimal 20 number

unfoldable pub show_amount : Amount → Text
show_amount (pos n) = show_number n
show_amount (negsuc n) = b'-' ∷ show_number (n + 1)

-- One digit at least, and nothing but digits.
unfoldable pub digits_value : Text → Option ℕ
digits_value [] = none
digits_value (c ∷ rest) = read_digits 0 (c ∷ rest)

-- `parse_integer` for an unsigned type of so many bits.
unfoldable pub parse_unsigned : ℕ → Text → Result ℕ
parse_unsigned bits text = elim (digits_value text) [
  | none ↦ err bad_integer
  | some value ↦ if ltb value (2 ^ bits) then ok value else err bad_integer
]

abbrev pub minus : ℕ → ℤ
minus zero = pos 0
minus (suc n) = negsuc n

-- `parse_integer<Amount>`: a minus sign may stand in front.
unfoldable pub parse_amount : Text → Result Amount
parse_amount [] = err bad_integer
parse_amount (c ∷ rest) =
    let negative : Result Amount = elim (digits_value rest) [
      | none ↦ err bad_integer
      | some value ↦ if leb value (2 ^ 63) then ok (minus value) else err bad_integer
    ] in
    let positive : Result Amount = elim (digits_value (c ∷ rest)) [
      | none ↦ err bad_integer
      | some value ↦ if ltb value (2 ^ 63) then ok (pos value) else err bad_integer
    ] in
    if c == b'-' then negative else positive

-- `starts_with`, with what stands behind the prefix.
unfoldable pub strip_prefix : Text → Text → Option Text
strip_prefix [] text = some text
strip_prefix (c ∷ prefix) [] = none
strip_prefix (c ∷ prefix) (x ∷ text) =
    let behind = strip_prefix prefix text in if c == x then behind else none
