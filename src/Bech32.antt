-- ===== src/Bech32.antt =====
-- src/bech32.cpp: testnet addresses.
use Prim.Native.Nat.{bit_xor}
use binarycoin.Base.{
  ltb, leb, ◌==◌, if◌then◌else◌, length, get_or, take, replicate, any, invalid_public_key,
  data_too_wide, bad_padding, bad_address_length, mixed_case, bad_prefix, bad_character,
  bad_checksum, bad_address_version, Result, ok, err, throw_if, ◌>>=◌, ◌>>◌, text_eq, Text, codes,
  ℕ, zero, suc, ◌+◌, ◌-◌, ◌*◌, ◌/◌, ◌%◌, ◌^◌, Bool, true, false, not, ◌&&◌, ◌||◌, Option, none,
  some, List, [], ◌∷◌, ◌++◌, map,
}
use binarycoin.Hash.Crypto.{Crypto, valid_compressed_public_key}

abbrev pub charset : Text
charset = codes "qpzry9x8gf2tvdw0s3jn54khce6mua7l"

abbrev pub hrp : Text
hrp = codes "tbin"

-- `if (((top >> index) & 1U) != 0U) checksum ^= GENERATOR[index];`
unfoldable pub xor_generators : ℕ → ℕ → List ℕ → ℕ
xor_generators top checksum_value [] = checksum_value
xor_generators top checksum_value (generator ∷ rest) =
    xor_generators (top / 2)
      (if top % 2 == 1 then bit_xor checksum_value generator else checksum_value) rest

abbrev generators : List ℕ
generators = 0x3b6a_57b2 ∷ 0x2650_8e6d ∷ 0x1ea1_19fa ∷ 0x3d42_33dd ∷ 0x2a14_62b3 ∷ []

unfoldable pub polymod_from : ℕ → List ℕ → ℕ
unfolding xor_generators
polymod_from checksum_value [] = checksum_value
polymod_from checksum_value (value ∷ rest) =
    polymod_from
      (xor_generators (checksum_value / 2 ^ 25 % 256)
        (bit_xor (checksum_value % 2 ^ 25 * 2 ^ 5) value) generators)
      rest

unfoldable pub polymod : List ℕ → ℕ
unfolding polymod_from
polymod values = polymod_from 1 values

unfoldable pub hrp_expand : Text → List ℕ
hrp_expand prefix = map (λ c. c / 2 ^ 5) prefix ++ 0 ∷ map (λ c. c % 32) prefix

unfoldable pub checksum : Text → List ℕ → List ℕ
unfolding polymod hrp_expand
checksum prefix data_values =
    let value = bit_xor (polymod ((hrp_expand prefix ++ data_values) ++ replicate 6 0)) 1 in
    map (λ index. value / 2 ^ (5 * (5 - index)) % 32) (0 ∷ 1 ∷ 2 ∷ 3 ∷ 4 ∷ 5 ∷ [])

-- `while (bits >= to_bits)`: every round takes a bit at least, so that `bits` is fuel enough. The
-- digits, with the bits that are left.
unfoldable pub emit : ℕ → ℕ → ℕ → ℕ → List ℕ × ℕ
emit zero to_bits accumulator bits = ([], bits)
emit (suc fuel) to_bits accumulator bits =
    let (rest, left) = emit fuel to_bits accumulator (bits - to_bits) in
    if leb to_bits bits
    then ((accumulator / 2 ^ (bits - to_bits) % 2 ^ to_bits) ∷ rest, left)
    else ([], bits)

-- The end of the conversion: padding is written, or must be zero and short.
unfoldable pub finish_bits : ℕ → ℕ → Bool → ℕ → ℕ → Result (List ℕ)
finish_bits from_bits to_bits true accumulator bits =
    ok (if bits == 0 then [] else (accumulator * 2 ^ (to_bits - bits) % 2 ^ to_bits) ∷ [])
finish_bits from_bits to_bits false accumulator bits =
    throw_if (leb from_bits bits || not (accumulator * 2 ^ (to_bits - bits) % 2 ^ to_bits == 0))
      bad_padding
    >> ok []

-- The loop over the input. The new bits lie below the old ones, so that `|` is a sum; `&` with a
-- mask of ones is a remainder.
unfoldable pub convert_from : ℕ → ℕ → Bool → ℕ → ℕ → List ℕ → Result (List ℕ)
unfolding emit finish_bits
convert_from from_bits to_bits pad accumulator bits [] =
    finish_bits from_bits to_bits pad accumulator bits
convert_from from_bits to_bits pad accumulator bits (value ∷ rest) = do
  throw_if (not (value / 2 ^ from_bits == 0)) data_too_wide
  let accumulator' = (accumulator * 2 ^ from_bits + value) % 2 ^ (from_bits + to_bits - 1)
  let (digits, left) = emit (bits + from_bits) to_bits accumulator' (bits + from_bits)
  more ← convert_from from_bits to_bits pad accumulator' left rest
  ok (digits ++ more)

unfoldable pub convert_bits : List ℕ → ℕ → ℕ → Bool → Result (List ℕ)
unfolding convert_from
convert_bits input from_bits to_bits pad = convert_from from_bits to_bits pad 0 0 input

abbrev pub characters : List ℕ → Text
characters values = map (λ value. get_or charset value 0) values

-- `std::islower`, `std::isupper` and `std::tolower` in the locale "C".
abbrev is_lower : ℕ → Bool
is_lower c = leb b'a' c && leb c b'z'

abbrev is_upper : ℕ → Bool
is_upper c = leb b'A' c && leb c b'Z'

abbrev to_lower : ℕ → ℕ
to_lower c = if is_upper c then c + 32 else c

-- `normalized.rfind('1')`: what stands before the last separator, and what behind it.
unfoldable pub split_last : Text → Option (Text × Text)
split_last [] = none
split_last (c ∷ rest) = elim (split_last rest) [
  | some (prefix, data_part) ↦ some (c ∷ prefix, data_part)
  | none ↦ if c == b'1' then some ([], rest) else none
]

-- `CHARSET.find(c)`, counted from `index`.
unfoldable pub find_from : ℕ → ℕ → Text → Option ℕ
find_from index c [] = none
find_from index c (x ∷ xs) =
    let later = find_from (index + 1) c xs in if x == c then some index else later

unfoldable pub read_values : Text → Result (List ℕ)
unfolding find_from
read_values [] = ok []
read_values (c ∷ rest) = do
  value ← elim (find_from 0 c charset) [ some index ↦ ok index | none ↦ err bad_character ]
  values ← read_values rest
  ok (value ∷ values)

unfoldable pub check_prefix : Option (Text × Text) → Result Text
check_prefix none = err bad_prefix
check_prefix (some (prefix, data_part)) =
    throw_if (not (text_eq prefix hrp) || ltb (length data_part) 6) bad_prefix >> ok data_part

-- `values.empty() || values.front() != 0U`, and the values behind the version.
unfoldable pub check_version : List ℕ → Result (List ℕ)
check_version [] = err bad_address_version
check_version (version ∷ rest) = throw_if (not (version == 0)) bad_address_version >> ok rest

module _ (c : Crypto) where
  unfoldable pub encode_testnet_address : List ℕ → Result Text
  encode_testnet_address compressed_public_key = do
    throw_if (not (valid_compressed_public_key c compressed_public_key)) invalid_public_key
    converted ← convert_bits compressed_public_key 8 5 true
    let data_values = 0 ∷ converted
    ok (hrp ++ b'1' ∷ (characters data_values ++ characters (checksum hrp data_values)))

  unfoldable pub decode_testnet_address : Text → Result (List ℕ)
  decode_testnet_address address = do
    throw_if (ltb (length address) 8 || ltb 90 (length address)) bad_address_length
    throw_if (any is_lower address && any is_upper address) mixed_case
    data_part ← check_prefix (split_last (map to_lower address))
    values ← read_values data_part
    throw_if (not (polymod (hrp_expand hrp ++ values) == 1)) bad_checksum
    digits ← check_version (take (length values - 6) values)
    public_key ← convert_bits digits 5 8 false
    throw_if (not (valid_compressed_public_key c public_key)) invalid_public_key
    ok public_key

  pub valid_testnet_address : Text → Bool
  valid_testnet_address address = elim (decode_testnet_address address) [
    | ok public_key ↦ true
    | err e ↦ false
  ]
