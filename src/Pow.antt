-- ===== src/Pow.antt =====
-- src/pow.cpp: compact targets, the work of a block, and the test of a hash against its target.
pub mod Work
use binarycoin.Base.{
  ltb, leb, ◌==◌, if◌then◌else◌, negative_target, zero_coefficient, target_out_of_range,
  value_out_of_range, Result, ok, ◌>>=◌, ◌>>◌, throw_if, Text, ℕ, zero, suc, ◌+◌, ◌-◌, ◌*◌, ◌/◌,
  ◌%◌, ◌^◌, Bool, ◌||◌, List, [], ◌∷◌, ◌++◌, reverse,
}
use binarycoin.Hash.{hex_digit}

abbrev pub uint256_maximum : ℕ
uint256_maximum = 2 ^ 256 - 1

-- `bits` is a uint32_t; targets are unbounded integers (`cpp_int`).
unfoldable pub expand_compact : ℕ → ℕ → ℕ
expand_compact exponent coefficient =
    if leb exponent 3
    then coefficient / 2 ^ (8 * (3 - exponent))
    else coefficient * 2 ^ (8 * (exponent - 3))

unfoldable pub compact_to_target : ℕ → Result ℕ
unfolding expand_compact
compact_to_target bits = do
  let exponent = bits / 2 ^ 24
  let coefficient = bits % 2 ^ 23
  throw_if (bits / 2 ^ 23 % 2 == 1) negative_target
  throw_if (coefficient == 0) zero_coefficient
  let target = expand_compact exponent coefficient
  throw_if (leb target 0 || ltb uint256_maximum target) target_out_of_range
  ok target

unfoldable pub block_proof : ℕ → Result ℕ
block_proof bits = do target ← compact_to_target bits; ok (uint256_maximum / (target + 1) + 1)

-- `value <<= 8; value += byte`, over the bytes from the last to the first.
unfoldable pub fold_digest : ℕ → List ℕ → ℕ
fold_digest value [] = value
fold_digest value (b ∷ bs) = fold_digest (value * 2 ^ 8 + b) bs

unfoldable pub check_proof_of_work : List ℕ → ℕ → Result Bool
check_proof_of_work raw_hash bits = do
  target ← compact_to_target bits
  ok (leb (fold_digest 0 (reverse raw_hash)) target)

-- `std::hex` with `std::setw(64)` and fill '0'.
pub hex_digits : ℕ → ℕ → Text
hex_digits zero value = []
hex_digits (suc width) value = hex_digits width (value / 16) ++ hex_digit (value % 16) ∷ []

pub uint256_to_hex : ℕ → Result Text
uint256_to_hex value =
    throw_if (ltb uint256_maximum value) value_out_of_range >> ok (hex_digits 64 value)

pub target_to_hex : ℕ → Result Text
target_to_hex bits = do target ← compact_to_target bits; uint256_to_hex target
