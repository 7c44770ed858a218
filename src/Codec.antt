-- ===== src/Codec.antt =====
-- src/serialize.cpp: little-endian integers, CompactSize, and bounded reads. A reader takes the
-- input and an offset, and returns the value with the new offset.
pub mod Write
pub mod Read
pub mod Reads
use binarycoin.Base.{
  ltb, leb, ◌==◌, if◌then◌else◌, length, get_or, take, drop, ℤ, pos, negsuc, unexpected_end,
  non_canonical_size, Result, ok, ◌>>=◌, ◌>>◌, throw_if, ℕ, zero, suc, ◌+◌, ◌-◌, ◌*◌, ◌/◌, ◌%◌, ◌^◌,
  ◌||◌, List, [], ◌∷◌, ◌++◌,
}

-- `static_cast` between signed and unsigned integers of w bits, in two's complement.
abbrev pub to_unsigned : ℕ → ℤ → ℕ
to_unsigned w (pos n) = n % 2 ^ w
to_unsigned w (negsuc n) = 2 ^ w - 1 - n % 2 ^ w

abbrev pub to_signed : ℕ → ℕ → ℤ
to_signed w u = if ltb u (2 ^ (w - 1)) then pos u else negsuc (2 ^ w - u - 1)

-- `for (shift = 0; shift < 8 * rounds; shift += 8) output.push_back(uint8_t(value >> shift))`
unfoldable pub append_le : ℕ → ℕ → List ℕ → ℕ → List ℕ
append_le zero shift output value = output
append_le (suc rounds) shift output value =
    append_le rounds (shift + 8) (output ++ (value / 2 ^ shift % 256) ∷ []) value

unfoldable pub append_u32_le : List ℕ → ℕ → List ℕ
unfolding append_le
append_u32_le output value = append_le 4 0 output value

unfoldable pub append_i32_le : List ℕ → ℤ → List ℕ
append_i32_le output value = append_u32_le output (to_unsigned 32 value)

unfoldable pub append_u64_le : List ℕ → ℕ → List ℕ
unfolding append_le
append_u64_le output value = append_le 8 0 output value

unfoldable pub append_i64_le : List ℕ → ℤ → List ℕ
append_i64_le output value = append_u64_le output (to_unsigned 64 value)

unfoldable pub append_compact_size : List ℕ → ℕ → List ℕ
append_compact_size output value =
    if ltb value 253
    then output ++ (value % 256) ∷ []
    else if leb value 0xffff
    then output ++ 253 ∷ (value % 256) ∷ (value / 256 % 256) ∷ []
    else if leb value 0xffff_ffff
    then append_u32_le (output ++ 254 ∷ []) (value % 2 ^ 32)
    else append_u64_le (output ++ 255 ∷ []) value

pub require_available : List ℕ → ℕ → ℕ → Result (Unit {0})
require_available input offset count =
    throw_if (ltb (length input) offset || ltb (length input - offset) count) unexpected_end

-- `value |= uint(input[offset++]) << (8 * index)`. The bits set so far lie below the new ones, so
-- that `|` is a sum.
pub read_le : ℕ → ℕ → List ℕ → ℕ → ℕ → ℕ × ℕ
read_le zero shift input offset value = (value, offset)
read_le (suc rounds) shift input offset value =
    read_le rounds (shift + 8) input (offset + 1) (value + get_or input offset 0 * 2 ^ shift)

pub read_u32_le : List ℕ → ℕ → Result (ℕ × ℕ)
read_u32_le input offset = require_available input offset 4 >> ok (read_le 4 0 input offset 0)

pub read_i32_le : List ℕ → ℕ → Result (ℤ × ℕ)
read_i32_le input offset = do
  (value, offset') ← read_u32_le input offset
  ok (to_signed 32 value, offset')

pub read_u64_le : List ℕ → ℕ → Result (ℕ × ℕ)
read_u64_le input offset = require_available input offset 8 >> ok (read_le 8 0 input offset 0)

pub read_i64_le : List ℕ → ℕ → Result (ℤ × ℕ)
read_i64_le input offset = do
  (value, offset') ← read_u64_le input offset
  ok (to_signed 64 value, offset')

-- What follows the marker byte.
pub read_compact_tail : ℕ → List ℕ → ℕ → Result (ℕ × ℕ)
read_compact_tail marker input offset =
    if ltb marker 253
    then ok (marker, offset)
    else if marker == 253
    then (do
      require_available input offset 2
      let value = get_or input offset 0 + get_or input (offset + 1) 0 * 256
      throw_if (ltb value 253) non_canonical_size
      ok (value, offset + 2))
    else if marker == 254
    then (do
      (value, offset') ← read_u32_le input offset
      throw_if (leb value 0xffff) non_canonical_size
      ok (value, offset'))
    else (do
      (value, offset') ← read_u64_le input offset
      throw_if (leb value 0xffff_ffff) non_canonical_size
      ok (value, offset'))

pub read_compact_size : List ℕ → ℕ → Result (ℕ × ℕ)
read_compact_size input offset =
    require_available input offset 1 >> read_compact_tail (get_or input offset 0) input (offset + 1)

pub read_bytes : List ℕ → ℕ → ℕ → Result (List ℕ × ℕ)
read_bytes input offset count =
    require_available input offset count >> ok (take count (drop offset input), offset + count)
