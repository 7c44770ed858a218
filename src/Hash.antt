-- ===== src/Hash.antt =====
-- src/hash.cpp: digests, and the hexadecimal form in which the program keeps transaction and block
-- hashes.
pub mod Crypto
pub mod RoundTrip
use binarycoin.Base.{
  leb, ◌==◌, if◌then◌else◌, length, odd_hex, bad_hex_digit, bad_hash_size, Result, ok, err, ◌>>=◌,
  ◌>>◌, throw_if, Text, ℕ, ◌+◌, ◌-◌, ◌*◌, ◌/◌, ◌%◌, not, ◌&&◌, List, [], ◌∷◌, reverse,
}

unfoldable pub hex_value : ℕ → Result ℕ
hex_value c =
    if leb b'0' c && leb c b'9'
    then ok (c - b'0')
    else if leb b'a' c && leb c b'f'
    then ok (c - b'a' + 10)
    else if leb b'A' c && leb c b'F'
    then ok (c - b'A' + 10)
    else err bad_hex_digit

-- The loop of `hex_to_bytes`, two characters a round. The two digits share no bit, so that
-- `(a << 4) | b` is a sum.
unfoldable pub hex_pairs : Text → Result (List ℕ)
hex_pairs [] = ok []
hex_pairs (a ∷ []) = ok []
hex_pairs (a ∷ b ∷ rest) = do
  high ← hex_value a
  low ← hex_value b
  bytes ← hex_pairs rest
  ok ((high * 16 + low) ∷ bytes)

unfoldable pub hex_to_bytes : Text → Result (List ℕ)
hex_to_bytes hex = throw_if (not (length hex % 2 == 0)) odd_hex >> hex_pairs hex

-- One digit of `std::hex`.
abbrev pub hex_digit : ℕ → ℕ
hex_digit n = if leb n 9 then b'0' + n else b'a' + n - 10

-- `std::setw(2)` with fill '0'; a byte has at most two digits.
unfoldable pub bytes_to_hex : List ℕ → Text
bytes_to_hex [] = []
bytes_to_hex (b ∷ bs) = hex_digit (b / 16) ∷ hex_digit (b % 16) ∷ bytes_to_hex bs

unfoldable pub hash_to_display_hex : List ℕ → Text
hash_to_display_hex raw_digest = bytes_to_hex (reverse raw_digest)

unfoldable pub display_hex_to_raw_digest : Text → Result (List ℕ)
display_hex_to_raw_digest display_hex = do
  bytes ← hex_to_bytes display_hex
  throw_if (not (length bytes == 32)) bad_hash_size
  ok (reverse bytes)

unfoldable pub display_hex_to_wire_bytes : Text → Result (List ℕ)
display_hex_to_wire_bytes display_hex = display_hex_to_raw_digest display_hex

pub wire_bytes_to_display_hex : List ℕ → Text
wire_bytes_to_display_hex wire_bytes = hash_to_display_hex wire_bytes
