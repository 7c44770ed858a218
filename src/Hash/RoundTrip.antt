-- ===== src/Hash/RoundTrip.antt =====
-- src/hash.cpp: hexadecimal and bytes, there and back.
use binarycoin.Base.{
  All, All-reverse, Bool-cases, IsByte, List, Text, [], ap, arith, inl, inr, leb, length,
  length-reverse, ok, refl, reverse, reverse-reverse, ℕ, ◌%◌, ◌*◌, ◌+◌, ◌-◌, ◌/◌, ◌<◌, ◌∷◌, ◌≡◌,
  ◌≤◌, ◌⊎◌,
}
use binarycoin.Hash.{
  bytes_to_hex, display_hex_to_raw_digest, display_hex_to_wire_bytes, hash_to_display_hex,
  hex_digit, hex_pairs, hex_to_bytes, hex_value, wire_bytes_to_display_hex,
}

hex_value-hex_digit : (n : ℕ) → n < 16 → hex_value (hex_digit n) ≡ ok n
unfolding hex_value
hex_value-hex_digit n h = ground arith

hex_pairs-bytes_to_hex : (bs : List ℕ) → All IsByte bs → hex_pairs (bytes_to_hex bs) ≡ ok bs
unfolding hex_pairs bytes_to_hex
hex_pairs-bytes_to_hex [] h = refl
hex_pairs-bytes_to_hex (b ∷ bs) (hb, hs) =
    rw
      (
        hex_value-hex_digit (b / 16) (omega arith),
        hex_value-hex_digit (b % 16) (omega arith),
        hex_pairs-bytes_to_hex bs hs,
      )
      (ap (λ (k : ℕ). ok (k ∷ bs)) (omega arith))

pub length-bytes_to_hex : (bs : List ℕ) → length (bytes_to_hex bs) ≡ 2 * length bs
unfolding bytes_to_hex
length-bytes_to_hex [] = refl
length-bytes_to_hex (b ∷ bs) = omega (arith, length-bytes_to_hex bs)

pub hex_to_bytes-bytes_to_hex :
    (bs : List ℕ) → All IsByte bs → hex_to_bytes (bytes_to_hex bs) ≡ ok bs
unfolding hex_to_bytes
hex_to_bytes-bytes_to_hex bs h = ground (arith, length-bytes_to_hex bs, hex_pairs-bytes_to_hex bs h)

-- The display form of any 32 bytes reads back as those bytes.
pub wire_bytes-round_trip :
    (bs : List ℕ)
    → All IsByte bs
    → length bs ≡ 32
    → display_hex_to_wire_bytes (wire_bytes_to_display_hex bs) ≡ ok bs
unfolding display_hex_to_wire_bytes display_hex_to_raw_digest wire_bytes_to_display_hex
    hash_to_display_hex
wire_bytes-round_trip bs h e =
    rw
      (
        hex_to_bytes-bytes_to_hex (reverse bs) (All-reverse IsByte bs h),
        length-reverse bs,
        e,
        reverse-reverse bs,
      )
      refl

-- A lower-case hexadecimal digit.
abbrev pub IsHexDigit : ℕ → Type 0
IsHexDigit c = ((b'0' ≤ c) × (c ≤ b'9')) ⊎ ((b'a' ≤ c) × (c ≤ b'f'))

-- The form in which the program itself writes a hash.
pub record IsDisplayHash (text : Text) : Type 0 where
  pub digits : All IsHexDigit text
  pub size : length text ≡ 64

hex_digit-IsHexDigit : (n : ℕ) → n < 16 → IsHexDigit (hex_digit n)
hex_digit-IsHexDigit n h = elim (Bool-cases (leb n 9)) [
  | inl low ↦ inl (ground arith, ground arith)
  | inr high ↦ inr (ground arith, ground arith)
]

bytes_to_hex_digits : (bs : List ℕ) → All IsByte bs → All IsHexDigit (bytes_to_hex bs)
unfolding bytes_to_hex
bytes_to_hex_digits [] h = tt
bytes_to_hex_digits (b ∷ bs) (h, hs) = (
  hex_digit-IsHexDigit (b / 16) (omega arith),
  (hex_digit-IsHexDigit (b % 16) (omega arith), bytes_to_hex_digits bs hs),
)

-- The display form of 32 bytes.
pub hash_to_display_hex-IsDisplayHash :
    (digest : List ℕ)
    → All IsByte digest
    → length digest ≡ 32
    → IsDisplayHash (hash_to_display_hex digest)
unfolding hash_to_display_hex
hash_to_display_hex-IsDisplayHash digest h size = record {
  digits = bytes_to_hex_digits (reverse digest) (All-reverse IsByte digest h);
  size = omega (arith, length-bytes_to_hex (reverse digest), length-reverse digest, size);
}

hex_digit-hex_value :
    (c : ℕ) → IsHexDigit c → (n : ℕ) × (hex_value c ≡ ok n) × (n < 16) × (hex_digit n ≡ c)
unfolding hex_value
hex_digit-hex_value c (inl (low, high)) = (c - b'0', ground arith, omega arith, ground arith)
hex_digit-hex_value c (inr (low, high)) = (c - b'a' + 10, ground arith, omega arith, ground arith)

-- Lower-case digits, an even number of them, are the hexadecimal form of the bytes read.
bytes_to_hex-hex_pairs :
    (text : Text) (n : ℕ)
    → All IsHexDigit text
    → length text ≡ 2 * n
    → (bs : List ℕ) × (hex_pairs text ≡ ok bs)
      × (bytes_to_hex bs ≡ text)
      × (length bs ≡ n)
      × All IsByte bs
unfolding hex_pairs bytes_to_hex
bytes_to_hex-hex_pairs [] n h e = ([], refl, refl, omega arith, tt)
bytes_to_hex-hex_pairs (a ∷ []) n h e = absurd (omega arith)
bytes_to_hex-hex_pairs (a ∷ b ∷ text) n (ha, (hb, hs)) e =
    let (high, eh, lh, dh) = hex_digit-hex_value a ha in
    let (low, el, ll, dl) = hex_digit-hex_value b hb in
    let (bs, er, eb, en, ebs) = bytes_to_hex-hex_pairs text (n - 1) hs (omega arith) in
    let e1 : (high * 16 + low) / 16 ≡ high = omega arith in
    let e2 : (high * 16 + low) % 16 ≡ low = omega arith in
    (
      (high * 16 + low) ∷ bs,
      rw (eh, el, er),
      rw (e1, e2, dh, dl, eb),
      omega arith,
      (omega arith, ebs),
    )

-- A text of 64 hexadecimal digits, in lower case, is read as 32 bytes, and their display form is
-- that text.
pub display_hex-round_trip :
    (text : Text)
    → IsDisplayHash text
    → (bs : List ℕ) × (display_hex_to_wire_bytes text ≡ ok bs)
      × (wire_bytes_to_display_hex bs ≡ text)
      × (length bs ≡ 32)
      × All IsByte bs
unfolding display_hex_to_wire_bytes display_hex_to_raw_digest wire_bytes_to_display_hex
    hash_to_display_hex hex_to_bytes
display_hex-round_trip text h =
    let (bs, er, eb, en, ebs) = bytes_to_hex-hex_pairs text 32 h.digits h.size in
    (
      reverse bs,
      rw (h.size, er, en),
      rw (reverse-reverse bs, eb),
      rw (length-reverse bs, en),
      All-reverse IsByte bs ebs,
    )
