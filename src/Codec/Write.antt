-- ===== src/Codec/Write.antt =====
-- src/serialize.cpp: the writers, each with the fixed form of its value.
use binarycoin.Base.{
  ltb, leb, if◌then◌else◌, length, All, ℤ, IsByte, ℕ, ◌/◌, ◌%◌, ◌^◌, ◌≤◌, ◌<◌, ◌≡◌, ◌⊎◌, List, [],
  ◌∷◌, ◌++◌, append_assoc, arith,
}
use binarycoin.Codec.{
  to_unsigned, append_u32_le, append_i32_le, append_u64_le, append_i64_le, append_compact_size,
}

abbrev pub u32_bytes : ℕ → List ℕ
u32_bytes v = (v / 2 ^ 0 % 256) ∷ (v / 2 ^ 8 % 256) ∷ (v / 2 ^ 16 % 256) ∷ (v / 2 ^ 24 % 256) ∷ []

abbrev pub u64_bytes : ℕ → List ℕ
u64_bytes v =
    (v / 2 ^ 0 % 256)
    ∷ (v / 2 ^ 8 % 256)
    ∷ (v / 2 ^ 16 % 256)
    ∷ (v / 2 ^ 24 % 256)
    ∷ (v / 2 ^ 32 % 256)
    ∷ (v / 2 ^ 40 % 256)
    ∷ (v / 2 ^ 48 % 256)
    ∷ (v / 2 ^ 56 % 256)
    ∷ []

unfoldable pub compact_bytes : ℕ → List ℕ
compact_bytes v =
    if ltb v 253
    then (v % 256) ∷ []
    else if leb v 0xffff
    then 253 ∷ (v % 256) ∷ (v / 256 % 256) ∷ []
    else if leb v 0xffff_ffff
    then 254 ∷ u32_bytes v
    else 255 ∷ u64_bytes v

pub append_u32_le_lem : (out : List ℕ) (v : ℕ) → append_u32_le out v ≡ out ++ u32_bytes v
unfolding append_u32_le
append_u32_le_lem out v = simp append_assoc

pub append_u64_le_lem : (out : List ℕ) (v : ℕ) → append_u64_le out v ≡ out ++ u64_bytes v
unfolding append_u64_le
append_u64_le_lem out v = simp append_assoc

pub append_i32_le_lem :
    (out : List ℕ) (v : ℤ) → append_i32_le out v ≡ out ++ u32_bytes (to_unsigned 32 v)
unfolding append_i32_le
append_i32_le_lem out v = append_u32_le_lem out (to_unsigned 32 v)

pub append_i64_le_lem :
    (out : List ℕ) (v : ℤ) → append_i64_le out v ≡ out ++ u64_bytes (to_unsigned 64 v)
unfolding append_i64_le
append_i64_le_lem out v = append_u64_le_lem out (to_unsigned 64 v)

pub append_compact_size_lem :
    (out : List ℕ) (v : ℕ) → append_compact_size out v ≡ out ++ compact_bytes v
unfolding append_compact_size compact_bytes
append_compact_size_lem out v = ground (
  arith,
  append_u32_le_lem (out ++ 254 ∷ []) (v % 2 ^ 32),
  append_u64_le_lem (out ++ 255 ∷ []) v,
  append_assoc out (254 ∷ []) (u32_bytes (v % 2 ^ 32)),
  append_assoc out (255 ∷ []) (u64_bytes v),
)

pub compact_bytes_bytes : (v : ℕ) → All IsByte (compact_bytes v)
unfolding compact_bytes
compact_bytes_bytes v = ground arith

-- A CompactSize takes one, three, five or nine bytes.
pub compact_bytes_size : (v : ℕ) → (1 ≤ length (compact_bytes v)) × (length (compact_bytes v) ≤ 9)
unfolding compact_bytes
compact_bytes_size v = ground arith

pub compact_bytes-cases :
    (v : ℕ)
    → ((v < 253) × (compact_bytes v ≡ v ∷ []))
      ⊎ (((253 ≤ v) × (v < 2 ^ 16) × (compact_bytes v ≡ 253 ∷ (v % 256) ∷ (v / 256 % 256) ∷ []))
          ⊎ (((2 ^ 16 ≤ v) × (v < 2 ^ 32) × (compact_bytes v ≡ 254 ∷ u32_bytes (v % 2 ^ 32)))
              ⊎ ((2 ^ 32 ≤ v) × (compact_bytes v ≡ 255 ∷ u64_bytes v))))
unfolding compact_bytes
compact_bytes-cases v = ground arith
