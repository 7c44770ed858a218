-- ===== src/Codec/Reads.antt =====
-- src/serialize.cpp: the readers at a known position, in the form in which they are chained.
use binarycoin.Base.{
  List, Result, [], ap, arith, length, length-append, length-drop, ok, ℕ, ℤ, ◌++◌, ◌+◌, ◌-◌, ◌<◌,
  ◌^◌, ◌≡◌, ◌≤◌,
}
use binarycoin.Codec.{
  read_bytes, read_compact_size, read_i32_le, read_i64_le, read_u32_le, read_u64_le, to_unsigned,
}
use binarycoin.Codec.Read.{
  Ahead, Ahead-next, FitsSigned, read_bytes_lem, read_compact_size_lem, read_i32_le_lem,
  read_i64_le_lem, read_u32_le_lem, read_u64_le_lem,
}
use binarycoin.Codec.Write.{compact_bytes, u32_bytes, u64_bytes}

-- The call returns `a`, and `rest` is ahead of the offset that it returns.
abbrev pub Reads {ℓ} : {A : Type ℓ} → Result (A × ℕ) → List ℕ → List ℕ → A → Type ℓ
Reads call input rest a = (offset : ℕ) × (call ≡ ok (a, offset)) × Ahead input offset rest

module _ (input rest : List ℕ) (o : ℕ) where
  pub u32_Reads :
      (v : ℕ)
      → v < 2 ^ 32
      → Ahead input o (u32_bytes v ++ rest)
      → Reads (read_u32_le input o) input rest v
  u32_Reads v h a =
      (o + 4, read_u32_le_lem input rest o v h a, Ahead-next input (u32_bytes v) rest o a)

  pub u64_Reads :
      (v : ℕ)
      → v < 2 ^ 64
      → Ahead input o (u64_bytes v ++ rest)
      → Reads (read_u64_le input o) input rest v
  u64_Reads v h a =
      (o + 8, read_u64_le_lem input rest o v h a, Ahead-next input (u64_bytes v) rest o a)

  pub i32_Reads :
      (v : ℤ)
      → FitsSigned 32 v
      → Ahead input o (u32_bytes (to_unsigned 32 v) ++ rest)
      → Reads (read_i32_le input o) input rest v
  i32_Reads v h a = (
    o + 4,
    read_i32_le_lem input rest o v h a,
    Ahead-next input (u32_bytes (to_unsigned 32 v)) rest o a,
  )

  pub i64_Reads :
      (v : ℤ)
      → FitsSigned 64 v
      → Ahead input o (u64_bytes (to_unsigned 64 v) ++ rest)
      → Reads (read_i64_le input o) input rest v
  i64_Reads v h a = (
    o + 8,
    read_i64_le_lem input rest o v h a,
    Ahead-next input (u64_bytes (to_unsigned 64 v)) rest o a,
  )

  pub compact_size_Reads :
      (v : ℕ)
      → v < 2 ^ 64
      → Ahead input o (compact_bytes v ++ rest)
      → Reads (read_compact_size input o) input rest v
  compact_size_Reads v h a = (
    o + length (compact_bytes v),
    read_compact_size_lem input rest o v h a,
    Ahead-next input (compact_bytes v) rest o a,
  )

  pub bytes_Reads :
      (bs : List ℕ)
      → Ahead input o (bs ++ rest)
      → Reads (read_bytes input o (length bs)) input rest bs
  bytes_Reads bs a = (o + length bs, read_bytes_lem input bs rest o a, Ahead-next input bs rest o a)

-- At the end of the input nothing is left.
pub Ahead-end : (input : List ℕ) (o : ℕ) → Ahead input o [] → o ≡ length input
Ahead-end input o a = omega (arith, a.within, ap length a.left, length-drop o input)

-- What is to be read is still in the input.
pub Ahead-remaining :
    (input bs rest : List ℕ) (o : ℕ) → Ahead input o (bs ++ rest) → length bs ≤ length input - o
Ahead-remaining input bs rest o a =
    omega (arith, ap length a.left, length-drop o input, length-append bs rest)
