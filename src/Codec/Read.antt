-- ===== src/Codec/Read.antt =====
-- src/serialize.cpp: the readers against the fixed forms of the writers, anywhere in the input.
use binarycoin.Base.{
  List, [], ap, append-nil, arith, drop, drop-append, get_or, inl, inr, length, length-append,
  length-drop, negsuc, ok, pos, refl, suc, sym, take-append, zero, ℕ, ℤ, ◌%◌, ◌*◌, ◌++◌, ◌+◌, ◌-◌,
  ◌/◌, ◌<◌, ◌^◌, ◌∙◌, ◌∷◌, ◌≡◌, ◌≤◌,
}
use binarycoin.Codec.{
  read_bytes, read_compact_size, read_compact_tail, read_i32_le, read_i64_le, read_le, read_u32_le,
  read_u64_le, require_available, to_signed, to_unsigned,
}
use binarycoin.Codec.Write.{compact_bytes, compact_bytes-cases, u32_bytes, u64_bytes}

-- The bytes of the input from the offset on.
pub record Ahead (input : List ℕ) (offset : ℕ) (rest : List ℕ) : Type 0 where
  pub within : offset ≤ length input
  pub left : drop offset input ≡ rest

-- The whole input is ahead of offset 0.
pub Ahead-start : (input : List ℕ) → Ahead input 0 input
Ahead-start input = record { within = omega arith; left = refl }

pub Ahead-start_nil : (input : List ℕ) → Ahead input 0 (input ++ [])
Ahead-start_nil input = record { within = omega arith; left = sym (append-nil input) }

drop-append_ahead :
    (o : ℕ) (input bs rest : List ℕ) → drop o input ≡ bs ++ rest → drop (o + length bs) input ≡ rest
drop-append_ahead zero input bs rest h =
    rw h (ap (λ (k : ℕ). drop k (bs ++ rest)) (omega arith) ∙ drop-append bs rest)
drop-append_ahead (suc o) [] [] rest h = ground arith
drop-append_ahead (suc o) [] (b ∷ bs) rest h = cc
drop-append_ahead (suc o) (x ∷ input) bs rest h =
    let e : suc o + length bs ≡ suc (o + length bs) = omega arith in
    ap (λ (k : ℕ). drop k (x ∷ input)) e ∙ drop-append_ahead o input bs rest h

-- Behind the bytes that were read stands the rest.
pub Ahead-next :
    (input bs rest : List ℕ) (o : ℕ) → Ahead input o (bs ++ rest) → Ahead input (o + length bs) rest
Ahead-next input bs rest o a = record {
  within = omega (arith, ap length a.left, a.within, length-drop o input, length-append bs rest);
  left = drop-append_ahead o input bs rest a.left;
}

pub require_available-Ahead :
    (input bs rest : List ℕ) (o : ℕ)
    → Ahead input o (bs ++ rest)
    → require_available input o (length bs) ≡ ok tt
unfolding require_available
require_available-Ahead input bs rest o a =
    ground (arith, ap length a.left, a.within, length-drop o input, length-append bs rest)

get_or-Ahead : (o b : ℕ) (input rest : List ℕ) → drop o input ≡ b ∷ rest → get_or input o 0 ≡ b
get_or-Ahead zero b input rest h = rw h
get_or-Ahead (suc o) b [] rest h = cc
get_or-Ahead (suc o) b (x ∷ input) rest h = get_or-Ahead o b input rest h

-- The number that the bytes stand for.
abbrev le_value : ℕ → List ℕ → ℕ
le_value shift [] = 0
le_value shift (b ∷ bs) = b * 2 ^ shift + le_value (shift + 8) bs

read_le_lem :
    (bs rest input : List ℕ) (shift o v : ℕ)
    → drop o input ≡ bs ++ rest
    → read_le (length bs) shift input o v ≡ (v + le_value shift bs, o + length bs)
unfolding read_le
read_le_lem [] rest input shift o v h = ground arith
read_le_lem (b ∷ bs) rest input shift o v h = ground (
  arith,
  get_or-Ahead o b input (bs ++ rest) h,
  read_le_lem bs rest input (shift + 8) (o + 1) (v + b * 2 ^ shift)
      (drop-append_ahead o input (b ∷ []) (bs ++ rest) h),
)

-- The value of the bytes that are read, with the offset behind them.
read_le-Ahead :
    (input bs rest : List ℕ) (o : ℕ)
    → Ahead input o (bs ++ rest)
    → read_le (length bs) 0 input o 0 ≡ (le_value 0 bs, o + length bs)
read_le-Ahead input bs rest o a = read_le_lem bs rest input 0 o 0 a.left ∙ ground arith

pub read_u32_le_lem :
    (input rest : List ℕ) (o v : ℕ)
    → v < 2 ^ 32
    → Ahead input o (u32_bytes v ++ rest)
    → read_u32_le input o ≡ ok (v, o + 4)
unfolding read_u32_le
read_u32_le_lem input rest o v h a =
    rw
      (
        require_available-Ahead input (u32_bytes v) rest o a,
        read_le-Ahead input (u32_bytes v) rest o a,
      )
      (ap (λ (k : ℕ). ok (k, o + 4)) (omega arith))

pub read_u64_le_lem :
    (input rest : List ℕ) (o v : ℕ)
    → v < 2 ^ 64
    → Ahead input o (u64_bytes v ++ rest)
    → read_u64_le input o ≡ ok (v, o + 8)
unfolding read_u64_le
read_u64_le_lem input rest o v h a =
    rw
      (
        require_available-Ahead input (u64_bytes v) rest o a,
        read_le-Ahead input (u64_bytes v) rest o a,
      )
      (ap (λ (k : ℕ). ok (k, o + 8)) (omega arith))

-- The integers that an int of w bits holds.
abbrev pub FitsSigned : ℕ → ℤ → Type 0
FitsSigned w (pos n) = n < 2 ^ (w - 1)
FitsSigned w (negsuc n) = n < 2 ^ (w - 1)

to_signed-to_unsigned_32 : (v : ℤ) → FitsSigned 32 v → to_signed 32 (to_unsigned 32 v) ≡ v
to_signed-to_unsigned_32 (pos n) h = ground arith
to_signed-to_unsigned_32 (negsuc n) h = ground arith

to_signed-to_unsigned_64 : (v : ℤ) → FitsSigned 64 v → to_signed 64 (to_unsigned 64 v) ≡ v
to_signed-to_unsigned_64 (pos n) h = ground arith
to_signed-to_unsigned_64 (negsuc n) h = ground arith

to_unsigned_32-lt : (v : ℤ) → to_unsigned 32 v < 2 ^ 32
to_unsigned_32-lt (pos n) = omega arith
to_unsigned_32-lt (negsuc n) = omega arith

to_unsigned_64-lt : (v : ℤ) → to_unsigned 64 v < 2 ^ 64
to_unsigned_64-lt (pos n) = omega arith
to_unsigned_64-lt (negsuc n) = omega arith

pub read_i32_le_lem :
    (input rest : List ℕ) (o : ℕ) (v : ℤ)
    → FitsSigned 32 v
    → Ahead input o (u32_bytes (to_unsigned 32 v) ++ rest)
    → read_i32_le input o ≡ ok (v, o + 4)
unfolding read_i32_le
read_i32_le_lem input rest o v h a = rw (
  read_u32_le_lem input rest o (to_unsigned 32 v) (to_unsigned_32-lt v) a,
  to_signed-to_unsigned_32 v h,
)

pub read_i64_le_lem :
    (input rest : List ℕ) (o : ℕ) (v : ℤ)
    → FitsSigned 64 v
    → Ahead input o (u64_bytes (to_unsigned 64 v) ++ rest)
    → read_i64_le input o ≡ ok (v, o + 8)
unfolding read_i64_le
read_i64_le_lem input rest o v h a = rw (
  read_u64_le_lem input rest o (to_unsigned 64 v) (to_unsigned_64-lt v) a,
  to_signed-to_unsigned_64 v h,
)

pub read_bytes_lem :
    (input bs rest : List ℕ) (o : ℕ)
    → Ahead input o (bs ++ rest)
    → read_bytes input o (length bs) ≡ ok (bs, o + length bs)
unfolding read_bytes
read_bytes_lem input bs rest o a =
    rw (require_available-Ahead input bs rest o a, a.left, take-append bs rest)

marker-Ahead :
    (input rest : List ℕ) (o m : ℕ)
    → Ahead input o (m ∷ rest)
    → read_compact_size input o ≡ read_compact_tail m input (o + 1)
unfolding read_compact_size
marker-Ahead input rest o m a =
    rw (require_available-Ahead input (m ∷ []) rest o a, get_or-Ahead o m input rest a.left)

read_compact_one :
    (input rest : List ℕ) (o v : ℕ)
    → v < 253
    → Ahead input o (v ∷ rest)
    → read_compact_size input o ≡ ok (v, o + 1)
unfolding read_compact_tail
read_compact_one input rest o v h a = marker-Ahead input rest o v a ∙ ground arith

read_compact_three :
    (input rest : List ℕ) (o v : ℕ)
    → 253 ≤ v
    → v < 2 ^ 16
    → Ahead input o (253 ∷ (v % 256) ∷ (v / 256 % 256) ∷ rest)
    → read_compact_size input o ≡ ok (v, o + 3)
unfolding read_compact_tail
read_compact_three input rest o v low high a =
    let tail = Ahead-next input (253 ∷ []) ((v % 256) ∷ (v / 256 % 256) ∷ rest) o a in
    let last = Ahead-next input ((v % 256) ∷ []) ((v / 256 % 256) ∷ rest) (o + 1) tail in
    marker-Ahead input _ o 253 a
    ∙ rw
        (
          require_available-Ahead input ((v % 256) ∷ (v / 256 % 256) ∷ []) rest (o + 1) tail,
          get_or-Ahead (o + 1) (v % 256) input _ tail.left,
          get_or-Ahead (o + 1 + 1) (v / 256 % 256) input _ last.left,
        )
        (ground arith)

read_compact_five :
    (input rest : List ℕ) (o v : ℕ)
    → 2 ^ 16 ≤ v
    → v < 2 ^ 32
    → Ahead input o (254 ∷ u32_bytes (v % 2 ^ 32) ++ rest)
    → read_compact_size input o ≡ ok (v, o + 5)
unfolding read_compact_tail
read_compact_five input rest o v low high a =
    let e : v % 2 ^ 32 ≡ v = omega arith in
    marker-Ahead input _ o 254 a
    ∙ rw
        (read_u32_le_lem input rest (o + 1) (v % 2 ^ 32) (omega arith)
          (Ahead-next input (254 ∷ []) (u32_bytes (v % 2 ^ 32) ++ rest) o a))
        (ground arith)

read_compact_nine :
    (input rest : List ℕ) (o v : ℕ)
    → 2 ^ 32 ≤ v
    → v < 2 ^ 64
    → Ahead input o (255 ∷ u64_bytes v ++ rest)
    → read_compact_size input o ≡ ok (v, o + 9)
unfolding read_compact_tail
read_compact_nine input rest o v low high a =
    marker-Ahead input _ o 255 a
    ∙ rw
        (read_u64_le_lem input rest (o + 1) v high
          (Ahead-next input (255 ∷ []) (u64_bytes v ++ rest) o a))
        (ground arith)

-- The canonical CompactSize of a 64-bit number, anywhere in the input, is read as that number, and
-- the offset moves behind it.
pub read_compact_size_lem :
    (input rest : List ℕ) (o v : ℕ)
    → v < 2 ^ 64
    → Ahead input o (compact_bytes v ++ rest)
    → read_compact_size input o ≡ ok (v, o + length (compact_bytes v))
read_compact_size_lem input rest o v h a = elim (compact_bytes-cases v) [
  | inl (low, e) ↦ rw e (read_compact_one input rest o v low (rw e at a))
  | inr (inl (low, high, e)) ↦ rw e (read_compact_three input rest o v low high (rw e at a))
  | inr (inr (inl (low, high, e))) ↦ rw e (read_compact_five input rest o v low high (rw e at a))
  | inr (inr (inr (low, e))) ↦ rw e (read_compact_nine input rest o v low h (rw e at a))
]
