-- ===== src/Tx/Coinbase/Heights.antt =====
-- src/transaction.cpp: the coinbase, and the script numbers that it holds the height in.
use binarycoin.Codec.Read.{FitsSigned}
use binarycoin.Base.{
  ltb, leb, ◌==◌, if◌then◌else◌, ==_iff, Bool-cases, not_ltb→le, length, All, ℤ, pos, negsuc,
  push_too_large, bad_reward, bad_locking_script, ok, >>=-eq-ok, >>-eq-ok, ok-injective, IsByte,
  text_eq_refl, ℕ, zero, suc, ◌+◌, ◌-◌, ◌*◌, ◌/◌, ◌%◌, ◌^◌, ◌≤◌, ◌<◌, ◌≡◌, refl, sym, ap, ◌∙◌, inl,
  inr, Bool, true, false, not, ◌||◌, List, [], ◌∷◌, arith,
}
use binarycoin.Codec.{to_signed}
use native.Mathlib.Numerals.{unary_clauses}
use binarycoin.Amount.{Amount, money_range}
use binarycoin.Pow.Work.{le_number}
use binarycoin.Tx.{
  Transaction, max_script_size, null_txid, is_coinbase_inputs, is_coinbase, is_empty,
}
use binarycoin.Tx.Coinbase.{
  magnitude_bytes, put_sign, encode_script_number, push_script_data, coinbase_marker,
  make_testnet_coinbase,
}

pub push_script_data-ok :
    (bytes : List ℕ) {pushed : List ℕ}
    → push_script_data bytes ≡ ok pushed
    → (length bytes ≤ 75) × (((length bytes % 256) ∷ bytes) ≡ pushed)
unfolding push_script_data
push_script_data-ok bytes h =
    let (small, e) = >>-eq-ok (ltb 75 (length bytes)) push_too_large _ h in
    (not_ltb→le 75 (length bytes) small, ok-injective e)

pub make_testnet_coinbase-is_coinbase :
    (height : ℕ) (reward : Amount) (script : List ℕ) {t : Transaction}
    → make_testnet_coinbase height reward script ≡ ok t
    → is_coinbase t ≡ true
unfolding make_testnet_coinbase is_coinbase is_coinbase_inputs
make_testnet_coinbase-is_coinbase height reward script {t} h =
    let (in_range, h1) = >>-eq-ok (not (money_range reward)) bad_reward _ h in
    let (sized, h2) =
      >>-eq-ok (is_empty script || ltb max_script_size (length script)) bad_locking_script _ h1 in
    let (pushed_height, _, h3) =
      >>=-eq-ok (push_script_data (encode_script_number (to_signed 64 height))) _ h2 in
    let (pushed_marker, _, h4) = >>=-eq-ok (push_script_data coinbase_marker) _ h3 in
    let e : _ ≡ t = ok-injective h4 in rw (sym e) (rw (text_eq_refl null_txid) refl)

-- It has one output, which pays the reward.
pub make_testnet_coinbase-pays :
    (height : ℕ) (reward : Amount) (script : List ℕ) {t : Transaction}
    → make_testnet_coinbase height reward script ≡ ok t
    → (t.outputs ≡ record { value = reward; script_pubkey = script } ∷ [])
      × (money_range reward ≡ true)
unfolding make_testnet_coinbase
make_testnet_coinbase-pays height reward script {t} h =
    let (in_range, h1) = >>-eq-ok (not (money_range reward)) bad_reward _ h in
    let (sized, h2) =
      >>-eq-ok (is_empty script || ltb max_script_size (length script)) bad_locking_script _ h1 in
    let (pushed_height, _, h3) =
      >>=-eq-ok (push_script_data (encode_script_number (to_signed 64 height))) _ h2 in
    let (pushed_marker, _, h4) = >>=-eq-ok (push_script_data coinbase_marker) _ h3 in
    let e : _ ≡ t = ok-injective h4 in
    (ap (λ (x : Transaction). x.outputs) (sym e), unnegate (money_range reward) in_range)
  where
    unnegate : (b : Bool) → not b ≡ false → b ≡ true
    unnegate b h = ground arith

-- A script number as Bitcoin reads it: the top bit of the last byte is the sign.
sign_of : List ℕ → Bool
sign_of [] = false
sign_of (b ∷ []) = leb 0x80 b
sign_of (b ∷ b' ∷ rest) = sign_of (b' ∷ rest)

magnitude_of : List ℕ → ℕ
magnitude_of [] = 0
magnitude_of (b ∷ []) = b % 0x80
magnitude_of (b ∷ b' ∷ rest) = b + 256 * magnitude_of (b' ∷ rest)

pub decode_script_number : List ℕ → ℤ
unfolding sign_of magnitude_of
decode_script_number bytes =
    if sign_of bytes then negsuc (magnitude_of bytes - 1) else pos (magnitude_of bytes)

put_sign-cons :
    (negative : Bool) (b : ℕ) (bs : List ℕ)
    → (first : ℕ) × (rest : List ℕ) × (put_sign negative (b ∷ bs) ≡ first ∷ rest)
unfolding put_sign
put_sign-cons negative b [] = elim (Bool-cases (b / 0x80 % 2 == 1)) [
  | inl taken ↦ (b, (if negative then 0x80 else 0x00) ∷ [], rw taken refl)
  | inr free ↦ ((if negative then b + 0x80 else b), [], rw free refl)
]
put_sign-cons negative b (b' ∷ bs) = (b, put_sign negative (b' ∷ bs), refl)

put_sign-read :
    (negative : Bool) (b : ℕ) (bs : List ℕ)
    → All IsByte (b ∷ bs)
    → (sign_of (put_sign negative (b ∷ bs)) ≡ negative)
      × (magnitude_of (put_sign negative (b ∷ bs)) ≡ le_number (b ∷ bs))
unfolding put_sign sign_of magnitude_of
put_sign-read negative b [] (h, _) = (ground arith, ground arith)
put_sign-read negative b (b' ∷ bs) (h, hs) =
    let (sign, value) = put_sign-read negative b' bs hs in
    let (first, rest, e) = put_sign-cons negative b' bs in
    (rw e (rw e at sign), rw e (ap (λ (v : ℕ). b + 256 * v) (rw e at value)))

shifted : (rounds n : ℕ) → n < 256 ^ suc rounds → n / 256 < 256 ^ rounds
shifted rounds n h = let h' = simp unary_clauses at h in omega (arith, h')

magnitude_bytes-value : (rounds n : ℕ) → n < 256 ^ rounds → le_number (magnitude_bytes rounds n) ≡ n
unfolding magnitude_bytes
magnitude_bytes-value zero n h = omega (arith, h)
magnitude_bytes-value (suc rounds) n h = elim (Bool-cases (n == 0)) [
  | inl nothing ↦ rw nothing (sym ((==_iff n 0).0 nothing))
  | inr some_left ↦
      rw (some_left)
        (rw (magnitude_bytes-value rounds (n / 256) (shifted rounds n h)) (omega arith))
]

magnitude_bytes_bytes : (rounds n : ℕ) → All IsByte (magnitude_bytes rounds n)
unfolding magnitude_bytes
magnitude_bytes_bytes zero n = tt
magnitude_bytes_bytes (suc rounds) n = elim (Bool-cases (n == 0)) [
  | inl nothing ↦ rw nothing tt
  | inr more ↦ rw more (omega arith, magnitude_bytes_bytes rounds (n / 256))
]

decode_signed :
    (negative : Bool) (n : ℕ)
    → 0 < n
    → n < 2 ^ 64
    → decode_script_number (put_sign negative (magnitude_bytes 8 n))
      ≡ (if negative then negsuc (n - 1) else pos n)
unfolding decode_script_number
decode_signed negative n h small =
    go (magnitude_bytes 8 n) (magnitude_bytes_bytes 8 n) (magnitude_bytes-value 8 n small)
  where
    go :
        (bs : List ℕ)
        → All IsByte bs
        → le_number bs ≡ n
        → (if sign_of (put_sign negative bs)
            then negsuc (magnitude_of (put_sign negative bs) - 1)
            else pos (magnitude_of (put_sign negative bs)))
          ≡ (if negative then negsuc (n - 1) else pos n)
    go [] bytes value = absurd (omega (arith, value, h))
    go (b ∷ bs) bytes value =
        let (sign, magnitude) = put_sign-read negative b bs bytes in
        rw (sign, magnitude, value) refl

-- Every signed 64-bit integer is read back from its script number by the rule of Bitcoin, little-
-- endian with the sign in the top bit.
pub decode_script_number-encode_script_number :
    (v : ℤ) → FitsSigned 64 v → decode_script_number (encode_script_number v) ≡ v
unfolding encode_script_number decode_script_number put_sign magnitude_bytes
decode_script_number-encode_script_number (pos zero) fits = refl
decode_script_number-encode_script_number (pos (suc n)) fits =
    decode_signed false (suc n) (omega arith) (omega (arith, fits))
decode_script_number-encode_script_number (negsuc n) fits =
    let e : n + 1 - 1 ≡ n = omega arith in
    decode_signed true (n + 1) (omega arith) (omega (arith, fits)) ∙ ap negsuc e
