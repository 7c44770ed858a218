-- ===== src/Tx/Coinbase.antt =====
-- src/transaction.cpp: script numbers, direct pushes and the coinbase transaction.
pub mod Heights
use binarycoin.Base.{
  ltb, ◌==◌, if◌then◌else◌, length, ℤ, pos, negsuc, push_too_large, bad_reward, bad_locking_script,
  Result, ok, ◌>>=◌, ◌>>◌, throw_if, Text, codes, ℕ, zero, suc, ◌+◌, ◌/◌, ◌%◌, Bool, true, false,
  not, ◌||◌, List, [], ◌∷◌, ◌++◌,
}
use binarycoin.Amount.{Amount, money_range}
use binarycoin.Codec.{to_signed}
use binarycoin.Tx.{Transaction, max_script_size, null_txid, is_empty}

-- `while (absolute != 0)`: a 64-bit number has at most eight bytes, one a round.
unfoldable pub magnitude_bytes : ℕ → ℕ → List ℕ
magnitude_bytes zero absolute = []
magnitude_bytes (suc rounds) absolute =
    let rest = magnitude_bytes rounds (absolute / 256) in
    if absolute == 0 then [] else (absolute % 256) ∷ rest

-- The top bit of the last byte is the sign: set it where it is free, and add a byte where not.
unfoldable pub put_sign : Bool → List ℕ → List ℕ
put_sign negative [] = []
put_sign negative (b ∷ []) =
    if b / 0x80 % 2 == 1
    then b ∷ (if negative then 0x80 else 0x00) ∷ []
    else (if negative then b + 0x80 else b) ∷ []
put_sign negative (b ∷ b' ∷ rest) = b ∷ put_sign negative (b' ∷ rest)

unfoldable pub encode_script_number : ℤ → List ℕ
encode_script_number (pos n) = put_sign false (magnitude_bytes 8 n)
encode_script_number (negsuc n) = put_sign true (magnitude_bytes 8 (n + 1))

unfoldable pub push_script_data : List ℕ → Result (List ℕ)
push_script_data bytes =
    throw_if (ltb 75 (length bytes)) push_too_large >> ok ((length bytes % 256) ∷ bytes)

abbrev pub coinbase_marker : Text
coinbase_marker = codes "July 22 2026, BinaryCoin testnet alpha begins."

unfoldable pub make_testnet_coinbase : ℕ → Amount → List ℕ → Result Transaction
make_testnet_coinbase height reward script_pubkey = do
  throw_if (not (money_range reward)) bad_reward
  throw_if (is_empty script_pubkey || ltb max_script_size (length script_pubkey)) bad_locking_script
  pushed_height ← push_script_data (encode_script_number (to_signed 64 height))
  pushed_marker ← push_script_data coinbase_marker
  ok (record {
    version = pos 1;
    inputs =
        record {
          previous_output = record { txid = null_txid; index = 0xffff_ffff };
          script_sig = pushed_height ++ pushed_marker;
          sequence = 0xffff_ffff;
        }
        ∷ [];
    outputs = record { value = reward; script_pubkey = script_pubkey } ∷ [];
    lock_time = 0;
  })
