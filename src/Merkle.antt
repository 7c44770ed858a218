-- ===== src/Merkle.antt =====
-- src/merkle.cpp: the Merkle root of a block's transactions.
pub mod Binding
use binarycoin.Base.{
  length, no_transactions, out_of_fuel, Result, ok, err, ◌>>=◌, ◌>>◌, throw_if, Text, ℕ, zero, suc,
  List, [], ◌∷◌, ◌++◌,
}
use binarycoin.Hash.{hash_to_display_hex}
use binarycoin.Hash.Crypto.{Crypto, sha256d}
use binarycoin.Tx.{Transaction, is_empty}
use binarycoin.Tx.Serialize.{raw_hash}

module _ (c : Crypto) where
  unfoldable pub raw_hashes : List Transaction → Result (List (List ℕ))
  raw_hashes [] = ok []
  raw_hashes (transaction ∷ rest) = do
    digest ← raw_hash c transaction
    digests ← raw_hashes rest
    ok (digest ∷ digests)

  -- One round of the loop: the last hash of an odd level is paired with itself.
  unfoldable pub next_level : List (List ℕ) → List (List ℕ)
  next_level [] = []
  next_level (a ∷ []) = sha256d c (a ++ a) ∷ []
  next_level (a ∷ b ∷ rest) = sha256d c (a ++ b) ∷ next_level rest

  -- `while (level.size() > 1)`, with fuel.
  unfoldable pub merkle_loop : ℕ → List (List ℕ) → Result (List ℕ)
  merkle_loop fuel [] = err no_transactions
  merkle_loop fuel (a ∷ []) = ok a
  merkle_loop zero (a ∷ b ∷ rest) = err out_of_fuel
  merkle_loop (suc fuel) (a ∷ b ∷ rest) = merkle_loop fuel (next_level (a ∷ b ∷ rest))

  -- Every round makes the level shorter, so that its length is fuel enough.
  unfoldable pub root_of_level : List (List ℕ) → Result (List ℕ)
  root_of_level level = merkle_loop (length level) level

  unfoldable pub merkle_root_raw : List Transaction → Result (List ℕ)
  merkle_root_raw transactions = do
    throw_if (is_empty transactions) no_transactions
    level ← raw_hashes transactions
    root_of_level level

  unfoldable pub merkle_root_hex : List Transaction → Result Text
  merkle_root_hex transactions = do
    root ← merkle_root_raw transactions
    ok (hash_to_display_hex root)
