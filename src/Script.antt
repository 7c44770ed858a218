-- ===== src/Script.antt =====
-- src/script.cpp: pay-to-public-key scripts, and the signatures that spend them.
pub mod Signing
use binarycoin.Base.{
  leb, ◌==◌, if◌then◌else◌, length, get_or, take, drop, invalid_public_key, not_p2pk,
  input_out_of_range, wrong_key, Result, ok, ◌>>=◌, ◌>>◌, throw_if, text_eq, ℕ, zero, suc, ◌-◌,
  Bool, false, not, ◌&&◌, ◌||◌, List, [], ◌∷◌, ◌++◌,
}
use binarycoin.Hash.Crypto.{
  Crypto, sha256d, valid_compressed_public_key, verify_ecdsa_der, sign_der,
}
use binarycoin.Codec.{append_u32_le}
use binarycoin.Tx.{TxInput, Transaction}
use binarycoin.Tx.Serialize.{serialize}
use binarycoin.Tx.Coinbase.{push_script_data}

abbrev pub op_checksig : ℕ
op_checksig = 0xac

abbrev pub sighash_all : ℕ
sighash_all = 1

-- `bytes.subspan(offset, count)`, inside the bounds.
abbrev pub subspan : List ℕ → ℕ → ℕ → List ℕ
subspan bytes offset count = take count (drop offset bytes)

-- `input.script_sig.clear()` for every input.
unfoldable pub clear_scripts : List TxInput → List TxInput
clear_scripts [] = []
clear_scripts (i ∷ rest) = record i { script_sig = [] } ∷ clear_scripts rest

-- `inputs[input_index].script_sig = script`
unfoldable pub set_script : List TxInput → ℕ → List ℕ → List TxInput
set_script [] index script = []
set_script (i ∷ rest) zero script = record i { script_sig = script } ∷ rest
set_script (i ∷ rest) (suc index) script = i ∷ set_script rest index script

unfoldable pub script_at : List TxInput → ℕ → List ℕ
script_at [] index = []
script_at (i ∷ rest) zero = i.script_sig
script_at (i ∷ rest) (suc index) = script_at rest index

module _ (c : Crypto) where
  unfoldable pub make_p2pk_script : List ℕ → Result (List ℕ)
  make_p2pk_script key = do
    throw_if (not (valid_compressed_public_key c key)) invalid_public_key
    ok (33 ∷ (key ++ op_checksig ∷ []))

  unfoldable pub is_p2pk_script : List ℕ → Bool
  is_p2pk_script script_pubkey =
      length script_pubkey == 35
      && (get_or script_pubkey 0 0 == 33
          && (get_or script_pubkey 34 0 == op_checksig
              && valid_compressed_public_key c (subspan script_pubkey 1 33)))

  unfoldable pub extract_p2pk_public_key : List ℕ → Result (List ℕ)
  extract_p2pk_public_key script_pubkey =
      throw_if (not (is_p2pk_script script_pubkey)) not_p2pk >> ok (subspan script_pubkey 1 33)

  unfoldable pub signature_hash_all : Transaction → ℕ → List ℕ → Result (List ℕ)
  signature_hash_all transaction input_index previous_script_pubkey = do
    throw_if (leb (length transaction.inputs) input_index) input_out_of_range
    let cleared = clear_scripts transaction.inputs
    let copy = record transaction { inputs = set_script cleared input_index previous_script_pubkey }
    bytes ← serialize copy
    ok (sha256d c (append_u32_le bytes sighash_all))

  -- The key is its 32 secret bytes. The transaction is changed in place: it is the result.
  unfoldable pub sign_p2pk_input : Transaction → ℕ → List ℕ → List ℕ → Result Transaction
  sign_p2pk_input transaction input_index previous_script_pubkey secret = do
    expected_public_key ← extract_p2pk_public_key previous_script_pubkey
    throw_if (not (text_eq expected_public_key (c.public_key secret))) wrong_key
    digest ← signature_hash_all transaction input_index previous_script_pubkey
    signature ← sign_der c secret digest
    pushed ← push_script_data (signature ++ sighash_all ∷ [])
    ok (record transaction { inputs = set_script transaction.inputs input_index pushed })

  -- The checks on the signature script: one push of all that follows, which ends in SIGHASH_ALL.
  unfoldable pub pushes_signature : List ℕ → Bool
  pushes_signature script_sig =
      leb 2 (length script_sig)
      && (get_or script_sig 0 0 == length script_sig - 1
          && get_or script_sig (length script_sig - 1) 0 == sighash_all)

  unfoldable pub verify_p2pk_input : Transaction → ℕ → List ℕ → Result Bool
  verify_p2pk_input transaction input_index previous_script_pubkey =
      let script_sig = script_at transaction.inputs input_index in
      let checked = (do
        public_key ← extract_p2pk_public_key previous_script_pubkey
        digest ← signature_hash_all transaction input_index previous_script_pubkey
        ok (verify_ecdsa_der c digest (subspan script_sig 1 (length script_sig - 2)) public_key)) in
      if leb (length transaction.inputs) input_index
        || not (is_p2pk_script previous_script_pubkey)
        || not (pushes_signature script_sig)
      then ok false
      else checked
