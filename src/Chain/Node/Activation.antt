-- ===== src/Chain/Node/Activation.antt =====
-- src/chain.cpp: `activate_if_more_work`, which moves to a branch with more work.
pub mod Switching
use binarycoin.Base.{
  leb, ◌==◌, if◌then◌else◌, length, drop, any, foreign_genesis, Result, ok, ◌>>=◌, ◌>>◌, throw_if,
  text_eq, Text, ℕ, suc, ◌+◌, ◌-◌, Bool, true, false, List, [], ◌∷◌, ◌++◌,
}
use binarycoin.Hash.Crypto.{Crypto}
use binarycoin.Tx.{Transaction}
use binarycoin.Tx.Serialize.{txid_of}
use binarycoin.Utxo.{UtxoSet}
use binarycoin.Block.{StoredBlock, hash_hex}
use binarycoin.Chain.{header_of, verify_blocks, build_utxo_set, calculate_chainwork}
use binarycoin.Chain.Node.{Storage, TestnetChain, after, tip, adopt}

pub record ChainActivationResult : Type 0 where
  pub activated : Bool
  pub old_height : ℕ
  pub new_height : ℕ
  pub fork_height : ℕ
  pub disconnected_blocks : ℕ
  pub connected_blocks : ℕ
  pub old_chainwork : ℕ
  pub candidate_chainwork : ℕ
  pub disconnected_transactions : List Transaction

module _ (c : Crypto) where
  pub transaction_ids_of : List Transaction → Result (List Text)
  transaction_ids_of [] = ok []
  transaction_ids_of (t ∷ rest) = do
    txid ← txid_of c t
    ids ← transaction_ids_of rest
    ok (txid ∷ ids)

  -- A set that is only asked for membership.
  pub transaction_ids : List StoredBlock → Result (List Text)
  transaction_ids [] = ok []
  transaction_ids (stored ∷ rest) = do
    here ← transaction_ids_of stored.block.transactions
    ids ← transaction_ids rest
    ok (here ++ ids)

  -- `while (common_count < limit && ...) ++common_count;`
  pub count_common : List StoredBlock → List StoredBlock → Result ℕ
  count_common [] candidate = ok 0
  count_common (ours ∷ blocks) [] = ok 0
  count_common (ours ∷ blocks) (theirs ∷ candidate) = do
    our_hash ← hash_hex c (header_of ours)
    their_hash ← hash_hex c (header_of theirs)
    let rest = count_common blocks candidate
    if text_eq our_hash their_hash then (rest >>= λ n. ok (suc n)) else ok 0

  pub not_in : List Text → List Transaction → Result (List Transaction)
  not_in ids [] = ok []
  not_in ids (t ∷ rest) = do
    txid ← txid_of c t
    left ← not_in ids rest
    ok (if any (text_eq txid) ids then left else t ∷ left)

  -- The transactions behind the coinbases of the blocks that are left, but for the candidate's.
  pub disconnected : List Text → List StoredBlock → Result (List Transaction)
  disconnected ids [] = ok []
  disconnected ids (stored ∷ rest) = do
    here ← not_in ids (drop 1 stored.block.transactions)
    left ← disconnected ids rest
    ok (here ++ left)

  -- What is known before anything is disconnected.
  pub compare_branches : List StoredBlock → List StoredBlock → Result ChainActivationResult
  compare_branches candidate blocks = do
    verify_blocks c candidate
    old_tip ← tip blocks
    new_tip ← tip candidate
    old_work ← calculate_chainwork blocks
    new_work ← calculate_chainwork candidate
    common_count ← count_common blocks candidate
    throw_if (common_count == 0) foreign_genesis
    ok (record {
      activated = false;
      old_height = old_tip.height;
      new_height = new_tip.height;
      fork_height = common_count - 1;
      disconnected_blocks = length blocks - common_count;
      connected_blocks = length candidate - common_count;
      old_chainwork = old_work;
      candidate_chainwork = new_work;
      disconnected_transactions = [];
    })

  pub with_disconnected :
      List StoredBlock → List StoredBlock → ChainActivationResult → Result ChainActivationResult
  with_disconnected candidate blocks result = do
    ids ← transaction_ids candidate
    left ← disconnected ids (drop (result.fork_height + 1) blocks)
    ok (record result { disconnected_transactions = left })

module _ (c : Crypto) {Disk : Type 0} (storage : Storage Disk) where
  -- From the copies of the old state on.
  pub switch_to :
      List StoredBlock
      → ChainActivationResult
      → TestnetChain Disk
      → Result ChainActivationResult × TestnetChain Disk
  switch_to candidate result chain =
      let checked : Result UtxoSet = verify_blocks c candidate >> build_utxo_set c candidate in
      after (checked, chain)
        (λ utxos' same.
          after (adopt c storage candidate utxos' same)
            (λ _ adopted. (ok (record result { activated = true }), adopted)))

  pub activate_if_more_work :
      List StoredBlock → TestnetChain Disk → Result ChainActivationResult × TestnetChain Disk
  activate_if_more_work candidate chain =
      after (compare_branches c candidate chain.blocks, chain)
        (λ result same.
          if leb result.candidate_chainwork result.old_chainwork
          then (ok result, same)
          else after (with_disconnected c candidate same.blocks result, same) (switch_to candidate))
