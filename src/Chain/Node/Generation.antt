-- ===== src/Chain/Node/Generation.antt =====
-- src/chain.cpp: `generate`, which mines blocks on the tip.
pub mod Growth
use binarycoin.Base.{
  ℤ, pos, missing_coinbase, candidate_fee_overflow, Result, ok, err, ◌>>=◌, ◌>>◌, ℕ, zero, suc, ◌+◌,
  ◌%◌, ◌^◌, List, [], ◌∷◌, ◌++◌,
}
use binarycoin.Hash.Crypto.{Crypto}
use binarycoin.Tx.{Transaction}
use binarycoin.Utxo.{UtxoSet}
use binarycoin.Block.{StoredBlock, testnet_bits, hash_hex, mine_testnet_block}
use binarycoin.Chain.{header_of, apply_all, add_coinbase_outputs, verify_blocks}
use binarycoin.Chain.Node.{Storage, TestnetChain, after, tip, save, ensure_initialized}

-- The coinbase of a mined block.
abbrev pub front : List Transaction → Result Transaction
front [] = err missing_coinbase
front (t ∷ rest) = ok t

module _ (c : Crypto) where
  -- One block on top of the given ones: the block, and the set that it leaves. `fuel` bounds the
  -- search for its nonce, and `now` is the clock.
  unfoldable pub next_block :
      ℕ
      → ℤ
      → List ℕ
      → List Transaction
      → List StoredBlock
      → UtxoSet
      → Result (StoredBlock × UtxoSet)
  next_block fuel now script transactions blocks utxos = do
    previous ← tip blocks
    let height = (previous.height + 1) % 2 ^ 64
    (fees, spent) ← apply_all c candidate_fee_overflow height transactions (pos 0) utxos
    previous_hash ← hash_hex c (header_of previous)
    block ←
        mine_testnet_block c fuel now height previous_hash (header_of previous).time testnet_bits
          script transactions fees
    coinbase ← front block.transactions
    utxos' ← add_coinbase_outputs c coinbase height spent
    ok (record { height = height; block = block }, utxos')

  -- The loop: the blocks that were mined stay where it throws. Only the first block takes the
  -- pending transactions. The clock is a function of the number of blocks that are left.
  unfoldable pub generate_blocks :
      ℕ
      → (ℕ → ℤ)
      → List ℕ
      → ℕ
      → List Transaction
      → UtxoSet
      → List StoredBlock
      → Result UtxoSet × List StoredBlock
  generate_blocks fuel clock script zero pending utxos blocks = (ok utxos, blocks)
  generate_blocks fuel clock script (suc count) pending utxos blocks =
      after (next_block fuel (clock count) script pending blocks utxos, blocks)
        (λ mined same. generate_blocks fuel clock script count [] mined.1 (same ++ mined.0 ∷ []))

module _ (c : Crypto) {Disk : Type 0} (storage : Storage Disk) where
  unfoldable pub generate :
      ℕ
      → (ℕ → ℤ)
      → ℕ
      → List ℕ
      → List Transaction
      → TestnetChain Disk
      → Result (Unit {0}) × TestnetChain Disk
  generate fuel clock count script pending chain =
      after (ensure_initialized c storage chain) (λ _ ready.
        let (result, blocks') =
          generate_blocks c fuel clock script count pending ready.utxos ready.blocks in
        after (result, record ready { blocks = blocks' })
          (λ utxos' mined.
            after (verify_blocks c mined.blocks, mined)
              (λ _ verified. save c storage (record verified { utxos = utxos' }))))
