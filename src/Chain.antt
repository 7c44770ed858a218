-- ===== src/Chain.antt =====
-- src/chain.cpp and the end of src/utxo.cpp: the rules that a chain of blocks must meet, and the
-- unspent outputs that it leaves.
pub mod Node
pub mod Supply
pub mod Issued
pub mod Mined
use binarycoin.Base.{
  leb, ◌==◌, ◌+ℤ◌, ◌-ℤ◌, pos, ltb_ℤ, eqb_ℤ, Error, missing_coinbase, duplicate_coinbase_output,
  empty_chain, bad_genesis, non_contiguous, bad_proof_of_work, bad_bits, broken_link,
  time_not_increasing, extra_coinbase, merkle_mismatch, block_fee_overflow, bad_coinbase_claim,
  supply_overflow, Result, ok, err, ◌>>=◌, ◌>>◌, throw_if, text_eq, ℕ, suc, ◌+◌, true, not, ◌||◌,
  List, [], ◌∷◌,
}
use binarycoin.Amount.{Amount, initial_subsidy, max_money, testnet_halving_interval, block_subsidy}
use binarycoin.Hash.Crypto.{Crypto}
use binarycoin.Tx.{Transaction, null_txid, is_coinbase, is_empty}
use binarycoin.Tx.Serialize.{txid_of}
use binarycoin.Merkle.{merkle_root_hex}
use binarycoin.Pow.{block_proof, check_proof_of_work}
use binarycoin.Utxo.{UtxoSet, sum_outputs, create_all, apply_transaction}
use binarycoin.Block.{
  BlockHeader, StoredBlock, testnet_genesis_bits, testnet_bits, testnet_genesis_hash,
  testnet_genesis_merkle, testnet_genesis_txid, header_raw_hash, hash_hex,
}

unfoldable pub no_coinbase : List Transaction → Result (Unit {0})
no_coinbase [] = ok tt
no_coinbase (t ∷ rest) = throw_if (is_coinbase t) extra_coinbase >> no_coinbase rest

-- `transactions.empty() || !transactions.front().is_coinbase()`, and the coinbase with the rest.
unfoldable pub split_coinbase : List Transaction → Result (Transaction × List Transaction)
split_coinbase [] = err missing_coinbase
split_coinbase (t ∷ rest) = throw_if (not (is_coinbase t)) missing_coinbase >> ok (t, rest)

abbrev pub header_of : StoredBlock → BlockHeader
header_of stored = stored.block.header

-- Appends of the running totals that throw on overflow.
abbrev pub add_checked : Error → Amount → Amount → Result Amount
add_checked overflow total amount =
    throw_if (ltb_ℤ (pos max_money -ℤ amount) total) overflow >> ok (total +ℤ amount)

module _ (c : Crypto) where
  -- The chain's first block against the compiled constants.
  unfoldable pub check_genesis : StoredBlock → Result (Unit {0})
  check_genesis genesis = do
    throw_if (not (genesis.height == 0)) bad_genesis
    hash ← hash_hex c (header_of genesis)
    throw_if (not (text_eq hash testnet_genesis_hash)) bad_genesis
    throw_if (not (text_eq (header_of genesis).merkle_root testnet_genesis_merkle)) bad_genesis
    throw_if (not (text_eq (header_of genesis).previous_hash null_txid)) bad_genesis
    throw_if (not ((header_of genesis).bits == testnet_genesis_bits)) bad_genesis
    coinbase ← elim genesis.block.transactions [
      | [] ↦ err bad_genesis
      | t ∷ rest ↦ throw_if (not (is_empty rest)) bad_genesis >> ok t
    ]
    txid ← txid_of c coinbase
    throw_if (not (text_eq txid testnet_genesis_txid)) bad_genesis
    throw_if (not (is_coinbase coinbase)) bad_genesis
    total ← sum_outputs coinbase
    throw_if (not (eqb_ℤ total (pos initial_subsidy))) bad_genesis

  unfoldable pub check_work : StoredBlock → Result (Unit {0})
  check_work stored = do
    digest ← header_raw_hash c (header_of stored)
    valid ← check_proof_of_work digest (header_of stored).bits
    throw_if (not valid) bad_proof_of_work

  -- What a block at `index` must be, behind `previous`, before its transactions are applied.
  unfoldable pub check_block :
      ℕ → StoredBlock → StoredBlock → Result (Transaction × List Transaction)
  check_block index previous stored = do
    throw_if (not (stored.height == index)) non_contiguous
    check_work stored
    throw_if (not ((header_of stored).bits == testnet_bits)) bad_bits
    previous_hash ← hash_hex c (header_of previous)
    throw_if (not (text_eq (header_of stored).previous_hash previous_hash)) broken_link
    throw_if (leb (header_of stored).time (header_of previous).time) time_not_increasing
    (coinbase, rest) ← split_coinbase stored.block.transactions
    no_coinbase rest
    root ← merkle_root_hex c stored.block.transactions
    throw_if (not (text_eq root (header_of stored).merkle_root)) merkle_mismatch
    ok (coinbase, rest)

  -- A throw of `apply_transaction` ends the verification, which owns the set.
  unfoldable pub apply_all :
      Error → ℕ → List Transaction → Amount → UtxoSet → Result (Amount × UtxoSet)
  apply_all overflow height [] fees utxos = ok (fees, utxos)
  apply_all overflow height (t ∷ rest) fees utxos = do
    let (result, utxos') = apply_transaction c t height utxos
    fee ← result
    fees' ← add_checked overflow fees fee
    apply_all overflow height rest fees' utxos'

  unfoldable pub add_coinbase_outputs : Transaction → ℕ → UtxoSet → Result UtxoSet
  add_coinbase_outputs coinbase height utxos =
      let (created, utxos') = create_all c duplicate_coinbase_output coinbase height true utxos in
      created >> ok utxos'

  unfoldable pub connect_block : ℕ → Transaction → List Transaction → UtxoSet → Result UtxoSet
  connect_block height coinbase rest utxos = do
    (fees, utxos') ← apply_all block_fee_overflow height rest (pos 0) utxos
    coinbase_total ← sum_outputs coinbase
    subsidy ← block_subsidy height testnet_halving_interval
    throw_if (ltb_ℤ (pos max_money -ℤ fees) subsidy || not (eqb_ℤ coinbase_total (subsidy +ℤ fees)))
        bad_coinbase_claim
    add_coinbase_outputs coinbase height utxos'

  -- The loop from the second block on, with the set that it keeps.
  unfoldable pub verify_rest : ℕ → StoredBlock → List StoredBlock → UtxoSet → Result UtxoSet
  verify_rest index previous [] utxos = ok utxos
  verify_rest index previous (stored ∷ rest) utxos = do
    (coinbase, regular) ← check_block index previous stored
    utxos' ← connect_block stored.height coinbase regular utxos
    verify_rest (suc index) stored rest utxos'

  unfoldable pub verify_blocks : List StoredBlock → Result (Unit {0})
  verify_blocks [] = err empty_chain
  verify_blocks (genesis ∷ rest) = do
    check_genesis genesis
    check_work genesis
    utxos ← verify_rest 1 genesis rest []
    ok tt

  -- `build_utxo_set`: the fees are not looked at.
  pub apply_each : ℕ → List Transaction → UtxoSet → Result UtxoSet
  apply_each height [] utxos = ok utxos
  apply_each height (t ∷ rest) utxos = do
    let (result, utxos') = apply_transaction c t height utxos
    fee ← result
    apply_each height rest utxos'

  unfoldable pub build_rest : List StoredBlock → UtxoSet → Result UtxoSet
  build_rest [] utxos = ok utxos
  build_rest (stored ∷ rest) utxos = do
    (coinbase, regular) ← split_coinbase stored.block.transactions
    utxos' ← apply_each stored.height regular utxos
    utxos'' ← add_coinbase_outputs coinbase stored.height utxos'
    build_rest rest utxos''

  unfoldable pub build_utxo_set : List StoredBlock → Result UtxoSet
  build_utxo_set [] = ok []
  build_utxo_set (genesis ∷ rest) = build_rest rest []

pub calculate_chainwork : List StoredBlock → Result ℕ
calculate_chainwork [] = ok 0
calculate_chainwork (stored ∷ rest) = do
  work ← block_proof (header_of stored).bits
  total ← calculate_chainwork rest
  ok (work + total)

pub issued_rest : List StoredBlock → Amount → Result Amount
issued_rest [] total = ok total
issued_rest (stored ∷ rest) total = do
  subsidy ← block_subsidy stored.height testnet_halving_interval
  total' ← add_checked supply_overflow total subsidy
  issued_rest rest total'

pub issued_supply : List StoredBlock → Result Amount
issued_supply [] = ok (pos 0)
issued_supply (genesis ∷ rest) = issued_rest rest (pos 0)
