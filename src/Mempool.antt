-- ===== src/Mempool.antt =====
-- src/mempool.hpp and src/mempool.cpp: the transactions that wait for a block.
pub mod Validity
pub mod Persistence
use binarycoin.Base.{
  if◌then◌else◌, any, ◌+ℤ◌, ◌-ℤ◌, pos, ltb_ℤ, bad_mempool_file, coinbase_in_mempool,
  already_in_mempool, mempool_fee_overflow, external_failure, Result, ok, err, ◌>>=◌, ◌>>◌,
  throw_if, Text, codes, text_eq, ℕ, Bool, not, Option, none, some, List, [], ◌∷◌, ◌++◌,
}
use binarycoin.Amount.{Amount, max_money}
use binarycoin.Hash.{hex_to_bytes, bytes_to_hex}
use binarycoin.Hash.Crypto.{Crypto}
use binarycoin.Tx.{Transaction, is_coinbase, is_empty}
use binarycoin.Tx.Serialize.{serialize, deserialize, txid_of}
use binarycoin.Utxo.{UtxoSet, apply_transaction}

-- `file` holds the lines of mempool-v1.tsv, where it exists.
pub record Mempool : Type 0 where
  pub file : Option (List Text)
  pub transactions : List Transaction

abbrev pub mempool_magic : Text
mempool_magic = codes "BINARYCOIN_TESTNET_MEMPOOL_V1"

unfoldable pub transaction_lines : List Transaction → Result (List Text)
transaction_lines [] = ok []
transaction_lines (t ∷ rest) = do
  bytes ← serialize t
  lines ← transaction_lines rest
  ok (bytes_to_hex bytes ∷ lines)

-- `writable` says whether the files can be written. The old file is replaced at the end.
unfoldable pub save : Bool → Mempool → Result (Unit {0}) × Mempool
save writable pool =
    elim (throw_if (not writable) external_failure >> transaction_lines pool.transactions) [
      | ok lines ↦ (ok tt, record pool { file = some (mempool_magic ∷ lines) })
      | err e ↦ (err e, pool)
    ]

-- The loop over the lines: what was read before a throw stays.
pub load_lines : List Text → List Transaction → Result (Unit {0}) × List Transaction
load_lines [] transactions = (ok tt, transactions)
load_lines (line ∷ rest) transactions =
    let parsed = hex_to_bytes line >>= deserialize in
    let skipped = load_lines rest transactions in
    let read : Result (Unit {0}) × List Transaction = elim parsed [
      | ok t ↦ load_lines rest (transactions ++ t ∷ [])
      | err e ↦ (err e, transactions)
    ] in
    if is_empty line then skipped else read

pub load_file : Option (List Text) → Result (Unit {0}) × List Transaction
unfolding load_lines
load_file none = (ok tt, [])
load_file (some []) = (err bad_mempool_file, [])
load_file (some (header ∷ lines)) =
    if text_eq header mempool_magic then load_lines lines [] else (err bad_mempool_file, [])

pub load : Mempool → Result (Unit {0}) × Mempool
unfolding load_file
load pool =
    let (result, transactions) = load_file pool.file in
    (result, record pool { transactions = transactions })

pub clear : Bool → Mempool → Result (Unit {0}) × Mempool
clear writable pool = save writable (record pool { transactions = [] })

module _ (c : Crypto) where
  -- The set and the fees after all the transactions, or the first throw.
  unfoldable pub replay : ℕ → List Transaction → UtxoSet → Result UtxoSet
  replay spend_height [] utxos = ok utxos
  replay spend_height (t ∷ rest) utxos = do
    let (result, utxos') = apply_transaction c t spend_height utxos
    fee ← result
    replay spend_height rest utxos'

  unfoldable pub effective_utxos : Mempool → UtxoSet → ℕ → Result UtxoSet
  unfolding replay
  effective_utxos pool chain_utxos spend_height = replay spend_height pool.transactions chain_utxos

  pub replay_fees : ℕ → List Transaction → Amount → UtxoSet → Result Amount
  replay_fees spend_height [] total utxos = ok total
  replay_fees spend_height (t ∷ rest) total utxos = do
    let (result, utxos') = apply_transaction c t spend_height utxos
    fee ← result
    throw_if (ltb_ℤ (pos max_money -ℤ fee) total) mempool_fee_overflow
    replay_fees spend_height rest (total +ℤ fee) utxos'

  pub total_fees : Mempool → UtxoSet → ℕ → Result Amount
  unfolding replay_fees
  total_fees pool chain_utxos spend_height =
      replay_fees spend_height pool.transactions (pos 0) chain_utxos

  unfoldable pub check_new : List Transaction → Transaction → Result (Unit {0})
  check_new [] transaction = ok tt
  check_new (existing ∷ rest) transaction = do
    known ← txid_of c existing
    incoming ← txid_of c transaction
    throw_if (text_eq known incoming) already_in_mempool
    check_new rest transaction

  -- All that `add` checks before it changes the mempool.
  unfoldable pub check_add : Mempool → Transaction → UtxoSet → ℕ → Result (Unit {0})
  unfolding check_new
  check_add pool transaction chain_utxos spend_height = do
    throw_if (is_coinbase transaction) coinbase_in_mempool
    check_new pool.transactions transaction
    utxos ← effective_utxos pool chain_utxos spend_height
    fee ← (apply_transaction c transaction spend_height utxos).0
    ok tt

  unfoldable pub add : Bool → Mempool → Transaction → UtxoSet → ℕ → Result (Unit {0}) × Mempool
  add writable pool transaction chain_utxos spend_height =
      elim (check_add pool transaction chain_utxos spend_height) [
        | ok _ ↦
            save writable (record pool { transactions = pool.transactions ++ transaction ∷ [] })
        | err e ↦ (err e, pool)
      ]

  -- The loop of `revalidate`: a throw of `apply_transaction` drops the transaction, and leaves the
  -- set as it left it.
  unfoldable pub retain :
      ℕ → List Text → List Transaction → UtxoSet → List Transaction → Result (List Transaction)
  retain spend_height confirmed [] effective retained = ok retained
  retain spend_height confirmed (t ∷ rest) effective retained = do
    txid ← txid_of c t
    let (result, effective') = apply_transaction c t spend_height effective
    let skipped = retain spend_height confirmed rest effective retained
    let tried : Result (List Transaction) = elim result [
      | ok fee ↦ retain spend_height confirmed rest effective' (retained ++ t ∷ [])
      | err e ↦ retain spend_height confirmed rest effective' retained
    ]
    if any (text_eq txid) confirmed then skipped else tried

  unfoldable pub revalidate : Bool → Mempool → UtxoSet → ℕ → List Text → Result (Unit {0}) × Mempool
  revalidate writable pool chain_utxos spend_height confirmed =
      elim (retain spend_height confirmed pool.transactions chain_utxos []) [
        | ok retained ↦ save writable (record pool { transactions = retained })
        | err e ↦ (err e, pool)
      ]
