-- ===== src/Utxo.antt =====
-- src/utxo.hpp and src/utxo.cpp: the unspent outputs, and the application of a transaction to them.
pub mod Coins
pub mod Conservation
pub mod Errors
use binarycoin.Base.{
  ltb, ◌==◌, if◌then◌else◌, any, ◌+ℤ◌, ◌-ℤ◌, pos, ltb_ℤ, Error, output_total_outside_money,
  coinbase_as_regular, duplicate_input, missing_input, immature_coinbase, bad_signature,
  input_total_overflow, spends_more, duplicate_output, Result, ok, err, ◌>>=◌, ◌>>◌, throw_if, Text,
  text_eq, text_less, ℕ, ◌+◌, ◌%◌, ◌^◌, Bool, true, false, not, ◌&&◌, ◌||◌, Option, none, some,
  List, [], ◌∷◌,
}
use binarycoin.Amount.{Amount, max_money, coinbase_maturity, money_range}
use binarycoin.Hash.Crypto.{Crypto}
use binarycoin.Tx.{
  OutPoint, TxInput, TxOutput, Transaction, is_coinbase, validate_transaction_structure,
}
use binarycoin.Tx.Serialize.{txid_of}
use binarycoin.Script.{verify_p2pk_input}

pub record Coin : Type 0 where
  pub output : TxOutput
  pub height : ℕ
  pub coinbase : Bool

-- `OutPointLess`
unfoldable pub outpoint_less : OutPoint → OutPoint → Bool
outpoint_less left right =
    if not (text_eq left.txid right.txid)
    then text_less left.txid right.txid
    else ltb left.index right.index

unfoldable pub outpoint_eq : OutPoint → OutPoint → Bool
outpoint_eq left right = text_eq left.txid right.txid && left.index == right.index

-- `std::map<OutPoint, Coin, OutPointLess>`: the entries in ascending order.
abbrev pub UtxoSet : Type 0
UtxoSet = List (OutPoint × Coin)

unfoldable pub find : OutPoint → UtxoSet → Option Coin
find outpoint [] = none
find outpoint ((o, coin) ∷ rest) = if outpoint_eq o outpoint then some coin else find outpoint rest

unfoldable pub contains : OutPoint → UtxoSet → Bool
unfolding find
contains outpoint utxos = elim (find outpoint utxos) [ none ↦ false | some coin ↦ true ]

unfoldable pub erase : OutPoint → UtxoSet → UtxoSet
erase outpoint [] = []
erase outpoint ((o, coin) ∷ rest) =
    if outpoint_eq o outpoint then rest else (o, coin) ∷ erase outpoint rest

-- `emplace` of a key that is there changes nothing.
unfoldable pub emplace : OutPoint → Coin → UtxoSet → UtxoSet
emplace outpoint coin [] = (outpoint, coin) ∷ []
emplace outpoint coin ((o, old) ∷ rest) =
    if outpoint_less outpoint o
    then (outpoint, coin) ∷ (o, old) ∷ rest
    else if outpoint_eq o outpoint
    then (o, old) ∷ rest
    else (o, old) ∷ emplace outpoint coin rest

unfoldable pub add_output_values : Amount → List TxOutput → Result Amount
add_output_values total [] = ok total
add_output_values total (output ∷ rest) = do
  throw_if (not (money_range output.value) || ltb_ℤ (pos max_money -ℤ output.value) total)
      output_total_outside_money
  add_output_values (total +ℤ output.value) rest

unfoldable pub sum_outputs : Transaction → Result Amount
unfolding add_output_values
sum_outputs transaction = add_output_values (pos 0) transaction.outputs

unfoldable pub erase_inputs : List TxInput → UtxoSet → UtxoSet
erase_inputs [] utxos = utxos
erase_inputs (i ∷ rest) utxos = erase_inputs rest (erase i.previous_output utxos)

-- The loop that creates a transaction's outputs. It stops at an identifier that is there, and the
-- outputs created before stay.
unfoldable pub create_outputs :
    Error → Text → ℕ → List TxOutput → ℕ → Bool → UtxoSet → Result (Unit {0}) × UtxoSet
create_outputs duplicate txid index [] height coinbase utxos = (ok tt, utxos)
create_outputs duplicate txid index (output ∷ rest) height coinbase utxos =
    let outpoint : OutPoint = record { txid = txid; index = index % 2 ^ 32 } in
    let coin : Coin = record { output = output; height = height; coinbase = coinbase } in
    let created =
      create_outputs duplicate txid (index + 1) rest height coinbase
        (emplace outpoint coin utxos) in
    if contains outpoint utxos then (err duplicate, utxos) else created

module _ (c : Crypto) where
  -- The checks of one input, with the coin that it spends.
  unfoldable pub check_input :
      Transaction → ℕ → ℕ → OutPoint → List OutPoint → UtxoSet → Result Coin
  check_input transaction index spend_height outpoint seen_inputs utxos = do
    throw_if (any (λ seen. outpoint_eq seen outpoint) seen_inputs) duplicate_input
    coin ← elim (find outpoint utxos) [ none ↦ err missing_input | some coin ↦ ok coin ]
    throw_if (coin.coinbase && ltb spend_height ((coin.height + coinbase_maturity) % 2 ^ 64))
        immature_coinbase
    verified ← verify_p2pk_input c transaction index coin.output.script_pubkey
    throw_if (not verified) bad_signature
    ok coin

  -- The loop over the inputs, with the outpoints seen and the total so far.
  unfoldable pub total_inputs :
      Transaction → ℕ → ℕ → List TxInput → List OutPoint → Amount → UtxoSet → Result Amount
  total_inputs transaction spend_height index [] seen_inputs input_total utxos = ok input_total
  total_inputs transaction spend_height index (i ∷ rest) seen_inputs input_total utxos = do
    coin ← check_input transaction index spend_height i.previous_output seen_inputs utxos
    throw_if (ltb_ℤ (pos max_money -ℤ coin.output.value) input_total) input_total_overflow
    total_inputs transaction spend_height (index + 1) rest (i.previous_output ∷ seen_inputs)
        (input_total +ℤ coin.output.value) utxos

  -- All that `apply_transaction` checks before it changes the set; the result is the fee.
  unfoldable pub check_transaction : Transaction → ℕ → UtxoSet → Result Amount
  check_transaction transaction spend_height utxos = do
    validate_transaction_structure transaction
    throw_if (is_coinbase transaction) coinbase_as_regular
    input_total ← total_inputs transaction spend_height 0 transaction.inputs [] (pos 0) utxos
    output_total ← sum_outputs transaction
    throw_if (ltb_ℤ input_total output_total) spends_more
    ok (input_total -ℤ output_total)

  -- The outputs of a transaction under its identifier.
  unfoldable pub create_all : Error → Transaction → ℕ → Bool → UtxoSet → Result (Unit {0}) × UtxoSet
  create_all duplicate transaction height coinbase utxos = elim (txid_of c transaction) [
    | ok txid ↦ create_outputs duplicate txid 0 transaction.outputs height coinbase utxos
    | err e ↦ (err e, utxos)
  ]

  -- The set comes back after a throw too: what was erased and created stays so.
  unfoldable pub apply_transaction : Transaction → ℕ → UtxoSet → Result Amount × UtxoSet
  apply_transaction transaction spend_height utxos =
      elim (check_transaction transaction spend_height utxos) [
        | err e ↦ (err e, utxos)
        | ok fee ↦
            let (created, utxos') =
              create_all duplicate_output transaction spend_height false
                (erase_inputs transaction.inputs utxos) in
            ((created >> ok fee), utxos')
      ]
