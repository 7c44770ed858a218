-- ===== src/Tx.antt =====
-- src/transaction.hpp and src/transaction.cpp: the data of a transaction, and the checks of its
-- structure.
pub mod Serialize
pub mod Coinbase
use binarycoin.Base.{
  ltb, ◌==◌, length, replicate, ◌+ℤ◌, ◌-ℤ◌, ℤ, pos, ltb_ℤ, input_script_too_large,
  output_script_too_large, no_inputs, no_outputs, too_many_items, output_outside_money,
  output_total_overflow, Result, ok, ◌>>=◌, ◌>>◌, throw_if, Text, text_eq, ℕ, Bool, true, false,
  not, ◌&&◌, ◌||◌, List, [], ◌∷◌,
}
use binarycoin.Amount.{Amount, max_money, money_range}
use binarycoin.Hash.{display_hex_to_wire_bytes}

pub record OutPoint : Type 0 where
  pub txid : Text
  pub index : ℕ

pub record TxInput : Type 0 where
  pub previous_output : OutPoint
  pub script_sig : List ℕ
  pub sequence : ℕ

pub record TxOutput : Type 0 where
  pub value : Amount
  pub script_pubkey : List ℕ

pub record Transaction : Type 0 where
  pub version : ℤ
  pub inputs : List TxInput
  pub outputs : List TxOutput
  pub lock_time : ℕ

abbrev pub max_transaction_items : ℕ
max_transaction_items = 100_000

abbrev pub max_script_size : ℕ
max_script_size = 10_000

-- `std::string(64, '0')`
abbrev pub null_txid : Text
null_txid = replicate 64 b'0'

unfoldable pub is_coinbase_inputs : List TxInput → Bool
is_coinbase_inputs [] = false
is_coinbase_inputs (i ∷ []) =
    text_eq i.previous_output.txid null_txid && i.previous_output.index == 0xffff_ffff
is_coinbase_inputs (i ∷ j ∷ rest) = false

unfoldable pub is_coinbase : Transaction → Bool
unfolding is_coinbase_inputs
is_coinbase transaction = is_coinbase_inputs transaction.inputs

unfoldable pub check_inputs : List TxInput → Result (Unit {0})
check_inputs [] = ok tt
check_inputs (i ∷ rest) = do
  throw_if (ltb max_script_size (length i.script_sig)) input_script_too_large
  wire ← display_hex_to_wire_bytes i.previous_output.txid
  check_inputs rest

-- The loop over the outputs, with the total so far.
unfoldable pub check_outputs : Amount → List TxOutput → Result (Unit {0})
check_outputs total [] = ok tt
check_outputs total (output ∷ rest) = do
  throw_if (not (money_range output.value)) output_outside_money
  throw_if (ltb max_script_size (length output.script_pubkey)) output_script_too_large
  throw_if (ltb_ℤ (pos max_money -ℤ output.value) total) output_total_overflow
  check_outputs (total +ℤ output.value) rest

abbrev pub is_empty {ℓ} : {A : Type ℓ} → List A → Bool
is_empty [] = true
is_empty (x ∷ xs) = false

unfoldable pub validate_transaction_structure : Transaction → Result (Unit {0})
unfolding check_inputs check_outputs
validate_transaction_structure transaction = do
  throw_if (is_empty transaction.inputs) no_inputs
  throw_if (is_empty transaction.outputs) no_outputs
  throw_if
      (ltb max_transaction_items (length transaction.inputs)
        || ltb max_transaction_items (length transaction.outputs))
      too_many_items
  check_inputs transaction.inputs
  check_outputs (pos 0) transaction.outputs
