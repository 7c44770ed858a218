-- ===== src/Amount.antt =====
-- src/amount.hpp: amounts of money. `Amount` is an int64_t; no operation of the program leaves
-- its range on amounts that passed `money_range`, so an integer stands for it.
pub mod Supply
use binarycoin.Base.{
  leb, ◌==◌, if◌then◌else◌, ℤ, pos, leb_ℤ, zero_halving_interval, Result, ok, ◌>>◌, throw_if, ℕ,
  ◌*◌, ◌/◌, ◌^◌, Bool, ◌&&◌,
}

abbrev pub Amount : Type 0
Amount = ℤ

abbrev pub bits_per_bin : ℕ
bits_per_bin = 100_000_000

abbrev pub initial_subsidy : ℕ
initial_subsidy = 50 * bits_per_bin

abbrev pub max_money : ℕ
max_money = 21_000_000 * bits_per_bin

abbrev pub testnet_halving_interval : ℕ
testnet_halving_interval = 210_000

abbrev pub coinbase_maturity : ℕ
coinbase_maturity = 100

abbrev pub money_range : Amount → Bool
money_range value = leb_ℤ (pos 0) value && leb_ℤ value (pos max_money)

unfoldable pub block_subsidy : ℕ → ℕ → Result Amount
block_subsidy height halving_interval = do
  throw_if (halving_interval == 0) zero_halving_interval
  let halvings = height / halving_interval
  if leb 63 halvings then ok (pos 0) else ok (pos (initial_subsidy / 2 ^ halvings))
