-- ===== src/Fees.antt =====
-- src/fees.hpp and src/fees.cpp: fee rates, and the estimator of the testnet.
pub mod Rounding
use binarycoin.Base.{
  ltb, ◌==◌, if◌then◌else◌, pos, negsuc, ltb_ℤ, negative_fee_rate, fee_overflow, fee_exceeds_money,
  bad_target, bad_fee_mode, Result, ok, err, ◌>>=◌, ◌>>◌, throw_if, Text, codes, text_eq, ℕ, ◌+◌,
  ◌-◌, ◌*◌, ◌/◌, ◌%◌, ◌^◌, ◌||◌,
}
use binarycoin.Amount.{Amount, max_money}

pub data FeeEstimateMode : Type 0 where
  economical conservative : FeeEstimateMode

pub data FeeEstimateSource : Type 0 where
  historical fallback mempool_minimum required_minimum : FeeEstimateSource

-- `FeeRate` holds its bits per 1000 virtual bytes.
abbrev pub FeeRate : Type 0
FeeRate = Amount

pub record FeeQuote : Type 0 where
  pub rate : FeeRate
  pub fee : Amount
  pub confirmation_target : ℕ
  pub mode : FeeEstimateMode
  pub source : FeeEstimateSource

-- The part of `FeeRate::fee` behind the tests for zero; the arguments are uint64_t.
unfoldable pub rounded_fee : ℕ → ℕ → Result Amount
rounded_fee rate size = do
  throw_if (ltb ((2 ^ 64 - 1 - 999) / rate) size) fee_overflow
  let rounded = (rate * size % 2 ^ 64 + 999) % 2 ^ 64 / 1000
  throw_if (ltb max_money rounded) fee_exceeds_money
  ok (pos rounded)

unfoldable pub fee : FeeRate → ℕ → Result Amount
unfolding rounded_fee
fee (negsuc rate) virtual_bytes = err negative_fee_rate
fee (pos rate) virtual_bytes =
    if virtual_bytes == 0 || rate == 0 then ok (pos 0) else rounded_fee rate virtual_bytes

abbrev pub relay_minimum : FeeRate
relay_minimum = pos 1000

abbrev pub fallback_economical : FeeRate
fallback_economical = pos 1000

abbrev pub fallback_conservative : FeeRate
fallback_conservative = pos 2000

unfoldable pub fallback_rate : FeeEstimateMode → FeeRate
fallback_rate conservative = fallback_conservative
fallback_rate economical = fallback_economical

unfoldable pub estimate : ℕ → ℕ → FeeEstimateMode → Result FeeQuote
unfolding fallback_rate
estimate virtual_bytes confirmation_target mode = do
  throw_if (confirmation_target == 0 || ltb 1008 confirmation_target) bad_target
  let selected = fallback_rate mode
  let low = ltb_ℤ selected relay_minimum
  let rate = if low then relay_minimum else selected
  amount ← fee rate virtual_bytes
  ok (record {
    rate = rate;
    fee = amount;
    confirmation_target = confirmation_target;
    mode = mode;
    source = if low then required_minimum else fallback;
  })

pub parse_fee_mode : Text → Result FeeEstimateMode
parse_fee_mode text =
    if text_eq text (codes "economical")
    then ok economical
    else if text_eq text (codes "conservative")
    then ok conservative
    else err bad_fee_mode

pub fee_mode_name : FeeEstimateMode → Text
fee_mode_name conservative = codes "conservative"
fee_mode_name economical = codes "economical"

pub fee_source_name : FeeEstimateSource → Text
fee_source_name historical = codes "historical"
fee_source_name fallback = codes "fallback"
fee_source_name mempool_minimum = codes "mempool-minimum"
fee_source_name required_minimum = codes "required-minimum"
