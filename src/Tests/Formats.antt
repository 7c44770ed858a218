-- ===== src/Tests/Formats.antt =====
-- Examples on numbers, hashes, targets and trees.
use binarycoin.AmountText.{format_bin_amount, parse_bin_amount}
use binarycoin.AmountText.RoundTrip.{parse_bin_amount-format_bin_amount}
use binarycoin.Base.{
  List, Text, [], arith, leb, ok, pos, refl, ℕ, ◌*◌, ◌++◌, ◌+◌, ◌-◌, ◌/◌, ◌<◌, ◌^◌, ◌↔◌, ◌∷◌, ◌≡◌,
  ◌≤◌, ◌⊎◌,
}
use binarycoin.Block.{testnet_bits}
use binarycoin.Codec.Read.{Ahead}
use binarycoin.Codec.Write.{compact_bytes}
use binarycoin.Fees.{FeeQuote, conservative, estimate, fallback, fallback_rate, fee, rounded_fee}
use binarycoin.Fees.Rounding.{IsCeiling, fee-IsCeiling}
use binarycoin.Hash.Crypto.{sha256d}
use binarycoin.Merkle.{merkle_loop, next_level, root_of_level}
use binarycoin.Merkle.Binding.{Collision, root_of_level-binding}
use binarycoin.Pow.{
  block_proof, check_proof_of_work, compact_to_target, expand_compact, uint256_maximum,
}
use binarycoin.Pow.Work.{block_proof-ceiling, check_proof_of_work-decides, le_number}
use binarycoin.Tests.{coinbase_digest, genesis_digest, toy}

compact_thousand : Ahead (253 ∷ 232 ∷ 3 ∷ 9 ∷ []) 0 (compact_bytes 1000 ++ 9 ∷ [])
unfolding compact_bytes
compact_thousand = record { within = omega arith; left = refl }

-- Targets.
abbrev hard_bits : ℕ
hard_bits = 0x1d00_ffff

abbrev easy_target : ℕ
easy_target = 0xffff * 2 ^ 224

abbrev hard_target : ℕ
hard_target = 0xffff * 2 ^ 208

easy_bits-target : compact_to_target testnet_bits ≡ ok easy_target
unfolding compact_to_target expand_compact
easy_bits-target = refl

hard_bits-target : compact_to_target hard_bits ≡ ok hard_target
unfolding compact_to_target expand_compact
hard_bits-target = refl

easy_bits-proof : block_proof testnet_bits ≡ ok (uint256_maximum / (easy_target + 1) + 1)
unfolding block_proof compact_to_target expand_compact
easy_bits-proof = refl

hard_bits-proof : block_proof hard_bits ≡ ok (uint256_maximum / (hard_target + 1) + 1)
unfolding block_proof compact_to_target expand_compact
hard_bits-proof = refl

block_proof-ceiling_example :
    (2 ^ 256 ≤ (uint256_maximum / (hard_target + 1) + 1) * (hard_target + 1))
    × ((uint256_maximum / (hard_target + 1) + 1 - 1) * (hard_target + 1) < 2 ^ 256)
block_proof-ceiling_example = block_proof-ceiling hard_bits hard_bits-target hard_bits-proof

check_proof_of_work-decides_example :
    check_proof_of_work genesis_digest testnet_bits
    ≡ ok (leb (le_number genesis_digest) easy_target)
check_proof_of_work-decides_example =
    check_proof_of_work-decides genesis_digest testnet_bits easy_bits-target

-- Trees.
abbrev two_same : List (List ℕ)
two_same = genesis_digest ∷ genesis_digest ∷ []

abbrev two_others : List (List ℕ)
two_others = genesis_digest ∷ coinbase_digest ∷ []

two_same-root : root_of_level toy two_same ≡ ok coinbase_digest
unfolding root_of_level merkle_loop next_level sha256d
two_same-root = refl

two_others-root : root_of_level toy two_others ≡ ok coinbase_digest
unfolding root_of_level merkle_loop next_level sha256d
two_others-root = refl

root_of_level-binding_example : (two_same ≡ two_others) ⊎ Collision toy
root_of_level-binding_example =
    root_of_level-binding toy two_same two_others refl (refl, (refl, tt)) (refl, (refl, tt))
      two_same-root two_others-root

-- Fees.
fee-IsCeiling_example : (fee (pos 1000) 141 ≡ ok (pos 141)) ↔ IsCeiling 1000 141 141
fee-IsCeiling_example = fee-IsCeiling 1000 141 141

abbrev toy_quote : FeeQuote
toy_quote = record {
  rate = pos 2000;
  fee = pos 282;
  confirmation_target = 6;
  mode = conservative;
  source = fallback;
}

toy_quote-estimated : estimate 141 6 conservative ≡ ok toy_quote
unfolding estimate fallback_rate fee rounded_fee
toy_quote-estimated = refl

parse_bin_amount-format_bin_amount_example :
    (text : Text) × (format_bin_amount (pos 150_000_001) ≡ ok text)
    × (parse_bin_amount text ≡ ok (pos 150_000_001))
parse_bin_amount-format_bin_amount_example =
    parse_bin_amount-format_bin_amount 150_000_001 (omega arith)
