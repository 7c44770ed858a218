-- ===== src/Amount/Supply.antt =====
-- src/amount.hpp: what all blocks together may issue.
use native.Mathlib.Nat.{div-div-eq-div-mul, pow-suc}
use native.Mathlib.Decide.{dec_lt}
use binarycoin.Base.{
  leb, if◌then◌else◌, pos, ok, ℕ, zero, suc, ◌+◌, ◌-◌, ◌*◌, ◌/◌, ◌%◌, ◌^◌, ◌≤◌, ◌<◌, ◌≡◌, sym,
  arith,
}
use binarycoin.Amount.{initial_subsidy, max_money, testnet_halving_interval, block_subsidy}

-- The subsidy after k halvings.
abbrev subsidy_after : ℕ → ℕ
subsidy_after k = if leb 63 k then 0 else initial_subsidy / 2 ^ k

pub subsidy_at : ℕ → ℕ
subsidy_at height = subsidy_after (height / testnet_halving_interval)

pub block_subsidy-eq :
    (height : ℕ) → block_subsidy height testnet_halving_interval ≡ ok (pos (subsidy_at height))
unfolding block_subsidy subsidy_at
block_subsidy-eq height = ground arith

div-suc_pow : (a k : ℕ) → a / 2 ^ suc k ≡ a / 2 ^ k / 2
div-suc_pow a k = rw pow-suc (sym (div-div-eq-div-mul a (2 ^ k) 2))

subsidy_after-suc : (k : ℕ) → 2 * subsidy_after (suc k) ≤ subsidy_after k
subsidy_after-suc k = ground (arith, div-suc_pow initial_subsidy k)

-- What the blocks at heights 1 to n issue.
abbrev pub total_subsidy : ℕ → ℕ
total_subsidy zero = 0
total_subsidy (suc n) = total_subsidy n + subsidy_at (suc n)

-- What is issued, and what the rest of this interval and all later ones can add.
abbrev Bounded : ℕ → ℕ → ℕ → Type 0
Bounded issued used k = issued + (420_000 - used) * subsidy_after k ≤ max_money

same_interval :
    (issued used k : ℕ)
    → used < 209_999
    → Bounded issued used k
    → Bounded (issued + subsidy_after k) (used + 1) k
same_interval issued used k h b =
    let e : 420_000 - used ≡ 420_000 - (used + 1) + 1 = omega arith in
    let b' : issued + (420_000 - (used + 1) + 1) * subsidy_after k ≤ max_money = rw e at b in
    omega arith

next_interval :
    (issued k : ℕ) → Bounded issued 209_999 k → Bounded (issued + subsidy_after (suc k)) 0 (suc k)
next_interval issued k b = omega (arith, subsidy_after-suc k, b)

supply_potential :
    (n : ℕ)
    → Bounded (total_subsidy n) (n % testnet_halving_interval) (n / testnet_halving_interval)
unfolding subsidy_at
supply_potential zero = omega arith
supply_potential (suc n) = elim (dec_lt (n % testnet_halving_interval) 209_999) [
  | yes h ↦
      let e : suc n / testnet_halving_interval ≡ n / testnet_halving_interval = omega arith in
      let f : suc n % testnet_halving_interval ≡ n % testnet_halving_interval + 1 = omega arith in
      rw (e, f) (same_interval _ _ _ h (supply_potential n))
  | no h ↦
      let e : suc n / testnet_halving_interval ≡ suc (n / testnet_halving_interval) = omega arith in
      let f : suc n % testnet_halving_interval ≡ 0 = omega arith in
      let g : n % testnet_halving_interval ≡ 209_999 = omega arith in
      rw (e, f)
        (next_interval (total_subsidy n) (n / testnet_halving_interval)
          (rw g at (supply_potential n)))
]

-- No chain, however long, issues more than the maximum.
pub total_subsidy-le : (n : ℕ) → total_subsidy n ≤ max_money
total_subsidy-le n = omega (arith, supply_potential n)
