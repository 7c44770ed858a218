-- ===== src/Fees/Rounding.antt =====
-- src/fees.cpp: the rounding of fees and the quotes of the estimator.
use binarycoin.Base.{
  ltb, ◌==◌, ltb-false, Bool-cases, not_ltb→le, pos, pos_part, ◌≤ℤ◌, fee_overflow,
  fee_exceeds_money, bad_target, ok, >>=-eq-ok, >>-eq-ok, ok-injective, ℕ, zero, suc, ◌+◌, ◌-◌, ◌*◌,
  ◌/◌, ◌%◌, ◌^◌, ◌≤◌, ◌<◌, ◌≡◌, refl, sym, ap, ◌↔◌, inl, inr, true, false, ◌||◌, arith,
}
use binarycoin.Amount.{max_money}
use binarycoin.Fees.{
  FeeEstimateMode, economical, conservative, FeeQuote, rounded_fee, fee, relay_minimum,
  fallback_rate, estimate,
}
use native.Mathlib.Nat.{le-div_iff_mul-le}

fits : (rate size : ℕ) → 0 < rate → size ≤ (2 ^ 64 - 1 - 999) / rate → rate * size + 999 < 2 ^ 64
fits rate size h le = let fit = (le-div_iff_mul-le h).0 le in omega (arith, fit)

abbrev pub IsCeiling : ℕ → ℕ → ℕ → Type 0
IsCeiling rate size amount =
    (rate * size ≤ amount * 1000) × (amount * 1000 < rate * size + 1000) × (amount ≤ max_money)

rounded_fee-IsCeiling :
    (rate size n : ℕ) → 0 < rate → rounded_fee rate size ≡ ok (pos n) → IsCeiling rate size n
unfolding rounded_fee
rounded_fee-IsCeiling rate size n h e =
    let (inside, e1) = >>-eq-ok (ltb ((2 ^ 64 - 1 - 999) / rate) size) fee_overflow _ e in
    let m = (rate * size % 2 ^ 64 + 999) % 2 ^ 64 / 1000 in
    let (below, e2) = >>-eq-ok (ltb max_money m) fee_exceeds_money _ e1 in
    let fit = fits rate size h (not_ltb→le _ _ inside) in
    let eq : m ≡ n = ap pos_part (ok-injective e2) in
    let small = not_ltb→le max_money m below in
    (omega (arith, fit, eq), omega (arith, fit, eq), omega (arith, small, eq))

IsCeiling-rounded_fee :
    (rate size n : ℕ) → 0 < rate → IsCeiling rate size n → rounded_fee rate size ≡ ok (pos n)
unfolding rounded_fee
IsCeiling-rounded_fee rate size n h (low, high, small) =
    let inside : size ≤ (2 ^ 64 - 1 - 999) / rate =
      (le-div_iff_mul-le h).1 (omega (arith, low, small)) in
    let e : (rate * size % 2 ^ 64 + 999) % 2 ^ 64 / 1000 ≡ n = omega (arith, low, high, small) in
    rw (ltb-false _ _ inside, e, ltb-false max_money n small) refl

-- For a rate that is not negative, `fee` returns an amount exactly when it is the size times the
-- rate, divided by 1000 and rounded up, and it is at most the maximum.
pub fee-IsCeiling : (rate size n : ℕ) → (fee (pos rate) size ≡ ok (pos n)) ↔ IsCeiling rate size n
unfolding fee
fee-IsCeiling rate size n = elim (Bool-cases (size == 0 || rate == 0)) [
  | inl free ↦
      rw (free, product size rate free)
        (
          (λ h.
              let e : 0 ≡ n = ap pos_part (ok-injective h) in
              (omega (arith, e), omega (arith, e), omega (arith, e))),
          λ (low, high, small).
              let e : n ≡ 0 = omega (arith, low, high) in ap (λ (k : ℕ). ok (pos k)) (sym e),
        )
  | inr paid ↦
      let h : 0 < rate = positive size rate paid in
      rw paid (rounded_fee-IsCeiling rate size n h, IsCeiling-rounded_fee rate size n h)
]
  where
    product : (s r : ℕ) → (s == 0 || r == 0) ≡ true → r * s ≡ 0
    product zero r h = omega arith
    product (suc s) zero h = omega arith
    product (suc s) (suc r) h = ground arith

    positive : (s r : ℕ) → (s == 0 || r == 0) ≡ false → 0 < r
    positive s r h = ground arith

target_bounds : (t : ℕ) → (t == 0 || ltb 1008 t) ≡ false → (1 ≤ t) × (t ≤ 1008)
target_bounds t h = ground arith

-- A quote that `estimate` returns is for 1 to 1008 blocks, its rate is at least the relay minimum,
-- and its fee is the fee of its rate for the size.
pub estimate-relays :
    (size target : ℕ) (mode : FeeEstimateMode) {quote : FeeQuote}
    → estimate size target mode ≡ ok quote
    → (1 ≤ target)
      × (target ≤ 1008)
      × (relay_minimum ≤ℤ quote.rate)
      × (fee quote.rate size ≡ ok quote.fee)
unfolding estimate fallback_rate
estimate-relays size target economical e =
    let (inside, e1) = >>-eq-ok (target == 0 || ltb 1008 target) bad_target _ e in
    let (amount, paid, e2) = >>=-eq-ok (fee (pos 1000) size) _ e1 in
    let (low, high) = target_bounds target inside in
    let q = sym (ok-injective e2) in (low, high, rw q (omega arith), rw q paid)
estimate-relays size target conservative e =
    let (inside, e1) = >>-eq-ok (target == 0 || ltb 1008 target) bad_target _ e in
    let (amount, paid, e2) = >>=-eq-ok (fee (pos 2000) size) _ e1 in
    let (low, high) = target_bounds target inside in
    let q = sym (ok-injective e2) in (low, high, rw q (omega arith), rw q paid)
