-- ===== src/Pow/Work.antt =====
-- src/pow.cpp: the range of targets, the work of a block and the test of a hash.
use mathlib.Core.List.{reverse_aux}
use binarycoin.Base.{
  ltb, leb, ◌==◌, negative_target, zero_coefficient, target_out_of_range, ok, >>-eq-ok,
  ok-injective, ℕ, ◌+◌, ◌-◌, ◌*◌, ◌/◌, ◌%◌, ◌^◌, ◌≤◌, ◌<◌, ◌≡◌, refl, sym, ap, ◌∙◌, false, ◌||◌,
  List, [], ◌∷◌, reverse, arith,
}
use binarycoin.Pow.{
  uint256_maximum, expand_compact, compact_to_target, block_proof, fold_digest, check_proof_of_work,
}
use native.Mathlib.Nat.{div-mul-le_self, lt-div-mul-add, le-div_iff_mul-le}

-- A target that `compact_to_target` returns is positive and has at most 256 bits.
pub compact_to_target-bounds :
    (bits : ℕ) {target : ℕ}
    → compact_to_target bits ≡ ok target
    → (0 < target) × (target ≤ uint256_maximum)
unfolding compact_to_target
compact_to_target-bounds bits h =
    let exponent = bits / 2 ^ 24 in
    let coefficient = bits % 2 ^ 23 in
    let (_, h1) = >>-eq-ok (bits / 2 ^ 23 % 2 == 1) negative_target _ h in
    let (_, h2) = >>-eq-ok (coefficient == 0) zero_coefficient _ h1 in
    let value = expand_compact exponent coefficient in
    let (inside, h3) =
      >>-eq-ok (leb value 0 || ltb uint256_maximum value) target_out_of_range _ h2 in
    inside_bounds value _ inside (ok-injective h3)
  where
    inside_bounds :
        (value target : ℕ)
        → (leb value 0 || ltb uint256_maximum value) ≡ false
        → value ≡ target
        → (0 < target) × (target ≤ uint256_maximum)
    inside_bounds value target h e = ground arith

div-antitone : (n a b : ℕ) → 0 < a → a ≤ b → n / b ≤ n / a
div-antitone n a b pos_a h = (le-div_iff_mul-le pos_a).1 (grind (arith, div-mul-le_self n b))

block_proof-eq :
    (bits : ℕ) {target work : ℕ}
    → compact_to_target bits ≡ ok target
    → block_proof bits ≡ ok work
    → work ≡ uint256_maximum / (target + 1) + 1
unfolding block_proof
block_proof-eq bits {target} t w =
    let e : block_proof bits ≡ ok (uint256_maximum / (target + 1) + 1) = rw (t, block_proof) in
    ok-injective (sym w ∙ e)

-- Of two accepted targets, the larger one stands for no more work, and its work is at least one.
pub block_proof-antitone :
    (bits bits' : ℕ) {target target' work work' : ℕ}
    → compact_to_target bits ≡ ok target
    → compact_to_target bits' ≡ ok target'
    → block_proof bits ≡ ok work
    → block_proof bits' ≡ ok work'
    → target ≤ target'
    → (1 ≤ work') × (work' ≤ work)
block_proof-antitone bits bits' {target} {target'} t t' w w' h =
    let below =
      div-antitone uint256_maximum (target + 1) (target' + 1) (omega arith) (omega arith) in
    let e = block_proof-eq bits t w in
    let e' = block_proof-eq bits' t' w' in (omega (arith, e'), omega (arith, below, e, e'))

-- The work of a block with an accepted target is the least number that, times the number of hashes
-- that meet the target, reaches 2 ^ 256.
pub block_proof-ceiling :
    (bits : ℕ) {target work : ℕ}
    → compact_to_target bits ≡ ok target
    → block_proof bits ≡ ok work
    → (2 ^ 256 ≤ work * (target + 1)) × ((work - 1) * (target + 1) < 2 ^ 256)
block_proof-ceiling bits {target} {work} t w =
    let e = block_proof-eq bits t w in
    let q = uint256_maximum / (target + 1) in
    let low = div-mul-le_self uint256_maximum (target + 1) in
    let high = lt-div-mul-add {a = uint256_maximum} {b = target + 1} (omega arith) in
    rw e (ceiling q (target + 1) high low)
  where
    ceiling :
        (q k : ℕ)
        → uint256_maximum < q * k + k
        → q * k ≤ uint256_maximum
        → (2 ^ 256 ≤ (q + 1) * k) × ((q + 1 - 1) * k < 2 ^ 256)
    ceiling q k high low =
        let cancel : q + 1 - 1 ≡ q = omega arith in
        (omega (arith, high), rw cancel (omega (arith, low)))

-- The number whose little-endian bytes these are.
abbrev pub le_number : List ℕ → ℕ
le_number [] = 0
le_number (b ∷ bs) = b + 256 * le_number bs

fold_digest-reverse_aux :
    (bs acc : List ℕ) → fold_digest 0 (reverse_aux bs acc) ≡ fold_digest (le_number bs) acc
unfolding fold_digest
fold_digest-reverse_aux [] acc = refl
fold_digest-reverse_aux (b ∷ bs) acc =
    let e : le_number bs * 2 ^ 8 + b ≡ b + 256 * le_number bs = omega arith in
    fold_digest-reverse_aux bs (b ∷ acc) ∙ ap (λ (v : ℕ). fold_digest v acc) e

fold_digest-reverse : (bs : List ℕ) → fold_digest 0 (reverse bs) ≡ le_number bs
unfolding fold_digest
fold_digest-reverse bs = fold_digest-reverse_aux bs []

-- For an accepted target, a digest passes exactly when, as a little-endian number, it is at most
-- the target.
pub check_proof_of_work-decides :
    (digest : List ℕ) (bits : ℕ) {target : ℕ}
    → compact_to_target bits ≡ ok target
    → check_proof_of_work digest bits ≡ ok (leb (le_number digest) target)
unfolding check_proof_of_work
check_proof_of_work-decides digest bits t = rw (t, fold_digest-reverse digest) refl
