-- ===== src/Net/Locator/Bounds.antt =====
-- src/net.cpp: the locator of a chain is one that may be sent.
use binarycoin.Base.{
  All, List, Text, [], arith, bind_ok, false, if◌then◌else◌, leb, length, ltb, ok, refl, suc, zero,
  ℕ, ◌%◌, ◌*◌, ◌+◌, ◌-◌, ◌<◌, ◌==◌, ◌^◌, ◌||◌, ◌∷◌, ◌≡◌, ◌≤◌,
}
use binarycoin.Block.{BlockHeader, StoredBlock, hash_hex, header_raw_hash}
use binarycoin.Block.Header.{FitsHeader, deserialize_header-serialize_header}
use binarycoin.Hash.{hash_to_display_hex}
use binarycoin.Hash.Crypto.{Crypto, sha256d, sha256d_bytes, sha256d_size}
use binarycoin.Hash.RoundTrip.{IsDisplayHash, hash_to_display_hex-IsDisplayHash}
use binarycoin.Net.Headers.{max_locator}
use binarycoin.Net.Locator.{hash_at, last_hash, locator_loop}

pub hash_hex-IsDisplayHash :
    (c : Crypto) (header : BlockHeader)
    → FitsHeader header
    → (hash : Text) × (hash_hex c header ≡ ok hash) × IsDisplayHash hash
unfolding hash_hex header_raw_hash
hash_hex-IsDisplayHash c header h =
    let (bytes, e, _, _) = deserialize_header-serialize_header header h in
    (
      hash_to_display_hex (sha256d c bytes),
      rw e refl,
      hash_to_display_hex-IsDisplayHash (sha256d c bytes) (sha256d_bytes c bytes)
          (sha256d_size c bytes),
    )

abbrev pub HeaderFits : StoredBlock → Type 0
HeaderFits stored = FitsHeader stored.block.header

-- How far the loop comes in so many rounds of doubled steps.
far : ℕ → ℕ → ℕ
far zero step = step
far (suc n) step = far n (step * 2)

le-far : (n step : ℕ) → step ≤ far n step
unfolding far
le-far zero step = omega arith
le-far (suc n) step = omega (arith, le-far n (step * 2))

goes_on :
    (index size : ℕ)
    → size + 1 < max_locator
    → (suc index == 0 || leb max_locator (size + 1)) ≡ false
goes_on index size h = ground arith

module _ (c : Crypto) where
  hash_at-ok :
      (blocks : List StoredBlock) (index : ℕ)
      → All HeaderFits blocks
      → index < length blocks
      → (hash : Text) × (hash_at c blocks index ≡ ok hash) × IsDisplayHash hash
  unfolding hash_at
  hash_at-ok [] index h l = absurd (omega (arith, l))
  hash_at-ok (b ∷ bs) zero (h, hs) l = hash_hex-IsDisplayHash c b.block.header h
  hash_at-ok (b ∷ bs) (suc index) (h, hs) l = hash_at-ok bs index hs (omega (arith, l))

  module _ (blocks : List StoredBlock) (h : All HeaderFits blocks) (genesis : Text)
      (at_genesis : hash_at c blocks 0 ≡ ok genesis) (genesis_fits : IsDisplayHash genesis) where
    -- What the loop comes to: some hashes, no more than `bound`, and the last one that of the first
    -- block.
    pub record Walked (fuel index step size bound : ℕ) : Type 0 where
      pub first : Text
      pub others : List Text
      pub run : locator_loop c fuel blocks index step size ≡ ok (first ∷ others)
      pub fit : All IsDisplayHash (first ∷ others)
      pub short : length (first ∷ others) ≤ bound
      pub ends : last_hash first others ≡ genesis
      pub starts : hash_at c blocks index ≡ ok first

    Walked-end : (fuel step size bound : ℕ) → 1 ≤ bound → Walked (suc fuel) 0 step size bound
    unfolding locator_loop last_hash
    Walked-end fuel step size bound l = record {
      first = genesis;
      others = [];
      run = bind_ok _ _ at_genesis refl;
      fit = (genesis_fits, tt);
      short = omega (arith, l);
      ends = refl;
      starts = at_genesis;
    }

    Walked-next :
        (fuel index step size bound step' index' : ℕ) {bound' : ℕ}
        → suc index < length blocks
        → size + 1 < max_locator
        → bound < bound'
        → (if ltb 10 (size + 1) then step * 2 % 2 ^ 64 else step) ≡ step'
        → (if ltb step' (suc index) then suc index - step' else 0) ≡ index'
        → Walked fuel index' step' (size + 1) bound
        → Walked (suc fuel) (suc index) step size bound'
    unfolding locator_loop last_hash
    Walked-next fuel index step size bound step' index' inside few wider e1 e2 w =
        let (hash, e, fits) = hash_at-ok blocks (suc index) h inside in
        record {
          first = hash;
          others = w.first ∷ w.others;
          run = bind_ok _ _ e (rw (goes_on index size few, e1, e2, w.run) refl);
          fit = (fits, w.fit);
          short = omega (arith, w.short, wider);
          ends = w.ends;
          starts = e;
        }

    -- With doubled steps.
    Walked-doubling :
        (n fuel index step size : ℕ)
        → far n step ≤ 2 ^ 62
        → index ≤ far n step
        → index < length blocks
        → 1 ≤ step
        → 10 ≤ size
        → size + n + 3 ≤ max_locator
        → n + 2 ≤ fuel
        → Walked fuel index step size (n + 2)
    unfolding far
    Walked-doubling n zero index step size f i inside s t room enough =
        absurd (omega (arith, enough))
    Walked-doubling n (suc fuel) zero step size f i inside s t room enough =
        Walked-end fuel step size (n + 2) (omega arith)
    Walked-doubling zero (suc zero) (suc index) step size f i inside s t room enough =
        absurd (omega (arith, enough))
    Walked-doubling zero (suc (suc fuel)) (suc index) step size f i inside s t room enough =
        Walked-next (suc fuel) index step size 1 (step * 2) 0 inside (omega (arith, room))
          (omega arith) (ground (arith, t, f)) (ground (arith, i))
          (Walked-end fuel (step * 2) (size + 1) 1 (omega arith))
    Walked-doubling (suc n) (suc fuel) (suc index) step size f i inside s t room enough =
        let index' = if ltb (step * 2) (suc index) then suc index - step * 2 else 0 in
        let near : step * 2 ≤ 2 ^ 62 = omega (arith, le-far n (step * 2), f) in
        let back : index' ≤ suc index = ground arith in
        Walked-next fuel index step size (n + 2) (step * 2) index' inside (omega (arith, room))
          (omega arith) (ground (arith, t, near)) refl
          (Walked-doubling n fuel index' (step * 2) (size + 1) f (omega (arith, back, i))
            (omega (arith, back, inside)) (omega (arith, s)) (omega (arith, t))
            (omega (arith, room)) (omega (arith, enough)))

    -- With steps of one, for the first ten.
    pub Walked-single :
        (k fuel index size : ℕ)
        → size + k ≡ 10
        → index ≤ 2 ^ 62
        → index < length blocks
        → k + 64 ≤ fuel
        → Walked fuel index 1 size (k + 64)
    unfolding far
    Walked-single k zero index size e i inside enough = absurd (omega (arith, enough))
    Walked-single k (suc fuel) zero size e i inside enough =
        Walked-end fuel 1 size (k + 64) (omega arith)
    Walked-single zero (suc fuel) (suc index) size e i inside enough =
        Walked-doubling 62 (suc fuel) (suc index) 1 size (omega arith) (omega (arith, i)) inside
          (omega arith) (omega (arith, e)) (omega (arith, e)) (omega (arith, enough))
    Walked-single (suc k) (suc fuel) (suc index) size e i inside enough =
        let index' = if ltb 1 (suc index) then suc index - 1 else 0 in
        let back : index' ≤ suc index = ground arith in
        Walked-next fuel index 1 size (k + 64) 1 index' inside (omega (arith, e)) (omega arith)
          (ground (arith, e)) refl
          (Walked-single k fuel index' (size + 1) (omega (arith, e)) (omega (arith, back, i))
            (omega (arith, back, inside)) (omega (arith, enough)))
