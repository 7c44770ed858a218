-- ===== src/Block/Mining.antt =====
-- src/block.cpp: the search of `mine_testnet_block` for a nonce.
use binarycoin.Pow.Work.{le_number, check_proof_of_work-decides}
use binarycoin.Block.Header.{FitsHeader, deserialize_header-serialize_header}
use binarycoin.Base.{
  leb, ◌==◌, Bool-cases, exhausted_nonces, ok, err, ◌>>=◌, >>=-eq-ok, ok-injective, ℕ, zero, suc,
  ◌+◌, ◌-◌, ◌*◌, ◌^◌, ◌≤◌, ◌<◌, ◌≡◌, refl, sym, ap, ◌∙◌, ◌⊎◌, inl, inr, Bool, true, false, List,
  arith,
}
use binarycoin.Hash.Crypto.{Crypto, sha256d}
use binarycoin.Pow.{compact_to_target, check_proof_of_work}
use binarycoin.Block.{BlockHeader, serialize_header, header_raw_hash, next_attempt, mine_loop}

module _ (c : Crypto) where
  -- The hash of the header is at most the target of its bits.
  abbrev pub MeetsTarget : BlockHeader → Type 0
  MeetsTarget header =
      (digest : List ℕ) × (header_raw_hash c header ≡ ok digest)
      × (check_proof_of_work digest header.bits ≡ ok true)

  -- The search changes the time, forwards, and the nonce, and nothing else.
  pub record IsAttemptOf (header next : BlockHeader) : Type 0 where
    pub same_version : next.version ≡ header.version
    pub same_previous : next.previous_hash ≡ header.previous_hash
    pub same_merkle_root : next.merkle_root ≡ header.merkle_root
    pub same_bits : next.bits ≡ header.bits
    pub not_earlier : header.time ≤ next.time

  IsAttemptOf-refl : (a : BlockHeader) → IsAttemptOf a a
  IsAttemptOf-refl a = record {
    same_version = refl;
    same_previous = refl;
    same_merkle_root = refl;
    same_bits = refl;
    not_earlier = omega arith;
  }

  IsAttemptOf-trans : (a b d : BlockHeader) → IsAttemptOf a b → IsAttemptOf b d → IsAttemptOf a d
  IsAttemptOf-trans a b d p q = record {
    same_version = q.same_version ∙ p.same_version;
    same_previous = q.same_previous ∙ p.same_previous;
    same_merkle_root = q.same_merkle_root ∙ p.same_merkle_root;
    same_bits = q.same_bits ∙ p.same_bits;
    not_earlier = omega (arith, p.not_earlier, q.not_earlier);
  }

  next_attempt-IsAttemptOf :
      (header next : BlockHeader) → next_attempt c header ≡ ok next → IsAttemptOf header next
  unfolding next_attempt
  next_attempt-IsAttemptOf header next h = elim (Bool-cases (header.nonce == 0xffff_ffff)) [
    | inl last ↦ elim (Bool-cases (header.time == 0xffff_ffff)) [
      | inl over ↦ absurd (cc (rw (last, over) at h))
      | inr more ↦
          let e : record header { time = header.time + 1; nonce = 0 } ≡ next =
            ok-injective (rw (last, more) at h) in
          rw (sym e) (later header (header.time + 1) 0 (omega arith))
    ]
    | inr more ↦
        let e : record header { nonce = header.nonce + 1 } ≡ next = ok-injective (rw more at h) in
        rw (sym e) (later header header.time (header.nonce + 1) (omega arith))
  ]
    where
      later :
          (header : BlockHeader) (t n : ℕ)
          → header.time ≤ t
          → IsAttemptOf header (record header { time = t; nonce = n })
      later header t n le = record {
        same_version = refl;
        same_previous = refl;
        same_merkle_root = refl;
        same_bits = refl;
        not_earlier = le;
      }

  -- A header that the search returns meets its target, and is an attempt of the one it began with.
  pub mine_loop-MeetsTarget :
      (fuel : ℕ) (header found : BlockHeader)
      → mine_loop c fuel header ≡ ok found
      → MeetsTarget found × IsAttemptOf header found
  unfolding mine_loop
  mine_loop-MeetsTarget zero header found h = absurd (cc h)
  mine_loop-MeetsTarget (suc fuel) header found h =
      let (digest, hashed, h1) = >>=-eq-ok (header_raw_hash c header) _ h in
      let (met, tested, h2) = >>=-eq-ok (check_proof_of_work digest header.bits) _ h1 in
      step digest hashed met tested (λ next. mine_loop-MeetsTarget fuel next found) h2
    where
      step :
          (digest : List ℕ)
          → header_raw_hash c header ≡ ok digest
          → (met : Bool) → check_proof_of_work digest header.bits ≡ ok met
          → ((next : BlockHeader)
              → mine_loop c fuel next ≡ ok found
              → MeetsTarget found × IsAttemptOf next found)
          → elim met [
            | true ↦ ok header
            | false ↦ next_attempt c header >>= λ next. mine_loop c fuel next
          ]
            ≡ ok found
          → MeetsTarget found × IsAttemptOf header found
      step digest hashed true tested again e =
          let e' : header ≡ found = ok-injective e in
          rw (sym e') ((digest, hashed, tested), IsAttemptOf-refl header)
      step digest hashed false tested again e =
          let (next, attempted, e1) = >>=-eq-ok (next_attempt c header) _ e in
          let (meets, attempt) = again next e1 in
          (
            meets,
            IsAttemptOf-trans header next found (next_attempt-IsAttemptOf header next attempted)
                attempt,
          )

  -- The attempts that are left, the one at hand included.
  abbrev pub attempts_left : BlockHeader → ℕ
  attempts_left header = (0xffff_ffff - header.time) * 2 ^ 32 + (0xffff_ffff - header.nonce) + 1

  header_raw_hash-serialize_header :
      (header : BlockHeader) (bytes : List ℕ)
      → serialize_header header ≡ ok bytes
      → header_raw_hash c header ≡ ok (sha256d c bytes)
  unfolding header_raw_hash
  header_raw_hash-serialize_header header bytes h = rw h refl

  next_attempt-ends :
      (header : BlockHeader)
      → FitsHeader header
      → ((next : BlockHeader) × (next_attempt c header ≡ ok next)
          × FitsHeader next
          × (attempts_left next < attempts_left header)
          × (next.bits ≡ header.bits))
        ⊎ (next_attempt c header ≡ err exhausted_nonces)
  unfolding next_attempt
  next_attempt-ends header h = elim (Bool-cases (header.nonce == 0xffff_ffff)) [
    | inl last ↦ elim (Bool-cases (header.time == 0xffff_ffff)) [
      | inl over ↦ inr (rw (last, over) refl)
      | inr more ↦ inl (
        record header { time = header.time + 1; nonce = 0 },
        rw (last, more) refl,
        fits header (header.time + 1) 0 h (before header.time h.time_fits more) (omega arith),
        fewer_times header.time header.nonce (before header.time h.time_fits more),
        refl,
      )
    ]
    | inr more ↦ inl (
      record header { nonce = header.nonce + 1 },
      rw more refl,
      fits header header.time (header.nonce + 1) h h.time_fits
          (before header.nonce h.nonce_fits more),
      fewer_nonces header.time header.nonce (before header.nonce h.nonce_fits more),
      refl,
    )
  ]
    where
      before : (n : ℕ) → n < 2 ^ 32 → (n == 0xffff_ffff) ≡ false → n + 1 < 2 ^ 32
      before n h e = ground arith

      fits :
          (header : BlockHeader) (t n : ℕ)
          → FitsHeader header
          → t < 2 ^ 32
          → n < 2 ^ 32
          → FitsHeader (record header { time = t; nonce = n })
      fits header t n h ht hn = record {
        version_fits = h.version_fits;
        previous_hash_fits = h.previous_hash_fits;
        merkle_root_fits = h.merkle_root_fits;
        time_fits = ht;
        bits_fits = h.bits_fits;
        nonce_fits = hn;
      }

      fewer_times :
          (t n : ℕ)
          → t + 1 < 2 ^ 32
          → (0xffff_ffff - (t + 1)) * 2 ^ 32 + (0xffff_ffff - 0) + 1
            < (0xffff_ffff - t) * 2 ^ 32 + (0xffff_ffff - n) + 1
      fewer_times t n h = omega arith

      fewer_nonces :
          (t n : ℕ)
          → n + 1 < 2 ^ 32
          → (0xffff_ffff - t) * 2 ^ 32 + (0xffff_ffff - (n + 1)) + 1
            < (0xffff_ffff - t) * 2 ^ 32 + (0xffff_ffff - n) + 1
      fewer_nonces t n h = omega arith

  -- Where the header fits its wire format and its bits have a target, fuel for all the times and
  -- nonces from the header on suffices: the search finds a header, or throws that they are
  -- exhausted.
  pub mine_loop-ends :
      (fuel : ℕ) (header : BlockHeader) {target : ℕ}
      → FitsHeader header
      → compact_to_target header.bits ≡ ok target
      → attempts_left header ≤ fuel
      → ((found : BlockHeader) × (mine_loop c fuel header ≡ ok found))
        ⊎ (mine_loop c fuel header ≡ err exhausted_nonces)
  unfolding mine_loop
  mine_loop-ends zero header h t enough = absurd (omega (arith, enough))
  mine_loop-ends (suc fuel) header {target} h t enough =
      let (bytes, written, _, _) = deserialize_header-serialize_header header h in
      let digest = sha256d c bytes in
      let hashed = header_raw_hash-serialize_header header bytes written in
      let tested = check_proof_of_work-decides digest header.bits t in
      elim (Bool-cases (leb (le_number digest) target)) [
        | inl met ↦ inl (header, rw (hashed, tested, met) refl)
        | inr missed ↦ elim (next_attempt-ends header h) [
          | inl (next, attempted, fits, fewer, bits) ↦
              rw (hashed, tested, missed, attempted)
                (mine_loop-ends fuel next fits (ap compact_to_target bits ∙ t)
                  (omega (arith, fewer, enough)))
          | inr over ↦ inr (rw (hashed, tested, missed, over) refl)
        ]
      ]
