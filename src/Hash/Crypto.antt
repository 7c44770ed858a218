-- ===== src/Hash/Crypto.antt =====
-- What the program takes from OpenSSL and libsecp256k1, and the functions of src/hash.cpp and
-- src/key.cpp that call it. A signature object is the bytes that it holds.
use binarycoin.Base.{
  &&-split, ==_iff, All, Bool, IsByte, List, Option, Option-cases, Result, err, external_failure,
  false, get_or, inl, inr, length, none, ok, ok-injective, refl, some, sym, true, ℕ, ◌&&◌, ◌==◌,
  ◌||◌, ◌≡◌,
}

-- The operations of the two libraries, with what their documentation promises.
pub record Crypto : Type 0 where
  -- SHA-256 through EVP.
  pub digest : List ℕ → List ℕ
  pub digest_size : (data_bytes : List ℕ) → length (digest data_bytes) ≡ 32
  pub digest_bytes : (data_bytes : List ℕ) → All IsByte (digest data_bytes)
  -- `secp256k1_ec_pubkey_parse`
  pub pubkey_parses : List ℕ → Bool
  -- `secp256k1_ecdsa_signature_parse_der`
  pub parse_der : List ℕ → Option (List ℕ)
  -- `secp256k1_ecdsa_signature_normalize`: whether it changed the signature, and the result.
  pub normalize : List ℕ → Bool × List ℕ
  -- `secp256k1_ecdsa_verify`, of a signature, a message hash and a public key.
  pub verify : List ℕ → List ℕ → List ℕ → Bool
  -- `secp256k1_ecdsa_sign`, of a message hash and a secret key.
  pub sign : List ℕ → List ℕ → Option (List ℕ)
  -- `secp256k1_ecdsa_signature_serialize_der`, into a buffer of 72 bytes.
  pub serialize_der : List ℕ → Option (List ℕ)
  -- `secp256k1_ec_pubkey_create`, serialized in compressed form.
  pub public_key : List ℕ → List ℕ

module _ (c : Crypto) where
  pub sha256 : List ℕ → List ℕ
  sha256 data_bytes = c.digest data_bytes

  pub sha256_bytes : (data_bytes : List ℕ) → All IsByte (sha256 data_bytes)
  unfolding sha256
  sha256_bytes data_bytes = c.digest_bytes data_bytes

  unfoldable pub sha256d : List ℕ → List ℕ
  sha256d data_bytes = c.digest (c.digest data_bytes)

  pub sha256d_size : (data_bytes : List ℕ) → length (sha256d data_bytes) ≡ 32
  unfolding sha256d
  sha256d_size data_bytes = c.digest_size (c.digest data_bytes)

  pub sha256d_bytes : (data_bytes : List ℕ) → All IsByte (sha256d data_bytes)
  unfolding sha256d
  sha256d_bytes data_bytes = c.digest_bytes (c.digest data_bytes)

  unfoldable pub valid_compressed_public_key : List ℕ → Bool
  valid_compressed_public_key key =
      length key == 33
      && ((get_or key 0 0 == 0x02 || get_or key 0 0 == 0x03) && c.pubkey_parses key)

  -- The build with libsecp256k1: a signature that `normalize` would change has a high S and fails.
  unfoldable pub verify_ecdsa_der : List ℕ → List ℕ → List ℕ → Bool
  verify_ecdsa_der message_hash der_signature key =
      c.pubkey_parses key && verify_parsed (c.parse_der der_signature)
    where
      verify_parsed : Option (List ℕ) → Bool
      verify_parsed none = false
      verify_parsed (some signature) = low_s (c.normalize signature).0
        where
          low_s : Bool → Bool
          low_s true = false
          low_s false = c.verify signature message_hash key

  unfoldable pub sign_der : List ℕ → List ℕ → Result (List ℕ)
  sign_der secret message_hash = serialized (c.sign message_hash secret)
    where
      written : Option (List ℕ) → Result (List ℕ)
      written none = err external_failure
      written (some bytes) = ok bytes

      serialized : Option (List ℕ) → Result (List ℕ)
      serialized none = err external_failure
      serialized (some signature) = written (c.serialize_der (c.normalize signature).1)

  pub valid_compressed_public_key-size :
      (key : List ℕ) → valid_compressed_public_key key ≡ true → length key ≡ 33
  unfolding valid_compressed_public_key
  valid_compressed_public_key-size key h =
      (==_iff (length key) 33).0 (&&-split (length key == 33) _ h).0

  -- What libsecp256k1 documents of a key: its public key parses, DER is read back as written,
  -- a normalized signature is normalized, and a signature that it makes verifies once normalized.
  pub record IsEcdsaKey (secret : List ℕ) : Type 0 where
    pub parses : c.pubkey_parses (c.public_key secret) ≡ true
    pub der : (s bytes : List ℕ) → c.serialize_der s ≡ some bytes → c.parse_der bytes ≡ some s
    pub low : (s : List ℕ) → (c.normalize (c.normalize s).1).0 ≡ false
    pub valid :
        (m s : List ℕ)
        → c.sign m secret ≡ some s
        → c.verify (c.normalize s).1 m (c.public_key secret) ≡ true

  pub sign_der-verifies :
      (secret digest signature : List ℕ)
      → IsEcdsaKey secret
      → sign_der secret digest ≡ ok signature
      → verify_ecdsa_der digest signature (c.public_key secret) ≡ true
  unfolding sign_der verify_ecdsa_der
  sign_der-verifies secret digest signature key h = elim (Option-cases (c.sign digest secret)) [
    | inl failed ↦ absurd (cc (rw failed at h))
    | inr (s, made) ↦ elim (Option-cases (c.serialize_der (c.normalize s).1)) [
      | inl failed ↦ absurd (cc (rw (made, failed) at h))
      | inr (bytes, written) ↦
          let e : bytes ≡ signature = ok-injective (rw (made, written) at h) in
          rw
            (
              key.parses,
              sym e,
              key.der (c.normalize s).1 bytes written,
              key.low s,
              key.valid digest s made,
            )
            refl
    ]
  ]
