-- ===== src/Script/Signing.antt =====
-- src/script.cpp: signatures of inputs, and scripts of keys.
use binarycoin.Base.{
  leb, ◌==◌, length, get_or, take, length-append, take-append, invalid_public_key, not_p2pk,
  input_out_of_range, wrong_key, ok, >>=-eq-ok, >>-eq-ok, ok-injective, text_eq, text_eq_iff, ℕ,
  zero, suc, ◌+◌, ◌-◌, ◌%◌, ◌≤◌, ◌<◌, ◌≡◌, refl, sym, ap, ◌∙◌, Bool, true, false, not, ◌&&◌, List,
  [], ◌∷◌, ◌++◌, arith,
}
use binarycoin.Hash.Crypto.{
  Crypto, valid_compressed_public_key, verify_ecdsa_der, sign_der, valid_compressed_public_key-size,
  IsEcdsaKey, sign_der-verifies,
}
use binarycoin.Tx.{TxInput, Transaction}
use binarycoin.Tx.Coinbase.Heights.{push_script_data-ok}
use binarycoin.Script.{
  op_checksig, sighash_all, subspan, clear_scripts, set_script, script_at, make_p2pk_script,
  is_p2pk_script, extract_p2pk_public_key, signature_hash_all, sign_p2pk_input, pushes_signature,
  verify_p2pk_input,
}
use binarycoin.Tx.Coinbase.{push_script_data}

get_or-last : (xs : List ℕ) (y d : ℕ) → get_or (xs ++ y ∷ []) (length xs) d ≡ y
get_or-last [] y d = refl
get_or-last (x ∷ xs) y d = get_or-last xs y d

clear_scripts-set_script :
    (is : List TxInput) (k : ℕ) (script : List ℕ)
    → clear_scripts (set_script is k script) ≡ clear_scripts is
unfolding clear_scripts set_script
clear_scripts-set_script [] k script = refl
clear_scripts-set_script (i ∷ rest) zero script = refl
clear_scripts-set_script (i ∷ rest) (suc k) script =
    ap (λ (is : List TxInput). record i { script_sig = [] } ∷ is)
      (clear_scripts-set_script rest k script)

length-set_script :
    (is : List TxInput) (k : ℕ) (script : List ℕ) → length (set_script is k script) ≡ length is
unfolding set_script
length-set_script [] k script = refl
length-set_script (i ∷ rest) zero script = refl
length-set_script (i ∷ rest) (suc k) script = ap suc (length-set_script rest k script)

script_at-set_script :
    (is : List TxInput) (k : ℕ) (script : List ℕ)
    → k < length is
    → script_at (set_script is k script) k ≡ script
unfolding set_script script_at
script_at-set_script [] k script h = absurd (omega (arith, h))
script_at-set_script (i ∷ rest) zero script h = refl
script_at-set_script (i ∷ rest) (suc k) script h =
    script_at-set_script rest k script (omega (arith, h))

unnegate : (b : Bool) → not b ≡ false → b ≡ true
unnegate b h = ground arith

module _ (c : Crypto) where
  -- A script that is made for a key is a pay-to-public-key script, and that key is extracted from
  -- it.
  pub extract_p2pk_public_key-make_p2pk_script :
      (key : List ℕ) {script : List ℕ}
      → make_p2pk_script c key ≡ ok script
      → (is_p2pk_script c script ≡ true) × (extract_p2pk_public_key c script ≡ ok key)
  unfolding make_p2pk_script is_p2pk_script extract_p2pk_public_key
  extract_p2pk_public_key-make_p2pk_script key {script} h =
      let (valid, h1) = >>-eq-ok (not (valid_compressed_public_key c key)) invalid_public_key _ h in
      let is_valid = unnegate _ valid in
      let size = valid_compressed_public_key-size c key is_valid in
      let e : (33 ∷ (key ++ op_checksig ∷ [])) ≡ script = ok-injective h1 in
      rw (sym e) (parts key is_valid size)
    where
      parts :
          (key : List ℕ)
          → valid_compressed_public_key c key ≡ true
          → length key ≡ 33
          → (is_p2pk_script c (33 ∷ (key ++ op_checksig ∷ [])) ≡ true)
            × (extract_p2pk_public_key c (33 ∷ (key ++ op_checksig ∷ [])) ≡ ok key)
      parts key valid size =
          let taken : take 33 (key ++ op_checksig ∷ []) ≡ key =
            ap (λ (n : ℕ). take n (key ++ op_checksig ∷ [])) (sym size)
            ∙ take-append key (op_checksig ∷ []) in
          let last : get_or (key ++ op_checksig ∷ []) 33 0 ≡ op_checksig =
            ap (λ (n : ℕ). get_or (key ++ op_checksig ∷ []) n 0) (sym size)
            ∙ get_or-last key op_checksig 0 in
          let all : suc (length (key ++ op_checksig ∷ [])) ≡ 35 =
            omega (arith, size, length-append key (op_checksig ∷ [])) in
          (rw (all, last, taken, valid) refl, rw (all, last, taken, valid) refl)

  -- Putting a script into any input changes no signature hash of the transaction.
  pub signature_hash_all-set_script :
      (t : Transaction) (k index : ℕ) (script previous : List ℕ)
      → signature_hash_all c (record t { inputs = set_script t.inputs k script }) index previous
        ≡ signature_hash_all c t index previous
  unfolding signature_hash_all
  signature_hash_all-set_script t k index script previous =
      rw (length-set_script t.inputs k script, clear_scripts-set_script t.inputs k script) refl

  pushes_signature-pushed :
      (signature : List ℕ)
      → length (signature ++ sighash_all ∷ []) ≤ 75
      → pushes_signature c
          ((length (signature ++ sighash_all ∷ []) % 256) ∷ (signature ++ sighash_all ∷ []))
        ≡ true
  unfolding pushes_signature
  pushes_signature-pushed signature small =
      let size = length-append signature (sighash_all ∷ []) in
      let last = get_or-last signature sighash_all 0 in
      let before : suc (length signature + 1) - 1 ≡ suc (length signature) = omega arith in
      rw (size, before, last) (tests (length signature) (omega (arith, small, size)))
    where
      tests :
          (n : ℕ) → n + 1 ≤ 75 → (leb 2 (suc (n + 1)) && ((n + 1) % 256 == suc n && true)) ≡ true
      tests n h = ground arith

  subspan-pushed :
      (b : ℕ) (signature : List ℕ)
      → subspan
          (b ∷ (signature ++ sighash_all ∷ []))
          1
          (length (b ∷ (signature ++ sighash_all ∷ [])) - 2)
        ≡ signature
  subspan-pushed b signature =
      let e : suc (length (signature ++ sighash_all ∷ [])) - 2 ≡ length signature =
        omega (arith, length-append signature (sighash_all ∷ [])) in
      rw e (take-append signature (sighash_all ∷ []))

  is_p2pk_script-extract :
      (script : List ℕ) {key : List ℕ}
      → extract_p2pk_public_key c script ≡ ok key
      → is_p2pk_script c script ≡ true
  unfolding extract_p2pk_public_key
  is_p2pk_script-extract script h =
      unnegate _ (>>-eq-ok (not (is_p2pk_script c script)) not_p2pk _ h).0

  signature_hash_all-in_range :
      (t : Transaction) (index : ℕ) (previous : List ℕ) {digest : List ℕ}
      → signature_hash_all c t index previous ≡ ok digest
      → leb (length t.inputs) index ≡ false
  unfolding signature_hash_all
  signature_hash_all-in_range t index previous h =
      (>>-eq-ok (leb (length t.inputs) index) input_out_of_range _ h).0

  signature_script-verifies :
      (t : Transaction) (index : ℕ) (previous key digest signature : List ℕ)
      → extract_p2pk_public_key c previous ≡ ok key
      → signature_hash_all c t index previous ≡ ok digest
      → length (signature ++ sighash_all ∷ []) ≤ 75
      → verify_ecdsa_der c digest signature key ≡ true
      → let script : List ℕ =
          (length (signature ++ sighash_all ∷ []) % 256) ∷ (signature ++ sighash_all ∷ []) in
        verify_p2pk_input c (record t { inputs = set_script t.inputs index script }) index previous
        ≡ ok true
  unfolding verify_p2pk_input
  signature_script-verifies t index previous key digest signature extracted hashed small valid =
      let script =
        (length (signature ++ sighash_all ∷ []) % 256) ∷ (signature ++ sighash_all ∷ []) in
      let range = signature_hash_all-in_range t index previous hashed in
      let here = script_at-set_script t.inputs index script (leb_false→lt _ _ range) in
      let same = signature_hash_all-set_script t index index script previous in
      let size = length-set_script t.inputs index script in
      rw
        (
          here,
          size,
          range,
          is_p2pk_script-extract previous extracted,
          same,
          extracted,
          hashed,
          pushes_signature-pushed signature small,
          subspan-pushed _ signature,
          valid,
        )
        refl
    where
      leb_false→lt : (a b : ℕ) → leb a b ≡ false → b < a
      leb_false→lt a b h = ground arith

  -- Where the key behaves as libsecp256k1 documents, an input that `sign_p2pk_input` signs with it
  -- verifies against the output that it spends.
  pub verify_p2pk_input-sign_p2pk_input :
      (t : Transaction) (index : ℕ) (previous secret : List ℕ) {signed : Transaction}
      → IsEcdsaKey c secret
      → sign_p2pk_input c t index previous secret ≡ ok signed
      → verify_p2pk_input c signed index previous ≡ ok true
  unfolding sign_p2pk_input
  verify_p2pk_input-sign_p2pk_input t index previous secret {signed} key h =
      let (public_key, extracted, h1) = >>=-eq-ok (extract_p2pk_public_key c previous) _ h in
      let (same_key, h2) =
        >>-eq-ok (not (text_eq public_key (c.public_key secret))) wrong_key _ h1 in
      let (digest, hashed, h3) = >>=-eq-ok (signature_hash_all c t index previous) _ h2 in
      let (signature, signs, h4) = >>=-eq-ok (sign_der c secret digest) _ h3 in
      let (pushed, pushes, h5) =
        >>=-eq-ok (push_script_data (signature ++ sighash_all ∷ [])) _ h4 in
      let valid = sign_der-verifies c secret digest signature key signs in
      let (small, h6) = push_script_data-ok (signature ++ sighash_all ∷ []) pushes in
      let owner : public_key ≡ c.public_key secret =
        (text_eq_iff public_key (c.public_key secret)).0 (unnegate _ same_key) in
      let e : record t { inputs = set_script t.inputs index pushed } ≡ signed = ok-injective h5 in
      rw (sym e, sym h6)
        (signature_script-verifies t index previous public_key digest signature extracted hashed
          small (rw owner valid))
