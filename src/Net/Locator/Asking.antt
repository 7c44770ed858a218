-- ===== src/Net/Locator/Asking.antt =====
-- src/net.cpp: asking for headers with the locator of the own chain.
use binarycoin.Base.{
  All, List, Text, [], arith, bind_ok, drop, length, ok, refl, some, suc, text_eq_refl, zero, ℕ,
  ◌+◌, ◌^◌, ◌∷◌, ◌≡◌, ◌≤◌,
}
use binarycoin.Block.{StoredBlock}
use binarycoin.Hash.Crypto.{Crypto}
use binarycoin.Hash.RoundTrip.{IsDisplayHash}
use binarycoin.Net.Headers.{deserialize_getheaders, max_locator, serialize_getheaders}
use binarycoin.Net.Headers.RoundTrip.{LocatorFits, deserialize_getheaders-serialize_getheaders}
use binarycoin.Net.Locator.{
  collect_headers, find_below, hash_at, headers_after_locator, locate_fork_index,
  make_block_locator, with_genesis,
}
use binarycoin.Net.Locator.Bounds.{HeaderFits, Walked, Walked-single, hash_hex-IsDisplayHash}

find_below-top :
    (c : Crypto) (blocks : List StoredBlock) (index : ℕ) (hash : Text)
    → hash_at c blocks index ≡ ok hash
    → find_below c blocks hash (suc index) ≡ ok (some index)
unfolding find_below
find_below-top c blocks index hash e = bind_ok _ _ e (rw (text_eq_refl hash) refl)

drop_end : {A : Type 0} (n : ℕ) (xs : List A) → length xs ≤ n → drop n xs ≡ []
drop_end zero [] h = refl
drop_end zero (x ∷ xs) h = absurd (omega (arith, h))
drop_end (suc n) [] h = refl
drop_end (suc n) (x ∷ xs) h = drop_end n xs (omega (arith, h))

module _ (c : Crypto) (front : StoredBlock) (rest : List StoredBlock)
    (h : All HeaderFits (front ∷ rest)) (size : length (front ∷ rest) ≤ 2 ^ 62) where
  locator-Walked :
      (genesis : Text) (at_genesis : hash_at c (front ∷ rest) 0 ≡ ok genesis)
      (fits : IsDisplayHash genesis)
      → Walked c (front ∷ rest) h genesis at_genesis fits max_locator (length rest) 1 0 74
  locator-Walked genesis at_genesis fits =
      Walked-single c (front ∷ rest) h genesis at_genesis fits 10 max_locator (length rest) 0 refl
        (omega (arith, size)) (omega arith) (omega arith)

  -- What is known of the locator.
  record Located : Type 0 where
    locator : List Text
    made : make_block_locator c (front ∷ rest) ≡ ok locator
    fit : LocatorFits locator
    short : length locator ≤ 74
    own : locate_fork_index c (front ∷ rest) locator ≡ ok (length rest)

  make_block_locator-Located : Located
  unfolding make_block_locator with_genesis locate_fork_index hash_at
  make_block_locator-Located =
      let (genesis, e, fits) = hash_hex-IsDisplayHash c front.block.header h.0 in
      let w = locator-Walked genesis e fits in
      record {
        locator = w.first ∷ w.others;
        made = bind_ok _ _ w.run (bind_ok _ _ e (rw (w.ends, text_eq_refl genesis) refl));
        fit = record { hashes = w.fit; some_hash = omega arith; size = omega (arith, w.short) };
        short = w.short;
        own = bind_ok _ _ (find_below-top c (front ∷ rest) (length rest) w.first w.starts) refl;
      }

  -- For a nonempty chain of at most 2 ^ 62 blocks whose headers fit their types, the locator is made
  -- of no more than 74 hashes, so that the request for headers that holds it can be sent, and is read
  -- as it was sent; a node with the same chain has no header to answer.
  pub serialize_getheaders-make_block_locator :
      (stop_hash : Text)
      → IsDisplayHash stop_hash
      → (locator : List Text) × (bytes : List ℕ) × (make_block_locator c (front ∷ rest)
          ≡ ok locator)
        × (length locator ≤ 74)
        × (serialize_getheaders locator stop_hash ≡ ok bytes)
        × (deserialize_getheaders bytes ≡ ok (record { locator = locator; stop_hash = stop_hash }))
        × (headers_after_locator c
              (front ∷ rest)
              (record { locator = locator; stop_hash = stop_hash })
            ≡ ok [])
  unfolding headers_after_locator collect_headers
  serialize_getheaders-make_block_locator stop_hash stop_fits =
      let l = make_block_locator-Located in
      let (bytes, e, back) =
        deserialize_getheaders-serialize_getheaders l.locator stop_hash l.fit stop_fits in
      let none_left = drop_end (length rest + 1) (front ∷ rest) (omega arith) in
      (l.locator, bytes, l.made, l.short, e, back, bind_ok _ _ l.own (rw none_left refl))
