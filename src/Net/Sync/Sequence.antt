-- ===== src/Net/Sync/Sequence.antt =====
-- src/net.cpp: the headers that `sync_from_peer` takes from a peer.
use binarycoin.Base.{
  ==_iff, >>-eq-ok, >>=-eq-ok, All, All-append, Bool, Bool-cases, Error, List, Result, [], ap,
  arith, bad_header_sequence, batches_not_contiguous, false, headers_too_high, inl, inr, leb,
  length, ltb, nonzero_count, not, ok, ok-injective, refl, sym, text_eq, text_eq_iff, throw_if-ok,
  tip_height_mismatch, too_many_items_sent, trailing_payload, true, ℕ, ◌%◌, ◌&&◌, ◌++◌, ◌+◌, ◌<◌,
  ◌==◌, ◌^◌, ◌∙◌, ◌∷◌, ◌≡◌,
}
use binarycoin.Block.{deserialize_header, hash_hex, testnet_genesis_hash}
use binarycoin.Chain.Node.{tip}
use binarycoin.Codec.{read_bytes, read_compact_size, read_u64_le}
use binarycoin.Hash.Crypto.{Crypto}
use binarycoin.Net.{max_headers_per_response}
use binarycoin.Net.Headers.{
  HeaderRecord, check_header_work, deserialize_headers, no_stop_hash, read_header_record,
  serialize_getheaders,
}
use binarycoin.Net.Items.{read_counted, read_items}
use binarycoin.Net.Items.RoundTrip.{read_items-All}
use binarycoin.Net.Sync.{behind_batch, check_join, check_rest, first_header, is_done, later_batches}
use binarycoin.Net.Version.{PeerVersion}

pub not-false : (b : Bool) → not b ≡ false → b ≡ true
not-false b h = ground (arith, h)

module _ (c : Crypto) where
  -- The headers follow one another from a first one on.
  abbrev pub Follows : HeaderRecord → List HeaderRecord → Type 0
  Follows previous [] = Unit
  Follows previous (header ∷ rest) =
      (header.height ≡ (previous.height + 1) % 2 ^ 64)
      × (hash_hex c previous.header ≡ ok header.header.previous_hash)
      × (previous.header.time < header.header.time)
      × Follows header rest

  abbrev pub last_header : HeaderRecord → List HeaderRecord → HeaderRecord
  last_header previous [] = previous
  last_header previous (header ∷ rest) = last_header header rest

  check_join-ok :
      (error : Error) (previous header : HeaderRecord)
      → check_join c error previous header ≡ ok tt
      → (header.height ≡ (previous.height + 1) % 2 ^ 64)
        × (hash_hex c previous.header ≡ ok header.header.previous_hash)
  unfolding check_join
  check_join-ok error previous header h =
      let (numbered, e) =
        >>-eq-ok (not (header.height == (previous.height + 1) % 2 ^ 64)) error _ h in
      let (hash, hashed, linked) = >>=-eq-ok (hash_hex c previous.header) _ e in
      let same = throw_if-ok (not (text_eq header.header.previous_hash hash)) error linked in
      let named : header.header.previous_hash ≡ hash =
        (text_eq_iff header.header.previous_hash hash).0 (not-false _ same) in
      (
        (==_iff header.height ((previous.height + 1) % 2 ^ 64)).0 (not-false _ numbered),
        hashed ∙ ap ok (sym named),
      )

  pub check_rest-ok :
      (previous : HeaderRecord) (batch : List HeaderRecord) {last : HeaderRecord}
      → check_rest c previous batch ≡ ok last
      → Follows previous batch × (last ≡ last_header previous batch)
  unfolding check_rest
  check_rest-ok previous [] h = (tt, sym (ok-injective h))
  check_rest-ok previous (header ∷ rest) h =
      let (_, joined, e) = >>=-eq-ok (check_join c bad_header_sequence previous header) _ h in
      let (numbered, linked) = check_join-ok bad_header_sequence previous header joined in
      let (later, e') =
        >>-eq-ok (leb header.header.time previous.header.time) bad_header_sequence _ e in
      let (follows, same) = check_rest-ok header rest e' in
      ((numbered, linked, ground (arith, later), follows), same)

  Follows-append :
      (previous : HeaderRecord) (xs ys : List HeaderRecord)
      → Follows previous xs
      → Follows (last_header previous xs) ys
      → Follows previous (xs ++ ys)
  Follows-append previous [] ys h k = k
  Follows-append previous (x ∷ xs) ys (a, b, d, h) k = (a, b, d, Follows-append x xs ys h k)

  last_header-append :
      (previous : HeaderRecord) (xs ys : List HeaderRecord)
      → last_header previous (xs ++ ys) ≡ last_header (last_header previous xs) ys
  last_header-append previous [] ys = refl
  last_header-append previous (x ∷ xs) ys = last_header-append x xs ys

  -- The header is the tip that the peer has announced.
  pub record IsTip (peer : PeerVersion) (header : HeaderRecord) : Type 0 where
    pub hashed : hash_hex c header.header ≡ ok peer.tip_hash
    pub height : header.height ≡ peer.best_height

  is_done-IsTip :
      (peer : PeerVersion) (last : HeaderRecord) → is_done c peer last ≡ ok true → IsTip peer last
  unfolding is_done
  is_done-IsTip peer last h =
      let (_, e) = >>-eq-ok (ltb peer.best_height last.height) headers_too_high _ h in
      let (hash, hashed, e') = >>=-eq-ok (hash_hex c last.header) _ e in
      let (matched, e'') =
        >>-eq-ok (text_eq hash peer.tip_hash && not (last.height == peer.best_height))
          tip_height_mismatch _ e' in
      let same : text_eq hash peer.tip_hash ≡ true = ok-injective e'' in
      record {
        hashed = hashed ∙ ap ok ((text_eq_iff hash peer.tip_hash).0 same);
        height = (==_iff last.height peer.best_height).0 (not-false _ (rw same at matched));
      }

  abbrev pub HasWork : HeaderRecord → Type 0
  HasWork header = check_header_work c header.header ≡ ok tt

  read_header_record-HasWork :
      (payload : List ℕ) (o o' : ℕ) (header : HeaderRecord)
      → read_header_record c payload o ≡ ok (header, o')
      → HasWork header
  unfolding read_header_record
  read_header_record-HasWork payload o o' header h =
      let (height, _, h1) = >>=-eq-ok (read_u64_le payload o) _ h in
      let (bytes, _, h2) = >>=-eq-ok (read_bytes payload height.1 80) _ h1 in
      let (read, _, h3) = >>=-eq-ok (deserialize_header bytes.0) _ h2 in
      let (none_sent, _, h4) = >>=-eq-ok (read_compact_size payload bytes.1) _ h3 in
      let (_, h5) = >>-eq-ok (not (none_sent.0 == 0)) nonzero_count _ h4 in
      let (_, checked, h6) = >>=-eq-ok (check_header_work c read) _ h5 in
      let same : read ≡ header.header =
        ap (λ (x : HeaderRecord × ℕ). x.0.header) (ok-injective h6) in
      rw (← same) checked

  pub deserialize_headers-HasWork :
      (payload : List ℕ) {headers : List HeaderRecord}
      → deserialize_headers c payload ≡ ok headers
      → All HasWork headers
  unfolding deserialize_headers read_counted
  deserialize_headers-HasWork payload h =
      let (counted, e, rest) = >>=-eq-ok (read_compact_size payload 0) _ h in
      let (_, e1) = >>-eq-ok (ltb max_headers_per_response counted.0) too_many_items_sent _ rest in
      let (read, e2, e3) =
        >>=-eq-ok (read_items (read_header_record c payload) counted.0 counted.1) _ e1 in
      let (_, e4) = >>-eq-ok (not (read.1 == length payload)) trailing_payload _ e3 in
      rw (← ok-injective e4) (
        read_items-All HasWork (read_header_record c payload) (read_header_record-HasWork payload)
          counted.0 counted.1 e2)

  -- What is known of the headers from a first one on.
  abbrev pub Accepted : PeerVersion → HeaderRecord → List HeaderRecord → Type 0
  Accepted peer previous headers =
      Follows previous headers × IsTip peer (last_header previous headers) × All HasWork headers

  Accepted-append :
      (peer : PeerVersion) (previous : HeaderRecord) (xs ys : List HeaderRecord)
      → Follows previous xs
      → All HasWork xs
      → Accepted peer (last_header previous xs) ys
      → Accepted peer previous (xs ++ ys)
  Accepted-append peer previous xs ys follows work (more, tip, works) = (
    Follows-append previous xs ys follows more,
    rw (last_header-append previous xs ys) tip,
    All-append HasWork xs ys work works,
  )

  pub behind_batch-ok :
      (peer : PeerVersion) (previous last : HeaderRecord) (batch : List HeaderRecord)
      (later : Result (List HeaderRecord)) {headers : List HeaderRecord}
      → Follows previous batch
      → last ≡ last_header previous batch
      → All HasWork batch
      → ((rest : List HeaderRecord) → later ≡ ok rest → Accepted peer last rest)
      → behind_batch c peer last batch later ≡ ok headers
      → Accepted peer previous headers
  unfolding behind_batch
  behind_batch-ok peer previous last batch later follows same work known h =
      let (done, e, h1) = >>=-eq-ok (is_done c peer last) _ h in
      elim (Bool-cases done) [
        | inl finished ↦
            rw (← ok-injective (rw finished at h1))
              (follows, rw (← same) (is_done-IsTip peer last (e ∙ ap ok finished)), work)
        | inr going ↦
            let (rest, e2, h2) = >>=-eq-ok later _ (rw going at h1) in
            rw (← ok-injective h2)
              (Accepted-append peer previous batch rest follows work (rw same at (known rest e2)))
      ]

  pub later_batches-ok :
      (peer : PeerVersion) (last : HeaderRecord) (payloads : List (List ℕ))
      {headers : List HeaderRecord}
      → later_batches c peer last payloads ≡ ok headers
      → Accepted peer last headers
  unfolding later_batches
  later_batches-ok peer last [] h = absurd (cc h)
  later_batches-ok peer last (payload ∷ payloads) {headers} h =
      let (hash, _, h1) = >>=-eq-ok (hash_hex c last.header) _ h in
      let (_, _, h2) =
        >>=-eq-ok (serialize_getheaders (hash ∷ testnet_genesis_hash ∷ []) no_stop_hash) _ h1 in
      let (batch, e3, h3) = >>=-eq-ok (deserialize_headers c payload) _ h2 in
      let (front, _, h4) = >>=-eq-ok (first_header batch) _ h3 in
      let (_, _, h5) = >>=-eq-ok (check_join c batches_not_contiguous last front) _ h4 in
      let (last', e6, h6) = >>=-eq-ok (check_rest c last batch) _ h5 in
      let (follows, same) = check_rest-ok last batch e6 in
      behind_batch-ok peer last last' batch (later_batches c peer last' payloads) follows same
        (deserialize_headers-HasWork payload e3) (λ rest e. later_batches-ok peer last' payloads e)
        h6
