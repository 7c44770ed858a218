-- ===== src/Net/Sync/Accepting.antt =====
-- src/net.cpp: what `sync_from_peer` has made sure of when it has all headers.
use binarycoin.Base.{
  ==_iff, >>-eq-ok, >>=-eq-ok, All, List, Option-cases, Result, Text, [], ap, arith, drop, false,
  get_elem?, headers_not_connected, inl, inr, leb, length, not, ok, ok-injective, some, sym,
  throw_if, time_not_after_fork, ℕ, ◌%◌, ◌+◌, ◌==◌, ◌>>=◌, ◌>>◌, ◌^◌, ◌∙◌, ◌∷◌, ◌≡◌,
}
use binarycoin.Block.{StoredBlock, hash_hex}
use binarycoin.Hash.Crypto.{Crypto}
use binarycoin.Net.Headers.{HeaderRecord, deserialize_headers, no_stop_hash, serialize_getheaders}
use binarycoin.Net.Locator.{find_below, hash_at, make_block_locator}
use binarycoin.Net.Locator.Answers.{find_below-ok, sent_header}
use binarycoin.Net.Sync.{
  behind_batch, check_rest, find_fork, first_header, later_batches, stored_at, sync_headers,
}
use binarycoin.Net.Sync.Sequence.{
  Accepted, Follows, HasWork, IsTip, behind_batch-ok, check_rest-ok, deserialize_headers-HasWork,
  last_header, later_batches-ok, not-false,
}
use binarycoin.Net.Version.{PeerVersion}
use mathlib.Core.Path.{subst}

first_header-ok :
    (batch : List HeaderRecord) {front : HeaderRecord}
    → first_header batch ≡ ok front
    → batch ≡ front ∷ drop 1 batch
unfolding first_header
first_header-ok [] h = absurd (cc h)
first_header-ok (front ∷ rest) h = ap (λ (x : HeaderRecord). x ∷ rest) (ok-injective h)

module _ (c : Crypto) (blocks : List StoredBlock) where
  -- A block of the own chain, and the header that follows it.
  record IsFork (index : ℕ) (fork : StoredBlock) (front : HeaderRecord) : Type 0 where
    there : get_elem? blocks index ≡ some fork
    numbered : front.height ≡ (fork.height + 1) % 2 ^ 64
    linked : hash_hex c fork.block.header ≡ ok front.header.previous_hash

  stored_at-ok :
      (index : ℕ) {stored : StoredBlock}
      → stored_at blocks index ≡ ok stored
      → get_elem? blocks index ≡ some stored
  unfolding stored_at
  stored_at-ok index h = elim (Option-cases (get_elem? blocks index)) [
    | inl missing ↦ absurd (cc (rw (missing, stored_at) at h))
    | inr (found, e) ↦ e ∙ ap some (ok-injective (rw (e, stored_at) at h))
  ]

  hash_at-found :
      (index : ℕ) {stored : StoredBlock} {hash : Text}
      → get_elem? blocks index ≡ some stored
      → hash_at c blocks index ≡ ok hash
      → hash_hex c stored.block.header ≡ ok hash
  unfolding hash_at
  hash_at-found index e h = rw (e, hash_at) at h

  fork_part :
      (front : HeaderRecord) (index : ℕ) {found : ℕ × StoredBlock}
      → hash_at c blocks index ≡ ok front.header.previous_hash
      → (stored_at blocks index >>= λ fork.
          throw_if (not (front.height == (fork.height + 1) % 2 ^ 64)) headers_not_connected
          >> ok (index, fork))
        ≡ ok found
      → IsFork found.0 found.1 front
  fork_part front index linked h =
      let (fork, e, h1) = >>=-eq-ok (stored_at blocks index) _ h in
      let (numbered, h2) =
        >>-eq-ok (not (front.height == (fork.height + 1) % 2 ^ 64)) headers_not_connected _ h1 in
      let there = stored_at-ok index e in
      let known : IsFork index fork front = record {
        there = there;
        numbered = (==_iff front.height ((fork.height + 1) % 2 ^ 64)).0 (not-false _ numbered);
        linked = hash_at-found index there linked;
      } in
      subst (λ (x : ℕ × StoredBlock). IsFork x.0 x.1 front) (ok-injective h2) known

  find_fork-IsFork :
      (front : HeaderRecord) {found : ℕ × StoredBlock}
      → find_fork c blocks front ≡ ok found
      → IsFork found.0 found.1 front
  unfolding find_fork
  find_fork-IsFork front h =
      let (o, e, h1) =
        >>=-eq-ok (find_below c blocks front.header.previous_hash (length blocks)) _ h in
      elim (Option-cases o) [
        | inl missing ↦ absurd (cc (rw missing at h1))
        | inr (index, there) ↦
            fork_part front index
              (find_below-ok c blocks front.header.previous_hash (length blocks) (e ∙ ap ok there))
              (rw there at h1)
      ]

  -- What is known of the headers that are taken.
  pub record Taken (peer : PeerVersion) (index : ℕ) (headers : List HeaderRecord) : Type 0 where
    pub fork : StoredBlock
    pub there : get_elem? blocks index ≡ some fork
    pub follows : Follows c (sent_header fork) headers
    pub tip : IsTip c peer (last_header c (sent_header fork) headers)
    pub work : All (HasWork c) headers

  first_batch :
      (peer : PeerVersion) (index : ℕ) (fork : StoredBlock) (front last : HeaderRecord)
      (batch : List HeaderRecord) (later : Result (List HeaderRecord)) {headers : List HeaderRecord}
      → IsFork index fork front
      → batch ≡ front ∷ drop 1 batch
      → leb front.header.time fork.block.header.time ≡ false
      → check_rest c front (drop 1 batch) ≡ ok last
      → All (HasWork c) batch
      → ((rest : List HeaderRecord) → later ≡ ok rest → Accepted c peer last rest)
      → behind_batch c peer last batch later ≡ ok headers
      → Taken peer index headers
  first_batch peer index fork front last batch later f whole newer checked work known h =
      let previous = sent_header fork in
      let (rest, same) = check_rest-ok c front (drop 1 batch) checked in
      let follows : Follows c previous (front ∷ drop 1 batch) =
        (f.numbered, f.linked, ground (arith, newer), rest) in
      let (all, tip, works) =
        behind_batch-ok c peer previous last batch later
          (subst (Follows c previous) (sym whole) follows)
          (subst (λ (x : List HeaderRecord). last ≡ last_header c previous x) (sym whole) same) work
          known h in
      record { fork = fork; there = f.there; follows = all; tip = tip; work = works }

  -- When `sync_from_peer` has taken all headers from a peer, they follow one another, by their
  -- heights, previous hashes and rising times, from a block of the own chain on, which is the block
  -- at the index that is kept as the fork; each has its proof of work, and the last one is the tip
  -- that the peer has announced, at the height that it has announced.
  pub sync_headers-Taken :
      (peer : PeerVersion) (payloads : List (List ℕ)) {index : ℕ} {headers : List HeaderRecord}
      → sync_headers c blocks peer payloads ≡ ok (index, headers)
      → Taken peer index headers
  unfolding sync_headers
  sync_headers-Taken peer [] h = absurd (cc h)
  sync_headers-Taken peer (payload ∷ payloads) h =
      let (locator, _, h1) = >>=-eq-ok (make_block_locator c blocks) _ h in
      let (_, _, h2) = >>=-eq-ok (serialize_getheaders locator no_stop_hash) _ h1 in
      let (batch, e3, h3) = >>=-eq-ok (deserialize_headers c payload) _ h2 in
      let (front, e4, h4) = >>=-eq-ok (first_header batch) _ h3 in
      let (found, e5, h5) = >>=-eq-ok (find_fork c blocks front) _ h4 in
      let (newer, h6) =
        >>-eq-ok (leb front.header.time found.1.block.header.time) time_not_after_fork _ h5 in
      let (last, e7, h7) = >>=-eq-ok (check_rest c front (drop 1 batch)) _ h6 in
      let (all, e8, h8) =
        >>=-eq-ok (behind_batch c peer last batch (later_batches c peer last payloads)) _ h7 in
      let known =
        first_batch peer found.0 found.1 front last batch _ (find_fork-IsFork front e5)
          (first_header-ok batch e4) newer e7 (deserialize_headers-HasWork c payload e3)
          (λ rest e. later_batches-ok c peer last payloads e) e8 in
      subst (λ (x : ℕ × List HeaderRecord). Taken peer x.0 x.1) (ok-injective h8) known
