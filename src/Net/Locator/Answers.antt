-- ===== src/Net/Locator/Answers.antt =====
-- src/net.cpp: what a node answers to a request for headers.
use binarycoin.Base.{
  >>=-eq-ok, Bool-cases, List, Option-cases, Result, Text, [], any, ap, arith, drop, inl, inr,
  length, map, ok, ok-injective, refl, some, some-injective, suc, sym, take, text_eq, text_eq_iff,
  text_eq_refl, true, zero, ℕ, ◌+◌, ◌>>=◌, ◌∙◌, ◌∷◌, ◌≡◌, ◌≤◌, ◌⊎◌,
}
use binarycoin.Block.{StoredBlock, hash_hex}
use binarycoin.Hash.Crypto.{Crypto}
use binarycoin.Net.{max_headers_per_response}
use binarycoin.Net.Headers.{GetHeadersRequest, HeaderRecord, no_stop_hash}
use binarycoin.Net.Locator.{
  collect_headers, find_below, hash_at, headers_after_locator, locate_fork_index,
}

abbrev pub sent_header : StoredBlock → HeaderRecord
sent_header stored = record { height = stored.height; header = stored.block.header }

-- The hash is one of the locator.
abbrev pub Names : List Text → Text → Type 0
Names locator hash = any (λ x. text_eq x hash) locator ≡ true

Names-later : (first hash : Text) (rest : List Text) → Names rest hash → Names (first ∷ rest) hash
Names-later first hash rest h = ground (arith, h)

module _ (c : Crypto) (blocks : List StoredBlock) where
  pub find_below-ok :
      (locator_hash : Text) (n : ℕ) {index : ℕ}
      → find_below c blocks locator_hash n ≡ ok (some index)
      → hash_at c blocks index ≡ ok locator_hash
  unfolding find_below
  find_below-ok locator_hash zero found = absurd (cc found)
  find_below-ok locator_hash (suc n) {index} found =
      let (hash, e, rest) = >>=-eq-ok (hash_at c blocks n) _ found in
      elim (Bool-cases (text_eq hash locator_hash)) [
        | inl same ↦
            let i : n ≡ index = some-injective (ok-injective (rw same at rest)) in
            rw (← i) (e ∙ ap ok ((text_eq_iff hash locator_hash).0 same))
        | inr other ↦ find_below-ok locator_hash n (rw other at rest)
      ]

  locate_fork_index-ok :
      (locator : List Text) {index : ℕ}
      → locate_fork_index c blocks locator ≡ ok index
      → (index ≡ 0) ⊎ ((hash : Text) × (hash_at c blocks index ≡ ok hash) × Names locator hash)
  unfolding locate_fork_index
  locate_fork_index-ok [] found = inl (sym (ok-injective found))
  locate_fork_index-ok (locator_hash ∷ rest) {index} found =
      let (o, e, later) = >>=-eq-ok (find_below c blocks locator_hash (length blocks)) _ found in
      elim (Option-cases o) [
        | inl missing ↦ elim (locate_fork_index-ok rest (rw missing at later)) [
          | inl first ↦ inl first
          | inr (hash, at, known) ↦ inr (hash, at, Names-later locator_hash hash rest known)
        ]
        | inr (index', there) ↦
            let i : index' ≡ index = ok-injective (rw there at later) in
            inr (
              locator_hash,
              rw (← i) (find_below-ok locator_hash (length blocks) (rw there at e)),
              rw (text_eq_refl locator_hash) refl,
            )
      ]

  abbrev Collected : ℕ → List StoredBlock → List HeaderRecord → Type 0
  Collected room todo headers = (n : ℕ) × (n ≤ room) × (headers ≡ map sent_header (take n todo))

  Collected-more :
      (room : ℕ) (stored : StoredBlock) (rest : List StoredBlock)
      (call : Result (List HeaderRecord)) {headers : List HeaderRecord}
      → ((more : List HeaderRecord) → call ≡ ok more → Collected room rest more)
      → (call >>= λ more. ok (sent_header stored ∷ more)) ≡ ok headers
      → Collected (suc room) (stored ∷ rest) headers
  Collected-more room stored rest call known e =
      let (more, e1, e2) = >>=-eq-ok call _ e in
      let (n, l, same) = known more e1 in
      (suc n, omega (arith, l), sym (ok-injective e2) ∙ ap (◌∷◌ (sent_header stored)) same)

  collect_headers-ok :
      (room : ℕ) (stop_hash : Text) (todo : List StoredBlock) {headers : List HeaderRecord}
      → collect_headers c room stop_hash todo ≡ ok headers
      → Collected room todo headers
  unfolding collect_headers
  collect_headers-ok zero stop_hash todo e = (0, omega arith, sym (ok-injective e))
  collect_headers-ok (suc room) stop_hash [] e = (0, omega arith, sym (ok-injective e))
  collect_headers-ok (suc room) stop_hash (stored ∷ rest) e =
      let more =
        Collected-more room stored rest (collect_headers c room stop_hash rest)
          (λ hs e'. collect_headers-ok room stop_hash rest e') in
      elim (Bool-cases (text_eq stop_hash no_stop_hash)) [
        | inl endless ↦ more (rw endless at e)
        | inr bounded ↦
            let (hash, e1, e2) = >>=-eq-ok (hash_hex c stored.block.header) _ (rw bounded at e) in
            elim (Bool-cases (text_eq hash stop_hash)) [
              | inl reached ↦ (1, omega arith, sym (ok-injective (rw reached at e2)))
              | inr before ↦ more (rw before at e2)
            ]
      ]

  -- A node that answers a request for headers finds a fork, which is its first block or one that the
  -- locator names, and answers with the headers of the blocks that follow it in its chain, without a
  -- gap, no more than 2,000.
  pub headers_after_locator-answers :
      (request : GetHeadersRequest) {headers : List HeaderRecord}
      → headers_after_locator c blocks request ≡ ok headers
      → (fork : ℕ) × ((fork ≡ 0)
          ⊎ ((hash : Text) × (hash_at c blocks fork ≡ ok hash) × Names request.locator hash))
        × (n : ℕ) × (n ≤ max_headers_per_response)
        × (headers ≡ map sent_header (take n (drop (fork + 1) blocks)))
  unfolding headers_after_locator
  headers_after_locator-answers request e =
      let (fork, e1, e2) = >>=-eq-ok (locate_fork_index c blocks request.locator) _ e in
      let (n, l, same) =
        collect_headers-ok max_headers_per_response request.stop_hash (drop (fork + 1) blocks) e2 in
      (fork, locate_fork_index-ok request.locator e1, n, l, same)
