-- ===== src/Net/Sync/Bodies/Assembly.antt =====
-- src/net.cpp: the blocks that `sync_from_peer` puts together are those of the headers.
use binarycoin.Base.{
  >>=-eq-ok, All, All-append, Bool-cases, List, Option, Option-cases, Result-cases, Text, [], ap,
  inl, inr, length, none, ok, ok-injective, some, some-injective, suc, sym, text_eq, text_eq_iff,
  zero, ℕ, ◌∙◌, ◌∷◌, ◌≡◌,
}
use binarycoin.Block.{StoredBlock, hash_hex}
use binarycoin.BranchStore.{find_block, put, stored_hash}
use binarycoin.Hash.Crypto.{Crypto}
use binarycoin.Net.Blocks.{deserialize_stored_blocks}
use binarycoin.Net.Headers.{HeaderRecord}
use binarycoin.Net.Sync.Bodies.{
  Bodies, BodyAnswer, assemble, block_answer, body_emplace, body_find, body_of, check_announced,
  find_header, is_body_of, notfound_answer, only_block, receive_bodies, receive_body, reusable,
  reuse_bodies, sync_bodies,
}
use mathlib.Core.Path.{subst}

module _ (c : Crypto) where
  -- A body stands under the hash of its header.
  abbrev Keyed : Text × StoredBlock → Type 0
  Keyed body = hash_hex c body.1.block.header ≡ ok body.0

  -- Blocks with the hashes of the headers, one for each.
  abbrev pub Answers : List HeaderRecord → List StoredBlock → Type 0
  Answers [] [] = Unit
  Answers [] (stored ∷ blocks) = ⊥
  Answers (header ∷ headers) [] = ⊥
  Answers (header ∷ headers) (stored ∷ blocks) =
      (hash_hex c stored.block.header ≡ hash_hex c header.header) × Answers headers blocks

  body_emplace-Keyed :
      (hash : Text) (stored : StoredBlock) (bodies : Bodies)
      → hash_hex c stored.block.header ≡ ok hash
      → All Keyed bodies
      → All Keyed (body_emplace hash stored bodies)
  unfolding body_emplace
  body_emplace-Keyed hash stored bodies e h = elim (Option-cases (body_find hash bodies)) [
    | inl new ↦ rw (new, body_emplace) (All-append Keyed bodies ((hash, stored) ∷ []) h (e, tt))
    | inr (there, known) ↦ rw (known, body_emplace) h
  ]

  body_find-Keyed :
      (hash : Text) (bodies : Bodies) {stored : StoredBlock}
      → All Keyed bodies
      → body_find hash bodies ≡ some stored
      → hash_hex c stored.block.header ≡ ok hash
  unfolding body_find
  body_find-Keyed hash [] h e = absurd (cc e)
  body_find-Keyed hash ((key, own) ∷ rest) {stored} (h, hs) e =
      elim (Bool-cases (text_eq key hash)) [
        | inl same ↦
            let there : own ≡ stored = some-injective (rw same at e) in
            rw (← there) (h ∙ ap ok ((text_eq_iff key hash).0 same))
        | inr other ↦ body_find-Keyed hash rest hs (rw other at e)
      ]

  find_block-ok :
      (hash : Text) (branches : List StoredBlock) {stored : StoredBlock}
      → find_block c hash branches ≡ ok (some stored)
      → hash_hex c stored.block.header ≡ ok hash
  unfolding find_block
  find_block-ok hash [] e = absurd (cc e)
  find_block-ok hash (b ∷ bs) e =
      let (own, e1, h1) = >>=-eq-ok (stored_hash c b) _ e in
      elim (Bool-cases (text_eq own hash)) [
        | inl same ↦
            let there = some-injective (ok-injective (rw same at h1)) in
            rw (← there) (e1 ∙ ap ok ((text_eq_iff own hash).0 same))
        | inr other ↦ find_block-ok hash bs (rw other at h1)
      ]

  assemble-Answers :
      (headers : List HeaderRecord) (bodies : Bodies) {blocks : List StoredBlock}
      → All Keyed bodies
      → assemble c headers bodies ≡ ok blocks
      → Answers headers blocks
  unfolding assemble
  assemble-Answers [] bodies k h = subst (Answers []) (ok-injective h) tt
  assemble-Answers (header ∷ rest) bodies k h =
      let (hash, e1, h1) = >>=-eq-ok (hash_hex c header.header) _ h in
      let (stored, e2, h2) = >>=-eq-ok (body_of (body_find hash bodies)) _ h1 in
      let (blocks, e3, h3) = >>=-eq-ok (assemble c rest bodies) _ h2 in
      let found = body_of-ok (body_find hash bodies) e2 in
      subst (Answers (header ∷ rest)) (ok-injective h3)
        (body_find-Keyed hash bodies k found ∙ sym e1, assemble-Answers rest bodies k e3)
    where
      body_of-ok : (o : Option StoredBlock) {s : StoredBlock} → body_of o ≡ ok s → o ≡ some s
      body_of-ok none e = absurd (cc e)
      body_of-ok (some s) e = ap some (ok-injective e)

  reusable-ok :
      (header : HeaderRecord) (o : Option StoredBlock) {stored : StoredBlock}
      → reusable c header o ≡ ok (some stored)
      → o ≡ some stored
  unfolding reusable
  reusable-ok header none e = absurd (cc e)
  reusable-ok header (some own) e =
      let (matches, _, h) = >>=-eq-ok (is_body_of c header own) _ e in
      elim (Bool-cases matches) [
        | inl same ↦ ok-injective (rw same at h)
        | inr other ↦ absurd (cc (rw other at h))
      ]

  reuse_bodies-Keyed :
      (branches : List StoredBlock) (headers : List HeaderRecord) (bodies : Bodies)
      {result : Bodies × List Text}
      → All Keyed bodies
      → reuse_bodies c branches headers bodies ≡ ok result
      → All Keyed result.0
  unfolding reuse_bodies
  reuse_bodies-Keyed branches [] bodies k h =
      subst (λ (x : Bodies × List Text). All Keyed x.0) (ok-injective h) k
  reuse_bodies-Keyed branches (header ∷ rest) bodies k h =
      let (hash, e1, h1) = >>=-eq-ok (hash_hex c header.header) _ h in
      let (found, e2, h2) = >>=-eq-ok (find_block c hash branches) _ h1 in
      let (reused, e3, h3) = >>=-eq-ok (reusable c header found) _ h2 in
      elim (Option-cases reused) [
        | inl none_there ↦
            let (left, e4, h4) =
              >>=-eq-ok (reuse_bodies c branches rest bodies) _ (rw none_there at h3) in
            subst (λ (x : Bodies × List Text). All Keyed x.0) (ok-injective h4)
              (reuse_bodies-Keyed branches rest bodies k e4)
        | inr (stored, there) ↦
            let named =
              find_block-ok hash branches
                (e2 ∙ ap ok (reusable-ok header found (e3 ∙ ap ok there))) in
            reuse_bodies-Keyed branches rest (body_emplace hash stored bodies)
              (body_emplace-Keyed hash stored bodies named k) (rw there at h3)
      ]

  receive_body-Keyed :
      (headers : List HeaderRecord) (answer : BodyAnswer) {body : Text × StoredBlock}
      → receive_body c headers answer ≡ ok body
      → Keyed body
  unfolding receive_body
  receive_body-Keyed headers notfound_answer h = absurd (cc h)
  receive_body-Keyed headers (block_answer payload) h =
      let (decoded, _, h1) = >>=-eq-ok (deserialize_stored_blocks payload) _ h in
      let (stored, _, h2) = >>=-eq-ok (only_block decoded) _ h1 in
      let (hash, e3, h3) = >>=-eq-ok (hash_hex c stored.block.header) _ h2 in
      let (header, _, h4) = >>=-eq-ok (find_header c hash headers) _ h3 in
      let (_, _, h5) = >>=-eq-ok (check_announced c header stored) _ h4 in
      subst Keyed (ok-injective h5) e3

  receive_bodies-Keyed :
      (headers : List HeaderRecord) (count : ℕ) (answers : List BodyAnswer) (bodies : Bodies)
      (branches : List StoredBlock) {result : Bodies}
      → All Keyed bodies
      → (receive_bodies c headers count answers bodies branches).0 ≡ ok result
      → All Keyed result
  unfolding receive_bodies
  receive_bodies-Keyed headers zero answers bodies branches k h =
      subst (All Keyed) (ok-injective h) k
  receive_bodies-Keyed headers (suc count) [] bodies branches k h = absurd (cc h)
  receive_bodies-Keyed headers (suc count) (answer ∷ answers) bodies branches k h =
      elim (Result-cases (receive_body c headers answer)) [
        | inr (e, failed) ↦ absurd (cc (rw (failed, receive_bodies) at h))
        | inl ((hash, stored), received) ↦ elim (Result-cases (put c stored branches)) [
          | inr (e, failed) ↦ absurd (cc (rw (received, failed, receive_bodies) at h))
          | inl (branches', kept) ↦
              receive_bodies-Keyed headers count answers (body_emplace hash stored bodies) branches'
                (body_emplace-Keyed hash stored bodies (receive_body-Keyed headers answer received)
                  k)
                (rw (received, kept, receive_bodies) at h)
        ]
      ]

  -- The blocks that `sync_from_peer` puts together, from its side branches and from what the peer
  -- answers, are as many as the headers, and each has the hash of its header.
  pub sync_bodies-Answers :
      (branches : List StoredBlock) (headers : List HeaderRecord) (answers : List BodyAnswer)
      {blocks : List StoredBlock}
      → (sync_bodies c branches headers answers).0 ≡ ok blocks
      → Answers headers blocks
  unfolding sync_bodies
  sync_bodies-Answers branches headers answers h =
      elim (Result-cases (reuse_bodies c branches headers [])) [
        | inr (e, failed) ↦ absurd (cc (rw (failed, sync_bodies) at h))
        | inl ((reused, missing), e1) ↦
            let h1 = rw (e1, sync_bodies) at h in
            let received = receive_bodies c headers (length missing) answers reused branches in
            let (bodies, e2, e3) = >>=-eq-ok received.0 _ h1 in
            assemble-Answers headers bodies
              (receive_bodies-Keyed headers (length missing) answers reused branches
                (reuse_bodies-Keyed branches headers [] tt e1) e2)
              e3
      ]
