-- ===== src/Net/Sync/Bodies.antt =====
-- src/net.cpp: the blocks of the headers that `sync_from_peer` has taken, from the side branches and
-- from the peer.
pub mod Assembly
use binarycoin.Base.{
  Bool, List, Option, Result, Text, [], block_count_mismatch, block_not_announced, block_not_found,
  body_missing, connection_closed, err, false, if◌then◌else◌, length, none, not, ok, some, suc,
  text_eq, throw_if, zero, ℕ, ◌++◌, ◌==◌, ◌>>=◌, ◌>>◌, ◌∷◌,
}
use binarycoin.Block.{StoredBlock, hash_hex, serialize_header}
use binarycoin.BranchStore.{find_block, put}
use binarycoin.Hash.Crypto.{Crypto}
use binarycoin.Net.Blocks.{deserialize_stored_blocks}
use binarycoin.Net.Headers.{HeaderRecord}

-- The blocks under their hashes. `emplace` of a key that is there changes nothing.
abbrev pub Bodies : Type 0
Bodies = List (Text × StoredBlock)

unfoldable pub body_find : Text → Bodies → Option StoredBlock
body_find hash [] = none
body_find hash ((key, stored) ∷ rest) =
    if text_eq key hash then some stored else body_find hash rest

unfoldable pub body_emplace : Text → StoredBlock → Bodies → Bodies
body_emplace hash stored bodies = elim (body_find hash bodies) [
  | none ↦ bodies ++ (hash, stored) ∷ []
  | some there ↦ bodies
]

-- What the peer answers to a request for a block.
pub data BodyAnswer : Type 0 where
  block_answer : List ℕ → BodyAnswer
  notfound_answer : BodyAnswer

unfoldable pub only_block : List StoredBlock → Result StoredBlock
only_block (stored ∷ []) = ok stored
only_block decoded = err block_count_mismatch

abbrev pub body_of : Option StoredBlock → Result StoredBlock
body_of none = err body_missing
body_of (some stored) = ok stored

module _ (c : Crypto) where
  -- Whether a block has the height and the header that were announced.
  unfoldable pub is_body_of : HeaderRecord → StoredBlock → Result Bool
  is_body_of header stored =
      let same = serialize_header stored.block.header >>= λ ours.
      serialize_header header.header >>= λ theirs. ok (text_eq ours theirs) in
      if stored.height == header.height then same else ok false

  -- The block of a side branch, where it is the one that was announced.
  unfoldable pub reusable : HeaderRecord → Option StoredBlock → Result (Option StoredBlock)
  reusable header none = ok none
  reusable header (some stored) = do
    matches ← is_body_of header stored
    ok (if matches then some stored else none)

  -- The bodies that need not be asked for, and the hashes of those that must.
  unfoldable pub reuse_bodies :
      List StoredBlock → List HeaderRecord → Bodies → Result (Bodies × List Text)
  reuse_bodies branches [] bodies = ok (bodies, [])
  reuse_bodies branches (header ∷ rest) bodies = do
    hash ← hash_hex c header.header
    found ← find_block c hash branches
    reused ← reusable header found
    let missing = reuse_bodies branches rest bodies >>= λ left. ok (left.0, hash ∷ left.1)
    elim reused [
      | none ↦ missing
      | some stored ↦ reuse_bodies branches rest (body_emplace hash stored bodies)
    ]

  -- `std::find_if` over the headers.
  unfoldable pub find_header : Text → List HeaderRecord → Result (Option HeaderRecord)
  find_header hash [] = ok none
  find_header hash (header ∷ rest) = do
    own ← hash_hex c header.header
    let behind = find_header hash rest
    if text_eq own hash then ok (some header) else behind

  unfoldable pub check_announced : Option HeaderRecord → StoredBlock → Result (Unit {0})
  check_announced none stored = err block_not_announced
  check_announced (some header) stored = do
    matches ← is_body_of header stored
    throw_if (not matches) block_not_announced

  unfoldable pub receive_body : List HeaderRecord → BodyAnswer → Result (Text × StoredBlock)
  receive_body headers notfound_answer = err block_not_found
  receive_body headers (block_answer payload) = do
    decoded ← deserialize_stored_blocks payload
    stored ← only_block decoded
    hash ← hash_hex c stored.block.header
    header ← find_header hash headers
    check_announced header stored
    ok (hash, stored)

  -- An answer for each missing block. What is received is kept in the side branches as well, also
  -- where a later answer throws.
  unfoldable pub receive_bodies :
      List HeaderRecord
      → ℕ
      → List BodyAnswer
      → Bodies
      → List StoredBlock
      → Result Bodies × List StoredBlock
  receive_bodies headers zero answers bodies branches = (ok bodies, branches)
  receive_bodies headers (suc count) [] bodies branches = (err connection_closed, branches)
  receive_bodies headers (suc count) (answer ∷ answers) bodies branches =
      elim (receive_body headers answer) [
        | err e ↦ (err e, branches)
        | ok (hash, stored) ↦ elim (put c stored branches) [
          | err e ↦ (err e, branches)
          | ok branches' ↦
              receive_bodies headers count answers (body_emplace hash stored bodies) branches'
        ]
      ]

  unfoldable pub assemble : List HeaderRecord → Bodies → Result (List StoredBlock)
  assemble [] bodies = ok []
  assemble (header ∷ rest) bodies = do
    hash ← hash_hex c header.header
    stored ← body_of (body_find hash bodies)
    blocks ← assemble rest bodies
    ok (stored ∷ blocks)

  -- The blocks of the headers, and what is left of the side branches.
  unfoldable pub sync_bodies :
      List StoredBlock
      → List HeaderRecord
      → List BodyAnswer
      → Result (List StoredBlock) × List StoredBlock
  sync_bodies branches headers answers = elim (reuse_bodies branches headers []) [
    | err e ↦ (err e, branches)
    | ok (bodies, missing) ↦
        let (received, branches') =
          receive_bodies headers (length missing) answers bodies branches in
        (received >>= λ all_bodies. assemble headers all_bodies, branches')
  ]
