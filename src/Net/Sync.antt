-- ===== src/Net/Sync.antt =====
-- src/net.cpp: `sync_from_peer`, headers first. What the peer answers is given as the list of the
-- payloads of its answers; where it is used up, the peer has closed the connection. The messages that
-- may stand between the answers are left out.
pub mod Sequence
pub mod Accepting
pub mod Bodies
pub mod Switch
use binarycoin.Base.{
  Bool, Error, List, Option, Result, [], bad_header_sequence, batches_not_contiguous,
  begin_outside_chain, connection_closed, drop, err, get_elem?, headers_not_connected,
  headers_stopped, headers_too_high, if◌then◌else◌, leb, length, ltb, none, not, ok, some, text_eq,
  throw_if, time_not_after_fork, tip_height_mismatch, ℕ, ◌%◌, ◌&&◌, ◌++◌, ◌+◌, ◌==◌, ◌>>=◌, ◌>>◌,
  ◌^◌, ◌∷◌,
}
use binarycoin.Block.{StoredBlock, hash_hex, testnet_genesis_hash}
use binarycoin.Hash.Crypto.{Crypto}
use binarycoin.Net.Headers.{HeaderRecord, deserialize_headers, no_stop_hash, serialize_getheaders}
use binarycoin.Net.Locator.{find_below, make_block_locator}
use binarycoin.Net.Version.{PeerVersion}

-- `blocks[index]`
unfoldable pub stored_at : List StoredBlock → ℕ → Result StoredBlock
stored_at blocks index = elim (get_elem? blocks index) [
  | none ↦ err begin_outside_chain
  | some stored ↦ ok stored
]

unfoldable pub first_header : List HeaderRecord → Result HeaderRecord
first_header [] = err headers_stopped
first_header (front ∷ rest) = ok front

-- The index that was found.
abbrev pub connected : Option ℕ → Result ℕ
connected none = err headers_not_connected
connected (some index) = ok index

module _ (c : Crypto) where
  -- Whether a header has the height and the previous hash that follow another.
  unfoldable pub check_join : Error → HeaderRecord → HeaderRecord → Result (Unit {0})
  check_join error previous header = do
    throw_if (not (header.height == (previous.height + 1) % 2 ^ 64)) error
    hash ← hash_hex c previous.header
    throw_if (not (text_eq header.header.previous_hash hash)) error

  -- The loop over a batch, behind a header.
  unfoldable pub check_rest : HeaderRecord → List HeaderRecord → Result HeaderRecord
  check_rest previous [] = ok previous
  check_rest previous (header ∷ rest) = do
    check_join bad_header_sequence previous header
    throw_if (leb header.header.time previous.header.time) bad_header_sequence
    check_rest header rest

  -- The block of the own chain that the first header follows.
  unfoldable pub find_fork : List StoredBlock → HeaderRecord → Result (ℕ × StoredBlock)
  find_fork blocks front = do
    found ← find_below c blocks front.header.previous_hash (length blocks)
    fork_index ← connected found
    fork ← stored_at blocks fork_index
    throw_if (not (front.height == (fork.height + 1) % 2 ^ 64)) headers_not_connected
    ok (fork_index, fork)

  -- Behind a batch: whether its last header is the tip that the peer has announced.
  unfoldable pub is_done : PeerVersion → HeaderRecord → Result Bool
  is_done peer last = do
    throw_if (ltb peer.best_height last.height) headers_too_high
    hash ← hash_hex c last.header
    throw_if (text_eq hash peer.tip_hash && not (last.height == peer.best_height))
        tip_height_mismatch
    ok (text_eq hash peer.tip_hash)

  -- The end of a round: the batch, with what the rounds behind it bring, where there are more.
  unfoldable pub behind_batch :
      PeerVersion
      → HeaderRecord
      → List HeaderRecord
      → Result (List HeaderRecord)
      → Result (List HeaderRecord)
  behind_batch peer last batch later = do
    done ← is_done peer last
    if done then ok batch else (later >>= λ headers. ok (batch ++ headers))

  -- The rounds of the loop behind the first one.
  unfoldable pub later_batches :
      PeerVersion → HeaderRecord → List (List ℕ) → Result (List HeaderRecord)
  later_batches peer last [] = err connection_closed
  later_batches peer last (payload ∷ payloads) = do
    hash ← hash_hex c last.header
    request ← serialize_getheaders (hash ∷ testnet_genesis_hash ∷ []) no_stop_hash
    batch ← deserialize_headers c payload
    front ← first_header batch
    check_join batches_not_contiguous last front
    last' ← check_rest last batch
    behind_batch peer last' batch (later_batches peer last' payloads)

  -- The index of the fork, and all headers behind it.
  unfoldable pub sync_headers :
      List StoredBlock → PeerVersion → List (List ℕ) → Result (ℕ × List HeaderRecord)
  sync_headers blocks peer [] = err connection_closed
  sync_headers blocks peer (payload ∷ payloads) = do
    locator ← make_block_locator c blocks
    request ← serialize_getheaders locator no_stop_hash
    batch ← deserialize_headers c payload
    front ← first_header batch
    (fork_index, fork) ← find_fork blocks front
    throw_if (leb front.header.time fork.block.header.time) time_not_after_fork
    last ← check_rest front (drop 1 batch)
    headers ← behind_batch peer last batch (later_batches peer last payloads)
    ok (fork_index, headers)
