-- ===== src/Net/Locator.antt =====
-- src/net.cpp: the locator of a chain, and where another chain leaves it.
pub mod Bounds
pub mod Asking
pub mod Answers
use binarycoin.Base.{
  List, Option, Result, Text, [], begin_outside_chain, drop, err, get_elem?, if◌then◌else◌, leb,
  length, ltb, none, ok, out_of_fuel, some, suc, text_eq, zero, ℕ, ◌%◌, ◌*◌, ◌++◌, ◌+◌, ◌-◌, ◌==◌,
  ◌>>=◌, ◌>>◌, ◌^◌, ◌||◌, ◌∷◌,
}
use binarycoin.Block.{StoredBlock, hash_hex}
use binarycoin.Chain.Node.Generation.{front}
use binarycoin.Hash.Crypto.{Crypto}
use binarycoin.Net.{max_headers_per_response}
use binarycoin.Net.Headers.{GetHeadersRequest, HeaderRecord, max_locator, no_stop_hash}

-- `locator.back()`
unfoldable pub last_hash : Text → List Text → Text
last_hash first [] = first
last_hash first (second ∷ rest) = last_hash second rest

-- The end of `make_block_locator`: the hash of the first block comes last.
unfoldable pub with_genesis : Text → List Text → List Text
with_genesis genesis [] = genesis ∷ []
with_genesis genesis (first ∷ rest) =
    if text_eq (last_hash first rest) genesis then first ∷ rest else first ∷ (rest ++ genesis ∷ [])

module _ (c : Crypto) where
  -- `blocks[index].block.header.hash_hex()`
  unfoldable pub hash_at : List StoredBlock → ℕ → Result Text
  hash_at blocks index = elim (get_elem? blocks index) [
    | none ↦ err begin_outside_chain
    | some stored ↦ hash_hex c stored.block.header
  ]

  -- The loop of `make_block_locator`, behind `size` hashes. It ends at 101 of them.
  unfoldable pub locator_loop : ℕ → List StoredBlock → ℕ → ℕ → ℕ → Result (List Text)
  locator_loop zero blocks index step size = err out_of_fuel
  locator_loop (suc fuel) blocks index step size =
      let step' = if ltb 10 (size + 1) then step * 2 % 2 ^ 64 else step in
      let index' = if ltb step' index then index - step' else 0 in
      let rest = locator_loop fuel blocks index' step' (size + 1) in
      hash_at blocks index >>= λ hash.
      if index == 0 || leb max_locator (size + 1)
      then ok (hash ∷ [])
      else (rest >>= λ hashes. ok (hash ∷ hashes))

  unfoldable pub make_block_locator : List StoredBlock → Result (List Text)
  make_block_locator [] = ok []
  make_block_locator (front ∷ rest) = do
    locator ← locator_loop max_locator (front ∷ rest) (length rest) 1 0
    genesis ← hash_hex c front.block.header
    ok (with_genesis genesis locator)

  -- The highest index below `index` whose block has the hash.
  unfoldable pub find_below : List StoredBlock → Text → ℕ → Result (Option ℕ)
  find_below blocks locator_hash zero = ok none
  find_below blocks locator_hash (suc index) =
      let below = find_below blocks locator_hash index in
      hash_at blocks index >>= λ hash. if text_eq hash locator_hash then ok (some index) else below

  unfoldable pub locate_fork_index : List StoredBlock → List Text → Result ℕ
  locate_fork_index blocks [] = ok 0
  locate_fork_index blocks (locator_hash ∷ rest) = do
    found ← find_below blocks locator_hash (length blocks)
    elim found [ none ↦ locate_fork_index blocks rest | some index ↦ ok index ]

  -- The headers behind the fork, up to the stop hash, so many at most.
  unfoldable pub collect_headers : ℕ → Text → List StoredBlock → Result (List HeaderRecord)
  collect_headers zero stop_hash blocks = ok []
  collect_headers (suc room) stop_hash [] = ok []
  collect_headers (suc room) stop_hash (stored ∷ rest) =
      let sent : HeaderRecord = record { height = stored.height; header = stored.block.header } in
      let more = collect_headers room stop_hash rest >>= λ headers. ok (sent ∷ headers) in
      let stopping = hash_hex c stored.block.header >>= λ hash.
      if text_eq hash stop_hash then ok (sent ∷ []) else more in
      if text_eq stop_hash no_stop_hash then more else stopping

  unfoldable pub headers_after_locator :
      List StoredBlock → GetHeadersRequest → Result (List HeaderRecord)
  headers_after_locator blocks request = do
    fork_index ← locate_fork_index blocks request.locator
    collect_headers max_headers_per_response request.stop_hash (drop (fork_index + 1) blocks)
