-- ===== src/Net/Blocks.antt =====
-- src/net.cpp: blocks and transactions that are sent. A block has the form in which it is stored.
pub mod RoundTrip
use binarycoin.Base.{
  List, Result, [], begin_outside_chain, drop, length, ltb, min, ok, payload_over_limit,
  payload_too_large, take, throw_if, too_many_items_sent, too_many_transactions,
  transaction_over_limit, ℕ, ◌++◌, ◌-◌, ◌>>=◌, ◌>>◌, ◌||◌,
}
use binarycoin.Block.{StoredBlock}
use binarycoin.Codec.{append_compact_size, read_bytes, read_compact_size}
use binarycoin.Net.{at_end, max_blocks_per_response, max_p2p_payload}
use binarycoin.Net.Items.{read_counted, write_items}
use binarycoin.StoredBlocks.{
  append_transactions, deserialize_stored_block, read_transactions, serialize_stored_block,
}
use binarycoin.Tx.{Transaction}

unfoldable pub append_block_record : List ℕ → StoredBlock → Result (List ℕ)
append_block_record output stored = do
  bytes ← serialize_stored_block stored
  ok (append_compact_size output (length bytes) ++ bytes)

-- The blocks from an index on, so many at most.
unfoldable pub serialize_stored_blocks : List StoredBlock → ℕ → ℕ → Result (List ℕ)
serialize_stored_blocks blocks begin_index maximum_count = do
  throw_if (ltb (length blocks) begin_index) begin_outside_chain
  let count = min maximum_count (length blocks - begin_index)
  output ←
      write_items append_block_record (append_compact_size [] count)
        (take count (drop begin_index blocks))
  throw_if (ltb max_p2p_payload (length output)) payload_too_large
  ok output

unfoldable pub read_sent_block : List ℕ → ℕ → Result (StoredBlock × ℕ)
read_sent_block payload offset = do
  (record_size, offset1) ← read_compact_size payload offset
  throw_if (ltb max_p2p_payload record_size || ltb (length payload - offset1) record_size)
      payload_over_limit
  (bytes, offset2) ← read_bytes payload offset1 record_size
  stored ← deserialize_stored_block bytes
  ok (stored, offset2)

unfoldable pub deserialize_stored_blocks : List ℕ → Result (List StoredBlock)
deserialize_stored_blocks payload =
    read_counted max_blocks_per_response too_many_items_sent read_sent_block payload

unfoldable pub serialize_transactions : List Transaction → Result (List ℕ)
serialize_transactions transactions =
    append_transactions transactions (append_compact_size [] (length transactions))

unfoldable pub deserialize_transactions : List ℕ → Result (List Transaction)
deserialize_transactions payload = do
  (count, offset1) ← read_compact_size payload 0
  throw_if (ltb 100_000 count) too_many_transactions
  (transactions, offset2) ← read_transactions transaction_over_limit count payload offset1
  at_end offset2 payload
  ok transactions
