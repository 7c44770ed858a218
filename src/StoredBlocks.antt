-- ===== src/StoredBlocks.antt =====
-- src/storage.cpp and src/net.cpp: the bytes of a block that is stored or sent. The two files have
-- the same code, but for the texts of their errors, which are arguments here.
pub mod RoundTrip
use binarycoin.Base.{
  Error, List, Result, [], length, ltb, not, ok, suc, throw_if, too_many_transactions,
  trailing_block_data, transaction_over_limit, zero, ℕ, ◌++◌, ◌-◌, ◌==◌, ◌>>=◌, ◌>>◌, ◌||◌, ◌∷◌,
}
use binarycoin.Block.{StoredBlock, deserialize_header, serialize_header}
use binarycoin.Codec.{
  append_compact_size, append_u64_le, read_bytes, read_compact_size, read_u64_le,
}
use binarycoin.Tx.{Transaction}
use binarycoin.Tx.Serialize.{deserialize, serialize}

unfoldable pub append_transactions : List Transaction → List ℕ → Result (List ℕ)
append_transactions [] output = ok output
append_transactions (transaction ∷ rest) output = do
  bytes ← serialize transaction
  append_transactions rest (append_compact_size output (length bytes) ++ bytes)

unfoldable pub serialize_stored_block : StoredBlock → Result (List ℕ)
serialize_stored_block stored = do
  header ← serialize_header stored.block.header
  append_transactions stored.block.transactions (
      append_compact_size (append_u64_le [] stored.height ++ header)
        (length stored.block.transactions))

-- The loop over the transactions of a record.
unfoldable pub read_transactions : Error → ℕ → List ℕ → ℕ → Result (List Transaction × ℕ)
read_transactions over_limit zero bytes offset = ok ([], offset)
read_transactions over_limit (suc count) bytes offset = do
  (size, offset1) ← read_compact_size bytes offset
  throw_if (ltb 4_000_000 size || ltb (length bytes - offset1) size) over_limit
  (transaction_bytes, offset2) ← read_bytes bytes offset1 size
  transaction ← deserialize transaction_bytes
  (rest, offset3) ← read_transactions over_limit count bytes offset2
  ok (transaction ∷ rest, offset3)

-- A block from the offset on, with the offset behind it.
unfoldable pub read_block_record : List ℕ → ℕ → Result (StoredBlock × ℕ)
read_block_record bytes offset = do
  (height, offset1) ← read_u64_le bytes offset
  (header_bytes, offset2) ← read_bytes bytes offset1 80
  header ← deserialize_header header_bytes
  (count, offset3) ← read_compact_size bytes offset2
  throw_if (ltb 100_000 count) too_many_transactions
  (transactions, offset4) ← read_transactions transaction_over_limit count bytes offset3
  ok (
    record { height = height; block = record { header = header; transactions = transactions } },
    offset4,
  )

unfoldable pub deserialize_stored_block : List ℕ → Result StoredBlock
deserialize_stored_block bytes = do
  (stored, offset) ← read_block_record bytes 0
  throw_if (not (offset == length bytes)) trailing_block_data
  ok stored
