-- ===== src/Net/Headers.antt =====
-- src/net.cpp: the request for headers and the answer to it.
pub mod RoundTrip
use binarycoin.Base.{
  List, Result, Text, [], bad_header_work, bad_locator, length, ltb, nonzero_count, not, ok,
  replicate, throw_if, too_many_items_sent, ℕ, ◌++◌, ◌==◌, ◌>>=◌, ◌>>◌, ◌||◌,
}
use binarycoin.Block.{
  BlockHeader, deserialize_header, header_raw_hash, serialize_header, testnet_bits,
}
use binarycoin.Codec.{
  append_compact_size, append_u64_le, read_bytes, read_compact_size, read_u64_le,
}
use binarycoin.Hash.{display_hex_to_wire_bytes}
use binarycoin.Hash.Crypto.{Crypto}
use binarycoin.Net.{at_end, max_headers_per_response}
use binarycoin.Net.Items.{read_counted, read_items, write_counted, write_items}
use binarycoin.Net.Version.{read_display_hash}
use binarycoin.Pow.{check_proof_of_work}
use binarycoin.Tx.{is_empty}

abbrev pub max_locator : ℕ
max_locator = 101

pub record GetHeadersRequest : Type 0 where
  pub locator : List Text
  pub stop_hash : Text

pub record HeaderRecord : Type 0 where
  pub height : ℕ
  pub header : BlockHeader

-- `std::string(64, '0')`
abbrev pub no_stop_hash : Text
no_stop_hash = replicate 64 b'0'

unfoldable pub append_hash : List ℕ → Text → Result (List ℕ)
append_hash output hash_text = do hash ← display_hex_to_wire_bytes hash_text; ok (output ++ hash)

unfoldable pub serialize_getheaders : List Text → Text → Result (List ℕ)
serialize_getheaders locator stop_hash = do
  throw_if (is_empty locator || ltb max_locator (length locator)) bad_locator
  payload ← write_items append_hash (append_compact_size [] (length locator)) locator
  append_hash payload stop_hash

unfoldable pub deserialize_getheaders : List ℕ → Result GetHeadersRequest
deserialize_getheaders payload = do
  (count, offset1) ← read_compact_size payload 0
  throw_if (count == 0 || ltb max_locator count) bad_locator
  (locator, offset2) ← read_items (read_display_hash payload) count offset1
  (stop_hash, offset3) ← read_display_hash payload offset2
  at_end offset3 payload
  ok (record { locator = locator; stop_hash = stop_hash })

unfoldable pub append_header_record : List ℕ → HeaderRecord → Result (List ℕ)
append_header_record output sent = do
  header ← serialize_header sent.header
  ok (append_compact_size (append_u64_le output sent.height ++ header) 0)

unfoldable pub serialize_headers : List HeaderRecord → Result (List ℕ)
serialize_headers headers =
    write_counted max_headers_per_response too_many_items_sent append_header_record headers

module _ (c : Crypto) where
  -- The bits are compared first, and a header with others is not hashed.
  unfoldable pub check_header_work : BlockHeader → Result (Unit {0})
  check_header_work header = do
    throw_if (not (header.bits == testnet_bits)) bad_header_work
    hash ← header_raw_hash c header
    valid ← check_proof_of_work hash header.bits
    throw_if (not valid) bad_header_work

  unfoldable pub read_header_record : List ℕ → ℕ → Result (HeaderRecord × ℕ)
  read_header_record payload offset = do
    (height, offset1) ← read_u64_le payload offset
    (header_bytes, offset2) ← read_bytes payload offset1 80
    header ← deserialize_header header_bytes
    (transaction_count, offset3) ← read_compact_size payload offset2
    throw_if (not (transaction_count == 0)) nonzero_count
    check_header_work header
    ok (record { height = height; header = header }, offset3)

  unfoldable pub deserialize_headers : List ℕ → Result (List HeaderRecord)
  deserialize_headers payload =
      read_counted max_headers_per_response too_many_items_sent read_header_record payload
