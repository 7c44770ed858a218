-- ===== src/Storage/Texts.antt =====
-- src/storage.cpp: the block index, the snapshot of the unspent outputs and the manifest.
pub mod CoinLines
pub mod Index
pub mod Snapshot
pub mod Manifests
use binarycoin.Amount.{money_range}
use binarycoin.Base.{
  Error, List, Option, Result, Text, [], bad_coinbase_flag, bad_index_header, bad_index_record,
  bad_manifest_field, bad_manifest_header, bad_snapshot_header, bad_snapshot_record, codes,
  duplicate_snapshot_outpoint, err, if◌then◌else◌, index_not_contiguous, index_without_genesis,
  length, ltb, map, missing_manifest_field, none, not, ok, payload_over_limit,
  snapshot_height_missing, snapshot_other_chain, snapshot_tip_missing, some, text_eq, throw_if,
  value_outside_money, ℕ, ◌&&◌, ◌*◌, ◌++◌, ◌==◌, ◌>>=◌, ◌>>◌, ◌||◌, ◌∷◌,
}
use binarycoin.Hash.{bytes_to_hex, hex_to_bytes}
use binarycoin.Storage.Lines.{
  lines, parse_amount, parse_unsigned, show_amount, show_number, split, strip_prefix, tabbed,
  unlines,
}
use binarycoin.Tx.{OutPoint, is_empty}
use binarycoin.Utxo.{Coin, UtxoSet, contains, emplace}
use Prim.Native.String.{String}

abbrev pub max_block_record_size : ℕ
max_block_record_size = 16 * 1024 * 1024

abbrev pub manifest_magic : Text
manifest_magic = codes "BINARYCOIN_CHAINSTATE_MANIFEST_V1"

abbrev pub index_magic : Text
index_magic = codes "BINARYCOIN_BLOCK_INDEX_V1"

abbrev pub utxo_magic : Text
utxo_magic = codes "BINARYCOIN_UTXO_SNAPSHOT_V1"

pub record IndexEntry : Type 0 where
  pub height : ℕ
  pub offset : ℕ
  pub payload_size : ℕ
  pub hash : Text

pub record Manifest : Type 0 where
  pub generation : ℕ
  pub height : ℕ
  pub bestblock : Text
  pub index_file : Text
  pub index_sha256 : Text
  pub utxo_file : Text
  pub utxo_sha256 : Text
  pub block_file_size : ℕ

unfoldable pub index_line : IndexEntry → Text
index_line entry = tabbed (
    show_number entry.height
    ∷ show_number entry.offset
    ∷ show_number entry.payload_size
    ∷ entry.hash
    ∷ [])

unfoldable pub make_index_text : List IndexEntry → Text
make_index_text entries = unlines (index_magic ∷ map index_line entries)

-- A line of the index, behind `count` entries.
unfoldable pub parse_entry : ℕ → List Text → Result IndexEntry
parse_entry count (height_text ∷ offset_text ∷ size_text ∷ hash_text ∷ []) = do
  height' ← parse_unsigned 64 height_text
  offset' ← parse_unsigned 64 offset_text
  size ← parse_unsigned 64 size_text
  throw_if (ltb max_block_record_size size) payload_over_limit
  throw_if (not (height' == count)) index_not_contiguous
  ok (record { height = height'; offset = offset'; payload_size = size; hash = hash_text })
parse_entry count fields = err bad_index_record

unfoldable pub parse_entries : List Text → List IndexEntry → Result (List IndexEntry)
parse_entries [] entries = ok entries
parse_entries (line ∷ rest) entries =
    let skipped = parse_entries rest entries in
    let read = parse_entry (length entries) (split 9 line) >>= λ entry.
    parse_entries rest (entries ++ entry ∷ []) in
    if is_empty line then skipped else read

abbrev pub headed : Text → Error → List Text → Result (List Text)
headed magic error [] = err error
headed magic error (line ∷ rest) = if text_eq line magic then ok rest else err error

unfoldable pub parse_index_text : Text → Result (List IndexEntry)
parse_index_text text = do
  rest ← headed index_magic bad_index_header (lines text)
  entries ← parse_entries rest []
  throw_if (is_empty entries) index_without_genesis
  ok entries

unfoldable pub coin_line : OutPoint × Coin → Text
coin_line (outpoint, coin) = tabbed (
    outpoint.txid
    ∷ show_number outpoint.index
    ∷ show_amount coin.output.value
    ∷ show_number coin.height
    ∷ (if coin.coinbase then b'1' ∷ [] else b'0' ∷ [])
    ∷ bytes_to_hex coin.output.script_pubkey
    ∷ [])

unfoldable pub make_utxo_text : UtxoSet → ℕ → Text → Text
make_utxo_text utxos height bestblock = unlines (
    utxo_magic
    ∷ (codes "height=" ++ show_number height)
    ∷ (codes "bestblock=" ++ bestblock)
    ∷ map coin_line utxos)

-- The fields of a line of the snapshot, in the order in which the source evaluates them.
unfoldable pub parse_coin : List Text → Result (OutPoint × Coin)
parse_coin (txid ∷ index_text ∷ value_text ∷ height_text ∷ flag ∷ script_text ∷ []) = do
  index ← parse_unsigned 32 index_text
  value ← parse_amount value_text
  script ← hex_to_bytes script_text
  height ← parse_unsigned 64 height_text
  throw_if (not (money_range value)) value_outside_money
  throw_if (not (text_eq flag (b'0' ∷ [])) && not (text_eq flag (b'1' ∷ []))) bad_coinbase_flag
  ok (
    record { txid = txid; index = index },
    record {
      output = record { value = value; script_pubkey = script };
      height = height;
      coinbase = text_eq flag (b'1' ∷ []);
    },
  )
parse_coin fields = err bad_snapshot_record

unfoldable pub parse_coins : List Text → UtxoSet → Result UtxoSet
parse_coins [] utxos = ok utxos
parse_coins (line ∷ rest) utxos =
    let skipped = parse_coins rest utxos in
    let read = parse_coin (split 9 line) >>= λ entry.
    throw_if (contains entry.0 utxos) duplicate_snapshot_outpoint
    >> parse_coins rest (emplace entry.0 entry.1 utxos) in
    if is_empty line then skipped else read

-- The next line behind its prefix, with the lines that follow.
unfoldable pub next_field : Text → Error → List Text → Result (Text × List Text)
next_field prefix error [] = err error
next_field prefix error (line ∷ rest) = elim (strip_prefix prefix line) [
  | none ↦ err error
  | some value ↦ ok (value, rest)
]

unfoldable pub parse_utxo_text : Text → ℕ → Text → Result UtxoSet
parse_utxo_text text expected_height expected_bestblock = do
  rest ← headed utxo_magic bad_snapshot_header (lines text)
  (height_text, rest1) ← next_field (codes "height=") snapshot_height_missing rest
  height ← parse_unsigned 64 height_text
  (bestblock, rest2) ← next_field (codes "bestblock=") snapshot_tip_missing rest1
  throw_if (not (height == expected_height) || not (text_eq bestblock expected_bestblock))
      snapshot_other_chain
  parse_coins rest2 []

-- `name=value` on a line.
abbrev pub named : String → Text → Text
named name value = codes name ++ b'=' ∷ value

unfoldable pub make_manifest_text : Manifest → Text
make_manifest_text manifest = unlines (
    manifest_magic
    ∷ named "generation" (show_number manifest.generation)
    ∷ named "height" (show_number manifest.height)
    ∷ named "bestblock" manifest.bestblock
    ∷ named "index_file" manifest.index_file
    ∷ named "index_sha256" manifest.index_sha256
    ∷ named "utxo_file" manifest.utxo_file
    ∷ named "utxo_sha256" manifest.utxo_sha256
    ∷ named "block_file_size" (show_number manifest.block_file_size)
    ∷ [])

-- What stands before the first equals sign, and what behind it.
unfoldable pub split_name : Text → Option (Text × Text)
split_name [] = none
split_name (c ∷ rest) =
    let behind : Option (Text × Text) = elim (split_name rest) [
      | none ↦ none
      | some (name, value) ↦ some (c ∷ name, value)
    ] in
    if c == b'=' then some ([], rest) else behind

-- The fields in the order of the lines: `emplace` keeps the first of a name, and so does `field_of`.
unfoldable pub parse_named : List Text → Result (List (Text × Text))
parse_named [] = ok []
parse_named (line ∷ rest) =
    let skipped = parse_named rest in
    let read : Result (List (Text × Text)) = elim (split_name line) [
      | none ↦ err bad_manifest_field
      | some field ↦ parse_named rest >>= λ fields. ok (field ∷ fields)
    ] in
    if is_empty line then skipped else read

unfoldable pub field_of : Text → List (Text × Text) → Result Text
field_of name [] = err missing_manifest_field
field_of name ((key, value) ∷ rest) = if text_eq key name then ok value else field_of name rest

unfoldable pub parse_manifest_text : Text → Result Manifest
parse_manifest_text text = do
  rest ← headed manifest_magic bad_manifest_header (lines text)
  fields ← parse_named rest
  generation_text ← field_of (codes "generation") fields
  generation ← parse_unsigned 64 generation_text
  height_text ← field_of (codes "height") fields
  height ← parse_unsigned 64 height_text
  bestblock ← field_of (codes "bestblock") fields
  index_file ← field_of (codes "index_file") fields
  index_sha256 ← field_of (codes "index_sha256") fields
  utxo_file ← field_of (codes "utxo_file") fields
  utxo_sha256 ← field_of (codes "utxo_sha256") fields
  size_text ← field_of (codes "block_file_size") fields
  block_file_size ← parse_unsigned 64 size_text
  ok (record {
    generation = generation;
    height = height;
    bestblock = bestblock;
    index_file = index_file;
    index_sha256 = index_sha256;
    utxo_file = utxo_file;
    utxo_sha256 = utxo_sha256;
    block_file_size = block_file_size;
  })
