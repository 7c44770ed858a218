-- ===== src/Tests/Storage.antt =====
-- Examples on the durable store and the texts that it keeps.
use binarycoin.Base.{
  All, List, Result, [], arith, block_missing, err, false, length, none, ok, ok-injective, refl,
  some, sym, text_eq, ℕ, ◌++◌, ◌+◌, ◌-ℤ◌, ◌∙◌, ◌∷◌, ◌≡◌, ◌⊎◌,
}
use binarycoin.Block.{
  hash_hex, header_raw_hash, serialize_header, testnet_genesis_hash, testnet_genesis_merkle,
  testnet_genesis_txid,
}
use binarycoin.Codec.{
  append_compact_size, append_i32_le, append_i64_le, append_le, append_u32_le, append_u64_le,
}
use binarycoin.Hash.{
  bytes_to_hex, display_hex_to_raw_digest, display_hex_to_wire_bytes, hash_to_display_hex,
  hex_pairs, hex_to_bytes, hex_value,
}
use binarycoin.Hash.Crypto.{sha256d}
use binarycoin.Storage.Disk.{Disk, append_bytes, apply_write, apply_writes, bytes_of}
use binarycoin.Storage.Lines.Pieces.{Lacks-literal}
use binarycoin.Storage.Records.{
  block_record_header_size, catalog_emplace, catalog_find, make_record_bytes, pread_all,
  read_record_header, record_ahead, scan_catalog, scan_loop,
}
use binarycoin.Storage.Records.Catalogs.{Finds, Sound, scan_catalog-Sound}
use binarycoin.Storage.Records.Frames.{read_record_at-Framed, record_ahead-Framed}
use binarycoin.Storage.Records.Rounds.{
  RecordBehind, Scanned, further, here, scan_catalog-Scanned, scan_catalog-Finds,
}
use binarycoin.Storage.Records.Scan.{scan_end}
use binarycoin.Storage.Store.{DurableChainStore, load, load_committed}
use binarycoin.Storage.Store.Again.{Committed-Committable}
use binarycoin.Storage.Store.Appending.{InChain, Recorded, Storable, Storable-Recorded}
use binarycoin.Storage.Store.Atomic.{commit-atomic, load-commit}
use binarycoin.Storage.Store.Commit.{
  append_records, block_writes, commit, commit_behind, commit_writes, index_entries,
  manifest_for_generation, publish,
}
use binarycoin.Storage.Store.Committing.{Committable, Committed, Committed-chain}
use binarycoin.Storage.Store.Interrupted.{Interrupted, next, stop}
use binarycoin.Storage.Store.Manifested.{
  HasChain, manifest_there, published-HasChain, published_disk,
}
use binarycoin.Storage.Texts.{make_utxo_text, parse_utxo_text}
use binarycoin.Storage.Texts.CoinLines.{CoinFits}
use binarycoin.Storage.Texts.Snapshot.{parse_utxo_text-make_utxo_text}
use binarycoin.StoredBlocks.{append_transactions, deserialize_stored_block, serialize_stored_block}
use binarycoin.StoredBlocks.RoundTrip.{BlockFits, deserialize_stored_block-serialize_stored_block}
use binarycoin.Tests.{toy, toy_coinbase, toy_genesis, toy_utxos}
use binarycoin.Tests.Transactions.{is_hex_digits, is_hex_digits→All}
use binarycoin.Tx.{check_inputs, check_outputs, null_txid, validate_transaction_structure}
use binarycoin.Tx.Serialize.{
  serialize, serialize_input, serialize_inputs, serialize_output, serialize_outputs,
}
use binarycoin.Tx.Serialize.Layout.{TxFits}
use mathlib.Core.Path.{subst}

-- A coinbase whose input names no transaction.
coinbase-TxFits : TxFits toy_coinbase
unfolding is_hex_digits
coinbase-TxFits = record {
  version = omega arith;
  inputs = (
    record {
      txid = record { digits = is_hex_digits→All null_txid refl; size = refl };
      index = omega arith;
      sequence = omega arith;
    },
    tt,
  );
  lock_time = omega arith;
}

abbrev pub bytes_or_none : Result (List ℕ) → List ℕ
bytes_or_none (ok bytes) = bytes
bytes_or_none (err e) = []

coinbase-valid : validate_transaction_structure toy_coinbase ≡ ok tt
unfolding validate_transaction_structure display_hex_to_wire_bytes display_hex_to_raw_digest
    hex_to_bytes hex_pairs hex_value ◌-ℤ◌
coinbase-valid = refl

abbrev coinbase_bytes : List ℕ
coinbase_bytes = bytes_or_none (serialize toy_coinbase)

coinbase-serialized : (serialize toy_coinbase ≡ ok coinbase_bytes) × (length coinbase_bytes ≡ 96)
unfolding serialize validate_transaction_structure display_hex_to_wire_bytes
    display_hex_to_raw_digest hex_to_bytes hex_pairs hex_value ◌-ℤ◌ serialize_inputs serialize_input
    append_u32_le serialize_outputs serialize_output append_compact_size append_i64_le append_u64_le
    append_i32_le
coinbase-serialized = (refl, refl)

pub genesis-BlockFits : BlockFits toy_genesis
unfolding is_hex_digits
genesis-BlockFits = record {
  height = omega arith;
  header = record {
    version_fits = omega arith;
    previous_hash_fits = record { digits = is_hex_digits→All null_txid refl; size = refl };
    merkle_root_fits = record {
      digits = is_hex_digits→All testnet_genesis_merkle refl;
      size = refl;
    };
    time_fits = omega arith;
    bits_fits = omega arith;
    nonce_fits = omega arith;
  };
  count = omega arith;
  transactions = (
    record {
      fields = coinbase-TxFits;
      valid = coinbase-valid;
      size = λ bytes e.
          rw (← ok-injective (sym coinbase-serialized.0 ∙ e), coinbase-serialized.1) (omega arith);
    },
    tt,
  );
}

deserialize_stored_block-serialize_stored_block_example :
    (bytes : List ℕ) × (serialize_stored_block toy_genesis ≡ ok bytes)
    × (deserialize_stored_block bytes ≡ ok toy_genesis)
deserialize_stored_block-serialize_stored_block_example =
    deserialize_stored_block-serialize_stored_block toy_genesis genesis-BlockFits

abbrev genesis_bytes : List ℕ
genesis_bytes = bytes_or_none (serialize_stored_block toy_genesis)

genesis-serialized :
    (serialize_stored_block toy_genesis ≡ ok genesis_bytes) × (length genesis_bytes ≡ 186)
unfolding serialize_stored_block serialize serialize_header display_hex_to_wire_bytes
    display_hex_to_raw_digest hex_to_bytes hex_pairs hex_value append_u32_le append_i32_le
    append_transactions validate_transaction_structure ◌-ℤ◌ serialize_inputs serialize_input
    append_compact_size serialize_outputs serialize_output append_i64_le append_u64_le
genesis-serialized = (refl, refl)

pub genesis-Storable : Storable toy toy_genesis
genesis-Storable = record {
  fits = genesis-BlockFits;
  small = λ bytes e.
      rw (← ok-injective (sym genesis-serialized.0 ∙ e), genesis-serialized.1) (omega arith);
}

genesis-InChain : All (InChain toy (toy_genesis ∷ [])) (toy_genesis ∷ [])
genesis-InChain = (record { storable = genesis-Storable; alone = (λ e. refl, tt) }, tt)

abbrev new_disk : Disk
new_disk = record { blocks_file = none; files = [] }

-- The set with one coin, that a snapshot can hold.
toy_coins-CoinFits : All CoinFits toy_utxos
toy_coins-CoinFits = (
  record {
    no_tab = Lacks-literal 9 testnet_genesis_txid refl;
    no_line_feed = Lacks-literal 10 testnet_genesis_txid refl;
    index = omega arith;
    amount = 7;
    value = refl;
    in_range = omega arith;
    height = omega arith;
    script = omega arith;
  },
  tt,
)

genesis-room :
    length (
      bytes_of
        (apply_writes
          (append_bytes [] ∷ (block_writes toy (toy_genesis ∷ []) new_disk).0)
          new_disk).blocks_file)
    ≡ 234
unfolding sha256d hash_to_display_hex bytes_to_hex append_le text_eq catalog_emplace append_records
    apply_writes make_record_bytes serialize_stored_block hash_hex header_raw_hash serialize_header
    display_hex_to_wire_bytes display_hex_to_raw_digest hex_to_bytes hex_pairs hex_value
    append_u32_le append_i32_le catalog_find scan_catalog append_transactions serialize
    validate_transaction_structure ◌-ℤ◌ serialize_inputs serialize_input append_compact_size
    serialize_outputs serialize_output append_i64_le append_u64_le
genesis-room = refl

nothing_catalogued : scan_catalog toy (some []) ≡ []
unfolding scan_catalog scan_loop
nothing_catalogued = refl

genesis-Committable : Committable toy (toy_genesis ∷ []) toy_utxos new_disk
unfolding scan_catalog scan_loop scan_end
genesis-Committable = record {
  blocks = genesis-InChain;
  counted = (refl, tt);
  coins = toy_coins-CoinFits;
  ascending = (tt, tt);
  whole = refl;
  agrees = tt;
  room = rw genesis-room (omega arith);
}

abbrev new_store : DurableChainStore
new_store = record {
  disk = new_disk;
  stats = record {
    generation = 0;
    active_height = 0;
    block_records = 0;
    block_file_bytes = 0;
    recovered = false;
    migrated_legacy = false;
  };
}

load-commit_example :
    ((commit toy (toy_genesis ∷ []) toy_utxos new_store).0 ≡ ok tt)
    × ((load toy [] (commit toy (toy_genesis ∷ []) toy_utxos new_store).1).0
        ≡ ok (toy_genesis ∷ []))
    × ((load toy [] (commit toy (toy_genesis ∷ []) toy_utxos new_store).1).1 ≡ toy_utxos)
load-commit_example = load-commit toy toy_genesis [] toy_utxos [] new_store genesis-Committable

-- The store behind the first commit, and a second one of the same chain with an empty set.
abbrev first_commit : Committed toy false (toy_genesis ∷ []) toy_utxos new_disk
first_commit = Committed-chain toy false toy_genesis [] toy_utxos new_disk genesis-Committable

abbrev first_disk : Disk
first_disk = published_disk toy first_commit.published []

second-Committable : Committable toy (toy_genesis ∷ []) [] first_disk
unfolding published_disk
second-Committable = Committed-Committable toy first_commit _ [] genesis-Committable tt tt

abbrev second_commit : Committed toy false (toy_genesis ∷ []) [] first_disk
second_commit = Committed-chain toy false toy_genesis [] [] first_disk second-Committable

-- The second one is cut off behind its first write.
second-Interrupted :
    Interrupted
      (commit_writes toy false (toy_genesis ∷ []) [] first_disk).0
      first_disk
      (apply_write (append_bytes []) first_disk)
second-Interrupted = rw second_commit.run (next stop)

abbrev first_loads : HasChain toy (toy_genesis ∷ []) toy_utxos first_disk
first_loads = published-HasChain toy first_commit.published []

commit-atomic_example :
    (load_committed toy (apply_write (append_bytes []) first_disk)
      ≡ ok (record {
        blocks = toy_genesis ∷ [];
        utxos = toy_utxos;
        generation = first_loads.0;
        height = first_loads.1;
      }))
    ⊎ HasChain toy (toy_genesis ∷ []) [] (apply_write (append_bytes []) first_disk)
commit-atomic_example =
    commit-atomic toy false toy_genesis [] [] first_disk (apply_write (append_bytes []) first_disk)
      first_commit.published.manifest second-Committable
      (manifest_there toy first_commit.published []) first_commit.published.own first_loads.2
      second-Interrupted

parse_utxo_text-make_utxo_text_example :
    parse_utxo_text (make_utxo_text toy_utxos 0 testnet_genesis_hash) 0 testnet_genesis_hash
    ≡ ok toy_utxos
parse_utxo_text-make_utxo_text_example =
    parse_utxo_text-make_utxo_text toy_utxos 0 testnet_genesis_hash toy_coins-CoinFits (tt, tt)
      (omega arith) (Lacks-literal 10 testnet_genesis_hash refl)

scan_catalog-Sound_example :
    All (Sound toy first_commit.file') (scan_catalog toy (some first_commit.file'))
scan_catalog-Sound_example = scan_catalog-Sound toy first_commit.file'

-- The record of the genesis block, twice.
abbrev genesis_record : Recorded toy toy_genesis
genesis_record = Storable-Recorded toy toy_genesis genesis-Storable

abbrev two_records : List ℕ
two_records = genesis_record.bytes ++ (genesis_record.bytes ++ [])

scan_catalog-Scanned_example : Scanned toy two_records 0 [] (scan_catalog toy (some two_records))
scan_catalog-Scanned_example = scan_catalog-Scanned toy two_records

abbrev genesis_size : ℕ
genesis_size = length genesis_record.framed.payload

second-RecordBehind : RecordBehind toy two_records 0 (length genesis_record.bytes)
second-RecordBehind =
    let offset : 0 + (block_record_header_size + genesis_size) ≡ length genesis_record.bytes =
      omega (arith, genesis_record.framed.size) in
    subst (RecordBehind toy two_records 0) offset (
      further {o = 0}
        (record_ahead-Framed toy toy_genesis genesis_record.bytes [] (genesis_record.bytes ++ [])
          genesis_record.framed)
        here)

genesis_hashed : hash_hex toy toy_genesis.block.header ≡ ok testnet_genesis_hash
unfolding hash_hex header_raw_hash serialize_header display_hex_to_wire_bytes
    display_hex_to_raw_digest hex_to_bytes hex_pairs hex_value append_u32_le append_i32_le
    hash_to_display_hex bytes_to_hex sha256d
genesis_hashed = refl

scan_catalog-Finds_example : Finds testnet_genesis_hash (scan_catalog toy (some two_records))
scan_catalog-Finds_example =
    scan_catalog-Finds toy two_records (length genesis_record.bytes) genesis_size
      second-RecordBehind
      (record_ahead-Framed toy toy_genesis genesis_record.bytes genesis_record.bytes []
        genesis_record.framed)
      (read_record_at-Framed toy toy_genesis genesis_record.bytes genesis_record.bytes []
        genesis_record.framed genesis_record.back)
      genesis_hashed

-- The first byte of a record is all that a crash has left. The block can no longer be stored.
abbrev torn_disk : Disk
torn_disk = record { blocks_file = some (66 ∷ []); files = [] }

torn_tail-refuses : (commit_writes toy false (toy_genesis ∷ []) [] torn_disk).1 ≡ err block_missing
unfolding commit_behind publish manifest_for_generation index_entries record_ahead pread_all
    read_record_header append_transactions serialize validate_transaction_structure ◌-ℤ◌
    serialize_input serialize_inputs serialize_output serialize_outputs append_compact_size
    append_i64_le append_u64_le append_u32_le append_i32_le header_raw_hash serialize_header
    display_hex_to_wire_bytes display_hex_to_raw_digest hex_to_bytes hex_pairs hex_value scan_loop
    catalog_find check_inputs check_outputs commit_writes sha256d hash_to_display_hex bytes_to_hex
    append_le text_eq catalog_emplace append_records apply_writes make_record_bytes
    serialize_stored_block scan_catalog hash_hex
torn_tail-refuses = refl
