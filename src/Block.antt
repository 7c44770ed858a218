-- ===== src/Block.antt =====
-- src/block.hpp and src/block.cpp: block headers, the genesis block and mining.
pub mod Header
pub mod Mining
pub mod Mined
use binarycoin.Base.{
  ◌==◌, if◌then◌else◌, length, ◌+ℤ◌, ◌-ℤ◌, ℤ, pos, pos_part, ltb_ℤ, header_size, header_trailing,
  genesis_inconsistent, fees_outside_money, reward_overflow, exhausted_nonces, out_of_fuel, Result,
  ok, err, ◌>>=◌, ◌>>◌, throw_if, Text, codes, text_eq, ℕ, zero, suc, ◌+◌, ◌%◌, ◌^◌, max, true,
  false, not, List, [], ◌∷◌, ◌++◌,
}
use binarycoin.Amount.{
  Amount, initial_subsidy, max_money, testnet_halving_interval, money_range, block_subsidy,
}
use binarycoin.Hash.{hash_to_display_hex, display_hex_to_wire_bytes, wire_bytes_to_display_hex}
use binarycoin.Hash.Crypto.{Crypto, sha256d}
use binarycoin.Codec.{append_u32_le, append_i32_le, read_u32_le, read_i32_le, read_bytes}
use binarycoin.Tx.{Transaction, null_txid}
use binarycoin.Tx.Serialize.{txid_of}
use binarycoin.Tx.Coinbase.{make_testnet_coinbase}
use binarycoin.Script.{make_p2pk_script}
use binarycoin.Merkle.{merkle_root_hex}
use binarycoin.Pow.{check_proof_of_work}

pub record BlockHeader : Type 0 where
  pub version : ℤ
  pub previous_hash : Text
  pub merkle_root : Text
  pub time : ℕ
  pub bits : ℕ
  pub nonce : ℕ

pub record Block : Type 0 where
  pub header : BlockHeader
  pub transactions : List Transaction

pub record StoredBlock : Type 0 where
  pub height : ℕ
  pub block : Block

abbrev pub testnet_genesis_bits : ℕ
testnet_genesis_bits = 0x1f00_ffff

-- The build without BINARYCOIN_FAST_TESTS.
abbrev pub testnet_bits : ℕ
testnet_bits = 0x1f00_ffff

abbrev pub testnet_genesis_hash : Text
testnet_genesis_hash = codes "00007e7bc2b6d593d9bacb54cd32bacaf9a99ff86adc9ac6fbe36134fff1c372"

abbrev pub testnet_genesis_merkle : Text
testnet_genesis_merkle = codes "2cf10845810fce4b828950111a45d66e33d8649db1265f088cf4607789ae1442"

abbrev pub testnet_genesis_txid : Text
testnet_genesis_txid = codes "2cf10845810fce4b828950111a45d66e33d8649db1265f088cf4607789ae1442"

unfoldable pub serialize_header : BlockHeader → Result (List ℕ)
serialize_header header = do
  previous_wire ← display_hex_to_wire_bytes header.previous_hash
  merkle_wire ← display_hex_to_wire_bytes header.merkle_root
  let hashes = (append_i32_le [] header.version ++ previous_wire) ++ merkle_wire
  let output =
      append_u32_le (append_u32_le (append_u32_le hashes header.time) header.bits) header.nonce
  throw_if (not (length output == 80)) header_size
  ok output

pub deserialize_header : List ℕ → Result BlockHeader
deserialize_header bytes = do
  throw_if (not (length bytes == 80)) header_size
  (version, offset1) ← read_i32_le bytes 0
  (previous_wire, offset2) ← read_bytes bytes offset1 32
  (merkle_wire, offset3) ← read_bytes bytes offset2 32
  (time, offset4) ← read_u32_le bytes offset3
  (bits, offset5) ← read_u32_le bytes offset4
  (nonce, offset6) ← read_u32_le bytes offset5
  throw_if (not (offset6 == length bytes)) header_trailing
  ok (record {
    version = version;
    previous_hash = wire_bytes_to_display_hex previous_wire;
    merkle_root = wire_bytes_to_display_hex merkle_wire;
    time = time;
    bits = bits;
    nonce = nonce;
  })

abbrev pub genesis_public_key : List ℕ
genesis_public_key =
    0x02 ∷ 0x79 ∷ 0xbe ∷ 0x66 ∷ 0x7e ∷ 0xf9 ∷ 0xdc ∷ 0xbb ∷ 0xac ∷ 0x55 ∷ 0xa0 ∷ 0x62 ∷ 0x95 ∷ 0xce
    ∷ 0x87 ∷ 0x0b ∷ 0x07 ∷ 0x02 ∷ 0x9b ∷ 0xfc ∷ 0xdb ∷ 0x2d ∷ 0xce ∷ 0x28 ∷ 0xd9 ∷ 0x59 ∷ 0xf2
    ∷ 0x81 ∷ 0x5b ∷ 0x16 ∷ 0xf8 ∷ 0x17 ∷ 0x98 ∷ []

module _ (c : Crypto) where
  unfoldable pub header_raw_hash : BlockHeader → Result (List ℕ)
  header_raw_hash header = do bytes ← serialize_header header; ok (sha256d c bytes)

  unfoldable pub hash_hex : BlockHeader → Result Text
  hash_hex header = do digest ← header_raw_hash header; ok (hash_to_display_hex digest)

  unfoldable pub testnet_genesis_block : Result Block
  testnet_genesis_block = do
    script ← make_p2pk_script c genesis_public_key
    coinbase ← make_testnet_coinbase 0 (pos initial_subsidy) script
    let header : BlockHeader = record {
      version = pos 1;
      previous_hash = null_txid;
      merkle_root = testnet_genesis_merkle;
      time = 1_784_699_218;
      bits = testnet_genesis_bits;
      nonce = 180_004;
    }
    txid ← txid_of c coinbase
    throw_if (not (text_eq txid testnet_genesis_txid)) genesis_inconsistent
    root ← merkle_root_hex c (coinbase ∷ [])
    throw_if (not (text_eq root testnet_genesis_merkle)) genesis_inconsistent
    hash ← hash_hex header
    throw_if (not (text_eq hash testnet_genesis_hash)) genesis_inconsistent
    ok (record { header = header; transactions = coinbase ∷ [] })

  -- One failed attempt: the next nonce, or the next second when the nonces are used up.
  pub next_attempt : BlockHeader → Result BlockHeader
  next_attempt header =
      if header.nonce == 0xffff_ffff
      then if header.time == 0xffff_ffff
        then err exhausted_nonces
        else ok (record header { time = header.time + 1; nonce = 0 })
      else ok (record header { nonce = header.nonce + 1 })

  -- `for (;;)`, with fuel.
  unfoldable pub mine_loop : ℕ → BlockHeader → Result BlockHeader
  mine_loop zero header = err out_of_fuel
  mine_loop (suc fuel) header = do
    digest ← header_raw_hash header
    found ← check_proof_of_work digest header.bits
    elim found [ true ↦ ok header | false ↦ next_attempt header >>= λ next. mine_loop fuel next ]

  -- The clock is the argument `now`, in seconds.
  unfoldable pub mine_testnet_block :
      ℕ → ℤ → ℕ → Text → ℕ → ℕ → List ℕ → List Transaction → Amount → Result Block
  mine_testnet_block fuel now height previous_hash previous_time bits script transactions fees = do
    throw_if (not (money_range fees)) fees_outside_money
    subsidy ← block_subsidy height testnet_halving_interval
    throw_if (ltb_ℤ (pos max_money -ℤ fees) subsidy) reward_overflow
    coinbase ← make_testnet_coinbase height (subsidy +ℤ fees) script
    let now_u32 = pos_part now % 2 ^ 32
    root ← merkle_root_hex c (coinbase ∷ transactions)
    header ← mine_loop fuel (record {
      version = pos 1;
      previous_hash = previous_hash;
      merkle_root = root;
      time = max ((previous_time + 1) % 2 ^ 32) now_u32;
      bits = bits;
      nonce = 0;
    })
    ok (record { header = header; transactions = coinbase ∷ transactions })
