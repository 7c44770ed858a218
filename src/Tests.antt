-- ===== src/Tests.antt =====
-- Data that the examples share: a hash function of the right shape under which the compiled genesis
-- block is consistent, and small transactions and blocks.
pub mod Blocks
pub mod Branches
pub mod Transactions
pub mod Pools
pub mod Formats
pub mod Mining
pub mod Peers
pub mod Nodes
pub mod Addresses
pub mod Storage
pub mod Messages
pub mod Syncing
use binarycoin.Base.{
  ◌==◌, if◌then◌else◌, ==_iff, Bool-cases, length, All, pos, text_eq, IsByte, ℕ, suc, ◌%◌, ◌≡◌,
  refl, ap, ◌∙◌, inl, inr, true, false, some, List, [], ◌∷◌, ◌++◌, arith,
}
use binarycoin.Hash.Crypto.{Crypto}
use binarycoin.Tx.{Transaction, null_txid}
use binarycoin.Utxo.{UtxoSet}
use binarycoin.Block.{
  StoredBlock, testnet_genesis_bits, testnet_bits, testnet_genesis_hash, testnet_genesis_merkle,
  testnet_genesis_txid, genesis_public_key,
}

abbrev pub genesis_digest : List ℕ
genesis_digest =
    114 ∷ 195 ∷ 241 ∷ 255 ∷ 52 ∷ 97 ∷ 227 ∷ 251 ∷ 198 ∷ 154 ∷ 220 ∷ 106 ∷ 248 ∷ 159 ∷ 169 ∷ 249
    ∷ 202 ∷ 186 ∷ 50 ∷ 205 ∷ 84 ∷ 203 ∷ 186 ∷ 217 ∷ 147 ∷ 213 ∷ 182 ∷ 194 ∷ 123 ∷ 126 ∷ 0 ∷ 0 ∷ []

abbrev pub coinbase_digest : List ℕ
coinbase_digest =
    66 ∷ 20 ∷ 174 ∷ 137 ∷ 119 ∷ 96 ∷ 244 ∷ 140 ∷ 8 ∷ 95 ∷ 38 ∷ 177 ∷ 157 ∷ 100 ∷ 216 ∷ 51 ∷ 110
    ∷ 214 ∷ 69 ∷ 26 ∷ 17 ∷ 80 ∷ 137 ∷ 130 ∷ 75 ∷ 206 ∷ 15 ∷ 129 ∷ 69 ∷ 8 ∷ 241 ∷ 44 ∷ []

abbrev pub low_bytes : List ℕ → List ℕ
low_bytes [] = []
low_bytes (b ∷ bs) = (b % 256) ∷ low_bytes bs

abbrev pub toy_digest : List ℕ → List ℕ
toy_digest bytes =
    if length bytes == 32
    then low_bytes bytes
    else if length bytes == 80
    then genesis_digest
    else coinbase_digest

length-low_bytes : (bs : List ℕ) → length (low_bytes bs) ≡ length bs
length-low_bytes [] = refl
length-low_bytes (b ∷ bs) = ap suc (length-low_bytes bs)

low_bytes_bytes : (bs : List ℕ) → All IsByte (low_bytes bs)
low_bytes_bytes [] = tt
low_bytes_bytes (b ∷ bs) = (omega arith, low_bytes_bytes bs)

pub toy_digest_size : (bs : List ℕ) → length (toy_digest bs) ≡ 32
toy_digest_size bs = elim (Bool-cases (length bs == 32)) [
  | inl whole ↦ rw whole (length-low_bytes bs ∙ (==_iff (length bs) 32).0 whole)
  | inr other ↦ elim (Bool-cases (length bs == 80)) [
    | inl block ↦ rw (other, block) refl
    | inr data_bytes ↦ rw (other, data_bytes) refl
  ]
]

pub toy_digest_bytes : (bs : List ℕ) → All IsByte (toy_digest bs)
toy_digest_bytes bs = elim (Bool-cases (length bs == 32)) [
  | inl whole ↦ rw whole (low_bytes_bytes bs)
  | inr other ↦ elim (Bool-cases (length bs == 80)) [
    | inl block ↦ rw (other, block) (omega arith)
    | inr data_bytes ↦ rw (other, data_bytes) (omega arith)
  ]
]

-- A key is its public key, and signs with its own bytes.
abbrev pub toy_key : List ℕ
toy_key = genesis_public_key

abbrev pub toy : Crypto
toy = record {
  digest = toy_digest;
  digest_size = toy_digest_size;
  digest_bytes = toy_digest_bytes;
  pubkey_parses = λ key. true;
  parse_der = λ bytes. some bytes;
  normalize = λ signature. (false, signature);
  verify = λ signature message key. text_eq signature message;
  sign = λ message secret. some message;
  serialize_der = λ signature. some signature;
  public_key = λ secret. secret;
}

abbrev pub toy_script : List ℕ
toy_script = 33 ∷ (toy_key ++ 0xac ∷ [])

-- A coinbase with no more than the program looks at.
abbrev pub toy_coinbase : Transaction
toy_coinbase = record {
  version = pos 1;
  inputs =
      record {
        previous_output = record { txid = null_txid; index = 0xffff_ffff };
        script_sig = 0 ∷ [];
        sequence = 0xffff_ffff;
      }
      ∷ [];
  outputs = record { value = pos 5_000_000_000; script_pubkey = toy_script } ∷ [];
  lock_time = 0;
}

abbrev pub toy_genesis : StoredBlock
toy_genesis = record {
  height = 0;
  block = record {
    header = record {
      version = pos 1;
      previous_hash = null_txid;
      merkle_root = testnet_genesis_merkle;
      time = 1_784_699_218;
      bits = testnet_genesis_bits;
      nonce = 180_004;
    };
    transactions = toy_coinbase ∷ [];
  };
}

abbrev pub toy_second : StoredBlock
toy_second = record {
  height = 1;
  block = record {
    header = record {
      version = pos 1;
      previous_hash = testnet_genesis_hash;
      merkle_root = testnet_genesis_merkle;
      time = 1_784_699_219;
      bits = testnet_bits;
      nonce = 0;
    };
    transactions = toy_coinbase ∷ [];
  };
}

-- A transaction that spends a coin of the toy key and leaves a fee of 1.
abbrev pub toy_transaction : Transaction
toy_transaction = record {
  version = pos 1;
  inputs =
      record {
        previous_output = record { txid = testnet_genesis_txid; index = 0 };
        script_sig = 33 ∷ (coinbase_digest ++ 1 ∷ []);
        sequence = 0xffff_ffff;
      }
      ∷ [];
  outputs = record { value = pos 6; script_pubkey = toy_script } ∷ [];
  lock_time = 0;
}

abbrev pub toy_utxos : UtxoSet
toy_utxos =
    (
      record { txid = testnet_genesis_txid; index = 0 },
      record {
        output = record { value = pos 7; script_pubkey = toy_script };
        height = 1;
        coinbase = false;
      },
    )
    ∷ []
