-- ===== src/Lib.antt =====
-- BinaryCoin: a model of the consensus core of the testnet node, in the order in which the program
-- builds on itself.
--
-- The parts and how they interact. A transaction (Tx) is checked, hashed and written as bytes (Codec,
-- Hash, Tx/Serialize); its inputs are unlocked by scripts and signatures (Script, Hash/Crypto). The
-- unspent outputs (Utxo) are the state that transactions change. A block (Block) is a header over a
-- Merkle tree (Merkle) of transactions with proof of work (Pow). The chain (Chain) verifies blocks,
-- rebuilds the unspent outputs from them and is kept in memory and on disk (Chain/Node). The mempool
-- (Mempool) holds transactions on top of the chain's unspent outputs. Fees, the ban list and the peer
-- store stand beside them.
--
--   Base         booleans, integers, lists, texts and results; every `throw` of the modelled code is a
--                constructor of Error, and a call returns a Result
--   Hash         src/hash.cpp; Hash/Crypto is src/key.cpp and what the program takes from OpenSSL and
--                libsecp256k1, the fields of the record Crypto, which definitions take as a parameter
--   Codec        src/serialize.cpp
--   Amount       src/amount.hpp
--   AmountText   src/wallet_amount.cpp
--   Tx           src/transaction.cpp: data and checks, Tx/Serialize (Transaction::serialize,
--                deserialize, txid), Tx/Coinbase (encode_script_number, make_testnet_coinbase)
--   Bech32       src/bech32.cpp
--   Script       src/script.cpp
--   Merkle       src/merkle.cpp
--   Pow          src/pow.cpp
--   Utxo         src/utxo.cpp; build_utxo_set stands in Chain
--   Block        src/block.cpp
--   Chain        src/chain.cpp: verify_blocks and issued_supply; Chain/Node is the class TestnetChain,
--                with activate_if_more_work in Chain/Node/Activation and generate in
--                Chain/Node/Generation
--   StoredBlocks src/storage.cpp and src/net.cpp: a block as the bytes that are stored or sent
--   Storage      src/storage.cpp: Storage/Lines and Storage/Texts (the index, the snapshot and the
--                manifest), Storage/Records (the block file and its scan), Storage/Disk (files and
--                the writes that change them), Storage/Store and Storage/Store/Commit
--                (DurableChainStore)
--   Net          src/net.cpp: Net/Frame (the frame of a message), Net/Version, Net/Inventory,
--                Net/Headers, Net/Blocks (payloads), Net/Items (the loops that they share),
--                Net/Locator (make_block_locator and headers_after_locator), Net/Sync
--                (sync_from_peer: headers, Net/Sync/Bodies, Net/Sync/Switch)
--   BranchStore  src/branch_store.cpp
--   Mempool      src/mempool.cpp
--   Fees         src/fees.cpp
--   BanStore     src/ban_store.cpp
--   PeerStore    src/peer_store.cpp
--   Tests        concrete data, under a hash function with which the compiled genesis block is
--                consistent, and one application of every theorem of the list below
--
-- State. A function that changes an object takes its record and returns the result with the new
-- record, so that what a throw leaves behind is a value: apply_transaction returns the set beside its
-- result, and the operations of TestnetChain and Mempool return the object. Numbers are natural
-- numbers, with `% 2 ^ w` where the source can wrap; amounts are integers. The clock is an argument.
-- UtxoSet is a list in the ascending order of OutPointLess, with the lookups of std::map.
--
-- The chain takes its storage as the record Storage of operations. DurableChainStore works on a Disk:
-- the bytes of the block file and the files of the chainstate directory. commit_writes gives the
-- durable changes of a commit in their order, and Storage.Store.Interrupted is the relation between a
-- row of changes and the disks that a crash within it leaves.
--
-- Bounds and fuel. The Merkle loop runs on the length of its level. The search for a nonce runs on
-- fuel, for which the number of times and nonces that are left is enough. Script numbers take eight
-- rounds, one for each byte of a 64-bit number. The loop of a block locator ends at 101 hashes, which
-- is its fuel. The scan of the block file runs on the number of its bytes, of which
-- each round takes 48 at least. All other loops are over lists.
--
-- Not modelled: sockets, threads, command lines and logging, which are input and output; RPC and JSON;
-- the wallets and the files of keys, whose core is calls of OpenSSL and libsecp256k1; of src/net.cpp,
-- the addresses of peers, the handlers of a session and the messages that may stand between the answers
-- to sync_from_peer; of src/chain.cpp, TestnetChain::reindex; the files of the ban list, the peer store
-- and the side branches; the texts of error messages.
pub mod Base
pub mod Hash
pub mod Codec
pub mod Amount
pub mod AmountText
pub mod Tx
pub mod Bech32
pub mod Script
pub mod Merkle
pub mod Pow
pub mod Utxo
pub mod Block
pub mod Chain
pub mod BranchStore
pub mod Mempool
pub mod Fees
pub mod BanStore
pub mod PeerStore
pub mod Net
pub mod Tests
pub mod StoredBlocks
pub mod Storage
