-- ===== src/StoredBlocks/RoundTrip.antt =====
-- src/storage.cpp and src/net.cpp: a block that is written and read back.
use binarycoin.Base.{
  ==_iff, All, Error, List, [], append_assoc, arith, false, length, ltb, ltb-false, ok, refl,
  transaction_over_limit, ℕ, ◌++◌, ◌<◌, ◌^◌, ◌||◌, ◌∙◌, ◌∷◌, ◌≡◌, ◌≤◌,
}
use binarycoin.Block.{StoredBlock, deserialize_header}
use binarycoin.Block.Header.{FitsHeader, deserialize_header-serialize_header}
use binarycoin.Codec.{append_compact_size, append_u64_le, read_bytes}
use binarycoin.Codec.Read.{Ahead, Ahead-start_nil}
use binarycoin.Codec.Reads.{
  Ahead-end, Ahead-remaining, Reads, bytes_Reads, compact_size_Reads, u64_Reads,
}
use binarycoin.Codec.Write.{append_compact_size_lem, append_u64_le_lem, compact_bytes, u64_bytes}
use binarycoin.StoredBlocks.{
  append_transactions, deserialize_stored_block, read_block_record, read_transactions,
  serialize_stored_block,
}
use binarycoin.Tx.{Transaction, validate_transaction_structure}
use binarycoin.Tx.Serialize.{serialize}
use binarycoin.Tx.Serialize.Layout.{TxFits, wire_bytes}
use binarycoin.Tx.Serialize.RoundTrip.{deserialize-serialize}

-- What a transaction needs to go through the record of a block.
pub record TransactionFits (t : Transaction) : Type 0 where
  pub fields : TxFits t
  pub valid : validate_transaction_structure t ≡ ok tt
  pub size : (bytes : List ℕ) → serialize t ≡ ok bytes → length bytes ≤ 4_000_000

pub record BlockFits (stored : StoredBlock) : Type 0 where
  pub height : stored.height < 2 ^ 64
  pub header : FitsHeader stored.block.header
  pub count : length stored.block.transactions ≤ 100_000
  pub transactions : All TransactionFits stored.block.transactions

-- The transactions of a record, each behind its size.
unfoldable pub transactions_bytes : List Transaction → List ℕ → List ℕ
transactions_bytes [] rest = rest
transactions_bytes (t ∷ ts) rest =
    let bytes = wire_bytes (serialize t) in
    compact_bytes (length bytes) ++ (bytes ++ transactions_bytes ts rest)

pub append_transactions_lem :
    (ts : List Transaction) (out : List ℕ)
    → All TransactionFits ts
    → (out' : List ℕ) × (append_transactions ts out ≡ ok out')
      × ((rest : List ℕ) → out' ++ rest ≡ out ++ transactions_bytes ts rest)
unfolding append_transactions transactions_bytes
append_transactions_lem [] out h = (out, refl, λ rest. refl)
append_transactions_lem (t ∷ ts) out (ht, hs) =
    let (bytes, e, _) = deserialize-serialize t ht.fields ht.valid in
    let (out', e', s) =
      append_transactions_lem ts (append_compact_size out (length bytes) ++ bytes) hs in
    (out', rw e e', λ rest. rw e (s rest ∙ simp (append_compact_size_lem, append_assoc)))

fits_limit :
    (size left : ℕ) → size ≤ 4_000_000 → size ≤ left → (ltb 4_000_000 size || ltb left size) ≡ false
fits_limit size left h k = ground arith

pub read_transactions_lem :
    (error : Error) (ts : List Transaction) (input rest : List ℕ) (o : ℕ)
    → All TransactionFits ts
    → Ahead input o (transactions_bytes ts rest)
    → Reads (read_transactions error (length ts) input o) input rest ts
unfolding read_transactions transactions_bytes
read_transactions_lem error [] input rest o h a = (o, refl, a)
read_transactions_lem error (t ∷ ts) input rest o (ht, hs) a =
    let (bytes, e, back) = deserialize-serialize t ht.fields ht.valid in
    let small = ht.size bytes e in
    let (o1, e1, a1) =
      compact_size_Reads input _ o (length bytes) (omega (arith, small)) (rw e at a) in
    let fits = fits_limit (length bytes) _ small (Ahead-remaining input bytes _ o1 a1) in
    let (o2, e2, a2) = bytes_Reads input _ o1 bytes a1 in
    let (o3, e3, a3) = read_transactions_lem error ts input rest o2 hs a2 in
    (o3, rw (e1, fits, e2, back, e3), a3)

read_bytes_80 :
    (input bs rest : List ℕ) (o : ℕ)
    → length bs ≡ 80
    → Ahead input o (bs ++ rest)
    → Reads (read_bytes input o 80) input rest bs
read_bytes_80 input bs rest o h a = let reads = bytes_Reads input rest o bs a in rw h at reads

-- The record of a block, whose header is written as `header`.
record_bytes : List ℕ → StoredBlock → List ℕ → List ℕ
record_bytes header stored rest =
    u64_bytes stored.height
    ++ (header
        ++ (compact_bytes (length stored.block.transactions)
            ++ transactions_bytes stored.block.transactions rest))

record_bytes-read :
    (header input rest : List ℕ) (stored : StoredBlock) (o : ℕ)
    → BlockFits stored
    → length header ≡ 80
    → deserialize_header header ≡ ok stored.block.header
    → Ahead input o (record_bytes header stored rest)
    → Reads (read_block_record input o) input rest stored
unfolding record_bytes read_block_record
record_bytes-read header input rest stored o h size back a =
    let ts = stored.block.transactions in
    let (o1, e1, a1) = u64_Reads input _ o stored.height h.height a in
    let (o2, e2, a2) = read_bytes_80 input header _ o1 size a1 in
    let (o3, e3, a3) = compact_size_Reads input _ o2 (length ts) (omega (arith, h.count)) a2 in
    let (o4, e4, a4) =
      read_transactions_lem transaction_over_limit ts input rest o3 h.transactions a3 in
    (o4, rw (e1, e2, back, e3, ltb-false 100_000 (length ts) h.count, e4), a4)

-- A block that fits is written, and read back wherever its bytes stand ahead of an offset.
pub read_block_record_lem :
    (stored : StoredBlock)
    → BlockFits stored
    → (bytes : List ℕ) × (serialize_stored_block stored ≡ ok bytes)
      × ((input rest : List ℕ) (o : ℕ)
          → Ahead input o (bytes ++ rest)
          → Reads (read_block_record input o) input rest stored)
unfolding serialize_stored_block record_bytes
read_block_record_lem stored h =
    let ts = stored.block.transactions in
    let (header, e, size, back) =
      deserialize_header-serialize_header stored.block.header h.header in
    let start = append_compact_size (append_u64_le [] stored.height ++ header) (length ts) in
    let (out, written, s) = append_transactions_lem ts start h.transactions in
    let layout : (rest : List ℕ) → out ++ rest ≡ record_bytes header stored rest =
      λ rest. s rest ∙ simp (append_compact_size_lem, append_u64_le_lem, append_assoc) in
    (
      out,
      rw e written,
      λ input rest o a.
          record_bytes-read header input rest stored o h size back (rw (layout rest) at a),
    )

-- A stored block whose header and transactions fit their formats, with at most 100,000 transactions
-- of at most 4,000,000 bytes each, is serialized, and read back unchanged from the bytes, to their
-- last one.
pub deserialize_stored_block-serialize_stored_block :
    (stored : StoredBlock)
    → BlockFits stored
    → (bytes : List ℕ) × (serialize_stored_block stored ≡ ok bytes)
      × (deserialize_stored_block bytes ≡ ok stored)
unfolding deserialize_stored_block
deserialize_stored_block-serialize_stored_block stored h =
    let (bytes, e, reads) = read_block_record_lem stored h in
    let (o, read, a) = reads bytes [] 0 (Ahead-start_nil bytes) in
    (bytes, e, rw (read, (==_iff o (length bytes)).1 (Ahead-end bytes o a)))
