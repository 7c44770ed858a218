-- ===== src/Net/Blocks/RoundTrip.antt =====
-- src/net.cpp: blocks and transactions that are sent and read.
use binarycoin.Base.{
  ==_iff, >>-eq-ok, All, All-map, Bool, Bool-cases, List, [], ap, append-nil, append_assoc, arith,
  begin_outside_chain, bind_ok, drop, err, false, inl, inr, length, length-drop, length-take_inside,
  ltb, ltb-false, ltb→lt, min, not, not_ltb→le, ok, ok-injective, payload_over_limit,
  payload_too_large, refl, sym, take, throw_if, too_many_items_sent, too_many_transactions,
  trailing_payload, transaction_over_limit, ℕ, ◌++◌, ◌-◌, ◌<◌, ◌||◌, ◌∙◌, ◌∷◌, ◌≡◌, ◌≤◌, ◌⊎◌,
}
use binarycoin.Block.{StoredBlock}
use binarycoin.Codec.{append_compact_size}
use binarycoin.Codec.Reads.{Ahead-end, Ahead-remaining, bytes_Reads, compact_size_Reads}
use binarycoin.Codec.Write.{append_compact_size_lem, compact_bytes}
use binarycoin.Net.{max_blocks_per_response, max_p2p_payload}
use binarycoin.Net.Blocks.{
  append_block_record, deserialize_stored_blocks, deserialize_transactions, read_sent_block,
  serialize_stored_blocks, serialize_transactions,
}
use binarycoin.Net.Items.{write_counted, write_items}
use binarycoin.Net.Items.RoundTrip.{Carries, read_counted-write_counted}
use binarycoin.StoredBlocks.{serialize_stored_block}
use binarycoin.StoredBlocks.RoundTrip.{
  BlockFits, TransactionFits, append_transactions_lem,
  deserialize_stored_block-serialize_stored_block, read_transactions_lem, transactions_bytes,
}
use binarycoin.Tx.{Transaction}

-- A block that a message can hold.
pub record Sendable (stored : StoredBlock) : Type 0 where
  pub fits : BlockFits stored
  pub small :
      (bytes : List ℕ) → serialize_stored_block stored ≡ ok bytes → length bytes ≤ max_p2p_payload

record_fits :
    (size left : ℕ)
    → size ≤ max_p2p_payload
    → size ≤ left
    → (ltb max_p2p_payload size || ltb left size) ≡ false
record_fits size left h k = ground arith

block-Carries :
    (stored : StoredBlock) → Sendable stored → Carries append_block_record read_sent_block stored
unfolding append_block_record read_sent_block
block-Carries stored h =
    let (bs, e, back) = deserialize_stored_block-serialize_stored_block stored h.fits in
    let small = h.small bs e in
    record {
      bytes = compact_bytes (length bs) ++ bs;
      written = λ out. bind_ok _ _ e (ap ok (simp (append_compact_size_lem, append_assoc)));
      reads = λ input rest o a.
          let (o1, e1, a1) =
            compact_size_Reads input (bs ++ rest) o (length bs) (omega (arith, small))
              (rw (append_assoc (compact_bytes (length bs)) bs rest) at a) in
          let (o2, e2, a2) = bytes_Reads input rest o1 bs a1 in
          let fits = record_fits (length bs) _ small (Ahead-remaining input bs rest o1 a1) in
          (
            o2,
            bind_ok _ _ e1 (
                bind_ok _ _ (ap (λ (b : Bool). throw_if b payload_over_limit) fits)
                  (bind_ok _ _ e2 (bind_ok _ _ back refl))),
            a2,
          );
    }

-- The bytes are the records of the blocks, one behind another: the size of a stored block, and the
-- stored block.
abbrev pub AreRecordsOf : List StoredBlock → List ℕ → Type 0
AreRecordsOf [] bytes = bytes ≡ []
AreRecordsOf (stored ∷ rest) bytes =
    (record_bytes : List ℕ) × (behind : List ℕ) × (serialize_stored_block stored ≡ ok record_bytes)
    × AreRecordsOf rest behind
    × (bytes ≡ compact_bytes (length record_bytes) ++ (record_bytes ++ behind))

-- The count of the blocks, and their records.
abbrev pub IsPayloadOf : List StoredBlock → List ℕ → Type 0
IsPayloadOf blocks payload =
    (records : List ℕ) × AreRecordsOf blocks records
    × (payload ≡ compact_bytes (length blocks) ++ records)

block_records-written :
    (blocks : List StoredBlock) (out : List ℕ)
    → All Sendable blocks
    → (records : List ℕ) × AreRecordsOf blocks records
      × (write_items append_block_record out blocks ≡ ok (out ++ records))
unfolding write_items append_block_record
block_records-written [] out h = ([], refl, ap ok (sym (append-nil out)))
block_records-written (stored ∷ rest) out (h, hs) =
    let (bs, e, _) = deserialize_stored_block-serialize_stored_block stored h.fits in
    let out' = append_compact_size out (length bs) ++ bs in
    let (behind, laid, written) = block_records-written rest out' hs in
    (
      compact_bytes (length bs) ++ (bs ++ behind),
      (bs, behind, e, laid, refl),
      bind_ok _ _ (bind_ok _ _ e refl)
          (written ∙ ap ok (simp (append_compact_size_lem, append_assoc))),
    )

-- Transactions that fit their formats, at most 100,000 of them, of at most 4,000,000 bytes each, are
-- written as a payload, and read back unchanged.
pub deserialize_transactions-serialize_transactions :
    (transactions : List Transaction)
    → All TransactionFits transactions
    → length transactions ≤ 100_000
    → (bytes : List ℕ) × (serialize_transactions transactions ≡ ok bytes)
      × (deserialize_transactions bytes ≡ ok transactions)
unfolding serialize_transactions deserialize_transactions
deserialize_transactions-serialize_transactions ts h small =
    let count = length ts in
    let (out, e, s) = append_transactions_lem ts (append_compact_size [] count) h in
    let layout : out ≡ compact_bytes count ++ transactions_bytes ts [] =
      sym (append-nil out) ∙ s [] ∙ rw (append_compact_size_lem [] count) refl in
    let (o1, e1, a1) =
      compact_size_Reads out _ 0 count (omega (arith, small))
        (record { within = omega arith; left = layout }) in
    let (o2, e2, a2) = read_transactions_lem transaction_over_limit ts out [] o1 h a1 in
    (
      out,
      e,
      bind_ok _ _ e1 (
          bind_ok _ _
            (ap (λ (b : Bool). throw_if b too_many_transactions) (ltb-false 100_000 count small))
            (bind_ok _ _ e2 (
              bind_ok _ _
                (ap (λ (b : Bool). throw_if (not b) trailing_payload)
                  ((==_iff o2 (length out)).1 (Ahead-end out o2 a2)))
                refl))),
    )

module _ (blocks : List StoredBlock) (begin_index maximum_count : ℕ) where
  -- What is sent.
  abbrev pub sent_blocks : List StoredBlock
  sent_blocks = take (min maximum_count (length blocks - begin_index)) (drop begin_index blocks)

  length-sent_blocks : length sent_blocks ≡ min maximum_count (length blocks - begin_index)
  length-sent_blocks =
      length-take_inside (min maximum_count (length blocks - begin_index)) (drop begin_index blocks)
        (omega (arith, length-drop begin_index blocks))

  sent_written :
      maximum_count ≤ max_blocks_per_response
      → All Sendable sent_blocks
      → (bytes : List ℕ) × (write_items append_block_record
            (append_compact_size [] (min maximum_count (length blocks - begin_index)))
            sent_blocks
          ≡ ok bytes)
        × (deserialize_stored_blocks bytes ≡ ok sent_blocks)
  unfolding deserialize_stored_blocks write_counted
  sent_written few h =
      let small : length sent_blocks ≤ max_blocks_per_response =
        omega (arith, length-sent_blocks, few) in
      let (bytes, e, back) =
        read_counted-write_counted append_block_record read_sent_block max_blocks_per_response
          too_many_items_sent too_many_items_sent sent_blocks
          (All-map Sendable (Carries append_block_record read_sent_block) sent_blocks block-Carries
            h)
          small (omega arith) in
      let (_, written) =
        >>-eq-ok (ltb max_blocks_per_response (length sent_blocks)) too_many_items_sent _ e in
      (
        bytes,
        ap (λ (n : ℕ). write_items append_block_record (append_compact_size [] n) sent_blocks)
              (sym length-sent_blocks)
            ∙ written,
        back,
      )

  -- From an index within the chain, at most 128 blocks that can be sent stand in a payload of their
  -- count and their records. Where it is within the limit, it is what is written, and it is read back
  -- as the blocks; where it is longer, writing throws.
  pub deserialize_stored_blocks-serialize_stored_blocks :
      begin_index ≤ length blocks
      → maximum_count ≤ max_blocks_per_response
      → All Sendable sent_blocks
      → (payload : List ℕ) × IsPayloadOf sent_blocks payload
        × (((length payload ≤ max_p2p_payload)
              × (serialize_stored_blocks blocks begin_index maximum_count ≡ ok payload)
              × (deserialize_stored_blocks payload ≡ ok sent_blocks))
            ⊎ ((max_p2p_payload < length payload)
                × (serialize_stored_blocks blocks begin_index maximum_count
                    ≡ err payload_too_large)))
  unfolding serialize_stored_blocks
  deserialize_stored_blocks-serialize_stored_blocks inside few h =
      let (bytes, written, back) = sent_written few h in
      let (payload, laid, same) =
        block_records-written sent_blocks (append_compact_size [] (length sent_blocks)) h in
      let here =
        ap (λ (b : Bool). throw_if b begin_outside_chain)
          (ltb-false (length blocks) begin_index inside) in
      let whole : compact_bytes (length sent_blocks) ++ payload ≡ bytes = ok-injective (
        ap ok (
          ap (λ (front : List ℕ). front ++ payload)
            (sym (append_compact_size_lem [] (length sent_blocks))))
        ∙ sym same
        ∙ ap (λ (n : ℕ). write_items append_block_record (append_compact_size [] n) sent_blocks)
            length-sent_blocks
        ∙ written) in
      (
        bytes,
        (payload, laid, sym whole),
        elim (Bool-cases (ltb max_p2p_payload (length bytes))) [
          | inl large ↦
              inr (ltb→lt _ _ large, bind_ok _ _ here (bind_ok _ _ written (rw large refl)))
          | inr small ↦
              inl
                (not_ltb→le _ _ small, bind_ok _ _ here (bind_ok _ _ written (rw small refl)), back)
        ],
      )
