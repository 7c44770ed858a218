-- ===== src/Chain/Node/Generation/Growth.antt =====
-- src/chain.cpp: the unspent outputs while `generate` mines.
use binarycoin.Base.{
  ◌+ℤ◌, ℤ, pos, candidate_fee_overflow, ok, >>=-eq-ok, ok-injective, Text, ℕ, zero, suc, ◌+◌, ◌%◌,
  ◌^◌, ◌≡◌, refl, sym, ◌∙◌, List, [], ◌∷◌, ◌++◌,
}
use binarycoin.Amount.{Amount}
use binarycoin.Hash.Crypto.{Crypto}
use binarycoin.Tx.{Transaction}
use binarycoin.Tx.Coinbase.Heights.{make_testnet_coinbase-is_coinbase}
use binarycoin.Utxo.{UtxoSet}
use binarycoin.Block.{Block, StoredBlock, testnet_bits, hash_hex, mine_testnet_block}
use binarycoin.Block.Mined.{IsMinedOn, mine_testnet_block-IsMinedOn}
use binarycoin.Chain.{
  split_coinbase, header_of, apply_all, add_coinbase_outputs, verify_blocks, apply_each, build_rest,
  build_utxo_set,
}
use binarycoin.Chain.Supply.{apply_all-total}
use binarycoin.Chain.Node.{Storage, TestnetChain, after-eq-ok, tip, save, ensure_initialized}
use binarycoin.Chain.Node.Consistency.{IsConsistent, consistent_not_empty}
use binarycoin.Chain.Node.Generation.{front, next_block, generate_blocks, generate}

module _ (c : Crypto) where
  -- What the last block does to the set that is built from the blocks before it.
  record Connects (stored : StoredBlock) (before last : UtxoSet) : Type 0 where
    pub coinbase : Transaction
    pub regular : List Transaction
    pub spent : UtxoSet
    pub split : split_coinbase stored.block.transactions ≡ ok (coinbase, regular)
    pub applied : apply_each c stored.height regular before ≡ ok spent
    pub added : add_coinbase_outputs c coinbase stored.height spent ≡ ok last

  build_rest-snoc :
      (blocks : List StoredBlock) (stored : StoredBlock) (u v w : UtxoSet)
      → build_rest c blocks u ≡ ok v
      → Connects stored v w
      → build_rest c (blocks ++ stored ∷ []) u ≡ ok w
  unfolding build_rest
  build_rest-snoc [] stored u v w h k =
      let e : v ≡ u = sym (ok-injective h) in
      let applied = rw e at k.applied in rw (k.split, applied, k.added) refl
  build_rest-snoc (b ∷ bs) stored u v w h k =
      let ((coinbase, regular), e1, h1) = >>=-eq-ok (split_coinbase b.block.transactions) _ h in
      let (u', e2, h2) = >>=-eq-ok (apply_each c b.height regular u) _ h1 in
      let (u'', e3, h3) = >>=-eq-ok (add_coinbase_outputs c coinbase b.height u') _ h2 in
      rw (e1, e2, e3) (build_rest-snoc bs stored u'' v w h3 k)

  build_utxo_set-snoc :
      (blocks : List StoredBlock) (last stored : StoredBlock) (v w : UtxoSet)
      → tip blocks ≡ ok last
      → build_utxo_set c blocks ≡ ok v
      → Connects stored v w
      → build_utxo_set c (blocks ++ stored ∷ []) ≡ ok w
  unfolding build_utxo_set tip
  build_utxo_set-snoc [] last stored v w t h k = absurd (cc t)
  build_utxo_set-snoc (genesis ∷ bs) last stored v w t h k = build_rest-snoc bs stored [] v w h k

  mined-Connects :
      (height : ℕ) (previous_hash : Text) (time : ℕ) (transactions : List Transaction)
      (fees : Amount) (block : Block) (coinbase : Transaction) (before spent last : UtxoSet)
      → IsMinedOn c height previous_hash time testnet_bits transactions fees block
      → apply_each c height transactions before ≡ ok spent
      → front block.transactions ≡ ok coinbase
      → add_coinbase_outputs c coinbase height spent ≡ ok last
      → Connects (record { height = height; block = block }) before last
  unfolding split_coinbase
  mined-Connects height previous_hash time transactions fees block coinbase before spent last mined
        applied first added =
      let is_first =
        make_testnet_coinbase-is_coinbase height (mined.subsidy +ℤ fees) mined.script mined.made in
      let same : mined.coinbase ≡ coinbase = ok-injective (rw mined.contents at first) in
      record {
        coinbase = mined.coinbase;
        regular = transactions;
        spent = spent;
        split = rw (mined.contents, is_first) refl;
        applied = applied;
        added = rw same added;
      }

  next_block-built :
      (fuel : ℕ) (now : ℤ) (script : List ℕ) (transactions : List Transaction)
      (blocks : List StoredBlock) (u : UtxoSet) {mined : StoredBlock × UtxoSet}
      → build_utxo_set c blocks ≡ ok u
      → next_block c fuel now script transactions blocks u ≡ ok mined
      → build_utxo_set c (blocks ++ mined.0 ∷ []) ≡ ok mined.1
  unfolding next_block
  next_block-built fuel now script transactions blocks u {mined} built h =
      let (previous, e1, h1) = >>=-eq-ok (tip blocks) _ h in
      let height = (previous.height + 1) % 2 ^ 64 in
      let ((fees, spent), e2, h2) =
        >>=-eq-ok (apply_all c candidate_fee_overflow height transactions (pos 0) u) _ h1 in
      let (previous_hash, e3, h3) = >>=-eq-ok (hash_hex c (header_of previous)) _ h2 in
      let (block, e4, h4) =
        >>=-eq-ok
          (mine_testnet_block c fuel now height previous_hash (header_of previous).time testnet_bits
            script transactions fees)
          _ h3 in
      let (coinbase, e5, h5) = >>=-eq-ok (front block.transactions) _ h4 in
      let (utxos', e6, h6) = >>=-eq-ok (add_coinbase_outputs c coinbase height spent) _ h5 in
      let (each, _) = apply_all-total c candidate_fee_overflow height transactions (pos 0) u e2 in
      let on_tip =
        mine_testnet_block-IsMinedOn c fuel now height previous_hash (header_of previous).time
          testnet_bits script transactions fees e4 in
      let connects =
        mined-Connects height previous_hash (header_of previous).time transactions fees block
          coinbase u spent utxos' on_tip each e5 e6 in
      let stored : StoredBlock = record { height = height; block = block } in
      let whole : (stored, utxos') ≡ mined = ok-injective h6 in
      let grown = build_utxo_set-snoc blocks previous stored u utxos' e1 built connects in
      by_result stored utxos' mined whole grown
    where
      by_result :
          (stored : StoredBlock) (v : UtxoSet) (mined : StoredBlock × UtxoSet)
          → (stored, v) ≡ mined
          → build_utxo_set c (blocks ++ stored ∷ []) ≡ ok v
          → build_utxo_set c (blocks ++ mined.0 ∷ []) ≡ ok mined.1
      by_result stored v mined e grown = rw (sym e) grown

  generate_blocks-built :
      (fuel : ℕ) (clock : ℕ → ℤ) (script : List ℕ) (count : ℕ) (pending : List Transaction)
      (u : UtxoSet) (blocks : List StoredBlock) {v : UtxoSet}
      → build_utxo_set c blocks ≡ ok u
      → (generate_blocks c fuel clock script count pending u blocks).0 ≡ ok v
      → build_utxo_set c (generate_blocks c fuel clock script count pending u blocks).1 ≡ ok v
  unfolding generate_blocks
  generate_blocks-built fuel clock script zero pending u blocks built h = built ∙ h
  generate_blocks-built fuel clock script (suc count) pending u blocks built h =
      let (mined, e1, e2) =
        after-eq-ok (next_block c fuel (clock count) script pending blocks u, blocks) _ h in
      let grown = next_block-built fuel (clock count) script pending blocks u built e1 in
      rw e2 (
        generate_blocks-built fuel clock script count [] mined.1 (blocks ++ mined.0 ∷ []) grown
          (rw e2 at h))

module _ (c : Crypto) {Disk : Type 0} (storage : Storage Disk) where
  -- On a chain that verifies and has the set of its unspent outputs, `generate` leaves such a chain
  -- when it returns.
  pub generate-IsConsistent :
      (fuel : ℕ) (clock : ℕ → ℤ) (count : ℕ) (script : List ℕ) (pending : List Transaction)
      (chain : TestnetChain Disk)
      → IsConsistent c storage chain
      → (generate c storage fuel clock count script pending chain).0 ≡ ok tt
      → IsConsistent c storage (generate c storage fuel clock count script pending chain).1
  unfolding generate ensure_initialized save
  generate-IsConsistent fuel clock count script pending chain consistent h =
      let present = consistent_not_empty c storage chain consistent in
      let grown = generate_blocks c fuel clock script count pending chain.utxos chain.blocks in
      let h1 = rw present at h in
      let start : TestnetChain Disk = record chain { blocks = grown.1 } in
      let (utxos', e1, e2) = after-eq-ok (grown.0, start) _ h1 in
      let h2 = rw e2 at h1 in
      let (_, verified, e3) = after-eq-ok (verify_blocks c grown.1, start) _ h2 in
      let built =
        generate_blocks-built c fuel clock script count pending chain.utxos chain.blocks
          consistent.built e1 in
      rw (present, e2, e3) (record { verified = verified; built = built })
