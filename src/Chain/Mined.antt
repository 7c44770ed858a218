-- ===== src/Chain/Mined.antt =====
-- src/block.cpp and src/chain.cpp: a mined block before the checks of `verify_blocks`.
use binarycoin.Base.{
  leb, ==_iff, ◌+ℤ◌, ℤ, pos, eqb_ℤ, block_fee_overflow, ok, Text, text_eq_refl, ℕ, ◌+◌, ◌%◌, ◌^◌,
  ◌≤◌, ◌<◌, ◌≡◌, refl, true, false, List, arith,
}
use binarycoin.Utxo.{UtxoSet}
use binarycoin.Utxo.Coins.{sum_outputs-single}
use binarycoin.Block.{Block, StoredBlock, testnet_bits, hash_hex, mine_testnet_block}
use binarycoin.Block.Mined.{IsMinedOn, mine_testnet_block-IsMinedOn}
use binarycoin.Chain.{
  no_coinbase, split_coinbase, header_of, check_work, check_block, apply_all, add_coinbase_outputs,
  connect_block,
}
use binarycoin.Tx.Coinbase.Heights.{make_testnet_coinbase-is_coinbase, make_testnet_coinbase-pays}
use binarycoin.Amount.{Amount}
use binarycoin.Hash.Crypto.{Crypto}
use binarycoin.Tx.{Transaction}

module _ (c : Crypto) where
  check_block-IsMinedOn :
      (height : ℕ) (tip : StoredBlock) (previous_hash : Text) (transactions : List Transaction)
      (fees : Amount) (block : Block)
      → hash_hex c (header_of tip) ≡ ok previous_hash
      → (header_of tip).time + 1 < 2 ^ 32
      → no_coinbase transactions ≡ ok tt
      → (mined : IsMinedOn c height previous_hash
          (header_of tip).time
          testnet_bits
          transactions
          fees
          block)
      → check_block c height tip (record { height = height; block = block })
        ≡ ok (mined.coinbase, transactions)
  unfolding check_block check_work split_coinbase
  check_block-IsMinedOn height tip previous_hash transactions fees block hashed early regular
        mined =
      let (digest, digested, tested) = mined.meets in
      let first =
        make_testnet_coinbase-is_coinbase height (mined.subsidy +ℤ fees) mined.script mined.made in
      let root = rw mined.contents at mined.root in
      let later = increasing (header_of tip).time block.header.time early mined.later in
      rw
        (
          (==_iff height height).1 refl,
          digested,
          tested,
          mined.same_bits,
          hashed,
          mined.previous,
          text_eq_refl previous_hash,
          later,
          mined.contents,
          first,
          regular,
          root,
          text_eq_refl block.header.merkle_root,
        )
        refl
    where
      increasing : (a b : ℕ) → a + 1 < 2 ^ 32 → (a + 1) % 2 ^ 32 ≤ b → leb b a ≡ false
      increasing a b h le = ground arith

  connect_block-IsMinedOn :
      (height : ℕ) (previous_hash : Text) (time bits : ℕ) (transactions : List Transaction)
      (fees : Amount) (block : Block) (utxos spent : UtxoSet)
      → apply_all c block_fee_overflow height transactions (pos 0) utxos ≡ ok (fees, spent)
      → (mined : IsMinedOn c height previous_hash time bits transactions fees block)
      → connect_block c height mined.coinbase transactions utxos
        ≡ add_coinbase_outputs c mined.coinbase height spent
  unfolding connect_block
  connect_block-IsMinedOn height previous_hash time bits transactions fees block utxos spent applied
        mined =
      let (one, range) =
        make_testnet_coinbase-pays height (mined.subsidy +ℤ fees) mined.script mined.made in
      let total = sum_outputs-single mined.coinbase _ one range in
      rw (applied, total, mined.granted, mined.no_overflow, eqb_ℤ_refl (mined.subsidy +ℤ fees)) refl
    where
      eqb_ℤ_refl : (a : ℤ) → eqb_ℤ a a ≡ true
      eqb_ℤ_refl a = ground arith

  -- A block that is mined on the tip, of transactions that are no coinbases and apply with the
  -- given fees, passes the verifier's checks, and connects to the set that the transactions leave,
  -- with the coinbase's outputs added. The time of the tip must not be the last of 32 bits.
  pub mine_testnet_block-connects :
      (fuel : ℕ) (now : ℤ) (height : ℕ) (tip : StoredBlock) (previous_hash : Text) (script : List ℕ)
      (transactions : List Transaction) (fees : Amount) (utxos spent : UtxoSet) {block : Block}
      → hash_hex c (header_of tip) ≡ ok previous_hash
      → (header_of tip).time + 1 < 2 ^ 32
      → no_coinbase transactions ≡ ok tt
      → apply_all c block_fee_overflow height transactions (pos 0) utxos ≡ ok (fees, spent)
      → mine_testnet_block c fuel now height previous_hash
          (header_of tip).time
          testnet_bits
          script
          transactions
          fees
        ≡ ok block
      → (coinbase : Transaction) × (check_block c height tip
            (record { height = height; block = block })
          ≡ ok (coinbase, transactions))
        × (connect_block c height coinbase transactions utxos
            ≡ add_coinbase_outputs c coinbase height spent)
  mine_testnet_block-connects fuel now height tip previous_hash script transactions fees utxos spent
        {block} hashed early regular applied h =
      let mined =
        mine_testnet_block-IsMinedOn c fuel now height previous_hash (header_of tip).time
          testnet_bits script transactions fees h in
      (
        mined.coinbase,
        check_block-IsMinedOn height tip previous_hash transactions fees block hashed early regular
            mined,
        connect_block-IsMinedOn height previous_hash (header_of tip).time testnet_bits transactions
            fees block utxos spent applied mined,
      )
