-- ===== src/Block/Mined.antt =====
-- src/block.cpp: the block that `mine_testnet_block` returns.
use binarycoin.Base.{
  ◌+ℤ◌, ◌-ℤ◌, ℤ, pos, pos_part, ltb_ℤ, fees_outside_money, reward_overflow, ok, >>=-eq-ok, >>-eq-ok,
  ok-injective, Text, ℕ, ◌+◌, ◌%◌, ◌^◌, ◌≤◌, max, ◌≡◌, refl, sym, ap, ◌∙◌, false, not, List, ◌∷◌,
  arith,
}
use binarycoin.Amount.{Amount, max_money, testnet_halving_interval, money_range, block_subsidy}
use binarycoin.Hash.Crypto.{Crypto}
use binarycoin.Tx.{Transaction}
use binarycoin.Tx.Coinbase.{make_testnet_coinbase}
use binarycoin.Merkle.{merkle_root_hex}
use binarycoin.Block.{BlockHeader, Block, mine_loop, mine_testnet_block}
use binarycoin.Block.Mining.{MeetsTarget, mine_loop-MeetsTarget}

module _ (c : Crypto) where
  -- A block on top of a given one, whose coinbase claims the subsidy and the fees.
  pub record IsMinedOn (height : ℕ) (previous_hash : Text) (previous_time bits : ℕ)
      (transactions : List Transaction) (fees : Amount) (block : Block) : Type 0 where
    pub meets : MeetsTarget c block.header
    pub previous : block.header.previous_hash ≡ previous_hash
    pub same_bits : block.header.bits ≡ bits
    pub later : (previous_time + 1) % 2 ^ 32 ≤ block.header.time
    pub root : merkle_root_hex c block.transactions ≡ ok block.header.merkle_root
    pub subsidy : Amount
    pub granted : block_subsidy height testnet_halving_interval ≡ ok subsidy
    pub no_overflow : ltb_ℤ (pos max_money -ℤ fees) subsidy ≡ false
    pub script : List ℕ
    pub coinbase : Transaction
    pub made : make_testnet_coinbase height (subsidy +ℤ fees) script ≡ ok coinbase
    pub contents : block.transactions ≡ coinbase ∷ transactions

  -- Mining returns such a block.
  pub mine_testnet_block-IsMinedOn :
      (fuel : ℕ) (now : ℤ) (height : ℕ) (previous_hash : Text) (previous_time bits : ℕ)
      (script : List ℕ) (transactions : List Transaction) (fees : Amount) {block : Block}
      → mine_testnet_block c fuel now height previous_hash previous_time bits script transactions
          fees
        ≡ ok block
      → IsMinedOn height previous_hash previous_time bits transactions fees block
  unfolding mine_testnet_block
  mine_testnet_block-IsMinedOn fuel now height previous_hash previous_time bits script transactions
        fees {block} h =
      let (_, h1) = >>-eq-ok (not (money_range fees)) fees_outside_money _ h in
      let (subsidy, granted, h2) = >>=-eq-ok (block_subsidy height testnet_halving_interval) _ h1 in
      let (no_overflow, h3) =
        >>-eq-ok (ltb_ℤ (pos max_money -ℤ fees) subsidy) reward_overflow _ h2 in
      let (coinbase, made, h4) =
        >>=-eq-ok (make_testnet_coinbase height (subsidy +ℤ fees) script) _ h3 in
      let (root, rooted, h5) = >>=-eq-ok (merkle_root_hex c (coinbase ∷ transactions)) _ h4 in
      let start : BlockHeader = record {
        version = pos 1;
        previous_hash = previous_hash;
        merkle_root = root;
        time = max ((previous_time + 1) % 2 ^ 32) (pos_part now % 2 ^ 32);
        bits = bits;
        nonce = 0;
      } in
      let (solved, found, h6) = >>=-eq-ok (mine_loop c fuel start) _ h5 in
      let (meets, attempt) = mine_loop-MeetsTarget c fuel start solved found in
      let e : record { header = solved; transactions = coinbase ∷ transactions } ≡ block =
        ok-injective h6 in
      rw (sym e) (record {
        meets = meets;
        previous = attempt.same_previous;
        same_bits = attempt.same_bits;
        later = omega (arith, attempt.not_earlier);
        root = rooted ∙ ap ok (sym attempt.same_merkle_root);
        subsidy = subsidy;
        granted = granted;
        no_overflow = no_overflow;
        script = script;
        coinbase = coinbase;
        made = made;
        contents = refl;
      })
