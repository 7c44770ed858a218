-- ===== src/Chain/Node.antt =====
-- src/chain.cpp: the chain that a node keeps, in memory and on disk.
pub mod Activation
pub mod Generation
pub mod Consistency
pub mod Loading
use binarycoin.Base.{
  ◌==◌, if◌then◌else◌, eqb_ℤ, Error, non_contiguous, not_extending_tip, no_data_directory,
  unsupported_chain, no_chainstate, snapshot_mismatch, not_initialized, Result, ok, err, ◌>>=◌,
  ◌>>◌, throw_if, ok-injective, text_eq, Text, ℕ, ◌+◌, ◌%◌, ◌^◌, ◌≡◌, refl, ap, Bool, true, false,
  not, ◌&&◌, ◌||◌, List, [], ◌∷◌, ◌++◌,
}
use binarycoin.Hash.Crypto.{Crypto}
use binarycoin.Tx.{OutPoint, is_empty}
use binarycoin.Utxo.{Coin, UtxoSet}
use binarycoin.Block.{StoredBlock, hash_hex, testnet_genesis_block}
use binarycoin.Chain.{header_of, verify_blocks, build_utxo_set}

-- What the chain uses of `DurableChainStore` and of the files beside it. `Disk` is all that is
-- stored; a call that throws may have changed it.
pub record Storage (Disk : Type 0) : Type 0 where
  pub create_directories : Disk → Result (Unit {0}) × Disk
  pub exists : Disk → Bool
  -- The blocks, and what the call leaves in the set that it is given by reference.
  pub read : UtxoSet → Disk → Result (List StoredBlock) × UtxoSet
  pub commit : List StoredBlock → UtxoSet → Disk → Result (Unit {0}) × Disk
  pub has_legacy_v3 : Disk → Bool
  pub has_older_legacy : Disk → Bool
  -- `load_legacy_v3`, and what the call leaves of the chain's blocks: those that were there where the
  -- file cannot be opened or has another header, else those that were read.
  pub read_legacy_v3 : List StoredBlock → Disk → Result (Unit {0}) × List StoredBlock
  pub mark_migrated_legacy : Disk → Disk

pub record TestnetChain (Disk : Type 0) : Type 0 where
  pub data_directory : Text
  pub blocks : List StoredBlock
  pub utxos : UtxoSet
  pub disk : Disk

-- A step that may throw, and the state that it leaves.
abbrev pub after : {A B S : Type 0} → Result A × S → (A → S → Result B × S) → Result B × S
after (ok a, s) k = k a s
after (err e, s) k = (err e, s)

pub after-ok :
    {A B S : Type 0} (p : Result A × S) (k : A → S → Result B × S) {a : A}
    → p.0 ≡ ok a
    → after p k ≡ k a p.1
after-ok (ok a, s) k h = ap (λ x. k x s) (ok-injective h)
after-ok (err e, s) k h = absurd (cc h)

pub after-err :
    {A B S : Type 0} (p : Result A × S) (k : A → S → Result B × S) {e : Error}
    → p.0 ≡ err e
    → after p k ≡ (err e, p.1)
after-err (ok a, s) k h = absurd (cc h)
after-err (err e', s) k {e} h = let same : e' ≡ e = cc h in ap (λ x. (err x, s)) same

pub after-eq-ok :
    {A B S : Type 0} (p : Result A × S) (k : A → S → Result B × S) {b : B}
    → (after p k).0 ≡ ok b
    → (a : A) × (p.0 ≡ ok a) × (after p k ≡ k a p.1)
after-eq-ok (ok a, s) k h = (a, refl, refl)
after-eq-ok (err e, s) k h = absurd (cc h)

-- `blocks_.back()`; `tip` throws where there is none.
unfoldable pub tip : List StoredBlock → Result StoredBlock
tip [] = err not_initialized
tip (stored ∷ []) = ok stored
tip (stored ∷ next ∷ rest) = tip (next ∷ rest)

abbrev bytes_equal : List ℕ → List ℕ → Bool
bytes_equal a b = text_eq a b

pub coin_equal : OutPoint × Coin → OutPoint × Coin → Bool
coin_equal (o, a) (p, b) =
    text_eq o.txid p.txid
    && (o.index == p.index
        && (eqb_ℤ a.output.value b.output.value
            && (bytes_equal a.output.script_pubkey b.output.script_pubkey
                && (a.height == b.height
                    && (a.coinbase && b.coinbase || not a.coinbase && not b.coinbase)))))

-- The comparison of the sizes is the one of the ends.
unfoldable pub utxo_sets_equal : UtxoSet → UtxoSet → Bool
unfolding coin_equal
utxo_sets_equal [] [] = true
utxo_sets_equal [] (b ∷ right) = false
utxo_sets_equal (a ∷ left) [] = false
utxo_sets_equal (a ∷ left) (b ∷ right) = coin_equal a b && utxo_sets_equal left right

module _ (c : Crypto) {Disk : Type 0} (storage : Storage Disk) where
  unfoldable pub save : TestnetChain Disk → Result (Unit {0}) × TestnetChain Disk
  save chain =
      let (result, disk') = storage.commit chain.blocks chain.utxos chain.disk in
      (result, record chain { disk = disk' })

  -- The migration of the legacy file, the same in `initialize` and in `load`.
  pub migrate : TestnetChain Disk → Result (Unit {0}) × TestnetChain Disk
  migrate chain =
      let (result, blocks') = storage.read_legacy_v3 chain.blocks chain.disk in
      after (result, record chain { blocks = blocks' })
        (λ _ read.
          after (verify_blocks c read.blocks, read)
            (λ _ verified.
              after (build_utxo_set c verified.blocks, verified)
                (λ utxos' built. save (record built {
                  utxos = utxos';
                  disk = storage.mark_migrated_legacy built.disk;
                }))))

  -- `load` behind the storage's own reading.
  unfoldable pub check_loaded :
      List StoredBlock → TestnetChain Disk → Result (Unit {0}) × TestnetChain Disk
  check_loaded blocks' chain =
      after (verify_blocks c blocks', record chain { blocks = blocks' })
        (λ _ verified.
          after (build_utxo_set c verified.blocks, verified)
            (λ rebuilt built.
              if is_empty built.utxos && not (is_empty rebuilt)
              then save (record built { utxos = rebuilt })
              else if not (utxo_sets_equal built.utxos rebuilt)
              then (err snapshot_mismatch, built)
              else (ok tt, built)))

  unfoldable pub load : TestnetChain Disk → Result (Unit {0}) × TestnetChain Disk
  load chain =
      let (result, utxos') = storage.read chain.utxos chain.disk in
      let loaded = after (result, record chain { utxos = utxos' }) check_loaded in
      if not (storage.exists chain.disk)
      then if storage.has_legacy_v3 chain.disk then migrate chain else (err no_chainstate, chain)
      else loaded

  -- A new chain, with the genesis block alone.
  unfoldable pub create : TestnetChain Disk → Result (Unit {0}) × TestnetChain Disk
  create chain =
      after (testnet_genesis_block c, chain)
        (λ genesis made.
          let fresh : TestnetChain Disk = record made {
            blocks = record { height = 0; block = genesis } ∷ [];
            utxos = [];
          } in
          after (verify_blocks c fresh.blocks, fresh) (λ _ verified. save verified))

  unfoldable pub initialize : TestnetChain Disk → Result (Unit {0}) × TestnetChain Disk
  initialize chain =
      let (made, disk') = storage.create_directories chain.disk in
      let opened =
        after (made, record chain { disk = disk' })
          (λ _ ready.
            if storage.exists ready.disk
            then load ready
            else if storage.has_legacy_v3 ready.disk
            then migrate ready
            else if storage.has_older_legacy ready.disk
            then (err unsupported_chain, ready)
            else create ready) in
      if is_empty chain.data_directory then (err no_data_directory, chain) else opened

  -- `if (blocks_.empty()) initialize();`
  unfoldable pub ensure_initialized : TestnetChain Disk → Result (Unit {0}) × TestnetChain Disk
  ensure_initialized chain = if is_empty chain.blocks then initialize chain else (ok tt, chain)

  -- `blocks_` and `utxos_` take new values, which `save` writes; where it throws they are put back.
  pub adopt : List StoredBlock → UtxoSet → TestnetChain Disk → Result (Unit {0}) × TestnetChain Disk
  adopt blocks' utxos' chain =
      let (result, disk') = storage.commit blocks' utxos' chain.disk in
      elim result [
        | ok _ ↦ (ok tt, record chain { blocks = blocks'; utxos = utxos'; disk = disk' })
        | err e ↦ (err e, record chain { disk = disk' })
      ]

  -- The loop of `append_blocks`, from the current tip.
  pub extend : StoredBlock → List StoredBlock → List StoredBlock → Result (List StoredBlock)
  extend last [] blocks = ok blocks
  extend last (stored ∷ rest) blocks = do
    throw_if (not (stored.height == (last.height + 1) % 2 ^ 64)) non_contiguous
    last_hash ← hash_hex c (header_of last)
    throw_if (not (text_eq (header_of stored).previous_hash last_hash)) not_extending_tip
    extend stored rest (blocks ++ stored ∷ [])

  -- All of `append_blocks` that can throw before the blocks are written.
  pub extended : List StoredBlock → List StoredBlock → Result (List StoredBlock × UtxoSet)
  extended incoming blocks = do
    last ← tip blocks
    blocks' ← extend last incoming blocks
    verify_blocks c blocks'
    utxos' ← build_utxo_set c blocks'
    ok (blocks', utxos')

  pub append_to : List StoredBlock → TestnetChain Disk → Result (Unit {0}) × TestnetChain Disk
  append_to incoming chain = elim (extended incoming chain.blocks) [
    | ok (blocks', utxos') ↦ adopt blocks' utxos' chain
    | err e ↦ (err e, chain)
  ]

  pub append_blocks : List StoredBlock → TestnetChain Disk → Result (Unit {0}) × TestnetChain Disk
  append_blocks [] chain = (ok tt, chain)
  append_blocks (first ∷ rest) chain =
      after (ensure_initialized chain) (λ _ ready. append_to (first ∷ rest) ready)
