-- ===== src/Chain/Node/Loading.antt =====
-- src/chain.cpp: the outcomes of `load` and `initialize`.
use binarycoin.Base.{
  ◌==◌, if◌then◌else◌, ==_iff, Bool-cases, &&-split, eqb_ℤ, eqb_ℤ→eq, unsupported_chain,
  snapshot_mismatch, Result, ok, err, text_eq, text_eq_iff, ◌≡◌, refl, sym, ap, ◌∙◌, inl, inr, Bool,
  true, not, ◌&&◌, ◌||◌, List, [], ◌∷◌, arith,
}
use binarycoin.Tx.{OutPoint, is_empty}
use binarycoin.Chain.{verify_blocks, build_rest, build_utxo_set}
use binarycoin.Block.{StoredBlock, testnet_genesis_block}
use binarycoin.Chain.Node.{
  Storage, TestnetChain, after, after-eq-ok, coin_equal, utxo_sets_equal, save, migrate,
  check_loaded, load, create, initialize,
}
use binarycoin.Hash.Crypto.{Crypto}
use binarycoin.Utxo.{Coin, UtxoSet}
use binarycoin.Chain.Node.Consistency.{IsConsistent}

coin_equal→eq : (a b : OutPoint × Coin) → coin_equal a b ≡ true → a ≡ b
unfolding coin_equal
coin_equal→eq (o, a) (p, b) h =
    let (h1, r1) = &&-split (text_eq o.txid p.txid) _ h in
    let (h2, r2) = &&-split (o.index == p.index) _ r1 in
    let (h3, r3) = &&-split (eqb_ℤ a.output.value b.output.value) _ r2 in
    let (h4, r4) = &&-split (text_eq a.output.script_pubkey b.output.script_pubkey) _ r3 in
    let (h5, r5) = &&-split (a.height == b.height) _ r4 in
    let e1 : o.txid ≡ p.txid = (text_eq_iff o.txid p.txid).0 h1 in
    let e2 : o.index ≡ p.index = (==_iff o.index p.index).0 h2 in
    let e3 : a.output.value ≡ b.output.value = eqb_ℤ→eq a.output.value b.output.value h3 in
    let e4 : a.output.script_pubkey ≡ b.output.script_pubkey =
      (text_eq_iff a.output.script_pubkey b.output.script_pubkey).0 h4 in
    let e5 : a.height ≡ b.height = (==_iff a.height b.height).0 h5 in
    let e6 : a.coinbase ≡ b.coinbase = same_flag a.coinbase b.coinbase r5 in cc
  where
    same_flag : (x y : Bool) → (x && y || not x && not y) ≡ true → x ≡ y
    same_flag x y h = ground arith

-- The comparison of the snapshot with the rebuilt set is equality.
pub utxo_sets_equal→eq : (left right : UtxoSet) → utxo_sets_equal left right ≡ true → left ≡ right
unfolding utxo_sets_equal
utxo_sets_equal→eq [] [] h = refl
utxo_sets_equal→eq [] (b ∷ right) h = absurd (cc h)
utxo_sets_equal→eq (a ∷ left) [] h = absurd (cc h)
utxo_sets_equal→eq (a ∷ left) (b ∷ right) h =
    let (first, rest) = &&-split (coin_equal a b) _ h in
    let e1 = coin_equal→eq a b first in let e2 = utxo_sets_equal→eq left right rest in cc

module _ (c : Crypto) {Disk : Type 0} (storage : Storage Disk) where
  -- A step that succeeds leaves a consistent chain.
  abbrev Establishes : Result (Unit {0}) × TestnetChain Disk → Type 0
  Establishes r = r.0 ≡ ok tt → IsConsistent c storage r.1

  save-IsConsistent :
      (chain : TestnetChain Disk)
      → IsConsistent c storage chain
      → Establishes (save c storage chain)
  unfolding save
  save-IsConsistent chain h done = record { verified = h.verified; built = h.built }

  verified_set-IsConsistent :
      (chain : TestnetChain Disk)
      (k : UtxoSet → TestnetChain Disk → Result (Unit {0}) × TestnetChain Disk)
      → ((utxos' : UtxoSet)
          → verify_blocks c chain.blocks ≡ ok tt
          → build_utxo_set c chain.blocks ≡ ok utxos'
          → Establishes (k utxos' chain))
      → Establishes (
          after
            (verify_blocks c chain.blocks, chain)
            (λ _ verified. after (build_utxo_set c verified.blocks, verified) k))
  verified_set-IsConsistent chain k establishes h =
      let (_, verified, e1) = after-eq-ok (verify_blocks c chain.blocks, chain) _ h in
      let h1 = rw e1 at h in
      let (utxos', built, e2) = after-eq-ok (build_utxo_set c chain.blocks, chain) k h1 in
      rw (e1, e2) (establishes utxos' verified built (rw e2 at h1))

  migrate-IsConsistent : (chain : TestnetChain Disk) → Establishes (migrate c storage chain)
  unfolding migrate
  migrate-IsConsistent chain h =
      let start : TestnetChain Disk = record chain {
        blocks = (storage.read_legacy_v3 chain.blocks chain.disk).1;
      } in
      let (_, _, e) = after-eq-ok ((storage.read_legacy_v3 chain.blocks chain.disk).0, start) _ h in
      rw e (
        verified_set-IsConsistent start _
          (λ utxos' verified built.
            save-IsConsistent _ (record { verified = verified; built = built }))
          (rw e at h))

  check_loaded-IsConsistent :
      (blocks' : List StoredBlock) (chain : TestnetChain Disk)
      → Establishes (check_loaded c storage blocks' chain)
  unfolding check_loaded
  check_loaded-IsConsistent blocks' chain =
      let start : TestnetChain Disk = record chain { blocks = blocks' } in
      verified_set-IsConsistent start _
        (λ rebuilt verified built h. compared start rebuilt verified built h)
    where
      compared :
          (chain : TestnetChain Disk) (rebuilt : UtxoSet)
          → verify_blocks c chain.blocks ≡ ok tt
          → build_utxo_set c chain.blocks ≡ ok rebuilt
          → Establishes (
              if is_empty chain.utxos && not (is_empty rebuilt)
              then save c storage (record chain { utxos = rebuilt })
              else if not (utxo_sets_equal chain.utxos rebuilt)
              then (err snapshot_mismatch, chain)
              else (ok tt, chain))
      compared chain rebuilt verified built h =
          elim (Bool-cases (is_empty chain.utxos && not (is_empty rebuilt))) [
            | inl recovered ↦ rw recovered (
                save-IsConsistent (record chain { utxos = rebuilt })
                  (record { verified = verified; built = built }) (rw recovered at h))
            | inr present ↦ elim (Bool-cases (utxo_sets_equal chain.utxos rebuilt)) [
              | inr other ↦ absurd (cc (rw (present, other) at h))
              | inl same ↦
                  let e = utxo_sets_equal→eq chain.utxos rebuilt same in
                  rw (present, same) (record { verified = verified; built = built ∙ ap ok (sym e) })
            ]
          ]

  -- When `load` returns, the blocks in memory verify, and the set in memory is the set of their
  -- unspent outputs, whatever the storage read.
  pub load-IsConsistent :
      (chain : TestnetChain Disk)
      → (load c storage chain).0 ≡ ok tt
      → IsConsistent c storage (load c storage chain).1
  unfolding load
  load-IsConsistent chain h = elim (Bool-cases (storage.exists chain.disk)) [
    | inr absent ↦ elim (Bool-cases (storage.has_legacy_v3 chain.disk)) [
      | inl old ↦ rw (absent, old) (migrate-IsConsistent chain (rw (absent, old) at h))
      | inr nothing ↦ absurd (cc (rw (absent, nothing) at h))
    ]
    | inl present ↦
        let (read, utxos') = storage.read chain.utxos chain.disk in
        let start : TestnetChain Disk = record chain { utxos = utxos' } in
        let h1 = rw present at h in
        let (blocks', _, e) = after-eq-ok (read, start) (check_loaded c storage) h1 in
        rw (present, e) (check_loaded-IsConsistent blocks' start (rw e at h1))
  ]

  create-IsConsistent : (chain : TestnetChain Disk) → Establishes (create c storage chain)
  unfolding create build_utxo_set build_rest
  create-IsConsistent chain h =
      let (genesis, _, e) = after-eq-ok (testnet_genesis_block c, chain) _ h in
      let h1 = rw e at h in
      let fresh : TestnetChain Disk = record chain {
        blocks = record { height = 0; block = genesis } ∷ [];
        utxos = [];
      } in
      let (_, verified, e1) =
        after-eq-ok (verify_blocks c fresh.blocks, fresh) (λ _ chain'. save c storage chain') h1 in
      rw (e, e1)
        (save-IsConsistent fresh (record { verified = verified; built = refl }) (rw e1 at h1))

  -- When `initialize` returns, by loading, migrating or creating the chain, the blocks in memory
  -- verify, and the set in memory is the set of their unspent outputs.
  pub initialize-IsConsistent :
      (chain : TestnetChain Disk)
      → (initialize c storage chain).0 ≡ ok tt
      → IsConsistent c storage (initialize c storage chain).1
  unfolding initialize
  initialize-IsConsistent chain h = elim (Bool-cases (is_empty chain.data_directory)) [
    | inl unnamed ↦ absurd (cc (rw unnamed at h))
    | inr named ↦
        let (made, disk') = storage.create_directories chain.disk in
        let ready : TestnetChain Disk = record chain { disk = disk' } in
        let h1 = rw named at h in
        let (_, _, e) = after-eq-ok (made, ready) _ h1 in rw (named, e) (opened ready (rw e at h1))
  ]
    where
      opened :
          (ready : TestnetChain Disk)
          → Establishes (
              if storage.exists ready.disk
              then load c storage ready
              else if storage.has_legacy_v3 ready.disk
              then migrate c storage ready
              else if storage.has_older_legacy ready.disk
              then (err unsupported_chain, ready)
              else create c storage ready)
      opened ready h = elim (Bool-cases (storage.exists ready.disk)) [
        | inl present ↦ rw present (load-IsConsistent ready (rw present at h))
        | inr absent ↦ elim (Bool-cases (storage.has_legacy_v3 ready.disk)) [
          | inl old ↦ rw (absent, old) (migrate-IsConsistent ready (rw (absent, old) at h))
          | inr newer ↦ elim (Bool-cases (storage.has_older_legacy ready.disk)) [
            | inl older ↦ absurd (cc (rw (absent, newer, older) at h))
            | inr nothing ↦
                rw (absent, newer, nothing)
                  (create-IsConsistent ready (rw (absent, newer, nothing) at h))
          ]
        ]
      ]
