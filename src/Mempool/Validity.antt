-- ===== src/Mempool/Validity.antt =====
-- src/mempool.cpp: the transactions of the mempool on top of the chain's unspent outputs.
use binarycoin.Base.{
  Bool-cases, any, duplicate_output, coinbase_in_mempool, ok, err, >>=-eq-ok, >>-eq-ok,
  Result-cases, ok-injective, text_eq, Text, ℕ, ◌≡◌, refl, sym, ap, ◌∙◌, ◌≢◌, inl, inr, Bool, List,
  [], ◌∷◌, ◌++◌, arith,
}
use binarycoin.Amount.{Amount}
use binarycoin.Hash.Crypto.{Crypto}
use binarycoin.Tx.{Transaction, is_coinbase}
use binarycoin.Utxo.Errors.{apply_transaction-unchanged}
use binarycoin.Utxo.{UtxoSet, apply_transaction}
use binarycoin.Mempool.{
  Mempool, save, replay, effective_utxos, check_new, check_add, add, retain, revalidate,
}
use binarycoin.Tx.Serialize.{txid_of}

save-transactions :
    (writable : Bool) (pool : Mempool) → (save writable pool).1.transactions ≡ pool.transactions
unfolding save
save-transactions writable pool = ground arith

module _ (c : Crypto) where
  pub replay-append :
      (height : ℕ) (ts : List Transaction) (t : Transaction) (u : UtxoSet) {v : UtxoSet}
      {fee : Amount}
      → replay c height ts u ≡ ok v
      → (apply_transaction c t height v).0 ≡ ok fee
      → replay c height (ts ++ t ∷ []) u ≡ ok (apply_transaction c t height v).1
  unfolding replay
  replay-append height [] t u h e = let same = ok-injective h in rw (same, e)
  replay-append height (s ∷ ts) t u h e =
      let (fee', e1, h1) = >>=-eq-ok (apply_transaction c s height u).0 _ h in
      rw e1 (replay-append height ts t (apply_transaction c s height u).1 h1 e)

  check_add-replayable :
      (pool : Mempool) (t : Transaction) (u : UtxoSet) (height : ℕ)
      → check_add c pool t u height ≡ ok tt
      → (v : UtxoSet) × (replay c height (pool.transactions ++ t ∷ []) u ≡ ok v)
  unfolding check_add effective_utxos
  check_add-replayable pool t u height h =
      let (_, h1) = >>-eq-ok (is_coinbase t) coinbase_in_mempool _ h in
      let (_, _, h2) = >>=-eq-ok (check_new c pool.transactions t) _ h1 in
      let (v, e3, h3) = >>=-eq-ok (replay c height pool.transactions u) _ h2 in
      let (fee, e4, _) = >>=-eq-ok (apply_transaction c t height v).0 _ h3 in
      ((apply_transaction c t height v).1, replay-append height pool.transactions t u e3 e4)

  -- When `add` returns, the transaction is the last of the mempool, and all transactions of the
  -- mempool can be applied in order to the unspent outputs of the chain.
  pub add-replayable :
      (writable : Bool) (pool : Mempool) (t : Transaction) (u : UtxoSet) (height : ℕ)
      → (add c writable pool t u height).0 ≡ ok tt
      → ((add c writable pool t u height).1.transactions ≡ pool.transactions ++ t ∷ [])
        × (v : UtxoSet) × (effective_utxos c (add c writable pool t u height).1 u height ≡ ok v)
  unfolding add effective_utxos
  add-replayable writable pool t u height h = elim (Result-cases (check_add c pool t u height)) [
    | inr (e, failed) ↦ absurd (cc (rw (failed, add) at h))
    | inl (_, checked) ↦
        let grown = pool.transactions ++ t ∷ [] in
        let kept = save-transactions writable (record pool { transactions = grown }) in
        let (v, replayed) = check_add-replayable pool t u height checked in
        (rw (checked, add) kept, v, rw (checked, add, kept) replayed)
  ]

  -- No transaction that `revalidate` may come to creates an output that is there already, whether
  -- the ones before it were tried or skipped as confirmed.
  abbrev pub NoDuplicates : ℕ → List Transaction → UtxoSet → Type 0
  NoDuplicates height [] u = Unit {0}
  NoDuplicates height (t ∷ ts) u =
      ((apply_transaction c t height u).0 ≢ err duplicate_output)
      × NoDuplicates height ts u
      × NoDuplicates height ts (apply_transaction c t height u).1

  retain-replayable :
      (height : ℕ) (confirmed : List Text) (ts : List Transaction) (chain u : UtxoSet)
      (retained : List Transaction) {result : List Transaction}
      → NoDuplicates height ts u
      → replay c height retained chain ≡ ok u
      → retain c height confirmed ts u retained ≡ ok result
      → (v : UtxoSet) × (replay c height result chain ≡ ok v)
  unfolding retain
  retain-replayable height confirmed [] chain u retained n r h = (u, rw (← ok-injective h) r)
  retain-replayable height confirmed (t ∷ ts) chain u retained (calm, n, n') r h =
      let (txid, e1, h1) = >>=-eq-ok (txid_of c t) _ h in
      elim (Bool-cases (any (text_eq txid) confirmed)) [
        | inl done ↦ retain-replayable height confirmed ts chain u retained n r (rw done at h1)
        | inr pending ↦ elim (Result-cases (apply_transaction c t height u).0) [
          | inl (fee, applied) ↦
              retain-replayable height confirmed ts chain (apply_transaction c t height u).1
                (retained ++ t ∷ []) n' (replay-append height retained t chain r applied)
                (rw (pending, applied) at h1)
          | inr (e, failed) ↦
              let other : e ≢ duplicate_output = λ same. calm (failed ∙ ap err same) in
              let kept = apply_transaction-unchanged c t height u e1 failed other in
              retain-replayable height confirmed ts chain (apply_transaction c t height u).1
                retained n' (r ∙ ap ok (sym kept)) (rw (pending, failed) at h1)
        ]
      ]

  -- When `revalidate` returns, and no transaction that it may come to creates an output that is
  -- there already, the transactions that it kept can be applied in order to the unspent outputs of
  -- the chain.
  pub revalidate-replayable :
      (writable : Bool) (pool : Mempool) (u : UtxoSet) (height : ℕ) (confirmed : List Text)
      → NoDuplicates height pool.transactions u
      → (revalidate c writable pool u height confirmed).0 ≡ ok tt
      → (v : UtxoSet) × (effective_utxos c
            (revalidate c writable pool u height confirmed).1
            u
            height
          ≡ ok v)
  unfolding revalidate effective_utxos
  revalidate-replayable writable pool u height confirmed n h =
      elim (Result-cases (retain c height confirmed pool.transactions u [])) [
        | inr (e, failed) ↦ absurd (cc (rw (failed, revalidate) at h))
        | inl (result, kept) ↦
            let (v, r) =
              retain-replayable height confirmed pool.transactions u u [] n (unfold replay in refl)
                kept in
            (
              v,
              rw
                  (
                    kept,
                    revalidate,
                    save-transactions writable (record pool { transactions = result }),
                  )
                  r,
            )
      ]
