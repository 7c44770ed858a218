-- ===== src/Net/Sync/Switch/Outcome.antt =====
-- src/net.cpp: what `sync_from_peer` leaves of the chain.
use binarycoin.Base.{
  Bool-cases, List, Result, Result-cases, err, inl, inr, ok, refl, take, ℕ, ◌++◌, ◌+◌, ◌≡◌, ◌⊎◌,
}
use binarycoin.Block.{StoredBlock}
use binarycoin.BranchStore.{remove_active}
use binarycoin.Chain.Node.{Storage, TestnetChain}
use binarycoin.Chain.Node.Activation.{ChainActivationResult, activate_if_more_work}
use binarycoin.Chain.Node.Activation.Switching.{activate_if_more_work-Switched}
use binarycoin.Chain.Node.Consistency.{IsConsistent, SameChain}
use binarycoin.Hash.Crypto.{Crypto}
use binarycoin.Net.Headers.{HeaderRecord}
use binarycoin.Net.Sync.{sync_headers}
use binarycoin.Net.Sync.Accepting.{Taken, sync_headers-Taken}
use binarycoin.Net.Sync.Bodies.{BodyAnswer, sync_bodies}
use binarycoin.Net.Sync.Bodies.Assembly.{Answers, sync_bodies-Answers}
use binarycoin.Net.Sync.Switch.{
  check_chainwork, keep_branch, must_ask, settle, switch_chain, sync_blocks, sync_candidate,
  sync_chain,
}
use binarycoin.Net.Version.{PeerVersion}

module _ (c : Crypto) {Disk : Type 0} (storage : Storage Disk) where
  -- The old blocks up to a fork, and behind them one block for each of the headers that were taken.
  pub record Extends (peer : PeerVersion) (chain chain' : TestnetChain Disk) : Type 0 where
    pub index : ℕ
    pub headers : List HeaderRecord
    pub blocks : List StoredBlock
    pub taken : Taken c chain.blocks peer index headers
    pub answers : Answers c headers blocks
    pub whole : chain'.blocks ≡ take (index + 1) chain.blocks ++ blocks
    pub consistent : IsConsistent c storage chain'

  abbrev pub Outcome : PeerVersion → TestnetChain Disk → TestnetChain Disk → Type 0
  Outcome peer chain chain' = SameChain c storage chain chain' ⊎ Extends peer chain chain'

  unchanged : (peer : PeerVersion) (chain : TestnetChain Disk) → Outcome peer chain chain
  unchanged peer chain = inl (record { blocks = refl; utxos = refl })

  settle-chain :
      (chain : TestnetChain Disk) (branches : List StoredBlock)
      (result : Result ChainActivationResult)
      → (settle c storage chain branches result).1 ≡ chain
  unfolding settle
  settle-chain chain branches (err e) = refl
  settle-chain chain branches (ok result) = elim (Bool-cases result.activated) [
    | inr idle ↦ rw (idle, settle) refl
    | inl active ↦ elim (Result-cases (remove_active c chain.blocks branches)) [
      | inl (left, e) ↦ rw (active, e, settle) refl
      | inr (error, e) ↦ rw (active, e, settle) refl
    ]
  ]

  -- The candidate became the chain, or the chain is as before.
  switch_chain-Switched :
      (candidate : List StoredBlock) (chain : TestnetChain Disk)
      (kept : Result (Unit {0}) × List StoredBlock)
      → SameChain c storage chain (switch_chain c storage candidate chain kept).1
        ⊎ (((switch_chain c storage candidate chain kept).1.blocks ≡ candidate)
            × IsConsistent c storage (switch_chain c storage candidate chain kept).1)
  unfolding switch_chain
  switch_chain-Switched candidate chain (err e, branches) =
      inl (record { blocks = refl; utxos = refl })
  switch_chain-Switched candidate chain (ok _, branches) =
      let (result, chain') = activate_if_more_work c storage candidate chain in
      rw (settle-chain chain' branches result)
        (elim (activate_if_more_work-Switched c storage candidate chain) [
          | inl (became, consistent, _, _, _, _, _) ↦ inr (became, consistent)
          | inr (same, _) ↦ inl same
        ])

  sync_candidate-Switched :
      (peer : PeerVersion) (index : ℕ) (blocks : List StoredBlock) (chain : TestnetChain Disk)
      (branches : List StoredBlock)
      → SameChain c storage chain (sync_candidate c storage peer index blocks chain branches).1
        ⊎ (((sync_candidate c storage peer index blocks chain branches).1.blocks
              ≡ take (index + 1) chain.blocks ++ blocks)
            × IsConsistent c storage (sync_candidate c storage peer index blocks chain branches).1)
  unfolding sync_candidate
  sync_candidate-Switched peer index blocks chain branches =
      let candidate = take (index + 1) chain.blocks ++ blocks in
      elim (Result-cases (check_chainwork c peer candidate)) [
        | inr (e, failed) ↦
            rw (failed, sync_candidate) (inl (record { blocks = refl; utxos = refl }))
        | inl (done, checked) ↦
            rw (checked, sync_candidate)
              (switch_chain-Switched candidate chain (keep_branch c index chain.blocks branches))
      ]

  sync_blocks-Outcome :
      (peer : PeerVersion) (payloads : List (List ℕ)) (answers : List BodyAnswer)
      (chain : TestnetChain Disk) (branches : List StoredBlock)
      → Outcome peer chain (sync_blocks c storage peer payloads answers chain branches).1
  unfolding sync_blocks
  sync_blocks-Outcome peer payloads answers chain branches =
      elim (Result-cases (sync_headers c chain.blocks peer payloads)) [
        | inr (e, failed) ↦ rw (failed, sync_blocks) (unchanged peer chain)
        | inl ((index, headers), taken) ↦
            let left = sync_bodies c branches headers answers in
            elim (Result-cases left.0) [
              | inr (e, failed) ↦ rw (taken, failed, sync_blocks) (unchanged peer chain)
              | inl (blocks, received) ↦
                  rw (taken, received, sync_blocks)
                    (elim (sync_candidate-Switched peer index blocks chain left.1) [
                      | inl same ↦ inl same
                      | inr (whole, consistent) ↦ inr (record {
                        index = index;
                        headers = headers;
                        blocks = blocks;
                        taken = sync_headers-Taken c chain.blocks peer payloads taken;
                        answers = sync_bodies-Answers c branches headers answers received;
                        whole = whole;
                        consistent = consistent;
                      })
                    ])
            ]
      ]

  -- Whatever a peer answers, and also where the synchronization throws, the chain and its unspent
  -- outputs in memory are as before; or the chain is consistent and consists of the old blocks up to a
  -- fork and of one block for each of some headers, with its hash, where the headers follow one
  -- another from the fork on, have proof of work, and end with the tip that the peer has announced.
  pub sync_chain-Outcome :
      (peer : PeerVersion) (payloads : List (List ℕ)) (answers : List BodyAnswer)
      (chain : TestnetChain Disk) (branches : List StoredBlock)
      → Outcome peer chain (sync_chain c storage peer payloads answers chain branches).1
  unfolding sync_chain
  sync_chain-Outcome peer payloads answers chain branches =
      elim (Result-cases (must_ask c peer chain.blocks)) [
        | inr (e, failed) ↦ rw (failed, sync_chain) (unchanged peer chain)
        | inl (asked, known) ↦ elim (Bool-cases asked) [
          | inl asking ↦
              rw (known, asking, sync_chain)
                (sync_blocks-Outcome peer payloads answers chain branches)
          | inr idle ↦ rw (known, idle, sync_chain) (unchanged peer chain)
        ]
      ]
