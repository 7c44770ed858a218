-- ===== src/Net/Sync/Switch.antt =====
-- src/net.cpp: the part of `sync_from_peer` that changes the chain.
pub mod Outcome
use binarycoin.Base.{
  Bool, List, Option, Result, chainwork_mismatch, drop, err, false, headers_too_high, if◌then◌else◌,
  length, ltb, none, not, ok, some, take, text_eq, text_less, throw_if, tip_claim_mismatch, true, ℕ,
  ◌++◌, ◌+◌, ◌==◌, ◌>>=◌, ◌>>◌, ◌||◌,
}
use binarycoin.Block.{StoredBlock, hash_hex}
use binarycoin.BranchStore.{put_many, remove_active}
use binarycoin.Chain.{calculate_chainwork}
use binarycoin.Chain.Node.{Storage, TestnetChain, tip}
use binarycoin.Chain.Node.Activation.{ChainActivationResult, activate_if_more_work}
use binarycoin.Hash.Crypto.{Crypto}
use binarycoin.Net.Sync.{sync_headers}
use binarycoin.Net.Sync.Bodies.{BodyAnswer, sync_bodies}
use binarycoin.Net.Version.{PeerVersion}
use binarycoin.Pow.{uint256_to_hex}
use binarycoin.Storage.Disk.{Disk}

abbrev pub max_sync_height : ℕ
max_sync_height = 1_000_000

module _ (c : Crypto) where
  unfoldable pub check_chainwork : PeerVersion → List StoredBlock → Result (Unit {0})
  check_chainwork peer candidate = do
    work ← calculate_chainwork candidate
    candidate_work ← uint256_to_hex work
    throw_if (not (text_eq candidate_work peer.chainwork)) chainwork_mismatch

  -- Whether the peer is asked for its headers, by what it announces.
  unfoldable pub must_ask : PeerVersion → List StoredBlock → Result Bool
  must_ask peer blocks = do
    last ← tip blocks
    work ← calculate_chainwork blocks
    before_work ← uint256_to_hex work
    hash ← hash_hex c last.block.header
    let same_tip =
        throw_if (not (peer.best_height == last.height) || not (text_eq peer.chainwork before_work))
          tip_claim_mismatch
        >> ok false
    let other_tip =
        if text_less peer.chainwork before_work
        then ok false
        else (throw_if (ltb max_sync_height peer.best_height) headers_too_high >> ok true)
    if text_eq peer.tip_hash hash then same_tip else other_tip

  -- The blocks that may be left go to the side branches.
  unfoldable pub keep_branch :
      ℕ → List StoredBlock → List StoredBlock → Result (Unit {0}) × List StoredBlock
  keep_branch fork_index blocks branches =
      if ltb (fork_index + 1) (length blocks)
      then put_many c (drop (fork_index + 1) blocks) branches
      else (ok tt, branches)

module _ (c : Crypto) {Disk : Type 0} (storage : Storage Disk) where
  -- The activation, where there was one, the chain and the side branches.
  abbrev pub Synced : Type 0
  Synced = Result (Option ChainActivationResult) × TestnetChain Disk × List StoredBlock

  unfoldable pub settle :
      TestnetChain Disk → List StoredBlock → Result ChainActivationResult → Synced
  settle chain branches (err e) = (err e, chain, branches)
  settle chain branches (ok result) =
      let cleared : Synced = elim (remove_active c chain.blocks branches) [
        | err e ↦ (err e, chain, branches)
        | ok left ↦ (ok (some result), chain, left)
      ] in
      if result.activated then cleared else (ok (some result), chain, branches)

  unfoldable pub switch_chain :
      List StoredBlock → TestnetChain Disk → Result (Unit {0}) × List StoredBlock → Synced
  switch_chain candidate chain (err e, branches) = (err e, chain, branches)
  switch_chain candidate chain (ok _, branches) =
      let (result, chain') = activate_if_more_work c storage candidate chain in
      settle chain' branches result

  unfoldable pub sync_candidate :
      PeerVersion → ℕ → List StoredBlock → TestnetChain Disk → List StoredBlock → Synced
  sync_candidate peer fork_index blocks chain branches =
      let candidate = take (fork_index + 1) chain.blocks ++ blocks in
      elim (check_chainwork c peer candidate) [
        | err e ↦ (err e, chain, branches)
        | ok _ ↦ switch_chain candidate chain (keep_branch c fork_index chain.blocks branches)
      ]

  unfoldable pub sync_blocks :
      PeerVersion → List (List ℕ) → List BodyAnswer → TestnetChain Disk → List StoredBlock → Synced
  sync_blocks peer payloads answers chain branches =
      elim (sync_headers c chain.blocks peer payloads) [
        | err e ↦ (err e, chain, branches)
        | ok (index, headers) ↦
            let (received, branches') = sync_bodies c branches headers answers in
            elim received [
              | err e ↦ (err e, chain, branches')
              | ok blocks ↦ sync_candidate peer index blocks chain branches'
            ]
      ]

  -- Where the peer announces the own tip, or less work, nothing is asked for.
  unfoldable pub sync_chain :
      PeerVersion → List (List ℕ) → List BodyAnswer → TestnetChain Disk → List StoredBlock → Synced
  sync_chain peer payloads answers chain branches =
      let synced = sync_blocks peer payloads answers chain branches in
      elim (must_ask c peer chain.blocks) [
        | err e ↦ (err e, chain, branches)
        | ok asked ↦ if asked then synced else (ok none, chain, branches)
      ]
