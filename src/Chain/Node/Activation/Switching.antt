-- ===== src/Chain/Node/Activation/Switching.antt =====
-- src/chain.cpp: the outcomes of `activate_if_more_work`.
use binarycoin.Chain.Node.Activation.{
  ChainActivationResult, count_common, compare_branches, with_disconnected, switch_to,
  activate_if_more_work,
}
use binarycoin.Base.{
  leb, ◌==◌, Bool-cases, Error, foreign_genesis, Result, ok, err, >>=-eq-ok, >>-eq-ok, Result-cases,
  ok-injective, ℕ, ◌<◌, ◌≡◌, refl, sym, ap, ◌∙◌, ◌⊎◌, inl, inr, false, List, arith,
}
use binarycoin.Hash.Crypto.{Crypto}
use binarycoin.Block.{StoredBlock}
use binarycoin.Chain.{verify_blocks, build_utxo_set, calculate_chainwork}
use binarycoin.Chain.Node.{Storage, TestnetChain, after-ok, after-err, tip, adopt}
use binarycoin.Chain.Node.Consistency.{IsConsistent, SameChain, adopt-cases}

compare_branches-work :
    (c : Crypto) (candidate blocks : List StoredBlock) {result : ChainActivationResult}
    → compare_branches c candidate blocks ≡ ok result
    → (calculate_chainwork blocks ≡ ok result.old_chainwork)
      × (calculate_chainwork candidate ≡ ok result.candidate_chainwork)
      × (result.activated ≡ false)
unfolding compare_branches
compare_branches-work c candidate blocks {result} h =
    let (_, _, h1) = >>=-eq-ok (verify_blocks c candidate) _ h in
    let (old_tip, _, h2) = >>=-eq-ok (tip blocks) _ h1 in
    let (new_tip, _, h3) = >>=-eq-ok (tip candidate) _ h2 in
    let (old_work, old, h4) = >>=-eq-ok (calculate_chainwork blocks) _ h3 in
    let (new_work, new, h5) = >>=-eq-ok (calculate_chainwork candidate) _ h4 in
    let (common_count, _, h6) = >>=-eq-ok (count_common c blocks candidate) _ h5 in
    let (_, h7) = >>-eq-ok (common_count == 0) foreign_genesis _ h6 in
    let e : _ ≡ result = ok-injective h7 in
    (
      old ∙ ap (λ (r : ChainActivationResult). ok r.old_chainwork) e,
      new ∙ ap (λ (r : ChainActivationResult). ok r.candidate_chainwork) e,
      ap (λ (r : ChainActivationResult). r.activated) (sym e),
    )

module _ (c : Crypto) {Disk : Type 0} (storage : Storage Disk) where
  -- The chain became the candidate, which has more work, or it is as before.
  abbrev pub Switched :
      List StoredBlock
      → TestnetChain Disk
      → Result ChainActivationResult × TestnetChain Disk
      → Type 0
  Switched candidate chain r =
      ((r.1.blocks ≡ candidate)
        × IsConsistent c storage r.1
        × (old : ℕ) × (new : ℕ) × (calculate_chainwork chain.blocks ≡ ok old)
        × (calculate_chainwork candidate ≡ ok new)
        × (old < new))
      ⊎ (SameChain c storage chain r.1
          × (((e : Error) × (r.0 ≡ err e))
              ⊎ ((result : ChainActivationResult) × (r.0 ≡ ok result)
                  × (result.activated ≡ false))))

  switch_to-cases :
      (candidate : List StoredBlock) (result : ChainActivationResult) (chain : TestnetChain Disk)
      → (((switch_to c storage candidate result chain).1.blocks ≡ candidate)
          × IsConsistent c storage (switch_to c storage candidate result chain).1)
        ⊎ (SameChain c storage chain (switch_to c storage candidate result chain).1
            × (e : Error) × ((switch_to c storage candidate result chain).0 ≡ err e))
  unfolding switch_to
  switch_to-cases candidate result chain = elim (Result-cases (verify_blocks c candidate)) [
    | inr (e, failed) ↦ rw failed (inr (record { blocks = refl; utxos = refl }, e, refl))
    | inl (_, verified) ↦ elim (Result-cases (build_utxo_set c candidate)) [
      | inr (e, failed) ↦
          rw (verified, failed) (inr (record { blocks = refl; utxos = refl }, e, refl))
      | inl (utxos', built) ↦ elim (adopt-cases c storage candidate utxos' chain) [
        | inl (done, b, u) ↦
            rw (verified, built, after-ok (adopt c storage candidate utxos' chain) _ done)
              (inl (
                b,
                record {
                  verified = rw (sym b) at verified;
                  built = (rw (sym b) at built) ∙ ap ok (sym u);
                },
              ))
        | inr (e, failed, same) ↦
            rw (verified, built, after-err (adopt c storage candidate utxos' chain) _ failed)
              (inr (same, e, refl))
      ]
    ]
  ]

  -- After `activate_if_more_work` the chain is the candidate, which then has more work than the old
  -- blocks and verifies, with the set of its unspent outputs; or the call threw or reported no
  -- activation, and the blocks and the set in memory are as before.
  pub activate_if_more_work-Switched :
      (candidate : List StoredBlock) (chain : TestnetChain Disk)
      → Switched candidate chain (activate_if_more_work c storage candidate chain)
  unfolding activate_if_more_work
  activate_if_more_work-Switched candidate chain =
      elim (Result-cases (compare_branches c candidate chain.blocks)) [
        | inr (e, failed) ↦ rw failed (inr (record { blocks = refl; utxos = refl }, inl (e, refl)))
        | inl (result, compared) ↦
            let (old, new, idle) = compare_branches-work c candidate chain.blocks compared in
            elim (Bool-cases (leb result.candidate_chainwork result.old_chainwork)) [
              | inl less ↦
                  rw (compared, less)
                    (inr (record { blocks = refl; utxos = refl }, inr (result, refl, idle)))
              | inr more ↦ elim (Result-cases (with_disconnected c candidate chain.blocks result)) [
                | inr (e, failed) ↦
                    rw (compared, more, failed)
                      (inr (record { blocks = refl; utxos = refl }, inl (e, refl)))
                | inl (left, collected) ↦
                    rw (compared, more, collected)
                      (elim (switch_to-cases candidate left chain) [
                        | inr (same, e, failed) ↦ inr (same, inl (e, failed))
                        | inl (b, consistent) ↦ inl (
                          b,
                          consistent,
                          result.old_chainwork,
                          result.candidate_chainwork,
                          old,
                          new,
                          leb_false→lt _ _ more,
                        )
                      ])
              ]
            ]
      ]
    where
      leb_false→lt : (a b : ℕ) → leb a b ≡ false → b < a
      leb_false→lt a b h = ground arith
