-- ===== src/Chain/Node/Consistency.antt =====
-- src/chain.cpp: the blocks and the unspent outputs in memory, and `append_blocks`.
use binarycoin.Base.{
  ◌==◌, Error, non_contiguous, not_extending_tip, Result, ok, err, >>=-eq-ok, >>-eq-ok,
  Result-cases, ok-injective, text_eq, ◌+◌, ◌%◌, ◌^◌, ◌≡◌, refl, sym, ap, ◌∙◌, ◌⊎◌, inl, inr, false,
  not, List, [], ◌∷◌, ◌++◌, append-nil, append_assoc,
}
use binarycoin.Hash.Crypto.{Crypto}
use binarycoin.Tx.{is_empty}
use binarycoin.Utxo.{UtxoSet}
use binarycoin.Block.{StoredBlock, hash_hex}
use binarycoin.Chain.{header_of, verify_blocks, build_utxo_set}
use binarycoin.Chain.Node.{
  Storage, TestnetChain, tip, ensure_initialized, adopt, extend, extended, append_to, append_blocks,
}

module _ (c : Crypto) {Disk : Type 0} (storage : Storage Disk) where
  pub record IsConsistent (chain : TestnetChain Disk) : Type 0 where
    pub verified : verify_blocks c chain.blocks ≡ ok tt
    pub built : build_utxo_set c chain.blocks ≡ ok chain.utxos

  -- The blocks and the set in memory are those of another state.
  pub record SameChain (chain other : TestnetChain Disk) : Type 0 where
    pub blocks : other.blocks ≡ chain.blocks
    pub utxos : other.utxos ≡ chain.utxos

  SameChain-IsConsistent :
      (a b : TestnetChain Disk) → SameChain a b → IsConsistent a → IsConsistent b
  SameChain-IsConsistent a b same h =
      let blocks = sym same.blocks in
      record {
        verified = rw blocks at h.verified;
        built = (rw blocks at h.built) ∙ ap ok (sym same.utxos);
      }

  pub adopt-cases :
      (blocks' : List StoredBlock) (utxos' : UtxoSet) (chain : TestnetChain Disk)
      → (((adopt c storage blocks' utxos' chain).0 ≡ ok tt)
          × ((adopt c storage blocks' utxos' chain).1.blocks ≡ blocks')
          × ((adopt c storage blocks' utxos' chain).1.utxos ≡ utxos'))
        ⊎ ((e : Error) × ((adopt c storage blocks' utxos' chain).0 ≡ err e)
            × SameChain chain (adopt c storage blocks' utxos' chain).1)
  unfolding adopt
  adopt-cases blocks' utxos' chain =
      elim (Result-cases (storage.commit blocks' utxos' chain.disk).0) [
        | inl (_, done) ↦ inl (rw (done, adopt) (refl, refl, refl))
        | inr (e, failed) ↦ inr (
          e,
          rw (failed, adopt) refl,
          rw (failed, adopt) (record { blocks = refl; utxos = refl }),
        )
      ]

  extend-blocks :
      (last : StoredBlock) (incoming blocks : List StoredBlock) {blocks' : List StoredBlock}
      → extend c storage last incoming blocks ≡ ok blocks'
      → blocks' ≡ blocks ++ incoming
  unfolding extend
  extend-blocks last [] blocks h = sym (ok-injective h) ∙ sym (append-nil blocks)
  extend-blocks last (stored ∷ rest) blocks h =
      let (_, h1) =
        >>-eq-ok (not (stored.height == (last.height + 1) % 2 ^ 64)) non_contiguous _ h in
      let (last_hash, _, h2) = >>=-eq-ok (hash_hex c (header_of last)) _ h1 in
      let (_, h3) =
        >>-eq-ok (not (text_eq (header_of stored).previous_hash last_hash)) not_extending_tip _
          h2 in
      extend-blocks stored rest (blocks ++ stored ∷ []) h3 ∙ append_assoc blocks (stored ∷ []) rest

  extended-parts :
      (incoming blocks : List StoredBlock) {blocks' : List StoredBlock} {utxos' : UtxoSet}
      → extended c storage incoming blocks ≡ ok (blocks', utxos')
      → (blocks' ≡ blocks ++ incoming)
        × (verify_blocks c blocks' ≡ ok tt)
        × (build_utxo_set c blocks' ≡ ok utxos')
  unfolding extended
  extended-parts incoming blocks {blocks'} {utxos'} h =
      let (last, _, h1) = >>=-eq-ok (tip blocks) _ h in
      let (grown, extends, h2) = >>=-eq-ok (extend c storage last incoming blocks) _ h1 in
      let (_, verified, h3) = >>=-eq-ok (verify_blocks c grown) _ h2 in
      let (utxos, built, h4) = >>=-eq-ok (build_utxo_set c grown) _ h3 in
      let e : (grown, utxos) ≡ (blocks', utxos') = ok-injective h4 in
      let e1 : grown ≡ blocks' = ap (λ (p : List StoredBlock × UtxoSet). p.0) e in
      let e2 : utxos ≡ utxos' = ap (λ (p : List StoredBlock × UtxoSet). p.1) e in
      (
        sym e1 ∙ extend-blocks last incoming blocks extends,
        rw e1 at verified,
        (rw e1 at built) ∙ ap ok e2,
      )

  -- What a call may have done to a chain: it grew by the blocks, or it threw and is as before.
  abbrev pub Appended :
      List StoredBlock → TestnetChain Disk → Result (Unit {0}) × TestnetChain Disk → Type 0
  Appended incoming chain r =
      ((r.0 ≡ ok tt) × (r.1.blocks ≡ chain.blocks ++ incoming) × IsConsistent r.1)
      ⊎ ((e : Error) × (r.0 ≡ err e) × SameChain chain r.1)

  append_to-Appended :
      (incoming : List StoredBlock) (chain : TestnetChain Disk)
      → Appended incoming chain (append_to c storage incoming chain)
  unfolding append_to
  append_to-Appended incoming chain =
      elim (Result-cases (extended c storage incoming chain.blocks)) [
        | inr (e, failed) ↦
            rw (failed, append_to) (inr (e, refl, record { blocks = refl; utxos = refl }))
        | inl ((blocks', utxos'), grown) ↦
            let (appended, verified, built) = extended-parts incoming chain.blocks grown in
            rw (grown, append_to)
              (elim (adopt-cases blocks' utxos' chain) [
                | inr failed ↦ inr failed
                | inl (done, b, u) ↦ inl (
                  done,
                  b ∙ appended,
                  record {
                    verified = rw (sym b) at verified;
                    built = (rw (sym b) at built) ∙ ap ok (sym u);
                  },
                )
              ])
      ]

  pub consistent_not_empty :
      (chain : TestnetChain Disk) → IsConsistent chain → is_empty chain.blocks ≡ false
  unfolding verify_blocks
  consistent_not_empty chain h = not_empty chain.blocks h.verified
    where
      not_empty :
          (blocks : List StoredBlock) → verify_blocks c blocks ≡ ok tt → is_empty blocks ≡ false
      not_empty [] h = absurd (cc h)
      not_empty (b ∷ bs) h = refl

  -- On a chain that verifies and has the set of its unspent outputs, `append_blocks` either appends
  -- all the blocks, and the result is such a chain, or it throws, and the blocks and the set in
  -- memory are as before.
  pub append_blocks-Appended :
      (incoming : List StoredBlock) (chain : TestnetChain Disk)
      → IsConsistent chain
      → Appended incoming chain (append_blocks c storage incoming chain)
  unfolding append_blocks ensure_initialized
  append_blocks-Appended [] chain h = inl (refl, sym (append-nil chain.blocks), h)
  append_blocks-Appended (first ∷ rest) chain h =
      rw (consistent_not_empty chain h) (append_to-Appended (first ∷ rest) chain)
