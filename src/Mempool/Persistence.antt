-- ===== src/Mempool/Persistence.antt =====
-- src/mempool.cpp: the file of the mempool.
use binarycoin.Base.{
  All, ok, >>=-eq-ok, Result-cases, ok-injective, Text, text_eq_refl, ℕ, ◌≡◌, refl, sym, ap, inl,
  inr, true, false, List, [], ◌∷◌, ◌++◌, append-nil, append_assoc,
}
use binarycoin.Hash.{bytes_to_hex}
use binarycoin.Tx.{Transaction, is_empty}
use binarycoin.Tx.Serialize.{serialize}
use binarycoin.Tx.Serialize.Layout.{TxFits}
use binarycoin.Tx.Serialize.RoundTrip.Bytes.{ScriptsFit, serialize-bytes}
use binarycoin.Mempool.{Mempool, mempool_magic, transaction_lines, save, load_lines, load}
use binarycoin.Hash.RoundTrip.{hex_to_bytes-bytes_to_hex}

is_empty-bytes_to_hex : (bs : List ℕ) → is_empty bs ≡ false → is_empty (bytes_to_hex bs) ≡ false
unfolding bytes_to_hex
is_empty-bytes_to_hex [] h = cc
is_empty-bytes_to_hex (b ∷ bs) h = refl

load_lines-lem :
    (ts acc : List Transaction) {lines : List Text}
    → All TxFits ts
    → All ScriptsFit ts
    → transaction_lines ts ≡ ok lines
    → load_lines lines acc ≡ (ok tt, acc ++ ts)
unfolding load_lines transaction_lines
load_lines-lem [] acc f s h = rw (← ok-injective h) (ap (λ l. (ok tt, l)) (sym (append-nil acc)))
load_lines-lem (t ∷ ts) acc (f, fs) (s, ss) h =
    let (bytes, e1, h1) = >>=-eq-ok (serialize t) _ h in
    let (lines, e2, h2) = >>=-eq-ok (transaction_lines ts) _ h1 in
    let (wide, back, some_byte) = serialize-bytes t f s e1 in
    rw (
      ← ok-injective h2,
      is_empty-bytes_to_hex bytes some_byte,
      hex_to_bytes-bytes_to_hex bytes wide,
      back,
      load_lines-lem ts (acc ++ t ∷ []) fs ss e2,
      append_assoc,
    )

-- When a mempool of transactions whose fields and scripts fit their types is saved, loading the
-- file succeeds and gives the same transactions, in the same order.
pub load-save :
    (pool : Mempool)
    → All TxFits pool.transactions
    → All ScriptsFit pool.transactions
    → (save true pool).0 ≡ ok tt
    → (load (save true pool).1).0 ≡ ok tt
      × ((load (save true pool).1).1.transactions ≡ pool.transactions)
unfolding save load
load-save pool f s h = elim (Result-cases (transaction_lines pool.transactions)) [
  | inr (e, failed) ↦ absurd (cc (rw (failed, save) at h))
  | inl (lines, written) ↦
      let loaded = load_lines-lem pool.transactions [] f s written in
      rw (written, save, text_eq_refl mempool_magic, loaded) (refl, refl)
]
