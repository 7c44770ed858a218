-- ===== src/Utxo/Coins.antt =====
-- src/utxo.cpp: the laws of the map of unspent outputs, and the money that it holds.
use binarycoin.Tx.{OutPoint, TxOutput, Transaction}
use binarycoin.Amount.{Amount, max_money, money_range}
use binarycoin.Base.{
  Bool-cases, ◌+ℤ◌, ◌-ℤ◌, ℤ, pos, ltb_ℤ, -ℤ_parts, int_laws, +ℤ_comm, +ℤ_assoc, +ℤ_zero, zero-+ℤ,
  Error, output_total_outside_money, ok, >>-eq-ok, ok-injective, Text, text_eq_iff, ℕ, ◌+◌, ◌%◌,
  ◌^◌, ◌≡◌, refl, sym, ap, ◌∙◌, ◌↔◌, inl, inr, Bool, true, false, not, ◌||◌, some, List, [], ◌∷◌,
  arith,
}
use binarycoin.Utxo.{
  Coin, outpoint_eq, UtxoSet, find, contains, erase, emplace, add_output_values, sum_outputs,
  create_outputs,
}

pub outpoint_eq_iff : (a b : OutPoint) → (outpoint_eq a b ≡ true) ↔ (a ≡ b)
unfolding outpoint_eq
outpoint_eq_iff a b = (
  (λ h. ground (arith, text_eq_iff a.txid b.txid)),
  (λ h. ground (arith, text_eq_iff a.txid b.txid)),
)

-- The value of all coins of the set.
pub total_value : UtxoSet → Amount
total_value [] = pos 0
total_value ((o, coin) ∷ rest) = coin.output.value +ℤ total_value rest

pub total_value-empty : total_value [] ≡ pos 0
unfolding total_value
total_value-empty = refl

pub find-erase_ne :
    (o k : OutPoint) (u : UtxoSet) → outpoint_eq o k ≡ false → find k (erase o u) ≡ find k u
unfolding find erase
find-erase_ne o k [] h = refl
find-erase_ne o k ((j, coin) ∷ u) h =
    ground
      (arith, outpoint_eq_iff j o, outpoint_eq_iff j k, outpoint_eq_iff o k, find-erase_ne o k u h)

pub total_value-erase :
    (o : OutPoint) (u : UtxoSet) {coin : Coin}
    → find o u ≡ some coin
    → total_value (erase o u) +ℤ coin.output.value ≡ total_value u
unfolding find erase total_value
total_value-erase o [] h = cc
total_value-erase o ((j, old) ∷ u) {coin} h = elim (Bool-cases (outpoint_eq j o)) [
  | inl same ↦
      let e : old ≡ coin = ground arith in rw (same, e) (+ℤ_comm (total_value u) coin.output.value)
  | inr other ↦
      let rest : find o u ≡ some coin = ground arith in
      rw other (
        +ℤ_assoc old.output.value (total_value (erase o u)) coin.output.value
        ∙ ap (λ v. old.output.value +ℤ v) (total_value-erase o u rest))
]

pub total_value-emplace :
    (o : OutPoint) (coin : Coin) (u : UtxoSet)
    → contains o u ≡ false
    → total_value (emplace o coin u) ≡ total_value u +ℤ coin.output.value
unfolding contains find emplace total_value
total_value-emplace o coin [] h = omega int_laws
total_value-emplace o coin ((j, old) ∷ u) h = grind (int_laws, total_value-emplace o coin u)

-- The value of a list of outputs.
pub outputs_value : List TxOutput → Amount
outputs_value [] = pos 0
outputs_value (t ∷ ts) = t.value +ℤ outputs_value ts

pub add_output_values-eq :
    (total : Amount) (ts : List TxOutput) {sum : Amount}
    → add_output_values total ts ≡ ok sum
    → sum ≡ total +ℤ outputs_value ts
unfolding add_output_values outputs_value
add_output_values-eq total [] h = sym (ok-injective h) ∙ sym (+ℤ_zero total)
add_output_values-eq total (t ∷ ts) h =
    let (_, h1) =
      >>-eq-ok (not (money_range t.value) || ltb_ℤ (pos max_money -ℤ t.value) total)
        output_total_outside_money _ h in
    add_output_values-eq (total +ℤ t.value) ts h1 ∙ +ℤ_assoc total t.value (outputs_value ts)

pub sum_outputs-eq :
    (t : Transaction) {sum : Amount} → sum_outputs t ≡ ok sum → sum ≡ outputs_value t.outputs
unfolding sum_outputs
sum_outputs-eq t h = add_output_values-eq (pos 0) t.outputs h ∙ zero-+ℤ (outputs_value t.outputs)

pub total_value-create_outputs :
    (e : Error) (txid : Text) (index : ℕ) (ts : List TxOutput) (height : ℕ) (coinbase : Bool)
    (u : UtxoSet)
    → (create_outputs e txid index ts height coinbase u).0 ≡ ok tt
    → total_value (create_outputs e txid index ts height coinbase u).1
      ≡ total_value u +ℤ outputs_value ts
unfolding create_outputs outputs_value
total_value-create_outputs e txid index [] height coinbase u h = omega int_laws
total_value-create_outputs e txid index (t ∷ ts) height coinbase u h =
    let o : OutPoint = record { txid = txid; index = index % 2 ^ 32 } in
    let coin : Coin = record { output = t; height = height; coinbase = coinbase } in
    elim (Bool-cases (contains o u)) [
      | inl there ↦ absurd (cc (rw there at h))
      | inr new ↦ rw new (
          total_value-create_outputs e txid (index + 1) ts height coinbase (emplace o coin u)
            (rw new at h)
          ∙ ap (λ v. v +ℤ outputs_value ts) (total_value-emplace o coin u new)
          ∙ +ℤ_assoc (total_value u) t.value (outputs_value ts))
    ]

-- The total of a single output.
pub sum_outputs-single :
    (t : Transaction) (output : TxOutput)
    → t.outputs ≡ output ∷ []
    → money_range output.value ≡ true
    → sum_outputs t ≡ ok output.value
unfolding sum_outputs add_output_values
sum_outputs-single t output one range =
    rw (one, range) rw (below output.value range, zero-+ℤ output.value) refl
  where
    below : (v : ℤ) → money_range v ≡ true → ltb_ℤ (pos max_money -ℤ v) (pos 0) ≡ false
    below v h = ground (arith, -ℤ_parts (pos max_money) v)
