-- ===== src/Net/Items/RoundTrip.antt =====
-- src/net.cpp: counted items that are written and read back.
use binarycoin.Base.{
  ==_iff, >>=-eq-ok, All, Bool, Error, List, Result, [], ap, append-nil, append_assoc, arith,
  bind_ok, length, ltb-false, not, ok, ok-injective, refl, suc, sym, throw_if, trailing_payload,
  zero, ℕ, ◌++◌, ◌<◌, ◌^◌, ◌∙◌, ◌∷◌, ◌≡◌, ◌≤◌,
}
use binarycoin.Codec.{append_compact_size}
use binarycoin.Codec.Read.{Ahead, Ahead-start}
use binarycoin.Codec.Reads.{Ahead-end, Reads, compact_size_Reads}
use binarycoin.Codec.Write.{append_compact_size_lem, compact_bytes}
use binarycoin.Net.Items.{read_counted, read_items, write_counted, write_items}
use mathlib.Core.Path.{subst}

module _ {ℓ} {A : Type ℓ} (write : List ℕ → A → Result (List ℕ))
    (read : List ℕ → ℕ → Result (A × ℕ)) where
  -- The item is appended as some bytes, and read where they stand ahead.
  pub record Carries (item : A) : Type ℓ where
    pub bytes : List ℕ
    pub written : (out : List ℕ) → write out item ≡ ok (out ++ bytes)
    pub reads :
        (input rest : List ℕ) (o : ℕ)
        → Ahead input o (bytes ++ rest)
        → Reads (read input o) input rest item

  unfoldable pub items_bytes : (items : List A) → All Carries items → List ℕ
  items_bytes [] h = []
  items_bytes (item ∷ items) (h, hs) = h.bytes ++ items_bytes items hs

  pub write_items_lem :
      (items : List A) (h : All Carries items) (out : List ℕ)
      → write_items write out items ≡ ok (out ++ items_bytes items h)
  unfolding write_items items_bytes
  write_items_lem [] h out = ap ok (sym (append-nil out))
  write_items_lem (item ∷ items) (h, hs) out = bind_ok _ _ (h.written out) (
      write_items_lem items hs (out ++ h.bytes)
      ∙ ap ok (append_assoc out h.bytes (items_bytes items hs)))

  pub read_items_lem :
      (items : List A) (h : All Carries items) (input rest : List ℕ) (o : ℕ)
      → Ahead input o (items_bytes items h ++ rest)
      → Reads (read_items (read input) (length items) o) input rest items
  unfolding read_items items_bytes
  read_items_lem [] h input rest o a = (o, refl, a)
  read_items_lem (item ∷ items) (h, hs) input rest o a =
      let (o1, e1, a1) =
        h.reads input (items_bytes items hs ++ rest) o
          (rw (append_assoc h.bytes (items_bytes items hs) rest) at a) in
      let (o2, e2, a2) = read_items_lem items hs input rest o1 a1 in
      (o2, bind_ok _ _ e1 (bind_ok _ _ e2 refl), a2)

  -- Items within the limit are written, and read back to the last byte.
  pub read_counted-write_counted :
      (limit : ℕ) (over_write over_read : Error) (items : List A)
      → All Carries items
      → length items ≤ limit
      → limit < 2 ^ 64
      → (bytes : List ℕ) × (write_counted limit over_write write items ≡ ok bytes)
        × (read_counted limit over_read read bytes ≡ ok items)
  unfolding write_counted read_counted
  read_counted-write_counted limit over_write over_read items h small fits =
      let count = length items in
      let input = compact_bytes count ++ items_bytes items h in
      let (o1, e1, a1) =
        compact_size_Reads input (items_bytes items h ++ []) 0 count (omega (arith, small, fits))
          (rw (append-nil (items_bytes items h)) (Ahead-start input)) in
      let (o2, e2, a2) = read_items_lem items h input [] o1 a1 in
      (
        input,
        bind_ok _ _ (ap (λ (b : Bool). throw_if b over_write) (ltb-false limit count small)) (
            write_items_lem items h (append_compact_size [] count)
            ∙ ap ok (rw (append_compact_size_lem [] count) refl)),
        bind_ok _ _ e1 (
            bind_ok _ _ (ap (λ (b : Bool). throw_if b over_read) (ltb-false limit count small)) (
              bind_ok _ _ e2 (
                bind_ok _ _
                  (ap (λ (b : Bool). throw_if (not b) trailing_payload)
                    ((==_iff o2 (length input)).1 (Ahead-end input o2 a2)))
                  refl))),
      )

-- What holds of every item that is read holds of all of them.
module _ {ℓ κ} {A : Type ℓ} (P : A → Type κ) (read : ℕ → Result (A × ℕ))
    (each : (o o' : ℕ) (item : A) → read o ≡ ok (item, o') → P item) where
  pub read_items-All :
      (count o : ℕ) {items : List A} {o' : ℕ}
      → read_items read count o ≡ ok (items, o')
      → All P items
  unfolding read_items
  read_items-All zero o h = subst (All P) (ap (λ (x : List A × ℕ). x.0) (ok-injective h)) tt
  read_items-All (suc count) o h =
      let (first, e, later) = >>=-eq-ok (read o) _ h in
      let (rest, e', same) = >>=-eq-ok (read_items read count first.1) _ later in
      subst (All P) (ap (λ (x : List A × ℕ). x.0) (ok-injective same))
        (each o first.1 first.0 e, read_items-All count first.1 e')
