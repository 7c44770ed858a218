-- ===== src/Net/Items.antt =====
-- src/net.cpp: payloads that are a count and so many items. The loops of the source differ in their
-- items and limits alone.
pub mod RoundTrip
use binarycoin.Base.{
  Error, List, Result, [], length, ltb, ok, suc, throw_if, zero, ℕ, ◌>>=◌, ◌>>◌, ◌∷◌,
}
use binarycoin.Codec.{append_compact_size, read_compact_size}
use binarycoin.Net.{at_end}

module _ {ℓ} {A : Type ℓ} where
  -- `for (index = 0; index < count; ++index)`, with an item that is read in each round.
  unfoldable pub read_items : (ℕ → Result (A × ℕ)) → ℕ → ℕ → Result (List A × ℕ)
  read_items read zero offset = ok ([], offset)
  read_items read (suc count) offset = do
    (item, offset1) ← read offset
    (rest, offset2) ← read_items read count offset1
    ok (item ∷ rest, offset2)

  -- `for (item : items)`, with an item that is appended in each round.
  unfoldable pub write_items : (List ℕ → A → Result (List ℕ)) → List ℕ → List A → Result (List ℕ)
  write_items write output [] = ok output
  write_items write output (item ∷ rest) = do
    output' ← write output item
    write_items write output' rest

  -- The count, the items, and nothing behind them.
  unfoldable pub read_counted : ℕ → Error → (List ℕ → ℕ → Result (A × ℕ)) → List ℕ → Result (List A)
  read_counted limit over_limit read payload = do
    (count, offset1) ← read_compact_size payload 0
    throw_if (ltb limit count) over_limit
    (items, offset2) ← read_items (read payload) count offset1
    at_end offset2 payload
    ok items

  unfoldable pub write_counted :
      ℕ → Error → (List ℕ → A → Result (List ℕ)) → List A → Result (List ℕ)
  write_counted limit over_limit write items =
      throw_if (ltb limit (length items)) over_limit
      >> write_items write (append_compact_size [] (length items)) items
