-- ===== src/Storage/Texts/CoinLines.antt =====
-- src/storage.cpp: the line of an unspent output in the snapshot.
use binarycoin.Amount.{max_money, money_range}
use binarycoin.Base.{
  All, Bool, IsByte, List, Text, [], arith, false, if◌then◌else◌, not, ok, pos, refl, text_eq, true,
  ℕ, ◌%◌, ◌&&◌, ◌/◌, ◌<◌, ◌==◌, ◌^◌, ◌∷◌, ◌≡◌, ◌≤◌,
}
use binarycoin.Hash.{bytes_to_hex, hex_digit}
use binarycoin.Hash.RoundTrip.{hex_to_bytes-bytes_to_hex}
use binarycoin.Storage.Lines.{parse_amount, show_amount, show_number, split}
use binarycoin.Storage.Lines.Pieces.{
  Lacks, is_empty-tabbed, parse_amount-show_amount, parse_unsigned-show_number, show_number-Lacks,
  split-tabbed, tabbed-Lacks,
}
use binarycoin.Storage.Texts.{coin_line, parse_coin}
use binarycoin.Tx.{OutPoint, is_empty}
use binarycoin.Utxo.{Coin}

-- What the types of the source and the form of its hashes say of an entry.
pub record CoinFits (entry : OutPoint × Coin) : Type 0 where
  pub no_tab : Lacks 9 entry.0.txid
  pub no_line_feed : Lacks 10 entry.0.txid
  pub index : entry.0.index < 2 ^ 32
  pub amount : ℕ
  pub value : entry.1.output.value ≡ pos amount
  pub in_range : amount ≤ max_money
  pub height : entry.1.height < 2 ^ 64
  pub script : All IsByte entry.1.output.script_pubkey

hex_digit-Lacks : (separator n : ℕ) → separator < b'0' → n < 16 → (hex_digit n == separator) ≡ false
hex_digit-Lacks separator n small h = ground arith

pub bytes_to_hex-Lacks :
    (separator : ℕ) (bs : List ℕ)
    → separator < b'0'
    → All IsByte bs
    → Lacks separator (bytes_to_hex bs)
unfolding bytes_to_hex
bytes_to_hex-Lacks separator [] small h = tt
bytes_to_hex-Lacks separator (b ∷ bs) small (h, hs) = (
  hex_digit-Lacks separator (b / 16) small (omega arith),
  (
    hex_digit-Lacks separator (b % 16) small (omega arith),
    bytes_to_hex-Lacks separator bs small hs,
  ),
)

flag_text-Lacks :
    (separator : ℕ) (flag : Bool)
    → separator < b'0'
    → Lacks separator (if flag then b'1' ∷ [] else b'0' ∷ [])
flag_text-Lacks separator true h = (ground arith, tt)
flag_text-Lacks separator false h = (ground arith, tt)

module _ (o : OutPoint) (coin : Coin) (h : CoinFits (o, coin)) where
  coin_fields : List Text
  coin_fields =
      show_number o.index
      ∷ show_amount coin.output.value
      ∷ show_number coin.height
      ∷ (if coin.coinbase then b'1' ∷ [] else b'0' ∷ [])
      ∷ bytes_to_hex coin.output.script_pubkey
      ∷ []

  fields-Lacks : (separator : ℕ) → separator < b'0' → All (Lacks separator) coin_fields
  unfolding coin_fields show_amount
  fields-Lacks separator small = (
    show_number-Lacks separator o.index small,
    (
      rw h.value (show_number-Lacks separator h.amount small),
      (
        show_number-Lacks separator coin.height small,
        (
          flag_text-Lacks separator coin.coinbase small,
          (bytes_to_hex-Lacks separator coin.output.script_pubkey small h.script, tt),
        ),
      ),
    ),
  )

  pub coin_line-Lacks : Lacks 10 (coin_line (o, coin))
  unfolding coin_line coin_fields
  coin_line-Lacks =
      tabbed-Lacks 10 (o.txid ∷ coin_fields) refl (h.no_line_feed, fields-Lacks 10 (omega arith))

  split-coin_line : split 9 (coin_line (o, coin)) ≡ o.txid ∷ coin_fields
  unfolding coin_line coin_fields
  split-coin_line = split-tabbed o.txid coin_fields (h.no_tab, fields-Lacks 9 (omega arith))

  pub is_empty-coin_line : is_empty (coin_line (o, coin)) ≡ false
  unfolding coin_line
  is_empty-coin_line = is_empty-tabbed o.txid _ _

  parse_value : parse_amount (show_amount coin.output.value) ≡ ok coin.output.value
  parse_value = rw h.value (parse_amount-show_amount h.amount (omega (arith, h.in_range)))

  value_in_range : not (money_range coin.output.value) ≡ false
  value_in_range = rw h.value (ground (arith, h.in_range))

  flag_read :
      (flag : Bool)
      → (not (text_eq (if flag then b'1' ∷ [] else b'0' ∷ []) (b'0' ∷ []))
            && not (text_eq (if flag then b'1' ∷ [] else b'0' ∷ []) (b'1' ∷ []))
          ≡ false)
        × (text_eq (if flag then b'1' ∷ [] else b'0' ∷ []) (b'1' ∷ []) ≡ flag)
  unfolding text_eq
  flag_read true = (refl, refl)
  flag_read false = (refl, refl)

  pub parse_coin-coin_line : parse_coin (split 9 (coin_line (o, coin))) ≡ ok (o, coin)
  unfolding parse_coin coin_fields
  parse_coin-coin_line =
      rw
        (
          split-coin_line,
          parse_coin,
          parse_unsigned-show_number 32 o.index h.index (omega (arith, h.index)),
          parse_value,
          hex_to_bytes-bytes_to_hex coin.output.script_pubkey h.script,
          parse_unsigned-show_number 64 coin.height h.height (omega (arith, h.height)),
          value_in_range,
          (flag_read coin.coinbase).0,
          (flag_read coin.coinbase).1,
        )
        refl
