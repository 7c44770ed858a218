-- ===== src/Storage/Texts/Snapshot.antt =====
-- src/storage.cpp: the snapshot of the unspent outputs that is written, and read back.
use binarycoin.Base.{
  ==_iff, All, All-append, Error, List, Text, [], ap, append-nil, append_assoc, arith, codes, false,
  map, none, ok, refl, snapshot_height_missing, snapshot_tip_missing, some, sym, text_eq_refl, ℕ,
  ◌++◌, ◌<◌, ◌==◌, ◌^◌, ◌∷◌, ◌≡◌,
}
use binarycoin.Storage.Lines.{show_number, strip_prefix}
use binarycoin.Storage.Lines.Pieces.{
  Lacks, Lacks-literal, lines-unlines, parse_unsigned-show_number, show_number-Lacks,
}
use binarycoin.Storage.Texts.{
  coin_line, make_utxo_text, next_field, parse_coins, parse_utxo_text, utxo_magic,
}
use binarycoin.Storage.Texts.CoinLines.{
  CoinFits, coin_line-Lacks, is_empty-coin_line, parse_coin-coin_line,
}
use binarycoin.Tx.{OutPoint}
use binarycoin.Utxo.{Coin, UtxoSet, contains, emplace, find, outpoint_eq, outpoint_less}

-- The order of the entries of a set: the later outpoint is behind the earlier one.
pub record Behind (earlier later : OutPoint) : Type 0 where
  pub not_less : outpoint_less later earlier ≡ false
  pub differs : outpoint_eq earlier later ≡ false

abbrev pub IsAscending : UtxoSet → Type 0
IsAscending [] = Unit
IsAscending ((o, coin) ∷ rest) = All (λ (e : OutPoint × Coin). Behind o e.0) rest × IsAscending rest

contains-none : (o : OutPoint) (us : UtxoSet) → find o us ≡ none → contains o us ≡ false
unfolding contains
contains-none o us h = rw (h, contains) refl

-- An outpoint behind all of a set goes to its end.
emplace_last :
    (o : OutPoint) (coin : Coin) (us : UtxoSet)
    → All (λ (e : OutPoint × Coin). Behind e.0 o) us
    → (emplace o coin us ≡ us ++ (o, coin) ∷ []) × (find o us ≡ none)
unfolding emplace find
emplace_last o coin [] h = (refl, refl)
emplace_last o coin ((p, old) ∷ us) (h, hs) =
    let (e, absent) = emplace_last o coin us hs in
    (rw (h.not_less, h.differs, e) refl, rw h.differs absent)

IsAscending-before :
    (before : UtxoSet) (o : OutPoint) (coin : Coin) (us : UtxoSet)
    → IsAscending (before ++ (o, coin) ∷ us)
    → All (λ (e : OutPoint × Coin). Behind e.0 o) before
IsAscending-before [] o coin us h = tt
IsAscending-before ((p, old) ∷ before) o coin us (h, hs) =
    (All-middle before h, IsAscending-before before o coin us hs)
  where
    All-middle :
        (before : UtxoSet)
        → All (λ (e : OutPoint × Coin). Behind p e.0) (before ++ (o, coin) ∷ us)
        → Behind p o
    All-middle [] (m, ms) = m
    All-middle (e ∷ before) (m, ms) = All-middle before ms

parse_coins_lem :
    (us before : UtxoSet)
    → All CoinFits us
    → IsAscending (before ++ us)
    → parse_coins (map coin_line us) before ≡ ok (before ++ us)
unfolding parse_coins
parse_coins_lem [] before h a = ap ok (sym (append-nil before))
parse_coins_lem ((o, coin) ∷ us) before (h, hs) a =
    let (e, absent) = emplace_last o coin before (IsAscending-before before o coin us a) in
    let next : IsAscending ((before ++ (o, coin) ∷ []) ++ us) =
      rw (append_assoc before ((o, coin) ∷ []) us) a in
    rw
      (
        is_empty-coin_line o coin h,
        parse_coin-coin_line o coin h,
        contains-none o before absent,
        e,
        parse_coins_lem us (before ++ (o, coin) ∷ []) hs next,
        append_assoc before ((o, coin) ∷ []) us,
      )
      refl

coin_lines-Lacks : (us : UtxoSet) → All CoinFits us → All (Lacks 10) (map coin_line us)
coin_lines-Lacks [] h = tt
coin_lines-Lacks ((o, coin) ∷ us) (h, hs) = (coin_line-Lacks o coin h, coin_lines-Lacks us hs)

strip_prefix_lem : (prefix text : Text) → strip_prefix prefix (prefix ++ text) ≡ some text
unfolding strip_prefix
strip_prefix_lem [] text = refl
strip_prefix_lem (c ∷ prefix) text = rw ((==_iff c c).1 refl) (strip_prefix_lem prefix text)

next_field_lem :
    (prefix value : Text) (error : Error) (rest : List Text)
    → next_field prefix error ((prefix ++ value) ∷ rest) ≡ ok (value, rest)
unfolding next_field
next_field_lem prefix value error rest = rw (strip_prefix_lem prefix value, next_field) refl

-- A set in ascending order, whose entries fit their types, with amounts in the range of money, is
-- written for a height and a best block as a text, from which it is read back for the same height
-- and best block.
pub parse_utxo_text-make_utxo_text :
    (us : UtxoSet) (height : ℕ) (bestblock : Text)
    → All CoinFits us
    → IsAscending us
    → height < 2 ^ 64
    → Lacks 10 bestblock
    → parse_utxo_text (make_utxo_text us height bestblock) height bestblock ≡ ok us
unfolding parse_utxo_text make_utxo_text
parse_utxo_text-make_utxo_text us height bestblock h a small clean =
    rw
      (
        lines-unlines
            (utxo_magic
              ∷ (codes "height=" ++ show_number height)
              ∷ (codes "bestblock=" ++ bestblock)
              ∷ map coin_line us)
            (
              magic,
              (
                All-append (λ (c : ℕ). (c == 10) ≡ false) (codes "height=") (show_number height)
                    named_height (show_number-Lacks 10 height (omega arith)),
                (
                  All-append (λ (c : ℕ). (c == 10) ≡ false) (codes "bestblock=") bestblock
                      named_bestblock clean,
                  coin_lines-Lacks us h,
                ),
              ),
            ),
        text_eq_refl utxo_magic,
        next_field_lem (codes "height=") (show_number height) snapshot_height_missing _,
        parse_unsigned-show_number 64 height small (omega (arith, small)),
        next_field_lem (codes "bestblock=") bestblock snapshot_tip_missing (map coin_line us),
        (==_iff height height).1 refl,
        text_eq_refl bestblock,
        parse_coins_lem us [] h a,
      )
      refl
  where
    magic : Lacks 10 utxo_magic
    magic = Lacks-literal 10 utxo_magic refl

    named_height : Lacks 10 (codes "height=")
    named_height = Lacks-literal 10 (codes "height=") refl

    named_bestblock : Lacks 10 (codes "bestblock=")
    named_bestblock = Lacks-literal 10 (codes "bestblock=") refl
