-- ===== src/Storage/Texts/Index.antt =====
-- src/storage.cpp: the block index that is written, and read back.
use binarycoin.Base.{
  ==_iff, All, List, [], ap, append-nil, append_assoc, arith, false, length, length-append,
  ltb-false, map, ok, refl, suc, sym, text_eq_refl, ℕ, ◌++◌, ◌<◌, ◌^◌, ◌∷◌, ◌≡◌, ◌≤◌,
}
use binarycoin.Storage.Lines.{show_number, split}
use binarycoin.Storage.Lines.Pieces.{
  Lacks, Lacks-literal, is_empty-tabbed, lines-unlines, parse_unsigned-show_number,
  show_number-Lacks, split-tabbed, tabbed-Lacks,
}
use binarycoin.Storage.Texts.{
  IndexEntry, index_line, index_magic, make_index_text, max_block_record_size, parse_entries,
  parse_entry, parse_index_text,
}
use binarycoin.Tx.{is_empty}
use mathlib.Core.Path.{subst}

pub record EntryFits (entry : IndexEntry) : Type 0 where
  pub height : entry.height < 2 ^ 64
  pub offset : entry.offset < 2 ^ 64
  pub payload_size : entry.payload_size ≤ max_block_record_size
  pub no_tab : Lacks 9 entry.hash
  pub no_line_feed : Lacks 10 entry.hash

-- The heights count from `first` on.
abbrev pub Numbered : ℕ → List IndexEntry → Type 0
Numbered first [] = Unit
Numbered first (entry ∷ entries) = (entry.height ≡ first) × Numbered (suc first) entries

module _ (entry : IndexEntry) (h : EntryFits entry) where
  index_line-Lacks : Lacks 10 (index_line entry)
  unfolding index_line
  index_line-Lacks = tabbed-Lacks 10 _ refl (
    show_number-Lacks 10 entry.height (omega arith),
    (
      show_number-Lacks 10 entry.offset (omega arith),
      (show_number-Lacks 10 entry.payload_size (omega arith), (h.no_line_feed, tt)),
    ),
  )

  split-index_line :
      split 9 (index_line entry)
      ≡ show_number entry.height
        ∷ show_number entry.offset
        ∷ show_number entry.payload_size
        ∷ entry.hash
        ∷ []
  unfolding index_line
  split-index_line =
      split-tabbed (show_number entry.height)
        (show_number entry.offset ∷ show_number entry.payload_size ∷ entry.hash ∷ [])
        (
          show_number-Lacks 9 entry.height (omega arith),
          (
            show_number-Lacks 9 entry.offset (omega arith),
            (show_number-Lacks 9 entry.payload_size (omega arith), (h.no_tab, tt)),
          ),
        )

  is_empty-index_line : is_empty (index_line entry) ≡ false
  unfolding index_line
  is_empty-index_line = is_empty-tabbed (show_number entry.height) _ _

  parse_entry-index_line : parse_entry entry.height (split 9 (index_line entry)) ≡ ok entry
  unfolding parse_entry
  parse_entry-index_line =
      rw
        (
          split-index_line,
          parse_entry,
          parse_unsigned-show_number 64 entry.height h.height (omega (arith, h.height)),
          parse_unsigned-show_number 64 entry.offset h.offset (omega (arith, h.offset)),
          parse_unsigned-show_number 64 entry.payload_size (omega (arith, h.payload_size))
              (omega (arith, h.payload_size)),
          ltb-false max_block_record_size entry.payload_size h.payload_size,
          (==_iff entry.height entry.height).1 refl,
        )
        refl

parse_entries_lem :
    (entries before : List IndexEntry)
    → All EntryFits entries
    → Numbered (length before) entries
    → parse_entries (map index_line entries) before ≡ ok (before ++ entries)
unfolding parse_entries
parse_entries_lem [] before h n = ap ok (sym (append-nil before))
parse_entries_lem (entry ∷ entries) before (h, hs) (n, ns) =
    let next : Numbered (length (before ++ entry ∷ [])) entries =
      subst (λ (k : ℕ). Numbered k entries) (omega (arith, length-append before (entry ∷ []))) ns in
    rw
      (
        is_empty-index_line entry h,
        ← n,
        parse_entry-index_line entry h,
        parse_entries_lem entries (before ++ entry ∷ []) hs next,
        append_assoc before (entry ∷ []) entries,
      )
      refl

index_lines-Lacks :
    (entries : List IndexEntry) → All EntryFits entries → All (Lacks 10) (map index_line entries)
index_lines-Lacks [] h = tt
index_lines-Lacks (entry ∷ entries) (h, hs) =
    (index_line-Lacks entry h, index_lines-Lacks entries hs)

-- A block index that is not empty, whose heights count from 0, whose numbers fit their types and
-- the limit of a record, and whose hashes have no tab or line feed, is written as a text that is
-- read back as that index.
pub parse_index_text-make_index_text :
    (entry : IndexEntry) (entries : List IndexEntry)
    → All EntryFits (entry ∷ entries)
    → Numbered 0 (entry ∷ entries)
    → parse_index_text (make_index_text (entry ∷ entries)) ≡ ok (entry ∷ entries)
unfolding parse_index_text make_index_text
parse_index_text-make_index_text entry entries h n =
    rw
      (
        lines-unlines (index_magic ∷ map index_line (entry ∷ entries))
            (magic, index_lines-Lacks (entry ∷ entries) h),
        text_eq_refl index_magic,
        parse_entries_lem (entry ∷ entries) [] h n,
      )
      refl
  where
    magic : Lacks 10 index_magic
    magic = Lacks-literal 10 index_magic refl
