-- ===== src/BranchStore.antt =====
-- src/branch_store.cpp: the blocks that stand on no active branch. Reading and writing the file is
-- left out.
pub mod Hashes
use binarycoin.Base.{
  List, Option, Result, Text, [], any, err, if◌then◌else◌, none, ok, some, text_eq, ◌++◌, ◌>>=◌,
  ◌>>◌, ◌∷◌,
}
use binarycoin.Block.{StoredBlock, hash_hex}
use binarycoin.Hash.Crypto.{Crypto}

module _ (c : Crypto) where
  abbrev pub stored_hash : StoredBlock → Result Text
  stored_hash stored = hash_hex c stored.block.header

  -- `std::find_if` over the hashes: none are computed behind the one that is found.
  unfoldable pub find_block : Text → List StoredBlock → Result (Option StoredBlock)
  find_block hash [] = ok none
  find_block hash (stored ∷ rest) = do
    stored_hex ← stored_hash stored
    let behind = find_block hash rest
    if text_eq stored_hex hash then ok (some stored) else behind

  unfoldable pub put : StoredBlock → List StoredBlock → Result (List StoredBlock)
  put stored blocks = do
    hash ← stored_hash stored
    found ← find_block hash blocks
    ok (elim found [ none ↦ blocks ++ stored ∷ [] | some _ ↦ blocks ])

  -- The loop of `put_many`: the blocks that were put stay where one throws.
  pub put_many : List StoredBlock → List StoredBlock → Result (Unit {0}) × List StoredBlock
  put_many [] blocks = (ok tt, blocks)
  put_many (stored ∷ rest) blocks = elim (put stored blocks) [
    | ok blocks' ↦ put_many rest blocks'
    | err e ↦ (err e, blocks)
  ]

  unfoldable pub hashes_of : List StoredBlock → Result (List Text)
  hashes_of [] = ok []
  hashes_of (stored ∷ rest) = do
    hash ← stored_hash stored
    hashes ← hashes_of rest
    ok (hash ∷ hashes)

  -- `std::remove_if`
  unfoldable pub keep_others : List Text → List StoredBlock → Result (List StoredBlock)
  keep_others active [] = ok []
  keep_others active (stored ∷ rest) = do
    hash ← stored_hash stored
    others ← keep_others active rest
    ok (if any (λ a. text_eq a hash) active then others else stored ∷ others)

  unfoldable pub remove_active : List StoredBlock → List StoredBlock → Result (List StoredBlock)
  remove_active active_blocks blocks = do
    active ← hashes_of active_blocks
    keep_others active blocks
