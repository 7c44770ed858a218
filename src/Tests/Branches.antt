-- ===== src/Tests/Branches.antt =====
-- Examples on the side branches, under a hash function that keeps the version of a block.
use binarycoin.Base.{
  All, IsByte, List, Text, [], any, arith, codes, get_or, if◌then◌else◌, none, ok, pos, refl,
  replicate, text_eq, ℕ, ◌%◌, ◌++◌, ◌+◌, ◌∷◌, ◌≡◌,
}
use binarycoin.Block.{StoredBlock, hash_hex, header_raw_hash, serialize_header}
use binarycoin.BranchStore.{find_block, hashes_of, keep_others, remove_active}
use binarycoin.BranchStore.Hashes.{find_block-remove_active}
use binarycoin.Codec.{append_i32_le, append_u32_le}
use binarycoin.Hash.{
  bytes_to_hex, display_hex_to_raw_digest, display_hex_to_wire_bytes, hash_to_display_hex,
  hex_pairs, hex_to_bytes, hex_value,
}
use binarycoin.Hash.Crypto.{Crypto, sha256d}
use binarycoin.Tests.{toy, toy_second}

abbrev first_byte : List ℕ → List ℕ
first_byte bytes = (get_or bytes 0 0 % 256) ∷ replicate 31 0

first_byte-IsByte : (bytes : List ℕ) → All IsByte (first_byte bytes)
first_byte-IsByte bytes = omega arith

-- The hash of a block is the low byte of its version.
abbrev versioned : Crypto
versioned = record toy {
  digest = first_byte;
  digest_size = λ bytes. refl;
  digest_bytes = first_byte-IsByte;
}

abbrev of_version : ℕ → StoredBlock
of_version version = record toy_second {
  block = record toy_second.block {
    header = record toy_second.block.header { version = pos version };
  };
}

abbrev hash_of_version : ℕ → Text
hash_of_version digit =
    codes "00000000000000000000000000000000000000000000000000000000000000" ++ 48 ∷ (48 + digit) ∷ []

first_hashes : hashes_of versioned (of_version 1 ∷ []) ≡ ok (hash_of_version 1 ∷ [])
unfolding hashes_of hash_hex header_raw_hash serialize_header display_hex_to_wire_bytes
    display_hex_to_raw_digest hex_to_bytes hex_pairs hex_value append_u32_le append_i32_le
    hash_to_display_hex bytes_to_hex sha256d
first_hashes = refl

first_removed :
    remove_active versioned (of_version 1 ∷ []) (of_version 1 ∷ of_version 2 ∷ [])
    ≡ ok (of_version 2 ∷ [])
unfolding remove_active hashes_of hash_hex header_raw_hash serialize_header
    display_hex_to_wire_bytes display_hex_to_raw_digest hex_to_bytes hex_pairs hex_value
    append_u32_le append_i32_le keep_others text_eq hash_to_display_hex bytes_to_hex sha256d
first_removed = refl

-- The block that is not active is still found.
find_block-remove_active_example : find_block versioned (hash_of_version 2) (of_version 2 ∷ []) ≡ (
    if any (λ a. text_eq a (hash_of_version 2)) (hash_of_version 1 ∷ [])
    then ok none
    else find_block versioned (hash_of_version 2) (of_version 1 ∷ of_version 2 ∷ []))
find_block-remove_active_example =
    find_block-remove_active versioned (of_version 1 ∷ []) (of_version 1 ∷ of_version 2 ∷ [])
      (hash_of_version 2) first_hashes first_removed
