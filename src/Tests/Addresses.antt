-- ===== src/Tests/Addresses.antt =====
-- Examples on addresses.
use binarycoin.Base.{ok, err, text_eq, Text, ◌≡◌, refl, []}
use binarycoin.Hash.Crypto.{valid_compressed_public_key}
use binarycoin.Bech32.{
  xor_generators, polymod_from, polymod, hrp_expand, checksum, emit, finish_bits, convert_from,
  convert_bits, split_last, find_from, read_values, check_prefix, check_version,
  encode_testnet_address, decode_testnet_address,
}
use binarycoin.Tests.{toy_key, toy}

abbrev toy_address : Text
toy_address = elim (encode_testnet_address toy toy_key) [ ok address ↦ address | err e ↦ [] ]

toy_key-encodes : encode_testnet_address toy toy_key ≡ ok toy_address
unfolding encode_testnet_address valid_compressed_public_key convert_bits convert_from emit
    finish_bits checksum polymod polymod_from xor_generators hrp_expand
toy_key-encodes = refl

toy_address-decodes : decode_testnet_address toy toy_address ≡ ok toy_key
unfolding encode_testnet_address decode_testnet_address check_prefix split_last read_values
    find_from check_version valid_compressed_public_key convert_bits convert_from emit finish_bits
    checksum polymod polymod_from xor_generators hrp_expand text_eq
toy_address-decodes = refl
