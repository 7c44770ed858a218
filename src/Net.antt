-- ===== src/Net.antt =====
-- src/net.hpp and src/net.cpp: the messages that nodes send each other. A payload is the list of its
-- bytes, and what a socket has still to give is such a list as well.
pub mod Frame
pub mod Version
pub mod Items
pub mod Inventory
pub mod Headers
pub mod Locator
pub mod Blocks
pub mod Sync
use binarycoin.Base.{List, Result, [], length, not, throw_if, trailing_payload, ℕ, ◌*◌, ◌==◌, ◌∷◌}

-- 'T', 'B', 'I', 'T'
abbrev pub testnet_message_start : List ℕ
testnet_message_start = 84 ∷ 66 ∷ 73 ∷ 84 ∷ []

abbrev pub p2p_protocol_version : ℕ
p2p_protocol_version = 5

abbrev pub default_testnet_p2p_port : ℕ
default_testnet_p2p_port = 26001

abbrev pub max_p2p_payload : ℕ
max_p2p_payload = 16 * 1024 * 1024

abbrev pub max_blocks_per_response : ℕ
max_blocks_per_response = 128

abbrev pub max_headers_per_response : ℕ
max_headers_per_response = 2000

abbrev pub max_inventory_items : ℕ
max_inventory_items = 500

abbrev pub max_addrv2_items : ℕ
max_addrv2_items = 1000

abbrev pub message_header_size : ℕ
message_header_size = 24

abbrev pub command_size : ℕ
command_size = 12

-- The test behind the last field of each payload.
abbrev pub at_end : ℕ → List ℕ → Result (Unit {0})
at_end offset payload = throw_if (not (offset == length payload)) trailing_payload
