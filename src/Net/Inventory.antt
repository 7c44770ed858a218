-- ===== src/Net/Inventory.antt =====
-- src/net.cpp: inventories, which name transactions and blocks.
pub mod RoundTrip
use binarycoin.Base.{
  List, Result, Text, bad_inventory_type, if◌then◌else◌, not, ok, throw_if, too_many_items_sent, ℕ,
  ◌&&◌, ◌++◌, ◌==◌, ◌>>=◌, ◌>>◌,
}
use binarycoin.Codec.{append_u32_le, read_u32_le}
use binarycoin.Hash.{display_hex_to_wire_bytes}
use binarycoin.Net.{max_inventory_items}
use binarycoin.Net.Items.{read_counted, write_counted}
use binarycoin.Net.Version.{read_display_hash}

pub data InventoryType : Type 0 where
  inventory_transaction inventory_block : InventoryType

pub record InventoryItem : Type 0 where
  pub type : InventoryType
  pub hash : Text

-- `static_cast<std::uint32_t>(type)`
abbrev pub type_code : InventoryType → ℕ
type_code inventory_transaction = 1
type_code inventory_block = 2

unfoldable pub append_inventory_item : List ℕ → InventoryItem → Result (List ℕ)
append_inventory_item output item = do
  hash ← display_hex_to_wire_bytes item.hash
  ok (append_u32_le output (type_code item.type) ++ hash)

unfoldable pub read_inventory_type : List ℕ → ℕ → Result (InventoryType × ℕ)
read_inventory_type payload offset = do
  (raw_type, offset1) ← read_u32_le payload offset
  throw_if (not (raw_type == 1) && not (raw_type == 2)) bad_inventory_type
  ok (if raw_type == 1 then inventory_transaction else inventory_block, offset1)

unfoldable pub read_inventory_item : List ℕ → ℕ → Result (InventoryItem × ℕ)
read_inventory_item payload offset = do
  (type, offset1) ← read_inventory_type payload offset
  (hash, offset2) ← read_display_hash payload offset1
  ok (record { type = type; hash = hash }, offset2)

unfoldable pub serialize_inventory : List InventoryItem → Result (List ℕ)
serialize_inventory items =
    write_counted max_inventory_items too_many_items_sent append_inventory_item items

unfoldable pub deserialize_inventory : List ℕ → Result (List InventoryItem)
deserialize_inventory payload =
    read_counted max_inventory_items too_many_items_sent read_inventory_item payload
