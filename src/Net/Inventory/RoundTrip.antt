-- ===== src/Net/Inventory/RoundTrip.antt =====
-- src/net.cpp: an inventory that is written and read back.
use binarycoin.Base.{
  All, All-map, List, ap, append_assoc, arith, bind_ok, length, ok, refl, too_many_items_sent, ℕ,
  ◌++◌, ◌≡◌, ◌≤◌,
}
use binarycoin.Codec.Read.{Ahead}
use binarycoin.Codec.Reads.{Reads, u32_Reads}
use binarycoin.Codec.Write.{append_u32_le_lem, u32_bytes}
use binarycoin.Hash.RoundTrip.{IsDisplayHash, display_hex-round_trip}
use binarycoin.Net.{max_inventory_items}
use binarycoin.Net.Inventory.{
  InventoryItem, InventoryType, append_inventory_item, deserialize_inventory, inventory_block,
  inventory_transaction, read_inventory_item, read_inventory_type, serialize_inventory, type_code,
}
use binarycoin.Net.Items.RoundTrip.{Carries, read_counted-write_counted}
use binarycoin.Net.Version.RoundTrip.{hash_Reads}

abbrev pub ItemFits : InventoryItem → Type 0
ItemFits item = IsDisplayHash item.hash

type_Reads :
    (input rest : List ℕ) (o : ℕ) (type : InventoryType)
    → Ahead input o (u32_bytes (type_code type) ++ rest)
    → Reads (read_inventory_type input o) input rest type
unfolding read_inventory_type
type_Reads input rest o inventory_transaction a =
    let (o1, e1, a1) = u32_Reads input rest o 1 (omega arith) a in (o1, bind_ok _ _ e1 refl, a1)
type_Reads input rest o inventory_block a =
    let (o1, e1, a1) = u32_Reads input rest o 2 (omega arith) a in (o1, bind_ok _ _ e1 refl, a1)

item-Carries :
    (item : InventoryItem) → ItemFits item → Carries append_inventory_item read_inventory_item item
unfolding append_inventory_item read_inventory_item
item-Carries item h =
    let (bs, e, same, size, _) = display_hex-round_trip item.hash h in
    record {
      bytes = u32_bytes (type_code item.type) ++ bs;
      written = λ out. bind_ok _ _ e (ap ok (simp (append_u32_le_lem, append_assoc)));
      reads = λ input rest o a.
          let (o1, e1, a1) =
            type_Reads input _ o item.type
              (rw (append_assoc (u32_bytes (type_code item.type)) bs rest) at a) in
          let (o2, e2, a2) = hash_Reads input rest o1 item.hash bs size same a1 in
          (o2, bind_ok _ _ e1 (bind_ok _ _ e2 refl), a2);
    }

-- An inventory of at most 500 items, each with a hash in display form, is serialized, and read back
-- unchanged.
pub deserialize_inventory-serialize_inventory :
    (items : List InventoryItem)
    → All ItemFits items
    → length items ≤ max_inventory_items
    → (bytes : List ℕ) × (serialize_inventory items ≡ ok bytes)
      × (deserialize_inventory bytes ≡ ok items)
unfolding serialize_inventory deserialize_inventory
deserialize_inventory-serialize_inventory items h small =
    read_counted-write_counted append_inventory_item read_inventory_item max_inventory_items
      too_many_items_sent too_many_items_sent items
      (All-map ItemFits (Carries append_inventory_item read_inventory_item) items item-Carries h)
      small (omega arith)
