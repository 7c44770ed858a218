-- ===== src/Net/Headers/RoundTrip.antt =====
-- src/net.cpp: requests for headers and their answers, written and read back.
use binarycoin.Base.{
  ==_iff, All, All-map, Bool, List, Text, [], ap, append-nil, append_assoc, arith, bad_locator,
  bind_ok, false, length, ltb, ltb-false, not, ok, refl, throw_if, too_many_items_sent,
  trailing_payload, ℕ, ◌++◌, ◌<◌, ◌==◌, ◌^◌, ◌||◌, ◌∙◌, ◌∷◌, ◌≡◌, ◌≤◌,
}
use binarycoin.Block.Header.{FitsHeader, deserialize_header-serialize_header}
use binarycoin.Codec.{append_compact_size}
use binarycoin.Codec.Read.{Ahead-start}
use binarycoin.Codec.Reads.{Ahead-end, bytes_Reads, compact_size_Reads, u64_Reads}
use binarycoin.Codec.Write.{append_compact_size_lem, append_u64_le_lem, compact_bytes, u64_bytes}
use binarycoin.Hash.Crypto.{Crypto}
use binarycoin.Hash.RoundTrip.{IsDisplayHash, display_hex-round_trip}
use binarycoin.Net.{max_headers_per_response}
use binarycoin.Net.Headers.{
  HeaderRecord, append_hash, append_header_record, check_header_work, deserialize_getheaders,
  deserialize_headers, max_locator, read_header_record, serialize_getheaders, serialize_headers,
}
use binarycoin.Net.Items.RoundTrip.{
  Carries, items_bytes, read_counted-write_counted, read_items_lem, write_items_lem,
}
use binarycoin.Net.Version.{read_display_hash}
use binarycoin.Net.Version.RoundTrip.{hash_Reads}

hash-Carries : (text : Text) → IsDisplayHash text → Carries append_hash read_display_hash text
unfolding append_hash
hash-Carries text h =
    let (bs, e, same, size, _) = display_hex-round_trip text h in
    record {
      bytes = bs;
      written = λ out. bind_ok _ _ e refl;
      reads = λ input rest o a. hash_Reads input rest o text bs size same a;
    }

-- What a locator needs to be sent.
pub record LocatorFits (locator : List Text) : Type 0 where
  pub hashes : All IsDisplayHash locator
  pub some_hash : 1 ≤ length locator
  pub size : length locator ≤ max_locator

count_fits :
    (count : ℕ) → 1 ≤ count → count ≤ max_locator → (count == 0 || ltb max_locator count) ≡ false
count_fits count low high = ground arith

-- A request with a locator of one to 101 hashes and a stop hash, all in display form, is serialized,
-- and read back unchanged.
pub deserialize_getheaders-serialize_getheaders :
    (locator : List Text) (stop_hash : Text)
    → LocatorFits locator
    → IsDisplayHash stop_hash
    → (bytes : List ℕ) × (serialize_getheaders locator stop_hash ≡ ok bytes)
      × (deserialize_getheaders bytes ≡ ok (record { locator = locator; stop_hash = stop_hash }))
unfolding serialize_getheaders deserialize_getheaders
deserialize_getheaders-serialize_getheaders [] stop_hash h stop_fits =
    absurd (omega (arith, h.some_hash))
deserialize_getheaders-serialize_getheaders (first ∷ others) stop_hash h stop_fits =
    let locator = first ∷ others in
    let count = length locator in
    let cs =
      All-map IsDisplayHash (Carries append_hash read_display_hash) locator hash-Carries h.hashes in
    let last = hash-Carries stop_hash stop_fits in
    let middle = items_bytes append_hash read_display_hash locator cs in
    let input = compact_bytes count ++ (middle ++ last.bytes) in
    let (o1, e1, a1) =
      compact_size_Reads input (middle ++ last.bytes) 0 count (omega (arith, h.size))
        (Ahead-start input) in
    let (o2, e2, a2) =
      read_items_lem append_hash read_display_hash locator cs input last.bytes o1 a1 in
    let (o3, e3, a3) = last.reads input [] o2 (rw (append-nil last.bytes) a2) in
    (
      input,
      bind_ok _ _ (ap (λ (b : Bool). throw_if b bad_locator) (ltb-false max_locator count h.size)) (
          bind_ok _ _
            (write_items_lem append_hash read_display_hash locator cs
              (append_compact_size [] count))
            (last.written _
              ∙ ap ok (
                  rw (append_compact_size_lem [] count)
                    (append_assoc (compact_bytes count) middle last.bytes)))),
      bind_ok _ _ e1 (
          bind_ok _ _
            (ap (λ (b : Bool). throw_if b bad_locator) (count_fits count h.some_hash h.size))
            (bind_ok _ _ e2 (
              bind_ok _ _ e3 (
                bind_ok _ _
                  (ap (λ (b : Bool). throw_if (not b) trailing_payload)
                    ((==_iff o3 (length input)).1 (Ahead-end input o3 a3)))
                  refl)))),
    )

module _ (c : Crypto) where
  -- A header that a peer may send.
  pub record SentFits (sent : HeaderRecord) : Type 0 where
    pub height : sent.height < 2 ^ 64
    pub header : FitsHeader sent.header
    pub work : check_header_work c sent.header ≡ ok tt

  header-Carries :
      (sent : HeaderRecord)
      → SentFits sent
      → Carries append_header_record (read_header_record c) sent
  unfolding append_header_record read_header_record
  header-Carries sent h =
      let (bs, e, size, back) = deserialize_header-serialize_header sent.header h.header in
      record {
        bytes = u64_bytes sent.height ++ (bs ++ compact_bytes 0);
        written = λ out.
            bind_ok _ _ e (ap ok (simp (append_compact_size_lem, append_u64_le_lem, append_assoc)));
        reads = λ input rest o a.
            let (o1, e1, a1) = u64_Reads input _ o sent.height h.height (
              rw
                (
                  append_assoc (u64_bytes sent.height) (bs ++ compact_bytes 0) rest,
                  append_assoc bs (compact_bytes 0) rest,
                )
                at a) in
            let (o2, e2, a2) = bytes_Reads input (compact_bytes 0 ++ rest) o1 bs a1 in
            let (o3, e3, a3) = compact_size_Reads input rest o2 0 (omega arith) a2 in
            (
              o3,
              bind_ok _ _ e1 (
                  bind_ok _ _ (rw size at e2)
                    (bind_ok _ _ back (bind_ok _ _ e3 (bind_ok _ _ h.work refl)))),
              a3,
            );
      }

  -- At most 2,000 headers that fit their types and have proof of work are serialized, and read back
  -- unchanged.
  pub deserialize_headers-serialize_headers :
      (headers : List HeaderRecord)
      → All SentFits headers
      → length headers ≤ max_headers_per_response
      → (bytes : List ℕ) × (serialize_headers headers ≡ ok bytes)
        × (deserialize_headers c bytes ≡ ok headers)
  unfolding serialize_headers deserialize_headers
  deserialize_headers-serialize_headers headers h small =
      read_counted-write_counted append_header_record (read_header_record c)
        max_headers_per_response too_many_items_sent too_many_items_sent headers
        (All-map SentFits (Carries append_header_record (read_header_record c)) headers
          header-Carries h)
        small (omega arith)
