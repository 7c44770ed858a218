-- ===== src/PeerStore.antt =====
-- src/peer_store.hpp and src/peer_store.cpp: the known peers. The clock is an argument of each
-- call. Writing the file is left out.
pub mod Endpoints
pub mod Selection
use Prim.Native.Nat.{bit_or}
use binarycoin.Base.{
  ltb, leb, ◌==◌, if◌then◌else◌, length, take, any, ℤ, ltb_ℤ, eqb_ℤ, Text, text_eq, ℕ, ◌+◌, min,
  Bool, true, false, not, ◌&&◌, ◌||◌, List, [], ◌∷◌, ◌++◌, map,
}

pub record PeerEndpoint : Type 0 where
  pub host : Text
  pub port : ℕ

pub record PeerRecord : Type 0 where
  pub endpoint : PeerEndpoint
  pub services : ℕ
  pub last_seen : ℤ
  pub last_success : ℤ
  pub failures : ℕ
  pub manual : Bool

pub valid_host : Text → Bool
valid_host host =
    leb 1 (length host)
    && (leb (length host) 255 && not (any (λ c. c == 9 || (c == 10 || c == 13)) host))

pub endpoint_equal : PeerEndpoint → PeerEndpoint → Bool
endpoint_equal left right = text_eq left.host right.host && left.port == right.port

abbrev pub known : PeerEndpoint → List PeerRecord → Bool
known endpoint records = any (λ r. endpoint_equal r.endpoint endpoint) records

-- Whether a record of the endpoint is refused at once.
abbrev pub refused : PeerEndpoint → Bool
refused endpoint = not (valid_host endpoint.host) || endpoint.port == 0

pub add_if_missing : PeerRecord → List PeerRecord → Bool × List PeerRecord
add_if_missing incoming records =
    if refused incoming.endpoint
    then (false, records)
    else if known incoming.endpoint records
    then (false, records)
    else (true, records ++ incoming ∷ [])

-- The first record of the endpoint is changed by `f`; where there is none, `incoming` is added.
pub update_or_add : (PeerRecord → PeerRecord) → PeerRecord → List PeerRecord → List PeerRecord
update_or_add f incoming [] = incoming ∷ []
update_or_add f incoming (r ∷ rest) =
    if endpoint_equal r.endpoint incoming.endpoint
    then f r ∷ rest
    else r ∷ update_or_add f incoming rest

abbrev pub max_ℤ : ℤ → ℤ → ℤ
max_ℤ a b = if ltb_ℤ a b then b else a

abbrev pub merge_record : PeerRecord → PeerRecord → PeerRecord
merge_record incoming r = record r {
  services = bit_or r.services incoming.services;
  last_seen = max_ℤ r.last_seen incoming.last_seen;
  last_success = max_ℤ r.last_success incoming.last_success;
  failures = min r.failures incoming.failures;
  manual = r.manual || incoming.manual;
}

pub add_or_update : PeerRecord → List PeerRecord → List PeerRecord
unfolding update_or_add
add_or_update incoming records =
    if refused incoming.endpoint
    then records
    else update_or_add (merge_record incoming) incoming records

pub mark_success : ℤ → PeerEndpoint → ℕ → List PeerRecord → List PeerRecord
unfolding update_or_add
mark_success now endpoint services records =
    update_or_add
      (λ r. record r {
        services = bit_or r.services services;
        last_seen = now;
        last_success = now;
        failures = 0;
      })
      (record {
        endpoint = endpoint;
        services = services;
        last_seen = now;
        last_success = now;
        failures = 0;
        manual = false;
      })
      records

pub mark_failure : PeerEndpoint → List PeerRecord → List PeerRecord
mark_failure endpoint [] = []
mark_failure endpoint (r ∷ rest) =
    if endpoint_equal r.endpoint endpoint
    then record r { failures = if ltb r.failures 1_000_000 then r.failures + 1 else r.failures }
      ∷ rest
    else r ∷ mark_failure endpoint rest

-- The order in which peers are tried.
unfoldable pub comes_first : PeerRecord → PeerRecord → Bool
comes_first left right =
    if left.manual && not right.manual
    then true
    else if not left.manual && right.manual
    then false
    else if not (eqb_ℤ left.last_success right.last_success)
    then ltb_ℤ right.last_success left.last_success
    else if not (left.failures == right.failures)
    then ltb left.failures right.failures
    else ltb_ℤ right.last_seen left.last_seen

-- `std::stable_sort`: a record goes behind those that do not come after it.
pub insert_record : PeerRecord → List PeerRecord → List PeerRecord
insert_record r [] = r ∷ []
insert_record r (x ∷ rest) = if comes_first x r then x ∷ insert_record r rest else r ∷ x ∷ rest

pub sort_records : List PeerRecord → List PeerRecord
unfolding insert_record
sort_records [] = []
sort_records (r ∷ rest) = insert_record r (sort_records rest)

pub is_skipped : List PeerEndpoint → PeerRecord → Bool
is_skipped excluded r = leb 10 r.failures || any (endpoint_equal r.endpoint) excluded

pub keep_candidates : List PeerEndpoint → List PeerRecord → List PeerRecord
unfolding is_skipped
keep_candidates excluded [] = []
keep_candidates excluded (r ∷ rest) =
    if is_skipped excluded r
    then keep_candidates excluded rest
    else r ∷ keep_candidates excluded rest

unfoldable pub select_outbound : ℕ → List PeerEndpoint → List PeerRecord → List PeerEndpoint
unfolding sort_records keep_candidates
select_outbound maximum excluded records =
    map (λ r. r.endpoint) (take maximum (sort_records (keep_candidates excluded records)))
