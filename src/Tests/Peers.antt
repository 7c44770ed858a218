-- ===== src/Tests/Peers.antt =====
-- Examples on the stores of peers and of bans.
use binarycoin.BanStore.{BanRecord, ban, is_banned, is_separator, valid_host}
use binarycoin.BanStore.Bans.{ban-is_banned_still}
use binarycoin.Base.{
  All, List, Text, [], codes, ltb_ℤ, map, pos, refl, take, text_eq, true, ◌++◌, ◌+ℤ◌, ◌∷◌, ◌≡◌,
}
use binarycoin.PeerStore.{PeerRecord, comes_first, select_outbound}
use binarycoin.PeerStore.Endpoints.{unique_endpoints}
use binarycoin.PeerStore.Selection.{IsEligible, IsPassedOver, is_sorted, select_outbound_lem}
use mathlib.Core.List.{Perm}

abbrev toy_host : Text
toy_host = codes "10.0.0.1"

abbrev other_host : Text
other_host = codes "10.0.0.2"

toy_host-valid : valid_host toy_host ≡ true
unfolding valid_host is_separator
toy_host-valid = refl

before_expiry : ltb_ℤ (pos 150) (pos 100 +ℤ pos 60) ≡ true
unfolding ◌+ℤ◌
before_expiry = refl

abbrev banned_before : List BanRecord
banned_before = record { host = other_host; banned_until = pos 170; score = 100; reason = [] } ∷ []

other_host-banned : is_banned (pos 150) other_host (pos 0) banned_before ≡ true
unfolding is_banned text_eq
other_host-banned = refl

ban-is_banned_still_example :
    is_banned
      (pos 150)
      other_host
      (pos 0)
      (ban (pos 100) toy_host (pos 60) 100 (codes "spam") banned_before)
    ≡ true
ban-is_banned_still_example =
    ban-is_banned_still (pos 100) (pos 150) (pos 0) (pos 60) toy_host other_host (codes "spam") 100
      banned_before other_host-banned

abbrev toy_peer : PeerRecord
toy_peer = record {
  endpoint = record { host = toy_host; port = 18_444 };
  services = 1;
  last_seen = pos 5;
  last_success = pos 5;
  failures = 0;
  manual = true;
}

toy_peers_unique : unique_endpoints (toy_peer ∷ []) ≡ true
unfolding unique_endpoints
toy_peers_unique = refl

-- It has failed too often.
abbrev failing_peer : PeerRecord
failing_peer = record toy_peer {
  endpoint = record { host = other_host; port = 18_444 };
  failures = 10;
}

-- It is tried before the other one, since it answered later.
abbrev better_peer : PeerRecord
better_peer = record toy_peer {
  endpoint = record { host = other_host; port = 18_445 };
  last_success = pos 9;
}

abbrev toy_peers : List PeerRecord
toy_peers = toy_peer ∷ failing_peer ∷ better_peer ∷ []

best_selected : select_outbound 1 [] toy_peers ≡ better_peer.endpoint ∷ []
unfolding select_outbound comes_first
best_selected = refl

select_outbound_lem_example :
    (tried : List PeerRecord) × (passed_over : List PeerRecord) × Perm
      (tried ++ passed_over)
      toy_peers
    × All (IsEligible []) tried
    × All (IsPassedOver []) passed_over
    × (is_sorted tried ≡ true)
    × (select_outbound 1 [] toy_peers ≡ map (λ r. r.endpoint) (take 1 tried))
select_outbound_lem_example = select_outbound_lem 1 [] toy_peers
