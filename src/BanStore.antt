-- ===== src/BanStore.antt =====
-- src/ban_store.hpp and src/ban_store.cpp: the hosts that are banned, and until when. The clock is
-- an argument of each call. Writing the file is left out.
pub mod Bans
use binarycoin.Base.{
  leb, ◌==◌, if◌then◌else◌, length, take, any, ◌+ℤ◌, ℤ, pos, ltb_ℤ, leb_ℤ, eqb_ℤ, Text, text_eq, ℕ,
  max, Bool, not, ◌&&◌, ◌||◌, List, [], ◌∷◌, map,
}

pub record BanRecord : Type 0 where
  pub host : Text
  pub banned_until : ℤ
  pub score : ℕ
  pub reason : Text

-- A tab, a carriage return or a line feed.
unfoldable pub is_separator : ℕ → Bool
is_separator character = character == 9 || (character == 13 || character == 10)

unfoldable pub valid_host : Text → Bool
unfolding is_separator
valid_host host = leb 1 (length host) && (leb (length host) 255 && not (any is_separator host))

pub sanitize_reason : Text → Text
unfolding is_separator
sanitize_reason reason =
    take 160 (map (λ character. if is_separator character then 32 else character) reason)

-- `std::max` of two int64_t.
abbrev pub max_ℤ : ℤ → ℤ → ℤ
max_ℤ a b = if ltb_ℤ a b then b else a

-- `if (now == 0) now = now_seconds();`
abbrev pub at_clock : ℤ → ℤ → ℤ
at_clock clock now = if eqb_ℤ now (pos 0) then clock else now

pub keep_unexpired : ℤ → List BanRecord → List BanRecord
keep_unexpired now [] = []
keep_unexpired now (r ∷ rest) =
    if leb_ℤ r.banned_until now then keep_unexpired now rest else r ∷ keep_unexpired now rest

pub prune_expired : ℤ → ℤ → List BanRecord → List BanRecord
unfolding keep_unexpired
prune_expired clock now records = keep_unexpired (at_clock clock now) records

-- The first record of the host is extended; where there is none, one is added at the end.
pub put_ban : Text → ℤ → ℕ → Text → List BanRecord → List BanRecord
put_ban host expiry score reason [] =
    record { host = host; banned_until = expiry; score = score; reason = sanitize_reason reason }
    ∷ []
put_ban host expiry score reason (r ∷ rest) =
    if text_eq r.host host
    then record r {
      banned_until = max_ℤ r.banned_until expiry;
      score = max r.score score;
      reason = sanitize_reason reason;
    }
      ∷ rest
    else r ∷ put_ban host expiry score reason rest

pub ban : ℤ → Text → ℤ → ℕ → Text → List BanRecord → List BanRecord
unfolding put_ban
ban clock host duration_seconds score reason records =
    if not (valid_host host) || leb_ℤ duration_seconds (pos 0)
    then records
    else put_ban host (clock +ℤ duration_seconds) score reason records

unfoldable pub is_banned : ℤ → Text → ℤ → List BanRecord → Bool
is_banned clock host now records =
    any (λ r. text_eq r.host host && ltb_ℤ (at_clock clock now) r.banned_until) records
