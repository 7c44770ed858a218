-- ===== src/BanStore/Bans.antt =====
-- src/ban_store.cpp: how long a host is banned.
use binarycoin.Base.{
  Bool-cases, any, ◌+ℤ◌, ℤ, pos, ltb_ℤ, leb_ℤ, Text, text_eq, text_eq_refl, ℕ, ◌≡◌, refl, ap, inl,
  inr, Bool, true, false, not, ◌||◌, List, [], ◌∷◌, arith,
}
use binarycoin.BanStore.{
  BanRecord, valid_host, max_ℤ, at_clock, keep_unexpired, prune_expired, put_ban, ban, is_banned,
}
use mathlib.Core.Bool.{◌&&◌}

-- A record keeps the host banned at the time.
abbrev bans_at : Text → ℤ → BanRecord → Bool
bans_at host now r = text_eq r.host host && ltb_ℤ now r.banned_until

any-or_true : (b : Bool) → (b || true) ≡ true
any-or_true true = refl
any-or_true false = refl

later : (a n b : ℤ) → ltb_ℤ n a ≡ true → ltb_ℤ n (max_ℤ b a) ≡ true
later a n b h = ground arith

not_shorter : (a n b : ℤ) → ltb_ℤ n b ≡ true → ltb_ℤ n (max_ℤ b a) ≡ true
not_shorter a n b h = ground arith

put_ban-any :
    (host : Text) (expiry now : ℤ) (score : ℕ) (reason : Text) (records : List BanRecord)
    → ltb_ℤ now expiry ≡ true
    → any (bans_at host now) (put_ban host expiry score reason records) ≡ true
unfolding put_ban
put_ban-any host expiry now score reason [] h = rw (text_eq_refl host, h) refl
put_ban-any host expiry now score reason (r ∷ rest) h = elim (Bool-cases (text_eq r.host host)) [
  | inl same ↦ rw same (rw (same, later expiry now r.banned_until h) refl)
  | inr other ↦
      rw (other, put_ban-any host expiry now score reason rest h) (any-or_true (bans_at host now r))
]

put_ban-monotone :
    (banned host : Text) (expiry now : ℤ) (score : ℕ) (reason : Text) (records : List BanRecord)
    → any (bans_at banned now) records ≡ true
    → any (bans_at banned now) (put_ban host expiry score reason records) ≡ true
unfolding put_ban
put_ban-monotone banned host expiry now score reason [] h = absurd (cc h)
put_ban-monotone banned host expiry now score reason (r ∷ rest) h =
    elim (Bool-cases (text_eq r.host host)) [
      | inl same ↦ rw same (extended (text_eq r.host banned) _ h)
      | inr other ↦ rw other (elim (Bool-cases (bans_at banned now r)) [
        | inl first ↦ rw first refl
        | inr behind ↦
            rw behind (put_ban-monotone banned host expiry now score reason rest (rw behind at h))
      ])
    ]
  where
    extended :
        (b rest : Bool)
        → (b && ltb_ℤ now r.banned_until || rest) ≡ true
        → (b && ltb_ℤ now (max_ℤ r.banned_until expiry) || rest) ≡ true
    extended b true h = any-or_true _
    extended true false h = ground (arith, not_shorter expiry now r.banned_until)
    extended false false h = h

expired_bans_none : (b : Bool) (u n : ℤ) → leb_ℤ u n ≡ true → (b && ltb_ℤ n u) ≡ false
expired_bans_none b u n h = ground arith

keep_unexpired-any :
    (host : Text) (now : ℤ) (records : List BanRecord)
    → any (bans_at host now) (keep_unexpired now records) ≡ any (bans_at host now) records
unfolding keep_unexpired
keep_unexpired-any host now [] = refl
keep_unexpired-any host now (r ∷ rest) = elim (Bool-cases (leb_ℤ r.banned_until now)) [
  | inl expired ↦
      rw (expired, expired_bans_none (text_eq r.host host) r.banned_until now expired)
        (keep_unexpired-any host now rest)
  | inr kept ↦
      rw kept (ap (λ (b : Bool). bans_at host now r || b) (keep_unexpired-any host now rest))
]

-- Banning a valid host for a positive time makes it banned at every moment before the clock plus
-- that time.
pub ban-is_banned :
    (clock later_clock now duration : ℤ) (host reason : Text) (score : ℕ) (records : List BanRecord)
    → valid_host host ≡ true
    → leb_ℤ duration (pos 0) ≡ false
    → ltb_ℤ (at_clock later_clock now) (clock +ℤ duration) ≡ true
    → is_banned later_clock host now (ban clock host duration score reason records) ≡ true
unfolding is_banned ban
ban-is_banned clock later_clock now duration host reason score records valid long before =
    rw (valid, long)
      (put_ban-any host (clock +ℤ duration) (at_clock later_clock now) score reason records before)

-- A host that is banned at a moment is still banned at that moment after any call of `ban`, for
-- itself or for another host.
pub ban-is_banned_still :
    (clock later_clock now duration : ℤ) (host other reason : Text) (score : ℕ)
    (records : List BanRecord)
    → is_banned later_clock other now records ≡ true
    → is_banned later_clock other now (ban clock host duration score reason records) ≡ true
unfolding is_banned ban
ban-is_banned_still clock later_clock now duration host other reason score records banned =
    elim (Bool-cases (not (valid_host host) || leb_ℤ duration (pos 0))) [
      | inl ignored ↦ rw ignored banned
      | inr taken ↦ rw taken (
          put_ban-monotone other host (clock +ℤ duration) (at_clock later_clock now) score reason
            records banned)
    ]

-- Pruning the records that have expired at a moment changes no answer of `is_banned` at that
-- moment.
pub prune_expired-is_banned :
    (clock now : ℤ) (host : Text) (records : List BanRecord)
    → is_banned clock host now (prune_expired clock now records) ≡ is_banned clock host now records
unfolding is_banned prune_expired
prune_expired-is_banned clock now host records =
    keep_unexpired-any host (at_clock clock now) records
