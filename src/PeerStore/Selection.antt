-- ===== src/PeerStore/Selection.antt =====
-- src/peer_store.cpp: the choice and the order of the peers that are tried.
use binarycoin.Base.{
  &&-split, All, Bool, Bool-cases, List, [], any, arith, false, if◌then◌else◌, inl, inr, leb, map,
  not, refl, take, true, ℕ, ◌&&◌, ◌++◌, ◌<◌, ◌||◌, ◌∷◌, ◌≡◌, ◌≤◌, ◌⊎◌,
}
use binarycoin.PeerStore.{
  PeerEndpoint, PeerRecord, comes_first, endpoint_equal, insert_record, is_skipped, keep_candidates,
  select_outbound, sort_records,
}
use mathlib.Core.List.{Perm, perm_middle}
use mathlib.Core.List.Perm

-- A record that may be tried.
abbrev pub IsEligible : List PeerEndpoint → PeerRecord → Type 0
IsEligible excluded r = (r.failures < 10) × (any (endpoint_equal r.endpoint) excluded ≡ false)

keep_candidates-IsEligible :
    (excluded : List PeerEndpoint) (records : List PeerRecord)
    → All (IsEligible excluded) (keep_candidates excluded records)
unfolding keep_candidates is_skipped
keep_candidates-IsEligible excluded [] = tt
keep_candidates-IsEligible excluded (r ∷ rest) = elim (Bool-cases (is_skipped excluded r)) [
  | inl skipped ↦ rw skipped (keep_candidates-IsEligible excluded rest)
  | inr kept ↦ rw kept (eligible _ r.failures kept, keep_candidates-IsEligible excluded rest)
]
  where
    eligible : (b : Bool) (n : ℕ) → (leb 10 n || b) ≡ false → (n < 10) × (b ≡ false)
    eligible b n h = ground arith

insert_record-All :
    (P : PeerRecord → Type 0) (r : PeerRecord) (records : List PeerRecord)
    → P r
    → All P records
    → All P (insert_record r records)
unfolding insert_record
insert_record-All P r [] p ps = (p, tt)
insert_record-All P r (x ∷ rest) p (px, ps) = elim (Bool-cases (comes_first x r)) [
  | inl first ↦ rw first (px, insert_record-All P r rest p ps)
  | inr behind ↦ rw behind (p, (px, ps))
]

sort_records-All :
    (P : PeerRecord → Type 0) (records : List PeerRecord)
    → All P records
    → All P (sort_records records)
unfolding sort_records
sort_records-All P [] ps = tt
sort_records-All P (r ∷ rest) (p, ps) = insert_record-All P r _ p (sort_records-All P rest ps)

-- No record stands before one that should be tried first.
pub is_sorted : List PeerRecord → Bool
is_sorted [] = true
is_sorted (r ∷ []) = true
is_sorted (r ∷ x ∷ rest) = not (comes_first x r) && is_sorted (x ∷ rest)

comes_first-asymmetric : (a b : PeerRecord) → comes_first a b ≡ true → comes_first b a ≡ false
unfolding comes_first
comes_first-asymmetric a b h = ground arith

sorted_one : (r : PeerRecord) → is_sorted (r ∷ []) ≡ true
unfolding is_sorted
sorted_one r = refl

is_sorted_cons :
    (a x : PeerRecord) (rest : List PeerRecord)
    → comes_first x a ≡ false
    → is_sorted (x ∷ rest) ≡ true
    → is_sorted (a ∷ x ∷ rest) ≡ true
unfolding is_sorted
is_sorted_cons a x rest h s = rw (h, s) refl

is_sorted_split :
    (a x : PeerRecord) (rest : List PeerRecord)
    → is_sorted (a ∷ x ∷ rest) ≡ true
    → (comes_first x a ≡ false) × (is_sorted (x ∷ rest) ≡ true)
unfolding is_sorted
is_sorted_split a x rest h =
    let (first, behind) = &&-split (not (comes_first x a)) _ h in (negated _ first, behind)
  where
    negated : (b : Bool) → not b ≡ true → b ≡ false
    negated b h = ground arith

-- Behind `a`, which comes before `r` and before the first of a sorted list, the insertion is sorted.
insert_record-sorted_behind :
    (a r : PeerRecord) (records : List PeerRecord)
    → comes_first a r ≡ true
    → is_sorted (a ∷ records) ≡ true
    → is_sorted (a ∷ insert_record r records) ≡ true
unfolding insert_record
insert_record-sorted_behind a r [] h s =
    is_sorted_cons a r [] (comes_first-asymmetric a r h) (sorted_one r)
insert_record-sorted_behind a r (x ∷ rest) h s =
    let (first, behind) = is_sorted_split a x rest s in
    elim (Bool-cases (comes_first x r)) [
      | inl before ↦
          rw before
            (is_sorted_cons a x _ first (insert_record-sorted_behind x r rest before behind))
      | inr after ↦ rw after (
          is_sorted_cons a r _ (comes_first-asymmetric a r h)
            (is_sorted_cons r x rest after behind))
    ]

insert_record-sorted :
    (r : PeerRecord) (records : List PeerRecord)
    → is_sorted records ≡ true
    → is_sorted (insert_record r records) ≡ true
unfolding insert_record is_sorted
insert_record-sorted r [] s = refl
insert_record-sorted r (x ∷ rest) s = elim (Bool-cases (comes_first x r)) [
  | inl before ↦ rw before (insert_record-sorted_behind x r rest before s)
  | inr after ↦ rw after (is_sorted_cons r x rest after s)
]

-- The candidates are tried in the order of preference.
pub sort_records-sorted : (records : List PeerRecord) → is_sorted (sort_records records) ≡ true
unfolding sort_records is_sorted
sort_records-sorted [] = refl
sort_records-sorted (r ∷ rest) = insert_record-sorted r _ (sort_records-sorted rest)

insert_record-perm :
    (r : PeerRecord) (records : List PeerRecord) → Perm (insert_record r records) (r ∷ records)
unfolding insert_record
insert_record-perm r [] = Perm.refl (r ∷ [])
insert_record-perm r (x ∷ rest) = elim (Bool-cases (comes_first x r)) [
  | inl before ↦
      rw before (Perm.trans (Perm.cons x (insert_record-perm r rest)) (Perm.swap r x rest))
  | inr after ↦ rw after (Perm.refl (r ∷ x ∷ rest))
]

sort_records-perm : (records : List PeerRecord) → Perm (sort_records records) records
unfolding sort_records
sort_records-perm [] = Perm.refl []
sort_records-perm (r ∷ rest) =
    Perm.trans (insert_record-perm r (sort_records rest)) (Perm.cons r (sort_records-perm rest))

-- A record that is passed over.
abbrev pub IsPassedOver : List PeerEndpoint → PeerRecord → Type 0
IsPassedOver excluded r = (10 ≤ r.failures) ⊎ (any (endpoint_equal r.endpoint) excluded ≡ true)

-- The records that are not candidates.
unfoldable left_out : List PeerEndpoint → List PeerRecord → List PeerRecord
unfolding is_skipped
left_out excluded [] = []
left_out excluded (r ∷ rest) =
    if is_skipped excluded r then r ∷ left_out excluded rest else left_out excluded rest

left_out-IsPassedOver :
    (excluded : List PeerEndpoint) (records : List PeerRecord)
    → All (IsPassedOver excluded) (left_out excluded records)
unfolding left_out is_skipped
left_out-IsPassedOver excluded [] = tt
left_out-IsPassedOver excluded (r ∷ rest) = elim (Bool-cases (is_skipped excluded r)) [
  | inl skipped ↦ rw skipped (reason _ r.failures skipped, left_out-IsPassedOver excluded rest)
  | inr kept ↦ rw kept (left_out-IsPassedOver excluded rest)
]
  where
    reason : (b : Bool) (n : ℕ) → (leb 10 n || b) ≡ true → (10 ≤ n) ⊎ (b ≡ true)
    reason b n h = ground arith

candidates-perm :
    (excluded : List PeerEndpoint) (records : List PeerRecord)
    → Perm (keep_candidates excluded records ++ left_out excluded records) records
unfolding keep_candidates left_out is_skipped
candidates-perm excluded [] = Perm.refl []
candidates-perm excluded (r ∷ rest) = elim (Bool-cases (is_skipped excluded r)) [
  | inl skipped ↦ rw skipped (
      Perm.trans (perm_middle (keep_candidates excluded rest) (left_out excluded rest))
        (Perm.cons r (candidates-perm excluded rest)))
  | inr kept ↦ rw kept (Perm.cons r (candidates-perm excluded rest))
]

-- The known records are, but for their order, those that are tried and those that are passed over.
-- Tried are the ones with fewer than ten failures that are not excluded, in an order in which none
-- stands before one that comes first; all others are passed over. The selected endpoints are those of
-- the first `maximum` records that are tried, or of all where there are fewer.
pub select_outbound_lem :
    (maximum : ℕ) (excluded : List PeerEndpoint) (records : List PeerRecord)
    → (tried : List PeerRecord) × (passed_over : List PeerRecord) × Perm
        (tried ++ passed_over)
        records
      × All (IsEligible excluded) tried
      × All (IsPassedOver excluded) passed_over
      × (is_sorted tried ≡ true)
      × (select_outbound maximum excluded records ≡ map (λ r. r.endpoint) (take maximum tried))
unfolding select_outbound
select_outbound_lem maximum excluded records =
    let candidates = keep_candidates excluded records in
    (
      sort_records candidates,
      left_out excluded records,
      Perm.trans (Perm.append_right (left_out excluded records) (sort_records-perm candidates))
          (candidates-perm excluded records),
      sort_records-All (IsEligible excluded) candidates
          (keep_candidates-IsEligible excluded records),
      left_out-IsPassedOver excluded records,
      sort_records-sorted candidates,
      refl,
    )
