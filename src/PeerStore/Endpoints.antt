-- ===== src/PeerStore/Endpoints.antt =====
-- src/peer_store.cpp: the endpoints of the records.
use binarycoin.Base.{
  ◌==◌, ==_iff, Bool-cases, &&-split, ℤ, Text, text_eq, text_eq_iff, text_eq_refl, ℕ, ◌≡◌, refl,
  sym, ◌∙◌, ◌↔◌, inl, inr, Bool, true, false, not, ◌&&◌, ◌||◌, List, [], ◌∷◌, ◌++◌, arith,
}
use binarycoin.PeerStore.{
  PeerEndpoint, PeerRecord, endpoint_equal, known, refused, add_if_missing, update_or_add,
  add_or_update, mark_success, mark_failure,
}

-- No endpoint has two records.
unfoldable pub unique_endpoints : List PeerRecord → Bool
unique_endpoints [] = true
unique_endpoints (r ∷ rest) = not (known r.endpoint rest) && unique_endpoints rest

endpoint_equal_iff : (a b : PeerEndpoint) → (endpoint_equal a b ≡ true) ↔ (a ≡ b)
unfolding endpoint_equal
endpoint_equal_iff a b = (
  (λ h.
      let (hosts, ports) = &&-split (text_eq a.host b.host) (a.port == b.port) h in
      let e1 : a.host ≡ b.host = (text_eq_iff a.host b.host).0 hosts in
      let e2 : a.port ≡ b.port = (==_iff a.port b.port).0 ports in cc),
  λ e. rw e (rw (text_eq_refl b.host) ((==_iff b.port b.port).1 refl)),
)

endpoint_equal_symm : (a b : PeerEndpoint) → endpoint_equal a b ≡ endpoint_equal b a
unfolding endpoint_equal
endpoint_equal_symm a b = ap_and (text_eq_symm a.host b.host) (eqb_symm a.port b.port)
  where
    eqb_symm : (x y : ℕ) → (x == y) ≡ (y == x)
    eqb_symm x y = ground arith

    text_eq_symm : (x y : Text) → text_eq x y ≡ text_eq y x
    text_eq_symm x y = elim (Bool-cases (text_eq x y)) [
      | inl same ↦ rw ((text_eq_iff x y).0 same) refl
      | inr other ↦ elim (Bool-cases (text_eq y x)) [
        | inl same' ↦ rw ((text_eq_iff y x).0 same') refl
        | inr other' ↦ other ∙ sym other'
      ]
    ]

    ap_and : {p p' q q' : Bool} → p ≡ p' → q ≡ q' → (p && q) ≡ (p' && q')
    ap_and e e' = rw (e, e') refl

-- Where endpoints are kept, an update keeps what is known and adds the incoming endpoint.
known-update_or_add :
    (f : PeerRecord → PeerRecord) (same : (r : PeerRecord) → (f r).endpoint ≡ r.endpoint)
    (incoming : PeerRecord) (e : PeerEndpoint) (records : List PeerRecord)
    → known e (update_or_add f incoming records)
      ≡ (known e records || endpoint_equal incoming.endpoint e)
unfolding update_or_add
known-update_or_add f same incoming e [] = ground arith
known-update_or_add f same incoming e (r ∷ rest) =
    elim (Bool-cases (endpoint_equal r.endpoint incoming.endpoint)) [
      | inl found ↦
          rw (found, same r, sym ((endpoint_equal_iff r.endpoint incoming.endpoint).0 found))
            (absorb (endpoint_equal r.endpoint e) (known e rest))
      | inr other ↦
          rw (other, known-update_or_add f same incoming e rest)
            (assoc (endpoint_equal r.endpoint e) (known e rest)
              (endpoint_equal incoming.endpoint e))
    ]
  where
    absorb : (b k : Bool) → (b || k) ≡ ((b || k) || b)
    absorb b k = ground arith

    assoc : (b k d : Bool) → (b || (k || d)) ≡ ((b || k) || d)
    assoc b k d = ground arith

unique_cons :
    (r : PeerRecord) (rest : List PeerRecord)
    → known r.endpoint rest ≡ false
    → unique_endpoints rest ≡ true
    → unique_endpoints (r ∷ rest) ≡ true
unfolding unique_endpoints
unique_cons r rest h u = rw (h, u) refl

unique_split :
    (r : PeerRecord) (rest : List PeerRecord)
    → unique_endpoints (r ∷ rest) ≡ true
    → (known r.endpoint rest ≡ false) × (unique_endpoints rest ≡ true)
unfolding unique_endpoints
unique_split r rest h = ground arith

unique-update_or_add :
    (f : PeerRecord → PeerRecord) (same : (r : PeerRecord) → (f r).endpoint ≡ r.endpoint)
    (incoming : PeerRecord) (records : List PeerRecord)
    → unique_endpoints records ≡ true
    → unique_endpoints (update_or_add f incoming records) ≡ true
unfolding update_or_add
unique-update_or_add f same incoming [] u = unique_cons incoming [] refl u
unique-update_or_add f same incoming (r ∷ rest) u =
    let (fresh, u') = unique_split r rest u in
    elim (Bool-cases (endpoint_equal r.endpoint incoming.endpoint)) [
      | inl found ↦ rw found (unique_cons (f r) rest (rw (same r) fresh) u')
      | inr other ↦
          let e = known-update_or_add f same incoming r.endpoint rest in
          let none : endpoint_equal incoming.endpoint r.endpoint ≡ false =
            endpoint_equal_symm incoming.endpoint r.endpoint ∙ other in
          rw other (
            unique_cons r _ (rw (e, fresh, none) refl)
              (unique-update_or_add f same incoming rest u'))
    ]

known-mark_failure :
    (endpoint e : PeerEndpoint) (records : List PeerRecord)
    → known e (mark_failure endpoint records) ≡ known e records
unfolding mark_failure
known-mark_failure endpoint e [] = refl
known-mark_failure endpoint e (r ∷ rest) = elim (Bool-cases (endpoint_equal r.endpoint endpoint)) [
  | inl found ↦ rw found refl
  | inr other ↦ rw (other, known-mark_failure endpoint e rest) refl
]

mark_failure_unique :
    (endpoint : PeerEndpoint) (records : List PeerRecord)
    → unique_endpoints records ≡ true
    → unique_endpoints (mark_failure endpoint records) ≡ true
unfolding mark_failure
mark_failure_unique endpoint [] u = u
mark_failure_unique endpoint (r ∷ rest) u =
    let (fresh, u') = unique_split r rest u in
    elim (Bool-cases (endpoint_equal r.endpoint endpoint)) [
      | inl found ↦ rw found (unique_cons _ rest fresh u')
      | inr other ↦ rw other (
          unique_cons r _ (known-mark_failure endpoint r.endpoint rest ∙ fresh)
            (mark_failure_unique endpoint rest u'))
    ]

update_or_add-new :
    (f : PeerRecord → PeerRecord) (incoming : PeerRecord) (records : List PeerRecord)
    → known incoming.endpoint records ≡ false
    → update_or_add f incoming records ≡ records ++ incoming ∷ []
unfolding update_or_add
update_or_add-new f incoming [] h = refl
update_or_add-new f incoming (r ∷ rest) h =
    let (other, behind) = or_false_split _ (known incoming.endpoint rest) h in
    rw (other, update_or_add-new f incoming rest behind) refl
  where
    or_false_split : (a b : Bool) → (a || b) ≡ false → (a ≡ false) × (b ≡ false)
    or_false_split a b h = ground arith

-- Where no endpoint has two records, none has after `add_if_missing`, `add_or_update`,
-- `mark_success` or `mark_failure`.
pub updates_unique :
    (now : ℤ) (services : ℕ) (endpoint : PeerEndpoint) (incoming : PeerRecord)
    (records : List PeerRecord)
    → unique_endpoints records ≡ true
    → (unique_endpoints (add_if_missing incoming records).1 ≡ true)
      × (unique_endpoints (add_or_update incoming records) ≡ true)
      × (unique_endpoints (mark_success now endpoint services records) ≡ true)
      × (unique_endpoints (mark_failure endpoint records) ≡ true)
unfolding add_if_missing add_or_update mark_success
updates_unique now services endpoint incoming records u = (
  missing,
  elim (Bool-cases (refused incoming.endpoint)) [
    | inl refuses ↦ rw refuses u
    | inr takes ↦ rw takes (unique-update_or_add _ (λ r. refl) incoming records u)
  ],
  unique-update_or_add _ (λ r. refl) _ records u,
  mark_failure_unique endpoint records u,
)
  where
    missing : unique_endpoints (add_if_missing incoming records).1 ≡ true
    missing = elim (Bool-cases (refused incoming.endpoint)) [
      | inl refuses ↦ rw refuses u
      | inr takes ↦ elim (Bool-cases (known incoming.endpoint records)) [
        | inl old ↦ rw (takes, old) u
        | inr new ↦
            let e = update_or_add-new (λ r. r) incoming records new in
            rw (takes, new, sym e) (unique-update_or_add (λ r. r) (λ r. refl) incoming records u)
      ]
    ]
