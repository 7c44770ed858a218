-- ===== src/BranchStore/Hashes.antt =====
-- src/branch_store.cpp: the hashes of the stored blocks.
use binarycoin.Base.{
  &&-split, >>=-eq-ok, Bool, Bool-cases, List, Option, Result, Result-cases, Text, [], any, ap,
  arith, false, if◌then◌else◌, inl, inr, none, not, ok, ok-injective, refl, some, sym, text_eq,
  text_eq_iff, true, ◌&&◌, ◌++◌, ◌||◌, ◌∷◌, ◌≡◌,
}
use binarycoin.Block.{StoredBlock}
use binarycoin.BranchStore.{
  find_block, hashes_of, keep_others, put, put_many, remove_active, stored_hash,
}
use binarycoin.Chain.Node.{after}
use binarycoin.Hash.Crypto.{Crypto}

-- No text stands twice in the list.
unfoldable pub are_unique : List Text → Bool
are_unique [] = true
are_unique (hash ∷ rest) = not (any (text_eq hash) rest) && are_unique rest

any-append : (p : Text → Bool) (xs ys : List Text) → any p (xs ++ ys) ≡ (any p xs || any p ys)
any-append p [] ys = refl
any-append p (x ∷ xs) ys = rw (any-append p xs ys) (assoc (p x) (any p xs) (any p ys))
  where
    assoc : (a b d : Bool) → (a || (b || d)) ≡ ((a || b) || d)
    assoc a b d = ground arith

text_eq_swap : (x y : Text) → text_eq x y ≡ false → text_eq y x ≡ false
text_eq_swap x y h = elim (Bool-cases (text_eq y x)) [
  | inr other ↦ other
  | inl same ↦
      let e : y ≡ x = (text_eq_iff y x).0 same in absurd (cc (h, (text_eq_iff x y).1 (sym e)))
]

are_unique-snoc :
    (hashes : List Text) (hash : Text)
    → are_unique hashes ≡ true
    → any (λ h. text_eq h hash) hashes ≡ false
    → are_unique (hashes ++ hash ∷ []) ≡ true
unfolding are_unique
are_unique-snoc [] hash u n = refl
are_unique-snoc (h ∷ rest) hash u n =
    let (fresh, u') = &&-split (not (any (text_eq h) rest)) _ u in
    let (other, n') = or_false_split (text_eq h hash) _ n in
    rw
      (
        any-append (text_eq h) rest (hash ∷ []),
        other,
        fresh_only _ fresh,
        are_unique-snoc rest hash u' n',
      )
      refl
  where
    or_false_split : (a b : Bool) → (a || b) ≡ false → (a ≡ false) × (b ≡ false)
    or_false_split a b h = ground arith

    fresh_only : (a : Bool) → not a ≡ true → a ≡ false
    fresh_only a h = ground arith

module _ (c : Crypto) where
  hashes_of-snoc :
      (blocks : List StoredBlock) (stored : StoredBlock) {hashes : List Text} {hash : Text}
      → hashes_of c blocks ≡ ok hashes
      → stored_hash c stored ≡ ok hash
      → hashes_of c (blocks ++ stored ∷ []) ≡ ok (hashes ++ hash ∷ [])
  unfolding hashes_of
  hashes_of-snoc [] stored {hashes} {hash} h e =
      let empty : [] ≡ hashes = ok-injective h in
      rw e (ap (λ (hs : List Text). ok (hs ++ hash ∷ [])) empty)
  hashes_of-snoc (b ∷ bs) stored {hashes} {hash} h e =
      let (first, e1, h1) = >>=-eq-ok (stored_hash c b) _ h in
      let (rest, e2, h2) = >>=-eq-ok (hashes_of c bs) _ h1 in
      let whole : (first ∷ rest) ≡ hashes = ok-injective h2 in
      rw (e1, hashes_of-snoc bs stored e2 e) (ap (λ (hs : List Text). ok (hs ++ hash ∷ [])) whole)

  -- What a search says: the first block of the hash, or that no block has it.
  find_block-none :
      (hash : Text) (blocks : List StoredBlock) {hashes : List Text}
      → hashes_of c blocks ≡ ok hashes
      → find_block c hash blocks ≡ ok none
      → any (λ h. text_eq h hash) hashes ≡ false
  unfolding hashes_of find_block
  find_block-none hash [] {hashes} h f =
      let empty : [] ≡ hashes = ok-injective h in rw (sym empty) refl
  find_block-none hash (b ∷ bs) {hashes} h f =
      let (first, e1, h1) = >>=-eq-ok (stored_hash c b) _ h in
      let (rest, e2, h2) = >>=-eq-ok (hashes_of c bs) _ h1 in
      let whole : (first ∷ rest) ≡ hashes = ok-injective h2 in
      elim (Bool-cases (text_eq first hash)) [
        | inl found ↦ absurd (cc (rw (e1, found) at f))
        | inr other ↦ rw (sym whole) (rw other (find_block-none hash bs e2 (rw (e1, other) at f)))
      ]

  -- Where every block of the store has its own hash, `put` keeps that.
  pub put_unique :
      (stored : StoredBlock) (blocks : List StoredBlock) {hashes : List Text}
      {blocks' : List StoredBlock}
      → hashes_of c blocks ≡ ok hashes
      → are_unique hashes ≡ true
      → put c stored blocks ≡ ok blocks'
      → (hashes' : List Text) × (hashes_of c blocks' ≡ ok hashes') × (are_unique hashes' ≡ true)
  unfolding put
  put_unique stored blocks {hashes} h u p =
      let (hash, e1, p1) = >>=-eq-ok (stored_hash c stored) _ p in
      let (found, e2, p2) = >>=-eq-ok (find_block c hash blocks) _ p1 in
      by_search hash e1 found e2 (ok-injective p2)
    where
      by_search :
          (hash : Text)
          → stored_hash c stored ≡ ok hash
          → (found : Option StoredBlock) → find_block c hash blocks ≡ ok found
          → {blocks' : List StoredBlock}
          → elim found [ none ↦ blocks ++ stored ∷ [] | some _ ↦ blocks ] ≡ blocks'
          → (hashes' : List Text) × (hashes_of c blocks' ≡ ok hashes') × (are_unique hashes' ≡ true)
      by_search hash e1 (some old) e2 same = (hashes, rw (sym same) h, u)
      by_search hash e1 none e2 grown = (
        hashes ++ hash ∷ [],
        rw (sym grown) (hashes_of-snoc blocks stored h e1),
        are_unique-snoc hashes hash u (find_block-none hash blocks h e2),
      )

  -- Where the hashes of all stored blocks can be computed and differ, they still can and do after
  -- `put_many`, even if it throws.
  pub put_many_unique :
      (incoming blocks : List StoredBlock) {hashes : List Text}
      → hashes_of c blocks ≡ ok hashes
      → are_unique hashes ≡ true
      → (hashes' : List Text) × (hashes_of c (put_many c incoming blocks).1 ≡ ok hashes')
        × (are_unique hashes' ≡ true)
  unfolding put_many
  put_many_unique [] blocks {hashes} h u = (hashes, h, u)
  put_many_unique (stored ∷ rest) blocks {hashes} h u = elim (Result-cases (put c stored blocks)) [
    | inr (e, failed) ↦ (hashes, rw (failed, put_many) h, u)
    | inl (blocks', done) ↦
        let (hashes', h', u') = put_unique stored blocks h u done in
        rw (done, put_many) (put_many_unique rest blocks' h' u')
  ]

  -- Where the hash is not active, a search finds the same as before; else it finds none.
  abbrev FoundInactive :
      Text → List Text → Result (Option StoredBlock) → Result (Option StoredBlock) → Type 0
  FoundInactive hash active before after =
      after ≡ (if any (λ a. text_eq a hash) active then ok none else before)

  keep_others-found :
      (hash : Text) (active : List Text) (blocks : List StoredBlock) {blocks' : List StoredBlock}
      → keep_others c active blocks ≡ ok blocks'
      → FoundInactive hash active (find_block c hash blocks) (find_block c hash blocks')
  unfolding keep_others find_block
  keep_others-found hash active [] k =
      rw (← ok-injective k) (either_way (any (λ a. text_eq a hash) active) (ok none))
    where
      either_way : (b : Bool) (x : Result (Option StoredBlock)) → x ≡ (if b then x else x)
      either_way true x = refl
      either_way false x = refl
  keep_others-found hash active (b ∷ bs) k =
      let (own, e1, k1) = >>=-eq-ok (stored_hash c b) _ k in
      let (others, e2, k2) = >>=-eq-ok (keep_others c active bs) _ k1 in
      let rest = keep_others-found hash active bs e2 in
      elim (Bool-cases (any (λ a. text_eq a own) active)) [
        | inl dropped ↦ elim (Bool-cases (text_eq own hash)) [
          | inl same ↦
              let there = rw ((text_eq_iff own hash).0 same) at dropped in
              rw (← ok-injective k2, dropped, e1, same, there) (rw there at rest)
          | inr other ↦ rw (← ok-injective k2, dropped, e1, other) rest
        ]
        | inr kept ↦ elim (Bool-cases (text_eq own hash)) [
          | inl same ↦
              let there = rw ((text_eq_iff own hash).0 same) at kept in
              rw (← ok-injective k2, kept, e1, same, there) refl
          | inr other ↦ rw (← ok-injective k2, kept, e1, other) rest
        ]
      ]

  -- After `remove_active`, a search for the hash of an active block finds none, and a search for any
  -- other hash finds what it found before.
  pub find_block-remove_active :
      (active_blocks blocks : List StoredBlock) (hash : Text) {active : List Text}
      {blocks' : List StoredBlock}
      → hashes_of c active_blocks ≡ ok active
      → remove_active c active_blocks blocks ≡ ok blocks'
      → find_block c hash blocks'
        ≡ (if any (λ a. text_eq a hash) active then ok none else find_block c hash blocks)
  unfolding remove_active
  find_block-remove_active active_blocks blocks hash {active} h r =
      keep_others-found hash active blocks (rw h at r)
