-- ===== src/Committee/BidList/Checked.antt =====
-- What AddBid, ValidateBids and ReconstructBidListSubset of bidlist.go promise.
use dusk_blockchain.Base.{
  ℕ, zero, suc, ◌*◌, ◌/◌, ◌%◌, ◌≡◌, ◌↔◌, ◌≢◌, ◌⊎◌, refl, sym, ◌∙◌, arith, true, ◌||◌, ◌==◌,
  Bool-cases, inl, inr, List, [], ◌∷◌, ◌++◌, none, some, length, drop, All, length-take,
  length-drop, take-append-drop,
}
use dusk_blockchain.Encoding.Buffer.{Bytes, equal, equal→eq, eq→equal}
use dusk_blockchain.Consensus.AccumulatorStore.{Distinct, Distinct-append, contains_in}
use dusk_blockchain.Committee.BidList.{
  Bid, equals, contains, add_bid, is_listed, validate_bids, read_bids, reconstruct_bid_list_subset,
}

equals_swap : (a b : Bid) → equals a b ≡ equals b a
unfolding equals
equals_swap a b = elim (Bool-cases (equal a.x b.x)) [
  | inl e ↦ rw (e, eq→equal b.x a.x (sym (equal→eq a.x b.x e)))
  | inr e ↦ elim (Bool-cases (equal b.x a.x)) [
    | inl f ↦ let g = eq→equal a.x b.x (sym (equal→eq b.x a.x f)) in absurd (ground arith)
    | inr f ↦ rw (e, f)
  ]
]

is_listed-contains : (bs : List Bid) (b : Bid) → is_listed bs b ≡ contains bs b
unfolding is_listed contains
is_listed-contains [] b = refl
is_listed-contains (b2 ∷ bs) b = rw (equals_swap b b2, is_listed-contains bs b)

-- A subset is valid exactly when the list contains each of its bids.
validate_bids_iff :
    (bs subset : List Bid)
    → (validate_bids bs subset ≡ true) ↔ All (λ b. contains bs b ≡ true) subset
unfolding validate_bids
validate_bids_iff bs [] = (λ _. tt, λ _. refl)
validate_bids_iff bs (b ∷ subset) =
    let (f, g) = validate_bids_iff bs subset in
    rw (is_listed-contains bs b)
      (λ h. (ground arith, f (ground arith)), λ (u, v). ground (arith, g v))

contains-append :
    (bs : List Bid) (bid b : Bid) → contains (bs ++ (bid ∷ [])) b ≡ (contains bs b || equals bid b)
unfolding contains
contains-append [] bid b = ground arith
contains-append (c ∷ bs) bid b = rw (contains-append bs bid b) (ground arith)

contains-contains_in : (bs : List Bid) (b : Bid) → contains_in equals b bs ≡ contains bs b
unfolding contains contains_in
contains-contains_in [] b = refl
contains-contains_in (c ∷ bs) b = rw (equals_swap b c, contains-contains_in bs b)

contains_same : (bs : List Bid) (a b : Bid) → equals a b ≡ true → contains bs a ≡ contains bs b
unfolding contains equals
contains_same [] a b e = refl
contains_same (c ∷ bs) a b e = rw (contains_same bs a b e, equal→eq a.x b.x e)

-- Adding a bid to a list with no two equal bids gives such a list, which contains the bid, what it
-- contained, and nothing else.
pub add_bid_correct :
    (bs : List Bid) (bid : Bid)
    → Distinct equals bs
    → Distinct equals (add_bid bs bid)
      × ((b : Bid) → contains (add_bid bs bid) b ≡ (contains bs b || equals bid b))
unfolding add_bid
add_bid_correct bs bid d = elim (Bool-cases (contains bs bid)) [
  | inl old ↦ rw old (
    d,
    λ b. elim (Bool-cases (equals bid b)) [
      | inl e ↦ rw (e, ← contains_same bs bid b e, old)
      | inr e ↦ ground arith
    ],
  )
  | inr new ↦
      rw new (
        Distinct-append equals bs bid d (contains-contains_in bs bid ∙ new),
        contains-append bs bid,
      )
]

abbrev pub flatten : List Bid → Bytes
flatten [] = []
flatten (b ∷ bs) = b.x ++ flatten bs

read_bids_lem :
    (n : ℕ) (pl : Bytes)
    → length pl ≡ 32 * n
    → (flatten (read_bids n pl) ≡ pl)
      × (length (read_bids n pl) ≡ n)
      × All (λ b. length b.x ≡ 32) (read_bids n pl)
unfolding read_bids
read_bids_lem zero [] h = (refl, refl, tt)
read_bids_lem zero (b ∷ pl) h = absurd (omega arith)
read_bids_lem (suc n) pl h =
    let (e, l, a) = read_bids_lem n (drop 32 pl) (omega (arith, length-drop 32 pl)) in
    (rw e (take-append-drop 32 pl), omega (arith, l), (omega (arith, length-take 32 pl), a))

-- A byte string is a list of bids exactly when its length is a multiple of 32; then the bids' X, of 32
-- bytes each, are the string.
pub reconstruct_lem :
    (pl : Bytes)
    → ((length pl % 32 ≡ 0)
        × (bids : List Bid) × (reconstruct_bid_list_subset pl ≡ some bids)
        × (flatten bids ≡ pl)
        × All (λ b. length b.x ≡ 32) bids)
      ⊎ ((length pl % 32 ≢ 0) × (reconstruct_bid_list_subset pl ≡ none))
unfolding reconstruct_bid_list_subset
reconstruct_lem pl = elim (Bool-cases (length pl % 32 == 0)) [
  | inl whole ↦
      let (e, _, a) = read_bids_lem (length pl / 32) pl (ground arith) in
      inl (ground arith, read_bids (length pl / 32) pl, rw whole, e, a)
  | inr part ↦ inr (ground arith, rw part)
]
