-- ===== src/Committee/BidList.antt =====
-- pkg/core/consensus/user/bidlist.go: the public list of bids. A bid's X is an array of 32 bytes.
pub mod Checked
use dusk_blockchain.Base.{
  ℕ, zero, suc, ◌/◌, ◌%◌, Bool, true, false, not, ◌&&◌, ◌||◌, ◌==◌, if◌then◌else◌, List, [], ◌∷◌,
  ◌++◌, Option, none, some, length, take, drop,
}
use dusk_blockchain.Encoding.Buffer.{Bytes, equal}

pub record Bid : Type 0 where
  pub x : Bytes
  pub end_height : ℕ

unfoldable pub equals : Bid → Bid → Bool
equals b bid = equal b.x bid.x

unfoldable pub contains : List Bid → Bid → Bool
contains [] bid = false
contains (b ∷ bs) bid = equals b bid || contains bs bid

-- A bid with the X of one that is there already is not added.
unfoldable pub add_bid : List Bid → Bid → List Bid
add_bid bs bid = if contains bs bid then bs else bs ++ (bid ∷ [])

-- Whether some bid of the list equals `b`: the inner loop of ValidateBids.
unfoldable pub is_listed : List Bid → Bid → Bool
is_listed [] b = false
is_listed (b2 ∷ bs) b = equals b b2 || is_listed bs b

-- Whether the call returns nil.
unfoldable pub validate_bids : List Bid → List Bid → Bool
validate_bids bs [] = true
validate_bids bs (b ∷ subset) = is_listed bs b && validate_bids bs subset

-- The loop of ReconstructBidListSubset over `n` bids.
unfoldable pub read_bids : ℕ → Bytes → List Bid
read_bids zero pl = []
read_bids (suc n) pl = record { x = take 32 pl; end_height = 0 } ∷ read_bids n (drop 32 pl)

unfoldable pub reconstruct_bid_list_subset : Bytes → Option (List Bid)
reconstruct_bid_list_subset pl =
    if not (length pl % 32 == 0) then none else some (read_bids (length pl / 32) pl)
