-- ===== src/Reduction/Event.antt =====
-- pkg/core/consensus/reduction/event.go: a vote, and how it and sets of votes are read and written.
-- A value asserted to be a *Reduction is one.
use dusk_blockchain.Base.{
  ◌^◌, ◌<◌, ◌≡◌, refl, arith, Bool, ◌&&◌, ◌==◌, List, [], length, All, All-map,
}
use dusk_blockchain.Encoding.Buffer.{Bytes, M, ◌>>=◌, ◌>>◌, pure, equal}
use dusk_blockchain.Encoding.Codec.{
  RoundTrips, RoundTrips-then, RoundTrips-bind, RoundTrips-each, write_each, read_times,
}
use dusk_blockchain.Encoding.VarInt.{read_var_int, write_var_int}
use dusk_blockchain.Encoding.VarInt.RoundTrip.{var_int-RoundTrips}
use dusk_blockchain.Encoding.MiscData.{read_bls, write_bls, read_bls-RoundTrips}
use dusk_blockchain.Consensus.Header.{Header, IsWellSized, marshal, unmarshal, header-RoundTrips}

pub record Reduction : Type 0 where
  pub header : Header
  pub signed_hash : Bytes

abbrev pub empty_header : Header
empty_header = record { pub_key_bls = []; round = 0; step = 0; block_hash = [] }

unfoldable pub new : Reduction
new = record { header = empty_header; signed_hash = [] }

unfoldable pub reduction_equal : Reduction → Reduction → Bool
reduction_equal e other =
    equal e.header.pub_key_bls other.header.pub_key_bls
    && (e.header.round == other.header.round)
    && (e.header.step == other.header.step)

-- The reader fills the event that it is given.
unfoldable pub unmarshal_reduction : Reduction → M Reduction
unmarshal_reduction bev = do
  h ← unmarshal bev.header
  sig ← read_bls
  pure (record { header = h; signed_hash = sig })

unfoldable pub deserialize : M Reduction
unfolding new
deserialize = unmarshal_reduction new

unfoldable pub marshal_reduction : Reduction → M (Unit {0})
marshal_reduction bev = marshal bev.header >> write_bls bev.signed_hash

unfoldable pub unmarshal_vote_set : M (List Reduction)
unmarshal_vote_set = do n ← read_var_int; read_times deserialize n

unfoldable pub marshal_vote_set : List Reduction → M (Unit {0})
marshal_vote_set evs = write_var_int (length evs) >> write_each marshal_reduction evs

-- A vote whose fields fit their widths.
pub record IsVote (e : Reduction) : Type 0 where
  pub fits : IsWellSized e.header
  pub size : length e.signed_hash ≡ 33

pub reduction-RoundTrips :
    (old e : Reduction) → IsVote e → RoundTrips (marshal_reduction e) (unmarshal_reduction old) e
unfolding marshal_reduction unmarshal_reduction
reduction-RoundTrips old e v =
    RoundTrips-then (header-RoundTrips old.header e.header v.fits) _
      (RoundTrips-bind (read_bls-RoundTrips e.signed_hash v.size) _ refl)

-- A set of votes whose fields fit their widths is read back, in its order.
pub vote_set-RoundTrips :
    (evs : List Reduction)
    → length evs < 2 ^ 63
    → All IsVote evs
    → RoundTrips (marshal_vote_set evs) unmarshal_vote_set evs
unfolding marshal_vote_set unmarshal_vote_set deserialize
vote_set-RoundTrips evs n h =
    RoundTrips-then (var_int-RoundTrips (length evs) (omega arith))
      (read_times (unmarshal_reduction new))
      (RoundTrips-each marshal_reduction (unmarshal_reduction new) evs
        (All-map (reduction-RoundTrips new) evs h))
