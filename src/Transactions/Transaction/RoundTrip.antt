-- ===== src/Transactions/Transaction/RoundTrip.antt =====
-- What is read back of an encoded transaction, and of a list of them.
use dusk_blockchain.Base.{true, ℕ, ◌≡◌, refl, subst, sym, [], ◌∷◌, ◌++◌}
use dusk_blockchain.Encoding.Buffer.{M, ok}
use dusk_blockchain.Encoding.Codec.{RoundTrips}
use dusk_blockchain.Encoding.Reader.{IsLast}
use dusk_blockchain.Encoding.Tagged.{Tagged, Tagged-bind}
use dusk_blockchain.Transactions.Standard
use dusk_blockchain.Transactions.Standard.{
  Standard, coinbase_type, bid_type, stake_type, standard_type, timelock_type, standard-Tagged,
}
use dusk_blockchain.Transactions.Locked.{
  IsTimeLock, IsBid, IsStake, time_lock-Tagged, bid-Tagged, stake-Tagged,
}
use dusk_blockchain.Transactions.Coinbase
use dusk_blockchain.Transactions.Coinbase.{coinbase-Tagged}
use dusk_blockchain.Transactions.Transaction.{
  Transaction, standard, time_lock, bid, stake, coinbase, encode, decode, decode_as, with_id,
}

-- Every field fits its width, and the type that the struct carries is its own. Byte strings at the end
-- of an encoding are not empty: a bytes.Reader would give io.EOF for them.
unfoldable pub IsWellFormed : Transaction → Type 0
IsWellFormed (standard s) =
    Standard.IsWellSized s × (s.tx_type ≡ standard_type) × IsLast true s.range_proof
IsWellFormed (time_lock t) = IsTimeLock t × (t.standard.tx_type ≡ timelock_type)
IsWellFormed (bid b) = IsBid b × (b.time_lock.standard.tx_type ≡ bid_type)
IsWellFormed (stake s) =
    IsStake s × (s.time_lock.standard.tx_type ≡ stake_type) × IsLast true s.pub_key_bls
IsWellFormed (coinbase c) =
    Coinbase.IsWellSized c × (c.tx_type ≡ coinbase_type) × Coinbase.IsMasked c.rewards

-- A reader that looks at the tag first reads the same.
decode-Tagged :
    {w : M (Unit {0})} {tag : ℕ} (t : ℕ) {tx : Transaction}
    → tag ≡ t
    → Tagged true tag w (decode_as t) tx
    → RoundTrips w decode tx
unfolding decode
decode-Tagged {tag} t {tx} e h = record {
  bytes = h.whole.trip.bytes;
  writes = h.whole.trip.writes;
  reads = λ rest.
      subst (λ bs. decode (bs ++ rest) ≡ ok tx rest) (sym h.starts)
        (subst (λ n. decode_as n (tag ∷ (h.tail ++ rest)) ≡ ok tx rest) (sym e)
          (subst (λ bs. decode_as t (bs ++ rest) ≡ ok tx rest) h.starts
            (h.whole.trip.reads rest tt)));
}

-- Any transaction of which each field fits its width, and a byte string at the very end is not empty,
-- is read back from a bytes.Reader by the type in its first byte, without its identifier.
pub transaction-RoundTrips :
    (tx : Transaction) → IsWellFormed tx → RoundTrips (encode tx) decode (with_id [] tx)
unfolding IsWellFormed encode decode_as with_id
transaction-RoundTrips (standard s) (v, e, last) =
    decode-Tagged standard_type e (Tagged-bind (standard-Tagged true s v last) standard refl)
transaction-RoundTrips (time_lock t) (v, e) =
    decode-Tagged timelock_type e (Tagged-bind (time_lock-Tagged true t v) time_lock refl)
transaction-RoundTrips (bid b) (v, e) =
    decode-Tagged bid_type e (Tagged-bind (bid-Tagged b v) bid refl)
transaction-RoundTrips (stake s) (v, e, last) =
    decode-Tagged stake_type e (Tagged-bind (stake-Tagged s v last) stake refl)
transaction-RoundTrips (coinbase c) (v, e, masked) =
    decode-Tagged coinbase_type e (Tagged-bind (coinbase-Tagged c v masked) coinbase refl)
