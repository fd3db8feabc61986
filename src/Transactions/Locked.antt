-- ===== src/Transactions/Locked.antt =====
-- pkg/core/transactions/timelocktx.go, bidtx.go and staketx.go: transactions under a time lock.
use dusk_blockchain.Base.{
  Bool, true, false, ℕ, ◌^◌, ◌<◌, ◌≤◌, ◌≡◌, refl, length, ◌==◌, if◌then◌else◌, Option, none, some,
}
use dusk_blockchain.Encoding.Buffer.{Bytes, M, ◌>>=◌, ◌>>◌, pure}
use dusk_blockchain.Encoding.Tagged.{Tagged, Tagged-then}
use dusk_blockchain.Encoding.Integers.{little_endian, read_uint64, write_uint64}
use dusk_blockchain.Encoding.Integers.RoundTrip.{uint64-RoundTrips}
use dusk_blockchain.Encoding.Reader.{
  IsLast, filled, Filled-then, Filled-bind, var_bytes-Filled, reader_var_bytes, read_256_eof,
  read_uint64_eof,
}
use dusk_blockchain.Encoding.MiscData.{read_256, write_256, read_256-RoundTrips}
use dusk_blockchain.Encoding.VarData.{write_var_bytes}
use dusk_blockchain.Transactions.Standard
use dusk_blockchain.Transactions.Standard.{
  Standard, new_standard, unhashed, standard-Tagged, bid_type, stake_type, timelock_type,
}

pub record TimeLock : Type 0 where
  pub standard : Standard
  pub lock : ℕ

-- `t.TxType = ty` through the embedded structs.
with_type : ℕ → TimeLock → TimeLock
with_type ty t = record t { standard = record t.standard { tx_type = ty } }

unfoldable pub new_time_lock : ℕ → ℕ → ℕ → Bytes → TimeLock
unfolding with_type
new_time_lock ver lock fee r =
    with_type timelock_type (record { standard = new_standard ver fee r; lock = lock })

unfoldable pub encode_time_lock : TimeLock → M (Unit {0})
encode_time_lock t = Standard.encode t.standard >> write_uint64 little_endian t.lock

unfoldable pub decode_time_lock : M TimeLock
decode_time_lock = do
  standard ← Standard.decode
  lock ← read_uint64 little_endian
  pure (record { standard = standard; lock = lock })

pub record Bid : Type 0 where
  pub time_lock : TimeLock
  pub m : Bytes

-- `none` is the error.
unfoldable pub new_bid : ℕ → ℕ → ℕ → Bytes → Bytes → Option Bid
unfolding with_type
new_bid ver lock fee r m =
    if length m == 32
    then some (record { time_lock = with_type bid_type (new_time_lock ver lock fee r); m = m })
    else none

unfoldable pub encode_bid : Bid → M (Unit {0})
encode_bid b = encode_time_lock b.time_lock >> write_256 b.m

unfoldable pub decode_bid : M Bid
decode_bid = do
  time_lock ← decode_time_lock
  m ← read_256
  pure (record { time_lock = time_lock; m = m })

pub record Stake : Type 0 where
  pub time_lock : TimeLock
  pub pub_key_ed : Bytes
  pub pub_key_bls : Bytes

-- `none` is the error.
unfoldable pub new_stake : ℕ → ℕ → ℕ → Bytes → Bytes → Bytes → Option Stake
unfolding with_type
new_stake ver lock fee r pub_key_ed pub_key_bls =
    if length pub_key_ed == 32
    then some (record {
      time_lock = with_type stake_type (new_time_lock ver lock fee r);
      pub_key_ed = pub_key_ed;
      pub_key_bls = pub_key_bls;
    })
    else none

unfoldable pub encode_stake : Stake → M (Unit {0})
encode_stake s = do
  encode_time_lock s.time_lock
  write_256 s.pub_key_ed
  write_var_bytes s.pub_key_bls

unfoldable pub decode_stake : M Stake
decode_stake = do
  time_lock ← decode_time_lock
  pub_key_ed ← read_256
  pub_key_bls ← reader_var_bytes
  pure (record { time_lock = time_lock; pub_key_ed = pub_key_ed; pub_key_bls = pub_key_bls })

pub record IsTimeLock (t : TimeLock) : Type 0 where
  pub standard : Standard.IsWellSized t.standard
  pub lock : t.lock < 2 ^ 64

pub record IsBid (b : Bid) : Type 0 where
  pub time_lock : IsTimeLock b.time_lock
  pub m : length b.m ≡ 32

pub record IsStake (s : Stake) : Type 0 where
  pub time_lock : IsTimeLock s.time_lock
  pub pub_key_ed : length s.pub_key_ed ≡ 32
  pub pub_key_bls : length s.pub_key_bls ≤ 2 ^ 48

abbrev pub unhashed_lock : TimeLock → TimeLock
unhashed_lock t = record t { standard = unhashed t.standard }

pub time_lock-Tagged :
    (at_end : Bool) (t : TimeLock)
    → IsTimeLock t
    → Tagged at_end t.standard.tx_type (encode_time_lock t) decode_time_lock (unhashed_lock t)
unfolding encode_time_lock decode_time_lock
time_lock-Tagged at_end t v = Tagged-then (standard-Tagged false t.standard v.standard tt) _ (
    Filled-bind (filled at_end (uint64-RoundTrips little_endian t.lock v.lock) read_uint64_eof) _
      refl)

pub bid-Tagged :
    (b : Bid)
    → IsBid b
    → Tagged true b.time_lock.standard.tx_type
        (encode_bid b)
        decode_bid
        (record b { time_lock = unhashed_lock b.time_lock })
unfolding encode_bid decode_bid
bid-Tagged b v =
    Tagged-then (time_lock-Tagged false b.time_lock v.time_lock) _
      (Filled-bind (filled true (read_256-RoundTrips b.m v.m) read_256_eof) _ refl)

pub stake-Tagged :
    (s : Stake)
    → IsStake s
    → IsLast true s.pub_key_bls
    → Tagged true s.time_lock.standard.tx_type
        (encode_stake s)
        decode_stake
        (record s { time_lock = unhashed_lock s.time_lock })
unfolding encode_stake decode_stake
stake-Tagged s v last = Tagged-then (time_lock-Tagged false s.time_lock v.time_lock) _ (
    Filled-then (filled false (read_256-RoundTrips s.pub_key_ed v.pub_key_ed) read_256_eof) _
      (Filled-bind (var_bytes-Filled true s.pub_key_bls v.pub_key_bls last) _ refl))
