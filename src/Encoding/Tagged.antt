-- ===== src/Encoding/Tagged.antt =====
-- Encodings that begin with a byte by which a reader chooses what to decode.
use dusk_blockchain.Base.{ℕ, Bool, true, false, ◌≡◌, refl, ap, [], ◌∷◌, ◌++◌}
use dusk_blockchain.Encoding.Buffer.{Bytes, M, Outcome, ok, write, read_all, ◌>>=◌, ◌>>◌, pure}
use dusk_blockchain.Encoding.Integers.{read_uint8, write_uint8}
use dusk_blockchain.Encoding.Integers.RoundTrip.{uint8-RoundTrips}
use dusk_blockchain.Encoding.Reader.{Filled, filled, Filled-then, Filled-bind, Reads-then}

pub record Tagged {A : Type 0} (at_end : Bool) (tag : ℕ) (w : M (Unit {0})) (r : M A) (a : A)
    : Type 0 where
  pub whole : Filled at_end w r a
  pub tail : Bytes
  pub starts : whole.trip.bytes ≡ tag ∷ tail

left_behind : {A : Type 0} {a b : A} {xs ys : Bytes} → Outcome.ok a xs ≡ ok b ys → ys ≡ xs
left_behind h = cc

module _ {B : Type 0} {at_end : Bool} (tag : ℕ) where
  -- The tag, and what follows it.
  pub tag-Tagged :
      {v : M (Unit {0})} (k : ℕ → M B) {b : B}
      → Filled at_end v (k tag) b
      → Tagged at_end tag (write_uint8 tag >> v) (read_uint8 >>= k) b
  unfolding Filled-then Reads-then filled write_uint8 write read_uint8 read_all ◌>>=◌
  tag-Tagged k second =
      let first = filled true (uint8-RoundTrips tag) refl in
      record {
        whole = Filled-then (filled false (uint8-RoundTrips tag) refl) k second;
        tail = second.trip.bytes;
        starts =
            ap (λ bs. bs ++ second.trip.bytes) (left_behind ((uint8-RoundTrips tag).writes []));
      }

module _ {A B : Type 0} {tag : ℕ} {w : M (Unit {0})} {r : M A} {a : A} {at_end : Bool} where
  pub Tagged-then :
      {v : M (Unit {0})} {b : B} (first : Tagged false tag w r a) (k : A → M B)
      → Filled at_end v (k a) b
      → Tagged at_end tag (w >> v) (r >>= k) b
  unfolding Filled-then Reads-then
  Tagged-then first k second = record {
    whole = Filled-then first.whole k second;
    tail = first.tail ++ second.trip.bytes;
    starts = ap (λ bs. bs ++ second.trip.bytes) first.starts;
  }

  pub Tagged-bind :
      {b : B} (first : Tagged at_end tag w r a) (f : A → B)
      → f a ≡ b
      → Tagged at_end tag w (r >>= λ x. pure (f x)) b
  unfolding Filled-bind
  Tagged-bind first f e = record {
    whole = Filled-bind first.whole f e;
    tail = first.tail;
    starts = first.starts;
  }
