-- ===== src/Encoding/Reader.antt =====
-- Go's bytes.Reader, from which transactions are read: unlike a bytes.Buffer it gives io.EOF at its end
-- even when no byte is asked for. The other readers of this library never ask for none.
use dusk_blockchain.Base.{
  ◌≡◌, refl, ap, ◌∙◌, sym, arith, ◌≤◌, Bool, true, false, ltb, if◌then◌else◌, ℕ, List, [], ◌∷◌,
  ◌++◌, length, All, append_assoc, append-nil,
}
use dusk_blockchain.Encoding.Buffer.{
  Bytes, M, ok, err, eof, panicked, fail, pure, ◌>>=◌, ◌>>◌, >>=-ok, >>-ok, read_all, write,
  read_all-append,
}
use dusk_blockchain.Encoding.Codec.{RoundTrips, write_each, read_times}
use dusk_blockchain.Encoding.VarInt.{read_var_int}
use dusk_blockchain.Encoding.Integers.{little_endian, read_uint8, read_uint64}
use dusk_blockchain.Encoding.MiscData.{read_256}
use dusk_blockchain.Encoding.VarInt.RoundTrip.{var_int-RoundTrips}
use dusk_blockchain.Encoding.VarData.{max_bytes, write_var_bytes}

-- The read of bytes.Reader with the test that follows it.
unfoldable pub reader_read : ℕ → M Bytes
reader_read n [] = err eof []
reader_read n (b ∷ bs) = read_all n (b ∷ bs)

unfoldable pub reader_make : ℕ → M Bytes
reader_make c = if ltb max_bytes c then fail panicked else reader_read c

-- ReadVarBytes on a bytes.Reader.
unfoldable pub reader_var_bytes : M Bytes
reader_var_bytes = read_var_int >>= reader_make

-- Something follows, unless the end is allowed.
abbrev pub May : Bool → Bytes → Type 0
May true rest = Unit {0}
May false [] = ⊥
May false (b ∷ rest) = Unit {0}

May-append : (at_end : Bool) (bs rest : Bytes) → May at_end rest → May at_end (bs ++ rest)
May-append true bs rest m = tt
May-append false [] rest m = m
May-append false (b ∷ bs) rest m = tt

pub May-front : (at_end : Bool) (bs rest : Bytes) → May false bs → May at_end (bs ++ rest)
May-front true bs rest m = tt
May-front false [] rest m = elim m [ ]
May-front false (b ∷ bs) rest m = tt

May-weaken : (at_end : Bool) (rest : Bytes) → May false rest → May at_end rest
May-weaken true rest m = tt
May-weaken false rest m = m

-- A round trip where something follows, or also at the end.
pub record Reads {A : Type 0} (at_end : Bool) (w : M (Unit {0})) (r : M A) (a : A) : Type 0 where
  pub bytes : Bytes
  pub writes : (buf : Bytes) → w buf ≡ ok tt (buf ++ bytes)
  pub reads : (rest : Bytes) → May at_end rest → r (bytes ++ rest) ≡ ok a rest

-- One that writes something.
pub record Filled {A : Type 0} (at_end : Bool) (w : M (Unit {0})) (r : M A) (a : A) : Type 0 where
  pub trip : Reads at_end w r a
  pub more : May false trip.bytes

pub Reads-RoundTrips :
    {A : Type 0} {w : M (Unit {0})} {r : M A} {a : A} → Reads true w r a → RoundTrips w r a
Reads-RoundTrips t = record { bytes = t.bytes; writes = t.writes; reads = λ rest. t.reads rest tt }

-- A reader that finds nothing in an empty buffer has read something.
unfoldable pub filled :
    {A : Type 0} {w : M (Unit {0})} {r : M A} {a : A} (at_end : Bool) (t : RoundTrips w r a)
    → r [] ≡ err eof []
    → Filled at_end w r a
filled {A} {w} {r} {a} at_end t e = record {
  trip = record { bytes = t.bytes; writes = t.writes; reads = λ rest m. t.reads rest };
  more = split t.bytes (t.reads []);
}
  where
    split : (bs : Bytes) → r (bs ++ []) ≡ ok a [] → May false bs
    split [] h = cc
    split (b ∷ bs) h = tt

module _ {A B : Type 0} {w : M (Unit {0})} {r : M A} {a : A} where
  -- One field after another, where the first is followed by what the reader asks for.
  unfoldable pub Reads-then :
      {at_end : Bool} {v : M (Unit {0})} {b : B} {mid : Bool} (first : Reads mid w r a)
      (k : A → M B) (second : Reads at_end v (k a) b)
      → ((rest : Bytes) → May at_end rest → May mid (second.bytes ++ rest))
      → Reads at_end (w >> v) (r >>= k) b
  Reads-then {v = v} first k second joined = record {
    bytes = first.bytes ++ second.bytes;
    writes = λ buf.
        >>-ok w v (first.writes buf)
        ∙ second.writes (buf ++ first.bytes)
        ∙ ap (ok tt) (append_assoc buf first.bytes second.bytes);
    reads = λ rest m.
        rw append_assoc
          (>>=-ok r k (first.reads (second.bytes ++ rest) (joined rest m)) ∙ second.reads rest m);
  }

  unfoldable pub Filled-then :
      {at_end : Bool} {v : M (Unit {0})} {b : B}
      → Filled false w r a
      → (k : A → M B) → Filled at_end v (k a) b
      → Filled at_end (w >> v) (r >>= k) b
  unfolding Reads-then
  Filled-then first k second = record {
    trip =
        Reads-then first.trip k second.trip
          (λ rest m. May-front false second.trip.bytes rest second.more);
    more = May-front false first.trip.bytes second.trip.bytes first.more;
  }

  unfoldable pub Filled-bind :
      {at_end : Bool} {b : B}
      → Filled at_end w r a
      → (f : A → B) → f a ≡ b
      → Filled at_end w (r >>= λ x. pure (f x)) b
  Filled-bind first f e = record {
    trip = record {
      bytes = first.trip.bytes;
      writes = first.trip.writes;
      reads = λ rest m. >>=-ok r _ (first.trip.reads rest m) ∙ ap (λ b. ok b rest) e;
    };
    more = first.more;
  }

-- One that may stand at the end may stand before something.
pub Filled-inside :
    {A : Type 0} {w : M (Unit {0})} {r : M A} {a : A} {at_end : Bool}
    → Filled at_end w r a
    → Filled false w r a
Filled-inside {at_end = at_end} t = record {
  trip = record {
    bytes = t.trip.bytes;
    writes = t.trip.writes;
    reads = λ rest m. t.trip.reads rest (May-weaken at_end rest m);
  };
  more = t.more;
}

-- Items of a list, the last of which may stand at the end when the list does.
unfoldable pub Items : {A : Type 0} → Bool → (A → M (Unit {0})) → M A → List A → Type 0
Items at_end w r [] = Unit {0}
Items at_end w r (x ∷ []) = Filled at_end (w x) r x
Items at_end w r (x ∷ y ∷ xs) = Filled false (w x) r x × Items at_end w r (y ∷ xs)

pub Items-inside :
    {A : Type 0} (w : A → M (Unit {0})) (r : M A) (xs : List A)
    → All (λ x. Filled false (w x) r x) xs
    → Items false w r xs
unfolding Items
Items-inside w r [] h = tt
Items-inside w r (x ∷ []) (hx, h) = hx
Items-inside w r (x ∷ y ∷ xs) (hx, h) = (hx, Items-inside w r (y ∷ xs) h)

module _ {A : Type 0} (at_end : Bool) (w : A → M (Unit {0})) (r : M A) where
  each-Filled :
      (x : A) (xs : List A)
      → Items at_end w r (x ∷ xs)
      → Filled at_end (write_each w (x ∷ xs)) (read_times r (length (x ∷ xs))) (x ∷ xs)
  unfolding write_each read_times Items Reads-then ◌>>=◌
  each-Filled x [] h = record {
    trip =
        Reads-then h.trip (λ y. pure [] >>= λ ys. pure (y ∷ ys))
          (record {
            bytes = [];
            writes = λ buf. ap (ok tt) (sym (append-nil buf));
            reads = λ rest m. refl;
          })
          (λ rest m. m);
    more = May-front false h.trip.bytes [] h.more;
  }
  each-Filled x (y ∷ xs) (hx, h) =
      let others = each-Filled y xs h in
      record {
        trip =
            Reads-then hx.trip (λ z. read_times r (length (y ∷ xs)) >>= λ ys. pure (z ∷ ys))
              (record {
                bytes = others.trip.bytes;
                writes = others.trip.writes;
                reads =
                    λ rest m. >>=-ok (read_times r (length (y ∷ xs))) _ (others.trip.reads rest m);
              })
              (λ rest m. May-front false others.trip.bytes rest others.more);
        more = May-front false hx.trip.bytes others.trip.bytes hx.more;
      }

  pub each-Reads :
      (xs : List A)
      → Items at_end w r xs
      → Reads at_end (write_each w xs) (read_times r (length xs)) xs
  unfolding write_each read_times
  each-Reads [] h = record {
    bytes = [];
    writes = λ buf. ap (ok tt) (sym (append-nil buf));
    reads = λ rest m. refl;
  }
  each-Reads (x ∷ xs) h = (each-Filled x xs h).trip

-- Bytes that are not empty where they stand at the end.
abbrev pub IsLast : Bool → Bytes → Type 0
IsLast true bs = May false bs
IsLast false bs = Unit {0}

reader_bytes :
    (at_end : Bool) (bs : Bytes)
    → length bs ≤ max_bytes
    → IsLast at_end bs
    → Reads at_end (write bs) (reader_make (length bs)) bs
unfolding write reader_make
reader_bytes at_end bs few last =
    let small : ltb max_bytes (length bs) ≡ false = ground arith in
    record {
      bytes = bs;
      writes = λ buf. refl;
      reads = λ rest m. rw small (
          some_left (bs ++ rest) (joined at_end last rest m)
          ∙ read_all-append bs rest (length bs) refl);
    }
  where
    some_left :
        (buf : Bytes) → May false buf → reader_read (length bs) buf ≡ read_all (length bs) buf
    some_left [] m = elim m [ ]
    some_left (b ∷ buf) m = unfold reader_read in refl

    joined :
        (at_end : Bool)
        → IsLast at_end bs
        → (rest : Bytes) → May at_end rest
        → May false (bs ++ rest)
    joined true last rest m = May-front false bs rest last
    joined false last rest m = May-append false bs rest m

pub read_uint8_eof : read_uint8 [] ≡ err eof []
unfolding read_uint8 read_all ◌>>=◌
read_uint8_eof = refl

pub read_uint64_eof : read_uint64 little_endian [] ≡ err eof []
unfolding read_uint64 read_all ◌>>=◌
read_uint64_eof = refl

pub read_256_eof : read_256 [] ≡ err eof []
unfolding read_256 read_all ◌>>=◌
read_256_eof = refl

pub read_var_int_eof : read_var_int [] ≡ err eof []
unfolding read_var_int read_uint8 read_all ◌>>=◌
read_var_int_eof = refl

-- A byte string is read back where it is followed, and at the end unless it is empty.
pub var_bytes-Filled :
    (at_end : Bool) (bs : Bytes)
    → length bs ≤ max_bytes
    → IsLast at_end bs
    → Filled at_end (write_var_bytes bs) reader_var_bytes bs
unfolding write_var_bytes reader_var_bytes
var_bytes-Filled at_end bs few last =
    let count = filled true (var_int-RoundTrips (length bs) (omega arith)) read_var_int_eof in
    record {
      trip = Reads-then count.trip reader_make (reader_bytes at_end bs few last) (λ rest m. tt);
      more =
          unfold Reads-then in
          May-front false count.trip.bytes (reader_bytes at_end bs few last).bytes count.more;
    }
