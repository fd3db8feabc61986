-- ===== src/Encoding/Codec.antt =====
-- What a writer and a reader of the same value owe each other, and how that composes. The
-- serialisation functions of the whole program are sequences of such pairs.
use dusk_blockchain.Base.{
  subst, map, List, [], ◌∷◌, All, zero, suc, sym, append-nil, ℕ, ◌≡◌, refl, ap, ◌∙◌, ◌++◌, length,
  append_assoc,
}
use dusk_blockchain.Encoding.Buffer.{
  Outcome, >>=-eq-ok, Bytes, M, ok, ◌>>=◌, ◌>>◌, >>=-ok, >>-ok, pure, read_all, write,
  read_all-append,
}

-- The bytes that the writer appends to any buffer are those from which the reader gets the value
-- back, whatever follows them.
pub record RoundTrips {A : Type 0} (w : M (Unit {0})) (r : M A) (a : A) : Type 0 where
  pub bytes : Bytes
  pub writes : (buf : Bytes) → w buf ≡ ok tt (buf ++ bytes)
  pub reads : (rest : Bytes) → r (bytes ++ rest) ≡ ok a rest

-- The same where nothing follows.
pub reads_alone :
    {A : Type 0} {w : M (Unit {0})} {r : M A} {a : A} (t : RoundTrips w r a) → r t.bytes ≡ ok a []
reads_alone {r = r} {a = a} t = subst (λ bs. r bs ≡ ok a []) (append-nil t.bytes) (t.reads [])

pub write-Reads : (n : ℕ) (bs : Bytes) → length bs ≡ n → RoundTrips (write bs) (read_all n) bs
unfolding write
write-Reads n bs h = record {
  bytes = bs;
  writes = λ buf. refl;
  reads = λ rest. read_all-append bs rest n h;
}

module _ {A B : Type 0} {w : M (Unit {0})} {r : M A} {a : A} (first : RoundTrips w r a) where
  -- One field after another.
  unfoldable pub RoundTrips-then :
      {v : M (Unit {0})} (k : A → M B) {b : B}
      → RoundTrips v (k a) b
      → RoundTrips (w >> v) (r >>= k) b
  RoundTrips-then {v} k second = record {
    bytes = first.bytes ++ second.bytes;
    writes = λ buf.
        >>-ok w v (first.writes buf)
        ∙ second.writes (buf ++ first.bytes)
        ∙ ap (ok tt) (append_assoc buf first.bytes second.bytes);
    reads = λ rest.
        rw append_assoc (>>=-ok r k (first.reads (second.bytes ++ rest)) ∙ second.reads rest);
  }

  -- The last field, out of which the reader builds its result.
  unfoldable pub RoundTrips-bind :
      (f : A → B) {b : B} → f a ≡ b → RoundTrips w (r >>= λ x. pure (f x)) b
  RoundTrips-bind f e = record {
    bytes = first.bytes;
    writes = first.writes;
    reads = λ rest. >>=-ok r _ (first.reads rest) ∙ ap (λ b. ok b rest) e;
  }

  -- The same where the last step is a check that passes.
  pub RoundTrips-last :
      (k : A → M B) {b : B} → ((rest : Bytes) → k a rest ≡ ok b rest) → RoundTrips w (r >>= k) b
  RoundTrips-last k e = record {
    bytes = first.bytes;
    writes = first.writes;
    reads = λ rest. >>=-ok r k (first.reads rest) ∙ e rest;
  }

-- Nothing is written, and nothing read.
pub RoundTrips-pure : {A : Type 0} (a : A) → RoundTrips (pure tt) (pure a) a
RoundTrips-pure a = record {
  bytes = [];
  writes = λ buf. ap (ok tt) (sym (append-nil buf));
  reads = λ rest. refl;
}

-- A loop that writes each item of a list, and one that reads so many items.
unfoldable pub write_each {ℓ} : {A : Type ℓ} → (A → M (Unit {0})) → List A → M (Unit {0})
write_each w [] = pure tt
write_each w (x ∷ xs) = w x >> write_each w xs

unfoldable pub read_times : {A : Type 0} → M A → ℕ → M (List A)
read_times r zero = pure []
read_times r (suc n) = r >>= λ x. read_times r n >>= λ xs. pure (x ∷ xs)

-- The reader gives `f` of each item that was written.
pub RoundTrips-each_map :
    {A : Type 0} (w : A → M (Unit {0})) (r : M A) (f : A → A) (xs : List A)
    → All (λ x. RoundTrips (w x) r (f x)) xs
    → RoundTrips (write_each w xs) (read_times r (length xs)) (map f xs)
unfolding write_each read_times
RoundTrips-each_map w r f [] h = RoundTrips-pure []
RoundTrips-each_map w r f (x ∷ xs) (hx, hs) =
    RoundTrips-then hx (λ y. read_times r (length xs) >>= λ ys. pure (y ∷ ys))
      (RoundTrips-bind (RoundTrips-each_map w r f xs hs) (λ ys. f x ∷ ys) refl)

pub RoundTrips-each :
    {A : Type 0} (w : A → M (Unit {0})) (r : M A) (xs : List A)
    → All (λ x. RoundTrips (w x) r x) xs
    → RoundTrips (write_each w xs) (read_times r (length xs)) xs
RoundTrips-each w r xs h =
    subst (RoundTrips (write_each w xs) (read_times r (length xs))) (map_id xs)
      (RoundTrips-each_map w r (λ x. x) xs h)
  where
    map_id : {A : Type 0} (ys : List A) → map (λ x. x) ys ≡ ys
    map_id [] = refl
    map_id (y ∷ ys) = rw (map_id ys)

-- What holds of each item that the reader returns holds of all that the loop returns, and the loop
-- returns as many as it was asked for.
pub read_times-All :
    {A : Type 0} (P : A → Type 0) (r : M A) (n : ℕ) (buf : Bytes) (xs : List A) (rest : Bytes)
    → ((a : A) (from to : Bytes) → r from ≡ ok a to → P a)
    → read_times r n buf ≡ ok xs rest
    → All P xs × (length xs ≡ n)
unfolding read_times
read_times-All P r zero buf xs rest each h =
    let none_read : [] ≡ xs = cc in subst (λ ys. All P ys × (length ys ≡ 0)) none_read (tt, refl)
read_times-All {A} P r (suc n) buf xs rest each h =
    let (a, mid, first, more) = >>=-eq-ok r _ buf h in
    let (items, end, others, last) = >>=-eq-ok (read_times r n) _ mid more in
    let (hs, len) = read_times-All P r n mid items end each others in
    subst (λ ys. All P ys × (length ys ≡ suc n)) (same last)
      ((each a buf mid first, hs), ap suc len)
  where
    same :
        {a : A} {items : List A} {end : Bytes}
        → Outcome.ok (a ∷ items) end ≡ ok xs rest
        → a ∷ items ≡ xs
    same e = cc
