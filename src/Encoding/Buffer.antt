-- ===== src/Encoding/Buffer.antt =====
-- Go's bytes.Buffer, the io.Reader and io.Writer of every caller: the unread bytes as a list, a
-- read from its front, a write at its end. A call that fails still leaves a buffer behind.
use dusk_blockchain.Base.{
  ℕ, zero, suc, ◌<◌, ◌≡◌, refl, fun_ext, arith, Bool, ◌&&◌, true, false, List, [], ◌∷◌, ◌++◌,
  length, take, drop, length-take, ◌==◌,
}
use dusk_blockchain.Base.Assoc.{Key}

abbrev pub Bytes : Type 0
Bytes = List ℕ

abbrev pub AllBytes : Bytes → Type 0
AllBytes [] = Unit {0}
AllBytes (b ∷ bs) = (b < 256) × AllBytes bs

-- The errors that the serialisation functions, the framing and the messages return; `malformed` is one
-- of a library that decodes, and `panicked` a panic, which ends the call like an error does.
pub data Error : Type 0 where
  eof short_read non_canonical wrong_size too_large unsupported malformed panicked : Error

pub data Outcome {ℓ} (A : Type ℓ) : Type ℓ where
  ok : A → Bytes → Outcome A
  err : Error → Bytes → Outcome A

-- A function that works on a buffer: its result and the buffer that it leaves.
abbrev pub M : Type 0 → Type 0
M A = Bytes → Outcome A

infixl 5 ◌>>=◌ ◌>>◌
unfoldable pub ◌>>=◌ : {A B : Type 0} → M A → (A → M B) → M B
◌>>=◌ m f buf = elim (m buf) [ ok a rest ↦ f a rest | err e rest ↦ err e rest ]

unfoldable pub ◌>>◌ : {B : Type 0} → M (Unit {0}) → M B → M B
unfolding ◌>>=◌
m >> k = m >>= λ _. k

abbrev pub pure : {A : Type 0} → A → M A
pure a buf = ok a buf

abbrev pub fail : {A : Type 0} → Error → M A
fail e buf = err e buf

-- `r.Read(p)` with `len(p) == n`: at most `n` bytes, and io.EOF on an empty buffer unless `n` is 0.
unfoldable pub read : ℕ → M Bytes
read zero buf = ok [] buf
read (suc n) [] = err eof []
read (suc n) (b ∷ bs) = ok (take (suc n) (b ∷ bs)) (drop (suc n) (b ∷ bs))

-- `w.Write(p)`, which cannot fail on a bytes.Buffer.
unfoldable pub write : Bytes → M (Unit {0})
write bs buf = ok tt (buf ++ bs)

-- The test `err != nil || n != len(b)` that follows a read.
unfoldable pub read_all : ℕ → M Bytes
unfolding read ◌>>=◌
read_all n = do bs ← read n; elim (length bs == n) [ true ↦ pure bs | false ↦ fail short_read ]

take-length : (xs ys : Bytes) → take (length xs) (xs ++ ys) ≡ xs
take-length [] ys = refl
take-length (x ∷ xs) ys = rw (take-length xs ys)

drop-length : (xs ys : Bytes) → drop (length xs) (xs ++ ys) ≡ ys
drop-length [] ys = refl
drop-length (x ∷ xs) ys = drop-length xs ys

pub read-append : (xs ys : Bytes) (n : ℕ) → length xs ≡ n → read n (xs ++ ys) ≡ ok xs ys
unfolding read
read-append [] ys n h = rw (← h)
read-append (x ∷ xs) ys n h = rw (← h) (ground (arith, take-length xs ys, drop-length xs ys))

-- Reading back as many bytes as were written.
pub read_all-append : (xs ys : Bytes) (n : ℕ) → length xs ≡ n → read_all n (xs ++ ys) ≡ ok xs ys
unfolding read_all
read_all-append [] ys n h = rw (← h)
read_all-append (x ∷ xs) ys n h = rw (← h) (ground (arith, take-length xs ys, drop-length xs ys))

take-append-drop-length :
    (n : ℕ) (bs : Bytes)
    → (length (take n bs) ≡ n)
    → (take n bs ++ drop n bs ≡ bs) × (length (take n bs) ≡ n)
take-append-drop-length zero bs h = (refl, h)
take-append-drop-length (suc n) [] h = absurd (omega arith)
take-append-drop-length (suc n) (b ∷ bs) h =
    let (e, _) = take-append-drop-length n bs (omega arith) in (rw e refl, h)

-- A read that succeeds took that many bytes from the front.
pub read_all-ok :
    (n : ℕ) (buf xs rest : Bytes)
    → read_all n buf ≡ ok xs rest
    → (buf ≡ xs ++ rest) × (length xs ≡ n)
unfolding read_all
read_all-ok zero buf xs rest h = ground arith
read_all-ok (suc n) [] xs rest h = cc
read_all-ok (suc n) (b ∷ bs) xs rest h = ground (arith, take-append-drop-length n bs)

-- Too short a buffer is an error.
pub read_all_short :
    (n : ℕ) (buf : Bytes)
    → length buf < n
    → (e : Error) × (rest : Bytes) × (read_all n buf ≡ err e rest)
unfolding read_all
read_all_short zero buf h = elim h [ ]
read_all_short (suc n) [] h = (eof, [], refl)
read_all_short (suc n) (b ∷ bs) h = (short_read, drop n bs, ground (arith, length-take n bs))

-- A step that succeeds hands its result and its buffer on.
pub >>=-ok :
    {A B : Type 0} (m : M A) (f : A → M B) {buf rest : Bytes} {a : A}
    → m buf ≡ ok a rest
    → (m >>= f) buf ≡ f a rest
unfolding ◌>>=◌
>>=-ok m f h = rw (h, ◌>>=◌)

pub >>-ok :
    {B : Type 0} (m : M (Unit {0})) (k : M B) {buf rest : Bytes}
    → m buf ≡ ok tt rest
    → (m >> k) buf ≡ k rest
unfolding ◌>>◌
>>-ok m k h = >>=-ok m (λ _. k) h

-- A step that fails ends the sequence, and its error and its buffer are the outcome.
pub >>=-err :
    {A B : Type 0} (m : M A) (f : A → M B) {buf rest : Bytes} {e : Error}
    → m buf ≡ err e rest
    → (m >>= f) buf ≡ err e rest
unfolding ◌>>=◌
>>=-err m f h = rw (h, ◌>>=◌)

-- Inversion of a sequence that succeeds.
pub >>=-eq-ok :
    {A B : Type 0} (m : M A) (f : A → M B) (buf : Bytes) {b : B} {rest : Bytes}
    → (m >>= f) buf ≡ ok b rest
    → (a : A) × (mid : Bytes) × (m buf ≡ ok a mid) × (f a mid ≡ ok b rest)
unfolding ◌>>=◌
>>=-eq-ok {A} {B} m f buf {b} {rest} h = split (m buf) refl
  where
    split :
        (o : Outcome A)
        → m buf ≡ o
        → (a : A) × (mid : Bytes) × (m buf ≡ ok a mid) × (f a mid ≡ ok b rest)
    split (ok a mid) e = (a, mid, e, rw (e, ◌>>=◌) at h)
    split (err x mid) e = cc (rw (e, ◌>>=◌) at h)

-- bytes.Equal.
unfoldable pub equal : Bytes → Bytes → Bool
equal [] [] = true
equal [] (y ∷ ys) = false
equal (x ∷ xs) [] = false
equal (x ∷ xs) (y ∷ ys) = x == y && equal xs ys

pub equal_refl : (xs : Bytes) → equal xs xs ≡ true
unfolding equal
equal_refl [] = refl
equal_refl (x ∷ xs) = ground (arith, equal_refl xs)

pub equal→eq : (xs ys : Bytes) → equal xs ys ≡ true → xs ≡ ys
unfolding equal
equal→eq [] [] h = refl
equal→eq [] (y ∷ ys) h = cc
equal→eq (x ∷ xs) [] h = cc
equal→eq (x ∷ xs) (y ∷ ys) h = ground (arith, equal→eq xs ys)

pub eq→equal : (xs ys : Bytes) → xs ≡ ys → equal xs ys ≡ true
eq→equal xs ys h = rw (← h) (equal_refl xs)

-- Sequences of writes can be bracketed either way.
pub >>_assoc : {B : Type 0} (w v : M (Unit {0})) (u : M B) → ((w >> v) >> u) ≡ (w >> (v >> u))
unfolding ◌>>◌
>>_assoc {B} w v u = fun_ext (λ buf. split buf (w buf) refl)
  where
    split :
        (buf : Bytes) (o : Outcome (Unit {0}))
        → w buf ≡ o
        → ((w >> v) >> u) buf ≡ (w >> (v >> u)) buf
    split buf (ok a mid) e = rw (e, ◌>>=◌)
    split buf (err x mid) e = rw (e, ◌>>=◌)

instance abbrev pub bytes_key : Key Bytes
bytes_key = record { same = equal; same→eq = equal→eq; same_refl = equal_refl }
