-- ===== src/Encoding/Kept.antt =====
-- What a reader of pkg/p2p/wire/encoding gives, and that it leaves bytes, when it is given bytes.
use dusk_blockchain.Base.{
  ℕ, ◌^◌, ◌<◌, ◌≡◌, subst, inl, inr, ◌==◌, Bool-cases, ltb, ◌++◌, [], ◌∷◌, length,
}
use dusk_blockchain.Encoding.Buffer.{
  Bytes, AllBytes, M, ok, ◌>>=◌, >>=-eq-ok, pure, read_all, read_all-ok,
}
use dusk_blockchain.Encoding.Integers.{
  little_endian, uint, value, read_uint8, read_uint16, read_uint32, read_uint64,
}
use dusk_blockchain.Encoding.Integers.Digits.{uint-lt}
use dusk_blockchain.Encoding.VarInt.{check_canonical, by_discriminant, read_var_int}
use dusk_blockchain.Encoding.VarData.{max_bytes, read_made, read_var_bytes}
use dusk_blockchain.Encoding.MiscData.{read_256}

-- A reader that is given bytes gives a value with `P`, and leaves bytes.
abbrev pub Kept : {A : Type 0} → M A → (A → Type 0) → Type 0
Kept {A} r P = (buf rest : Bytes) (a : A) → AllBytes buf → r buf ≡ ok a rest → P a × AllBytes rest

abbrev pub Any : {A : Type 0} → A → Type 0
Any a = Unit {0}

pub Kept-bind :
    {A B : Type 0} (P : A → Type 0) (Q : B → Type 0) (m : M A) (f : A → M B)
    → Kept m P
    → ((a : A) → P a → Kept (f a) Q)
    → Kept (m >>= f) Q
Kept-bind P Q m f hm hf buf rest b bytes h =
    let (a, mid, e, g) = >>=-eq-ok m f buf h in
    let (p, k) = hm buf mid a bytes e in hf a p mid rest b k g

pub Kept-pure : {A : Type 0} (Q : A → Type 0) (a : A) → Q a → Kept (pure a) Q
Kept-pure Q a q buf rest b bytes h =
    let e : a ≡ b = cc in let f : buf ≡ rest = cc in (rw (← e) q, rw (← f) bytes)

AllBytes-split : (xs ys : Bytes) → AllBytes (xs ++ ys) → AllBytes xs × AllBytes ys
AllBytes-split [] ys h = (tt, h)
AllBytes-split (x ∷ xs) ys h = let (a, b) = AllBytes-split xs ys h.1 in ((h.0, a), b)

pub Kept-read_all : (n : ℕ) → Kept (read_all n) (λ bs. AllBytes bs × (length bs ≡ n))
Kept-read_all n buf rest bs bytes h =
    let (e, len) = read_all-ok n buf bs rest h in
    let (a, b) = AllBytes-split bs rest (rw (← e) bytes) in ((a, len), b)

pub Kept-read_256 : Kept read_256 AllBytes
unfolding read_256
Kept-read_256 buf rest bs bytes h = let ((a, _), b) = Kept-read_all 32 buf rest bs bytes h in (a, b)

pub Kept-read_uint64 : Kept (read_uint64 little_endian) (λ v. v < 2 ^ 64)
unfolding read_uint64
Kept-read_uint64 =
    Kept-bind (λ bs. AllBytes bs × (length bs ≡ 8)) (λ v. v < 2 ^ 64) (read_all 8)
      (λ bs. pure (uint little_endian bs)) (Kept-read_all 8)
      (λ bs h.
        Kept-pure (λ v. v < 2 ^ 64) (uint little_endian bs)
          (subst (λ n. uint little_endian bs < 256 ^ n) h.1 (uint-lt little_endian bs h.0)))

any : {A : Type 0} (P : A → Type 0) (r : M A) → Kept r P → Kept r Any
any P r k buf rest a bytes h = (tt, (k buf rest a bytes h).1)

Kept-integer : (n : ℕ) → Kept (read_all n >>= λ bs. pure (uint little_endian bs)) Any
Kept-integer n =
    Kept-bind (λ bs. AllBytes bs × (length bs ≡ n)) Any (read_all n)
      (λ bs. pure (uint little_endian bs)) (Kept-read_all n)
      (λ bs h. Kept-pure Any (uint little_endian bs) tt)

Kept-check_canonical : (least v : ℕ) → Kept (check_canonical least v) Any
unfolding check_canonical
Kept-check_canonical least v = elim (Bool-cases (ltb v least)) [
  | inl low ↦ rw low (λ buf rest a bytes h. absurd cc)
  | inr fine ↦ rw fine (Kept-pure Any v tt)
]

Kept-by_discriminant : (d : ℕ) → Kept (by_discriminant d) Any
unfolding by_discriminant read_uint64 read_uint32 read_uint16
Kept-by_discriminant d = elim (Bool-cases (d == 0xff)) [
  | inl a ↦ rw a (
      Kept-bind Any Any (read_uint64 little_endian) (check_canonical 0x100000000) (Kept-integer 8)
        (λ v _. Kept-check_canonical 0x100000000 v))
  | inr a ↦ elim (Bool-cases (d == 0xfe)) [
    | inl b ↦
        rw (a, b)
          (Kept-bind Any Any (read_uint32 little_endian) (check_canonical 0x10000) (Kept-integer 4)
            (λ v _. Kept-check_canonical 0x10000 v))
    | inr b ↦ elim (Bool-cases (d == 0xfd)) [
      | inl c ↦
          rw (a, b, c)
            (Kept-bind Any Any (read_uint16 little_endian) (check_canonical 0xfd) (Kept-integer 2)
              (λ v _. Kept-check_canonical 0xfd v))
      | inr c ↦ rw (a, b, c) (Kept-pure Any d tt)
    ]
  ]
]

Kept-read_var_int : Kept read_var_int Any
unfolding read_var_int read_uint8
Kept-read_var_int =
    Kept-bind Any Any read_uint8 by_discriminant
      (Kept-bind (λ bs. AllBytes bs × (length bs ≡ 1)) Any (read_all 1) (λ bs. pure (value bs))
        (Kept-read_all 1) (λ bs h. Kept-pure Any (value bs) tt))
      (λ d _. Kept-by_discriminant d)

Kept-read_made : (n : ℕ) → Kept (read_made n) AllBytes
unfolding read_made
Kept-read_made n buf rest bs bytes h = elim (Bool-cases (ltb max_bytes n)) [
  | inl large ↦ cc (rw (large, read_made) at h)
  | inr few ↦
      let ((a, _), b) = Kept-read_all n buf rest bs bytes (rw (few, read_made) at h) in (a, b)
]

pub Kept-read_var_bytes : Kept read_var_bytes AllBytes
unfolding read_var_bytes
Kept-read_var_bytes =
    Kept-bind Any AllBytes read_var_int read_made Kept-read_var_int (λ n _. Kept-read_made n)
