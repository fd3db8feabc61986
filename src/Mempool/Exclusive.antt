-- ===== src/Mempool/Exclusive.antt =====
-- No two transactions of the pool spend the same key image.
use dusk_blockchain.Base.{
  ◌+◌, ◌%◌, ◌^◌, ◌≡◌, ◌≢◌, ◌⊎◌, refl, sym, ap, ◌∙◌, subst, arith, inl, inr, Bool, Bool-cases, true,
  false, ◌==◌, if◌then◌else◌, All, List, [], ◌∷◌, length, some,
}
use dusk_blockchain.Base.Assoc.{lookup, insert, lookup-insert}
use dusk_blockchain.Encoding.Buffer.{Bytes, bytes_key, equal, equal→eq, equal_refl}
use dusk_blockchain.Transactions.Input.{Input}
use dusk_blockchain.Transactions.Transaction.{standard_tx}
use dusk_blockchain.Mempool.Pool.{TxDesc, HashMap, array, has, store_images, put_hashed}

pub has-insert :
    {V : Type 0} (k j : Bytes) (v : V) (m : List (Bytes × V))
    → has j (insert k v m) ≡ (if equal k j then true else has j m)
unfolding has
has-insert k j v m =
    rw (has, lookup-insert k j v m)
      (elim (Bool-cases (equal k j)) [ inl same ↦ rw same | inr other ↦ rw other ])

-- The key images of the inputs, added to those that are spent.
unfoldable pub add_images : List Input → List (Bytes × Bool) → List (Bytes × Bool)
add_images [] m = m
add_images (i ∷ inputs) m = add_images inputs (insert (array i.key_image) true m)

abbrev pub Sized : Input → Type 0
Sized i = length i.key_image ≡ 32

store_images_lem :
    (m : HashMap) (inputs : List Input)
    → All Sized inputs
    → store_images m inputs
      ≡ (true, record m { spent_key_images = add_images inputs m.spent_key_images })
unfolding store_images add_images
store_images_lem m [] v = refl
store_images_lem m (i ∷ inputs) v =
    let size : (length i.key_image == 32) ≡ true = ground arith in
    rw size (
      store_images_lem
        (record m { spent_key_images = insert (array i.key_image) true m.spent_key_images }) inputs
        v.1)

add_images-keeps :
    (j : Bytes) (inputs : List Input) (m : List (Bytes × Bool))
    → has j m ≡ true
    → has j (add_images inputs m) ≡ true
unfolding add_images
add_images-keeps j [] m h = h
add_images-keeps j (i ∷ inputs) m h =
    add_images-keeps j inputs (insert (array i.key_image) true m)
      (has-insert (array i.key_image) j true m ∙ ground arith)

-- The key image of an input is among the keys of the map.
abbrev pub Marked : List (Bytes × Bool) → Input → Type 0
Marked m i = has (array i.key_image) m ≡ true

add_images-adds :
    (inputs : List Input) (m : List (Bytes × Bool)) → All (Marked (add_images inputs m)) inputs
unfolding add_images
add_images-adds [] m = tt
add_images-adds (i ∷ inputs) m =
    let after = insert (array i.key_image) true m in
    let here : has (array i.key_image) after ≡ true =
      has-insert (array i.key_image) (array i.key_image) true m
      ∙ ap (λ b. if b then true else has (array i.key_image) m) (equal_refl (array i.key_image)) in
    (add_images-keeps (array i.key_image) inputs after here, add_images-adds inputs after)

Marked-keeps :
    (inputs others : List Input) (m : List (Bytes × Bool))
    → All (Marked m) others
    → All (Marked (add_images inputs m)) others
Marked-keeps inputs [] m v = tt
Marked-keeps inputs (o ∷ others) m v =
    (add_images-keeps (array o.key_image) inputs m v.0, Marked-keeps inputs others m v.1)

-- No key image of one list is one of the other's.
abbrev pub Apart : List Input → List Input → Type 0
Apart xs ys = All (λ x. All (λ y. array x.key_image ≢ array y.key_image) ys) xs

abbrev pub inputs_of : TxDesc → List Input
inputs_of t = (standard_tx t.tx).inputs

-- Every key image of the pool's transactions is marked as spent, and two transactions share none.
pub record IsExclusive (p : HashMap) : Type 0 where
  pub spent :
      (k : Bytes) (t : TxDesc)
      → lookup k p.entries ≡ some t
      → All (Marked p.spent_key_images) (inputs_of t)
  pub apart :
      (k j : Bytes) (t u : TxDesc)
      → lookup k p.entries ≡ some t
      → lookup j p.entries ≡ some u
      → (k ≡ j) ⊎ Apart (inputs_of t) (inputs_of u)

-- None of the key images is marked.
abbrev pub Unmarked : List (Bytes × Bool) → Input → Type 0
Unmarked m i = has (array i.key_image) m ≡ false

one_apart :
    (m : List (Bytes × Bool)) (x : Input) (ys : List Input)
    → Unmarked m x
    → All (Marked m) ys
    → All (λ y. array x.key_image ≢ array y.key_image) ys
one_apart m x [] h v = tt
one_apart m x (y ∷ ys) h v = (
  λ e. let both : has (array y.key_image) m ≡ false = subst (λ k. has k m ≡ false) e h in cc,
  one_apart m x ys h v.1,
)

fresh-Apart :
    (m : List (Bytes × Bool)) (xs ys : List Input)
    → All (Unmarked m) xs
    → All (Marked m) ys
    → Apart xs ys
fresh-Apart m [] ys h v = tt
fresh-Apart m (x ∷ xs) ys h v = (one_apart m x ys h.0 v, fresh-Apart m xs ys h.1 v)

Marked-differs :
    (m : List (Bytes × Bool)) (y : Input) (xs : List Input)
    → Marked m y
    → All (Unmarked m) xs
    → All (λ x. array y.key_image ≢ array x.key_image) xs
Marked-differs m y [] v h = tt
Marked-differs m y (x ∷ xs) v h = (
  λ e. let both : has (array x.key_image) m ≡ true = subst (λ k. has k m ≡ true) e v in cc (h.0),
  Marked-differs m y xs v h.1,
)

Apart-fresh :
    (m : List (Bytes × Bool)) (ys xs : List Input)
    → All (Marked m) ys
    → All (Unmarked m) xs
    → Apart ys xs
Apart-fresh m [] xs v h = tt
Apart-fresh m (y ∷ ys) xs v h = (Marked-differs m y xs v.0 h, Apart-fresh m ys xs v.1 h)

-- What is read of the entries after a write.
pub written :
    (k j : Bytes) (t u : TxDesc) (m : List (Bytes × TxDesc))
    → lookup j (insert k t m) ≡ some u
    → ((k ≡ j) × (t ≡ u)) ⊎ (lookup j m ≡ some u)
written k j t u m h = elim (Bool-cases (equal k j)) [
  | inl same ↦
      let e = lookup-insert k j t m in
      let hit : some t ≡ some u = rw same at (sym e ∙ h) in inl (equal→eq k j same, cc hit)
  | inr other ↦ let e = lookup-insert k j t m in inr (rw other at (sym e ∙ h))
]

module _ (sha3_256 : Bytes → Bytes) where
  pub put_hashed_lem :
      (p : HashMap) (t : TxDesc) (id : Bytes)
      → All Sized (inputs_of t)
      → put_hashed sha3_256 p t id ≡ (
        true,
        record p {
          entries = insert (array id) t p.entries;
          txs_size = (p.txs_size + 16) % 2 ^ 64;
          spent_key_images = add_images (inputs_of t) p.spent_key_images;
        },
      )
  unfolding put_hashed
  put_hashed_lem p t id v = store_images_lem _ (inputs_of t) v

  pub put_hashed-IsExclusive :
      (p : HashMap) (t : TxDesc) (id : Bytes)
      → All Sized (inputs_of t)
      → All (Unmarked p.spent_key_images) (inputs_of t)
      → IsExclusive p
      → IsExclusive (put_hashed sha3_256 p t id).1
  put_hashed-IsExclusive p t id v fresh good = rw (put_hashed_lem p t id v) (record {
    spent = λ k u h. elim (written (array id) k t u p.entries h) [
      | inl (e, same) ↦
          subst (λ u. All (Marked (add_images (inputs_of t) p.spent_key_images)) (inputs_of u)) same
            (add_images-adds (inputs_of t) p.spent_key_images)
      | inr old ↦ Marked-keeps (inputs_of t) (inputs_of u) p.spent_key_images (good.spent k u old)
    ];
    apart = λ k j a b h g. elim (written (array id) k t a p.entries h) [
      | inl (e, same) ↦ elim (written (array id) j t b p.entries g) [
        | inl (d, also) ↦ inl (sym e ∙ d)
        | inr old ↦ inr (
            subst (λ a. Apart (inputs_of a) (inputs_of b)) same
              (fresh-Apart p.spent_key_images (inputs_of t) (inputs_of b) fresh
                (good.spent j b old)))
      ]
      | inr old ↦ elim (written (array id) j t b p.entries g) [
        | inl (d, also) ↦ inr (
            subst (λ b. Apart (inputs_of a) (inputs_of b)) also
              (Apart-fresh p.spent_key_images (inputs_of a) (inputs_of t) (good.spent k a old)
                fresh))
        | inr both ↦ good.apart k j a b old both
      ]
    ];
  })
