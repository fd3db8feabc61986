-- ===== src/Committee/Provisioners/Consistent.antt =====
-- The map of provisioners.go against the set: the map has one entry for a key, of the length of a BLS
-- key, and the set is increasing and has the number of each key of the map.
use dusk_blockchain.Base.{
  ℕ, ◌≡◌, sym, ◌∙◌, arith, true, ◌==◌, if◌then◌else◌, Bool-cases, inl, inr, List, none, some,
  length,
}
use dusk_blockchain.Base.Assoc.{lookup, insert, delete, lookup-insert, lookup-delete}
use dusk_blockchain.Encoding.Buffer.{Bytes, AllBytes, bytes_key, equal, equal→eq, eq→equal}
use dusk_blockchain.Encoding.Integers.{big_endian, uint}
use dusk_blockchain.Encoding.Integers.Digits.{put_uint-uint}
use dusk_blockchain.SortedSet.{Set, set_bytes}
use dusk_blockchain.SortedSet
use dusk_blockchain.SortedSet.Search.{Increasing, has}
use dusk_blockchain.SortedSet.Update.{remove_correct}
use dusk_blockchain.Committee.Provisioners.{Member}
use dusk_blockchain.Committee.Provisioners.Weight.{sum_by, Unique, insert-Unique, delete-Unique}

abbrev pub IsKey : Bytes → Type 0
IsKey key = (length key ≡ 129) × AllBytes key

set_bytes-injective : (a b : Bytes) → IsKey a → IsKey b → set_bytes a ≡ set_bytes b → a ≡ b
unfolding set_bytes uint
set_bytes-injective a b (la, ha) (lb, hb) e =
    sym (put_uint-uint big_endian a ha) ∙ rw (la, e, ← lb) (put_uint-uint big_endian b hb)

module _ {PublicKey : Type 0} where
  abbrev pub weight : Member PublicKey → ℕ
  weight m = sum_by (λ s. s.amount) m.stakes

  pub record Consistent (set : Set) (members : List (Bytes × Member PublicKey)) : Type 0 where
    pub unique : Unique members
    pub increasing : Increasing set
    pub keyed :
        (key : Bytes) (m : Member PublicKey)
        → lookup key members ≡ some m
        → IsKey key × (has set (set_bytes key) ≡ true)

  pub insert-Consistent :
      (set set' : Set) (members : List (Bytes × Member PublicKey)) (key : Bytes)
      (m : Member PublicKey)
      → Consistent set members
      → IsKey key
      → Increasing set'
      → ((j : ℕ) → has set j ≡ true → has set' j ≡ true)
      → has set' (set_bytes key) ≡ true
      → Consistent set' (insert key m members)
  insert-Consistent set set' members key m c is_key inc more at = record {
    unique = insert-Unique key m members c.unique;
    increasing = inc;
    keyed = λ j u h.
        let h' : (if equal key j then some m else lookup j members) ≡ some u =
          sym (lookup-insert key j m members) ∙ h in
        elim (Bool-cases (equal key j)) [
          | inl here ↦ rw (← equal→eq key j here) (is_key, at)
          | inr off ↦ let (k, there) = c.keyed j u (ground arith) in (k, more (set_bytes j) there)
        ];
  }

  pub delete-Consistent :
      (set : Set) (members : List (Bytes × Member PublicKey)) (key : Bytes)
      → Consistent set members
      → IsKey key
      → Consistent (SortedSet.remove set (set_bytes key)).0 (delete key members)
  delete-Consistent set members key c is_key =
      let r = remove_correct set (set_bytes key) c.increasing in
      record {
        unique = delete-Unique key members c.unique;
        increasing = r.increasing;
        keyed = λ j u h.
            let h' : (if equal key j then none else lookup j members) ≡ some u =
              sym (lookup-delete key j members) ∙ h in
            elim (Bool-cases (equal key j)) [
              | inl here ↦ absurd (ground arith)
              | inr off ↦
                  let (k, there) = c.keyed j u (ground arith) in
                  (
                    k,
                    r.members (set_bytes j) ∙ elim (Bool-cases (set_bytes key == set_bytes j)) [
                      | inl clash ↦
                          let same_number : set_bytes key ≡ set_bytes j = ground arith in
                          let bad : equal key j ≡ true =
                            eq→equal key j (set_bytes-injective key j is_key k same_number) in
                          absurd (ground arith)
                      | inr apart ↦ rw (apart, there)
                    ],
                  )
            ];
      }
