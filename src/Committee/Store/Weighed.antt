-- ===== src/Committee/Store/Weighed.antt =====
-- The total weight of store.go under the messages that the broker delivers to a Store.
use dusk_blockchain.Base.{
  ℕ, ◌%◌, ◌^◌, ◌<◌, ◌≡◌, refl, arith, not, ◌==◌, Bool-cases, Option-cases, inl, inr, List, [], ◌∷◌,
  Option, length, All,
}
use dusk_blockchain.Base.Assoc.{lookup}
use dusk_blockchain.Encoding.Buffer.{Bytes, AllBytes, Outcome, ok, err, bytes_key}
use dusk_blockchain.Encoding.Kept.{
  Kept, Kept-bind, Kept-pure, Kept-read_256, Kept-read_uint64, Kept-read_var_bytes,
}
use dusk_blockchain.Committee.Provisioners.{
  Stake, Provisioners, Added, added, refused, nil_member, add_member, get_stake, remove,
}
use dusk_blockchain.Committee.Provisioners.Weight.{
  sum_of, weight_at, sum_of-delete, total_stake_lem,
}
use dusk_blockchain.Committee.Provisioners.Consistent.{Consistent, weight, delete-Consistent}
use dusk_blockchain.Committee.Provisioners.Adding.{AddedTo, add_member-AddedTo}
use dusk_blockchain.Committee.Provisioners.Sweeping.{remove_expired-Swept}
use dusk_blockchain.Committee.Store.{
  Store, NewProvisioner, decode_new_provisioner, settle, add_decoded, add_provisioner,
  remove_provisioner, remove_expired_provisioners,
}

Kept-decode_new_provisioner : Kept decode_new_provisioner (λ n. AllBytes n.pub_key_bls)
unfolding decode_new_provisioner
Kept-decode_new_provisioner = Kept-bind AllBytes Key _ _ Kept-read_256 (λ ed _.
    Kept-bind AllBytes Key _ _ Kept-read_var_bytes (λ bls k.
      Kept-bind Fits Key _ _ Kept-read_uint64 (λ amount _.
        Kept-bind Fits Key _ _ Kept-read_uint64
          (λ start _. Kept-bind Fits Key _ _ Kept-read_uint64 (λ end _. Kept-pure Key _ k)))))
  where
    Fits : ℕ → Type 0
    Fits v = v < 2 ^ 64

    Key : NewProvisioner → Type 0
    Key n = AllBytes n.pub_key_bls

module _ {PublicKey : Type 0} where
  -- The total is the sum of all stakes, as a uint64.
  pub record Weighed (s : Store PublicKey) : Type 0 where
    pub consistent : Consistent s.provisioners.set s.provisioners.members
    pub total : s.total_weight ≡ sum_of weight s.provisioners.members % 2 ^ 64

  settle-Weighed :
      (s : Store PublicKey) (key : Bytes) (t : Stake) (p : Provisioners PublicKey) (r : Added)
      → Weighed s
      → AddedTo s.provisioners key t p r
      → Weighed (settle s t.amount p r)
  unfolding settle
  settle-Weighed s key t p added w a = record {
    consistent = a.consistent;
    total = omega (arith, w.total, a.sums);
  }
  settle-Weighed s key t p refused w a = record {
    consistent = a.consistent;
    total = omega (arith, w.total, a.sums);
  }
  settle-Weighed s key t p nil_member w a = record {
    consistent = a.consistent;
    total = omega (arith, w.total, a.sums);
  }

  add_provisioner-Weighed :
      (unmarshal : Bytes → Option PublicKey) (s : Store PublicKey) (m : Bytes)
      → Weighed s
      → AllBytes m
      → Weighed (add_provisioner unmarshal s m).0
  unfolding add_provisioner add_decoded
  add_provisioner-Weighed unmarshal s m w b = decoded (decode_new_provisioner m) refl
    where
      decoded :
          (o : Outcome NewProvisioner)
          → decode_new_provisioner m ≡ o
          → Weighed (add_provisioner unmarshal s m).0
      decoded (err e rest) h = rw (h, add_provisioner) w
      decoded (ok n rest) h =
          rw (h, add_provisioner)
            (settle-Weighed s n.pub_key_bls n.stake
              (add_member unmarshal s.provisioners n.pub_key_ed n.pub_key_bls n.stake).0
              (add_member unmarshal s.provisioners n.pub_key_ed n.pub_key_bls n.stake).1 w
              (add_member-AddedTo unmarshal s.provisioners n.pub_key_ed n.pub_key_bls n.stake
                w.consistent (Kept-decode_new_provisioner m rest n b h).0))

  remove_provisioner-Weighed :
      (s : Store PublicKey) (key : Bytes) → Weighed s → Weighed (remove_provisioner s key).0
  unfolding remove_provisioner get_stake remove
  remove_provisioner-Weighed s key w = elim (Bool-cases (not (length key == 129))) [
    | inl short ↦ rw (short, remove_provisioner) w
    | inr long ↦ elim (Option-cases (lookup key s.provisioners.members)) [
      | inl away ↦ rw (long, away, remove_provisioner) w
      | inr (m, there) ↦
          let c = w.consistent in
          rw (long, there, remove_provisioner)
            record {
              consistent =
                  delete-Consistent s.provisioners.set s.provisioners.members key c
                    (c.keyed key m there).0;
              total =
                  let q : weight_at weight (lookup key s.provisioners.members) ≡ weight m =
                    rw there in
                  omega (
                    arith,
                    w.total,
                    sum_of-delete weight key s.provisioners.members c.unique,
                    total_stake_lem m.stakes 0,
                  );
            }
    ]
  ]

  remove_expired_provisioners-Weighed :
      (s : Store PublicKey) (round : ℕ) → Weighed s → Weighed (remove_expired_provisioners s round)
  unfolding remove_expired_provisioners
  remove_expired_provisioners-Weighed s round w =
      let sw = remove_expired-Swept round s.provisioners w.consistent in
      record { consistent = sw.consistent; total = omega (arith, w.total, sw.sums, sw.removed) }

-- What the broker delivers: a new provisioner, a key to remove, or the start of a round.
pub data Message : Type 0 where
  adds : Bytes → Message
  removes : Bytes → Message
  starts : ℕ → Message

abbrev pub IsMessage : Message → Type 0
IsMessage (adds m) = AllBytes m
IsMessage (removes key) = Unit {0}
IsMessage (starts round) = Unit {0}

module _ {PublicKey : Type 0} (unmarshal : Bytes → Option PublicKey) where
  abbrev pub handle : Store PublicKey → Message → Store PublicKey
  handle s (adds m) = (add_provisioner unmarshal s m).0
  handle s (removes key) = (remove_provisioner s key).0
  handle s (starts round) = remove_expired_provisioners s round

  abbrev pub handle_all : Store PublicKey → List Message → Store PublicKey
  handle_all s [] = s
  handle_all s (m ∷ ms) = handle_all (handle s m) ms

  -- Whatever messages a store handles, in whatever order: from a store whose total is the sum of all
  -- stakes as a uint64, whose set of provisioners is increasing, and whose map has one entry for each of
  -- its keys, which are BLS keys with their numbers in the set, it comes to one of which the same holds.
  -- The set may have numbers that the map does not: those of keys that did not unmarshal.
  pub handle_all-Weighed :
      (ms : List Message) (s : Store PublicKey)
      → All IsMessage ms
      → Weighed s
      → Weighed (handle_all s ms)
  handle_all-Weighed [] s a w = w
  handle_all-Weighed (adds m ∷ ms) s a w =
      handle_all-Weighed ms (add_provisioner unmarshal s m).0 a.1
        (add_provisioner-Weighed unmarshal s m w a.0)
  handle_all-Weighed (removes key ∷ ms) s a w =
      handle_all-Weighed ms (remove_provisioner s key).0 a.1 (remove_provisioner-Weighed s key w)
  handle_all-Weighed (starts round ∷ ms) s a w =
      handle_all-Weighed ms (remove_expired_provisioners s round) a.1
        (remove_expired_provisioners-Weighed s round w)
