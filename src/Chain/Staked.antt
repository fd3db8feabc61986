-- ===== src/Chain/Staked.antt =====
-- The message with which the chain announces a stake, and the committee that reads it.
use dusk_blockchain.Base.{
  ℕ, ◌+◌, ◌%◌, ◌^◌, ◌<◌, ◌≤◌, ◌≡◌, ◌∙◌, refl, ap, arith, List, [], ◌∷◌, length, some,
}
use dusk_blockchain.Encoding.Buffer.{Bytes, M, ok, ◌>>◌, write}
use dusk_blockchain.Encoding.Codec.{
  RoundTrips, RoundTrips-then, RoundTrips-bind, reads_alone, write-Reads,
}
use dusk_blockchain.Encoding.Integers.{little_endian}
use dusk_blockchain.Encoding.Integers.RoundTrip.{uint64-RoundTrips}
use dusk_blockchain.Encoding.MiscData.{read_256}
use dusk_blockchain.Encoding.VarData.{var_bytes-RoundTrips}
use dusk_blockchain.Transactions.Output.{Output}
use dusk_blockchain.Transactions.Locked.{Stake}
use dusk_blockchain.Committee.Store.{NewProvisioner, decode_new_provisioner}
use dusk_blockchain.Chain.{
  new_provisioner, encode_provisioner, written, publish_provisioner, provisioner_of,
  add_provisioner,
}

-- What the committee is told: the keys of the stake, its amount, and the heights between which it counts.
unfoldable pub announced : Stake → ℕ → ℕ → NewProvisioner
announced tx amount start_height = record {
  pub_key_ed = tx.pub_key_ed;
  pub_key_bls = tx.pub_key_bls;
  stake = record {
    amount = amount;
    start_height = start_height;
    end_height = (start_height + tx.time_lock.lock) % 2 ^ 64;
  };
}

encode_provisioner-RoundTrips :
    (tx : Stake) (amount start_height : ℕ)
    → length tx.pub_key_ed ≡ 32
    → length tx.pub_key_bls ≤ 2 ^ 48
    → amount < 2 ^ 64
    → start_height < 2 ^ 64
    → RoundTrips
        (write tx.pub_key_ed
          >> encode_provisioner tx.pub_key_bls amount start_height tx.time_lock.lock)
        decode_new_provisioner
        (announced tx amount start_height)
unfolding encode_provisioner decode_new_provisioner announced read_256
encode_provisioner-RoundTrips tx amount start_height ed bls a s =
    let end_height = (start_height + tx.time_lock.lock) % 2 ^ 64 in
    RoundTrips-then (write-Reads 32 tx.pub_key_ed ed) _ (
      RoundTrips-then (var_bytes-RoundTrips tx.pub_key_bls bls) _ (
        RoundTrips-then (uint64-RoundTrips little_endian amount a) _ (
          RoundTrips-then (uint64-RoundTrips little_endian start_height s) _
            (RoundTrips-bind (uint64-RoundTrips little_endian end_height (omega arith)) _ refl))))

written-ok : (w : M (Unit {0})) (buf bs : Bytes) → w buf ≡ ok tt bs → written w buf ≡ some bs
unfolding written
written-ok w buf bs h = rw (written, h)

module _ (scalar : Bytes → ℕ) (calculate_x : Bytes → Bytes → Bytes) where
  add_provisioner-some :
      (tx : Stake) (start_height : ℕ) (o : Output) (os : List Output) (message : Bytes)
      → tx.time_lock.standard.outputs ≡ o ∷ os
      → written
          (encode_provisioner tx.pub_key_bls
            (scalar o.encrypted_amount)
            start_height
            tx.time_lock.lock)
          tx.pub_key_ed
        ≡ some message
      → add_provisioner scalar calculate_x tx start_height ≡ some (new_provisioner message ∷ [])
  unfolding add_provisioner provisioner_of publish_provisioner
  add_provisioner-some tx start_height o os message out e =
      ap (provisioner_of scalar calculate_x tx start_height) out
      ∙ ap (λ m. some (publish_provisioner m)) e

  -- A stake with an output is announced in one message, from which the committee reads the keys and
  -- the lock that the stake has, with its amount and the heights between which it counts; where the
  -- keys have their lengths and the numbers fit in 64 bits.
  pub add_provisioner-decodes :
      (tx : Stake) (start_height : ℕ) (o : Output) (os : List Output)
      → tx.time_lock.standard.outputs ≡ o ∷ os
      → length tx.pub_key_ed ≡ 32
      → length tx.pub_key_bls ≤ 2 ^ 48
      → scalar o.encrypted_amount < 2 ^ 64
      → start_height < 2 ^ 64
      → (message : Bytes) × (add_provisioner scalar calculate_x tx start_height
          ≡ some (new_provisioner message ∷ []))
        × (decode_new_provisioner message
            ≡ ok (announced tx (scalar o.encrypted_amount) start_height) [])
  unfolding write ◌>>◌
  add_provisioner-decodes tx start_height o os out ed bls a s =
      let t =
        encode_provisioner-RoundTrips tx (scalar o.encrypted_amount) start_height ed bls a s in
      (
        t.bytes,
        add_provisioner-some tx start_height o os t.bytes out
            (written-ok _ tx.pub_key_ed t.bytes (t.writes [])),
        reads_alone t,
      )
