-- ===== src/Agreement/Handler/Tally/Counted.antt =====
-- pkg/core/consensus/agreement/handler.go: the votes of one step, collected one by one, and verified.
use dusk_blockchain.Base.{
  ℕ, suc, ◌<◌, ◌≡◌, ◌≢◌, refl, sym, ◌∙◌, subst, arith, true, false, ◌==◌, [], ◌∷◌, ◌++◌, none, some,
  length, take, drop, All, take-append-drop,
}
use dusk_blockchain.Base.Assoc.{nat_key}
use dusk_blockchain.Encoding.Buffer.{Bytes, ok, equal_refl}
use dusk_blockchain.SortedSet.{Set, set_bytes}
use dusk_blockchain.SortedSet
use dusk_blockchain.SortedSet.Search.{Increasing, has}
use dusk_blockchain.SortedSet.Update.{insert_correct, insert_new}
use dusk_blockchain.Crypto.Bls.{
  Curve, Apk, unmarshal_pk, compress, sign, aggregate, new_apk, apk_aggregate, apk_aggregate_bytes,
  aggregate_bytes, verify, verify_points,
}
use dusk_blockchain.Crypto.Bls.Aggregation.{Bilinear, key_of, sign-pairs}
use dusk_blockchain.Consensus.Header.{marshal_signable_vote, sender}
use dusk_blockchain.Consensus.Keys.{Compresses, unmarshal_signature-compress}
use dusk_blockchain.Committee.Sortition.{minimal_bytes}
use dusk_blockchain.Reduction.Event.{Reduction}
use dusk_blockchain.Reduction.Handler.Accepted.{vote_header}
use dusk_blockchain.Agreement.Event.{StepVotes, add_vote, first_vote, next_vote}
use dusk_blockchain.Agreement.Handler.{
  Collected, slot_of, keys_of, collect_vote, reconstruct_apk, verify_signatures,
}
use dusk_blockchain.Agreement.Handler.Tally.{
  Commutes, Voter, number, IsVoter, Decodes, share, total, share-decoded, total-insert,
  reconstruct-pairs,
}

All-put : (P : ℕ → Type 0) (xs ys : Set) (k : ℕ) → P k → All P (xs ++ ys) → All P (xs ++ (k ∷ ys))
All-put P [] ys k h hs = (h, hs)
All-put P (x ∷ xs) ys k h (hx, hs) = (hx, All-put P xs ys k h hs)

All-insert :
    (P : ℕ → Type 0) (keys : Set) (k : ℕ)
    → Increasing keys
    → has keys k ≡ false
    → P k
    → All P keys
    → All P (SortedSet.insert keys k).0
All-insert P keys k s new h hs =
    let (i, e) = insert_new keys k s new in
    subst (All P) (sym e)
      (All-put P (take i keys) (drop i keys) k h (subst (All P) (sym (take-append-drop i keys)) hs))

module _ (c : Curve) (round step : ℕ) (hash msg : Bytes) where
  -- The vote that the voter signs.
  unfoldable pub vote_of : Voter → Reduction
  vote_of v = record {
    header = vote_header v.key round step hash;
    signed_hash = compress c (sign c v.secret (key_of c v.secret) msg);
  }

module _ (c : Curve) (laws : Bilinear c) (group : Commutes c) (small : Compresses c)
    (round step : ℕ) (hash msg : Bytes) (members : Set) where
  -- Votes whose signatures have been added up to one, which pairs as the shares of their senders do.
  pub record Counted (col : Collected c) : Type 0 where
    pub kept : col.votes.step ≡ step
    pub pairs : c.pair col.votes.signature.e c.g2_base ≡ total c group msg col.keys
    pub decode : All (Decodes c) col.keys
    pub inside : All (λ k. has members k ≡ true) col.keys
    pub increasing : Increasing col.keys
    pub inhabited : 0 < length col.keys

  decodes_number :
      (v : Voter)
      → IsVoter c members v
      → unmarshal_pk c (minimal_bytes (number v)) ≡ some (key_of c v.secret)
  unfolding number
  decodes_number v is = rw (is.whole, is.decodes)

  sign-share :
      (v : Voter)
      → IsVoter c members v
      → c.pair (sign c v.secret (key_of c v.secret) msg).e c.g2_base ≡ share c group msg (number v)
  sign-share v is =
      sign-pairs c laws v.secret msg
      ∙ sym (share-decoded c group msg (number v) (key_of c v.secret) (decodes_number v is))

  -- The first vote of a step.
  abbrev pub alone : Voter → Collected c
  alone v = record {
    votes = record {
      apk = new_apk c (key_of c v.secret);
      bit_set = 0;
      signature = sign c v.secret (key_of c v.secret) msg;
      step = step;
    };
    keys = number v ∷ [];
  }

  first_vote-vote_of :
      (v : Voter) (bits : ℕ)
      → IsVoter c members v
      → first_vote c bits (compress c (sign c v.secret (key_of c v.secret) msg)) v.key step
        ≡ some (record (alone v).votes { bit_set = bits })
  unfolding first_vote
  first_vote-vote_of v bits is = rw (
    first_vote,
    is.decodes,
    unmarshal_signature-compress c small (sign c v.secret (key_of c v.secret) msg),
  )

  pub collect_first :
      (v : Voter)
      → IsVoter c members v
      → collect_vote c none (vote_of c round step hash msg v) ≡ some (alone v)
  unfolding collect_vote vote_of add_vote sender number slot_of keys_of
  collect_first v is =
      rw (collect_vote, first_vote-vote_of v 0 is)
        (unfold SortedSet.insert SortedSet.index_of SortedSet.search in refl)

  pub alone-Counted : (v : Voter) → IsVoter c members v → Counted (alone v)
  unfolding total
  alone-Counted v is = record {
    kept = refl;
    pairs = sign-share v is ∙ sym (group.unit_right (share c group msg (number v)));
    decode = ((key_of c v.secret, decodes_number v is), tt);
    inside = (is.member, tt);
    increasing = (tt, tt);
    inhabited = ground arith;
  }

  -- A further vote.
  abbrev pub joined : Collected c → Voter → Collected c
  joined col v = record {
    votes = record col.votes {
      apk = apk_aggregate c col.votes.apk (key_of c v.secret);
      signature = aggregate c col.votes.signature (sign c v.secret (key_of c v.secret) msg);
    };
    keys = (SortedSet.insert col.keys (number v)).0;
  }

  next_vote-vote_of :
      (sv : StepVotes c) (v : Voter)
      → IsVoter c members v
      → sv.step ≡ step
      → next_vote c sv (compress c (sign c v.secret (key_of c v.secret) msg)) v.key step
        ≡ some (record sv {
          apk = apk_aggregate c sv.apk (key_of c v.secret);
          signature = aggregate c sv.signature (sign c v.secret (key_of c v.secret) msg);
        })
  unfolding next_vote apk_aggregate_bytes aggregate_bytes
  next_vote-vote_of sv v is kept =
      let same : (step == sv.step) ≡ true = ground arith in
      rw (
        next_vote,
        same,
        apk_aggregate_bytes,
        is.decodes,
        aggregate_bytes,
        unmarshal_signature-compress c small (sign c v.secret (key_of c v.secret) msg),
      )

  pub collect_next :
      (col : Collected c) (v : Voter)
      → IsVoter c members v
      → col.votes.step ≡ step
      → step ≢ 0
      → collect_vote c (some col) (vote_of c round step hash msg v) ≡ some (joined col v)
  unfolding collect_vote vote_of add_vote sender number slot_of keys_of
  collect_next col v is kept started =
      let off : (col.votes.step == 0) ≡ false = ground arith in
      rw (collect_vote, off, next_vote-vote_of col.votes v is kept)

  pub joined-length :
      (col : Collected c) (v : Voter)
      → Counted col
      → has col.keys (number v) ≡ false
      → length (joined col v).keys ≡ suc (length col.keys)
  joined-length col v k new =
      let put = insert_correct col.keys (number v) k.increasing in put.count ∙ rw (put.answer, new)

  pub joined-Counted :
      (col : Collected c) (v : Voter)
      → IsVoter c members v
      → Counted col
      → has col.keys (number v) ≡ false
      → Counted (joined col v)
  unfolding aggregate
  joined-Counted col v is k new =
      let put = insert_correct col.keys (number v) k.increasing in
      record {
        kept = k.kept;
        pairs =
            laws.pair_add1 col.votes.signature.e (sign c v.secret (key_of c v.secret) msg).e
              c.g2_base
            ∙ rw (k.pairs, sign-share v is) (group.comm _ _)
            ∙ sym (total-insert c group msg col.keys (number v) k.increasing new);
        decode =
            All-insert (Decodes c) col.keys (number v) k.increasing new
              (key_of c v.secret, decodes_number v is) k.decode;
        inside =
            All-insert (λ j. has members j ≡ true) col.keys (number v) k.increasing new is.member
              k.inside;
        increasing = put.increasing;
        inhabited = let n = joined-length col v k new in omega arith;
      }

  -- The signature of collected votes verifies under the key that is reconstructed from their senders.
  pub Counted-verifies :
      (col : Collected c)
      → marshal_signable_vote (vote_header [] round step hash) [] ≡ ok tt msg
      → Counted col
      → (apk : Apk c) × (reconstruct_apk c col.keys ≡ some apk)
        × (verify_signatures c round step hash apk col.votes.signature ≡ true)
  unfolding verify_signatures verify verify_points
  Counted-verifies col m k =
      let (apk, e, paired) = reconstruct-pairs c group msg laws col.keys k.inhabited k.decode in
      (
        apk,
        e,
        rw (verify_signatures, m, paired, k.pairs)
            (equal_refl (c.marshal_t (total c group msg col.keys))),
      )
