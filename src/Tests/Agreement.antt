-- ===== src/Tests/Agreement.antt =====
-- Concrete votes of pkg/core/consensus/agreement, aggregated, sent and verified.
use dusk_blockchain.Base.{
  ℕ, ◌≤◌, ◌≡◌, refl, arith, true, false, List, [], ◌∷◌, ◌++◌, some, map, replicate,
  length-replicate, inl,
}
use dusk_blockchain.Encoding.Buffer.{Bytes, ok, err, panicked, ◌>>◌, write, ◌>>=◌}
use dusk_blockchain.Encoding.Codec.{RoundTrips}
use dusk_blockchain.Encoding.VarInt.{write_var_int}
use dusk_blockchain.Encoding.Integers.{write_uint64, write_uint8, put_uint, digits, value}
use dusk_blockchain.Encoding.MiscData.{write_256, write_sized}
use dusk_blockchain.SortedSet.{Set, set_bytes}
use dusk_blockchain.SortedSet.Search.{has}
use dusk_blockchain.Crypto.Bls.{unmarshal_pk, verified, new_apk}
use dusk_blockchain.Crypto.Bls.Aggregation.{key_of}
use dusk_blockchain.Committee.Sortition.{minimal_bytes, significant}
use dusk_blockchain.Consensus.Header.{Header, marshal_signable_vote}
use dusk_blockchain.Reduction.Handler.Accepted.{vote_header}
use dusk_blockchain.Agreement.Event.{
  StepVotes, Agreement, new_agreement, empty_slots, marshal_agreement, unmarshal_agreement,
  marshal_step_votes, unmarshal_votes,
}
use dusk_blockchain.Agreement.Event.Serialised.{
  Marshals, IsSent, unstepped, agreement-RoundTrips, third_votes_panic,
}
use dusk_blockchain.Agreement.Handler.{Foldable, slot_step, aggregate_agreement, verify_agreement}
use dusk_blockchain.Agreement.Handler.Tally.{Commutes, Voter, number, Distinct, IsVoter}
use dusk_blockchain.Agreement.Handler.Tally.Mixed.{Ballot, at_first, at_second, ballot_vote}
use dusk_blockchain.Agreement.Handler.Agreed.{Unpacks, aggregate-verifies}
use dusk_blockchain.Agreement.Committee.{drawn_committees, drawn_committees-Unpacks}
use dusk_blockchain.Tests.Crypto.{line, line-Bilinear, first, second}
use dusk_blockchain.Tests.Reduction.{line-Compresses}

line-Commutes : Commutes line
line-Commutes = record {
  unit = 0;
  unit_right = λ x. omega arith;
  comm = λ x y. omega arith;
  assoc = λ x y z. omega arith;
}

line-Marshals : Marshals line
line-Marshals = record { size = λ p. ground arith; decodes = λ p. refl }

abbrev votes : StepVotes line
votes = record {
  apk = new_apk line (record { gx = 15 });
  bit_set = 3;
  signature = record { e = 8 };
  step = 3;
}

votes-IsSent : IsSent votes
votes-IsSent = record { bits = ground arith }

abbrev hash : Bytes
hash = replicate 32 4

abbrev head : Header
head = record { pub_key_bls = 15 ∷ []; round = 7; step = 1; block_hash = hash }

abbrev agreement : Agreement line
agreement = record {
  header = head;
  signed_votes = replicate 33 6;
  votes_per_step = some votes ∷ some votes ∷ [];
}

agreement-RoundTrips_example :
    RoundTrips
      (marshal_agreement line agreement)
      (unmarshal_agreement line (new_agreement line))
      (record agreement { votes_per_step = some (unstepped votes) ∷ some (unstepped votes) ∷ [] })
agreement-RoundTrips_example =
    agreement-RoundTrips line line-Marshals line-Compresses (new_agreement line) head
      (replicate 33 6) votes votes
      (record { key = ground arith; round = ground arith; hash = length-replicate {A = ℕ} 32 4 })
      (length-replicate {A = ℕ} 33 6) votes-IsSent votes-IsSent

third_votes_panic_example :
    (sent : Bytes) × ((write_var_int 3
          >> marshal_step_votes line votes
          >> marshal_step_votes line votes
          >> marshal_step_votes line votes)
        []
      ≡ ok tt sent)
    × (unmarshal_votes line (empty_slots line) (sent ++ (5 ∷ [])) ≡ err panicked (5 ∷ []))
third_votes_panic_example =
    third_votes_panic line line-Marshals line-Compresses 0 votes votes votes (5 ∷ []) (ground arith)
      votes-IsSent votes-IsSent votes-IsSent

-- Two voters, who are the committee of every step.
abbrev alice : Voter
alice = record { secret = first; key = 15 ∷ [] }

abbrev bob : Voter
bob = record { secret = second; key = 33 ∷ [] }

abbrev committee : ℕ → ℕ → Set
committee round step = 15 ∷ 33 ∷ []

abbrev members : Foldable
members = drawn_committees (λ round. 3) committee

alice-IsVoter : IsVoter line (15 ∷ 33 ∷ []) alice
unfolding unmarshal_pk key_of minimal_bytes significant set_bytes value number has
alice-IsVoter = record { decodes = refl; whole = refl; member = refl }

bob-IsVoter : IsVoter line (15 ∷ 33 ∷ []) bob
unfolding unmarshal_pk key_of minimal_bytes significant set_bytes value number has
bob-IsVoter = record { decodes = refl; whole = refl; member = refl }

members-Unpacks : (step : ℕ) → Unpacks members 7 step (15 ∷ 33 ∷ [])
members-Unpacks step =
    drawn_committees-Unpacks (λ round. 3) committee 7 step (ground arith, (tt, tt)) (ground arith)

abbrev first_message : Bytes
first_message = 7 ∷ replicate 7 0 ++ (1 ∷ hash)

abbrev second_message : Bytes
second_message = 7 ∷ replicate 7 0 ++ (2 ∷ hash)

first_message_marshals :
    marshal_signable_vote (vote_header [] 7 (slot_step 1 0) hash) [] ≡ ok tt first_message
unfolding marshal_signable_vote write_uint64 write_uint8 write_256 slot_step write put_uint digits
    write_sized ◌>>◌ ◌>>=◌
first_message_marshals = refl

second_message_marshals :
    marshal_signable_vote (vote_header [] 7 (slot_step 1 1) hash) [] ≡ ok tt second_message
unfolding marshal_signable_vote write_uint64 write_uint8 write_256 slot_step write put_uint digits
    write_sized ◌>>◌ ◌>>=◌
second_message_marshals = refl

quorum_reached : members.quorum 7 ≤ 3
unfolding drawn_committees
quorum_reached = ground arith

keys_differ : Distinct (bob ∷ alice ∷ [])
unfolding number set_bytes value
keys_differ = ((λ e. ground arith, tt), (tt, tt))

abbrev mixed_ballots : List Ballot
mixed_ballots = (true, alice) ∷ (false, bob) ∷ (false, alice) ∷ []

aggregate-verifies_example :
    (a : Agreement line) × (aggregate_agreement line members
        (λ m. m)
        head
        (map
          (ballot_vote line 7 (slot_step 1 0) (slot_step 1 1) hash first_message second_message)
          mixed_ballots)
      ≡ some a)
    × (verify_agreement line members a ≡ verified)
unfolding at_first at_second
aggregate-verifies_example =
    aggregate-verifies line line-Bilinear line-Commutes line-Compresses members head (λ m. m)
      (15 ∷ 33 ∷ []) (15 ∷ 33 ∷ []) first_message second_message mixed_ballots (λ a b. inl refl)
      (ground arith) (ground arith) first_message_marshals second_message_marshals
      (members-Unpacks (slot_step 1 0)) (members-Unpacks (slot_step 1 1))
      (bob-IsVoter, (alice-IsVoter, tt)) (alice-IsVoter, tt) keys_differ (tt, tt) (ground arith)
      (ground arith) quorum_reached
