-- ===== src/Tests/Wire.antt =====
-- The wire messages, the frames and the gossip path at concrete values.
use dusk_blockchain.Base.{ℕ, ◌≡◌, ◌≢◌, refl, arith, List, [], ◌∷◌, ◌++◌, All, replicate, true, none}
use dusk_blockchain.Base.Assoc.{nat_key, lookup}
use dusk_blockchain.Wire.DupeMap.{DupeMap, look_up, has_entry}
use dusk_blockchain.Wire.DupeMap.Forwarding.{
  forwarded_once, Event, Readers, rises, looks, stores, act, run,
}
use dusk_blockchain.Encoding.Buffer.{Bytes, equal, ok, err, unsupported}
use dusk_blockchain.Encoding.Codec.{RoundTrips}
use dusk_blockchain.Wire.Version.{Version}
use dusk_blockchain.Wire.Topics.{IsTopic, add_topic, extract}
use dusk_blockchain.Wire.Frame.{process, read_frame}
use dusk_blockchain.Wire.Gossip.{unmarshal, process_received}
use dusk_blockchain.Wire.Messages.{
  InvVect, IsInvVect, encode_inv, decode_inv, inv-RoundTrips, decode_inv-IsInvVect,
  encode_get_blocks, decode_get_blocks, get_blocks-RoundTrips,
}

abbrev node_version : Version
node_version = record { major = 0; minor = 1; patch = 1 }

-- "inv"
abbrev inv_topic : Bytes
inv_topic = b'i' ∷ b'n' ∷ b'v' ∷ []

inv_topic-IsTopic : IsTopic inv_topic
inv_topic-IsTopic = record { named = omega arith; short = omega arith }

abbrev test_net : ℕ
test_net = 0x74746e41

process_received_example :
    (sent : Bytes) × (received : Bytes) × (process test_net (add_topic (5 ∷ 6 ∷ []) inv_topic)
      ≡ ok sent [])
    × (read_frame (sent ++ (9 ∷ [])) ≡ ok received (9 ∷ []))
    × (test_net ≡ test_net
        → (message : Bytes) × (unmarshal test_net received ≡ ok message [])
          × (extract message ≡ ok inv_topic (5 ∷ 6 ∷ [])))
    × (test_net ≢ test_net
        → unmarshal test_net received ≡ err unsupported (add_topic (5 ∷ 6 ∷ []) inv_topic))
process_received_example =
    process_received test_net test_net inv_topic (5 ∷ 6 ∷ []) (9 ∷ []) (omega arith)
      inv_topic-IsTopic (omega arith)

abbrev five : Bytes
five = 5 ∷ []

abbrev nine : Bytes
nine = 9 ∷ []

abbrev block_item : InvVect
block_item = record { type = 1; hash = replicate 32 4 }

get_blocks-RoundTrips_example :
    RoundTrips (encode_get_blocks (replicate 32 4 ∷ [])) decode_get_blocks (replicate 32 4 ∷ [])
get_blocks-RoundTrips_example = get_blocks-RoundTrips (replicate 32 4 ∷ []) (omega arith) (refl, tt)

item_sent : RoundTrips (encode_inv (block_item ∷ [])) decode_inv (block_item ∷ [])
item_sent = inv-RoundTrips (block_item ∷ []) (omega arith) (ground arith)

decode_inv-IsInvVect_example : All IsInvVect (block_item ∷ [])
decode_inv-IsInvVect_example =
    decode_inv-IsInvVect (item_sent.bytes ++ []) (block_item ∷ []) [] (item_sent.reads [])

-- A duplicate map whose hash is the message itself, at height 5.
abbrev at_5 : DupeMap
at_5 = record {
  round = 5;
  tmp_map = record { height = 5; msg_sets = (5, []) ∷ []; tolerance = 3 };
  tolerance = 3;
}

abbrev waiting : Readers
waiting = record { dupe_map = at_5; pending = (1 ∷ 2 ∷ []) ∷ (1 ∷ 2 ∷ []) ∷ [] }

is_waiting : has_entry waiting.pending (1 ∷ 2 ∷ []) ≡ true
unfolding has_entry equal
is_waiting = refl

abbrev meanwhile : List Event
meanwhile = rises 6 ∷ looks [] ∷ stores (1 ∷ 2 ∷ []) ∷ rises 7 ∷ stores [] ∷ []

forwarded_once_example :
    (look_up
        (λ b. b)
        (run (λ b. b) (act (λ b. b) waiting (stores (1 ∷ 2 ∷ []))) meanwhile).dupe_map
        (1 ∷ 2 ∷ [])
      ≡ true)
    × (act
          (λ b. b)
          (run (λ b. b) (act (λ b. b) waiting (stores (1 ∷ 2 ∷ []))) meanwhile)
          (looks (1 ∷ 2 ∷ []))
        ≡ run (λ b. b) (act (λ b. b) waiting (stores (1 ∷ 2 ∷ []))) meanwhile)
forwarded_once_example =
    forwarded_once (λ b. b) waiting (1 ∷ 2 ∷ []) meanwhile is_waiting
      (omega arith, (tt, (tt, (omega arith, (tt, tt)))))

no_level_9 : lookup 9 at_5.tmp_map.msg_sets ≡ none
unfolding lookup
no_level_9 = refl
