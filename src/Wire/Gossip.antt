-- ===== src/Wire/Gossip.antt =====
-- From one peer's send queue to the other's router: Gossip.Process (pkg/p2p/peer/processing),
-- ReadMessage and the message unmarshaller (pkg/p2p/peer/peer.go, unmarshaller.go), and extractTopic.
use dusk_blockchain.Base.{
  ℕ, ◌+◌, ◌^◌, ◌≤◌, ◌<◌, ◌≡◌, ◌≢◌, ap, ◌∙◌, arith, ◌==◌, if◌then◌else◌, [], ◌++◌, length,
  length-append,
}
use dusk_blockchain.Encoding.Buffer.{
  Bytes, M, ok, err, unsupported, ◌>>=◌, ◌>>◌, >>=-ok, pure, read-append, read, write,
}
use dusk_blockchain.Encoding.Integers.{little_endian, put_uint, value, write_uint32}
use dusk_blockchain.Encoding.Integers.Digits.{length-put_uint, value-digits}
use dusk_blockchain.Wire.Topics.{
  IsTopic, padded, extract, add_topic, extract-add_topic, padded_all, length-add_topic,
}
use dusk_blockchain.Wire.Frame.{
  frame, read_frame, process, write_header, max_frame_size, read_frame-frame, write_frame_lem,
}

-- `extractMagic`: a short read is no error, the array keeps its zeros.
unfoldable pub extract_magic : M ℕ
extract_magic = read 4 >>= λ bs. pure (value (padded 4 bs))

-- `messageUnmarshaller.Unmarshal(b, w)`: what it writes to `w`.
unfoldable pub unmarshal : ℕ → M Bytes
unmarshal magic =
    extract_magic >>= λ found buf. if magic == found then ok buf [] else err unsupported buf

-- The magic as four bytes.
abbrev magic_bytes : ℕ → Bytes
magic_bytes magic = put_uint little_endian 4 magic

extract_magic_lem :
    (magic : ℕ) (m : Bytes) → magic < 2 ^ 32 → extract_magic (magic_bytes magic ++ m) ≡ ok magic m
unfolding extract_magic
extract_magic_lem magic m h =
    let len = length-put_uint little_endian 4 magic in
    >>=-ok (read 4) _ (read-append (magic_bytes magic) m 4 len)
    ∙ rw (padded_all 4 (magic_bytes magic) len)
        (ap (λ (v : ℕ). ok v m) (unfold put_uint in value-digits 4 magic h))

unmarshal_lem :
    (mine theirs : ℕ) (m : Bytes)
    → theirs < 2 ^ 32
    → unmarshal mine (magic_bytes theirs ++ m)
      ≡ (if mine == theirs then ok m [] else err unsupported m)
unfolding unmarshal
unmarshal_lem mine theirs m h = >>=-ok extract_magic _ (extract_magic_lem theirs m h)

process_lem :
    (magic : ℕ) (m : Bytes)
    → 4 + length m ≤ max_frame_size
    → process magic m ≡ ok (frame (magic_bytes magic ++ m)) []
unfolding process write_header write_uint32 write ◌>>◌ ◌>>=◌
process_lem magic m h =
    write_frame_lem (magic_bytes magic ++ m)
      (omega (arith, length-append (magic_bytes magic) m, length-put_uint little_endian 4 magic))

-- What a peer sends is what the other's router gets: from the connection, whatever stands behind the
-- frame, the other peer reads one message; under the same magic the router finds in it the topic and
-- the payload that were sent, and under another magic the message is dropped.
pub process_received :
    (mine theirs : ℕ) (topic payload rest : Bytes)
    → theirs < 2 ^ 32
    → IsTopic topic
    → 19 + length payload ≤ max_frame_size
    → (sent : Bytes) × (received : Bytes) × (process theirs (add_topic payload topic) ≡ ok sent [])
      × (read_frame (sent ++ rest) ≡ ok received rest)
      × (mine ≡ theirs
          → (message : Bytes) × (unmarshal mine received ≡ ok message [])
            × (extract message ≡ ok topic payload))
      × (mine ≢ theirs → unmarshal mine received ≡ err unsupported (add_topic payload topic))
process_received mine theirs topic payload rest hm ht hs =
    let m = add_topic payload topic in
    let len : 4 + length m ≤ max_frame_size = omega (arith, length-add_topic payload topic) in
    let received = magic_bytes theirs ++ m in
    let fits : length received ≤ max_frame_size =
      omega (arith, length-append (magic_bytes theirs) m, length-put_uint little_endian 4 theirs) in
    let got = unmarshal_lem mine theirs m hm in
    (
      frame received,
      received,
      process_lem theirs m len,
      read_frame-frame received rest fits,
      λ same. (m, got ∙ ground arith, extract-add_topic topic payload ht),
      λ other. got ∙ ground arith,
    )
