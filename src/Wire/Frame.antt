-- ===== src/Wire/Frame.antt =====
-- pkg/p2p/peer/processing/frame.go and gossip.go: a message on the wire is the network's magic, then
-- the message, behind a length of eight bytes.
use dusk_blockchain.Base.{
  ℕ, ◌+◌, ◌≤◌, ◌<◌, ◌≡◌, refl, ap, ◌∙◌, arith, ltb, if◌then◌else◌, false, [], ◌++◌, length,
  length-append, append_assoc,
}
use dusk_blockchain.Encoding.Buffer.{
  Bytes, M, ok, err, too_large, Outcome, ◌>>=◌, ◌>>◌, >>=-ok, fail, read_all, write,
  read_all-append, read_all-ok, >>=-eq-ok,
}
use dusk_blockchain.Encoding.Integers.{little_endian, put_uint, uint, write_uint32, write_uint64}
use dusk_blockchain.Encoding.Integers.Digits.{length-put_uint, uint-put_uint}

abbrev pub max_frame_size : ℕ
max_frame_size = 250000

-- `WriteFrame(buf)`: the frame, in a buffer of its own, and `buf` drained.
unfoldable pub write_frame : M Bytes
write_frame buf =
    if ltb max_frame_size (length buf)
    then err too_large buf
    else elim (write_uint64 little_endian (length buf) []) [
      | ok _ msg ↦ ok (msg ++ buf) []
      | err e _ ↦ err e buf
    ]

-- `ReadFrame(r)`; `io.ReadFull` is an error unless all bytes are there.
read_payload : ℕ → M Bytes
read_payload size = if ltb max_frame_size size then fail too_large else read_all size

unfoldable pub read_frame : M Bytes
unfolding read_payload
read_frame = read_all 8 >>= λ size_bytes. read_payload (uint little_endian size_bytes)

-- `headerWriter.Write`, and `Gossip.Process`.
unfoldable pub write_header : ℕ → Bytes → Outcome (Unit {0})
write_header magic m = (write_uint32 little_endian magic >> write m) []

unfoldable pub process : ℕ → Bytes → Outcome Bytes
process magic m = elim (write_header magic m) [ ok _ buf ↦ write_frame buf | err e _ ↦ err e m ]

-- The frame of a message that fits.
unfoldable pub frame : Bytes → Bytes
frame m = put_uint little_endian 8 (length m) ++ m

pub write_frame_lem : (m : Bytes) → length m ≤ max_frame_size → write_frame m ≡ ok (frame m) []
unfolding write_frame frame write_uint64 write
write_frame_lem m h = ground arith

-- A frame is read back, whatever follows it on the connection.
pub read_frame-frame :
    (m rest : Bytes) → length m ≤ max_frame_size → read_frame (frame m ++ rest) ≡ ok m rest
unfolding read_frame frame
read_frame-frame m rest h =
    let prefix = put_uint little_endian 8 (length m) in
    let size : uint little_endian prefix ≡ length m =
      uint-put_uint little_endian 8 (length m) (omega arith) in
    let payload : read_payload (length m) (m ++ rest) ≡ ok m rest =
      rw (small, read_payload) (read_all-append m rest (length m) refl) in
    rw append_assoc (
      >>=-ok (read_all 8) _
        (read_all-append prefix (m ++ rest) 8 (length-put_uint little_endian 8 (length m)))
      ∙ rw size payload)
  where
    small : ltb max_frame_size (length m) ≡ false
    small = ground arith

read_payload_small :
    (size : ℕ) (buf m rest : Bytes)
    → read_payload size buf ≡ ok m rest
    → (length m ≤ max_frame_size) × (buf ≡ m ++ rest)
unfolding read_payload
read_payload_small size buf m rest h = ground (arith, read_all-ok size buf m rest)

-- No frame that is read is larger than the maximum, and it stood behind eight bytes of length.
pub read_frame_bounded :
    (buf m rest : Bytes)
    → read_frame buf ≡ ok m rest
    → (length m ≤ max_frame_size) × (length buf ≡ 8 + length m + length rest)
unfolding read_frame
read_frame_bounded buf m rest h =
    let (bs, mid, took, body) = >>=-eq-ok (read_all 8) _ buf h in
    let (front, eight) = read_all-ok 8 buf bs mid took in
    let (le, back) = read_payload_small (uint little_endian bs) mid m rest body in
    (
      le,
      omega (
        arith,
        ap (length {0}) front,
        ap (length {0}) back,
        length-append bs mid,
        length-append m rest,
      ),
    )

-- A message that is too large is refused on both sides.
pub write_frame_refused : (m : Bytes) → max_frame_size < length m → write_frame m ≡ err too_large m
unfolding write_frame
write_frame_refused m h = ground arith
