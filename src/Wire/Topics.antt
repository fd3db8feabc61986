-- ===== src/Wire/Topics.antt =====
-- pkg/p2p/wire/topics/topics.go and AddTopic of pkg/p2p/wire/event.go. A topic is the bytes of its
-- name; on the wire it is padded with zeros to 15 bytes.
use dusk_blockchain.Base.{
  ℕ, zero, suc, ◌+◌, ◌≤◌, ◌≡◌, ◌≢◌, refl, ap, ◌∙◌, arith, ◌==◌, if◌then◌else◌, [], ◌∷◌, ◌++◌, All,
  length, length-append, append-nil,
}
use dusk_blockchain.Encoding.Buffer.{Bytes, M, ok, ◌>>=◌, >>=-ok, pure, read, write, read-append}

abbrev pub topic_size : ℕ
topic_size = 15

-- `copy(bs[:], cmd)` on an array of `n` zeros: at most `n` bytes, and zeros behind them.
unfoldable pub padded : ℕ → Bytes → Bytes
padded zero bs = []
padded (suc n) [] = 0 ∷ padded n []
padded (suc n) (b ∷ bs) = b ∷ padded n bs

unfoldable pub topic_to_byte_array : Bytes → Bytes
topic_to_byte_array cmd = padded topic_size cmd

-- The bytes in front of the first zero.
unfoldable pub byte_array_to_topic : Bytes → Bytes
byte_array_to_topic [] = []
byte_array_to_topic (b ∷ bs) = if b == 0 then [] else b ∷ byte_array_to_topic bs

-- `Extract`, and `extractTopic` of the peer: a short read is no error, the array keeps its zeros.
unfoldable pub extract : M Bytes
extract = read topic_size >>= λ bs. pure (byte_array_to_topic (padded topic_size bs))

-- `Write(w, topic)`.
unfoldable pub write_topic : Bytes → M (Unit {0})
write_topic topic = write (topic_to_byte_array topic)

-- A new buffer with the topic in front of the message.
unfoldable pub add_topic : Bytes → Bytes → Bytes
add_topic m topic = topic_to_byte_array topic ++ m

-- A name that the wire keeps: no zero in it, and short enough.
pub record IsTopic (t : Bytes) : Type 0 where
  pub named : All (λ b. b ≢ 0) t
  pub short : length t ≤ topic_size

length-padded : (n : ℕ) (bs : Bytes) → length (padded n bs) ≡ n
unfolding padded
length-padded zero bs = refl
length-padded (suc n) [] = ap suc (length-padded n [])
length-padded (suc n) (b ∷ bs) = ap suc (length-padded n bs)

byte_array_to_topic-zeros : (n : ℕ) → byte_array_to_topic (padded n []) ≡ []
unfolding padded byte_array_to_topic
byte_array_to_topic-zeros zero = refl
byte_array_to_topic-zeros (suc n) = refl

byte_array_to_topic-padded :
    (n : ℕ) (t : Bytes) → All (λ b. b ≢ 0) t → length t ≤ n → byte_array_to_topic (padded n t) ≡ t
unfolding padded byte_array_to_topic
byte_array_to_topic-padded n [] h le = byte_array_to_topic-zeros n
byte_array_to_topic-padded zero (b ∷ bs) h le = absurd (omega arith)
byte_array_to_topic-padded (suc n) (b ∷ bs) (hb, hs) le =
    ground (arith, byte_array_to_topic-padded n bs hs)

padded-padded : (n : ℕ) (bs rest : Bytes) → padded n (padded n bs ++ rest) ≡ padded n bs
unfolding padded
padded-padded zero bs rest = refl
padded-padded (suc n) [] rest = ap (λ (t : Bytes). 0 ∷ t) (padded-padded n [] rest)
padded-padded (suc n) (b ∷ bs) rest = ap (λ (t : Bytes). b ∷ t) (padded-padded n bs rest)

padded-padded_self : (n : ℕ) (bs : Bytes) → padded n (padded n bs) ≡ padded n bs
padded-padded_self n bs = rw append-nil at (padded-padded n bs [])

-- An array that is full already.
pub padded_all : (n : ℕ) (bs : Bytes) → length bs ≡ n → padded n bs ≡ bs
unfolding padded
padded_all zero [] h = refl
padded_all zero (b ∷ bs) h = absurd (omega arith)
padded_all (suc n) [] h = absurd (omega arith)
padded_all (suc n) (b ∷ bs) h = ap (λ (t : Bytes). b ∷ t) (padded_all n bs (omega arith))

pub length-add_topic : (m t : Bytes) → length (add_topic m t) ≡ topic_size + length m
unfolding add_topic topic_to_byte_array
length-add_topic m t =
    omega (arith, length-append (padded topic_size t) m, length-padded topic_size t)

-- The topic that was put in front of a message is read back, and the message is left.
pub extract-add_topic : (t m : Bytes) → IsTopic t → extract (add_topic m t) ≡ ok t m
unfolding extract add_topic topic_to_byte_array
extract-add_topic t m h =
    >>=-ok (read topic_size) _
      (read-append (padded topic_size t) m topic_size (length-padded topic_size t))
    ∙ rw (padded-padded_self topic_size t, byte_array_to_topic-padded topic_size t h.named h.short)
