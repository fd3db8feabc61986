-- ===== src/Agreement/Event/Serialised.antt =====
-- pkg/core/consensus/agreement/event.go: agreements written and read back, and more step votes read than
-- there are slots for.
use dusk_blockchain.Base.{
  ℕ, suc, ◌≡◌, ◌^◌, ◌<◌, ◌≤◌, append_assoc, refl, sym, subst, ◌∙◌, ap, arith, List, [], ◌∷◌, ◌++◌,
  Option, none, some, length,
}
use dusk_blockchain.Encoding.Buffer.{Bytes, M, ok, err, panicked, pure, ◌>>=◌, ◌>>◌, >>=-ok, >>-ok}
use dusk_blockchain.Encoding.Codec.{
  RoundTrips, RoundTrips-then, RoundTrips-bind, RoundTrips-last, RoundTrips-pure, write_each,
}
use dusk_blockchain.Encoding.Integers.{little_endian, write_uint64}
use dusk_blockchain.Encoding.Integers.RoundTrip.{uint64-RoundTrips}
use dusk_blockchain.Encoding.VarInt.{read_var_int, write_var_int}
use dusk_blockchain.Encoding.VarInt.RoundTrip.{var_int-RoundTrips}
use dusk_blockchain.Encoding.VarData.{var_bytes-RoundTrips}
use dusk_blockchain.Encoding.MiscData.{write_bls, read_bls-RoundTrips}
use dusk_blockchain.Crypto.Bls.{
  Curve, Apk, Signature, unmarshal_pk, marshal_pk, unmarshal_apk, unmarshal_signature, compress,
}
use dusk_blockchain.Consensus.Header.{Header, IsWellSized, header-RoundTrips}
use dusk_blockchain.Consensus.Keys.{Compresses, unmarshal_signature-compress}
use dusk_blockchain.Agreement.Event.{
  StepVotes, Slot, Agreement, empty_slots, marshal_step_votes, unmarshal_step_votes,
  unmarshal_votes_of, unmarshal_signature_of, or_malformed, marshal_slot, marshal_votes,
  unmarshal_slots, unmarshal_votes, put_slot, marshal_agreement, unmarshal_agreement,
}

-- Keys are decoded to what they were.
pub record Marshals (c : Curve) : Type 0 where
  pub size : (p : c.G2) → length (c.marshal2 p) ≤ 2 ^ 48
  pub decodes : (p : c.G2) → c.unmarshal2 (c.marshal2 p) ≡ some p

-- Aggregated votes whose bits are a uint64.
pub record IsSent {c : Curve} (sv : StepVotes c) : Type 0 where
  pub bits : sv.bit_set < 2 ^ 64

-- The step is not sent.
abbrev pub unstepped : {c : Curve} → StepVotes c → StepVotes c
unstepped sv = record sv { step = 0 }

module _ (c : Curve) (keys : Marshals c) (small : Compresses c) where
  unmarshal_apk-marshal_pk :
      (apk : Apk c) → unmarshal_apk c (marshal_pk c apk.public_key) ≡ some apk
  unfolding unmarshal_apk unmarshal_pk marshal_pk
  unmarshal_apk-marshal_pk apk = rw (keys.decodes apk.public_key.gx)

  or_malformed-bind :
      {A B : Type 0} (r : Option A) (a : A) (k : A → M B)
      → r ≡ some a
      → (or_malformed c r >>= k) ≡ k a
  unfolding or_malformed ◌>>=◌
  or_malformed-bind r a k e = rw e

  signature_of-RoundTrips :
      (apk : Apk c) (bits : ℕ) (sig : Signature c)
      → RoundTrips
          (write_bls (compress c sig))
          (unmarshal_signature_of c apk bits)
          (record { apk = apk; bit_set = bits; signature = sig; step = 0 })
  unfolding unmarshal_signature_of compress
  signature_of-RoundTrips apk bits sig =
      RoundTrips-last (read_bls-RoundTrips (compress c sig) (small.size sig.e))
        (λ signature. or_malformed c (unmarshal_signature c signature) >>= λ s.
          pure (record { apk = apk; bit_set = bits; signature = s; step = 0 }))
        (λ rest.
          ap (λ m. m rest)
            (or_malformed-bind (unmarshal_signature c (compress c sig)) sig _
              (unmarshal_signature-compress c small sig)))

  votes_of-RoundTrips :
      (apk : Apk c) (bits : ℕ) (sig : Signature c)
      → bits < 2 ^ 64
      → RoundTrips
          (write_uint64 little_endian bits >> write_bls (compress c sig))
          (or_malformed c (unmarshal_apk c (marshal_pk c apk.public_key)) >>= unmarshal_votes_of c)
          (record { apk = apk; bit_set = bits; signature = sig; step = 0 })
  unfolding unmarshal_votes_of
  votes_of-RoundTrips apk bits sig fits =
      subst
        (λ r.
          RoundTrips (write_uint64 little_endian bits >> write_bls (compress c sig)) r
            (record { apk = apk; bit_set = bits; signature = sig; step = 0 }))
        (sym (
          or_malformed-bind (unmarshal_apk c (marshal_pk c apk.public_key)) apk
            (unmarshal_votes_of c) (unmarshal_apk-marshal_pk apk)))
        (RoundTrips-then (uint64-RoundTrips little_endian bits fits) (unmarshal_signature_of c apk)
          (signature_of-RoundTrips apk bits sig))

  step_votes-RoundTrips :
      (sv : StepVotes c)
      → IsSent sv
      → RoundTrips (marshal_step_votes c sv) (unmarshal_step_votes c) (unstepped sv)
  unfolding marshal_step_votes unmarshal_step_votes marshal_pk
  step_votes-RoundTrips sv v =
      RoundTrips-then
        (var_bytes-RoundTrips (marshal_pk c sv.apk.public_key) (keys.size sv.apk.public_key.gx))
        (λ key. or_malformed c (unmarshal_apk c key) >>= unmarshal_votes_of c)
        (votes_of-RoundTrips sv.apk sv.bit_set sv.signature v.bits)

  slots-RoundTrips :
      (one two : StepVotes c)
      → IsSent one
      → IsSent two
      → RoundTrips
          (marshal_votes c (some one ∷ some two ∷ []))
          (unmarshal_votes c (empty_slots c))
          (some (unstepped one) ∷ some (unstepped two) ∷ [])
  unfolding marshal_votes marshal_slot write_each unmarshal_votes unmarshal_slots empty_slots
      put_slot ◌>>◌ ◌>>=◌
  slots-RoundTrips one two v w =
      RoundTrips-then (var_int-RoundTrips 2 (ground arith))
        (λ n. unmarshal_slots c n 0 (empty_slots c))
        (RoundTrips-then (step_votes-RoundTrips one v)
          (λ sv. put_slot c (empty_slots c) 0 sv >>= unmarshal_slots c 1 1)
          (RoundTrips-then (step_votes-RoundTrips two w)
            (λ sv. put_slot c (some (unstepped one) ∷ none ∷ []) 1 sv >>= unmarshal_slots c 0 2)
            (RoundTrips-pure (some (unstepped one) ∷ some (unstepped two) ∷ []))))

  -- An agreement with the votes of both steps, whose fields fit their widths, is read back with 0 for
  -- the steps of its votes, which are not sent, whatever they were; over a curve whose points are
  -- decoded to what they were.
  pub agreement-RoundTrips :
      (old : Agreement c) (h : Header) (signed : Bytes) (one two : StepVotes c)
      → IsWellSized h
      → length signed ≡ 33
      → IsSent one
      → IsSent two
      → RoundTrips
          (marshal_agreement c (record {
            header = h;
            signed_votes = signed;
            votes_per_step = some one ∷ some two ∷ [];
          }))
          (unmarshal_agreement c old)
          (record {
            header = h;
            signed_votes = signed;
            votes_per_step = some (unstepped one) ∷ some (unstepped two) ∷ [];
          })
  unfolding marshal_agreement unmarshal_agreement
  agreement-RoundTrips old h signed one two fits size v w =
      RoundTrips-then (header-RoundTrips old.header h fits) _ (
        RoundTrips-then (read_bls-RoundTrips signed size) _
          (RoundTrips-bind (slots-RoundTrips one two v w) _ refl))

  one_slot :
      (sv : StepVotes c) (v : IsSent sv) (n i : ℕ) (votes : List (Slot c)) (tail : Bytes)
      → unmarshal_slots c (suc n) i votes ((step_votes-RoundTrips sv v).bytes ++ tail)
        ≡ (put_slot c votes i (unstepped sv) >>= unmarshal_slots c n (suc i)) tail
  unfolding unmarshal_slots
  one_slot sv v n i votes tail =
      >>=-ok (unmarshal_step_votes c) (λ s. put_slot c votes i s >>= unmarshal_slots c n (suc i))
        ((step_votes-RoundTrips sv v).reads tail)

  -- A sender that announces more than two step votes and sends three that are well formed makes the
  -- receiver panic, whatever follows.
  pub third_votes_panic :
      (more : ℕ) (one two three : StepVotes c) (tail : Bytes)
      → suc (suc (suc more)) < 2 ^ 64
      → IsSent one
      → IsSent two
      → IsSent three
      → (sent : Bytes) × ((write_var_int (suc (suc (suc more)))
              >> marshal_step_votes c one
              >> marshal_step_votes c two
              >> marshal_step_votes c three)
            []
          ≡ ok tt sent)
        × (unmarshal_votes c (empty_slots c) (sent ++ tail) ≡ err panicked tail)
  unfolding unmarshal_votes empty_slots put_slot ◌>>=◌
  third_votes_panic more one two three tail fits u v w =
      let n = var_int-RoundTrips (suc (suc (suc more))) fits in
      let a = step_votes-RoundTrips one u in
      let b = step_votes-RoundTrips two v in
      let d = step_votes-RoundTrips three w in
      let count = write_var_int (suc (suc (suc more))) in
      let first = marshal_step_votes c one in
      let second = marshal_step_votes c two in
      (
        ((n.bytes ++ a.bytes) ++ b.bytes) ++ d.bytes,
        >>-ok (count >> first >> second) (marshal_step_votes c three) (
              >>-ok (count >> first) second (>>-ok count first (n.writes []) ∙ a.writes n.bytes)
              ∙ b.writes (n.bytes ++ a.bytes))
            ∙ d.writes ((n.bytes ++ a.bytes) ++ b.bytes),
        rw (append_assoc, append_assoc, append_assoc)
            (>>=-ok read_var_int (λ m. unmarshal_slots c m 0 (empty_slots c))
                (n.reads (a.bytes ++ (b.bytes ++ (d.bytes ++ tail))))
              ∙ one_slot one u (suc (suc more)) 0 (empty_slots c) (b.bytes ++ (d.bytes ++ tail))
              ∙ one_slot two v (suc more) 1 (some (unstepped one) ∷ none ∷ []) (d.bytes ++ tail)
              ∙ one_slot three w more 2 (some (unstepped one) ∷ some (unstepped two) ∷ []) tail),
      )
