-- ===== src/Consensus/Accumulator/Quorum.antt =====
-- Whatever the order of events, workers and turns, a set of votes that an accumulator gives out is a
-- quorum of distinct, verified votes of committee members for one identifier.
use dusk_blockchain.Base.{
  ℕ, ◌≤◌, ◌≡◌, refl, Bool, true, false, ltb, leb, leb→le, Bool-cases, Option-cases, ◌⊎◌, ◌∙◌, arith,
  ap, inl, inr, List, [], ◌∷◌, ◌++◌, All, All-append, some, length, subst,
}
use dusk_blockchain.Base.Assoc.{lookup}
use dusk_blockchain.Encoding.Buffer.{Bytes, bytes_key}
use dusk_blockchain.Consensus.AccumulatorStore.{
  insert_event, insert_event_lem, contains, contains_in, get, clear, Distinct, Distinct-append,
  Everywhere, insert_event-Everywhere,
}
use dusk_blockchain.Consensus.Accumulator.{
  Handler, Accumulator, Action, processes, works, accumulates, new_accumulator, is_obsolete,
  process, work, send_event, verified, count_votes, accumulate_event, accumulate, act, run,
}

module _ {E : Type 0} (h : Handler E) where
  -- The sender of a vote is in the committee of its round and step.
  abbrev pub IsFromMember : E → Type 0
  IsFromMember ev = h.is_member (h.sender ev) (h.round_of ev) (h.step_of ev) ≡ true

  abbrev pub IsVerified : E → Type 0
  IsVerified ev = IsFromMember ev × (h.verify ev ≡ true)

  abbrev pub IsVoteFor : Bytes → E → Type 0
  IsVoteFor id ev = IsVerified ev × (h.extract_identifier ev ≡ some id)

  -- The votes under one identifier.
  pub record Votes (id : Bytes) (evs : List E) : Type 0 where
    pub votes : All (IsVoteFor id) evs
    pub distinct : Distinct h.equal evs

  -- The vote is in the set, or the vote is `Equal` to one that is.
  pub record IsIn (evs : List E) (ev : E) : Type 0 where
    pub vote : E
    pub before : List E
    pub after : List E
    pub place : evs ≡ before ++ (vote ∷ after)
    pub counts : (vote ≡ ev) ⊎ (h.equal ev vote ≡ true)

  -- A set that is given out, and the vote that completed it, whose round gives the quorum.
  pub record IsQuorum (evs : List E) : Type 0 where
    pub identifier : Bytes
    pub last : E
    pub valid : Votes identifier evs
    pub last_vote : IsVoteFor identifier last
    pub present : IsIn evs last
    pub enough : h.quorum (h.round_of last) ≤ length evs

  pub record Inv (a : Accumulator E) : Type 0 where
    pub stored : Everywhere h.equal Votes a.store
    pub waiting : All IsFromMember a.verification_chan
    pub checked : All IsVerified a.event_chan
    pub given_out : All IsQuorum a.collected_votes

  no-Votes : (id : Bytes) → Votes id (get [] id)
  unfolding get lookup
  no-Votes id = record { votes = tt; distinct = tt }

  new_accumulator-Inv : Inv new_accumulator
  unfolding new_accumulator
  new_accumulator-Inv = record { stored = no-Votes; waiting = tt; checked = tt; given_out = tt }

  process-Inv : (a : Accumulator E) (ev : E) → Inv a → Inv (process h a ev)
  unfolding process
  process-Inv a ev v =
      elim (Bool-cases (h.is_member (h.sender ev) (h.round_of ev) (h.step_of ev))) [
        | inl member ↦ rw member (record {
          stored = v.stored;
          waiting = All-append IsFromMember a.verification_chan (ev ∷ []) v.waiting (member, tt);
          checked = v.checked;
          given_out = v.given_out;
        })
        | inr stranger ↦ rw stranger v
      ]

  verified-Inv : (a : Accumulator E) (ev : E) → IsFromMember ev → Inv a → Inv (verified h a ev)
  unfolding verified
  verified-Inv a ev m v = elim (Bool-cases (h.verify ev)) [
    | inr bad ↦ rw bad v
    | inl good ↦ rw good (elim (Bool-cases (ltb (length a.event_chan) 100)) [
      | inr full ↦ unfold send_event in rw full v
      | inl room ↦
          unfold send_event in
          rw room (record {
            stored = v.stored;
            waiting = v.waiting;
            checked = All-append IsVerified a.event_chan (ev ∷ []) v.checked ((m, good), tt);
            given_out = v.given_out;
          })
    ])
  ]

  -- A vote that is new under its identifier keeps the votes there in order.
  Votes-append :
      (id : Bytes) (evs : List E) (ev : E)
      → IsVoteFor id ev
      → contains_in h.equal ev evs ≡ false
      → Votes id evs
      → Votes id (evs ++ (ev ∷ []))
  Votes-append id evs ev vote new v = record {
    votes = All-append (IsVoteFor id) evs (ev ∷ []) v.votes (vote, tt);
    distinct = Distinct-append h.equal evs ev v.distinct new;
  }

  IsIn-behind : (x : E) (evs : List E) (ev : E) → IsIn evs ev → IsIn (x ∷ evs) ev
  IsIn-behind x evs ev i = record {
    vote = i.vote;
    before = x ∷ i.before;
    after = i.after;
    place = ap (λ t. x ∷ t) i.place;
    counts = i.counts;
  }

  contains_in-IsIn : (ev : E) (evs : List E) → contains_in h.equal ev evs ≡ true → IsIn evs ev
  unfolding contains_in
  contains_in-IsIn ev [] e = absurd (ground arith)
  contains_in-IsIn ev (x ∷ evs) e = elim (Bool-cases (h.equal ev x)) [
    | inl here ↦ record { vote = x; before = []; after = evs; place = refl; counts = inr here }
    | inr off ↦ IsIn-behind x evs ev (contains_in-IsIn ev evs (ground arith))
  ]

  inserted-IsIn :
      (store : List (Bytes × List E)) (ev : E) (id : Bytes)
      → IsIn (get (insert_event h.equal store ev id).0 id) ev
  inserted-IsIn store ev id =
      let stored = (insert_event_lem h.equal store ev id id).1 in
      let self : bytes_key.same id id ≡ true = bytes_key.same_refl id in
      elim (Bool-cases (contains h.equal store ev id)) [
        | inl old ↦
            let e : get (insert_event h.equal store ev id).0 id ≡ get store id =
              stored ∙ rw (self, old) in
            rw e (contains_in-IsIn ev (get store id) (unfold contains in old))
        | inr new ↦ record {
          vote = ev;
          before = get store id;
          after = [];
          place = stored ∙ rw (self, new);
          counts = inl refl;
        }
      ]

  count_votes-Inv :
      (a : Accumulator E) (ev : E) (id : Bytes)
      → IsVoteFor id ev
      → Inv a
      → Inv (count_votes h a ev id)
  unfolding count_votes
  count_votes-Inv a ev id vote v = elim (Bool-cases (leb (h.quorum (h.round_of ev)) count)) [
    | inr few ↦ rw few (record {
      stored = stored';
      waiting = v.waiting;
      checked = v.checked;
      given_out = v.given_out;
    })
    | inl many ↦ rw many (record {
      stored = unfold clear in no-Votes;
      waiting = v.waiting;
      checked = v.checked;
      given_out =
          All-append IsQuorum a.collected_votes (get store' id ∷ []) v.given_out (quorum many, tt);
    })
  ]
    where
      store' : List (Bytes × List E)
      store' = (insert_event h.equal a.store ev id).0

      count : ℕ
      count = (insert_event h.equal a.store ev id).1

      stored' : Everywhere h.equal Votes store'
      stored' =
          insert_event-Everywhere h.equal Votes a.store ev id v.stored
            (λ new old. Votes-append id (get a.store id) ev vote new old)

      quorum : leb (h.quorum (h.round_of ev)) count ≡ true → IsQuorum (get store' id)
      quorum many = record {
        identifier = id;
        last = ev;
        valid = stored' id;
        last_vote = vote;
        present = inserted-IsIn a.store ev id;
        enough =
            subst (λ n. h.quorum (h.round_of ev) ≤ n) (insert_event_lem h.equal a.store ev id id).0
              (leb→le _ _ many);
      }

  accumulate_event-Inv :
      (check_step : Bool) (round step : ℕ) (a : Accumulator E) (ev : E)
      → IsVerified ev
      → Inv a
      → Inv (accumulate_event h check_step round step a ev)
  unfolding accumulate_event
  accumulate_event-Inv check_step round step a ev ok_ev v =
      elim (Bool-cases (is_obsolete h check_step round step ev)) [
        | inl late ↦ rw late v
        | inr current ↦ rw current (elim (Option-cases (h.extract_identifier ev)) [
          | inl e ↦ rw e v
          | inr (id, e) ↦ rw e (count_votes-Inv a ev id (ok_ev, e) v)
        ])
      ]

  work-Inv :
      (a : Accumulator E) (waiting : List E)
      → a.verification_chan ≡ waiting
      → Inv a
      → Inv (work h a)
  unfolding work
  work-Inv a [] e v = rw (e, work) v
  work-Inv a (ev ∷ rest) e v =
      let (m, ms) = subst (All IsFromMember) e v.waiting in
      rw (e, work)
        (verified-Inv _ ev m (record {
          stored = v.stored;
          waiting = ms;
          checked = v.checked;
          given_out = v.given_out;
        }))

  accumulate-Inv :
      (check_step : Bool) (round step : ℕ) (a : Accumulator E) (checked : List E)
      → a.event_chan ≡ checked
      → Inv a
      → Inv (accumulate h check_step round step a)
  unfolding accumulate
  accumulate-Inv check_step round step a [] e v = rw (e, accumulate) v
  accumulate-Inv check_step round step a (ev ∷ rest) e v =
      let (m, ms) = subst (All IsVerified) e v.checked in
      rw (e, accumulate)
        (accumulate_event-Inv check_step round step _ ev m (record {
          stored = v.stored;
          waiting = v.waiting;
          checked = ms;
          given_out = v.given_out;
        }))

  act-Inv :
      (check_step : Bool) (a : Accumulator E) (x : Action E) → Inv a → Inv (act h check_step a x)
  unfolding act
  act-Inv check_step a (processes ev) v = process-Inv a ev v
  act-Inv check_step a works v = work-Inv a a.verification_chan refl v
  act-Inv check_step a (accumulates round step) v =
      accumulate-Inv check_step round step a a.event_chan refl v

  run-Inv :
      (check_step : Bool) (a : Accumulator E) (xs : List (Action E))
      → Inv a
      → Inv (run h check_step a xs)
  unfolding run
  run-Inv check_step a [] v = v
  run-Inv check_step a (x ∷ xs) v =
      run-Inv check_step (act h check_step a x) xs (act-Inv check_step a x v)

  -- In whatever order events arrive, workers verify and the accumulator takes its turns, each set of
  -- votes given out has one identifier; its votes are verified, come from committee members and are
  -- pairwise not `Equal`; and there are at least as many as the quorum of the round of a vote for that
  -- identifier that is verified too, and is in the set itself or `Equal` to a vote that is.
  pub run-IsQuorum :
      (check_step : Bool) (xs : List (Action E))
      → All IsQuorum (run h check_step new_accumulator xs).collected_votes
  run-IsQuorum check_step xs = (run-Inv check_step new_accumulator xs new_accumulator-Inv).given_out
