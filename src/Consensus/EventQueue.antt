-- ===== src/Consensus/EventQueue.antt =====
-- pkg/core/consensus/eventqueue.go: events that came too early, by round and step. A nil slice and an
-- empty one are one list, and a nil map is an absent one.
use dusk_blockchain.Base.{
  ℕ, ◌≡◌, refl, arith, ◌&&◌, ◌==◌, if◌then◌else◌, Bool-cases, inl, inr, List, [], ◌∷◌, ◌++◌, Option,
  none, some,
}
use dusk_blockchain.Base.Assoc.{lookup, insert, lookup-insert, nat_key}

abbrev pub Steps : Type 0 → Type 0
Steps E = List (ℕ × List E)

abbrev pub EventQueue : Type 0 → Type 0
EventQueue E = List (ℕ × Steps E)

-- A read of a map by Go's zero value.
abbrev pub or_empty : {A : Type 0} → Option (List A) → List A
or_empty none = []
or_empty (some xs) = xs

module _ {E : Type 0} where
  unfoldable pub new_event_queue : EventQueue E
  new_event_queue = []

  -- `eq.entries[round][step]`.
  unfoldable pub events : EventQueue E → ℕ → ℕ → List E
  events q round step = or_empty (lookup step (or_empty (lookup round q)))

  -- The events, and the queue with that entry set to nil.
  unfoldable pub get_events : EventQueue E → ℕ → ℕ → EventQueue E × List E
  get_events q round step = elim (events q round step) [
    | [] ↦ (q, [])
    | e ∷ es ↦ (insert round (insert step [] (or_empty (lookup round q))) q, e ∷ es)
  ]

  unfoldable pub put_event : EventQueue E → ℕ → ℕ → E → EventQueue E
  put_event q round step m =
      insert round (insert step (events q round step ++ (m ∷ [])) (or_empty (lookup round q))) q

  unfoldable pub clear : EventQueue E → ℕ → EventQueue E
  clear q round = insert round [] q

  -- `for step, evs := range eq.entries[round]`, in the order of the list.
  unfoldable pub flush_steps : Steps E → List E
  flush_steps [] = []
  flush_steps ((step, evs) ∷ m) = evs ++ flush_steps m

  unfoldable pub emptied : Steps E → Steps E
  emptied [] = []
  emptied ((step, evs) ∷ m) = (step, []) ∷ emptied m

  unfoldable pub flush : EventQueue E → ℕ → EventQueue E × List E
  flush q round = elim (lookup round q) [
    | none ↦ (q, [])
    | some m ↦ (insert round (emptied m) q, flush_steps m)
  ]

  -- What one write of a step's list does to every list of the queue.
  write_entry :
      (q : EventQueue E) (round step r s : ℕ) (es : List E)
      → events (insert round (insert step es (or_empty (lookup round q))) q) r s
        ≡ (if round == r && step == s then es else events q r s)
  unfolding events
  write_entry q round step r s es =
      rw (lookup-insert round r (insert step es (or_empty (lookup round q))) q)
        (elim (Bool-cases (round == r)) [
          | inl at ↦
              let here : round ≡ r = ground arith in
              rw (at, lookup-insert step s es (or_empty (lookup round q)), here) (ground arith)
          | inr off ↦ rw off
        ])

  -- An event is put behind those of its round and step, and no other list changes.
  pub events-put_event :
      (q : EventQueue E) (round step : ℕ) (m : E) (r s : ℕ)
      → events (put_event q round step m) r s
        ≡ (if round == r && step == s then events q round step ++ (m ∷ []) else events q r s)
  unfolding put_event
  events-put_event q round step m r s =
      write_entry q round step r s (events q round step ++ (m ∷ []))

  lookup-emptied : (m : Steps E) (s : ℕ) → or_empty (lookup s (emptied m)) ≡ []
  unfolding lookup emptied
  lookup-emptied [] s = refl
  lookup-emptied ((step, evs) ∷ m) s = elim (Bool-cases (step == s)) [
    | inl hit ↦ rw hit
    | inr miss ↦ rw miss (lookup-emptied m s)
  ]

  -- The events come out in the order in which they were put in, their list is empty afterwards, and
  -- no other list changes.
  pub events-get_events :
      (q : EventQueue E) (round step r s : ℕ)
      → ((get_events q round step).1 ≡ events q round step)
        × (events (get_events q round step).0 r s
            ≡ (if round == r && step == s then [] else events q r s))
  unfolding get_events
  events-get_events q round step r s = by_events (events q round step) refl
    where
      unchanged :
          events q round step ≡ []
          → events q r s ≡ (if round == r && step == s then [] else events q r s)
      unchanged e = elim (Bool-cases (round == r && step == s)) [
        | inl at ↦
            let here : round ≡ r = ground arith in
            let there : step ≡ s = ground arith in rw (at, ← here, ← there) e
        | inr off ↦ rw off
      ]

      by_events :
          (es : List E)
          → events q round step ≡ es
          → ((get_events q round step).1 ≡ events q round step)
            × (events (get_events q round step).0 r s
                ≡ (if round == r && step == s then [] else events q r s))
      by_events [] e = rw (e, get_events) (refl, unchanged e)
      by_events (x ∷ es) e = rw (e, get_events) (refl, write_entry q round step r s [])

  -- Clearing a round empties each of its lists and no other.
  pub events-clear :
      (q : EventQueue E) (round r s : ℕ)
      → events (clear q round) r s ≡ (if round == r then [] else events q r s)
  unfolding events clear
  events-clear q round r s =
      rw (lookup-insert round r [] q) (elim (Bool-cases (round == r)) [
        | inl at ↦ rw at (unfold lookup in refl)
        | inr off ↦ rw off
      ])

  -- What a flush of the round returns, and what it leaves.
  pub events-flush :
      (q : EventQueue E) (round r s : ℕ)
      → ((flush q round).1 ≡ flush_steps (or_empty (lookup round q)))
        × (events (flush q round).0 r s ≡ (if round == r then [] else events q r s))
  unfolding events flush flush_steps
  events-flush q round r s = by_steps (lookup round q) refl
    where
      by_steps :
          (o : Option (Steps E))
          → lookup round q ≡ o
          → ((flush q round).1 ≡ flush_steps (or_empty (lookup round q)))
            × (events (flush q round).0 r s ≡ (if round == r then [] else events q r s))
      by_steps none e =
          rw (e, flush)
            (
              refl,
              elim (Bool-cases (round == r)) [
                | inl at ↦
                    let here : round ≡ r = ground arith in
                    rw (at, ← here, e) (unfold lookup in refl)
                | inr off ↦ rw off
              ],
            )
      by_steps (some m) e =
          rw (e, flush)
            (
              refl,
              rw (lookup-insert round r (emptied m) q) (elim (Bool-cases (round == r)) [
                | inl at ↦ rw at (lookup-emptied m s)
                | inr off ↦ rw off
              ]),
            )
