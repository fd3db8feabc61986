-- ===== src/Consensus/AccumulatorStore.antt =====
-- pkg/core/consensus/accumulatorstore.go: the events collected so far under each identifier. An
-- event's `Equal` is a parameter, since each message type has its own.
use dusk_blockchain.Base.{
  ℕ, ◌≡◌, refl, ap, sym, ◌∙◌, arith, Bool, false, ◌||◌, ◌&&◌, not, if◌then◌else◌, Bool-cases, inl,
  inr, List, [], ◌∷◌, ◌++◌, All, All-append, length,
}
use dusk_blockchain.Base.Assoc.{Key, lookup, insert, lookup-insert}
use dusk_blockchain.Consensus.EventQueue.{or_empty}

module _ {I E : Type 0} ⦃key : Key I⦄ where
  unfoldable pub get : List (I × List E) → I → List E
  get store id = or_empty (lookup id store)

  -- `All`, in the order of the list.
  unfoldable pub all : List (I × List E) → List E
  all [] = []
  all ((id, evs) ∷ store) = evs ++ all store

  unfoldable pub clear : List (I × List E) → List (I × List E)
  clear store = []

-- `event.Equal(stored)` for one of the stored events.
unfoldable pub contains_in : {E : Type 0} → (E → E → Bool) → E → List E → Bool
contains_in equal event [] = false
contains_in equal event (stored ∷ evs) = equal event stored || contains_in equal event evs

module _ {I E : Type 0} ⦃key : Key I⦄ (equal : E → E → Bool) where
  unfoldable pub contains : List (I × List E) → E → I → Bool
  unfolding get contains_in
  contains store event id = contains_in equal event (get store id)

  -- The store after the call, and the number of events under the identifier.
  unfoldable pub insert_event : List (I × List E) → E → I → List (I × List E) × ℕ
  unfolding contains
  insert_event store event id =
      let evs = get store id in
      if contains store event id
      then (store, length evs)
      else (insert id (evs ++ (event ∷ [])) store, length (evs ++ (event ∷ [])))

-- No event is `Equal` to one before it.
abbrev pub Distinct : {E : Type 0} → (E → E → Bool) → List E → Type 0
Distinct equal [] = Unit {0}
Distinct equal (x ∷ xs) = All (λ y. equal y x ≡ false) xs × Distinct equal xs

pub Distinct-append :
    {E : Type 0} (equal : E → E → Bool) (xs : List E) (e : E)
    → Distinct equal xs
    → contains_in equal e xs ≡ false
    → Distinct equal (xs ++ (e ∷ []))
unfolding contains_in
Distinct-append equal [] e d h = (tt, tt)
Distinct-append equal (x ∷ xs) e (hx, hs) h = (
  All-append (λ y. equal y x ≡ false) xs (e ∷ []) hx (ground arith, tt),
  Distinct-append equal xs e hs (ground arith),
)

module _ {I E : Type 0} ⦃key : Key I⦄ (equal : E → E → Bool) where
  get-insert :
      (store : List (I × List E)) (id j : I) (evs : List E)
      → get (insert id evs store) j ≡ (if key.same id j then evs else get store j)
  unfolding get
  get-insert store id j evs =
      rw (lookup-insert id j evs store)
        (elim (Bool-cases (key.same id j)) [ inl at ↦ rw at | inr off ↦ rw off ])

  -- Every list of the store satisfies a property that may depend on its identifier.
  abbrev pub Everywhere : (I → List E → Type 0) → List (I × List E) → Type 0
  Everywhere P store = (j : I) → P j (get store j)

  -- An event is stored behind the others of its identifier unless one of them is `Equal` to it, no
  -- other identifier changes, and the call returns how many there are then.
  pub insert_event_lem :
      (store : List (I × List E)) (event : E) (id j : I)
      → ((insert_event equal store event id).1
          ≡ length (get (insert_event equal store event id).0 id))
        × (get (insert_event equal store event id).0 j ≡ (
            if key.same id j && not (contains equal store event id)
            then get store id ++ (event ∷ [])
            else get store j))
  unfolding insert_event
  insert_event_lem store event id j = elim (Bool-cases (contains equal store event id)) [
    | inl old ↦
        rw old (refl, elim (Bool-cases (key.same id j)) [ inl at ↦ rw at | inr off ↦ rw off ])
    | inr new ↦ rw new (
      ap length (sym (get-insert store id id evs' ∙ rw (key.same_refl id))),
      get-insert store id j evs'
          ∙ elim (Bool-cases (key.same id j)) [ inl at ↦ rw at | inr off ↦ rw off ],
    )
  ]
    where
      evs' : List E
      evs' = get store id ++ (event ∷ [])

  -- So a property of the lists that a new event keeps holds of the store after every insertion.
  pub insert_event-Everywhere :
      (P : I → List E → Type 0) (store : List (I × List E)) (event : E) (id : I)
      → Everywhere P store
      → (contains_in equal event (get store id) ≡ false
          → P id (get store id)
          → P id (get store id ++ (event ∷ [])))
      → Everywhere P (insert_event equal store event id).0
  unfolding insert_event contains
  insert_event-Everywhere P store event id all keep j =
      elim (Bool-cases (contains_in equal event (get store id))) [
        | inl old ↦ rw old (all j)
        | inr new ↦
            rw (new, get-insert store id j (get store id ++ (event ∷ [])))
              (elim (Bool-cases (key.same id j)) [
                | inl at ↦ rw (at, ← key.same→eq id j at) (keep new (all id))
                | inr off ↦ rw off (all j)
              ])
      ]
