-- ===== src/Wire/DupeMap/Forwarding.antt =====
-- What the duplicate map of pkg/p2p/peer/dupemap keeps, and how long.
use dusk_blockchain.Base.{
  ℕ, refl, subst, ◌+◌, ◌-◌, ◌≤◌, ◌<◌, ◌≡◌, ◌∙◌, arith, Bool, true, false, not, ◌&&◌, ◌==◌, ltb, leb,
  if◌then◌else◌, Bool-cases, Option-cases, inl, inr, List, [], ◌∷◌, Option, none, some, All,
}
use dusk_blockchain.Base.Assoc.{nat_key, lookup, insert, lookup-insert}
use dusk_blockchain.Encoding.Buffer.{Bytes, equal, equal_refl}
use dusk_blockchain.Wire.DupeMap.{
  TmpMap, DupeMap, has_entry, keep_levels, clean, update_height, dupe_map_update_height, set_has,
  set_add, set_at, has_at, has_among, has_anywhere, add_at, add, look_up, let_through,
}

lookup-keep_levels :
    (keep : ℕ → Bool) (k : ℕ) (m : List (ℕ × List Bytes))
    → lookup k (keep_levels keep m) ≡ (if keep k then lookup k m else none)
unfolding lookup keep_levels
lookup-keep_levels keep k [] = elim (Bool-cases (keep k)) [ inl e ↦ rw e | inr e ↦ rw e ]
lookup-keep_levels keep k ((r, s) ∷ m) = elim (Bool-cases (r == k)) [
  | inl at ↦
      let e : r ≡ k = ground arith in
      let self : (k == k) ≡ true = ground arith in
      rw e (elim (Bool-cases (keep k)) [
        | inl kept ↦ rw (kept, self)
        | inr gone ↦ rw (gone, lookup-keep_levels keep k m, gone)
      ])
  | inr off ↦ elim (Bool-cases (keep r)) [
    | inl kept ↦ rw (kept, off, lookup-keep_levels keep k m)
    | inr gone ↦ rw (gone, off, lookup-keep_levels keep k m)
  ]
]

clean_lem :
    (t : TmpMap) (k : ℕ)
    → lookup k (clean t).msg_sets ≡ (
        if ltb t.tolerance t.height && leb (k + t.tolerance) t.height
        then none
        else lookup k t.msg_sets)
unfolding clean
clean_lem t k = elim (Bool-cases (leb t.height t.tolerance)) [
  | inl low ↦ let q : ltb t.tolerance t.height ≡ false = ground arith in rw (low, q)
  | inr high ↦
      let q : ltb t.tolerance t.height ≡ true = ground arith in
      let f = lookup-keep_levels (λ r. not (leb r (t.height - t.tolerance))) k t.msg_sets in
      elim (Bool-cases (leb (k + t.tolerance) t.height)) [
        | inl old ↦
            let g : leb k (t.height - t.tolerance) ≡ true = ground arith in rw (high, q, old, f, g)
        | inr new ↦
            let g : leb k (t.height - t.tolerance) ≡ false = ground arith in rw (high, q, new, f, g)
      ]
]

clean-tolerance : (t : TmpMap) → (clean t).tolerance ≡ t.tolerance
unfolding clean
clean-tolerance t = elim (Bool-cases (leb t.height t.tolerance)) [ inl e ↦ rw e | inr e ↦ rw e ]

-- When the height rises to a round that has no level yet, that round gets an empty level, the levels
-- that lie the tolerance or more below it go, and all others stay.
pub update_height_lem :
    (t : TmpMap) (round k : ℕ)
    → t.height ≤ round
    → lookup round t.msg_sets ≡ none
    → lookup k (update_height t round).msg_sets ≡ (
        if ltb t.tolerance round && leb (k + t.tolerance) round
        then none
        else if round == k
        then some []
        else lookup k t.msg_sets)
unfolding update_height
update_height_lem t round k le away =
    let low : ltb round t.height ≡ false = ground arith in
    let risen : TmpMap = record t { msg_sets = insert round [] t.msg_sets; height = round } in
    rw (low, away, update_height, clean_lem risen k, lookup-insert round k [] t.msg_sets)

module _ (repr : Bytes → Bytes) where
  -- The message's hash is at the level `h`.
  abbrev Held : ℕ → Bytes → DupeMap → Type 0
  Held h b d =
      (s : List Bytes) × (lookup h d.tmp_map.msg_sets ≡ some s) × (has_entry s (repr b) ≡ true)

  Held-has_among :
      (h : ℕ) (b : Bytes) (d : DupeMap) (m : List (ℕ × List Bytes)) (s : List Bytes)
      → has_at repr d.tmp_map b h ≡ true
      → lookup h m ≡ some s
      → has_among repr d.tmp_map b m ≡ true
  unfolding lookup has_among
  Held-has_among h b d [] s a e = absurd (ground arith)
  Held-has_among h b d ((k, s') ∷ m) s a e = elim (Bool-cases (k == h)) [
    | inl at ↦ let q : k ≡ h = ground arith in rw (q, a)
    | inr off ↦ let ih = Held-has_among h b d m s a (ground arith) in ground arith
  ]

  Held-found : (h : ℕ) (b : Bytes) (d : DupeMap) → Held h b d → look_up repr d b ≡ true
  unfolding look_up has_anywhere has_at set_has
  Held-found h b d (s, e, q) =
      let at : has_at repr d.tmp_map b h ≡ true = rw (e, has_at, q) in
      Held-has_among h b d d.tmp_map.msg_sets s at e

  set_add-has : (s : List Bytes) (b : Bytes) → has_entry (set_add repr s b).0 (repr b) ≡ true
  unfolding set_add has_entry
  set_add-has s b = elim (Bool-cases (has_entry s (repr b))) [
    | inl old ↦ rw (old, set_add) old
    | inr new ↦ rw (new, equal_refl (repr b))
  ]

  set_add-keeps :
      (s : List Bytes) (b k : Bytes)
      → has_entry s k ≡ true
      → has_entry (set_add repr s b).0 k ≡ true
  unfolding set_add has_entry
  set_add-keeps s b k h = elim (Bool-cases (has_entry s (repr b))) [
    | inl old ↦ rw (old, set_add) h
    | inr new ↦ rw new (ground (arith, h))
  ]

  lookup-add :
      (t : TmpMap) (b : Bytes) (k : ℕ)
      → lookup k (add repr t b).0.msg_sets ≡ (
          if t.height == k
          then some (set_add repr (set_at t t.height) b).0
          else lookup k t.msg_sets)
  unfolding add add_at
  lookup-add t b k = lookup-insert t.height k (set_add repr (set_at t t.height) b).0 t.msg_sets

  let_through-Here : (b : Bytes) (d : DupeMap) → Held d.tmp_map.height b (let_through repr d b)
  unfolding let_through
  let_through-Here b d =
      let t = d.tmp_map in
      let self : (t.height == t.height) ≡ true = ground arith in
      (
        (set_add repr (set_at t t.height) b).0,
        lookup-add t b t.height ∙ rw self,
        set_add-has (set_at t t.height) b,
      )

  let_through-Held :
      (h : ℕ) (b other : Bytes) (d : DupeMap) → Held h b d → Held h b (let_through repr d other)
  unfolding let_through set_at
  let_through-Held h b other d (s, e, q) =
      let t = d.tmp_map in
      elim (Bool-cases (t.height == h)) [
        | inl at ↦
            let same_level : t.height ≡ h = ground arith in
            (
              (set_add repr (set_at t t.height) other).0,
              lookup-add t other h ∙ rw at,
              set_add-keeps (set_at t t.height) other (repr b) (rw (same_level, set_at, e) q),
            )
        | inr off ↦ (s, lookup-add t other h ∙ rw (off, e), q)
      ]

  update-Held :
      (h : ℕ) (b : Bytes) (d : DupeMap) (round : ℕ)
      → round < h + d.tmp_map.tolerance
      → Held h b d
      → Held h b (dupe_map_update_height d round)
  unfolding dupe_map_update_height update_height
  update-Held h b d round lt (s, e, q) =
      let t = d.tmp_map in
      elim (Bool-cases (ltb round t.height)) [
        | inl below ↦ rw (below, update_height) (s, e, q)
        | inr above ↦ elim (Option-cases (lookup round t.msg_sets)) [
          | inr (s', found) ↦ rw (above, found, update_height) (s, e, q)
          | inl away ↦
              let near : leb (h + t.tolerance) round ≡ false = ground arith in
              let f = update_height_lem t round h (ground arith) away in
              elim (Bool-cases (round == h)) [
                | inl at ↦
                    let g : round ≡ h = ground arith in
                    let g' : lookup h t.msg_sets ≡ none = rw (← g) away in absurd (ground arith)
                | inr off ↦ (
                  s,
                  f
                      ∙ by_cases (ltb t.tolerance round) (leb (h + t.tolerance) round) (round == h)
                          near off e,
                  q,
                )
              ]
        ]
      ]
    where
      by_cases :
          (x y z : Bool) {o : Option (List Bytes)} {u : List Bytes}
          → y ≡ false
          → z ≡ false
          → o ≡ some u
          → (if x && y then none else if z then some [] else o) ≡ some u
      by_cases x y z hy hz ho = ground (arith, hy, hz, ho)

  let_through-tolerance :
      (d : DupeMap) (b : Bytes) → (let_through repr d b).tmp_map.tolerance ≡ d.tmp_map.tolerance
  unfolding let_through add add_at
  let_through-tolerance d b = refl

  update-tolerance :
      (d : DupeMap) (r : ℕ) → (dupe_map_update_height d r).tmp_map.tolerance ≡ d.tmp_map.tolerance
  unfolding dupe_map_update_height update_height
  update-tolerance d r =
      let t = d.tmp_map in
      elim (Bool-cases (ltb r t.height)) [
        | inl below ↦ rw (below, update_height)
        | inr above ↦ elim (Option-cases (lookup r t.msg_sets)) [
          | inr (s, found) ↦ rw (above, found, update_height)
          | inl away ↦
              rw (above, away, update_height)
                (clean-tolerance (record t { msg_sets = insert r [] t.msg_sets; height = r }))
        ]
      ]

-- The steps on a map that all readers of peers share, in any interleaving: each call of CanFwd looks a
-- message up in one step and, when it was not found then, stores it in a later one; the height rises.
pub data Event : Type 0 where
  looks stores : Bytes → Event
  rises : ℕ → Event

abbrev pub Below : ℕ → Event → Type 0
Below limit (looks b) = Unit {0}
Below limit (stores b) = Unit {0}
Below limit (rises round) = round < limit

-- The map, and the messages that were looked up and not found, and are still to be stored.
pub record Readers : Type 0 where
  pub dupe_map : DupeMap
  pub pending : List Bytes

-- The first of the calls that are at this message goes on.
unfoldable pub finish_call : List Bytes → Bytes → List Bytes
finish_call [] b = []
finish_call (p ∷ ps) b = let rest = finish_call ps b in if equal p b then ps else p ∷ rest

module _ (repr : Bytes → Bytes) where
  unfoldable pub act : Readers → Event → Readers
  act r (looks b) = if look_up repr r.dupe_map b then r else record r { pending = b ∷ r.pending }
  act r (stores b) =
      if has_entry r.pending b
      then record { dupe_map = let_through repr r.dupe_map b; pending = finish_call r.pending b }
      else r
  act r (rises round) = record r { dupe_map = dupe_map_update_height r.dupe_map round }

  unfoldable pub run : Readers → List Event → Readers
  run r [] = r
  run r (e ∷ es) = run (act r e) es

  act-Held :
      (h : ℕ) (b : Bytes) (e : Event) (r : Readers)
      → Below (h + r.dupe_map.tmp_map.tolerance) e
      → Held repr h b r.dupe_map
      → Held repr h b (act r e).dupe_map
        × ((act r e).dupe_map.tmp_map.tolerance ≡ r.dupe_map.tmp_map.tolerance)
  unfolding act
  act-Held h b (looks other) r lt held = elim (Bool-cases (look_up repr r.dupe_map other)) [
    | inl seen ↦ rw (seen, act) (held, refl)
    | inr new ↦ rw (new, act) (held, refl)
  ]
  act-Held h b (stores other) r lt held = elim (Bool-cases (has_entry r.pending other)) [
    | inl waits ↦
        rw (waits, act)
          (
            let_through-Held repr h b other r.dupe_map held,
            let_through-tolerance repr r.dupe_map other,
          )
    | inr idle ↦ rw (idle, act) (held, refl)
  ]
  act-Held h b (rises round) r lt held =
      (update-Held repr h b r.dupe_map round lt held, update-tolerance repr r.dupe_map round)

  run-Held :
      (h limit : ℕ) (b : Bytes) (es : List Event) (r : Readers)
      → limit ≡ h + r.dupe_map.tmp_map.tolerance
      → All (Below limit) es
      → Held repr h b r.dupe_map
      → Held repr h b (run r es).dupe_map
  unfolding run
  run-Held h limit b [] r l a held = held
  run-Held h limit b (e ∷ es) r l a held =
      let (kept, same) = act-Held h b e r (subst (λ n. Below n e) l a.0) held in
      run-Held h limit b es (act r e) (omega (arith, same)) a.1 kept

  -- Once a call of CanFwd has stored a message, no call that begins after that finds it new, however
  -- the calls for other messages and for this one are interleaved in the meantime, until the height
  -- rises to the one at which it was stored and the tolerance: it is found, and the look-up leaves no
  -- new call to store it.
  pub forwarded_once :
      (r : Readers) (b : Bytes) (es : List Event)
      → has_entry r.pending b ≡ true
      → All (Below (r.dupe_map.tmp_map.height + r.dupe_map.tmp_map.tolerance)) es
      → (look_up repr (run (act r (stores b)) es).dupe_map b ≡ true)
        × (act (run (act r (stores b)) es) (looks b) ≡ run (act r (stores b)) es)
  unfolding act
  forwarded_once r b es waits a =
      let d = r.dupe_map in
      let stored : Held repr d.tmp_map.height b (act r (stores b)).dupe_map =
        rw (waits, act) (let_through-Here repr b d) in
      let same : (act r (stores b)).dupe_map.tmp_map.tolerance ≡ d.tmp_map.tolerance =
        rw (waits, act) (let_through-tolerance repr d b) in
      let found : look_up repr (run (act r (stores b)) es).dupe_map b ≡ true =
        Held-found repr d.tmp_map.height b (run (act r (stores b)) es).dupe_map (
          run-Held d.tmp_map.height (d.tmp_map.height + d.tmp_map.tolerance) b es (act r (stores b))
            (omega (arith, same)) a stored) in
      (found, rw (act, found))

  -- Two calls that look a message up before either stores it both let it through.
  both_let_through :
      (d : DupeMap) (b : Bytes)
      → look_up repr d b ≡ false
      → (run (record { dupe_map = d; pending = [] }) (looks b ∷ looks b ∷ [])).pending ≡ b ∷ b ∷ []
  unfolding run act
  both_let_through d b new = rw (new, act, new)
