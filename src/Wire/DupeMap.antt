-- ===== src/Wire/DupeMap.antt =====
-- pkg/p2p/peer/dupemap and pkg/util/nativeutils/hashset: which messages a peer has seen, by height, so
-- that it does not forward one twice. Heights are uint64. The hash of hashset is a parameter, and a set
-- of hashes is a list of them.
pub mod Forwarding
use dusk_blockchain.Base.{
  ℕ, ◌+◌, ◌-◌, ◌%◌, ◌^◌, Bool, true, false, not, ◌||◌, ltb, leb, if◌then◌else◌, List, [], ◌∷◌,
  Option, none, some, length,
}
use dusk_blockchain.Base.Assoc.{nat_key, lookup, insert}
use dusk_blockchain.Encoding.Buffer.{Bytes, equal}

unfoldable pub has_entry : List Bytes → Bytes → Bool
has_entry [] k = false
has_entry (e ∷ es) k = equal e k || has_entry es k

-- The levels of a map that a test keeps.
unfoldable pub keep_levels : (ℕ → Bool) → List (ℕ × List Bytes) → List (ℕ × List Bytes)
keep_levels keep [] = []
keep_levels keep ((r, s) ∷ m) =
    let rest = keep_levels keep m in if keep r then (r, s) ∷ rest else rest

pub record TmpMap : Type 0 where
  pub height : ℕ
  pub msg_sets : List (ℕ × List Bytes)
  pub tolerance : ℕ

unfoldable pub new_tmp_map : ℕ → TmpMap
new_tmp_map tolerance = record { height = 0; msg_sets = []; tolerance = tolerance }

unfoldable pub clean : TmpMap → TmpMap
clean t =
    if leb t.height t.tolerance
    then t
    else record t { msg_sets = keep_levels (λ r. not (leb r (t.height - t.tolerance))) t.msg_sets }

unfoldable pub update_height : TmpMap → ℕ → TmpMap
unfolding clean
update_height t round = if ltb round t.height then t else elim (lookup round t.msg_sets) [
  | some s ↦ t
  | none ↦ clean (record t { msg_sets = insert round [] t.msg_sets; height = round })
]

unfoldable pub delete_before : TmpMap → ℕ → TmpMap
delete_before t height =
    if leb height ((t.height + 2 ^ 64 - t.tolerance) % 2 ^ 64)
    then t
    else record t { msg_sets = keep_levels (λ level. not (ltb level height)) t.msg_sets }

unfoldable pub tmp_map_set_tolerance : TmpMap → ℕ → TmpMap
tmp_map_set_tolerance t tolerance = delete_before t ((t.height + 2 ^ 64 - tolerance) % 2 ^ 64)

pub record DupeMap : Type 0 where
  pub round : ℕ
  pub tmp_map : TmpMap
  pub tolerance : ℕ

abbrev pub default_tolerance : ℕ
default_tolerance = 3

unfoldable pub new_dupe_map : ℕ → DupeMap
new_dupe_map round = record {
  round = round;
  tmp_map = new_tmp_map default_tolerance;
  tolerance = default_tolerance;
}

unfoldable pub dupe_map_update_height : DupeMap → ℕ → DupeMap
dupe_map_update_height d round = record d { tmp_map = update_height d.tmp_map round }

unfoldable pub set_tolerance : DupeMap → ℕ → DupeMap
set_tolerance d round_nr =
    let threshold = (d.tmp_map.height + 2 ^ 64 - round_nr) % 2 ^ 64 in
    record d { tmp_map = tmp_map_set_tolerance (delete_before d.tmp_map threshold) round_nr }

-- The set of a level, or a new one.
unfoldable pub set_at : TmpMap → ℕ → List Bytes
set_at t round = elim (lookup round t.msg_sets) [ none ↦ [] | some s ↦ s ]

module _ (repr : Bytes → Bytes) where
  unfoldable pub set_has : List Bytes → Bytes → Bool
  set_has s payload = has_entry s (repr payload)

  -- The set after the call, and whether the entry was there already.
  unfoldable pub set_add : List Bytes → Bytes → List Bytes × Bool
  set_add s payload = if has_entry s (repr payload) then (s, true) else (repr payload ∷ s, false)

  unfoldable pub has_at : TmpMap → Bytes → ℕ → Bool
  has_at t b height = elim (lookup height t.msg_sets) [ none ↦ false | some s ↦ set_has s b ]

  -- The loop of HasAnywhere over the levels.
  unfoldable pub has_among : TmpMap → Bytes → List (ℕ × List Bytes) → Bool
  has_among t b [] = false
  has_among t b ((k, s) ∷ m) = has_at t b k || has_among t b m

  unfoldable pub has_anywhere : TmpMap → Bytes → Bool
  has_anywhere t b = has_among t b t.msg_sets

  unfoldable pub add_at : TmpMap → Bytes → ℕ → TmpMap × Bool
  add_at t b round =
      let (s', found) = set_add (set_at t round) b in
      (record t { msg_sets = insert round s' t.msg_sets }, found)

  unfoldable pub add : TmpMap → Bytes → TmpMap × Bool
  add t b = add_at t b t.height

  -- CanFwd takes the lock of the map twice, and other readers of peers may come between: it looks for
  -- the message, and stores it when it did not find it.
  unfoldable pub look_up : DupeMap → Bytes → Bool
  look_up d payload = has_anywhere d.tmp_map payload

  unfoldable pub let_through : DupeMap → Bytes → DupeMap
  let_through d payload = record d { tmp_map = (add d.tmp_map payload).0 }

  -- A call that no other comes between.
  unfoldable pub can_fwd : DupeMap → Bytes → DupeMap × Bool
  can_fwd d payload = if look_up d payload then (d, false) else (let_through d payload, true)
