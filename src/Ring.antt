-- ===== src/Ring.antt =====
-- pkg/util/container/ring/buffer.go: the ring of messages that wait to be sent to a peer. A slot is
-- `none` while nil, and the write index is kept as one more than it is, so that -1 is 0. The condition
-- variables only tell a waiting reader to look again.
pub mod Slots
pub mod Refinement
use dusk_blockchain.Base.{
  ℕ, zero, suc, Bool, true, false, ◌&&◌, ◌||◌, not, ◌==◌, if◌then◌else◌, List, [], ◌∷◌, Option,
  none, some, length, get_elem?, set, replicate,
}
use dusk_blockchain.Encoding.Buffer.{Bytes, equal}

pub record Buffer : Type 0 where
  pub items : List (Option Bytes)
  pub write_index : ℕ
  pub close : Bool

unfoldable pub new_buffer : ℕ → Buffer
new_buffer n = record { items = replicate n none; write_index = 0; close = false }

-- The loop of Has, which ends at the first slot that is nil.
unfoldable pub has_item : List (Option Bytes) → Bytes → Bool
has_item [] item = false
has_item (none ∷ slots) item = false
has_item (some existing ∷ slots) item = equal existing item || has_item slots item

-- A ring without slots panics, which is `none`.
unfoldable pub store_at : Buffer → Bytes → ℕ → Option Buffer
store_at r item i = elim (get_elem? r.items i) [
  | none ↦ none
  | some old ↦ some (record r { items = set r.items i (some item); write_index = suc i })
]

-- The index wraps at the end.
unfoldable pub store : Buffer → Bytes → Option Buffer
store r item = store_at r item (if r.write_index == length r.items then 0 else r.write_index)

unfoldable pub put : Buffer → Option Bytes → Option Buffer
put r none = some r
put r (some item) =
    if r.close then some r else if has_item r.items item then some r else store r item

-- The items up to the first slot that is nil, and the slots with these set to nil.
unfoldable pub take_items : List (Option Bytes) → List Bytes × List (Option Bytes)
take_items [] = ([], [])
take_items (none ∷ slots) = ([], none ∷ slots)
take_items (some item ∷ slots) = let more = take_items slots in (item ∷ more.0, none ∷ more.1)

-- The ring after the call, the items, and whether the ring is closed; `none` while the call waits.
unfoldable pub get_all : Buffer → Option (Buffer × List Bytes × Bool)
get_all r =
    if r.write_index == 0 && not r.close
    then none
    else some (
      record r { items = (take_items r.items).1; write_index = 0 },
      (take_items r.items).0,
      r.close,
    )

unfoldable pub close_ring : Buffer → Buffer
close_ring r = record r { close = true }
