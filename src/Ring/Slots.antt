-- ===== src/Ring/Slots.antt =====
-- pkg/util/container/ring/buffer.go: slots that are filled up to a point, and what the loops of the ring
-- make of them.
use dusk_blockchain.Base.{
  ℕ, zero, suc, ◌+◌, ◌<◌, ◌≡◌, refl, ap, ◌∙◌, arith, Bool, false, ◌||◌, List, [], ◌∷◌, ◌++◌, map,
  Option, none, some, length, get_elem?, set, replicate, length-replicate,
}
use dusk_blockchain.Encoding.Buffer.{Bytes, equal}
use dusk_blockchain.Ring.{has_item, take_items}

unfoldable pub waits : Bytes → List Bytes → Bool
waits x [] = false
waits x (y ∷ ys) = equal y x || waits x ys

abbrev pub slots_of : List Bytes → ℕ → List (Option Bytes)
slots_of xs room = map some xs ++ replicate room none

pub has_item-slots_of :
    (xs : List Bytes) (room : ℕ) (x : Bytes) → has_item (slots_of xs room) x ≡ waits x xs
unfolding has_item waits
has_item-slots_of [] zero x = refl
has_item-slots_of [] (suc room) x = refl
has_item-slots_of (y ∷ ys) room x = ap (λ b. equal y x || b) (has_item-slots_of ys room x)

pub length-slots_of : (xs : List Bytes) (room : ℕ) → length (slots_of xs room) ≡ length xs + room
length-slots_of [] room = length-replicate room none ∙ omega arith
length-slots_of (x ∷ xs) room = ap suc (length-slots_of xs room) ∙ omega arith

pub get_elem?-last :
    (xs : List Bytes) (room : ℕ) → get_elem? (slots_of xs (suc room)) (length xs) ≡ some none
get_elem?-last [] room = refl
get_elem?-last (x ∷ xs) room = get_elem?-last xs room

pub set-last :
    (xs : List Bytes) (room : ℕ) (x : Bytes)
    → set (slots_of xs (suc room)) (length xs) (some x) ≡ slots_of (xs ++ (x ∷ [])) room
set-last [] room x = refl
set-last (y ∷ ys) room x = ap (λ s. some y ∷ s) (set-last ys room x)

pub get_elem?-inside :
    (xs : List Bytes) (room i : ℕ)
    → i < length xs
    → (y : Bytes) × (get_elem? (slots_of xs room) i ≡ some (some y))
get_elem?-inside [] room i lt = absurd (omega arith)
get_elem?-inside (x ∷ xs) room zero lt = (x, refl)
get_elem?-inside (x ∷ xs) room (suc i) lt = get_elem?-inside xs room i (omega arith)

pub set-inside :
    (xs : List Bytes) (room i : ℕ) (x : Bytes)
    → i < length xs
    → set (slots_of xs room) i (some x) ≡ slots_of (set xs i x) room
set-inside [] room i x lt = absurd (omega arith)
set-inside (y ∷ ys) room zero x lt = refl
set-inside (y ∷ ys) room (suc i) x lt = ap (λ s. some y ∷ s) (set-inside ys room i x (omega arith))

pub taken : (xs : List Bytes) (room : ℕ) → (take_items (slots_of xs room)).0 ≡ xs
unfolding take_items
taken [] zero = refl
taken [] (suc room) = refl
taken (x ∷ xs) room = ap (λ ys. x ∷ ys) (taken xs room)

pub left_over :
    (xs : List Bytes) (room : ℕ)
    → (take_items (slots_of xs room)).1 ≡ slots_of [] (length xs + room)
unfolding take_items
left_over [] zero = refl
left_over [] (suc room) =
    let same : suc room ≡ 0 + suc room = omega arith in ap (λ n. replicate n none) same
left_over (x ∷ xs) room =
    let same : suc (length xs + room) ≡ suc (length xs) + room = omega arith in
    ap (λ s. none ∷ s) (left_over xs room) ∙ ap (λ n. replicate n none) same
