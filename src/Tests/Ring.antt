-- ===== src/Tests/Ring.antt =====
-- A concrete run of the ring of pkg/util/container/ring: it has two slots, and the third message takes
-- the place of the first.
use dusk_blockchain.Base.{◌≡◌, refl, arith, List, [], ◌∷◌, some}
use dusk_blockchain.Encoding.Buffer.{equal}
use dusk_blockchain.Ring.{new_buffer}
use dusk_blockchain.Ring.Refinement.{
  Use, puts, gets, deliveries, specified, nothing_pending, new_buffer-refines, enqueue, dequeue,
  add_delivery,
}
use dusk_blockchain.Ring.Slots.{waits}

abbrev uses : List Use
uses =
    puts (1 ∷ []) ∷ puts (2 ∷ []) ∷ puts (1 ∷ []) ∷ puts (3 ∷ []) ∷ gets ∷ puts (4 ∷ []) ∷ gets ∷ []

new_buffer-refines_example : deliveries uses (new_buffer 2) ≡ specified 2 uses nothing_pending
new_buffer-refines_example = new_buffer-refines 2 uses (ground arith)

third_replaces_first :
    specified 2 uses nothing_pending ≡ some (((3 ∷ []) ∷ (2 ∷ []) ∷ []) ∷ ((4 ∷ []) ∷ []) ∷ [])
unfolding specified waits enqueue dequeue add_delivery equal
third_replaces_first = refl
