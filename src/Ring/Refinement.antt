-- ===== src/Ring/Refinement.antt =====
-- pkg/util/container/ring/buffer.go against what it promises: a store of at most so many different
-- messages, in which a message beyond that takes the place of another.
use dusk_blockchain.Base.{
  ℕ, suc, ◌+◌, ◌-◌, ◌<◌, ◌≤◌, ◌≡◌, refl, ap, ◌∙◌, arith, true, false, ◌&&◌, not, ◌==◌, ltb,
  if◌then◌else◌, else_taken, Bool-cases, inl, inr, List, [], ◌∷◌, ◌++◌, Option, none, some, length,
  get_elem?, set, length-append, length-set,
}
use dusk_blockchain.Encoding.Buffer.{Bytes}
use dusk_blockchain.Ring.{Buffer, new_buffer, has_item, store, store_at, put, take_items, get_all}
use dusk_blockchain.Ring.Slots.{
  waits, slots_of, has_item-slots_of, length-slots_of, get_elem?-last, set-last, get_elem?-inside,
  set-inside, taken, left_over,
}

-- The messages that wait, and the place after the one that came last.
pub record Pending : Type 0 where
  pub messages : List Bytes
  pub next : ℕ

-- A new message goes to the end while there is room, and then from the front over the older ones.
unfoldable pub enqueue : ℕ → Bytes → Pending → Pending
enqueue n x a =
    if waits x a.messages
    then a
    else if ltb (length a.messages) n
    then record { messages = a.messages ++ (x ∷ []); next = suc (length a.messages) }
    else let i = if a.next == n then 0 else a.next in
      record { messages = set a.messages i x; next = suc i }

abbrev pub nothing_pending : Pending
nothing_pending = record { messages = []; next = 0 }

pub record Represents (n : ℕ) (r : Buffer) (a : Pending) : Type 0 where
  pub room : ℕ
  pub fits : length a.messages + room ≡ n
  pub slots : r.items ≡ slots_of a.messages room
  pub index : r.write_index ≡ a.next
  pub low : a.next ≤ n
  pub filling : 0 < room → a.next ≡ length a.messages

store-at :
    (r : Buffer) (x : Bytes) (i : ℕ) (old : Option Bytes)
    → (if r.write_index == length r.items then 0 else r.write_index) ≡ i
    → get_elem? r.items i ≡ some old
    → store r x ≡ some (record r { items = set r.items i (some x); write_index = suc i })
unfolding store store_at
store-at r x i old e g = ap (store_at r x) e ∙ rw (store_at, g)

-- A new message while there is room.
store-appends :
    (n : ℕ) (r : Buffer) (a : Pending) (x : Bytes) (room : ℕ) (s : Represents n r a)
    → s.room ≡ suc room
    → (r' : Buffer) × (store r x ≡ some r')
      × (r'.close ≡ r.close)
      × Represents n r'
          (record { messages = a.messages ++ (x ∷ []); next = suc (length a.messages) })
store-appends n r a x room s e =
    let full : r.items ≡ slots_of a.messages (suc room) = s.slots ∙ ap (slots_of a.messages) e in
    let size : length r.items ≡ n =
      ap length s.slots ∙ length-slots_of a.messages s.room ∙ s.fits in
    let at : r.write_index ≡ length a.messages = s.index ∙ s.filling (omega arith) in
    let off : (r.write_index == length r.items) ≡ false = let f = s.fits in ground arith in
    let more = length-append a.messages (x ∷ []) in
    (
      record r {
        items = set r.items (length a.messages) (some x);
        write_index = suc (length a.messages);
      },
      store-at r x (length a.messages) none (rw off at) (rw full (get_elem?-last a.messages room)),
      refl,
      record {
        room = room;
        fits = let f = s.fits in omega arith;
        slots = rw full (set-last a.messages room x);
        index = refl;
        low = let f = s.fits in omega arith;
        filling = λ h. omega arith;
      },
    )

-- A new message when there is none.
store-replaces :
    (n : ℕ) (r : Buffer) (a : Pending) (x : Bytes) (s : Represents n r a)
    → 0 < n
    → s.room ≡ 0
    → (r' : Buffer) × (store r x ≡ some r')
      × (r'.close ≡ r.close)
      × Represents n r' (record {
        messages = set a.messages (if a.next == n then 0 else a.next) x;
        next = suc (if a.next == n then 0 else a.next);
      })
store-replaces n r a x s positive e =
    let i = if a.next == n then 0 else a.next in
    let inside : i < n = let l = s.low in ground arith in
    let size : length r.items ≡ n =
      ap length s.slots ∙ length-slots_of a.messages s.room ∙ s.fits in
    let long : length a.messages ≡ n = let f = s.fits in omega arith in
    let (old, g) = get_elem?-inside a.messages s.room i (omega arith) in
    let kept = length-set a.messages i x in
    (
      record r { items = set r.items i (some x); write_index = suc i },
      store-at r x i (some old) (rw (size, s.index)) (ap (λ v. get_elem? v i) s.slots ∙ g),
      refl,
      record {
        room = s.room;
        fits = let f = s.fits in omega arith;
        slots = rw s.slots (set-inside a.messages s.room i x (omega arith));
        index = refl;
        low = omega arith;
        filling = λ h. absurd (omega arith);
      },
    )

-- A ring with room for at least one message that is open stands for its pending messages: what is put
-- goes into them as a message that waits already, that has room, or that takes the place of another.
pub put-Represents :
    (n : ℕ) (r : Buffer) (a : Pending) (x : Bytes)
    → 0 < n
    → r.close ≡ false
    → Represents n r a
    → (r' : Buffer) × (put r (some x) ≡ some r')
      × (r'.close ≡ false)
      × Represents n r' (enqueue n x a)
unfolding put enqueue
put-Represents n r a x positive open_ring s =
    let seen : has_item r.items x ≡ waits x a.messages =
      ap (λ v. has_item v x) s.slots ∙ has_item-slots_of a.messages s.room x in
    let entered =
      else_taken r.close (some r) (if has_item r.items x then some r else store r x) open_ring in
    elim (Bool-cases (waits x a.messages)) [
      | inl here ↦ (r, entered ∙ rw (seen, here), open_ring, rw here s)
      | inr away ↦ elim (Bool-cases (ltb (length a.messages) n)) [
        | inl roomy ↦
            let room : s.room ≡ suc (s.room - 1) = let f = s.fits in ground arith in
            let (r', e, closed, rep) = store-appends n r a x (s.room - 1) s room in
            (r', entered ∙ rw (seen, away) e, closed ∙ open_ring, rw (away, roomy) rep)
        | inr full ↦
            let none_left : s.room ≡ 0 = let f = s.fits in ground arith in
            let (r', e, closed, rep) = store-replaces n r a x s positive none_left in
            (r', entered ∙ rw (seen, away) e, closed ∙ open_ring, rw (away, full) rep)
      ]
    ]

emptied-Represents :
    (n : ℕ) (r : Buffer) (a : Pending)
    → Represents n r a
    → Represents n (record r { items = (take_items r.items).1; write_index = 0 }) nothing_pending
emptied-Represents n r a s = record {
  room = n;
  fits = omega arith;
  slots =
      ap (λ v. (take_items v).1) s.slots ∙ left_over a.messages s.room ∙ ap (slots_of []) s.fits;
  index = refl;
  low = omega arith;
  filling = λ h. refl;
}

-- What a reader takes at once, while something waits.
unfoldable pub dequeue : Pending → Option (Pending × List Bytes)
dequeue a = if a.next == 0 then none else some (nothing_pending, a.messages)

get_all-waits : (r : Buffer) → r.close ≡ false → (r.write_index == 0) ≡ true → get_all r ≡ none
unfolding get_all
get_all-waits r open_ring z =
    let both : (r.write_index == 0 && not r.close) ≡ true = ground arith in
    ap
      (λ b.
        if b
        then none
        else some (
          record r { items = (take_items r.items).1; write_index = 0 },
          (take_items r.items).0,
          r.close,
        ))
      both

get_all-takes :
    (r : Buffer)
    → (r.write_index == 0) ≡ false
    → get_all r
      ≡ some (
        record r { items = (take_items r.items).1; write_index = 0 },
        (take_items r.items).0,
        r.close,
      )
unfolding get_all
get_all-takes r z =
    else_taken (r.write_index == 0 && not r.close) none
      (some (
        record r { items = (take_items r.items).1; write_index = 0 },
        (take_items r.items).0,
        r.close,
      ))
      (rw z)

unfoldable pub add_delivery : List Bytes → Option (List (List Bytes)) → Option (List (List Bytes))
add_delivery items none = none
add_delivery items (some more) = some (items ∷ more)

pub data Use : Type 0 where
  puts : Bytes → Use
  gets : Use

-- What the reads of a run give, on the ring and on the pending messages; `none` when a read waits.
unfoldable pub deliveries : List Use → Buffer → Option (List (List Bytes))
deliveries [] r = some []
deliveries (puts x ∷ uses) r = elim (put r (some x)) [ none ↦ none | some r' ↦ deliveries uses r' ]
deliveries (gets ∷ uses) r = elim (get_all r) [
  | none ↦ none
  | some (r', items, closed) ↦ add_delivery items (deliveries uses r')
]

unfoldable pub specified : ℕ → List Use → Pending → Option (List (List Bytes))
specified n [] a = some []
specified n (puts x ∷ uses) a = specified n uses (enqueue n x a)
specified n (gets ∷ uses) a = elim (dequeue a) [
  | none ↦ none
  | some (a', items) ↦ add_delivery items (specified n uses a')
]

refines :
    (n : ℕ) (uses : List Use) (r : Buffer) (a : Pending)
    → 0 < n
    → r.close ≡ false
    → Represents n r a
    → deliveries uses r ≡ specified n uses a
unfolding deliveries specified dequeue
refines n [] r a positive open_ring s = refl
refines n (puts x ∷ uses) r a positive open_ring s =
    let (r', e, still_open, rep) = put-Represents n r a x positive open_ring s in
    rw (deliveries, e) (refines n uses r' (enqueue n x a) positive still_open rep)
refines n (gets ∷ uses) r a positive open_ring s = elim (Bool-cases (a.next == 0)) [
  | inl idle ↦
      let waiting : (r.write_index == 0) ≡ true = rw s.index idle in
      rw (deliveries, get_all-waits r open_ring waiting, specified, dequeue, idle)
  | inr busy ↦
      let holding : (r.write_index == 0) ≡ false = rw s.index busy in
      let r' = record r { items = (take_items r.items).1; write_index = 0 } in
      let took : (take_items r.items).0 ≡ a.messages =
        ap (λ v. (take_items v).0) s.slots ∙ taken a.messages s.room in
      rw (deliveries, get_all-takes r holding, specified, dequeue, busy)
        (ap (λ xs. add_delivery xs (deliveries uses r')) took
          ∙ ap (add_delivery a.messages)
              (refines n uses r' nothing_pending positive open_ring (emptied-Represents n r a s)))
]

-- Whatever is put into a new ring with at least one slot, and whenever it is read, the reads give what
-- they give on the pending messages.
pub new_buffer-refines :
    (n : ℕ) (uses : List Use)
    → 0 < n
    → deliveries uses (new_buffer n) ≡ specified n uses nothing_pending
unfolding new_buffer
new_buffer-refines n uses positive =
    refines n uses (new_buffer n) nothing_pending positive refl (record {
      room = n;
      fits = omega arith;
      slots = refl;
      index = refl;
      low = omega arith;
      filling = λ h. refl;
    })
