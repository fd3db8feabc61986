-- ===== src/Transactions/Slices.antt =====
-- What pkg/core/transactions writes and reads as a count and so many items.
use dusk_blockchain.Base.{
  Bool, true, false, ℕ, ◌^◌, ◌≤◌, ◌≡◌, arith, List, length, ltb, if◌then◌else◌,
}
use dusk_blockchain.Encoding.Buffer.{M, panicked, fail, ◌>>=◌, ◌>>◌}
use dusk_blockchain.Encoding.Codec.{write_each, read_times}
use dusk_blockchain.Encoding.Reader.{
  Items, Filled, filled, read_var_int_eof, each-Reads, Reads, Reads-then, May-front,
}
use dusk_blockchain.Encoding.VarInt.{read_var_int, write_var_int}
use dusk_blockchain.Encoding.VarInt.RoundTrip.{var_int-RoundTrips}

-- `make` panics on a slice of more than 2^48 bytes, the address space of a 64-bit platform: so many
-- pointers of eight bytes are the most.
abbrev pub max_pointers : ℕ
max_pointers = 2 ^ 45

-- The slice is made in full before its first item is read.
unfoldable pub read_items : {A : Type 0} → M A → ℕ → M (List A)
read_items r n = if ltb max_pointers n then fail panicked else read_times r n

unfoldable pub read_slice : {A : Type 0} → M A → M (List A)
read_slice r = read_var_int >>= read_items r

unfoldable pub write_slice : {A : Type 0} → (A → M (Unit {0})) → List A → M (Unit {0})
write_slice w xs = write_var_int (length xs) >> write_each w xs

pub read_items_few :
    {A : Type 0} (r : M A) (n : ℕ) → n ≤ max_pointers → read_items r n ≡ read_times r n
unfolding read_items
read_items_few r n h = ground arith

items-Reads :
    {A : Type 0} (at_end : Bool) (w : A → M (Unit {0})) (r : M A) (xs : List A)
    → length xs ≤ max_pointers
    → Items at_end w r xs
    → Reads at_end (write_each w xs) (read_items r (length xs)) xs
items-Reads at_end w r xs few h = rw (read_items_few r (length xs) few) (each-Reads at_end w r xs h)

-- The count is there whatever the items are, which stand at the end when the slice does.
pub slice-Filled :
    {A : Type 0} (at_end : Bool) (w : A → M (Unit {0})) (r : M A) (xs : List A)
    → length xs ≤ max_pointers
    → Items at_end w r xs
    → Filled at_end (write_slice w xs) (read_slice r) xs
unfolding read_slice write_slice Reads-then
slice-Filled at_end w r xs few h =
    let count = filled true (var_int-RoundTrips (length xs) (omega arith)) read_var_int_eof in
    let items = items-Reads at_end w r xs few h in
    record {
      trip = Reads-then count.trip (read_items r) items (λ rest m. tt);
      more = May-front false count.trip.bytes items.bytes count.more;
    }
