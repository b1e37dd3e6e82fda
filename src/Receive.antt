-- ===== src/Receive.antt =====
-- AdaptiveRecvByteBufAllocator: the size of the next receive buffer from what the last reads returned.
-- An index into the table is an `int`; it is not negative, and what is taken from it stops at 0 where
-- the code takes the maximum with 0. A `maximum` below 16, for which maxIndex_ is -1, is outside of
-- the model.
pub mod Adapt
pub mod Search
pub mod Bounds
pub mod Messages
use cpp_nio_socket.Common.{
  ℕ, zero, suc, ◌+◌, ◌-◌, ◌*◌, ◌/◌, ◌^◌, min, max, Bool, true, false, Option, none, some, List, [],
  ◌∷◌, ◌++◌, ltb, leb, ◌==◌, if◌then◌else◌, length, get_or, Outcome, ok, err, runtime_error,
  endless,
}

-- for (int i = 16; i < 512; i += 16), and for (int i = 512; i > 0; i <<= 1), which ends when the
-- bit that is shifted out of 2 ^ 30 makes the `int` negative.
abbrev steps : ℕ → ℕ → List ℕ
steps zero i = []
steps (suc fuel) i = i ∷ steps fuel (i + 16)

abbrev doublings : ℕ → ℕ → List ℕ
doublings zero i = []
doublings (suc fuel) i = i ∷ doublings fuel (i * 2)

abbrev pub sizes : List ℕ
sizes = steps 31 16 ++ doublings 22 512

unfoldable pub get_size : ℕ → ℕ
get_size index =
    if leb index 0
    then get_or sizes 0 0
    else if leb (length sizes) index
    then get_or sizes (length sizes - 1) 0
    else get_or sizes index 0

-- The binary search of getSizeTableIndex. `none` means that the fuel ran out.
unfoldable pub find_index : ℕ → ℕ → ℕ → ℕ → Option ℕ
find_index zero size low high = none
find_index (suc fuel) size low high =
    let mid = (low + high) / 2 in
    let a = get_or sizes mid 0 in
    let b = get_or sizes (mid + 1) 0 in
    let below = find_index fuel size low (mid - 1) in
    let above = find_index fuel size (mid + 1) high in
    if ltb low high
    then if size == a
      then some mid
      else if ltb size a
      then below
      else if ltb b size
      then above
      else some (mid + 1)
    else some low

-- Every round halves the 53 entries.
unfoldable pub get_size_table_index : ℕ → Option ℕ
unfolding find_index
get_size_table_index size = find_index 54 size 0 (length sizes - 1)

-- HandleImpl
pub record Handle : Type 0 where
  pub min_index : ℕ
  pub max_index : ℕ
  pub index : ℕ
  pub next_receive_buffer_size : ℕ
  pub decrease_now : Bool

abbrev move_to : ℕ → Handle → Handle
move_to index h = record h {
  index = index;
  next_receive_buffer_size = get_size index;
  decrease_now = false;
}

-- record(actualReadBytes)
unfoldable pub record_bytes : ℕ → Handle → Handle
record_bytes actual_read_bytes h =
    if leb actual_read_bytes (get_size (h.index - 1 - 1))
    then if h.decrease_now
      then move_to (max (h.index - 1) h.min_index) h
      else record h { decrease_now = true }
    else if leb h.next_receive_buffer_size actual_read_bytes
    then move_to (min (h.index + 4) h.max_index) h
    else h

-- AdaptiveRecvByteBufAllocator
pub record Allocator : Type 0 where
  pub min_index : ℕ
  pub max_index : ℕ
  pub initial : ℕ

abbrev pub with_indices : ℕ → ℕ → ℕ → Option ℕ → Option ℕ → Outcome Allocator
with_indices minimum initial maximum none hi = err endless
with_indices minimum initial maximum (some lo) none = err endless
with_indices minimum initial maximum (some lo) (some hi) = ok (record {
  min_index = if ltb (get_size lo) minimum then lo + 1 else lo;
  max_index = if ltb maximum (get_size hi) then hi - 1 else hi;
  initial = initial;
})

-- init, for arguments that are not negative
unfoldable pub new_allocator : ℕ → ℕ → ℕ → Outcome Allocator
unfolding get_size
new_allocator minimum initial maximum =
    if leb minimum 0
    then err runtime_error
    else if ltb initial minimum
    then err runtime_error
    else if ltb maximum initial
    then err runtime_error
    else with_indices minimum initial maximum (get_size_table_index minimum)
        (get_size_table_index maximum)

abbrev at_index : Allocator → Option ℕ → Outcome Handle
at_index a none = err endless
at_index a (some index) = ok (record {
  min_index = a.min_index;
  max_index = a.max_index;
  index = index;
  next_receive_buffer_size = get_size index;
  decrease_now = false;
})

-- newHandle
unfoldable pub new_handle : Allocator → Outcome Handle
new_handle a = at_index a (get_size_table_index a.initial)
