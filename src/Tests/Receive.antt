-- ===== src/Tests/Receive.antt =====
-- The allocator of receive buffers with its default bounds.
use cpp_nio_socket.Common.{ℕ, ◌≡◌, refl, arith, ok, some, true, false}
use cpp_nio_socket.Receive.{
  Allocator, Handle, get_size, get_size_table_index, new_allocator, new_handle, record_bytes,
  find_index,
}
use cpp_nio_socket.Receive.Search.{Near, get_size_table_index_lem}
use cpp_nio_socket.Receive.Bounds.{LeastFrom, GreatestTo, new_allocator_lem}
use cpp_nio_socket.Receive.Messages.{
  MessageLimits, new_message_handle, begin_read, record_read, Recorded, record_read_lem,
}
use cpp_nio_socket.Receive.Adapt.{IsHandle, Adapts, record_bytes-Adapts}

abbrev by_default : Allocator
by_default = record { min_index = 32; max_index = 38; initial = 8192 }

abbrev handle : Handle
handle = record {
  min_index = 32;
  max_index = 38;
  index = 35;
  next_receive_buffer_size = 8192;
  decrease_now = false;
}

makes_allocator : new_allocator 1024 8192 65536 ≡ ok by_default
unfolding new_allocator get_size_table_index find_index
makes_allocator = refl

makes_handle : new_handle by_default ≡ ok handle
unfolding new_handle get_size_table_index find_index get_size
makes_handle = refl

handle-IsHandle : IsHandle handle
unfolding get_size
handle-IsHandle = record { lower = omega arith; upper = omega arith; guess = refl }

grows : (record_bytes 8192 handle).next_receive_buffer_size ≡ 65536
unfolding record_bytes get_size
grows = refl

record_bytes-Adapts_example : Adapts 8192 handle (record_bytes 8192 handle)
record_bytes-Adapts_example = record_bytes-Adapts 8192 handle handle-IsHandle

get_size_table_index_lem_example : (i : ℕ) × (get_size_table_index 1000 ≡ some i) × Near 1000 i
get_size_table_index_lem_example = get_size_table_index_lem 1000

new_allocator_lem_example :
    (a : Allocator) × (new_allocator 1000 1500 1500 ≡ ok a)
    × LeastFrom 1000 a.min_index
    × GreatestTo 1500 a.max_index
    × (a.initial ≡ 1500)
new_allocator_lem_example =
    new_allocator_lem 1000 1500 1500 (omega arith) (omega arith) (omega arith) (omega arith)
      (omega arith)

-- The first guess of 2048 is more than the maximum of 1500.
starts_above_maximum :
    (a : Allocator) × (h : Handle) × (new_allocator 1000 1500 1500 ≡ ok a)
    × (new_handle a ≡ ok h)
    × (h.max_index ≡ 32)
    × (h.index ≡ 33)
    × (h.next_receive_buffer_size ≡ 2048)
unfolding new_allocator new_handle get_size_table_index find_index get_size
starts_above_maximum = (_, _, refl, refl, refl, refl, refl)

abbrev one_message : MessageLimits
one_message = record { max_messages_per_read = 1; respect_maybe_more_data = true }

record_read_lem_example :
    Recorded 8192 8192 handle
      (record_read 8192
        (begin_read one_message 8192 (new_message_handle one_message handle))).adaptive
record_read_lem_example =
    record_read_lem one_message 8192 8192 (new_message_handle one_message handle) handle-IsHandle
