-- ===== src/Buffer/Valid.antt =====
-- The invariant of a buffer.
use cpp_nio_socket.Common.{ℕ, ◌≤◌, ◌≡◌, length, List}
use cpp_nio_socket.Buffer.{CharBuf, char_buf_max_capacity, readable_bytes}
use cpp_nio_socket.Buffer.Window.{window}

-- 0 <= readerIndex <= writerIndex <= capacity <= maxCapacity, and the array has `capacity` chars.
pub record IsValid (b : CharBuf) : Type 0 where
  pub reader_le : b.reader_index ≤ b.writer_index
  pub writer_le : b.writer_index ≤ b.capacity
  pub capacity_le : b.capacity ≤ b.max_capacity
  pub fits_int : b.max_capacity ≤ char_buf_max_capacity
  pub allocated : length b.array ≡ b.capacity

-- The bytes that have been written and not yet read.
abbrev pub contents : CharBuf → List ℕ
contents b = window b.array b.reader_index (readable_bytes b)
