-- ===== src/Buffer/Discard.antt =====
-- AbstractCharBuf::discardReadBytes, discardSomeReadBytes and adjustMarkers.
use cpp_nio_socket.Common.{
  ℕ, ◌-◌, ◌/◌, pos, ◌-ℤ◌, leb_ℤ, ltb, leb, ◌==◌, if◌then◌else◌, M, ok, ◌>>◌, update, refuse_if,
  undefined,
}
use cpp_nio_socket.Memory.{set_chars, get_chars}
use cpp_nio_socket.Buffer.{CharBuf, check_index, readable_bytes}
use cpp_nio_socket.Buffer.Access.{in_array}

unfoldable pub adjust_markers : ℕ → CharBuf → CharBuf
adjust_markers decrement b =
    if leb b.marked_reader_index decrement
    then record b {
      marked_reader_index = 0;
      marked_writer_index =
          if leb_ℤ b.marked_writer_index (pos decrement)
          then pos 0
          else b.marked_writer_index -ℤ pos decrement;
    }
    else record b {
      marked_reader_index = b.marked_reader_index - decrement;
      marked_writer_index = b.marked_writer_index -ℤ pos decrement;
    }

-- setChars(0, *this, src_index, length): getChars checks the source and calls `memcpy`, which is
-- undefined where the source and the target overlap.
unfoldable pub move_to_front : ℕ → ℕ → M CharBuf (Unit {0})
move_to_front src_index n = do
  check_index src_index n
  in_array src_index n
  refuse_if (ltb src_index n) undefined
  update (λ b. record b { array = set_chars b.array 0 (get_chars b.array src_index n) })

-- The tail that both functions share: the unread bytes go to the front.
abbrev pub compact : M CharBuf (Unit {0})
compact b =
    (do
      move_to_front b.reader_index (readable_bytes b)
      update (λ b. record b { writer_index = b.writer_index - b.reader_index })
      update (λ b. adjust_markers b.reader_index b)
      update (λ b. record b { reader_index = 0 }))
      b

-- Everything has been read.
abbrev pub rewind : CharBuf → CharBuf
rewind b = record (adjust_markers b.reader_index b) { writer_index = 0; reader_index = 0 }

unfoldable pub discard_read_bytes : M CharBuf (Unit {0})
discard_read_bytes b =
    if b.reader_index == 0
    then (ok tt, b)
    else if b.reader_index == b.writer_index
    then (ok tt, rewind b)
    else compact b

unfoldable pub discard_some_read_bytes : M CharBuf (Unit {0})
discard_some_read_bytes b =
    if b.reader_index == 0
    then (ok tt, b)
    else if b.reader_index == b.writer_index
    then (ok tt, rewind b)
    else if leb (b.capacity / 2) b.reader_index
    then compact b
    else (ok tt, b)
