-- ===== src/Buffer/Fifo.antt =====
-- AbstractCharBuf as a queue of bytes: the read accessors take from the front of what is readable.
use cpp_nio_socket.Common.{
  ℕ, ◌+◌, ◌-◌, ◌^◌, ◌≤◌, ◌<◌, ◌≡◌, refl, sym, ap, ◌∙◌, arith, length, drop, pos, ok, err,
  runtime_error, lt→ltb, le→ltb, lt→leb,
}
use cpp_nio_socket.Memory.{Width, size}
use cpp_nio_socket.Memory.Laws.{decode}
use cpp_nio_socket.Buffer.{CharBuf, readable_bytes, check_readable, skip_bytes}
use cpp_nio_socket.Buffer.Access.{raw_get, read_field}
use cpp_nio_socket.Buffer.Window.{window, drop-window, get_field-window}
use cpp_nio_socket.Buffer.Valid.{IsValid, contents}
use cpp_nio_socket.Buffer.Append.{length-contents}

-- The reader has moved on by `n`.
abbrev pub passed : CharBuf → ℕ → CharBuf
passed b n = record b { reader_index = b.reader_index + n }

passed-IsValid :
    (b : CharBuf) (n : ℕ) → IsValid b → n ≤ b.writer_index - b.reader_index → IsValid (passed b n)
passed-IsValid b n v h = record {
  reader_le = omega arith;
  writer_le = v.writer_le;
  capacity_le = v.capacity_le;
  fits_int = v.fits_int;
  allocated = v.allocated;
}

contents-passed :
    (b : CharBuf) (n : ℕ)
    → n ≤ b.writer_index - b.reader_index
    → contents (passed b n) ≡ drop n (contents b)
unfolding readable_bytes
contents-passed b n h =
    let e : b.writer_index - (b.reader_index + n) ≡ b.writer_index - b.reader_index - n =
      omega arith in
    ap (window b.array (b.reader_index + n)) e
    ∙ sym (drop-window b.array b.reader_index (b.writer_index - b.reader_index) n h)

check_readable_enough :
    (b : CharBuf) (n : ℕ)
    → IsValid b
    → n ≤ b.writer_index - b.reader_index
    → check_readable (pos n) b ≡ (ok tt, b)
unfolding check_readable
check_readable_enough b n v h =
    rw
      (
        lt→leb (2 ^ 31) (b.reader_index + n) (omega arith),
        le→ltb b.writer_index (b.reader_index + n) (omega arith),
      )
      refl

-- With enough bytes readable in a valid buffer, the read accessor of any width returns the
-- big-endian value at the front of what is readable, takes exactly its bytes, and keeps the buffer
-- valid.
pub read_field_lem :
    (w : Width) (b : CharBuf)
    → IsValid b
    → size w ≤ length (contents b)
    → (b' : CharBuf) × (read_field w b ≡ (ok (decode w (contents b)), b'))
      × IsValid b'
      × (contents b' ≡ drop (size w) (contents b))
unfolding read_field raw_get
read_field_lem w b v enough =
    let n : size w ≤ b.writer_index - b.reader_index = omega (arith, length-contents b v) in
    (
      passed b (size w),
      rw
          (
            check_readable_enough b (size w) v n,
            le→ltb (length b.array) (b.reader_index + size w) (omega (arith, v.allocated)),
            get_field-window w b.array b.reader_index (readable_bytes b)
                (unfold readable_bytes in n) (unfold readable_bytes in omega (arith, v.allocated)),
          )
          refl,
      passed-IsValid b (size w) v n,
      contents-passed b (size w) n,
    )

-- With fewer bytes readable in a valid buffer than the width, and the index after the field below 2
-- ^ 31, the read accessor throws and leaves the buffer exactly as it was.
pub read_field_short :
    (w : Width) (b : CharBuf)
    → IsValid b
    → b.reader_index + size w < 2 ^ 31
    → length (contents b) < size w
    → read_field w b ≡ (err runtime_error, b)
unfolding read_field check_readable
read_field_short w b v small short =
    let n : b.writer_index - b.reader_index < size w = omega (arith, length-contents b v) in
    rw
      (
        lt→leb (2 ^ 31) (b.reader_index + size w) small,
        lt→ltb b.writer_index (b.reader_index + size w) (omega arith),
      )
      refl

-- Skipping at most as many bytes as are readable in a valid buffer returns normally, moves only the
-- reader, keeps the buffer valid, and drops just these bytes from the front of what is readable.
pub skip_bytes_lem :
    (n : ℕ) (b : CharBuf)
    → IsValid b
    → n ≤ length (contents b)
    → (skip_bytes (pos n) b ≡ (ok tt, passed b n))
      × IsValid (passed b n)
      × (contents (passed b n) ≡ drop n (contents b))
unfolding skip_bytes
skip_bytes_lem n b v h =
    let k : n ≤ b.writer_index - b.reader_index = omega (arith, length-contents b v) in
    (rw (check_readable_enough b n v k) refl, passed-IsValid b n v k, contents-passed b n k)
