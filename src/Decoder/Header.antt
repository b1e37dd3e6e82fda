-- ===== src/Decoder/Header.antt =====
-- The length field of LengthFieldBasedFrameDecoder.hpp, and the skips that its errors make.
use cpp_nio_socket.Common.{
  ℕ, ◌+◌, ◌-◌, ◌^◌, ◌≤◌, ◌≡◌, refl, arith, le→ltb, length, drop, ℤ, pos, to_signed, ok, err,
  decoder_exception,
}
use cpp_nio_socket.Memory.{Width, char, short, int, long, size}
use cpp_nio_socket.Memory.Laws.{decode}
use cpp_nio_socket.Buffer.{CharBuf, readable_bytes, check_index}
use cpp_nio_socket.Buffer.Access.{get, raw_get}
use cpp_nio_socket.Buffer.Window.{drop-window, get_field-window}
use cpp_nio_socket.Buffer.Valid.{IsValid, contents}
use cpp_nio_socket.Buffer.Append.{length-contents}
use cpp_nio_socket.Buffer.Fifo.{passed, skip_bytes_lem}
use cpp_nio_socket.Decoder.{Decoding, get_unadjusted_frame_length, skip_and_fail}

-- An absolute read of a field within what is readable sees the bytes from that offset on.
get_lem :
    (w : Width) (b : CharBuf) (offset : ℕ)
    → IsValid b
    → offset + size w ≤ length (contents b)
    → get w (b.reader_index + offset) b ≡ (ok (decode w (drop offset (contents b))), b)
unfolding get raw_get check_index readable_bytes
get_lem w b offset v h =
    let n = b.writer_index - b.reader_index in
    let k : offset + size w ≤ n = omega (arith, length-contents b v) in
    rw
      (
        le→ltb b.capacity (b.reader_index + offset + size w) (omega arith),
        le→ltb (length b.array) (b.reader_index + offset + size w) (omega (arith, v.allocated)),
        get_field-window w b.array (b.reader_index + offset) (n - offset) (omega arith)
            (omega (arith, v.allocated)),
        drop-window b.array b.reader_index n offset (omega arith),
      )
      refl

-- The number that a field of each width stands for.
abbrev pub length_value : Width → ℕ → ℤ
length_value char v = to_signed (2 ^ 7) v
length_value short v = pos v
length_value int v = pos v
length_value long v = to_signed (2 ^ 63) v

pub get_unadjusted_frame_length_lem :
    (w : Width) (b : CharBuf) (offset : ℕ)
    → IsValid b
    → offset + size w ≤ length (contents b)
    → get_unadjusted_frame_length (b.reader_index + offset) (size w) b
      ≡ (ok (length_value w (decode w (drop offset (contents b)))), b)
unfolding get_unadjusted_frame_length
get_unadjusted_frame_length_lem char b offset v h = rw (get_lem char b offset v h) refl
get_unadjusted_frame_length_lem short b offset v h = rw (get_lem short b offset v h) refl
get_unadjusted_frame_length_lem int b offset v h = rw (get_lem int b offset v h) refl
get_unadjusted_frame_length_lem long b offset v h = rw (get_lem long b offset v h) refl

-- A decoding of which `n` bytes have been passed over.
abbrev pub skipped : Decoding → ℕ → Decoding
skipped s n = record s { input = passed s.input n }

pub skip_and_fail_lem :
    {A : Type 0} (s : Decoding) (n : ℕ)
    → IsValid s.input
    → n ≤ length (contents s.input)
    → skip_and_fail {A = A} (pos n) s ≡ (err decoder_exception, skipped s n)
unfolding skip_and_fail
skip_and_fail_lem s n v h = let (e, _, _) = skip_bytes_lem n s.input v h in rw e refl
