-- ===== src/Decoder/Faults.antt =====
-- Where LengthFieldBasedFrameDecoder.hpp goes wrong: length fields of a width that it does not read,
-- fields of one char, and the discarding of frames of `2 ^ 31` bytes and more.
use cpp_nio_socket.Common.{
  ℕ, suc, ◌+◌, ◌-◌, ◌^◌, ◌≤◌, ◌<◌, ◌≡◌, ◌≢◌, refl, ap, ◌∙◌, arith, none, Bool, true, false, lt→ltb,
  le→ltb, ==_ne, length, drop, pos, negsuc, to_signed, to_int, ◌&&◌, ok, err, decoder_exception,
}
use cpp_nio_socket.Memory.{char}
use cpp_nio_socket.Memory.Laws.{decode as decode_field, decode-lt}
use cpp_nio_socket.Buffer.{CharBuf, readable_bytes, skip_bytes, check_readable}
use cpp_nio_socket.Buffer.Valid.{IsValid, contents}
use cpp_nio_socket.ByteToMessage.{call_decode}
use cpp_nio_socket.ByteToMessage.Progress.{call_decode-endless}
use cpp_nio_socket.Decoder.{
  Decoding, get_unadjusted_frame_length, decode_length, decode_header, decode, decode_into,
  discarding_too_long_frame, fail_if_necessary,
}
use cpp_nio_socket.Decoder.Header.{get_unadjusted_frame_length_lem, skip_and_fail_lem, skipped}
use cpp_nio_socket.Decoder.Frames.{readable-length}
use cpp_nio_socket.Decoder.Stream.{readable}

-- Enough has arrived for a length field.
record HasField (s : Decoding) : Type 0 where
  valid : IsValid s.input
  idle : s.decoder.discarding ≡ false
  arrived : s.decoder.length_field_end_offset ≤ length (contents s.input)

decode_field_lem : (s : Decoding) → HasField s → decode s ≡ decode_length s
unfolding decode decode_header
decode_field_lem s h =
    simp
      (
        h.idle,
        le→ltb (readable_bytes s.input) s.decoder.length_field_end_offset
            (omega (arith, h.arrived, readable-length s h.valid)),
      )
      refl

-- The widths that getUnadjustedFrameLength does not know.
abbrev IsUnsupported : ℕ → Type 0
IsUnsupported n = (n ≢ 1) × (n ≢ 2) × (n ≢ 4) × (n ≢ 8)

get_unsupported :
    (offset n : ℕ) (b : CharBuf)
    → IsUnsupported n
    → get_unadjusted_frame_length offset n b ≡ (err decoder_exception, b)
unfolding get_unadjusted_frame_length
get_unsupported offset n b h = rw (==_ne n 1 h.0, ==_ne n 2 h.1, ==_ne n 4 h.2, ==_ne n 8 h.3) refl

decode_unsupported :
    (s : Decoding)
    → HasField s
    → IsUnsupported s.decoder.length_field_length
    → decode_into s ≡ (err decoder_exception, s)
unfolding decode_into decode_length
decode_unsupported s h u =
    rw
      (
        decode_field_lem s h,
        get_unsupported (s.input.reader_index + s.decoder.length_field_offset)
            s.decoder.length_field_length s.input u,
      )
      refl

-- A decoder set up for length fields of a width other than 1, 2, 4 and 8 and not discarding makes
-- callDecode run for ever on a valid buffer with something readable and the bytes of a header
-- arrived: no number of rounds is enough.
pub unsupported_endless :
    (s : Decoding) (single_decode : Bool)
    → IsValid s.input
    → s.decoder.discarding ≡ false
    → s.decoder.length_field_end_offset ≤ length (contents s.input)
    → 0 < length (contents s.input)
    → IsUnsupported s.decoder.length_field_length
    → (fuel : ℕ) → call_decode readable decode_into single_decode fuel s ≡ none
unsupported_endless s single v idle arrived some_bytes u =
    call_decode-endless readable decode_into single s decoder_exception
      (omega (arith, readable-length s v)) refl
      (decode_unsupported s (record { valid = v; idle = idle; arrived = arrived }) u)

char_value_negative : (v : ℕ) → 128 ≤ v → v < 256 → to_signed (2 ^ 7) v ≡ negsuc (255 - v)
char_value_negative v lo hi = ground arith

-- For a decoder with a length field of one char that is not discarding and a valid buffer in which
-- the header has arrived, a length of 128 or more is taken for a negative number: decode throws a
-- DecoderException and skips just the header.
pub char_length_negative :
    (s : Decoding)
    → IsValid s.input
    → s.decoder.discarding ≡ false
    → s.decoder.length_field_length ≡ 1
    → s.decoder.length_field_end_offset ≡ s.decoder.length_field_offset + 1
    → s.decoder.length_field_end_offset ≤ length (contents s.input)
    → 128 ≤ decode_field char (drop s.decoder.length_field_offset (contents s.input))
    → decode s ≡ (err decoder_exception, skipped s s.decoder.length_field_end_offset)
unfolding decode_length
char_length_negative s v idle one end arrived large =
    let d = s.decoder in
    let r = s.input.reader_index in
    let x = decode_field char (drop d.length_field_offset (contents s.input)) in
    let field : get_unadjusted_frame_length (r + d.length_field_offset) d.length_field_length
          s.input
        ≡ (ok (negsuc (255 - x)), s.input) =
      ap (λ k. get_unadjusted_frame_length (r + d.length_field_offset) k s.input) one
      ∙ get_unadjusted_frame_length_lem char s.input d.length_field_offset v (omega arith)
      ∙ ap (λ y. (ok y, s.input))
          (char_value_negative x large
            (decode-lt char (drop d.length_field_offset (contents s.input)))) in
    decode_field_lem s (record { valid = v; idle = idle; arrived = arrived })
    ∙ rw field (skip_and_fail_lem s d.length_field_end_offset v arrived)

and_false : (b : Bool) → (b && false) ≡ false
and_false true = refl
and_false false = refl

int_of_large : (n : ℕ) → 2 ^ 31 ≤ n → n < 2 ^ 32 → to_int (pos n) ≡ negsuc (2 ^ 32 - 1 - n)
int_of_large n lo hi = ground arith

skip_back :
    (b : CharBuf) (n : ℕ)
    → IsValid b
    → n < b.reader_index
    → skip_bytes (negsuc n) b ≡ (ok tt, record b { reader_index = b.reader_index - suc n })
unfolding skip_bytes check_readable
skip_back b n v h =
    rw (le→ltb (b.writer_index + suc n) b.reader_index (omega arith), lt→ltb n b.reader_index h)
      refl

keeps_discarding :
    (s : Decoding) (n : ℕ)
    → s.decoder.bytes_to_discard ≡ pos (suc n)
    → fail_if_necessary false s ≡ (ok tt, s)
unfolding fail_if_necessary
keeps_discarding s n e =
    simp (e, and_false s.decoder.fail_fast) (rw (==_ne (suc n) 0 (omega arith)) refl)

-- With at least 2 ^ 31 and less than 2 ^ 32 bytes of a frame left to discard and a valid buffer
-- whose reader index is at least what 2 ^ 32 exceeds the count by, discardingTooLongFrame moves the
-- reader back by that difference, sets the count to 2 ^ 32, and throws nothing.
pub discard_goes_back :
    (s : Decoding) (n : ℕ)
    → IsValid s.input
    → s.decoder.bytes_to_discard ≡ pos n
    → 2 ^ 31 ≤ n
    → n < 2 ^ 32
    → 2 ^ 32 - n ≤ s.input.reader_index
    → discarding_too_long_frame s ≡ (
      ok tt,
      record {
        decoder = record s.decoder { bytes_to_discard = pos (2 ^ 32) };
        input = record s.input { reader_index = s.input.reader_index - (2 ^ 32 - n) };
      },
    )
unfolding discarding_too_long_frame
discard_goes_back s n v e lo hi room =
    let x = 2 ^ 32 - 1 - n in
    let k : suc x ≡ 2 ^ 32 - n = omega arith in
    let total : n + suc x ≡ 2 ^ 32 = omega arith in
    simp (e, int_of_large n lo hi, skip_back s.input x v (omega arith))
      (rw (total, k)
        (keeps_discarding
          (record {
            decoder = record s.decoder { bytes_to_discard = pos (2 ^ 32) };
            input = record s.input { reader_index = s.input.reader_index - (2 ^ 32 - n) };
          })
          (2 ^ 32 - 1) refl))
