-- ===== src/Decoder.antt =====
-- LengthFieldBasedFrameDecoder.hpp: the frames of a byte stream, each with its length in a field of
-- its own. The read buffer is the `CharBuf` of `Buffer`; a frame is the slice of it that
-- `retainedSlice` returns.
--
-- A `long` is an integer of `ℤ`, and a sum that leaves the range of its type is undefined.
pub mod Header
pub mod Frames
pub mod Stream
pub mod Faults
pub mod Slices
pub mod Rounds
pub mod Split
pub mod Reassembly
use cpp_nio_socket.Common.{
  ℕ, ◌+◌, ◌-◌, ◌^◌, ◌≤◌, Bool, true, false, not, ◌&&◌, ◌||◌, Option, none, some, List, [], ◌∷◌, ltb,
  ◌==◌, if◌then◌else◌, ℤ, pos, negsuc, pos_part, ◌+ℤ◌, ◌-ℤ◌, ltb_ℤ, leb_ℤ, to_signed, to_int,
  Outcome, and_then, M, ok, err, ◌>>=◌, ◌>>◌, return, throw, read, update, refuse_if,
  decoder_exception, illegal_argument, undefined,
}
use cpp_nio_socket.Memory.{char, short, int, long}
use cpp_nio_socket.Buffer.{CharBuf, readable_bytes, skip_bytes, set_reader_index}
use cpp_nio_socket.Buffer.Access.{get}

pub record FrameDecoder : Type 0 where
  pub max_frame_length : ℕ
  pub length_field_offset : ℕ
  pub length_field_length : ℕ
  pub length_field_end_offset : ℕ
  pub length_adjustment : ℤ
  pub initial_bytes_to_strip : ℕ
  pub fail_fast : Bool
  pub discarding : Bool
  pub too_long_frame_length : ℤ
  pub bytes_to_discard : ℤ

-- The slice from `index` of the read buffer.
pub record Frame : Type 0 where
  pub index : ℕ
  pub size : ℕ

pub record Decoding : Type 0 where
  pub decoder : FrameDecoder
  pub input : CharBuf

-- SystemUtil::checkPositive and checkPositiveOrZero
unfoldable pub check_positive : ℤ → Outcome ℕ
check_positive (pos n) = if n == 0 then err illegal_argument else ok n
check_positive (negsuc n) = err illegal_argument

unfoldable pub check_positive_or_zero : ℤ → Outcome ℕ
check_positive_or_zero (pos n) = ok n
check_positive_or_zero (negsuc n) = err illegal_argument

-- The constructors, through init. The field's length is not negative.
unfoldable pub new_decoder : ℤ → ℤ → ℕ → ℤ → ℤ → Bool → Outcome FrameDecoder
new_decoder max_frame_length length_field_offset field_length adjustment strip fail_fast =
    and_then (check_positive max_frame_length) λ max_length.
      and_then (check_positive_or_zero length_field_offset) λ offset.
        and_then (check_positive_or_zero strip) λ strip_length.
          if ltb max_length (offset + field_length)
          then err illegal_argument
          else ok (record {
            max_frame_length = max_length;
            length_field_offset = offset;
            length_field_length = field_length;
            length_field_end_offset = offset + field_length;
            length_adjustment = adjustment;
            initial_bytes_to_strip = strip_length;
            fail_fast = fail_fast;
            discarding = false;
            too_long_frame_length = pos 0;
            bytes_to_discard = pos 0;
          })

abbrev with_input : {A : Type 0} → Decoding → Outcome A × CharBuf → Outcome A × Decoding
with_input s (r, b) = (r, record s { input = b })

abbrev on_input : {A : Type 0} → M CharBuf A → M Decoding A
on_input m s = with_input s (m s.input)

abbrev set_decoder : (FrameDecoder → FrameDecoder) → M Decoding (Unit {0})
set_decoder f = update λ s. record s { decoder = f s.decoder }

-- `int` and `long` sums
abbrev pub int_sum : ℤ → M Decoding ℤ
int_sum (pos n) s = if ltb n (2 ^ 31) then (ok (pos n), s) else (err undefined, s)
int_sum (negsuc n) s = if ltb n (2 ^ 31) then (ok (negsuc n), s) else (err undefined, s)

abbrev long_sum : ℤ → M Decoding ℤ
long_sum (pos n) s = if ltb n (2 ^ 63) then (ok (pos n), s) else (err undefined, s)
long_sum (negsuc n) s = if ltb n (2 ^ 63) then (ok (negsuc n), s) else (err undefined, s)

-- A `char` is signed, and so is `getLong`.
unfoldable pub get_unadjusted_frame_length : ℕ → ℕ → M CharBuf ℤ
get_unadjusted_frame_length offset field_length =
    if field_length == 1
    then (do v ← get char offset; return (to_signed (2 ^ 7) v))
    else if field_length == 2
    then (do v ← get short offset; return (pos v))
    else if field_length == 4
    then (do v ← get int offset; return (pos v))
    else if field_length == 8
    then (do v ← get long offset; return (to_signed (2 ^ 63) v))
    else throw decoder_exception

-- failOnNegativeLengthField, failOnFrameLengthLessThanLengthFieldEndOffset and
-- failOnFrameLengthLessThanInitialBytesToStrip differ in what they skip and in their messages.
unfoldable pub skip_and_fail : {A : Type 0} → ℤ → M Decoding A
skip_and_fail n = do on_input (skip_bytes n); throw decoder_exception

abbrev is_zero : ℤ → Bool
is_zero (pos n) = n == 0
is_zero (negsuc n) = false

unfoldable pub fail_if_necessary : Bool → M Decoding (Unit {0})
fail_if_necessary first s =
    if is_zero s.decoder.bytes_to_discard
    then (do
      set_decoder (λ d. record d { too_long_frame_length = pos 0; discarding = false })
      refuse_if (not s.decoder.fail_fast || first) decoder_exception)
        s
    else refuse_if (s.decoder.fail_fast && first) decoder_exception s

-- `discard` is the part of the frame that has not arrived.
unfoldable pub exceeded_frame_length : ℤ → M Decoding (Unit {0})
exceeded_frame_length frame_length s =
    let discard = frame_length -ℤ pos (readable_bytes s.input) in
    (do
      set_decoder (λ d. record d { too_long_frame_length = frame_length })
      if leb_ℤ discard (pos 0) then on_input (skip_bytes (to_int frame_length)) else (do
        set_decoder (λ d. record d { discarding = true; bytes_to_discard = discard })
        on_input (skip_bytes (pos (readable_bytes s.input))))
      fail_if_necessary true)
      s

-- std::min
abbrev min_ℤ : ℤ → ℤ → ℤ
min_ℤ a b = if ltb_ℤ b a then b else a

-- The count is cut to an `int` before the minimum is taken.
unfoldable pub discarding_too_long_frame : M Decoding (Unit {0})
discarding_too_long_frame s =
    let count = min_ℤ (to_int s.decoder.bytes_to_discard) (pos (readable_bytes s.input)) in
    (do
      on_input (skip_bytes count)
      set_decoder (λ d. record d { bytes_to_discard = d.bytes_to_discard -ℤ count })
      fail_if_necessary false)
      s

-- skipBytes, extractFrame and readerIndex(int) at the end of decode
unfoldable pub take_frame : ℕ → M Decoding (Option Frame)
take_frame frame_length s =
    let strip = s.decoder.initial_bytes_to_strip in
    if ltb frame_length strip
    then skip_and_fail (pos frame_length) s
    else (do
      on_input (skip_bytes (pos strip))
      index ← read (λ s. s.input.reader_index)
      on_input (set_reader_index (index + (frame_length - strip)))
      return (some (record { index = index; size = frame_length - strip })))
        s

-- From the adjusted length on.
unfoldable pub decode_frame : ℤ → M Decoding (Option Frame)
decode_frame frame_length s =
    let end_offset = s.decoder.length_field_end_offset in
    if ltb_ℤ frame_length (pos end_offset)
    then skip_and_fail (pos end_offset) s
    else if ltb_ℤ (pos s.decoder.max_frame_length) frame_length
    then (do exceeded_frame_length frame_length; return none) s
    else if ltb (readable_bytes s.input) (pos_part frame_length)
    then (ok none, s)
    else take_frame (pos_part frame_length) s

-- What the field says, adjusted.
unfoldable pub decode_length : M Decoding (Option Frame)
decode_length s =
    let d = s.decoder in
    (do
      frame_length ← on_input (
          get_unadjusted_frame_length (s.input.reader_index + d.length_field_offset)
            d.length_field_length)
      if ltb_ℤ frame_length (pos 0) then skip_and_fail (pos d.length_field_end_offset) else (do
        extra ← int_sum (d.length_adjustment +ℤ pos d.length_field_end_offset)
        adjusted ← long_sum (frame_length +ℤ extra)
        decode_frame adjusted))
      s

-- From the test of the header on.
unfoldable pub decode_header : M Decoding (Option Frame)
decode_header s =
    if ltb (readable_bytes s.input) s.decoder.length_field_end_offset
    then (ok none, s)
    else decode_length s

-- decode(ctx, in)
unfoldable pub decode : M Decoding (Option Frame)
decode s =
    (do if s.decoder.discarding then discarding_too_long_frame else return tt; decode_header) s

abbrev to_list : Option Frame → List Frame
to_list none = []
to_list (some f) = f ∷ []

-- decode(ctx, in, out): what it appends to `out`.
unfoldable pub decode_into : M Decoding (List Frame)
decode_into = do decoded ← decode; return (to_list decoded)
