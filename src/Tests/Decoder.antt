-- ===== src/Tests/Decoder.antt =====
-- LengthFieldBasedFrameDecoder.hpp under callDecode on small buffers.
use cpp_nio_socket.Common.{
  ℕ, ◌-◌, ◌^◌, ◌≡◌, refl, inl, arith, List, [], ◌∷◌, pos, none, true, false, ok, err,
  decoder_exception,
}
use cpp_nio_socket.Memory.{short}
use cpp_nio_socket.Buffer.{CharBuf, readable_bytes}
use cpp_nio_socket.Buffer.Valid.{IsValid}
use cpp_nio_socket.ByteToMessage.{call_decode}
use cpp_nio_socket.Decoder.{
  Decoding, FrameDecoder, new_decoder, check_positive, check_positive_or_zero, decode, decode_into,
  discarding_too_long_frame,
}
use cpp_nio_socket.Decoder.Header.{skipped}
use cpp_nio_socket.Decoder.Frames.{HasHeader}
use cpp_nio_socket.Decoder.Stream.{
  readable, IsConfigured, Announces, AreFrames, Delivers, call_decode_stream,
}
use cpp_nio_socket.Decoder.Faults.{unsupported_endless, char_length_negative, discard_goes_back}

-- LengthFieldBasedFrameDecoder(64, 0, width, 0, width)
abbrev pub frames_of_width : ℕ → FrameDecoder
frames_of_width width = record {
  max_frame_length = 64;
  length_field_offset = 0;
  length_field_length = width;
  length_field_end_offset = width;
  length_adjustment = pos 0;
  initial_bytes_to_strip = width;
  fail_fast = true;
  discarding = false;
  too_long_frame_length = pos 0;
  bytes_to_discard = pos 0;
}

constructor_example : new_decoder (pos 64) (pos 0) 2 (pos 0) (pos 2) true ≡ ok (frames_of_width 2)
unfolding new_decoder check_positive check_positive_or_zero
constructor_example = refl

-- Two frames, of one and two chars, and the first char of a third.
abbrev stream : CharBuf
stream = record {
  reader_index = 1;
  writer_index = 9;
  marked_reader_index = 0;
  marked_writer_index = pos 0;
  max_capacity = 64;
  capacity = 10;
  array = 99 ∷ 0 ∷ 1 ∷ 65 ∷ 0 ∷ 2 ∷ 66 ∷ 67 ∷ 0 ∷ 99 ∷ [];
}

stream-IsValid : IsValid stream
stream-IsValid = omega arith

abbrev pub first_frame : List ℕ
first_frame = 0 ∷ 1 ∷ 65 ∷ []

abbrev pub second_frame : List ℕ
second_frame = 0 ∷ 2 ∷ 66 ∷ 67 ∷ []

pub two_frames : AreFrames (frames_of_width 2) short (first_frame ∷ second_frame ∷ [])
two_frames = (announces_first, (announces_second, tt))
  where
    announces_first : Announces (frames_of_width 2) short 3 first_frame
    announces_first = record {
      n = 1;
      arrived = omega arith;
      value = refl;
      adjusted = refl;
      fits_long = omega arith;
      accepted = omega arith;
    }

    announces_second : Announces (frames_of_width 2) short 4 second_frame
    announces_second = record {
      n = 2;
      arrived = omega arith;
      value = refl;
      adjusted = refl;
      fits_long = omega arith;
      accepted = omega arith;
    }

pub width_two : IsConfigured (frames_of_width 2) short
width_two = record { idle = refl; field = refl; end = refl; extra = omega arith }

call_decode_stream_example :
    Delivers
      (frames_of_width 2)
      short
      width_two
      (call_decode readable decode_into false 9
        (record { decoder = frames_of_width 2; input = stream }))
      (record { index = 3; size = 1 } ∷ record { index = 6; size = 2 } ∷ [])
      (0 ∷ [])
unfolding readable_bytes
call_decode_stream_example =
    call_decode_stream (frames_of_width 2) short width_two stream (first_frame ∷ second_frame ∷ [])
      (0 ∷ []) 9 (omega arith) stream-IsValid refl two_frames (inl (omega arith))

abbrev reading : ℕ → CharBuf → Decoding
reading width b = record { decoder = frames_of_width width; input = b }

header_of_first : HasHeader (reading 2 stream) short 1 3
unfolding readable_bytes
header_of_first = record {
  valid = stream-IsValid;
  idle = refl;
  field = refl;
  end = refl;
  arrived = omega arith;
  value = refl;
  extra = omega arith;
  adjusted = refl;
  fits_long = omega arith;
}

-- The same bytes read as lengths of one char; then the value 200.
abbrev large_char : CharBuf
large_char = record stream { array = 99 ∷ 200 ∷ 1 ∷ 65 ∷ 0 ∷ 2 ∷ 66 ∷ 67 ∷ 0 ∷ 99 ∷ [] }

char_length_negative_example :
    decode (reading 1 large_char) ≡ (err decoder_exception, skipped (reading 1 large_char) 1)
unfolding readable_bytes
char_length_negative_example =
    char_length_negative (reading 1 large_char) (omega arith) refl refl refl (omega arith)
      (omega arith)

abbrev short_stream : CharBuf
short_stream = record stream { writer_index = 3 }

unsupported_endless_example : call_decode readable decode_into false 500 (reading 3 stream) ≡ none
unfolding readable_bytes
unsupported_endless_example =
    unsupported_endless (reading 3 stream) false stream-IsValid refl (omega arith) (omega arith)
      (omega arith) 500

abbrev overdue : Decoding
overdue = record {
  decoder = record (frames_of_width 4) { discarding = true; bytes_to_discard = pos (2 ^ 32 - 1) };
  input = stream;
}

discard_goes_back_example : discarding_too_long_frame overdue ≡ (
  ok tt,
  record {
    decoder = record overdue.decoder { bytes_to_discard = pos (2 ^ 32) };
    input = record stream { reader_index = 0 };
  },
)
discard_goes_back_example =
    discard_goes_back overdue (2 ^ 32 - 1) stream-IsValid refl (omega arith) (omega arith)
      (omega arith)
