-- ===== src/Tests/Reassembly.antt =====
-- Two messages that cut a stream of frames inside a frame.
use cpp_nio_socket.Common.{ℕ, refl, inl, arith, List, [], ◌∷◌, pos}
use cpp_nio_socket.Memory.{short}
use cpp_nio_socket.Buffer.{CharBuf, readable_bytes, char_buf_max_capacity}
use cpp_nio_socket.Buffer.Transfer.{IsRoomy}
use cpp_nio_socket.ByteToMessage.Cumulation.{Counted, new_handler}
use cpp_nio_socket.Decoder.Reassembly.{AreRoomy, Reassembles, read_messages, read_messages_lem}
use cpp_nio_socket.Tests.Decoder.{frames_of_width, first_frame, second_frame, two_frames, width_two}

abbrev message : List ℕ → Counted
message bytes = record {
  buf = record {
    reader_index = 0;
    writer_index = 4;
    marked_reader_index = 0;
    marked_writer_index = pos 0;
    max_capacity = char_buf_max_capacity;
    capacity = 6;
    array = bytes;
  };
  ref_cnt = pos 1;
}

abbrev messages : List Counted
messages = message (0 ∷ 1 ∷ 65 ∷ 0 ∷ 9 ∷ 9 ∷ []) ∷ message (2 ∷ 66 ∷ 67 ∷ 0 ∷ 9 ∷ 9 ∷ []) ∷ []

messages-AreRoomy : AreRoomy messages
messages-AreRoomy = (one, (two, tt))
  where
    one : IsRoomy (message (0 ∷ 1 ∷ 65 ∷ 0 ∷ 9 ∷ 9 ∷ [])).buf
    one = record {
      valid = omega arith;
      nonempty = omega arith;
      even = refl;
      small = omega arith;
      widest = refl;
    }

    two : IsRoomy (message (2 ∷ 66 ∷ 67 ∷ 0 ∷ 9 ∷ 9 ∷ [])).buf
    two = record {
      valid = omega arith;
      nonempty = omega arith;
      even = refl;
      small = omega arith;
      widest = refl;
    }

abbrev first_buffer : CharBuf
first_buffer = (message (0 ∷ 1 ∷ 65 ∷ 0 ∷ 9 ∷ 9 ∷ [])).buf

abbrev unused : ℕ → ℕ
unused i = 7

read_messages_lem_example :
    Reassembles
      (frames_of_width 2)
      short
      width_two
      8
      (new_handler (frames_of_width 2))
      (read_messages unused messages (new_handler (frames_of_width 2)))
      (first_frame ∷ second_frame ∷ [])
      (0 ∷ [])
unfolding readable_bytes
read_messages_lem_example =
    read_messages_lem (frames_of_width 2) short width_two unused messages
      (first_frame ∷ second_frame ∷ []) (0 ∷ []) messages-AreRoomy (omega arith) refl two_frames
      (inl (omega arith))
