-- ===== src/Tests/Buffer.antt =====
-- AbstractCharBuf.cpp on small buffers.
use cpp_nio_socket.Common.{ℕ, ◌≤◌, ◌≡◌, refl, arith, [], ◌∷◌, pos, ok, err, undefined, ◌>>◌}
use cpp_nio_socket.Memory.{char, short, int}
use cpp_nio_socket.Buffer.{CharBuf, readable_bytes}
use cpp_nio_socket.Buffer.Discard.{discard_read_bytes, discard_some_read_bytes}
use cpp_nio_socket.Buffer.Valid.{IsValid, contents}
use cpp_nio_socket.Buffer.Growth.{ensure_writable-cases, EnsuresRoom}
use cpp_nio_socket.Buffer.Append.{HasRoom}
use cpp_nio_socket.Buffer.RoundTrip.{read_all-write_all, Fields, write_all, read_all}
use cpp_nio_socket.Buffer.Compaction.{
  discard_read_bytes_overlap, discard_some_read_bytes_lem, discard_some_read_bytes_odd, Trimmed,
}

-- Six of eight chars written and four of them read.
abbrev half_read : CharBuf
half_read = record {
  reader_index = 4;
  writer_index = 6;
  marked_reader_index = 1;
  marked_writer_index = pos 6;
  max_capacity = 64;
  capacity = 8;
  array = 1 ∷ 2 ∷ 3 ∷ 4 ∷ 5 ∷ 6 ∷ 7 ∷ 8 ∷ [];
}

abbrev little_read : CharBuf
little_read = record half_read { reader_index = 1 }

-- Full, of odd capacity.
abbrev odd : CharBuf
odd = record {
  reader_index = 2;
  writer_index = 5;
  marked_reader_index = 0;
  marked_writer_index = pos 0;
  max_capacity = 64;
  capacity = 5;
  array = 1 ∷ 2 ∷ 3 ∷ 4 ∷ 5 ∷ [];
}

abbrev blank : CharBuf
blank = record {
  reader_index = 0;
  writer_index = 0;
  marked_reader_index = 0;
  marked_writer_index = pos 0;
  max_capacity = 64;
  capacity = 4;
  array = 0 ∷ 0 ∷ 0 ∷ 0 ∷ [];
}

half_read-IsValid : IsValid half_read
half_read-IsValid = omega arith

little_read-IsValid : IsValid little_read
little_read-IsValid = omega arith

odd-IsValid : IsValid odd
odd-IsValid = omega arith

blank-HasRoom : (n : ℕ) → n ≤ 64 → HasRoom blank n
blank-HasRoom n h = record {
  valid = omega arith;
  nonempty = omega arith;
  small = omega arith;
  few = omega arith;
  fits = omega arith;
}

abbrev zeros : ℕ → ℕ
zeros _ = 0

contents-half_read : contents half_read ≡ 5 ∷ 6 ∷ []
unfolding readable_bytes
contents-half_read = refl

abbrev message : Fields
message = (short, 0x1234) ∷ (int, 7) ∷ (char, 255) ∷ []

read_all-write_all_example :
    (b : CharBuf) × ((do write_all zeros message; read_all message) blank
      ≡ (ok (0x1234 ∷ 7 ∷ 255 ∷ []), b))
    × IsValid b
    × (contents b ≡ [])
unfolding readable_bytes
read_all-write_all_example =
    read_all-write_all zeros message blank (blank-HasRoom 7 (omega arith)) (omega arith) refl

ensure_writable-cases_example : EnsuresRoom zeros half_read 100
ensure_writable-cases_example = ensure_writable-cases zeros half_read 100 half_read-IsValid

discard_read_bytes_overlap_example : discard_read_bytes little_read ≡ (err undefined, little_read)
discard_read_bytes_overlap_example =
    discard_read_bytes_overlap little_read little_read-IsValid (omega arith) (omega arith)

discard_some_read_bytes_lem_example :
    (b : CharBuf) × (discard_some_read_bytes half_read ≡ (ok tt, b)) × Trimmed half_read b
discard_some_read_bytes_lem_example = discard_some_read_bytes_lem half_read half_read-IsValid refl

discard_some_read_bytes_odd_example : discard_some_read_bytes odd ≡ (err undefined, odd)
discard_some_read_bytes_odd_example =
    discard_some_read_bytes_odd odd odd-IsValid (omega arith) refl refl
