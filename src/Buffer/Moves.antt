-- ===== src/Buffer/Moves.antt =====
-- Moving the unread bytes to the front of the array, as AbstractCharBuf.cpp does it.
use cpp_nio_socket.Common.{
  ℕ, ◌+◌, ◌-◌, ◌≤◌, ◌<◌, ◌≡◌, refl, ap, ◌∙◌, arith, le→ltb, lt→ltb, length, take, ℤ, ok, err,
  undefined,
}
use cpp_nio_socket.Memory.{set_chars, get_chars}
use cpp_nio_socket.Memory.Laws.{length-set_chars}
use cpp_nio_socket.Buffer.{CharBuf, readable_bytes, check_index}
use cpp_nio_socket.Buffer.Discard.{adjust_markers, move_to_front, compact, rewind}
use cpp_nio_socket.Buffer.Window.{window, window-set_chars, length-window}
use cpp_nio_socket.Buffer.Valid.{IsValid, contents}

adjust_markers_lem :
    (d : ℕ) (b : CharBuf)
    → (r : ℕ) × (w : ℤ) × (adjust_markers d b
        ≡ record b { marked_reader_index = r; marked_writer_index = w })
unfolding adjust_markers
adjust_markers_lem d b = (
  (adjust_markers d b).marked_reader_index,
  (adjust_markers d b).marked_writer_index,
  ground arith,
)

-- The marks are not part of the invariant, nor of what is readable.
IsValid-markers : (d : ℕ) (b : CharBuf) → IsValid b → IsValid (adjust_markers d b)
IsValid-markers d b v =
    let (r, w, e) = adjust_markers_lem d b in
    rw e (record {
      reader_le = v.reader_le;
      writer_le = v.writer_le;
      capacity_le = v.capacity_le;
      fits_int = v.fits_int;
      allocated = v.allocated;
    })

-- The outcome that discarding aims at.
pub record Discarded (b b' : CharBuf) : Type 0 where
  pub valid : IsValid b'
  pub same_contents : contents b' ≡ contents b
  pub at_front : b'.reader_index ≡ 0
  pub same_capacity : b'.capacity ≡ b.capacity
  pub same_max : b'.max_capacity ≡ b.max_capacity

pub moved : CharBuf → CharBuf
moved b = record b {
  array = set_chars b.array 0 (contents b);
  writer_index = b.writer_index - b.reader_index;
}

pub compacted : CharBuf → CharBuf
compacted b = record (adjust_markers b.reader_index (moved b)) { reader_index = 0 }

pub compact_runs :
    (b : CharBuf)
    → IsValid b
    → b.writer_index ≤ b.reader_index + b.reader_index
    → compact b ≡ (ok tt, compacted b)
unfolding move_to_front check_index get_chars readable_bytes moved compacted
compact_runs b v h =
    let n = b.writer_index - b.reader_index in
    rw
      (
        le→ltb b.capacity (b.reader_index + n) (omega arith),
        le→ltb (length b.array) (b.reader_index + n) (omega (arith, v.allocated)),
        le→ltb b.reader_index n (omega arith),
      )
      refl

pub compact_overlap :
    (b : CharBuf)
    → IsValid b
    → b.reader_index + b.reader_index < b.writer_index
    → compact b ≡ (err undefined, b)
unfolding move_to_front check_index get_chars readable_bytes
compact_overlap b v h =
    let n = b.writer_index - b.reader_index in
    rw
      (
        le→ltb b.capacity (b.reader_index + n) (omega arith),
        le→ltb (length b.array) (b.reader_index + n) (omega (arith, v.allocated)),
        lt→ltb b.reader_index n (omega arith),
      )
      refl

moved-IsValid : (b : CharBuf) → IsValid b → IsValid (record (moved b) { reader_index = 0 })
unfolding moved
moved-IsValid b v = record {
  reader_le = omega arith;
  writer_le = omega arith;
  capacity_le = v.capacity_le;
  fits_int = v.fits_int;
  allocated = length-set_chars b.array 0 (contents b) ∙ v.allocated;
}

contents-moved :
    (b : CharBuf) → IsValid b → contents (record (moved b) { reader_index = 0 }) ≡ contents b
unfolding moved readable_bytes
contents-moved b v =
    let n = b.writer_index - b.reader_index in
    let cs = window b.array b.reader_index n in
    let k : length cs ≡ n = length-window b.array b.reader_index n (omega (arith, v.allocated)) in
    let e : n - 0 ≡ 0 + length cs = omega (arith, k) in
    ap (λ j. take j (set_chars b.array 0 cs)) e
    ∙ window-set_chars b.array 0 0 cs (omega (arith, k, v.allocated))

pub compacted-Discarded : (b : CharBuf) → IsValid b → Discarded b (compacted b)
unfolding compacted
compacted-Discarded b v =
    let (r, w, e) = adjust_markers_lem b.reader_index (moved b) in
    let v' = moved-IsValid b v in
    rw e (record {
      valid = record {
        reader_le = v'.reader_le;
        writer_le = v'.writer_le;
        capacity_le = v'.capacity_le;
        fits_int = v'.fits_int;
        allocated = v'.allocated;
      };
      same_contents = unfold readable_bytes in contents-moved b v;
      at_front = refl;
      same_capacity = unfold moved in refl;
      same_max = unfold moved in refl;
    })

pub rewind-Discarded :
    (b : CharBuf) → IsValid b → b.reader_index ≡ b.writer_index → Discarded b (rewind b)
rewind-Discarded b v e =
    let (r, w, q) = adjust_markers_lem b.reader_index b in
    let n : b.writer_index - b.reader_index ≡ 0 = omega arith in
    rw q (record {
      valid = record {
        reader_le = omega arith;
        writer_le = omega arith;
        capacity_le = v.capacity_le;
        fits_int = v.fits_int;
        allocated = v.allocated;
      };
      same_contents = unfold readable_bytes in rw n refl;
      at_front = refl;
      same_capacity = refl;
      same_max = refl;
    })

pub self-Discarded : (b : CharBuf) → IsValid b → b.reader_index ≡ 0 → Discarded b b
self-Discarded b v e = record {
  valid = v;
  same_contents = refl;
  at_front = e;
  same_capacity = refl;
  same_max = refl;
}
