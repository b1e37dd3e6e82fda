-- ===== src/Decoder/Frames.antt =====
-- LengthFieldBasedFrameDecoder::decode on a frame that is there, and on one that is not yet.
use cpp_nio_socket.Common.{
  ℕ, ◌+◌, ◌-◌, ◌^◌, ◌≤◌, ◌<◌, ◌≡◌, refl, sym, ap, ◌∙◌, arith, none, some, false, ltb, if◌then◌else◌,
  lt→ltb, le→ltb, length, drop, ℤ, pos, negsuc, ◌+ℤ◌, ok,
}
use cpp_nio_socket.Memory.{Width, size}
use cpp_nio_socket.Memory.Laws.{decode as decode_field}
use cpp_nio_socket.Buffer.{readable_bytes, set_reader_index, check_index_bounds}
use cpp_nio_socket.Buffer.Valid.{IsValid, contents}
use cpp_nio_socket.Buffer.Append.{length-contents}
use cpp_nio_socket.Buffer.Fifo.{passed, skip_bytes_lem}
use cpp_nio_socket.Decoder.{
  Decoding, FrameDecoder, Frame, get_unadjusted_frame_length, take_frame, decode_frame,
  decode_length, decode_header, decode, int_sum,
}
use cpp_nio_socket.Decoder.Header.{length_value, get_unadjusted_frame_length_lem, skipped}

pub readable-length :
    (s : Decoding) → IsValid s.input → readable_bytes s.input ≡ length (contents s.input)
unfolding readable_bytes
readable-length s v = sym (length-contents s.input v)

-- The frame that the bytes up to `n` make, without the stripped ones.
abbrev pub frame_of : Decoding → ℕ → Frame
frame_of s n = record {
  index = s.input.reader_index + s.decoder.initial_bytes_to_strip;
  size = n - s.decoder.initial_bytes_to_strip;
}

take_frame_lem :
    (s : Decoding) (n : ℕ)
    → IsValid s.input
    → s.decoder.initial_bytes_to_strip ≤ n
    → n ≤ length (contents s.input)
    → take_frame n s ≡ (ok (some (frame_of s n)), skipped s n)
unfolding take_frame set_reader_index check_index_bounds
take_frame_lem s n v strip h =
    let k = s.decoder.initial_bytes_to_strip in
    let (e, _, _) = skip_bytes_lem k s.input v (omega arith) in
    let r = s.input.reader_index in
    let sum : r + k + (n - k) ≡ r + n = omega arith in
    rw
      (
        le→ltb n k strip,
        e,
        sum,
        le→ltb s.input.writer_index (r + n) (omega (arith, length-contents s.input v)),
        le→ltb s.input.max_capacity s.input.writer_index
            (omega (arith, v.writer_le, v.capacity_le)),
      )
      refl

-- The values of an `int`.
abbrev pub IsInt : ℤ → Type 0
IsInt (pos n) = n < 2 ^ 31
IsInt (negsuc n) = n < 2 ^ 31

int_sum_lem : (x : ℤ) (s : Decoding) → IsInt x → int_sum x s ≡ (ok x, s)
int_sum_lem (pos n) s h = rw (lt→ltb n (2 ^ 31) h) refl
int_sum_lem (negsuc n) s h = rw (lt→ltb n (2 ^ 31) h) refl

-- The length field of the first frame has arrived: `w` is its width, `n` its value, and `size` what
-- the adjustments make of it, the length of the whole frame.
pub record HasHeader (s : Decoding) (w : Width) (n : ℕ) (frame_length : ℕ) : Type 0 where
  pub valid : IsValid s.input
  pub idle : s.decoder.discarding ≡ false
  pub field : s.decoder.length_field_length ≡ size w
  pub end : s.decoder.length_field_end_offset ≡ s.decoder.length_field_offset + size w
  pub arrived : s.decoder.length_field_end_offset ≤ length (contents s.input)
  pub value :
      length_value w (decode_field w (drop s.decoder.length_field_offset (contents s.input)))
      ≡ pos n
  pub extra : IsInt (s.decoder.length_adjustment +ℤ pos s.decoder.length_field_end_offset)
  pub adjusted :
      pos n +ℤ (s.decoder.length_adjustment +ℤ pos s.decoder.length_field_end_offset)
      ≡ pos frame_length
  pub fits_long : frame_length < 2 ^ 63

decode_length_lem :
    (s : Decoding) (w : Width) (n m : ℕ)
    → HasHeader s w n m
    → decode_length s ≡ decode_frame (pos m) s
unfolding decode_length
decode_length_lem s w n m h =
    let d = s.decoder in
    let r = s.input.reader_index in
    let field : get_unadjusted_frame_length (r + d.length_field_offset) d.length_field_length
          s.input
        ≡ (ok (pos n), s.input) =
      ap (λ k. get_unadjusted_frame_length (r + d.length_field_offset) k s.input) h.field
      ∙ get_unadjusted_frame_length_lem w s.input d.length_field_offset h.valid
          (omega (arith, h.arrived, h.end))
      ∙ ap (λ x. (ok x, s.input)) h.value in
    rw
      (
        field,
        le→ltb n 0 (omega arith),
        int_sum_lem (d.length_adjustment +ℤ pos d.length_field_end_offset) s h.extra,
        h.adjusted,
        lt→ltb m (2 ^ 63) h.fits_long,
      )
      refl

decode_lem :
    (s : Decoding) (w : Width) (n m : ℕ) → HasHeader s w n m → decode s ≡ decode_frame (pos m) s
unfolding decode decode_header
decode_lem s w n m h =
    simp
      (
        h.idle,
        le→ltb (readable_bytes s.input) s.decoder.length_field_end_offset
            (omega (arith, h.arrived, readable-length s h.valid)),
      )
      (decode_length_lem s w n m h)

-- The length of the frame is one that the decoder accepts.
pub record IsAccepted (d : FrameDecoder) (frame_length : ℕ) : Type 0 where
  pub not_short : d.length_field_end_offset ≤ frame_length
  pub not_long : frame_length ≤ d.max_frame_length
  pub strips : d.initial_bytes_to_strip ≤ frame_length

decode_frame_accepted :
    (s : Decoding) (m : ℕ)
    → IsAccepted s.decoder m
    → decode_frame (pos m) s
      ≡ (if ltb (readable_bytes s.input) m then (ok none, s) else take_frame m s)
unfolding decode_frame
decode_frame_accepted s m a =
    rw
      (
        le→ltb m s.decoder.length_field_end_offset a.not_short,
        le→ltb s.decoder.max_frame_length m a.not_long,
      )
      refl

-- With a valid buffer in which a length field is complete that announces an accepted frame length,
-- and the whole frame there, decode returns the slice of the frame without the bytes to strip, takes
-- exactly the bytes of the frame from the buffer, changes nothing else, and keeps the buffer valid.
pub decode_whole :
    (s : Decoding) (w : Width) (n m : ℕ)
    → HasHeader s w n m
    → IsAccepted s.decoder m
    → m ≤ length (contents s.input)
    → (decode s ≡ (ok (some (frame_of s m)), skipped s m))
      × IsValid (passed s.input m)
      × (contents (passed s.input m) ≡ drop m (contents s.input))
decode_whole s w n m h a whole =
    let (_, v, c) = skip_bytes_lem m s.input h.valid whole in
    (
      decode_lem s w n m h
          ∙ decode_frame_accepted s m a
          ∙ rw (le→ltb (readable_bytes s.input) m (omega (arith, whole, readable-length s h.valid)))
              (take_frame_lem s m h.valid a.strips whole),
      v,
      c,
    )

-- With a valid buffer in which a length field is complete that announces an accepted frame length,
-- but not the whole frame there, decode returns no frame and changes neither the buffer nor the
-- decoder.
pub decode_partial :
    (s : Decoding) (w : Width) (n m : ℕ)
    → HasHeader s w n m
    → IsAccepted s.decoder m
    → length (contents s.input) < m
    → decode s ≡ (ok none, s)
decode_partial s w n m h a part =
    decode_lem s w n m h
    ∙ decode_frame_accepted s m a
    ∙ rw (lt→ltb (readable_bytes s.input) m (omega (arith, part, readable-length s h.valid))) refl

pub decode_no_header :
    (s : Decoding)
    → IsValid s.input
    → s.decoder.discarding ≡ false
    → length (contents s.input) < s.decoder.length_field_end_offset
    → decode s ≡ (ok none, s)
unfolding decode decode_header
decode_no_header s v idle part =
    simp
      (
        idle,
        lt→ltb (readable_bytes s.input) s.decoder.length_field_end_offset
            (omega (arith, part, readable-length s v)),
      )
      refl
