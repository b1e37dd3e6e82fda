-- ===== src/Decoder/Stream.antt =====
-- LengthFieldBasedFrameDecoder.hpp under ByteToMessageDecoder::callDecode: a stream of frames.
use cpp_nio_socket.Common.{
  ℕ, zero, suc, ◌+◌, ◌-◌, ◌^◌, ◌≤◌, ◌<◌, ◌≡◌, refl, sym, ap, ◌∙◌, ◌⊎◌, inl, inr, arith, dec_lt,
  Option, none, some, false, lt→ltb, le→ltb, ==_eq, ==_ne, List, [], ◌∷◌, ◌++◌, append-nil,
  append_assoc, length, length-append, drop, drop-append_left, drop-append_right, length-drop, pos,
  ◌+ℤ◌, ok, Outcome,
}
use cpp_nio_socket.Memory.{Width, char, short, int, long, size}
use cpp_nio_socket.Memory.Laws.{decode-append, decode as decode_field}
use cpp_nio_socket.Buffer.{CharBuf, readable_bytes}
use cpp_nio_socket.Buffer.Valid.{IsValid, contents}
use cpp_nio_socket.Buffer.Fifo.{passed}
use cpp_nio_socket.ByteToMessage.{Loop, round, run_rounds, raise_last, call_decode}
use cpp_nio_socket.Decoder.{Decoding, FrameDecoder, Frame, decode_into}
use cpp_nio_socket.Decoder.Header.{length_value, skipped}
use cpp_nio_socket.Decoder.Frames.{
  HasHeader, IsAccepted, IsInt, frame_of, readable-length, decode_whole, decode_partial,
  decode_no_header,
}

-- What the base class asks of the read buffer.
abbrev pub readable : Decoding → ℕ
readable s = readable_bytes s.input

-- A decoder for length fields of width `w` as `new_decoder` makes it.
pub record IsConfigured (d : FrameDecoder) (w : Width) : Type 0 where
  pub idle : d.discarding ≡ false
  pub field : d.length_field_length ≡ size w
  pub end : d.length_field_end_offset ≡ d.length_field_offset + size w
  pub extra : IsInt (d.length_adjustment +ℤ pos d.length_field_end_offset)

-- The bytes begin with a length field, from which the length of the frame comes out as `m`.
pub record Announces (d : FrameDecoder) (w : Width) (m : ℕ) (bytes : List ℕ) : Type 0 where
  pub n : ℕ
  pub arrived : d.length_field_end_offset ≤ length bytes
  pub value : length_value w (decode_field w (drop d.length_field_offset bytes)) ≡ pos n
  pub adjusted : pos n +ℤ (d.length_adjustment +ℤ pos d.length_field_end_offset) ≡ pos m
  pub fits_long : m < 2 ^ 63
  pub accepted : IsAccepted d m

-- All of the frames, and none is short of what it announces.
abbrev pub AreFrames : FrameDecoder → Width → List (List ℕ) → Type 0
AreFrames d w [] = Unit
AreFrames d w (f ∷ fs) = Announces d w (length f) f × AreFrames d w fs

-- The start of a frame.
abbrev pub IsPartial : FrameDecoder → Width → List ℕ → Type 0
IsPartial d w tail =
    (length tail < d.length_field_end_offset) ⊎ ((m : ℕ) × Announces d w m tail × (length tail < m))

abbrev pub concat : List (List ℕ) → List ℕ → List ℕ
concat [] tail = tail
concat (f ∷ fs) tail = f ++ concat fs tail

-- The slices that the frames are in a buffer which is read from `index` on.
abbrev pub slices : FrameDecoder → ℕ → List (List ℕ) → List Frame
slices d index [] = []
slices d index (f ∷ fs) =
    record { index = index + d.initial_bytes_to_strip; size = length f - d.initial_bytes_to_strip }
    ∷ slices d (index + length f) fs

module _ (d : FrameDecoder) (w : Width) (config : IsConfigured d w) where
  pub header-append :
      (bytes rest : List ℕ)
      → d.length_field_end_offset ≤ length bytes
      → length_value w (decode_field w (drop d.length_field_offset (bytes ++ rest)))
        ≡ length_value w (decode_field w (drop d.length_field_offset bytes))
  header-append bytes rest arrived =
      ap (λ (l : List ℕ). length_value w (decode_field w l))
        (drop-append_left d.length_field_offset bytes rest (omega (arith, config.end)))
      ∙ ap (length_value w) (
          decode-append w (drop d.length_field_offset bytes) rest
            (omega (arith, length-drop d.length_field_offset bytes, config.end)))

  pub Announces-append :
      (m : ℕ) (bytes rest : List ℕ) → Announces d w m bytes → Announces d w m (bytes ++ rest)
  Announces-append m bytes rest a = record {
    n = a.n;
    arrived = omega (arith, length-append bytes rest, a.arrived);
    value = header-append bytes rest a.arrived ∙ a.value;
    adjusted = a.adjusted;
    fits_long = a.fits_long;
    accepted = a.accepted;
  }

  header_of :
      (b : CharBuf) (m : ℕ) (bytes : List ℕ)
      → IsValid b
      → contents b ≡ bytes
      → Announces d w m bytes
      → (n : ℕ) × HasHeader (record { decoder = d; input = b }) w n m
  header_of b m bytes v c a = (
    a.n,
    record {
      valid = v;
      idle = config.idle;
      field = config.field;
      end = config.end;
      arrived = omega (arith, ap length c, a.arrived);
      value =
          ap (λ (l : List ℕ). length_value w (decode_field w (drop d.length_field_offset l))) c
          ∙ a.value;
      extra = config.extra;
      adjusted = a.adjusted;
      fits_long = a.fits_long;
    },
  )

  -- One frame at the front.
  pub decode_first :
      (b : CharBuf) (f rest : List ℕ)
      → IsValid b
      → contents b ≡ f ++ rest
      → Announces d w (length f) f
      → let s : Decoding = record { decoder = d; input = b } in
        (decode_into s ≡ (ok (frame_of s (length f) ∷ []), skipped s (length f)))
        × IsValid (passed b (length f))
        × (contents (passed b (length f)) ≡ rest)
  unfolding decode_into
  decode_first b f rest v c a =
      let (n, h) = header_of b (length f) (f ++ rest) v c (Announces-append (length f) f rest a) in
      let whole : length f ≤ length (contents b) =
        omega (arith, ap length c, length-append f rest) in
      let (e, v', c') =
        decode_whole (record { decoder = d; input = b }) w n (length f) h a.accepted whole in
      let z : length f - length f ≡ 0 = omega arith in
      (
        rw e refl,
        v',
        c'
            ∙ ap (drop (length f)) c
            ∙ drop-append_right (length f) f rest (omega arith)
            ∙ ap (λ k. drop k rest) z,
      )

  pub decode_rest :
      (b : CharBuf) (tail : List ℕ)
      → IsValid b
      → contents b ≡ tail
      → IsPartial d w tail
      → let s : Decoding = record { decoder = d; input = b } in decode_into s ≡ (ok [], s)
  unfolding decode_into
  decode_rest b tail v c (inl short_of_header) =
      rw
        (decode_no_header (record { decoder = d; input = b }) v config.idle
          (omega (arith, ap length c)))
        refl
  decode_rest b tail v c (inr (m, a, part)) =
      let (n, h) = header_of b m tail v c a in
      rw
        (decode_partial (record { decoder = d; input = b }) w n m h a.accepted
          (omega (arith, ap length c)))
        refl

  pub size-pos : (u : Width) → 0 < size u
  size-pos char = omega arith
  size-pos short = omega arith
  size-pos int = omega arith
  size-pos long = omega arith

  abbrev pub decoding : CharBuf → Decoding
  decoding b = record { decoder = d; input = b }

  abbrev loop_at : CharBuf → List Frame → List Frame → Loop Decoding Frame
  loop_at b out fired = record { state = decoding b; out = out; fired = fired; ex = none }

  -- The loop ended without an exception, with `tail` in the buffer and `frames` passed on.
  abbrev pub Delivers :
      Option (Outcome (Unit {0}) × Loop Decoding Frame) → List Frame → List ℕ → Type 0
  Delivers r frames tail =
      (l : Loop Decoding Frame) × (r ≡ some (ok tt, l))
      × (l.fired ++ l.out ≡ frames)
      × (l.ex ≡ none)
      × (l.state.decoder ≡ d)
      × IsValid l.state.input
      × (contents l.state.input ≡ tail)

  run_rounds_tail :
      (fuel : ℕ) (b : CharBuf) (tail : List ℕ) (out fired : List Frame)
      → IsValid b
      → contents b ≡ tail
      → IsPartial d w tail
      → Delivers
          (run_rounds readable decode_into false (suc fuel) (loop_at b out fired))
          (fired ++ out)
          tail
  unfolding run_rounds round
  run_rounds_tail fuel b tail out fired v c part = elim (dec_lt 0 (readable_bytes b)) [
    | no empty ↦ (
      loop_at b out fired,
      rw (le→ltb 0 (readable_bytes b) (omega arith)) refl,
      refl,
      refl,
      refl,
      v,
      c,
    )
    | yes more ↦ (
      loop_at b [] (fired ++ out),
      rw
          (
            lt→ltb 0 (readable_bytes b) more,
            decode_rest b tail v c part,
            ==_eq (readable_bytes b) (readable_bytes b) refl,
          )
          refl,
      append-nil (fired ++ out),
      refl,
      refl,
      v,
      c,
    )
  ]

  run_rounds_frames :
      (fuel : ℕ) (fs : List (List ℕ)) (b : CharBuf) (tail : List ℕ) (out fired : List Frame)
      → length (contents b) < fuel
      → IsValid b
      → contents b ≡ concat fs tail
      → AreFrames d w fs
      → IsPartial d w tail
      → Delivers
          (run_rounds readable decode_into false fuel (loop_at b out fired))
          ((fired ++ out) ++ slices d b.reader_index fs)
          tail
  unfolding run_rounds round
  run_rounds_frames zero fs b tail out fired few v c frames part = absurd (omega arith)
  run_rounds_frames (suc fuel) [] b tail out fired few v c frames part =
      let (l, e, g, x, same, v', c') = run_rounds_tail fuel b tail out fired v c part in
      (l, e, g ∙ sym (append-nil (fired ++ out)), x, same, v', c')
  run_rounds_frames (suc fuel) (f ∷ fs) b tail out fired few v c (a, frames) part =
      let (e, v', c') = decode_first b f (concat fs tail) v c a in
      let m : 0 < length f = omega (arith, size-pos w, config.end, a.accepted.not_short) in
      let n = readable-length (decoding b) v in
      let n' = readable-length (decoding (passed b (length f))) v' in
      let k = ap length c in
      let k' = ap length c' in
      let j = length-append f (concat fs tail) in
      let (l, q, g, x, same, v2, c2) =
        run_rounds_frames fuel fs (passed b (length f)) tail (frame_of (decoding b) (length f) ∷ [])
          (fired ++ out) (omega arith) v' c' frames part in
      (
        l,
        rw
            (
              lt→ltb 0 (readable_bytes b) (omega arith),
              e,
              ==_ne (readable_bytes b) (readable_bytes (passed b (length f))) (omega arith),
            )
            q,
        g ∙ append_assoc (fired ++ out) (frame_of (decoding b) (length f) ∷ []) _,
        x,
        same,
        v2,
        c2,
      )

  -- callDecode (without single-decode mode) on a valid buffer that holds frames which follow one
  -- another and then the start of another frame, for a decoder whose length field is 1, 2, 4 or 8
  -- bytes wide and each frame of which announces its own length with an accepted value, passes on
  -- exactly the slices of the whole frames, in order, throws nothing, leaves the decoder as it was,
  -- and leaves the start of the last frame in the valid buffer. One round more than there are bytes
  -- is enough fuel.
  pub call_decode_stream :
      (b : CharBuf) (fs : List (List ℕ)) (tail : List ℕ) (fuel : ℕ)
      → length (contents b) < fuel
      → IsValid b
      → contents b ≡ concat fs tail
      → AreFrames d w fs
      → IsPartial d w tail
      → Delivers
          (call_decode readable decode_into false fuel (decoding b))
          (slices d b.reader_index fs)
          tail
  unfolding call_decode
  call_decode_stream b fs tail fuel few v c frames part =
      let (l, e, g, x, same, v', c') = run_rounds_frames fuel fs b tail [] [] few v c frames part in
      (
        l,
        rw e (ap (λ y. some (y, l)) (ap (raise_last readable decode_into false) x)),
        g,
        x,
        same,
        v',
        c',
      )
