-- ===== src/Decoder/Slices.antt =====
-- LengthFieldBasedFrameDecoder.hpp on a counted buffer: every frame is a slice that retains it, and
-- stands here for the bytes that it shows when it is made.
use cpp_nio_socket.Common.{
  ℕ, ◌+◌, ◌-◌, ◌≤◌, ◌≡◌, sym, ap, ◌∙◌, arith, List, [], ◌∷◌, ◌++◌, length, length-append, take,
  drop, take-take, take-append_left, take-all, Outcome, M, ok, err,
}
use cpp_nio_socket.Memory.{Width}
use cpp_nio_socket.Buffer.{CharBuf, readable_bytes}
use cpp_nio_socket.Buffer.Valid.{IsValid, contents}
use cpp_nio_socket.Buffer.Window.{window, drop-window}
use cpp_nio_socket.Buffer.Append.{length-contents}
use cpp_nio_socket.Buffer.Fifo.{passed}
use cpp_nio_socket.Buffer.Transfer.{IsRoomy}
use cpp_nio_socket.ByteToMessage.Cumulation.{Counted, retain}
use cpp_nio_socket.Decoder.{Decoding, FrameDecoder, Frame, decode_into}
use cpp_nio_socket.Decoder.Stream.{IsConfigured, Announces, IsPartial, decode_first, decode_rest}

-- extractFrame: the slice shows these bytes.
abbrev pub slice_chars : CharBuf → Frame → List ℕ
slice_chars b f = window b.array f.index f.size

abbrev pub all_slices : CharBuf → List Frame → List (List ℕ)
all_slices b [] = []
all_slices b (f ∷ fs) = slice_chars b f ∷ all_slices b fs

-- retainedSlice retains the buffer that it slices.
abbrev pub retain_all : List Frame → Counted → Counted
retain_all [] c = c
retain_all (f ∷ fs) c = retain (retain_all fs c)

abbrev pub with_slices :
    Counted → Outcome (List Frame) × Decoding → Outcome (List (List ℕ)) × (FrameDecoder × Counted)
with_slices c (err e, s) = (err e, (s.decoder, record c { buf = s.input }))
with_slices c (ok fs, s) =
    (ok (all_slices s.input fs), (s.decoder, retain_all fs (record c { buf = s.input })))

unfoldable pub decode_retained : M (FrameDecoder × Counted) (List (List ℕ))
unfolding decode_into
decode_retained (d, c) = with_slices c (decode_into (record { decoder = d; input = c.buf }))

-- What the slice of a frame shows.
abbrev pub payload : FrameDecoder → List ℕ → List ℕ
payload d f = drop d.initial_bytes_to_strip f

-- The counted buffer after a frame of `n` bytes.
abbrev pub handed_on : Counted → ℕ → Counted
handed_on c n = retain (record c { buf = passed c.buf n })

module _ (d : FrameDecoder) (w : Width) (config : IsConfigured d w) where
  slice_chars_lem :
      (b : CharBuf) (f rest : List ℕ)
      → d.initial_bytes_to_strip ≤ length f
      → contents b ≡ f ++ rest
      → length f ≤ readable_bytes b
      → window b.array
          (b.reader_index + d.initial_bytes_to_strip)
          (length f - d.initial_bytes_to_strip)
        ≡ payload d f
  slice_chars_lem b f rest strip c whole =
      let k = d.initial_bytes_to_strip in
      let front : window b.array b.reader_index (length f) ≡ f =
        sym (take-take (length f) (readable_bytes b) (drop b.reader_index b.array) whole)
        ∙ ap (take (length f)) c
        ∙ take-append_left (length f) f rest (omega arith)
        ∙ take-all (length f) f (omega arith) in
      sym (drop-window b.array b.reader_index (length f) k strip) ∙ ap (drop k) front

  passed-IsRoomy : (b : CharBuf) (n : ℕ) → IsRoomy b → IsValid (passed b n) → IsRoomy (passed b n)
  passed-IsRoomy b n r v = record {
    valid = v;
    nonempty = r.nonempty;
    even = r.even;
    small = r.small;
    widest = r.widest;
  }

  pub decode_retained_first :
      (c : Counted) (f rest : List ℕ)
      → IsRoomy c.buf
      → contents c.buf ≡ f ++ rest
      → Announces d w (length f) f
      → (decode_retained (d, c) ≡ (ok (payload d f ∷ []), (d, handed_on c (length f))))
        × IsRoomy (passed c.buf (length f))
        × (contents (passed c.buf (length f)) ≡ rest)
  unfolding decode_retained readable_bytes
  decode_retained_first c f rest r k a =
      let (e, v, k') = decode_first d w config c.buf f rest r.valid k a in
      let whole : length f ≤ c.buf.writer_index - c.buf.reader_index =
        omega (arith, length-contents c.buf r.valid, ap length k, length-append f rest) in
      (
        ap (with_slices c) e
            ∙ ap (λ (l : List ℕ). (ok (l ∷ []), (d, handed_on c (length f))))
                (slice_chars_lem c.buf f rest a.accepted.strips k whole),
        passed-IsRoomy c.buf (length f) r v,
        k',
      )

  pub decode_retained_rest :
      (c : Counted) (tail : List ℕ)
      → IsValid c.buf
      → contents c.buf ≡ tail
      → IsPartial d w tail
      → decode_retained (d, c) ≡ (ok [], (d, c))
  unfolding decode_retained
  decode_retained_rest c tail v k part =
      ap (with_slices c) (decode_rest d w config c.buf tail v k part)
