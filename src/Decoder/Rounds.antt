-- ===== src/Decoder/Rounds.antt =====
-- ByteToMessageDecoder::callDecode with LengthFieldBasedFrameDecoder on a counted buffer.
use cpp_nio_socket.Common.{
  ℕ, zero, suc, ◌<◌, ◌≡◌, refl, sym, ap, ◌∙◌, arith, dec_lt, Option, none, some, false, lt→ltb,
  le→ltb, ==_eq, ==_ne, List, [], ◌∷◌, ◌++◌, append-nil, append_assoc, length, length-append, ok,
  Outcome,
}
use cpp_nio_socket.Memory.{Width}
use cpp_nio_socket.Buffer.{readable_bytes}
use cpp_nio_socket.Buffer.Valid.{contents}
use cpp_nio_socket.Buffer.Fifo.{passed}
use cpp_nio_socket.Buffer.Transfer.{readable-length}
use cpp_nio_socket.ByteToMessage.{Loop, round, run_rounds, raise_last, call_decode}
use cpp_nio_socket.ByteToMessage.Cumulation.{Counted, retain, readable_of}
use cpp_nio_socket.ByteToMessage.Reset.{Unread}
use cpp_nio_socket.Decoder.{FrameDecoder}
use cpp_nio_socket.Decoder.Stream.{IsConfigured, AreFrames, IsPartial, concat, size-pos}
use cpp_nio_socket.Decoder.Slices.{
  decode_retained, payload, handed_on, decode_retained_first, decode_retained_rest,
}

abbrev pub payloads : FrameDecoder → List (List ℕ) → List (List ℕ)
payloads d [] = []
payloads d (f ∷ fs) = payload d f ∷ payloads d fs

abbrev CountedLoop : Type 0
CountedLoop = Loop (FrameDecoder × Counted) (List ℕ)

abbrev readable : FrameDecoder × Counted → ℕ
readable = readable_of decode_retained false

module _ (d : FrameDecoder) (w : Width) (config : IsConfigured d w) where
  abbrev loop_at : Counted → List (List ℕ) → List (List ℕ) → CountedLoop
  loop_at c out fired = record { state = (d, c); out = out; fired = fired; ex = none }

  -- The loop ended without an exception, with `tail` unread in the buffer and `out` decoded.
  abbrev pub Decodes :
      ℕ → Option (Outcome (Unit {0}) × CountedLoop) → List (List ℕ) → List ℕ → Type 0
  Decodes used r out tail =
      (l : CountedLoop) × (r ≡ some (ok tt, l))
      × (l.fired ++ l.out ≡ out)
      × (l.ex ≡ none)
      × (l.state.0 ≡ d)
      × Unread used tail (some (l.state.1))

  run_rounds_tail :
      (fuel used : ℕ) (c : Counted) (tail : List ℕ) (out fired : List (List ℕ))
      → Unread used tail (some c)
      → IsPartial d w tail
      → Decodes used
          (run_rounds readable decode_retained false (suc fuel) (loop_at c out fired))
          (fired ++ out)
          tail
  unfolding run_rounds round
  run_rounds_tail fuel used c tail out fired (r, k, u) part =
      elim (dec_lt 0 (readable_bytes c.buf)) [
        | no empty ↦ (
          loop_at c out fired,
          rw (le→ltb 0 (readable_bytes c.buf) (omega arith)) refl,
          refl,
          refl,
          refl,
          (r, k, u),
        )
        | yes more ↦ (
          loop_at c [] (fired ++ out),
          rw
              (
                lt→ltb 0 (readable_bytes c.buf) more,
                decode_retained_rest d w config c tail r.valid k part,
                ==_eq (readable_bytes c.buf) (readable_bytes c.buf) refl,
              )
              refl,
          append-nil (fired ++ out),
          refl,
          refl,
          (r, k, u),
        )
      ]

  run_rounds_frames :
      (fuel used : ℕ) (fs : List (List ℕ)) (c : Counted) (tail : List ℕ) (out fired : List (List ℕ))
      → length (contents c.buf) < fuel
      → Unread used (concat fs tail) (some c)
      → AreFrames d w fs
      → IsPartial d w tail
      → Decodes used
          (run_rounds readable decode_retained false fuel (loop_at c out fired))
          ((fired ++ out) ++ payloads d fs)
          tail
  unfolding run_rounds round retain
  run_rounds_frames zero used fs c tail out fired few h frames part = absurd (omega arith)
  run_rounds_frames (suc fuel) used [] c tail out fired few h frames part =
      let (l, e, g, x, same, kept) = run_rounds_tail fuel used c tail out fired h part in
      (l, e, g ∙ sym (append-nil (fired ++ out)), x, same, kept)
  run_rounds_frames (suc fuel) used (f ∷ fs) c tail out fired few (r, k, u) (a, frames) part =
      let (e, r', k') = decode_retained_first d w config c f (concat fs tail) r k a in
      let m : 0 < length f =
        omega (arith, size-pos d w config w, config.end, a.accepted.not_short) in
      let n = readable-length c.buf r.valid in
      let n' = readable-length (passed c.buf (length f)) r'.valid in
      let j = length-append f (concat fs tail) in
      let lk = ap length k in
      let lk' = ap length k' in
      let (l, q, g, x, same, kept) =
        run_rounds_frames fuel used fs (handed_on c (length f)) tail (payload d f ∷ [])
          (fired ++ out) (omega arith) (r', k', u) frames part in
      (
        l,
        rw
            (
              lt→ltb 0 (readable_bytes c.buf) (omega arith),
              e,
              ==_ne (readable_bytes c.buf) (readable_bytes (passed c.buf (length f))) (omega arith),
            )
            q,
        g ∙ append_assoc (fired ++ out) (payload d f ∷ []) _,
        x,
        same,
        kept,
      )

  -- callDecode on a buffer of frames and the start of another one.
  pub call_decode-Decodes :
      (used : ℕ) (fs : List (List ℕ)) (c : Counted) (tail : List ℕ)
      → Unread used (concat fs tail) (some c)
      → AreFrames d w fs
      → IsPartial d w tail
      → Decodes used
          (call_decode readable decode_retained false (suc (readable_bytes c.buf)) (d, c))
          (payloads d fs)
          tail
  unfolding call_decode
  call_decode-Decodes used fs c tail (r, k, u) frames part =
      let (l, e, g, x, same, kept) =
        run_rounds_frames (suc (readable_bytes c.buf)) used fs c tail [] []
          (omega (arith, readable-length c.buf r.valid)) (r, k, u) frames part in
      (
        l,
        rw e (ap (λ y. some (y, l)) (ap (raise_last readable decode_retained false) x)),
        g,
        x,
        same,
        kept,
      )
