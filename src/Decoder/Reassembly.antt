-- ===== src/Decoder/Reassembly.antt =====
-- ByteToMessageDecoder::channelRead with LengthFieldBasedFrameDecoder: messages that cut a stream of
-- frames anywhere.
use cpp_nio_socket.Common.{
  ℕ, suc, ◌+◌, ◌^◌, ◌≤◌, ◌≡◌, refl, sym, ap, subst, ◌∙◌, inl, arith, false, Option, some, List, [],
  ◌∷◌, ◌++◌, append-nil, append_assoc, Outcome, ok, bind,
}
use cpp_nio_socket.Memory.{Width}
use cpp_nio_socket.Buffer.{readable_bytes}
use cpp_nio_socket.Buffer.Valid.{contents}
use cpp_nio_socket.Buffer.Transfer.{IsRoomy}
use cpp_nio_socket.ByteToMessage.{Loop, call_decode}
use cpp_nio_socket.ByteToMessage.Cumulation.{
  Counted, Handler, inbound, new_handler, after_decoding, decode_cumulation, channel_read,
  readable_of,
}
use cpp_nio_socket.ByteToMessage.Reset.{Unread, reset_cumulation-Leaves}
use cpp_nio_socket.ByteToMessage.Gather.{gather-Gathers}
use cpp_nio_socket.Decoder.{FrameDecoder}
use cpp_nio_socket.Decoder.Stream.{IsConfigured, AreFrames, IsPartial, concat, size-pos}
use cpp_nio_socket.Decoder.Slices.{decode_retained, payload}
use cpp_nio_socket.Decoder.Rounds.{payloads, call_decode-Decodes}
use cpp_nio_socket.Decoder.Split.{stream-Cut, IsPartial-none}

abbrev pub Inbound : Type 0
Inbound = Handler FrameDecoder (List ℕ)

abbrev pub read_message : (ℕ → ℕ) → Counted → Inbound → Outcome (Unit {0}) × Inbound
read_message fresh message = channel_read decode_retained false fresh (inbound message)

-- The messages of a connection, one after the other.
unfoldable pub read_messages : (ℕ → ℕ) → List Counted → Inbound → Outcome (Unit {0}) × Inbound
read_messages fresh [] h = (ok tt, h)
read_messages fresh (m ∷ ms) h = bind (read_message fresh m h) (λ _ h. read_messages fresh ms h)

abbrev pub bytes_of : List Counted → List ℕ
bytes_of [] = []
bytes_of (m ∷ ms) = contents m.buf ++ bytes_of ms

-- How far the buffers of the messages have been written, together.
abbrev pub written : List Counted → ℕ
written [] = 0
written (m ∷ ms) = m.buf.writer_index + written ms

abbrev pub AreRoomy : List Counted → Type 0
AreRoomy [] = Unit
AreRoomy (m ∷ ms) = IsRoomy m.buf × AreRoomy ms

payloads-append :
    (d : FrameDecoder) (fs gs : List (List ℕ))
    → payloads d (fs ++ gs) ≡ payloads d fs ++ payloads d gs
payloads-append d [] gs = refl
payloads-append d (f ∷ fs) gs = ap (λ k. payload d f ∷ k) (payloads-append d fs gs)

decoded_by :
    FrameDecoder → Counted → Option (Outcome (Unit {0}) × Loop (FrameDecoder × Counted) (List ℕ))
decoded_by d c =
    call_decode (readable_of decode_retained false) decode_retained false
      (suc (readable_bytes c.buf)) (d, c)

module _ (d : FrameDecoder) (w : Width) (config : IsConfigured d w) where
  -- A run that ends normally, passes the payloads of the frames on, and leaves `tail` unread.
  abbrev pub Reassembles :
      ℕ → Inbound → Outcome (Unit {0}) × Inbound → List (List ℕ) → List ℕ → Type 0
  Reassembles used h r fs tail =
      (h' : Inbound) × (r ≡ (ok tt, h'))
      × (h'.fired ≡ h.fired ++ payloads d fs)
      × Unread used tail h'.cumulation
      × (h'.decoder ≡ d)

  module _ (fresh : ℕ → ℕ) where
    decode_cumulation-Reassembles :
        (used : ℕ) (c : Counted) (h : Inbound) (fs : List (List ℕ)) (tail : List ℕ)
        → h.cumulation ≡ some c
        → h.decoder ≡ d
        → Unread used (concat fs tail) (some c)
        → AreFrames d w fs
        → IsPartial d w tail
        → (out : List (List ℕ)) × (h' : Inbound) × (decode_cumulation decode_retained false
              h.cumulation h
            ≡ (ok out, h'))
          × (h'.fired ++ out ≡ h.fired ++ payloads d fs)
          × Unread used tail h'.cumulation
          × (h'.decoder ≡ d)
    unfolding decoded_by
    decode_cumulation-Reassembles used c h fs tail at same kept frames part =
        let (l, e, g, x, s, left) =
          call_decode-Decodes d w config used fs c tail kept frames part in
        (
          l.out,
          record h {
            decoder = l.state.0;
            cumulation = some (l.state.1);
            fired = h.fired ++ l.fired;
          },
          ap (λ o. decode_cumulation decode_retained false o h) at
              ∙ ap (λ k. after_decoding decode_retained false (decoded_by k c) h) same
              ∙ ap (λ o. after_decoding decode_retained false o h) e,
          append_assoc h.fired l.fired l.out ∙ ap (λ k. h.fired ++ k) g,
          left,
          s,
        )

    read_message-Reassembles :
        (used : ℕ) (m : Counted) (u : List ℕ) (h : Inbound) (fs : List (List ℕ)) (tail : List ℕ)
        → IsRoomy m.buf
        → used + m.buf.writer_index ≤ 2 ^ 30
        → Unread used u h.cumulation
        → h.decoder ≡ d
        → u ++ contents m.buf ≡ concat fs tail
        → AreFrames d w fs
        → IsPartial d w tail
        → Reassembles (used + m.buf.writer_index) h (read_message fresh m h) fs tail
    unfolding channel_read
    read_message-Reassembles used m u h fs tail good few kept same e frames part =
        let (h1, c, e1, at, kept1, d1, f1) =
          gather-Gathers fresh m good used u h.cumulation h refl kept few in
        let kept1' = subst (λ k. Unread (used + m.buf.writer_index) k (some c)) e kept1 in
        let (out, h2, e2, f2, kept2, d2) =
          decode_cumulation-Reassembles (used + m.buf.writer_index) c h1 fs tail at (d1 ∙ same)
            kept1' frames part in
        let (h3, e3, kept3, d3, f3) =
          reset_cumulation-Leaves (used + m.buf.writer_index) tail h2 kept2 in
        (
          record h3 { fired = h3.fired ++ out },
          rw (e1, e2, e3) refl,
          ap (λ k. k ++ out) f3 ∙ f2 ∙ ap (λ k. k ++ payloads d fs) f1,
          kept3,
          d3 ∙ d2,
        )

    read_messages-Reassembles :
        (ms : List Counted) (used : ℕ) (u : List ℕ) (h : Inbound) (fs : List (List ℕ))
        (tail : List ℕ)
        → AreRoomy ms
        → used + written ms ≤ 2 ^ 30
        → Unread used u h.cumulation
        → h.decoder ≡ d
        → IsPartial d w u
        → u ++ bytes_of ms ≡ concat fs tail
        → AreFrames d w fs
        → IsPartial d w tail
        → Reassembles (used + written ms) h (read_messages fresh ms h) fs tail
    unfolding read_messages
    read_messages-Reassembles [] used u h fs tail good few kept same begun e frames part =
        let (none_left, left) =
          IsPartial-none d w config u tail fs begun frames (sym (append-nil u) ∙ e) in
        (
          h,
          refl,
          sym (append-nil h.fired) ∙ ap (λ gs. h.fired ++ payloads d gs) (sym none_left),
          subst (λ k. Unread k tail h.cumulation) {x = used} {y = used + 0} (omega arith)
              (subst (λ v. Unread used v h.cumulation) left kept),
          same,
        )
    read_messages-Reassembles (m ∷ ms) used u h fs tail (g, good) few kept same begun e frames
          part =
        let c =
          stream-Cut d w config fs tail (u ++ contents m.buf) (bytes_of ms) frames part
            (append_assoc u (contents m.buf) (bytes_of ms) ∙ e) in
        let (h1, e1, f1, kept1, d1) =
          read_message-Reassembles used m u h c.arrived c.start g (omega arith) kept same c.front
            c.whole c.partial in
        let (h2, e2, f2, kept2, d2) =
          read_messages-Reassembles ms (used + m.buf.writer_index) c.start h1 c.to_come tail good
            (omega arith) kept1 d1 c.partial c.back c.others part in
        let sum : used + m.buf.writer_index + written ms
            ≡ used + (m.buf.writer_index + written ms) =
          omega arith in
        (
          h2,
          rw e1 e2,
          f2
              ∙ ap (λ k. k ++ payloads d c.to_come) f1
              ∙ append_assoc h.fired (payloads d c.arrived) (payloads d c.to_come)
              ∙ ap (λ k. h.fired ++ k)
                  (sym (payloads-append d c.arrived c.to_come) ∙ ap (payloads d) (sym c.all)),
          subst (λ k. Unread k tail h2.cumulation) sum kept2,
          d2,
        )

    -- For a decoder whose length field is 1, 2, 4 or 8 bytes wide, and messages in non-empty buffers
    -- of even capacity up to 2 ^ 30 and of the widest maximum, written up to 2 ^ 30 bytes together,
    -- whose readable bytes, however the messages cut them, are frames that follow one another and
    -- the start of another one, each frame announcing its own length with an accepted value:
    -- channelRead of one message after the other, from a new handler on, never throws, passes
    -- exactly the frames, stripped, on in order, leaves the start of the last frame unread, and
    -- leaves the decoder as it was.
    pub read_messages_lem :
        (ms : List Counted) (fs : List (List ℕ)) (tail : List ℕ)
        → AreRoomy ms
        → written ms ≤ 2 ^ 30
        → bytes_of ms ≡ concat fs tail
        → AreFrames d w fs
        → IsPartial d w tail
        → Reassembles (written ms) (new_handler d) (read_messages fresh ms (new_handler d)) fs tail
    unfolding new_handler
    read_messages_lem ms fs tail good few e frames part =
        subst (λ k. Reassembles k (new_handler d) (read_messages fresh ms (new_handler d)) fs tail)
          {x = 0 + written ms} {y = written ms} (omega arith)
          (read_messages-Reassembles ms 0 [] (new_handler d) fs tail good (omega arith) refl refl
            (inl (omega (arith, size-pos d w config w, config.end))) e frames part)
