-- ===== src/ByteToMessage/Gather.antt =====
-- MergeCumulator of ByteToMessageDecoder.cpp: the bytes of a message follow the unread ones.
use cpp_nio_socket.Common.{
  ℕ, ◌+◌, ◌^◌, ◌≤◌, ◌≡◌, refl, sym, ap, ◌∙◌, arith, true, false, Option, none, some, List, [], ◌∷◌,
  ◌++◌, Outcome, ok, lt→leb, le→ltb, if_false,
}
use cpp_nio_socket.Buffer.{readable_bytes}
use cpp_nio_socket.Buffer.Valid.{contents}
use cpp_nio_socket.Buffer.Transfer.{IsRoomy, write_from_lem, read_up}
use cpp_nio_socket.ByteToMessage.Cumulation.{
  Counted, Handler, retain, append_message, cumulate, gather,
}
use cpp_nio_socket.ByteToMessage.Reset.{Unread}

module _ {D E : Type 0} (fresh : ℕ → ℕ) (message : Counted) (good : IsRoomy message.buf) where
  -- A step that ends normally with the unread bytes `u` in a cumulation, and neither fires nor decodes.
  abbrev pub Gathers : ℕ → List ℕ → Handler D E → Outcome (Unit {0}) × Handler D E → Type 0
  Gathers used u h r =
      (h' : Handler D E) × (c : Counted) × (r ≡ (ok tt, h'))
      × (h'.cumulation ≡ some c)
      × Unread used u (some c)
      × (h'.decoder ≡ h.decoder)
      × (h'.fired ≡ h.fired)

  append_message-Gathers :
      (used : ℕ) (u : List ℕ) (c : Counted) (h : Handler D E)
      → h.cumulation ≡ some c
      → Unread used u (some c)
      → used + message.buf.writer_index ≤ 2 ^ 30
      → Gathers
          (used + message.buf.writer_index)
          (u ++ contents message.buf)
          h
          (append_message fresh message h)
  unfolding append_message readable_bytes
  append_message-Gathers used u c h e (r, k, w) few =
      let (b, run, roomy, k', w') =
        write_from_lem fresh message.buf c.buf good.valid r (omega arith) in
      (
        record h {
          cumulation = some (record c { buf = b });
          copied = h.copied ++ (record message { buf = read_up message.buf } ∷ []);
        },
        record c { buf = b },
        rw (e, run) refl,
        refl,
        (roomy, k' ∙ ap (λ l. l ++ contents message.buf) k, omega arith),
        refl,
        refl,
      )

  cumulate-Gathers :
      (used : ℕ) (u : List ℕ) (c : Counted) (h : Handler D E)
      → h.cumulation ≡ some c
      → Unread used u (some c)
      → used + message.buf.writer_index ≤ 2 ^ 30
      → Gathers
          (used + message.buf.writer_index)
          (u ++ contents message.buf)
          h
          (cumulate fresh message c h)
  unfolding cumulate readable_bytes
  cumulate-Gathers used u c h e (r, k, w) few =
      let n = c.buf.writer_index + readable_bytes message.buf in
      let (h', c', run, at, kept, d, f) = append_message-Gathers used u c h e (r, k, w) few in
      (
        h',
        c',
        if_false _ _ _ (lt→leb (2 ^ 31) n (omega arith))
            ∙ if_false _ _ _ (le→ltb c.buf.max_capacity n (omega (arith, r.widest)))
            ∙ run,
        at,
        kept,
        d,
        f,
      )

  -- The first branch of channelRead, which leaves the bytes of the message behind the unread ones.
  pub gather-Gathers :
      (used : ℕ) (u : List ℕ) (o : Option Counted) (h : Handler D E)
      → h.cumulation ≡ o
      → Unread used u o
      → used + message.buf.writer_index ≤ 2 ^ 30
      → Gathers
          (used + message.buf.writer_index)
          (u ++ contents message.buf)
          h
          (gather fresh message o h)
  unfolding retain
  gather-Gathers used u none h e empty few = (
    record h { first = true; cumulation = some (retain message) },
    retain message,
    refl,
    refl,
    (good, ap (λ l. l ++ contents message.buf) (sym empty), omega arith),
    refl,
    refl,
  )
  gather-Gathers used u (some c) h e r few =
      cumulate-Gathers used u c (record h { first = false }) e r few
