-- ===== src/ByteToMessage/Cumulation.antt =====
-- ByteToMessageDecoder::channelRead with the cumulator, resetCumulation and channelInactive, over
-- buffers that are counted as in AbstractReferenceCountedCharBuf.hpp.
--
-- A buffer that the decoder lets go is kept in `released`, with the references that are left, and a
-- message whose bytes were copied in `copied`. The decoder of the subclass, `decode`, is a step on a
-- state `D` of its own and the buffer; as before, what goes to the next handler is `fired`.
-- UnpooledCharBufAllocator is the allocator; `deallocate` of its buffers does nothing.
use cpp_nio_socket.Common.{
  ℕ, suc, ◌+◌, ◌^◌, Bool, true, false, not, ◌&&◌, ◌||◌, Option, none, some, List, [], ◌∷◌, ◌++◌,
  ltb, leb, ◌==◌, if◌then◌else◌, ℤ, pos, negsuc, ◌+ℤ◌, ◌-ℤ◌, Outcome, M, ok, err, bind, ◌>>=◌, ◌>>◌,
  update, undefined, endless, decoder_exception,
}
use cpp_nio_socket.Buffer.{
  CharBuf, is_readable, readable_bytes, new_char_buf, char_buf_max_capacity,
}
use cpp_nio_socket.Buffer.Transfer.{write_from}
use cpp_nio_socket.Buffer.Discard.{discard_some_read_bytes}
use cpp_nio_socket.ByteToMessage.{is_exception, Loop, call_decode}

pub record Counted : Type 0 where
  pub buf : CharBuf
  pub ref_cnt : ℤ

-- retain(1) and release(1)
unfoldable pub retain : Counted → Counted
retain c = record c { ref_cnt = c.ref_cnt +ℤ pos 1 }

unfoldable pub release : Counted → Counted
release c = record c { ref_cnt = c.ref_cnt -ℤ pos 1 }

-- AbstractCharBufAllocator::heapBuffer; `none` is the null pointer.
unfoldable pub heap_buffer : (ℕ → ℕ) → ℕ → ℕ → Option CharBuf
heap_buffer fresh initial_capacity max_capacity =
    if (initial_capacity == 0 || max_capacity == 0) || ltb max_capacity initial_capacity
    then none
    else some (new_char_buf fresh initial_capacity max_capacity)

abbrev pub is_one : ℤ → Bool
is_one (pos n) = n == 1
is_one (negsuc n) = false

pub data Event (E : Type 0) : Type 0 where
  inbound : Counted → Event E
  other : E → Event E

pub record Handler (D E : Type 0) : Type 0 where
  pub decoder : D
  pub cumulation : Option Counted
  pub first : Bool
  pub num_reads : ℕ
  pub released : List Counted
  pub copied : List Counted
  pub fired : List E

-- discardAfterReads
abbrev pub discard_after_reads : ℕ
discard_after_reads = 4

unfoldable pub new_handler : {D E : Type 0} → D → Handler D E
new_handler d = record {
  decoder = d;
  cumulation = none;
  first = true;
  num_reads = 0;
  released = [];
  copied = [];
  fired = [];
}

module _ {D E : Type 0} where
  abbrev pub put_buffer :
      {A : Type 0} → Counted → Handler D E → Outcome A × CharBuf → Outcome A × Handler D E
  put_buffer c h (r, b) = (r, record h { cumulation = some (record c { buf = b }) })

  -- A method of `*cumulation_`.
  abbrev pub on_cumulation : {A : Type 0} → M CharBuf A → Option Counted → M (Handler D E) A
  on_cumulation m none h = (err undefined, h)
  on_cumulation m (some c) h = put_buffer c h (m c.buf)

  module _ (fresh : ℕ → ℕ) where
    -- What expandCumulation does once the new buffer is there. The old one is released at the end.
    abbrev pub expanded :
        Counted → Handler D E → Outcome CharBuf × CharBuf → Outcome (Unit {0}) × Handler D E
    expanded old h (err e, b) =
        (err e, record h { cumulation = some (record { buf = b; ref_cnt = pos 1 }) })
    expanded old h (ok read_up, b) = (
      ok tt,
      record h {
        cumulation = some (record { buf = b; ref_cnt = pos 1 });
        released = h.released ++ (release (record old { buf = read_up }) ∷ []);
      },
    )

    abbrev pub expand_into : Counted → Option CharBuf → M (Handler D E) (Unit {0})
    expand_into old none h = (err undefined, h)
    expand_into old (some b) h = expanded old h (write_from fresh old.buf b)

    -- A sum of two `int`s that does not fit is undefined.
    unfoldable pub expand_cumulation : ℕ → Counted → M (Handler D E) (Unit {0})
    expand_cumulation readable old h =
        if leb (2 ^ 31) (readable_bytes old.buf + readable)
        then (err undefined, h)
        else expand_into old
            (heap_buffer fresh (readable_bytes old.buf + readable) char_buf_max_capacity) h

    -- `buffer->writeChars(*in)`, where `buffer` is the cumulation.
    unfoldable pub append_message : Counted → M (Handler D E) (Unit {0})
    append_message message h =
        (do
          read_up ← (λ h. on_cumulation (write_from fresh message.buf) h.cumulation h)
          update (λ h. record h { copied = h.copied ++ (record message { buf = read_up } ∷ []) }))
          h

    -- MergeCumulator::cumulate
    unfoldable pub cumulate : Counted → Counted → M (Handler D E) (Unit {0})
    cumulate message c h =
        if leb (2 ^ 31) (c.buf.writer_index + readable_bytes message.buf)
        then (err undefined, h)
        else if ltb c.buf.max_capacity (c.buf.writer_index + readable_bytes message.buf)
        then (do expand_cumulation (readable_bytes message.buf) c; append_message message) h
        else append_message message h

    -- The first branch of channelRead: the message is the cumulation, or its bytes go there.
    abbrev pub gather : Counted → Option Counted → M (Handler D E) (Unit {0})
    gather message none h = (ok tt, record h { first = true; cumulation = some (retain message) })
    gather message (some c) h = cumulate message c (record h { first = false })

  -- The decoder's discardSomeReadBytes
  abbrev pub discard_if_own : Option Counted → M (Handler D E) (Unit {0})
  discard_if_own none h = (ok tt, h)
  discard_if_own (some c) h =
      if not h.first && is_one c.ref_cnt
      then put_buffer c h (discard_some_read_bytes c.buf)
      else (ok tt, h)

  -- `catch (const std::exception&)` without a rethrow
  abbrev pub swallow : Outcome (Unit {0}) × Handler D E → Outcome (Unit {0}) × Handler D E
  swallow (ok u, h) = (ok u, h)
  swallow (err e, h) = if is_exception e then (ok tt, h) else (err e, h)

  abbrev pub count_read : M (Handler D E) (Unit {0})
  count_read h =
      if leb discard_after_reads (h.num_reads + 1)
      then discard_if_own h.cumulation (record h { num_reads = 0 })
      else (ok tt, record h { num_reads = h.num_reads + 1 })

  abbrev pub drop_or_count : Option Counted → M (Handler D E) (Unit {0})
  drop_or_count none h = count_read h
  drop_or_count (some c) h =
      if not (is_readable c.buf)
      then (
        ok tt,
        record h { num_reads = 0; released = h.released ++ (release c ∷ []); cumulation = none },
      )
      else count_read h

  unfoldable pub reset_cumulation : M (Handler D E) (Unit {0})
  reset_cumulation h = swallow (drop_or_count h.cumulation h)

  unfoldable pub channel_inactive : Handler D E → Handler D E
  channel_inactive h = elim h.cumulation [
    | none ↦ h
    | some c ↦ record h { cumulation = none; released = h.released ++ (release c ∷ []) }
  ]

  -- fireChannelRead(ctx, msgs, n)
  abbrev pub fire_all : List E → M (Handler D E) (Unit {0})
  fire_all out h = (ok tt, record h { fired = h.fired ++ out })

  module _ (decode : M (D × Counted) (List E)) (single_decode : Bool) where
    abbrev pub readable_of : D × Counted → ℕ
    readable_of (d, c) = readable_bytes c.buf

    abbrev pub out_of : Outcome (Unit {0}) → Loop (D × Counted) E → Outcome (List E)
    out_of (ok u) l = ok l.out
    out_of (err e) l = err e

    abbrev pub after_decoding :
        Option (Outcome (Unit {0}) × Loop (D × Counted) E) → M (Handler D E) (List E)
    after_decoding none h = (err endless, h)
    after_decoding (some (r, l)) h = (
      out_of r l,
      record h { decoder = l.state.0; cumulation = some l.state.1; fired = h.fired ++ l.fired },
    )

    -- callDecode on the cumulation, on a round more than it has bytes to read; what it leaves in `out`
    -- is the result.
    abbrev pub decode_cumulation : Option Counted → M (Handler D E) (List E)
    decode_cumulation none h = (err undefined, h)
    decode_cumulation (some c) h =
        after_decoding
          (call_decode readable_of decode single_decode (suc (readable_bytes c.buf)) (h.decoder, c))
          h

    -- The handler of channelRead's `catch`.
    abbrev pub rethrow_as_decoder :
        Outcome (Unit {0}) × Handler D E → Outcome (Unit {0}) × Handler D E
    rethrow_as_decoder (ok u, h) = (ok u, h)
    rethrow_as_decoder (err e, h) =
        if is_exception e
        then bind (reset_cumulation h) (λ _ h. (err decoder_exception, h))
        else (err e, h)

    unfoldable pub channel_read : (ℕ → ℕ) → Event E → M (Handler D E) (Unit {0})
    unfolding reset_cumulation
    channel_read fresh (other e) h = fire_all (e ∷ []) h
    channel_read fresh (inbound message) h = rethrow_as_decoder (
        (do
          (λ h. gather fresh message h.cumulation h)
          out ← (λ h. decode_cumulation h.cumulation h)
          reset_cumulation
          fire_all out)
          h)
