-- ===== src/ByteToMessage.antt =====
-- ByteToMessageDecoder::callDecode: the loop that calls a decoder until it makes no more progress.
-- The decoder is a parameter, a step on a state `S` of which `readable` bytes are left, that may
-- append messages to `out` or throw. What `fireChannelRead` passes on is collected in `fired`; the
-- handlers behind it are outside of the loop and do not throw into it.
pub mod Progress
pub mod Cumulation
pub mod Reset
pub mod Gather
use cpp_nio_socket.Common.{
  ℕ, zero, suc, Bool, true, false, Option, none, some, List, [], ◌∷◌, ◌++◌, ltb, ◌==◌,
  if◌then◌else◌, Outcome, M, ok, err, Fault, runtime_error, decoder_exception, illegal_argument,
  undefined, assertion_failed, negative_index, endless,
}

-- What `catch (std::exception&)` catches.
abbrev pub is_exception : Fault → Bool
is_exception runtime_error = true
is_exception decoder_exception = true
is_exception illegal_argument = true
is_exception undefined = false
is_exception assertion_failed = false
is_exception negative_index = false
is_exception endless = false

-- The variables of the loop: `state` is what the decoder works on, `ex` the last exception.
pub record Loop (S E : Type 0) : Type 0 where
  pub state : S
  pub out : List E
  pub fired : List E
  pub ex : Option Fault

-- How a round ends: by `break`, by going round again, or by a fault that no handler catches.
pub data Round (S E : Type 0) : Type 0 where
  break : Loop S E → Round S E
  continue : Loop S E → Round S E
  abort : Fault → Loop S E → Round S E

module _ {S E : Type 0} (readable : S → ℕ) (decode : M S (List E)) (single_decode : Bool) where
  abbrev catch_exception : Fault → Loop S E → Round S E
  catch_exception e l = if is_exception e then continue (record l { ex = some e }) else abort e l

  -- After decode, which found `old_length` bytes.
  abbrev after_decode : ℕ → Outcome (List E) × S → Loop S E → Round S E
  after_decode old_length (err e, s) l = catch_exception e (record l { state = s })
  after_decode old_length (ok [], s) l =
      if old_length == readable s
      then break (record l { state = s })
      else continue (record l { state = s })
  after_decode old_length (ok (m ∷ ms), s) l =
      let l' = record l { state = s; out = m ∷ ms } in
      if old_length == readable s
      then catch_exception decoder_exception l'
      else if single_decode
      then break l'
      else continue l'

  -- fireChannelRead and out.clear()
  abbrev fire_out : Loop S E → Loop S E
  fire_out l = record l { out = []; fired = l.fired ++ l.out }

  unfoldable pub round : Loop S E → Round S E
  round l = after_decode (readable l.state) (decode l.state) (fire_out l)

  -- `none` means that the fuel ran out.
  unfoldable pub run_rounds : ℕ → Loop S E → Option (Outcome (Unit {0}) × Loop S E)
  run_rounds zero l = none
  run_rounds (suc fuel) l =
      if ltb 0 (readable l.state)
      then elim (round l) [
        | break l' ↦ some (ok tt, l')
        | abort e l' ↦ some (err e, l')
        | continue l' ↦ run_rounds fuel l'
      ]
      else some (ok tt, l)

  -- `if (!ex.empty()) throw DecoderException(ex)`
  abbrev pub raise_last : Option Fault → Outcome (Unit {0})
  raise_last none = ok tt
  raise_last (some _) = err decoder_exception

  abbrev rethrow : Outcome (Unit {0}) × Loop S E → Outcome (Unit {0}) × Loop S E
  rethrow (err e, l) = (err e, l)
  rethrow (ok _, l) = (raise_last l.ex, l)

  abbrev finish : Option (Outcome (Unit {0}) × Loop S E) → Option (Outcome (Unit {0}) × Loop S E)
  finish none = none
  finish (some r) = some (rethrow r)

  unfoldable pub call_decode : ℕ → S → Option (Outcome (Unit {0}) × Loop S E)
  call_decode fuel s =
      finish (run_rounds fuel (record { state = s; out = []; fired = []; ex = none }))
