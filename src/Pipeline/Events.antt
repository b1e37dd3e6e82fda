-- ===== src/Pipeline/Events.antt =====
-- AbstractChannelHandlerContext.hpp: how an event goes from context to context. What a handler does
-- with an event is a parameter; the adapters of the code pass everything on.
use cpp_nio_socket.Common.{
  ℕ, zero, suc, Bool, true, false, Option, none, some, List, [], ◌∷◌, if◌then◌else◌, Outcome, ok,
  err, undefined, endless,
}
use cpp_nio_socket.Pipeline.{Context, Pipeline, walk, find_context_inbound, find_context_outbound}

-- A call of a handler: an event of the pipeline, or an exception.
pub data Call : Type 0 where
  called : ℕ → Call
  caught : ℕ → Call

pub data Reaction : Type 0 where
  pass_on : Reaction
  keep : Reaction
  fails : Reaction

-- The calls before those that another step makes.
abbrev pub prepend : Call → Outcome (List Call) → Outcome (List Call)
prepend call (err e) = err e
prepend call (ok calls) = ok (call ∷ calls)

module _ (passes : ℕ → Bool) (p : Pipeline) where
  -- invokeExceptionCaught, which calls a handler only if it is an inbound one, and
  -- fireExceptionCaught, which goes to the next context whatever it is.
  abbrev pub catch_at : Outcome (List Call) → ℕ → Option Context → Outcome (List Call)
  catch_at rest ctx none = err undefined
  catch_at rest ctx (some c) =
      if c.inbound then prepend (caught ctx) (if passes c.handler then rest else ok []) else ok []

  unfoldable pub invoke_exception_caught : ℕ → Option ℕ → Outcome (List Call)
  invoke_exception_caught zero ctx = err endless
  invoke_exception_caught (suc fuel) none = ok []
  invoke_exception_caught (suc fuel) (some ctx) =
      catch_at (invoke_exception_caught fuel (p.next ctx)) ctx (p.info ctx)

module _ (reacts : ℕ → Reaction) (passes : ℕ → Bool) (p : Pipeline) where
  -- After a handler: fireChannelRead goes on to the next inbound context, and an exception goes to the
  -- handler itself.
  abbrev pub react : Outcome (List Call) → Outcome (List Call) → Reaction → Outcome (List Call)
  react rest failure pass_on = rest
  react rest failure keep = ok []
  react rest failure fails = failure

  abbrev pub call_inbound :
      Outcome (List Call) → Outcome (List Call) → ℕ → Option Context → Outcome (List Call)
  call_inbound rest failure ctx none = err undefined
  call_inbound rest failure ctx (some c) =
      if c.inbound then prepend (called ctx) (react rest failure (reacts c.handler)) else ok []

  -- invokeChannelRead dereferences the context that findContextInbound found.
  abbrev pub then_invoke : (ℕ → Outcome (List Call)) → Outcome (Option ℕ) → Outcome (List Call)
  then_invoke f (err e) = err e
  then_invoke f (ok none) = err undefined
  then_invoke f (ok (some ctx)) = f ctx

  unfoldable pub invoke_channel_read : ℕ → ℕ → Outcome (List Call)
  unfolding invoke_exception_caught find_context_inbound
  invoke_channel_read zero ctx = err endless
  invoke_channel_read (suc fuel) ctx =
      call_inbound (then_invoke (invoke_channel_read fuel) (find_context_inbound fuel ctx p))
        (invoke_exception_caught passes p fuel (some ctx)) ctx (p.info ctx)

  -- fireChannelRead of the pipeline starts at the head.
  unfoldable pub fire_channel_read : ℕ → Outcome (List Call)
  unfolding invoke_channel_read
  fire_channel_read fuel = invoke_channel_read fuel p.head

-- invokeWrite and invokeClose along `prev` to the outbound contexts, invokeChannelActive and its three
-- kin along `next` to the inbound ones: the pointer is tested first, and nothing is caught.
abbrev pub invoke_if : (ℕ → Outcome (List Call)) → Outcome (Option ℕ) → Outcome (List Call)
invoke_if f (err e) = err e
invoke_if f (ok none) = ok []
invoke_if f (ok (some ctx)) = f ctx

abbrev pub call_if : Bool → Outcome (List Call) → ℕ → Bool → Outcome (List Call)
call_if false rest ctx passes = ok []
call_if true rest ctx passes = prepend (called ctx) (if passes then rest else ok [])

module _ (passes : ℕ → Bool) (info : ℕ → Option Context) (step : ℕ → Option ℕ)
    (test : Context → Bool) where
  abbrev pub call_context : Outcome (List Call) → ℕ → Option Context → Outcome (List Call)
  call_context rest ctx none = err undefined
  call_context rest ctx (some c) = call_if (test c) rest ctx (passes c.handler)

  unfoldable pub invoke_along : ℕ → ℕ → Outcome (List Call)
  unfolding walk
  invoke_along zero ctx = err endless
  invoke_along (suc fuel) ctx =
      call_context (invoke_if (invoke_along fuel) (walk info step test fuel (step ctx))) ctx
        (info ctx)

module _ (passes : ℕ → Bool) (p : Pipeline) where
  abbrev pub invoke_write : ℕ → ℕ → Outcome (List Call)
  invoke_write = invoke_along passes p.info p.prev (λ c. c.outbound)

  -- write and close of the pipeline start at the tail, whose own handler is not called.
  unfoldable pub write_event : ℕ → Outcome (List Call)
  unfolding invoke_along find_context_outbound
  write_event fuel = invoke_if (invoke_write fuel) (find_context_outbound fuel p.tail p)

  abbrev pub invoke_channel_active : ℕ → ℕ → Outcome (List Call)
  invoke_channel_active = invoke_along passes p.info p.next (λ c. c.inbound)

  -- fireChannelActive and its three kin of the pipeline start at the head.
  unfoldable pub fire_channel_active : ℕ → Outcome (List Call)
  unfolding invoke_along
  fire_channel_active fuel = invoke_channel_active fuel p.head
