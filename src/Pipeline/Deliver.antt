-- ===== src/Pipeline/Deliver.antt =====
-- fireChannelRead, fireChannelActive and write of a pipeline that holds a list of contexts.
use mathlib.Core.Bool.{false≢true}
use cpp_nio_socket.Common.{
  ℕ, zero, suc, ◌+◌, ◌<◌, ◌≡◌, ◌≢◌, inl, inr, refl, sym, ap, ◌∙◌, subst, arith, Bool, true, false,
  Option, none, some, List, [], ◌∷◌, ◌++◌, length, length-append, Outcome, ok, if◌then◌else◌,
  if_true, if_false, Bool-cases,
}
use cpp_nio_socket.Pipeline.{Context, Pipeline, find_context_inbound, find_context_outbound}
use cpp_nio_socket.Pipeline.Events.{
  Call, called, caught, Reaction, pass_on, keep, fails, prepend, catch_at, invoke_exception_caught,
  react, call_inbound, then_invoke, invoke_channel_read, fire_channel_read, invoke_if, invoke_along,
  write_event, fire_channel_active,
}
use cpp_nio_socket.Pipeline.Chain.{Contexts, Forward, Backward, walk_lem}
use cpp_nio_socket.Pipeline.Holds.{Holds, between}
use cpp_nio_socket.Pipeline.Route.{scan, prepend-if, relayed, invoke_along_lem}

module _ (reacts : ℕ → Reaction) (passes : ℕ → Bool) where
  -- The handlers that catch an exception: from the failing one on, to each next context, as far as
  -- these are inbound and pass it on.
  abbrev pub catchers : Contexts → List Call
  catchers [] = []
  catchers ((a, c) ∷ ns) =
      if c.inbound then caught a ∷ (if passes c.handler then catchers ns else []) else []

  abbrev pub after : Reaction → List Call → List Call → List Call
  after pass_on rest failure = rest
  after keep rest failure = []
  after fails rest failure = failure

  -- The handlers that read an event: the inbound ones, up to the first that does not pass it on.
  abbrev pub readers : Contexts → List Call
  readers [] = []
  readers ((a, c) ∷ ns) =
      if c.inbound
      then called a ∷ after (reacts c.handler) (readers ns) (catchers ((a, c) ∷ ns))
      else readers ns

  -- The last context is an inbound one that does not pass the event on.
  abbrev pub Stops : Contexts → Type 0
  Stops [] = ⊥
  Stops ((a, c) ∷ []) = (c.inbound ≡ true) × (reacts c.handler ≢ pass_on)
  Stops ((a, c) ∷ n ∷ ns) = Stops (n ∷ ns)

  Stops-rest :
      (a : ℕ) (c : Context) (ns : Contexts) → c.inbound ≡ false → Stops ((a, c) ∷ ns) → Stops ns
  Stops-rest a c [] out (is_in, s) = absurd (false≢true (sym out ∙ is_in))
  Stops-rest a c (n ∷ ns) out s = s

  module _ (p : Pipeline) where
    invoke_exception_caught_lem :
        (fuel : ℕ) (x : Option ℕ) (ns : Contexts)
        → length ns < fuel
        → Forward p.next p.info x ns
        → invoke_exception_caught passes p fuel x ≡ ok (catchers ns)
    unfolding invoke_exception_caught
    invoke_exception_caught_lem zero x ns h f = absurd (omega arith)
    invoke_exception_caught_lem (suc fuel) x [] h f =
        ap (invoke_exception_caught passes p (suc fuel)) f
    invoke_exception_caught_lem (suc fuel) x ((a, c) ∷ ns) h (at, e, f) =
        let rest = invoke_exception_caught passes p fuel (p.next a) in
        let ends : rest ≡ ok (catchers ns) =
          invoke_exception_caught_lem fuel (p.next a) ns (omega arith) f in
        ap (invoke_exception_caught passes p (suc fuel)) at
        ∙ ap (catch_at passes p rest a) e
        ∙ elim (Bool-cases c.inbound) [
          | inl here ↦
              if_true _ _ _ here
              ∙ prepend-if (caught a) (passes c.handler) rest (catchers ns) ends
              ∙ ap ok (sym (if_true _ _ _ here))
          | inr on ↦ if_false _ _ _ on ∙ ap ok (sym (if_false _ _ _ on))
        ]

    react_lem :
        (a : ℕ) (r : Reaction) (rest failure : Outcome (List Call)) (calls catching : List Call)
        → (r ≡ pass_on → rest ≡ ok calls)
        → failure ≡ ok catching
        → prepend (called a) (react reacts passes p rest failure r)
          ≡ ok (called a ∷ after r calls catching)
    react_lem a pass_on rest failure calls catching e e' = ap (prepend (called a)) (e refl)
    react_lem a keep rest failure calls catching e e' = refl
    react_lem a fails rest failure calls catching e e' = ap (prepend (called a)) e'

    passes_further :
        (a : ℕ) (c : Context) (ns : Contexts)
        → c.inbound ≡ true
        → reacts c.handler ≡ pass_on
        → Stops ((a, c) ∷ ns)
        → Stops ns
    passes_further a c [] here e (is_in, s) = absurd (s e)
    passes_further a c (n ∷ ns) here e s = s

    invoke_channel_read_lem :
        (fuel a : ℕ) (c : Context) (ns : Contexts)
        → length ((a, c) ∷ ns) + 1 < fuel
        → c.inbound ≡ true
        → Forward p.next p.info (some a) ((a, c) ∷ ns)
        → Stops ((a, c) ∷ ns)
        → invoke_channel_read reacts passes p fuel a ≡ ok (readers ((a, c) ∷ ns))
    unfolding invoke_channel_read find_context_inbound
    invoke_channel_read_lem zero a c ns h here f stops = absurd (omega arith)
    invoke_channel_read_lem (suc fuel) a c ns h here (at, e, f) stops =
        let found = walk_lem p.info p.next (λ c. c.inbound) fuel (p.next a) ns (omega arith) f in
        let invoke = invoke_channel_read reacts passes p fuel in
        let failure = invoke_exception_caught passes p fuel (some a) in
        let rest : Outcome (List Call) =
          then_invoke reacts passes p invoke (find_context_inbound fuel a p) in
        let caught_all : failure ≡ ok (catchers ((a, c) ∷ ns)) =
          invoke_exception_caught_lem fuel (some a) ((a, c) ∷ ns) (omega arith) (refl, e, f) in
        let goes_on : reacts c.handler ≡ pass_on → rest ≡ ok (readers ns) = λ r.
          elim (scan (λ c. c.inbound) p.next p.info readers Stops (λ a c ns on. if_false _ _ _ on)
            Stops-rest (p.next a) ns f (passes_further a c ns here r stops)) [
              | inl (none_found, same, at_end) ↦ absurd at_end
              | inr (b, d, ms, (is_found, there, g, le, same, holds)) ↦
                  ap (then_invoke reacts passes p invoke) (found ∙ ap ok is_found)
                  ∙ invoke_channel_read_lem fuel b d ms (omega arith) there g holds
                  ∙ ap ok (sym same)
            ] in
        ap (call_inbound reacts passes p rest failure a) e
        ∙ if_true _ _ _ here
        ∙ react_lem a (reacts c.handler) rest failure (readers ns) (catchers ((a, c) ∷ ns)) goes_on
            caught_all
        ∙ ap ok (sym (if_true _ _ _ here))

  between-Stops :
      (m : ℕ × Context) (bs : Contexts) (a : ℕ) (t : Context)
      → t.inbound ≡ true
      → reacts t.handler ≢ pass_on
      → Stops (between m bs (a, t))
  between-Stops m [] a t here ends = (here, ends)
  between-Stops m (n ∷ bs) a t here ends = between-Stops n bs a t here ends

  -- On a pipeline that holds a list of contexts, whose head and tail are inbound and whose tail does
  -- not pass a read on, and with more rounds than three more than there are contexts,
  -- fireChannelRead ends normally and calls the inbound handlers from the head on, up to the first
  -- that does not pass the event on; where a handler fails, the exception goes to that handler and
  -- to each next one, as far as these are inbound and pass it on.
  pub fire_channel_read_lem :
      (h t : Context) (p : Pipeline) (bs : Contexts) (fuel : ℕ)
      → Holds h t p bs
      → h.inbound ≡ true
      → t.inbound ≡ true
      → reacts t.handler ≢ pass_on
      → length bs + 3 < fuel
      → fire_channel_read reacts passes p fuel ≡ ok (readers (between (p.head, h) bs (p.tail, t)))
  unfolding fire_channel_read
  fire_channel_read_lem h t p bs fuel r h_in t_in keeps enough =
      invoke_channel_read_lem p fuel p.head h (bs ++ ((p.tail, t) ∷ []))
        (omega (arith, length-append bs ((p.tail, t) ∷ []))) h_in r.forward
        (between-Stops (p.head, h) bs p.tail t t_in keeps)

-- The list the other way round, before another one.
abbrev pub back_onto : Contexts → Contexts → Contexts
back_onto [] acc = acc
back_onto (n ∷ ns) acc = back_onto ns (n ∷ acc)

length-back_onto : (ns acc : Contexts) → length (back_onto ns acc) ≡ length ns + length acc
length-back_onto [] acc = omega arith
length-back_onto (n ∷ ns) acc = omega (arith, length-back_onto ns (n ∷ acc))

-- What goes forward by `next` goes back by `prev`.
reversed-Forward :
    (next prev : ℕ → Option ℕ) (info : ℕ → Option Context) (x y : Option ℕ) (ns acc : Contexts)
    (a : ℕ) (t : Context)
    → Forward next info x (ns ++ ((a, t) ∷ []))
    → Backward prev y (ns ++ ((a, t) ∷ []))
    → Forward prev info y acc
    → Forward prev info (prev a) (back_onto ns acc)
reversed-Forward next prev info x y [] acc a t f (e, b) g =
    subst (λ z. Forward prev info z acc) (sym e) g
reversed-Forward next prev info x y ((b, c) ∷ ns) acc a t (at, here, f) (e, back) g =
    reversed-Forward next prev info (next b) (some b) ns ((b, c) ∷ acc) a t f back
      (refl, here, subst (λ z. Forward prev info z acc) (sym e) g)

module _ (passes : ℕ → Bool) (h t : Context) (p : Pipeline) (bs : Contexts) (fuel : ℕ)
    (r : Holds h t p bs) (enough : length bs + 2 < fuel) where
  -- fireChannelActive calls the inbound handlers from the head on.
  pub fire_channel_active_lem :
      h.inbound ≡ true
      → fire_channel_active passes p fuel
        ≡ ok (relayed (λ c. c.inbound) passes (between (p.head, h) bs (p.tail, t)))
  unfolding fire_channel_active
  fire_channel_active_lem h_in =
      invoke_along_lem (λ c. c.inbound) passes p.next p.info fuel p.head h
        (bs ++ ((p.tail, t) ∷ [])) (omega (arith, length-append bs ((p.tail, t) ∷ []))) h_in
        r.forward

  -- On a pipeline that holds a list of contexts, with more rounds than two more than there are
  -- contexts, write calls the outbound handlers from the last context back to the head, up to the
  -- first that does not pass the event on.
  pub write_event_lem :
      write_event passes p fuel
      ≡ ok (relayed (λ c. c.outbound) passes (back_onto ((p.head, h) ∷ bs) []))
  unfolding write_event find_context_outbound
  write_event_lem =
      let ns : Contexts = back_onto ((p.head, h) ∷ bs) [] in
      let f : Forward p.prev p.info (p.prev p.tail) ns =
        reversed-Forward p.next p.prev p.info (some p.head) none ((p.head, h) ∷ bs) [] p.tail t
          r.forward r.backward refl in
      let found =
        walk_lem p.info p.prev (λ c. c.outbound) fuel (p.prev p.tail) ns
          (omega (arith, length-back_onto ((p.head, h) ∷ bs) [])) f in
      elim (scan (λ c. c.outbound) p.prev p.info (relayed (λ c. c.outbound) passes) (λ ns. Unit {0})
        (λ a c ns on. if_false _ _ _ on) (λ a c ns on holds. tt) (p.prev p.tail) ns f tt) [
          | inl (none_found, same, at_end) ↦
              ap (invoke_if (invoke_along passes p.info p.prev (λ c. c.outbound) fuel))
                (found ∙ ap ok none_found)
              ∙ ap ok (sym same)
          | inr (b, d, ms, (is_found, there, g, le, same, holds)) ↦
              ap (invoke_if (invoke_along passes p.info p.prev (λ c. c.outbound) fuel))
                (found ∙ ap ok is_found)
              ∙ invoke_along_lem (λ c. c.outbound) passes p.prev p.info fuel b d ms
                  (omega (arith, le, length-back_onto ((p.head, h) ∷ bs) [])) there g
              ∙ ap ok (sym same)
        ]
