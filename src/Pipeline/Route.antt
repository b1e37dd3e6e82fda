-- ===== src/Pipeline/Route.antt =====
-- The routes of events: which handlers are called, in terms of the list of contexts.
use cpp_nio_socket.Common.{
  ℕ, zero, suc, ◌≤◌, ◌<◌, ◌≡◌, ◌⊎◌, inl, inr, refl, sym, ap, ◌∙◌, arith, Bool, true, false, Option,
  none, some, List, [], ◌∷◌, length, Outcome, ok, if◌then◌else◌, if_true, if_false, Bool-cases,
}
use cpp_nio_socket.Pipeline.{Context, walk}
use cpp_nio_socket.Pipeline.Events.{
  Call, called, prepend, invoke_if, call_if, call_context, invoke_along,
}
use cpp_nio_socket.Pipeline.Chain.{Contexts, Forward, find, walk_lem}

-- The first context that passes the test, for a list of calls `route` and a property `P` that do not
-- depend on the contexts before it.
module _ (test : Context → Bool) (next : ℕ → Option ℕ) (info : ℕ → Option Context)
    (route : Contexts → List Call) (P : Contexts → Type 0)
    (skips : (a : ℕ) (c : Context) (ns : Contexts)
      → test c ≡ false
      → route ((a, c) ∷ ns) ≡ route ns)
    (goes_on : (a : ℕ) (c : Context) (ns : Contexts)
      → test c ≡ false
      → P ((a, c) ∷ ns)
      → P ns) where
  abbrev pub Stop : Contexts → ℕ → Context → Contexts → Type 0
  Stop ns a c ms =
      (find test ns ≡ some a)
      × (test c ≡ true)
      × Forward next info (some a) ((a, c) ∷ ms)
      × (length ((a, c) ∷ ms) ≤ length ns)
      × (route ns ≡ route ((a, c) ∷ ms))
      × P ((a, c) ∷ ms)

  pub scan :
      (x : Option ℕ) (ns : Contexts)
      → Forward next info x ns
      → P ns
      → ((find test ns ≡ none) × (route ns ≡ route []) × P [])
        ⊎ ((a : ℕ) × (c : Context) × (ms : Contexts) × Stop ns a c ms)
  scan x [] f holds = inl (refl, refl, holds)
  scan x ((a, c) ∷ ns) (at, e, f) holds = elim (Bool-cases (test c)) [
    | inl here ↦ inr (a, c, ns, (if_true _ _ _ here, here, (refl, e, f), omega arith, refl, holds))
    | inr on ↦ elim (scan (next a) ns f (goes_on a c ns on holds)) [
      | inl (none_found, same, at_end) ↦
          inl (if_false _ _ _ on ∙ none_found, skips a c ns on ∙ same, at_end)
      | inr (b, d, ms, (found, passes, g, le, same, holds_there)) ↦ inr (
        b,
        d,
        ms,
        (if_false _ _ _ on ∙ found, passes, g, omega arith, skips a c ns on ∙ same, holds_there),
      )
    ]
  ]

pub prepend-if :
    (call : Call) (b : Bool) (rest : Outcome (List Call)) (calls : List Call)
    → rest ≡ ok calls
    → prepend call (if b then rest else ok []) ≡ ok (call ∷ (if b then calls else []))
prepend-if call true rest calls e = ap (prepend call) e
prepend-if call false rest calls e = refl

-- The handlers that write and close, or fireChannelActive, call: those that pass the test, up to the
-- first that keeps the event.
module _ (test : Context → Bool) (passes : ℕ → Bool) where
  abbrev pub relayed : Contexts → List Call
  relayed [] = []
  relayed ((a, c) ∷ ns) =
      if test c then called a ∷ (if passes c.handler then relayed ns else []) else relayed ns

  module _ (next : ℕ → Option ℕ) (info : ℕ → Option Context) where
    called_here :
        (a : ℕ) (c : Context) (fuel : ℕ)
        → test c ≡ true
        → info a ≡ some c
        → (calls : List Call)
        → invoke_if (invoke_along passes info next test fuel) (walk info next test fuel (next a))
          ≡ ok calls
        → invoke_along passes info next test (suc fuel) a
          ≡ ok (if test c then called a ∷ (if passes c.handler then calls else []) else calls)
    unfolding invoke_along
    called_here a c fuel here e calls rest =
        let follow =
          invoke_if (invoke_along passes info next test fuel) (walk info next test fuel (next a)) in
        ap (call_context passes info next test follow a) e
        ∙ ap (λ b. call_if b follow a (passes c.handler)) here
        ∙ prepend-if (called a) (passes c.handler) follow calls rest
        ∙ ap ok (sym (if_true _ _ _ here))

    pub invoke_along_lem :
        (fuel : ℕ) (a : ℕ) (c : Context) (ns : Contexts)
        → length ((a, c) ∷ ns) < fuel
        → test c ≡ true
        → Forward next info (some a) ((a, c) ∷ ns)
        → invoke_along passes info next test fuel a ≡ ok (relayed ((a, c) ∷ ns))
    invoke_along_lem zero a c ns h here f = absurd (omega arith)
    invoke_along_lem (suc fuel) a c ns h here (at, e, f) =
        let found = walk_lem info next test fuel (next a) ns (omega arith) f in
        let rest : invoke_if (invoke_along passes info next test fuel)
              (walk info next test fuel (next a))
            ≡ ok (relayed ns) =
          elim (scan test next info relayed (λ ns. Unit {0}) (λ a c ns on. if_false _ _ _ on)
            (λ a c ns on holds. tt) (next a) ns f tt) [
              | inl (none_found, same, at_end) ↦
                  ap (invoke_if (invoke_along passes info next test fuel))
                    (found ∙ ap ok none_found)
                  ∙ ap ok (sym same)
              | inr (b, d, ms, (is_found, there, g, le, same, holds)) ↦
                  ap (invoke_if (invoke_along passes info next test fuel)) (found ∙ ap ok is_found)
                  ∙ invoke_along_lem fuel b d ms (omega arith) there g
                  ∙ ap ok (sym same)
            ] in
        called_here a c fuel here e (relayed ns) rest
