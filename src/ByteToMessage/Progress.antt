-- ===== src/ByteToMessage/Progress.antt =====
-- Whether callDecode of ByteToMessageDecoder.cpp returns.
use cpp_nio_socket.Common.{
  ℕ, zero, suc, ◌<◌, ◌≡◌, refl, ◌⊎◌, inl, inr, arith, Bool, true, Option, none, some, List, [], ◌∷◌,
  ◌++◌, Bool-cases, sym, subst, lt→ltb, le→ltb, ==_eq, ==_ne, dec_lt, Outcome, M, ok, err, Fault,
  decoder_exception,
}
use cpp_nio_socket.ByteToMessage.{
  is_exception, Loop, Round, break, continue, round, run_rounds, raise_last, call_decode,
}

module _ {S E : Type 0} (readable : S → ℕ) (decode : M S (List E)) (single_decode : Bool) where
  -- A call of the decoder that reads something, or returns with nothing read and nothing decoded.
  pub data Progress (s : S) : Outcome (List E) × S → Type 0 where
    decoded : (ms : List E) (s' : S) → readable s' < readable s → Progress s (ok ms, s')
    thrown :
        (e : Fault) (s' : S)
        → is_exception e ≡ true
        → readable s' < readable s
        → Progress s (err e, s')
    stuck : (s' : S) → readable s' ≡ readable s → Progress s (ok [], s')

  -- The loop ends, or goes on with fewer bytes.
  abbrev GoesOn : ℕ → S → Round S E → Type 0
  GoesOn n s' r =
      ((l : Loop S E) × (r ≡ break l) × (l.state ≡ s'))
      ⊎ ((l : Loop S E) × (r ≡ continue l) × (l.state ≡ s') × (readable s' < n))

  after_decode-GoesOn :
      (l : Loop S E) (r : Outcome (List E) × S)
      → Progress l.state r
      → decode l.state ≡ r
      → GoesOn (readable l.state) r.1 (round readable decode single_decode l)
  unfolding round
  after_decode-GoesOn l r (decoded [] s' less) e = inr (
    record l { state = s'; out = []; fired = l.fired ++ l.out },
    rw (e, ==_ne (readable l.state) (readable s') (omega arith)) refl,
    refl,
    less,
  )
  after_decode-GoesOn l r (decoded (m ∷ ms) s' less) e = elim (Bool-cases single_decode) [
    | inl one ↦ inl (
      record l { state = s'; out = m ∷ ms; fired = l.fired ++ l.out },
      rw (e, ==_ne (readable l.state) (readable s') (omega arith), one) refl,
      refl,
    )
    | inr many ↦ inr (
      record l { state = s'; out = m ∷ ms; fired = l.fired ++ l.out },
      rw (e, ==_ne (readable l.state) (readable s') (omega arith), many) refl,
      refl,
      less,
    )
  ]
  after_decode-GoesOn l r (thrown ex s' caught less) e = inr (
    record l { state = s'; out = []; fired = l.fired ++ l.out; ex = some ex },
    rw (e, caught) refl,
    refl,
    less,
  )
  after_decode-GoesOn l r (stuck s' same) e = inl (
    record l { state = s'; out = []; fired = l.fired ++ l.out },
    rw (e, ==_eq (readable l.state) (readable s') (omega arith)) refl,
    refl,
  )

  module _ {ℓ} (P : S → Type ℓ) (progress : (s : S) → P s → 0 < readable s → Progress s (decode s))
      (keep : (s : S) → P s → 0 < readable s → P (decode s).1) where
    run_rounds-returns :
        (fuel : ℕ) (l : Loop S E)
        → readable l.state < fuel
        → P l.state
        → (l' : Loop S E) × (run_rounds readable decode single_decode fuel l ≡ some (ok tt, l'))
          × P l'.state
    unfolding run_rounds
    run_rounds-returns zero l few p = absurd (omega arith)
    run_rounds-returns (suc fuel) l few p = elim (dec_lt 0 (readable l.state)) [
      | no empty ↦ (l, rw (le→ltb 0 (readable l.state) (omega arith)) refl, p)
      | yes more ↦ elim (after_decode-GoesOn l (decode l.state) (progress l.state p more) refl) [
        | inl (l', e, s) ↦ (
          l',
          rw (lt→ltb 0 (readable l.state) more, e) refl,
          subst P (sym s) (keep l.state p more),
        )
        | inr (l', e, s, less) ↦
            let (l2, e2, p2) =
              run_rounds-returns fuel l' (rw s (omega arith))
                (subst P (sym s) (keep l.state p more)) in
            (l2, rw (lt→ltb 0 (readable l.state) more, e) e2, p2)
      ]
    ]

    abbrev Ends : Outcome (Unit {0}) → Type 0
    Ends r = (r ≡ ok tt) ⊎ (r ≡ err decoder_exception)

    raise_last-Ends : (ex : Option Fault) → Ends (raise_last readable decode single_decode ex)
    raise_last-Ends none = inl refl
    raise_last-Ends (some e) = inr refl

    -- A decoder that reads in every call but the last lets callDecode return, within as many rounds
    -- as there are bytes and one. It returns normally or throws a DecoderException, and what every
    -- call of the decoder keeps still holds.
    pub call_decode-returns :
        (fuel : ℕ) (s : S)
        → readable s < fuel
        → P s
        → (r : Outcome (Unit {0}) × Loop S E) × (call_decode readable decode single_decode fuel s
            ≡ some r)
          × Ends r.0
          × P r.1.state
    unfolding call_decode
    call_decode-returns fuel s few p =
        let (l, e, q) =
          run_rounds-returns fuel (record { state = s; out = []; fired = []; ex = none }) few p in
        ((raise_last readable decode single_decode l.ex, l), rw e refl, raise_last-Ends l.ex, q)

  module _ (s : S) (e : Fault) (more : 0 < readable s) (caught : is_exception e ≡ true)
      (throws : decode s ≡ (err e, s)) where
    run_rounds-endless :
        (fuel : ℕ) (out fired : List E) (ex : Option Fault)
        → run_rounds readable decode single_decode fuel
            (record { state = s; out = out; fired = fired; ex = ex })
          ≡ none
    unfolding run_rounds round
    run_rounds-endless zero out fired ex = refl
    run_rounds-endless (suc fuel) out fired ex =
        rw (lt→ltb 0 (readable s) more, throws, caught)
          (run_rounds-endless fuel [] (fired ++ out) (some e))

    -- A decoder that throws an exception without reading makes callDecode catch it and call again,
    -- for ever: no number of rounds is enough.
    pub call_decode-endless : (fuel : ℕ) → call_decode readable decode single_decode fuel s ≡ none
    unfolding call_decode
    call_decode-endless fuel = rw (run_rounds-endless fuel [] [] none) refl
