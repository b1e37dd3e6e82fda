-- ===== src/Pipeline/Add.antt =====
-- addLast: the new context comes last, under a name that no other context has.
use mathlib.Core.Bool.{false≢true}
use cpp_nio_socket.Common.{
  ℕ, ◌+◌, ◌-◌, ◌<◌, ◌≡◌, ◌⊎◌, inl, inr, refl, sym, ap, ◌∙◌, arith, true, false, Option, none, some,
  List, [], ◌∷◌, ◌++◌, length, length-append, take, Outcome, ok, err, runtime_error, bind, ◌>>◌,
  return, update, if_true, if_false, Bool-cases, Option-cases,
}
use cpp_nio_socket.Pipeline.{
  Name, Context, Pipeline, same, context0, context0_by, refuse_present, check_duplicate_name,
  free_name, cached_name, generate_name, is_empty, filter_name,
}
use cpp_nio_socket.Pipeline.Edit.{Handler, add_last, add_last0, new_context}
use cpp_nio_socket.Pipeline.Chain.{Contexts, find, walk_lem}
use cpp_nio_socket.Pipeline.Holds.{Holds, made, add_last0_lem}
use cpp_nio_socket.Pipeline.Names.{Free, Injective, number_name-Free}

module _ (h t : Context) (p : Pipeline) (bs : Contexts) (r : Holds h t p bs) (fuel : ℕ)
    (enough : length bs + 1 < fuel) where
  -- What context0 looks through.
  searched : Contexts
  searched = bs ++ ((p.tail, t) ∷ [])

  length-searched : length searched < fuel
  unfolding searched
  length-searched = omega (arith, length-append bs ((p.tail, t) ∷ []))

  looks : (name : Name) → context0 name fuel p ≡ ok (find (λ c. same c.name name) searched)
  unfolding context0_by searched length-searched
  looks name =
      let (at, e, f) = r.forward in
      walk_lem p.info p.next (λ c. same c.name name) fuel (p.next p.head) searched length-searched f

  with_cache-Holds : (c : List (Name × Name)) → Holds h t (record p { name_caches = c }) bs
  with_cache-Holds c = record { forward = r.forward; backward = r.backward; apart = r.apart }

  module _ (format : ℕ → Name) (inj : Injective format) where
    free_name_lem :
        (name : Name)
        → (chosen : Name) × (free_name format name fuel p (context0 name fuel p) ≡ ok chosen)
          × Free chosen searched
    free_name_lem name = elim (Option-cases (find (λ c. same c.name name) searched)) [
      | inl here ↦ (name, ap (free_name format name fuel p) (looks name ∙ ap ok here), here)
      | inr (a, taken) ↦
          let (chosen, run, free) =
            number_name-Free format inj fuel (take (length name - 1) name) fuel p searched looks
              length-searched in
          (chosen, ap (free_name format name fuel p) (looks name ∙ ap ok taken) ∙ run, free)
    ]

    -- The name that filterName gives, and the pipeline with the cache it leaves.
    abbrev Gives : Name → Outcome Name × Pipeline → Type 0
    Gives name r =
        (chosen : Name) × (cache : List (Name × Name)) × (r
          ≡ (ok chosen, record p { name_caches = cache }))
        × Free chosen searched
        × (is_empty name ≡ false → chosen ≡ name)

    generate_name-Gives :
        (name handler_type : Name)
        → is_empty name ≡ true
        → Gives name (generate_name format handler_type fuel p)
    unfolding generate_name searched
    generate_name-Gives name handler_type unnamed =
        let (first, cache) = cached_name handler_type p.name_caches in
        let (chosen, run, free) = free_name_lem first in
        (
          chosen,
          cache,
          ap (λ o. (o, record p { name_caches = cache })) run,
          free,
          λ e. absurd (false≢true (sym e ∙ unnamed)),
        )

    -- filterName throws exactly when a name is given that a context or the tail has.
    filter_name-cases :
        (name handler_type : Name)
        → ((is_empty name ≡ false)
            × ((a : ℕ) × (find (λ c. same c.name name) searched ≡ some a))
            × (filter_name format name handler_type fuel p ≡ (err runtime_error, p)))
          ⊎ Gives name (filter_name format name handler_type fuel p)
    unfolding filter_name check_duplicate_name
    filter_name-cases name handler_type = elim (Bool-cases (is_empty name)) [
      | inl unnamed ↦
          let (chosen, cache, run, free, rest) = generate_name-Gives name handler_type unnamed in
          inr (chosen, cache, if_true _ _ _ unnamed ∙ run, free, rest)
      | inr named ↦
          let start : filter_name format name handler_type fuel p ≡ after (ok found) =
            if_false _ _ _ named ∙ ap after (looks name) in
          elim (Option-cases found) [
            | inl free ↦
                inr (name, p.name_caches, start ∙ ap (λ f. after (ok f)) free, free, λ e. refl)
            | inr (a, taken) ↦ inl (named, (a, taken), start ∙ ap (λ f. after (ok f)) taken)
          ]
    ]
      where
        found : Option ℕ
        found = find (λ c. same c.name name) searched

        after : Outcome (Option ℕ) → Outcome Name × Pipeline
        after o = ((λ q. bind (o, q) refuse_present) >> return name) p

-- addLast, with more rounds than there are contexts, at an address that nothing uses: a name that is
-- given and taken is refused, and the pipeline stays as it is; in every other case the handler comes
-- last, under the name given or, if there is none, under one that no context has.
unfoldable pub Adds :
    Context
    → Context
    → Pipeline
    → Contexts
    → ℕ
    → Name
    → Handler
    → Outcome (Unit {0}) × Pipeline
    → Type 0
Adds h t p bs ctx name handler r =
    ((is_empty name ≡ false)
      × ((a : ℕ) × (find (λ c. same c.name name) (bs ++ ((p.tail, t) ∷ [])) ≡ some a))
      × (r ≡ (err runtime_error, p)))
    ⊎ ((chosen : Name) × (p' : Pipeline) × (r ≡ (ok tt, p'))
        × Holds h t p' (bs ++ ((ctx, made chosen handler) ∷ []))
        × Free chosen (bs ++ ((p.tail, t) ∷ []))
        × (is_empty name ≡ false → chosen ≡ name))

-- On a pipeline that holds a list of contexts between its head and its tail, with numbers that print
-- differently, a context at an address that nothing uses and more rounds than one more than there
-- are contexts: addLast of a name that is given and that a context or the tail has throws and leaves
-- the pipeline as it is; otherwise it ends normally, the pipeline then holds the list with the new
-- context last, and its name is the given one or, if none is given, one that no context and not the
-- tail has.
pub add_last_lem :
    (format : ℕ → Name) (fuel ctx : ℕ) (name : Name) (handler : Handler) (h t : Context)
    (p : Pipeline) (bs : Contexts)
    → Injective format
    → Holds h t p bs
    → p.info ctx ≡ none
    → length bs + 1 < fuel
    → Adds h t p bs ctx name handler (add_last format fuel ctx name handler p)
unfolding add_last Adds searched
add_last_lem format fuel ctx name handler h t p bs inj r free enough =
    elim (filter_name-cases h t p bs r fuel enough format inj name handler.type_name) [
      | inl (named, taken, run) ↦ inl (named, taken, ap then_add run)
      | inr (chosen, cache, run, unused, given) ↦
          let (p', added, r') =
            add_last0_lem h t (record p { name_caches = cache }) bs
              (with_cache-Holds h t p bs r fuel enough cache) ctx chosen handler free in
          inr (chosen, p', ap then_add run ∙ added, r', unused, given)
    ]
  where
    then_add : Outcome Name × Pipeline → Outcome (Unit {0}) × Pipeline
    then_add o = bind o (λ name. update (new_context ctx name handler) >> add_last0 ctx)
