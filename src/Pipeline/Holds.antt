-- ===== src/Pipeline/Holds.antt =====
-- addLast0 and remove0 of a pipeline that holds a list of contexts.
use cpp_nio_socket.Common.{
  ℕ, ◌≡◌, ◌≢◌, refl, sym, ap, ◌∙◌, subst, Option, none, some, [], ◌∷◌, ◌++◌, append_assoc, ok,
}
use cpp_nio_socket.Pipeline.{Name, Context, Pipeline, write}
use cpp_nio_socket.Pipeline.Edit.{Handler, new_context, add_last0, link_last}
use cpp_nio_socket.Pipeline.Chain.{
  Contexts, Absent, Apart, Forward, Backward, write_self, write_ne, Absent-append_left,
  Absent-append_right, Apart-insert, Apart-remove, unused-Absent,
}
use cpp_nio_socket.Pipeline.Splice.{
  last_of, last_of-ne, write-Forward, write_info-Forward, splice-Forward, Forward-rest,
  Backward-rest, splice-Backward, Apart-last, prefix-Backward,
}

-- The contexts between two ends.
abbrev pub between : ℕ × Context → Contexts → ℕ × Context → Contexts
between h bs t = (h ∷ bs) ++ (t ∷ [])

-- The pipeline holds the contexts `bs` between its head and its tail, whose fields are `h` and `t`.
pub record Holds (h t : Context) (p : Pipeline) (bs : Contexts) : Type 0 where
  pub forward : Forward p.next p.info (some p.head) (between (p.head, h) bs (p.tail, t))
  pub backward : Backward p.prev none (between (p.head, h) bs (p.tail, t))
  pub apart : Apart (between (p.head, h) bs (p.tail, t))

-- The context that the constructor makes.
abbrev pub made : Name → Handler → Context
made name handler = record {
  name = name;
  handler = handler.address;
  inbound = handler.is_inbound;
  outbound = handler.is_outbound;
}

module _ (h t : Context) (p : Pipeline) (bs : Contexts) (r : Holds h t p bs) (ctx : ℕ) (name : Name)
    (handler : Handler) (free : p.info ctx ≡ none) where
  all : Contexts
  all = between (p.head, h) bs (p.tail, t)

  l : ℕ
  l = last_of (p.head, h) bs

  out : Absent ctx all
  unfolding all
  out = unused-Absent ctx p.next p.info (some p.head) all free r.forward

  not_tail : p.tail ≢ ctx
  unfolding all
  not_tail = (Absent-append_right ctx ((p.head, h) ∷ bs) ((p.tail, t) ∷ []) out).0

  not_last : l ≢ ctx
  unfolding all l
  not_last =
      last_of-ne ctx (p.head, h) bs
        (Absent-append_left ctx ((p.head, h) ∷ bs) ((p.tail, t) ∷ []) out)

  tail_not_last : p.tail ≢ l
  unfolding l
  tail_not_last = (Apart-last (p.head, h) bs ((p.tail, t) ∷ []) r.apart).0

  next1 : ℕ → Option ℕ
  next1 = write ctx (some p.tail) (write ctx none p.next)

  info1 : ℕ → Option Context
  info1 = write ctx (some (made name handler)) p.info

  prev1 : ℕ → Option ℕ
  prev1 = write ctx (some l) (write ctx none p.prev)

  forward1 : Forward next1 info1 (some p.head) all
  unfolding all next1 info1
  forward1 = write_info-Forward ctx (some (made name handler)) next1 p.info (some p.head) all out (
      write-Forward ctx (some p.tail) (write ctx none p.next) p.info (some p.head) all out
        (write-Forward ctx none p.next p.info (some p.head) all out r.forward))

  last_two :
      Forward
        (write l (some ctx) next1)
        info1
        (some ctx)
        ((ctx, made name handler) ∷ (p.tail, t) ∷ [])
  unfolding all l next1 info1
  last_two =
      let (at, e, end) =
        Forward-rest next1 info1 (some p.head) (p.head, h) bs ((p.tail, t) ∷ []) forward1 in
      (
        refl,
        write_self ctx (some (made name handler)) p.info,
        (
          write_ne l ctx (some ctx) next1 not_last
              ∙ write_self ctx (some p.tail) (write ctx none p.next),
          e,
          write_ne l p.tail (some ctx) next1 (λ q. tail_not_last (sym q)) ∙ end,
        ),
      )

  prev2 : ℕ → Option ℕ
  prev2 = write p.tail (some ctx) prev1

  before_tail : Absent p.tail ((p.head, h) ∷ bs)
  before_tail =
      let (far, rest) = Apart-remove p.tail t ((p.head, h) ∷ bs) [] r.apart in
      Absent-append_left p.tail ((p.head, h) ∷ bs) [] far

  backward2 :
      Backward prev2 none ((p.head, h) ∷ (bs ++ ((ctx, made name handler) ∷ (p.tail, t) ∷ [])))
  unfolding all l prev1 prev2
  backward2 =
      let far = Absent-append_left ctx ((p.head, h) ∷ bs) ((p.tail, t) ∷ []) out in
      let b1 =
        prefix-Backward ctx none p.prev none (p.head, h) bs ((p.tail, t) ∷ []) far r.backward in
      let b2 = prefix-Backward ctx (some l) (write ctx none p.prev) none (p.head, h) bs [] far b1 in
      let b3 = prefix-Backward p.tail (some ctx) prev1 none (p.head, h) bs [] before_tail b2 in
      splice-Backward prev2 none (p.head, h) bs [] ((ctx, made name handler) ∷ (p.tail, t) ∷ []) b3
        (
          write_ne p.tail ctx (some ctx) prev1 not_tail
              ∙ write_self ctx (some l) (write ctx none p.prev),
          (write_self p.tail (some ctx) prev1, tt),
        )

  added : Pipeline
  added = record p { next = write l (some ctx) next1; prev = prev2; info = info1 }

  add_last0-Holds : Holds h t added (bs ++ ((ctx, made name handler) ∷ []))
  unfolding all l added next1 info1
  add_last0-Holds =
      let last : ℕ × Context = (ctx, made name handler) in
      let far = Absent-append_left ctx ((p.head, h) ∷ bs) ((p.tail, t) ∷ []) out in
      let order : bs ++ (last ∷ (p.tail, t) ∷ []) ≡ (bs ++ (last ∷ [])) ++ ((p.tail, t) ∷ []) =
        sym (append_assoc bs (last ∷ []) ((p.tail, t) ∷ [])) in
      record {
        forward =
            subst (λ ns. Forward (write l (some ctx) next1) info1 (some p.head) ((p.head, h) ∷ ns))
              order
              (splice-Forward next1 info1 (some p.head) (some ctx) (p.head, h) bs ((p.tail, t) ∷ [])
                (last ∷ (p.tail, t) ∷ []) r.apart forward1 last_two);
        backward = subst (λ ns. Backward prev2 none ((p.head, h) ∷ ns)) order backward2;
        apart =
            subst (λ ns. Apart ((p.head, h) ∷ ns)) order
              (Apart-insert ctx (made name handler) ((p.head, h) ∷ bs) ((p.tail, t) ∷ []) out
                r.apart);
      }

  add_last0_run : add_last0 ctx (new_context ctx name handler p) ≡ (ok tt, added)
  unfolding add_last0 all l added next1 info1 prev1 prev2
  add_last0_run =
      let (e, rest) = Backward-rest p.prev none (p.head, h) bs ((p.tail, t) ∷ []) r.backward in
      ap (λ o. link_last ctx o (new_context ctx name handler p))
        (write_ne ctx p.tail none p.prev (λ q. not_tail (sym q)) ∙ e)

  -- addLast0 of a new context puts it before the tail.
  pub add_last0_lem :
      (p' : Pipeline) × (add_last0 ctx (new_context ctx name handler p) ≡ (ok tt, p'))
      × Holds h t p' (bs ++ ((ctx, made name handler) ∷ []))
  add_last0_lem = (added, add_last0_run, add_last0-Holds)
