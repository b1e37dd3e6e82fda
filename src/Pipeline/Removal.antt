-- ===== src/Pipeline/Removal.antt =====
-- remove0 of a context between the head and the tail.
use cpp_nio_socket.Common.{
  ℕ, ◌≡◌, ◌⊎◌, inl, inr, Bool, false, Bool-cases, if◌then◌else◌, if_true, if_false, Outcome, refl,
  sym, ap, ap₂, ◌∙◌, subst, Option, none, some, [], ◌∷◌, ◌++◌, append_assoc, length, length-append,
  arith, ◌+◌, ◌<◌, ok,
}
use cpp_nio_socket.Pipeline.{Name, Context, Pipeline, write, same, context0_by}
use cpp_nio_socket.Pipeline.Edit.{remove0, unlink, remove_found, remove}
use cpp_nio_socket.Pipeline.Chain.{
  Contexts, Absent, Apart, Forward, Backward, write_self, Absent-append_left, Absent-append_right,
  Apart-remove, find, walk_lem,
}
use cpp_nio_socket.Pipeline.Splice.{
  last_of, write_info-Forward, write-Forward, write-Backward, splice-Forward, Forward-rest,
  Backward-rest, splice-Backward, Apart-last, prefix-Backward,
}
use cpp_nio_socket.Pipeline.Holds.{Holds}

-- `m ∷ ns` comes before the context, `k ∷ ks` after it.
module _ (p : Pipeline) (x y : Option ℕ) (m : ℕ × Context) (ns : Contexts) (ctx : ℕ) (c : Context)
    (k : ℕ) (kc : Context) (ks : Contexts)
    (f : Forward p.next p.info x ((m ∷ ns) ++ (ctx, c) ∷ (k, kc) ∷ ks))
    (b : Backward p.prev y ((m ∷ ns) ++ (ctx, c) ∷ (k, kc) ∷ ks))
    (apart : Apart ((m ∷ ns) ++ (ctx, c) ∷ (k, kc) ∷ ks)) where
  l : ℕ
  l = last_of m ns

  removed : Pipeline
  removed = record p {
    next = write l (some k) p.next;
    prev = write k (some l) p.prev;
    info = write ctx none p.info;
  }

  out : Absent ctx ((m ∷ ns) ++ (k, kc) ∷ ks)
  out = (Apart-remove ctx c (m ∷ ns) ((k, kc) ∷ ks) apart).0

  apart1 : Apart ((m ∷ ns) ++ (k, kc) ∷ ks)
  apart1 = (Apart-remove ctx c (m ∷ ns) ((k, kc) ∷ ks) apart).1

  out_k : Absent k ((m ∷ ns) ++ ks)
  out_k = (Apart-remove k kc (m ∷ ns) ks apart1).0

  forward1 : Forward (write l (some k) p.next) p.info x ((m ∷ ns) ++ (k, kc) ∷ ks)
  unfolding l
  forward1 =
      let (at, e, (at_k, e_k, rest)) =
        Forward-rest p.next p.info x m ns ((ctx, c) ∷ (k, kc) ∷ ks) f in
      splice-Forward p.next p.info x (some k) m ns ((ctx, c) ∷ (k, kc) ∷ ks) ((k, kc) ∷ ks) apart f
        (write-Forward (last_of m ns) (some k) p.next p.info (some k) ((k, kc) ∷ ks)
          (Apart-last m ns ((k, kc) ∷ ks) apart1) (refl, e_k, rest))

  removed-Forward : Forward removed.next removed.info x ((m ∷ ns) ++ (k, kc) ∷ ks)
  unfolding removed
  removed-Forward =
      write_info-Forward ctx none (write l (some k) p.next) p.info x ((m ∷ ns) ++ (k, kc) ∷ ks) out
        forward1

  removed-Backward : Backward removed.prev y ((m ∷ ns) ++ (k, kc) ∷ ks)
  unfolding removed l
  removed-Backward =
      let (e, (e_k, rest)) = Backward-rest p.prev y m ns ((ctx, c) ∷ (k, kc) ∷ ks) b in
      let b1 =
        prefix-Backward k (some l) p.prev y m ns ((ctx, c) ∷ (k, kc) ∷ ks)
          (Absent-append_left k (m ∷ ns) ks out_k) b in
      splice-Backward (write k (some l) p.prev) y m ns [] ((k, kc) ∷ ks) b1 (
        write_self k (some l) p.prev,
        write-Backward k (some l) p.prev (some k) ks (Absent-append_right k (m ∷ ns) ks out_k) rest,
      )

  remove0_run : remove0 ctx p ≡ (ok tt, removed)
  unfolding remove0 removed l
  remove0_run =
      let (at, e, (at_k, e_k, rest)) =
        Forward-rest p.next p.info x m ns ((ctx, c) ∷ (k, kc) ∷ ks) f in
      let (e_l, rest_b) = Backward-rest p.prev y m ns ((ctx, c) ∷ (k, kc) ∷ ks) b in
      ap₂ (λ a o. unlink ctx a o p) e_l at_k

-- The list without the first context that passes a test.
abbrev pub drop_first : (Context → Bool) → Contexts → Contexts
drop_first test [] = []
drop_first test ((a, c) ∷ ns) = if test c then ns else (a, c) ∷ drop_first test ns

-- Where that context stands.
abbrev pub Stands : (Context → Bool) → Contexts → ℕ → Type 0
Stands test bs ctx =
    (ns : Contexts) × (c : Context) × (ms : Contexts) × (bs ≡ ns ++ (ctx, c) ∷ ms)
    × (drop_first test bs ≡ ns ++ ms)

pub find-cases :
    (test : Context → Bool) (bs : Contexts) (t : ℕ × Context)
    → test (t.1) ≡ false
    → ((find test (bs ++ (t ∷ [])) ≡ none) × (drop_first test bs ≡ bs))
      ⊎ ((ctx : ℕ) × (find test (bs ++ (t ∷ [])) ≡ some ctx) × Stands test bs ctx)
find-cases test [] (a, c) other = inl (if_false _ _ _ other, refl)
find-cases test ((a, c) ∷ bs) t other = elim (Bool-cases (test c)) [
  | inl here ↦ inr (a, if_true _ _ _ here, ([], c, bs, refl, if_true _ _ _ here))
  | inr on ↦ elim (find-cases test bs t other) [
    | inl (e, same) ↦ inl (if_false _ _ _ on ∙ e, (if_false _ _ _ on ∙ ap (◌∷◌ (a, c)) same))
    | inr (ctx, e, (ns, d, ms, split, rest)) ↦ inr (
      ctx,
      if_false _ _ _ on ∙ e,
      ((a, c) ∷ ns, d, ms, ap (◌∷◌ (a, c)) split, if_false _ _ _ on ∙ ap (◌∷◌ (a, c)) rest),
    )
  ]
]

module _ (h t : Context) (p : Pipeline) where
  abbrev pub Keeps : Contexts → Outcome (Unit {0}) × Pipeline → Type 0
  Keeps bs r = (p' : Pipeline) × (r ≡ (ok tt, p')) × Holds h t p' bs

  removed-Keeps :
      (ns : Contexts) (ctx : ℕ) (c : Context) (ms : Contexts) (k : ℕ) (kc : Context) (ks : Contexts)
      → ms ++ ((p.tail, t) ∷ []) ≡ (k, kc) ∷ ks
      → Holds h t p (ns ++ (ctx, c) ∷ ms)
      → Keeps (ns ++ ms) (remove0 ctx p)
  unfolding removed
  removed-Keeps ns ctx c ms k kc ks e r =
      let all = (ctx, c) ∷ (k, kc) ∷ ks in
      let before : (ns ++ (ctx, c) ∷ ms) ++ ((p.tail, t) ∷ []) ≡ ns ++ (ctx, c) ∷ (k, kc) ∷ ks =
        append_assoc ns ((ctx, c) ∷ ms) ((p.tail, t) ∷ []) ∙ ap (λ l. ns ++ (ctx, c) ∷ l) e in
      let after : ns ++ (k, kc) ∷ ks ≡ (ns ++ ms) ++ ((p.tail, t) ∷ []) =
        ap (λ l. ns ++ l) (sym e) ∙ sym (append_assoc ns ms ((p.tail, t) ∷ [])) in
      let f = subst (λ l. Forward p.next p.info (some p.head) ((p.head, h) ∷ l)) before r.forward in
      let b = subst (λ l. Backward p.prev none ((p.head, h) ∷ l)) before r.backward in
      let a = subst (λ l. Apart ((p.head, h) ∷ l)) before r.apart in
      let q = removed p (some p.head) none (p.head, h) ns ctx c k kc ks f b a in
      let m : ℕ × Context = (p.head, h) in
      (
        q,
        remove0_run p (some p.head) none m ns ctx c k kc ks f b a,
        record {
          forward =
              subst (λ l. Forward q.next q.info (some p.head) (m ∷ l)) after
                (removed-Forward p (some p.head) none m ns ctx c k kc ks f b a);
          backward =
              subst (λ l. Backward q.prev none (m ∷ l)) after
                (removed-Backward p (some p.head) none m ns ctx c k kc ks f b a);
          apart =
              subst (λ l. Apart (m ∷ l)) after
                (apart1 p (some p.head) none m ns ctx c k kc ks f b a);
        },
      )

  remove0-Keeps :
      (ns : Contexts) (ctx : ℕ) (c : Context) (ms : Contexts)
      → Holds h t p (ns ++ (ctx, c) ∷ ms)
      → Keeps (ns ++ ms) (remove0 ctx p)
  remove0-Keeps ns ctx c [] r = removed-Keeps ns ctx c [] p.tail t [] refl r
  remove0-Keeps ns ctx c ((k, kc) ∷ ms) r =
      removed-Keeps ns ctx c ((k, kc) ∷ ms) k kc (ms ++ ((p.tail, t) ∷ [])) refl r

  -- remove(name) and remove(handler), by the test that finds the context.
  remove_found-Keeps :
      (test : Context → Bool) (fuel : ℕ) (bs : Contexts)
      → Holds h t p bs
      → test t ≡ false
      → length bs + 1 < fuel
      → Keeps (drop_first test bs) (remove_found (context0_by test fuel p) p)
  unfolding context0_by
  remove_found-Keeps test fuel bs r other enough =
      let (at, e, f) = r.forward in
      let found : context0_by test fuel p ≡ ok (find test (bs ++ ((p.tail, t) ∷ []))) =
        walk_lem p.info p.next test fuel (p.next p.head) (bs ++ ((p.tail, t) ∷ []))
          (omega (arith, length-append bs ((p.tail, t) ∷ []))) f in
      elim (find-cases test bs (p.tail, t) other) [
        | inl (none_found, same) ↦ (
          p,
          ap (λ o. remove_found o p) (found ∙ ap ok none_found),
          subst (Holds h t p) (sym same) r,
        )
        | inr (ctx, is_found, (ns, c, ms, split, rest)) ↦
            let (p', run, r') = remove0-Keeps ns ctx c ms (subst (Holds h t p) split r) in
            (
              p',
              ap (λ o. remove_found o p) (found ∙ ap ok is_found) ∙ run,
              subst (Holds h t p') (sym rest) r',
            )
      ]

  -- On a pipeline that holds a list of contexts, with more rounds than one more than there are
  -- contexts, remove of a name that the tail does not have ends normally, and the pipeline then
  -- holds the list without its first context of that name, or the same list if there is none.
  pub remove_lem :
      (name : Name) (fuel : ℕ) (bs : Contexts)
      → Holds h t p bs
      → same t.name name ≡ false
      → length bs + 1 < fuel
      → Keeps (drop_first (λ c. same c.name name) bs) (remove fuel name p)
  unfolding remove
  remove_lem name fuel bs r other enough =
      remove_found-Keeps (λ c. same c.name name) fuel bs r other enough
