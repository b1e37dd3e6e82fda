-- ===== src/ChunkList/Allocate.antt =====
-- allocateNormal: the lists in their order, then a new chunk.
use mathlib.Core.Bool.{false≢true}
use cpp_nio_socket.Common.{
  ℕ, ◌≡◌, ◌≢◌, ◌⊎◌, inl, inr, refl, sym, ap, subst, ◌∙◌, arith, Bool, true, false, Outcome, M, ok,
  bind, if◌then◌else◌,
}
use cpp_nio_socket.ChunkList.{
  ListId, q_init, q000, q025, q050, q075, min_usage, ChunkOps, Lists, add0, allocate, or_else,
  from_new, allocate_normal,
}
use cpp_nio_socket.ChunkList.Moves.{Fits, AddsTo, add-AddsTo}
use cpp_nio_socket.ChunkList.Members.{In, Absent, Absent-ne}
use cpp_nio_socket.ChunkList.Placed.{Placed, Without, add0-Placed, keeps_others, is_in}
use cpp_nio_socket.ChunkList.Serve.{Promises, Took, Serves, allocate-Serves}

module _ {S : Type 0} (ops : ChunkOps S) where
  -- A run that ends normally, keeps the invariant and loses no chunk: a chunk of a list serves the
  -- capacity, or the new chunk does and is in a list.
  unfoldable pub Allocates : (S → S) → ℕ → ℕ → Lists S → Outcome (Unit {0}) × Lists S → Type 0
  Allocates fresh c n a r =
      (a' : Lists S) × (r ≡ (ok tt, a'))
      × Placed ops a'
      × ((d : ℕ) (q : ListId) → In d (a.chunks q) → (q' : ListId) × In d (a'.chunks q'))
      × (Took ops n a a'
          ⊎ (((q : ListId) × In c (a'.chunks q))
              × (ops.try_allocate c n (fresh a.store) ≡ (true, a'.store))))

module _ {S : Type 0} (ops : ChunkOps S) (k : Promises ops) where
  after_first :
      (n : ℕ) (f g : M (Lists S) Bool)
      → ((a : Lists S) → Placed ops a → Serves ops n a (g a))
      → (a a' : Lists S) (served : Bool) → f a ≡ (ok served, a')
      → (served ≡ false → a' ≡ a)
      → (served ≡ true → Took ops n a a')
      → Placed ops a'
      → ((d : ℕ) (q : ListId) → In d (a.chunks q) → (q' : ListId) × In d (a'.chunks q'))
      → Serves ops n a (or_else ops f g a)
  unfolding Serves
  after_first n f g second a a' true e same took p' keeps = (
    true,
    a',
    ap (λ r. bind r (λ served a. if served then (ok true, a) else g a)) e,
    (λ z. absurd (false≢true (sym z))),
    took,
    p',
    keeps,
  )
  after_first n f g second a a' false e same took p' keeps =
      let (served, a2, e2, same2, took2, p2, keeps2) = second a' p' in
      (
        served,
        a2,
        ap (λ r. bind r (λ served a. if served then (ok true, a) else g a)) e ∙ e2,
        (λ z. same2 z ∙ same refl),
        (λ z. subst (λ x. Took ops n x a2) (same refl) (took2 z)),
        p2,
        λ d l h. let (l', h') = keeps d l h in keeps2 d l' h',
      )

  or_else-Serves :
      (n : ℕ) (f g : M (Lists S) Bool)
      → ((a : Lists S) → Placed ops a → Serves ops n a (f a))
      → ((a : Lists S) → Placed ops a → Serves ops n a (g a))
      → (a : Lists S) → Placed ops a
      → Serves ops n a (or_else ops f g a)
  unfolding Serves
  or_else-Serves n f g first second a p =
      let (served, a', e, same, took, p', keeps) = first a p in
      after_first n f g second a a' served e same took p' keeps

  existing-Serves :
      (size n : ℕ) (a : Lists S)
      → Placed ops a
      → Serves ops n a (
          or_else ops
            (allocate ops size q050 n)
            (or_else ops (allocate ops size q025 n) (
              or_else ops
                (allocate ops size q000 n)
                (or_else ops (allocate ops size q_init n) (allocate ops size q075 n))))
            a)
  existing-Serves size n = or_else-Serves n _ _ (allocate-Serves ops k size q050 n) (
      or_else-Serves n _ _ (allocate-Serves ops k size q025 n) (
        or_else-Serves n _ _ (allocate-Serves ops k size q000 n) (
          or_else-Serves n _ _ (allocate-Serves ops k size q_init n)
            (allocate-Serves ops k size q075 n))))

  module _ (fresh : S → S) (c n : ℕ)
      (new : (d : ℕ) (s : S) → c ≢ d → ops.usage d (fresh s) ≡ ops.usage d s)
      (enough : (s : S) → (ops.try_allocate c n (fresh s)).0 ≡ true) where
    abbrev pub NowhereIn : Lists S → Type 0
    NowhereIn a = (q : ListId) → Absent c (a.chunks q)

    abbrev NewServes : Lists S → Lists S → Type 0
    NewServes a a' =
        ((q : ListId) × In c (a'.chunks q))
        × (ops.try_allocate c n (fresh a.store) ≡ (true, a'.store))

    from_new-Allocates :
        (a : Lists S)
        → Placed ops a
        → NowhereIn a
        → Allocates ops fresh c n a (from_new ops (ops.try_allocate c n (fresh a.store)) c a)
    unfolding Allocates AddsTo min_usage
    from_new-Allocates a p out =
        let s : S = (ops.try_allocate c n (fresh a.store)).1 in
        let a1 : Lists S = record a { store = s } in
        let same : (q : ListId) (d : ℕ) → In d (a.chunks q) → ops.usage d s ≡ ops.usage d a.store =
          λ q d h.
            let ne = Absent-ne c d (a.chunks q) (out q) h in
            k.apart c d n (fresh a.store) ne ∙ new d a.store ne in
        let w : Without ops c a1 = record {
          placed = record {
            fits = λ q d h. subst (Fits q) (sym (same q d h)) (p.fits q d h);
            owned = p.owned;
            once = p.once;
          };
          gone = out;
        } in
        let (q', fit, e) =
          add-AddsTo ops c a1 (k.at_most c s) 7 q_init (omega arith) (omega arith) in
        (
          add0 ops q' c a1,
          ap (λ b. from_new ops (b, s) c a) (enough a.store) ∙ e,
          add0-Placed ops c a1 w q' fit,
          λ d l h. (l, keeps_others ops c a1 w q' fit l d h),
          inr ((q', is_in ops c a1 w q' fit), ap (λ b. (b, s)) (enough a.store)),
        )

    finish :
        (size : ℕ) (a a' : Lists S) (served : Bool)
        → (served ≡ false → a' ≡ a)
        → (served ≡ true → Took ops n a a')
        → Placed ops a'
        → NowhereIn a
        → ((d : ℕ) (q : ListId) → In d (a.chunks q) → (q' : ListId) × In d (a'.chunks q'))
        → Allocates ops fresh c n a (
            if served
            then (ok tt, a')
            else from_new ops (ops.try_allocate c n (fresh a'.store)) c a')
    unfolding Allocates
    finish size a a' true same took p' out keeps = (a', refl, p', keeps, inl (took refl))
    finish size a a' false same took p' out keeps =
        let (a2, e, p2, keeps2, by) =
          from_new-Allocates a' p' (subst NowhereIn (sym (same refl)) out) in
        (
          a2,
          e,
          p2,
          λ d l h. let (l', h') = keeps d l h in keeps2 d l' h',
          subst (λ x. Took ops n x a2 ⊎ NewServes x a2) (same refl) by,
        )

    -- If every chunk is in one list at most, which its usage fits and which is its parent, an
    -- attempt to allocate from a chunk leaves its usage at 100 at most, does not lower it, changes
    -- the usage of no other chunk, and changes nothing when it fails, and a new chunk, in no list,
    -- always serves the request, then allocateNormal ends normally, the lists are as before in these
    -- respects, every chunk that was in a list is in one, and the request is served, with no other
    -- change of the memory: by a chunk that was in a list, or by the new chunk, which then is in a
    -- list.
    pub allocate_normal_lem :
        (size : ℕ) (a : Lists S)
        → Placed ops a
        → NowhereIn a
        → Allocates ops fresh c n a (allocate_normal ops fresh c size n a)
    unfolding Allocates Serves allocate_normal
    allocate_normal_lem size a p out =
        let (served, a', e, same, took, p', keeps) = existing-Serves size n a p in
        let (a2, e2, p2, keeps2, by) = finish size a a' served same took p' out keeps in
        (
          a2,
          ap
                (λ r. bind r (λ served a.
                  if served
                  then (ok tt, a)
                  else from_new ops (ops.try_allocate c n (fresh a.store)) c a))
                e
              ∙ e2,
          p2,
          keeps2,
          by,
        )
