-- ===== src/ChunkList/Serve.antt =====
-- allocate: a chunk of a list that has served goes up the lists when it is too full.
use mathlib.Core.Bool.{false≢true}
use cpp_nio_socket.Common.{
  ℕ, ◌≤◌, ◌≡◌, ◌≢◌, inl, inr, refl, sym, ap, subst, ◌∙◌, arith, dec_lt, ltb, Bool, true, false,
  List, [], ◌∷◌, Outcome, ok, bind, lt→leb, le→leb, if_true, if_false, Bool-cases, ℕ_discrete,
}
use cpp_nio_socket.ChunkList.{
  ListId, q_init, q000, q025, q050, q075, q100, min_usage, max_usage, ChunkOps, Lists, add0,
  after_success, tried, allocate_from, allocate, calculate_max_capacity,
}
use cpp_nio_socket.ChunkList.Moves.{climb, AddsTo, up, add-AddsTo}
use cpp_nio_socket.ChunkList.Members.{In}
use cpp_nio_socket.ChunkList.Placed.{Placed, Without, add0-Placed, keeps_others, is_in}
use cpp_nio_socket.ChunkList.Change.{taken_out, taken_out-Without, stays, changed-Placed}

-- What PoolChunk promises of an attempt to allocate.
pub record Promises {S : Type 0} (ops : ChunkOps S) : Type 0 where
  pub at_most : (c : ℕ) (s : S) → ops.usage c s ≤ 100
  pub apart : (c d n : ℕ) (s : S) → c ≢ d → ops.usage d ((ops.try_allocate c n s).1) ≡ ops.usage d s
  pub grows : (c n : ℕ) (s : S) → ops.usage c s ≤ ops.usage c ((ops.try_allocate c n s).1)
  pub unchanged :
      (c n : ℕ) (s : S) → (ops.try_allocate c n s).0 ≡ false → (ops.try_allocate c n s).1 ≡ s

climb-le : (q : ListId) → climb q ≤ 6
climb-le q_init = omega arith
climb-le q000 = omega arith
climb-le q025 = omega arith
climb-le q050 = omega arith
climb-le q075 = omega arith
climb-le q100 = omega arith

module _ {S : Type 0} (ops : ChunkOps S) where
  -- A chunk of a list served the capacity, which made the memory what it is.
  abbrev pub Took : ℕ → Lists S → Lists S → Type 0
  Took n a a' =
      (d : ℕ) × (q : ListId) × In d (a.chunks q) × (ops.try_allocate d n a.store ≡ (true, a'.store))

  -- A run that ends normally, keeps the invariant and loses no chunk: it serves from a chunk of a list
  -- or changes nothing.
  unfoldable pub Serves : ℕ → Lists S → Outcome Bool × Lists S → Type 0
  Serves n a r =
      (served : Bool) × (a' : Lists S) × (r ≡ (ok served, a'))
      × (served ≡ false → a' ≡ a)
      × (served ≡ true → Took n a a')
      × Placed ops a'
      × ((d : ℕ) (q : ListId) → In d (a.chunks q) → (q' : ListId) × In d (a'.chunks q'))

module _ {S : Type 0} (ops : ChunkOps S) (k : Promises ops) where
  module _ (c : ℕ) (s : S) (a : Lists S) (p : Placed ops a) (q : ListId)
      (member : In c (a.chunks q)) (others : (d : ℕ) → c ≢ d → ops.usage d s ≡ ops.usage d a.store)
      (more : ops.usage c a.store ≤ ops.usage c s) (n : ℕ)
      (took : ops.try_allocate c n a.store ≡ (true, s)) where
    abbrev rest_of : Lists S
    rest_of = taken_out ops c s a p q member others

    removed-Without : Without ops c rest_of
    removed-Without = taken_out-Without ops c s a p q member others

    climbed :
        (r : Outcome (Unit {0}) × Lists S)
        → AddsTo ops c rest_of r
        → Serves ops n a (bind r (λ _ a. (ok true, a)))
    unfolding Serves AddsTo
    climbed r (q', fit, e) = (
      true,
      add0 ops q' c rest_of,
      ap (λ r. bind r (λ _ a. (ok true, a))) e,
      (λ z. absurd (false≢true (sym z))),
      (λ _. (c, q, member, took)),
      add0-Placed ops c rest_of removed-Without q' fit,
      λ d l h. elim (ℕ_discrete c d) [
        | yes same ↦ (
          q',
          subst (λ x. In x ((add0 ops q' c rest_of).chunks q')) same
              (is_in ops c rest_of removed-Without q' fit),
        )
        | no ne ↦ (
          l,
          keeps_others ops c rest_of removed-Without q' fit l d
              (stays ops c s a p q member others l d ne h),
        )
      ],
    )

    after_success-Serves : Serves ops n a (after_success ops q c (record a { store = s }))
    unfolding Serves
    after_success-Serves = elim (dec_lt (ops.usage c s) (max_usage q)) [
      | yes room ↦
          let (lo, hi) = p.fits q c member in
          (
            true,
            record a { store = s },
            if_false _ _ _ (lt→leb (max_usage q) (ops.usage c s) room),
            (λ z. absurd (false≢true (sym z))),
            (λ _. (c, q, member, took)),
            changed-Placed ops c s a p q member others (omega (arith, lo, more), room),
            λ d l h. (l, h),
          )
      | no full ↦
          let most : max_usage q ≤ ops.usage c s = omega (arith, full) in
          subst (Serves ops n a) (sym (if_true _ _ _ (le→leb (max_usage q) (ops.usage c s) most))) (
            climbed _ (
              up ops c rest_of 6 (λ r j w. add-AddsTo ops c rest_of (k.at_most c s) 6 r j w) q
                (climb-le q) most (k.at_most c s)))
    ]

  congr-Serves :
      (n : ℕ) (a : Lists S) (r r' : Outcome Bool × Lists S)
      → r ≡ r'
      → Serves ops n a r'
      → Serves ops n a r
  congr-Serves n a r r' e = subst (Serves ops n a) (sym e)

  -- `cs` is what is left of the list.
  allocate_from-Serves :
      (q : ListId) (n : ℕ) (a : Lists S)
      → Placed ops a
      → (cs : List ℕ) → ((c : ℕ) → In c cs → In c (a.chunks q))
      → Serves ops n a (allocate_from ops q n cs a)
  unfolding Serves allocate_from
  allocate_from-Serves q n a p [] sub =
      (false, a, refl, (λ z. refl), (λ z. absurd (false≢true z)), p, λ d l h. (l, h))
  allocate_from-Serves q n a p (c ∷ cs) sub =
      let s = (ops.try_allocate c n a.store).1 in
      let rest = allocate_from ops q n cs in
      elim (Bool-cases ((ops.try_allocate c n a.store).0)) [
        | inl served ↦ congr-Serves n a _ _ (ap (λ b. tried ops q c rest (b, s) a) served) (
            after_success-Serves c s a p q (sub c (inl refl)) (λ d ne. k.apart c d n a.store ne)
              (k.grows c n a.store) n (ap (λ b. (b, s)) served))
        | inr failed ↦
            let same : rest (record a { store = s }) ≡ rest a =
              ap (λ s. rest (record a { store = s })) (k.unchanged c n a.store failed) in
            congr-Serves n a _ _ (ap (λ b. tried ops q c rest (b, s) a) failed ∙ same)
              (allocate_from-Serves q n a p cs (λ d h. sub d (inr h)))
      ]

  pub allocate-Serves :
      (size : ℕ) (q : ListId) (n : ℕ) (a : Lists S)
      → Placed ops a
      → Serves ops n a (allocate ops size q n a)
  unfolding Serves allocate
  allocate-Serves size q n a p =
      elim (Bool-cases (ltb (calculate_max_capacity (min_usage q) size) n)) [
        | inl too_big ↦ (
          false,
          a,
          if_true _ _ _ too_big,
          (λ z. refl),
          (λ z. absurd (false≢true z)),
          p,
          λ d l h. (l, h),
        )
        | inr fits ↦
            congr-Serves n a _ _ (if_false _ _ _ fits)
              (allocate_from-Serves q n a p (a.chunks q) (λ c h. h))
      ]
