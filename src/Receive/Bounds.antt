-- ===== src/Receive/Bounds.antt =====
-- The bounds that init of AdaptiveRecvByteBufAllocator.hpp sets.
use cpp_nio_socket.Common.{
  ℕ, ◌+◌, ◌-◌, ◌^◌, ◌≤◌, ◌<◌, ◌≡◌, refl, sym, ap, ◌∙◌, subst, arith, ◌⊎◌, inl, inr, ok, some,
  if◌then◌else◌, ltb, length, lt→ltb, le→ltb, lt→leb, le→leb, if_true, if_false, dec_lt, ℕ_discrete,
}
use cpp_nio_socket.Receive.{
  sizes, get_size, Allocator, with_indices, new_allocator, get_size_table_index,
}
use cpp_nio_socket.Receive.Search.{entry, Near, get_size_table_index_lem}

get_size-entry : (i : ℕ) → i < 53 → get_size i ≡ entry i
unfolding get_size
get_size-entry i lt = elim (ℕ_discrete i 0) [
  | yes z ↦ if_true _ _ _ (le→leb i 0 (omega arith)) ∙ ap entry (sym z)
  | no ne ↦
      if_false _ _ _ (lt→leb i 0 (omega (arith, ne))) ∙ if_false _ _ _ (lt→leb (length sizes) i lt)
]

-- The least index with at least `size` bytes.
abbrev pub LeastFrom : ℕ → ℕ → Type 0
LeastFrom size i = (size ≤ get_size i) × ((i ≡ 0) ⊎ (get_size (i - 1) < size))

-- The greatest index with at most `size` bytes.
abbrev pub GreatestTo : ℕ → ℕ → Type 0
GreatestTo size i = (get_size i ≤ size) × ((i + 1 ≡ length sizes) ⊎ (size < get_size (i + 1)))

min_index_lem :
    (size i : ℕ)
    → size ≤ 2 ^ 30
    → Near size i
    → LeastFrom size (if ltb (get_size i) size then i + 1 else i)
min_index_lem size i small (lt, lower, upper) = elim (dec_lt (get_size i) size) [
  | yes less ↦
      subst (LeastFrom size) (sym (if_true _ _ _ (lt→ltb (get_size i) size less))) (next less upper)
  | no enough ↦
      subst (LeastFrom size) (sym (if_false _ _ _ (le→ltb (get_size i) size (omega arith))))
        (omega arith, before lower)
]
  where
    next : get_size i < size → (i + 1 ≡ 53) ⊎ (size < entry (i + 1)) → LeastFrom size (i + 1)
    next less (inl last) =
        let q : i ≡ 52 = omega arith in
        let top : get_size i ≡ 2 ^ 30 = get_size-entry i lt ∙ ap entry q in
        absurd (omega (arith, top))
    next less (inr more) = elim (ℕ_discrete i 52) [
      | yes q ↦
          let top : get_size i ≡ 2 ^ 30 = get_size-entry i lt ∙ ap entry q in
          absurd (omega (arith, top))
      | no ne ↦
          let e = get_size-entry (i + 1) (omega (arith, ne)) in
          let back : i + 1 - 1 ≡ i = omega arith in
          (omega (arith, e), inr (subst (λ k. get_size k < size) (sym back) less))
    ]

    before : (i ≡ 0) ⊎ (entry (i - 1) < size) → (i ≡ 0) ⊎ (get_size (i - 1) < size)
    before (inl z) = inl z
    before (inr q) = inr (omega (arith, get_size-entry (i - 1) (omega arith)))

max_index_lem :
    (size i : ℕ)
    → 16 ≤ size
    → Near size i
    → GreatestTo size (if ltb size (get_size i) then i - 1 else i)
max_index_lem size i large (lt, lower, upper) = elim (dec_lt size (get_size i)) [
  | yes more ↦
      subst (GreatestTo size) (sym (if_true _ _ _ (lt→ltb size (get_size i) more)))
        (previous more lower)
  | no enough ↦
      subst (GreatestTo size) (sym (if_false _ _ _ (le→ltb size (get_size i) (omega arith))))
        (omega arith, after upper)
]
  where
    previous : size < get_size i → (i ≡ 0) ⊎ (entry (i - 1) < size) → GreatestTo size (i - 1)
    previous more (inl z) =
        let first : get_size i ≡ 16 = get_size-entry i lt ∙ ap entry z in
        absurd (omega (arith, first))
    previous more (inr q) = elim (ℕ_discrete i 0) [
      | yes z ↦
          let first : get_size i ≡ 16 = get_size-entry i lt ∙ ap entry z in
          absurd (omega (arith, first))
      | no ne ↦
          let back : i - 1 + 1 ≡ i = omega (arith, ne) in
          (
            omega (arith, get_size-entry (i - 1) (omega arith)),
            inr (subst (λ k. size < get_size k) (sym back) more),
          )
    ]

    after : (i + 1 ≡ 53) ⊎ (size < entry (i + 1)) → (i + 1 ≡ 53) ⊎ (size < get_size (i + 1))
    after (inl last) = inl last
    after (inr q) = elim (ℕ_discrete i 52) [
      | yes e ↦ inl (omega (arith, e))
      | no ne ↦ inr (omega (arith, get_size-entry (i + 1) (omega (arith, ne))))
    ]

-- For bounds 0 < minimum <= initial <= maximum, with a minimum of at most 2 ^ 30 and a maximum of at
-- least 16, init does not throw, keeps the initial size, and sets the lower index to the least one
-- with at least the minimum and the upper index to the greatest one with at most the maximum.
pub new_allocator_lem :
    (minimum initial maximum : ℕ)
    → 0 < minimum
    → minimum ≤ initial
    → initial ≤ maximum
    → 16 ≤ maximum
    → minimum ≤ 2 ^ 30
    → (a : Allocator) × (new_allocator minimum initial maximum ≡ ok a)
      × LeastFrom minimum a.min_index
      × GreatestTo maximum a.max_index
      × (a.initial ≡ initial)
unfolding new_allocator
new_allocator_lem minimum initial maximum pos le le' large small =
    let (lo, found, near) = get_size_table_index_lem minimum in
    let (hi, found', near') = get_size_table_index_lem maximum in
    (
      record {
        min_index = if ltb (get_size lo) minimum then lo + 1 else lo;
        max_index = if ltb maximum (get_size hi) then hi - 1 else hi;
        initial = initial;
      },
      if_false _ _ _ (lt→leb minimum 0 pos)
          ∙ if_false _ _ _ (le→ltb initial minimum le)
          ∙ if_false _ _ _ (le→ltb maximum initial le')
          ∙ ap (λ o. with_indices minimum initial maximum o (get_size_table_index maximum)) found
          ∙ ap (with_indices minimum initial maximum (some lo)) found',
      min_index_lem minimum lo small near,
      max_index_lem maximum hi large near',
      refl,
    )
