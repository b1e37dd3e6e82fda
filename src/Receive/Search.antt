-- ===== src/Receive/Search.antt =====
-- What getSizeTableIndex of AdaptiveRecvByteBufAllocator.cpp finds.
use cpp_nio_socket.Common.{
  ℕ, zero, suc, ◌+◌, ◌-◌, ◌/◌, ◌≤◌, ◌<◌, ◌≡◌, refl, sym, ap, ◌∙◌, subst, arith, ◌⊎◌, inl, inr, Bool,
  true, ◌&&◌, some, List, [], ◌∷◌, length, get_or, ltb, ==_eq, ==_ne, lt→ltb, le→ltb, if_true,
  if_false, dec_lt, ℕ_discrete,
}
use cpp_nio_socket.Receive.{sizes, find_index, get_size_table_index}

abbrev pub entry : ℕ → ℕ
entry i = get_or sizes i 0

-- The list goes up strictly.
abbrev ascends : List ℕ → Bool
ascends [] = true
ascends (x ∷ []) = true
ascends (x ∷ y ∷ ys) = ltb x y && ascends (y ∷ ys)

ascends-rises :
    (xs : List ℕ) (i : ℕ)
    → ascends xs ≡ true
    → i + 1 < length xs
    → get_or xs i 0 < get_or xs (i + 1) 0
ascends-rises [] i up lt = absurd (omega arith)
ascends-rises (x ∷ []) i up lt = absurd (omega arith)
ascends-rises (x ∷ y ∷ ys) zero up lt = ground arith
ascends-rises (x ∷ y ∷ ys) (suc i) up lt =
    let e : suc i + 1 ≡ suc (i + 1) = omega arith in
    subst (λ k. get_or (x ∷ y ∷ ys) (suc i) 0 < get_or (x ∷ y ∷ ys) k 0) (sym e)
      (ascends-rises (y ∷ ys) i (ground arith) (omega arith))

pub rises : (i : ℕ) → i < 52 → entry i < entry (i + 1)
rises i lt = ascends-rises sizes i refl (omega arith)

-- The entry before the index is less than the size, and the one after it is more.
abbrev pub Near : ℕ → ℕ → Type 0
Near size i =
    (i < length sizes)
    × ((i ≡ 0) ⊎ (get_or sizes (i - 1) 0 < size))
    × ((i + 1 ≡ length sizes) ⊎ (size < get_or sizes (i + 1) 0))

at_or_below : (size i : ℕ) → i < 53 → (i ≡ 0) ⊎ (entry i ≤ size) → (i ≡ 0) ⊎ (entry (i - 1) < size)
at_or_below size i lt (inl z) = inl z
at_or_below size zero lt (inr le) = inl refl
at_or_below size (suc i) lt (inr le) =
    let q : suc i - 1 ≡ i = omega arith in
    let q' : i + 1 ≡ suc i = omega arith in
    inr (rw q (omega (arith, rises i (omega arith), ap entry q', le)))

at_or_above : (size i : ℕ) → i < 53 → size ≤ entry i → (i + 1 ≡ 53) ⊎ (size < entry (i + 1))
at_or_above size i lt le = elim (dec_lt i 52) [
  | yes inner ↦ inr (omega (arith, rises i inner))
  | no last ↦ inl (omega arith)
]

-- What is known of the part that is searched.
abbrev Within : ℕ → ℕ → ℕ → Type 0
Within size low high =
    (low ≤ high)
    × (high < 53)
    × ((low ≡ 0) ⊎ (entry low < size))
    × ((high + 1 ≡ 53) ⊎ (size < entry (high + 1)))

find_index-Near :
    (fuel size low high : ℕ)
    → high < fuel + low
    → Within size low high
    → (i : ℕ) × (find_index fuel size low high ≡ some i) × Near size i
unfolding find_index
find_index-Near zero size low high enough w = absurd (omega arith)
find_index-Near (suc fuel) size low high enough (le, lt, lower, upper) =
    let mid = (low + high) / 2 in
    elim (dec_lt low high) [
      | no done ↦
          let same : high ≡ low = omega arith in
          (
            low,
            if_false _ _ _ (le→ltb low high (omega arith)),
            (
              omega arith,
              at_or_below size low (omega arith) (weaken lower),
              subst (λ k. (k + 1 ≡ 53) ⊎ (size < entry (k + 1))) same upper,
            ),
          )
      | yes more ↦
          let inner : mid < 52 = omega arith in
          let here = if_true _ _ _ (lt→ltb low high more) in
          elim (ℕ_discrete size (entry mid)) [
            | yes e ↦ (
              mid,
              here ∙ if_true _ _ _ (==_eq size (entry mid) e),
              (
                omega arith,
                at_or_below size mid (omega arith) (inr (omega (arith, e))),
                at_or_above size mid (omega arith) (omega (arith, e)),
              ),
            )
            | no ne ↦
                let there = here ∙ if_false _ _ _ (==_ne size (entry mid) ne) in
                elim (dec_lt size (entry mid)) [
                  | yes less ↦
                      let (i, run, near) = find_index-Near fuel size low (mid - 1) (omega arith) (
                        left mid less lower (omega arith),
                        omega arith,
                        lower,
                        before mid less inner,
                      ) in
                      (i, there ∙ if_true _ _ _ (lt→ltb size (entry mid) less) ∙ run, near)
                  | no more_than ↦
                      let past = there ∙ if_false _ _ _ (le→ltb size (entry mid) (omega arith)) in
                      elim (dec_lt (entry (mid + 1)) size) [
                        | yes beyond ↦
                            let (i, run, near) =
                              find_index-Near fuel size (mid + 1) high (omega arith)
                                (omega arith, lt, inr beyond, upper) in
                            (
                              i,
                              past ∙ if_true _ _ _ (lt→ltb (entry (mid + 1)) size beyond) ∙ run,
                              near,
                            )
                        | no within ↦
                            let q : mid + 1 - 1 ≡ mid = omega arith in
                            (
                              mid + 1,
                              past ∙ if_false _ _ _ (le→ltb (entry (mid + 1)) size (omega arith)),
                              (
                                omega arith,
                                inr (subst (λ k. entry k < size) (sym q) (omega (arith, ne))),
                                at_or_above size (mid + 1) (omega arith) (omega arith),
                              ),
                            )
                      ]
                ]
          ]
    ]
  where
    weaken : (low ≡ 0) ⊎ (entry low < size) → (low ≡ 0) ⊎ (entry low ≤ size)
    weaken (inl z) = inl z
    weaken (inr q) = inr (omega arith)

    left : (mid : ℕ) → size < entry mid → (low ≡ 0) ⊎ (entry low < size) → low ≤ mid → low ≤ mid - 1
    left mid less (inl z) at = omega arith
    left mid less (inr q) at = elim (ℕ_discrete low mid) [
      | yes e ↦ absurd (omega (arith, ap entry e, less, q))
      | no ne ↦ omega (arith, ne)
    ]

    before :
        (mid : ℕ) → size < entry mid → mid < 52 → (mid - 1 + 1 ≡ 53) ⊎ (size < entry (mid - 1 + 1))
    before zero less inner = inr (omega (arith, rises 0 (omega arith), less))
    before (suc m) less inner =
        let q : suc m - 1 + 1 ≡ suc m = omega arith in
        inr (subst (λ k. size < entry k) (sym q) less)

-- The binary search of getSizeTableIndex ends for every size, at an index of the table whose entry
-- before it, if there is one, is less than the size, and whose entry after it, if there is one, is
-- more than the size.
pub get_size_table_index_lem :
    (size : ℕ) → (i : ℕ) × (get_size_table_index size ≡ some i) × Near size i
unfolding get_size_table_index
get_size_table_index_lem size =
    find_index-Near 54 size 0 52 (omega arith) (omega arith, omega arith, inl refl, inl refl)
