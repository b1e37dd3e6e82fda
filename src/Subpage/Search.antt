-- ===== src/Subpage/Search.antt =====
-- findNextAvail: while an element is free, the search finds one.
use native.Mathlib.Nat.{two-pow-succ, one-le-pow}
use cpp_nio_socket.Common.{
  ℕ, zero, suc, ◌+◌, ◌-◌, ◌*◌, ◌/◌, ◌%◌, ◌^◌, ◌≤◌, ◌<◌, ◌≡◌, ◌≢◌, ◌⊎◌, inl, inr, refl, sym, ap, ◌∙◌,
  arith, ℕ_discrete, List, get_or, some, true, ==_eq, ==_ne, lt→ltb, ltb,
}
use cpp_nio_socket.Bits.{bit, bit-lt, all_ones}
use cpp_nio_socket.Subpage.{find_next_avail0, find_words, test_bit}
use cpp_nio_socket.Subpage.Bitmap.{Words}

bit-ones : (k j : ℕ) → j < k → bit j (2 ^ k - 1) ≡ 1
bit-ones zero j h = absurd (omega arith)
bit-ones (suc k) zero h = omega (arith, two-pow-succ k, one-le-pow k 2 (omega arith))
bit-ones (suc k) (suc j) h =
    let e : (2 ^ suc k - 1) / 2 ≡ 2 ^ k - 1 = omega (arith, two-pow-succ k) in
    rw e (bit-ones k j (omega arith))

clear_bit_cases : (n w : ℕ) → ((j : ℕ) → j < n → bit j w ≡ 1) ⊎ ((j : ℕ) × (j < n) × (bit j w ≡ 0))
clear_bit_cases zero w = inl (λ j h. absurd (omega arith))
clear_bit_cases (suc n) w = elim (clear_bit_cases n w) [
  | inr (j, h, z) ↦ inr (j, omega arith, z)
  | inl all ↦ elim (ℕ_discrete (bit n w) 0) [
    | yes z ↦ inr (n, omega arith, z)
    | no ne ↦ inl (λ j h. elim (ℕ_discrete j n) [
      | yes e ↦ rw e (omega (arith, ne, bit-lt n w))
      | no d ↦ all j (omega (arith, d))
    ])
  ]
]

-- A word that is not full has a clear bit.
word-clear : (w : ℕ) → w < 2 ^ 64 → w ≢ 2 ^ 64 - 1 → (j : ℕ) × (j < 64) × (bit j w ≡ 0)
word-clear w h d = elim (clear_bit_cases 64 w) [
  | inr found ↦ found
  | inl all ↦ absurd (d (omega (arith, all_ones 64 w all h)))
]

find_next_avail0-first :
    (max_num base n j w c : ℕ)
    → c < n
    → bit c w ≡ 0
    → base + (j + c) < max_num
    → (k : ℕ) × (find_next_avail0 max_num base n j w ≡ some (base + (j + k)))
      × (k ≤ c)
      × (bit k w ≡ 0)
unfolding find_next_avail0
find_next_avail0-first max_num base zero j w c h z p = absurd (omega arith)
find_next_avail0-first max_num base (suc n) j w c h z p = elim (ℕ_discrete (w % 2) 0) [
  | yes e ↦
      let here : ltb (base + j) max_num ≡ true = lt→ltb (base + j) max_num (omega arith) in
      let at : base + j ≡ base + (j + 0) = omega arith in
      (0, (rw (==_eq (w % 2) 0 e) (rw here (ap some at))), omega arith, e)
  | no ne ↦
      let (c', e, z') = halved c z ne in
      let (k, found, le, clear) =
        find_next_avail0-first max_num base n (suc j) (w / 2) c' (omega arith) z' (omega arith) in
      let at : base + (suc j + k) ≡ base + (j + suc k) = omega arith in
      (suc k, (rw (==_ne (w % 2) 0 ne) (found ∙ ap some at)), omega arith, clear)
]
  where
    halved : (c : ℕ) → bit c w ≡ 0 → w % 2 ≢ 0 → (c' : ℕ) × (c ≡ suc c') × (bit c' (w / 2) ≡ 0)
    halved zero z ne = absurd (ne z)
    halved (suc c) z ne = (c, refl, z)

pub find_words-first :
    (max_num : ℕ) (b : List ℕ) (n i c : ℕ)
    → Words b
    → i * 64 ≤ c
    → c < (i + n) * 64
    → c < max_num
    → test_bit b c ≡ 0
    → (k : ℕ) × (find_words max_num b n i ≡ some k) × (k < max_num) × (test_bit b k ≡ 0)
unfolding find_words test_bit find_next_avail0
find_words-first max_num b zero i c ws lo hi p z = absurd (omega arith)
find_words-first max_num b (suc n) i c ws lo hi p z =
    elim (ℕ_discrete (get_or b i 0) (2 ^ 64 - 1)) [
      | yes full ↦
          rw (==_eq (get_or b i 0) (2 ^ 64 - 1) full)
            (find_words-first max_num b n (suc i) c ws (past full) (omega arith) p z)
      | no ne ↦
          let (c', below, cleared, inside) = clear_in ne in
          let (k, found, le, clear) =
            find_next_avail0-first max_num (i * 64) 64 0 (get_or b i 0) c' below cleared inside in
          let at : i * 64 + (0 + k) ≡ i * 64 + k = omega arith in
          let q : (i * 64 + k) / 64 ≡ i = omega arith in
          let r : (i * 64 + k) % 64 ≡ k = omega arith in
          (
            i * 64 + k,
            (rw (==_ne (get_or b i 0) (2 ^ 64 - 1) ne) (found ∙ ap some at)),
            omega arith,
            rw (q, r) clear,
          )
    ]
  where
    past : get_or b i 0 ≡ 2 ^ 64 - 1 → suc i * 64 ≤ c
    past full = elim (ℕ_discrete (c / 64) i) [
      | yes e ↦
          let z1 : bit (c % 64) (get_or b i 0) ≡ 0 = rw (sym e) z in
          let z2 : bit (c % 64) (2 ^ 64 - 1) ≡ 0 = rw (sym full) z1 in
          absurd (omega (arith, z2, bit-ones 64 (c % 64) (omega arith)))
      | no d ↦ omega (arith, d)
    ]

    clear_in :
        get_or b i 0 ≢ 2 ^ 64 - 1
        → (c' : ℕ) × (c' < 64) × (bit c' (get_or b i 0) ≡ 0) × (i * 64 + (0 + c') < max_num)
    clear_in ne = elim (ℕ_discrete (c / 64) i) [
      | yes e ↦ (c % 64, omega arith, rw (sym e) z, omega arith)
      | no d ↦
          let (j, below, clear) = word-clear (get_or b i 0) (ws i) ne in
          (j, below, clear, omega (arith, d))
    ]
