-- ===== src/Subpage/Count.antt =====
-- The number of elements of a page that are not in use.
use cpp_nio_socket.Common.{
  ℕ, zero, suc, ◌+◌, ◌-◌, ◌≤◌, ◌<◌, ◌≡◌, ◌≢◌, refl, sym, arith, ℕ_discrete, List,
}
use cpp_nio_socket.Subpage.{test_bit}
use cpp_nio_socket.Subpage.Bitmap.{test_bit-lt}

-- Of the first `n` elements.
unfoldable pub clear_count : List ℕ → ℕ → ℕ
clear_count b zero = 0
clear_count b (suc n) = (1 - test_bit b n) + clear_count b n

pub clear_count-le : (b : List ℕ) (n : ℕ) → clear_count b n ≤ n
unfolding clear_count
clear_count-le b zero = omega arith
clear_count-le b (suc n) = omega (arith, clear_count-le b n)

-- Two bitmaps that differ in no element, or in one.
pub clear_count_congr :
    (b c : List ℕ) (n : ℕ)
    → ((j : ℕ) → j < n → test_bit c j ≡ test_bit b j)
    → clear_count c n ≡ clear_count b n
unfolding clear_count
clear_count_congr b c zero same = refl
clear_count_congr b c (suc n) same =
    omega (arith, same n (omega arith), clear_count_congr b c n (λ j p. same j (omega arith)))

pub clear_count_step :
    (b c : List ℕ) (i n : ℕ)
    → i < n
    → test_bit b i ≡ 0
    → test_bit c i ≡ 1
    → ((j : ℕ) → i ≢ j → test_bit c j ≡ test_bit b j)
    → clear_count b n ≡ suc (clear_count c n)
unfolding clear_count
clear_count_step b c i zero h was is same = absurd (omega arith)
clear_count_step b c i (suc n) h was is same = elim (ℕ_discrete i n) [
  | yes e ↦
      let last : clear_count c n ≡ clear_count b n =
        clear_count_congr b c n (λ j p. same j (λ q. absurd (omega arith))) in
      let was_n : test_bit b n ≡ 0 = rw (sym e) was in
      let is_n : test_bit c n ≡ 1 = rw (sym e) is in omega (arith, last, was_n, is_n)
  | no ne ↦ omega (arith, same n ne, clear_count_step b c i n (omega (arith, ne)) was is same)
]

pub clear_count_pos : (b : List ℕ) (i n : ℕ) → i < n → test_bit b i ≡ 0 → 0 < clear_count b n
unfolding clear_count
clear_count_pos b i zero h clear = absurd (omega arith)
clear_count_pos b i (suc n) h clear = elim (ℕ_discrete i n) [
  | yes e ↦ let z : test_bit b n ≡ 0 = rw (sym e) clear in omega (arith, z)
  | no ne ↦ omega (arith, clear_count_pos b i n (omega (arith, ne)) clear)
]

pub clear_count_witness :
    (b : List ℕ) (n : ℕ) → 0 < clear_count b n → (i : ℕ) × (i < n) × (test_bit b i ≡ 0)
unfolding clear_count
clear_count_witness b zero h = absurd (omega arith)
clear_count_witness b (suc n) h = elim (ℕ_discrete (test_bit b n) 0) [
  | yes z ↦ (n, omega arith, z)
  | no ne ↦
      let (i, p, z) = clear_count_witness b n (omega (arith, test_bit-lt b n, ne)) in
      (i, omega arith, z)
]
