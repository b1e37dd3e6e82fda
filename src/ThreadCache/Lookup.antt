-- ===== src/ThreadCache/Lookup.antt =====
-- Which region of PoolThreadCache.cpp serves a capacity.
use cpp_nio_socket.Common.{
  ℕ, zero, suc, ◌+◌, ◌-◌, ◌*◌, ◌/◌, ◌%◌, ◌^◌, ◌≤◌, ◌<◌, ◌≡◌, sym, ap, ◌∙◌, arith, dec_lt, lt→ltb,
}
use native.Mathlib.Nat.{two-pow-succ, pow-le-pow_right, add-mul-div_right, div-eq_of_lt}
use cpp_nio_socket.Arena.{SizeClass, tiny, small, normal, size_class, small_idx, tiny_idx}
use cpp_nio_socket.Arena.Classes.{
  IsNormal, multiple, power, pow_pos, below_pow, pow_add, size_class_lem, small_idx_power,
}
use cpp_nio_socket.ThreadCache.{count_halvings, log2, cache_index}

count_halvings_power : (k fuel res : ℕ) → k < fuel → count_halvings fuel (2 ^ k) res ≡ res + k
unfolding count_halvings
count_halvings_power k zero res lt = absurd (omega arith)
count_halvings_power zero (suc fuel) res lt = omega arith
count_halvings_power (suc k) (suc fuel) res lt =
    let half : 2 ^ suc k / 2 ≡ 2 ^ k = omega (arith, two-pow-succ k) in
    let more : 1 < 2 ^ suc k = omega (arith, two-pow-succ k, pow_pos k) in
    rw (lt→ltb 1 (2 ^ suc k) more, half)
      (count_halvings_power k fuel (res + 1) (omega arith) ∙ omega arith)

pub log2_power : (k : ℕ) → log2 (2 ^ k) ≡ k
unfolding log2
log2_power k = count_halvings_power k (2 ^ k) 0 (below_pow k) ∙ omega arith

scaled : (a b : ℕ) → 0 < b → a * b / b ≡ a
scaled a b pos =
    let e = add-mul-div_right 0 a pos in
    let z : 0 / b ≡ 0 = div-eq_of_lt pos in
    let q : 0 + a * b ≡ a * b = omega arith in sym (ap (λ x. x / b) q) ∙ e ∙ omega arith

pow_quotient : (p j : ℕ) → 2 ^ (j + p) / 2 ^ p ≡ 2 ^ j
pow_quotient p j = ap (λ x. x / 2 ^ p) (pow_add j p) ∙ scaled (2 ^ j) (2 ^ p) (pow_pos p)

-- Where the cache keeps a capacity that requests are rounded to.
data Place (p n : ℕ) : Type 0 where
  in_tiny : size_class p n ≡ tiny → cache_index tiny p n ≡ n / 16 → n % 16 ≡ 0 → Place p n
  in_small :
      (k : ℕ)
      → size_class p n ≡ small
      → cache_index small p n ≡ k - 9
      → 9 ≤ k
      → n ≡ 2 ^ k
      → Place p n
  in_normal :
      (k : ℕ)
      → size_class p n ≡ normal
      → cache_index normal p n ≡ k - p
      → p ≤ k
      → n ≡ 2 ^ k
      → Place p n

where_kept : (p n : ℕ) → 9 ≤ p → IsNormal n → Place p n
unfolding cache_index tiny_idx
where_kept p n le (multiple e lt) = in_tiny ((size_class_lem p n le).0 lt) (omega arith) e
where_kept p n le (power k big e) = elim (dec_lt k p) [
  | yes below ↦
      in_small k
        ((size_class_lem p n le).1 (omega (arith, e, pow-le-pow_right {n = 2} (omega arith) big)) (
          omega (
            arith,
            e,
            two-pow-succ k,
            pow-le-pow_right {n = 2} (omega arith) {i = suc k} {j = p} (omega arith),
            pow_pos k,
          )))
        (ap small_idx e ∙ small_idx_power k big) big e
  | no past ↦
      let at_least : p ≤ k = omega arith in
      let split : k ≡ (k - p) + p = omega arith in
      let same : n / 2 ^ p ≡ 2 ^ (k - p) =
        ap (λ x. x / 2 ^ p) e ∙ ap (λ x. 2 ^ x / 2 ^ p) split ∙ pow_quotient p (k - p) in
      in_normal k
        ((size_class_lem p n le).2
          (omega (arith, e, pow-le-pow_right {n = 2} (omega arith) at_least)))
        (ap log2 same ∙ log2_power (k - p)) at_least e
]

-- Two capacities that requests are rounded to, of one class and with one index, are equal, so that a
-- region keeps entries of one capacity only.
pub cache_index-injective :
    (page_shifts n n' : ℕ) (k : SizeClass) (i : ℕ)
    → 9 ≤ page_shifts
    → IsNormal n
    → IsNormal n'
    → size_class page_shifts n ≡ k
    → size_class page_shifts n' ≡ k
    → cache_index k page_shifts n ≡ i
    → cache_index k page_shifts n' ≡ i
    → n ≡ n'
cache_index-injective p n n' k i le is is' c c' x x' =
    of_places k c c' x x' (where_kept p n le is) (where_kept p n' le is')
  where
    at :
        (n : ℕ) (k k' : SizeClass) (i j : ℕ)
        → k' ≡ k
        → cache_index k p n ≡ i
        → cache_index k' p n ≡ j
        → j ≡ i
    at n k k' i j e x y = sym y ∙ ap (λ k. cache_index k p n) e ∙ x

    of_places :
        (k : SizeClass)
        → size_class p n ≡ k
        → size_class p n' ≡ k
        → cache_index k p n ≡ i
        → cache_index k p n' ≡ i
        → Place p n
        → Place p n'
        → n ≡ n'
    of_places k c c' x x' (in_tiny a b d) (in_tiny a' b' d') =
        let q = at n k tiny i _ (sym a ∙ c) x b in
        let q' = at n' k tiny i _ (sym a' ∙ c') x' b' in omega arith
    of_places k c c' x x' (in_small j a b d e) (in_small j' a' b' d' e') =
        let q = at n k small i _ (sym a ∙ c) x b in
        let q' = at n' k small i _ (sym a' ∙ c') x' b' in
        let same : j ≡ j' = omega arith in e ∙ ap (λ j. 2 ^ j) same ∙ sym e'
    of_places k c c' x x' (in_normal j a b d e) (in_normal j' a' b' d' e') =
        let q = at n k normal i _ (sym a ∙ c) x b in
        let q' = at n' k normal i _ (sym a' ∙ c') x' b' in
        let same : j ≡ j' = omega arith in e ∙ ap (λ j. 2 ^ j) same ∙ sym e'
    of_places k c c' x x' (in_tiny a b d) (in_small j' a' b' d' e') = absurd cc
    of_places k c c' x x' (in_tiny a b d) (in_normal j' a' b' d' e') = absurd cc
    of_places k c c' x x' (in_small j a b d e) (in_tiny a' b' d') = absurd cc
    of_places k c c' x x' (in_small j a b d e) (in_normal j' a' b' d' e') = absurd cc
    of_places k c c' x x' (in_normal j a b d e) (in_tiny a' b' d') = absurd cc
    of_places k c c' x x' (in_normal j a b d e) (in_small j' a' b' d' e') = absurd cc
