-- ===== src/Capacity/Growth.antt =====
-- What the growth of a buffer comes to: CommUtil.hpp and AbstractCharBuf::calculateNewCapacity.
use native.Mathlib.Nat.{two-pow-succ, pow-le-pow_right}
use cpp_nio_socket.Common.{
  ℕ, zero, suc, ◌+◌, ◌-◌, ◌*◌, ◌%◌, ◌^◌, ◌≤◌, ◌<◌, min, max, ◌≡◌, ◌≢◌, refl, ap, ◌∙◌, ◌⊎◌, inl, inr,
  none, some, ltb, Option, Bool-cases, Option-cases, err, endless, lt→ltb, le→ltb, arith, dec_lt,
  ℕ_discrete, ok,
}
use cpp_nio_socket.Bits.{smear, smear_lem, log2_exists}
use cpp_nio_socket.Capacity.{round_up_power2, or_endless, grow, rounds, calculate_new_capacity}

pow_bound : (k : ℕ) → k ≤ 31 → 2 ^ k ≤ 2 ^ 31
pow_bound k h = pow-le-pow_right (omega arith) h

round_up_smear :
    (n k : ℕ) → k ≤ 31 → 1 < n → n ≤ 2 ^ 31 → smear (n - 1) + 1 ≡ 2 ^ k → round_up_power2 n ≡ 2 ^ k
unfolding round_up_power2
round_up_smear n k few more small s =
    let e : (n + (2 ^ 64 - 1)) % 2 ^ 64 ≡ n - 1 = omega arith in
    rw e (ground (arith, pow_bound k few))

round_up_zero : round_up_power2 0 % 2 ^ 32 ≡ 2 ^ 31
unfolding round_up_power2 smear
round_up_zero = refl

round_up_one : round_up_power2 1 ≡ 1
unfolding round_up_power2 smear
round_up_one = refl

-- From 1 up to 2 ^ 31 roundUpPower2 is the least power of two that is not below its argument.
pub round_up_power2_lem :
    (n : ℕ)
    → 0 < n
    → n ≤ 2 ^ 31
    → (k : ℕ) × (k ≤ 31) × (round_up_power2 n ≡ 2 ^ k) × (n ≤ 2 ^ k) × (2 ^ k < 2 * n)
round_up_power2_lem n positive small = elim (ℕ_discrete n 1) [
  | yes one ↦ (0, omega arith, rw one round_up_one, omega arith, omega arith)
  | no more ↦
      let (k, lt, lo, hi) = log2_exists 31 (n - 1) (omega arith) (omega arith) in
      (
        suc k,
        lt,
        round_up_smear n (suc k) lt (omega arith) small (smear_lem k (n - 1) (omega arith) lo hi),
        omega arith,
        omega (arith, two-pow-succ k),
      )
]

double_pow : (k : ℕ) → k ≤ 30 → 2 ^ k * 2 % 2 ^ 32 ≡ 2 ^ suc k
double_pow k few = omega (arith, two-pow-succ k, pow_bound (suc k) (omega arith))

grow-suc : (fuel m k : ℕ) → k ≤ 30 → 2 ^ k < m → grow (suc fuel) m (2 ^ k) ≡ grow fuel m (2 ^ suc k)
unfolding grow
grow-suc fuel m k few below = rw (double_pow k few, lt→ltb _ _ below) (ground arith)

grow_stop : (fuel m k : ℕ) → k ≤ 30 → m ≤ 2 ^ k → grow (suc fuel) m (2 ^ k) ≡ some (2 ^ k)
unfolding grow
grow_stop fuel m k few reached = ground (arith, pow-le-pow_right {n = 2} (omega arith) few)

-- The loop finds a power of two in the range of an `int` if there is one.
grow_lem :
    (fuel m k : ℕ)
    → k ≤ 30
    → m ≤ 2 ^ 30
    → 30 < fuel + k
    → (j : ℕ) × (j ≤ 30)
      × (grow fuel m (2 ^ k) ≡ some (2 ^ j))
      × (m ≤ 2 ^ j)
      × ((j ≡ k) ⊎ (2 ^ j < 2 * m))
grow_lem zero m k few small enough = absurd (omega arith)
grow_lem (suc fuel) m k few small enough = elim (dec_lt (2 ^ k) m) [
  | yes below ↦
      let k30 : k ≢ 30 = λ e. absurd (omega (arith, ap (λ (n : ℕ). 2 ^ n) e)) in
      let (j, le, e, ge, tight) =
        grow_lem fuel m (suc k) (omega (arith, k30)) small (omega arith) in
      (j, le, grow-suc fuel m k few below ∙ e, ge, inr (doubled j tight (omega arith)))
  | no reached ↦ (k, few, grow_stop fuel m k few (omega arith), omega arith, inl refl)
]
  where
    doubled : (j : ℕ) → (j ≡ suc k) ⊎ (2 ^ j < 2 * m) → 2 ^ k < m → 2 ^ j < 2 * m
    doubled j (inl e) below = rw e (omega (arith, two-pow-succ k))
    doubled j (inr lt) below = lt

calculated :
    (c m x j k : ℕ)
    → round_up_power2 c ≡ 2 ^ k
    → k ≤ 31
    → grow rounds m (2 ^ k) ≡ some (2 ^ j)
    → m ≤ x
    → calculate_new_capacity c m x ≡ ok (min (2 ^ j) x)
unfolding calculate_new_capacity
calculated c m x j k e le e' fits =
    let word : 2 ^ k % 2 ^ 32 ≡ 2 ^ k = omega (arith, pow_bound k le) in
    rw (le→ltb x m fits, e, word, e') refl

-- For a capacity from 1 to 2 ^ 30 and a requested capacity of at most 2 ^ 30 and at most the
-- maximum, the growth loop of calculateNewCapacity ends, and the result is a power of two of at most
-- 2 ^ 30 cut to the maximum, which is at least what is requested and, before the cut, less than
-- twice the larger of the capacity and the request.
pub calculate_new_capacity_lem :
    (capacity min_new_capacity max_capacity : ℕ)
    → 0 < capacity
    → capacity ≤ 2 ^ 30
    → min_new_capacity ≤ 2 ^ 30
    → min_new_capacity ≤ max_capacity
    → (j : ℕ) × (calculate_new_capacity capacity min_new_capacity max_capacity
        ≡ ok (min (2 ^ j) max_capacity))
      × (min_new_capacity ≤ min (2 ^ j) max_capacity)
      × (2 ^ j < 2 * max capacity min_new_capacity)
      × (j ≤ 30)
calculate_new_capacity_lem c m x positive small few fits =
    let (k, le, e, ge, lt) = round_up_power2_lem c positive (omega arith) in
    let k30 : k ≢ 31 = λ q. absurd (omega (arith, ap (λ (n : ℕ). 2 ^ n) q)) in
    let (j, le', e', ge', tight) = grow_lem rounds m k (omega (arith, k30)) few (omega arith) in
    (j, calculated c m x j k e le e' fits, omega arith, bound j k tight lt, le')
  where
    bound : (j k : ℕ) → (j ≡ k) ⊎ (2 ^ j < 2 * m) → 2 ^ k < 2 * c → 2 ^ j < 2 * max c m
    bound j k (inl e) lt = rw e (omega arith)
    bound j k (inr lt') lt = omega arith

grow_zero : (fuel m : ℕ) → 0 < m → grow fuel m 0 ≡ none
unfolding grow
grow_zero zero m h = refl
grow_zero (suc fuel) m h = ground (arith, grow_zero fuel m h)

grow_negative : (fuel m : ℕ) → 0 < m → grow fuel m (2 ^ 31) ≡ none
unfolding grow
grow_negative zero m h = refl
grow_negative (suc fuel) m h = grow_zero fuel m h

grow_past : (fuel m k : ℕ) → k ≤ 31 → 2 ^ 30 < m → grow fuel m (2 ^ k) ≡ none
grow_past zero m k few big = unfold grow in refl
grow_past (suc fuel) m k few big = elim (ℕ_discrete k 31) [
  | yes e ↦ rw e (grow_negative (suc fuel) m (omega arith))
  | no ne ↦
      grow-suc fuel m k (omega arith)
        (omega (arith, pow-le-pow_right {n = 2} (omega arith) {i = k} {j = 30} (omega arith)))
      ∙ grow_past fuel m (suc k) (omega arith) big
]

-- Where at least one byte is requested, the growth loop never ends for a capacity of 0, nor for a
-- capacity of at most 2 ^ 31 where more than 2 ^ 30 bytes are requested: with any number of rounds
-- its test has not failed.
pub grow_endless :
    (capacity min_new_capacity : ℕ)
    → 0 < min_new_capacity
    → (capacity ≡ 0) ⊎ ((capacity ≤ 2 ^ 31) × (2 ^ 30 < min_new_capacity))
    → (fuel : ℕ) → grow fuel min_new_capacity (round_up_power2 capacity % 2 ^ 32) ≡ none
grow_endless c m pos (inl empty) fuel = rw (empty, round_up_zero) (grow_negative fuel m pos)
grow_endless c m pos (inr (small, big)) fuel = elim (ℕ_discrete c 0) [
  | yes empty ↦ rw (empty, round_up_zero) (grow_negative fuel m pos)
  | no some_room ↦
      let (k, le, e, _, _) = round_up_power2_lem c (omega arith) small in
      let word : 2 ^ k % 2 ^ 32 ≡ 2 ^ k = omega (arith, pow_bound k le) in
      rw (e, word) (grow_past fuel m k le big)
]

grow-ge : (fuel m n d : ℕ) → grow fuel m n ≡ some d → m ≤ d
unfolding grow
grow-ge zero m n d e = cc
grow-ge (suc fuel) m n d e = ground (arith, grow-ge fuel m (n * 2 % 2 ^ 32) d)

or_endless-bounds :
    (m x c : ℕ) (o : Option ℕ)
    → ((d : ℕ) → o ≡ some d → m ≤ d)
    → m ≤ x
    → or_endless o x ≡ ok c
    → (m ≤ c) × (c ≤ x)
or_endless-bounds m x c none ge fits e = cc
or_endless-bounds m x c (some d) ge fits e = ground (arith, ge d refl)

-- A capacity that is found is at least what is asked for and at most the maximum.
pub calculate_new_capacity_bounds :
    (capacity m x c : ℕ) → calculate_new_capacity capacity m x ≡ ok c → (m ≤ c) × (c ≤ x)
unfolding calculate_new_capacity
calculate_new_capacity_bounds k m x c e = elim (Bool-cases (ltb x m)) [
  | inl over ↦ absurd (ground (arith, rw over at e))
  | inr fits ↦
      or_endless-bounds m x c (grow rounds m (round_up_power2 k % 2 ^ 32))
        (λ d. grow-ge rounds m _ d) (ground arith) (rw fits at e)
]

-- Below the maximum the calculation returns or never ends.
pub calculate_new_capacity-cases :
    (capacity m x : ℕ)
    → m ≤ x
    → (calculate_new_capacity capacity m x ≡ err endless)
      ⊎ ((c : ℕ) × (calculate_new_capacity capacity m x ≡ ok c))
unfolding calculate_new_capacity
calculate_new_capacity-cases k m x fits =
    elim (Option-cases (grow rounds m (round_up_power2 k % 2 ^ 32))) [
      | inl hangs ↦ inl (rw (le→ltb x m fits, hangs) refl)
      | inr (c, ends) ↦ inr (min c x, rw (le→ltb x m fits, ends) refl)
    ]
