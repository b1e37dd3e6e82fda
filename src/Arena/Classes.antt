-- ===== src/Arena/Classes.antt =====
-- What the size classes of PoolArena.cpp promise.
use cpp_nio_socket.Common.{
  ℕ, zero, suc, ◌+◌, ◌-◌, ◌*◌, ◌/◌, ◌%◌, ◌^◌, ◌≤◌, ◌<◌, ◌≡◌, ◌≢◌, refl, sym, ap, ◌∙◌, ◌⊎◌, inl, inr,
  arith, dec_lt, ℕ_discrete, true, false, ◌==◌, ==_eq, ==_ne, lt→leb, ok,
}
use native.Mathlib.Nat.{two-pow-succ, pow-le-pow_right, div-eq_of_lt, lt-div-mul-add}
use cpp_nio_socket.Bits.{smear, smear_lem, log2_exists}
use cpp_nio_socket.Arena.{
  tiny, small, normal, num_tiny_subpage_pools, num_small_subpage_pools, clear, is_tiny,
  is_tiny_or_small, tiny_idx, small_idx, count_shifts, normalize_capacity, PoolHead, tiny_pool,
  small_pool, find_subpage_pool_head, size_class,
}

tiny_below : (n : ℕ) → n < 512 → is_tiny n ≡ true
unfolding is_tiny
tiny_below n lt = ==_eq (clear 9 n) 0 (omega arith)

not_tiny : (n : ℕ) → 512 ≤ n → is_tiny n ≡ false
unfolding is_tiny
not_tiny n le = ==_ne (clear 9 n) 0 (omega arith)

-- A capacity that requests are rounded to: a multiple of 16 below 512, or a power of two from 512 on.
pub data IsNormal (n : ℕ) : Type 0 where
  multiple : n % 16 ≡ 0 → n < 512 → IsNormal n
  power : (k : ℕ) → 9 ≤ k → n ≡ 2 ^ k → IsNormal n

-- For a request below the chunk size, and a chunk size of at most 2 ^ 30, normalizeCapacity returns
-- a capacity of at least the request that is a multiple of 16 below 512 or a power of two from 512
-- on, and that exceeds the request by less than 16 bytes or is less than twice the request.
pub normalize_capacity_lem :
    (chunk_size req_capacity : ℕ)
    → req_capacity < chunk_size
    → chunk_size ≤ 2 ^ 30
    → (n : ℕ) × (normalize_capacity chunk_size req_capacity ≡ ok n)
      × (req_capacity ≤ n)
      × IsNormal n
      × ((n < req_capacity + 16) ⊎ (n < 2 * req_capacity))
unfolding normalize_capacity
normalize_capacity_lem c r lt few = elim (dec_lt r 512) [
  | yes t ↦ elim (ℕ_discrete (r % 16) 0) [
    | yes e ↦ (
      r,
      rw (lt→leb c r lt, tiny_below r t, ==_eq (r % 16) 0 e) refl,
      omega arith,
      multiple e t,
      inl (omega arith),
    )
    | no ne ↦ (
      clear 4 r + 16,
      rw (lt→leb c r lt, tiny_below r t, ==_ne (r % 16) 0 ne) refl,
      omega arith,
      rounded r t,
      inl (omega (arith, ne)),
    )
  ]
  | no big ↦
      let (k, lt', lo, hi) = log2_exists 30 (r - 1) (omega arith) (omega arith) in
      let e = smear_lem k (r - 1) (omega arith) lo hi in
      let p31 : 2 ^ suc k ≤ 2 ^ 30 = pow-le-pow_right {n = 2} (omega arith) lt' in
      (
        2 ^ suc k,
        rw
            (
              lt→leb c r lt,
              not_tiny r (omega arith),
              lt→leb (2 ^ 31) (smear (r - 1) + 1) (omega arith),
            )
            (ap ok e),
        omega arith,
        power (suc k) (nine k (omega arith)) refl,
        inr (omega (arith, two-pow-succ k)),
      )
]
  where
    rounded : (r : ℕ) → r < 512 → IsNormal (clear 4 r + 16)
    rounded r t = elim (dec_lt (clear 4 r + 16) 512) [
      | yes q ↦ multiple (omega arith) q
      | no q ↦ power 9 (omega arith) (omega arith)
    ]

    nine : (k : ℕ) → 511 < 2 ^ suc k → 9 ≤ suc k
    nine k q = elim (dec_lt (suc k) 9) [
      | yes low ↦
          absurd (
            omega (arith, pow-le-pow_right {n = 2} (omega arith) {i = suc k} {j = 8} (omega arith)))
      | no ok_k ↦ omega arith
    ]

pub pow_pos : (k : ℕ) → 0 < 2 ^ k
pow_pos k = omega (arith, pow-le-pow_right {n = 2} (omega arith) {i = 0} {j = k} (omega arith))

pub below_pow : (k : ℕ) → k < 2 ^ k
below_pow zero = omega arith
below_pow (suc k) = omega (arith, below_pow k, two-pow-succ k)

count_shifts_power : (k fuel idx : ℕ) → k < fuel → count_shifts fuel (2 ^ k) idx ≡ idx + k + 1
unfolding count_shifts
count_shifts_power k zero idx lt = absurd (omega arith)
count_shifts_power zero (suc fuel) idx lt = after_last fuel
  where
    after_last : (f : ℕ) → count_shifts f 0 (idx + 1) ≡ idx + 0 + 1
    after_last zero = omega arith
    after_last (suc f) = omega arith
count_shifts_power (suc k) (suc fuel) idx lt =
    let half : 2 ^ suc k / 2 ≡ 2 ^ k = omega (arith, two-pow-succ k) in
    let some_bit : 2 ^ suc k ≢ 0 = λ z. absurd (omega (arith, z, pow_pos (suc k))) in
    rw (==_ne (2 ^ suc k) 0 some_bit, half)
      (count_shifts_power k fuel (idx + 1) (omega arith) ∙ omega arith)

twice : (x p y : ℕ) → y ≡ x * p → y + y ≡ x * (p + p)
twice x p y e = grind (arith, e)

pub pow_add : (j i : ℕ) → 2 ^ (j + i) ≡ 2 ^ j * 2 ^ i
pow_add j zero = let z : j + 0 ≡ j = omega arith in rw z (omega arith)
pow_add j (suc i) =
    let q : j + suc i ≡ suc (j + i) = omega arith in
    let p : 2 ^ suc i ≡ 2 ^ i + 2 ^ i = omega (arith, two-pow-succ i) in
    let p' : 2 ^ suc (j + i) ≡ 2 ^ (j + i) + 2 ^ (j + i) = omega (arith, two-pow-succ (j + i)) in
    rw (q, p, p') (twice (2 ^ j) (2 ^ i) (2 ^ (j + i)) (pow_add j i))

small_idx_first : small_idx (2 ^ 9) ≡ 0
unfolding small_idx count_shifts
small_idx_first = refl

shift_ten : (j : ℕ) → 2 ^ (j + 10) / 2 ^ 10 ≡ 2 ^ j
shift_ten j = let e : 2 ^ (j + 10) ≡ 2 ^ j * 2 ^ 10 = pow_add j 10 in omega (arith, e)

pub small_idx_power : (k : ℕ) → 9 ≤ k → small_idx (2 ^ k) ≡ k - 9
unfolding small_idx
small_idx_power k le = elim (ℕ_discrete k 9) [
  | yes e ↦ ap (λ x. small_idx (2 ^ x)) e ∙ small_idx_first ∙ omega arith
  | no ne ↦
      let j = k - 10 in
      let q : k ≡ j + 10 = omega (arith, ne) in
      let e : 2 ^ k / 2 ^ 10 ≡ 2 ^ j = ap (λ x. 2 ^ x / 2 ^ 10) q ∙ shift_ten j in
      rw e (count_shifts_power j (2 ^ j) 0 (below_pow j) ∙ omega (arith, ne))
]

-- The list that serves a capacity.
head_of_multiple : (n : ℕ) → n < 512 → find_subpage_pool_head n ≡ tiny_pool (n / 16)
unfolding find_subpage_pool_head tiny_idx
head_of_multiple n lt = rw (tiny_below n lt) refl

head_of_power : (k : ℕ) → 9 ≤ k → find_subpage_pool_head (2 ^ k) ≡ small_pool (k - 9)
unfolding find_subpage_pool_head
head_of_power k le =
    let big : 2 ^ 9 ≤ 2 ^ k = pow-le-pow_right {n = 2} (omega arith) le in
    rw (not_tiny (2 ^ k) (omega arith)) (ap small_pool (small_idx_power k le))

abbrev pub InTables : ℕ → PoolHead → Type 0
InTables page_shifts (tiny_pool i) = i < num_tiny_subpage_pools
InTables page_shifts (small_pool i) = i < num_small_subpage_pools page_shifts

-- For a capacity below the page size that is a multiple of 16 below 512 or a power of two from 512
-- on, findSubpagePoolHead takes an index that lies inside the table it takes it from.
pub find_subpage_pool_head-InTables :
    (page_shifts n : ℕ)
    → IsNormal n
    → n < 2 ^ page_shifts
    → InTables page_shifts (find_subpage_pool_head n)
find_subpage_pool_head-InTables p n (multiple e t) lt = rw (head_of_multiple n t) (omega arith)
find_subpage_pool_head-InTables p n (power k le e) lt =
    rw (e, head_of_power k le)
      (elim (dec_lt k p) [
        | yes fits ↦ omega arith
        | no past ↦
            absurd (
              omega
                (arith, e, pow-le-pow_right {n = 2} (omega arith) {i = p} {j = k} (omega arith)))
      ])

tiny_pool_injective : (i j : ℕ) → tiny_pool i ≡ tiny_pool j → i ≡ j
tiny_pool_injective i j e = cc

small_pool_injective : (i j : ℕ) → small_pool i ≡ small_pool j → i ≡ j
small_pool_injective i j e = cc

-- Two capacities, each a multiple of 16 below 512 or a power of two from 512 on, that
-- findSubpagePoolHead serves from one list are equal, so that a list holds subpages of one element
-- size only.
pub find_subpage_pool_head-injective :
    (n n' : ℕ)
    → IsNormal n
    → IsNormal n'
    → find_subpage_pool_head n ≡ find_subpage_pool_head n'
    → n ≡ n'
find_subpage_pool_head-injective n n' (multiple e t) (multiple e' t') q =
    let i = tiny_pool_injective _ _ (sym (head_of_multiple n t) ∙ q ∙ head_of_multiple n' t') in
    omega arith
find_subpage_pool_head-injective n n' (multiple e t) (power k le e') q =
    let c = sym (head_of_multiple n t) ∙ q ∙ ap find_subpage_pool_head e' ∙ head_of_power k le in
    absurd cc
find_subpage_pool_head-injective n n' (power k le e) (multiple e' t') q =
    let c =
      sym (head_of_multiple n' t') ∙ sym q ∙ ap find_subpage_pool_head e ∙ head_of_power k le in
    absurd cc
find_subpage_pool_head-injective n n' (power k le e) (power k' le' e') q =
    let i = small_pool_injective _ _ (
      sym (head_of_power k le)
      ∙ ap find_subpage_pool_head (sym e)
      ∙ q
      ∙ ap find_subpage_pool_head e'
      ∙ head_of_power k' le') in
    let same : k ≡ k' = omega arith in e ∙ ap (λ x. 2 ^ x) same ∙ sym e'

clears : (p n : ℕ) → n < 2 ^ p → (clear p n == 0) ≡ true
clears p n lt =
    let z : n / 2 ^ p ≡ 0 = div-eq_of_lt lt in
    let e : clear p n ≡ 0 = rw z (omega arith) in ==_eq (clear p n) 0 e

remains : (p n : ℕ) → 2 ^ p ≤ n → (clear p n == 0) ≡ false
remains p n le =
    ==_ne (clear p n) 0
      λ e. absurd (omega (arith, e, lt-div-mul-add {a = n} {b = 2 ^ p} (pow_pos p)))

-- With pages of at least 512 bytes, a capacity is tiny below 512, small from 512 to below the page
-- size, and normal from the page size on.
pub size_class_lem :
    (page_shifts n : ℕ)
    → 9 ≤ page_shifts
    → (n < 512 → size_class page_shifts n ≡ tiny)
      × (512 ≤ n → n < 2 ^ page_shifts → size_class page_shifts n ≡ small)
      × (2 ^ page_shifts ≤ n → size_class page_shifts n ≡ normal)
unfolding size_class is_tiny_or_small
size_class_lem p n le =
    let big : 2 ^ 9 ≤ 2 ^ p = pow-le-pow_right {n = 2} (omega arith) le in
    (
      λ lt. rw (clears p n (omega arith), tiny_below n lt) refl,
      λ ge lt. rw (clears p n lt, not_tiny n ge) refl,
      λ ge. rw (remains p n ge) refl,
    )
