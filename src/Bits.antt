-- ===== src/Bits.antt =====
-- Bits of a number, and the cascade `n |= n >> 1; … n |= n >> 16` by which CommUtil.hpp and
-- PoolArena.cpp round up to a power of two.
pub mod Single
use Prim.Native.Nat.{bit_or, bit_or-bitwise, digits}
use native.Mathlib.Nat.{two-pow-succ}
use cpp_nio_socket.Common.{
  ℕ, zero, suc, ◌+◌, ◌-◌, ◌*◌, ◌/◌, ◌%◌, ◌^◌, ◌≤◌, ◌<◌, max, ◌≡◌, refl, arith, dec_lt, ◌==◌,
  if◌then◌else◌,
}

-- n |= n >> k
abbrev or_shr : ℕ → ℕ → ℕ
or_shr n k = bit_or n (n / 2 ^ k)

-- The cascade: every bit below the highest one is set.
unfoldable pub smear : ℕ → ℕ
smear n =
    let n1 = or_shr n 1 in
    let n2 = or_shr n1 2 in let n4 = or_shr n2 4 in let n8 = or_shr n4 8 in or_shr n8 16

-- The recursion on binary digits that `bit_or` stands for does not depend on its fuel.
digits_fuel : (n m a b : ℕ) → a ≤ n → a ≤ m → digits (λ y. y) max n a b ≡ digits (λ y. y) max m a b
digits_fuel zero zero a b p q = refl
digits_fuel zero (suc m) zero b p q = refl
digits_fuel (suc n) zero zero b p q = refl
digits_fuel (suc n) (suc m) zero b p q = refl
digits_fuel zero (suc m) (suc a) b p q = absurd (omega arith)
digits_fuel (suc n) zero (suc a) b p q = absurd (omega arith)
digits_fuel (suc n) (suc m) (suc a) b p q =
    omega (arith, digits_fuel n m (suc a / 2) (b / 2) (omega arith) (omega arith))

zero-bit_or : (b : ℕ) → bit_or 0 b ≡ b
zero-bit_or b = bit_or-bitwise 0 b

bit_or_digit : (a b : ℕ) → bit_or a b ≡ bit_or (a / 2) (b / 2) * 2 + max (a % 2) (b % 2)
bit_or_digit zero b = omega (arith, zero-bit_or b, zero-bit_or (b / 2))
bit_or_digit (suc a) b = omega (
  arith,
  bit_or-bitwise (suc a) b,
  bit_or-bitwise (suc a / 2) (b / 2),
  digits_fuel a (suc a / 2) (suc a / 2) (b / 2) (omega arith) (omega arith),
)

-- Bit `i` of a number.
abbrev pub bit : ℕ → ℕ → ℕ
bit zero n = n % 2
bit (suc i) n = bit i (n / 2)

pub bit-lt : (i n : ℕ) → bit i n < 2
bit-lt zero n = omega arith
bit-lt (suc i) n = bit-lt i (n / 2)

pub bit-bit_or : (i a b : ℕ) → bit i (bit_or a b) ≡ max (bit i a) (bit i b)
bit-bit_or zero a b = omega (arith, bit_or_digit a b)
bit-bit_or (suc i) a b =
    let e : bit_or a b / 2 ≡ bit_or (a / 2) (b / 2) = omega (arith, bit_or_digit a b) in
    rw e (bit-bit_or i (a / 2) (b / 2))

pub bit_or-lt : (k a b : ℕ) → a < 2 ^ k → b < 2 ^ k → bit_or a b < 2 ^ k
bit_or-lt zero a b p q =
    let e : a ≡ 0 = omega arith in let e' : b ≡ 0 = omega arith in rw (e, e') (omega arith)
bit_or-lt (suc k) a b p q = omega (
  arith,
  bit_or_digit a b,
  two-pow-succ k,
  bit_or-lt k (a / 2) (b / 2) (omega (arith, two-pow-succ k)) (omega (arith, two-pow-succ k)),
)

-- Shifting right by `s` one place at a time.
abbrev halve : ℕ → ℕ → ℕ
halve zero n = n
halve (suc s) n = halve s (n / 2)

bit-halve : (s i j n : ℕ) → j ≡ i + s → bit i (halve s n) ≡ bit j n
bit-halve zero i j n e = let e' : i ≡ j = omega arith in rw e'
bit-halve (suc s) i zero n e = absurd (omega arith)
bit-halve (suc s) i (suc j) n e = bit-halve s i j (n / 2) (omega arith)

-- The bits `k`, `k - 1`, … of a number, `s` of them, are set.
abbrev Ones : ℕ → ℕ → ℕ → Type 0
Ones k s n = (i : ℕ) → i ≤ k → k < i + s → bit i n ≡ 1

or_halve-Ones : (k s n : ℕ) → Ones k s n → Ones k (s + s) (bit_or n (halve s n))
or_halve-Ones k s n h i p q = elim (dec_lt k (i + s)) [
  | yes near ↦ omega (arith, bit-bit_or i n (halve s n), h i p near, bit-lt i (halve s n))
  | no far ↦ omega (
    arith,
    bit-bit_or i n (halve s n),
    bit-halve s i (i + s) n refl,
    h (i + s) (omega arith) (omega arith),
    bit-lt i n,
  )
]

or_shr-Ones : (k s n : ℕ) → n / 2 ^ s ≡ halve s n → Ones k s n → Ones k (s + s) (or_shr n s)
or_shr-Ones k s n e h = rw e (or_halve-Ones k s n h)

or_shr-lt : (k s n : ℕ) → n < 2 ^ k → or_shr n s < 2 ^ k
or_shr-lt k s n h = bit_or-lt k n (n / 2 ^ s) h (grind arith)

pub all_ones : (k n : ℕ) → ((i : ℕ) → i < k → bit i n ≡ 1) → n < 2 ^ k → n + 1 ≡ 2 ^ k
all_ones zero n h p = omega arith
all_ones (suc k) n h p = omega (
  arith,
  two-pow-succ k,
  h 0 (omega arith),
  all_ones k (n / 2) (λ i q. h (suc i) (omega arith)) (omega (arith, two-pow-succ k)),
)

top_bit : (k n : ℕ) → 2 ^ k ≤ n → n < 2 ^ suc k → bit k n ≡ 1
top_bit zero n p q = omega (arith, two-pow-succ 0)
top_bit (suc k) n p q =
    top_bit k (n / 2) (omega (arith, two-pow-succ k))
      (omega (arith, two-pow-succ k, two-pow-succ (suc k)))

-- The shifts and ors of roundUpPower2 turn a number of at most 32 bits into the next power of two
-- above it, less one.
pub smear_lem : (k n : ℕ) → k < 32 → 2 ^ k ≤ n → n < 2 ^ suc k → smear n + 1 ≡ 2 ^ suc k
unfolding smear
smear_lem k n few p q =
    all_ones (suc k) _ (λ i lt. ones32 i (omega arith) (omega arith))
      (or_shr-lt (suc k) 16 n8 (
        or_shr-lt (suc k) 8 n4
          (or_shr-lt (suc k) 4 n2 (or_shr-lt (suc k) 2 n1 (or_shr-lt (suc k) 1 n q)))))
  where
    n1 : ℕ
    n1 = or_shr n 1

    n2 : ℕ
    n2 = or_shr n1 2

    n4 : ℕ
    n4 = or_shr n2 4

    n8 : ℕ
    n8 = or_shr n4 8

    ones1 : Ones k 1 n
    ones1 i a b = let e : i ≡ k = omega arith in rw e (top_bit k n p q)

    ones32 : Ones k 32 (or_shr n8 16)
    ones32 = or_shr-Ones k 16 n8 (omega arith) (
        or_shr-Ones k 8 n4 (omega arith) (
          or_shr-Ones k 4 n2 (omega arith)
            (or_shr-Ones k 2 n1 (omega arith) (or_shr-Ones k 1 n (omega arith) ones1))))

-- The place of the highest bit.
pub log2_exists : (m n : ℕ) → 0 < n → n < 2 ^ m → (k : ℕ) × (k < m) × (2 ^ k ≤ n) × (n < 2 ^ suc k)
log2_exists zero n p q = absurd (omega arith)
log2_exists (suc m) n p q = elim (dec_lt n (2 ^ m)) [
  | yes small ↦ let (k, lt, lo, hi) = log2_exists m n p small in (k, omega arith, lo, hi)
  | no top ↦ (m, omega arith, omega arith, q)
]

-- `n | 1 << r` and `n ^ 1 << r`
abbrev pub set_bit : ℕ → ℕ → ℕ
set_bit r n = bit_or n (2 ^ r)

abbrev pub flip_bit : ℕ → ℕ → ℕ
flip_bit r n = if bit r n == 0 then n + 2 ^ r else n - 2 ^ r
