-- ===== src/Bits/Single.antt =====
-- A single bit of a number, set by `|` and flipped by `^`.
use native.Mathlib.Nat.{two-pow-succ, pow-le-pow_right}
use cpp_nio_socket.Common.{ℕ, zero, suc, ◌-◌, ◌/◌, ◌^◌, ◌≤◌, ◌<◌, ◌≡◌, ◌≢◌, refl, ap, arith, ==_ne}
use cpp_nio_socket.Bits.{bit, set_bit, flip_bit, bit-lt, bit-bit_or, bit_or-lt}

pub bit-zero : (i : ℕ) → bit i 0 ≡ 0
bit-zero zero = refl
bit-zero (suc i) = bit-zero i

bit-pow_self : (r : ℕ) → bit r (2 ^ r) ≡ 1
bit-pow_self zero = refl
bit-pow_self (suc r) =
    let e : 2 ^ suc r / 2 ≡ 2 ^ r = omega (arith, two-pow-succ r) in rw e (bit-pow_self r)

bit-pow_ne : (i r : ℕ) → i ≢ r → bit i (2 ^ r) ≡ 0
bit-pow_ne zero zero h = absurd (h refl)
bit-pow_ne zero (suc r) h = omega (arith, two-pow-succ r)
bit-pow_ne (suc i) zero h = bit-zero i
bit-pow_ne (suc i) (suc r) h =
    let e : 2 ^ suc r / 2 ≡ 2 ^ r = omega (arith, two-pow-succ r) in
    rw e (bit-pow_ne i r (λ q. h (ap suc q)))

pub set_bit_self : (r n : ℕ) → bit r (set_bit r n) ≡ 1
set_bit_self r n = omega (arith, bit-bit_or r n (2 ^ r), bit-pow_self r, bit-lt r n)

pub set_bit_ne : (i r n : ℕ) → i ≢ r → bit i (set_bit r n) ≡ bit i n
set_bit_ne i r n h = omega (arith, bit-bit_or i n (2 ^ r), bit-pow_ne i r h)

pub set_bit-lt : (k r n : ℕ) → r < k → n < 2 ^ k → set_bit r n < 2 ^ k
set_bit-lt k r n h p =
    bit_or-lt k n (2 ^ r) p
      (omega (arith, two-pow-succ r, pow-le-pow_right {n = 2} (omega arith) {i = suc r} {j = k} h))

bit-one_le : (r n : ℕ) → bit r n ≡ 1 → 2 ^ r ≤ n
bit-one_le zero n h = omega arith
bit-one_le (suc r) n h = omega (arith, two-pow-succ r, bit-one_le r (n / 2) h)

subtract_half : (r n : ℕ) → bit (suc r) n ≡ 1 → (n - 2 ^ suc r) / 2 ≡ n / 2 - 2 ^ r
subtract_half r n h = omega (arith, two-pow-succ r, bit-one_le (suc r) n h)

subtract_self : (r n : ℕ) → bit r n ≡ 1 → bit r (n - 2 ^ r) ≡ 0
subtract_self zero n h = omega arith
subtract_self (suc r) n h = rw (subtract_half r n h) (subtract_self r (n / 2) h)

subtract_ne : (i r n : ℕ) → i ≢ r → bit r n ≡ 1 → bit i (n - 2 ^ r) ≡ bit i n
subtract_ne zero zero n d h = absurd (d refl)
subtract_ne zero (suc r) n d h = omega (arith, two-pow-succ r, bit-one_le (suc r) n h)
subtract_ne (suc i) zero n d h = ap (bit i) (omega arith)
subtract_ne (suc i) (suc r) n d h =
    rw (subtract_half r n h) (subtract_ne i r (n / 2) (λ q. d (ap suc q)) h)

flip_set : (r n : ℕ) → bit r n ≡ 1 → flip_bit r n ≡ n - 2 ^ r
flip_set r n h = rw (==_ne (bit r n) 0 (λ e. absurd (omega arith))) refl

pub flip_bit_self : (r n : ℕ) → bit r n ≡ 1 → bit r (flip_bit r n) ≡ 0
flip_bit_self r n h = rw (flip_set r n h) (subtract_self r n h)

pub flip_bit_ne : (i r n : ℕ) → i ≢ r → bit r n ≡ 1 → bit i (flip_bit r n) ≡ bit i n
flip_bit_ne i r n d h = rw (flip_set r n h) (subtract_ne i r n d h)

pub flip_bit-lt : (k r n : ℕ) → bit r n ≡ 1 → n < 2 ^ k → flip_bit r n < 2 ^ k
flip_bit-lt k r n h p = rw (flip_set r n h) (omega arith)
