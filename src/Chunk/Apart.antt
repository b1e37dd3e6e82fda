-- ===== src/Chunk/Apart.antt =====
-- The runs that PoolChunk.cpp hands out do not overlap.
use cpp_nio_socket.Common.{
  ℕ, zero, suc, ◌+◌, ◌*◌, ◌-◌, ◌^◌, ◌≤◌, ◌≡◌, ◌≢◌, refl, sym, ◌∙◌, subst, ◌⊎◌, inl, inr, arith,
  ℕ_discrete, ==_eq, ==_ne,
}
use native.Mathlib.Nat.{two-pow-succ}
use cpp_nio_socket.Chunk.Tree.{Buddy, free, taken, split, anc, anc-suc}
use cpp_nio_socket.Chunk.Replace.{IsTaken}
use cpp_nio_socket.Chunk.Fit.{AtDepth, AtDepth-left, AtDepth-right}

double : (x p : ℕ) → x * 2 * p ≡ x * (p + p)
double x p = grind arith

-- Where the run of node `j` at depth `k` begins, if runs of the depth have `2 ^ s` bytes.
abbrev pub start : ℕ → ℕ → ℕ → ℕ
start s k j = (j - 2 ^ k) * 2 ^ s

start_left : (s k id : ℕ) → 2 ^ k ≤ id → start s (suc k) (id * 2) ≡ start (suc s) k id
start_left s k id lo =
    let q : id * 2 - 2 ^ suc k ≡ (id - 2 ^ k) * 2 = omega (arith, two-pow-succ k) in
    let p : 2 ^ suc s ≡ 2 ^ s + 2 ^ s = omega (arith, two-pow-succ s) in
    rw (q, p) (double (id - 2 ^ k) (2 ^ s))

start_right : (s k id : ℕ) → 2 ^ k ≤ id → start s (suc k) (id * 2 + 1) ≡ start (suc s) k id + 2 ^ s
start_right s k id lo =
    let q : id * 2 + 1 - 2 ^ suc k ≡ (id - 2 ^ k) * 2 + 1 = omega (arith, two-pow-succ k) in
    let p : 2 ^ suc s ≡ 2 ^ s + 2 ^ s = omega (arith, two-pow-succ s) in
    rw (q, p) (one_more (id - 2 ^ k) (2 ^ s) (double (id - 2 ^ k) (2 ^ s)))
  where
    one_more : (x n : ℕ) → x * 2 * n ≡ x * (n + n) → (x * 2 + 1) * n ≡ x * (n + n) + n
    one_more x n e = grind (arith, e)

-- A run lies in the runs above it.
contained :
    (e s k id j : ℕ)
    → anc e j ≡ id
    → AtDepth k id
    → (start (s + e) k id ≤ start s (k + e) j)
      × (start s (k + e) j + 2 ^ s ≤ start (s + e) k id + 2 ^ (s + e))
contained zero s k id j a at =
    let z : s + 0 ≡ s = omega arith in
    let z' : k + 0 ≡ k = omega arith in rw (z, z', a) (omega arith, omega arith)
contained (suc e) s k id j a at =
    let q : s + suc e ≡ suc (s + e) = omega arith in
    let q' : k + suc e ≡ suc k + e = omega arith in
    elim (ℕ_discrete (anc e j) (id * 2)) [
      | yes l ↦
          let (x, y) = contained e s (suc k) (id * 2) j l (AtDepth-left k id at) in
          rw (q, q')
            (
              omega (arith, x, start_left (s + e) k id at.0),
              omega (arith, y, start_left (s + e) k id at.0, two-pow-succ (s + e)),
            )
      | no ne ↦
          let r : anc e j ≡ id * 2 + 1 = omega (arith, anc-suc e j, a, ne) in
          let (x, y) = contained e s (suc k) (id * 2 + 1) j r (AtDepth-right k id at) in
          rw (q, q')
            (
              omega (arith, x, start_right (s + e) k id at.0),
              omega (arith, y, start_right (s + e) k id at.0, two-pow-succ (s + e)),
            )
    ]

contained_in :
    (e s total k id j : ℕ)
    → s + e ≡ total
    → anc e j ≡ id
    → AtDepth k id
    → (start total k id ≤ start s (k + e) j)
      × (start s (k + e) j + 2 ^ s ≤ start total k id + 2 ^ total)
contained_in e s total k id j q a at =
    subst
      (λ x. (start x k id ≤ start s (k + e) j) × (start s (k + e) j + 2 ^ s ≤ start x k id + 2 ^ x))
      q (contained e s k id j a at)

-- The two runs have no byte in common.
abbrev pub Disjoint : ℕ → ℕ → ℕ → ℕ → ℕ → ℕ → Type 0
Disjoint si ki i sj kj j =
    (start si ki i + 2 ^ si ≤ start sj kj j) ⊎ (start sj kj j + 2 ^ sj ≤ start si ki i)

halves_disjoint :
    (e d si sj total k id i j : ℕ)
    → si + e ≡ total
    → sj + d ≡ total
    → AtDepth k id
    → anc e i ≡ id * 2
    → anc d j ≡ id * 2 + 1
    → start si (suc k + e) i + 2 ^ si ≤ start sj (suc k + d) j
halves_disjoint e d si sj total k id i j qi qj at li rj =
    let (_, x) = contained_in e si total (suc k) (id * 2) i qi li (AtDepth-left k id at) in
    let (y, _) = contained_in d sj total (suc k) (id * 2 + 1) j qj rj (AtDepth-right k id at) in
    omega (arith, x, y, start_left total k id at.0, start_right total k id at.0)

pub split_left :
    (e id j : ℕ) (l r : Buddy)
    → anc e j ≡ id * 2
    → IsTaken (suc e) id j (split l r)
    → IsTaken e (id * 2) j l
split_left e id j l r q h = rw (==_eq (anc e j) (id * 2) q) at h

pub split_right :
    (e id j : ℕ) (l r : Buddy)
    → anc e j ≢ id * 2
    → IsTaken (suc e) id j (split l r)
    → IsTaken e (id * 2 + 1) j r
split_right e id j l r ne h = rw (==_ne (anc e j) (id * 2) ne) at h

pub other_half : (e id j : ℕ) → anc (suc e) j ≡ id → anc e j ≢ id * 2 → anc e j ≡ id * 2 + 1
other_half e id j a ne = omega (arith, anc-suc e j, a, ne)

pub taken-Disjoint :
    (t : Buddy) (e d si sj k id i j : ℕ)
    → si + e ≡ sj + d
    → anc e i ≡ id
    → anc d j ≡ id
    → AtDepth k id
    → IsTaken e id i t
    → IsTaken d id j t
    → i ≢ j
    → Disjoint si (k + e) i sj (k + d) j
taken-Disjoint free zero d si sj k id i j q ai aj at hi hj ne = absurd hi
taken-Disjoint free (suc e) d si sj k id i j q ai aj at hi hj ne = absurd hi
taken-Disjoint taken zero zero si sj k id i j q ai aj at hi hj ne = absurd (ne (ai ∙ sym aj))
taken-Disjoint taken zero (suc d) si sj k id i j q ai aj at hi hj ne = absurd hj
taken-Disjoint taken (suc e) d si sj k id i j q ai aj at hi hj ne = absurd hi
taken-Disjoint (split l r) zero d si sj k id i j q ai aj at hi hj ne = absurd hi
taken-Disjoint (split l r) (suc e) zero si sj k id i j q ai aj at hi hj ne = absurd hj
taken-Disjoint (split l r) (suc e) (suc d) si sj k id i j q ai aj at hi hj ne =
    let p : k + suc e ≡ suc k + e = omega arith in
    let p' : k + suc d ≡ suc k + d = omega arith in
    let q' : si + e ≡ sj + d = omega arith in
    rw (p, p')
      (elim (ℕ_discrete (anc e i) (id * 2)) [
        | yes li ↦ elim (ℕ_discrete (anc d j) (id * 2)) [
          | yes lj ↦
              taken-Disjoint l e d si sj (suc k) (id * 2) i j q' li lj (AtDepth-left k id at)
                (split_left e id i l r li hi) (split_left d id j l r lj hj) ne
          | no rj ↦
              inl (
                halves_disjoint e d si sj (sj + d) k id i j q' refl at li (other_half d id j aj rj))
        ]
        | no ri ↦ elim (ℕ_discrete (anc d j) (id * 2)) [
          | yes lj ↦
              inr (
                halves_disjoint d e sj si (sj + d) k id j i refl q' at lj (other_half e id i ai ri))
          | no rj ↦
              taken-Disjoint r e d si sj (suc k) (id * 2 + 1) i j q' (other_half e id i ai ri)
                (other_half d id j aj rj) (AtDepth-right k id at) (split_right e id i l r ri hi)
                (split_right d id j l r rj hj) ne
        ]
      ])
