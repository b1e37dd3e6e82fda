-- ===== src/Chunk/Tree.antt =====
-- The tree of runs that the map of PoolChunk.cpp stands for.
use cpp_nio_socket.Common.{
  ℕ, zero, suc, ◌+◌, ◌*◌, ◌-◌, ◌/◌, min, ◌≤◌, ◌<◌, ◌≡◌, refl, ap, ◌∙◌, arith, Bool, true, false,
  List, ℕ_discrete, dec_lt,
}
use cpp_nio_socket.Chunk.{value}

-- A run is free as a whole, taken as a whole, or in halves.
pub data Buddy : Type 0 where
  free taken : Buddy
  split : Buddy → Buddy → Buddy

abbrev pub is_free : Buddy → Bool
is_free free = true
is_free taken = false
is_free (split l r) = false

-- The least depth of a free run below a node at depth `k`.
abbrev pub best : ℕ → ℕ → Buddy → ℕ
best unusable k free = k
best unusable k taken = unusable
best unusable k (split l r) = min (best unusable (suc k) l) (best unusable (suc k) r)

-- Two free halves are one free run.
abbrev pub Canonical : Buddy → Buddy → Type 0
Canonical free free = ⊥
Canonical _ _ = Unit {0}

-- Node `id` at depth `k`, with `h` levels below it, stands for the tree.
abbrev pub Represents : ℕ → List ℕ → ℕ → ℕ → ℕ → Buddy → Type 0
Represents u m zero k id free = value m id ≡ k
Represents u m zero k id taken = value m id ≡ u
Represents u m zero k id (split l r) = ⊥
Represents u m (suc h) k id free =
    (value m id ≡ k)
    × Represents u m h (suc k) (id * 2) free
    × Represents u m h (suc k) (id * 2 + 1) free
Represents u m (suc h) k id taken =
    (value m id ≡ u)
    × Represents u m h (suc k) (id * 2) free
    × Represents u m h (suc k) (id * 2 + 1) free
Represents u m (suc h) k id (split l r) =
    (value m id ≡ best u k (split l r))
    × Represents u m h (suc k) (id * 2) l
    × Represents u m h (suc k) (id * 2 + 1) r
    × Canonical l r

pub Represents-best :
    (u : ℕ) (m : List ℕ) (h k id : ℕ) (t : Buddy)
    → Represents u m h k id t
    → value m id ≡ best u k t
Represents-best u m zero k id free r = r
Represents-best u m zero k id taken r = r
Represents-best u m zero k id (split l r) q = absurd q
Represents-best u m (suc h) k id free r = r.0
Represents-best u m (suc h) k id taken r = r.0
Represents-best u m (suc h) k id (split l r) q = q.0

-- The node `i` levels above.
abbrev pub anc : ℕ → ℕ → ℕ
anc zero j = j
anc (suc i) j = anc i (j / 2)

pub anc-suc : (i j : ℕ) → anc (suc i) j ≡ anc i j / 2
anc-suc zero j = refl
anc-suc (suc i) j = anc-suc i (j / 2)

-- `j` is `id` or a node below it.
abbrev pub Under : ℕ → ℕ → Type 0
Under id j = (i : ℕ) × (anc i j ≡ id)

pub Under-left : {id j : ℕ} → Under (id * 2) j → Under id j
Under-left (i, e) = (suc i, omega (arith, anc-suc i _, e))

pub Under-right : {id j : ℕ} → Under (id * 2 + 1) j → Under id j
Under-right (i, e) = (suc i, omega (arith, anc-suc i _, e))

anc-le : (n i j : ℕ) → anc (suc n + i) j ≤ anc i j / 2
anc-le zero i j =
    let one : suc zero + i ≡ suc i = omega arith in
    let e : anc (suc zero + i) j ≡ anc (suc i) j = ap (λ x. anc x j) one in
    omega (arith, e, anc-suc i j)
anc-le (suc n) i j =
    let one : suc (suc n) + i ≡ suc (suc n + i) = omega arith in
    let e : anc (suc (suc n) + i) j ≡ anc (suc (suc n + i)) j = ap (λ x. anc x j) one in
    omega (arith, e, anc-suc (suc n + i) j, anc-le n i j)

anc-lt : (a b j : ℕ) → a < b → anc b j ≤ anc a j / 2
anc-lt a b j h =
    let q : suc (b - suc a) + a ≡ b = omega arith in
    let e : anc (suc (b - suc a) + a) j ≡ anc b j = ap (λ x. anc x j) q in
    omega (arith, e, anc-le (b - suc a) a j)

-- A node is below at most one half of another.
pub Under-apart : {p j : ℕ} → 0 < p → Under (p * 2) j → Under (p * 2 + 1) j → ⊥
Under-apart {p} {j} pos (a, e) (b, f) = elim (ℕ_discrete a b) [
  | yes same ↦ let g : anc a j ≡ anc b j = ap (λ x. anc x j) same in omega arith
  | no ne ↦ elim (dec_lt a b) [
    | yes lt ↦ omega (arith, anc-lt a b j lt)
    | no gt ↦ omega (arith, anc-lt b a j (omega (arith, ne)))
  ]
]

-- A node is not below its halves.
pub Under-above : {p c : ℕ} → p < c → Under c p → ⊥
Under-above {p} {c} lt (zero, e) = omega arith
Under-above {p} {c} lt (suc i, e) = omega (arith, anc-lt zero (suc i) p (omega arith))

-- What a tree stands on is the values at its nodes.
pub Represents-frame :
    (u : ℕ) (m m' : List ℕ) (h k id : ℕ) (t : Buddy)
    → ((j : ℕ) → Under id j → value m' j ≡ value m j)
    → Represents u m h k id t
    → Represents u m' h k id t
Represents-frame u m m' zero k id free same r = same id (zero, refl) ∙ r
Represents-frame u m m' zero k id taken same r = same id (zero, refl) ∙ r
Represents-frame u m m' zero k id (split l r) same q = absurd q
Represents-frame u m m' (suc h) k id free same (v, r1, r2) = (
  same id (zero, refl) ∙ v,
  Represents-frame u m m' h (suc k) (id * 2) free (λ j w. same j (Under-left w)) r1,
  Represents-frame u m m' h (suc k) (id * 2 + 1) free (λ j w. same j (Under-right w)) r2,
)
Represents-frame u m m' (suc h) k id taken same (v, r1, r2) = (
  same id (zero, refl) ∙ v,
  Represents-frame u m m' h (suc k) (id * 2) free (λ j w. same j (Under-left w)) r1,
  Represents-frame u m m' h (suc k) (id * 2 + 1) free (λ j w. same j (Under-right w)) r2,
)
Represents-frame u m m' (suc h) k id (split l r) same (v, r1, r2, c) = (
  same id (zero, refl) ∙ v,
  Represents-frame u m m' h (suc k) (id * 2) l (λ j w. same j (Under-left w)) r1,
  Represents-frame u m m' h (suc k) (id * 2 + 1) r (λ j w. same j (Under-right w)) r2,
  c,
)
