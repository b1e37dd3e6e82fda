-- ===== src/Chunk/Safety.antt =====
-- A run that PoolChunk.cpp hands out overlaps none of the runs that are taken already.
use cpp_nio_socket.Common.{
  ℕ, zero, suc, ◌+◌, ◌*◌, ◌-◌, ◌^◌, ◌≤◌, ◌<◌, ◌≡◌, ◌≢◌, sym, ap, ◌∙◌, subst, ◌⊎◌, inl, inr, arith,
  Option, none, some, Option-cases, ℕ_discrete, dec_lt, ==_eq, ==_ne, ok, err, Outcome,
}
use native.Mathlib.Nat.{pow-le-pow_right}
use cpp_nio_socket.Chunk.{PoolChunk, run_offset, run_length, depth, allocate_run}
use cpp_nio_socket.Chunk.Tree.{Buddy, free, taken, split, anc, anc-suc}
use cpp_nio_socket.Chunk.Replace.{put, IsTaken, IsTaken-left, IsTaken-right}
use cpp_nio_socket.Chunk.Fit.{first_fit, AtDepth}
use cpp_nio_socket.Chunk.Allocate.{IsChunk}
use cpp_nio_socket.Chunk.Release.{anc_root}
use cpp_nio_socket.Chunk.Apart.{Disjoint, taken-Disjoint, other_half, split_left, split_right}
use cpp_nio_socket.Chunk.Runs.{Allocated, order_depth, allocate_run-cases}

fit_left :
    (d id j a : ℕ) (l r : Buddy)
    → first_fit d (id * 2) l ≡ some a
    → first_fit (suc d) id (split l r) ≡ some j
    → a ≡ j
fit_left d id j a l r e f = let g = rw e at f in cc

fit_right :
    (d id j : ℕ) (l r : Buddy)
    → first_fit d (id * 2) l ≡ none
    → first_fit (suc d) id (split l r) ≡ some j
    → first_fit d (id * 2 + 1) r ≡ some j
fit_right d id j l r e f = rw e at f

first_fit-anc : (d id j : ℕ) (t : Buddy) → first_fit d id t ≡ some j → anc d j ≡ id
first_fit-anc zero id j free e = cc
first_fit-anc zero id j taken e = cc
first_fit-anc zero id j (split l r) e = cc
first_fit-anc (suc d) id j free e = omega (arith, anc-suc d j, first_fit-anc d (id * 2) j free e)
first_fit-anc (suc d) id j taken e = cc
first_fit-anc (suc d) id j (split l r) e = elim (Option-cases (first_fit d (id * 2) l)) [
  | inl n ↦ omega (arith, anc-suc d j, first_fit-anc d (id * 2 + 1) j r (fit_right d id j l r n e))
  | inr (a, s) ↦
      let q = fit_left d id j a l r s e in
      omega (arith, anc-suc d j, first_fit-anc d (id * 2) j l (s ∙ ap some q))
]

-- What fits is not taken.
fit-taken : (d id j : ℕ) (t : Buddy) → first_fit d id t ≡ some j → IsTaken d id j t → ⊥
fit-taken zero id j free e h = h
fit-taken zero id j taken e h = cc
fit-taken zero id j (split l r) e h = h
fit-taken (suc d) id j free e h = h
fit-taken (suc d) id j taken e h = h
fit-taken (suc d) id j (split l r) e h = elim (Option-cases (first_fit d (id * 2) l)) [
  | inl n ↦
      let f = fit_right d id j l r n e in
      let right = first_fit-anc d (id * 2 + 1) j r f in
      fit-taken d (id * 2 + 1) j r f (split_right d id j l r (λ q. absurd (omega arith)) h)
  | inr (a, s) ↦
      let f = s ∙ ap some (fit_left d id j a l r s e) in
      fit-taken d (id * 2) j l f (split_left d id j l r (first_fit-anc d (id * 2) j l f) h)
]

-- Runs that are taken stay so.
stays_taken :
    (t : Buddy) (e d id i j : ℕ)
    → anc e i ≡ id
    → IsTaken e id i t
    → first_fit d id t ≡ some j
    → IsTaken e id i (put d id j taken t)
stays_taken free zero d id i j a h f = absurd h
stays_taken free (suc e) d id i j a h f = absurd h
stays_taken taken zero zero id i j a h f = tt
stays_taken taken zero (suc d) id i j a h f = absurd cc
stays_taken taken (suc e) d id i j a h f = absurd h
stays_taken (split l r) zero d id i j a h f = absurd h
stays_taken (split l r) (suc e) zero id i j a h f = absurd cc
stays_taken (split l r) (suc e) (suc d) id i j a h f =
    elim (Option-cases (first_fit d (id * 2) l)) [
      | inl n ↦
          let f' = fit_right d id j l r n f in
          let right = first_fit-anc d (id * 2 + 1) j r f' in
          let r' = put d (id * 2 + 1) j taken r in
          rw (==_ne (anc d j) (id * 2) (λ q. absurd (omega arith)))
            (elim (ℕ_discrete (anc e i) (id * 2)) [
              | yes q ↦ IsTaken-left e id i l r' q (split_left e id i l r q h)
              | no ne ↦ IsTaken-right e id i l r' ne (
                  stays_taken r e d (id * 2 + 1) i j (other_half e id i a ne)
                    (split_right e id i l r ne h) f')
            ])
      | inr (b, s) ↦
          let f' = s ∙ ap some (fit_left d id j b l r s f) in
          let l' = put d (id * 2) j taken l in
          rw (==_eq (anc d j) (id * 2) (first_fit-anc d (id * 2) j l f'))
            (elim (ℕ_discrete (anc e i) (id * 2)) [
              | yes q ↦
                  IsTaken-left e id i l' r q
                    (stays_taken l e d (id * 2) i j q (split_left e id i l r q h) f')
              | no ne ↦ IsTaken-right e id i l' r ne (split_right e id i l r ne h)
            ])
    ]

depth_unique : (e d i : ℕ) → AtDepth e i → AtDepth d i → e ≡ d
depth_unique e d i (lo, hi) (lo', hi') = elim (dec_lt e d) [
  | yes lt ↦ absurd (omega (arith, pow-le-pow_right {n = 2} (omega arith) {i = suc e} {j = d} lt))
  | no ge ↦ elim (dec_lt d e) [
    | yes lt ↦ absurd (omega (arith, pow-le-pow_right {n = 2} (omega arith) {i = suc d} {j = e} lt))
    | no le ↦ omega arith
  ]
]

-- The bytes of two nodes of a chunk have none in common.
abbrev pub RunsApart : PoolChunk → ℕ → ℕ → Type 0
RunsApart c i j =
    (run_offset c i + run_length c i ≤ run_offset c j)
    ⊎ (run_offset c j + run_length c j ≤ run_offset c i)

Disjoint-RunsApart :
    (c : PoolChunk) (e d i j : ℕ)
    → depth c i ≡ e
    → depth c j ≡ d
    → Disjoint (c.log2_chunk_size - e) e i (c.log2_chunk_size - d) d j
    → RunsApart c i j
unfolding run_offset run_length
Disjoint-RunsApart c e d i j p q h = rw (p, q) h

taken-RunsApart :
    (c : PoolChunk) (t : Buddy) (e d i j : ℕ)
    → IsChunk c t
    → e ≤ c.max_order
    → d ≤ c.max_order
    → AtDepth e i
    → AtDepth d j
    → IsTaken e 1 i t
    → IsTaken d 1 j t
    → i ≢ j
    → RunsApart c i j
taken-RunsApart c t e d i j chunk le le' at at' h h' ne =
    let z : 0 + e ≡ e = omega arith in
    let z' : 0 + d ≡ d = omega arith in
    Disjoint-RunsApart c e d i j (chunk.depths e i le at) (chunk.depths d j le' at') (
      subst (λ y. Disjoint (c.log2_chunk_size - e) e i (c.log2_chunk_size - d) y j) z'
        (subst (λ x. Disjoint (c.log2_chunk_size - e) x i (c.log2_chunk_size - d) (0 + d) j) z
          (taken-Disjoint t e d (c.log2_chunk_size - e) (c.log2_chunk_size - d) 0 1 i j
            (omega (arith, chunk.shifts)) (anc_root e i at) (anc_root d j at')
            (omega arith, omega arith) h h' ne)))

Allocated-RunsApart :
    (c : PoolChunk) (t : Buddy) (order d e i : ℕ)
    → (a : Allocated c t order d) → d ≤ c.max_order
    → e ≤ c.max_order
    → AtDepth e i
    → IsTaken e 1 i t
    → RunsApart a.chunk i a.node
Allocated-RunsApart c t order d e i a le le' at h =
    taken-RunsApart a.chunk (put d 1 a.node taken t) e d i a.node a.valid (omega arith)
      (omega arith) at a.at (stays_taken t e d 1 i a.node (anc_root e i at) h a.fits) a.held
      λ q.
        let at' = subst (AtDepth e) q at in
        let h' = subst (λ x. IsTaken e 1 x t) q h in
        fit-taken d 1 a.node t a.fits
          (subst (λ x. IsTaken x 1 a.node t) (depth_unique e d a.node at' a.at) h')

abbrev returned : Outcome (Option ℕ) × PoolChunk → ℕ
returned (ok (some j), c) = j
returned (ok none, c) = 0
returned (err e, c) = 0

-- On a chunk whose map stands for a tree of runs, whose depths are right and which counts the bytes
-- of the free runs, a run of 2 ^ order bytes, from the page size to the chunk size and with order
-- below 32, that allocateRun returns has no byte in common with any run that was taken in the tree
-- before.
pub allocate_run-RunsApart :
    (c c' : PoolChunk) (t : Buddy) (order e i j : ℕ)
    → IsChunk c t
    → c.page_shifts ≤ order
    → order ≤ c.log2_chunk_size
    → order < 32
    → e ≤ c.max_order
    → AtDepth e i
    → IsTaken e 1 i t
    → allocate_run (2 ^ order) c ≡ (ok (some j), c')
    → RunsApart c' i j
allocate_run-RunsApart c c' t order e i j chunk page most few le at h returns =
    elim (allocate_run-cases c t order chunk page most few) [
      | inl (_, refuses) ↦ let both = sym refuses ∙ returns in absurd cc
      | inr a ↦
          let both = sym a.returns ∙ returns in
          subst (λ x. RunsApart x i j) (ap (λ x. x.1) both)
            (subst (λ y. RunsApart a.chunk i y) (ap returned both)
              (Allocated-RunsApart c t order (order_depth c order) e i a (omega arith) le at h))
    ]
