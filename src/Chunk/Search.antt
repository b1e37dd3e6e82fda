-- ===== src/Chunk/Search.antt =====
-- The search of PoolChunk::allocateNode.
use cpp_nio_socket.Common.{
  ℕ, zero, suc, ◌+◌, ◌*◌, ◌-◌, ◌^◌, ◌≤◌, ◌<◌, ◌≡◌, ◌≢◌, refl, ◌∙◌, subst, arith, none, List, ==_eq,
  ==_ne, dec_le,
}
use native.Mathlib.Nat.{pow-le-pow_right}
use cpp_nio_socket.Chunk.{value}
use cpp_nio_socket.Chunk.Tree.{
  Buddy, free, taken, split, best, Represents, Represents-best, anc, anc-suc,
}
use cpp_nio_socket.Chunk.Replace.{
  left_half, right_half, merge, put, bytes, bytes-merge, IsTaken-left, IsTaken-right,
  left_half-merge, right_half-merge, merge-Canonical, best-ge,
}
use cpp_nio_socket.Chunk.Fit.{
  first_fit, AtDepth, descend_left, descend_right, descend_here, AtDepth-left, AtDepth-right, Found,
}

pub first_fit-none :
    (u e h k id : ℕ) (m : List ℕ) (t : Buddy)
    → e ≤ h
    → k + h < u
    → Represents u m h k id t
    → k + e < best u k t
    → first_fit e id t ≡ none
first_fit-none u zero h k id m free le few r high = absurd (omega arith)
first_fit-none u zero h k id m taken le few r high = refl
first_fit-none u zero h k id m (split a b) le few r high = refl
first_fit-none u (suc e) h k id m free le few r high = absurd (omega arith)
first_fit-none u (suc e) h k id m taken le few r high = refl
first_fit-none u (suc e) zero k id m (split a b) le few r high = absurd (omega arith)
first_fit-none u (suc e) (suc h) k id m (split a b) le few (v, r1, r2, c) high =
    rw (first_fit-none u e h (suc k) (id * 2) m a (omega arith) (omega arith) r1 (omega arith))
      (first_fit-none u e h (suc k) (id * 2 + 1) m b (omega arith) (omega arith) r2 (omega arith))

at_depth_below : (k d id : ℕ) → AtDepth k id → k < d → id < 2 ^ d
at_depth_below k d id (lo, hi) lt =
    omega (arith, pow-le-pow_right {n = 2} (omega arith) {i = suc k} {j = d} lt)

module _ (u e h k id : ℕ) (m : List ℕ) (d : ℕ) (level : d ≡ k + suc e) (at : AtDepth k id) where
  -- The bytes of a node are those of its halves, unless it is taken as a whole.
  abbrev Halved : Buddy → Type 0
  Halved t = (s : ℕ) → bytes (s + 1) t ≡ bytes s (left_half t) + bytes s (right_half t)

  search_left :
      (t : Buddy)
      → Halved t
      → merge (left_half t) (right_half t) ≡ t
      → value m (id * 2) ≤ d
      → first_fit (suc e) id t ≡ first_fit e (id * 2) (left_half t)
      → Found e d (id * 2) m (left_half t)
      → Found (suc e) d id m t
  search_left t halved whole low same f = record {
    node = f.node;
    fits = same ∙ f.fits;
    found = descend_left (suc e) d id m (at_depth_below k d id at (omega arith)) low ∙ f.found;
    below = omega (arith, anc-suc e f.node, f.below);
    is_free = rw (==_eq (anc e f.node) (id * 2) f.below) f.is_free;
    at = f.at;
    counts = λ s.
        let q : s + suc e ≡ s + e + 1 = omega arith in
        rw (==_eq (anc e f.node) (id * 2) f.below, q)
          (omega (
            arith,
            halved (s + e),
            f.counts s,
            bytes-merge (s + e) (put e (id * 2) f.node taken (left_half t)) (right_half t),
          ));
    is_taken = rw (==_eq (anc e f.node) (id * 2) f.below) (
        IsTaken-left e id f.node (put e (id * 2) f.node taken (left_half t)) (right_half t) f.below
          f.is_taken);
    back =
        let l' = put e (id * 2) f.node taken (left_half t) in
        rw
          (
            ==_eq (anc e f.node) (id * 2) f.below,
            left_half-merge l' (right_half t),
            right_half-merge l' (right_half t),
            f.back,
          )
          whole;
  }

  search_right :
      (t : Buddy)
      → Halved t
      → merge (left_half t) (right_half t) ≡ t
      → d < value m (id * 2)
      → first_fit (suc e) id t ≡ first_fit e (id * 2 + 1) (right_half t)
      → Found e d (id * 2 + 1) m (right_half t)
      → Found (suc e) d id m t
  search_right t halved whole high same f =
      let ne : anc e f.node ≢ id * 2 = λ q. absurd (omega (arith, f.below)) in
      record {
        node = f.node;
        fits = same ∙ f.fits;
        found =
            descend_right (suc e) d id m (at_depth_below k d id at (omega arith)) high ∙ f.found;
        below = omega (arith, anc-suc e f.node, f.below);
        is_free = rw (==_ne (anc e f.node) (id * 2) ne) f.is_free;
        at = f.at;
        counts = λ s.
            let q : s + suc e ≡ s + e + 1 = omega arith in
            rw (==_ne (anc e f.node) (id * 2) ne, q)
              (omega (
                arith,
                halved (s + e),
                f.counts s,
                bytes-merge (s + e) (left_half t) (put e (id * 2 + 1) f.node taken (right_half t)),
              ));
        is_taken = rw (==_ne (anc e f.node) (id * 2) ne) (
            IsTaken-right e id f.node (left_half t) (put e (id * 2 + 1) f.node taken (right_half t))
              ne f.is_taken);
        back =
            let r' = put e (id * 2 + 1) f.node taken (right_half t) in
            rw
              (
                ==_ne (anc e f.node) (id * 2) ne,
                left_half-merge (left_half t) r',
                right_half-merge (left_half t) r',
                f.back,
              )
              whole;
      }

split_halved : (a b : Buddy) (s : ℕ) → bytes (s + 1) (split a b) ≡ bytes s a + bytes s b
split_halved a b s = let e : s + 1 - 1 ≡ s = omega arith in rw e refl

pub search :
    (u e h k id d : ℕ) (m : List ℕ) (t : Buddy)
    → e ≤ h
    → d ≡ k + e
    → k + h < u
    → AtDepth k id
    → Represents u m h k id t
    → best u k t ≤ d
    → Found e d id m t
search u zero h k id d m free le level few at r low = record {
  node = id;
  fits = refl;
  found =
      let same : k ≡ d = omega arith in
      descend_here zero d id m (subst (λ q. AtDepth q id) same at)
        (omega (arith, Represents-best u m h k id free r));
  below = refl;
  is_free = refl;
  at = let same : k ≡ d = omega arith in subst (λ q. AtDepth q id) same at;
  counts =
      λ s. let z : s + 0 ≡ s = omega arith in rw z (let k : 0 + 2 ^ s ≡ 2 ^ s = omega arith in k);
  is_taken = tt;
  back = refl;
}
search u zero h k id d m taken le level few at r low = absurd (omega arith)
search u zero zero k id d m (split a b) le level few at r low = absurd r
search u zero (suc h) k id d m (split a b) le level few at (v, r1, r2, c) low = absurd (
    omega (
      arith,
      (best-ge u m h (suc k) (id * 2) a (omega arith) r1).0,
      (best-ge u m h (suc k) (id * 2 + 1) b (omega arith) r2).0,
    ))
search u (suc e) zero k id d m t le level few at r low = absurd (omega arith)
search u (suc e) (suc h) k id d m free le level few at (v, r1, r2) low =
    search_left u e h k id m d level at free (λ s. bytes-merge s free free) refl
      (omega (arith, Represents-best u m h (suc k) (id * 2) free r1)) refl
      (search u e h (suc k) (id * 2) d m free (omega arith) (omega arith) (omega arith)
        (AtDepth-left k id at) r1 (omega arith))
search u (suc e) (suc h) k id d m taken le level few at r low = absurd (omega arith)
search u (suc e) (suc h) k id d m (split a b) le level few at (v, r1, r2, c) low =
    elim (dec_le (best u (suc k) a) d) [
      | yes fits ↦
          let f =
            search u e h (suc k) (id * 2) d m a (omega arith) (omega arith) (omega arith)
              (AtDepth-left k id at) r1 fits in
          search_left u e h k id m d level at (split a b) (split_halved a b) (merge-Canonical a b c)
            (omega (arith, Represents-best u m h (suc k) (id * 2) a r1)) (rw f.fits refl) f
      | no full ↦
          search_right u e h k id m d level at (split a b) (split_halved a b)
            (merge-Canonical a b c) (omega (arith, Represents-best u m h (suc k) (id * 2) a r1))
            (rw
              (first_fit-none u e h (suc k) (id * 2) m a (omega arith) (omega arith) r1
                (omega arith))
              refl)
            (search u e h (suc k) (id * 2 + 1) d m b (omega arith) (omega arith) (omega arith)
              (AtDepth-right k id at) r2 (omega arith))
    ]
