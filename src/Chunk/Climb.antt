-- ===== src/Chunk/Climb.antt =====
-- Going up in the map of PoolChunk.cpp represents the tree in which a run has been replaced.
use cpp_nio_socket.Common.{
  ℕ, zero, suc, ◌+◌, ◌*◌, ◌/◌, ◌≤◌, ◌<◌, ◌≡◌, ◌≢◌, sym, ap, ap₂, ◌∙◌, subst, ◌⊎◌, inl, inr, arith,
  List, length, set, get_or-set_self, get_or-set_ne, length-set, ℕ_discrete, ==_eq, ==_ne,
}
use cpp_nio_socket.Chunk.{value, sibling}
use cpp_nio_socket.Chunk.Tree.{
  Buddy, best, Represents, Represents-best, Represents-frame, anc, anc-suc, Under, Under-left,
  Under-right, Under-apart, Under-above,
}
use cpp_nio_socket.Chunk.Replace.{
  left_half, right_half, merge, run_at, put, up, sibling_left, sibling_right, Represents-halves,
  Represents-merge,
}

-- What holds of the map after a loop: the tree below `id`, and nothing else has changed.
pub record Replaced (u : ℕ) (m m' : List ℕ) (h k id : ℕ) (t : Buddy) : Type 0 where
  pub tree : Represents u m' h k id t
  pub outside : (j : ℕ) → (Under id j → ⊥) → value m' j ≡ value m j
  pub same_length : length m' ≡ length m

anc-pos : (i j : ℕ) → 0 < anc i j → anc i j ≤ j
anc-pos zero j p = omega arith
anc-pos (suc i) j p = omega (arith, anc-pos i (j / 2) p)

module _ (u : ℕ) (Good : Buddy → Type 0) (g : ℕ → ℕ → ℕ → ℕ)
    (join : (m : List ℕ) (h k id : ℕ) (l r : Buddy)
      → k + suc h < u
      → Represents u m h (suc k) (id * 2) l
      → Represents u m h (suc k) (id * 2 + 1) r
      → Good l ⊎ Good r
      → (g (suc k) (best u (suc k) l) (best u (suc k) r) ≡ best u k (merge l r))
        × (g (suc k) (best u (suc k) r) (best u (suc k) l) ≡ best u k (merge l r))
        × Good (merge l r)) where
  -- One round, which takes the values of the halves to their node.
  round_up :
      (m m1 : List ℕ) (h k id v : ℕ) (l r : Buddy)
      → 0 < id
      → id < length m1
      → Represents u m1 h (suc k) (id * 2) l
      → Represents u m1 h (suc k) (id * 2 + 1) r
      → v ≡ best u k (merge l r)
      → ((j : ℕ) → (Under id j → ⊥) → value m1 j ≡ value m j)
      → length m1 ≡ length m
      → Replaced u m (set m1 id v) (suc h) k id (merge l r)
  round_up m m1 h k id v l r pos inside a b e out len = record {
    tree =
        Represents-merge u (set m1 id v) h k id l r (get_or-set_self m1 id v 0 inside ∙ e)
          (Represents-frame u m1 (set m1 id v) h (suc k) (id * 2) l
            (λ j w. get_or-set_ne m1 v 0 (above (id * 2) j (omega arith) w)) a)
          (Represents-frame u m1 (set m1 id v) h (suc k) (id * 2 + 1) r
            (λ j w. get_or-set_ne m1 v 0 (above (id * 2 + 1) j (omega arith) w)) b);
    outside = λ j w. get_or-set_ne m1 v 0 (λ q. w (zero, sym q)) ∙ out j w;
    same_length = length-set m1 id v ∙ len;
  }
    where
      above : (c j : ℕ) → id < c → Under c j → id ≢ j
      above c j lt w q = Under-above lt (subst (λ x. Under c x) (sym q) w)

  module _ (y x : Buddy) (good : Good x) (j v kj : ℕ)
      (local : (m : List ℕ) (h : ℕ)
        → j < length m
        → Represents u m h kj j y
        → Represents u (set m j v) h kj j x) where
    left_round :
        (e h k id : ℕ) (m : List ℕ) (l r : Buddy)
        → k + suc h < u
        → 0 < id
        → anc (suc e) j ≡ id
        → j < length m
        → anc e j ≡ id * 2
        → Replaced u m (up g e (suc k) j (set m j v)) h (suc k) (id * 2) l
        → Good l
        → Represents u m h (suc k) (id * 2 + 1) r
        → Replaced u m (up g (suc e) k j (set m j v)) (suc h) k id (merge l r) × Good (merge l r)
    unfolding up
    left_round e h k id m l r few pos a inside q d good_l right =
        let m1 = up g e (suc k) j (set m j v) in
        let right' =
          Represents-frame u m m1 h (suc k) (id * 2 + 1) r
            (λ i w. d.outside i (λ w'. Under-apart pos w' w)) right in
        let (val, _, good') = join m1 h k id l r few d.tree right' (inl good_l) in
        let e1 : g (suc k) (value m1 (anc e j)) (value m1 (sibling (anc e j)))
            ≡ best u k (merge l r) =
          ap (λ c. g (suc k) (value m1 c) (value m1 (sibling c))) q
          ∙ ap (λ s. g (suc k) (value m1 (id * 2)) (value m1 s)) (sibling_left id)
          ∙ ap₂ (g (suc k)) (Represents-best u m1 h (suc k) (id * 2) l d.tree)
              (Represents-best u m1 h (suc k) (id * 2 + 1) r right')
          ∙ val in
        (
          subst
              (λ i.
                Replaced u m
                  (set m1 i (g (suc k) (value m1 (anc e j)) (value m1 (sibling (anc e j))))) (suc h)
                  k id (merge l r))
              (sym a)
              (round_up m m1 h k id _ l r pos
                (omega (arith, anc-pos (suc e) j (omega arith), a, d.same_length)) d.tree right' e1
                (λ i w. d.outside i (λ w'. w (Under-left w'))) d.same_length),
          good',
        )

    right_round :
        (e h k id : ℕ) (m : List ℕ) (l r : Buddy)
        → k + suc h < u
        → 0 < id
        → anc (suc e) j ≡ id
        → j < length m
        → anc e j ≡ id * 2 + 1
        → Replaced u m (up g e (suc k) j (set m j v)) h (suc k) (id * 2 + 1) r
        → Good r
        → Represents u m h (suc k) (id * 2) l
        → Replaced u m (up g (suc e) k j (set m j v)) (suc h) k id (merge l r) × Good (merge l r)
    unfolding up
    right_round e h k id m l r few pos a inside q d good_r left =
        let m1 = up g e (suc k) j (set m j v) in
        let left' =
          Represents-frame u m m1 h (suc k) (id * 2) l
            (λ i w. d.outside i (λ w'. Under-apart pos w w')) left in
        let (_, val, good') = join m1 h k id l r few left' d.tree (inr good_r) in
        let e1 : g (suc k) (value m1 (anc e j)) (value m1 (sibling (anc e j)))
            ≡ best u k (merge l r) =
          ap (λ c. g (suc k) (value m1 c) (value m1 (sibling c))) q
          ∙ ap (λ s. g (suc k) (value m1 (id * 2 + 1)) (value m1 s)) (sibling_right id)
          ∙ ap₂ (g (suc k)) (Represents-best u m1 h (suc k) (id * 2 + 1) r d.tree)
              (Represents-best u m1 h (suc k) (id * 2) l left')
          ∙ val in
        (
          subst
              (λ i.
                Replaced u m
                  (set m1 i (g (suc k) (value m1 (anc e j)) (value m1 (sibling (anc e j))))) (suc h)
                  k id (merge l r))
              (sym a)
              (round_up m m1 h k id _ l r pos
                (omega (arith, anc-pos (suc e) j (omega arith), a, d.same_length)) left' d.tree e1
                (λ i w. d.outside i (λ w'. w (Under-right w'))) d.same_length),
          good',
        )

    pub up_replaces :
        (e h k id : ℕ) (m : List ℕ) (t : Buddy)
        → e ≤ h
        → k + e ≡ kj
        → k + h < u
        → 0 < id
        → anc e j ≡ id
        → j < length m
        → Represents u m h k id t
        → run_at e id j t ≡ y
        → Replaced u m (up g e k j (set m j v)) h k id (put e id j x t) × Good (put e id j x t)
    unfolding up
    up_replaces zero h k id m t le level few pos a inside r run = (
      record {
        tree =
            subst (λ i. Represents u (set m j v) h k i x) a
              (subst (λ q. Represents u (set m j v) h q j x) (sym at_level)
                (local m h inside (
                  subst (λ q. Represents u m h q j y) at_level
                    (subst (λ i. Represents u m h k i y) (sym a)
                      (subst (λ s. Represents u m h k id s) run r)))));
        outside = λ i w. get_or-set_ne m v 0 (λ q. w (zero, sym q ∙ a));
        same_length = length-set m j v;
      },
      good,
    )
      where
        at_level : k ≡ kj
        at_level = omega arith
    up_replaces (suc e) zero k id m t le level few pos a inside r run = absurd (omega arith)
    up_replaces (suc e) (suc h) k id m t le level few pos a inside r run =
        elim (ℕ_discrete (anc e j) (id * 2)) [
          | yes q ↦
              let rec =
                up_replaces e h (suc k) (id * 2) m (left_half t) (omega arith) (omega arith)
                  (omega arith) (omega arith) q inside (Represents-halves u m h k id t r).0
                  (rw (==_eq (anc e j) (id * 2) q) at run) in
              rw (==_eq (anc e j) (id * 2) q) (
                left_round e h k id m (put e (id * 2) j x (left_half t)) (right_half t) few pos a
                  inside q rec.0 rec.1 (Represents-halves u m h k id t r).1)
          | no ne ↦
              let q : anc e j ≡ id * 2 + 1 = omega (arith, anc-suc e j, a, ne) in
              let rec =
                up_replaces e h (suc k) (id * 2 + 1) m (right_half t) (omega arith) (omega arith)
                  (omega arith) (omega arith) q inside (Represents-halves u m h k id t r).1
                  (rw (==_ne (anc e j) (id * 2) ne) at run) in
              rw (==_ne (anc e j) (id * 2) ne) (
                right_round e h k id m (left_half t) (put e (id * 2 + 1) j x (right_half t)) few pos
                  a inside q rec.0 rec.1 (Represents-halves u m h k id t r).0)
        ]
