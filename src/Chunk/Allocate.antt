-- ===== src/Chunk/Allocate.antt =====
-- PoolChunk::allocateNode and allocateRun: they take the leftmost run that fits.
use cpp_nio_socket.Common.{
  ℕ, zero, suc, ◌+◌, ◌*◌, ◌/◌, ◌^◌, min, ◌≤◌, ◌<◌, ◌≡◌, refl, sym, ap, ◌∙◌, subst, ◌⊎◌, inl, inr,
  arith, false, none, some, List, length, set, ℕ_discrete, lt→ltb, le→ltb, ==_eq, ==_ne, dec_lt,
  get_or-set_self, get_or-set_ne, ok,
}
use native.Mathlib.Nat.{two-pow-succ, pow-le-pow_right}
use cpp_nio_socket.Chunk.{
  PoolChunk, value, sibling, clear_bits, update_parents_alloc, take_node, allocate_node, depth,
}
use cpp_nio_socket.Chunk.Tree.{
  Buddy, free, taken, split, is_free, best, Represents, Represents-best, Represents-frame, anc,
  anc-suc, Under, Under-above,
}
use cpp_nio_socket.Chunk.Replace.{
  left_half, right_half, merge, run_at, put, up, bytes, Represents-halves, IsTaken,
}
use cpp_nio_socket.Chunk.Climb.{up_replaces}
use cpp_nio_socket.Chunk.Fit.{first_fit, AtDepth, clear_at}
use cpp_nio_socket.Chunk.Search.{first_fit-none, search}

-- A chunk of the pool whose map stands for the tree.
pub record MapsTo (c : PoolChunk) (t : Buddy) : Type 0 where
  pub tree : Represents c.unusable c.memory_map c.max_order 0 1 t
  pub mark : c.unusable ≡ c.max_order + 1
  pub allocated : length c.memory_map ≡ 2 ^ (c.max_order + 1)

-- Its depths are right, and it counts the bytes of the free runs.
pub record IsChunk (c : PoolChunk) (t : Buddy) : Type 0 where
  pub maps : MapsTo c t
  pub depths : (k j : ℕ) → k ≤ c.max_order → AtDepth k j → depth c j ≡ k
  pub shifts : c.log2_chunk_size ≡ c.max_order + c.page_shifts
  pub counted : c.free_bytes ≡ bytes c.log2_chunk_size t

-- The loop from below is the loop from above.
pub up-suc :
    (g : ℕ → ℕ → ℕ → ℕ) (e k j : ℕ) (m : List ℕ)
    → up g (suc e) k j m
      ≡ up g e k (j / 2) (set m (j / 2) (g (k + suc e) (value m j) (value m (sibling j))))
unfolding up
up-suc g zero k j m = let q : k + 1 ≡ suc k = omega arith in rw q refl
up-suc g (suc e) k j m =
    let q : suc k + suc e ≡ k + suc (suc e) = omega arith in
    ap
      (λ m1.
        set m1 (anc (suc (suc e)) j)
          (g (suc k) (value m1 (anc (suc e) j)) (value m1 (sibling (anc (suc e) j)))))
      (up-suc g e (suc k) j m
        ∙ ap (λ l. up g e (suc k) (j / 2) (set m (j / 2) (g l (value m j) (value m (sibling j)))))
            q)

pub AtDepth-half : (k j : ℕ) → AtDepth (suc k) j → AtDepth k (j / 2)
AtDepth-half k j (lo, hi) = (omega (arith, two-pow-succ k), omega (arith, two-pow-succ (suc k)))

pub AtDepth-one : (k j : ℕ) → AtDepth (suc k) j → 1 < j
AtDepth-one k j (lo, hi) =
    omega
      (arith, two-pow-succ k, pow-le-pow_right {n = 2} (omega arith) {i = 0} {j = k} (omega arith))

abbrev lesser : ℕ → ℕ → ℕ → ℕ
lesser log_child a b = min a b

update_parents_alloc-up :
    (d fuel j : ℕ) (m : List ℕ)
    → d ≤ fuel
    → AtDepth d j
    → update_parents_alloc fuel j m ≡ up lesser d 0 j m
unfolding update_parents_alloc up
update_parents_alloc-up zero zero j m le at = refl
update_parents_alloc-up zero (suc fuel) j m le at = rw (le→ltb 1 j (omega (arith, at.1))) refl
update_parents_alloc-up (suc d) zero j m le at = absurd (omega arith)
update_parents_alloc-up (suc d) (suc fuel) j m le at = rw (lt→ltb 1 j (AtDepth-one d j at)) (
    update_parents_alloc-up d fuel (j / 2) _ (omega arith) (AtDepth-half d j at)
    ∙ sym (up-suc lesser d 0 j m))

pub depth-le : (d j : ℕ) → AtDepth d j → d ≤ j
depth-le zero j at = omega arith
depth-le (suc d) j at = omega (arith, depth-le d (j / 2) (AtDepth-half d j at), AtDepth-one d j at)

-- Two halves of which one is not free make no free run.
not_free_join :
    (u : ℕ) (m : List ℕ) (h k id : ℕ) (l r : Buddy)
    → k + suc h < u
    → Represents u m h (suc k) (id * 2) l
    → Represents u m h (suc k) (id * 2 + 1) r
    → (is_free l ≡ false) ⊎ (is_free r ≡ false)
    → (lesser (suc k) (best u (suc k) l) (best u (suc k) r) ≡ best u k (merge l r))
      × (lesser (suc k) (best u (suc k) r) (best u (suc k) l) ≡ best u k (merge l r))
      × (is_free (merge l r) ≡ false)
not_free_join u m h k id free free few a b (inl e) = cc
not_free_join u m h k id free free few a b (inr e) = cc
not_free_join u m h k id free taken few a b _ = (refl, omega arith, refl)
not_free_join u m h k id free (split r s) few a b _ = (refl, omega arith, refl)
not_free_join u m h k id taken r few a b _ = (refl, omega arith, refl)
not_free_join u m h k id (split l s) r few a b _ = (refl, omega arith, refl)

-- A free run is taken by the mark at its node.
mark_taken :
    (u j k : ℕ) (m : List ℕ) (h : ℕ)
    → 0 < j
    → j < length m
    → Represents u m h k j free
    → Represents u (set m j u) h k j taken
mark_taken u j k m zero pos inside r = get_or-set_self m j u 0 inside
mark_taken u j k m (suc h) pos inside (v, r1, r2) = (
  get_or-set_self m j u 0 inside,
  Represents-frame u m (set m j u) h (suc k) (j * 2) free
      (λ i w. get_or-set_ne m u 0 λ q. Under-above (omega arith) (subst (Under (j * 2)) (sym q) w))
      r1,
  Represents-frame u m (set m j u) h (suc k) (j * 2 + 1) free
      (λ i w.
        get_or-set_ne m u 0 λ q. Under-above (omega arith) (subst (Under (j * 2 + 1)) (sym q) w))
      r2,
)

map_of : (d j : ℕ) → PoolChunk → List ℕ
map_of d j c = up lesser d 0 j (set c.memory_map j c.unusable)

-- What allocateNode may make of a chunk.
abbrev AllocatesNode : ℕ → PoolChunk → Buddy → Type 0
AllocatesNode d c t =
    ((first_fit d 1 t ≡ none) × (allocate_node d c ≡ (ok none, c)))
    ⊎ ((j : ℕ) × (m : List ℕ) × (first_fit d 1 t ≡ some j)
        × AtDepth d j
        × (allocate_node d c ≡ (ok (some j), record c { memory_map = m }))
        × MapsTo (record c { memory_map = m }) (put d 1 j taken t)
        × ((s : ℕ) → bytes (s + d) (put d 1 j taken t) + 2 ^ s ≡ bytes (s + d) t)
        × IsTaken d 1 j (put d 1 j taken t)
        × (put d 1 j free (put d 1 j taken t) ≡ t))

take_node_found :
    (d j : ℕ) (c : PoolChunk)
    → AtDepth d j
    → value c.memory_map j ≡ d
    → take_node d (some j) c ≡ (ok (some j), record c { memory_map = map_of d j c })
unfolding map_of
take_node_found d j c at v =
    rw
      (
        ==_eq (value c.memory_map j) d v,
        ==_eq (clear_bits d j) (2 ^ d) (clear_at d j at),
        update_parents_alloc-up d j j (set c.memory_map j c.unusable) (depth-le d j at) at,
      )
      refl

zero_plus : (d : ℕ) → 0 + d ≡ d
zero_plus d = omega arith

run_value :
    (u e h k id j : ℕ) (m : List ℕ) (t : Buddy)
    → e ≤ h
    → anc e j ≡ id
    → Represents u m h k id t
    → value m j ≡ best u (k + e) (run_at e id j t)
run_value u zero h k id j m t le a r =
    let z : k ≡ k + 0 = omega arith in
    ap (λ i. value m i) a ∙ Represents-best u m h k id t r ∙ ap (λ q. best u q t) z
run_value u (suc e) zero k id j m t le a r = absurd (omega arith)
run_value u (suc e) (suc h) k id j m t le a r =
    let z : suc k + e ≡ k + suc e = omega arith in
    elim (ℕ_discrete (anc e j) (id * 2)) [
      | yes q ↦ rw (==_eq (anc e j) (id * 2) q) (
          run_value u e h (suc k) (id * 2) j m (left_half t) (omega arith) q
            (Represents-halves u m h k id t r).0
          ∙ ap (λ x. best u x (run_at e (id * 2) j (left_half t))) z)
      | no ne ↦ rw (==_ne (anc e j) (id * 2) ne) (
          run_value u e h (suc k) (id * 2 + 1) j m (right_half t) (omega arith)
            (omega (arith, anc-suc e j, a, ne)) (Represents-halves u m h k id t r).1
          ∙ ap (λ x. best u x (run_at e (id * 2 + 1) j (right_half t))) z)
    ]

pub depth-pos : (k j : ℕ) → AtDepth k j → 0 < j
depth-pos k j (lo, hi) =
    omega (arith, pow-le-pow_right {n = 2} (omega arith) {i = 0} {j = k} (omega arith))

pub in_map : (d j max_order : ℕ) → d ≤ max_order → AtDepth d j → j < 2 ^ (max_order + 1)
in_map d j max_order le (lo, hi) =
    omega
      (arith, pow-le-pow_right {n = 2} (omega arith) {i = suc d} {j = max_order + 1} (omega arith))

pub allocate_node-cases :
    (d : ℕ) (c : PoolChunk) (t : Buddy) → MapsTo c t → d ≤ c.max_order → AllocatesNode d c t
unfolding allocate_node map_of
allocate_node-cases d c t maps le =
    let root = Represents-best c.unusable c.memory_map c.max_order 0 1 t maps.tree in
    elim (dec_lt d (best c.unusable 0 t)) [
      | yes high ↦ inl (
        first_fit-none c.unusable d c.max_order 0 1 c.memory_map t le (omega (arith, maps.mark))
            maps.tree (omega arith),
        rw (lt→ltb d (value c.memory_map 1) (omega arith)) refl,
      )
      | no low ↦
          let f =
            search c.unusable d c.max_order 0 1 d c.memory_map t le (omega arith)
              (omega (arith, maps.mark)) (omega arith, omega arith) maps.tree (omega arith) in
          let v : value c.memory_map f.node ≡ d =
            run_value c.unusable d c.max_order 0 1 f.node c.memory_map t le f.below maps.tree
            ∙ ap (best c.unusable (0 + d)) f.is_free
            ∙ zero_plus d in
          let inside : f.node < length c.memory_map =
            omega (arith, in_map d f.node c.max_order le f.at, maps.allocated) in
          let (rep, _) =
            up_replaces c.unusable (λ s. is_free s ≡ false) lesser (not_free_join c.unusable) free
              taken refl f.node c.unusable d
              (λ m h. mark_taken c.unusable f.node d m h (omega (arith, depth-pos d f.node f.at))) d
              c.max_order 0 1 c.memory_map t le (omega arith) (omega (arith, maps.mark))
              (omega arith) f.below inside maps.tree f.is_free in
          inr (
            f.node,
            map_of d f.node c,
            f.fits,
            f.at,
            rw (le→ltb d (value c.memory_map 1) (omega arith), f.found)
                (take_node_found d f.node c f.at (omega arith)),
            record {
              tree = rep.tree;
              mark = maps.mark;
              allocated = rep.same_length ∙ maps.allocated;
            },
            f.counts,
            f.is_taken,
            f.back,
          )
    ]
