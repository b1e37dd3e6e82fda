-- ===== src/Chunk/Release.antt =====
-- PoolChunk::free of a run of pages: the run is free again, together with its free neighbours.
use cpp_nio_socket.Common.{
  ℕ, zero, suc, ◌+◌, ◌*◌, ◌-◌, ◌/◌, ◌^◌, min, ◌≤◌, ◌<◌, ◌≡◌, ◌≢◌, refl, sym, ap, ◌∙◌, subst, ◌⊎◌,
  inl, inr, arith, false, List, length, set, ℕ_discrete, lt→ltb, le→ltb, ==_eq, ==_ne,
  get_or-set_self, get_or-set_ne,
}
use cpp_nio_socket.Chunk.{
  PoolChunk, value, sibling, free_value, update_parents_free, free_run, run_length, depth,
}
use cpp_nio_socket.Chunk.Tree.{
  Buddy, free, taken, split, is_free, best, Represents, Represents-frame, anc, Under, Under-above,
}
use cpp_nio_socket.Chunk.Replace.{merge, run_at, put, up, bytes, bytes-merge, best-ge, IsTaken}
use cpp_nio_socket.Chunk.Climb.{up_replaces}
use cpp_nio_socket.Chunk.Fit.{AtDepth}
use cpp_nio_socket.Chunk.Allocate.{
  IsChunk, up-suc, AtDepth-half, AtDepth-one, depth-le, depth-pos, in_map,
}

update_parents_free-up :
    (d fuel j : ℕ) (m : List ℕ)
    → d ≤ fuel
    → AtDepth d j
    → update_parents_free fuel (d + 1) j m ≡ up free_value d 0 j m
unfolding update_parents_free up
update_parents_free-up zero zero j m le at = refl
update_parents_free-up zero (suc fuel) j m le at = rw (le→ltb 1 j (omega (arith, at.1))) refl
update_parents_free-up (suc d) zero j m le at = absurd (omega arith)
update_parents_free-up (suc d) (suc fuel) j m le at =
    let q : suc d + 1 - 1 ≡ suc d = omega arith in
    let q' : suc d ≡ d + 1 = omega arith in
    let z : 0 + suc d ≡ suc d = omega arith in
    let m' = set m (j / 2) (free_value (suc d) (value m j) (value m (sibling j))) in
    rw (lt→ltb 1 j (AtDepth-one d j at), q)
      (ap (λ l. update_parents_free fuel l (j / 2) m') q'
        ∙ update_parents_free-up d fuel (j / 2) m' (omega arith) (AtDepth-half d j at)
        ∙ ap
            (λ l.
              up free_value d 0 (j / 2)
                (set m (j / 2) (free_value l (value m j) (value m (sibling j)))))
            (sym z)
        ∙ sym (up-suc free_value d 0 j m))

abbrev Any : Buddy → Type 0
Any t = Unit {0}

free_value_split : (c a b : ℕ) → (c ≤ a) → (c ≤ b) → (c < a) ⊎ (c < b) → free_value c a b ≡ min a b
free_value_split c a b p q (inl lt) =
    let ne : a ≢ c = λ e. absurd (omega arith) in rw (==_ne a c ne) refl
free_value_split c a b p q (inr lt) =
    let ne : b ≢ c = λ e. absurd (omega arith) in
    elim (ℕ_discrete a c) [
      | yes e ↦ rw (==_eq a c e, ==_ne b c ne) refl
      | no ne' ↦ rw (==_ne a c ne') refl
    ]

free_value_both : (k : ℕ) → free_value (suc k) (suc k) (suc k) ≡ k
free_value_both k = let q : suc k - 1 ≡ k = omega arith in rw (==_eq (suc k) (suc k) refl) q

free_join :
    (u : ℕ) (m : List ℕ) (h k id : ℕ) (l r : Buddy)
    → k + suc h < u
    → Represents u m h (suc k) (id * 2) l
    → Represents u m h (suc k) (id * 2 + 1) r
    → Any l ⊎ Any r
    → (free_value (suc k) (best u (suc k) l) (best u (suc k) r) ≡ best u k (merge l r))
      × (free_value (suc k) (best u (suc k) r) (best u (suc k) l) ≡ best u k (merge l r))
      × Any (merge l r)
free_join u m h k id l r few a b _ =
    let (p, p') = best-ge u m h (suc k) (id * 2) l (omega arith) a in
    let (q, q') = best-ge u m h (suc k) (id * 2 + 1) r (omega arith) b in
    let (x, y) = joined l r p p' q q' in (x, y, tt)
  where
    apart :
        (s t : Buddy)
        → suc k ≤ best u (suc k) s
        → suc k ≤ best u (suc k) t
        → (suc k < best u (suc k) s) ⊎ (suc k < best u (suc k) t)
        → (free_value (suc k) (best u (suc k) s) (best u (suc k) t) ≡ best u k (split s t))
          × (free_value (suc k) (best u (suc k) t) (best u (suc k) s) ≡ best u k (split s t))
    apart s t p q one = (
      free_value_split (suc k) _ _ p q one,
      free_value_split (suc k) _ _ q p (swap one) ∙ min_swap _ _,
    )
      where
        swap :
            (suc k < best u (suc k) s) ⊎ (suc k < best u (suc k) t)
            → (suc k < best u (suc k) t) ⊎ (suc k < best u (suc k) s)
        swap (inl z) = inr z
        swap (inr z) = inl z

        min_swap : (i j : ℕ) → min i j ≡ min j i
        min_swap i j = omega arith

    joined :
        (s t : Buddy)
        → suc k ≤ best u (suc k) s
        → (is_free s ≡ false → suc k < best u (suc k) s)
        → suc k ≤ best u (suc k) t
        → (is_free t ≡ false → suc k < best u (suc k) t)
        → (free_value (suc k) (best u (suc k) s) (best u (suc k) t) ≡ best u k (merge s t))
          × (free_value (suc k) (best u (suc k) t) (best u (suc k) s) ≡ best u k (merge s t))
    joined free free p p' q q' = (free_value_both k, free_value_both k)
    joined free taken p p' q q' = apart free taken p q (inr (q' refl))
    joined free (split c d) p p' q q' = apart free (split c d) p q (inr (q' refl))
    joined taken t p p' q q' = apart taken t p q (inl (p' refl))
    joined (split c d) t p p' q q' = apart (split c d) t p q (inl (p' refl))

mark_free :
    (u j k : ℕ) (m : List ℕ) (h : ℕ)
    → 0 < j
    → j < length m
    → Represents u m h k j taken
    → Represents u (set m j k) h k j free
mark_free u j k m zero pos inside r = get_or-set_self m j k 0 inside
mark_free u j k m (suc h) pos inside (v, r1, r2) = (
  get_or-set_self m j k 0 inside,
  Represents-frame u m (set m j k) h (suc k) (j * 2) free
      (λ i w. get_or-set_ne m k 0 λ q. Under-above (omega arith) (subst (Under (j * 2)) (sym q) w))
      r1,
  Represents-frame u m (set m j k) h (suc k) (j * 2 + 1) free
      (λ i w.
        get_or-set_ne m k 0 λ q. Under-above (omega arith) (subst (Under (j * 2 + 1)) (sym q) w))
      r2,
)

taken_run : (e id j : ℕ) (t : Buddy) → IsTaken e id j t → run_at e id j t ≡ taken
taken_run zero id j free h = absurd h
taken_run zero id j taken h = refl
taken_run zero id j (split l r) h = absurd h
taken_run (suc e) id j free h = absurd h
taken_run (suc e) id j taken h = absurd h
taken_run (suc e) id j (split l r) h = elim (ℕ_discrete (anc e j) (id * 2)) [
  | yes q ↦
      rw (==_eq (anc e j) (id * 2) q)
        (taken_run e (id * 2) j l (rw (==_eq (anc e j) (id * 2) q) at h))
  | no ne ↦
      rw (==_ne (anc e j) (id * 2) ne)
        (taken_run e (id * 2 + 1) j r (rw (==_ne (anc e j) (id * 2) ne) at h))
]

freed_bytes :
    (e id j : ℕ) (t : Buddy) (s : ℕ)
    → IsTaken e id j t
    → bytes (s + e) (put e id j free t) ≡ bytes (s + e) t + 2 ^ s
freed_bytes zero id j free s h = absurd h
freed_bytes zero id j taken s h =
    let z : s + 0 ≡ s = omega arith in rw z (let k : 2 ^ s ≡ 0 + 2 ^ s = omega arith in k)
freed_bytes zero id j (split l r) s h = absurd h
freed_bytes (suc e) id j free s h = absurd h
freed_bytes (suc e) id j taken s h = absurd h
freed_bytes (suc e) id j (split l r) s h =
    let q : s + suc e ≡ s + e + 1 = omega arith in
    let q' : s + e + 1 - 1 ≡ s + e = omega arith in
    elim (ℕ_discrete (anc e j) (id * 2)) [
      | yes w ↦
          let l' = put e (id * 2) j free l in
          rw (==_eq (anc e j) (id * 2) w, q)
            (bytes-merge (s + e) l' r
              ∙ rw q' (
                  omega
                    (arith, freed_bytes e (id * 2) j l s (rw (==_eq (anc e j) (id * 2) w) at h))))
      | no ne ↦
          let r' = put e (id * 2 + 1) j free r in
          rw (==_ne (anc e j) (id * 2) ne, q)
            (bytes-merge (s + e) l r'
              ∙ rw q' (
                  omega (
                    arith,
                    freed_bytes e (id * 2 + 1) j r s (rw (==_ne (anc e j) (id * 2) ne) at h),
                  )))
    ]

pub anc_root : (d j : ℕ) → AtDepth d j → anc d j ≡ 1
anc_root zero j at = omega (arith, at.0, at.1)
anc_root (suc d) j at = anc_root d (j / 2) (AtDepth-half d j at)

abbrev freed : ℕ → ℕ → PoolChunk → PoolChunk
freed d j c = record c {
  free_bytes = c.free_bytes + 2 ^ (c.log2_chunk_size - d);
  memory_map = up free_value d 0 j (set c.memory_map j d);
}

free_run_runs : (c : PoolChunk) (d j : ℕ) → depth c j ≡ d → AtDepth d j → free_run j c ≡ freed d j c
unfolding free_run run_length
free_run_runs c d j e at =
    rw (e, update_parents_free-up d j j (set c.memory_map j d) (depth-le d j at) at) refl

-- On a chunk whose map stands for a tree of runs, whose depths are right and which counts the bytes
-- of the free runs, freeing a node of the map whose run is taken gives a chunk that stands for the
-- tree with the run free and merged with its free neighbours, with right depths, and whose count of
-- free bytes has grown by the length of the run.
pub free_run_lem :
    (c : PoolChunk) (t : Buddy) (d j : ℕ)
    → IsChunk c t
    → d ≤ c.max_order
    → AtDepth d j
    → IsTaken d 1 j t
    → IsChunk (free_run j c) (put d 1 j free t)
      × ((free_run j c).free_bytes ≡ c.free_bytes + 2 ^ (c.log2_chunk_size - d))
free_run_lem c t d j chunk le at h =
    let maps = chunk.maps in
    let inside : j < length c.memory_map =
      omega (arith, in_map d j c.max_order le at, maps.allocated) in
    let (rep, _) =
      up_replaces c.unusable Any free_value (free_join c.unusable) taken free tt j d d
        (λ m h. mark_free c.unusable j d m h (depth-pos d j at)) d c.max_order 0 1 c.memory_map t le
        (omega arith) (omega (arith, maps.mark)) (omega arith) (anc_root d j at) inside maps.tree
        (taken_run d 1 j t h) in
    let s = c.log2_chunk_size - d in
    let levels : c.log2_chunk_size ≡ s + d = omega (arith, chunk.shifts) in
    rw (free_run_runs c d j (chunk.depths d j le at) at) (
      record {
        maps = record {
          tree = rep.tree;
          mark = maps.mark;
          allocated = rep.same_length ∙ maps.allocated;
        };
        depths = chunk.depths;
        shifts = chunk.shifts;
        counted =
            ap (λ x. x + 2 ^ s) (chunk.counted ∙ ap (λ x. bytes x t) levels)
            ∙ sym (freed_bytes d 1 j t s h)
            ∙ ap (λ x. bytes x (put d 1 j free t)) (sym levels);
      },
      refl,
    )
