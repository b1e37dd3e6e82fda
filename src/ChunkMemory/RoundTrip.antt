-- ===== src/ChunkMemory/RoundTrip.antt =====
-- PoolChunk::allocate for a run of pages, and free of its handle.
use native.Mathlib.Nat.{pow-le-pow_right}
use cpp_nio_socket.Common.{
  ℕ, zero, suc, ◌+◌, ◌*◌, ◌/◌, ◌^◌, ◌≤◌, ◌<◌, ◌≡◌, refl, ap, ◌∙◌, ◌⊎◌, inl, inr, arith, ℕ_discrete,
  true, none, some, List, le→leb, ◌==◌, ==_eq, ==_ne, ok, bind, Outcome,
}
use cpp_nio_socket.Arena.{PoolHead}
use cpp_nio_socket.Chunk.{PoolChunk, value, run_offset, run_length, allocate_run, free_run}
use cpp_nio_socket.Chunk.Tree.{Buddy, free, taken, split, anc, anc-suc, Represents, Represents-best}
use cpp_nio_socket.Chunk.Replace.{put, IsTaken}
use cpp_nio_socket.Chunk.Fit.{first_fit}
use cpp_nio_socket.Chunk.Allocate.{IsChunk, in_map}
use cpp_nio_socket.Chunk.Release.{anc_root}
use cpp_nio_socket.Chunk.Runs.{Allocated, order_depth, allocate_run-cases}
use cpp_nio_socket.ChunkMemory.{
  ChunkMemory, Placement, memory_map_idx, bitmap_idx, init_buf, place, allocate, page_size,
  with_chunk, on_chunk,
}
use cpp_nio_socket.ChunkMemory

taken-value :
    (u : ℕ) (m : List ℕ) (h k id e j : ℕ) (t : Buddy)
    → Represents u m h k id t
    → IsTaken e id j t
    → anc e j ≡ id
    → value m j ≡ u
taken-value u m h k id zero j free r i e = absurd i
taken-value u m h k id zero j taken r i e = ap (value m) e ∙ Represents-best u m h k id taken r
taken-value u m h k id zero j (split a b) r i e = absurd i
taken-value u m h k id (suc e) j free r i q = absurd i
taken-value u m h k id (suc e) j taken r i q = absurd i
taken-value u m zero k id (suc e) j (split a b) r i q = absurd r
taken-value u m (suc h) k id (suc e) j (split a b) (v, r1, r2, c) i q =
    elim (ℕ_discrete (anc e j) (id * 2)) [
      | yes left ↦
          taken-value u m h (suc k) (id * 2) e j a r1 (rw (==_eq (anc e j) (id * 2) left) at i) left
      | no right ↦
          taken-value u m h (suc k) (id * 2 + 1) e j b r2 (rw (==_ne (anc e j) (id * 2) right) at i)
            (omega (arith, anc-suc e j, q, right))
    ]

abbrev pub run_at : ℕ → ℕ → ℕ → PoolChunk → Placement
run_at id order req_capacity c = record {
  handle = id;
  offset = run_offset c id;
  length = req_capacity;
  max_length = 2 ^ order;
}

module _ (id : ℕ) (node : id < 2 ^ 32) where
  handle_of_run : (memory_map_idx id ≡ id) × ((bitmap_idx id == 0) ≡ true)
  unfolding memory_map_idx bitmap_idx
  handle_of_run = (omega arith, ==_eq (id / 2 ^ 32) 0 (omega arith))

  init_buf_run :
      (order req_capacity : ℕ) (s : ChunkMemory)
      → value s.chunk.memory_map id ≡ s.chunk.unusable
      → run_length s.chunk id ≡ 2 ^ order
      → init_buf id req_capacity s ≡ (ok (run_at id order req_capacity s.chunk), s)
  unfolding init_buf
  init_buf_run order req_capacity s marked long =
      let (n, b) = handle_of_run in
      rw (b, n, ==_eq (value s.chunk.memory_map id) s.chunk.unusable marked, long) refl

module _ (this : ℕ) (head_at : PoolHead → ℕ) (fresh : ℕ) (words : List ℕ) where
  abbrev release_of : ℕ → ChunkMemory → Outcome (Unit {0}) × ChunkMemory
  release_of = ChunkMemory.free this head_at

  free_of_run :
      (id : ℕ) (s : ChunkMemory)
      → id < 2 ^ 32
      → release_of id s ≡ (ok tt, record s { chunk = free_run id s.chunk })
  unfolding ChunkMemory.free
  free_of_run id s node = let (n, b) = handle_of_run id node in rw (b, n) refl

  -- The leftmost run of `2 ^ order` bytes at depth `d`, placed, and what its release makes of it.
  abbrev pub PlacesRun : ChunkMemory → Buddy → ℕ → ℕ → ℕ → Type 0
  PlacesRun s t order d req_capacity =
      (id : ℕ) × (c : PoolChunk) × (s' : ChunkMemory) × (first_fit d 1 t ≡ some id)
      × (allocate this head_at fresh words req_capacity (2 ^ order) s
          ≡ (ok (some (run_at id order req_capacity c)), record s { chunk = c }))
      × IsChunk c (put d 1 id taken t)
      × (release_of id (record s { chunk = c }) ≡ (ok tt, s'))
      × IsChunk s'.chunk t
      × (s'.chunk.free_bytes ≡ s.chunk.free_bytes)
      × (s'.subpages ≡ s.subpages)
      × (s'.pages ≡ s.pages)

  allocate-run :
      (s : ChunkMemory) (order req_capacity : ℕ)
      → s.chunk.page_shifts ≤ order
      → allocate this head_at fresh words req_capacity (2 ^ order) s
        ≡ bind (with_chunk s (allocate_run (2 ^ order) s.chunk)) (place this head_at req_capacity)
  unfolding allocate
  allocate-run s order req_capacity le =
      let enough : page_size s.chunk ≤ 2 ^ order = pow-le-pow_right {n = 2} (omega arith) le in
      rw (le→leb (page_size s.chunk) (2 ^ order) enough) refl

  placed_run :
      (s : ChunkMemory) (t : Buddy) (order d req_capacity : ℕ)
      → s.chunk.page_shifts ≤ order
      → s.chunk.log2_chunk_size < 32
      → s.chunk.log2_chunk_size ≡ s.chunk.max_order + s.chunk.page_shifts
      → d ≤ s.chunk.max_order
      → Allocated s.chunk t order d
      → PlacesRun s t order d req_capacity
  placed_run s t order d req_capacity le small shifts deep a =
      let s1 : ChunkMemory = record s { chunk = a.chunk } in
      let node : a.node < 2 ^ 32 = omega (
        arith,
        in_map d a.node s.chunk.max_order deep a.at,
        pow-le-pow_right {n = 2} (omega arith) {i = s.chunk.max_order + 1} {j = 32} (omega arith),
      ) in
      let marked : value a.chunk.memory_map a.node ≡ a.chunk.unusable =
        taken-value a.chunk.unusable a.chunk.memory_map a.chunk.max_order 0 1 d a.node
          (put d 1 a.node taken t) a.valid.maps.tree a.held (anc_root d a.node a.at) in
      let (valid, same) = a.freeing in
      (
        a.node,
        a.chunk,
        record s1 { chunk = free_run a.node a.chunk },
        a.fits,
        allocate-run s order req_capacity le
            ∙ ap (λ r. bind (with_chunk s r) (place this head_at req_capacity)) a.returns
            ∙ ap (λ r. bind r (λ p s. (ok (some p), s)))
                (init_buf_run a.node node order req_capacity s1 marked a.long),
        a.valid,
        free_of_run a.node s1 node,
        valid,
        same,
        refl,
        refl,
      )

  -- On a chunk whose map stands for a tree of runs, whose depths are right and which counts the
  -- bytes of the free runs, allocate for 2 ^ order bytes, from the page size to the chunk size below
  -- 2 ^ 32, either finds that no run fits and returns false with nothing changed, or initializes the
  -- buffer, with no failing assertion, with the leftmost run that fits, at its offset and with its
  -- length, leaving a chunk that stands for the tree with that run taken; and free of the handle
  -- then ends normally with a chunk that stands for the tree as it was, with as many bytes free and
  -- the same subpages.
  pub allocate-free :
      (s : ChunkMemory) (t : Buddy) (order req_capacity : ℕ)
      → IsChunk s.chunk t
      → s.chunk.page_shifts ≤ order
      → order ≤ s.chunk.log2_chunk_size
      → s.chunk.log2_chunk_size < 32
      → let d = order_depth s.chunk order in
        ((first_fit d 1 t ≡ none)
          × (allocate this head_at fresh words req_capacity (2 ^ order) s ≡ (ok none, s)))
        ⊎ PlacesRun s t order d req_capacity
  allocate-free s t order req_capacity chunk le most small =
      elim (allocate_run-cases s.chunk t order chunk le most (omega arith)) [
        | inl (full, e) ↦ inl (
          full,
          allocate-run s order req_capacity le
              ∙ ap (λ r. bind (with_chunk s r) (place this head_at req_capacity)) e,
        )
        | inr a ↦ inr (
            placed_run s t order (order_depth s.chunk order) req_capacity le small chunk.shifts
              (omega arith) a)
      ]
