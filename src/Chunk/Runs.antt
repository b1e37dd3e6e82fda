-- ===== src/Chunk/Runs.antt =====
-- allocateRun and free of PoolChunk.cpp against the tree of runs.
use cpp_nio_socket.Common.{
  ℕ, ◌+◌, ◌-◌, ◌^◌, ◌≤◌, ◌<◌, ◌≡◌, refl, sym, ap, ◌∙◌, subst, ◌⊎◌, inl, inr, arith, none, some,
  List, ok,
}
use cpp_nio_socket.Chunk.{
  PoolChunk, after_node, allocate_node, allocate_run, free_run, run_length, depth,
}
use cpp_nio_socket.Chunk.Log2.{log2_pow}
use cpp_nio_socket.Chunk.Tree.{Buddy, free, taken}
use cpp_nio_socket.Chunk.Replace.{put, bytes, IsTaken}
use cpp_nio_socket.Chunk.Fit.{first_fit, AtDepth}
use cpp_nio_socket.Chunk.Allocate.{MapsTo, IsChunk, allocate_node-cases}
use cpp_nio_socket.Chunk.Release.{free_run_lem}

-- The depth of the runs of `2 ^ order` bytes.
abbrev pub order_depth : PoolChunk → ℕ → ℕ
order_depth c order = c.max_order - (order - c.page_shifts)

-- What allocateRun makes of a chunk, for `2 ^ order` bytes at depth `d`: the node of the leftmost run
-- that fits, which has that length, and a chunk that stands for the tree with it taken, has that much
-- less free, and is as before once the run is freed.
pub record Allocated (c : PoolChunk) (t : Buddy) (order d : ℕ) : Type 0 where
  pub node : ℕ
  pub chunk : PoolChunk
  pub fits : first_fit d 1 t ≡ some node
  pub at : AtDepth d node
  pub held : IsTaken d 1 node (put d 1 node taken t)
  pub returns : allocate_run (2 ^ order) c ≡ (ok (some node), chunk)
  pub same_order : chunk.max_order ≡ c.max_order
  pub valid : IsChunk chunk (put d 1 node taken t)
  pub long : run_length chunk node ≡ 2 ^ order
  pub less : chunk.free_bytes + 2 ^ order ≡ c.free_bytes
  pub freeing : IsChunk (free_run node chunk) t × ((free_run node chunk).free_bytes ≡ c.free_bytes)

abbrev pub AllocatesRun : PoolChunk → Buddy → ℕ → ℕ → Type 0
AllocatesRun c t order d =
    ((first_fit d 1 t ≡ none) × (allocate_run (2 ^ order) c ≡ (ok none, c))) ⊎ Allocated c t order d

allocate_run-eq :
    (order d : ℕ) (c : PoolChunk)
    → order < 32
    → order_depth c order ≡ d
    → allocate_run (2 ^ order) c ≡ after_node (allocate_node d c)
unfolding allocate_run
allocate_run-eq order d c few e =
    ap (λ k. after_node (allocate_node (c.max_order - (k - c.page_shifts)) c)) (log2_pow order few)
    ∙ ap (λ x. after_node (allocate_node x c)) e

run_of_depth :
    (c : PoolChunk) (j d order : ℕ)
    → depth c j ≡ d
    → c.log2_chunk_size ≡ order + d
    → run_length c j ≡ 2 ^ order
unfolding run_length
run_of_depth c j d order e level =
    let q : c.log2_chunk_size - d ≡ order = omega arith in rw (e, q) refl

module _ (c : PoolChunk) (t : Buddy) (order d : ℕ) (chunk : IsChunk c t)
    (level : c.log2_chunk_size ≡ order + d) (same : order_depth c order ≡ d)
    (deep : d ≤ c.max_order) (few : order < 32) where
  smaller : List ℕ → PoolChunk
  smaller m = record c { memory_map = m; free_bytes = c.free_bytes - 2 ^ order }

  chunk_counts :
      (j : ℕ)
      → bytes (order + d) (put d 1 j taken t) + 2 ^ order ≡ bytes (order + d) t
      → c.free_bytes - 2 ^ order + 2 ^ order ≡ c.free_bytes
  chunk_counts j counts =
      let total : c.free_bytes ≡ bytes (order + d) t = chunk.counted ∙ ap (λ x. bytes x t) level in
      omega arith

  smaller-IsChunk :
      (j : ℕ) (m : List ℕ)
      → MapsTo (record c { memory_map = m }) (put d 1 j taken t)
      → bytes (order + d) (put d 1 j taken t) + 2 ^ order ≡ bytes (order + d) t
      → IsChunk (smaller m) (put d 1 j taken t)
  unfolding smaller
  smaller-IsChunk j m maps counts =
      let total : c.free_bytes ≡ bytes (order + d) t = chunk.counted ∙ ap (λ x. bytes x t) level in
      let left : c.free_bytes - 2 ^ order ≡ bytes (order + d) (put d 1 j taken t) = omega arith in
      record {
        maps = record { tree = maps.tree; mark = maps.mark; allocated = maps.allocated };
        depths = chunk.depths;
        shifts = chunk.shifts;
        counted = left ∙ ap (λ x. bytes x (put d 1 j taken t)) (sym level);
      }

  after_node-Allocated :
      (j : ℕ) (m : List ℕ)
      → first_fit d 1 t ≡ some j
      → AtDepth d j
      → allocate_node d c ≡ (ok (some j), record c { memory_map = m })
      → MapsTo (record c { memory_map = m }) (put d 1 j taken t)
      → bytes (order + d) (put d 1 j taken t) + 2 ^ order ≡ bytes (order + d) t
      → IsTaken d 1 j (put d 1 j taken t)
      → put d 1 j free (put d 1 j taken t) ≡ t
      → Allocated c t order d
  unfolding smaller run_length
  after_node-Allocated j m fits at e maps counts is_taken back =
      let valid = smaller-IsChunk j m maps counts in
      let (again, bytes_again) =
        free_run_lem (smaller m) (put d 1 j taken t) d j valid deep at is_taken in
      let q : c.log2_chunk_size - d ≡ order = omega arith in
      let long = run_of_depth c j d order (chunk.depths d j deep at) level in
      record {
        node = j;
        chunk = smaller m;
        fits = fits;
        at = at;
        held = is_taken;
        returns =
            allocate_run-eq order d c few same
            ∙ ap after_node e
            ∙ ap (λ x. (ok (some j), record c { memory_map = m; free_bytes = c.free_bytes - x }))
                long;
        same_order = refl;
        valid = valid;
        long = long;
        less = chunk_counts j counts;
        freeing = (
          subst (IsChunk (free_run j (smaller m))) back again,
          bytes_again ∙ ap (λ x. c.free_bytes - 2 ^ order + 2 ^ x) q ∙ chunk_counts j counts,
        );
      }

-- On a chunk whose map stands for a tree of runs, whose depths are right and which counts the bytes
-- of the free runs, allocateRun for 2 ^ order bytes, from the page size to the chunk size and with
-- order below 32, refines the first fit on the tree: either no run fits and -1 is returned with the
-- chunk unchanged, or the node of the leftmost run that fits is returned, its length is 2 ^ order,
-- the chunk stands for the tree with that run taken and has 2 ^ order bytes less free, and freeing
-- the node gives a chunk that stands for the tree as it was, with as many bytes free.
pub allocate_run-cases :
    (c : PoolChunk) (t : Buddy) (order : ℕ)
    → IsChunk c t
    → c.page_shifts ≤ order
    → order ≤ c.log2_chunk_size
    → order < 32
    → AllocatesRun c t order (order_depth c order)
allocate_run-cases c t order chunk page most few =
    let d = order_depth c order in
    let deep : d ≤ c.max_order = omega arith in
    let level : c.log2_chunk_size ≡ order + d = omega (arith, chunk.shifts) in
    elim (allocate_node-cases d c t chunk.maps deep) [
      | inl (fits, e) ↦ inl (fits, allocate_run-eq order d c few refl ∙ ap after_node e)
      | inr (j, m, fits, at, e, maps, counts, is_taken, back) ↦ inr (
          after_node-Allocated c t order d chunk level refl deep few j m fits at e maps
            (counts order) is_taken back)
    ]
