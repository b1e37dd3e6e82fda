-- ===== src/ChunkMemory.antt =====
-- PoolChunk.cpp and PoolChunk.hpp: allocate, free and initBuf of a chunk, over its runs (`Chunk`) and
-- the pages of it that are cut into elements (`Subpage`).
--
-- `this` is the address of the chunk and `head_at` the arena's table of heads, as addresses of pages.
-- A handle is a `long` that is not negative; `none` is a negative one. A node is less than 2 ^ 31, so
-- that the cast of a handle to `int` is its remainder. `memory` and the chunk's `offset`, which is 0 in
-- the pool, are not here: a placement is what `buf->init` is told.
pub mod Handles
pub mod Placing
pub mod RoundTrip
use cpp_nio_socket.Common.{
  ℕ, ◌+◌, ◌-◌, ◌*◌, ◌/◌, ◌%◌, ◌^◌, Bool, true, false, not, Option, none, some, List, [], ◌∷◌,
  length, get_or, set, ltb, leb, ◌==◌, if◌then◌else◌, Outcome, M, ok, err, bind, ◌>>=◌, ◌>>◌,
  return, read, update, throw, undefined, assertion_failed, endless,
}
use cpp_nio_socket.Arena.{PoolHead, find_subpage_pool_head}
use cpp_nio_socket.Chunk.{
  PoolChunk, value, run_length, run_offset, allocate_node, allocate_run, free_run,
}
use cpp_nio_socket.Subpage.{PoolSubpage, Pages, element_size}
use cpp_nio_socket.Subpage.Operations.{init, new_page}
use cpp_nio_socket.Subpage.Operations

pub record ChunkMemory : Type 0 where
  pub chunk : PoolChunk
  pub subpages : List (Option ℕ)
  pub pages : Pages

-- What `buf->init` gets: the handle, the offset in the chunk, the length, and the length there is.
pub record Placement : Type 0 where
  pub handle : ℕ
  pub offset : ℕ
  pub length : ℕ
  pub max_length : ℕ

abbrev pub page_size : PoolChunk → ℕ
page_size c = 2 ^ c.page_shifts

-- `memoryMapIdx ^ maxSubpageAllocs`: a page's node has that bit as its highest one.
abbrev pub subpage_idx : PoolChunk → ℕ → ℕ
subpage_idx c memory_map_idx = memory_map_idx - 2 ^ c.max_order

unfoldable pub memory_map_idx : ℕ → ℕ
memory_map_idx handle = handle % 2 ^ 32

unfoldable pub bitmap_idx : ℕ → ℕ
bitmap_idx handle = handle / 2 ^ 32

-- `bitmapIdx & 0x3FFFFFFF`
abbrev pub element_idx : ℕ → ℕ
element_idx bitmap_idx = bitmap_idx % 2 ^ 30

abbrev pub with_chunk : {A : Type 0} → ChunkMemory → Outcome A × PoolChunk → Outcome A × ChunkMemory
with_chunk s (r, c) = (r, record s { chunk = c })

abbrev pub on_chunk : {A : Type 0} → M PoolChunk A → M ChunkMemory A
on_chunk m s = with_chunk s (m s.chunk)

abbrev pub with_pages : {A : Type 0} → ChunkMemory → Outcome A × Pages → Outcome A × ChunkMemory
with_pages s (r, p) = (r, record s { pages = p })

abbrev pub on_pages : {A : Type 0} → M Pages A → M ChunkMemory A
on_pages m s = with_pages s (m s.pages)

-- `subpages[subpageIdx(id)]`
abbrev pub subpage_of : ℕ → M ChunkMemory (Option ℕ)
subpage_of id s =
    if leb (length s.subpages) (subpage_idx s.chunk id)
    then (err undefined, s)
    else (ok (get_or s.subpages (subpage_idx s.chunk id) none), s)

abbrev pub fits_size : ℕ → Option ℕ → Bool
fits_size req_capacity none = false
fits_size req_capacity (some size) = leb req_capacity size

abbrev pub size_or_zero : Option ℕ → ℕ
size_or_zero none = 0
size_or_zero (some n) = n

-- initBufWithSubpage, on the page at the address.
unfoldable pub place_element : ℕ → ℕ → PoolChunk → PoolSubpage → Outcome Placement
place_element handle req_capacity c p =
    if not p.do_not_destroy
    then err assertion_failed
    else if not (fits_size req_capacity (element_size p))
    then err assertion_failed
    else ok (record {
      handle = handle;
      offset =
          run_offset c (memory_map_idx handle)
          + element_idx (bitmap_idx handle) * size_or_zero (element_size p);
      length = req_capacity;
      max_length = size_or_zero (element_size p);
    })

abbrev pub place_on : ℕ → ℕ → Option ℕ → M ChunkMemory Placement
place_on handle req_capacity none s = (err undefined, s)
place_on handle req_capacity (some a) s = (place_element handle req_capacity s.chunk (s.pages a), s)

unfoldable pub init_buf_with_subpage : ℕ → ℕ → M ChunkMemory Placement
init_buf_with_subpage handle req_capacity s =
    if bitmap_idx handle == 0
    then (err assertion_failed, s)
    else (do a ← subpage_of (memory_map_idx handle); place_on handle req_capacity a) s

unfoldable pub init_buf : ℕ → ℕ → M ChunkMemory Placement
init_buf handle req_capacity s =
    let id = memory_map_idx handle in
    if not (bitmap_idx handle == 0)
    then init_buf_with_subpage handle req_capacity s
    else if not (value s.chunk.memory_map id == s.chunk.unusable)
    then (err assertion_failed, s)
    else (
      ok (record {
        handle = handle;
        offset = run_offset s.chunk id;
        length = req_capacity;
        max_length = run_length s.chunk id;
      }),
      s,
    )

module _ (this : ℕ) (head_at : PoolHead → ℕ) where
  abbrev pub spend_page : M ChunkMemory (Unit {0})
  spend_page = update λ s. record s {
    chunk = record s.chunk { free_bytes = s.chunk.free_bytes - page_size s.chunk };
  }

  -- The page of node `id`, new at the address `fresh` with the array `words`, or as it was left.
  abbrev pub prepare : ℕ → List ℕ → ℕ → ℕ → Option ℕ → M ChunkMemory ℕ
  prepare fresh words norm_capacity id none s =
      (do
        on_pages (
            new_page words (head_at (find_subpage_pool_head norm_capacity)) this id
              (run_offset s.chunk id) (page_size s.chunk) norm_capacity fresh)
        update (λ s. record s { subpages = set s.subpages (subpage_idx s.chunk id) (some fresh) })
        return fresh)
        s
  prepare fresh words norm_capacity id (some a) s =
      (do
        on_pages (init (head_at (find_subpage_pool_head norm_capacity)) norm_capacity a)
        return a)
        s

  abbrev pub cut_page : ℕ → List ℕ → ℕ → Option ℕ → M ChunkMemory (Option ℕ)
  cut_page fresh words norm_capacity none s = (ok none, s)
  cut_page fresh words norm_capacity (some id) s =
      (do
        spend_page
        found ← subpage_of id
        a ← prepare fresh words norm_capacity id found
        on_pages (Operations.allocate a))
        s

  unfoldable pub allocate_subpage : ℕ → List ℕ → ℕ → M ChunkMemory (Option ℕ)
  allocate_subpage fresh words norm_capacity s =
      (do id ← on_chunk (allocate_node s.chunk.max_order); cut_page fresh words norm_capacity id) s

  abbrev pub place : ℕ → Option ℕ → M ChunkMemory (Option Placement)
  place req_capacity none s = (ok none, s)
  place req_capacity (some handle) s =
      (do placement ← init_buf handle req_capacity; return (some placement)) s

  -- allocate(buf, reqCapacity, normCapacity); `none` is false.
  unfoldable pub allocate : ℕ → List ℕ → ℕ → ℕ → M ChunkMemory (Option Placement)
  allocate fresh words req_capacity norm_capacity s =
      (do
        handle ←
            if leb (page_size s.chunk) norm_capacity
            then on_chunk (allocate_run norm_capacity)
            else allocate_subpage fresh words norm_capacity
        place req_capacity handle)
        s

  abbrev pub release_run : ℕ → M ChunkMemory (Unit {0})
  release_run id = update λ s. record s { chunk = free_run id s.chunk }

  -- findSubpagePoolHead does not return for a size of -1.
  abbrev pub free_element : ℕ → ℕ → Option ℕ → M ChunkMemory Bool
  free_element a i none s = (err endless, s)
  free_element a i (some size) s =
      on_pages (Operations.free (head_at (find_subpage_pool_head size)) a i) s

  -- The branch of free for an element: true when the page goes on.
  abbrev pub free_on : ℕ → Option ℕ → M ChunkMemory Bool
  free_on i none s = (err assertion_failed, s)
  free_on i (some a) s =
      if not (s.pages a).do_not_destroy
      then (err assertion_failed, s)
      else free_element a i (element_size (s.pages a)) s

  unfoldable pub free : ℕ → M ChunkMemory (Unit {0})
  free handle s =
      if not (bitmap_idx handle == 0)
      then (do
        a ← subpage_of (memory_map_idx handle)
        kept ← free_on (element_idx (bitmap_idx handle)) a
        if kept then return tt else release_run (memory_map_idx handle))
          s
      else release_run (memory_map_idx handle) s
