-- ===== src/ThreadCache.antt =====
-- PoolThreadCache.cpp and PoolThreadCache.hpp: the handles that a thread keeps to use them again, in a
-- queue for every capacity that requests are rounded to.
--
-- A chunk is its address. A queue is the list of its entries, which is what an ObjectQueue whose
-- pointers run through them holds. What the cache calls of the arena and of the chunks is an
-- interface: the state that a call leaves. The sizes are `int`s that are not negative, and the cache
-- has an arena. `maxCachedBufferCapacity` and the count of allocations stay below 2 ^ 31.
pub mod Calls
pub mod Lookup
pub mod Keeps
pub mod Held
pub mod Entries
pub mod Trim
pub mod Reuse
pub mod Lifetime
use cpp_nio_socket.Common.{
  ℕ, zero, suc, ◌+◌, ◌-◌, ◌/◌, ◌^◌, min, max, Bool, true, false, ◌&&◌, Option, none, some, List, [],
  ◌∷◌, ◌++◌, length, ltb, leb, if◌then◌else◌, Outcome, ok, err, and_then, undefined,
}
use cpp_nio_socket.Arena.{
  SizeClass, tiny, small, normal, num_tiny_subpage_pools, num_small_subpage_pools, tiny_idx,
  small_idx,
}

pub record Entry : Type 0 where
  pub chunk : ℕ
  pub handle : ℕ

pub record MemoryRegionCache : Type 0 where
  pub size : ℕ
  pub queue : List Entry
  pub size_class : SizeClass
  pub allocations : ℕ

-- The chunks' initBuf and initBufWithSubpage with the requested capacity, and the arena's freeChunk.
pub record ArenaOps (S : Type 0) : Type 0 where
  pub init_buf : Entry → ℕ → S → S
  pub init_buf_with_subpage : Entry → ℕ → S → S
  pub free_chunk : Entry → SizeClass → S → S

-- SubPageMemoryRegionCache and NormalMemoryRegionCache, which differ in initBuf.
abbrev pub new_region : ℕ → SizeClass → MemoryRegionCache
new_region size size_class = record {
  size = size;
  queue = [];
  size_class = size_class;
  allocations = 0;
}

unfoldable pub region_add : Entry → MemoryRegionCache → Bool × MemoryRegionCache
region_add e c =
    if leb c.size (length c.queue)
    then (false, c)
    else (true, record c { queue = c.queue ++ (e ∷ []) })

module _ {S : Type 0} (ops : ArenaOps S) where
  abbrev pub init_entry : SizeClass → Entry → ℕ → S → S
  init_entry normal = ops.init_buf
  init_entry tiny = ops.init_buf_with_subpage
  init_entry small = ops.init_buf_with_subpage

  -- What MemoryRegionCache::allocate does with what it takes from the queue.
  abbrev pub hand_out : List Entry → ℕ → MemoryRegionCache → S → Bool × MemoryRegionCache × S
  hand_out [] req_capacity c s = (false, c, s)
  hand_out (e ∷ es) req_capacity c s = (
    true,
    record c { queue = es; allocations = c.allocations + 1 },
    init_entry c.size_class e req_capacity s,
  )

  unfoldable pub region_allocate : ℕ → MemoryRegionCache → S → Bool × MemoryRegionCache × S
  region_allocate req_capacity c s = hand_out c.queue req_capacity c s

  -- The loop of free(max, finalizer): how many are freed, and the queue and the state left.
  abbrev pub free_entries : ℕ → SizeClass → List Entry → S → ℕ × List Entry × S
  free_entries zero size_class es s = (0, es, s)
  free_entries (suc max) size_class [] s = (0, [], s)
  free_entries (suc max) size_class (e ∷ es) s =
      let (n, es', s') = free_entries max size_class es (ops.free_chunk e size_class s) in
      (n + 1, es', s')

  unfoldable pub region_free : ℕ → MemoryRegionCache → S → ℕ × MemoryRegionCache × S
  region_free max c s =
      let (n, es, s') = free_entries max c.size_class c.queue s in (n, record c { queue = es }, s')

  unfoldable pub region_trim : MemoryRegionCache → S → MemoryRegionCache × S
  unfolding region_free
  region_trim c s =
      let c' = record c { allocations = 0 } in
      let (n, freed, s') = region_free (c.size - c.allocations) c' s in
      if ltb 0 (c.size - c.allocations) then (freed, s') else (c', s)

-- `while (val > 1)`, for which as many rounds as `val` are enough.
unfoldable pub count_halvings : ℕ → ℕ → ℕ → ℕ
count_halvings zero val res = res
count_halvings (suc fuel) val res =
    let rest = count_halvings fuel (val / 2) (res + 1) in if ltb 1 val then rest else res

unfoldable pub log2 : ℕ → ℕ
unfolding count_halvings
log2 val = count_halvings val val 0

-- An array of regions, which may be missing, and the field with its length.
pub record Table : Type 0 where
  pub regions : Option (List MemoryRegionCache)
  pub count : ℕ

pub record PoolThreadCache : Type 0 where
  pub num_shifts_normal_heap : ℕ
  pub tiny_sub_page_heap_caches : Table
  pub small_sub_page_heap_caches : Table
  pub normal_heap_caches : Table
  pub free_sweep_allocation_threshold : ℕ
  pub allocations : ℕ

abbrev pub new_regions : ℕ → MemoryRegionCache → List MemoryRegionCache
new_regions zero r = []
new_regions (suc n) r = r ∷ new_regions n r

-- createSubPageCaches, with the count that the constructor sets.
unfoldable pub create_sub_page_caches : ℕ → ℕ → SizeClass → Table
create_sub_page_caches cache_size num_caches size_class =
    if ltb 0 cache_size && ltb 0 num_caches
    then record {
      regions = some (new_regions num_caches (new_region cache_size size_class));
      count = num_caches;
    }
    else record { regions = none; count = num_caches }

unfoldable pub create_normal_caches : ℕ → ℕ → ℕ → ℕ → Table
unfolding log2
create_normal_caches cache_size max_capacity chunk_size page_size =
    let n = max 1 (log2 (min chunk_size max_capacity / page_size) + 1) in
    if ltb 0 cache_size && ltb 0 max_capacity
    then record { regions = some (new_regions n (new_region cache_size normal)); count = n }
    else record { regions = none; count = 0 }

-- The sizes of the caches, the largest capacity they keep and the threshold of the constructor.
pub record Limits : Type 0 where
  pub tiny_size : ℕ
  pub small_size : ℕ
  pub normal_size : ℕ
  pub max_capacity : ℕ
  pub threshold : ℕ

-- The constructor, for an arena with pages of 2 ^ page_shifts bytes.
unfoldable pub new_thread_cache : ℕ → ℕ → Limits → PoolThreadCache
unfolding log2 create_sub_page_caches create_normal_caches
new_thread_cache page_shifts chunk_size l = record {
  num_shifts_normal_heap = log2 (2 ^ page_shifts);
  tiny_sub_page_heap_caches = create_sub_page_caches l.tiny_size num_tiny_subpage_pools tiny;
  small_sub_page_heap_caches =
      create_sub_page_caches l.small_size (num_small_subpage_pools page_shifts) small;
  normal_heap_caches =
      create_normal_caches l.normal_size l.max_capacity chunk_size (2 ^ page_shifts);
  free_sweep_allocation_threshold = l.threshold;
  allocations = 0;
}

abbrev pub table_of : SizeClass → PoolThreadCache → Table
table_of tiny c = c.tiny_sub_page_heap_caches
table_of small c = c.small_sub_page_heap_caches
table_of normal c = c.normal_heap_caches

abbrev pub set_table : SizeClass → Table → PoolThreadCache → PoolThreadCache
set_table tiny t c = record c { tiny_sub_page_heap_caches = t }
set_table small t c = record c { small_sub_page_heap_caches = t }
set_table normal t c = record c { normal_heap_caches = t }

-- The index that cacheForTiny, cacheForSmall and cacheForNormal look up.
unfoldable pub cache_index : SizeClass → ℕ → ℕ → ℕ
unfolding tiny_idx small_idx log2
cache_index tiny shifts norm_capacity = tiny_idx norm_capacity
cache_index small shifts norm_capacity = small_idx norm_capacity
cache_index normal shifts norm_capacity = log2 (norm_capacity / 2 ^ shifts)

-- cache(cache, len, idx): the index of the region in its table, or the null pointer.
abbrev pub entry_of : Option (List MemoryRegionCache) → ℕ → ℕ → Option ℕ
entry_of none len idx = none
entry_of (some rs) len idx = if leb len idx then none else some idx

unfoldable pub cache : SizeClass → ℕ → PoolThreadCache → Option ℕ
unfolding cache_index
cache size_class norm_capacity c =
    let t = table_of size_class c in
    entry_of t.regions t.count (cache_index size_class c.num_shifts_normal_heap norm_capacity)

abbrev pub read_region : List MemoryRegionCache → ℕ → Outcome MemoryRegionCache
read_region [] i = err undefined
read_region (r ∷ rs) zero = ok r
read_region (r ∷ rs) (suc i) = read_region rs i

abbrev pub region_at : Option (List MemoryRegionCache) → ℕ → Outcome MemoryRegionCache
region_at none i = err undefined
region_at (some rs) i = read_region rs i
