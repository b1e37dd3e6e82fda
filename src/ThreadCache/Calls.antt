-- ===== src/ThreadCache/Calls.antt =====
-- PoolThreadCache.cpp: add, allocate, trim and the destructor of a whole cache.
use cpp_nio_socket.Common.{
  ℕ, zero, suc, ◌+◌, Bool, false, Option, none, some, List, [], ◌∷◌, leb, if◌then◌else◌, Outcome,
  ok, err, and_then, undefined, set,
}
use cpp_nio_socket.Arena.{SizeClass, tiny, small, normal}
use cpp_nio_socket.ThreadCache.{
  Entry, MemoryRegionCache, ArenaOps, PoolThreadCache, region_add, region_allocate, region_trim,
  table_of, set_table, cache, region_at,
}

abbrev pub written :
    ℕ → MemoryRegionCache → Option (List MemoryRegionCache) → Option (List MemoryRegionCache)
written i r none = none
written i r (some rs) = some (set rs i r)

-- The region behind a pointer, after a call has changed it.
abbrev pub write_back : SizeClass → ℕ → MemoryRegionCache → PoolThreadCache → PoolThreadCache
write_back k i r c =
    let t = table_of k c in set_table k (record t { regions = written i r t.regions }) c

abbrev pub add_at :
    SizeClass → Entry → PoolThreadCache → Option ℕ → Outcome (Bool × PoolThreadCache)
add_at k e c none = ok (false, c)
add_at k e c (some i) =
    and_then (region_at (table_of k c).regions i)
      λ r. ok ((region_add e r).0, write_back k i (region_add e r).1 c)

unfoldable pub add : SizeClass → ℕ → Entry → PoolThreadCache → Outcome (Bool × PoolThreadCache)
unfolding cache region_add
add size_class norm_capacity e c = add_at size_class e c (cache size_class norm_capacity c)

module _ {S : Type 0} (ops : ArenaOps S) where
  -- The loop of trim(caches, len).
  abbrev pub trim_regions : ℕ → List MemoryRegionCache → S → Outcome (List MemoryRegionCache × S)
  trim_regions zero rs s = ok (rs, s)
  trim_regions (suc len) [] s = err undefined
  trim_regions (suc len) (r ∷ rs) s =
      and_then (trim_regions len rs (region_trim ops r s).1)
        λ (rs', s'). ok ((region_trim ops r s).0 ∷ rs', s')

  abbrev pub trim_caches :
      Option (List MemoryRegionCache) → ℕ → S → Outcome (Option (List MemoryRegionCache) × S)
  trim_caches none len s = ok (none, s)
  trim_caches (some rs) len s = and_then (trim_regions len rs s) λ (rs', s'). ok (some rs', s')

  abbrev pub trim_table : SizeClass → PoolThreadCache → S → Outcome (PoolThreadCache × S)
  trim_table k c s =
      let t = table_of k c in
      and_then (trim_caches t.regions t.count s)
        λ (rs, s'). ok (set_table k (record t { regions = rs }) c, s')

  unfoldable pub trim : PoolThreadCache → S → Outcome (PoolThreadCache × S)
  unfolding region_trim
  trim c s =
      and_then (trim_table tiny c s)
        λ (c', s'). and_then (trim_table small c' s') λ (c'', s''). trim_table normal c'' s''

  -- The count of allocations, and the sweep when it reaches the threshold.
  abbrev pub after_allocation : Bool → PoolThreadCache → S → Outcome (Bool × PoolThreadCache × S)
  after_allocation allocated c s =
      if leb c.free_sweep_allocation_threshold (c.allocations + 1)
      then and_then (trim (record c { allocations = 0 }) s) (λ (c', s'). ok (allocated, c', s'))
      else ok (allocated, record c { allocations = c.allocations + 1 }, s)

  abbrev pub allocate_from :
      SizeClass → ℕ → PoolThreadCache → S → Option ℕ → Outcome (Bool × PoolThreadCache × S)
  allocate_from k req_capacity c s none = ok (false, c, s)
  allocate_from k req_capacity c s (some i) = and_then (region_at (table_of k c).regions i) λ r.
      let (allocated, r', s') = region_allocate ops req_capacity r s in
      after_allocation allocated (write_back k i r' c) s'

  -- allocateTiny, allocateSmall and allocateNormal.
  unfoldable pub allocate :
      SizeClass → ℕ → ℕ → PoolThreadCache → S → Outcome (Bool × PoolThreadCache × S)
  unfolding trim cache region_allocate
  allocate size_class req_capacity norm_capacity c s =
      allocate_from size_class req_capacity c s (cache size_class norm_capacity c)

-- The loop of the destructor over one table. `delete caches[i]` is undefined also where there is a
-- region: its class, which owns a queue, is incomplete in the header, and is a base of the object's
-- class without a virtual destructor.
abbrev pub delete_regions : ℕ → List MemoryRegionCache → Outcome (Unit {0})
delete_regions zero rs = ok tt
delete_regions (suc count) [] = err undefined
delete_regions (suc count) (r ∷ rs) = err undefined

abbrev pub delete_table : Option (List MemoryRegionCache) → ℕ → Outcome (Unit {0})
delete_table none zero = ok tt
delete_table none (suc count) = err undefined
delete_table (some rs) count = delete_regions count rs

unfoldable pub destroy : PoolThreadCache → Outcome (Unit {0})
destroy c =
    let tiny_table = c.tiny_sub_page_heap_caches in
    let small_table = c.small_sub_page_heap_caches in
    let normal_table = c.normal_heap_caches in
    and_then (delete_table tiny_table.regions tiny_table.count) λ _.
      and_then (delete_table small_table.regions small_table.count)
        λ _. delete_table normal_table.regions normal_table.count
