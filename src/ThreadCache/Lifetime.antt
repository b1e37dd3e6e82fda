-- ===== src/ThreadCache/Lifetime.antt =====
-- The constructor of PoolThreadCache.cpp, and the destructor on what it makes.
use cpp_nio_socket.Common.{
  ℕ, zero, suc, ◌+◌, ◌/◌, ◌^◌, ◌≡◌, refl, ap, arith, min, max, Bool, true, false, ◌&&◌,
  if◌then◌else◌, ltb, Outcome, err, and_then, undefined, some, none, length,
}
use cpp_nio_socket.Arena.{
  SizeClass, tiny, small, normal, num_tiny_subpage_pools, num_small_subpage_pools,
}
use cpp_nio_socket.ThreadCache.{
  MemoryRegionCache, Table, Limits, new_regions, new_region, create_sub_page_caches,
  create_normal_caches, new_thread_cache, log2, table_of, Entry,
}
use cpp_nio_socket.ThreadCache.Lookup.{log2_power}
use cpp_nio_socket.ThreadCache.Keeps.{active, AllKeep, TableKeeps, Keeps, by_class}
use cpp_nio_socket.ThreadCache.Calls.{delete_table, destroy}

-- The destructor is undefined on every cache that the constructor makes: there are 32 tiny regions to
-- delete, or as many are counted and there is no array of them.
destroy_new :
    (page_shifts chunk_size : ℕ) (l : Limits)
    → destroy (new_thread_cache page_shifts chunk_size l) ≡ err undefined
unfolding destroy new_thread_cache create_sub_page_caches
destroy_new p chunk_size l =
    ap (λ o. and_then o λ _. and_then small_run λ _. normal_run)
      (tiny_run (ltb 0 l.tiny_size && ltb 0 num_tiny_subpage_pools))
  where
    small_run : Outcome (Unit {0})
    small_run =
        let t = (new_thread_cache p chunk_size l).small_sub_page_heap_caches in
        delete_table t.regions t.count

    normal_run : Outcome (Unit {0})
    normal_run =
        let t = (new_thread_cache p chunk_size l).normal_heap_caches in
        delete_table t.regions t.count

    tiny_run :
        (b : Bool)
        → let n = num_tiny_subpage_pools in
          let t : Table =
            if b
            then record { regions = some (new_regions n (new_region l.tiny_size tiny)); count = n }
            else record { regions = none; count = n } in
          delete_table t.regions t.count ≡ err undefined
    tiny_run true = refl
    tiny_run false = refl

length-new_regions : (n : ℕ) (r : MemoryRegionCache) → length (new_regions n r) ≡ n
length-new_regions zero r = refl
length-new_regions (suc n) r = ap suc (length-new_regions n r)

module _ (p : ℕ) (P : ℕ → Entry → Type 0) where
  new_regions-AllKeep :
      (n size i : ℕ) (k : SizeClass) → AllKeep p P active k i (new_regions n (new_region size k))
  new_regions-AllKeep zero size i k = tt
  new_regions-AllKeep (suc n) size i k = (
    record { bounded = omega arith; own_class = refl; kept = tt; phase = tt },
    new_regions-AllKeep n size (suc i) k,
  )

  made-TableKeeps :
      (b : Bool) (n count size : ℕ) (k : SizeClass)
      → let t : Table =
          if b
          then record { regions = some (new_regions n (new_region size k)); count = n }
          else record { regions = none; count = count } in
        TableKeeps p P active k t.regions t.count
  made-TableKeeps true n count size k =
      (length-new_regions n (new_region size k), new_regions-AllKeep n size 0 k)
  made-TableKeeps false n count size k = tt

  -- The constructor makes a cache that keeps nothing yet.
  pub new_thread_cache-Keeps :
      (chunk_size : ℕ) (l : Limits) → Keeps p P active (new_thread_cache p chunk_size l)
  unfolding new_thread_cache create_sub_page_caches create_normal_caches
  new_thread_cache-Keeps chunk_size l =
      let c = new_thread_cache p chunk_size l in
      let smalls = num_small_subpage_pools p in
      let normals = max 1 (log2 (min chunk_size l.max_capacity / 2 ^ p) + 1) in
      record {
        shifts = log2_power p;
        tables =
            by_class (λ k. TableKeeps p P active k (table_of k c).regions (table_of k c).count)
              (made-TableKeeps (ltb 0 l.tiny_size && ltb 0 num_tiny_subpage_pools)
                num_tiny_subpage_pools num_tiny_subpage_pools l.tiny_size tiny)
              (made-TableKeeps (ltb 0 l.small_size && ltb 0 smalls) smalls smalls l.small_size
                small)
              (made-TableKeeps (ltb 0 l.normal_size && ltb 0 l.max_capacity) normals 0 l.normal_size
                normal);
      }
