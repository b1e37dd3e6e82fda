-- ===== src/Tests/ThreadCache.antt =====
-- A cache that keeps two pages of 8192 bytes and sweeps at every allocation, and an empty one. The
-- state of the arena is the log of the handles: 1 before one that is handed out, 0 before a freed one.
use cpp_nio_socket.Common.{ℕ, ◌≡◌, refl, arith, none, some, true, List, [], ◌∷◌, ok, Bool}
use cpp_nio_socket.Arena.{normal, size_class, is_tiny, is_tiny_or_small}
use cpp_nio_socket.Arena.Classes.{IsNormal, power}
use cpp_nio_socket.ThreadCache.{
  Entry, MemoryRegionCache, ArenaOps, PoolThreadCache, cache, cache_index, log2, count_halvings,
  table_of, region_allocate, region_trim, region_free,
}
use cpp_nio_socket.ThreadCache.Calls.{add, allocate, trim, after_allocation, write_back}
use cpp_nio_socket.ThreadCache.Keeps.{Keeps, TableKeeps, active, empty, by_class}
use cpp_nio_socket.ThreadCache.Held.{Held, held, count, free_all}
use cpp_nio_socket.ThreadCache.Trim.{Frees, trim-trim}
use cpp_nio_socket.ThreadCache.Entries.{Allocates, allocate-Allocates}
use cpp_nio_socket.ThreadCache.Reuse.{allocate-add}

abbrev logged : ArenaOps (List ℕ)
logged = record {
  init_buf = λ e n s. 1 ∷ e.handle ∷ s;
  init_buf_with_subpage = λ e n s. 1 ∷ e.handle ∷ s;
  free_chunk = λ e k s. 0 ∷ e.handle ∷ s;
}

abbrev page_region : List Entry → MemoryRegionCache
page_region es = record { size = 2; queue = es; size_class = normal; allocations = 0 }

abbrev page_cache : List Entry → PoolThreadCache
page_cache es = record {
  num_shifts_normal_heap = 13;
  tiny_sub_page_heap_caches = record { regions = none; count = 0 };
  small_sub_page_heap_caches = record { regions = none; count = 0 };
  normal_heap_caches = record { regions = some (page_region es ∷ []); count = 1 };
  free_sweep_allocation_threshold = 1;
  allocations = 0;
}

abbrev first_page : Entry
first_page = record { chunk = 7; handle = 2048 }

abbrev second_page : Entry
second_page = record { chunk = 7; handle = 2049 }

abbrev two_pages : PoolThreadCache
two_pages = page_cache (first_page ∷ second_page ∷ [])

abbrev OfPage : ℕ → Entry → Type 0
OfPage n e = (n ≡ 8192) × (e.chunk ≡ 7)

page_class : size_class 13 8192 ≡ normal
unfolding size_class is_tiny_or_small is_tiny
page_class = refl

page_index : cache_index normal 13 8192 ≡ 0
unfolding cache_index log2 count_halvings
page_index = refl

page_IsNormal : IsNormal 8192
page_IsNormal = power 13 (omega arith) refl

two_pages-Keeps : Keeps 13 OfPage active two_pages
two_pages-Keeps = record {
  shifts = refl;
  tables =
      by_class
        (λ k.
          TableKeeps 13 OfPage active k (table_of k two_pages).regions (table_of k two_pages).count)
        tt tt
        (
          refl,
          (
            record {
              bounded = omega arith;
              own_class = refl;
              kept = (
                (8192, page_IsNormal, page_class, page_index, (refl, refl)),
                ((8192, page_IsNormal, page_class, page_index, (refl, refl)), tt),
              );
              phase = tt;
            },
            tt,
          ),
        );
}

allocate-Allocates_example :
    Allocates logged 13 OfPage 8192 8000 []
      (allocate logged (size_class 13 8192) 8000 8192 two_pages [])
allocate-Allocates_example =
    allocate-Allocates logged 13 OfPage 8192 8000 two_pages [] (omega arith) page_IsNormal
      two_pages-Keeps

-- The first page is handed out and the sweep frees the second one.
two_pages_log :
    (c : PoolThreadCache) × (allocate logged normal 8000 8192 two_pages []
      ≡ ok (true, c, 0 ∷ 2049 ∷ 1 ∷ 2048 ∷ []))
unfolding allocate cache cache_index log2 count_halvings region_allocate trim region_trim
    region_free
two_pages_log = (_, refl)

trim-trim_example :
    (c1 : PoolThreadCache) × (s1 : List ℕ) × (c2 : PoolThreadCache) × (s2 : List ℕ) × (trim logged
        two_pages []
      ≡ ok (c1, s1))
    × (trim logged c1 s1 ≡ ok (c2, s2))
    × Keeps 13 OfPage empty c2
    × Frees logged 13 OfPage [] s2
    × ((es : List Held) × (s2 ≡ free_all logged es [])
        × ((f : Held → Bool) → count f es ≡ count f (held two_pages)))
trim-trim_example = trim-trim logged 13 OfPage two_pages [] two_pages-Keeps

page_found : cache normal 8192 (page_cache []) ≡ some 0
unfolding cache cache_index log2 count_halvings
page_found = refl

allocate-add_example :
    (c' : PoolThreadCache) × (add normal 8192 first_page (page_cache []) ≡ ok (true, c'))
    × (allocate logged normal 8000 8192 c' []
        ≡ after_allocation logged true
            (write_back normal 0
              (record (page_region []) { allocations = 1; queue = [] })
              (page_cache []))
            (1 ∷ 2048 ∷ []))
allocate-add_example =
    allocate-add logged normal 8192 8000 0 first_page (page_region []) (page_cache []) [] page_found
      refl refl (omega arith)
