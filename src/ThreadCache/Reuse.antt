-- ===== src/ThreadCache/Reuse.antt =====
-- PoolThreadCache.cpp: an entry that is kept and asked for again.
use cpp_nio_socket.Common.{
  ℕ, zero, suc, ◌+◌, ◌<◌, ◌≡◌, refl, ap, ◌∙◌, arith, true, Option, none, some, List, [], ◌∷◌, ◌++◌,
  length, set, lt→leb, ok, and_then, if_false,
}
use cpp_nio_socket.Arena.{SizeClass, tiny, small, normal}
use cpp_nio_socket.ThreadCache.{
  Entry, MemoryRegionCache, ArenaOps, Table, PoolThreadCache, region_add, region_allocate,
  init_entry, cache, cache_index, entry_of, read_region, region_at, table_of, set_table,
}
use cpp_nio_socket.ThreadCache.Calls.{
  add, add_at, allocate, allocate_from, after_allocation, written, write_back,
}

table_of-set_table :
    (k : SizeClass) (t : Table) (c : PoolThreadCache) → table_of k (set_table k t c) ≡ t
table_of-set_table tiny t c = refl
table_of-set_table small t c = refl
table_of-set_table normal t c = refl

set_table-set_table :
    (k : SizeClass) (t t' : Table) (c : PoolThreadCache)
    → set_table k t (set_table k t' c) ≡ set_table k t c
set_table-set_table tiny t t' c = refl
set_table-set_table small t t' c = refl
set_table-set_table normal t t' c = refl

shifts_set_table :
    (k : SizeClass) (t : Table) (c : PoolThreadCache)
    → (set_table k t c).num_shifts_normal_heap ≡ c.num_shifts_normal_heap
shifts_set_table tiny t c = refl
shifts_set_table small t c = refl
shifts_set_table normal t c = refl

read_region-set :
    (rs : List MemoryRegionCache) (i : ℕ) (r v : MemoryRegionCache)
    → read_region rs i ≡ ok r
    → read_region (set rs i v) i ≡ ok v
read_region-set [] i r v e = absurd cc
read_region-set (x ∷ rs) zero r v e = refl
read_region-set (x ∷ rs) (suc i) r v e = read_region-set rs i r v e

region_at-written :
    (o : Option (List MemoryRegionCache)) (i : ℕ) (r v : MemoryRegionCache)
    → region_at o i ≡ ok r
    → region_at (written i v o) i ≡ ok v
region_at-written none i r v e = absurd cc
region_at-written (some rs) i r v e = read_region-set rs i r v e

entry_of-written :
    (o : Option (List MemoryRegionCache)) (i : ℕ) (v : MemoryRegionCache) (len j : ℕ)
    → entry_of (written i v o) len j ≡ entry_of o len j
entry_of-written none i v len j = refl
entry_of-written (some rs) i v len j = refl

cache-write_back :
    (k : SizeClass) (i n : ℕ) (v : MemoryRegionCache) (c : PoolThreadCache)
    → cache k n (write_back k i v c) ≡ cache k n c
unfolding cache
cache-write_back k i n v c =
    let t = table_of k c in
    let t' = record t { regions = written i v t.regions } in
    let index = cache_index k c.num_shifts_normal_heap n in
    ap (λ t. entry_of t.regions t.count (cache_index k (set_table k t' c).num_shifts_normal_heap n))
      (table_of-set_table k t' c)
    ∙ ap (λ x. entry_of t'.regions t'.count (cache_index k x n)) (shifts_set_table k t' c)
    ∙ entry_of-written t.regions i v t.count index

set-set :
    (rs : List MemoryRegionCache) (i : ℕ) (v w : MemoryRegionCache)
    → set (set rs i v) i w ≡ set rs i w
set-set [] i v w = refl
set-set (x ∷ rs) zero v w = refl
set-set (x ∷ rs) (suc i) v w = ap (◌∷◌ x) (set-set rs i v w)

written-written :
    (o : Option (List MemoryRegionCache)) (i : ℕ) (v w : MemoryRegionCache)
    → written i w (written i v o) ≡ written i w o
written-written none i v w = refl
written-written (some rs) i v w = ap some (set-set rs i v w)

write_back-write_back :
    (k : SizeClass) (i : ℕ) (v w : MemoryRegionCache) (c : PoolThreadCache)
    → write_back k i w (write_back k i v c) ≡ write_back k i w c
write_back-write_back k i v w c =
    let t = table_of k c in
    let t' = record t { regions = written i v t.regions } in
    ap (λ t. set_table k (record t { regions = written i w t.regions }) (set_table k t' c))
      (table_of-set_table k t' c)
    ∙ set_table-set_table k _ t' c
    ∙ ap (λ o. set_table k (record t { regions = o }) c) (written-written t.regions i v w)

-- Where a capacity's region is found and is empty, with room for an entry: add keeps an entry there
-- and returns true, and an allocation of the same class and capacity on the cache that this leaves
-- is a successful one, which inits the buffer with that entry and leaves the cache as it was before
-- add but for one more allocation of the region, before the count of all allocations and the sweep.
pub allocate-add :
    {S : Type 0} (ops : ArenaOps S) (k : SizeClass) (n req_capacity i : ℕ) (e : Entry)
    (r : MemoryRegionCache) (c : PoolThreadCache) (s : S)
    → cache k n c ≡ some i
    → region_at (table_of k c).regions i ≡ ok r
    → r.queue ≡ []
    → 0 < r.size
    → (c' : PoolThreadCache) × (add k n e c ≡ ok (true, c'))
      × (allocate ops k req_capacity n c' s
          ≡ after_allocation ops true
              (write_back k i (record r { allocations = r.allocations + 1; queue = [] }) c)
              (init_entry ops r.size_class e req_capacity s))
unfolding add allocate region_add region_allocate
allocate-add ops k n req i e r c s found at none_kept room =
    let kept = record r { queue = e ∷ [] } in
    let after = record r { allocations = r.allocations + 1; queue = [] } in
    let c' = write_back k i kept c in
    let added : region_add e r ≡ (true, kept) =
      if_false _ _ _ (lt→leb r.size (length r.queue) (omega (arith, ap length none_kept)))
      ∙ ap (λ q. (true, record r { queue = q ++ (e ∷ []) })) none_kept in
    let at' : region_at (table_of k c').regions i ≡ ok kept =
      ap (λ t. region_at t.regions i) (table_of-set_table k _ c)
      ∙ region_at-written (table_of k c).regions i r kept at in
    (
      c',
      ap (add_at k e c) found
          ∙ ap (λ o. and_then o λ r. ok ((region_add e r).0, write_back k i (region_add e r).1 c))
              at
          ∙ ap (λ x. ok (x.0, write_back k i x.1 c)) added,
      ap (allocate_from ops k req c' s) (cache-write_back k i n kept c ∙ found)
          ∙ ap
              (λ o. and_then o λ r.
                let (b, r', s') = region_allocate ops req r s in
                after_allocation ops b (write_back k i r' c') s')
              at'
          ∙ ap (λ x. after_allocation ops true x (init_entry ops r.size_class e req s))
              (write_back-write_back k i kept after c),
    )
