-- ===== src/ThreadCache/Keeps.antt =====
-- What the regions of PoolThreadCache.cpp hold: a predicate of the capacity that every entry was
-- kept for and of the entry itself.
use cpp_nio_socket.Common.{
  ℕ, zero, suc, ◌+◌, ◌≤◌, ◌<◌, ◌≡◌, refl, ap, ◌∙◌, subst, arith, dec_le, ◌⊎◌, inl, inr, Option,
  none, some, List, [], ◌∷◌, ◌++◌, length, length-set, set, le→leb, lt→leb, ok, if_true, if_false,
}
use cpp_nio_socket.Arena.{SizeClass, tiny, small, normal, size_class}
use cpp_nio_socket.Arena.Classes.{IsNormal}
use cpp_nio_socket.ThreadCache.{
  Entry, MemoryRegionCache, Table, PoolThreadCache, table_of, set_table, cache, cache_index,
  entry_of, read_region, region_at,
}
use cpp_nio_socket.ThreadCache.Calls.{written, write_back}

-- How far a region is from being given back: anything, nothing allocated since a sweep, empty.
pub data Phase : Type 0 where
  active idle empty : Phase

abbrev pub InPhase : Phase → MemoryRegionCache → Type 0
InPhase active r = Unit {0}
InPhase idle r = r.allocations ≡ 0
InPhase empty r = (r.allocations ≡ 0) × (r.queue ≡ [])

pub by_class : (F : SizeClass → Type 0) → F tiny → F small → F normal → (k : SizeClass) → F k
by_class F t s n tiny = t
by_class F t s n small = s
by_class F t s n normal = n

module _ (p : ℕ) (P : ℕ → Entry → Type 0) where
  -- The entry was kept for a capacity that the `i`th region of the class `k` serves.
  abbrev pub Stored : SizeClass → ℕ → Entry → Type 0
  Stored k i e = (n : ℕ) × IsNormal n × (size_class p n ≡ k) × (cache_index k p n ≡ i) × P n e

  abbrev pub AllStored : SizeClass → ℕ → List Entry → Type 0
  AllStored k i [] = Unit {0}
  AllStored k i (e ∷ es) = Stored k i e × AllStored k i es

  pub record RegionKeeps (ph : Phase) (k : SizeClass) (i : ℕ) (r : MemoryRegionCache) : Type 0 where
    pub bounded : length r.queue ≤ r.size
    pub own_class : r.size_class ≡ k
    pub kept : AllStored k i r.queue
    pub phase : InPhase ph r

  abbrev pub AllKeep : Phase → SizeClass → ℕ → List MemoryRegionCache → Type 0
  AllKeep ph k i [] = Unit {0}
  AllKeep ph k i (r ∷ rs) = RegionKeeps ph k i r × AllKeep ph k (suc i) rs

  abbrev pub TableKeeps : Phase → SizeClass → Option (List MemoryRegionCache) → ℕ → Type 0
  TableKeeps ph k none count = Unit {0}
  TableKeeps ph k (some rs) count = (length rs ≡ count) × AllKeep ph k 0 rs

  -- A cache of pages of 2 ^ p bytes.
  pub record Keeps (ph : Phase) (c : PoolThreadCache) : Type 0 where
    pub shifts : c.num_shifts_normal_heap ≡ p
    pub tables : (k : SizeClass) → TableKeeps ph k (table_of k c).regions (table_of k c).count

  pub append-AllStored :
      (k : SizeClass) (i : ℕ) (es : List Entry) (e : Entry)
      → AllStored k i es
      → Stored k i e
      → AllStored k i (es ++ (e ∷ []))
  append-AllStored k i [] e all one = (one, tt)
  append-AllStored k i (x ∷ es) e all one = (all.0, append-AllStored k i es e all.1 one)

  read_region-RegionKeeps :
      (ph : Phase) (k : SizeClass) (i j : ℕ) (rs : List MemoryRegionCache)
      → AllKeep ph k i rs
      → j < length rs
      → (r : MemoryRegionCache) × (read_region rs j ≡ ok r) × RegionKeeps ph k (i + j) r
  read_region-RegionKeeps ph k i j [] all lt = absurd (omega arith)
  read_region-RegionKeeps ph k i zero (r ∷ rs) all lt =
      let e : i ≡ i + 0 = omega arith in (r, refl, subst (λ x. RegionKeeps ph k x r) e all.0)
  read_region-RegionKeeps ph k i (suc j) (r ∷ rs) all lt =
      let e : suc i + j ≡ i + suc j = omega arith in
      let (v, at, keeps) = read_region-RegionKeeps ph k (suc i) j rs all.1 (omega arith) in
      (v, at, subst (λ x. RegionKeeps ph k x v) e keeps)

  set-AllKeep :
      (ph : Phase) (k : SizeClass) (i j : ℕ) (rs : List MemoryRegionCache) (v : MemoryRegionCache)
      → AllKeep ph k i rs
      → RegionKeeps ph k (i + j) v
      → AllKeep ph k i (set rs j v)
  set-AllKeep ph k i j [] v all keeps = tt
  set-AllKeep ph k i zero (r ∷ rs) v all keeps =
      let e : i + 0 ≡ i = omega arith in (subst (λ x. RegionKeeps ph k x v) e keeps, all.1)
  set-AllKeep ph k i (suc j) (r ∷ rs) v all keeps =
      let e : i + suc j ≡ suc i + j = omega arith in
      (all.0, set-AllKeep ph k (suc i) j rs v all.1 (subst (λ x. RegionKeeps ph k x v) e keeps))

  -- The region that the cache finds for a capacity.
  pub record Finds (ph : Phase) (k : SizeClass) (n : ℕ) (c : PoolThreadCache) : Type 0 where
    pub region : MemoryRegionCache
    pub found : cache k n c ≡ some (cache_index k p n)
    pub at : region_at (table_of k c).regions (cache_index k p n) ≡ ok region
    pub keeps : RegionKeeps ph k (cache_index k p n) region

  pub cache-cases :
      (ph : Phase) (k : SizeClass) (n : ℕ) (c : PoolThreadCache)
      → Keeps ph c
      → (cache k n c ≡ none) ⊎ Finds ph k n c
  unfolding cache
  cache-cases ph k n c inv = of_table (table_of k c).regions refl (inv.tables k)
    where
      i : ℕ
      i = cache_index k c.num_shifts_normal_heap n

      of_table :
          (o : Option (List MemoryRegionCache))
          → (table_of k c).regions ≡ o
          → TableKeeps ph k o (table_of k c).count
          → (cache k n c ≡ none) ⊎ Finds ph k n c
      of_table none e held =
          inl
            (ap (λ o. entry_of o (table_of k c).count (cache_index k c.num_shifts_normal_heap n)) e)
      of_table (some rs) e held =
          let same : cache_index k c.num_shifts_normal_heap n ≡ cache_index k p n =
            ap (λ x. cache_index k x n) inv.shifts in
          let run : cache k n c ≡ entry_of (some rs) (table_of k c).count (cache_index k p n) =
            ap (λ o. entry_of o (table_of k c).count (cache_index k c.num_shifts_normal_heap n)) e
            ∙ ap (λ x. entry_of (some rs) (table_of k c).count x) same in
          elim (dec_le (table_of k c).count (cache_index k p n)) [
            | yes past ↦ inl (run ∙ if_true _ _ _ (le→leb _ _ past))
            | no below ↦
                let (r, at, keeps) =
                  read_region-RegionKeeps ph k 0 (cache_index k p n) rs held.1
                    (omega (arith, held.0)) in
                let z : 0 + cache_index k p n ≡ cache_index k p n = omega arith in
                inr record {
                  region = r;
                  found =
                      run
                      ∙ if_false _ _ _
                          (lt→leb (table_of k c).count (cache_index k p n) (omega arith));
                  at = ap (λ o. region_at o (cache_index k p n)) e ∙ at;
                  keeps = subst (λ x. RegionKeeps ph k x r) z keeps;
                }
          ]

  pub set_table-Keeps :
      (ph : Phase) (k : SizeClass) (t : Table) (c : PoolThreadCache)
      → Keeps ph c
      → TableKeeps ph k t.regions t.count
      → Keeps ph (set_table k t c)
  set_table-Keeps ph tiny t c inv held = record {
    shifts = inv.shifts;
    tables =
        by_class
          (λ k'.
            TableKeeps ph k' (table_of k' (set_table tiny t c)).regions
              (table_of k' (set_table tiny t c)).count)
          (held) (inv.tables small) (inv.tables normal);
  }
  set_table-Keeps ph small t c inv held = record {
    shifts = inv.shifts;
    tables =
        by_class
          (λ k'.
            TableKeeps ph k' (table_of k' (set_table small t c)).regions
              (table_of k' (set_table small t c)).count)
          (inv.tables tiny) (held) (inv.tables normal);
  }
  set_table-Keeps ph normal t c inv held = record {
    shifts = inv.shifts;
    tables =
        by_class
          (λ k'.
            TableKeeps ph k' (table_of k' (set_table normal t c)).regions
              (table_of k' (set_table normal t c)).count)
          (inv.tables tiny) (inv.tables small) (held);
  }

  pub write_back-Keeps :
      (ph : Phase) (k : SizeClass) (i : ℕ) (r : MemoryRegionCache) (c : PoolThreadCache)
      → Keeps ph c
      → RegionKeeps ph k i r
      → Keeps ph (write_back k i r c)
  write_back-Keeps ph k i r c inv keeps =
      set_table-Keeps ph k _ c inv (of_table (table_of k c).regions (inv.tables k))
    where
      of_table :
          (o : Option (List MemoryRegionCache))
          → TableKeeps ph k o (table_of k c).count
          → TableKeeps ph k (written i r o) (table_of k c).count
      of_table none held = tt
      of_table (some rs) held = (
        length-set rs i r ∙ held.0,
        set-AllKeep ph k 0 i rs r held.1 (subst (λ x. RegionKeeps ph k x r) (omega arith) keeps),
      )
