-- ===== src/ThreadCache/Trim.antt =====
-- trim of PoolThreadCache.cpp: what a sweep gives back to the arena.
use cpp_nio_socket.Common.{
  ℕ, zero, suc, Bool, ◌++◌, ◌-◌, ◌≤◌, ◌≡◌, refl, sym, ap, ◌∙◌, subst, arith, dec_lt, Option, none,
  some, List, [], ◌∷◌, length, drop, length-drop, drop-all, lt→ltb, le→ltb, Outcome, ok, and_then,
  if_true, if_false,
}
use cpp_nio_socket.Arena.{SizeClass, tiny, small, normal, size_class}
use cpp_nio_socket.ThreadCache.{
  Entry, MemoryRegionCache, ArenaOps, PoolThreadCache, free_entries, region_free, region_trim,
  Table, table_of, set_table,
}
use cpp_nio_socket.ThreadCache.Calls.{trim_regions, trim_caches, trim_table, trim}
use cpp_nio_socket.ThreadCache.Keeps.{
  Phase, active, idle, empty, InPhase, AllStored, RegionKeeps, AllKeep, TableKeeps, Keeps, by_class,
}
use cpp_nio_socket.ThreadCache.Held.{
  Held, tagged, held_regions, held_table, held, count, free_all, GivesBack, GivesBack-none,
  GivesBack-append, GivesBack-trans, free_entries-GivesBack, held_empty,
}

-- The phase after a sweep.
abbrev pub swept : Phase → Phase
swept active = idle
swept idle = empty
swept empty = empty

module _ {S : Type 0} (ops : ArenaOps S) (p : ℕ) (P : ℕ → Entry → Type 0) where
  -- The second state comes from the first by freeing entries, each kept for a capacity of the class
  -- that freeChunk is told.
  pub data Frees : S → S → Type 0 where
    nothing : {s : S} → Frees s s
    free_one :
        {s s' : S} (n : ℕ) (e : Entry)
        → P n e
        → Frees (ops.free_chunk e (size_class p n) s) s'
        → Frees s s'

  pub Frees-trans : {s s' s'' : S} → Frees s s' → Frees s' s'' → Frees s s''
  Frees-trans nothing after = after
  Frees-trans (free_one n e q rest) after = free_one n e q (Frees-trans rest after)

  drop-AllStored :
      (n : ℕ) (k : SizeClass) (i : ℕ) (es : List Entry)
      → AllStored p P k i es
      → AllStored p P k i (drop n es)
  drop-AllStored zero k i es all = all
  drop-AllStored (suc n) k i [] all = tt
  drop-AllStored (suc n) k i (e ∷ es) all = drop-AllStored n k i es all.1

  free_entries_queue :
      (max : ℕ) (k : SizeClass) (es : List Entry) (s : S)
      → (free_entries ops max k es s).1 ≡ drop max es
  free_entries_queue zero k es s = refl
  free_entries_queue (suc max) k [] s = refl
  free_entries_queue (suc max) k (e ∷ es) s = free_entries_queue max k es (ops.free_chunk e k s)

  free_entries-Frees :
      (max : ℕ) (k : SizeClass) (i : ℕ) (es : List Entry) (s : S)
      → AllStored p P k i es
      → Frees s (free_entries ops max k es s).2
  free_entries-Frees zero k i es s all = nothing
  free_entries-Frees (suc max) k i [] s all = nothing
  free_entries-Frees (suc max) k i (e ∷ es) s ((n, _, of_class, _, q), rest) = free_one n e q (
      subst
        (λ k'. Frees (ops.free_chunk e k' s) (free_entries ops max k es (ops.free_chunk e k s)).2)
        (sym of_class) (free_entries-Frees max k i es (ops.free_chunk e k s) rest))

  trimmed_phase :
      (ph : Phase) (r : MemoryRegionCache)
      → length r.queue ≤ r.size
      → InPhase ph r
      → InPhase
          (swept ph)
          (record r { allocations = 0; queue = drop (r.size - r.allocations) r.queue })
  trimmed_phase active r le at = refl
  trimmed_phase idle r le at = (refl, drop-all _ r.queue (omega arith))
  trimmed_phase empty r le at = (refl, drop-all _ r.queue (omega (arith, ap length at.1)))

  region_trim_result :
      (r : MemoryRegionCache) (s : S)
      → (region_trim ops r s).0
        ≡ record r { allocations = 0; queue = drop (r.size - r.allocations) r.queue }
  unfolding region_trim region_free
  region_trim_result r s = elim (dec_lt 0 (r.size - r.allocations)) [
    | yes more ↦
        ap {A = MemoryRegionCache × S} (λ x. x.0)
          (if_true _ _ _ (lt→ltb 0 (r.size - r.allocations) more))
        ∙ ap (λ q. record r { allocations = 0; queue = q })
            (free_entries_queue (r.size - r.allocations) r.size_class r.queue s)
    | no none_left ↦
        let z : r.size - r.allocations ≡ 0 = omega arith in
        ap {A = MemoryRegionCache × S} (λ x. x.0)
          (if_false _ _ _ (le→ltb 0 (r.size - r.allocations) (omega arith)))
        ∙ ap (λ n. record r { allocations = 0; queue = drop n r.queue }) (sym z)
  ]

  region_trim-Frees :
      (k : SizeClass) (i : ℕ) (r : MemoryRegionCache) (s : S)
      → r.size_class ≡ k
      → AllStored p P k i r.queue
      → Frees s (region_trim ops r s).1
  unfolding region_trim region_free
  region_trim-Frees k i r s own all =
      let all' = subst (λ k. AllStored p P k i r.queue) (sym own) all in
      elim (dec_lt 0 (r.size - r.allocations)) [
        | yes more ↦
            subst {A = MemoryRegionCache × S} (λ x. Frees s x.1)
              (sym (if_true _ _ _ (lt→ltb 0 (r.size - r.allocations) more)))
              (free_entries-Frees (r.size - r.allocations) r.size_class i r.queue s all')
        | no none_left ↦
            subst {A = MemoryRegionCache × S} (λ x. Frees s x.1)
              (sym (if_false _ _ _ (le→ltb 0 (r.size - r.allocations) (omega arith)))) nothing
      ]

  region_trim-RegionKeeps :
      (ph : Phase) (k : SizeClass) (i : ℕ) (r : MemoryRegionCache) (s : S)
      → RegionKeeps p P ph k i r
      → RegionKeeps p P (swept ph) k i (region_trim ops r s).0
  region_trim-RegionKeeps ph k i r s keeps =
      subst (RegionKeeps p P (swept ph) k i) (sym (region_trim_result r s)) record {
        bounded = omega (arith, keeps.bounded, length-drop (r.size - r.allocations) r.queue);
        own_class = keeps.own_class;
        kept = drop-AllStored (r.size - r.allocations) k i r.queue keeps.kept;
        phase = trimmed_phase ph r keeps.bounded keeps.phase;
      }

  region_trim-GivesBack :
      (r : MemoryRegionCache) (s : S)
      → GivesBack ops
          (tagged r.size_class r.queue)
          (tagged (region_trim ops r s).0.size_class (region_trim ops r s).0.queue)
          s
          (region_trim ops r s).1
  unfolding region_trim region_free
  region_trim-GivesBack r s =
      let max = r.size - r.allocations in
      let by = λ (x : MemoryRegionCache × S).
        GivesBack ops (tagged r.size_class r.queue) (tagged x.0.size_class x.0.queue) s x.1 in
      elim (dec_lt 0 max) [
        | yes more ↦
            subst {A = MemoryRegionCache × S} by (sym (if_true _ _ _ (lt→ltb 0 max more))) (
              subst
                (λ q.
                  GivesBack ops (tagged r.size_class r.queue) (tagged r.size_class q) s
                    (free_entries ops max r.size_class r.queue s).2)
                (sym (free_entries_queue max r.size_class r.queue s))
                (free_entries-GivesBack ops max r.size_class r.queue s))
        | no none_left ↦
            subst {A = MemoryRegionCache × S} by (sym (if_false _ _ _ (le→ltb 0 max (omega arith))))
              (GivesBack-none ops (tagged r.size_class r.queue) s)
      ]

  trim_regions-AllKeep :
      (ph : Phase) (k : SizeClass) (i : ℕ) (rs : List MemoryRegionCache) (s : S)
      → AllKeep p P ph k i rs
      → (rs' : List MemoryRegionCache) × (s' : S) × (trim_regions ops (length rs) rs s
          ≡ ok (rs', s'))
        × (length rs' ≡ length rs)
        × AllKeep p P (swept ph) k i rs'
        × Frees s s'
        × GivesBack ops (held_regions rs) (held_regions rs') s s'
  trim_regions-AllKeep ph k i [] s all = ([], s, refl, refl, tt, nothing, GivesBack-none ops [] s)
  trim_regions-AllKeep ph k i (r ∷ rs) s (keeps, all) =
      let (r', s1) = region_trim ops r s in
      let (rs', s', run, same, all', frees, back) = trim_regions-AllKeep ph k (suc i) rs s1 all in
      (
        r' ∷ rs',
        s',
        ap (λ o. and_then o λ (rs', s'). ok (r' ∷ rs', s')) run,
        ap suc same,
        (region_trim-RegionKeeps ph k i r s keeps, all'),
        Frees-trans (region_trim-Frees k i r s keeps.own_class keeps.kept) frees,
        GivesBack-append ops (tagged r.size_class r.queue) (tagged r'.size_class r'.queue)
            (held_regions rs) (held_regions rs') s s1 s' (region_trim-GivesBack r s) back,
      )

  trim_caches-TableKeeps :
      (ph : Phase) (k : SizeClass) (o : Option (List MemoryRegionCache)) (count : ℕ) (s : S)
      → TableKeeps p P ph k o count
      → (o' : Option (List MemoryRegionCache)) × (s' : S) × (trim_caches ops o count s
          ≡ ok (o', s'))
        × TableKeeps p P (swept ph) k o' count
        × Frees s s'
        × GivesBack ops (held_table o) (held_table o') s s'
  trim_caches-TableKeeps ph k none count s held =
      (none, s, refl, tt, nothing, GivesBack-none ops [] s)
  trim_caches-TableKeeps ph k (some rs) count s (sized, all) =
      let (rs', s', run, same, all', frees, back) = trim_regions-AllKeep ph k 0 rs s all in
      (
        some rs',
        s',
        ap (λ n. and_then (trim_regions ops n rs s) λ (rs', s'). ok (some rs', s')) (sym sized)
            ∙ ap (λ o. and_then o λ (rs', s'). ok (some rs', s')) run,
        (same ∙ sized, all'),
        frees,
        back,
      )

  trim_table-TableKeeps :
      (ph : Phase) (k : SizeClass) (c : PoolThreadCache) (s : S)
      → TableKeeps p P ph k (table_of k c).regions (table_of k c).count
      → (t : Table) × (s' : S) × (trim_table ops k c s ≡ ok (set_table k t c, s'))
        × TableKeeps p P (swept ph) k t.regions t.count
        × Frees s s'
        × GivesBack ops (held_table (table_of k c).regions) (held_table t.regions) s s'
  trim_table-TableKeeps ph k c s keeps =
      let t = table_of k c in
      let (o, s', run, keeps', frees, back) =
        trim_caches-TableKeeps ph k t.regions t.count s keeps in
      (
        record t { regions = o },
        s',
        ap (λ x. and_then x λ (rs, s'). ok (set_table k (record t { regions = rs }) c, s')) run,
        keeps',
        frees,
        back,
      )

  -- A sweep of a cache in one phase leaves it in the next one, and frees exactly what
  -- leaves the cache.
  abbrev pub Sweeps : Phase → PoolThreadCache → S → Outcome (PoolThreadCache × S) → Type 0
  Sweeps ph c s out =
      (c' : PoolThreadCache) × (s' : S) × (out ≡ ok (c', s'))
      × Keeps p P (swept ph) c'
      × Frees s s'
      × GivesBack ops (held c) (held c') s s'

  pub trim-Sweeps :
      (ph : Phase) (c : PoolThreadCache) (s : S) → Keeps p P ph c → Sweeps ph c s (trim ops c s)
  unfolding trim
  trim-Sweeps ph c s inv =
      let (t1, s1, run1, held1, frees1, back1) =
        trim_table-TableKeeps ph tiny c s (inv.tables tiny) in
      let c1 = set_table tiny t1 c in
      let (t2, s2, run2, held2, frees2, back2) =
        trim_table-TableKeeps ph small c1 s1 (inv.tables small) in
      let c2 = set_table small t2 c1 in
      let (t3, s3, run3, held3, frees3, back3) =
        trim_table-TableKeeps ph normal c2 s2 (inv.tables normal) in
      let c3 = set_table normal t3 c2 in
      (
        c3,
        s3,
        ap
              (λ o. and_then o λ (c', s').
                and_then (trim_table ops small c' s') λ (c'', s''). trim_table ops normal c'' s'')
              run1
            ∙ ap (λ o. and_then o λ (c'', s''). trim_table ops normal c'' s'') run2
            ∙ run3,
        record {
          shifts = inv.shifts;
          tables =
              by_class
                (λ k. TableKeeps p P (swept ph) k (table_of k c3).regions (table_of k c3).count)
                held1 held2 held3;
        },
        Frees-trans frees1 (Frees-trans frees2 frees3),
        GivesBack-append ops (held_table (table_of tiny c).regions) (held_table t1.regions)
            (held_table (table_of small c).regions ++ held_table (table_of normal c).regions)
            (held_table t2.regions ++ held_table t3.regions) s s1 s3 back1
            (GivesBack-append ops (held_table (table_of small c).regions) (held_table t2.regions)
              (held_table (table_of normal c).regions) (held_table t3.regions) s1 s2 s3 back2
              back3),
      )

  -- On a cache whose queues are within their sizes and hold only entries that were kept for a
  -- capacity that their region serves, each related by a given predicate to that capacity, two
  -- sweeps without an allocation between them return normally, leave every queue empty, and give
  -- every entry back: what they do to the arena is to free, one after the other, the entries that
  -- the cache held, each as often as it was held and with the class of its region, which is that of
  -- the capacity that it was kept for.
  pub trim-trim :
      (c : PoolThreadCache) (s : S)
      → Keeps p P active c
      → (c1 : PoolThreadCache) × (s1 : S) × (c2 : PoolThreadCache) × (s2 : S) × (trim ops c s
          ≡ ok (c1, s1))
        × (trim ops c1 s1 ≡ ok (c2, s2))
        × Keeps p P empty c2
        × Frees s s2
        × ((es : List Held) × (s2 ≡ free_all ops es s)
            × ((f : Held → Bool) → count f es ≡ count f (held c)))
  trim-trim c s inv =
      let (c1, s1, run1, inv1, frees1, back1) = trim-Sweeps active c s inv in
      let (c2, s2, run2, inv2, frees2, back2) = trim-Sweeps idle c1 s1 inv1 in
      let (es, state, same) =
        GivesBack-trans ops (held c) (held c1) (held c2) s s1 s2 back1 back2 in
      (
        c1,
        s1,
        c2,
        s2,
        run1,
        run2,
        inv2,
        Frees-trans frees1 frees2,
        (
          es,
          state,
          λ f.
              let none_left : count f (held c2) ≡ 0 = ap (count f) (held_empty p P c2 inv2) in
              omega (arith, same f, none_left),
        ),
      )
