-- ===== src/ThreadCache/Entries.antt =====
-- add and allocate of PoolThreadCache.cpp: a request gets back only what was kept for its capacity.
use cpp_nio_socket.Common.{
  ℕ, suc, ◌+◌, ◌≤◌, ◌≡◌, refl, sym, ap, ◌∙◌, subst, arith, dec_le, inl, inr, Bool, true, false,
  Option, none, some, List, [], ◌∷◌, length, length-append, le→leb, lt→leb, Outcome, ok, and_then,
  if_true, if_false,
}
use cpp_nio_socket.Arena.{SizeClass, tiny, small, normal, size_class}
use cpp_nio_socket.Arena.Classes.{IsNormal}
use cpp_nio_socket.ThreadCache.{
  Entry, MemoryRegionCache, ArenaOps, PoolThreadCache, region_add, region_allocate, hand_out,
  init_entry, cache_index, table_of,
}
use cpp_nio_socket.ThreadCache.Calls.{
  add, add_at, allocate, allocate_from, after_allocation, write_back,
}
use cpp_nio_socket.ThreadCache.Lookup.{cache_index-injective}
use cpp_nio_socket.ThreadCache.Keeps.{
  active, idle, Stored, AllStored, RegionKeeps, AllKeep, TableKeeps, Keeps, append-AllStored,
  by_class, cache-cases, write_back-Keeps,
}
use cpp_nio_socket.ThreadCache.Trim.{Frees, nothing, Frees-trans, trim-Sweeps}

module _ (p : ℕ) (P : ℕ → Entry → Type 0) where
  region_add-RegionKeeps :
      (k : SizeClass) (i : ℕ) (e : Entry) (r : MemoryRegionCache)
      → RegionKeeps p P active k i r
      → Stored p P k i e
      → RegionKeeps p P active k i (region_add e r).1
  unfolding region_add
  region_add-RegionKeeps k i e r keeps one = elim (dec_le r.size (length r.queue)) [
    | yes full ↦
        subst {A = Bool × MemoryRegionCache} (λ x. RegionKeeps p P active k i x.1)
          (sym (if_true _ _ _ (le→leb r.size (length r.queue) full))) keeps
    | no room ↦
        subst {A = Bool × MemoryRegionCache} (λ x. RegionKeeps p P active k i x.1)
          (sym (if_false _ _ _ (lt→leb r.size (length r.queue) (omega arith))))
          record {
            bounded = omega (arith, room, length-append r.queue (e ∷ []));
            own_class = keeps.own_class;
            kept = append-AllStored p P k i r.queue e keeps.kept one;
            phase = tt;
          }
  ]

  -- add of an entry for a capacity returns normally and leaves a cache that keeps what it should.
  pub add-Keeps :
      (n : ℕ) (e : Entry) (c : PoolThreadCache)
      → IsNormal n
      → P n e
      → Keeps p P active c
      → (added : Bool) × (c' : PoolThreadCache) × (add (size_class p n) n e c ≡ ok (added, c'))
        × Keeps p P active c'
  unfolding add
  add-Keeps n e c normed q inv = elim (cache-cases p P active (size_class p n) n c inv) [
    | inl missing ↦ (false, c, ap (add_at (size_class p n) e c) missing, inv)
    | inr finds ↦
        let k = size_class p n in
        let i = cache_index k p n in
        let r = finds.region in
        (
          (region_add e r).0,
          write_back k i (region_add e r).1 c,
          ap (add_at k e c) finds.found
              ∙ ap
                  (λ o.
                    and_then o λ r. ok ((region_add e r).0, write_back k i (region_add e r).1 c))
                  finds.at,
          write_back-Keeps p P active k i (region_add e r).1 c inv
              (region_add-RegionKeeps k i e r finds.keeps (n, normed, refl, refl, q)),
        )
  ]

module _ {S : Type 0} (ops : ArenaOps S) (p : ℕ) (P : ℕ → Entry → Type 0) where
  -- What an allocation of the capacity `n` did to the state besides freeing entries.
  abbrev pub HandsOut : ℕ → ℕ → S → Bool → S → Type 0
  HandsOut n req_capacity s false s' = Frees ops p P s s'
  HandsOut n req_capacity s true s' =
      (e : Entry) × P n e × Frees ops p P (init_entry ops (size_class p n) e req_capacity s) s'

  abbrev pub Allocates : ℕ → ℕ → S → Outcome (Bool × PoolThreadCache × S) → Type 0
  Allocates n req_capacity s out =
      (allocated : Bool) × (c' : PoolThreadCache) × (s' : S) × (out ≡ ok (allocated, c', s'))
      × Keeps p P active c'
      × HandsOut n req_capacity s allocated s'

  HandsOut-Frees :
      (n req_capacity : ℕ) (s : S) (b : Bool) (s' s'' : S)
      → HandsOut n req_capacity s b s'
      → Frees ops p P s' s''
      → HandsOut n req_capacity s b s''
  HandsOut-Frees n req s false s' s'' before after = Frees-trans ops p P before after
  HandsOut-Frees n req s true s' s'' (e, q, before) after = (e, q, Frees-trans ops p P before after)

  after_allocation-Allocates :
      (n req_capacity : ℕ) (s : S) (b : Bool) (c : PoolThreadCache) (s' : S)
      → Keeps p P active c
      → HandsOut n req_capacity s b s'
      → Allocates n req_capacity s (after_allocation ops b c s')
  after_allocation-Allocates n req s b c s' inv handed =
      elim (dec_le c.free_sweep_allocation_threshold (c.allocations + 1)) [
        | yes due ↦
            let reset = record c { allocations = 0 } in
            let reset_inv : Keeps p P active reset = counted 0 c inv in
            let (c', s'', run, inv', frees, _) = trim-Sweeps ops p P active reset s' reset_inv in
            (
              b,
              c',
              s'',
              if_true _ _ _ (le→leb c.free_sweep_allocation_threshold (c.allocations + 1) due)
                  ∙ ap (λ o. and_then o λ (c', s'). ok (b, c', s')) run,
              idle-active c' inv',
              HandsOut-Frees n req s b s' s'' handed frees,
            )
        | no early ↦ (
          b,
          record c { allocations = c.allocations + 1 },
          s',
          if_false _ _ _
              (lt→leb c.free_sweep_allocation_threshold (c.allocations + 1) (omega arith)),
          counted (c.allocations + 1) c inv,
          handed,
        )
      ]
    where
      counted :
          (m : ℕ) (c : PoolThreadCache)
          → Keeps p P active c
          → Keeps p P active (record c { allocations = m })
      counted m c inv = record {
        shifts = inv.shifts;
        tables =
            by_class
              (λ k.
                TableKeeps p P active k (table_of k (record c { allocations = m })).regions
                  (table_of k (record c { allocations = m })).count)
              (inv.tables tiny) (inv.tables small) (inv.tables normal);
      }

      regions_active :
          (k : SizeClass) (i : ℕ) (rs : List MemoryRegionCache)
          → AllKeep p P idle k i rs
          → AllKeep p P active k i rs
      regions_active k i [] all = tt
      regions_active k i (r ∷ rs) (keeps, all) = (
        record {
          bounded = keeps.bounded;
          own_class = keeps.own_class;
          kept = keeps.kept;
          phase = tt;
        },
        regions_active k (suc i) rs all,
      )

      table_active :
          (k : SizeClass) (o : Option (List MemoryRegionCache)) (count : ℕ)
          → TableKeeps p P idle k o count
          → TableKeeps p P active k o count
      table_active k none count held = tt
      table_active k (some rs) count (sized, all) = (sized, regions_active k 0 rs all)

      idle-active : (c : PoolThreadCache) → Keeps p P idle c → Keeps p P active c
      idle-active c inv = record {
        shifts = inv.shifts;
        tables = λ k. table_active k (table_of k c).regions (table_of k c).count (inv.tables k);
      }

  -- What a region hands out for `n` was kept for `n`.
  served :
      (n n' : ℕ) (e : Entry)
      → 9 ≤ p
      → IsNormal n
      → Stored p P (size_class p n) (cache_index (size_class p n) p n) e
      → P n e
  served n _ e le normed (n', normed', same_class, same_index, q) =
      subst (λ x. P x e)
        (cache_index-injective p n' n (size_class p n) (cache_index (size_class p n) p n) le normed'
          normed same_class refl same_index refl)
        q

  hand_out-RegionKeeps :
      (n req_capacity : ℕ) (es : List Entry) (r : MemoryRegionCache) (s : S)
      → 9 ≤ p
      → IsNormal n
      → r.queue ≡ es
      → RegionKeeps p P active (size_class p n) (cache_index (size_class p n) p n) r
      → RegionKeeps p P active
          (size_class p n)
          (cache_index (size_class p n) p n)
          (hand_out ops es req_capacity r s).1
        × HandsOut n req_capacity s
            (hand_out ops es req_capacity r s).0
            (hand_out ops es req_capacity r s).2
  hand_out-RegionKeeps n req [] r s le normed at keeps = (keeps, nothing)
  hand_out-RegionKeeps n req (e ∷ es) r s le normed at keeps =
      let k = size_class p n in
      let (one, rest) = subst (AllStored p P k (cache_index k p n)) at keeps.kept in
      (
        record {
          bounded = omega (arith, keeps.bounded, ap length at);
          own_class = keeps.own_class;
          kept = rest;
          phase = tt;
        },
        (
          e,
          served n n e le normed one,
          subst
              (λ k'.
                Frees ops p P (init_entry ops k' e req s) (init_entry ops r.size_class e req s))
              keeps.own_class nothing,
        ),
      )

  -- For pages of 2 ^ p bytes, p at least 9, a capacity that requests are rounded to, and a cache
  -- whose queues are within their sizes and hold only entries that were kept for a capacity that
  -- their region serves, each related by a given predicate to that capacity: allocate returns
  -- normally and leaves such a cache. If it succeeds, it handed to the buffer an entry that the
  -- predicate relates to the requested capacity, through the init of that capacity's class; apart
  -- from that, whether it succeeds or not, it only freed entries, each kept for a capacity of the
  -- class that freeChunk is told.
  pub allocate-Allocates :
      (n req_capacity : ℕ) (c : PoolThreadCache) (s : S)
      → 9 ≤ p
      → IsNormal n
      → Keeps p P active c
      → Allocates n req_capacity s (allocate ops (size_class p n) req_capacity n c s)
  unfolding allocate region_allocate
  allocate-Allocates n req c s le normed inv =
      let k = size_class p n in
      elim (cache-cases p P active k n c inv) [
        | inl missing ↦ (false, c, s, ap (allocate_from ops k req c s) missing, inv, nothing)
        | inr finds ↦
            let i = cache_index k p n in
            let r = finds.region in
            let (b, r', s') = hand_out ops r.queue req r s in
            let (keeps, handed) =
              hand_out-RegionKeeps n req r.queue r s le normed refl finds.keeps in
            let next = write_back k i r' c in
            let (b', c', s'', run, inv', handed') =
              after_allocation-Allocates n req s b next s'
                (write_back-Keeps p P active k i r' c inv keeps) handed in
            (
              b',
              c',
              s'',
              ap (allocate_from ops k req c s) finds.found
                  ∙ ap
                      (λ o. and_then o λ r.
                        let (b, r', s') = region_allocate ops req r s in
                        after_allocation ops b (write_back k i r' c) s')
                      finds.at
                  ∙ run,
              inv',
              handed',
            )
      ]
