-- ===== src/ThreadCache/Held.antt =====
-- The entries that a PoolThreadCache holds, and what freeing some of them does to the arena.
use cpp_nio_socket.Common.{
  ℕ, zero, suc, ◌+◌, ◌≡◌, refl, sym, ap, ◌∙◌, arith, Bool, true, false, Option, none, some, List,
  [], ◌∷◌, ◌++◌, take, drop, take-append-drop, if◌then◌else◌,
}
use cpp_nio_socket.Arena.{SizeClass, tiny, small, normal}
use cpp_nio_socket.ThreadCache.{
  Entry, MemoryRegionCache, ArenaOps, PoolThreadCache, table_of, free_entries,
}
use cpp_nio_socket.ThreadCache.Keeps.{empty, AllKeep, TableKeeps, Keeps}

-- An entry with the class of its region.
abbrev pub Held : Type 0
Held = SizeClass × Entry

abbrev pub tagged : SizeClass → List Entry → List Held
tagged k [] = []
tagged k (e ∷ es) = (k, e) ∷ tagged k es

abbrev pub held_regions : List MemoryRegionCache → List Held
held_regions [] = []
held_regions (r ∷ rs) = tagged r.size_class r.queue ++ held_regions rs

abbrev pub held_table : Option (List MemoryRegionCache) → List Held
held_table none = []
held_table (some rs) = held_regions rs

abbrev pub held : PoolThreadCache → List Held
held c =
    held_table (table_of tiny c).regions
    ++ (held_table (table_of small c).regions ++ held_table (table_of normal c).regions)

-- How many of the entries pass a test.
abbrev pub count : (Held → Bool) → List Held → ℕ
count f [] = 0
count f (x ∷ xs) = if f x then suc (count f xs) else count f xs

pub count-append :
    (f : Held → Bool) (xs ys : List Held) → count f (xs ++ ys) ≡ count f xs + count f ys
count-append f [] ys = omega arith
count-append f (x ∷ xs) ys = step (f x) (count-append f xs ys)
  where
    step :
        (b : Bool)
        → count f (xs ++ ys) ≡ count f xs + count f ys
        → (if b then suc (count f (xs ++ ys)) else count f (xs ++ ys))
          ≡ (if b then suc (count f xs) else count f xs) + count f ys
    step true e = omega (arith, e)
    step false e = omega (arith, e)

tagged-append :
    (k : SizeClass) (xs ys : List Entry) → tagged k (xs ++ ys) ≡ tagged k xs ++ tagged k ys
tagged-append k [] ys = refl
tagged-append k (x ∷ xs) ys = ap (◌∷◌ (k, x)) (tagged-append k xs ys)

module _ {S : Type 0} (ops : ArenaOps S) where
  -- freeChunk of one entry after the other.
  abbrev pub free_all : List Held → S → S
  free_all [] s = s
  free_all ((k, e) ∷ es) s = free_all es (ops.free_chunk e k s)

  free_all-append :
      (xs ys : List Held) (s : S) → free_all (xs ++ ys) s ≡ free_all ys (free_all xs s)
  free_all-append [] ys s = refl
  free_all-append ((k, e) ∷ xs) ys s = free_all-append xs ys (ops.free_chunk e k s)

  -- Of the entries `xs` the entries `ys` are left and the others are freed, each once.
  abbrev pub GivesBack : List Held → List Held → S → S → Type 0
  GivesBack xs ys s s' =
      (es : List Held) × (s' ≡ free_all es s)
      × ((f : Held → Bool) → count f xs ≡ count f es + count f ys)

  pub GivesBack-none : (xs : List Held) (s : S) → GivesBack xs xs s s
  GivesBack-none xs s = ([], refl, λ f. omega arith)

  -- Two parts of a cache, one after the other.
  pub GivesBack-append :
      (xs ys xs' ys' : List Held) (s s' s'' : S)
      → GivesBack xs ys s s'
      → GivesBack xs' ys' s' s''
      → GivesBack (xs ++ xs') (ys ++ ys') s s''
  GivesBack-append xs ys xs' ys' s s' s'' (es, e, same) (es', e', same') = (
    es ++ es',
    e' ∙ ap (free_all es') e ∙ sym (free_all-append es es' s),
    λ f. omega (
      arith,
      same f,
      same' f,
      count-append f xs xs',
      count-append f ys ys',
      count-append f es es',
    ),
  )

  -- The same cache twice.
  pub GivesBack-trans :
      (xs ys zs : List Held) (s s' s'' : S)
      → GivesBack xs ys s s'
      → GivesBack ys zs s' s''
      → GivesBack xs zs s s''
  GivesBack-trans xs ys zs s s' s'' (es, e, same) (es', e', same') = (
    es ++ es',
    e' ∙ ap (free_all es') e ∙ sym (free_all-append es es' s),
    λ f. omega (arith, same f, same' f, count-append f es es'),
  )

  free_entries_state :
      (max : ℕ) (k : SizeClass) (es : List Entry) (s : S)
      → (free_entries ops max k es s).2 ≡ free_all (tagged k (take max es)) s
  free_entries_state zero k es s = refl
  free_entries_state (suc max) k [] s = refl
  free_entries_state (suc max) k (e ∷ es) s = free_entries_state max k es (ops.free_chunk e k s)

  pub free_entries-GivesBack :
      (max : ℕ) (k : SizeClass) (es : List Entry) (s : S)
      → GivesBack (tagged k es) (tagged k (drop max es)) s (free_entries ops max k es s).2
  free_entries-GivesBack max k es s = (
    tagged k (take max es),
    free_entries_state max k es s,
    λ f.
        ap (λ x. count f (tagged k x)) (sym (take-append-drop max es))
        ∙ ap (count f) (tagged-append k (take max es) (drop max es))
        ∙ count-append f (tagged k (take max es)) (tagged k (drop max es)),
  )

module _ (p : ℕ) (P : ℕ → Entry → Type 0) where
  empty_regions :
      (k : SizeClass) (i : ℕ) (rs : List MemoryRegionCache)
      → AllKeep p P empty k i rs
      → held_regions rs ≡ []
  empty_regions k i [] all = refl
  empty_regions k i (r ∷ rs) (keeps, all) =
      ap (λ q. tagged r.size_class q ++ held_regions rs) keeps.phase.1
      ∙ empty_regions k (suc i) rs all

  empty_table :
      (k : SizeClass) (o : Option (List MemoryRegionCache)) (n : ℕ)
      → TableKeeps p P empty k o n
      → held_table o ≡ []
  empty_table k none n keeps = refl
  empty_table k (some rs) n (_, all) = empty_regions k 0 rs all

  pub held_empty : (c : PoolThreadCache) → Keeps p P empty c → held c ≡ []
  held_empty c inv =
      let small_table = held_table (table_of small c).regions in
      let normal_table = held_table (table_of normal c).regions in
      ap (λ x. x ++ (small_table ++ normal_table)) (empty_table tiny _ _ (inv.tables tiny))
      ∙ ap (λ x. x ++ normal_table) (empty_table small _ _ (inv.tables small))
      ∙ empty_table normal _ _ (inv.tables normal)
