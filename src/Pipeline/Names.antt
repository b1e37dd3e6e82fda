-- ===== src/Pipeline/Names.antt =====
-- generateName: among one more numbers than there are contexts, one makes a name that is free.
use mathlib.Core.Bool.{false≢true}
use mathlib.Core.Option.{none-ne-some}
use cpp_nio_socket.Common.{
  ℕ, zero, suc, ◌+◌, ◌≤◌, ◌<◌, ◌≡◌, ◌≢◌, inl, inr, refl, sym, ap, ap₂, ◌∙◌, arith, Bool, true,
  false, ◌&&◌, none, [], ◌∷◌, ◌++◌, length, Outcome, ok, ltb, ◌==◌, ==_eq, if◌then◌else◌, if_false,
  Bool-cases, Option-cases,
}
use cpp_nio_socket.Pipeline.{Name, Pipeline, same, context0, next_free, number_name}
use cpp_nio_socket.Pipeline.Chain.{Contexts, find}

pub same_refl : (n : Name) → same n n ≡ true
same_refl [] = refl
same_refl (c ∷ n) = ap₂ ◌&&◌ (==_eq c c refl) (same_refl n)

and_true : (a b : Bool) → (a && b) ≡ true → (a ≡ true) × (b ≡ true)
and_true true b e = (refl, e)
and_true false b e = absurd (false≢true e)

==_true : (a b : ℕ) → (a == b) ≡ true → a ≡ b
==_true a b h = ground arith

pub same_eq : (m n : Name) → same m n ≡ true → m ≡ n
same_eq [] [] e = refl
same_eq [] (d ∷ n) e = absurd (false≢true e)
same_eq (c ∷ m) [] e = absurd (false≢true e)
same_eq (c ∷ m) (d ∷ n) e =
    let (p, q) = and_true (c == d) (same m n) e in ap₂ ◌∷◌ (==_true c d p) (same_eq m n q)

-- No context of the list has the name.
abbrev pub Free : Name → Contexts → Type 0
Free name ns = find (λ c. same c.name name) ns ≡ none

abbrev pub Injective : (ℕ → Name) → Type 0
Injective g = (i j : ℕ) → g i ≡ g j → i ≡ j

-- The numbers without `i`.
abbrev skip : ℕ → ℕ → ℕ
skip i j = if ltb j i then j else suc j

skip-Injective : (i j k : ℕ) → skip i j ≡ skip i k → j ≡ k
skip-Injective i j k e = ground arith

skip_ne : (i j : ℕ) → skip i j ≢ i
skip_ne i j e = ground arith

skip-le : (i j : ℕ) → skip i j ≤ suc j
skip-le i j = ground arith

-- Among different names, one more than there are contexts, one is free.
unused_exists :
    (ns : Contexts) (g : ℕ → Name) → Injective g → (i : ℕ) × (i ≤ length ns) × Free (g i) ns
unused_exists [] g inj = (0, omega arith, refl)
unused_exists ((a, c) ∷ ns) g inj =
    let (i, h, free) = unused_exists ns g inj in
    let (j, k, free_j) =
      unused_exists ns (λ j. g (skip i j)) (λ j k e. skip-Injective i j k (inj _ _ e)) in
    elim (Bool-cases (same c.name (g i))) [
      | inr other ↦ (i, omega arith, if_false _ _ _ other ∙ free)
      | inl equal ↦
          let other : same c.name (g (skip i j)) ≡ false = differs i j equal in
          (skip i j, omega (arith, skip-le i j), if_false _ _ _ other ∙ free_j)
    ]
  where
    differs : (i j : ℕ) → same c.name (g i) ≡ true → same c.name (g (skip i j)) ≡ false
    differs i j e = elim (Bool-cases (same c.name (g (skip i j)))) [
      | inr no_same ↦ no_same
      | inl too ↦
          absurd (
            skip_ne i j
              (inj _ _ (sym (same_eq c.name (g (skip i j)) too) ∙ same_eq c.name (g i) e)))
    ]

-- The loop of generateName ends at a free name when one lies ahead of it.
number_name_lem :
    (format : ℕ → Name) (rounds : ℕ) (base_name : Name) (i k fuel : ℕ) (p : Pipeline)
    (ns : Contexts)
    → ((name : Name) → context0 name fuel p ≡ ok (find (λ c. same c.name name) ns))
    → i ≤ k
    → k < i + rounds
    → Free (base_name ++ format k) ns
    → (name : Name) × (number_name format rounds base_name i fuel p ≡ ok name) × Free name ns
unfolding number_name
number_name_lem format zero base_name i k fuel p ns looks lo hi free = absurd (omega arith)
number_name_lem format (suc rounds) base_name i k fuel p ns looks lo hi free =
    elim (Option-cases (find (λ c. same c.name (base_name ++ format i)) ns)) [
      | inl here ↦ (
        base_name ++ format i,
        ap (next_free rest (base_name ++ format i)) (looks (base_name ++ format i) ∙ ap ok here),
        here,
      )
      | inr (a, taken) ↦
          let later : i ≢ k = λ e. none-ne-some a (
            sym free
            ∙ ap (λ n. find (λ c. same c.name (base_name ++ format n)) ns) (sym e)
            ∙ taken) in
          let (name, run, ends) =
            number_name_lem format rounds base_name (suc i) k fuel p ns looks (omega (arith, later))
              (omega arith) free in
          (
            name,
            ap (next_free rest (base_name ++ format i))
                  (looks (base_name ++ format i) ∙ ap ok taken)
                ∙ run,
            ends,
          )
    ]
  where
    rest : Outcome Name
    rest = number_name format rounds base_name (suc i) fuel p

append-cancel : (m a b : Name) → m ++ a ≡ m ++ b → a ≡ b
append-cancel [] a b e = e
append-cancel (c ∷ m) a b e = append-cancel m a b (ap rest e)
  where
    rest : Name → Name
    rest [] = []
    rest (d ∷ n) = n

-- With numbers that differ, enough rounds are one more than there are contexts.
pub number_name-Free :
    (format : ℕ → Name)
    → Injective format
    → (rounds : ℕ) (base_name : Name) (fuel : ℕ) (p : Pipeline) (ns : Contexts)
    → ((name : Name) → context0 name fuel p ≡ ok (find (λ c. same c.name name) ns))
    → length ns < rounds
    → (name : Name) × (number_name format rounds base_name 0 fuel p ≡ ok name) × Free name ns
number_name-Free format inj rounds base_name fuel p ns looks enough =
    let (k, h, free) =
      unused_exists ns (λ i. base_name ++ format i)
        (λ i j e. inj i j (append-cancel base_name (format i) (format j) e)) in
    number_name_lem format rounds base_name 0 k fuel p ns looks (omega arith) (omega arith) free
