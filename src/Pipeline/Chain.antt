-- ===== src/Pipeline/Chain.antt =====
-- The contexts that the pointers run through, from the head to the tail, and a loop along them.
use mathlib.Core.Option.{none-ne-some}
use cpp_nio_socket.Common.{
  ℕ, zero, suc, ◌<◌, ◌≡◌, ◌≢◌, inl, inr, refl, sym, ap, ◌∙◌, arith, Bool, Option, none, some, List,
  [], ◌∷◌, ◌++◌, length, ok, ==_eq, ==_ne, if◌then◌else◌, if_true, if_false, Bool-cases,
}
use cpp_nio_socket.Pipeline.{Context, write, visit, walk}

pub write_self : {A : Type 0} (a : ℕ) (v : A) (f : ℕ → A) → write a v f a ≡ v
write_self a v f = rw (==_eq a a refl) refl

pub write_ne : {A : Type 0} (a b : ℕ) (v : A) (f : ℕ → A) → a ≢ b → write a v f b ≡ f b
write_ne a b v f d = rw (==_ne a b d) refl

abbrev pub Contexts : Type 0
Contexts = List (ℕ × Context)

abbrev pub Absent : ℕ → Contexts → Type 0
Absent a [] = Unit {0}
Absent a ((b, c) ∷ ns) = (b ≢ a) × Absent a ns

abbrev pub Apart : Contexts → Type 0
Apart [] = Unit {0}
Apart ((a, c) ∷ ns) = Absent a ns × Apart ns

abbrev pub Forward : (ℕ → Option ℕ) → (ℕ → Option Context) → Option ℕ → Contexts → Type 0
Forward next info x [] = x ≡ none
Forward next info x ((a, c) ∷ ns) = (x ≡ some a) × (info a ≡ some c) × Forward next info (next a) ns

abbrev pub Backward : (ℕ → Option ℕ) → Option ℕ → Contexts → Type 0
Backward prev x [] = Unit {0}
Backward prev x ((a, c) ∷ ns) = (prev a ≡ x) × Backward prev (some a) ns

pub Absent-append_left : (a : ℕ) (ns ms : Contexts) → Absent a (ns ++ ms) → Absent a ns
Absent-append_left a [] ms h = tt
Absent-append_left a ((b, c) ∷ ns) ms (d, h) = (d, Absent-append_left a ns ms h)

pub Absent-append_right : (a : ℕ) (ns ms : Contexts) → Absent a (ns ++ ms) → Absent a ms
Absent-append_right a [] ms h = h
Absent-append_right a ((b, c) ∷ ns) ms (d, h) = Absent-append_right a ns ms h

pub Absent-append : (a : ℕ) (ns ms : Contexts) → Absent a ns → Absent a ms → Absent a (ns ++ ms)
Absent-append a [] ms h k = k
Absent-append a ((b, c) ∷ ns) ms (d, h) k = (d, Absent-append a ns ms h k)

-- A new context between two parts.
pub Apart-insert :
    (a : ℕ) (c : Context) (ns ms : Contexts)
    → Absent a (ns ++ ms)
    → Apart (ns ++ ms)
    → Apart (ns ++ (a, c) ∷ ms)
Apart-insert a c [] ms h p = (h, p)
Apart-insert a c ((b, d) ∷ ns) ms (ne, h) (out, p) = (
  Absent-append b ns ((a, c) ∷ ms) (Absent-append_left b ns ms out)
      ((λ e. ne (sym e)), Absent-append_right b ns ms out),
  Apart-insert a c ns ms h p,
)

-- And one taken out.
pub Apart-remove :
    (a : ℕ) (c : Context) (ns ms : Contexts)
    → Apart (ns ++ (a, c) ∷ ms)
    → Absent a (ns ++ ms) × Apart (ns ++ ms)
Apart-remove a c [] ms (h, p) = (h, p)
Apart-remove a c ((b, d) ∷ ns) ms (out, p) =
    let (h, q) = Apart-remove a c ns ms p in
    let (ne, out') = Absent-append_right b ns ((a, c) ∷ ms) out in
    (
      ((λ e. ne (sym e)), h),
      (Absent-append b ns ms (Absent-append_left b ns ((a, c) ∷ ms) out) out', q),
    )

-- An address of which the heap holds nothing.
pub unused-Absent :
    (a : ℕ) (next : ℕ → Option ℕ) (info : ℕ → Option Context) (x : Option ℕ) (ns : Contexts)
    → info a ≡ none
    → Forward next info x ns
    → Absent a ns
unused-Absent a next info x [] free f = tt
unused-Absent a next info x ((b, c) ∷ ns) free (at, e, f) = (
  (λ q. none-ne-some c (sym free ∙ ap info (sym q) ∙ e)),
  unused-Absent a next info (next b) ns free f,
)

-- The first context of a list that passes a test.
abbrev pub find : (Context → Bool) → Contexts → Option ℕ
find test [] = none
find test ((a, c) ∷ ns) = if test c then some a else find test ns

-- A loop with more rounds than contexts ends, with the first context that passes the test.
pub walk_lem :
    (info : ℕ → Option Context) (next : ℕ → Option ℕ) (test : Context → Bool) (fuel : ℕ)
    (x : Option ℕ) (ns : Contexts)
    → length ns < fuel
    → Forward next info x ns
    → walk info next test fuel x ≡ ok (find test ns)
unfolding walk
walk_lem info next test zero x ns h f = absurd (omega arith)
walk_lem info next test (suc fuel) x [] h f = ap (walk info next test (suc fuel)) f
walk_lem info next test (suc fuel) x ((a, c) ∷ ns) h (at, e, f) =
    ap (walk info next test (suc fuel)) at
    ∙ ap (visit test (walk info next test fuel (next a)) a) e
    ∙ elim (Bool-cases (test c)) [
      | inl here ↦ if_true _ _ _ here ∙ ap ok (sym (if_true (test c) (some a) (find test ns) here))
      | inr on ↦
          if_false _ _ _ on
          ∙ walk_lem info next test fuel (next a) ns (omega arith) f
          ∙ ap ok (sym (if_false (test c) (some a) (find test ns) on))
    ]
