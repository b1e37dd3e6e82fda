-- ===== src/ChunkList/Members.antt =====
-- Chunks in a list, and the names of the lists.
use cpp_nio_socket.Common.{
  ℕ, zero, suc, ◌≡◌, ◌≢◌, ◌⊎◌, inl, inr, refl, sym, ap, subst, ◌∙◌, arith, ◌==◌, true, List, [],
  ◌∷◌, ==_eq, ==_ne, ℕ_discrete, if_true, if_false, Bool-cases,
}
use cpp_nio_socket.ChunkList.{
  ListId, q_init, q000, q025, q050, q075, q100, index, same_list, delete,
}

abbrev pub In : ℕ → List ℕ → Type 0
In c [] = ⊥
In c (d ∷ ds) = (c ≡ d) ⊎ In c ds

abbrev pub Absent : ℕ → List ℕ → Type 0
Absent c [] = Unit {0}
Absent c (d ∷ ds) = (c ≢ d) × Absent c ds

abbrev pub Distinct : List ℕ → Type 0
Distinct [] = Unit {0}
Distinct (d ∷ ds) = Absent d ds × Distinct ds

pub Absent-ne : (c d : ℕ) (ds : List ℕ) → Absent c ds → In d ds → c ≢ d
Absent-ne c d [] out here = absurd here
Absent-ne c d (e ∷ ds) (ne, out) (inl at) = λ q. ne (q ∙ at)
Absent-ne c d (e ∷ ds) (ne, out) (inr later) = Absent-ne c d ds out later

pub In-delete : (c d : ℕ) (ds : List ℕ) → In d (delete c ds) → In d ds
In-delete c d [] h = h
In-delete c d (e ∷ ds) h = elim (Bool-cases (c == e)) [
  | inl same ↦ inr (subst (In d) (if_true _ _ _ same) h)
  | inr other ↦ elim (subst (In d) (if_false _ _ _ other) h) [
    | inl at ↦ inl at
    | inr later ↦ inr (In-delete c d ds later)
  ]
]

pub delete-In : (c d : ℕ) (ds : List ℕ) → c ≢ d → In d ds → In d (delete c ds)
delete-In c d [] ne h = h
delete-In c d (e ∷ ds) ne h = elim (ℕ_discrete c e) [
  | yes same ↦
      subst (In d) (sym (if_true _ _ _ (==_eq c e same)))
        (elim h [ inl at ↦ absurd (ne (same ∙ sym at)) | inr later ↦ later ])
  | no other ↦
      subst (In d) (sym (if_false _ _ _ (==_ne c e other)))
        (elim h [ inl at ↦ inl at | inr later ↦ inr (delete-In c d ds ne later) ])
]

pub Absent-delete : (c x : ℕ) (ds : List ℕ) → Absent x ds → Absent x (delete c ds)
Absent-delete c x [] out = tt
Absent-delete c x (e ∷ ds) (ne, out) = elim (Bool-cases (c == e)) [
  | inl same ↦ subst (Absent x) (sym (if_true _ _ _ same)) out
  | inr other ↦ subst (Absent x) (sym (if_false _ _ _ other)) (ne, Absent-delete c x ds out)
]

pub delete-Distinct : (c : ℕ) (ds : List ℕ) → Distinct ds → Distinct (delete c ds)
delete-Distinct c [] h = tt
delete-Distinct c (e ∷ ds) (out, h) = elim (Bool-cases (c == e)) [
  | inl same ↦ subst Distinct (sym (if_true _ _ _ same)) h
  | inr other ↦
      subst Distinct (sym (if_false _ _ _ other)) (Absent-delete c e ds out, delete-Distinct c ds h)
]

pub delete-Absent : (c : ℕ) (ds : List ℕ) → Distinct ds → Absent c (delete c ds)
delete-Absent c [] h = tt
delete-Absent c (e ∷ ds) (out, h) = elim (ℕ_discrete c e) [
  | yes same ↦
      subst (Absent c) (sym (if_true _ _ _ (==_eq c e same)))
        (subst (λ x. Absent x ds) (sym same) out)
  | no other ↦
      subst (Absent c) (sym (if_false _ _ _ (==_ne c e other))) (other, delete-Absent c ds h)
]

pub not_in-Absent : (c : ℕ) (ds : List ℕ) → ((d : ℕ) → In d ds → c ≢ d) → Absent c ds
not_in-Absent c [] h = tt
not_in-Absent c (e ∷ ds) h = (h e (inl refl), not_in-Absent c ds (λ d later. h d (inr later)))

of_index : ℕ → ListId
of_index zero = q_init
of_index (suc zero) = q000
of_index (suc (suc zero)) = q025
of_index (suc (suc (suc zero))) = q050
of_index (suc (suc (suc (suc zero)))) = q075
of_index (suc (suc (suc (suc (suc n))))) = q100

of_index-index : (q : ListId) → of_index (index q) ≡ q
unfolding of_index
of_index-index q_init = refl
of_index-index q000 = refl
of_index-index q025 = refl
of_index-index q050 = refl
of_index-index q075 = refl
of_index-index q100 = refl

pub same_list_eq : (q r : ListId) → same_list q r ≡ true → q ≡ r
same_list_eq q r e =
    let i : index q ≡ index r = equal (index q) (index r) e in
    sym (of_index-index q) ∙ ap of_index i ∙ of_index-index r
  where
    equal : (m n : ℕ) → (m == n) ≡ true → m ≡ n
    equal m n e = ground arith
