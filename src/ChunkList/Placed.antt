-- ===== src/ChunkList/Placed.antt =====
-- freeChunk: every chunk is in one list, whose bounds hold its usage.
use cpp_nio_socket.Common.{
  ℕ, ◌≡◌, ◌≢◌, ◌⊎◌, inl, inr, refl, sym, ap, subst, ◌∙◌, true, false, some, List, ◌∷◌, ==_eq, ==_ne,
  if_true, if_false, Bool-cases,
}
use cpp_nio_socket.ChunkList.{ListId, ChunkOps, Lists, index, same_list, usage_of, add0}
use cpp_nio_socket.ChunkList.Moves.{Fits}
use cpp_nio_socket.ChunkList.Members.{In, Absent, Distinct, Absent-ne, same_list_eq}

module _ {S : Type 0} (ops : ChunkOps S) where
  -- Every chunk is in a list that its usage fits and that is its parent, and once at most.
  pub record Placed (a : Lists S) : Type 0 where
    pub fits : (q : ListId) (c : ℕ) → In c (a.chunks q) → Fits q (usage_of ops c a)
    pub owned : (q : ListId) (c : ℕ) → In c (a.chunks q) → a.parent c ≡ some q
    pub once : (q : ListId) → Distinct (a.chunks q)

  -- The lists without the chunk `c`.
  pub record Without (c : ℕ) (a : Lists S) : Type 0 where
    pub placed : Placed a
    pub gone : (q : ListId) → Absent c (a.chunks q)

  module _ (c : ℕ) (a : Lists S) (w : Without c a) (q : ListId)
      (f : Fits q (usage_of ops c a)) where
    abbrev pub added : ListId → List ℕ
    added = (add0 ops q c a).chunks

    here : (r : ListId) → same_list q r ≡ true → added r ≡ c ∷ a.chunks r
    here r e = if_true _ _ _ e ∙ ap (λ s. c ∷ a.chunks s) (same_list_eq q r e)

    elsewhere : (r : ListId) → same_list q r ≡ false → added r ≡ a.chunks r
    elsewhere r e = if_false _ _ _ e

    old_parent : (d : ℕ) → c ≢ d → (add0 ops q c a).parent d ≡ a.parent d
    old_parent d ne = if_false _ _ _ (==_ne c d ne)

    new_parent : (add0 ops q c a).parent c ≡ some q
    new_parent = if_true _ _ _ (==_eq c c refl)

    -- A chunk of a list is the new one or was there before.
    split :
        (r : ListId) (d : ℕ) → In d (added r) → ((d ≡ c) × (q ≡ r)) ⊎ ((c ≢ d) × In d (a.chunks r))
    split r d h = elim (Bool-cases (same_list q r)) [
      | inl e ↦ elim (subst (In d) (here r e) h) [
        | inl at ↦ inl (at, same_list_eq q r e)
        | inr later ↦ inr (Absent-ne c d (a.chunks r) (w.gone r) later, later)
      ]
      | inr e ↦
          let later = subst (In d) (elsewhere r e) h in
          inr (Absent-ne c d (a.chunks r) (w.gone r) later, later)
    ]

    pub add0-Placed : Placed (add0 ops q c a)
    add0-Placed = record {
      fits = λ r d h. elim (split r d h) [
        | inl (at, there) ↦
            subst (λ s. Fits s (usage_of ops d a)) there
              (subst (λ x. Fits q (usage_of ops x a)) (sym at) f)
        | inr (ne, later) ↦ w.placed.fits r d later
      ];
      owned = λ r d h. elim (split r d h) [
        | inl (at, there) ↦ ap (add0 ops q c a).parent at ∙ new_parent ∙ ap some there
        | inr (ne, later) ↦ old_parent d ne ∙ w.placed.owned r d later
      ];
      once = λ r. elim (Bool-cases (same_list q r)) [
        | inl e ↦ subst Distinct (sym (here r e)) (w.gone r, w.placed.once r)
        | inr e ↦ subst Distinct (sym (elsewhere r e)) (w.placed.once r)
      ];
    }

    pub keeps_others : (r : ListId) (d : ℕ) → In d (a.chunks r) → In d (added r)
    keeps_others r d h = elim (Bool-cases (same_list q r)) [
      | inl e ↦ subst (In d) (sym (here r e)) (inr h)
      | inr e ↦ subst (In d) (sym (elsewhere r e)) h
    ]

    pub is_in : In c (added q)
    is_in = subst (In c) (sym (if_true _ _ _ (==_eq (index q) (index q) refl))) (inl refl)
