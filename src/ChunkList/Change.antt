-- ===== src/ChunkList/Change.antt =====
-- A chunk whose memory changes: the lists without it, and the lists with it when it still fits.
use mathlib.Core.Option.{some-injective}
use mathlib.Core.Bool.{false≢true}
use cpp_nio_socket.Common.{
  ℕ, ◌≡◌, ◌≢◌, inl, inr, sym, ap, subst, ◌∙◌, true, false, some, ==_eq, if_true, if_false,
  Bool-cases, ℕ_discrete,
}
use cpp_nio_socket.ChunkList.{ListId, ChunkOps, Lists, index, same_list, delete, remove}
use cpp_nio_socket.ChunkList.Moves.{Fits}
use cpp_nio_socket.ChunkList.Members.{
  In, Distinct, Absent-ne, In-delete, delete-In, delete-Distinct, delete-Absent, not_in-Absent,
  same_list_eq,
}
use cpp_nio_socket.ChunkList.Placed.{Placed, Without}

module _ {S : Type 0} (ops : ChunkOps S) (c : ℕ) (s : S) (a : Lists S) (p : Placed ops a)
    (q : ListId) (member : In c (a.chunks q))
    (others : (d : ℕ) → c ≢ d → ops.usage d s ≡ ops.usage d a.store) where
  abbrev pub changed : Lists S
  changed = record a { store = s }

  -- A chunk is in one list only.
  not_twice : (r : ListId) → same_list q r ≡ false → (d : ℕ) → In d (a.chunks r) → c ≢ d
  not_twice r e d h at =
      let mine : a.parent c ≡ some q = p.owned q c member in
      let its : a.parent d ≡ some r = p.owned r d h in
      let one : q ≡ r = some-injective q r (sym mine ∙ ap a.parent at ∙ its) in
      let yes_same : same_list q r ≡ true = ==_eq (index q) (index r) (ap index one) in
      absurd (false≢true (sym e ∙ yes_same))

  abbrev pub taken_out : Lists S
  taken_out = remove ops q c changed

  here : (r : ListId) → same_list q r ≡ true → taken_out.chunks r ≡ delete c (a.chunks r)
  here r e = if_true _ _ _ e ∙ ap (λ s. delete c (a.chunks s)) (same_list_eq q r e)

  elsewhere : (r : ListId) → same_list q r ≡ false → taken_out.chunks r ≡ a.chunks r
  elsewhere r e = if_false _ _ _ e

  was_there : (r : ListId) (d : ℕ) → In d (taken_out.chunks r) → (c ≢ d) × In d (a.chunks r)
  was_there r d h = elim (Bool-cases (same_list q r)) [
    | inl e ↦
        let h' = subst (In d) (here r e) h in
        (
          Absent-ne c d (delete c (a.chunks r)) (delete-Absent c (a.chunks r) (p.once r)) h',
          In-delete c d (a.chunks r) h',
        )
    | inr e ↦ let h' = subst (In d) (elsewhere r e) h in (not_twice r e d h', h')
  ]

  pub stays : (r : ListId) (d : ℕ) → c ≢ d → In d (a.chunks r) → In d (taken_out.chunks r)
  stays r d ne h = elim (Bool-cases (same_list q r)) [
    | inl e ↦ subst (In d) (sym (here r e)) (delete-In c d (a.chunks r) ne h)
    | inr e ↦ subst (In d) (sym (elsewhere r e)) h
  ]

  pub taken_out-Without : Without ops c taken_out
  taken_out-Without = record {
    placed = record {
      fits = λ r d h.
          let (ne, old) = was_there r d h in subst (Fits r) (sym (others d ne)) (p.fits r d old);
      owned = λ r d h. p.owned r d (was_there r d h).1;
      once = λ r. elim (Bool-cases (same_list q r)) [
        | inl e ↦ subst Distinct (sym (here r e)) (delete-Distinct c (a.chunks r) (p.once r))
        | inr e ↦ subst Distinct (sym (elsewhere r e)) (p.once r)
      ];
    };
    gone = λ r. not_in-Absent c (taken_out.chunks r) (λ d h. (was_there r d h).0);
  }

  -- The chunk still fits the list.
  pub changed-Placed : Fits q (ops.usage c s) → Placed ops changed
  changed-Placed fit = record {
    fits = λ r d h. elim (ℕ_discrete c d) [
      | yes e ↦ mine r d e h
      | no ne ↦ subst (Fits r) (sym (others d ne)) (p.fits r d h)
    ];
    owned = p.owned;
    once = p.once;
  }
    where
      mine : (r : ListId) (d : ℕ) → c ≡ d → In d (a.chunks r) → Fits r (ops.usage d s)
      mine r d e h =
          let its : a.parent c ≡ some r = ap a.parent e ∙ p.owned r d h in
          let one : q ≡ r = some-injective q r (sym (p.owned q c member) ∙ its) in
          subst (λ x. Fits r (ops.usage x s)) e (subst (λ l. Fits l (ops.usage c s)) one fit)
