-- ===== src/Subpage/Settle.antt =====
-- The three ways in which free goes on once the element is put back.
use cpp_nio_socket.Common.{
  ℕ, ◌≡◌, inl, inr, refl, ap, ◌∙◌, subst, Option, true, false, ok, ◌==◌, if_true, if_false, not,
  Bool-cases, ◌||◌, bind,
}
use cpp_nio_socket.Subpage.{PoolSubpage, Pages, write, remove_from_pool, add_to_pool}
use cpp_nio_socket.Subpage.Operations.{settle, same_pointer, doomed, retire}

abbrev pub with_links : PoolSubpage → Option ℕ → Option ℕ → PoolSubpage
with_links p x y = record p { prev = x; next = y }

module _ (head this : ℕ) (t : Pages) where
  pub settle_enters :
      (t' : Pages)
      → ((t this).num_avail == 1) ≡ true
      → add_to_pool head this t ≡ (ok tt, t')
      → settle head this t ≡ (ok true, t')
  settle_enters t' first run = rw (first, run) refl

  pub settle_stays :
      ((t this).num_avail == 1) ≡ false
      → (not ((t this).num_avail == (t this).max_num_elems)
          || same_pointer (t this).prev (t this).next)
        ≡ true
      → settle head this t ≡ (ok true, t)
  settle_stays more stay = elim (Bool-cases ((t this).num_avail == (t this).max_num_elems)) [
    | inr e ↦ rw (more, e) refl
    | inl e ↦
        let same : same_pointer (t this).prev (t this).next ≡ true =
          subst (λ b. (not b || same_pointer (t this).prev (t this).next) ≡ true) e stay in
        rw (more, e) (if_true _ (ok true, t) (retire this t) same)
  ]

  pub settle_leaves :
      (t' : Pages)
      → ((t this).num_avail == 1) ≡ false
      → ((t this).num_avail == (t this).max_num_elems) ≡ true
      → same_pointer (t this).prev (t this).next ≡ false
      → remove_from_pool this (write this (doomed (t this)) t) ≡ (ok tt, t')
      → settle head this t ≡ (ok false, t')
  settle_leaves t' more full other run =
      rw (more, full)
        (if_false _ (ok true, t) (retire this t) other
          ∙ ap (λ r. bind r (λ _ s. (ok false, s))) run)
