-- ===== src/Subpage/Pool.antt =====
-- allocate and free of a page: what they give, and when the page is in the ring.
use cpp_nio_socket.Common.{
  ℕ, ◌⊎◌, inl, inr, suc, ◌-◌, ◌<◌, ◌≡◌, ◌≢◌, refl, sym, ap, ◌∙◌, subst, arith, ℕ_discrete, Option,
  true, false, Outcome, ok, ==_eq, ==_ne, ◌==◌, if◌then◌else◌, not, Bool, ◌||◌,
}
use cpp_nio_socket.Subpage.{
  PoolSubpage, Pages, write, is_zero, is_null, to_handle, test_bit, remove_from_pool,
}
use cpp_nio_socket.Subpage.Ring.{
  write_self, write_ne, Linked, unlinked, StaysPut, LeavesRing, LeavesRing-after, write-StaysPut,
  remove_from_pool_lem,
}
use cpp_nio_socket.Subpage.Bitmap.{mark_self, mark_ne}
use cpp_nio_socket.Subpage.Operations.{allocate, leave_if_full, after_take, take_elem}
use cpp_nio_socket.Subpage.Valid.{Valid, taken_from, taken_from-Valid, take_elem_lem, in_bitmap}

-- What taking the element `i` leaves of the page.
pub record Taken (i : ℕ) (p q : PoolSubpage) : Type 0 where
  pub in_page : i < p.max_num_elems
  pub was_free : test_bit p.bitmap i ≡ 0
  pub is_used : test_bit q.bitmap i ≡ 1
  pub others : (j : ℕ) → i ≢ j → test_bit q.bitmap j ≡ test_bit p.bitmap j
  pub one_less : p.num_avail ≡ suc q.num_avail
  pub still_valid : Valid q
  pub in_ring : is_null q.next ≡ (q.num_avail == 0)

module _ (p : PoolSubpage) (v : Valid p) (i : ℕ) (h : i < p.max_num_elems)
    (clear : test_bit p.bitmap i ≡ 0) (left : 0 < p.num_avail) where
  taken_from-Taken : is_null p.next ≡ (p.num_avail - 1 == 0) → Taken i p (taken_from i p)
  taken_from-Taken r = record {
    in_page = h;
    was_free = clear;
    is_used = mark_self p.bitmap i (in_bitmap p v i h);
    others = mark_ne p.bitmap i (in_bitmap p v i h);
    one_less = omega arith;
    still_valid = taken_from-Valid p v i h clear;
    in_ring = r;
  }

  last_one-Taken : true ≡ (p.num_avail - 1 == 0) → Taken i p (unlinked (taken_from i p))
  last_one-Taken r =
      let v' = taken_from-Valid p v i h clear in
      record {
        in_page = h;
        was_free = clear;
        is_used = mark_self p.bitmap i (in_bitmap p v i h);
        others = mark_ne p.bitmap i (in_bitmap p v i h);
        one_less = omega arith;
        still_valid = record {
          words = v'.words;
          covered = v'.covered;
          held = v'.held;
          counted = v'.counted;
          hinted = tt;
        };
        in_ring = r;
      }

-- The page leaves the ring with its last element, and else no pointer changes.
abbrev pub RingAfterTake : ℕ → Pages → Pages → Type 0
RingAfterTake this s s' =
    (((s this).num_avail ≡ 1) × LeavesRing this s s') ⊎ ((1 < (s this).num_avail) × StaysPut s s')

unfoldable pub Gives : ℕ → Pages → ℕ → Outcome (Option ℕ) × Pages → Type 0
Gives this s i r =
    (s' : Pages) × (r ≡ (ok (to_handle (s this) i), s'))
    × Taken i (s this) (s' this)
    × ((j : ℕ) → this ≢ j → (s' j).bitmap ≡ (s j).bitmap)
    × RingAfterTake this s s'

leave_if_full_stays :
    (this i : ℕ) (q : PoolSubpage) (t : Pages)
    → t this ≡ q
    → (q.num_avail == 0) ≡ false
    → leave_if_full this i t ≡ (ok (to_handle q i), t)
leave_if_full_stays this i q t e more =
    let more' : ((t this).num_avail == 0) ≡ false = ap (λ p. p.num_avail == 0) e ∙ more in
    rw more' (ap (λ p. (ok (to_handle p i), t)) e)

leave_if_full_leaves :
    (this i : ℕ) (q : PoolSubpage) (t t' : Pages)
    → t this ≡ q
    → (q.num_avail == 0) ≡ true
    → remove_from_pool this t ≡ (ok tt, t')
    → t' this ≡ unlinked q
    → leave_if_full this i t ≡ (ok (to_handle q i), t')
unfolding to_handle
leave_if_full_leaves this i q t t' e last run e' =
    let last' : ((t this).num_avail == 0) ≡ true = ap (λ p. p.num_avail == 0) e ∙ last in
    rw (last', run) (ap (λ p. (ok (to_handle p i), t')) e')

module _ (this : ℕ) (s : Pages) (v : Valid (s this)) (linked : Linked this (s this))
    (left : 0 < (s this).num_avail) (i : ℕ) (h : i < (s this).max_num_elems)
    (clear : test_bit (s this).bitmap i ≡ 0) where
  s1 : Pages
  s1 = write this (taken_from i (s this)) s

  at_this : s1 this ≡ taken_from i (s this)
  unfolding s1
  at_this = write_self this (taken_from i (s this)) s

  bitmaps : (j : ℕ) → this ≢ j → (s1 j).bitmap ≡ (s j).bitmap
  unfolding s1
  bitmaps j d = ap (λ p. p.bitmap) (write_ne this j (taken_from i (s this)) s d)

  pointers : StaysPut s s1
  unfolding s1
  pointers = write-StaysPut this (taken_from i (s this)) s refl refl

  stays-Gives :
      1 < (s this).num_avail
      → ((s this).num_avail - 1 == 0) ≡ false
      → Gives this s i (after_take this s (ok i, taken_from i (s this)))
  unfolding Gives s1 to_handle
  stays-Gives several more =
      let (a, b, prev_a, next_b, not_a, not_b) = linked in
      let r : is_null (s this).next ≡ ((s this).num_avail - 1 == 0) = rw (next_b, more) refl in
      (
        s1,
        leave_if_full_stays this i (taken_from i (s this)) s1 at_this more,
        subst (Taken i (s this)) (sym at_this) (taken_from-Taken (s this) v i h clear left r),
        bitmaps,
        inr (several, pointers),
      )

  leaves-Gives :
      (s this).num_avail ≡ 1
      → ((s this).num_avail - 1 == 0) ≡ true
      → Gives this s i (after_take this s (ok i, taken_from i (s this)))
  unfolding Gives s1 to_handle
  leaves-Gives one last =
      let linked1 : Linked this (s1 this) = subst (Linked this) (sym at_this) linked in
      let (s2, run, gone, same, leaves) = remove_from_pool_lem this s1 linked1 in
      let e : s2 this ≡ unlinked (taken_from i (s this)) = gone ∙ ap unlinked at_this in
      (
        s2,
        leave_if_full_leaves this i (taken_from i (s this)) s1 s2 at_this last run e,
        subst (Taken i (s this)) (sym e) (last_one-Taken (s this) v i h clear left (sym last)),
        λ j d. same j ∙ bitmaps j d,
        inl (one, LeavesRing-after this s s1 s2 pointers leaves),
      )

pub two_tests :
    {A : Type 0} (a b c : Bool) (x y z : A)
    → a ≡ false
    → b ≡ false
    → c ≡ true
    → (if a then x else if b || not c then y else z) ≡ z
two_tests a b c x y z p q r = rw (p, q, r) refl

-- For a valid page with two neighbours in a ring that is cut into elements, is not marked for
-- destruction and has an element left, allocate returns the handle of an element that was free,
-- marks that element and no other, on this page and on every other page, counts it, and keeps the
-- page valid. With its last element the page leaves the ring: its pointers are cleared, its two
-- neighbours point at each other, and no other pointer of any page changes; with more elements left
-- no pointer of any page changes.
pub allocate_lem :
    (this : ℕ) (s : Pages)
    → Valid (s this)
    → Linked this (s this)
    → is_zero (s this).elem_size ≡ false
    → (s this).do_not_destroy ≡ true
    → 0 < (s this).num_avail
    → (i : ℕ) × Gives this s i (allocate this s)
unfolding allocate
allocate_lem this s v linked is_cut alive left =
    let (i, run, h, clear) = take_elem_lem (s this) v left in
    let some_left : ((s this).num_avail == 0) ≡ false =
      ==_ne (s this).num_avail 0 (λ z. absurd (omega arith)) in
    let gives : Gives this s i (after_take this s (ok i, taken_from i (s this))) =
      elim (ℕ_discrete ((s this).num_avail - 1) 0) [
        | yes e ↦
            leaves-Gives this s v linked left i h clear (omega (arith, e))
              (==_eq ((s this).num_avail - 1) 0 e)
        | no ne ↦
            stays-Gives this s v linked left i h clear (omega (arith, ne))
              (==_ne ((s this).num_avail - 1) 0 ne)
      ] in
    let start : allocate this s ≡ after_take this s (take_elem (s this)) =
      two_tests _ _ _ _ _ _ is_cut some_left alive in
    (i, subst (Gives this s i) (sym (start ∙ ap (after_take this s) run)) gives)
