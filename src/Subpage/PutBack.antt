-- ===== src/Subpage/PutBack.antt =====
-- free of a page: what it gives back, and when the page leaves the ring for good.
use mathlib.Core.Bool.{false≢true}
use cpp_nio_socket.Common.{
  ℕ, suc, ◌+◌, ◌<◌, ◌≡◌, ◌≢◌, ◌⊎◌, inl, inr, refl, sym, ap, ◌∙◌, subst, arith, Option, none, some,
  true, false, Outcome, ok, ==_eq, ==_ne, ◌==◌, if_false, not, Bool, Bool-cases, ◌||◌, ◌&&◌,
}
use cpp_nio_socket.Subpage.{PoolSubpage, Pages, write, is_zero, is_null, test_bit}
use cpp_nio_socket.Subpage.Bitmap.{unmark_self, unmark_ne}
use cpp_nio_socket.Subpage.Operations.{free, settle, after_put, same_pointer, doomed}
use cpp_nio_socket.Subpage.Valid.{Valid, put_back, put_back-Valid, put_elem_lem, in_bitmap}
use cpp_nio_socket.Subpage.Ring.{
  write_self, write_ne, Linked, Unlinked, unlinked, StaysPut, LeavesRing, JoinsRing,
  LeavesRing-after, JoinsRing-after, write-StaysPut, remove_from_pool_lem, add_to_pool_lem,
}
use cpp_nio_socket.Subpage.Settle.{with_links, settle_enters, settle_stays, settle_leaves}

-- What putting back the element `i` leaves of the page; `kept` is the result of free.
pub record Freed (i : ℕ) (p q : PoolSubpage) (kept : Bool) : Type 0 where
  pub is_free : test_bit q.bitmap i ≡ 0
  pub others : (j : ℕ) → i ≢ j → test_bit q.bitmap j ≡ test_bit p.bitmap j
  pub one_more : q.num_avail ≡ suc p.num_avail
  pub still_valid : Valid q
  pub in_ring : is_null q.next ≡ not kept
  pub alive : q.do_not_destroy ≡ (kept && p.do_not_destroy)

-- free keeps the page unless all its elements are free again and another page is in the ring.
abbrev pub rest_keeps : PoolSubpage → Bool
rest_keeps p = not (suc p.num_avail == p.max_num_elems) || same_pointer p.prev p.next

abbrev pub keeps : PoolSubpage → Bool
keeps p = p.num_avail == 0 || rest_keeps p

not_or_false : (a b : Bool) → (not a || b) ≡ false → (a ≡ true) × (b ≡ false)
not_or_false true b e = (refl, e)
not_or_false false b e = absurd (false≢true (sym e))

abbrev pub idle : PoolSubpage → Bool
idle p = not (p.num_avail == p.max_num_elems) || same_pointer p.prev p.next

abbrev pub settled : ℕ → PoolSubpage → Option ℕ → Option ℕ → Bool → PoolSubpage
settled i p x y d = record (put_back i p) { prev = x; next = y; do_not_destroy = d }

settled-Freed :
    (i : ℕ) (p : PoolSubpage) (x y : Option ℕ) (d kept : Bool)
    → Valid p
    → i < p.max_num_elems
    → test_bit p.bitmap i ≡ 1
    → is_null y ≡ not kept
    → d ≡ (kept && p.do_not_destroy)
    → Freed i p (settled i p x y d) kept
settled-Freed i p x y d kept v h used ring dies =
    let v' = put_back-Valid p v i h used in
    record {
      is_free = unmark_self p.bitmap i (in_bitmap p v i h) used;
      others = unmark_ne p.bitmap i (in_bitmap p v i h) used;
      one_more = omega arith;
      still_valid = record {
        words = v'.words;
        covered = v'.covered;
        held = v'.held;
        counted = v'.counted;
        hinted = v'.hinted;
      };
      in_ring = ring;
      alive = dies;
    }

-- A page that had no element left joins the ring behind the head; another page leaves the ring, or no
-- pointer changes.
abbrev pub RingAfterFree : ℕ → ℕ → Pages → Bool → Pages → Type 0
RingAfterFree head this s kept s' =
    (((s this).num_avail ≡ 0) × (kept ≡ true) × JoinsRing head this s s')
    ⊎ (((0 < (s this).num_avail) × (kept ≡ true) × StaysPut s s')
        ⊎ ((0 < (s this).num_avail) × (kept ≡ false) × LeavesRing this s s'))

unfoldable pub Returns : ℕ → ℕ → ℕ → Pages → Bool → Outcome Bool × Pages → Type 0
Returns head this i s kept r =
    (s' : Pages) × (r ≡ (ok kept, s'))
    × Freed i (s this) (s' this) kept
    × ((j : ℕ) → this ≢ j → (s' j).bitmap ≡ (s j).bitmap)
    × RingAfterFree head this s kept s'

-- The page is in the ring exactly when it has an element to give.
abbrev pub Placed : ℕ → ℕ → Pages → Type 0
Placed head this s =
    (((s this).num_avail ≡ 0) × Unlinked head this s)
    ⊎ ((0 < (s this).num_avail) × Linked this (s this))

module _ (head this : ℕ) (s : Pages) (v : Valid (s this)) (i : ℕ) (h : i < (s this).max_num_elems)
    (used : test_bit (s this).bitmap i ≡ 1) where
  s1 : Pages
  s1 = write this (put_back i (s this)) s

  at_this : s1 this ≡ put_back i (s this)
  unfolding s1
  at_this = write_self this (put_back i (s this)) s

  bitmaps : (j : ℕ) → this ≢ j → (s1 j).bitmap ≡ (s j).bitmap
  unfolding s1
  bitmaps j d = ap (λ p. p.bitmap) (write_ne this j (put_back i (s this)) s d)

  pointers : StaysPut s s1
  unfolding s1
  pointers = write-StaysPut this (put_back i (s this)) s refl refl

  -- A page that had no element left comes back into the ring.
  enters-Returns :
      (s this).num_avail ≡ 0
      → Unlinked head this s
      → Returns head this i s true (settle head this s1)
  unfolding Returns s1
  enters-Returns none_left (n, no_prev, no_next, next_n, not_head, not_n) =
      let out : Unlinked head this s1 = (
        n,
        ap (λ p. p.prev) at_this ∙ no_prev,
        ap (λ p. p.next) at_this ∙ no_next,
        ap (λ p. p.next) (write_ne this head (put_back i (s this)) s (λ e. not_head (sym e)))
            ∙ next_n,
        not_head,
        not_n,
      ) in
      let (s2, m, not_m, run, e, same, joins) = add_to_pool_lem head this s1 out in
      let one : (s this).num_avail + 1 ≡ 1 = omega arith in
      let first : ((s1 this).num_avail == 1) ≡ true =
        ==_eq _ 1 (ap (λ p. p.num_avail) at_this ∙ one) in
      let stored : s2 this ≡ settled i (s this) (some head) (some m) (s this).do_not_destroy =
        e ∙ ap (λ p. with_links p (some head) (some m)) at_this in
      (
        s2,
        settle_enters head this s1 s2 first run,
        subst (λ q. Freed i (s this) q true) (sym stored)
            (settled-Freed i (s this) (some head) (some m) _ true v h used refl refl),
        λ j d. same j ∙ bitmaps j d,
        inl (none_left, refl, JoinsRing-after head this s s1 s2 pointers joins),
      )

  -- A page that has another element free stays where it is.
  stays-Returns :
      0 < (s this).num_avail
      → Linked this (s this)
      → (not (suc (s this).num_avail == (s this).max_num_elems)
          || same_pointer (s this).prev (s this).next)
        ≡ true
      → Returns head this i s true (settle head this s1)
  unfolding Returns s1
  stays-Returns left (a, b, prev_a, next_b, not_a, not_b) stay =
      let several : (s this).num_avail + 1 ≢ 1 = λ e. absurd (omega arith) in
      let more : ((s1 this).num_avail == 1) ≡ false =
        ap (λ p. p.num_avail == 1) at_this ∙ ==_ne _ 1 several in
      let up : suc (s this).num_avail ≡ (s this).num_avail + 1 = omega arith in
      let stay1 : idle (put_back i (s this)) ≡ true =
        subst
          (λ n.
            (not (n == (s this).max_num_elems) || same_pointer (s this).prev (s this).next) ≡ true)
          up stay in
      let ring : is_null (s this).next ≡ false = ap is_null next_b in
      (
        s1,
        settle_stays head this s1 more (ap idle at_this ∙ stay1),
        subst (λ q. Freed i (s this) q true) (sym at_this)
            (settled-Freed i (s this) (s this).prev (s this).next _ true v h used ring refl),
        bitmaps,
        inr (inl (left, refl, pointers)),
      )

  -- A page that is free as a whole leaves when another page is in the ring.
  leaves-Returns :
      0 < (s this).num_avail
      → Linked this (s this)
      → (suc (s this).num_avail == (s this).max_num_elems) ≡ true
      → same_pointer (s this).prev (s this).next ≡ false
      → Returns head this i s false (settle head this s1)
  unfolding Returns s1
  leaves-Returns left linked full other =
      let several : (s this).num_avail + 1 ≢ 1 = λ e. absurd (omega arith) in
      let more : ((s1 this).num_avail == 1) ≡ false =
        ap (λ p. p.num_avail == 1) at_this ∙ ==_ne _ 1 several in
      let up : (s this).num_avail + 1 ≡ suc (s this).num_avail = omega arith in
      let full1 : ((s1 this).num_avail == (s1 this).max_num_elems) ≡ true =
        ap (λ p. p.num_avail == p.max_num_elems) at_this
        ∙ ap (λ n. n == (s this).max_num_elems) up
        ∙ full in
      let t : Pages = write this (doomed (s1 this)) s1 in
      let t_this : t this ≡ doomed (put_back i (s this)) =
        write_self this (doomed (s1 this)) s1 ∙ ap doomed at_this in
      let t_pointers : StaysPut s1 t = write-StaysPut this (doomed (s1 this)) s1 refl refl in
      let (s2, run, gone, same, leaves) =
        remove_from_pool_lem this t (subst (Linked this) (sym t_this) linked) in
      let stored : s2 this ≡ settled i (s this) none none false = gone ∙ ap unlinked t_this in
      (
        s2,
        settle_leaves head this s1 s2 more full1
            (ap (λ p. same_pointer p.prev p.next) at_this ∙ other) run,
        subst (λ q. Freed i (s this) q false) (sym stored)
            (settled-Freed i (s this) none none false false v h used refl refl),
        λ j d. same j ∙ ap (λ p. p.bitmap) (write_ne this j (doomed (s1 this)) s1 d) ∙ bitmaps j d,
        inr (
            inr (
              left,
              refl,
              LeavesRing-after this s s1 s2 pointers
                  (LeavesRing-after this s1 t s2 t_pointers leaves),
            )),
      )

  decided :
      (k : Bool)
      → keeps (s this) ≡ k
      → Returns head this i s k (settle head this s1)
      → Returns head this i s (keeps (s this)) (settle head this s1)
  decided k e = subst (λ k. Returns head this i s k (settle head this s1)) (sym e)

  settle-Returns : Placed head this s → Returns head this i s (keeps (s this)) (settle head this s1)
  settle-Returns (inl (none_left, out)) =
      let kept : keeps (s this) ≡ true =
        ap (λ b. b || rest_keeps (s this)) (==_eq (s this).num_avail 0 none_left) in
      decided true kept (enters-Returns none_left out)
  settle-Returns (inr (left, linked)) =
      let some_left : keeps (s this) ≡ rest_keeps (s this) =
        ap (λ b. b || rest_keeps (s this))
          (==_ne (s this).num_avail 0 (λ e. absurd (omega arith))) in
      elim (Bool-cases (rest_keeps (s this))) [
        | inl stay ↦ decided true (some_left ∙ stay) (stays-Returns left linked stay)
        | inr go ↦
            let (full, other) = not_or_false _ _ go in
            decided false (some_left ∙ go) (leaves-Returns left linked full other)
      ]

-- For a valid page that has two neighbours in a ring if it has an element free, and is out of the
-- ring of the head otherwise, free of an element in use clears that element and no other, on this
-- page and on every other page, counts it and keeps the page valid. The result is false, and the
-- page is marked for destruction, exactly when the page had an element free before, all its elements
-- are free now and its two neighbours differ. A page that had no element free comes to lie between
-- the head and the page after it; one that is given up leaves the ring, and its two neighbours then
-- point at each other; in both cases no other pointer of any page changes, and in every other case
-- none at all.
pub free_lem :
    (head this i : ℕ) (s : Pages)
    → Valid (s this)
    → Placed head this s
    → is_zero (s this).elem_size ≡ false
    → i < (s this).max_num_elems
    → test_bit (s this).bitmap i ≡ 1
    → Returns head this i s (keeps (s this)) (free head this i s)
unfolding free s1
free_lem head this i s v placed is_cut h used =
    let start : free head this i s ≡ settle head this (write this (put_back i (s this)) s) =
      if_false _ _ _ is_cut ∙ ap (after_put head this s) (put_elem_lem (s this) v i h used) in
    subst (Returns head this i s (keeps (s this))) (sym start)
      (settle-Returns head this s v i h used placed)
