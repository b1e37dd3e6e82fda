-- ===== src/Subpage/Valid.antt =====
-- What holds of a page between the operations, and what taking and putting back an element do to it.
use cpp_nio_socket.Common.{
  ℕ, ◌+◌, ◌-◌, ◌*◌, ◌/◌, ◌≤◌, ◌<◌, ◌≡◌, inl, inr, refl, sym, ap, ap₂, ◌∙◌, subst, arith, length,
  Option, none, some, ok, ==_eq, ==_ne, lt→leb, Option-cases,
}
use cpp_nio_socket.Subpage.{
  PoolSubpage, test_bit, mark, unmark, find_next_avail, get_next_avail, next_or_search,
  set_next_avail,
}
use cpp_nio_socket.Subpage.Bitmap.{
  Words, mark_self, mark_ne, mark-Words, unmark_self, unmark_ne, unmark-Words, length-mark,
  length-unmark,
}
use cpp_nio_socket.Subpage.Count.{clear_count, clear_count_step, clear_count_witness}
use cpp_nio_socket.Subpage.Search.{find_words-first}
use cpp_nio_socket.Subpage.Operations.{take_elem, take_index, put_elem}

-- The element that `nextAvail_` names is free.
abbrev pub Hinted : PoolSubpage → Option ℕ → Type 0
Hinted p none = Unit {0}
Hinted p (some i) = (i < p.max_num_elems) × (test_bit p.bitmap i ≡ 0)

pub record Valid (p : PoolSubpage) : Type 0 where
  pub words : Words p.bitmap
  pub covered : p.max_num_elems ≤ p.bitmap_length * 64
  pub held : p.bitmap_length ≤ length p.bitmap
  pub counted : p.num_avail ≡ clear_count p.bitmap p.max_num_elems
  pub hinted : Hinted p p.next_avail

-- The page without the free element `i`.
abbrev pub taken_from : ℕ → PoolSubpage → PoolSubpage
taken_from i p = record p {
  next_avail = none;
  bitmap = mark p.bitmap i;
  num_avail = p.num_avail - 1;
}

-- The page with the element `i` again.
abbrev pub put_back : ℕ → PoolSubpage → PoolSubpage
put_back i p = record p {
  next_avail = some i;
  bitmap = unmark p.bitmap i;
  num_avail = p.num_avail + 1;
}

module _ (p : PoolSubpage) (v : Valid p) (i : ℕ) (h : i < p.max_num_elems) where
  pub in_bitmap : i / 64 < length p.bitmap
  in_bitmap = omega (arith, v.covered, v.held)

  pub taken_from-Valid : test_bit p.bitmap i ≡ 0 → Valid (taken_from i p)
  taken_from-Valid clear = record {
    words = mark-Words p.bitmap i in_bitmap v.words;
    covered = v.covered;
    held = rw (length-mark p.bitmap i) v.held;
    counted = omega (
      arith,
      v.counted,
      clear_count_step p.bitmap (mark p.bitmap i) i p.max_num_elems h clear
          (mark_self p.bitmap i in_bitmap) (mark_ne p.bitmap i in_bitmap),
    );
    hinted = tt;
  }

  pub put_back-Valid : test_bit p.bitmap i ≡ 1 → Valid (put_back i p)
  put_back-Valid used = record {
    words = unmark-Words p.bitmap i in_bitmap used v.words;
    covered = v.covered;
    held = rw (length-unmark p.bitmap i) v.held;
    counted = omega (
      arith,
      v.counted,
      clear_count_step (unmark p.bitmap i) p.bitmap i p.max_num_elems h
          (unmark_self p.bitmap i in_bitmap used) used
          (λ j d. sym (unmark_ne p.bitmap i in_bitmap used j d)),
    );
    hinted = (h, unmark_self p.bitmap i in_bitmap used);
  }

  take_index_lem :
      test_bit p.bitmap i ≡ 0
      → take_index (some i, record p { next_avail = none }) ≡ (ok i, taken_from i p)
  take_index_lem clear =
      rw (lt→leb (length p.bitmap) (i / 64) in_bitmap, ==_eq (test_bit p.bitmap i) 0 clear) refl

  pub put_elem_lem : test_bit p.bitmap i ≡ 1 → put_elem i p ≡ (ok tt, put_back i p)
  unfolding put_elem set_next_avail
  put_elem_lem used =
      rw
        (
          lt→leb (length p.bitmap) (i / 64) in_bitmap,
          ==_ne (test_bit p.bitmap i) 0 (λ z. absurd (omega arith)),
        )
        refl

find_next_avail-free :
    (p : PoolSubpage)
    → Valid p
    → 0 < p.num_avail
    → (i : ℕ) × (find_next_avail p ≡ some i) × (i < p.max_num_elems) × (test_bit p.bitmap i ≡ 0)
unfolding find_next_avail
find_next_avail-free p v some_left =
    let (c, h, clear) =
      clear_count_witness p.bitmap p.max_num_elems (omega (arith, some_left, v.counted)) in
    find_words-first p.max_num_elems p.bitmap p.bitmap_length 0 c v.words (omega arith)
      (omega (arith, h, v.covered)) h clear

no_hint : (p : PoolSubpage) → p.next_avail ≡ none → get_next_avail p ≡ (find_next_avail p, p)
unfolding get_next_avail
no_hint p e = ap (λ o. next_or_search o p) e

-- While elements are left, one is found, and the assertion holds.
pub take_elem_lem :
    (p : PoolSubpage)
    → Valid p
    → 0 < p.num_avail
    → (i : ℕ) × (take_elem p ≡ (ok i, taken_from i p))
      × (i < p.max_num_elems)
      × (test_bit p.bitmap i ≡ 0)
unfolding take_elem get_next_avail
take_elem_lem p v some_left = elim (Option-cases p.next_avail) [
  | inr (i, e) ↦
      let (h, clear) : Hinted p (some i) = subst (Hinted p) e v.hinted in
      (i, (rw e (take_index_lem p v i h clear)), h, clear)
  | inl e ↦
      let (i, found, h, clear) = find_next_avail-free p v some_left in
      let start : get_next_avail p ≡ (some i, record p { next_avail = none }) =
        no_hint p e ∙ ap₂ (λ o q. (o, q)) found (ap (λ o. record p { next_avail = o }) e) in
      (i, (ap take_index start ∙ take_index_lem p v i h clear), h, clear)
]
