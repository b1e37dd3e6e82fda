-- ===== src/Subpage/Operations.antt =====
-- PoolSubpag.cpp: the constructor, init, allocate and free of a page, on the memory of all pages.
use cpp_nio_socket.Common.{
  ℕ, zero, suc, ◌+◌, ◌-◌, ◌/◌, ◌%◌, Bool, true, false, not, ◌&&◌, ◌||◌, Option, none, some, List,
  [], ◌∷◌, length, ltb, leb, ◌==◌, if◌then◌else◌, Outcome, M, ok, err, ◌>>◌, return, read,
  undefined, assertion_failed,
}
use cpp_nio_socket.Subpage.{
  PoolSubpage, Pages, write, is_zero, blank, to_handle, test_bit, mark, unmark, get_next_avail,
  set_next_avail, remove_from_pool, add_to_pool,
}

-- What allocate does to the page itself: it picks an index, marks it and counts it. An index of -1
-- would be looked up before the start of the bitmap.
abbrev pub take_index : Option ℕ × PoolSubpage → Outcome ℕ × PoolSubpage
take_index (none, p) = (err undefined, p)
take_index (some i, p) =
    if leb (length p.bitmap) (i / 64)
    then (err undefined, p)
    else if not (test_bit p.bitmap i == 0)
    then (err assertion_failed, p)
    else (ok i, record p { bitmap = mark p.bitmap i; num_avail = p.num_avail - 1 })

unfoldable pub take_elem : PoolSubpage → Outcome ℕ × PoolSubpage
unfolding get_next_avail
take_elem p = take_index (get_next_avail p)

-- The page leaves the ring with its last element.
abbrev pub leave_if_full : ℕ → ℕ → M Pages (Option ℕ)
leave_if_full this i s =
    if (s this).num_avail == 0
    then (remove_from_pool this >> read (λ t. to_handle (t this) i)) s
    else (ok (to_handle (s this) i), s)

abbrev pub after_take : ℕ → Pages → Outcome ℕ × PoolSubpage → Outcome (Option ℕ) × Pages
after_take this s (err e, p) = (err e, write this p s)
after_take this s (ok i, p) = leave_if_full this i (write this p s)

unfoldable pub allocate : ℕ → M Pages (Option ℕ)
unfolding remove_from_pool take_elem
allocate this s =
    if is_zero (s this).elem_size
    then (ok (to_handle (s this) 0), s)
    else if (s this).num_avail == 0 || not (s this).do_not_destroy
    then (ok none, s)
    else after_take this s (take_elem (s this))

-- What free does to the page itself.
unfoldable pub put_elem : ℕ → PoolSubpage → Outcome (Unit {0}) × PoolSubpage
put_elem i p =
    if leb (length p.bitmap) (i / 64)
    then (err undefined, p)
    else if test_bit p.bitmap i == 0
    then (err assertion_failed, p)
    else (
      ok tt,
      set_next_avail i (record p { bitmap = unmark p.bitmap i; num_avail = p.num_avail + 1 }),
    )

abbrev pub same_pointer : Option ℕ → Option ℕ → Bool
same_pointer none none = true
same_pointer none (some b) = false
same_pointer (some a) none = false
same_pointer (some a) (some b) = a == b

abbrev pub doomed : PoolSubpage → PoolSubpage
doomed p = record p { do_not_destroy = false }

abbrev pub retire : ℕ → M Pages Bool
retire this s = (remove_from_pool this >> return false) (write this (doomed (s this)) s)

-- free from the test of `numAvail_++` on; `num_avail` has been counted up.
abbrev pub settle : ℕ → ℕ → M Pages Bool
settle head this s =
    if (s this).num_avail == 1
    then (add_to_pool head this >> return true) s
    else if not ((s this).num_avail == (s this).max_num_elems)
    then (ok true, s)
    else if same_pointer (s this).prev (s this).next
    then (ok true, s)
    else retire this s

abbrev pub after_put : ℕ → ℕ → Pages → Outcome (Unit {0}) × PoolSubpage → Outcome Bool × Pages
after_put head this s (err e, p) = (err e, write this p s)
after_put head this s (ok t, p) = settle head this (write this p s)

unfoldable pub free : ℕ → ℕ → ℕ → M Pages Bool
unfolding remove_from_pool add_to_pool put_elem
free head this i s =
    if is_zero (s this).elem_size then (ok true, s) else after_put head this s (put_elem i (s this))

-- The loop of init that clears the words in use.
abbrev pub clear_words : ℕ → List ℕ → List ℕ
clear_words zero ws = ws
clear_words (suc n) [] = []
clear_words (suc n) (w ∷ ws) = 0 ∷ clear_words n ws

abbrev pub words_for : ℕ → ℕ
words_for n = if n % 64 == 0 then n / 64 else n / 64 + 1

-- The page as init leaves it before it is added to the ring.
unfoldable pub cut : ℕ → PoolSubpage → PoolSubpage
cut elem_size p =
    if elem_size == 0 then record p { do_not_destroy = true; elem_size = some 0 } else record p {
      do_not_destroy = true;
      elem_size = some elem_size;
      max_num_elems = p.page_size / elem_size;
      num_avail = p.page_size / elem_size;
      next_avail = some 0;
      bitmap_length = words_for (p.page_size / elem_size);
      bitmap = clear_words (words_for (p.page_size / elem_size)) p.bitmap;
    }

-- init(head, elemSize). Clearing words past the end of the array is undefined.
unfoldable pub init : ℕ → ℕ → ℕ → M Pages (Unit {0})
unfolding add_to_pool cut
init head elem_size this s =
    if not (elem_size == 0)
      && ltb (length (s this).bitmap) (words_for ((s this).page_size / elem_size))
    then (err undefined, s)
    else add_to_pool head this (write this (cut elem_size (s this)) s)

-- The constructor of a page of a chunk. `fresh` is what the memory of the bitmap's array holds.
unfoldable pub new_page : List ℕ → ℕ → ℕ → ℕ → ℕ → ℕ → ℕ → ℕ → M Pages (Unit {0})
unfolding init
new_page fresh head chunk memory_map_idx run_offset page_size elem_size this s =
    init head elem_size this (
      write this
        (record blank {
          chunk = some chunk;
          memory_map_idx = some memory_map_idx;
          run_offset = some run_offset;
          page_size = page_size;
          bitmap = fresh;
        })
        s)
