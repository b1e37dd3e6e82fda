-- ===== src/Subpage/Fresh.antt =====
-- init of a page: a page just cut is valid, and every element of it is free.
use cpp_nio_socket.Common.{
  ℕ, zero, suc, ◌*◌, ◌/◌, ◌%◌, ◌≤◌, ◌<◌, ◌≡◌, ◌≢◌, refl, sym, ap, ap₂, ◌∙◌, subst, arith,
  ℕ_discrete, List, [], ◌∷◌, length, get_or, Option, some, true, ok, ==_eq, ==_ne, le→ltb, if_false,
  not, ◌&&◌,
}
use cpp_nio_socket.Bits.{bit}
use cpp_nio_socket.Bits.Single.{bit-zero}
use cpp_nio_socket.Subpage.{PoolSubpage, Pages, write, test_bit, add_to_pool}
use cpp_nio_socket.Subpage.Bitmap.{Words}
use cpp_nio_socket.Subpage.Count.{clear_count}
use cpp_nio_socket.Subpage.Operations.{init, cut, clear_words, words_for}
use cpp_nio_socket.Subpage.Valid.{Valid}
use cpp_nio_socket.Subpage.Ring.{
  write_self, write_ne, Linked, Unlinked, StaysPut, JoinsRing, JoinsRing-after, write-StaysPut,
  add_to_pool_lem,
}
use cpp_nio_socket.Subpage.Settle.{with_links}

length-clear_words : (n : ℕ) (b : List ℕ) → length (clear_words n b) ≡ length b
length-clear_words zero b = refl
length-clear_words (suc n) [] = refl
length-clear_words (suc n) (w ∷ b) = ap suc (length-clear_words n b)

get_or-clear_words : (n k : ℕ) (b : List ℕ) → k < n → get_or (clear_words n b) k 0 ≡ 0
get_or-clear_words zero k b h = absurd (omega arith)
get_or-clear_words (suc n) k [] h = refl
get_or-clear_words (suc n) zero (w ∷ b) h = refl
get_or-clear_words (suc n) (suc k) (w ∷ b) h = get_or-clear_words n k b (omega arith)

clear_words-Words : (n : ℕ) (b : List ℕ) → Words b → Words (clear_words n b)
clear_words-Words zero b ws k = ws k
clear_words-Words (suc n) [] ws k = ws k
clear_words-Words (suc n) (w ∷ b) ws zero = omega arith
clear_words-Words (suc n) (w ∷ b) ws (suc k) = clear_words-Words n b (λ k. ws (suc k)) k

clear_words-free : (n i : ℕ) (b : List ℕ) → i < n * 64 → test_bit (clear_words n b) i ≡ 0
unfolding test_bit
clear_words-free n i b h =
    ap (bit (i % 64)) (get_or-clear_words n (i / 64) b (omega arith)) ∙ bit-zero (i % 64)

clear_count-all : (b : List ℕ) (n : ℕ) → ((i : ℕ) → i < n → test_bit b i ≡ 0) → clear_count b n ≡ n
unfolding clear_count
clear_count-all b zero h = refl
clear_count-all b (suc n) h =
    omega (arith, h n (omega arith), clear_count-all b n (λ i p. h i (omega arith)))

words_for-enough : (n : ℕ) → n ≤ words_for n * 64
words_for-enough n = elim (ℕ_discrete (n % 64) 0) [
  | yes e ↦ rw (==_eq (n % 64) 0 e) (omega arith)
  | no ne ↦ rw (==_ne (n % 64) 0 ne) (omega arith)
]

-- The page that is cut, with its links.
abbrev linked_cut : ℕ → PoolSubpage → Option ℕ → Option ℕ → PoolSubpage
linked_cut elem_size p x y = record p {
  prev = x;
  next = y;
  do_not_destroy = true;
  elem_size = some elem_size;
  max_num_elems = p.page_size / elem_size;
  num_avail = p.page_size / elem_size;
  next_avail = some 0;
  bitmap_length = words_for (p.page_size / elem_size);
  bitmap = clear_words (words_for (p.page_size / elem_size)) p.bitmap;
}

cut_fields :
    (elem_size : ℕ) (p : PoolSubpage)
    → elem_size ≢ 0
    → cut elem_size p ≡ linked_cut elem_size p p.prev p.next
unfolding cut
cut_fields elem_size p ne = if_false _ _ _ (==_ne elem_size 0 ne)

-- What init leaves: a valid page in the ring, behind its head, with as many free elements as it has room for.
pub record Initialised (head elem_size : ℕ) (this : ℕ) (s s' : Pages) : Type 0 where
  pub is_valid : Valid (s' this)
  pub is_linked : Linked this (s' this)
  pub joins : JoinsRing head this s s'
  pub all_free : (i : ℕ) → i < (s' this).max_num_elems → test_bit (s' this).bitmap i ≡ 0
  pub all_left : (s' this).num_avail ≡ (s this).page_size / elem_size
  pub capacity : (s' this).max_num_elems ≡ (s this).page_size / elem_size

module _ (elem_size : ℕ) (p : PoolSubpage) (words : Words p.bitmap) (positive : elem_size ≢ 0)
    (fits : 0 < p.page_size / elem_size)
    (room : words_for (p.page_size / elem_size) ≤ length p.bitmap) where
  n : ℕ
  n = p.page_size / elem_size

  cut-free : (i : ℕ) → i < n → test_bit (clear_words (words_for n) p.bitmap) i ≡ 0
  unfolding n
  cut-free i h = clear_words-free (words_for n) i p.bitmap (omega (arith, words_for-enough n))

  cut-Valid : (x y : Option ℕ) → Valid (linked_cut elem_size p x y)
  unfolding n
  cut-Valid x y = record {
    words = clear_words-Words (words_for n) p.bitmap words;
    covered = words_for-enough n;
    held = rw (length-clear_words (words_for n) p.bitmap) room;
    counted = sym (clear_count-all (clear_words (words_for n) p.bitmap) n cut-free);
    hinted = (fits, cut-free 0 fits);
  }

-- For a page outside the ring, an element size that is not 0 and at most the page size, and an array
-- of 64-bit words with a bit for each element, init ends normally and leaves the page valid, with
-- all its page_size / elem_size elements free and counted, and in the ring between the head and the
-- page that came after it, each of which points at it; no other pointer of any page changes.
pub init_lem :
    (head elem_size this : ℕ) (s : Pages)
    → Unlinked head this s
    → Words (s this).bitmap
    → elem_size ≢ 0
    → 0 < (s this).page_size / elem_size
    → words_for ((s this).page_size / elem_size) ≤ length (s this).bitmap
    → (s' : Pages) × (init head elem_size this s ≡ (ok tt, s'))
      × Initialised head elem_size this s s'
unfolding init n
init_lem head elem_size this s out words positive fits room =
    let (a, no_prev, no_next, next_a, not_head, not_a) = out in
    let q : PoolSubpage = cut elem_size (s this) in
    let e = cut_fields elem_size (s this) positive in
    let t : Pages = write this q s in
    let t_this : t this ≡ q = write_self this q s in
    let pointers : StaysPut s t =
      write-StaysPut this q s (ap (λ p. p.prev) e) (ap (λ p. p.next) e) in
    let out' : Unlinked head this t = (
      a,
      ap (λ p. p.prev) (t_this ∙ e) ∙ no_prev,
      ap (λ p. p.next) (t_this ∙ e) ∙ no_next,
      ap (λ p. p.next) (write_ne this head q s (λ x. not_head (sym x))) ∙ next_a,
      not_head,
      not_a,
    ) in
    let (s', m, not_m, run, at_this, same, joined) = add_to_pool_lem head this t out' in
    let stored : s' this ≡ linked_cut elem_size (s this) (some head) (some m) =
      at_this ∙ ap (λ p. with_links p (some head) (some m)) (t_this ∙ e) in
    let tests : init head elem_size this s ≡ add_to_pool head this t = if_false _ _ _ (
      ap₂ (λ a b. not a && b) (==_ne elem_size 0 positive)
        (le→ltb (length (s this).bitmap) (words_for ((s this).page_size / elem_size)) room)) in
    (
      s',
      tests ∙ run,
      record {
        is_valid =
            subst Valid (sym stored)
              (cut-Valid elem_size (s this) words positive fits room (some head) (some m));
        is_linked = subst (Linked this) (sym stored) (head, m, refl, refl, not_head, not_m);
        joins = JoinsRing-after head this s t s' pointers joined;
        all_free =
            subst (λ p. (i : ℕ) → i < p.max_num_elems → test_bit p.bitmap i ≡ 0) (sym stored)
              (cut-free elem_size (s this) words positive fits room);
        all_left = ap (λ p. p.num_avail) stored;
        capacity = ap (λ p. p.max_num_elems) stored;
      },
    )
