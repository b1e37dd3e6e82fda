-- ===== src/Subpage.antt =====
-- PoolSubpag.cpp and PoolSubpage.hpp: a page that is cut into elements of one size, with a bit for
-- each element, and the ring of the pages of one size that still have elements to give.
--
-- The memory is a function from addresses to pages; a null pointer is `none`, and so is an `int` of
-- -1. A word of the bitmap is the 64-bit `long` read without a sign, `q` and `r` of an index are its
-- quotient and its remainder by 64.
pub mod Bitmap
pub mod Search
pub mod Count
pub mod Operations
pub mod Valid
pub mod Ring
pub mod Pool
pub mod PutBack
pub mod Fresh
pub mod Settle
use cpp_nio_socket.Common.{
  ℕ, zero, suc, ◌+◌, ◌-◌, ◌*◌, ◌/◌, ◌%◌, ◌^◌, Bool, true, false, not, ◌&&◌, ◌||◌, Option, none,
  some, List, [], ◌∷◌, length, get_or, set, ltb, leb, ◌==◌, if◌then◌else◌, Outcome, M, ok, err,
  ◌>>=◌, ◌>>◌, return, read, update, throw, refuse_if, undefined, assertion_failed,
}
use cpp_nio_socket.Bits.{bit, set_bit, flip_bit}

pub record PoolSubpage : Type 0 where
  pub chunk : Option ℕ
  pub prev : Option ℕ
  pub next : Option ℕ
  pub memory_map_idx : Option ℕ
  pub run_offset : Option ℕ
  pub page_size : ℕ
  pub bitmap : List ℕ
  pub bitmap_length : ℕ
  pub do_not_destroy : Bool
  pub elem_size : Option ℕ
  pub max_num_elems : ℕ
  pub next_avail : Option ℕ
  pub num_avail : ℕ

abbrev pub Pages : Type 0
Pages = ℕ → PoolSubpage

abbrev pub write : ℕ → PoolSubpage → Pages → Pages
write this p s j = if this == j then p else s j

-- Is this `int` 0?
abbrev pub is_zero : Option ℕ → Bool
is_zero none = false
is_zero (some n) = n == 0

-- init(): the fields that both constructors begin with.
abbrev pub blank : PoolSubpage
blank = record {
  chunk = none;
  prev = none;
  next = none;
  memory_map_idx = none;
  run_offset = none;
  page_size = 0;
  bitmap = [];
  bitmap_length = 0;
  do_not_destroy = true;
  elem_size = none;
  max_num_elems = 0;
  next_avail = some 0;
  num_avail = 0;
}

-- The constructor of the head of a list of pages, with the two assignments by which PoolArena's
-- constructor closes the ring.
unfoldable pub new_head : ℕ → ℕ → PoolSubpage
new_head this page_size = record blank { page_size = page_size; prev = some this; next = some this }

-- The three accessors of a page that belongs to no chunk give 0.
abbrev if_owned {ℓ} : {A : Type ℓ} → Option ℕ → A → A → A
if_owned none a b = a
if_owned (some c) a b = b

unfoldable pub max_num_elements : PoolSubpage → ℕ
max_num_elements p = if_owned p.chunk 0 p.max_num_elems

unfoldable pub num_available : PoolSubpage → ℕ
num_available p = if_owned p.chunk 0 p.num_avail

unfoldable pub element_size : PoolSubpage → Option ℕ
element_size p = if_owned p.chunk (some 0) p.elem_size

-- toHandle: the three terms of the `|` share no bit, as a node of the chunk's map and an index are
-- less than 2 ^ 31 and 2 ^ 30. A node of -1 makes every bit 1, which is -1.
unfoldable pub to_handle : PoolSubpage → ℕ → Option ℕ
to_handle p bitmap_idx = elim p.memory_map_idx [
  | none ↦ none
  | some id ↦ some (2 ^ 62 + bitmap_idx * 2 ^ 32 + id)
]

-- The bit of an element: 1 when the element is in use.
unfoldable pub test_bit : List ℕ → ℕ → ℕ
test_bit bitmap i = bit (i % 64) (get_or bitmap (i / 64) 0)

unfoldable pub mark : List ℕ → ℕ → List ℕ
mark bitmap i = set bitmap (i / 64) (set_bit (i % 64) (get_or bitmap (i / 64) 0))

unfoldable pub unmark : List ℕ → ℕ → List ℕ
unmark bitmap i = set bitmap (i / 64) (flip_bit (i % 64) (get_or bitmap (i / 64) 0))

-- The loop of findNextAvail0 with `n` rounds to go; the `long` that is shifted keeps the bits that
-- the rounds test.
unfoldable pub find_next_avail0 : ℕ → ℕ → ℕ → ℕ → ℕ → Option ℕ
find_next_avail0 max_num_elems base_val zero j bits = none
find_next_avail0 max_num_elems base_val (suc n) j bits =
    if bits % 2 == 0
    then if ltb (base_val + j) max_num_elems then some (base_val + j) else none
    else find_next_avail0 max_num_elems base_val n (suc j) (bits / 2)

-- The loop of findNextAvail with `n` words to go.
unfoldable pub find_words : ℕ → List ℕ → ℕ → ℕ → Option ℕ
unfolding find_next_avail0
find_words max_num_elems bitmap zero i = none
find_words max_num_elems bitmap (suc n) i =
    if get_or bitmap i 0 == 2 ^ 64 - 1
    then find_words max_num_elems bitmap n (suc i)
    else find_next_avail0 max_num_elems (i * 64) 64 0 (get_or bitmap i 0)

unfoldable pub find_next_avail : PoolSubpage → Option ℕ
unfolding find_words
find_next_avail p = find_words p.max_num_elems p.bitmap p.bitmap_length 0

abbrev next_or_search : Option ℕ → PoolSubpage → Option ℕ × PoolSubpage
next_or_search (some i) p = (some i, record p { next_avail = none })
next_or_search none p = (find_next_avail p, p)

unfoldable pub get_next_avail : PoolSubpage → Option ℕ × PoolSubpage
unfolding find_next_avail
get_next_avail p = next_or_search p.next_avail p

unfoldable pub set_next_avail : ℕ → PoolSubpage → PoolSubpage
set_next_avail bitmap_idx p = record p { next_avail = some bitmap_idx }

-- removeFromPool, which writes through the two pointers of the page.
abbrev pub unlink : Option ℕ → Option ℕ → ℕ → M Pages (Unit {0})
unlink none n this s = (err assertion_failed, s)
unlink (some p) none this s = (err assertion_failed, s)
unlink (some p) (some n) this s =
    let s1 = write p (record (s p) { next = some n }) s in
    let s2 = write n (record (s1 n) { prev = some p }) s1 in
    (ok tt, write this (record (s2 this) { next = none; prev = none }) s2)

unfoldable pub remove_from_pool : ℕ → M Pages (Unit {0})
remove_from_pool this s = unlink (s this).prev (s this).next this s

-- The last two assignments of addToPool; `next_` is not tested for null.
abbrev pub link : Option ℕ → ℕ → ℕ → M Pages (Unit {0})
link none head this s = (err undefined, s)
link (some n) head this s =
    let s1 = write n (record (s n) { prev = some this }) s in
    (ok tt, write head (record (s1 head) { next = some this }) s1)

abbrev pub is_null : Option ℕ → Bool
is_null none = true
is_null (some a) = false

-- addToPool: the page's two pointers, then those of its neighbours.
abbrev pub enter : ℕ → ℕ → M Pages (Unit {0})
enter head this s =
    let s1 = write this (record (s this) { prev = some head }) s in
    let s2 = write this (record (s1 this) { next = (s1 head).next }) s1 in
    link (s2 this).next head this s2

unfoldable pub add_to_pool : ℕ → ℕ → M Pages (Unit {0})
add_to_pool head this s =
    if is_null (s this).prev && is_null (s this).next
    then enter head this s
    else (err assertion_failed, s)
