-- ===== src/Subpage/Ring.antt =====
-- removeFromPool, addToPool: what they do to the pointers of a ring of pages.
use cpp_nio_socket.Common.{
  ℕ, ◌≡◌, ◌≢◌, refl, sym, ap, ap₂, ◌∙◌, ℕ_discrete, Option, none, some, true, ok, ==_eq, ==_ne,
  ◌&&◌, if◌then◌else◌, err, assertion_failed,
}
use cpp_nio_socket.Subpage.{
  PoolSubpage, Pages, write, is_null, unlink, link, enter, remove_from_pool, add_to_pool,
}

pub write_self : (this : ℕ) (p : PoolSubpage) (s : Pages) → write this p s this ≡ p
write_self this p s = rw (==_eq this this refl) refl

pub write_ne : (this j : ℕ) (p : PoolSubpage) (s : Pages) → this ≢ j → write this p s j ≡ s j
write_ne this j p s d = rw (==_ne this j d) refl

-- A write that keeps a part of its page keeps that part of every page.
pub write-kept :
    {X : Type 0} (part : PoolSubpage → X) (a : ℕ) (q : PoolSubpage) (s : Pages) (j : ℕ)
    → part q ≡ part (s a)
    → part (write a q s j) ≡ part (s j)
write-kept part a q s j e = elim (ℕ_discrete a j) [
  | yes here ↦ rw (==_eq a j here) (e ∙ ap (λ k. part (s k)) here)
  | no ne ↦ rw (==_ne a j ne) refl
]

-- The page has two neighbours in a ring, neither of which is the page itself.
abbrev pub Linked : ℕ → PoolSubpage → Type 0
Linked this p = (a : ℕ) × (b : ℕ) × (p.prev ≡ some a) × (p.next ≡ some b) × (a ≢ this) × (b ≢ this)

-- The page is out of the ring that starts at `head`, which has been closed.
abbrev pub Unlinked : ℕ → ℕ → Pages → Type 0
Unlinked head this s =
    (n : ℕ) × ((s this).prev ≡ none)
    × ((s this).next ≡ none)
    × ((s head).next ≡ some n)
    × (head ≢ this)
    × (n ≢ this)

-- No pointer changes.
abbrev pub StaysPut : Pages → Pages → Type 0
StaysPut s s' = (j : ℕ) → ((s' j).prev ≡ (s j).prev) × ((s' j).next ≡ (s j).next)

-- The page between `a` and `b` is out: these two point at each other, and no other pointer changes.
pub record Leaves (this a b : ℕ) (s s' : Pages) : Type 0 where
  pub own_prev : (s' this).prev ≡ none
  pub own_next : (s' this).next ≡ none
  pub before_next : (s' a).next ≡ some b
  pub after_prev : (s' b).prev ≡ some a
  pub other_prev : (j : ℕ) → this ≢ j → b ≢ j → (s' j).prev ≡ (s j).prev
  pub other_next : (j : ℕ) → this ≢ j → a ≢ j → (s' j).next ≡ (s j).next

abbrev pub LeavesRing : ℕ → Pages → Pages → Type 0
LeavesRing this s s' =
    (a : ℕ) × (b : ℕ) × ((s this).prev ≡ some a) × ((s this).next ≡ some b) × Leaves this a b s s'

-- The page is in, between the head and `n`, and no other pointer changes.
pub record Joins (head this n : ℕ) (s s' : Pages) : Type 0 where
  pub own_prev : (s' this).prev ≡ some head
  pub own_next : (s' this).next ≡ some n
  pub head_next : (s' head).next ≡ some this
  pub after_prev : (s' n).prev ≡ some this
  pub other_prev : (j : ℕ) → this ≢ j → n ≢ j → (s' j).prev ≡ (s j).prev
  pub other_next : (j : ℕ) → this ≢ j → head ≢ j → (s' j).next ≡ (s j).next

abbrev pub JoinsRing : ℕ → ℕ → Pages → Pages → Type 0
JoinsRing head this s s' = (n : ℕ) × ((s head).next ≡ some n) × Joins head this n s s'

pub LeavesRing-after :
    (this : ℕ) (s t s' : Pages) → StaysPut s t → LeavesRing this t s' → LeavesRing this s s'
LeavesRing-after this s t s' same (a, b, prev_a, next_b, l) = (
  a,
  b,
  sym (same this).0 ∙ prev_a,
  sym (same this).1 ∙ next_b,
  record {
    own_prev = l.own_prev;
    own_next = l.own_next;
    before_next = l.before_next;
    after_prev = l.after_prev;
    other_prev = λ j ne ne'. l.other_prev j ne ne' ∙ (same j).0;
    other_next = λ j ne ne'. l.other_next j ne ne' ∙ (same j).1;
  },
)

pub JoinsRing-after :
    (head this : ℕ) (s t s' : Pages)
    → StaysPut s t
    → JoinsRing head this t s'
    → JoinsRing head this s s'
JoinsRing-after head this s t s' same (n, next_n, k) = (
  n,
  sym (same head).1 ∙ next_n,
  record {
    own_prev = k.own_prev;
    own_next = k.own_next;
    head_next = k.head_next;
    after_prev = k.after_prev;
    other_prev = λ j ne ne'. k.other_prev j ne ne' ∙ (same j).0;
    other_next = λ j ne ne'. k.other_next j ne ne' ∙ (same j).1;
  },
)

-- A write that keeps the two pointers of its page.
pub write-StaysPut :
    (a : ℕ) (q : PoolSubpage) (s : Pages)
    → q.prev ≡ (s a).prev
    → q.next ≡ (s a).next
    → StaysPut s (write a q s)
write-StaysPut a q s e e' j =
    (write-kept (λ p. p.prev) a q s j e, write-kept (λ p. p.next) a q s j e')

abbrev pub unlinked : PoolSubpage → PoolSubpage
unlinked p = record p { next = none; prev = none }

-- removeFromPool of a page in a ring takes it out and touches no bitmap.
pub remove_from_pool_lem :
    (this : ℕ) (s : Pages)
    → Linked this (s this)
    → (s' : Pages) × (remove_from_pool this s ≡ (ok tt, s'))
      × (s' this ≡ unlinked (s this))
      × ((j : ℕ) → (s' j).bitmap ≡ (s j).bitmap)
      × LeavesRing this s s'
unfolding remove_from_pool
remove_from_pool_lem this s (a, b, prev_a, next_b, not_a, not_b) = (
  s3,
  ap₂ (λ p n. unlink p n this s) prev_a next_b,
  at_this,
  bitmaps,
  (
    a,
    b,
    prev_a,
    next_b,
    record {
      own_prev = ap (λ p. p.prev) at_this;
      own_next = ap (λ p. p.next) at_this;
      before_next =
          ap (λ p. p.next) (elsewhere a (λ e. not_a (sym e)))
          ∙ write-kept (λ p. p.next) b _ s1 a refl
          ∙ ap (λ p. p.next) (write_self a _ s);
      after_prev =
          ap (λ p. p.prev) (elsewhere b (λ e. not_b (sym e)))
          ∙ ap (λ p. p.prev) (write_self b _ s1);
      other_prev = λ j ne ne'.
          ap (λ p. p.prev) (elsewhere j ne ∙ write_ne b j _ s1 ne')
          ∙ write-kept (λ p. p.prev) a _ s j refl;
      other_next = λ j ne ne'.
          ap (λ p. p.next) (elsewhere j ne)
          ∙ write-kept (λ p. p.next) b _ s1 j refl
          ∙ ap (λ p. p.next) (write_ne a j _ s ne');
    },
  ),
)
  where
    s1 : Pages
    s1 = write a (record (s a) { next = some b }) s

    s2 : Pages
    s2 = write b (record (s1 b) { prev = some a }) s1

    s3 : Pages
    s3 = write this (record (s2 this) { next = none; prev = none }) s2

    kept : s2 this ≡ s this
    kept = write_ne b this _ s1 not_b ∙ write_ne a this _ s not_a

    at_this : s3 this ≡ unlinked (s this)
    at_this = write_self this _ s2 ∙ ap unlinked kept

    elsewhere : (j : ℕ) → this ≢ j → s3 j ≡ s2 j
    elsewhere j ne = write_ne this j _ s2 ne

    bitmaps : (j : ℕ) → (s3 j).bitmap ≡ (s j).bitmap
    bitmaps j =
        write-kept (λ p. p.bitmap) this _ s2 j refl
        ∙ write-kept (λ p. p.bitmap) b _ s1 j refl
        ∙ write-kept (λ p. p.bitmap) a _ s j refl

abbrev with_next : PoolSubpage → Option ℕ → PoolSubpage
with_next p o = record p { next = o }

-- addToPool of a page outside the ring puts it behind the head and touches no bitmap.
pub add_to_pool_lem :
    (head this : ℕ) (s : Pages)
    → Unlinked head this s
    → (s' : Pages) × (n : ℕ) × (n ≢ this)
      × (add_to_pool head this s ≡ (ok tt, s'))
      × (s' this ≡ record (s this) { prev = some head; next = some n })
      × ((j : ℕ) → (s' j).bitmap ≡ (s j).bitmap)
      × JoinsRing head this s s'
unfolding add_to_pool
add_to_pool_lem head this s (n, no_prev, no_next, next_n, not_head, not_n) = (
  s4,
  n,
  not_n,
  opened ∙ ap (λ o. link o head this s2) link_n,
  at_this,
  bitmaps,
  (
    n,
    next_n,
    record {
      own_prev = ap (λ p. p.prev) at_this;
      own_next = ap (λ p. p.next) at_this;
      head_next = ap (λ p. p.next) (write_self head _ s3);
      after_prev = write-kept (λ p. p.prev) head _ s3 n refl ∙ ap (λ p. p.prev) (write_self n _ s2);
      other_prev = λ j ne ne'.
          write-kept (λ p. p.prev) head _ s3 j refl
          ∙ ap (λ p. p.prev) (write_ne n j _ s2 ne' ∙ elsewhere j ne);
      other_next = λ j ne ne'.
          ap (λ p. p.next) (write_ne head j _ s3 ne')
          ∙ write-kept (λ p. p.next) n _ s2 j refl
          ∙ ap (λ p. p.next) (elsewhere j ne);
    },
  ),
)
  where
    s1 : Pages
    s1 = write this (record (s this) { prev = some head }) s

    s2 : Pages
    s2 = write this (record (s1 this) { next = (s1 head).next }) s1

    s3 : Pages
    s3 = write n (record (s2 n) { prev = some this }) s2

    s4 : Pages
    s4 = write head (record (s3 head) { next = some this }) s3

    nulls : (is_null (s this).prev && is_null (s this).next) ≡ true
    nulls = ap₂ (λ a b. is_null a && is_null b) no_prev no_next

    opened : add_to_pool head this s ≡ enter head this s
    opened = ap (λ c. if c then enter head this s else (err assertion_failed, s)) nulls

    head_next : (s1 head).next ≡ some n
    head_next = ap (λ p. p.next) (write_ne this head _ s (λ e. not_head (sym e))) ∙ next_n

    entered : s2 this ≡ record (s this) { prev = some head; next = some n }
    entered = write_self this _ s1 ∙ ap₂ with_next (write_self this _ s) head_next

    elsewhere : (j : ℕ) → this ≢ j → s2 j ≡ s j
    elsewhere j ne = write_ne this j _ s1 ne ∙ write_ne this j _ s ne

    link_n : (s2 this).next ≡ some n
    link_n = ap (λ p. p.next) entered

    at_this : s4 this ≡ record (s this) { prev = some head; next = some n }
    at_this = write_ne head this _ s3 not_head ∙ write_ne n this _ s2 not_n ∙ entered

    bitmaps : (j : ℕ) → (s4 j).bitmap ≡ (s j).bitmap
    bitmaps j =
        write-kept (λ p. p.bitmap) head _ s3 j refl
        ∙ write-kept (λ p. p.bitmap) n _ s2 j refl
        ∙ write-kept (λ p. p.bitmap) this _ s1 j refl
        ∙ write-kept (λ p. p.bitmap) this _ s j refl
