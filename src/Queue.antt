-- ===== src/Queue.antt =====
-- ObjectQueue.hpp: the first-in first-out queue between threads, a list of items linked by pointers.
-- An operation is what the code does while it holds the lock. A take that had to wait is the take on
-- the queue that it finds when it is woken.
--
-- `size_` is an `int` that is not negative. The address that `new` returns is an argument.
pub mod Segment
pub mod Represents
pub mod Drain
pub mod Commands
use cpp_nio_socket.Common.{
  ℕ, zero, suc, ◌+◌, ◌-◌, Bool, true, false, not, ◌&&◌, ◌||◌, Option, none, some, List, [], ◌∷◌,
  ltb, ◌==◌, if◌then◌else◌, Outcome, M, ok, err, bind, undefined, assertion_failed, endless,
}

pub record Item (A : Type 0) : Type 0 where
  pub value : A
  pub next : Option ℕ

abbrev pub Heap : Type 0 → Type 0
Heap A = ℕ → Option (Item A)

pub record ObjectQueue (A : Type 0) : Type 0 where
  pub heap : Heap A
  pub head : Option ℕ
  pub tail : Option ℕ
  pub size : ℕ

-- A queue that uses nothing of the heap yet.
abbrev pub new_queue : {A : Type 0} → Heap A → ObjectQueue A
new_queue h = record { heap = h; head = none; tail = none; size = 0 }

abbrev pub is_null : Option ℕ → Bool
is_null none = true
is_null (some a) = false

-- How many items take(l, drain_num) moves.
abbrev pub drain_count : ℕ → ℕ → ℕ
drain_count drain_num size =
    if drain_num == 0 then size else if ltb drain_num size then drain_num else size

module _ {A : Type 0} where
  abbrev pub write : ℕ → Option (Item A) → Heap A → Heap A
  write a v h b = if a == b then v else h b

  abbrev pub set_item_next : ℕ → Option (Item A) → ℕ → M (Heap A) (Unit {0})
  set_item_next p none q h = (err undefined, h)
  set_item_next p (some item) q h = (ok tt, write p (some (record item { next = some q })) h)

  -- `p->next = q`
  abbrev pub set_next : Option ℕ → ℕ → M (Heap A) (Unit {0})
  set_next none q h = (err undefined, h)
  set_next (some p) q h = set_item_next p (h p) q h

  abbrev pub linked :
      ℕ → ObjectQueue A → Outcome (Unit {0}) × Heap A → Outcome (Unit {0}) × ObjectQueue A
  linked p q (err e, h) = (err e, record q { heap = h })
  linked p q (ok t, h) = (ok tt, record q { heap = h; tail = some p; size = q.size + 1 })

  unfoldable pub add_item : ℕ → M (ObjectQueue A) (Unit {0})
  add_item p q =
      if is_null q.head
      then if q.size == 0
        then (ok tt, record q { head = some p; tail = some p; size = q.size + 1 })
        else (err assertion_failed, q)
      else if ltb 0 q.size && not (is_null q.tail)
      then linked p q (set_next q.tail p q.heap)
      else (err assertion_failed, q)

  -- addItem(new Item(data)); the result of add is the size.
  abbrev pub new_item : ℕ → A → ObjectQueue A → ObjectQueue A
  new_item p x q = record q { heap = write p (some (record { value = x; next = none })) q.heap }

  unfoldable pub add : ℕ → A → M (ObjectQueue A) ℕ
  unfolding add_item
  add p x q = bind (add_item p (new_item p x q)) (λ _ q. (ok q.size, q))

  -- add(datas): the addresses of the items and their data.
  abbrev add_items : List (ℕ × A) → M (ObjectQueue A) (Unit {0})
  add_items [] q = (ok tt, q)
  add_items ((p, x) ∷ ds) q = bind (add_item p (new_item p x q)) (λ _ q. add_items ds q)

  unfoldable pub add_all : List (ℕ × A) → M (ObjectQueue A) ℕ
  add_all ds q = bind (add_items ds q) (λ _ q. (ok q.size, q))

  -- The lines by which take, drain and clear remove the first item.
  abbrev pub pop_item : ℕ → Option (Item A) → M (ObjectQueue A) A
  pop_item a none q = (err undefined, q)
  pop_item a (some item) q =
      (ok item.value, record q { heap = write a none q.heap; head = item.next; size = q.size - 1 })

  abbrev pub pop : Option ℕ → M (ObjectQueue A) A
  pop none q = (err undefined, q)
  pop (some a) q = pop_item a (q.heap a) q

  -- take(timeout); `absent` is the value T().
  unfoldable pub take : A → M (ObjectQueue A) A
  take absent q = if q.size == 0 then (ok absent, q) else pop q.head q

  -- The loop of take(l, drain_num).
  unfoldable pub drain_items : ℕ → M (ObjectQueue A) (List A)
  drain_items zero q = (ok [], q)
  drain_items (suc n) q =
      if not (is_null q.head) && ltb 0 q.size
      then bind (pop q.head q) (λ x q. bind (drain_items n q) (λ xs q. (ok (x ∷ xs), q)))
      else (err assertion_failed, q)

  -- take(l, drain_num, timeout): what is appended to `l`. A negative `drain_num` is as 0.
  unfoldable pub drain : ℕ → M (ObjectQueue A) (List A)
  unfolding drain_items
  drain drain_num q =
      if q.size == 0 then (ok [], q) else drain_items (drain_count drain_num q.size) q

  abbrev pub item_value : Option (Item A) → Outcome A
  item_value none = err undefined
  item_value (some item) = ok item.value

  abbrev pub value_at : Option ℕ → Heap A → Outcome A
  value_at none h = err assertion_failed
  value_at (some a) h = item_value (h a)

  unfoldable pub peek : A → M (ObjectQueue A) A
  peek absent q = if q.size == 0 then (ok absent, q) else (value_at q.head q.heap, q)

  -- The loop of clear on fuel, then its last check.
  unfoldable pub clear_items : ℕ → M (ObjectQueue A) (Unit {0})
  clear_items zero q = (err endless, q)
  clear_items (suc fuel) q =
      let rest = bind (pop q.head q) (λ _ q. clear_items fuel q) in
      if is_null q.head then if q.size == 0 then (ok tt, q) else (err assertion_failed, q) else rest

  unfoldable pub clear : M (ObjectQueue A) (Unit {0})
  unfolding clear_items
  clear q = clear_items (q.size + 1) q
