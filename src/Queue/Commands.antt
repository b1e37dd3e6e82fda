-- ===== src/Queue/Commands.antt =====
-- The queue beside a plain list: the same commands give the same answers.
use cpp_nio_socket.Common.{
  ℕ, suc, ◌≡◌, refl, sym, ap, ◌∙◌, subst, List, [], ◌∷◌, ◌++◌, append_assoc, append-nil, length,
  length-append, arith, take, drop, none, false, Outcome, M, ok, bind, ==_eq, ==_ne, ◌==◌, if_true,
  if_false,
}
use cpp_nio_socket.Queue
use cpp_nio_socket.Queue.{
  ObjectQueue, is_null, new_item, pop, item_value, value_at, add_item, add, add_items, add_all,
  drain, drain_count, peek, clear,
}
use cpp_nio_socket.Queue.Segment.{Nodes, values, values-append}
use cpp_nio_socket.Queue.Represents.{Represents, added, popped}
use cpp_nio_socket.Queue.Drain.{drain_lem, clear_lem, length-values, values-drop}

-- An operation with its arguments, and what it returns.
pub data Command (A : Type 0) : Type 0 where
  put : ℕ → A → Command A
  put_all : List (ℕ × A) → Command A
  get : Command A
  get_some : ℕ → Command A
  look : Command A
  count : Command A
  empty : Command A

pub data Answer (A : Type 0) : Type 0 where
  number : ℕ → Answer A
  element : A → Answer A
  elements : List A → Answer A
  done : Answer A

module _ {A : Type 0} (absent : A) where
  abbrev pub answer :
      {B : Type 0} → (B → Answer A) → Outcome B × ObjectQueue A → Outcome (Answer A) × ObjectQueue A
  answer f r = bind r (λ b q. (ok (f b), q))

  unfoldable pub execute : Command A → M (ObjectQueue A) (Answer A)
  execute (put p x) q = answer number (add p x q)
  execute (put_all ds) q = answer number (add_all ds q)
  execute get q = answer element (Queue.take absent q)
  execute (get_some n) q = answer elements (drain n q)
  execute look q = answer element (peek absent q)
  execute count q = (ok (number q.size), q)
  execute empty q = answer (λ _. done) (clear q)

  abbrev pub run : List (Command A) → M (ObjectQueue A) (List (Answer A))
  run [] q = (ok [], q)
  run (c ∷ cs) q = bind (execute c q) (λ a q. bind (run cs q) (λ rest q. (ok (a ∷ rest), q)))

  abbrev pub first : List A → A
  first [] = absent
  first (x ∷ xs) = x

  abbrev pub items : List (ℕ × A) → List A
  items [] = []
  items ((p, x) ∷ ds) = x ∷ items ds

  -- The same on a list: what is answered, and what is left.
  abbrev pub answered : Command A → List A → Answer A
  answered (put p x) xs = number (suc (length xs))
  answered (put_all ds) xs = number (length (xs ++ items ds))
  answered get xs = element (first xs)
  answered (get_some n) xs = elements (take (drain_count n (length xs)) xs)
  answered look xs = element (first xs)
  answered count xs = number (length xs)
  answered empty xs = done

  abbrev pub left_over : Command A → List A → List A
  left_over (put p x) xs = xs ++ (x ∷ [])
  left_over (put_all ds) xs = xs ++ items ds
  left_over get xs = drop 1 xs
  left_over (get_some n) xs = drop (drain_count n (length xs)) xs
  left_over look xs = xs
  left_over count xs = xs
  left_over empty xs = []

  abbrev pub reference : List (Command A) → List A → List (Answer A)
  reference [] xs = []
  reference (c ∷ cs) xs = answered c xs ∷ reference cs (left_over c xs)

  abbrev pub final : List (Command A) → List A → List A
  final [] xs = xs
  final (c ∷ cs) xs = final cs (left_over c xs)

  -- Each address that `new` returns is one that nothing uses at that time.
  abbrev pub FreshAll : List (ℕ × A) → ObjectQueue A → Type 0
  FreshAll [] q = Unit {0}
  FreshAll ((p, x) ∷ ds) q = (q.heap p ≡ none) × FreshAll ds ((add_item p (new_item p x q)).1)

  abbrev pub Fresh : Command A → ObjectQueue A → Type 0
  Fresh (put p x) q = q.heap p ≡ none
  Fresh (put_all ds) q = FreshAll ds q
  Fresh get q = Unit {0}
  Fresh (get_some n) q = Unit {0}
  Fresh look q = Unit {0}
  Fresh count q = Unit {0}
  Fresh empty q = Unit {0}

  abbrev pub AllFresh : List (Command A) → ObjectQueue A → Type 0
  AllFresh [] q = Unit {0}
  AllFresh (c ∷ cs) q = Fresh c q × AllFresh cs ((execute c q).1)

  -- The run ends normally with the result `b`, on a queue that holds `xs`.
  abbrev pub Leaves : {B : Type 0} → List A → Outcome B × ObjectQueue A → B → Type 0
  Leaves xs r b =
      (q : ObjectQueue A) × (ns : Nodes A) × (r ≡ (ok b, q)) × Represents q ns × (values ns ≡ xs)

  add_lem :
      (p : ℕ) (x : A) (q : ObjectQueue A) (ns : Nodes A)
      → q.heap p ≡ none
      → Represents q ns
      → Leaves (values ns ++ (x ∷ [])) (execute (put p x) q) (number (suc (length (values ns))))
  unfolding execute add
  add_lem p x q ns free r =
      let (q', e, r') = added p x q ns free r in
      let size : q'.size ≡ suc (length (values ns)) =
        omega (arith, r'.counted, length-append ns ((p, x) ∷ []), length-values ns) in
      (
        q',
        ns ++ ((p, x) ∷ []),
        ap (λ o. answer number (bind o (λ _ q. (ok q.size, q)))) e
            ∙ ap (λ s. (ok (number s), q')) size,
        r',
        values-append ns ((p, x) ∷ []),
      )

  add_items_lem :
      (ds : List (ℕ × A)) (q : ObjectQueue A) (ns : Nodes A)
      → FreshAll ds q
      → Represents q ns
      → Leaves (values ns ++ items ds) (add_items ds q) tt
  add_items_lem [] q ns fresh r = (q, ns, refl, r, sym (append-nil (values ns)))
  add_items_lem ((p, x) ∷ ds) q ns (free, fresh) r =
      let (q1, e, r1) = added p x q ns free r in
      let fresh1 : FreshAll ds q1 = subst (λ o. FreshAll ds (o.1)) e fresh in
      let (q2, ms, run, r2, same) = add_items_lem ds q1 (ns ++ ((p, x) ∷ [])) fresh1 r1 in
      (
        q2,
        ms,
        ap (λ o. bind o (λ _ q. add_items ds q)) e ∙ run,
        r2,
        same
            ∙ ap (λ l. l ++ items ds) (values-append ns ((p, x) ∷ []))
            ∙ append_assoc (values ns) (x ∷ []) (items ds),
      )

  add_all_lem :
      (ds : List (ℕ × A)) (q : ObjectQueue A) (ns : Nodes A)
      → FreshAll ds q
      → Represents q ns
      → Leaves
          (values ns ++ items ds)
          (execute (put_all ds) q)
          (number (length (values ns ++ items ds)))
  unfolding execute add_all
  add_all_lem ds q ns fresh r =
      let (q', ms, e, r', same) = add_items_lem ds q ns fresh r in
      let size : q'.size ≡ length (values ns ++ items ds) =
        r'.counted ∙ sym (length-values ms) ∙ ap length same in
      (
        q',
        ms,
        ap (λ o. answer number (bind o (λ _ q. (ok q.size, q)))) e
            ∙ ap (λ s. (ok (number s), q')) size,
        r',
        same,
      )

  take_lem :
      (q : ObjectQueue A) (ns : Nodes A)
      → Represents q ns
      → Leaves (drop 1 (values ns)) (execute get q) (element (first (values ns)))
  unfolding execute Queue.take
  take_lem q [] r = (q, [], ap (answer element) (if_true _ _ _ (==_eq q.size 0 r.counted)), r, refl)
  take_lem q ((a, x) ∷ ns) r =
      let (q', e, r') = popped a x q ns r in
      let some_left : (q.size == 0) ≡ false =
        ==_ne q.size 0 (λ z. absurd (omega (arith, r.counted))) in
      (q', ns, ap (answer element) (if_false _ _ _ some_left ∙ e), r', refl)

  peek_lem :
      (q : ObjectQueue A) (ns : Nodes A)
      → Represents q ns
      → Leaves (values ns) (execute look q) (element (first (values ns)))
  unfolding execute peek
  peek_lem q [] r = (q, [], ap (answer element) (if_true _ _ _ (==_eq q.size 0 r.counted)), r, refl)
  peek_lem q ((a, x) ∷ ns) r =
      let (at, apart, (n, e, s)) = r.segment in
      let some_left : (q.size == 0) ≡ false =
        ==_ne q.size 0 (λ z. absurd (omega (arith, r.counted))) in
      let read : value_at q.head q.heap ≡ ok x = ap (λ o. value_at o q.heap) at ∙ ap item_value e in
      (
        q,
        (a, x) ∷ ns,
        ap (answer element) (if_false _ _ _ some_left ∙ ap (λ v. (v, q)) read),
        r,
        refl,
      )

  execute_lem :
      (c : Command A) (q : ObjectQueue A) (ns : Nodes A)
      → Fresh c q
      → Represents q ns
      → Leaves (left_over c (values ns)) (execute c q) (answered c (values ns))
  unfolding execute
  execute_lem (put p x) q ns fresh r = add_lem p x q ns fresh r
  execute_lem (put_all ds) q ns fresh r = add_all_lem ds q ns fresh r
  execute_lem get q ns fresh r = take_lem q ns r
  execute_lem (get_some n) q ns fresh r =
      let (q', e, r') = drain_lem n q ns r in
      let k : drain_count n (length ns) ≡ drain_count n (length (values ns)) =
        ap (drain_count n) (sym (length-values ns)) in
      (
        q',
        drop (drain_count n (length ns)) ns,
        ap (answer elements) e ∙ ap (λ k. (ok (elements (take k (values ns))), q')) k,
        r',
        values-drop (drain_count n (length ns)) ns ∙ ap (λ k. drop k (values ns)) k,
      )
  execute_lem look q ns fresh r = peek_lem q ns r
  execute_lem count q ns fresh r =
      (q, ns, ap (λ s. (ok (number s), q)) (r.counted ∙ sym (length-values ns)), r, refl)
  execute_lem empty q ns fresh r =
      let (q', e, r') = clear_lem q ns r in (q', [], ap (answer (λ _. done)) e, r', refl)

  -- On a queue whose pointers run through a list of items, every sequence of add, add of a list,
  -- take, take of a list, peek, size and clear, in which new returns an address unused at that time,
  -- ends normally, and gives the answers that the same sequence gives on a plain list, where items
  -- are added at the end and removed at the front; the queue then holds what the list holds.
  pub run_lem :
      (cs : List (Command A)) (q : ObjectQueue A) (ns : Nodes A)
      → AllFresh cs q
      → Represents q ns
      → Leaves (final cs (values ns)) (run cs q) (reference cs (values ns))
  run_lem [] q ns fresh r = (q, ns, refl, r, refl)
  run_lem (c ∷ cs) q ns (fresh, later) r =
      let (q1, ms, e, r1, same) = execute_lem c q ns fresh r in
      let later1 : AllFresh cs q1 = subst (λ o. AllFresh cs (o.1)) e later in
      let (q2, ks, es, r2, same2) = run_lem cs q1 ms later1 r1 in
      let answers : reference cs (values ms) ≡ reference cs (left_over c (values ns)) =
        ap (reference cs) same in
      (
        q2,
        ks,
        ap (λ o. bind o (λ a q. bind (run cs q) (λ rest q. (ok (a ∷ rest), q)))) e
            ∙ ap (λ o. bind o (λ rest q. (ok (answered c (values ns) ∷ rest), q))) es
            ∙ ap (λ l. (ok (answered c (values ns) ∷ l), q2)) answers,
        r2,
        same2 ∙ ap (final cs) same,
      )
