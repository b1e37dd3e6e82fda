-- ===== src/Queue/Represents.antt =====
-- The queue as a list: what each operation does to the nodes that the pointers run through.
use cpp_nio_socket.Common.{
  ℕ, ◌+◌, ◌-◌, ◌≡◌, refl, ap, ap₂, ◌∙◌, subst, arith, [], ◌∷◌, ◌++◌, length, length-append, Option,
  none, some, true, false, not, ◌&&◌, Outcome, ok, ==_eq, lt→ltb, ltb, if_true, if_false,
}
use cpp_nio_socket.Queue.{
  Item, Heap, ObjectQueue, write, is_null, set_next, set_item_next, linked, new_item, pop, pop_item,
  add_item,
}
use cpp_nio_socket.Queue.Segment.{
  Nodes, item, Absent, Segment, EndsAt, write_self, write-Segment, unused-Absent, append-Segment,
  EndsAt-append,
}

module _ {A : Type 0} where
  pub record Represents (q : ObjectQueue A) (ns : Nodes A) : Type 0 where
    pub segment : Segment q.heap q.head ns
    pub ends : EndsAt q.tail ns
    pub counted : q.size ≡ length ns

  -- `Becomes ns r a`: the run ends normally with the result `a`, on a queue with the nodes `ns`.
  abbrev pub Becomes : {B : Type 0} → Nodes A → Outcome B × ObjectQueue A → B → Type 0
  Becomes ns r b = (q : ObjectQueue A) × (r ≡ (ok b, q)) × Represents q ns

  added_first :
      (p : ℕ) (x : A) (q : ObjectQueue A)
      → q.head ≡ none
      → q.size ≡ 0
      → Becomes ((p, x) ∷ []) (add_item p (new_item p x q)) tt
  unfolding add_item
  added_first p x q no_head empty =
      let q' = record (new_item p x q) { head = some p; tail = some p; size = q.size + 1 } in
      (
        q',
        if_true _ _ _ (ap is_null no_head) ∙ if_true _ _ _ (==_eq q.size 0 empty),
        record {
          segment = (refl, tt, (none, write_self p (some (item x none)) q.heap, refl));
          ends = refl;
          counted = omega arith;
        },
      )

  EndsAt-some :
      (t : Option ℕ) (m : ℕ × A) (ns : Nodes A) → EndsAt t (m ∷ ns) → (a : ℕ) × (t ≡ some a)
  EndsAt-some t (a, x) [] e = (a, e)
  EndsAt-some t (a, x) (m ∷ ns) e = EndsAt-some t m ns e

  set_next_lem :
      (t q : ℕ) (h : Heap A) (last : Item A)
      → h t ≡ some last
      → set_next (some t) q h ≡ (ok tt, write t (some (record last { next = some q })) h)
  set_next_lem t q h last e = ap (λ o. set_item_next t o q h) e

  added_next :
      (p : ℕ) (x : A) (q : ObjectQueue A) (m : ℕ × A) (ns : Nodes A)
      → q.heap p ≡ none
      → Represents q (m ∷ ns)
      → Becomes ((m ∷ ns) ++ ((p, x) ∷ [])) (add_item p (new_item p x q)) tt
  unfolding add_item
  added_next p x q m ns free r =
      let (t, tail_t) = EndsAt-some q.tail m ns r.ends in
      let h1 : Heap A = write p (some (item x none)) q.heap in
      let out : Absent p (m ∷ ns) = unused-Absent p q.heap q.head (m ∷ ns) free r.segment in
      let s1 : Segment h1 q.head (m ∷ ns) =
        write-Segment p (some (item x none)) q.heap q.head (m ∷ ns) out r.segment in
      let (last, read, seg) =
        append-Segment h1 q.head t p x m ns (write_self p (some (item x none)) q.heap) out
          (subst (λ o. EndsAt o (m ∷ ns)) tail_t r.ends) s1 in
      let q1 = new_item p x q in
      let heap' : Heap A = write t (some (record last { next = some p })) h1 in
      let q' = record q { heap = heap'; tail = some p; size = q.size + 1 } in
      let run : set_next q.tail p h1 ≡ (ok tt, heap') =
        ap (λ o. set_next o p h1) tail_t ∙ set_next_lem t p h1 last read in
      let some_size : ltb 0 q.size ≡ true = lt→ltb 0 q.size (omega (arith, r.counted)) in
      let not_null : is_null q.tail ≡ false = ap is_null tail_t in
      let linked_run : add_item p q1 ≡ linked p q1 (set_next q.tail p h1) =
        if_false _ _ _ (ap is_null (r.segment.0))
        ∙ if_true _ _ _ (ap₂ (λ a b. a && not b) some_size not_null) in
      (
        q',
        linked_run ∙ ap (linked p q1) run,
        record {
          segment = seg;
          ends = EndsAt-append p x m ns;
          counted = omega (arith, r.counted, length-append (m ∷ ns) ((p, x) ∷ []));
        },
      )

  -- Adding an item at an address that nothing uses puts it last.
  pub added :
      (p : ℕ) (x : A) (q : ObjectQueue A) (ns : Nodes A)
      → q.heap p ≡ none
      → Represents q ns
      → Becomes (ns ++ ((p, x) ∷ [])) (add_item p (new_item p x q)) tt
  added p x q [] free r = added_first p x q r.segment r.counted
  added p x q (m ∷ ns) free r = added_next p x q m ns free r

  -- The first item leaves.
  pub popped :
      (a : ℕ) (x : A) (q : ObjectQueue A) (ns : Nodes A)
      → Represents q ((a, x) ∷ ns)
      → Becomes ns (pop q.head q) x
  popped a x q ns r =
      let (at, apart, (n, e, s)) = r.segment in
      let q' = record q { heap = write a none q.heap; head = n; size = q.size - 1 } in
      (
        q',
        ap (λ o. pop o q) at ∙ ap (λ o. pop_item a o q) e,
        record {
          segment = write-Segment a none q.heap n ns apart s;
          ends = rest_ends ns r.ends;
          counted = omega (arith, r.counted);
        },
      )
    where
      rest_ends : (ns : Nodes A) → EndsAt q.tail ((a, x) ∷ ns) → EndsAt q.tail ns
      rest_ends [] e = tt
      rest_ends (m ∷ ns) e = e
