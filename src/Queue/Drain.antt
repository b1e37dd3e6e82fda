-- ===== src/Queue/Drain.antt =====
-- The operations that remove several items: take of a list, and clear.
use cpp_nio_socket.Common.{
  ℕ, zero, suc, ◌+◌, ◌≤◌, ◌<◌, ◌≡◌, refl, sym, ap, ap₂, ◌∙◌, subst, arith, [], ◌∷◌, length, take,
  drop, take-nil, drop-nil, true, false, not, ◌&&◌, Outcome, M, ok, bind, ==_eq, ==_ne, lt→ltb, ltb,
  ◌==◌, if_true, if_false, ltb,
}
use cpp_nio_socket.Queue.{
  ObjectQueue, is_null, pop, drain_items, drain, drain_count, clear_items, clear,
}
use cpp_nio_socket.Queue.Segment.{Nodes, values}
use cpp_nio_socket.Queue.Represents.{Represents, Becomes, popped}

drain_count-le : (n size : ℕ) → drain_count n size ≤ size
drain_count-le n size = ground arith

module _ {A : Type 0} where
  -- A run that goes on from where another one ends.
  pub bind-Becomes :
      {B C : Type 0} (ns : Nodes A) (r : Outcome B × ObjectQueue A) (b : B) (ms : Nodes A)
      (f : B → M (ObjectQueue A) C) (c : C)
      → Becomes ns r b
      → ((q : ObjectQueue A) → Represents q ns → Becomes ms (f b q) c)
      → Becomes ms (bind r f) c
  bind-Becomes ns r b ms f c (q, e, rep) next =
      let (q', e', rep') = next q rep in (q', ap (λ r. bind r f) e ∙ e', rep')

  drained :
      (k : ℕ) (q : ObjectQueue A) (ns : Nodes A)
      → k ≤ length ns
      → Represents q ns
      → Becomes (drop k ns) (drain_items k q) (take k (values ns))
  unfolding drain_items
  drained zero q ns h r = (q, refl, r)
  drained (suc k) q [] h r = absurd (omega arith)
  drained (suc k) q ((a, x) ∷ ns) h r =
      let some_left : (not (is_null q.head) && ltb 0 q.size) ≡ true =
        ap₂ (λ p b. not (is_null p) && b) (r.segment.0)
          (lt→ltb 0 q.size (omega (arith, r.counted))) in
      let (q', run, r') =
        bind-Becomes ns (pop q.head q) x (drop k ns)
          (λ x q. bind (drain_items k q) (λ xs q. (ok (x ∷ xs), q))) (x ∷ take k (values ns))
          (popped a x q ns r)
          (λ q1 r1.
            bind-Becomes (drop k ns) (drain_items k q1) (take k (values ns)) (drop k ns)
              (λ xs q. (ok (x ∷ xs), q)) (x ∷ take k (values ns)) (drained k q1 ns (omega arith) r1)
              (λ q2 r2. (q2, refl, r2))) in
      (q', if_true _ _ _ some_left ∙ run, r')

  cleared :
      (fuel : ℕ) (q : ObjectQueue A) (ns : Nodes A)
      → length ns < fuel
      → Represents q ns
      → Becomes [] (clear_items fuel q) tt
  unfolding clear_items
  cleared zero q ns h r = absurd (omega arith)
  cleared (suc fuel) q [] h r =
      (q, if_true _ _ _ (ap is_null (r.segment)) ∙ if_true _ _ _ (==_eq q.size 0 r.counted), r)
  cleared (suc fuel) q ((a, x) ∷ ns) h r =
      let (q', run, r') =
        bind-Becomes ns (pop q.head q) x [] (λ _ q. clear_items fuel q) tt (popped a x q ns r)
          (λ q1 r1. cleared fuel q1 ns (omega arith) r1) in
      (q', if_false _ _ _ (ap is_null (r.segment.0)) ∙ run, r')

  pub clear_lem : (q : ObjectQueue A) (ns : Nodes A) → Represents q ns → Becomes [] (clear q) tt
  unfolding clear
  clear_lem q ns r = cleared (q.size + 1) q ns (omega (arith, r.counted)) r

  pub length-values : (ns : Nodes A) → length (values ns) ≡ length ns
  length-values [] = refl
  length-values ((a, x) ∷ ns) = ap suc (length-values ns)

  pub drain_lem :
      (n : ℕ) (q : ObjectQueue A) (ns : Nodes A)
      → Represents q ns
      → Becomes
          (drop (drain_count n (length ns)) ns)
          (drain n q)
          (take (drain_count n (length ns)) (values ns))
  unfolding drain
  drain_lem n q [] r =
      let k = drain_count n 0 in
      (
        q,
        if_true _ _ _ (==_eq q.size 0 r.counted) ∙ ap (λ xs. (ok xs, q)) (sym (take-nil k)),
        subst (Represents q) (sym (drop-nil k)) r,
      )
  drain_lem n q (m ∷ ns) r =
      let k = drain_count n (length (m ∷ ns)) in
      let (q', run, r') = drained k q (m ∷ ns) (drain_count-le n (length (m ∷ ns))) r in
      let some_left : (q.size == 0) ≡ false =
        ==_ne q.size 0 (λ e. absurd (omega (arith, r.counted))) in
      (q', if_false _ _ _ some_left ∙ ap (λ s. drain_items (drain_count n s) q) r.counted ∙ run, r')

  pub values-drop : (k : ℕ) (ns : Nodes A) → values (drop k ns) ≡ drop k (values ns)
  values-drop zero ns = refl
  values-drop (suc k) [] = refl
  values-drop (suc k) ((a, x) ∷ ns) = values-drop k ns
