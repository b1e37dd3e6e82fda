-- ===== src/Queue/Segment.antt =====
-- A list of items in the heap: the nodes that the pointers run through, from the first to a null
-- pointer, at different addresses.
use cpp_nio_socket.Common.{
  ℕ, ◌≡◌, ◌≢◌, refl, sym, ap, ◌∙◌, List, [], ◌∷◌, ◌++◌, Option, none, some, ==_eq, ==_ne,
}
use mathlib.Core.Option.{some-injective, none-ne-some}
use cpp_nio_socket.Queue.{Item, Heap, write}

abbrev pub Nodes : Type 0 → Type 0
Nodes A = List (ℕ × A)

module _ {A : Type 0} where
  abbrev pub item : A → Option ℕ → Item A
  item x n = record { value = x; next = n }

  abbrev pub Absent : ℕ → Nodes A → Type 0
  Absent a [] = Unit {0}
  Absent a ((b, x) ∷ ns) = (b ≢ a) × Absent a ns

  abbrev pub Segment : Heap A → Option ℕ → Nodes A → Type 0
  Segment h p [] = p ≡ none
  Segment h p ((a, x) ∷ ns) =
      (p ≡ some a) × Absent a ns × ((n : Option ℕ) × (h a ≡ some (item x n)) × Segment h n ns)

  -- The tail pointer of a list that is not empty.
  abbrev pub EndsAt : Option ℕ → Nodes A → Type 0
  EndsAt t [] = Unit {0}
  EndsAt t ((a, x) ∷ []) = t ≡ some a
  EndsAt t ((a, x) ∷ m ∷ ns) = EndsAt t (m ∷ ns)

  abbrev pub values : Nodes A → List A
  values [] = []
  values ((a, x) ∷ ns) = x ∷ values ns

  pub values-append : (ns ms : Nodes A) → values (ns ++ ms) ≡ values ns ++ values ms
  values-append [] ms = refl
  values-append ((a, x) ∷ ns) ms = ap (◌∷◌ x) (values-append ns ms)

  pub write_self : (a : ℕ) (v : Option (Item A)) (h : Heap A) → write a v h a ≡ v
  write_self a v h = rw (==_eq a a refl) refl

  pub write_ne : (a b : ℕ) (v : Option (Item A)) (h : Heap A) → a ≢ b → write a v h b ≡ h b
  write_ne a b v h d = rw (==_ne a b d) refl

  -- A write to an address outside of the list.
  pub write-Segment :
      (c : ℕ) (v : Option (Item A)) (h : Heap A) (p : Option ℕ) (ns : Nodes A)
      → Absent c ns
      → Segment h p ns
      → Segment (write c v h) p ns
  write-Segment c v h p [] out s = s
  write-Segment c v h p ((a, x) ∷ ns) (ne, out) (at, apart, (n, e, s)) =
      (at, apart, (n, write_ne c a v h (λ q. ne (sym q)) ∙ e, write-Segment c v h n ns out s))

  -- An address of which the heap holds nothing is not in the list.
  pub unused-Absent :
      (c : ℕ) (h : Heap A) (p : Option ℕ) (ns : Nodes A) → h c ≡ none → Segment h p ns → Absent c ns
  unused-Absent c h p [] free s = tt
  unused-Absent c h p ((a, x) ∷ ns) free (at, apart, (n, e, s)) =
      (λ q. none-ne-some _ (sym free ∙ ap h (sym q) ∙ e), unused-Absent c h n ns free s)

  Absent-append :
      (c b : ℕ) (y : A) (ns : Nodes A) → Absent c ns → b ≢ c → Absent c (ns ++ ((b, y) ∷ []))
  Absent-append c b y [] out ne = (ne, tt)
  Absent-append c b y ((a, x) ∷ ns) (d, out) ne = (d, Absent-append c b y ns out ne)

  EndsAt-ne :
      (c t : ℕ) (m : ℕ × A) (ns : Nodes A) → Absent c (m ∷ ns) → EndsAt (some t) (m ∷ ns) → t ≢ c
  EndsAt-ne c t (a, y) [] (ne, out) e q = ne (sym (some-injective t a e) ∙ q)
  EndsAt-ne c t (a, y) (m ∷ ns) (ne, out) e q = EndsAt-ne c t m ns out e q

  -- The write by which addItem makes the last item point to a new one.
  pub append-Segment :
      (h : Heap A) (p : Option ℕ) (t q : ℕ) (x : A) (m : ℕ × A) (ns : Nodes A)
      → h q ≡ some (item x none)
      → Absent q (m ∷ ns)
      → EndsAt (some t) (m ∷ ns)
      → Segment h p (m ∷ ns)
      → (last : Item A) × (h t ≡ some last)
        × Segment (write t (some (record last { next = some q })) h) p ((m ∷ ns) ++ ((q, x) ∷ []))
  append-Segment h p t q x (a, y) [] new (ne, out) ends (at, apart, (n, e, s)) =
      let here : t ≡ a = some-injective t a ends in
      let read : h t ≡ some (item y n) = ap h here ∙ e in
      let h' = write t (some (item y (some q))) h in
      let changed : h' a ≡ some (item y (some q)) =
        ap h' (sym here) ∙ write_self t (some (item y (some q))) h in
      let kept : h' q ≡ some (item x none) =
        write_ne t q (some (item y (some q))) h (λ z. ne (sym here ∙ z)) ∙ new in
      (
        item y n,
        read,
        (at, ((λ z. ne (sym z)), tt), (some q, changed, (refl, tt, (none, kept, refl)))),
      )
  append-Segment h p t q x (a, y) (m ∷ ns) new (ne, out) ends (at, apart, (n, e, s)) =
      let (last, read, seg) = append-Segment h n t q x m ns new out ends s in
      let kept =
        write_ne t a (some (record last { next = some q })) h (EndsAt-ne a t m ns apart ends) in
      (last, read, (at, Absent-append a q x (m ∷ ns) apart (λ z. ne (sym z)), (n, kept ∙ e, seg)))

  pub EndsAt-append :
      (q : ℕ) (x : A) (m : ℕ × A) (ns : Nodes A) → EndsAt (some q) ((m ∷ ns) ++ ((q, x) ∷ []))
  EndsAt-append q x m [] = refl
  EndsAt-append q x m (n ∷ ns) = EndsAt-append q x n ns
