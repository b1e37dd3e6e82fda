-- ===== src/Chunk/Replace.antt =====
-- The loops of PoolChunk.cpp that go up from a node whose value has changed: what they make of the
-- tree in which the node's run is replaced.
use cpp_nio_socket.Common.{
  ℕ, zero, suc, ◌+◌, ◌*◌, ◌-◌, ◌%◌, ◌^◌, ◌≤◌, ◌<◌, ◌≡◌, ◌≢◌, refl, arith, false, List, set, ◌==◌,
  if◌then◌else◌, ==_eq, ==_ne,
}
use native.Mathlib.Nat.{two-pow-succ}
use cpp_nio_socket.Chunk.{value, sibling}
use cpp_nio_socket.Chunk.Tree.{Buddy, free, taken, split, is_free, best, Canonical, Represents, anc}

abbrev pub left_half : Buddy → Buddy
left_half (split l r) = l
left_half free = free
left_half taken = free

abbrev pub right_half : Buddy → Buddy
right_half (split l r) = r
right_half free = free
right_half taken = free

abbrev pub merge : Buddy → Buddy → Buddy
merge free free = free
merge free taken = split free taken
merge free (split l r) = split free (split l r)
merge taken t = split taken t
merge (split l r) t = split (split l r) t

-- The run of node `j`, which is `e` levels below node `id` of the tree.
abbrev pub run_at : ℕ → ℕ → ℕ → Buddy → Buddy
run_at zero id j t = t
run_at (suc e) id j t =
    if anc e j == id * 2
    then run_at e (id * 2) j (left_half t)
    else run_at e (id * 2 + 1) j (right_half t)

-- The tree with another run there.
abbrev pub put : ℕ → ℕ → ℕ → Buddy → Buddy → Buddy
put zero id j x t = x
put (suc e) id j x t =
    if anc e j == id * 2
    then merge (put e (id * 2) j x (left_half t)) (right_half t)
    else merge (left_half t) (put e (id * 2 + 1) j x (right_half t))

-- The loop up from `j` over `e` levels to a node at depth `k`; `g` makes the value of a node of the
-- depth and the values of its halves.
unfoldable pub up : (ℕ → ℕ → ℕ → ℕ) → ℕ → ℕ → ℕ → List ℕ → List ℕ
up g zero k j m = m
up g (suc e) k j m =
    let m1 = up g e (suc k) j m in
    set m1 (anc (suc e) j) (g (suc k) (value m1 (anc e j)) (value m1 (sibling (anc e j))))

pub sibling_left : (id : ℕ) → sibling (id * 2) ≡ id * 2 + 1
sibling_left id = rw (==_eq (id * 2 % 2) 0 (omega arith)) refl

pub sibling_right : (id : ℕ) → sibling (id * 2 + 1) ≡ id * 2
sibling_right id =
    let back : id * 2 + 1 - 1 ≡ id * 2 = omega arith in
    rw (==_ne ((id * 2 + 1) % 2) 0 (omega arith)) back

pub Represents-halves :
    (u : ℕ) (m : List ℕ) (h k id : ℕ) (t : Buddy)
    → Represents u m (suc h) k id t
    → Represents u m h (suc k) (id * 2) (left_half t)
      × Represents u m h (suc k) (id * 2 + 1) (right_half t)
Represents-halves u m h k id free (v, r1, r2) = (r1, r2)
Represents-halves u m h k id taken (v, r1, r2) = (r1, r2)
Represents-halves u m h k id (split l r) (v, r1, r2, c) = (r1, r2)

pub Represents-merge :
    (u : ℕ) (m : List ℕ) (h k id : ℕ) (l r : Buddy)
    → value m id ≡ best u k (merge l r)
    → Represents u m h (suc k) (id * 2) l
    → Represents u m h (suc k) (id * 2 + 1) r
    → Represents u m (suc h) k id (merge l r)
Represents-merge u m h k id free free v r1 r2 = (v, r1, r2)
Represents-merge u m h k id free taken v r1 r2 = (v, r1, r2, tt)
Represents-merge u m h k id free (split a b) v r1 r2 = (v, r1, r2, tt)
Represents-merge u m h k id taken t v r1 r2 = (v, r1, r2, tt)
Represents-merge u m h k id (split a b) t v r1 r2 = (v, r1, r2, tt)

-- The values of a tree are at least its depth, and more where it is not free.
pub best-ge :
    (u : ℕ) (m : List ℕ) (h k id : ℕ) (t : Buddy)
    → k + h < u
    → Represents u m h k id t
    → (k ≤ best u k t) × (is_free t ≡ false → k < best u k t)
best-ge u m h k id free few r = (omega arith, λ e. cc)
best-ge u m h k id taken few r = (omega arith, λ e. omega arith)
best-ge u m zero k id (split a b) few r = absurd r
best-ge u m (suc h) k id (split a b) few (v, r1, r2, c) =
    let (p, _) = best-ge u m h (suc k) (id * 2) a (omega arith) r1 in
    let (q, _) = best-ge u m h (suc k) (id * 2 + 1) b (omega arith) r2 in
    (omega arith, λ e. omega arith)

-- The bytes that are free in a run of `2 ^ s` bytes.
abbrev pub bytes : ℕ → Buddy → ℕ
bytes s free = 2 ^ s
bytes s taken = 0
bytes s (split l r) = bytes (s - 1) l + bytes (s - 1) r

pub bytes-merge : (s : ℕ) (l r : Buddy) → bytes (s + 1) (merge l r) ≡ bytes s l + bytes s r
bytes-merge s free free =
    let e : s + 1 ≡ suc s = omega arith in
    let doubled : 2 ^ (s + 1) ≡ 2 ^ s + 2 ^ s = rw e (omega (arith, two-pow-succ s)) in doubled
bytes-merge s free taken = let e : s + 1 - 1 ≡ s = omega arith in rw e refl
bytes-merge s free (split a b) = let e : s + 1 - 1 ≡ s = omega arith in rw e refl
bytes-merge s taken r = let e : s + 1 - 1 ≡ s = omega arith in rw e refl
bytes-merge s (split a b) r = let e : s + 1 - 1 ≡ s = omega arith in rw e refl

pub left_half-merge : (l r : Buddy) → left_half (merge l r) ≡ l
left_half-merge free free = refl
left_half-merge free taken = refl
left_half-merge free (split a b) = refl
left_half-merge taken r = refl
left_half-merge (split a b) r = refl

pub right_half-merge : (l r : Buddy) → right_half (merge l r) ≡ r
right_half-merge free free = refl
right_half-merge free taken = refl
right_half-merge free (split a b) = refl
right_half-merge taken r = refl
right_half-merge (split a b) r = refl

pub merge-Canonical : (l r : Buddy) → Canonical l r → merge l r ≡ split l r
merge-Canonical free free c = absurd c
merge-Canonical free taken c = refl
merge-Canonical free (split a b) c = refl
merge-Canonical taken r c = refl
merge-Canonical (split a b) r c = refl

-- The run of node `j` is taken as a whole, and was not taken with more around it.
abbrev pub IsTaken : ℕ → ℕ → ℕ → Buddy → Type 0
IsTaken zero id j taken = Unit {0}
IsTaken zero id j free = ⊥
IsTaken zero id j (split l r) = ⊥
IsTaken (suc e) id j (split l r) =
    if anc e j == id * 2 then IsTaken e (id * 2) j l else IsTaken e (id * 2 + 1) j r
IsTaken (suc e) id j free = ⊥
IsTaken (suc e) id j taken = ⊥

merge_taken_left : (e id j : ℕ) (l r : Buddy) → IsTaken e id j l → merge l r ≡ split l r
merge_taken_left zero id j free r h = absurd h
merge_taken_left zero id j taken r h = refl
merge_taken_left zero id j (split a b) r h = refl
merge_taken_left (suc e) id j free r h = absurd h
merge_taken_left (suc e) id j taken r h = refl
merge_taken_left (suc e) id j (split a b) r h = refl

merge_taken_right : (e id j : ℕ) (l r : Buddy) → IsTaken e id j r → merge l r ≡ split l r
merge_taken_right zero id j free free h = absurd h
merge_taken_right (suc e) id j free free h = absurd h
merge_taken_right e id j free taken h = refl
merge_taken_right e id j free (split a b) h = refl
merge_taken_right e id j taken r h = refl
merge_taken_right e id j (split a b) r h = refl

pub IsTaken-left :
    (e id j : ℕ) (l r : Buddy)
    → anc e j ≡ id * 2
    → IsTaken e (id * 2) j l
    → IsTaken (suc e) id j (merge l r)
IsTaken-left e id j l r q h =
    rw (merge_taken_left e (id * 2) j l r h) (rw (==_eq (anc e j) (id * 2) q) h)

pub IsTaken-right :
    (e id j : ℕ) (l r : Buddy)
    → anc e j ≢ id * 2
    → IsTaken e (id * 2 + 1) j r
    → IsTaken (suc e) id j (merge l r)
IsTaken-right e id j l r ne h =
    rw (merge_taken_right e (id * 2 + 1) j l r h) (rw (==_ne (anc e j) (id * 2) ne) h)
