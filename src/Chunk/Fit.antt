-- ===== src/Chunk/Fit.antt =====
-- What PoolChunk::allocateNode searches for, and the steps of its search.
use cpp_nio_socket.Common.{
  ℕ, zero, suc, ◌+◌, ◌*◌, ◌/◌, ◌^◌, ◌≤◌, ◌<◌, ◌≡◌, refl, arith, Bool, true, false, ◌||◌, Option,
  none, some, List, ltb, lt→ltb, le→ltb, ==_ne,
}
use native.Mathlib.Nat.{two-pow-succ, div-eq_of_lt, div-mul-le_self, lt-div-mul-add}
use cpp_nio_socket.Chunk.{value, clear_bits, descend}
use cpp_nio_socket.Chunk.Tree.{Buddy, free, taken, split, anc}
use cpp_nio_socket.Chunk.Replace.{run_at, put, bytes, IsTaken, sibling_left}

abbrev or_else : Option ℕ → Option ℕ → Option ℕ
or_else none o = o
or_else (some j) o = some j

-- The node, `e` levels below node `id`, of the leftmost free run that can be had there.
abbrev pub first_fit : ℕ → ℕ → Buddy → Option ℕ
first_fit zero id free = some id
first_fit zero id taken = none
first_fit zero id (split l r) = none
first_fit (suc e) id free = first_fit e (id * 2) free
first_fit (suc e) id taken = none
first_fit (suc e) id (split l r) = or_else (first_fit e (id * 2) l) (first_fit e (id * 2 + 1) r)

-- The node is at depth `k`.
abbrev pub AtDepth : ℕ → ℕ → Type 0
AtDepth k id = (2 ^ k ≤ id) × (id < 2 ^ suc k)

or_true : (b : Bool) → (b || true) ≡ true
or_true true = refl
or_true false = refl

clear_above : (d id : ℕ) → id < 2 ^ d → clear_bits d id ≡ 0
clear_above d id lt = let z : id / 2 ^ d ≡ 0 = div-eq_of_lt lt in rw z (omega arith)

one_of : (q p n : ℕ) → q * p ≤ n → n < q * p + p → p ≤ n → n < p + p → q * p ≡ p
one_of zero p n a b c d = absurd (omega arith)
one_of (suc zero) p n a b c d = omega arith
one_of (suc (suc q)) p n a b c d = absurd (omega (arith, more))
  where
    more : suc (suc q) * p ≡ q * p + p + p
    more = omega arith

pub clear_at : (d id : ℕ) → AtDepth d id → clear_bits d id ≡ 2 ^ d
clear_at d id (lo, hi) =
    one_of (id / 2 ^ d) (2 ^ d) id (div-mul-le_self id (2 ^ d))
      (lt-div-mul-add {a = id} {b = 2 ^ d} (omega (arith, two-pow-succ d, hi, lo))) lo
      (omega (arith, two-pow-succ d, hi))

pub descend_left :
    (e d id : ℕ) (m : List ℕ)
    → id < 2 ^ d
    → value m (id * 2) ≤ d
    → descend (suc e) d id m ≡ descend e d (id * 2) m
unfolding descend
descend_left e d id m lt low =
    rw (clear_above d id lt, or_true (ltb (value m id) d), le→ltb d (value m (id * 2)) low) refl

pub descend_right :
    (e d id : ℕ) (m : List ℕ)
    → id < 2 ^ d
    → d < value m (id * 2)
    → descend (suc e) d id m ≡ descend e d (id * 2 + 1) m
unfolding descend
descend_right e d id m lt high =
    rw
      (
        clear_above d id lt,
        or_true (ltb (value m id) d),
        lt→ltb d (value m (id * 2)) high,
        sibling_left id,
      )
      refl

pub descend_here :
    (e d id : ℕ) (m : List ℕ) → AtDepth d id → value m id ≡ d → descend (suc e) d id m ≡ some id
unfolding descend
descend_here e d id m at v =
    rw
      (
        clear_at d id at,
        le→ltb (value m id) d (omega arith),
        ==_ne (2 ^ d) 0 (omega (arith, two-pow-succ d, at.0, at.1)),
      )
      refl

pub AtDepth-left : (k id : ℕ) → AtDepth k id → AtDepth (suc k) (id * 2)
AtDepth-left k id (lo, hi) =
    (omega (arith, two-pow-succ k), omega (arith, two-pow-succ (suc k), two-pow-succ k))

pub AtDepth-right : (k id : ℕ) → AtDepth k id → AtDepth (suc k) (id * 2 + 1)
AtDepth-right k id (lo, hi) =
    (omega (arith, two-pow-succ k), omega (arith, two-pow-succ (suc k), two-pow-succ k))

-- The node that the search finds.
pub record Found (e d id : ℕ) (m : List ℕ) (t : Buddy) : Type 0 where
  pub node : ℕ
  pub fits : first_fit e id t ≡ some node
  pub found : descend (suc e) d id m ≡ some node
  pub below : anc e node ≡ id
  pub is_free : run_at e id node t ≡ free
  pub at : AtDepth d node
  pub counts : (s : ℕ) → bytes (s + e) (put e id node taken t) + 2 ^ s ≡ bytes (s + e) t
  pub is_taken : IsTaken e id node (put e id node taken t)
  pub back : put e id node free (put e id node taken t) ≡ t
