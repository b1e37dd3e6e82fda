-- ===== src/Chunk/Create.antt =====
-- The constructor of PoolChunk.hpp.
use cpp_nio_socket.Common.{
  ℕ, zero, suc, ◌+◌, ◌*◌, ◌-◌, ◌%◌, ◌^◌, ◌≤◌, ◌<◌, ◌≡◌, refl, sym, ap, ◌∙◌, subst, arith, List, ◌∷◌,
  length, get_or, ℕ_discrete,
}
use native.Mathlib.Nat.{two-pow-succ, pow-le-pow_right}
use cpp_nio_socket.Chunk.{value, fill_level, fill_levels, new_chunk}
use cpp_nio_socket.Chunk.Log2.{log2_pow}
use cpp_nio_socket.Chunk.Tree.{free, Represents}
use cpp_nio_socket.Chunk.Fit.{AtDepth, AtDepth-left, AtDepth-right}
use cpp_nio_socket.Chunk.Allocate.{IsChunk, depth-pos}

get_or-fill_level :
    (d p i : ℕ) (rest : List ℕ) → i < p → get_or (fill_level d p rest) i 0 ≡ d % 2 ^ 8
get_or-fill_level d zero i rest h = absurd (omega arith)
get_or-fill_level d (suc p) zero rest h = refl
get_or-fill_level d (suc p) (suc i) rest h = get_or-fill_level d p i rest (omega arith)

get_or-fill_level_past :
    (d p i : ℕ) (rest : List ℕ) → get_or (fill_level d p rest) (p + i) 0 ≡ get_or rest i 0
get_or-fill_level_past d zero i rest = let z : 0 + i ≡ i = omega arith in rw z refl
get_or-fill_level_past d (suc p) i rest =
    let q : suc p + i ≡ suc (p + i) = omega arith in rw q (get_or-fill_level_past d p i rest)

length-fill_level : (d p : ℕ) (rest : List ℕ) → length (fill_level d p rest) ≡ p + length rest
length-fill_level d zero rest = omega arith
length-fill_level d (suc p) rest = omega (arith, length-fill_level d p rest)

length-fill_levels : (n d : ℕ) → length (fill_levels n d) + 2 ^ d ≡ 2 ^ (n + d)
length-fill_levels zero d =
    let z : 0 + d ≡ d = omega arith in rw z (let k : 0 + 2 ^ d ≡ 2 ^ d = omega arith in k)
length-fill_levels (suc n) d =
    let q : suc n + d ≡ n + suc d = omega arith in
    rw q (
      omega (
        arith,
        length-fill_level d (2 ^ d) (fill_levels n (suc d)),
        length-fill_levels n (suc d),
        two-pow-succ d,
      ))

-- Counted from where its level begins, an entry is its depth.
fill_levels_lem :
    (n d k j : ℕ)
    → d ≤ k
    → k < n + d
    → AtDepth k j
    → get_or (fill_levels n d) (j - 2 ^ d) 0 ≡ k % 2 ^ 8
fill_levels_lem zero d k j le lt at = absurd (omega arith)
fill_levels_lem (suc n) d k j le lt (lo, hi) = elim (ℕ_discrete k d) [
  | yes e ↦
      let lo' : 2 ^ d ≤ j = subst (λ x. 2 ^ x ≤ j) e lo in
      let hi' : j < 2 ^ suc d = subst (λ x. j < 2 ^ suc x) e hi in
      get_or-fill_level d (2 ^ d) (j - 2 ^ d) (fill_levels n (suc d))
        (omega (arith, two-pow-succ d))
      ∙ ap (λ x. x % 2 ^ 8) (sym e)
  | no ne ↦
      let up : 2 ^ suc d ≤ 2 ^ k =
        pow-le-pow_right {n = 2} (omega arith) {i = suc d} {j = k} (omega (arith, ne)) in
      let q : j - 2 ^ d ≡ 2 ^ d + (j - 2 ^ suc d) = omega (arith, two-pow-succ d) in
      rw q (
        get_or-fill_level_past d (2 ^ d) (j - 2 ^ suc d) (fill_levels n (suc d))
        ∙ fill_levels_lem n (suc d) k j (omega (arith, ne)) (omega arith) (lo, hi))
]

map_lem :
    (fresh n k j : ℕ)
    → k ≤ n
    → n < 255
    → AtDepth k j
    → get_or (fresh ∷ fill_levels (suc n) 0) j 0 ≡ k
map_lem fresh n k zero le few at = absurd (omega (arith, depth-pos k 0 at))
map_lem fresh n k (suc i) le few at =
    let q : suc i - 2 ^ 0 ≡ i = omega arith in
    let small : k % 2 ^ 8 ≡ k = omega arith in
    ap (λ x. get_or (fill_levels (suc n) 0) x 0) (sym q)
    ∙ fill_levels_lem (suc n) 0 k (suc i) (omega arith) (omega arith) at
    ∙ small

all_free :
    (u n : ℕ) (m : List ℕ)
    → ((k j : ℕ) → k ≤ n → AtDepth k j → value m j ≡ k)
    → (h k id : ℕ) → k + h ≤ n
    → AtDepth k id
    → Represents u m h k id free
all_free u n m values zero k id le at = values k id (omega arith) at
all_free u n m values (suc h) k id le at = (
  values k id (omega arith) at,
  all_free u n m values h (suc k) (id * 2) (omega arith) (AtDepth-left k id at),
  all_free u n m values h (suc k) (id * 2 + 1) (omega arith) (AtDepth-right k id at),
)

-- The constructor makes, for a page size 2 ^ page_shifts, a deepest level below 255 and a chunk size
-- below 2 ^ 32, a chunk whose map stands for one free run, whose depths are right and of which all
-- bytes are free, whatever the memory of the maps held.
pub new_chunk-IsChunk :
    (fresh page_shifts max_order : ℕ)
    → max_order < 255
    → max_order + page_shifts < 32
    → IsChunk (new_chunk fresh (2 ^ (max_order + page_shifts)) page_shifts max_order) free
unfolding new_chunk
new_chunk-IsChunk fresh page_shifts n few int = record {
  maps = record {
    tree =
        all_free ((n + 1) % 2 ^ 8) n (fresh ∷ fill_levels (suc n) 0)
          (λ k j le at. map_lem fresh n k j le few at) n 0 1 (omega arith)
          (omega arith, omega arith);
    mark = omega arith;
    allocated = entries (length-fill_levels (suc n) 0);
  };
  depths = λ k j le at. map_lem fresh n k j le few at;
  shifts = log2_pow (n + page_shifts) int;
  counted = ap (λ x. 2 ^ x) (sym (log2_pow (n + page_shifts) int));
}
  where
    entries :
        length (fill_levels (suc n) 0) + 2 ^ 0 ≡ 2 ^ (suc n + 0)
        → suc (length (fill_levels (suc n) 0)) ≡ 2 ^ (n + 1)
    entries e =
        let q : suc n + 0 ≡ n + 1 = omega arith in
        let one : suc (length (fill_levels (suc n) 0)) ≡ length (fill_levels (suc n) 0) + 2 ^ 0 =
          omega arith in
        one ∙ e ∙ ap (λ x. 2 ^ x) q
