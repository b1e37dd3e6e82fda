-- ===== src/Chunk/Log2.antt =====
-- PoolChunk::log2 on the powers of two.
use cpp_nio_socket.Common.{
  ℕ, zero, suc, ◌^◌, ◌<◌, ◌≡◌, refl, arith, ap, ◌∙◌, Bool, true, false, ◌&&◌, ◌==◌, ℕ_discrete,
  ==_ne,
}
use mathlib.Core.Bool.{false≢true}
use cpp_nio_socket.Chunk.{log2}

abbrev all_below : ℕ → (ℕ → Bool) → Bool
all_below zero f = true
all_below (suc n) f = f n && all_below n f

and_both : (a b : Bool) → (a && b) ≡ true → (a ≡ true) × (b ≡ true)
and_both true b e = (refl, e)
and_both false b e = absurd cc

all_below_lem : (n k : ℕ) (f : ℕ → Bool) → all_below n f ≡ true → k < n → f k ≡ true
all_below_lem zero k f e lt = absurd (omega arith)
all_below_lem (suc n) k f e lt = elim (ℕ_discrete k n) [
  | yes q ↦ ap f q ∙ (and_both (f n) (all_below n f) e).0
  | no ne ↦ all_below_lem n k f (and_both (f n) (all_below n f) e).1 (omega (arith, ne))
]

abbrev exact : ℕ → Bool
exact k = log2 (2 ^ k) == k

every_power : all_below 32 exact ≡ true
unfolding log2
every_power = refl

==_true : (a b : ℕ) → (a == b) ≡ true → a ≡ b
==_true a b e = elim (ℕ_discrete a b) [
  | yes q ↦ q
  | no ne ↦ absurd (false≢true (rw (==_ne a b ne) at e))
]

pub log2_pow : (k : ℕ) → k < 32 → log2 (2 ^ k) ≡ k
log2_pow k lt = ==_true (log2 (2 ^ k)) k (all_below_lem 32 k exact every_power lt)
