-- ===== src/Subpage/Bitmap.antt =====
-- The bitmap of a page as an array of bits: marking an element changes its bit and no other.
use cpp_nio_socket.Common.{
  ℕ, ◌/◌, ◌%◌, ◌^◌, ◌<◌, ◌≡◌, ◌≢◌, sym, ap, ◌∙◌, arith, ℕ_discrete, List, length, get_or, set,
  get_or-set_self, get_or-set_ne, length-set,
}
use cpp_nio_socket.Bits.{bit, bit-lt}
use cpp_nio_socket.Bits.Single.{
  set_bit_self, set_bit_ne, set_bit-lt, flip_bit_self, flip_bit_ne, flip_bit-lt,
}
use cpp_nio_socket.Subpage.{test_bit, mark, unmark}

-- Every word is one of 64 bits.
abbrev pub Words : List ℕ → Type 0
Words b = (k : ℕ) → get_or b k 0 < 2 ^ 64

pub test_bit-lt : (b : List ℕ) (i : ℕ) → test_bit b i < 2
unfolding test_bit
test_bit-lt b i = bit-lt (i % 64) (get_or b (i / 64) 0)

-- An array of which one word is replaced.
module _ (b : List ℕ) (i : ℕ) (h : i / 64 < length b) where
  pub replace_self : (w : ℕ) → test_bit (set b (i / 64) w) i ≡ bit (i % 64) w
  unfolding test_bit
  replace_self w = ap (bit (i % 64)) (get_or-set_self b (i / 64) w 0 h)

  replace_ne :
      (j w : ℕ)
      → i ≢ j
      → ((m : ℕ) → m ≢ i % 64 → bit m w ≡ bit m (get_or b (i / 64) 0))
      → test_bit (set b (i / 64) w) j ≡ test_bit b j
  unfolding test_bit
  replace_ne j w d same = elim (ℕ_discrete (i / 64) (j / 64)) [
    | yes e ↦
        rw (sym e) (rw (get_or-set_self b (i / 64) w 0 h) (same (j % 64) (λ q. d (omega arith))))
    | no ne ↦ ap (bit (j % 64)) (get_or-set_ne b w 0 ne)
  ]

  replace-Words : (w : ℕ) → w < 2 ^ 64 → Words b → Words (set b (i / 64) w)
  replace-Words w p ws k = elim (ℕ_discrete (i / 64) k) [
    | yes e ↦ rw (sym e) (rw (get_or-set_self b (i / 64) w 0 h) p)
    | no ne ↦ rw (get_or-set_ne b w 0 ne) (ws k)
  ]

  pub mark_self : test_bit (mark b i) i ≡ 1
  unfolding mark
  mark_self = replace_self _ ∙ set_bit_self (i % 64) (get_or b (i / 64) 0)

  pub mark_ne : (j : ℕ) → i ≢ j → test_bit (mark b i) j ≡ test_bit b j
  unfolding mark
  mark_ne j d = replace_ne j _ d (λ m ne. set_bit_ne m (i % 64) (get_or b (i / 64) 0) ne)

  pub mark-Words : Words b → Words (mark b i)
  unfolding mark
  mark-Words ws =
      replace-Words _ (set_bit-lt 64 (i % 64) (get_or b (i / 64) 0) (omega arith) (ws (i / 64))) ws

  module _ (used : test_bit b i ≡ 1) where
    pub unmark_self : test_bit (unmark b i) i ≡ 0
    unfolding test_bit unmark
    unmark_self = replace_self _ ∙ flip_bit_self (i % 64) (get_or b (i / 64) 0) used

    pub unmark_ne : (j : ℕ) → i ≢ j → test_bit (unmark b i) j ≡ test_bit b j
    unfolding test_bit unmark
    unmark_ne j d = replace_ne j _ d (λ m ne. flip_bit_ne m (i % 64) (get_or b (i / 64) 0) ne used)

    pub unmark-Words : Words b → Words (unmark b i)
    unfolding test_bit unmark
    unmark-Words ws =
        replace-Words _ (flip_bit-lt 64 (i % 64) (get_or b (i / 64) 0) used (ws (i / 64))) ws

pub length-mark : (b : List ℕ) (i : ℕ) → length (mark b i) ≡ length b
unfolding mark
length-mark b i = length-set b (i / 64) _

pub length-unmark : (b : List ℕ) (i : ℕ) → length (unmark b i) ≡ length b
unfolding unmark
length-unmark b i = length-set b (i / 64) _
