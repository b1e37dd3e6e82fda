-- ===== src/Memory/Laws.antt =====
-- The accessors of HeapCharBufUtil.hpp against big-endian lists of bytes.
use cpp_nio_socket.Common.{
  ℕ, zero, suc, ◌+◌, ◌-◌, ◌*◌, ◌%◌, ◌^◌, ◌≤◌, ◌<◌, ◌≡◌, refl, sym, ap, ◌∙◌, List, [], ◌∷◌, ◌++◌,
  arith, set, take, drop, length, length-set, get_or-drop, get_or-append_left, take-append-drop,
  drop-append_right, take-append_left, take-take, length-take, length-drop, drop-drop,
  drop-append_left, ◌⊎◌, inl, inr,
}
use cpp_nio_socket.Memory.{
  Width, char, short, int, long, size, byte, at, set_chars, set_field, get_field,
}

-- The bytes of a value, the most significant first.
abbrev pub encode : Width → ℕ → List ℕ
encode char v = (v % 2 ^ 8) ∷ []
encode short v = byte v 8 ∷ byte v 0 ∷ []
encode int v = byte v 24 ∷ byte v 16 ∷ byte v 8 ∷ byte v 0 ∷ []
encode long v =
    byte v 56 ∷ byte v 48 ∷ byte v 40 ∷ byte v 32 ∷ byte v 24 ∷ byte v 16 ∷ byte v 8 ∷ byte v 0 ∷ []

-- The number that the first bytes of a list stand for.
abbrev pub decode : Width → List ℕ → ℕ
decode char xs = at xs 0
decode short xs = at xs 0 * 2 ^ 8 + at xs 1
decode int xs = at xs 0 * 2 ^ 24 + at xs 1 * 2 ^ 16 + at xs 2 * 2 ^ 8 + at xs 3
decode long xs =
    at xs 0 * 2 ^ 56
    + at xs 1 * 2 ^ 48
    + at xs 2 * 2 ^ 40
    + at xs 3 * 2 ^ 32
    + at xs 4 * 2 ^ 24
    + at xs 5 * 2 ^ 16
    + at xs 6 * 2 ^ 8
    + at xs 7

pub length-encode : (w : Width) (v : ℕ) → length (encode w v) ≡ size w
length-encode char v = refl
length-encode short v = refl
length-encode int v = refl
length-encode long v = refl

pub decode-encode :
    (w : Width) (v : ℕ) (rest : List ℕ) → v < 2 ^ (8 * size w) → decode w (encode w v ++ rest) ≡ v
decode-encode char v rest h = omega arith
decode-encode short v rest h = omega arith
decode-encode int v rest h = omega arith
decode-encode long v rest h = omega arith

pub decode-lt : (w : Width) (xs : List ℕ) → decode w xs < 2 ^ (8 * size w)
decode-lt char xs = omega arith
decode-lt short xs = omega arith
decode-lt int xs = omega arith
decode-lt long xs = omega arith

at-drop : (m : List ℕ) (i k : ℕ) → at (drop i m) k ≡ at m (i + k)
at-drop m i k = ap (λ c. c % 2 ^ 8) (get_or-drop i k m 0)

at-drop_zero : (m : List ℕ) (i : ℕ) → at (drop i m) 0 ≡ at m i
at-drop_zero m i = at-drop m i 0 ∙ ap (at m) (omega arith)

pub get_field-eq-decode : (w : Width) (m : List ℕ) (i : ℕ) → get_field w m i ≡ decode w (drop i m)
unfolding get_field
get_field-eq-decode char m i = sym (at-drop_zero m i)
get_field-eq-decode short m i = rw (at-drop_zero m i, at-drop m i 1)
get_field-eq-decode int m i = rw (at-drop_zero m i, at-drop m i 1, at-drop m i 2, at-drop m i 3)
get_field-eq-decode long m i = rw (
  at-drop_zero m i,
  at-drop m i 1,
  at-drop m i 2,
  at-drop m i 3,
  at-drop m i 4,
  at-drop m i 5,
  at-drop m i 6,
  at-drop m i 7,
)

at-append : (xs ys : List ℕ) (k : ℕ) → k < length xs → at (xs ++ ys) k ≡ at xs k
at-append xs ys k h = ap (λ c. c % 2 ^ 8) (get_or-append_left xs ys k 0 h)

-- What lies beyond the bytes of a field does not matter.
pub decode-append :
    (w : Width) (xs ys : List ℕ) → size w ≤ length xs → decode w (xs ++ ys) ≡ decode w xs
decode-append char xs ys h = rw (at-append xs ys 0 (omega arith))
decode-append short xs ys h = rw (at-append xs ys 0 (omega arith), at-append xs ys 1 h)
decode-append int xs ys h = rw (
  at-append xs ys 0 (omega arith),
  at-append xs ys 1 (omega arith),
  at-append xs ys 2 (omega arith),
  at-append xs ys 3 h,
)
decode-append long xs ys h = rw (
  at-append xs ys 0 (omega arith),
  at-append xs ys 1 (omega arith),
  at-append xs ys 2 (omega arith),
  at-append xs ys 3 (omega arith),
  at-append xs ys 4 (omega arith),
  at-append xs ys 5 (omega arith),
  at-append xs ys 6 (omega arith),
  at-append xs ys 7 h,
)

pub set_field-eq-set_chars :
    (w : Width) (m : List ℕ) (i v : ℕ) → set_field w m i v ≡ set_chars m i (encode w v)
unfolding set_field set_chars
set_field-eq-set_chars char m i v = refl
set_field-eq-set_chars short m i v = ground arith
set_field-eq-set_chars int m i v = ground arith
set_field-eq-set_chars long m i v = ground arith

pub length-set_chars : (m : List ℕ) (i : ℕ) (cs : List ℕ) → length (set_chars m i cs) ≡ length m
unfolding set_chars
length-set_chars m i [] = refl
length-set_chars m i (c ∷ cs) = length-set_chars (set m i c) (suc i) cs ∙ length-set m i c

set_chars-cons :
    (y : ℕ) (m : List ℕ) (i : ℕ) (cs : List ℕ) → set_chars (y ∷ m) (suc i) cs ≡ y ∷ set_chars m i cs
unfolding set_chars
set_chars-cons y m i [] = refl
set_chars-cons y m i (c ∷ cs) = set_chars-cons y (set m i c) (suc i) cs

-- The copied bytes replace as many bytes of the array, and no other.
pub set_chars_lem :
    (m : List ℕ) (i : ℕ) (cs : List ℕ)
    → i + length cs ≤ length m
    → set_chars m i cs ≡ take i m ++ (cs ++ drop (i + length cs) m)
unfolding set_chars
set_chars_lem m zero [] h = refl
set_chars_lem [] zero (c ∷ cs) h = absurd (omega arith)
set_chars_lem (y ∷ m) zero (c ∷ cs) h =
    let e : suc (0 + length cs) ≡ 0 + suc (length cs) = omega arith in
    set_chars-cons c m 0 cs
    ∙ ap (◌∷◌ c) (set_chars_lem m zero cs (omega arith) ∙ ap (λ k. cs ++ drop k (y ∷ m)) e)
set_chars_lem [] (suc i) cs h = absurd (omega arith)
set_chars_lem (y ∷ m) (suc i) cs h =
    let e : suc (i + length cs) ≡ suc i + length cs = omega arith in
    set_chars-cons y m i cs
    ∙ ap (◌∷◌ y)
        (set_chars_lem m i cs (omega arith) ∙ ap (λ k. take i m ++ (cs ++ drop k (y ∷ m))) e)

drop-set_chars_at :
    (m : List ℕ) (i : ℕ) (cs : List ℕ)
    → i + length cs ≤ length m
    → drop i (set_chars m i cs) ≡ cs ++ drop (i + length cs) m
drop-set_chars_at m i cs h =
    let n : length (take i m) ≡ i = omega (arith, length-take i m) in
    let e : i - i ≡ 0 = omega arith in
    rw (set_chars_lem m i cs h, drop-append_right i (take i m) _ (omega (arith, n)), n, e) refl

drop-set_chars_after :
    (m : List ℕ) (i j : ℕ) (cs : List ℕ)
    → i + length cs ≤ length m
    → i + length cs ≤ j
    → drop j (set_chars m i cs) ≡ drop j m
drop-set_chars_after m i j cs h k =
    let e : i + (j - i) ≡ j = omega arith in
    let e' : i + length cs + (j - i - length cs) ≡ j = omega arith in
    ap (λ n. drop n (set_chars m i cs)) (sym e)
    ∙ sym (drop-drop (j - i) i (set_chars m i cs))
    ∙ ap (drop (j - i)) (drop-set_chars_at m i cs h)
    ∙ drop-append_right (j - i) cs _ (omega arith)
    ∙ drop-drop (j - i - length cs) (i + length cs) m
    ∙ ap (λ n. drop n m) e'

take-set_chars :
    (m : List ℕ) (i : ℕ) (cs : List ℕ)
    → i + length cs ≤ length m
    → take i (set_chars m i cs) ≡ take i m
take-set_chars m i cs h = rw (set_chars_lem m i cs h) (
    take-append_left i (take i m) _ (omega (arith, length-take i m))
    ∙ take-take i i m (omega arith))

-- A field below index `i` depends on the bytes below `i` alone.
get_field-take :
    (w : Width) (m : List ℕ) (i j : ℕ)
    → j + size w ≤ i
    → i ≤ length m
    → get_field w m j ≡ decode w (drop j (take i m))
get_field-take w m i j h k =
    get_field-eq-decode w m j
    ∙ ap (λ (l : List ℕ). decode w (drop j l)) (sym (take-append-drop i m))
    ∙ ap (decode w) (drop-append_left j (take i m) (drop i m) (omega (arith, length-take i m)))
    ∙ decode-append w (drop j (take i m)) (drop i m)
        (omega (arith, length-drop j (take i m), length-take i m))

-- A value in range of a width that is written inside the array is read back unchanged by the
-- accessor of that width.
pub get_field-set_field_self :
    (w : Width) (m : List ℕ) (i v : ℕ)
    → i + size w ≤ length m
    → v < 2 ^ (8 * size w)
    → get_field w (set_field w m i v) i ≡ v
get_field-set_field_self w m i v h k =
    get_field-eq-decode w (set_field w m i v) i
    ∙ ap (λ (l : List ℕ). decode w (drop i l)) (set_field-eq-set_chars w m i v)
    ∙ ap (decode w) (drop-set_chars_at m i (encode w v) (omega (arith, length-encode w v)))
    ∙ decode-encode w v _ k

-- Writing a field inside the array changes no field inside it, of whatever width, that does not
-- overlap the written one.
pub get_field-set_field_apart :
    (w u : Width) (m : List ℕ) (i j v : ℕ)
    → i + size w ≤ length m
    → j + size u ≤ length m
    → (j + size u ≤ i) ⊎ (i + size w ≤ j)
    → get_field u (set_field w m i v) j ≡ get_field u m j
get_field-set_field_apart w u m i j v h k (inl below) =
    let n : length (encode w v) ≡ size w = length-encode w v in
    rw (set_field-eq-set_chars w m i v) (
      get_field-take u _ i j below (omega (arith, length-set_chars m i (encode w v)))
      ∙ ap (λ (l : List ℕ). decode u (drop j l))
          (take-set_chars m i (encode w v) (omega (arith, n)))
      ∙ sym (get_field-take u m i j below (omega arith)))
get_field-set_field_apart w u m i j v h k (inr above) =
    let n : length (encode w v) ≡ size w = length-encode w v in
    rw (set_field-eq-set_chars w m i v) (
      get_field-eq-decode u _ j
      ∙ ap (decode u)
          (drop-set_chars_after m i j (encode w v) (omega (arith, n)) (omega (arith, n)))
      ∙ sym (get_field-eq-decode u m j))
