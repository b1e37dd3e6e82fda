-- ===== src/Memory.antt =====
-- HeapCharBufUtil.hpp: the fields of a char array, big-endian. A char is its bit pattern below 256,
-- and a value of 8, 16, 32 or 64 bits is its bit pattern too, so that the signed and the unsigned
-- function of each width are one. `& 0xff` is `% 2 ^ 8`, `>> k` is `/ 2 ^ k`; the terms that `|`
-- joins have no bit in common, so it is `+`. The caller tests the bounds.
pub mod Laws
use cpp_nio_socket.Common.{ℕ, suc, ◌+◌, ◌*◌, ◌/◌, ◌%◌, ◌^◌, List, [], ◌∷◌, get_or, set, take, drop}

-- The widths of the accessors, one for each pair of integer types.
pub data Width : Type 0 where
  char short int long : Width

abbrev pub size : Width → ℕ
size char = 1
size short = 2
size int = 4
size long = 8

-- `(value >> k) & 0xff`
abbrev pub byte : ℕ → ℕ → ℕ
byte v k = v / 2 ^ k % 2 ^ 8

-- memcpy from a separate array
unfoldable pub set_chars : List ℕ → ℕ → List ℕ → List ℕ
set_chars m i [] = m
set_chars m i (c ∷ cs) = set_chars (set m i c) (suc i) cs

unfoldable pub get_chars : List ℕ → ℕ → ℕ → List ℕ
get_chars m i n = take n (drop i m)

set_char : List ℕ → ℕ → ℕ → List ℕ
set_char m i v = set m i (v % 2 ^ 8)

set_short : List ℕ → ℕ → ℕ → List ℕ
set_short m i v = set (set m i (byte v 8)) (i + 1) (byte v 0)

set_int : List ℕ → ℕ → ℕ → List ℕ
set_int m i v =
    let m' = set (set m i (byte v 24)) (i + 1) (byte v 16) in
    set (set m' (i + 2) (byte v 8)) (i + 3) (byte v 0)

set_long : List ℕ → ℕ → ℕ → List ℕ
set_long m i v =
    let m1 = set (set m i (byte v 56)) (i + 1) (byte v 48) in
    let m2 = set (set m1 (i + 2) (byte v 40)) (i + 3) (byte v 32) in
    let m3 = set (set m2 (i + 4) (byte v 24)) (i + 5) (byte v 16) in
    set (set m3 (i + 6) (byte v 8)) (i + 7) (byte v 0)

-- `memory[index] & 0xff`
abbrev pub at : List ℕ → ℕ → ℕ
at m i = get_or m i 0 % 2 ^ 8

get_char : List ℕ → ℕ → ℕ
get_char m i = at m i

get_short : List ℕ → ℕ → ℕ
get_short m i = at m i * 2 ^ 8 + at m (i + 1)

get_int : List ℕ → ℕ → ℕ
get_int m i = at m i * 2 ^ 24 + at m (i + 1) * 2 ^ 16 + at m (i + 2) * 2 ^ 8 + at m (i + 3)

get_long : List ℕ → ℕ → ℕ
get_long m i =
    at m i * 2 ^ 56
    + at m (i + 1) * 2 ^ 48
    + at m (i + 2) * 2 ^ 40
    + at m (i + 3) * 2 ^ 32
    + at m (i + 4) * 2 ^ 24
    + at m (i + 5) * 2 ^ 16
    + at m (i + 6) * 2 ^ 8
    + at m (i + 7)

-- The accessor that the width selects.
unfoldable pub set_field : Width → List ℕ → ℕ → ℕ → List ℕ
unfolding set_char set_short set_int set_long
set_field char = set_char
set_field short = set_short
set_field int = set_int
set_field long = set_long

unfoldable pub get_field : Width → List ℕ → ℕ → ℕ
unfolding get_char get_short get_int get_long
get_field char = get_char
get_field short = get_short
get_field int = get_int
get_field long = get_long
