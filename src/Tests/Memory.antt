-- ===== src/Tests/Memory.antt =====
-- HeapCharBufUtil.hpp on a small array.
use cpp_nio_socket.Common.{ℕ, ◌≡◌, refl, List, [], ◌∷◌}
use cpp_nio_socket.Memory.{int, long, set_field, get_field}

abbrev array : List ℕ
array = 1 ∷ 2 ∷ 3 ∷ 4 ∷ 5 ∷ 6 ∷ 7 ∷ 8 ∷ 9 ∷ 10 ∷ []

int_is_big_endian :
    set_field int array 1 0x11223344 ≡ 1 ∷ 0x11 ∷ 0x22 ∷ 0x33 ∷ 0x44 ∷ 6 ∷ 7 ∷ 8 ∷ 9 ∷ 10 ∷ []
unfolding set_field
int_is_big_endian = refl

get_long_runs : get_field long array 2 ≡ 0x030405060708090a
unfolding get_field
get_long_runs = refl
