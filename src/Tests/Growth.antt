-- ===== src/Tests/Growth.antt =====
-- CommUtil.hpp and calculateNewCapacity on numbers.
use cpp_nio_socket.Common.{ℕ, ◌*◌, ◌%◌, ◌^◌, ◌≤◌, ◌<◌, min, max, ◌≡◌, refl, inl, arith, none, ok}
use cpp_nio_socket.Bits.{smear}
use cpp_nio_socket.Capacity.{round_up_power2, grow, calculate_new_capacity}
use cpp_nio_socket.Capacity.Growth.{calculate_new_capacity_lem, grow_endless}

round_up_1000 : round_up_power2 1000 ≡ 1024
unfolding round_up_power2 smear
round_up_1000 = refl

calculate_new_capacity_lem_example :
    (j : ℕ) × (calculate_new_capacity 100 300 1000 ≡ ok (min (2 ^ j) 1000))
    × (300 ≤ min (2 ^ j) 1000)
    × (2 ^ j < 2 * max 100 300)
    × (j ≤ 30)
calculate_new_capacity_lem_example =
    calculate_new_capacity_lem 100 300 1000 (omega arith) (omega arith) (omega arith) (omega arith)

grow_endless_example : grow 1000 1 (round_up_power2 0 % 2 ^ 32) ≡ none
grow_endless_example = grow_endless 0 1 (omega arith) (inl refl) 1000
