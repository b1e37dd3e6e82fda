-- ===== src/Tests/Arena.antt =====
-- Size classes for pages of 8192 bytes and chunks of 2 ^ 24.
use cpp_nio_socket.Common.{ℕ, ◌+◌, ◌*◌, ◌^◌, ◌≤◌, ◌<◌, ◌≡◌, refl, ◌⊎◌, arith, ok}
use cpp_nio_socket.Bits.{smear}
use cpp_nio_socket.Arena.{normalize_capacity, find_subpage_pool_head, small_pool, count_shifts}
use cpp_nio_socket.Arena.Classes.{
  IsNormal, power, normalize_capacity_lem, find_subpage_pool_head-injective,
}

rounds_100 : normalize_capacity (2 ^ 24) 100 ≡ ok 112
unfolding normalize_capacity
rounds_100 = refl

rounds_1000 : normalize_capacity (2 ^ 24) 1000 ≡ ok 1024
unfolding normalize_capacity smear
rounds_1000 = refl

serves_1024 : find_subpage_pool_head 1024 ≡ small_pool 1
unfolding find_subpage_pool_head count_shifts
serves_1024 = refl

normalize_capacity_lem_example :
    (n : ℕ) × (normalize_capacity (2 ^ 24) 1000 ≡ ok n)
    × (1000 ≤ n)
    × IsNormal n
    × ((n < 1000 + 16) ⊎ (n < 2 * 1000))
normalize_capacity_lem_example = normalize_capacity_lem (2 ^ 24) 1000 (omega arith) (omega arith)

find_subpage_pool_head-injective_example : 4096 ≡ 2 ^ 12
find_subpage_pool_head-injective_example =
    find_subpage_pool_head-injective 4096 (2 ^ 12) (power 12 (omega arith) refl)
      (power 12 (omega arith) refl) refl
