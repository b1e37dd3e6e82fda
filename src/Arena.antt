-- ===== src/Arena.antt =====
-- The size classes of PoolArena.cpp and PoolArena.hpp: which capacity a request is rounded to, and
-- which list of subpages serves it. A capacity is an `int` that is not negative; `& ~(2 ^ k - 1)` clears
-- the last `k` bits. The page size is `2 ^ page_shifts`.
pub mod Classes
use cpp_nio_socket.Common.{
  ℕ, zero, suc, ◌+◌, ◌-◌, ◌*◌, ◌/◌, ◌%◌, ◌^◌, Bool, ltb, leb, ◌==◌, if◌then◌else◌, Outcome, ok, err,
  undefined,
}
use cpp_nio_socket.Bits.{smear}

pub data SizeClass : Type 0 where
  tiny small normal : SizeClass

abbrev pub num_tiny_subpage_pools : ℕ
num_tiny_subpage_pools = 32

-- numSmallSubpagePools_
abbrev pub num_small_subpage_pools : ℕ → ℕ
num_small_subpage_pools page_shifts = page_shifts - 9

abbrev pub clear : ℕ → ℕ → ℕ
clear k n = n / 2 ^ k * 2 ^ k

unfoldable pub is_tiny : ℕ → Bool
is_tiny norm_capacity = clear 9 norm_capacity == 0

unfoldable pub is_tiny_or_small : ℕ → ℕ → Bool
is_tiny_or_small page_shifts norm_capacity = clear page_shifts norm_capacity == 0

unfoldable pub tiny_idx : ℕ → ℕ
tiny_idx norm_capacity = norm_capacity / 2 ^ 4

-- `while (i != 0) { i >>= 1; tableIdx++; }`, for which as many rounds as `i` are enough.
unfoldable pub count_shifts : ℕ → ℕ → ℕ → ℕ
count_shifts zero i table_idx = table_idx
count_shifts (suc fuel) i table_idx =
    let rest = count_shifts fuel (i / 2) (table_idx + 1) in if i == 0 then table_idx else rest

unfoldable pub small_idx : ℕ → ℕ
small_idx norm_capacity = count_shifts (norm_capacity / 2 ^ 10) (norm_capacity / 2 ^ 10) 0

-- The shifts and ors are those of roundUpPower2. The increment past the largest `int` is undefined.
abbrev next_power : ℕ → Outcome ℕ
next_power n = if leb (2 ^ 31) (n + 1) then err undefined else ok (n + 1)

unfoldable pub normalize_capacity : ℕ → ℕ → Outcome ℕ
unfolding is_tiny
normalize_capacity chunk_size req_capacity =
    if leb chunk_size req_capacity
    then ok req_capacity
    else if is_tiny req_capacity
    then if req_capacity % 16 == 0 then ok req_capacity else ok (clear 4 req_capacity + 16)
    else next_power (smear (req_capacity - 1))

-- A list of subpages: its table and its index.
pub data PoolHead : Type 0 where
  tiny_pool small_pool : ℕ → PoolHead

unfoldable pub find_subpage_pool_head : ℕ → PoolHead
unfolding is_tiny tiny_idx small_idx
find_subpage_pool_head elem_size =
    if is_tiny elem_size then tiny_pool (tiny_idx elem_size) else small_pool (small_idx elem_size)

unfoldable pub size_class : ℕ → ℕ → SizeClass
unfolding is_tiny_or_small is_tiny
size_class page_shifts norm_capacity =
    if is_tiny_or_small page_shifts norm_capacity
    then if is_tiny norm_capacity then tiny else small
    else normal
