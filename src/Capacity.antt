-- ===== src/Capacity.antt =====
-- CommUtil::roundUpPower2 and the growth loop of AbstractCharBuf::calculateNewCapacity. Both work
-- on bit patterns: a `size_t` has 64 bits, an `int` 32, the upper half of them negative.
pub mod Growth
use cpp_nio_socket.Common.{
  ℕ, zero, suc, ◌+◌, ◌-◌, ◌*◌, ◌%◌, ◌^◌, min, Bool, ◌||◌, Option, none, some, ltb, leb,
  if◌then◌else◌, Outcome, ok, err, runtime_error, endless,
}
use cpp_nio_socket.Bits.{smear}

-- MAXIMUM_CAPACITY, `1 << 31`, is the smallest `int`; in the comparison it becomes a `size_t`.
abbrev maximum_capacity : ℕ
maximum_capacity = 2 ^ 64 - 2 ^ 31

unfoldable pub round_up_power2 : ℕ → ℕ
round_up_power2 cap =
    let n = smear ((cap + (2 ^ 64 - 1)) % 2 ^ 64) in
    if leb n 0 then 1 else if leb maximum_capacity n then maximum_capacity else n + 1

-- `a < b` for the `int` with bit pattern `a` and a `b` that is not negative
abbrev int_lt : ℕ → ℕ → Bool
int_lt a b = leb (2 ^ 31) a || ltb a b

-- for (; newCapacity < minNewCapacity; newCapacity <<= 1) ;
pub grow : ℕ → ℕ → ℕ → Option ℕ
grow zero min_new_capacity new_capacity = none
grow (suc fuel) min_new_capacity new_capacity =
    let rest = grow fuel min_new_capacity (new_capacity * 2 % 2 ^ 32) in
    if int_lt new_capacity min_new_capacity then rest else some new_capacity

-- Thirty-two doublings leave the `int` 0, so the loop runs for ever unless it ends within 33 tests.
abbrev pub rounds : ℕ
rounds = 33

abbrev or_endless : Option ℕ → ℕ → Outcome ℕ
or_endless none max_capacity = err endless
or_endless (some c) max_capacity = ok (min c max_capacity)

unfoldable pub calculate_new_capacity : ℕ → ℕ → ℕ → Outcome ℕ
calculate_new_capacity capacity min_new_capacity max_capacity =
    if ltb max_capacity min_new_capacity
    then err runtime_error
    else or_endless (grow rounds min_new_capacity (round_up_power2 capacity % 2 ^ 32)) max_capacity
