-- ===== src/Chunk.antt =====
-- PoolChunk.cpp and PoolChunk.hpp: the buddy allocator that hands out runs of pages of a chunk. The
-- map has a node for every run whose length is a power of two; node 1 is the whole chunk and the
-- halves of node `id` are the nodes `2 * id` and `2 * id + 1`. The value of a node is the least depth
-- at which a run below it is free.
--
-- A value is a `uint8_t`, a node an `int` that is not negative.
pub mod Log2
pub mod Tree
pub mod Replace
pub mod Climb
pub mod Fit
pub mod Search
pub mod Allocate
pub mod Release
pub mod Runs
pub mod Create
pub mod Apart
pub mod Safety
use cpp_nio_socket.Common.{
  ℕ, zero, suc, ◌+◌, ◌-◌, ◌*◌, ◌/◌, ◌%◌, ◌^◌, min, Bool, true, false, not, ◌&&◌, ◌||◌, Option, none,
  some, List, [], ◌∷◌, ltb, leb, ◌==◌, if◌then◌else◌, get_or, set, Outcome, M, ok, err, ◌>>=◌,
  return, throw, runtime_error, endless,
}

pub record PoolChunk : Type 0 where
  pub max_order : ℕ
  pub page_shifts : ℕ
  pub log2_chunk_size : ℕ
  pub unusable : ℕ
  pub free_bytes : ℕ
  pub memory_map : List ℕ
  pub depth_map : List ℕ

-- One test of numberOfLeadingZeros: are the upper `step` bits of the 32 clear?
abbrev skip_zeros : ℕ → ℕ × ℕ → ℕ × ℕ
skip_zeros step (n, i) =
    if i / 2 ^ (32 - step) == 0 then (n + step, i * 2 ^ step % 2 ^ 32) else (n, i)

abbrev last_zero : ℕ × ℕ → ℕ
last_zero (n, i) = n - i / 2 ^ 31

unfoldable pub number_of_leading_zeros : ℕ → ℕ
number_of_leading_zeros i =
    if i == 0
    then 32
    else last_zero (skip_zeros 2 (skip_zeros 4 (skip_zeros 8 (skip_zeros 16 (1, i)))))

unfoldable pub log2 : ℕ → ℕ
unfolding number_of_leading_zeros
log2 val = 31 - number_of_leading_zeros val

-- One level of the tree, and the levels from `d` on.
abbrev pub fill_level : ℕ → ℕ → List ℕ → List ℕ
fill_level d zero rest = rest
fill_level d (suc p) rest = d % 2 ^ 8 ∷ fill_level d p rest

abbrev pub fill_levels : ℕ → ℕ → List ℕ
fill_levels zero d = []
fill_levels (suc n) d = fill_level d (2 ^ d) (fill_levels n (suc d))

-- The constructor for chunks of the pool. `fresh` is what the memory of the two maps holds before
-- index 1.
unfoldable pub new_chunk : ℕ → ℕ → ℕ → ℕ → PoolChunk
new_chunk fresh chunk_size page_shifts max_order = record {
  max_order = max_order;
  page_shifts = page_shifts;
  log2_chunk_size = log2 chunk_size;
  unusable = (max_order + 1) % 2 ^ 8;
  free_bytes = chunk_size;
  memory_map = fresh ∷ fill_levels (suc max_order) 0;
  depth_map = fresh ∷ fill_levels (suc max_order) 0;
}

abbrev pub value : List ℕ → ℕ → ℕ
value memory_map id = get_or memory_map id 0

abbrev pub depth : PoolChunk → ℕ → ℕ
depth c id = get_or c.depth_map id 0

-- `id ^ 1`
abbrev pub sibling : ℕ → ℕ
sibling id = if id % 2 == 0 then id + 1 else id - 1

-- `id & initial` clears the last `d` bits.
abbrev pub clear_bits : ℕ → ℕ → ℕ
clear_bits d id = id / 2 ^ d * 2 ^ d

-- The loop of updateParentsAlloc. A node halves in every round, so that as many rounds as the node's
-- number are enough.
unfoldable pub update_parents_alloc : ℕ → ℕ → List ℕ → List ℕ
update_parents_alloc zero id m = m
update_parents_alloc (suc fuel) id m =
    let rest =
      update_parents_alloc fuel (id / 2)
        (set m (id / 2) (min (value m id) (value m (sibling id)))) in
    if ltb 1 id then rest else m

-- What updateParentsFree makes of the values of two siblings at depth `log_child`.
abbrev pub free_value : ℕ → ℕ → ℕ → ℕ
free_value log_child val1 val2 =
    if val1 == log_child && val2 == log_child then log_child - 1 else min val1 val2

-- The loop of updateParentsFree, with `log_child` as it is at the start of a round.
unfoldable pub update_parents_free : ℕ → ℕ → ℕ → List ℕ → List ℕ
update_parents_free zero log_child id m = m
update_parents_free (suc fuel) log_child id m =
    let rest =
      update_parents_free fuel (log_child - 1) (id / 2)
        (set m (id / 2) (free_value (log_child - 1) (value m id) (value m (sibling id)))) in
    if ltb 1 id then rest else m

-- The search of allocateNode, from node `id` down. `none` means that the fuel ran out.
unfoldable pub descend : ℕ → ℕ → ℕ → List ℕ → Option ℕ
descend zero d id m = none
descend (suc fuel) d id m =
    let left = descend fuel d (id * 2) m in
    let right = descend fuel d (sibling (id * 2)) m in
    if ltb (value m id) d || clear_bits d id == 0
    then if ltb d (value m (id * 2)) then right else left
    else some id

-- The test after the search, and the node's allocation.
abbrev pub take_node : ℕ → Option ℕ → M PoolChunk (Option ℕ)
take_node d none c = (err endless, c)
take_node d (some id) c =
    if not (value c.memory_map id == d) || not (clear_bits d id == 2 ^ d)
    then (err runtime_error, c)
    else (
      ok (some id),
      record c { memory_map = update_parents_alloc id id (set c.memory_map id c.unusable) },
    )

-- allocateNode(d); `none` is the result -1. The search ends within one round more than `d`.
unfoldable pub allocate_node : ℕ → M PoolChunk (Option ℕ)
allocate_node d c =
    if ltb d (value c.memory_map 1)
    then (ok none, c)
    else take_node d (descend (suc d) d 1 c.memory_map) c

unfoldable pub run_length : PoolChunk → ℕ → ℕ
run_length c id = 2 ^ (c.log2_chunk_size - depth c id)

-- runOffset: `id ^ (1 << depth(id))` clears the highest bit of the node.
unfoldable pub run_offset : PoolChunk → ℕ → ℕ
run_offset c id = (id - 2 ^ depth c id) * run_length c id

abbrev pub after_node : Outcome (Option ℕ) × PoolChunk → Outcome (Option ℕ) × PoolChunk
after_node (err e, c) = (err e, c)
after_node (ok none, c) = (ok none, c)
after_node (ok (some id), c) =
    (ok (some id), record c { free_bytes = c.free_bytes - run_length c id })

-- allocateRun(normCapacity)
unfoldable pub allocate_run : ℕ → M PoolChunk (Option ℕ)
allocate_run norm_capacity c =
    after_node (allocate_node (c.max_order - (log2 norm_capacity - c.page_shifts)) c)

-- usage(). chunkSize() is 2 ^ log2ChunkSize: the sizes that the constructor is called with are powers of
-- two.
unfoldable pub usage : PoolChunk → ℕ
usage c =
    let free_percentage = c.free_bytes * 100 / 2 ^ c.log2_chunk_size in
    if c.free_bytes == 0 then 100 else if free_percentage == 0 then 99 else 100 - free_percentage

-- free(handle) for a run of pages, whose handle is its node
unfoldable pub free_run : ℕ → PoolChunk → PoolChunk
free_run id c = record c {
  free_bytes = c.free_bytes + run_length c id;
  memory_map = update_parents_free id (depth c id + 1) id (set c.memory_map id (depth c id));
}
