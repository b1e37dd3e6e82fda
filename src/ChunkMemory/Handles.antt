-- ===== src/ChunkMemory/Handles.antt =====
-- The handles of PoolSubpage::toHandle as PoolChunk reads them.
use cpp_nio_socket.Common.{
  ℕ, ◌+◌, ◌*◌, ◌/◌, ◌^◌, ◌<◌, ◌≡◌, refl, arith, some, ==_ne, ==_eq, ◌==◌, true, false,
}
use cpp_nio_socket.Subpage.{PoolSubpage, to_handle}
use cpp_nio_socket.ChunkMemory.{memory_map_idx, bitmap_idx, element_idx}

abbrev pub element_handle : ℕ → ℕ → ℕ
element_handle id i = 2 ^ 62 + i * 2 ^ 32 + id

to_handle-element_handle :
    (p : PoolSubpage) (id i : ℕ)
    → p.memory_map_idx ≡ some id
    → to_handle p i ≡ some (element_handle id i)
unfolding to_handle
to_handle-element_handle p id i e = rw e refl

-- For a page whose node is below 2 ^ 31 and an index below 2 ^ 30, toHandle gives a handle that is
-- not negative, from which memoryMapIdx gives the node and bitmapIdx the index with a bit above that
-- tells it from the handle of a run: for that, which is its node, bitmapIdx is 0 and memoryMapIdx
-- the node.
pub to_handle_lem :
    (p : PoolSubpage) (id i : ℕ)
    → p.memory_map_idx ≡ some id
    → id < 2 ^ 31
    → i < 2 ^ 30
    → (h : ℕ) × (to_handle p i ≡ some h)
      × (h < 2 ^ 63)
      × (memory_map_idx h ≡ id)
      × (element_idx (bitmap_idx h) ≡ i)
      × ((bitmap_idx h == 0) ≡ false)
      × (memory_map_idx id ≡ id)
      × ((bitmap_idx id == 0) ≡ true)
unfolding memory_map_idx bitmap_idx
to_handle_lem p id i e node small = (
  element_handle id i,
  to_handle-element_handle p id i e,
  omega arith,
  omega arith,
  omega arith,
  ==_ne (element_handle id i / 2 ^ 32) 0 (λ z. absurd (omega arith)),
  omega arith,
  ==_eq (id / 2 ^ 32) 0 (omega arith),
)
