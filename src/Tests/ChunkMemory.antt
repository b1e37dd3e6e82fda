-- ===== src/Tests/ChunkMemory.antt =====
-- A chunk of four pages of 8192 bytes of which the first is cut into elements of 2048.
use cpp_nio_socket.Common.{
  ℕ, ◌^◌, ◌<◌, ◌≡◌, refl, arith, ◌⊎◌, none, some, true, false, [], ◌∷◌, ok, ◌==◌,
}
use cpp_nio_socket.Arena.{PoolHead}
use cpp_nio_socket.Chunk.{new_chunk, log2}
use cpp_nio_socket.Chunk.Fit.{first_fit}
use cpp_nio_socket.Chunk.Runs.{order_depth}
use cpp_nio_socket.Subpage.{PoolSubpage, blank, to_handle}
use cpp_nio_socket.ChunkMemory.{
  ChunkMemory, Placement, allocate, memory_map_idx, element_idx, bitmap_idx,
}
use cpp_nio_socket.ChunkMemory.Handles.{to_handle_lem}
use cpp_nio_socket.ChunkMemory.Placing.{IsCutPage, Places, PlacedApart, init_buf_with_subpage_lem}
use cpp_nio_socket.ChunkMemory.RoundTrip.{PlacesRun, allocate-free}
use cpp_nio_socket.ChunkList.{Lists, allocate_normal}
use cpp_nio_socket.ChunkList.Runs.{Chunks, runs, write}
use cpp_nio_socket.ChunkList.OfRuns.{ServesRun, allocate_normal-runs}
use cpp_nio_socket.Tests.Chunk.{small, page_taken, page_tree, page_taken-IsChunk}

abbrev page : PoolSubpage
page = record blank {
  chunk = some 7;
  memory_map_idx = some 4;
  run_offset = some 0;
  page_size = 8192;
  bitmap = 3 ∷ [];
  bitmap_length = 1;
  elem_size = some 2048;
  max_num_elems = 4;
  next_avail = none;
  num_avail = 2;
}

to_handle_lem_example :
    (h : ℕ) × (to_handle page 3 ≡ some h)
    × (h < 2 ^ 63)
    × (memory_map_idx h ≡ 4)
    × (element_idx (bitmap_idx h) ≡ 3)
    × ((bitmap_idx h == 0) ≡ false)
    × (memory_map_idx 4 ≡ 4)
    × ((bitmap_idx 4 == 0) ≡ true)
to_handle_lem_example = to_handle_lem page 4 3 refl (omega arith) (omega arith)

abbrev head_at : PoolHead → ℕ
head_at h = 0

abbrev memory : ChunkMemory
memory = record {
  chunk = page_taken;
  subpages = some 1 ∷ none ∷ none ∷ none ∷ [];
  pages = λ a. page;
}

memory-IsCutPage : IsCutPage memory 0 1 2048
unfolding new_chunk log2
memory-IsCutPage = record {
  in_array = omega arith;
  listed = refl;
  at_depth = refl;
  shifts = refl;
  owner = 7;
  owned = refl;
  node = refl;
  sized = refl;
  alive = refl;
  within = omega arith;
  few = omega arith;
  node_int = omega arith;
}

init_buf_with_subpage_lem_example :
    (h : ℕ) × (g : ℕ) × (a : Placement) × (b : Placement) × Places memory 0 1 2048 2000 0 h a
    × Places memory 0 1 2048 2000 1 g b
    × PlacedApart a b
init_buf_with_subpage_lem_example =
    init_buf_with_subpage_lem memory 0 1 2048 2000 memory-IsCutPage (omega arith) 0 1 (omega arith)
      (omega arith) (λ e. absurd (omega arith))

allocate-free_example :
    ((first_fit (order_depth page_taken 14) 1 page_tree ≡ none)
      × (allocate 7 head_at 2 (9 ∷ []) 10000 (2 ^ 14) memory ≡ (ok none, memory)))
    ⊎ PlacesRun 7 head_at 2 (9 ∷ []) memory page_tree 14 (order_depth page_taken 14) 10000
unfolding new_chunk log2
allocate-free_example =
    allocate-free 7 head_at 2 (9 ∷ []) memory page_tree 14 10000 page_taken-IsChunk (omega arith)
      (omega arith) (omega arith)

-- An arena with no chunk yet.
abbrev no_chunks : Lists Chunks
no_chunks = record { store = λ c. small; chunks = λ q. []; parent = λ c. none; deleted = [] }

allocate_normal-runs_example :
    ServesRun 3
      (new_chunk 7 (2 ^ 15) 13 2)
      (2 ^ 14)
      no_chunks
      (allocate_normal runs (write 3 (new_chunk 7 (2 ^ 15) 13 2)) 3 (2 ^ 15) (2 ^ 14) no_chunks)
allocate_normal-runs_example =
    allocate_normal-runs no_chunks 3 (2 ^ 15) 7 13 2 14
      (record { fits = λ q c h. absurd h; owned = λ q c h. absurd h; once = λ q. tt }) (λ q. tt)
      (omega arith) (omega arith) (omega arith) (omega arith)
