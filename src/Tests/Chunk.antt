-- ===== src/Tests/Chunk.antt =====
-- Runs of a chunk of four pages of 8192 bytes.
use cpp_nio_socket.Common.{◌+◌, ◌-◌, ◌^◌, ◌≡◌, refl, arith, some, [], ◌∷◌, ok}
use cpp_nio_socket.Chunk.{
  PoolChunk, new_chunk, log2, allocate_run, allocate_node, descend, update_parents_alloc,
  run_length, run_offset, free_run, usage,
}
use cpp_nio_socket.Chunk.Tree.{Buddy, free, taken, split}
use cpp_nio_socket.Chunk.Replace.{put}
use cpp_nio_socket.Chunk.Allocate.{IsChunk}
use cpp_nio_socket.Chunk.Create.{new_chunk-IsChunk}
use cpp_nio_socket.Chunk.Release.{free_run_lem}
use cpp_nio_socket.Chunk.Safety.{RunsApart, allocate_run-RunsApart}
use cpp_nio_socket.Chunk.Runs.{AllocatesRun, order_depth, allocate_run-cases}

abbrev pub small : PoolChunk
small = new_chunk 7 (2 ^ 15) 13 2

new_chunk-IsChunk_example : IsChunk small free
new_chunk-IsChunk_example = new_chunk-IsChunk 7 13 2 (omega arith) (omega arith)

small-IsChunk : IsChunk small free
small-IsChunk = new_chunk-IsChunk 7 13 2 (omega arith) (omega arith)

-- Its first page is taken.
abbrev pub page_taken : PoolChunk
page_taken = record small {
  memory_map = 7 ∷ 1 ∷ 2 ∷ 1 ∷ 3 ∷ 2 ∷ 2 ∷ 2 ∷ [];
  free_bytes = 2 ^ 15 - 2 ^ 13;
}

abbrev pub page_tree : Buddy
page_tree = split (split taken free) free

first_page : allocate_run (2 ^ 13) small ≡ (ok (some 4), page_taken)
unfolding allocate_run allocate_node log2 new_chunk descend update_parents_alloc run_length
first_page = refl

pub page_taken-IsChunk : IsChunk page_taken page_tree
unfolding new_chunk log2
page_taken-IsChunk = record {
  maps = record {
    tree = (refl, (refl, refl, refl, tt), (refl, refl, refl), tt);
    mark = refl;
    allocated = refl;
  };
  depths = small-IsChunk.depths;
  shifts = refl;
  counted = refl;
}

-- Two pages do not fit in the half of which a page is taken.
abbrev two_pages_taken : PoolChunk
two_pages_taken = record page_taken {
  memory_map = 7 ∷ 2 ∷ 2 ∷ 3 ∷ 3 ∷ 2 ∷ 2 ∷ 2 ∷ [];
  free_bytes = 2 ^ 13;
}

two_pages : allocate_run (2 ^ 14) page_taken ≡ (ok (some 3), two_pages_taken)
unfolding allocate_run allocate_node log2 new_chunk descend update_parents_alloc run_length
two_pages = refl

second_half_offset : run_offset page_taken 3 ≡ 2 ^ 14
unfolding run_offset new_chunk log2 run_length
second_half_offset = refl

quarter_used : usage page_taken ≡ 25
unfolding usage new_chunk log2
quarter_used = refl

allocate_run-cases_example : AllocatesRun page_taken page_tree 14 (order_depth page_taken 14)
unfolding new_chunk log2
allocate_run-cases_example =
    allocate_run-cases page_taken page_tree 14 page_taken-IsChunk (omega arith) (omega arith)
      (omega arith)

free_run_lem_example :
    IsChunk (free_run 4 page_taken) (put 2 1 4 free page_tree)
    × ((free_run 4 page_taken).free_bytes
        ≡ page_taken.free_bytes + 2 ^ (page_taken.log2_chunk_size - 2))
unfolding new_chunk log2
free_run_lem_example =
    free_run_lem page_taken page_tree 2 4 page_taken-IsChunk (omega arith)
      (omega arith, omega arith) tt

allocate_run-RunsApart_example : RunsApart two_pages_taken 4 3
unfolding new_chunk log2
allocate_run-RunsApart_example =
    allocate_run-RunsApart page_taken two_pages_taken page_tree 14 2 4 3 page_taken-IsChunk
      (omega arith) (omega arith) (omega arith) (omega arith) (omega arith, omega arith) tt
      two_pages
