-- ===== src/Tests/Subpage.antt =====
-- Runs of a page of 8192 bytes cut into elements of 2048, and examples of the theorems on pages.
use cpp_nio_socket.Common.{ℕ, zero, suc, ◌+◌, ◌^◌, ◌≡◌, inr, refl, arith, [], ◌∷◌, none, some, ok}
use cpp_nio_socket.Subpage.{PoolSubpage, Pages, blank, new_head, test_bit, to_handle}
use cpp_nio_socket.Subpage.Bitmap.{Words}
use cpp_nio_socket.Subpage.Count.{clear_count}
use cpp_nio_socket.Subpage.Operations.{init, new_page, allocate, free}
use cpp_nio_socket.Subpage.Valid.{Valid}
use cpp_nio_socket.Subpage.Pool.{Gives, allocate_lem}
use cpp_nio_socket.Subpage.Ring.{Linked, Unlinked}
use cpp_nio_socket.Subpage.PutBack.{Returns, keeps, free_lem}
use cpp_nio_socket.Subpage.Fresh.{Initialised, init_lem}

-- Page 1 has three elements, of which element 1 is in use; page 0 is the head of its ring.
abbrev busy : PoolSubpage
busy = record blank {
  chunk = some 7;
  prev = some 0;
  next = some 0;
  memory_map_idx = some 2048;
  run_offset = some 0;
  page_size = 8192;
  bitmap = 2 ∷ [];
  bitmap_length = 1;
  elem_size = some 2730;
  max_num_elems = 3;
  next_avail = none;
  num_avail = 2;
}

abbrev ring : Pages
ring zero = record blank { page_size = 8192; prev = some 1; next = some 1 }
ring (suc a) = busy

busy-Words : Words (2 ∷ [])
busy-Words zero = omega arith
busy-Words (suc k) = omega arith

busy-Valid : Valid busy
unfolding clear_count test_bit
busy-Valid = record {
  words = busy-Words;
  covered = omega arith;
  held = omega arith;
  counted = refl;
  hinted = tt;
}

busy-Linked : Linked 1 busy
busy-Linked = (0, 0, refl, refl, (λ e. absurd (omega arith)), λ e. absurd (omega arith))

allocate_lem_example : (i : ℕ) × Gives 1 ring i (allocate 1 ring)
allocate_lem_example = allocate_lem 1 ring busy-Valid busy-Linked refl refl (omega arith)

free_lem_example : Returns 0 1 1 ring (keeps busy) (free 0 1 1 ring)
unfolding test_bit
free_lem_example =
    free_lem 0 1 1 ring busy-Valid (inr (omega arith, busy-Linked)) refl (omega arith) refl

-- The memory before page 1 is cut: the head is alone in its ring.
abbrev alone : Pages
alone zero = new_head 0 8192
alone (suc a) = record blank {
  chunk = some 7;
  memory_map_idx = some 2048;
  run_offset = some 0;
  page_size = 8192;
  bitmap = 9 ∷ 9 ∷ [];
}

alone-Words : Words (9 ∷ 9 ∷ [])
alone-Words zero = omega arith
alone-Words (suc zero) = omega arith
alone-Words (suc (suc k)) = omega arith

alone-Unlinked : Unlinked 0 1 alone
unfolding new_head
alone-Unlinked = (0, refl, refl, refl, (λ e. absurd (omega arith)), λ e. absurd (omega arith))

init_lem_example :
    (s' : Pages) × (init 0 2048 1 alone ≡ (ok tt, s')) × Initialised 0 2048 1 alone s'
init_lem_example =
    init_lem 0 2048 1 alone alone-Unlinked alone-Words (λ e. absurd (omega arith)) (omega arith)
      (omega arith)

-- Four elements are handed out, and then none.
abbrev result {ℓ} : {A S : Type ℓ} → A × S → A
result (a, s) = a

abbrev state {ℓ} : {A S : Type ℓ} → A × S → S
state (a, s) = s

abbrev cut_page : Pages
unfolding new_page
cut_page = state (new_page (9 ∷ 9 ∷ []) 0 7 2048 0 8192 4096 1 alone)

first_handle : result (allocate 1 cut_page) ≡ ok (some (2 ^ 62 + 2048))
unfolding new_page allocate cut_page new_head test_bit to_handle
first_handle = refl
