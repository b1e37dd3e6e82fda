-- ===== src/ChunkMemory/Placing.antt =====
-- initBufWithSubpage of PoolChunk.cpp: where the elements of a page lie in the chunk.
use cpp_nio_socket.Common.{
  ℕ, ◌+◌, ◌-◌, ◌*◌, ◌^◌, ◌≤◌, ◌<◌, ◌≡◌, ◌≢◌, refl, ap, ap₂, ◌∙◌, ◌⊎◌, inl, inr, arith, dec_lt, true,
  false, none, some, le→leb, lt→leb, ok, length, get_or, if_true, if_false, bind, ◌==◌, not,
}
use cpp_nio_socket.Chunk.{PoolChunk, run_offset, run_length, depth}
use cpp_nio_socket.Subpage.{PoolSubpage, to_handle, element_size}
use cpp_nio_socket.ChunkMemory.{
  ChunkMemory, Placement, memory_map_idx, bitmap_idx, element_idx, place_element, page_size,
  init_buf, init_buf_with_subpage, subpage_of, place_on, subpage_idx,
}
use cpp_nio_socket.ChunkMemory.Handles.{to_handle_lem}

-- The node of a page of the chunk.
abbrev pub leaf : PoolChunk → ℕ → ℕ
leaf c k = 2 ^ c.max_order + k

-- Page `k` of the chunk is at the address `this` and is cut into elements of `size` bytes.
pub record IsCutPage (m : ChunkMemory) (k this size : ℕ) : Type 0 where
  pub in_array : k < length m.subpages
  pub listed : get_or m.subpages k none ≡ some this
  pub at_depth : depth m.chunk (leaf m.chunk k) ≡ m.chunk.max_order
  pub shifts : m.chunk.log2_chunk_size ≡ m.chunk.max_order + m.chunk.page_shifts
  pub owner : ℕ
  pub owned : (m.pages this).chunk ≡ some owner
  pub node : (m.pages this).memory_map_idx ≡ some (leaf m.chunk k)
  pub sized : (m.pages this).elem_size ≡ some size
  pub alive : (m.pages this).do_not_destroy ≡ true
  pub within : (m.pages this).max_num_elems * size ≤ page_size m.chunk
  pub few : (m.pages this).max_num_elems ≤ 2 ^ 30
  pub node_int : leaf m.chunk k < 2 ^ 31

-- Element `i` of page `k`.
abbrev pub element_at : ℕ → ℕ → ℕ → ℕ → ℕ → PoolChunk → Placement
element_at k i size req_capacity handle c = record {
  handle = handle;
  offset = k * page_size c + i * size;
  length = req_capacity;
  max_length = size;
}

-- The bytes of two placements have none in common.
abbrev pub PlacedApart : Placement → Placement → Type 0
PlacedApart a b = (a.offset + a.max_length ≤ b.offset) ⊎ (b.offset + b.max_length ≤ a.offset)

-- initBuf and initBufWithSubpage on the handle of the element `i` give this placement.
abbrev pub Places : ChunkMemory → ℕ → ℕ → ℕ → ℕ → ℕ → ℕ → Placement → Type 0
Places m k this size req_capacity i h a =
    (to_handle (m.pages this) i ≡ some h)
    × (init_buf_with_subpage h req_capacity m ≡ (ok a, m))
    × (init_buf h req_capacity m ≡ (ok a, m))
    × (a ≡ element_at k i size req_capacity h m.chunk)
    × (k * page_size m.chunk ≤ a.offset)
    × (a.offset + a.max_length ≤ (k + 1) * page_size m.chunk)
    × (a.length ≤ a.max_length)

product-lt : (i j size : ℕ) → i < j → i * size + size ≤ j * size
product-lt i j size h = grind arith

module _ (m : ChunkMemory) (k this size req_capacity : ℕ) (v : IsCutPage m k this size)
    (small : req_capacity ≤ size) where
  page : PoolSubpage
  page = m.pages this

  leaf_offset : run_offset m.chunk (leaf m.chunk k) ≡ k * page_size m.chunk
  unfolding run_offset run_length
  leaf_offset =
      let down : m.chunk.log2_chunk_size - m.chunk.max_order ≡ m.chunk.page_shifts =
        omega (arith, v.shifts) in
      let number : leaf m.chunk k - 2 ^ m.chunk.max_order ≡ k = omega arith in
      ap (λ d. (leaf m.chunk k - 2 ^ d) * 2 ^ (m.chunk.log2_chunk_size - d)) v.at_depth
      ∙ ap₂ (λ n e. n * 2 ^ e) number down

  size_known : element_size page ≡ some size
  unfolding element_size page
  size_known = rw (v.owned, v.sized) refl

  placed_at :
      (i h : ℕ)
      → memory_map_idx h ≡ leaf m.chunk k
      → element_idx (bitmap_idx h) ≡ i
      → place_element h req_capacity m.chunk page ≡ ok (element_at k i size req_capacity h m.chunk)
  unfolding place_element page
  placed_at i h node index =
      rw (size_known, v.alive, le→leb req_capacity size small, node, index, leaf_offset) refl

  found : subpage_of (leaf m.chunk k) m ≡ (ok (some this), m)
  found =
      let number : subpage_idx m.chunk (leaf m.chunk k) ≡ k = omega arith in
      if_false _ _ _ (
        lt→leb (length m.subpages) (subpage_idx m.chunk (leaf m.chunk k))
          (omega (arith, v.in_array)))
      ∙ ap (λ n. (ok (get_or m.subpages n none), m)) number
      ∙ ap (λ o. (ok o, m)) v.listed

  inits :
      (i h : ℕ)
      → memory_map_idx h ≡ leaf m.chunk k
      → element_idx (bitmap_idx h) ≡ i
      → (bitmap_idx h == 0) ≡ false
      → init_buf_with_subpage h req_capacity m
        ≡ (ok (element_at k i size req_capacity h m.chunk), m)
  unfolding init_buf_with_subpage page
  inits i h node index marked =
      if_false _ _ _ marked
      ∙ ap (λ id. bind (subpage_of id m) (place_on h req_capacity)) node
      ∙ ap (λ r. bind r (place_on h req_capacity)) found
      ∙ ap (λ r. (r, m)) (placed_at i h node index)

  dispatches :
      (h : ℕ)
      → (bitmap_idx h == 0) ≡ false
      → init_buf h req_capacity m ≡ init_buf_with_subpage h req_capacity m
  unfolding init_buf
  dispatches h marked = if_true _ _ _ (ap not marked)

  element-Places :
      (i : ℕ)
      → i < (m.pages this).max_num_elems
      → (h : ℕ) × Places m k this size req_capacity i h (element_at k i size req_capacity h m.chunk)
  element-Places i below =
      let (h, e, _, node, index, marked, _, _) =
        to_handle_lem (m.pages this) (leaf m.chunk k) i v.node v.node_int (omega (arith, v.few)) in
      let run = inits i h node index marked in
      (
        h,
        (
          e,
          run,
          dispatches h marked ∙ run,
          refl,
          omega arith,
          next_page (product-lt i (m.pages this).max_num_elems size below),
          small,
        ),
      )
    where
      next_page :
          i * size + size ≤ (m.pages this).max_num_elems * size
          → k * page_size m.chunk + i * size + size ≤ (k + 1) * page_size m.chunk
      next_page fits =
          let e : (k + 1) * page_size m.chunk ≡ k * page_size m.chunk + page_size m.chunk =
            grind arith in
          omega (arith, fits, v.within, e)

  -- For a page of a chunk that stands at its number among the subpages, has the node of that number,
  -- at the deepest level and below 2 ^ 31, and is cut into at most 2 ^ 30 elements of one size which
  -- together fit in the page, in a chunk of 2 ^ (max_order + page_shifts) bytes, where the page is
  -- not marked for destruction, and for a request of at most the element's size: on the handles of
  -- two different elements, initBuf and initBufWithSubpage meet no failing assertion, change nothing
  -- of the chunk, and give the buffer the place of the element, the offset of the page and as many
  -- sizes as its index, with the requested length and the size as its maximum; each place lies
  -- within the page, and the two have no byte in common.
  pub init_buf_with_subpage_lem :
      (i j : ℕ)
      → i < (m.pages this).max_num_elems
      → j < (m.pages this).max_num_elems
      → i ≢ j
      → (h : ℕ) × (g : ℕ) × (a : Placement) × (b : Placement) × Places m k this size req_capacity i
          h a
        × Places m k this size req_capacity j g b
        × PlacedApart a b
  init_buf_with_subpage_lem i j below below' ne =
      let (h, placed) = element-Places i below in
      let (g, placed') = element-Places j below' in
      (
        h,
        g,
        element_at k i size req_capacity h m.chunk,
        element_at k j size req_capacity g m.chunk,
        placed,
        placed',
        elim (dec_lt i j) [
          | yes lt ↦ inl (omega (arith, product-lt i j size lt))
          | no ge ↦ inr (omega (arith, product-lt j i size (omega (arith, ge, ne))))
        ],
      )
