-- ===== src/Buffer.antt =====
-- AbstractCharBuf.cpp over UnpooledHeapCharBuf.cpp: the state of a buffer, its indices, its checks
-- and its growth. The accessors, the moves and the laws are in the children.
--
-- An index is an `int` that is not negative, but for the marked writer index, which
-- `adjustMarkers` can take below 0; a method is a step that may throw. A byte that
-- `realloc` adds is `fresh i`, whatever the memory holds there.
pub mod Access
pub mod Discard
pub mod Moves
pub mod Compaction
pub mod Window
pub mod Valid
pub mod Growth
pub mod Append
pub mod Fifo
pub mod Transfer
pub mod RoundTrip
use cpp_nio_socket.Common.{
  ℕ, zero, suc, ◌+◌, ◌-◌, ◌*◌, ◌/◌, ◌^◌, Bool, ◌&&◌, ◌||◌, List, [], ◌∷◌, ◌++◌, ltb, leb, ◌==◌,
  if◌then◌else◌, length, take, ℤ, pos, negsuc, M, ok, err, ◌>>=◌, ◌>>◌, return, throw, read, update,
  refuse_if, lift, runtime_error, undefined, negative_index,
}
use cpp_nio_socket.Capacity.{calculate_new_capacity}

pub record CharBuf : Type 0 where
  pub reader_index : ℕ
  pub writer_index : ℕ
  pub marked_reader_index : ℕ
  pub marked_writer_index : ℤ
  pub max_capacity : ℕ
  pub capacity : ℕ
  pub array : List ℕ

-- CHAR_BUF_MAX_CAPACITY
abbrev pub char_buf_max_capacity : ℕ
char_buf_max_capacity = 0x7fffffff

abbrev pub fresh_bytes : (ℕ → ℕ) → ℕ → ℕ → List ℕ
fresh_bytes fresh i zero = []
fresh_bytes fresh i (suc n) = fresh i ∷ fresh_bytes fresh (suc i) n

-- UnpooledHeapCharBuf(initialCapacity, maxCapacity)
unfoldable pub new_char_buf : (ℕ → ℕ) → ℕ → ℕ → CharBuf
new_char_buf fresh initial_capacity max_capacity = record {
  reader_index = 0;
  writer_index = 0;
  marked_reader_index = 0;
  marked_writer_index = pos 0;
  max_capacity = max_capacity;
  capacity = initial_capacity;
  array = fresh_bytes fresh 0 initial_capacity;
}

-- realloc keeps the bytes that still fit. Its block here comes from new[], which C++ leaves undefined: it
-- is taken to act as on a block of malloc, as it does where both use one heap.
unfoldable pub realloc : (ℕ → ℕ) → List ℕ → ℕ → List ℕ
realloc fresh m n = take n m ++ fresh_bytes fresh (length m) (n - length m)

unfoldable pub is_readable : CharBuf → Bool
is_readable b = ltb b.reader_index b.writer_index

unfoldable pub is_writable : CharBuf → Bool
is_writable b = ltb b.writer_index b.capacity

-- The reader never passes the writer, so that the difference is not negative.
unfoldable pub readable_bytes : CharBuf → ℕ
readable_bytes b = b.writer_index - b.reader_index

unfoldable pub check_index_bounds : ℕ → ℕ → ℕ → M CharBuf (Unit {0})
check_index_bounds reader_index writer_index capacity =
    refuse_if (ltb writer_index reader_index || ltb capacity writer_index) runtime_error

unfoldable pub set_reader_index : ℕ → M CharBuf (Unit {0})
unfolding check_index_bounds
set_reader_index index b =
    (do
      check_index_bounds index b.writer_index b.max_capacity
      update (λ b. record b { reader_index = index }))
      b

unfoldable pub set_writer_index : ℕ → M CharBuf (Unit {0})
unfolding check_index_bounds
set_writer_index index b =
    (do
      check_index_bounds b.reader_index index b.max_capacity
      update (λ b. record b { writer_index = index }))
      b

unfoldable pub mark_reader_index : M CharBuf (Unit {0})
mark_reader_index = update λ b. record b { marked_reader_index = b.reader_index }

unfoldable pub reset_reader_index : M CharBuf (Unit {0})
unfolding set_reader_index
reset_reader_index b = set_reader_index b.marked_reader_index b

unfoldable pub mark_writer_index : M CharBuf (Unit {0})
mark_writer_index = update λ b. record b { marked_writer_index = pos b.writer_index }

unfoldable pub reset_writer_index : M CharBuf (Unit {0})
unfolding set_writer_index
reset_writer_index b = elim b.marked_writer_index [
  | pos index ↦ set_writer_index index b
  | negsuc _ ↦ (err runtime_error, b)
]

-- checkIndex and checkRangeBounds: a sum of two indices that does not fit an `int`, which C++ leaves
-- undefined, is refused as one that wraps to a negative `int` is.
unfoldable pub check_index : ℕ → ℕ → M CharBuf (Unit {0})
check_index index field_length b = refuse_if (ltb b.capacity (index + field_length)) runtime_error b

-- The argument may be negative. A sum past the largest `int` is undefined.
unfoldable pub check_readable : ℤ → M CharBuf (Unit {0})
check_readable (pos n) b =
    if leb (2 ^ 31) (b.reader_index + n)
    then (err undefined, b)
    else refuse_if (ltb b.writer_index (b.reader_index + n)) runtime_error b
check_readable (negsuc n) b =
    refuse_if (ltb (b.writer_index + suc n) b.reader_index) runtime_error b

-- readerIndex_ += n
abbrev pub advance : ℤ → M CharBuf (Unit {0})
advance (pos n) b = (ok tt, record b { reader_index = b.reader_index + n })
advance (negsuc n) b =
    if ltb n b.reader_index
    then (ok tt, record b { reader_index = b.reader_index - suc n })
    else (err negative_index, b)

unfoldable pub skip_bytes : ℤ → M CharBuf (Unit {0})
unfolding check_readable
skip_bytes n = do check_readable n; advance n

module _ (fresh : ℕ → ℕ) where
  -- The indices when the buffer shrinks below the writer.
  abbrev shrink_indices : ℕ → M CharBuf (Unit {0})
  shrink_indices new_capacity b =
      if ltb b.reader_index new_capacity
      then if ltb new_capacity b.writer_index then set_writer_index new_capacity b else (ok tt, b)
      else (ok tt, record b { reader_index = new_capacity; writer_index = new_capacity })

  unfoldable pub set_capacity : ℕ → M CharBuf (Unit {0})
  unfolding set_writer_index realloc
  set_capacity new_capacity b =
      if b.capacity == new_capacity
      then (ok tt, b)
      else (do
        update (λ b. record b { capacity = new_capacity })
        if ltb new_capacity b.capacity then shrink_indices new_capacity else return tt
        update (λ b. record b { array = realloc fresh b.array new_capacity }))
          b

  -- The comparisons with what is left, `capacity() - writerIndex()`, are made on the sums.
  unfoldable pub ensure_writable : ℕ → M CharBuf (Unit {0})
  ensure_writable min_writable_bytes b =
      if ltb b.capacity (b.writer_index + min_writable_bytes)
      then if ltb b.max_capacity (b.writer_index + min_writable_bytes)
        then (err runtime_error, b)
        else (do
          new_capacity ← lift (
              calculate_new_capacity b.capacity (b.writer_index + min_writable_bytes)
                b.max_capacity)
          set_capacity new_capacity)
            b
      else (ok tt, b)
