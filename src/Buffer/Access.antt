-- ===== src/Buffer/Access.antt =====
-- The accessors of AbstractCharBuf.cpp and what they call of UnpooledHeapCharBuf.cpp. The signed and
-- the unsigned accessor of a width are one; a value is its bit pattern, of a float too.
use cpp_nio_socket.Common.{
  ℕ, ◌+◌, Bool, not, List, ltb, ◌==◌, if◌then◌else◌, length, pos, M, ◌>>=◌, ◌>>◌, return, read,
  update, refuse_if, undefined,
}
use cpp_nio_socket.Memory.{Width, char, int, long, size, set_chars, get_chars, set_field, get_field}
use cpp_nio_socket.Buffer.{CharBuf, check_index, check_readable, advance, ensure_writable}

-- A run of `n` chars from `index` that leaves the array is undefined.
abbrev pub in_array : ℕ → ℕ → M CharBuf (Unit {0})
in_array index n b = refuse_if (ltb (length b.array) (index + n)) undefined b

-- _getChar … _getULong
unfoldable pub raw_get : Width → ℕ → M CharBuf ℕ
raw_get w index = do in_array index (size w); read (λ b. get_field w b.array index)

-- _setChar … _setULong
unfoldable pub raw_set : Width → ℕ → ℕ → M CharBuf (Unit {0})
raw_set w index value = do
  in_array index (size w)
  update (λ b. record b { array = set_field w b.array index value })

-- _setChars
unfoldable pub raw_set_chars : ℕ → List ℕ → M CharBuf (Unit {0})
raw_set_chars index src = do
  in_array index (length src)
  update (λ b. record b { array = set_chars b.array index src })

-- _getString, and the copy of getChars
unfoldable pub raw_get_chars : ℕ → ℕ → M CharBuf (List ℕ)
raw_get_chars index n = do in_array index n; read (λ b. get_chars b.array index n)

-- getChar … getULong
unfoldable pub get : Width → ℕ → M CharBuf ℕ
get w index = do check_index index (size w); raw_get w index

-- setChar … setULong
unfoldable pub put : Width → ℕ → ℕ → M CharBuf (Unit {0})
put w index value = do check_index index (size w); raw_set w index value

-- getFloat and getDouble make no check.
unfoldable pub get_float : ℕ → M CharBuf ℕ
get_float index = raw_get int index

unfoldable pub get_double : ℕ → M CharBuf ℕ
get_double index = raw_get long index

unfoldable pub get_string : ℕ → ℕ → M CharBuf (List ℕ)
get_string index len = do check_index index len; raw_get_chars index len

-- readerIndex_ += n, after checkReadable
abbrev step_reader : ℕ → M CharBuf (Unit {0})
step_reader n = advance (pos n)

-- readChar … readULong
unfoldable pub read_field : Width → M CharBuf ℕ
read_field w b =
    (do check_readable (pos (size w)); v ← raw_get w b.reader_index; step_reader (size w); return v)
      b

unfoldable pub read_bool : M CharBuf Bool
read_bool = do v ← read_field char; return (not (v == 0))

unfoldable pub read_chars : ℕ → M CharBuf (List ℕ)
read_chars n b =
    (do check_readable (pos n); cs ← get_string b.reader_index n; step_reader n; return cs) b

unfoldable pub read_string : ℕ → M CharBuf (List ℕ)
read_string n b =
    (do check_readable (pos n); cs ← raw_get_chars b.reader_index n; step_reader n; return cs) b

abbrev pub step_writer : ℕ → M CharBuf (Unit {0})
step_writer n = update λ b. record b { writer_index = b.writer_index + n }

module _ (fresh : ℕ → ℕ) where
  -- writeChar … writeULong
  unfoldable pub write_field : Width → ℕ → M CharBuf (Unit {0})
  write_field w value = do
    ensure_writable fresh (size w)
    index ← read (λ b. b.writer_index)
    raw_set w index value
    step_writer (size w)

  unfoldable pub write_bool : Bool → M CharBuf (Unit {0})
  write_bool v = write_field char (if v then 1 else 0)

  unfoldable pub write_chars : List ℕ → M CharBuf (Unit {0})
  write_chars src = do
    ensure_writable fresh (length src)
    index ← read (λ b. b.writer_index)
    raw_set_chars index src
    step_writer (length src)
