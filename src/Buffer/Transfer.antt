-- ===== src/Buffer/Transfer.antt =====
-- AbstractCharBuf::writeChars(CharBuf&): the readable bytes of one buffer go to another.
use native.Mathlib.Nat.{two-pow-succ}
use cpp_nio_socket.Common.{
  ℕ, zero, suc, ◌+◌, ◌-◌, ◌%◌, ◌^◌, ◌≤◌, ◌<◌, ◌≡◌, refl, sym, ap, subst, ◌∙◌, inl, inr, arith,
  dec_lt, List, ◌++◌, length, Outcome, M, ok, ◌>>=◌, ◌>>◌, return, read, lift, le→ltb,
}
use cpp_nio_socket.Memory.{get_chars, set_chars}
use cpp_nio_socket.Buffer.{
  CharBuf, readable_bytes, set_reader_index, ensure_writable, check_index, check_index_bounds,
  char_buf_max_capacity,
}
use cpp_nio_socket.Buffer.Access.{get_string, raw_get_chars, raw_set_chars, step_writer}
use cpp_nio_socket.Buffer.Valid.{IsValid, contents}
use cpp_nio_socket.Buffer.Growth.{Grown, ensure_writable-total}
use cpp_nio_socket.Buffer.Append.{length-contents, placed, placed-Holds}
use cpp_nio_socket.Buffer.Fifo.{passed}

-- The bytes that `src.getChars(src_index, …, length)` copies.
abbrev pub source_chars : CharBuf → ℕ → ℕ → Outcome (List ℕ)
source_chars src src_index n = (get_string src_index n src).0

-- writeChars(src): the result is the source, read up. The check of its readable bytes always holds.
unfoldable pub write_from : (ℕ → ℕ) → CharBuf → M CharBuf CharBuf
write_from fresh src = do
  ensure_writable fresh (readable_bytes src)
  chars ← lift (source_chars src src.reader_index (readable_bytes src))
  index ← read (λ b. b.writer_index)
  raw_set_chars index chars
  step_writer (readable_bytes src)
  return (set_reader_index (src.reader_index + readable_bytes src) src).1

-- A buffer that is not full of surprises: as the allocator makes it for an even capacity, or grown.
pub record IsRoomy (b : CharBuf) : Type 0 where
  pub valid : IsValid b
  pub nonempty : 0 < b.capacity
  pub even : b.capacity % 2 ≡ 0
  pub small : b.capacity ≤ 2 ^ 30
  pub widest : b.max_capacity ≡ char_buf_max_capacity

pow-even : (j n : ℕ) → 2 < n → n ≤ 2 ^ j → 2 ^ j % 2 ≡ 0
pow-even zero n h k = absurd (omega arith)
pow-even (suc j) n h k = omega (arith, two-pow-succ j)

get_string_all :
    (src : CharBuf)
    → IsValid src
    → get_string src.reader_index (readable_bytes src) src ≡ (ok (contents src), src)
unfolding get_string raw_get_chars check_index readable_bytes get_chars
get_string_all src v =
    rw
      (
        le→ltb src.capacity (src.reader_index + (src.writer_index - src.reader_index))
            (omega arith),
        le→ltb (length src.array) (src.reader_index + (src.writer_index - src.reader_index))
            (omega arith),
      )
      refl

unfoldable pub read_up : CharBuf → CharBuf
read_up src = passed src (readable_bytes src)

set_reader_index_end :
    (src : CharBuf)
    → IsValid src
    → (set_reader_index (src.reader_index + readable_bytes src) src).1 ≡ read_up src
unfolding set_reader_index check_index_bounds readable_bytes read_up
set_reader_index_end src v =
    rw
      (
        le→ltb src.writer_index (src.reader_index + (src.writer_index - src.reader_index))
            (omega arith),
        le→ltb src.max_capacity src.writer_index (omega arith),
      )
      refl

pub readable-length : (b : CharBuf) → IsValid b → length (contents b) ≡ readable_bytes b
unfolding readable_bytes
readable-length b v = length-contents b v

write_from-placed :
    (fresh : ℕ → ℕ) (src b b' : CharBuf)
    → IsValid src
    → ensure_writable fresh (readable_bytes src) b ≡ (ok tt, b')
    → Grown b (readable_bytes src) b'
    → write_from fresh src b ≡ (ok (read_up src), placed b' (contents src))
unfolding write_from raw_set_chars placed
write_from-placed fresh src b b' v e g =
    rw
      (
        e,
        ap (λ r. r.0) (get_string_all src v),
        le→ltb (length b'.array) (b'.writer_index + length (contents src))
            (omega (arith, g.valid.allocated, readable-length src v)),
        set_reader_index_end src v,
      )
      (ap
        (λ k. (
          ok (read_up src),
          record b' {
            array = set_chars b'.array b'.writer_index (contents src);
            writer_index = b'.writer_index + k;
          },
        ))
        (sym (readable-length src v)))

-- Writing a valid buffer to another one that is not empty, of even capacity up to 2 ^ 30 and of the
-- widest maximum, without passing 2 ^ 30 bytes, returns normally, reads the source up, appends its
-- readable bytes to what is readable, moves the writer by their number, and keeps these bounds.
pub write_from_lem :
    (fresh : ℕ → ℕ) (src b : CharBuf)
    → IsValid src
    → IsRoomy b
    → b.writer_index + readable_bytes src ≤ 2 ^ 30
    → (b' : CharBuf) × (write_from fresh src b ≡ (ok (read_up src), b'))
      × IsRoomy b'
      × (contents b' ≡ contents b ++ contents src)
      × (b'.writer_index ≡ b.writer_index + readable_bytes src)
unfolding placed
write_from_lem fresh src b v r few =
    let n = readable_bytes src in
    let (b', e, g, small, how) =
      ensure_writable-total fresh b n r.valid r.nonempty r.small few (omega (arith, r.widest)) in
    let (v', c') =
      placed-Holds b b' (contents src) r.valid
        (subst (λ k. Grown b k b') (sym (readable-length src v)) g) in
    (
      placed b' (contents src),
      write_from-placed fresh src b b' v e g,
      record {
        valid = v';
        nonempty = omega (arith, g.larger, r.nonempty);
        even = elim how [
          | inl same ↦ ap (λ k. k % 2) same ∙ r.even
          | inr (j, p) ↦ elim (dec_lt b.capacity b'.capacity) [
            | yes more ↦
                let q : b'.capacity ≡ 2 ^ j = omega (arith, r.widest, p, small) in
                ap (λ k. k % 2) q
                ∙ pow-even j b'.capacity (omega (arith, r.nonempty, r.even)) (omega arith)
            | no same ↦ ap (λ k. k % 2) (omega (arith, g.larger)) ∙ r.even
          ]
        ];
        small = small;
        widest = g.same_max ∙ r.widest;
      },
      c',
      omega (arith, g.same_writer, readable-length src v),
    )
