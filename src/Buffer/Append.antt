-- ===== src/Buffer/Append.antt =====
-- The write accessors of AbstractCharBuf.cpp append to what is readable.
use cpp_nio_socket.Common.{
  ℕ, ◌+◌, ◌-◌, ◌^◌, ◌≤◌, ◌<◌, ◌≡◌, refl, sym, ap, subst, ◌∙◌, ◌⊎◌, inl, inr, arith, List, ◌++◌,
  length, bind_congr, Outcome, Fault, runtime_error, endless, ok, err, le→ltb,
}
use cpp_nio_socket.Memory.{Width, size, set_chars}
use cpp_nio_socket.Memory.Laws.{encode, length-encode, length-set_chars, set_field-eq-set_chars}
use cpp_nio_socket.Buffer.{CharBuf, readable_bytes, ensure_writable}
use cpp_nio_socket.Buffer.Access.{raw_set, raw_set_chars, write_field, write_chars}
use cpp_nio_socket.Buffer.Window.{window, window-take, window-set_chars, length-window}
use cpp_nio_socket.Buffer.Valid.{IsValid, contents}
use cpp_nio_socket.Buffer.Growth.{Grown, Grown-self, ensure_writable-cases, ensure_writable-total}

pub length-contents :
    (b : CharBuf) → IsValid b → length (contents b) ≡ b.writer_index - b.reader_index
unfolding readable_bytes
length-contents b v = length-window b.array b.reader_index _ (omega (arith, v.allocated))

-- A buffer after `cs` has been copied to its writer index.
unfoldable pub placed : CharBuf → List ℕ → CharBuf
placed b cs = record b {
  array = set_chars b.array b.writer_index cs;
  writer_index = b.writer_index + length cs;
}

-- The invariant, and what is readable.
abbrev pub Holds : CharBuf → List ℕ → Type 0
Holds b cs = IsValid b × (contents b ≡ cs)

contents-Grown : (b b' : CharBuf) (n : ℕ) → IsValid b → Grown b n b' → contents b' ≡ contents b
unfolding readable_bytes
contents-Grown b b' n v g =
    rw (g.same_reader, g.same_writer)
      (sym (
          window-take b'.array b.reader_index (b.writer_index - b.reader_index) b.capacity
            (omega arith))
        ∙ ap (λ m. window m b.reader_index (b.writer_index - b.reader_index)) g.kept)

placed-contents :
    (b : CharBuf) (cs : List ℕ)
    → IsValid b
    → b.writer_index + length cs ≤ b.capacity
    → contents (placed b cs) ≡ contents b ++ cs
unfolding placed readable_bytes
placed-contents b cs v room =
    let r = b.reader_index in
    let n = b.writer_index - b.reader_index in
    let e : r + n ≡ b.writer_index = omega arith in
    let e' : b.writer_index + length cs - r ≡ n + length cs = omega arith in
    ap (λ k. window (set_chars b.array b.writer_index cs) r k) e'
    ∙ ap (λ k. window (set_chars b.array k cs) r (n + length cs)) (sym e)
    ∙ window-set_chars b.array r n cs (omega (arith, v.allocated))

placed-IsValid :
    (b : CharBuf) (cs : List ℕ)
    → IsValid b
    → b.writer_index + length cs ≤ b.capacity
    → IsValid (placed b cs)
unfolding placed
placed-IsValid b cs v room = record {
  reader_le = omega arith;
  writer_le = room;
  capacity_le = v.capacity_le;
  fits_int = v.fits_int;
  allocated = length-set_chars b.array b.writer_index cs ∙ v.allocated;
}

pub placed-Holds :
    (b b' : CharBuf) (cs : List ℕ)
    → IsValid b
    → Grown b (length cs) b'
    → Holds (placed b' cs) (contents b ++ cs)
placed-Holds b b' cs v g =
    let room : b'.writer_index + length cs ≤ b'.capacity = omega arith in
    (
      placed-IsValid b' cs g.valid room,
      placed-contents b' cs g.valid room ∙ ap (λ l. l ++ cs) (contents-Grown b b' (length cs) v g),
    )

pub write_chars-placed :
    (fresh : ℕ → ℕ) (b b' : CharBuf) (cs : List ℕ)
    → ensure_writable fresh (length cs) b ≡ (ok tt, b')
    → Grown b (length cs) b'
    → write_chars fresh cs b ≡ (ok tt, placed b' cs)
unfolding write_chars raw_set_chars placed
write_chars-placed fresh b b' cs e g =
    rw
      (e, le→ltb (length b'.array) (b'.writer_index + length cs) (omega (arith, g.valid.allocated)))
      refl

raw_set-eq-raw_set_chars :
    (w : Width) (i value : ℕ) (b : CharBuf)
    → raw_set w i value b ≡ raw_set_chars i (encode w value) b
unfolding raw_set raw_set_chars
raw_set-eq-raw_set_chars w i value b = rw (length-encode w value) (simp (set_field-eq-set_chars))

write_field-eq-write_chars :
    (fresh : ℕ → ℕ) (w : Width) (value : ℕ) (b : CharBuf)
    → write_field fresh w value b ≡ write_chars fresh (encode w value) b
unfolding write_field write_chars
write_field-eq-write_chars fresh w value b = rw (length-encode w value) (
    bind_congr (ensure_writable fresh (size w) b) _ _
      λ _ b'. rw (raw_set-eq-raw_set_chars w b'.writer_index value b') refl)

abbrev pub Appends : Outcome (Unit {0}) × CharBuf → CharBuf → List ℕ → Type 0
Appends r b cs =
    ((e : Fault) × (r ≡ (err e, b)))
    ⊎ ((b' : CharBuf) × (r ≡ (ok tt, b')) × Holds b' (contents b ++ cs))

-- writeChars on a valid buffer either throws and leaves the buffer exactly as it was, or returns,
-- keeps it valid, and appends the characters to what is readable.
pub write_chars-Appends :
    (fresh : ℕ → ℕ) (cs : List ℕ) (b : CharBuf) → IsValid b → Appends (write_chars fresh cs b) b cs
unfolding write_chars
write_chars-Appends fresh cs b v = elim (ensure_writable-cases fresh b (length cs) v) [
  | inl (room, q) ↦ done b q (Grown-self b (length cs) v room)
  | inr (inl (over, q)) ↦ inl (runtime_error, rw q refl)
  | inr (inr (_, _, inl (_, q))) ↦ inl (endless, rw q refl)
  | inr (inr (_, _, inr (b', q, g))) ↦ done b' q g
]
  where
    done :
        (b' : CharBuf)
        → ensure_writable fresh (length cs) b ≡ (ok tt, b')
        → Grown b (length cs) b'
        → Appends (write_chars fresh cs b) b cs
    done b' q g = inr (placed b' cs, write_chars-placed fresh b b' cs q g, placed-Holds b b' cs v g)

-- The same for the accessor of every width, which adds the big-endian bytes of the value.
write_field-Appends :
    (fresh : ℕ → ℕ) (w : Width) (value : ℕ) (b : CharBuf)
    → IsValid b
    → Appends (write_field fresh w value b) b (encode w value)
write_field-Appends fresh w value b v =
    rw (write_field-eq-write_chars fresh w value b) (write_chars-Appends fresh (encode w value) b v)

-- The bounds under which `n` more bytes can be written: the buffer is not empty, and what is written
-- stays within `2 ^ 30` bytes and the maximum.
pub record HasRoom (b : CharBuf) (n : ℕ) : Type 0 where
  pub valid : IsValid b
  pub nonempty : 0 < b.capacity
  pub small : b.capacity ≤ 2 ^ 30
  pub few : b.writer_index + n ≤ 2 ^ 30
  pub fits : b.writer_index + n ≤ b.max_capacity

placed-HasRoom :
    (b b' : CharBuf) (cs : List ℕ) (n : ℕ)
    → HasRoom b (length cs + n)
    → Grown b (length cs) b'
    → b'.capacity ≤ 2 ^ 30
    → HasRoom (placed b' cs) n
unfolding placed
placed-HasRoom b b' cs n h g c = record {
  valid = placed-IsValid b' cs g.valid (omega arith);
  nonempty = omega (arith, h.nonempty, g.larger);
  small = c;
  few = omega (arith, h.few, g.same_writer);
  fits = omega (arith, h.fits, g.same_writer, g.same_max);
}

-- On a valid buffer with a non-empty array of at most 2 ^ 30 bytes and with room, below its maximum
-- and 2 ^ 30, for a field and n more bytes, the write accessor of any width returns normally,
-- appends the big-endian bytes of the value to what is readable, and leaves such room for n more
-- bytes.
pub write_field-total :
    (fresh : ℕ → ℕ) (w : Width) (value n : ℕ) (b : CharBuf)
    → HasRoom b (size w + n)
    → (b' : CharBuf) × (write_field fresh w value b ≡ (ok tt, b'))
      × HasRoom b' n
      × (contents b' ≡ contents b ++ encode w value)
write_field-total fresh w value n b h =
    let k = length-encode w value in
    let cs = encode w value in
    let h' : HasRoom b (length cs + n) = subst (λ j. HasRoom b (j + n)) (sym k) h in
    let (b', q, g, c, _) =
      ensure_writable-total fresh b (length cs) h.valid h.nonempty h.small (omega (arith, h'.few))
        (omega (arith, h'.fits)) in
    (
      placed b' cs,
      write_field-eq-write_chars fresh w value b ∙ write_chars-placed fresh b b' cs q g,
      placed-HasRoom b b' cs n h' g c,
      (placed-Holds b b' cs h.valid g).1,
    )
