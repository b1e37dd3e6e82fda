-- ===== src/Buffer/RoundTrip.antt =====
-- Records of fields of AbstractCharBuf.cpp: what one side writes the other side reads.
use cpp_nio_socket.Common.{
  ℕ, ◌+◌, ◌*◌, ◌^◌, ◌<◌, ◌≡◌, refl, sym, ap, ◌∙◌, arith, List, [], ◌∷◌, ◌++◌, append-nil,
  append_assoc, length, length-append, drop, M, ok, ◌>>=◌, ◌>>◌, return,
}
use cpp_nio_socket.Memory.{Width, size}
use cpp_nio_socket.Memory.Laws.{encode, decode, decode-encode, length-encode}
use cpp_nio_socket.Buffer.{CharBuf}
use cpp_nio_socket.Buffer.Access.{read_field, write_field}
use cpp_nio_socket.Buffer.Valid.{IsValid, contents}
use cpp_nio_socket.Buffer.Append.{HasRoom, write_field-total}
use cpp_nio_socket.Buffer.Fifo.{read_field_lem}

-- A message as its fields, each with its width.
abbrev pub Fields : Type 0
Fields = List (Width × ℕ)

abbrev InRange : Fields → Type 0
InRange [] = Unit
InRange ((w, v) ∷ fs) = (v < 2 ^ (8 * size w)) × InRange fs

abbrev total_size : Fields → ℕ
total_size [] = 0
total_size ((w, v) ∷ fs) = size w + total_size fs

abbrev pub values : Fields → List ℕ
values [] = []
values ((w, v) ∷ fs) = v ∷ values fs

abbrev encode_all : Fields → List ℕ
encode_all [] = []
encode_all ((w, v) ∷ fs) = encode w v ++ encode_all fs

-- The write accessors in a row, then the read accessors of the same widths.
pub write_all : (ℕ → ℕ) → Fields → M CharBuf (Unit {0})
write_all fresh [] = return tt
write_all fresh ((w, v) ∷ fs) = do write_field fresh w v; write_all fresh fs

pub read_all : Fields → M CharBuf (List ℕ)
read_all [] = return []
read_all ((w, _) ∷ fs) = do v ← read_field w; vs ← read_all fs; return (v ∷ vs)

write_all_lem :
    (fresh : ℕ → ℕ) (fs : Fields) (b : CharBuf)
    → HasRoom b (total_size fs)
    → (b' : CharBuf) × (write_all fresh fs b ≡ (ok tt, b'))
      × IsValid b'
      × (contents b' ≡ contents b ++ encode_all fs)
unfolding write_all
write_all_lem fresh [] b h = (b, refl, h.valid, sym (append-nil (contents b)))
write_all_lem fresh ((w, v) ∷ fs) b h =
    let (b1, e, h1, c) = write_field-total fresh w v (total_size fs) b h in
    let (b2, e', v2, c') = write_all_lem fresh fs b1 h1 in
    (
      b2,
      rw e e',
      v2,
      c' ∙ ap (λ l. l ++ encode_all fs) c ∙ append_assoc (contents b) (encode w v) (encode_all fs),
    )

read_all_lem :
    (fs : Fields) (rest : List ℕ) (b : CharBuf)
    → InRange fs
    → IsValid b
    → contents b ≡ encode_all fs ++ rest
    → (b' : CharBuf) × (read_all fs b ≡ (ok (values fs), b')) × IsValid b' × (contents b' ≡ rest)
unfolding read_all
read_all_lem [] rest b h v c = (b, refl, v, c)
read_all_lem ((w, x) ∷ fs) rest b h v c =
    let n = length-encode w x in
    let c1 : contents b ≡ encode w x ++ (encode_all fs ++ rest) =
      c ∙ append_assoc (encode w x) (encode_all fs) rest in
    let (b1, e, v1, d) =
      read_field_lem w b v
        (omega (arith, ap length c1, n, length-append (encode w x) (encode_all fs ++ rest))) in
    let value : decode w (contents b) ≡ x = ap (decode w) c1 ∙ decode-encode w x _ h.0 in
    let c2 : contents b1 ≡ encode_all fs ++ rest =
      d ∙ ap (drop (size w)) c1 ∙ drop_encoded w x (encode_all fs ++ rest) in
    let (b2, e', v2, c') = read_all_lem fs rest b1 h.1 v1 c2 in
    (b2, rw (e, e') (ap (λ y. (ok (y ∷ values fs), b2)) value), v2, c')
  where
    drop_encoded : (u : Width) (y : ℕ) (ys : List ℕ) → drop (size u) (encode u y ++ ys) ≡ ys
    drop_encoded Width.char y ys = refl
    drop_encoded Width.short y ys = refl
    drop_encoded Width.int y ys = refl
    drop_encoded Width.long y ys = refl

-- Fields of 1, 2, 4 and 8 bytes with values in range that are written one after the other, growing
-- the buffer as needed, to a valid, non-empty array with nothing unread and with room for them below
-- its maximum and 2 ^ 30 bytes, are read back in order by the read accessors, and nothing is left
-- unread.
pub read_all-write_all :
    (fresh : ℕ → ℕ) (fs : Fields) (b : CharBuf)
    → HasRoom b (total_size fs)
    → InRange fs
    → contents b ≡ []
    → (b' : CharBuf) × ((do write_all fresh fs; read_all fs) b ≡ (ok (values fs), b'))
      × IsValid b'
      × (contents b' ≡ [])
read_all-write_all fresh fs b room range empty =
    let (b1, e, v, c) = write_all_lem fresh fs b room in
    let (b2, e', v', c') =
      read_all_lem fs [] b1 range v
        (c ∙ ap (λ l. l ++ encode_all fs) empty ∙ sym (append-nil (encode_all fs))) in
    (b2, rw e e', v', c')
