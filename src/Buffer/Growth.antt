-- ===== src/Buffer/Growth.antt =====
-- ensureWritable and capacity(int): a buffer that grows keeps its bytes.
use native.Mathlib.Nat.{pow-le-pow_right}
use cpp_nio_socket.Common.{
  ℕ, zero, suc, ◌+◌, ◌-◌, ◌^◌, ◌≤◌, ◌<◌, min, ◌≡◌, refl, sym, ap, ◌∙◌, ◌⊎◌, inl, inr, arith, dec_lt,
  List, length, take, length-append, length-take, take-all, take-append_left, Outcome, ok, err,
  ℕ_discrete, runtime_error, endless, lt→ltb, le→ltb, bind,
}
use cpp_nio_socket.Capacity.{calculate_new_capacity}
use cpp_nio_socket.Capacity.Growth.{
  calculate_new_capacity_lem, calculate_new_capacity_bounds, calculate_new_capacity-cases,
}
use cpp_nio_socket.Buffer.{CharBuf, fresh_bytes, realloc, set_capacity, ensure_writable}
use cpp_nio_socket.Buffer.Valid.{IsValid}

length-fresh_bytes : (fresh : ℕ → ℕ) (i n : ℕ) → length (fresh_bytes fresh i n) ≡ n
length-fresh_bytes fresh i zero = refl
length-fresh_bytes fresh i (suc n) = ap suc (length-fresh_bytes fresh (suc i) n)

length-realloc : (fresh : ℕ → ℕ) (m : List ℕ) (n : ℕ) → length (realloc fresh m n) ≡ n
unfolding realloc
length-realloc fresh m n = omega (
  arith,
  length-append (take n m) (fresh_bytes fresh (length m) (n - length m)),
  length-take n m,
  length-fresh_bytes fresh (length m) (n - length m),
)

take-realloc :
    (fresh : ℕ → ℕ) (m : List ℕ) (n : ℕ) → length m ≤ n → take (length m) (realloc fresh m n) ≡ m
unfolding realloc
take-realloc fresh m n h =
    rw (take-all n m h)
      (take-append_left (length m) m _ (omega arith) ∙ take-all (length m) m (omega arith))

-- What `ensureWritable(n)` may make of a buffer.
pub record Grown (b : CharBuf) (n : ℕ) (b' : CharBuf) : Type 0 where
  pub valid : IsValid b'
  pub same_reader : b'.reader_index ≡ b.reader_index
  pub same_writer : b'.writer_index ≡ b.writer_index
  pub same_max : b'.max_capacity ≡ b.max_capacity
  pub room : b.writer_index + n ≤ b'.capacity
  pub larger : b.capacity ≤ b'.capacity
  pub kept : take b.capacity b'.array ≡ b.array

grown : (ℕ → ℕ) → CharBuf → ℕ → CharBuf
grown fresh b c = record b { capacity = c; array = realloc fresh b.array c }

set_capacity-grown :
    (fresh : ℕ → ℕ) (b : CharBuf) (c : ℕ)
    → b.capacity < c
    → set_capacity fresh c b ≡ (ok tt, grown fresh b c)
unfolding set_capacity grown
set_capacity-grown fresh b c h = ground arith

grown-Grown :
    (fresh : ℕ → ℕ) (b : CharBuf) (n c : ℕ)
    → IsValid b
    → b.capacity < c
    → b.writer_index + n ≤ c
    → c ≤ b.max_capacity
    → Grown b n (grown fresh b c)
unfolding grown
grown-Grown fresh b n c v larger room fits = record {
  valid = record {
    reader_le = v.reader_le;
    writer_le = omega arith;
    capacity_le = fits;
    fits_int = v.fits_int;
    allocated = length-realloc fresh b.array c;
  };
  same_reader = refl;
  same_writer = refl;
  same_max = refl;
  room = room;
  larger = omega arith;
  kept =
      ap (λ (k : ℕ). take k (realloc fresh b.array c)) (sym v.allocated)
      ∙ take-realloc fresh b.array c (omega arith);
}

-- The loop of the growth may fail to end only here.
abbrev pub MayHang : CharBuf → ℕ → Type 0
MayHang b n = (b.capacity ≡ 0) ⊎ ((2 ^ 30 < b.capacity) ⊎ (2 ^ 30 < b.writer_index + n))

-- There is room, or the maximum is exceeded, or the buffer grows.
abbrev pub EnsuresRoom : (ℕ → ℕ) → CharBuf → ℕ → Type 0
EnsuresRoom fresh b n =
    ((b.writer_index + n ≤ b.capacity) × (ensure_writable fresh n b ≡ (ok tt, b)))
    ⊎ (((b.max_capacity < b.writer_index + n)
          × (ensure_writable fresh n b ≡ (err runtime_error, b)))
        ⊎ ((b.capacity < b.writer_index + n)
            × (b.writer_index + n ≤ b.max_capacity)
            × ((MayHang b n × (ensure_writable fresh n b ≡ (err endless, b)))
                ⊎ ((b' : CharBuf) × (ensure_writable fresh n b ≡ (ok tt, b')) × Grown b n b'))))

pub Grown-self : (b : CharBuf) (n : ℕ) → IsValid b → b.writer_index + n ≤ b.capacity → Grown b n b
Grown-self b n v h = record {
  valid = v;
  same_reader = refl;
  same_writer = refl;
  same_max = refl;
  room = h;
  larger = omega arith;
  kept = take-all b.capacity b.array (omega (arith, v.allocated));
}

ensure_writable_enough :
    (fresh : ℕ → ℕ) (b : CharBuf) (n : ℕ)
    → b.writer_index + n ≤ b.capacity
    → ensure_writable fresh n b ≡ (ok tt, b)
unfolding ensure_writable
ensure_writable_enough fresh b n h = rw (le→ltb b.capacity (b.writer_index + n) h) refl

ensure_writable_over :
    (fresh : ℕ → ℕ) (b : CharBuf) (n : ℕ)
    → b.capacity ≤ b.max_capacity
    → b.max_capacity < b.writer_index + n
    → ensure_writable fresh n b ≡ (err runtime_error, b)
unfolding ensure_writable
ensure_writable_over fresh b n h k =
    rw (lt→ltb b.capacity (b.writer_index + n) (omega arith), lt→ltb _ _ k) refl

ensure_writable_calculates :
    (fresh : ℕ → ℕ) (b : CharBuf) (n : ℕ) (r : Outcome ℕ)
    → b.capacity < b.writer_index + n
    → b.writer_index + n ≤ b.max_capacity
    → calculate_new_capacity b.capacity (b.writer_index + n) b.max_capacity ≡ r
    → ensure_writable fresh n b ≡ bind (r, b) (set_capacity fresh)
unfolding ensure_writable
ensure_writable_calculates fresh b n r h k e =
    rw (lt→ltb b.capacity (b.writer_index + n) h, le→ltb _ _ k, e) refl

-- It makes room for a buffer that is not empty, up to `2 ^ 30` bytes and the maximum.
pub ensure_writable-total :
    (fresh : ℕ → ℕ) (b : CharBuf) (n : ℕ)
    → IsValid b
    → 0 < b.capacity
    → b.capacity ≤ 2 ^ 30
    → b.writer_index + n ≤ 2 ^ 30
    → b.writer_index + n ≤ b.max_capacity
    → (b' : CharBuf) × (ensure_writable fresh n b ≡ (ok tt, b'))
      × Grown b n b'
      × (b'.capacity ≤ 2 ^ 30)
      × ((b'.capacity ≡ b.capacity) ⊎ ((j : ℕ) × (b'.capacity ≡ min (2 ^ j) b.max_capacity)))
unfolding grown
ensure_writable-total fresh b n v positive small few fits =
    elim (dec_lt b.capacity (b.writer_index + n)) [
      | no enough ↦ (
        b,
        ensure_writable_enough fresh b n (omega arith),
        Grown-self b n v (omega arith),
        small,
        inl refl,
      )
      | yes full ↦
          let (j, e, lo, _, j30) =
            calculate_new_capacity_lem b.capacity (b.writer_index + n) b.max_capacity positive small
              few fits in
          let c = min (2 ^ j) b.max_capacity in
          (
            grown fresh b c,
            ensure_writable_calculates fresh b n (ok c) full fits e
                ∙ set_capacity-grown fresh b c (omega arith),
            grown-Grown fresh b n c v (omega arith) lo (omega arith),
            omega (arith, pow-le-pow_right {n = 2} (omega arith) j30),
            inr (j, refl),
          )
    ]

hangs :
    (fresh : ℕ → ℕ) (b : CharBuf) (n : ℕ)
    → IsValid b
    → b.capacity < b.writer_index + n
    → b.writer_index + n ≤ b.max_capacity
    → MayHang b n
    → (MayHang b n × (ensure_writable fresh n b ≡ (err endless, b)))
      ⊎ ((b' : CharBuf) × (ensure_writable fresh n b ≡ (ok tt, b')) × Grown b n b')
hangs fresh b n v full fits why =
    elim (calculate_new_capacity-cases b.capacity (b.writer_index + n) b.max_capacity fits) [
      | inl q ↦ inl (why, ensure_writable_calculates fresh b n (err endless) full fits q)
      | inr (c, q) ↦
          let (lo, hi) = calculate_new_capacity_bounds b.capacity _ _ c q in
          inr (
            grown fresh b c,
            ensure_writable_calculates fresh b n (ok c) full fits q
                ∙ set_capacity-grown fresh b c (omega arith),
            grown-Grown fresh b n c v (omega arith) lo hi,
          )
    ]

-- ensureWritable on a valid buffer does one of these: if the room is there it returns and changes
-- nothing; if what is needed exceeds the maximum it throws a runtime_error and changes nothing; and
-- otherwise it grows the buffer, and returns with a valid buffer that has the requested room behind
-- an unmoved writer, the same reader and maximum, no smaller a capacity, and the bytes of the old
-- array at its front, or, only where the capacity is 0 or above 2 ^ 30 or what is needed is above 2
-- ^ 30, the loop of the growth does not end.
pub ensure_writable-cases :
    (fresh : ℕ → ℕ) (b : CharBuf) (n : ℕ) → IsValid b → EnsuresRoom fresh b n
ensure_writable-cases fresh b n v = elim (dec_lt b.capacity (b.writer_index + n)) [
  | no enough ↦ inl (omega arith, ensure_writable_enough fresh b n (omega arith))
  | yes full ↦ elim (dec_lt b.max_capacity (b.writer_index + n)) [
    | yes over ↦ inr (inl (over, ensure_writable_over fresh b n v.capacity_le over))
    | no within ↦
        let fits : b.writer_index + n ≤ b.max_capacity = omega arith in
        let go = λ (why : MayHang b n). hangs fresh b n v full fits why in
        inr (
          inr (
            full,
            fits,
            elim (ℕ_discrete b.capacity 0) [
              | yes none_yet ↦ go (inl none_yet)
              | no some_yet ↦ elim (dec_lt (2 ^ 30) b.capacity) [
                | yes large ↦ go (inr (inl large))
                | no small ↦ elim (dec_lt (2 ^ 30) (b.writer_index + n)) [
                  | yes many ↦ go (inr (inr many))
                  | no few ↦
                      let (b', e, g, _, _) =
                        ensure_writable-total fresh b n v (omega (arith, some_yet)) (omega arith)
                          (omega arith) fits in
                      inr (b', e, g)
                ]
              ]
            ],
          ))
  ]
]
