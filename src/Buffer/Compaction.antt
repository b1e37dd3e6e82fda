-- ===== src/Buffer/Compaction.antt =====
-- discardReadBytes and discardSomeReadBytes of AbstractCharBuf.cpp: when the unread bytes move to the
-- front of the array, and when the `memcpy` that moves them is undefined.
use cpp_nio_socket.Common.{
  ◌+◌, ◌/◌, ◌%◌, ◌≤◌, ◌<◌, ◌≡◌, ◌≢◌, refl, ◌⊎◌, inl, inr, arith, ==_eq, ==_ne, le→leb, lt→leb,
  dec_lt, ℕ_discrete, ok, err, undefined,
}
use cpp_nio_socket.Buffer.{CharBuf}
use cpp_nio_socket.Buffer.Discard.{rewind, discard_read_bytes, discard_some_read_bytes}
use cpp_nio_socket.Buffer.Valid.{IsValid, contents}
use cpp_nio_socket.Buffer.Moves.{
  Discarded, compacted, compact_runs, compact_overlap, compacted-Discarded, rewind-Discarded,
  self-Discarded,
}

-- On a valid buffer with at most as many unread bytes as read ones, discardReadBytes returns
-- normally, keeps the buffer valid, its capacity and what is readable, and moves the reader to the
-- front.
pub discard_read_bytes_lem :
    (b : CharBuf)
    → IsValid b
    → b.writer_index ≤ b.reader_index + b.reader_index
    → (b' : CharBuf) × (discard_read_bytes b ≡ (ok tt, b')) × Discarded b b'
unfolding discard_read_bytes
discard_read_bytes_lem b v h = elim (ℕ_discrete b.reader_index 0) [
  | yes front ↦ (b, rw (==_eq b.reader_index 0 front) refl, self-Discarded b v front)
  | no taken ↦ elim (ℕ_discrete b.reader_index b.writer_index) [
    | yes all ↦ (
      rewind b,
      rw (==_ne b.reader_index 0 taken, ==_eq b.reader_index b.writer_index all) refl,
      rewind-Discarded b v all,
    )
    | no unread ↦ (
      compacted b,
      rw (==_ne b.reader_index 0 taken, ==_ne b.reader_index b.writer_index unread)
          (compact_runs b v h),
      compacted-Discarded b v,
    )
  ]
]

-- On a valid buffer with something read and with more unread bytes than read ones, discardReadBytes
-- copies between overlapping memory with memcpy, which is undefined.
pub discard_read_bytes_overlap :
    (b : CharBuf)
    → IsValid b
    → 0 < b.reader_index
    → b.reader_index + b.reader_index < b.writer_index
    → discard_read_bytes b ≡ (err undefined, b)
unfolding discard_read_bytes
discard_read_bytes_overlap b v taken h =
    let front : b.reader_index ≢ 0 = omega arith in
    let unread : b.reader_index ≢ b.writer_index = omega arith in
    rw (==_ne b.reader_index 0 front, ==_ne b.reader_index b.writer_index unread)
      (compact_overlap b v h)

-- What is left of a buffer: its valid state and readable bytes, with the reader at the front, or all
-- of it when less than half is read.
abbrev pub Trimmed : CharBuf → CharBuf → Type 0
Trimmed b b' =
    IsValid b'
    × (contents b' ≡ contents b)
    × (b'.capacity ≡ b.capacity)
    × (b'.max_capacity ≡ b.max_capacity)
    × ((b'.reader_index ≡ 0) ⊎ ((b' ≡ b) × (b.reader_index < b.capacity / 2)))

Discarded-Trimmed : {b b' : CharBuf} → Discarded b b' → Trimmed b b'
Discarded-Trimmed d = (d.valid, d.same_contents, d.same_capacity, d.same_max, inl d.at_front)

-- On a valid buffer of even capacity discardSomeReadBytes always returns normally, keeps the buffer
-- valid, its capacity, its maximum and what is readable, and moves the reader to the front, or
-- changes nothing with the reader in the first half.
pub discard_some_read_bytes_lem :
    (b : CharBuf)
    → IsValid b
    → b.capacity % 2 ≡ 0
    → (b' : CharBuf) × (discard_some_read_bytes b ≡ (ok tt, b')) × Trimmed b b'
unfolding discard_some_read_bytes
discard_some_read_bytes_lem b v even = elim (ℕ_discrete b.reader_index 0) [
  | yes front ↦ (b, rw (==_eq b.reader_index 0 front) refl, (v, refl, refl, refl, inl front))
  | no taken ↦ elim (ℕ_discrete b.reader_index b.writer_index) [
    | yes all ↦ (
      rewind b,
      rw (==_ne b.reader_index 0 taken, ==_eq b.reader_index b.writer_index all) refl,
      Discarded-Trimmed (rewind-Discarded b v all),
    )
    | no unread ↦ elim (dec_lt b.reader_index (b.capacity / 2)) [
      | yes low ↦ (
        b,
        rw
            (
              ==_ne b.reader_index 0 taken,
              ==_ne b.reader_index b.writer_index unread,
              lt→leb (b.capacity / 2) b.reader_index low,
            )
            refl,
        (v, refl, refl, refl, inr (refl, low)),
      )
      | no high ↦ (
        compacted b,
        rw
            (
              ==_ne b.reader_index 0 taken,
              ==_ne b.reader_index b.writer_index unread,
              le→leb (b.capacity / 2) b.reader_index (omega arith),
            )
            (compact_runs b v (omega arith)),
        Discarded-Trimmed (compacted-Discarded b v),
      )
    ]
  ]
]

-- On a valid, full buffer of odd capacity of which just under half, and at least one byte, has been
-- read, discardSomeReadBytes is undefined.
pub discard_some_read_bytes_odd :
    (b : CharBuf)
    → IsValid b
    → 0 < b.reader_index
    → b.capacity ≡ b.reader_index + b.reader_index + 1
    → b.writer_index ≡ b.capacity
    → discard_some_read_bytes b ≡ (err undefined, b)
unfolding discard_some_read_bytes
discard_some_read_bytes_odd b v taken odd full =
    let front : b.reader_index ≢ 0 = omega arith in
    let unread : b.reader_index ≢ b.writer_index = omega arith in
    rw
      (
        ==_ne b.reader_index 0 front,
        ==_ne b.reader_index b.writer_index unread,
        le→leb (b.capacity / 2) b.reader_index (omega arith),
      )
      (compact_overlap b v (omega arith))
