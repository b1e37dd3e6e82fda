-- ===== src/Receive/Adapt.antt =====
-- How AdaptiveRecvByteBufAllocator::HandleImpl adapts.
use cpp_nio_socket.Common.{
  ℕ, max, true, ◌+◌, ◌-◌, ◌≤◌, ◌<◌, ◌≡◌, refl, arith, ◌⊎◌, inl, inr, dec_lt, false, le→leb, lt→leb,
  min, Bool-cases,
}
use cpp_nio_socket.Receive.{Handle, get_size, record_bytes}

-- The guess is the entry at an index within the bounds.
pub record IsHandle (h : Handle) : Type 0 where
  pub lower : h.min_index ≤ h.index
  pub upper : h.index ≤ h.max_index
  pub guess : h.next_receive_buffer_size ≡ get_size h.index

abbrev pub small_read : Handle → ℕ
small_read h = get_size (h.index - 1 - 1)

-- A small read, of at most the size two entries below, is noted first and shrinks the index by one the
-- second time; a full read grows it by up to four; another read changes nothing.
abbrev pub Adapts : ℕ → Handle → Handle → Type 0
Adapts n h h' =
    IsHandle h'
    × (h.index ≤ h'.index + 1)
    × (h'.index ≤ h.index + 4)
    × ((h'.min_index ≡ h.min_index) × (h'.max_index ≡ h.max_index))
    × (((n ≤ small_read h) × (h.decrease_now ≡ false) × (h' ≡ record h { decrease_now = true }))
        ⊎ (((n ≤ small_read h)
              × (h.decrease_now ≡ true)
              × (h'.index ≡ max (h.index - 1) h.min_index)
              × (h'.decrease_now ≡ false))
            ⊎ (((small_read h < n)
                  × (h.next_receive_buffer_size ≤ n)
                  × (h'.index ≡ min (h.index + 4) h.max_index)
                  × (h'.decrease_now ≡ false))
                ⊎ ((small_read h < n) × (n < h.next_receive_buffer_size) × (h' ≡ h)))))

-- For a handle whose index is within its bounds and whose guess is the table's size there, record
-- keeps this and the bounds, and does one of four things: a small read, of at most the size two
-- entries below, is noted if none was noted before, with nothing else changed; a small read after a
-- noted one lowers the index by one, not below the lower bound, and clears the note; a larger read
-- that fills the guess raises the index by four, cut to the upper bound, and clears the note; any
-- other read changes nothing.
pub record_bytes-Adapts : (n : ℕ) (h : Handle) → IsHandle h → Adapts n h (record_bytes n h)
unfolding record_bytes
record_bytes-Adapts n h v = elim (dec_lt (get_size (h.index - 1 - 1)) n) [
  | no little ↦ elim (Bool-cases h.decrease_now) [
    | inl again ↦
        rw (le→leb n (get_size (h.index - 1 - 1)) (omega arith), again)
          (
            record {
              lower = omega (arith, v.lower);
              upper = omega (arith, v.lower, v.upper);
              guess = refl;
            },
            omega (arith, v.lower),
            omega (arith, v.lower),
            (refl, refl),
            inr (inl (omega arith, refl, refl, refl)),
          )
    | inr first ↦
        rw (le→leb n (get_size (h.index - 1 - 1)) (omega arith), first)
          (
            record { lower = v.lower; upper = v.upper; guess = v.guess },
            omega arith,
            omega arith,
            (refl, refl),
            inl (omega arith, refl, refl),
          )
  ]
  | yes more ↦ elim (dec_lt n h.next_receive_buffer_size) [
    | yes part ↦
        rw (lt→leb n (get_size (h.index - 1 - 1)) more, lt→leb h.next_receive_buffer_size n part)
          (v, omega arith, omega arith, (refl, refl), inr (inr (inr (more, part, refl))))
    | no full ↦
        rw
          (
            lt→leb n (get_size (h.index - 1 - 1)) more,
            le→leb h.next_receive_buffer_size n (omega arith),
          )
          (
            record { lower = omega (arith, v.lower, v.upper); upper = omega arith; guess = refl },
            omega (arith, v.upper),
            omega arith,
            (refl, refl),
            inr (inr (inl (more, omega arith, refl, refl))),
          )
  ]
]
