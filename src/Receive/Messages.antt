-- ===== src/Receive/Messages.antt =====
-- MaxMessageHandle of DefaultMaxMessagesRecvCharBufAllocator.hpp, what HandleImpl of
-- AdaptiveRecvByteBufAllocator.hpp adds to it, and record of AbstractConnection.cpp.
--
-- The counts are `int`s that are not negative: between two resets less than 2 ^ 31 bytes are read.
use cpp_nio_socket.Common.{
  ℕ, ◌+◌, ◌≤◌, ◌<◌, ◌≡◌, ◌≢◌, sym, ap, ◌∙◌, subst, arith, Bool, not, ◌&&◌, ◌||◌, ltb, leb, ◌==◌,
  if◌then◌else◌, Outcome, ok, err, runtime_error, lt→ltb, ==_eq, ==_ne, if_true, ℕ_discrete,
}
use cpp_nio_socket.Receive.{Handle, record_bytes}
use cpp_nio_socket.Receive.Adapt.{IsHandle, record_bytes-Adapts}

-- DefaultMaxMessagesRecvCharBufAllocator
pub record MessageLimits : Type 0 where
  pub max_messages_per_read : ℕ
  pub respect_maybe_more_data : Bool

unfoldable set_max_messages_per_read : ℕ → MessageLimits → Outcome MessageLimits
set_max_messages_per_read n l =
    if leb n 0 then err runtime_error else ok (record l { max_messages_per_read = n })

-- A HandleImpl with what it inherits.
pub record MaxMessageHandle : Type 0 where
  pub max_message_per_read : ℕ
  pub total_messages : ℕ
  pub total_bytes_read : ℕ
  pub attempted_bytes_read : ℕ
  pub last_bytes_read : ℕ
  pub respect_maybe_more_data : Bool
  pub adaptive : Handle

abbrev pub new_message_handle : MessageLimits → Handle → MaxMessageHandle
new_message_handle l adaptive = record {
  max_message_per_read = 1;
  total_messages = 0;
  total_bytes_read = 0;
  attempted_bytes_read = 0;
  last_bytes_read = 0;
  respect_maybe_more_data = l.respect_maybe_more_data;
  adaptive = adaptive;
}

abbrev pub reset : MessageLimits → MaxMessageHandle → MaxMessageHandle
reset l h = record h {
  max_message_per_read = l.max_messages_per_read;
  total_messages = 0;
  total_bytes_read = 0;
}

abbrev pub inc_messages_read : ℕ → MaxMessageHandle → MaxMessageHandle
inc_messages_read amt h = record h { total_messages = h.total_messages + amt }

abbrev base_last_bytes_read : ℕ → MaxMessageHandle → MaxMessageHandle
base_last_bytes_read bytes h = record h {
  last_bytes_read = bytes;
  total_bytes_read = if ltb 0 bytes then h.total_bytes_read + bytes else h.total_bytes_read;
}

unfoldable pub set_last_bytes_read : ℕ → MaxMessageHandle → MaxMessageHandle
set_last_bytes_read bytes h = base_last_bytes_read bytes (
    if bytes == h.attempted_bytes_read
    then record h { adaptive = record_bytes bytes h.adaptive }
    else h)

unfoldable pub continue_reading : MaxMessageHandle → Bool
continue_reading h =
    (not h.respect_maybe_more_data || h.attempted_bytes_read == h.last_bytes_read)
    && ltb h.total_messages h.max_message_per_read
    && ltb 0 h.total_bytes_read

abbrev pub read_complete : MaxMessageHandle → MaxMessageHandle
read_complete h = record h { adaptive = record_bytes h.total_bytes_read h.adaptive }

-- The last two lines of adjustReadBuffer, for a read buffer with room for `writable` bytes.
abbrev pub begin_read : MessageLimits → ℕ → MaxMessageHandle → MaxMessageHandle
begin_read l writable h = reset l (record h { attempted_bytes_read = writable })

-- AbstractConnection::record
unfoldable pub record_read : ℕ → MaxMessageHandle → MaxMessageHandle
unfolding set_last_bytes_read
record_read len h = read_complete (if ltb 0 len then set_last_bytes_read len h else h)

-- How one read of `len` bytes changes what HandleImpl adapts.
abbrev pub Recorded : ℕ → ℕ → Handle → Handle → Type 0
Recorded writable len h h' =
    (0 < len → len ≡ writable → h' ≡ record_bytes len (record_bytes len h))
    × (0 < len → len ≢ writable → h' ≡ record_bytes len h)
    × (len ≡ 0 → h' ≡ record_bytes 0 h)
    × IsHandle h'
    × (h.index ≤ h'.index + 2)
    × (h'.index ≤ h.index + 8)

abbrev Moves : Handle → Handle → Type 0
Moves h h' = IsHandle h' × (h.index ≤ h'.index + 2) × (h'.index ≤ h.index + 8)

steps_twice : (n : ℕ) (h : Handle) → IsHandle h → Moves h (record_bytes n (record_bytes n h))
steps_twice n h v =
    let (v1, down1, up1, _, _) = record_bytes-Adapts n h v in
    let (v2, down2, up2, _, _) = record_bytes-Adapts n (record_bytes n h) v1 in
    (v2, omega arith, omega arith)

steps_once : (n : ℕ) (h : Handle) → IsHandle h → Moves h (record_bytes n h)
steps_once n h v =
    let (v1, down1, up1, _, _) = record_bytes-Adapts n h v in (v1, omega arith, omega arith)

abbrev adaptive_after : ℕ → MaxMessageHandle → Bool → Handle
adaptive_after len h b = (read_complete (if b then set_last_bytes_read len h else h)).adaptive

abbrev adaptive_with : ℕ → MaxMessageHandle → Bool → Handle
adaptive_with len h b =
    (read_complete (
      base_last_bytes_read len
        (if b then record h { adaptive = record_bytes len h.adaptive } else h))).adaptive

-- The bytes of a first read are all that was read.
counted :
    (len : ℕ) (h : Handle)
    → 0 < len
    → record_bytes (if ltb 0 len then 0 + len else 0) h ≡ record_bytes len h
counted len h pos =
    let e : 0 + len ≡ len = omega arith in
    ap (λ n. record_bytes n h) (if_true _ _ _ (lt→ltb 0 len pos) ∙ e)

record_full :
    (l : MessageLimits) (len : ℕ) (h : MaxMessageHandle) (writable : ℕ)
    → 0 < len
    → len ≡ writable
    → (record_read len (begin_read l writable h)).adaptive
      ≡ record_bytes len (record_bytes len h.adaptive)
unfolding record_read set_last_bytes_read
record_full l len h writable pos e =
    let h0 = begin_read l writable h in
    ap (adaptive_after len h0) (lt→ltb 0 len pos)
    ∙ ap (adaptive_with len h0) (==_eq len writable e)
    ∙ counted len (record_bytes len h.adaptive) pos

record_part :
    (l : MessageLimits) (len : ℕ) (h : MaxMessageHandle) (writable : ℕ)
    → 0 < len
    → len ≢ writable
    → (record_read len (begin_read l writable h)).adaptive ≡ record_bytes len h.adaptive
unfolding record_read set_last_bytes_read
record_part l len h writable pos ne =
    let h0 = begin_read l writable h in
    ap (adaptive_after len h0) (lt→ltb 0 len pos)
    ∙ ap (adaptive_with len h0) (==_ne len writable ne)
    ∙ counted len h.adaptive pos

-- For a read into a buffer with room for a number of bytes, begun with the attempted bytes and a
-- reset, on a handle whose index is within its bounds and whose guess is the table's size there:
-- record of the connection adapts the guess twice if the read was not empty and filled the room,
-- once by its length if it did not fill it, and once by 0 if it was empty; the handle stays within
-- its bounds, and its index goes down by at most two and up by at most eight.
pub record_read_lem :
    (l : MessageLimits) (writable len : ℕ) (h : MaxMessageHandle)
    → IsHandle h.adaptive
    → Recorded writable len h.adaptive (record_read len (begin_read l writable h)).adaptive
unfolding record_read set_last_bytes_read
record_read_lem l writable len h v = elim (ℕ_discrete len 0) [
  | yes z ↦
      let run : (record_read len (begin_read l writable h)).adaptive ≡ record_bytes 0 h.adaptive =
        ap (λ n. (record_read n (begin_read l writable h)).adaptive) z in
      let moves = subst (Moves h.adaptive) (sym run) (steps_once 0 h.adaptive v) in
      (
        λ pos. absurd (omega arith),
        λ pos. absurd (omega arith),
        λ _. run,
        moves.0,
        moves.1,
        moves.2,
      )
  | no ne ↦
      let some_read : 0 < len = omega (arith, ne) in
      elim (ℕ_discrete len writable) [
        | yes e ↦
            let run = record_full l len h writable some_read e in
            let moves = subst (Moves h.adaptive) (sym run) (steps_twice len h.adaptive v) in
            (λ _ _. run, λ _ ne'. absurd (ne' e), λ z. absurd (ne z), moves.0, moves.1, moves.2)
        | no part ↦
            let run = record_part l len h writable some_read part in
            let moves = subst (Moves h.adaptive) (sym run) (steps_once len h.adaptive v) in
            (λ _ e. absurd (part e), λ _ _. run, λ z. absurd (ne z), moves.0, moves.1, moves.2)
      ]
]
