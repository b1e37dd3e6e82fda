-- ===== src/ByteToMessage/Reset.antt =====
-- resetCumulation of ByteToMessageDecoder.cpp: what is unread stays.
use cpp_nio_socket.Common.{
  ℕ, ◌+◌, ◌-◌, ◌%◌, ◌≤◌, ◌≡◌, refl, sym, ap, subst, Outcome, ◌∙◌, inl, inr, arith, true, Bool-cases,
  not, ◌&&◌, Option, none, some, List, [], ◌∷◌, ◌++◌, length, ok, leb, if_true, if_false,
}
use cpp_nio_socket.Buffer.{CharBuf, is_readable, readable_bytes}
use cpp_nio_socket.Buffer.Valid.{contents}
use cpp_nio_socket.Buffer.Window.{window}
use cpp_nio_socket.Buffer.Append.{length-contents}
use cpp_nio_socket.Buffer.Discard.{discard_some_read_bytes}
use cpp_nio_socket.Buffer.Compaction.{discard_some_read_bytes_lem}
use cpp_nio_socket.Buffer.Transfer.{IsRoomy}
use cpp_nio_socket.ByteToMessage.Cumulation.{
  Counted, Handler, is_one, discard_after_reads, release, put_buffer, discard_if_own, count_read,
  drop_or_count, reset_cumulation, swallow,
}

-- What is kept of a buffer: its unread bytes, in a buffer that is as good, no further written.
pub record Kept (b b' : CharBuf) : Type 0 where
  pub roomy : IsRoomy b'
  pub same_contents : contents b' ≡ contents b
  pub no_further : b'.writer_index ≤ b.writer_index

discard_some-Kept :
    (b : CharBuf)
    → IsRoomy b
    → (b' : CharBuf) × (discard_some_read_bytes b ≡ (ok tt, b')) × Kept b b'
discard_some-Kept b r =
    let (b', e, (v, c, cap, max, how)) = discard_some_read_bytes_lem b r.valid r.even in
    let l = length-contents b r.valid in
    let l' = length-contents b' v in
    let k = ap length c in
    (
      b',
      e,
      record {
        roomy = record {
          valid = v;
          nonempty = omega (arith, r.nonempty, cap);
          even = ap (λ k. k % 2) cap ∙ r.even;
          small = omega (arith, r.small, cap);
          widest = max ∙ r.widest;
        };
        same_contents = c;
        no_further = elim how [
          | inl front ↦ omega (arith, v.reader_le)
          | inr (same, _) ↦ omega (arith, ap (λ (b : CharBuf). b.writer_index) same)
        ];
      },
    )

read_up_empty : (b : CharBuf) → not (is_readable b) ≡ true → contents b ≡ []
unfolding is_readable readable_bytes
read_up_empty b e =
    let done : b.writer_index - b.reader_index ≡ 0 = ground arith in
    ap (λ n. window b.array b.reader_index n) done

-- The unread bytes of the cumulation, which has been written up to `used` at most.
abbrev pub Unread : ℕ → List ℕ → Option Counted → Type 0
Unread used u none = u ≡ []
Unread used u (some c) = IsRoomy c.buf × (contents c.buf ≡ u) × (c.buf.writer_index ≤ used)

module _ {D E : Type 0} (used : ℕ) (u : List ℕ) where
  -- A step that ends normally, keeps the unread bytes, and neither fires nor decodes.
  abbrev pub Leaves : Handler D E → Outcome (Unit {0}) × Handler D E → Type 0
  Leaves h r =
      (h' : Handler D E) × (r ≡ (ok tt, h'))
      × Unread used u h'.cumulation
      × (h'.decoder ≡ h.decoder)
      × (h'.fired ≡ h.fired)

  discard_if_own-Leaves :
      (o : Option Counted) (h : Handler D E)
      → h.cumulation ≡ o
      → Unread used u o
      → Leaves h (discard_if_own o h)
  discard_if_own-Leaves none h e r = (h, refl, subst (Unread used u) (sym e) r, refl, refl)
  discard_if_own-Leaves (some c) h e (r, k, w) =
      elim (Bool-cases (not h.first && is_one c.ref_cnt)) [
        | inl own ↦
            let (b, run, kept) = discard_some-Kept c.buf r in
            (
              record h { cumulation = some (record c { buf = b }) },
              if_true _ _ _ own ∙ ap (put_buffer c h) run,
              (kept.roomy, kept.same_contents ∙ k, omega (arith, kept.no_further)),
              refl,
              refl,
            )
        | inr shared ↦
            (h, if_false _ _ _ shared, subst (Unread used u) (sym e) (r, k, w), refl, refl)
      ]

  count_read-Leaves : (h : Handler D E) → Unread used u h.cumulation → Leaves h (count_read h)
  count_read-Leaves h r = elim (Bool-cases (leb discard_after_reads (h.num_reads + 1))) [
    | inl often ↦
        let (h', run, kept, d, f) =
          discard_if_own-Leaves h.cumulation (record h { num_reads = 0 }) refl r in
        (h', if_true _ _ _ often ∙ run, kept, d, f)
    | inr seldom ↦ (record h { num_reads = h.num_reads + 1 }, if_false _ _ _ seldom, r, refl, refl)
  ]

  drop_or_count-Leaves :
      (o : Option Counted) (h : Handler D E)
      → h.cumulation ≡ o
      → Unread used u o
      → Leaves h (drop_or_count o h)
  drop_or_count-Leaves none h e r = count_read-Leaves h (subst (Unread used u) (sym e) r)
  drop_or_count-Leaves (some c) h e (r, k, w) = elim (Bool-cases (not (is_readable c.buf))) [
    | inl empty ↦ (
      record h { num_reads = 0; released = h.released ++ (release c ∷ []); cumulation = none },
      if_true _ _ _ empty,
      sym k ∙ read_up_empty c.buf empty,
      refl,
      refl,
    )
    | inr more ↦
        let (h', run, kept, d, f) = count_read-Leaves h (subst (Unread used u) (sym e) (r, k, w)) in
        (h', if_false _ _ _ more ∙ run, kept, d, f)
  ]

  -- resetCumulation lets a buffer go when it is read up.
  pub reset_cumulation-Leaves :
      (h : Handler D E) → Unread used u h.cumulation → Leaves h (reset_cumulation h)
  unfolding reset_cumulation
  reset_cumulation-Leaves h r =
      let (h', run, kept, d, f) = drop_or_count-Leaves h.cumulation h refl r in
      (h', ap swallow run, kept, d, f)
