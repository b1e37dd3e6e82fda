-- ===== src/ChunkList/Free.antt =====
-- free and freeChunk: the chunk leaves its list when too little of it is in use.
use cpp_nio_socket.Common.{
  ℕ, ◌≤◌, ◌≡◌, ◌≢◌, ◌⊎◌, inl, inr, refl, sym, ap, subst, ◌∙◌, bind, ◌∷◌, if◌then◌else◌, arith,
  dec_lt, Bool, true, false, Outcome, ok, lt→ltb, le→ltb, if_true, if_false,
}
use cpp_nio_socket.ChunkList.{
  ListId, q_init, q000, q025, q050, q075, q100, min_usage, ChunkOps, Lists, usage_of, add0, move0,
  free, free_in, free_chunk, unless_kept, destroy_chunk,
}
use cpp_nio_socket.ChunkList.Moves.{rank, Lands, down, move-Lands}
use cpp_nio_socket.ChunkList.Members.{In, Absent}
use cpp_nio_socket.ChunkList.Placed.{Placed, Without, add0-Placed, keeps_others, is_in}
use cpp_nio_socket.ChunkList.Change.{changed, taken_out, taken_out-Without, stays, changed-Placed}

rank-le : (q : ListId) → rank q ≤ 5
rank-le q_init = omega arith
rank-le q000 = omega arith
rank-le q025 = omega arith
rank-le q050 = omega arith
rank-le q075 = omega arith
rank-le q100 = omega arith

module _ {S : Type 0} (ops : ChunkOps S) (c handle : ℕ) (a : Lists S) where
  -- free ends normally with the invariant, the handle is released: the chunk is in a list, or it is given up, with nothing of
  -- it in use, and in none; the other chunks stay.
  unfoldable pub Released : Outcome Bool × Lists S → Type 0
  Released r =
      (kept : Bool) × (a' : Lists S) × (r ≡ (ok kept, a'))
      × (a'.store ≡ ops.release c handle a.store)
      × Placed ops a'
      × (((kept ≡ true) × ((r : ListId) × In c (a'.chunks r)))
          ⊎ ((kept ≡ false) × (usage_of ops c a' ≡ 0) × ((r : ListId) → Absent c (a'.chunks r))))
      × (a'.deleted ≡ a.deleted)
      × ((d : ℕ) (r : ListId) → c ≢ d → In d (a.chunks r) → In d (a'.chunks r))

  -- freeChunk ends normally with the invariant, the handle is released: the chunk is in a list and no chunk is deleted, or it
  -- is in none, with nothing of it in use, and is the only chunk deleted; the other chunks stay.
  unfoldable pub Frees : Outcome (Unit {0}) × Lists S → Type 0
  Frees r =
      (a' : Lists S) × (r ≡ (ok tt, a'))
      × (a'.store ≡ ops.release c handle a.store)
      × Placed ops a'
      × ((((r : ListId) × In c (a'.chunks r)) × (a'.deleted ≡ a.deleted))
          ⊎ ((usage_of ops c a' ≡ 0)
              × ((r : ListId) → Absent c (a'.chunks r))
              × (a'.deleted ≡ c ∷ a.deleted)))
      × ((d : ℕ) (r : ListId) → c ≢ d → In d (a.chunks r) → In d (a'.chunks r))

  deleted_once : (r : Outcome Bool × Lists S) → Released r → Frees (bind r (unless_kept ops c))
  unfolding Released Frees
  deleted_once r (kept, a', e, freed, p, inl (yes_kept, there), same, stay) = (
    a',
    ap (λ r. bind r (unless_kept ops c)) e
        ∙ ap (λ b. (ok tt, if b then a' else destroy_chunk ops c a')) yes_kept,
    freed,
    p,
    inl (there, same),
    stay,
  )
  deleted_once r (kept, a', e, freed, p, inr (given_up, empty, gone), same, stay) = (
    destroy_chunk ops c a',
    ap (λ r. bind r (unless_kept ops c)) e
        ∙ ap (λ b. (ok tt, if b then a' else destroy_chunk ops c a')) given_up,
    freed,
    record { fits = p.fits; owned = p.owned; once = p.once },
    inr (empty, gone, ap (λ ds. c ∷ ds) same),
    stay,
  )

module _ {S : Type 0} (ops : ChunkOps S) (c handle : ℕ) (a : Lists S) (p : Placed ops a)
    (q : ListId) (member : In c (a.chunks q))
    (others : (d : ℕ) → c ≢ d → ops.usage d (ops.release c handle a.store) ≡ ops.usage d a.store)
    (less : ops.usage c (ops.release c handle a.store) ≤ ops.usage c a.store) where
  abbrev after : S
  after = ops.release c handle a.store

  abbrev out : Lists S
  out = taken_out ops c after a p q member others

  out-Without : Without ops c out
  out-Without = taken_out-Without ops c after a p q member others

  moved : (r : Outcome Bool × Lists S) → Lands ops c out r → Released ops c handle a r
  unfolding Released Lands
  moved r (inl (q', fit, e)) = (
    true,
    add0 ops q' c out,
    e,
    refl,
    add0-Placed ops c out out-Without q' fit,
    inl (refl, (q', is_in ops c out out-Without q' fit)),
    refl,
    λ d s ne h.
        keeps_others ops c out out-Without q' fit s d
          (stays ops c after a p q member others s d ne h),
  )
  moved r (inr (empty, e)) = (
    false,
    out,
    e,
    refl,
    out-Without.placed,
    inr (refl, empty, out-Without.gone),
    refl,
    λ d s ne h. stays ops c after a p q member others s d ne h,
  )

  free_lem : Released ops c handle a (free ops q c handle a)
  unfolding free Released
  free_lem = elim (dec_lt (ops.usage c after) (min_usage q)) [
    | no enough ↦
        let least : min_usage q ≤ ops.usage c after = omega (arith, enough) in
        (
          true,
          changed ops c after a p q member others,
          if_false _ _ _ (le→ltb (ops.usage c after) (min_usage q) least),
          refl,
          changed-Placed ops c after a p q member others
              (least, omega (arith, less, (p.fits q c member).1)),
          inl (refl, (q, member)),
          refl,
          λ d r ne h. h,
        )
    | yes below ↦
        subst (Released ops c handle a)
          (sym (if_true _ _ _ (lt→ltb (ops.usage c after) (min_usage q) below)))
          (moved (move0 ops 6 q c out) (
            down ops c out 6 (λ r k w. move-Lands ops c out 6 r k w) q (omega (arith, rank-le q))
              below))
  ]

  -- If every chunk is in one list at most, which its usage fits and which is its parent, and the
  -- release of a handle of a chunk of a list changes the usage of no other chunk and does not raise
  -- its own, then freeChunk ends normally, has released the handle of that chunk once and changed
  -- the memory in no other way, and the lists are in order again: the chunk is in a list and no
  -- chunk is deleted, or the chunk is in no list, nothing of it is in use, and it alone is deleted;
  -- every other chunk stays in its list.
  pub free_chunk_lem : Frees ops c handle a (free_chunk ops c handle a)
  unfolding free_chunk
  free_chunk_lem =
      subst (λ o. Frees ops c handle a (bind (free_in ops o c handle a) (unless_kept ops c)))
        (sym (p.owned q c member)) (deleted_once ops c handle a _ free_lem)
