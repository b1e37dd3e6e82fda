-- ===== src/ChunkList/Moves.antt =====
-- add and move: in which list a chunk ends up.
use cpp_nio_socket.Common.{
  ℕ, zero, suc, ◌≤◌, ◌<◌, ◌≡◌, ◌⊎◌, inl, inr, sym, subst, ◌∙◌, arith, dec_lt, leb, Bool, true,
  false, Outcome, ok, ==_eq, lt→ltb, le→ltb, lt→leb, le→leb, if_true, if_false,
}
use cpp_nio_socket.ChunkList.{
  ListId, q_init, q000, q025, q050, q075, q100, min_usage, max_usage, next_list, prev_list,
  ChunkOps, Lists, usage_of, add0, add, add_next, move, move_prev,
}

-- How many lists lie below.
abbrev pub rank : ListId → ℕ
rank q_init = 0
rank q000 = 0
rank q025 = 1
rank q050 = 2
rank q075 = 3
rank q100 = 4

abbrev pub climb : ListId → ℕ
climb q_init = 5
climb q000 = 4
climb q025 = 3
climb q050 = 2
climb q075 = 1
climb q100 = 0

-- The usage is within the bounds of the list.
abbrev pub Fits : ListId → ℕ → Type 0
Fits q u = (min_usage q ≤ u) × (u < max_usage q)

module _ {S : Type 0} (ops : ChunkOps S) (c : ℕ) (a : Lists S) where
  -- A run that puts the chunk into a list which it fits, or gives it up when nothing of it is in use.
  unfoldable pub Lands : Outcome Bool × Lists S → Type 0
  Lands r =
      ((q : ListId) × Fits q (usage_of ops c a) × (r ≡ (ok true, add0 ops q c a)))
      ⊎ ((usage_of ops c a ≡ 0) × (r ≡ (ok false, a)))

  pub down :
      (fuel : ℕ)
      → ((q : ListId)
          → rank q < fuel
          → usage_of ops c a < max_usage q
          → Lands (move ops fuel q c a))
      → (q : ListId) → rank q ≤ fuel
      → usage_of ops c a < min_usage q
      → Lands (move_prev ops (λ r. move ops fuel r c) c (prev_list q) a)
  unfolding Lands min_usage max_usage prev_list
  down fuel go q_init h u = absurd (omega arith)
  down fuel go q000 h u =
      let empty : usage_of ops c a ≡ 0 = omega arith in
      inr (empty, if_true _ _ _ (==_eq (usage_of ops c a) 0 empty))
  down fuel go q025 h u = go q000 (omega arith) (omega arith)
  down fuel go q050 h u = go q025 (omega arith) (omega arith)
  down fuel go q075 h u = go q050 (omega arith) (omega arith)
  down fuel go q100 h u = go q075 (omega arith) (omega arith)

  stays :
      (q : ListId)
      → min_usage q ≤ usage_of ops c a
      → usage_of ops c a < max_usage q
      → (r : Outcome Bool × Lists S) → r ≡ (ok true, add0 ops q c a)
      → Lands r
  unfolding Lands
  stays q lo hi r e = inl (q, (lo, hi), e)

  pub move-Lands :
      (fuel : ℕ) (q : ListId)
      → rank q < fuel
      → usage_of ops c a < max_usage q
      → Lands (move ops fuel q c a)
  unfolding move
  move-Lands zero q h u = absurd (omega arith)
  move-Lands (suc fuel) q h u =
      let room : leb (max_usage q) (usage_of ops c a) ≡ false =
        lt→leb (max_usage q) (usage_of ops c a) u in
      elim (dec_lt (usage_of ops c a) (min_usage q)) [
        | yes below ↦
            let start =
              if_false _ _ _ room ∙ if_true _ _ _ (lt→ltb (usage_of ops c a) (min_usage q) below) in
            subst Lands (sym start)
              (down fuel (λ r k w. move-Lands fuel r k w) q (omega arith) below)
        | no in_range ↦
            let least : min_usage q ≤ usage_of ops c a = omega (arith, in_range) in
            let start =
              if_false _ _ _ room
              ∙ if_false _ _ _ (le→ltb (usage_of ops c a) (min_usage q) least) in
            stays q least u (move ops (suc fuel) q c a) start
      ]

  -- A run that puts the chunk into a list which it fits.
  unfoldable pub AddsTo : Outcome (Unit {0}) × Lists S → Type 0
  AddsTo r = (q : ListId) × Fits q (usage_of ops c a) × (r ≡ (ok tt, add0 ops q c a))

  pub up :
      (fuel : ℕ)
      → ((q : ListId)
          → climb q < fuel
          → min_usage q ≤ usage_of ops c a
          → AddsTo (add ops fuel q c a))
      → (q : ListId) → climb q ≤ fuel
      → max_usage q ≤ usage_of ops c a
      → usage_of ops c a ≤ 100
      → AddsTo (add_next ops (λ r. add ops fuel r c) (next_list q) a)
  unfolding AddsTo min_usage max_usage next_list
  up fuel go q_init h u le = go q000 (omega arith) (omega arith)
  up fuel go q000 h u le = go q025 (omega arith) (omega arith)
  up fuel go q025 h u le = go q050 (omega arith) (omega arith)
  up fuel go q050 h u le = go q075 (omega arith) (omega arith)
  up fuel go q075 h u le = go q100 (omega arith) (omega arith)
  up fuel go q100 h u le = absurd (omega arith)

  pub add-AddsTo :
      usage_of ops c a ≤ 100
      → (fuel : ℕ) (q : ListId) → climb q < fuel
      → min_usage q ≤ usage_of ops c a
      → AddsTo (add ops fuel q c a)
  unfolding add AddsTo
  add-AddsTo le zero q h u = absurd (omega arith)
  add-AddsTo le (suc fuel) q h u = elim (dec_lt (usage_of ops c a) (max_usage q)) [
    | yes room ↦ (q, (u, room), if_false _ _ _ (lt→leb (max_usage q) (usage_of ops c a) room))
    | no full ↦
        let most : max_usage q ≤ usage_of ops c a = omega (arith, full) in
        subst AddsTo (sym (if_true _ _ _ (le→leb (max_usage q) (usage_of ops c a) most)))
          (up fuel (λ r k w. add-AddsTo le fuel r k w) q (omega arith) most le)
  ]
