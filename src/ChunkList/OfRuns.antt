-- ===== src/ChunkList/OfRuns.antt =====
-- allocateNormal and freeChunk of PoolArena.cpp on the chunks of PoolChunk.cpp.
use mathlib.Core.Bool.{false≢true}
use cpp_nio_socket.Common.{
  ℕ, zero, suc, ◌+◌, ◌*◌, ◌^◌, ◌≤◌, ◌<◌, ◌≡◌, refl, sym, ap, subst, ◌∙◌, ◌⊎◌, ◌≢◌, ap₂, inl, inr,
  arith, true, Option, none, some, Outcome, ok, err,
}
use cpp_nio_socket.Chunk.{PoolChunk, new_chunk, allocate_run, free_run, usage}
use cpp_nio_socket.Chunk.Tree.{free}
use cpp_nio_socket.Chunk.Fit.{first_fit}
use cpp_nio_socket.Chunk.Create.{new_chunk-IsChunk}
use cpp_nio_socket.Chunk.Runs.{order_depth, allocate_run-cases}
use cpp_nio_socket.ChunkList.{ListId, Lists, allocate_normal, free_chunk}
use cpp_nio_socket.ChunkList.Members.{In, Absent}
use cpp_nio_socket.ChunkList.Placed.{Placed}
use cpp_nio_socket.ChunkList.Allocate.{Allocates, allocate_normal_lem}
use cpp_nio_socket.ChunkList.Free.{Frees, free_chunk_lem}
use cpp_nio_socket.ChunkList.Runs.{
  Chunks, write, serves, runs, runs-Promises, write_ne, write_self, usage-Fuller, Fuller,
}

first_fit-free : (d id : ℕ) → (j : ℕ) × (first_fit d id free ≡ some j)
first_fit-free zero id = (id, refl)
first_fit-free (suc d) id = first_fit-free d (id * 2)

-- A new chunk serves every request of whole runs.
new_chunk-serves :
    (garbage page_shifts max_order order : ℕ)
    → max_order < 255
    → max_order + page_shifts < 32
    → page_shifts ≤ order
    → order ≤ max_order + page_shifts
    → let c = new_chunk garbage (2 ^ (max_order + page_shifts)) page_shifts max_order in
      serves ((allocate_run (2 ^ order) c).0) ≡ true
unfolding new_chunk
new_chunk-serves garbage page_shifts max_order order deep int le most =
    let c = new_chunk garbage (2 ^ (max_order + page_shifts)) page_shifts max_order in
    let valid = new_chunk-IsChunk garbage page_shifts max_order deep int in
    elim (allocate_run-cases c free order valid le (omega (arith, valid.shifts)) (omega arith)) [
      | inl (full, e) ↦
          let (j, fits) = first_fit-free (order_depth c order) 1 in
          let both = sym full ∙ fits in absurd cc
      | inr a ↦ ap (λ r. serves (r.0)) a.returns
    ]

-- One chunk gives a run of `n` bytes, which makes the memory what it is; the others are as they were.
abbrev pub RunFrom : ℕ → ℕ → Chunks → Chunks → Type 0
RunFrom n d s s' =
    (id : ℕ) × (allocate_run n (s d) ≡ (ok (some id), s' d)) × ((e : ℕ) → d ≢ e → s' e ≡ s e)

-- A run of allocateNormal that ends normally with the lists in order: a chunk that was in a list gives
-- the run, or the new chunk does and is in a list.
abbrev pub ServesRun : ℕ → PoolChunk → ℕ → Lists Chunks → Outcome (Unit {0}) × Lists Chunks → Type 0
ServesRun c fresh n a r =
    (a' : Lists Chunks) × (r ≡ (ok tt, a'))
    × Placed runs a'
    × ((d : ℕ) (q : ListId) → In d (a.chunks q) → (q' : ListId) × In d (a'.chunks q'))
    × (((d : ℕ) × (q : ListId) × In d (a.chunks q) × RunFrom n d a.store a'.store)
        ⊎ (((q : ListId) × In c (a'.chunks q)) × RunFrom n c (write c fresh a.store) a'.store))

served_id : (r : Outcome (Option ℕ)) → serves r ≡ true → (id : ℕ) × (r ≡ ok (some id))
served_id (ok (some id)) e = (id, refl)
served_id (ok none) e = absurd (false≢true e)
served_id (err f) e = absurd (false≢true e)

try_allocate-RunFrom :
    (n d : ℕ) (s s' : Chunks) → runs.try_allocate d n s ≡ (true, s') → RunFrom n d s s'
try_allocate-RunFrom n d s s' e =
    let (id, at) = served_id ((allocate_run n (s d)).0) (ap (λ r. r.0) e) in
    let stored : write d ((allocate_run n (s d)).1) s ≡ s' = ap (λ r. r.1) e in
    let mine : (allocate_run n (s d)).1 ≡ s' d =
      sym (write_self d ((allocate_run n (s d)).1) s) ∙ ap (λ f. f d) stored in
    (
      id,
      ap₂ (λ x y. (x, y)) at mine,
      λ x ne. ap (λ f. f x) (sym stored) ∙ write_ne d x ((allocate_run n (s d)).1) s ne,
    )

-- On lists of buddy chunks in which every chunk is in one list at most, which its usage fits and
-- which is its parent, and with a new chunk, in no list, of a page size 2 ^ page_shifts, a deepest
-- level below 255 and a size below 2 ^ 32, allocateNormal for 2 ^ order bytes, from the page size to
-- the chunk size, ends normally, the lists are as before in these respects, every chunk that was in
-- a list is in one, and one chunk has given a run of that many bytes by allocateRun, with every
-- other chunk as it was: a chunk that was in a list, or the new one, which then is in a list.
pub allocate_normal-runs :
    (a : Lists Chunks) (c size garbage page_shifts max_order order : ℕ)
    → Placed runs a
    → ((q : ListId) → Absent c (a.chunks q))
    → max_order < 255
    → max_order + page_shifts < 32
    → page_shifts ≤ order
    → order ≤ max_order + page_shifts
    → let fresh = new_chunk garbage (2 ^ (max_order + page_shifts)) page_shifts max_order in
      ServesRun c fresh (2 ^ order) a (allocate_normal runs (write c fresh) c size (2 ^ order) a)
unfolding Allocates
allocate_normal-runs a c size garbage page_shifts max_order order p out deep int le most =
    let n = 2 ^ order in
    let fresh = new_chunk garbage (2 ^ (max_order + page_shifts)) page_shifts max_order in
    let (a', e, p', keeps, by) =
      allocate_normal_lem runs runs-Promises (write c fresh) c n
        (λ d s ne. ap usage (write_ne c d fresh s ne))
        (λ s.
          ap (λ x. serves ((allocate_run n x).0)) (write_self c fresh s)
          ∙ new_chunk-serves garbage page_shifts max_order order deep int le most)
        size a p out in
    (
      a',
      e,
      p',
      keeps,
      elim by [
        | inl (d, q, member, took) ↦
            inl (d, q, member, try_allocate-RunFrom n d a.store a'.store took)
        | inr (member, took) ↦
            inr (member, try_allocate-RunFrom n c (write c fresh a.store) a'.store took)
      ],
    )

free_run-Fuller : (id : ℕ) (c : PoolChunk) → Fuller (free_run id c) c
unfolding free_run
free_run-Fuller id c = record { same_size = refl; no_more = omega arith }

-- freeChunk on buddy chunks keeps the lists in order, whatever handle is freed.
pub free_chunk-runs :
    (a : Lists Chunks) (c id : ℕ) (q : ListId)
    → Placed runs a
    → In c (a.chunks q)
    → Frees runs c id a (free_chunk runs c id a)
free_chunk-runs a c id q p member =
    free_chunk_lem runs c id a p q member
      (λ d ne. ap usage (write_ne c d (free_run id (a.store c)) a.store ne))
      (subst (λ x. usage x ≤ usage (a.store c))
        (sym (write_self c (free_run id (a.store c)) a.store))
        (usage-Fuller (free_run id (a.store c)) (a.store c) (free_run-Fuller id (a.store c))))
