-- ===== src/ChunkList.antt =====
-- PoolChunkList.cpp, and of PoolArena.cpp the six lists of chunks, allocateNormal and freeChunk: a
-- chunk is in the list for the share of it that is in use.
--
-- A chunk is its address, a list of them is in the order of the `next` pointers from `head_` on. What
-- the operations use of a chunk is an interface. The least `int` that bounds the first list from below
-- is 0 here: a usage is not negative, and calculateMaxCapacity takes at least 1.
pub mod Moves
pub mod Members
pub mod Placed
pub mod Change
pub mod Free
pub mod Serve
pub mod Allocate
pub mod Runs
pub mod OfRuns
use cpp_nio_socket.Common.{
  ℕ, zero, suc, ◌+◌, ◌-◌, ◌*◌, ◌/◌, ◌^◌, max, Bool, true, false, Option, none, some, List, [], ◌∷◌,
  ltb, leb, ◌==◌, if◌then◌else◌, Outcome, M, ok, err, bind, undefined, assertion_failed, endless,
}

pub data ListId : Type 0 where
  q_init q000 q025 q050 q075 q100 : ListId

-- The arguments of the constructors, and prevList.
unfoldable pub min_usage : ListId → ℕ
min_usage q_init = 0
min_usage q000 = 1
min_usage q025 = 25
min_usage q050 = 50
min_usage q075 = 75
min_usage q100 = 100

unfoldable pub max_usage : ListId → ℕ
max_usage q_init = 25
max_usage q000 = 50
max_usage q025 = 75
max_usage q050 = 100
max_usage q075 = 100
max_usage q100 = 2 ^ 31 - 1

unfoldable pub next_list : ListId → Option ListId
next_list q_init = some q000
next_list q000 = some q025
next_list q025 = some q050
next_list q050 = some q075
next_list q075 = some q100
next_list q100 = none

unfoldable pub prev_list : ListId → Option ListId
prev_list q_init = some q_init
prev_list q000 = none
prev_list q025 = some q000
prev_list q050 = some q025
prev_list q075 = some q050
prev_list q100 = some q075

unfoldable pub calculate_max_capacity : ℕ → ℕ → ℕ
calculate_max_capacity min_usage chunk_size =
    if max 1 min_usage == 100 then 0 else chunk_size * (100 - max 1 min_usage) / 100

-- What the lists use of a chunk: its usage in percent, an attempt to allocate a capacity from it, and
-- the release of a handle.
pub record ChunkOps (S : Type 0) : Type 0 where
  pub usage : ℕ → S → ℕ
  pub try_allocate : ℕ → ℕ → S → Bool × S
  pub release : ℕ → ℕ → S → S

-- The memory of the chunks, the lists, the list that a chunk has for its parent, and the chunks that
-- are deleted, the last one first.
pub record Lists (S : Type 0) : Type 0 where
  pub store : S
  pub chunks : ListId → List ℕ
  pub parent : ℕ → Option ListId
  pub deleted : List ℕ

abbrev pub index : ListId → ℕ
index q_init = 0
index q000 = 1
index q025 = 2
index q050 = 3
index q075 = 4
index q100 = 5

abbrev pub same_list : ListId → ListId → Bool
same_list q r = index q == index r

abbrev pub delete : ℕ → List ℕ → List ℕ
delete c [] = []
delete c (d ∷ ds) = if c == d then ds else d ∷ delete c ds

module _ {S : Type 0} (ops : ChunkOps S) where
  abbrev pub usage_of : ℕ → Lists S → ℕ
  usage_of c a = ops.usage c a.store

  abbrev pub set_chunks : ListId → List ℕ → Lists S → Lists S
  set_chunks q cs a = record a { chunks = λ r. if same_list q r then cs else a.chunks r }

  abbrev pub remove : ListId → ℕ → Lists S → Lists S
  remove q c a = set_chunks q (delete c (a.chunks q)) a

  abbrev pub add0 : ListId → ℕ → Lists S → Lists S
  add0 q c a =
      set_chunks q (c ∷ a.chunks q)
        (record a { parent = λ d. if c == d then some q else a.parent d })

  -- add, which goes up the lists; there are six of them.
  abbrev pub add_next :
      (ListId → Lists S → Outcome (Unit {0}) × Lists S) → Option ListId → M (Lists S) (Unit {0})
  add_next f none a = (err undefined, a)
  add_next f (some q) a = f q a

  unfoldable pub add : ℕ → ListId → ℕ → M (Lists S) (Unit {0})
  add zero q c a = (err endless, a)
  add (suc fuel) q c a =
      let rest = add_next (λ r. add fuel r c) (next_list q) a in
      if leb (max_usage q) (usage_of c a) then rest else (ok tt, add0 q c a)

  -- move and move0, which go down the lists.
  abbrev pub move_prev :
      (ListId → Lists S → Outcome Bool × Lists S) → ℕ → Option ListId → M (Lists S) Bool
  move_prev f c none a = if usage_of c a == 0 then (ok false, a) else (err assertion_failed, a)
  move_prev f c (some q) a = f q a

  unfoldable pub move : ℕ → ListId → ℕ → M (Lists S) Bool
  move zero q c a = (err endless, a)
  move (suc fuel) q c a =
      let rest = move_prev (λ r. move fuel r c) c (prev_list q) a in
      if leb (max_usage q) (usage_of c a)
      then (err assertion_failed, a)
      else if ltb (usage_of c a) (min_usage q)
      then rest
      else (ok true, add0 q c a)

  abbrev pub move0 : ℕ → ListId → ℕ → M (Lists S) Bool
  move0 fuel q c = move_prev (λ r. move fuel r c) c (prev_list q)

  -- free(chunk, handle)
  abbrev pub after_release : ListId → ℕ → M (Lists S) Bool
  after_release q c a =
      if ltb (usage_of c a) (min_usage q) then move0 6 q c (remove q c a) else (ok true, a)

  unfoldable pub free : ListId → ℕ → ℕ → M (Lists S) Bool
  unfolding move
  free q c handle a = after_release q c (record a { store = ops.release c handle a.store })

  -- freeChunk of the arena.
  abbrev pub free_in : Option ListId → ℕ → ℕ → M (Lists S) Bool
  free_in none c handle a = (err undefined, a)
  free_in (some q) c handle a = free q c handle a

  abbrev pub destroy_chunk : ℕ → Lists S → Lists S
  destroy_chunk c a = record a { deleted = c ∷ a.deleted }

  abbrev pub unless_kept : ℕ → Bool → M (Lists S) (Unit {0})
  unless_kept c kept a = (ok tt, if kept then a else destroy_chunk c a)

  unfoldable pub free_chunk : ℕ → ℕ → M (Lists S) (Unit {0})
  unfolding free
  free_chunk c handle a = bind (free_in (a.parent c) c handle a) (unless_kept c)

  -- The loop of allocate over the chunks of a list, then the move of the chunk that served it.
  abbrev pub after_success : ListId → ℕ → M (Lists S) Bool
  after_success q c a =
      if leb (max_usage q) (usage_of c a)
      then bind (add_next (λ r. add 6 r c) (next_list q) (remove q c a)) (λ _ a. (ok true, a))
      else (ok true, a)

  abbrev pub tried : ListId → ℕ → M (Lists S) Bool → Bool × S → M (Lists S) Bool
  tried q c rest (true, s) a = after_success q c (record a { store = s })
  tried q c rest (false, s) a = rest (record a { store = s })

  unfoldable pub allocate_from : ListId → ℕ → List ℕ → M (Lists S) Bool
  unfolding add
  allocate_from q norm_capacity [] a = (ok false, a)
  allocate_from q norm_capacity (c ∷ cs) a =
      tried q c (allocate_from q norm_capacity cs) (ops.try_allocate c norm_capacity a.store) a

  unfoldable pub allocate : ℕ → ListId → ℕ → M (Lists S) Bool
  unfolding allocate_from
  allocate chunk_size q norm_capacity a =
      if ltb (calculate_max_capacity (min_usage q) chunk_size) norm_capacity
      then (ok false, a)
      else allocate_from q norm_capacity (a.chunks q) a

  -- The lists that allocateNormal tries, in its order, and the new chunk when none of them serves.
  abbrev pub or_else : M (Lists S) Bool → M (Lists S) Bool → M (Lists S) Bool
  or_else f g a = bind (f a) (λ served a. if served then (ok true, a) else g a)

  -- `fresh` makes the memory with a new chunk at the address `c`.
  abbrev pub from_new : Bool × S → ℕ → M (Lists S) (Unit {0})
  from_new (false, s) c a = (err assertion_failed, record a { store = s })
  from_new (true, s) c a = add 7 q_init c (record a { store = s })

  unfoldable pub allocate_normal : (S → S) → ℕ → ℕ → ℕ → M (Lists S) (Unit {0})
  unfolding allocate add
  allocate_normal fresh c chunk_size norm_capacity a =
      bind
        (or_else (allocate chunk_size q050 norm_capacity)
          (or_else (allocate chunk_size q025 norm_capacity) (
            or_else (allocate chunk_size q000 norm_capacity) (
              or_else (allocate chunk_size q_init norm_capacity)
                (allocate chunk_size q075 norm_capacity))))
          a)
        (λ served a.
          if served
          then (ok tt, a)
          else from_new (ops.try_allocate c norm_capacity (fresh a.store)) c a)
