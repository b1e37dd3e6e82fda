-- ===== src/Tests/ChunkList.antt =====
-- Two chunks in the lists; a chunk is a number, the percentage that is in use.
use mathlib.Core.Bool.{false≢true}
use cpp_nio_socket.Common.{
  ℕ, ◌+◌, ◌-◌, ◌≤◌, ◌≡◌, ◌≢◌, inl, inr, refl, sym, ap, subst, arith, Bool, true, false, some, List,
  [], ◌∷◌, Outcome, leb, min, ◌==◌, if◌then◌else◌, if_false, ==_eq, ==_ne,
}
use cpp_nio_socket.ChunkList.{
  ListId, q_init, q000, q025, q050, q075, q100, min_usage, max_usage, ChunkOps, Lists, usage_of,
  free_chunk, allocate_normal, free, move, prev_list,
}
use cpp_nio_socket.ChunkList.Moves.{Fits}
use cpp_nio_socket.ChunkList.Members.{In, Absent, Distinct}
use cpp_nio_socket.ChunkList.Placed.{Placed}
use cpp_nio_socket.ChunkList.Serve.{Promises}
use cpp_nio_socket.ChunkList.Allocate.{Allocates, allocate_normal_lem}
use cpp_nio_socket.ChunkList.Free.{Frees, free_chunk_lem}

abbrev attempt : Bool → ℕ → ℕ → (ℕ → ℕ) → Bool × (ℕ → ℕ)
attempt true c n s = (true, λ d. if c == d then s d + n else s d)
attempt false c n s = (false, s)

abbrev percent : ChunkOps (ℕ → ℕ)
percent = record {
  usage = λ c s. min (s c) 100;
  try_allocate = λ c n s. attempt (leb (s c + n) 100) c n s;
  release = λ c n s d. if c == d then s d - n else s d;
}

abbrev usages : ℕ → ℕ
usages c = if c == 4 then 30 else 10

abbrev start : Lists (ℕ → ℕ)
start = record {
  store = usages;
  chunks = λ q. elim q [ q025 ↦ 4 ∷ [] | q000 ↦ 5 ∷ [] | _ ↦ [] ];
  parent = λ c. if c == 4 then some q025 else some q000;
  deleted = [];
}

start-Fits : (q : ListId) (c : ℕ) → In c (start.chunks q) → Fits q (usage_of percent c start)
unfolding min_usage max_usage
start-Fits q_init c h = absurd h
start-Fits q000 c (inl e) =
    subst (λ d. Fits q000 (usage_of percent d start)) (sym e) (omega arith, omega arith)
start-Fits q000 c (inr h) = absurd h
start-Fits q025 c (inl e) =
    subst (λ d. Fits q025 (usage_of percent d start)) (sym e) (omega arith, omega arith)
start-Fits q025 c (inr h) = absurd h
start-Fits q050 c h = absurd h
start-Fits q075 c h = absurd h
start-Fits q100 c h = absurd h

start_owned : (q : ListId) (c : ℕ) → In c (start.chunks q) → start.parent c ≡ some q
start_owned q_init c h = absurd h
start_owned q000 c (inl e) = ap start.parent e
start_owned q000 c (inr h) = absurd h
start_owned q025 c (inl e) = ap start.parent e
start_owned q025 c (inr h) = absurd h
start_owned q050 c h = absurd h
start_owned q075 c h = absurd h
start_owned q100 c h = absurd h

start_once : (q : ListId) → Distinct (start.chunks q)
start_once q_init = tt
start_once q000 = (tt, tt)
start_once q025 = (tt, tt)
start_once q050 = tt
start_once q075 = tt
start_once q100 = tt

start-Placed : Placed percent start
start-Placed = record { fits = start-Fits; owned = start_owned; once = start_once }

others_same :
    (d : ℕ) → 4 ≢ d → percent.usage d (percent.release 4 20 usages) ≡ percent.usage d usages
others_same d ne = ap (λ u. min u 100) (if_false _ _ _ (==_ne 4 d ne))

free_chunk_lem_example : Frees percent 4 20 start (free_chunk percent 4 20 start)
free_chunk_lem_example =
    free_chunk_lem percent 4 20 start start-Placed q025 (inl refl) others_same (omega arith)

-- With 10 percent in use the chunk is in the list from 1 to 50.
abbrev lists_of : Outcome (Unit {0}) × Lists (ℕ → ℕ) → List ℕ × List ℕ
lists_of (r, a) = (a.chunks q000, a.chunks q025)

goes_down : lists_of (free_chunk percent 4 20 start) ≡ (4 ∷ 5 ∷ [], [])
unfolding free_chunk free move prev_list min_usage max_usage
goes_down = refl

-- With nothing in use it is deleted.
abbrev deleted_of : Outcome (Unit {0}) × Lists (ℕ → ℕ) → List ℕ × List ℕ
deleted_of (r, a) = (a.chunks q000, a.deleted)

given_up : deleted_of (free_chunk percent 4 30 start) ≡ (5 ∷ [], 4 ∷ [])
unfolding free_chunk free move prev_list min_usage max_usage
given_up = refl

attempt_apart : (b : Bool) (c d n : ℕ) (s : ℕ → ℕ) → c ≢ d → ((attempt b c n s).1) d ≡ s d
attempt_apart true c d n s ne = if_false _ _ _ (==_ne c d ne)
attempt_apart false c d n s ne = refl

attempt_grows : (b : Bool) (c n : ℕ) (s : ℕ → ℕ) → s c ≤ ((attempt b c n s).1) c
attempt_grows true c n s = rw (==_eq c c refl) (omega arith)
attempt_grows false c n s = omega arith

attempt_unchanged :
    (b : Bool) (c n : ℕ) (s : ℕ → ℕ) → (attempt b c n s).0 ≡ false → (attempt b c n s).1 ≡ s
attempt_unchanged true c n s e = absurd (false≢true (sym e))
attempt_unchanged false c n s e = refl

percent-Promises : Promises percent
percent-Promises = record {
  at_most = λ c s. omega arith;
  apart = λ c d n s ne. ap (λ u. min u 100) (attempt_apart (leb (s c + n) 100) c d n s ne);
  grows = λ c n s. omega (arith, attempt_grows (leb (s c + n) 100) c n s);
  unchanged = λ c n s e. attempt_unchanged (leb (s c + n) 100) c n s e;
}

-- A new chunk of which nothing is in use.
abbrev new_chunk : (ℕ → ℕ) → ℕ → ℕ
new_chunk s d = if 6 == d then 0 else s d

new_chunk_apart : (d : ℕ) (s : ℕ → ℕ) → 6 ≢ d → percent.usage d (new_chunk s) ≡ percent.usage d s
new_chunk_apart d s ne = ap (λ u. min u 100) (if_false _ _ _ (==_ne 6 d ne))

nowhere : (q : ListId) → Absent 6 (start.chunks q)
nowhere q_init = tt
nowhere q000 = ((λ e. absurd (omega arith)), tt)
nowhere q025 = ((λ e. absurd (omega arith)), tt)
nowhere q050 = tt
nowhere q075 = tt
nowhere q100 = tt

allocate_normal_lem_example :
    Allocates percent new_chunk 6 60 start (allocate_normal percent new_chunk 6 1000 60 start)
allocate_normal_lem_example =
    allocate_normal_lem percent percent-Promises new_chunk 6 60 new_chunk_apart (λ s. refl) 1000
      start start-Placed nowhere
