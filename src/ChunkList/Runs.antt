-- ===== src/ChunkList/Runs.antt =====
-- The chunks of PoolChunk.cpp in the lists of the arena: requests of whole runs.
use native.Mathlib.Nat.{le-div_iff_mul-le, div-mul-le_self, pow-le-pow_right}
use mathlib.Core.Bool.{false≢true}
use mathlib.Core.Path.{fun_ext}
use cpp_nio_socket.Common.{
  ℕ, suc, ◌-◌, ◌*◌, ◌/◌, ◌^◌, ◌≤◌, ◌<◌, ◌≡◌, ◌≢◌, refl, sym, ap, subst, ◌∙◌, inl, inr, arith,
  ℕ_discrete, Bool, Bool-cases, true, false, not, ◌||◌, Option, none, some, ltb, ◌==◌, ==_eq, ==_ne,
  if◌then◌else◌, if_true, if_false, Outcome, ok, err,
}
use cpp_nio_socket.Chunk.{
  PoolChunk, value, descend, take_node, clear_bits, allocate_node, after_node, allocate_run,
  free_run, usage, log2,
}
use cpp_nio_socket.ChunkList.{ChunkOps}
use cpp_nio_socket.ChunkList.Serve.{Promises}

abbrev pub Chunks : Type 0
Chunks = ℕ → PoolChunk

abbrev pub write : ℕ → PoolChunk → Chunks → Chunks
write c chunk s d = if c == d then chunk else s d

abbrev pub serves : Outcome (Option ℕ) → Bool
serves (ok (some id)) = true
serves (ok none) = false
serves (err e) = false

-- An attempt is allocateRun, whose fault, on a map that stands for no tree, counts as a failure.
abbrev pub runs : ChunkOps Chunks
runs = record {
  usage = λ c s. usage (s c);
  try_allocate = λ c n s. (serves ((allocate_run n (s c)).0), write c ((allocate_run n (s c)).1) s);
  release = λ c id s. write c (free_run id (s c)) s;
}

div_mono : (a b k : ℕ) → 0 < k → a ≤ b → a / k ≤ b / k
div_mono a b k pos h = (le-div_iff_mul-le pos).1 (omega (arith, div-mul-le_self a k))

-- With no more bytes free.
pub record Fuller (c c' : PoolChunk) : Type 0 where
  pub same_size : c'.log2_chunk_size ≡ c.log2_chunk_size
  pub no_more : c'.free_bytes ≤ c.free_bytes

abbrev percent : ℕ → ℕ → ℕ
percent f q = if f == 0 then 100 else if q == 0 then 99 else 100 - q

percent_anti : (f q f' q' : ℕ) → f' ≤ f → q' ≤ q → percent f q ≤ percent f' q'
percent_anti f q f' q' h k = ground arith

pub usage-le : (c : PoolChunk) → usage c ≤ 100
unfolding usage
usage-le c = ground arith

pub usage-Fuller : (c c' : PoolChunk) → Fuller c c' → usage c ≤ usage c'
unfolding usage
usage-Fuller c c' f =
    let size : 2 ^ c'.log2_chunk_size ≡ 2 ^ c.log2_chunk_size = ap (λ k. 2 ^ k) f.same_size in
    let less =
      div_mono (c'.free_bytes * 100) (c.free_bytes * 100) (2 ^ c.log2_chunk_size)
        (omega (
          arith,
          pow-le-pow_right {n = 2} (omega arith) {i = 0} {j = c.log2_chunk_size} (omega arith),
        ))
        (omega (arith, f.no_more)) in
    subst (λ k. usage c ≤ percent c'.free_bytes (c'.free_bytes * 100 / k)) (sym size)
      (percent_anti c.free_bytes (c.free_bytes * 100 / 2 ^ c.log2_chunk_size) c'.free_bytes
        (c'.free_bytes * 100 / 2 ^ c.log2_chunk_size) f.no_more less)

-- What a run of allocateNode does to a chunk: only its map changes, and only if it succeeds.
abbrev Marks : PoolChunk → Outcome (Option ℕ) × PoolChunk → Type 0
Marks c r = Fuller c (r.1) × (serves (r.0) ≡ false → r.1 ≡ c)

Fuller-self : (c : PoolChunk) → Fuller c c
Fuller-self c = record { same_size = refl; no_more = omega arith }

take_node-Marks : (d : ℕ) (o : Option ℕ) (c : PoolChunk) → Marks c (take_node d o c)
take_node-Marks d none c = (Fuller-self c, λ _. refl)
take_node-Marks d (some id) c =
    elim (Bool-cases (not (value c.memory_map id == d) || not (clear_bits d id == 2 ^ d))) [
      | inl bad ↦ subst (Marks c) (sym (if_true _ _ _ bad)) (Fuller-self c, λ _. refl)
      | inr good ↦
          subst (Marks c) (sym (if_false _ _ _ good))
            (record { same_size = refl; no_more = omega arith }, λ z. absurd (false≢true (sym z)))
    ]

allocate_node-Marks : (d : ℕ) (c : PoolChunk) → Marks c (allocate_node d c)
unfolding allocate_node
allocate_node-Marks d c = elim (Bool-cases (ltb d (value c.memory_map 1))) [
  | inl full ↦ subst (Marks c) (sym (if_true _ _ _ full)) (Fuller-self c, λ _. refl)
  | inr room ↦
      subst (Marks c) (sym (if_false _ _ _ room))
        (take_node-Marks d (descend (suc d) d 1 c.memory_map) c)
]

after_node-Marks :
    (c : PoolChunk) (r : Outcome (Option ℕ) × PoolChunk) → Marks c r → Marks c (after_node r)
after_node-Marks c (err e, c') m = m
after_node-Marks c (ok none, c') m = m
after_node-Marks c (ok (some id), c') (f, _) = (
  record { same_size = f.same_size; no_more = omega (arith, f.no_more) },
  λ z. absurd (false≢true (sym z)),
)

allocate_run-Marks : (n : ℕ) (c : PoolChunk) → Marks c (allocate_run n c)
unfolding allocate_run
allocate_run-Marks n c =
    after_node-Marks c _ (allocate_node-Marks (c.max_order - (log2 n - c.page_shifts)) c)

pub write_ne : (c d : ℕ) (chunk : PoolChunk) (s : Chunks) → c ≢ d → write c chunk s d ≡ s d
write_ne c d chunk s ne = if_false _ _ _ (==_ne c d ne)

pub write_self : (c : ℕ) (chunk : PoolChunk) (s : Chunks) → write c chunk s c ≡ chunk
write_self c chunk s = if_true _ _ _ (==_eq c c refl)

write-same : (c : ℕ) (chunk : PoolChunk) (s : Chunks) → chunk ≡ s c → write c chunk s ≡ s
write-same c chunk s e = fun_ext λ d. elim (ℕ_discrete c d) [
  | yes same ↦ if_true _ _ _ (==_eq c d same) ∙ e ∙ ap s same
  | no ne ↦ write_ne c d chunk s ne
]

-- The chunks keep what allocateNormal relies on.
pub runs-Promises : Promises runs
runs-Promises = record {
  at_most = λ c s. usage-le (s c);
  apart = λ c d n s ne. ap usage (write_ne c d ((allocate_run n (s c)).1) s ne);
  grows = λ c n s.
      subst (λ x. usage (s c) ≤ usage x) (sym (write_self c ((allocate_run n (s c)).1) s))
        (usage-Fuller (s c) ((allocate_run n (s c)).1) ((allocate_run-Marks n (s c)).0));
  unchanged = λ c n s failed.
      write-same c ((allocate_run n (s c)).1) s ((allocate_run-Marks n (s c)).1 failed);
}
