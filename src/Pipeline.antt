-- ===== src/Pipeline.antt =====
-- DefaultChannelPipeline.hpp and .cpp over AbstractChannelHandlerContext.hpp: the contexts of a
-- pipeline, a list doubly linked by pointers between a head and a tail that stand for good.
--
-- The heap is one function from addresses for each pointer of a context and one for its other fields;
-- `delete` takes the latter away. A name is the list of its characters. A loop along the contexts runs
-- on fuel, and one round more than there are contexts is enough.
pub mod Edit
pub mod Events
pub mod Chain
pub mod Splice
pub mod Holds
pub mod Removal
pub mod Names
pub mod Add
pub mod Route
pub mod Deliver
use cpp_nio_socket.Common.{
  ℕ, zero, suc, ◌+◌, ◌-◌, ◌≡◌, Bool, true, false, not, ◌&&◌, Option, none, some, List, [], ◌∷◌,
  ◌++◌, length, take, ◌==◌, if◌then◌else◌, Outcome, M, ok, err, bind, ◌>>=◌, ◌>>◌, return, read,
  update, throw, lift, runtime_error, undefined, endless,
}

abbrev pub Name : Type 0
Name = List ℕ

abbrev pub same : Name → Name → Bool
same [] [] = true
same [] (d ∷ ds) = false
same (c ∷ cs) [] = false
same (c ∷ cs) (d ∷ ds) = c == d && same cs ds

-- A handler is its address; `inbound` and `outbound` say which interfaces it has.
pub record Context : Type 0 where
  pub name : Name
  pub handler : ℕ
  pub inbound : Bool
  pub outbound : Bool

pub record Pipeline : Type 0 where
  pub next : ℕ → Option ℕ
  pub prev : ℕ → Option ℕ
  pub info : ℕ → Option Context
  pub head : ℕ
  pub tail : ℕ
  pub name_caches : List (Name × Name)

abbrev pub write : {A : Type 0} → ℕ → A → (ℕ → A) → ℕ → A
write a v f b = if a == b then v else f b

-- The pipeline that its constructor makes of a head at address 0 and a tail at address 1, whose types
-- have the two names.
abbrev pub generate_name0 : Name → Name
generate_name0 clz_name = clz_name ++ (35 ∷ 48 ∷ [])

abbrev pub head_context : Name → Context
head_context head_type = record {
  name = generate_name0 head_type;
  handler = 0;
  inbound = true;
  outbound = true;
}

abbrev pub tail_context : Name → Context
tail_context tail_type = record {
  name = generate_name0 tail_type;
  handler = 1;
  inbound = true;
  outbound = false;
}

unfoldable pub new_pipeline : Name → Name → List (Name × Name) → Pipeline
new_pipeline head_type tail_type caches = record {
  next = write 0 (some 1) (λ a. none);
  prev = write 1 (some 0) (λ a. none);
  info =
      write 0 (some (head_context head_type)) (write 1 (some (tail_context tail_type)) (λ a. none));
  head = 0;
  tail = 1;
  name_caches = caches;
}

-- `while (ctx != NULL) { if (test(ctx)) return ctx; ctx = step(ctx); }`
abbrev pub visit : (Context → Bool) → Outcome (Option ℕ) → ℕ → Option Context → Outcome (Option ℕ)
visit test rest a none = err undefined
visit test rest a (some c) = if test c then ok (some a) else rest

module _ (info : ℕ → Option Context) (step : ℕ → Option ℕ) (test : Context → Bool) where
  unfoldable pub walk : ℕ → Option ℕ → Outcome (Option ℕ)
  walk zero ctx = err endless
  walk (suc fuel) none = ok none
  walk (suc fuel) (some a) = visit test (walk fuel (step a)) a (info a)

-- context0(name) and context0(handler)
unfoldable pub context0_by : (Context → Bool) → ℕ → Pipeline → Outcome (Option ℕ)
unfolding walk
context0_by test fuel p = walk p.info p.next test fuel (p.next p.head)

abbrev pub context0 : Name → ℕ → Pipeline → Outcome (Option ℕ)
context0 name = context0_by (λ c. same c.name name)

abbrev pub context0_handler : ℕ → ℕ → Pipeline → Outcome (Option ℕ)
context0_handler handler = context0_by (λ c. c.handler == handler)

unfoldable pub find_context_inbound : ℕ → ℕ → Pipeline → Outcome (Option ℕ)
unfolding walk
find_context_inbound fuel this p = walk p.info p.next (λ c. c.inbound) fuel (p.next this)

unfoldable pub find_context_outbound : ℕ → ℕ → Pipeline → Outcome (Option ℕ)
unfolding walk
find_context_outbound fuel this p = walk p.info p.prev (λ c. c.outbound) fuel (p.prev this)

abbrev pub refuse_present : Option ℕ → M Pipeline (Unit {0})
refuse_present none p = (ok tt, p)
refuse_present (some a) p = (err runtime_error, p)

unfoldable pub check_duplicate_name : Name → ℕ → M Pipeline (Unit {0})
check_duplicate_name name fuel = do found ← (λ p. (context0 name fuel p, p)); refuse_present found

abbrev pub lookup : Name → List (Name × Name) → Bool
lookup key [] = false
lookup key ((k, v) ∷ cache) = if same k key then true else lookup key cache

-- What generateName looks for first, and the cache after it: a type that the cache has leaves the
-- name empty.
abbrev pub cached_name : Name → List (Name × Name) → Name × List (Name × Name)
cached_name handler_type cache =
    if lookup handler_type cache
    then ([], cache)
    else (generate_name0 handler_type, (handler_type, generate_name0 handler_type) ∷ cache)

abbrev pub is_empty : Name → Bool
is_empty [] = true
is_empty (c ∷ cs) = false

abbrev pub next_free : Outcome Name → Name → Outcome (Option ℕ) → Outcome Name
next_free rest new_name (err e) = err e
next_free rest new_name (ok none) = ok new_name
next_free rest new_name (ok (some a)) = rest

-- The loop of generateName from `i` on; `format i` is the number that boost::format prints.
module _ (format : ℕ → Name) where
  unfoldable pub number_name : ℕ → Name → ℕ → ℕ → Pipeline → Outcome Name
  number_name zero base_name i fuel p = err endless
  number_name (suc rounds) base_name i fuel p =
      next_free (number_name rounds base_name (suc i) fuel p) (base_name ++ format i)
        (context0 (base_name ++ format i) fuel p)

  abbrev pub free_name : Name → ℕ → Pipeline → Outcome (Option ℕ) → Outcome Name
  free_name name fuel p (err e) = err e
  free_name name fuel p (ok none) = ok name
  free_name name fuel p (ok (some a)) = number_name fuel (take (length name - 1) name) 0 fuel p

  abbrev pub with_cache : ℕ → Name × List (Name × Name) → M Pipeline Name
  with_cache fuel (name, cache) p =
      (free_name name fuel p (context0 name fuel p), record p { name_caches = cache })

  unfoldable pub generate_name : Name → ℕ → M Pipeline Name
  unfolding number_name
  generate_name handler_type fuel p = with_cache fuel (cached_name handler_type p.name_caches) p

  unfoldable pub filter_name : Name → Name → ℕ → M Pipeline Name
  unfolding generate_name check_duplicate_name
  filter_name name handler_type fuel p =
      if is_empty name
      then generate_name handler_type fuel p
      else (check_duplicate_name name fuel >> return name) p
