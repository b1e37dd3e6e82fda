-- ===== src/Tests/Pipeline.antt =====
-- A pipeline that is filled with handlers, and events that run through it.
use cpp_nio_socket.Common.{
  ℕ, zero, suc, ◌≡◌, refl, ap, arith, length, ◌≢◌, subst, not, ◌||◌, ◌==◌, if◌then◌else◌, Bool,
  true, false, Option, none, some, List, [], ◌∷◌, ok, err, runtime_error, ◌>>◌,
}
use cpp_nio_socket.Pipeline.{
  Name, Context, Pipeline, new_pipeline, head_context, tail_context, walk, context0_by,
  check_duplicate_name, number_name, generate_name, filter_name,
}
use cpp_nio_socket.Pipeline.Edit.{
  Handler, add_last0, add_last, remove, get, first, last, first_context, last_context,
}
use cpp_nio_socket.Pipeline.Events.{
  called, caught, Reaction, pass_on, keep, fails, fire_channel_read, write_event,
}
use cpp_nio_socket.Pipeline.Chain.{Contexts}
use cpp_nio_socket.Pipeline.Holds.{Holds, made, between}
use cpp_nio_socket.Pipeline.Removal.{Keeps, remove_lem}
use cpp_nio_socket.Pipeline.Names.{Injective}
use cpp_nio_socket.Pipeline.Add.{Adds, add_last_lem}
use cpp_nio_socket.Pipeline.Route.{relayed}
use cpp_nio_socket.Pipeline.Deliver.{readers, back_onto, fire_channel_read_lem, write_event_lem}

abbrev empty_pipeline : Pipeline
empty_pipeline = new_pipeline (72 ∷ []) (84 ∷ []) []

abbrev head_fields : Context
head_fields = head_context (72 ∷ [])

abbrev tail_fields : Context
tail_fields = tail_context (84 ∷ [])

empty-Holds : Holds head_fields tail_fields empty_pipeline []
unfolding new_pipeline
empty-Holds = record {
  forward = (refl, refl, (refl, refl, refl));
  backward = (refl, (refl, tt));
  apart = (((λ e. absurd (omega arith)), tt), (tt, tt));
}

-- A number is printed as strokes and a zero.
abbrev strokes : ℕ → Name
strokes zero = 48 ∷ []
strokes (suc n) = 49 ∷ strokes n

length-strokes : (n : ℕ) → length (strokes n) ≡ suc n
length-strokes zero = refl
length-strokes (suc n) = ap suc (length-strokes n)

strokes-Injective : Injective strokes
strokes-Injective i j e = omega (arith, length-strokes i, length-strokes j, ap length e)

abbrev decoder : Handler
decoder = record { address = 50; type_name = 68 ∷ []; is_inbound = true; is_outbound = false }

abbrev encoder : Handler
encoder = record { address = 51; type_name = 69 ∷ []; is_inbound = false; is_outbound = true }

add_last_lem_example :
    Adds head_fields tail_fields empty_pipeline [] 7 [] decoder
      (add_last strokes 9 7 [] decoder empty_pipeline)
unfolding new_pipeline
add_last_lem_example =
    add_last_lem strokes 9 7 [] decoder head_fields tail_fields empty_pipeline [] strokes-Injective
      empty-Holds refl (omega arith)

-- An inbound, an outbound and an inbound handler, at the addresses 7, 8 and 9.
abbrev state {ℓ} : {A S : Type ℓ} → A × S → S
state (a, s) = s

abbrev result {ℓ} : {A S : Type ℓ} → A × S → A
result (a, s) = a

abbrev filled : Pipeline
unfolding add_last
filled = state (
    (add_last strokes 9 7 (97 ∷ []) decoder
        >> add_last strokes 9 8 (98 ∷ []) encoder
        >> add_last strokes 9 9 (99 ∷ []) decoder)
      empty_pipeline)

abbrev filled_contexts : Contexts
filled_contexts =
    (7, made (97 ∷ []) decoder) ∷ (8, made (98 ∷ []) encoder) ∷ (9, made (99 ∷ []) decoder) ∷ []

filled-Holds : Holds head_fields tail_fields filled filled_contexts
unfolding filled add_last add_last0 filter_name generate_name check_duplicate_name context0_by walk
    new_pipeline
filled-Holds = record {
  forward = (refl, refl, (refl, refl, (refl, refl, (refl, refl, (refl, refl, refl)))));
  backward = (refl, (refl, (refl, (refl, (refl, tt)))));
  apart = (
    (
      (λ e. absurd (omega arith)),
      (
        (λ e. absurd (omega arith)),
        ((λ e. absurd (omega arith)), ((λ e. absurd (omega arith)), tt)),
      ),
    ),
    (
      (
        (λ e. absurd (omega arith)),
        ((λ e. absurd (omega arith)), ((λ e. absurd (omega arith)), tt)),
      ),
      (
        ((λ e. absurd (omega arith)), ((λ e. absurd (omega arith)), tt)),
        (((λ e. absurd (omega arith)), tt), (tt, tt)),
      ),
    ),
  );
}

remove_lem_example :
    Keeps head_fields tail_fields filled
      ((7, made (97 ∷ []) decoder) ∷ (9, made (99 ∷ []) decoder) ∷ [])
      (remove 9 (98 ∷ []) filled)
remove_lem_example =
    remove_lem head_fields tail_fields filled (98 ∷ []) 9 filled_contexts filled-Holds refl
      (omega arith)

-- A taken name is refused; two handlers of one type that are added without a name get the type's name
-- and the empty name, and the next ones the name of a number alone.
taken_name : result (add_last strokes 9 10 (98 ∷ []) encoder filled) ≡ err runtime_error
unfolding filled add_last add_last0 filter_name generate_name check_duplicate_name context0_by walk
    new_pipeline
taken_name = refl

abbrev unnamed : Pipeline
unfolding add_last
unnamed = state (
    (add_last strokes 9 7 [] decoder
        >> add_last strokes 9 8 [] decoder
        >> add_last strokes 9 9 [] decoder
        >> add_last strokes 9 10 [] decoder)
      empty_pipeline)

abbrev names : List (Option Context) → List Name
names [] = []
names (none ∷ cs) = names cs
names (some c ∷ cs) = c.name ∷ names cs

unnamed_names :
    names (unnamed.info 7 ∷ unnamed.info 8 ∷ unnamed.info 9 ∷ unnamed.info 10 ∷ [])
    ≡ (68 ∷ 35 ∷ 48 ∷ []) ∷ [] ∷ (48 ∷ []) ∷ (49 ∷ 48 ∷ []) ∷ []
unfolding unnamed add_last add_last0 filter_name generate_name check_duplicate_name context0_by walk
    new_pipeline number_name
unnamed_names = refl

-- The decoder at address 50 passes reads on, the tail keeps them; the head passes everything on.
abbrev all_pass : ℕ → Reaction
all_pass handler = if handler == 1 then keep else pass_on

abbrev all_fail : ℕ → Reaction
all_fail handler = if handler == 50 then fails else pass_on

abbrev forwards : ℕ → Bool
forwards handler = not (handler == 1 || handler == 0)

fire_channel_read_lem_example :
    fire_channel_read all_pass forwards filled 9
    ≡ ok (readers all_pass forwards (between (0, head_fields) filled_contexts (1, tail_fields)))
unfolding filled context0_by new_pipeline
fire_channel_read_lem_example =
    fire_channel_read_lem all_pass forwards head_fields tail_fields filled filled_contexts 9
      filled-Holds refl refl keeps (omega arith)
  where
    is_keep : Reaction → Type 0
    is_keep keep = Unit {0}
    is_keep pass_on = ⊥
    is_keep fails = ⊥

    keeps : keep ≢ pass_on
    keeps e = subst is_keep e tt

read_calls :
    readers all_pass forwards (between (0, head_fields) filled_contexts (1, tail_fields))
    ≡ called 0 ∷ called 7 ∷ called 9 ∷ called 1 ∷ []
read_calls = refl

-- The exception of the handler at 7 does not get past the outbound handler at 8.
lost_exception :
    readers all_fail forwards (between (0, head_fields) filled_contexts (1, tail_fields))
    ≡ called 0 ∷ called 7 ∷ caught 7 ∷ []
lost_exception = refl

write_event_lem_example :
    write_event forwards filled 9
    ≡ ok (relayed (λ c. c.outbound) forwards (back_onto ((0, head_fields) ∷ filled_contexts) []))
unfolding filled context0_by new_pipeline
write_event_lem_example =
    write_event_lem forwards head_fields tail_fields filled filled_contexts 9 filled-Holds
      (omega arith)

write_calls :
    relayed (λ c. c.outbound) forwards (back_onto ((0, head_fields) ∷ filled_contexts) [])
    ≡ called 8 ∷ called 0 ∷ []
write_calls = refl

first_and_last :
    (first filled ≡ ok (some 50))
    × (last filled ≡ ok (some 50))
    × (get 9 (98 ∷ []) filled ≡ ok (some 51))
unfolding filled add_last add_last0 filter_name generate_name check_duplicate_name context0_by walk
    new_pipeline first last get first_context last_context
first_and_last = (refl, refl, refl)
