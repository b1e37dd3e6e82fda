-- ===== src/Pipeline/Edit.antt =====
-- DefaultChannelPipeline.hpp: addLast, remove, and the operations that look a context up.
use cpp_nio_socket.Common.{
  ℕ, Bool, Option, none, some, ◌==◌, if◌then◌else◌, Outcome, M, ok, err, ◌>>=◌, ◌>>◌, update,
  undefined,
}
use cpp_nio_socket.Pipeline.{
  Name, Context, Pipeline, write, context0, context0_handler, filter_name,
}

-- addLast0
abbrev pub link_last : ℕ → Option ℕ → M Pipeline (Unit {0})
link_last ctx none p = (err undefined, p)
link_last ctx (some prev) p = (
  ok tt,
  record p {
    prev = write p.tail (some ctx) (write ctx (some prev) p.prev);
    next = write prev (some ctx) (write ctx (some p.tail) p.next);
  },
)

unfoldable pub add_last0 : ℕ → M Pipeline (Unit {0})
add_last0 ctx p = link_last ctx (p.prev p.tail) p

-- A handler that is added: its address, the name of its type, and the interfaces it has.
pub record Handler : Type 0 where
  pub address : ℕ
  pub type_name : Name
  pub is_inbound : Bool
  pub is_outbound : Bool

-- The constructor of DefaultChannelHandlerContext, at the address `ctx` that `new` returns.
abbrev pub new_context : ℕ → Name → Handler → Pipeline → Pipeline
new_context ctx name handler p = record p {
  next = write ctx none p.next;
  prev = write ctx none p.prev;
  info =
      write ctx
        (some (record {
          name = name;
          handler = handler.address;
          inbound = handler.is_inbound;
          outbound = handler.is_outbound;
        }))
        p.info;
}

-- addLast(name, handler)
unfoldable pub add_last : (ℕ → Name) → ℕ → ℕ → Name → Handler → M Pipeline (Unit {0})
unfolding filter_name add_last0
add_last format fuel ctx name handler = filter_name format name handler.type_name fuel >>= λ name.
    update (new_context ctx name handler) >> add_last0 ctx

-- remove0: the two neighbours, then `delete`.
abbrev pub unlink : ℕ → Option ℕ → Option ℕ → M Pipeline (Unit {0})
unlink ctx none next p = (err undefined, p)
unlink ctx (some prev) none p = (err undefined, p)
unlink ctx (some prev) (some next) p = (
  ok tt,
  record p {
    next = write prev (some next) p.next;
    prev = write next (some prev) p.prev;
    info = write ctx none p.info;
  },
)

unfoldable pub remove0 : ℕ → M Pipeline (Unit {0})
remove0 ctx p = unlink ctx (p.prev ctx) (p.next ctx) p

abbrev pub remove_found : Outcome (Option ℕ) → M Pipeline (Unit {0})
remove_found (err e) p = (err e, p)
remove_found (ok none) p = (ok tt, p)
remove_found (ok (some ctx)) p = remove0 ctx p

-- remove(name) and remove(handler)
unfoldable pub remove : ℕ → Name → M Pipeline (Unit {0})
unfolding remove0
remove fuel name p = remove_found (context0 name fuel p) p

unfoldable pub remove_handler : ℕ → ℕ → M Pipeline (Unit {0})
unfolding remove0
remove_handler fuel handler p = remove_found (context0_handler handler fuel p) p

-- What get, first and last return: the handler of a context.
abbrev pub handler_of : Option Context → Outcome (Option ℕ)
handler_of none = err undefined
handler_of (some c) = ok (some c.handler)

abbrev pub get_found : Pipeline → Outcome (Option ℕ) → Outcome (Option ℕ)
get_found p (err e) = err e
get_found p (ok none) = ok none
get_found p (ok (some ctx)) = handler_of (p.info ctx)

unfoldable pub get : ℕ → Name → Pipeline → Outcome (Option ℕ)
get fuel name p = get_found p (context0 name fuel p)

-- firstContext and lastContext: the neighbour of one end unless it is the other end.
abbrev pub unless_end : ℕ → Option ℕ → Outcome (Option ℕ)
unless_end end none = err undefined
unless_end end (some ctx) = if ctx == end then ok none else ok (some ctx)

unfoldable pub first_context : Pipeline → Outcome (Option ℕ)
first_context p = unless_end p.tail (p.next p.head)

unfoldable pub last_context : Pipeline → Outcome (Option ℕ)
last_context p = unless_end p.head (p.prev p.tail)

unfoldable pub first : Pipeline → Outcome (Option ℕ)
unfolding first_context
first p = get_found p (first_context p)

unfoldable pub last : Pipeline → Outcome (Option ℕ)
unfolding last_context
last p = get_found p (last_context p)
