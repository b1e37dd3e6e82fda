-- ===== src/Pipeline/Splice.antt =====
-- The pointer writes of addLast0 and remove0 on the list of contexts.
use cpp_nio_socket.Common.{ℕ, ◌≢◌, sym, ap, ◌∙◌, subst, Option, some, [], ◌∷◌, ◌++◌}
use cpp_nio_socket.Pipeline.{Context, write}
use cpp_nio_socket.Pipeline.Chain.{
  Contexts, Absent, Apart, Forward, Backward, write_self, write_ne, Absent-append_left,
}

-- The address of the last context of a list that is not empty.
abbrev pub last_of : ℕ × Context → Contexts → ℕ
last_of (a, c) [] = a
last_of (a, c) (n ∷ ns) = last_of n ns

pub last_of-ne : (a : ℕ) (m : ℕ × Context) (ns : Contexts) → Absent a (m ∷ ns) → last_of m ns ≢ a
last_of-ne a (b, c) [] (d, h) = d
last_of-ne a (b, c) (n ∷ ns) (d, h) = last_of-ne a n ns h

-- Writes to contexts outside of the list.
pub write-Forward :
    (a : ℕ) (v : Option ℕ) (next : ℕ → Option ℕ) (info : ℕ → Option Context) (x : Option ℕ)
    (ns : Contexts)
    → Absent a ns
    → Forward next info x ns
    → Forward (write a v next) info x ns
write-Forward a v next info x [] out f = f
write-Forward a v next info x ((b, c) ∷ ns) (d, out) (at, e, f) = (
  at,
  e,
  subst (λ y. Forward (write a v next) info y ns) (sym (write_ne a b v next (λ q. d (sym q))))
      (write-Forward a v next info (next b) ns out f),
)

pub write_info-Forward :
    (a : ℕ) (v : Option Context) (next : ℕ → Option ℕ) (info : ℕ → Option Context) (x : Option ℕ)
    (ns : Contexts)
    → Absent a ns
    → Forward next info x ns
    → Forward next (write a v info) x ns
write_info-Forward a v next info x [] out f = f
write_info-Forward a v next info x ((b, c) ∷ ns) (d, out) (at, e, f) = (
  at,
  write_ne a b v info (λ q. d (sym q)) ∙ e,
  write_info-Forward a v next info (next b) ns out f,
)

pub write-Backward :
    (a : ℕ) (v : Option ℕ) (prev : ℕ → Option ℕ) (x : Option ℕ) (ns : Contexts)
    → Absent a ns
    → Backward prev x ns
    → Backward (write a v prev) x ns
write-Backward a v prev x [] out f = tt
write-Backward a v prev x ((b, c) ∷ ns) (d, out) (e, f) =
    (write_ne a b v prev (λ q. d (sym q)) ∙ e, write-Backward a v prev (some b) ns out f)

-- The `next` of the last context of the first part is written: the second part is another one.
pub splice-Forward :
    (next : ℕ → Option ℕ) (info : ℕ → Option Context) (x y : Option ℕ) (m : ℕ × Context)
    (ns ms ks : Contexts)
    → Apart ((m ∷ ns) ++ ms)
    → Forward next info x ((m ∷ ns) ++ ms)
    → Forward (write (last_of m ns) y next) info y ks
    → Forward (write (last_of m ns) y next) info x ((m ∷ ns) ++ ks)
splice-Forward next info x y (a, c) [] ms ks ap (at, e, f) g =
    (at, e, subst (λ z. Forward (write a y next) info z ks) (sym (write_self a y next)) g)
splice-Forward next info x y (a, c) (n ∷ ns) ms ks (out, ap) (at, e, f) g =
    let ne = last_of-ne a n ns (Absent-append_left a (n ∷ ns) ms out) in
    (
      at,
      e,
      subst (λ z. Forward (write (last_of n ns) y next) info z ((n ∷ ns) ++ ks))
          (sym (write_ne (last_of n ns) a y next ne))
          (splice-Forward next info (next a) y n ns ms ks ap f g),
    )

pub Forward-rest :
    (next : ℕ → Option ℕ) (info : ℕ → Option Context) (x : Option ℕ) (m : ℕ × Context)
    (ns ms : Contexts)
    → Forward next info x ((m ∷ ns) ++ ms)
    → Forward next info (next (last_of m ns)) ms
Forward-rest next info x (a, c) [] ms (at, e, f) = f
Forward-rest next info x (a, c) (n ∷ ns) ms (at, e, f) = Forward-rest next info (next a) n ns ms f

pub Backward-rest :
    (prev : ℕ → Option ℕ) (x : Option ℕ) (m : ℕ × Context) (ns ms : Contexts)
    → Backward prev x ((m ∷ ns) ++ ms)
    → Backward prev (some (last_of m ns)) ms
Backward-rest prev x (a, c) [] ms (e, f) = f
Backward-rest prev x (a, c) (n ∷ ns) ms (e, f) = Backward-rest prev (some a) n ns ms f

pub splice-Backward :
    (prev : ℕ → Option ℕ) (x : Option ℕ) (m : ℕ × Context) (ns ms ks : Contexts)
    → Backward prev x ((m ∷ ns) ++ ms)
    → Backward prev (some (last_of m ns)) ks
    → Backward prev x ((m ∷ ns) ++ ks)
splice-Backward prev x (a, c) [] ms ks (e, f) g = (e, g)
splice-Backward prev x (a, c) (n ∷ ns) ms ks (e, f) g =
    (e, splice-Backward prev (some a) n ns ms ks f g)

pub Apart-last :
    (m : ℕ × Context) (ns ms : Contexts) → Apart ((m ∷ ns) ++ ms) → Absent (last_of m ns) ms
Apart-last (a, c) [] ms (out, ap) = out
Apart-last (a, c) (n ∷ ns) ms (out, ap) = Apart-last n ns ms ap

-- A part of a list that goes backward, with `prev` of a context behind it written.
pub prefix-Backward :
    (a : ℕ) (v : Option ℕ) (prev : ℕ → Option ℕ) (x : Option ℕ) (m : ℕ × Context) (ns ms : Contexts)
    → Absent a (m ∷ ns)
    → Backward prev x ((m ∷ ns) ++ ms)
    → Backward (write a v prev) x ((m ∷ ns) ++ [])
prefix-Backward a v prev x (b, c) [] ms (d, out) (e, f) =
    (write_ne a b v prev (λ q. d (sym q)) ∙ e, tt)
prefix-Backward a v prev x (b, c) (n ∷ ns) ms (d, out) (e, f) =
    (write_ne a b v prev (λ q. d (sym q)) ∙ e, prefix-Backward a v prev (some b) n ns ms out f)
