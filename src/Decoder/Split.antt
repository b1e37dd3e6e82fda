-- ===== src/Decoder/Split.antt =====
-- A stream of frames that is cut at any byte.
use cpp_nio_socket.Common.{
  ℕ, ◌≤◌, ◌<◌, ◌≡◌, refl, sym, ap, subst, ◌∙◌, inl, inr, arith, dec_lt, List, [], ◌∷◌, ◌++◌, length,
  length-append, take, drop, take-append_left, take-append-drop, take-all, pos, pos_part, ◌+ℤ◌,
}
use cpp_nio_socket.Memory.{Width}
use cpp_nio_socket.Decoder.{FrameDecoder}
use cpp_nio_socket.Decoder.Stream.{
  IsConfigured, Announces, AreFrames, IsPartial, concat, header-append, Announces-append,
}

module _ {ℓ} {A : Type ℓ} where
  -- The shorter of two lists that begin the same list begins the other.
  prefix_of :
      (p rest f more : List A)
      → length p ≤ length f
      → p ++ rest ≡ f ++ more
      → f ≡ p ++ drop (length p) f
  prefix_of p rest f more h e =
      let start : p ≡ take (length p) f =
        sym (take-append_left (length p) p rest (omega arith) ∙ take-all (length p) p (omega arith))
        ∙ ap (take (length p)) e
        ∙ take-append_left (length p) f more h in
      sym (take-append-drop (length p) f) ∙ ap (λ l. l ++ drop (length p) f) (sym start)

  remains : (f q rest more : List A) → (f ++ q) ++ rest ≡ f ++ more → q ++ rest ≡ more
  remains [] q rest more e = e
  remains (x ∷ f) q rest more e = remains f q rest more (ap (drop 1) e)

module _ (d : FrameDecoder) (w : Width) (config : IsConfigured d w) where
  Announces-prefix :
      (m : ℕ) (p rest : List ℕ)
      → d.length_field_end_offset ≤ length p
      → Announces d w m (p ++ rest)
      → Announces d w m p
  Announces-prefix m p rest arrived a = record {
    n = a.n;
    arrived = arrived;
    value = sym (header-append d w config p rest arrived) ∙ a.value;
    adjusted = a.adjusted;
    fits_long = a.fits_long;
    accepted = a.accepted;
  }

  -- The start of something that announces more bytes than there are.
  start-IsPartial :
      (m : ℕ) (p rest : List ℕ) → Announces d w m (p ++ rest) → length p < m → IsPartial d w p
  start-IsPartial m p rest a short = elim (dec_lt (length p) d.length_field_end_offset) [
    | yes no_header ↦ inl no_header
    | no header ↦ inr (m, Announces-prefix m p rest (omega (arith, header)) a, short)
  ]

  prefix-IsPartial : (p rest : List ℕ) → IsPartial d w (p ++ rest) → IsPartial d w p
  prefix-IsPartial p rest (inl short) = inl (omega (arith, length-append p rest))
  prefix-IsPartial p rest (inr (m, a, short)) =
      start-IsPartial m p rest a (omega (arith, length-append p rest))

  -- The bytes `p` that have arrived, of a stream that goes on with `rest`, are whole frames and the
  -- start of the next one.
  pub record Cut (fs : List (List ℕ)) (tail p rest : List ℕ) : Type 0 where
    pub arrived : List (List ℕ)
    pub to_come : List (List ℕ)
    pub start : List ℕ
    pub all : fs ≡ arrived ++ to_come
    pub front : p ≡ concat arrived start
    pub back : start ++ rest ≡ concat to_come tail
    pub whole : AreFrames d w arrived
    pub others : AreFrames d w to_come
    pub partial : IsPartial d w start

  pub stream-Cut :
      (fs : List (List ℕ)) (tail p rest : List ℕ)
      → AreFrames d w fs
      → IsPartial d w tail
      → p ++ rest ≡ concat fs tail
      → Cut fs tail p rest
  stream-Cut [] tail p rest frames part e = record {
    arrived = [];
    to_come = [];
    start = p;
    all = refl;
    front = refl;
    back = e;
    whole = tt;
    others = tt;
    partial = prefix-IsPartial p rest (subst (IsPartial d w) (sym e) part);
  }
  stream-Cut (f ∷ fs) tail p rest (a, frames) part e = elim (dec_lt (length p) (length f)) [
    | yes short ↦
        let split = prefix_of p rest f (concat fs tail) (omega arith) e in
        record {
          arrived = [];
          to_come = f ∷ fs;
          start = p;
          all = refl;
          front = refl;
          back = e;
          whole = tt;
          others = (a, frames);
          partial =
              start-IsPartial (length f) p (drop (length p) f)
                (subst (Announces d w (length f)) split a) short;
        }
    | no long ↦
        let q = drop (length f) p in
        let split : p ≡ f ++ q =
          prefix_of f (concat fs tail) p rest (omega (arith, long)) (sym e) in
        let later : q ++ rest ≡ concat fs tail =
          remains f q rest (concat fs tail) (ap (λ l. l ++ rest) (sym split) ∙ e) in
        let c = stream-Cut fs tail q rest frames part later in
        record {
          arrived = f ∷ c.arrived;
          to_come = c.to_come;
          start = c.start;
          all = ap (λ gs. f ∷ gs) c.all;
          front = split ∙ ap (λ l. f ++ l) c.front;
          back = c.back;
          whole = (a, c.whole);
          others = c.others;
          partial = c.partial;
        }
  ]

  -- Two announcements of the same bytes announce the same length.
  Announces-unique :
      (m m' : ℕ) (bytes : List ℕ) → Announces d w m bytes → Announces d w m' bytes → m ≡ m'
  Announces-unique m m' bytes a a' =
      let n : a.n ≡ a'.n = ap pos_part (sym a.value ∙ a'.value) in
      ap pos_part (
        sym a.adjusted
        ∙ ap (λ k. pos k +ℤ (d.length_adjustment +ℤ pos d.length_field_end_offset)) n
        ∙ a'.adjusted)

  pub IsPartial-none :
      (u tail : List ℕ) (fs : List (List ℕ))
      → IsPartial d w u
      → AreFrames d w fs
      → u ≡ concat fs tail
      → (fs ≡ []) × (u ≡ tail)
  IsPartial-none u tail [] part frames e = (refl, e)
  IsPartial-none u tail (f ∷ fs) (inl short) (a, frames) e =
      absurd (omega (arith, ap length e, length-append f (concat fs tail), a.arrived))
  IsPartial-none u tail (f ∷ fs) (inr (m, a', short)) (a, frames) e =
      let whole = Announces-append d w config (length f) f (concat fs tail) a in
      let same =
        Announces-unique m (length f) u a' (subst (Announces d w (length f)) (sym e) whole) in
      absurd (omega (arith, ap length e, length-append f (concat fs tail)))
