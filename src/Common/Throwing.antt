-- ===== src/Common/Throwing.antt =====
-- C++ code that changes an object and may throw: a thrown exception keeps the changes made so far.
use mathlib.Core.Path.{◌≡◌, refl}
use mathlib.Core.Bool.{Bool, true, false}

-- `undefined` is undefined behaviour (an access out of bounds, an overlapping `memcpy`, a signed
-- overflow), `assertion_failed` a BOOST_ASSERT that does not hold; `negative_index` ends a run at which an index of a buffer would fall below 0,
-- `endless` one that never returns.
pub data Fault : Type 0 where
  runtime_error decoder_exception illegal_argument undefined assertion_failed negative_index
        endless :
      Fault

pub data Outcome {ℓ} (A : Type ℓ) : Type ℓ where
  ok : A → Outcome A
  err : Fault → Outcome A

abbrev pub M : Type 0 → Type 0 → Type 0
M S A = S → Outcome A × S

abbrev pub bind : {S A B : Type 0} → Outcome A × S → (A → S → Outcome B × S) → Outcome B × S
bind (ok a, s) f = f a s
bind (err e, s) f = (err e, s)

abbrev pub and_then : {A B : Type 0} → Outcome A → (A → Outcome B) → Outcome B
and_then (ok a) f = f a
and_then (err e) f = err e

infixl 5 ◌>>=◌ ◌>>◌
abbrev pub ◌>>=◌ : {S A B : Type 0} → M S A → (A → M S B) → M S B
◌>>=◌ m f s = bind (m s) f

abbrev pub ◌>>◌ : {S B : Type 0} → M S (Unit {0}) → M S B → M S B
◌>>◌ m k s = bind (m s) (λ _. k)

abbrev pub return : {S A : Type 0} → A → M S A
return a s = (ok a, s)

abbrev pub throw : {S A : Type 0} → Fault → M S A
throw e s = (err e, s)

-- What a function of the state returns.
abbrev pub read : {S A : Type 0} → (S → A) → M S A
read f s = (ok (f s), s)

abbrev pub update : {S : Type 0} → (S → S) → M S (Unit {0})
update f s = (ok tt, f s)

-- `if (bad) throw e;`
abbrev pub refuse_if : {S : Type 0} → Bool → Fault → M S (Unit {0})
refuse_if true e s = (err e, s)
refuse_if false e s = (ok tt, s)

abbrev pub lift : {S A : Type 0} → Outcome A → M S A
lift r s = (r, s)

pub bind_congr :
    {S A B : Type 0} (r : Outcome A × S) (f g : A → S → Outcome B × S)
    → ((a : A) (s : S) → f a s ≡ g a s)
    → bind r f ≡ bind r g
bind_congr (ok a, s) f g h = h a s
bind_congr (err e, s) f g h = refl
