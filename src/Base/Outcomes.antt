-- ===== src/Base/Outcomes.antt =====
-- Results with an error as a value, the checks that end a computation early, and what a result says
-- of the checks that it passed.
use mathlib.Core.Path.{◌≡◌, refl}
use mathlib.Core.Bool.{Bool, true, false}
use mathlib.Core.Option.{Option, none, some}

pub data Attempt (E A : Type 0) : Type 0 where
  done : A → Attempt E A
  fails : E → Attempt E A

infixl 5 ◌>>=◌
abbrev pub ◌>>=◌ : {E A B : Type 0} → Attempt E A → (A → Attempt E B) → Attempt E B
done a >>= f = f a
fails e >>= f = fails e

abbrev pub require : {E : Type 0} → Bool → E → Attempt E Bool
require true e = done true
require false e = fails e

abbrev pub require_some : {E A : Type 0} → Option A → E → Attempt E A
require_some none e = fails e
require_some (some a) e = done a

pub >>=-done :
    {E A B : Type 0} (x : Attempt E A) (f : A → Attempt E B) {b : B}
    → (x >>= f) ≡ done b
    → (a : A) × (x ≡ done a) × (f a ≡ done b)
>>=-done (done a) f h = (a, refl, h)
>>=-done (fails e) f h = cc

-- Past a check.
pub checked :
    {E B : Type 0} (c : Bool) (e : E) (f : Bool → Attempt E B) {b : B}
    → (require c e >>= f) ≡ done b
    → (c ≡ true) × (f true ≡ done b)
checked true e f h = (refl, h)
checked false e f h = cc

pub found :
    {E A B : Type 0} (o : Option A) (e : E) (f : A → Attempt E B) {b : B}
    → (require_some o e >>= f) ≡ done b
    → (a : A) × (o ≡ some a) × (f a ≡ done b)
found (some a) e f h = (a, refl, h)
found none e f h = cc

pub done-injective : {E A : Type 0} {a b : A} → ◌≡◌ {A = Attempt E A} (done a) (done b) → a ≡ b
done-injective h = cc
