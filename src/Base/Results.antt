-- ===== src/Base/Results.antt =====
-- What a fallible function returns: an error of the component's own type `E`, or a value.
use mathlib.Core.Path.{◌≡◌, refl}

pub data Result (E A : Type 0) : Type 0 where
  err : E → Result E A
  ok : A → Result E A

-- An early return on an error.
infixl 5 ◌>>=◌
abbrev pub ◌>>=◌ : {E A B : Type 0} → Result E A → (A → Result E B) → Result E B
r >>= rest = elim r [ err e ↦ err e | ok a ↦ rest a ]

-- A chain that succeeds has a first part that does.
pub bind_eq_ok :
    {E A B : Type 0} (r : Result E A) (rest : A → Result E B) {b : B}
    → (r >>= rest) ≡ ok b
    → (a : A) × (r ≡ ok a) × (rest a ≡ ok b)
bind_eq_ok (err e) rest h = cc
bind_eq_ok (ok a) rest h = (a, refl, h)
