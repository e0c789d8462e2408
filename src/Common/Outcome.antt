-- ===== src/Common/Outcome.antt =====
-- A Go call that may fail: a value or an error, with the notation for a chain of such calls.
use mathlib.Core.Path.{◌≡◌, refl, ap}
use mathlib.Core.Bool.{Bool, true, false}
use mathlib.Core.Logic.{◌⊎◌, inl, inr}
use mathlib.Core.Option.{Option, none, some}

pub data Result (E : Type 0) (A : Type 0) : Type 0 where
  ok : A → Result E A
  err : E → Result E A

infixl 5 ◌>>=◌ ◌>>◌
abbrev pub ◌>>=◌ : {E A B : Type 0} → Result E A → (A → Result E B) → Result E B
err e >>= next = err e
ok value >>= next = next value

abbrev pub ◌>>◌ : {E B : Type 0} → Result E (Unit {0}) → Result E B → Result E B
first >> rest = first >>= λ _. rest

-- `if !test { return e }`
abbrev pub require : {E : Type 0} → Bool → E → Result E (Unit {0})
require false why = err why
require true why = ok tt

-- `value, ok := ...; if !ok { return e }`
abbrev pub or_fail : {E A : Type 0} → Option A → E → Result E A
or_fail (some value) why = ok value
or_fail none why = err why

pub Result-cases :
    {E A : Type 0} (r : Result E A) → ((a : A) × (r ≡ ok a)) ⊎ ((e : E) × (r ≡ err e))
Result-cases (ok a) = inl (a, refl)
Result-cases (err e) = inr (e, refl)

-- A chain succeeds exactly where its parts do.
pub >>-eq-ok :
    {E B : Type 0} (m : Result E (Unit {0})) (k : Result E B) {b : B}
    → (m >> k) ≡ ok b
    → (m ≡ ok tt) × (k ≡ ok b)
>>-eq-ok (ok tt) k h = (refl, h)
>>-eq-ok (err e) k h = cc

-- The value that a chain went through.
pub >>=-eq-ok :
    {E A B : Type 0} (first : Result E A) (rest : A → Result E B) {end : B}
    → (first >>= rest) ≡ ok end
    → (mid : A) × (first ≡ ok mid) × (rest mid ≡ ok end)
>>=-eq-ok (ok mid) rest fine = (mid, refl, fine)
>>=-eq-ok (err e) rest fine = cc

pub ok_injective : {E A : Type 0} {x y : A} → Path (Result E A) (ok x) (ok y) → x ≡ y
ok_injective {x = x} p = ap (λ r. elim r [ ok a ↦ a | err e ↦ x ]) p

pub or_fail-ok : {E A : Type 0} (o : Option A) (e : E) (a : A) → or_fail o e ≡ ok a → o ≡ some a
or_fail-ok none e a h = cc
or_fail-ok (some b) e a h = ap some (ok_injective h)

pub require-ok : {E : Type 0} (b : Bool) (e : E) → require b e ≡ ok tt → b ≡ true
require-ok true e h = refl
require-ok false e h = cc
