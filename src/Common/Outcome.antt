-- ===== src/Common/Outcome.antt =====
-- Results with an error, and methods that change a state and may fail. What was written before an
-- error stays written, so the state comes back beside the error too.
use mathlib.Core.Path.{◌≡◌, refl}
use mathlib.Core.Bool.{Bool, true, false}

pub data Result {ℓ} (E A : Type ℓ) : Type ℓ where
  err : (error : E) → Result E A
  ok : (value : A) → Result E A

-- A test that ends in an error, or goes on.
abbrev pub ensure {ℓ} : {E : Type ℓ} → Bool → E → Result E (Unit {ℓ})
ensure false e = err e
ensure true _ = ok tt

module _ {ℓ} {E B : Type ℓ} where
  infixl 5 ◌>>◌
  abbrev pub ◌>>◌ : Result E (Unit {ℓ}) → Result E B → Result E B
  err e >> later = err e
  ok _ >> later = later

module _ {ℓ} {E A B : Type ℓ} where
  infixl 5 ◌>>=◌
  abbrev pub ◌>>=◌ : Result E A → (A → Result E B) → Result E B
  err e >>= next = err e
  ok value >>= next = next value

-- A chain of checks succeeds when each does.
pub then-ok :
    {E B : Type 0} (m : Result E (Unit {0})) (k : Result E B) {b : B}
    → (m >> k) ≡ ok b
    → (m ≡ ok tt) × (k ≡ ok b)
then-ok (err e) k h = cc
then-ok (ok u) k h = (refl, h)

pub bind-eq-ok {ℓ} :
    {E A B : Type ℓ} (first : Result E A) (next : A → Result E B) {result : B}
    → (first >>= next) ≡ ok result
    → (value : A) × (first ≡ ok value) × (next value ≡ ok result)
bind-eq-ok (err e) next h = cc
bind-eq-ok (ok value) next h = (value, refl, h)

pub ensure-true : {E : Type 0} (test : Bool) (e : E) → ensure test e ≡ ok tt → test ≡ true
ensure-true false e h = cc
ensure-true true e h = refl

pub ensure-ok :
    {E B : Type 0} (test : Bool) (e : E) (k : Result E B) {b : B}
    → (ensure test e >> k) ≡ ok b
    → (test ≡ true) × (k ≡ ok b)
ensure-ok false e k h = cc
ensure-ok true e k h = (refl, h)
