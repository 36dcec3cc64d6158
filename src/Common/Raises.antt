-- ===== src/Common/Raises.antt =====
-- A call that returns or raises: the error type is the component's own.
use mathlib.Core.Path.{◌≡◌, refl, ap}
use mathlib.Core.Bool.{Bool, true, false}
use mathlib.Core.Option.{Option, none, some}

pub data Result (E A : Type 0) : Type 0 where
  ok : A → Result E A
  err : E → Result E A

infixl 5 ◌>>=◌ ◌>>◌
abbrev pub ◌>>=◌ : {E A B : Type 0} → Result E A → (A → Result E B) → Result E B
err raised >>= rest = err raised
ok value >>= rest = rest value

-- A statement whose value is not used.
abbrev pub ◌>>◌ : {E B : Type 0} → Result E (Unit {0}) → Result E B → Result E B
statement >> rest = statement >>= λ unused. rest

-- `if c: raise e`
abbrev pub raise_if : {E : Type 0} → Bool → E → Result E (Unit {0})
raise_if true e = err e
raise_if false e = ok tt

abbrev pub or_raise : {E A : Type 0} → Option A → E → Result E A
or_raise none e = err e
or_raise (some a) e = ok a

-- A body that returns has had its first call return.
pub >>=-eq-ok :
    {E A B : Type 0} (call : Result E A) (rest : A → Result E B) {out : B}
    → (call >>= rest) ≡ ok out
    → (value : A) × (call ≡ ok value) × (rest value ≡ ok out)
>>=-eq-ok (err raised) rest returned = cc
>>=-eq-ok (ok value) rest returned = (value, refl, returned)

pub ok_eq : {E A : Type 0} {a b : A} → ◌≡◌ {A = Result E A} (ok a) (ok b) → a ≡ b
ok_eq e = cc

-- A check that passed.
pub raise_if-ok :
    {E : Type 0} (test : Bool) (e : E) (u : Unit {0}) → raise_if test e ≡ ok u → test ≡ false
raise_if-ok true e u passed = cc
raise_if-ok false e u passed = refl

-- A statement that raised nothing is passed over.
pub >>-ok :
    {E B : Type 0} (m : Result E (Unit {0})) (k : Result E B) {b : B}
    → (m >> k) ≡ ok b
    → (m ≡ ok tt) × (k ≡ ok b)
>>-ok (err raised) k e = cc
>>-ok (ok tt) k e = (refl, e)

pub or_raise-ok : {E A : Type 0} (o : Option A) (e : E) {a : A} → or_raise o e ≡ ok a → o ≡ some a
or_raise-ok none e found = cc
or_raise-ok (some a) e found = ap some (ok_eq found)

-- Past `if test: raise e`, the test was false.
pub after_check :
    {E B : Type 0} (test : Bool) (e : E) (k : Result E B) {b : B}
    → (raise_if test e >> k) ≡ ok b
    → (test ≡ false) × (k ≡ ok b)
after_check true e k passed = cc
after_check false e k passed = (refl, passed)
