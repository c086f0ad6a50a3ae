-- ===== src/Common/Result.antt =====
-- A Python call that returns a value or raises: the errors are values of a type `E`.
use mathlib.Core.Path.{◌≡◌, refl}
use mathlib.Core.Bool.{Bool, true, false}

pub data Result (E A : Type 0) : Type 0 where
  err : E → Result E A
  ok : A → Result E A

module _ {E : Type 0} where
  -- `if condition: raise error`
  abbrev pub raise_if : Bool → E → Result E (Unit {0})
  raise_if false error = ok tt
  raise_if true error = err error

  module _ {B : Type 0} where
    infixl 5 ◌>>=◌
    abbrev pub ◌>>=◌ : {A : Type 0} → Result E A → (A → Result E B) → Result E B
    err error >>= next = err error
    ok value >>= next = next value

    infixl 5 ◌>>◌
    abbrev pub ◌>>◌ : Result E (Unit {0}) → Result E B → Result E B
    err error >> rest = err error
    ok done >> rest = rest

    -- `except A as error: raise convert(error)`
    abbrev pub map_err : {F : Type 0} → (E → F) → Result E B → Result F B
    map_err convert (err error) = err (convert error)
    map_err convert (ok value) = ok value

    pub >>=-eq-ok :
        {A : Type 0} (call : Result E A) (next : A → Result E B) {value : B}
        → (call >>= next) ≡ ok value
        → (x : A) × (call ≡ ok x) × (next x ≡ ok value)
    >>=-eq-ok (err error) next h = cc
    >>=-eq-ok (ok x) next h = (x, refl, h)
