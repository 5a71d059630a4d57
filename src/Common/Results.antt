-- ===== src/Common/Results.antt =====
-- What a call returns: a value, an error value, or a panic (the workspace builds with overflow
-- checks on, so an arithmetic overflow is one). A `&mut self` method also returns its object.

pub data Result {ℓ} (E : Type 0) (A : Type ℓ) : Type ℓ where
  ok : A → Result E A
  err : E → Result E A
  panic : Result E A

module _ {ℓ} {E : Type 0} {A : Type ℓ} where
  abbrev pub NoPanic : Result E A → Type 0
  NoPanic panic = ⊥
  NoPanic _ = Unit

-- The rest of a body after a `?`: the object as the first part left it, and its value.
abbrev pub and_then {ℓ κ} :
    {E S : Type 0} {A : Type ℓ} {B : Type κ}
    → Result E A × S
    → (A → S → Result E B × S)
    → Result E B × S
and_then (ok a, s) f = f a s
and_then (err e, s) f = (err e, s)
and_then (panic, s) f = (panic, s)

infixl 5 ◌>>=◌ ◌>>◌
abbrev pub ◌>>=◌ {ℓ κ} :
    {E S : Type 0} {A : Type ℓ} {B : Type κ}
    → (S → Result E A × S)
    → (A → S → Result E B × S)
    → S
    → Result E B × S
◌>>=◌ m f s = and_then (m s) f

abbrev pub ◌>>◌ {ℓ} :
    {E S : Type 0} {B : Type ℓ}
    → (S → Result E (Unit {0}) × S)
    → (S → Result E B × S)
    → S
    → Result E B × S
◌>>◌ m k s = and_then (m s) (λ _ s'. k s')

abbrev pub pure {ℓ} : {E S : Type 0} {A : Type ℓ} → A → S → Result E A × S
pure a s = (ok a, s)

abbrev pub fail {ℓ} : {E S : Type 0} {A : Type ℓ} → E → S → Result E A × S
fail e s = (err e, s)

abbrev pub lift {ℓ} : {E S : Type 0} {A : Type ℓ} → Result E A → S → Result E A × S
lift r s = (r, s)

-- A field of the object, and a change of the object.
abbrev pub gets {ℓ} : {E S : Type 0} {A : Type ℓ} → (S → A) → S → Result E A × S
gets f s = (ok (f s), s)

abbrev pub modify : {E S : Type 0} → (S → S) → S → Result E (Unit {0}) × S
modify f s = (ok tt, f s)
