-- ===== src/Common/Fallible.antt =====
-- Chains of fallible calls that change no object.
use novachannel.Common.Results.{Result, ok, err, panic, NoPanic}
use novachannel.Common.Tests.{if◌then◌else◌}
use mathlib.Core.Path.{◌≡◌, refl, ap, subst}
use mathlib.Core.Logic.{◌⊎◌, inl, inr}
use mathlib.Core.Bool.{Bool, true, false}
use mathlib.Core.Option.{Option, none, some}

abbrev pub then_else {ℓ κ} :
    {E : Type 0} {A : Type ℓ} {B : Type κ} → Result E A → (A → Result E B) → Result E B
then_else (ok a) f = f a
then_else (err e) f = err e
then_else panic f = panic

infixl 5 ◌>>=◌ ◌>>◌
abbrev pub ◌>>=◌ {ℓ κ} :
    {E : Type 0} {A : Type ℓ} {B : Type κ} → Result E A → (A → Result E B) → Result E B
m >>= f = then_else m f

abbrev pub ◌>>◌ {ℓ} : {E : Type 0} {B : Type ℓ} → Result E (Unit {0}) → Result E B → Result E B
m >> k = m >>= λ _. k

-- `if !b { return Err(e) }`.
abbrev pub ensure : {E : Type 0} → Bool → E → Result E (Unit {0})
ensure true e = ok tt
ensure false e = err e

abbrev pub ok_or {ℓ} : {E : Type 0} {A : Type ℓ} → E → Option A → Result E A
ok_or e none = err e
ok_or e (some a) = ok a

-- `expect`, `unwrap` and an index that is out of range.
abbrev pub expect {ℓ} : {E : Type 0} {A : Type ℓ} → Option A → Result E A
expect none = panic
expect (some a) = ok a

-- The call does not panic, and `P` holds of its value if it has one.
pub data Ensures {ℓ κ} {E : Type 0} {A : Type ℓ} (P : A → Type κ) : Result E A → Type (ℓ ⊔ κ) where
  returns : {a : A} → P a → Ensures P (ok a)
  refuses : {e : E} → Ensures P (err e)

module _ {ℓ κ} {E : Type 0} {A : Type ℓ} {P : A → Type κ} where
  pub Ensures-ok : {r : Result E A} {a : A} → Ensures P r → r ≡ ok a → P a
  Ensures-ok (returns h) e = subst P (cc) h
  Ensures-ok refuses e = absurd (cc)

  pub Ensures-of : (r : Result E A) → NoPanic r → ((a : A) → r ≡ ok a → P a) → Ensures P r
  Ensures-of (ok a) h k = returns (k a refl)
  Ensures-of (err e) h k = refuses
  Ensures-of panic h k = elim h [ ]

  pub Ensures-cases :
      {r : Result E A} → Ensures P r → ((e : E) × (r ≡ err e)) ⊎ ((a : A) × (r ≡ ok a) × P a)
  Ensures-cases (returns {a} h) = inr (a, refl, h)
  Ensures-cases (refuses {e}) = inl (e, refl)

  pub Ensures-NoPanic : {r : Result E A} → Ensures P r → NoPanic r
  Ensures-NoPanic (returns h) = tt
  Ensures-NoPanic refuses = tt

  pub Ensures-if :
      (b : Bool) {x y : Result E A}
      → (b ≡ true → Ensures P x)
      → (b ≡ false → Ensures P y)
      → Ensures P (if b then x else y)
  Ensures-if true hx hy = hx refl
  Ensures-if false hx hy = hy refl

  pub Ensures-then {ℓ' κ'} :
      {B : Type ℓ'} {Q : B → Type κ'} {r : Result E A} {f : A → Result E B}
      → Ensures P r
      → ((a : A) → r ≡ ok a → P a → Ensures Q (f a))
      → Ensures Q (then_else r f)
  Ensures-then (returns {a} h) k = k a refl h
  Ensures-then refuses k = refuses

pub ok_or-Ensures {ℓ} :
    {E : Type 0} {A : Type ℓ} (e : E) (o : Option A) → Ensures (λ a. o ≡ some a) (ok_or e o)
ok_or-Ensures e none = refuses
ok_or-Ensures e (some a) = returns refl

pub ensure-Ensures : {E : Type 0} (b : Bool) (e : E) → Ensures (λ _. b ≡ true) (ensure b e)
ensure-Ensures true e = returns refl
ensure-Ensures false e = refuses

pub expect-Ensures {ℓ} :
    {E : Type 0} {A : Type ℓ} {o : Option A} {a : A}
    → o ≡ some a
    → Ensures {E = E} (λ b. b ≡ a) (expect o)
expect-Ensures {o = none} e = absurd (cc)
expect-Ensures {o = some b} e = returns (cc)

-- What follows a chain that returned.
pub then_else-ok {ℓ κ ℓ'} :
    {E : Type 0} {A : Type ℓ} {B : Type κ} {C : Type ℓ'} (m : Result E A) (f : A → Result E B)
    (b : B)
    → then_else m f ≡ ok b
    → (k : B → Result E C) → then_else m (λ a. then_else (f a) k) ≡ k b
then_else-ok (ok a) f b h k = ap (λ r. then_else r k) h
then_else-ok (err e) f b h k = absurd (cc)
then_else-ok panic f b h k = absurd (cc)

-- A chain that returned went through a first call that returned.
pub then_else-eq-ok {ℓ κ} :
    {E : Type 0} {A : Type ℓ} {B : Type κ} (m : Result E A) (f : A → Result E B) {b : B}
    → then_else m f ≡ ok b
    → (a : A) × (m ≡ ok a) × (f a ≡ ok b)
then_else-eq-ok (ok a) f h = (a, refl, h)
then_else-eq-ok (err e) f h = absurd (cc)
then_else-eq-ok panic f h = absurd (cc)

pub ok_or-eq-ok {ℓ} :
    {E : Type 0} {A : Type ℓ} (e : E) (o : Option A) {a : A} → ok_or e o ≡ ok a → o ≡ some a
ok_or-eq-ok e none h = absurd (cc)
ok_or-eq-ok e (some b) h = cc

pub Result-cases {ℓ} :
    {E : Type 0} {A : Type ℓ} (r : Result E A)
    → ((a : A) × (r ≡ ok a)) ⊎ (((e : E) × (r ≡ err e)) ⊎ (r ≡ panic))
Result-cases (ok a) = inl (a, refl)
Result-cases (err e) = inr (inl (e, refl))
Result-cases panic = inr (inr refl)
