-- ===== src/Prelude/Faults.antt =====
-- Results of C++ code that may stop: a failed `assert`, or a read outside an array. `out_of_fuel`
-- is the model's own, where a loop is given too little fuel.
use mathlib.Core.Path.{◌≡◌, refl, subst}
use mathlib.Core.Logic.{◌⊎◌, inl, inr}
use mathlib.Core.Bool.{Bool, true, false}
use mathlib.Core.Option.{Option, none, some}

pub data Fault : Type 0 where
  assert_failed out_of_range out_of_fuel : Fault

pub data Result {ℓ} (A : Type ℓ) : Type ℓ where
  ok : A → Result A
  fault : Fault → Result A

infixl 5 ◌>>=◌
infixl 5 ◌>>◌
-- What follows is done where nothing has stopped.
abbrev pub ◌>>◌ {ℓ} : {A : Type ℓ} → Result (Unit {0}) → Result A → Result A
ok u >> next = next
fault f >> next = fault f

abbrev pub ◌>>=◌ {ℓ ℓ'} : {A : Type ℓ} {C : Type ℓ'} → Result A → (A → Result C) → Result C
fault f >>= next = fault f
ok a >>= next = next a

-- `assert(b)`.
abbrev pub assert : Bool → Result (Unit {0})
assert true = ok tt
assert false = fault assert_failed

-- An array element or a pointer that must lie in range.
abbrev pub in_range {ℓ} : {A : Type ℓ} → Option A → Result A
in_range none = fault out_of_range
in_range (some a) = ok a

pub >>=_assoc {ℓ κ μ} :
    {A : Type ℓ} {B : Type κ} {C : Type μ} (m : Result A) (f : A → Result B) (g : B → Result C)
    → ((m >>= f) >>= g) ≡ (m >>= λ a. f a >>= g)
>>=_assoc (ok a) f g = refl
>>=_assoc (fault e) f g = refl

pub ok_injective {ℓ} : {A : Type ℓ} {a b : A} → ok a ≡ ok b → a ≡ b
ok_injective h = cc

pub in_range-eq-ok {ℓ} : {A : Type ℓ} {a : A} (o : Option A) → in_range o ≡ ok a → o ≡ some a
in_range-eq-ok none h = cc
in_range-eq-ok (some b) h = cc

-- The property of a result that is reached without a fault.
abbrev pub Holds {ℓ κ} : {A : Type ℓ} → (A → Type κ) → Result A → Type κ
Holds P (ok a) = P a
Holds P (fault e) = Unit

-- A result behind an `assert` may use what it checks.
pub Holds-assert {ℓ κ} :
    {A : Type ℓ} (P : A → Type κ) (b : Bool) (r : Result A)
    → (b ≡ true → Holds P r)
    → Holds P (assert b >> r)
Holds-assert P true r h = h refl
Holds-assert P false r h = tt

pub Holds-bind {ℓ κ μ} :
    {A : Type ℓ} {B : Type κ} (P : B → Type μ) (m : Result A) (f : A → Result B)
    → ((a : A) → m ≡ ok a → Holds P (f a))
    → Holds P (m >>= f)
Holds-bind P (ok a) f h = h a refl
Holds-bind P (fault e) f h = tt

pub Holds-map {ℓ κ μ} :
    {A : Type ℓ} (P : A → Type κ) (Q : A → Type μ) (r : Result A)
    → ((a : A) → P a → Q a)
    → Holds P r
    → Holds Q r
Holds-map P Q (ok a) f h = f a h
Holds-map P Q (fault e) f h = tt

pub Holds-ok {ℓ κ} :
    {A : Type ℓ} (P : A → Type κ) (r : Result A) (a : A) → r ≡ ok a → Holds P r → P a
Holds-ok P (ok b) a e h = subst P (ok_injective e) h
Holds-ok P (fault f) a e h = absurd (cc)

pub Result-cases {ℓ} :
    {A : Type ℓ} (r : Result A) → ((e : Fault) × (r ≡ fault e)) ⊎ ((a : A) × (r ≡ ok a))
Result-cases (ok a) = inr (a, refl)
Result-cases (fault e) = inl (e, refl)
