-- ===== src/Base/Results.antt =====
-- Python's exceptions as values: a call returns, or raises an error of one of these classes.
use mathlib.Core.Path.{◌≡◌, refl}
use mathlib.Core.Bool.{Bool, true, false}
use mathlib.Core.Logic.{◌⊎◌, inl, inr}

-- The first line is the interpreter's own classes, the second those that the program declares.
pub data Error : Type 0 where
  invalid_operation division_by_zero value_error overflow_error type_error : Error
  money_error order_construction_error unauthorized_execution : Error

pub data Result {ℓ} (A : Type ℓ) : Type ℓ where
  err : Error → Result A
  ok : A → Result A

infixl 5 ◌>>=◌ ◌>>◌
abbrev pub ◌>>=◌ {ℓ κ} :
    {A : Type ℓ} {B : Type κ} (call : Result A) (next : A → Result B) → Result B
err raised >>= next = err raised
ok value >>= next = next value

abbrev pub ◌>>◌ {κ} : {B : Type κ} (first : Result (Unit {0})) (second : Result B) → Result B
first >> second = first >>= λ _. second

-- `if bad: raise e`
abbrev pub raise_if : Bool → Error → Result (Unit {0})
raise_if true e = err e
raise_if false e = ok tt

-- Inversion of a call that returned.
pub >>=-eq-ok {ℓ κ} :
    {A : Type ℓ} {B : Type κ} (call : Result A) (next : A → Result B) {out : B}
    → (call >>= next) ≡ ok out
    → (value : A) × (call ≡ ok value) × (next value ≡ ok out)
>>=-eq-ok (err raised) next returned = cc
>>=-eq-ok (ok value) next returned = (value, refl, returned)

pub Result-cases {ℓ} :
    {A : Type ℓ} (r : Result A) → ((e : Error) × (r ≡ err e)) ⊎ ((a : A) × (r ≡ ok a))
Result-cases (ok a) = inr (a, refl)
Result-cases (err e) = inl (e, refl)

pub ok-injective {ℓ} : {A : Type ℓ} {a b : A} → ok a ≡ ok b → a ≡ b
ok-injective e = cc

pub >>=-ok {ℓ} : {A : Type ℓ} (call : Result A) → (call >>= λ value. ok value) ≡ call
>>=-ok (ok value) = refl
>>=-ok (err raised) = refl

-- A guard that a call passed.
pub guard-ok {ℓ} :
    {A : Type ℓ} (bad : Bool) (e : Error) (rest : Result A) {out : A}
    → (raise_if bad e >> rest) ≡ ok out
    → (bad ≡ false) × (rest ≡ ok out)
guard-ok true e rest h = cc
guard-ok false e rest h = (refl, h)
