-- ===== src/Base/Lists.antt =====
-- Lists as the program uses them: `len`, `any`, `all`, membership of a text, and predicates by
-- recursion.
use Prim.Native.Nat.{ℕ, zero, suc, ◌+◌}
use mathlib.Core.Option.{Option, none, some}
use Prim.Native.String.{String}
use mathlib.Core.Path.{◌≡◌, subst, sym, refl, ap}
use mathlib.Core.Bool.{Bool, true, false, ◌&&◌, ◌||◌}
use mathlib.Core.List.{List, [], ◌∷◌, ◌++◌, map}
use native.Mathlib.Omega.{arith}
use mathlib.Core.Logic.{inl, inr}
use the_underwriter.Base.Tests.{Bool-cases}
use text.Mathlib.Text.{◌==◌ as text_eq}

module _ {ℓ} {A : Type ℓ} where
  abbrev pub length : List A → ℕ
  length [] = 0
  length (x ∷ xs) = suc (length xs)

  abbrev pub any : (A → Bool) → List A → Bool
  any p [] = false
  any p (x ∷ xs) = p x || any p xs

  abbrev pub all : (A → Bool) → List A → Bool
  all p [] = true
  all p (x ∷ xs) = p x && all p xs

  -- `[x for x in xs if p(x)]`
  abbrev pub select : (A → Bool) → List A → List A
  select p [] = []
  select p (x ∷ xs) = let rest = select p xs in elim (p x) [ true ↦ x ∷ rest | false ↦ rest ]

  pub select-keep :
      (p : A → Bool) (x : A) (xs : List A) → p x ≡ true → select p (x ∷ xs) ≡ x ∷ select p xs
  select-keep p x xs h =
      subst
        (λ b.
          elim b as (λ _. List A) [ true ↦ x ∷ select p xs | false ↦ select p xs ]
          ≡ x ∷ select p xs)
        (sym h) refl

  pub select-drop :
      (p : A → Bool) (x : A) (xs : List A) → p x ≡ false → select p (x ∷ xs) ≡ select p xs
  select-drop p x xs h =
      subst
        (λ b.
          elim b as (λ _. List A) [ true ↦ x ∷ select p xs | false ↦ select p xs ] ≡ select p xs)
        (sym h) refl

  pub select-snoc_keep :
      (p : A → Bool) (xs : List A) (x : A)
      → p x ≡ true
      → select p (xs ++ x ∷ []) ≡ select p xs ++ x ∷ []
  select-snoc_keep p [] x h = select-keep p x [] h
  select-snoc_keep p (y ∷ ys) x h = elim (Bool-cases (p y)) [
    | inl e ↦
        rw (select-keep p y (ys ++ x ∷ []) e, select-keep p y ys e)
          (ap (◌∷◌ y) (select-snoc_keep p ys x h))
    | inr e ↦
        rw (select-drop p y (ys ++ x ∷ []) e, select-drop p y ys e) (select-snoc_keep p ys x h)
  ]

  pub select-snoc_drop :
      (p : A → Bool) (xs : List A) (x : A) → p x ≡ false → select p (xs ++ x ∷ []) ≡ select p xs
  select-snoc_drop p [] x h = select-drop p x [] h
  select-snoc_drop p (y ∷ ys) x h = elim (Bool-cases (p y)) [
    | inl e ↦
        rw (select-keep p y (ys ++ x ∷ []) e, select-keep p y ys e)
          (ap (◌∷◌ y) (select-snoc_drop p ys x h))
    | inr e ↦
        rw (select-drop p y (ys ++ x ∷ []) e, select-drop p y ys e) (select-snoc_drop p ys x h)
  ]

  pub length-append : (xs ys : List A) → length (xs ++ ys) ≡ length xs + length ys
  length-append [] ys = omega arith
  length-append (x ∷ xs) ys = omega (arith, length-append xs ys)

abbrev pub All {ℓ κ} : {A : Type ℓ} → (A → Type κ) → List A → Type κ
All P [] = Unit
All P (x ∷ xs) = P x × All P xs

pub All-append {ℓ κ} :
    {A : Type ℓ} (P : A → Type κ) (xs ys : List A) → All P xs → All P ys → All P (xs ++ ys)
All-append P [] ys hx hy = hy
All-append P (x ∷ xs) ys hx hy = (hx.0, All-append P xs ys hx.1 hy)

-- `s in xs`
abbrev pub contains : String → List String → Bool
contains s [] = false
contains s (x ∷ xs) = text_eq s x || contains s xs

module _ {ℓ} {A : Type ℓ} where
  abbrev pub get_elem? : List A → ℕ → Option A
  get_elem? [] i = none
  get_elem? (x ∷ xs) zero = some x
  get_elem? (x ∷ xs) (suc i) = get_elem? xs i

  pub All-get_elem? {κ} :
      (P : A → Type κ) (xs : List A) (i : ℕ) (x : A) → get_elem? xs i ≡ some x → All P xs → P x
  All-get_elem? P [] i x e h = cc
  All-get_elem? P (y ∷ xs) zero x e h = subst P (cc) h.0
  All-get_elem? P (y ∷ xs) (suc i) x e h = All-get_elem? P xs i x e h.1

pub map-snoc {ℓ κ} :
    {A : Type ℓ} {B : Type κ} (f : A → B) (xs : List A) (x : A)
    → map f (xs ++ x ∷ []) ≡ map f xs ++ f x ∷ []
map-snoc f [] x = refl
map-snoc f (y ∷ ys) x = ap (◌∷◌ (f y)) (map-snoc f ys x)
