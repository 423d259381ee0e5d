-- ===== src/Base/Sorting.antt =====
-- A stable sort by a comparison that may raise: an element goes before those that are not less.
use mathlib.Core.Bool.{Bool, true, false}
use mathlib.Core.List.{List, [], ◌∷◌}
use mathlib.Core.Path.{◌≡◌, subst}
use the_underwriter.Base.Tests.{if◌then◌else◌}
use the_underwriter.Base.Lists.{All}
use the_underwriter.Base.Results.{Result, ok, ◌>>=◌, ok-injective, >>=-eq-ok}

module _ {ℓ} {A : Type ℓ} (less : A → A → Result Bool) where
  unfoldable pub insert_by : A → List A → Result (List A)
  insert_by x [] = ok (x ∷ [])
  insert_by x (y ∷ ys) =
      let rest = insert_by x ys in
      less y x >>= λ later. if later then (rest >>= λ zs. ok (y ∷ zs)) else ok (x ∷ y ∷ ys)

  -- `sorted`
  unfoldable pub sort_by : List A → Result (List A)
  unfolding insert_by
  sort_by [] = ok []
  sort_by (x ∷ xs) = sort_by xs >>= λ ys. insert_by x ys

  module _ {κ} (P : A → Type κ) where
    insert_by-All : (x : A) (ys zs : List A) → P x → All P ys → insert_by x ys ≡ ok zs → All P zs
    unfolding insert_by
    insert_by-All x [] zs px h e = subst (All P) (ok-injective e) (px, tt)
    insert_by-All x (y ∷ ys) zs px h e =
        let (later, _, made) = >>=-eq-ok (less y x) _ e in
        go (λ zs inserted. insert_by-All x ys zs px h.1 inserted) later made
      where
        go :
            ((zs : List A) → insert_by x ys ≡ ok zs → All P zs)
            → (later : Bool)
            → (if later then (insert_by x ys >>= λ zs. ok (y ∷ zs)) else ok (x ∷ y ∷ ys)) ≡ ok zs
            → All P zs
        go more true made =
            let (rest, inserted, at) = >>=-eq-ok (insert_by x ys) _ made in
            subst (All P) (ok-injective at) (h.0, more rest inserted)
        go more false made = subst (All P) (ok-injective made) (px, (h.0, h.1))

    -- What holds of all elements holds of all after the sort.
    pub sort_by-All : (xs ys : List A) → All P xs → sort_by xs ≡ ok ys → All P ys
    unfolding sort_by
    sort_by-All [] ys h e = subst (All P) (ok-injective e) tt
    sort_by-All (x ∷ xs) ys h e =
        let (sorted, first, second) = >>=-eq-ok (sort_by xs) _ e in
        insert_by-All x sorted ys h.0 (sort_by-All xs sorted h.1 first) second
