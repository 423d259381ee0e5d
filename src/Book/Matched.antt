-- ===== src/Book/Matched.antt =====
-- The reserves match the policies: why the check of db/invariants.py holds.
use the_underwriter.Book.Policies.{Settlement, settle_in, release_in, settled_policy, release}
use the_underwriter.Book.Reserves.{held_amounts, exposed_losses}
use the_underwriter.Base.Int.{ℤ, ◌+ℤ◌, pos}
use the_underwriter.Domain.Decimal.{sum_from, sum, Decimal, add, fin}
use the_underwriter.Base.{
  List, ◌++◌, String, ◌∷◌, ◌≡◌, [], ℕ, some, ok, ◌>>=◌, Bool, if◌then◌else◌, refl, str_eq, ◌&&◌,
  Bool-cases, >>=-ok, inr, inl, Result-cases, false, ap, true, select-keep, ◌∙◌, select-drop,
}
use the_underwriter.Book.Rows.{Policy, Reserve, is_held, is_open}

-- A reserve is for a policy, at its whole loss, and is held as long as the policy is open.
pub record Fits (p : Policy) (r : Reserve) : Type 0 where
  pub loss : ℤ
  pub loss_eq : p.max_loss ≡ some (fin loss)
  pub amount_eq : r.amount ≡ fin loss
  pub id_eq : r.policy_id ≡ p.id
  pub held_eq : is_held r.status ≡ is_open p.status

-- Each policy has its one reserve.
abbrev pub Matched : List Policy → List Reserve → Type 0
Matched [] [] = Unit
Matched [] (r ∷ rs) = ⊥
Matched (p ∷ ps) [] = ⊥
Matched (p ∷ ps) (r ∷ rs) = Fits p r × Matched ps rs

pub Matched-snoc :
    (ps : List Policy) (rs : List Reserve) (p : Policy) (r : Reserve)
    → Matched ps rs
    → Fits p r
    → Matched (ps ++ p ∷ []) (rs ++ r ∷ [])
Matched-snoc [] [] p r m f = (f, tt)
Matched-snoc [] (q ∷ rs) p r m f = absurd m
Matched-snoc (q ∷ ps) [] p r m f = absurd m
Matched-snoc (q ∷ ps) (t ∷ rs) p r m f = (m.0, Matched-snoc ps rs p r m.1 f)

Fits-settled :
    (p : Policy) (r : Reserve) (id : String) (now : ℕ) (t : Settlement) (win : Bool)
    → Fits p r
    → Fits
        (if str_eq p.id id then settled_policy now t win p else p)
        (if str_eq r.policy_id id && is_held r.status then release now r else r)
Fits-settled p r id now t win f = elim (Bool-cases (str_eq p.id id)) [
  | inr other ↦
      let other' : str_eq r.policy_id id ≡ false = rw f.id_eq other in rw (other, other') f
  | inl same ↦
      let same' : str_eq r.policy_id id ≡ true = rw f.id_eq same in
      elim (Bool-cases (is_held r.status)) [
        | inl still ↦
            rw (same, same', still)
              (record {
                loss = f.loss;
                loss_eq = f.loss_eq;
                amount_eq = f.amount_eq;
                id_eq = f.id_eq;
                held_eq = refl;
              })
        | inr gone ↦
            rw (same, same', gone)
              (record {
                loss = f.loss;
                loss_eq = f.loss_eq;
                amount_eq = f.amount_eq;
                id_eq = f.id_eq;
                held_eq = gone;
              })
      ]
]

pub Matched-settle :
    (ps : List Policy) (rs : List Reserve) (id : String) (now : ℕ) (t : Settlement) (win : Bool)
    → Matched ps rs
    → Matched (settle_in id now t win ps) (release_in id now rs)
Matched-settle [] [] id now t win m = tt
Matched-settle [] (r ∷ rs) id now t win m = absurd m
Matched-settle (p ∷ ps) [] id now t win m = absurd m
Matched-settle (p ∷ ps) (r ∷ rs) id now t win m =
    (Fits-settled p r id now t win m.0, Matched-settle ps rs id now t win m.1)

-- The amounts that are held are the losses that are exposed, one by one.
pub held-exposed :
    (ps : List Policy) (rs : List Reserve) → Matched ps rs → held_amounts rs ≡ exposed_losses ps
held-exposed [] [] m = refl
held-exposed [] (r ∷ rs) m = absurd m
held-exposed (p ∷ ps) [] m = absurd m
held-exposed (p ∷ ps) (r ∷ rs) m = elim (Bool-cases (is_open p.status)) [
  | inl o ↦
      rw
        (
          select-keep (λ r. is_held r.status) r rs (m.0.held_eq ∙ o),
          select-keep (λ p. is_open p.status) p ps o,
          m.0.loss_eq,
          m.0.amount_eq,
        )
        (ap (◌∷◌ (fin m.0.loss)) (held-exposed ps rs m.1))
  | inr o ↦
      rw
        (
          select-drop (λ r. is_held r.status) r rs (m.0.held_eq ∙ o),
          select-drop (λ p. is_open p.status) p ps o,
        )
        (held-exposed ps rs m.1)
]

abbrev pub Finite : List Decimal → Type 0
Finite [] = Unit
Finite (d ∷ ds) = ((n : ℤ) × (d ≡ fin n)) × Finite ds

pub exposed-Finite :
    (ps : List Policy) (rs : List Reserve) → Matched ps rs → Finite (exposed_losses ps)
exposed-Finite [] [] m = tt
exposed-Finite [] (r ∷ rs) m = absurd m
exposed-Finite (p ∷ ps) [] m = absurd m
exposed-Finite (p ∷ ps) (r ∷ rs) m = elim (Bool-cases (is_open p.status)) [
  | inl o ↦
      rw (select-keep (λ p. is_open p.status) p ps o, m.0.loss_eq)
        ((m.0.loss, refl), exposed-Finite ps rs m.1)
  | inr o ↦ rw (select-drop (λ p. is_open p.status) p ps o) (exposed-Finite ps rs m.1)
]

sum_from-fin :
    (acc : ℤ) (ds : List Decimal) → Finite ds → (t : ℤ) × (sum_from (fin acc) ds ≡ ok (fin t))
unfolding sum_from add
sum_from-fin acc [] f = (acc, refl)
sum_from-fin acc (d ∷ ds) ((n, e), f) =
    let (t, summed) = sum_from-fin (acc +ℤ n) ds f in (t, rw e summed)

pub sum-fin : (ds : List Decimal) → Finite ds → (t : ℤ) × (sum ds ≡ ok (fin t))
unfolding sum
sum-fin ds f = sum_from-fin (pos 0) ds f

sum_from-snoc :
    (acc d : Decimal) (ds : List Decimal)
    → sum_from acc (ds ++ d ∷ []) ≡ (sum_from acc ds >>= λ t. add t d)
unfolding sum_from
sum_from-snoc acc d [] = >>=-ok (add acc d)
sum_from-snoc acc d (e ∷ ds) = elim (Result-cases (add acc e)) [
  | inl (x, raised) ↦ rw raised refl
  | inr (a, added) ↦ rw added (sum_from-snoc a d ds)
]

-- A last summand.
pub sum-snoc : (d : Decimal) (ds : List Decimal) → sum (ds ++ d ∷ []) ≡ (sum ds >>= λ t. add t d)
unfolding sum
sum-snoc d ds = sum_from-snoc (fin (pos 0)) d ds
