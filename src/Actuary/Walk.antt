-- ===== src/Actuary/Walk.antt =====
-- What holds of each pair of usable quotes that is priced holds of each proposal of the result.
use the_underwriter.Actuary.Validation.{Discard}
use the_underwriter.Actuary.Pricing.{proposed, Priced, discarded}
use the_underwriter.Base.{
  List, All, ◌≡◌, ok, true, ◌∷◌, [], subst, ◌++◌, ok-injective, >>=-eq-ok, Bool, sort_by,
  if◌then◌else◌, ◌>>=◌, sort_by-All, false, refl,
}
use the_underwriter.Domain.Proposal.{UnderwritingProposal}
use the_underwriter.Actuary.Engine.{
  skipped, Pass, Sifted, pairs, kept, usable_of, price_pair, price_longs, price_shorts,
  price_usable, proposals_of, ActuaryResult, quote_less, proposal_less, sellable, thrown,
}
use the_underwriter.Domain.Market.{ContractQuote}

sifted-All :
    (f : ContractQuote → Sifted) (q : ContractQuote) (rest : List ContractQuote) (x : Sifted)
    → f q ≡ x
    → All (λ q. f q ≡ kept) rest
    → All
        (λ q. f q ≡ kept)
        (elim x as (λ _. List ContractQuote) [ skipped ↦ rest | thrown d ↦ rest | kept ↦ q ∷ rest ])
sifted-All f q rest skipped e h = h
sifted-All f q rest (thrown d) e h = h
sifted-All f q rest kept e h = (e, h)

pub usable-All :
    (f : ContractQuote → Sifted) (qs : List ContractQuote) → All (λ q. f q ≡ kept) (usable_of f qs)
usable-All f [] = tt
usable-All f (q ∷ qs) = sifted-All f q (usable_of f qs) (f q) refl (usable-All f qs)

-- A pass, a property of quotes, and a property of proposals that every pair gives.
module _ {κ μ} (s : Pass) (P : ContractQuote → Type κ) (G : UnderwritingProposal → Type μ)
    (good : (a b : ContractQuote) (p : UnderwritingProposal)
      → P a
      → P b
      → pairs s.thresholds a b ≡ ok true
      → price_pair s a b ≡ ok (proposed p)
      → G p) where
  head-All :
      (a b : ContractQuote) (x : Priced) (xs : List Priced)
      → P a
      → P b
      → pairs s.thresholds a b ≡ ok true
      → price_pair s a b ≡ ok x
      → All G (proposals_of xs)
      → All G (proposals_of (x ∷ xs))
  head-All a b (discarded d) xs pa pb able e h = h
  head-All a b (proposed p) xs pa pb able e h = (good a b p pa pb able e, h)

  price_longs-All :
      (a : ContractQuote) (bs : List ContractQuote) (out : List Priced)
      → P a
      → All P bs
      → price_longs s a bs ≡ ok out
      → All G (proposals_of out)
  unfolding price_longs
  price_longs-All a [] out pa h e = subst (λ xs. All G (proposals_of xs)) (ok-injective e) tt
  price_longs-All a (b ∷ bs) out pa h e =
      let (eligible, able, made) = >>=-eq-ok (pairs s.thresholds a b) _ e in
      go (λ out e. price_longs-All a bs out pa h.1 e) eligible able made
    where
      go :
          ((out : List Priced) → price_longs s a bs ≡ ok out → All G (proposals_of out))
          → (eligible : Bool) → pairs s.thresholds a b ≡ ok eligible
          → (if eligible
              then (do here ← price_pair s a b; others ← price_longs s a bs; ok (here ∷ others))
              else price_longs s a bs)
            ≡ ok out
          → All G (proposals_of out)
      go more true able made =
          let (here, first, made₁) = >>=-eq-ok (price_pair s a b) _ made in
          let (others, second, at) = >>=-eq-ok (price_longs s a bs) _ made₁ in
          subst (λ xs. All G (proposals_of xs)) (ok-injective at)
            (head-All a b here others pa h.0 able first (more others second))
      go more false able made = more out made

  proposals_of-append :
      (xs ys : List Priced)
      → All G (proposals_of xs)
      → All G (proposals_of ys)
      → All G (proposals_of (xs ++ ys))
  proposals_of-append [] ys h k = k
  proposals_of-append (discarded d ∷ xs) ys h k = proposals_of-append xs ys h k
  proposals_of-append (proposed p ∷ xs) ys h k = (h.0, proposals_of-append xs ys h.1 k)

  price_shorts-All :
      (ordered qs : List ContractQuote) (out : List Priced)
      → All P ordered
      → All P qs
      → price_shorts s ordered qs ≡ ok out
      → All G (proposals_of out)
  unfolding price_shorts
  price_shorts-All ordered [] out po h e = subst (λ xs. All G (proposals_of xs)) (ok-injective e) tt
  price_shorts-All ordered (a ∷ qs) out po h e =
      let (able, _, made) = >>=-eq-ok (sellable s.thresholds a.delta) _ e in
      go (λ out e. price_shorts-All ordered qs out po h.1 e) able made
    where
      go :
          ((out : List Priced) → price_shorts s ordered qs ≡ ok out → All G (proposals_of out))
          → (able : Bool)
          → (if able
              then (do
                here ← price_longs s a ordered
                others ← price_shorts s ordered qs
                ok (here ++ others))
              else price_shorts s ordered qs)
            ≡ ok out
          → All G (proposals_of out)
      go more true made =
          let (here, first, made₁) = >>=-eq-ok (price_longs s a ordered) _ made in
          let (others, second, at) = >>=-eq-ok (price_shorts s ordered qs) _ made₁ in
          subst (λ xs. All G (proposals_of xs)) (ok-injective at)
            (proposals_of-append here others (price_longs-All a ordered here h.0 po first)
              (more others second))
      go more false made = more out made

  pub price_usable-All :
      (thrown_away : List Discard) (r : ActuaryResult)
      → All P s.quotes
      → price_usable s thrown_away ≡ ok r
      → All G r.proposals
  unfolding price_usable
  price_usable-All thrown_away r h e =
      let (ordered, first, e₁) = >>=-eq-ok (sort_by quote_less s.quotes) _ e in
      let (priced, second, e₂) = >>=-eq-ok (price_shorts s ordered ordered) _ e₁ in
      let (ranked, third, at) = >>=-eq-ok (sort_by proposal_less (proposals_of priced)) _ e₂ in
      let usable = sort_by-All quote_less P s.quotes ordered h first in
      subst (λ x. All G x.proposals) (ok-injective at)
        (sort_by-All proposal_less G (proposals_of priced) ranked
          (price_shorts-All ordered ordered priced usable usable second) third)
