-- ===== src/Execution/Mirror.antt =====
-- What a closing order is to the opening one.
use the_underwriter.Base.{[], ◌∷◌, ok-injective, >>=-eq-ok, inl, ◌⊎◌, inr, refl}
use the_underwriter.Domain.Market.{buy, sell, Side}
use the_underwriter.Base.{List, ◌≡◌, ok, map}
use the_underwriter.Base.Int.{ℤ}
use the_underwriter.Domain.Proposal.{SpreadLeg, UnderwritingProposal, opening, closing}
use the_underwriter.Execution.Order.{
  Intent, OrderLeg, zip_legs, order_legs, buy_to_close, closing_side, sell_to_close, order_leg,
  buy_to_open, sell_to_open, simplify_ratios,
}

abbrev mirror_intent : Intent → Intent
mirror_intent sell_to_open = buy_to_close
mirror_intent buy_to_open = sell_to_close
mirror_intent sell_to_close = buy_to_open
mirror_intent buy_to_close = sell_to_open

-- The leg that undoes a leg.
abbrev pub mirror : OrderLeg → OrderLeg
mirror leg = record {
  symbol = leg.symbol;
  side = closing_side leg.side;
  ratio_qty = leg.ratio_qty;
  position_intent = mirror_intent leg.position_intent;
}

Side-cases : (s : Side) → (s ≡ buy) ⊎ (s ≡ sell)
Side-cases buy = inl refl
Side-cases sell = inr refl

mirror-order_leg :
    (leg : SpreadLeg) (r : ℤ) → order_leg closing leg r ≡ mirror (order_leg opening leg r)
mirror-order_leg leg r = elim (Side-cases leg.side) [ inl e ↦ rw e | inr e ↦ rw e ]

zip_legs-mirror :
    (legs : List SpreadLeg) (rs : List ℤ) (opened : List OrderLeg)
    → zip_legs opening legs rs ≡ ok opened
    → zip_legs closing legs rs ≡ ok (map mirror opened)
unfolding zip_legs
zip_legs-mirror [] [] opened h = rw (← ok-injective h)
zip_legs-mirror [] (r ∷ rs) opened h = cc
zip_legs-mirror (leg ∷ legs) [] opened h = cc
zip_legs-mirror (leg ∷ legs) (r ∷ rs) opened h =
    let (rest, e, made) =
      >>=-eq-ok (zip_legs opening legs rs) (λ rest. ok (order_leg opening leg r ∷ rest)) h in
    rw (zip_legs-mirror legs rs rest e, ← ok-injective made, mirror-order_leg leg r)

-- Where the entry of a proposal has legs, the exit has the same symbols in the same ratios, each with
-- the other side and the intent that closes what was opened.
pub order_legs-mirror :
    (p : UnderwritingProposal) (opened : List OrderLeg)
    → order_legs opening p ≡ ok opened
    → order_legs closing p ≡ ok (map mirror opened)
unfolding order_legs
order_legs-mirror p opened h =
    let (ratios, simplified, zipped) =
      >>=-eq-ok (simplify_ratios (map (λ leg. leg.ratio_qty) p.legs)) (zip_legs opening p.legs) h in
    rw simplified (zip_legs-mirror p.legs ratios opened zipped)
