-- ===== src/Cycle/Rebuild.antt =====
-- `rebuild_proposal` of backend/underwriter/cycle/bootstrap.py: the closing proposal of a policy, from
-- its stored rows. `now` is the time of the call.
-- `next((leg for leg in legs if leg.side == side), None)`
use the_underwriter.Cycle.Bootstrap.{or_zero}
use the_underwriter.Kernel.Rules.{join_text}
use the_underwriter.Domain.Money.{dec_zero}
use the_underwriter.Domain.Proposal.{SpreadLeg, UnderwritingProposal, put_credit_spread, closing}
use the_underwriter.Book.Rows.{PolicyLeg, Policy}
use the_underwriter.Domain.Decimal.{Decimal, lt, div, sub, of_ℤ}
use the_underwriter.Domain.Market.{Side, put, is_sell, sell, buy, date_of}
use the_underwriter.Base.Int.{ℤ, eqb_ℤ, pos, ◌-ℤ◌}
use the_underwriter.Base.{
  List, ℕ, if◌then◌else◌, Result, Option, ◌>>=◌, none, ok, ◌∷◌, some, [], true,
}

abbrev pub first_sold : List PolicyLeg → Option PolicyLeg
first_sold [] = none
first_sold (leg ∷ legs) = let rest = first_sold legs in if is_sell leg.side then some leg else rest

abbrev pub first_bought : List PolicyLeg → Option PolicyLeg
first_bought [] = none
first_bought (leg ∷ legs) =
    let rest = first_bought legs in if is_sell leg.side then rest else some leg

-- `n or 1`
abbrev pub or_one : ℤ → ℤ
or_one n = if eqb_ℤ n (pos 0) then pos 1 else n

abbrev pub rebuilt_leg : Side → ℕ → PolicyLeg → SpreadLeg
rebuilt_leg side expiry leg = record {
  symbol = leg.option_symbol;
  right = put;
  side = side;
  strike = or_zero leg.strike;
  expiry = expiry;
  ratio_qty = or_one leg.ratio_qty;
}

-- A total of the policy for one spread, and what it is where there are no spreads.
abbrev pub per_spread_of : Decimal → Decimal → Decimal → Result Decimal
per_spread_of per_spread total otherwise = do
  some_spreads ← lt dec_zero per_spread
  if some_spreads then div total per_spread else ok otherwise

abbrev pub rebuilt :
    ℕ → Policy → ℕ → PolicyLeg → PolicyLeg → Decimal → Decimal → Decimal → UnderwritingProposal
rebuilt now policy expiry short long max_profit max_loss breakeven = record {
  candidate_id = join_text "exit:" policy.id;
  underlying = policy.underlying;
  structure = put_credit_spread;
  action = closing;
  legs = rebuilt_leg sell expiry short ∷ rebuilt_leg buy expiry long ∷ [];
  short_strike = or_zero short.strike;
  long_strike = or_zero long.strike;
  expiry = expiry;
  dte = pos expiry -ℤ pos (date_of now);
  net_credit = or_zero policy.opening_credit;
  max_profit = max_profit;
  max_loss = max_loss;
  capital_reserve = max_loss;
  breakeven = breakeven;
  credit_to_width = dec_zero;
  p_loss_proxy = dec_zero;
  p_profit_proxy = dec_zero;
  expected_value = dec_zero;
  edge_ratio = dec_zero;
  liquidity_score = dec_zero;
  max_leg_spread_pct = dec_zero;
  short_delta = or_zero short.open_delta;
  net_delta = dec_zero;
  net_vega = dec_zero;
  greeks_complete = true;
  snapshot_hash = join_text "exit:" policy.id;
  snapshot_as_of = now;
}

unfoldable pub rebuild_on :
    ℕ
    → Policy
    → Option ℕ
    → Option PolicyLeg
    → Option PolicyLeg
    → Result (Option UnderwritingProposal)
unfolding lt div sub
rebuild_on now policy none short long = ok none
rebuild_on now policy (some expiry) none long = ok none
rebuild_on now policy (some expiry) (some short) none = ok none
rebuild_on now policy (some expiry) (some short) (some long) = do
  let per_spread = of_ℤ (or_one policy.contracts)
  max_loss ← per_spread_of per_spread (or_zero policy.max_loss) (or_zero policy.max_loss)
  max_profit ← per_spread_of per_spread (or_zero policy.max_profit) dec_zero
  breakeven ← sub (or_zero short.strike) (or_zero policy.opening_credit)
  ok (some (rebuilt now policy expiry short long max_profit max_loss breakeven))

unfoldable pub rebuild_proposal : ℕ → Policy → List PolicyLeg → Result (Option UnderwritingProposal)
unfolding rebuild_on
rebuild_proposal now policy legs =
    rebuild_on now policy policy.expiration (first_sold legs) (first_bought legs)
