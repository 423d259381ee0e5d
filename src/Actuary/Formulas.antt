-- ===== src/Actuary/Formulas.antt =====
-- backend/underwriter/actuary/formulas.py
use the_underwriter.Kernel.Limits.{hundredths}
use the_underwriter.Domain.Proposal.{SpreadLeg}
use the_underwriter.Base.Int.{◌*ℤ◌, ℤ, min_ℤ}
use the_underwriter.Base.{
  String, Option, List, Result, ◌∷◌, ◌>>=◌, ok, if◌then◌else◌, err, ◌>>◌, str_eq, money_error, none,
  raise_if, false, some, not, [],
}
use the_underwriter.Domain.Market.{sign, spread_pct, ContractQuote}
use the_underwriter.Domain.Money.{
  safe_div, q_per_share, q_credit, q_ratio, q_loss, dec_zero, contract_multiplier, dec_one,
}
use the_underwriter.Domain.Decimal.{sub, mul, absolute, of_ℤ, le, Decimal, min_of, add}

unfoldable pub spread_width : Decimal → Decimal → Result Decimal
unfolding sub le q_per_share
spread_width short_strike long_strike = do
  width ← sub short_strike long_strike
  none_left ← le width dec_zero
  raise_if none_left money_error
  q_per_share width

unfoldable pub net_credit : Decimal → Decimal → Result Decimal
unfolding sub le q_credit
net_credit short_bid long_ask = do
  credit ← sub short_bid long_ask
  none_left ← le credit dec_zero
  raise_if none_left money_error
  q_credit credit

unfoldable pub max_profit : Decimal → Result Decimal
unfolding mul q_credit
max_profit credit = do gross ← mul credit contract_multiplier; q_credit gross

unfoldable pub max_loss : Decimal → Decimal → Result Decimal
unfolding sub le mul q_loss
max_loss width credit = do
  implausible ← le width credit
  raise_if implausible money_error
  risk ← sub width credit
  gross ← mul risk contract_multiplier
  q_loss gross

unfoldable pub breakeven : Decimal → Decimal → Result Decimal
unfolding sub q_per_share
breakeven short_strike credit = do price ← sub short_strike credit; q_per_share price

unfoldable pub credit_to_width : Decimal → Decimal → Result Decimal
unfolding safe_div q_ratio
credit_to_width credit width = do share ← safe_div credit width; q_ratio share

unfoldable pub loss_probability_proxy : Decimal → Result Decimal
unfolding absolute le q_ratio
loss_probability_proxy short_delta = do
  let p_loss = absolute short_delta
  above ← le dec_zero p_loss
  within ← if above then le p_loss dec_one else ok false
  raise_if (not within) money_error
  q_ratio p_loss

unfoldable pub expected_value : Decimal → Decimal → Decimal → Result Decimal
unfolding sub mul q_credit
expected_value p_loss gross_max_profit gross_max_loss = do
  p_profit ← sub dec_one p_loss
  gain ← mul p_profit gross_max_profit
  cost ← mul p_loss gross_max_loss
  value ← sub gain cost
  q_credit value

unfoldable pub edge_ratio : Decimal → Decimal → Result Decimal
unfolding safe_div q_ratio
edge_ratio ev gross_max_loss = do edge ← safe_div ev gross_max_loss; q_ratio edge

-- The component of the open interest: one half where it is not told.
unfoldable pub oi_component : Option ℤ → Decimal → Result Decimal
unfolding of_ℤ safe_div min_of
oi_component none min_oi = ok (hundredths 50)
oi_component (some interest) min_oi = do
  share ← safe_div (of_ℤ interest) min_oi
  min_of dec_one share

unfoldable pub liquidity_score : ContractQuote → Decimal → Decimal → Decimal → Result Decimal
unfolding spread_pct safe_div min_of sub of_ℤ oi_component mul add q_ratio
liquidity_score q max_bid_ask_pct min_depth min_oi = do
  pct ← spread_pct q
  share ← safe_div pct max_bid_ask_pct
  capped ← min_of dec_one share
  spread_component ← sub dec_one capped
  depth ← safe_div (of_ℤ (min_ℤ q.bid_size q.ask_size)) min_depth
  depth_component ← min_of dec_one depth
  interest ← oi_component q.open_interest min_oi
  a ← mul (hundredths 50) spread_component
  b ← mul (hundredths 25) depth_component
  c ← mul (hundredths 25) interest
  ab ← add a b
  score ← add ab c
  q_ratio score

-- `{q.symbol: q for q in qs}.get(symbol)`: the last quote of a symbol stays.
abbrev pub quote_by : String → Option ContractQuote → List ContractQuote → Option ContractQuote
quote_by symbol found [] = found
quote_by symbol found (q ∷ qs) =
    quote_by symbol (if str_eq q.symbol symbol then some q else found) qs

-- The delta and the vega of a leg, or the refusal to estimate.
abbrev pub greeks_of : Option ContractQuote → Result (Decimal × Decimal)
greeks_of none = err money_error
greeks_of (some q) = elim q.delta [
  | none ↦ err money_error
  | some d ↦ elim q.vega [ none ↦ err money_error | some v ↦ ok (d, v) ]
]

-- The loop over the legs, from the totals so far.
unfoldable pub greeks_from :
    List ContractQuote → Decimal → Decimal → List SpreadLeg → Result (Decimal × Decimal)
unfolding of_ℤ ◌*ℤ◌ mul add
greeks_from quotes net_delta net_vega [] = ok (net_delta, net_vega)
greeks_from quotes net_delta net_vega (leg ∷ legs) = do
  greeks ← greeks_of (quote_by leg.symbol none quotes)
  let signed = of_ℤ (sign leg.side *ℤ leg.ratio_qty)
  d ← mul signed greeks.0
  d' ← mul d contract_multiplier
  net_delta' ← add net_delta d'
  v ← mul signed greeks.1
  v' ← mul v contract_multiplier
  net_vega' ← add net_vega v'
  greeks_from quotes net_delta' net_vega' legs

unfoldable pub position_greeks : List SpreadLeg → List ContractQuote → Result (Decimal × Decimal)
unfolding greeks_from q_per_share
position_greeks legs quotes = do
  nets ← greeks_from quotes dec_zero dec_zero legs
  d ← q_per_share nets.0
  v ← q_per_share nets.1
  ok (d, v)
