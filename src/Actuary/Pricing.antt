-- ===== src/Actuary/Pricing.antt =====
-- backend/underwriter/actuary/engine.py: the id of a candidate, and `_price_one`.
use the_underwriter.Base.Int.{pos}
use the_underwriter.Domain.Money.{q_ratio, dec_one}
use the_underwriter.Kernel.Rules.{join_text, take_text}
use the_underwriter.Domain.Proposal.{
  UnderwritingProposal, SpreadLeg, put_credit_spread, opening, structure_value,
}
use the_underwriter.Base.{
  String, List, Result, ℕ, ◌>>=◌, Option, err, ◌∷◌, ok, if◌then◌else◌, some, [], true, none,
}
use the_underwriter.Actuary.Thresholds.{ActuaryThresholds}
use the_underwriter.Actuary.Formulas.{
  spread_width, breakeven, net_credit, credit_to_width, max_profit, liquidity_score,
  loss_probability_proxy, max_loss, expected_value, edge_ratio, position_greeks,
}
use the_underwriter.Domain.Decimal.{Decimal, lt, sub, min_of, max_of}
use the_underwriter.Domain.Market.{Side, ContractQuote, put, sell, buy, dte, date_of, spread_pct}
use the_underwriter.Domain.Hashing.{sha256_of, Platform, mapping, entry, str, decimal, no_entry}
use the_underwriter.Actuary.Validation.{
  Discard, DiscardReason, discard, credit_to_width_low, actuary_math_error, missing_greeks,
  credit_to_width_high, insufficient_edge, illiquid,
}

pub data Priced : Type 0 where
  discarded : Discard → Priced
  proposed : UnderwritingProposal → Priced

unfoldable pub candidate_id_for : Platform → String → ℕ → Decimal → Decimal → String → Result String
unfolding sha256_of join_text take_text
candidate_id_for lib underlying expiry short_strike long_strike snapshot = do
  digest ← sha256_of lib (
      mapping (
        entry "underlying" (str underlying) (
          entry "structure" (str (structure_value put_credit_spread)) (
            entry "expiry" (str (lib.date_iso expiry)) (
              entry "short_strike" (decimal short_strike) (
                entry "long_strike" (decimal long_strike)
                  (entry "snapshot_hash" (str snapshot) no_entry)))))))
  ok (join_text "cand_" (take_text 16 digest))

abbrev pub spread_leg : Side → ContractQuote → SpreadLeg
spread_leg side q = record {
  symbol = q.symbol;
  right = put;
  side = side;
  strike = q.strike;
  expiry = q.expiry;
  ratio_qty = pos 1;
}

-- The two legs: the short one is sold, the long one is bought.
abbrev pub legs_of : ContractQuote → ContractQuote → List SpreadLeg
legs_of short_leg long_leg = spread_leg sell short_leg ∷ spread_leg buy long_leg ∷ []

-- What the block computes that may raise.
pub record Figures : Type 0 where
  pub credit : Decimal
  pub gross_profit : Decimal
  pub gross_loss : Decimal
  pub break_even : Decimal
  pub ctw : Decimal
  pub p_loss : Decimal
  pub ev : Decimal
  pub edge : Decimal
  pub liquidity : Decimal
  pub worst_leg_spread : Decimal
  pub net_delta : Decimal
  pub net_vega : Decimal

-- The money of a spread.
pub record Money : Type 0 where
  pub width : Decimal
  pub credit : Decimal
  pub gross_profit : Decimal
  pub gross_loss : Decimal

unfoldable pub money_of : ContractQuote → ContractQuote → Result Money
unfolding spread_width net_credit max_profit max_loss
money_of short_leg long_leg = do
  width ← spread_width short_leg.strike long_leg.strike
  credit ← net_credit short_leg.bid long_leg.ask
  gross_profit ← max_profit credit
  gross_loss ← max_loss width credit
  ok (record {
    width = width;
    credit = credit;
    gross_profit = gross_profit;
    gross_loss = gross_loss;
  })

-- The score of a quote, by the thresholds.
abbrev pub score : ActuaryThresholds → ContractQuote → Result Decimal
score t q = liquidity_score q t.max_bid_ask_pct t.min_depth_target t.min_oi_target

-- The chances of a spread.
pub record Odds : Type 0 where
  pub break_even : Decimal
  pub ctw : Decimal
  pub p_loss : Decimal
  pub ev : Decimal
  pub edge : Decimal

unfoldable pub odds_of : ContractQuote → Decimal → Money → Result Odds
unfolding breakeven credit_to_width loss_probability_proxy expected_value edge_ratio
odds_of short_leg short_delta m = do
  break_even ← breakeven short_leg.strike m.credit
  ctw ← credit_to_width m.credit m.width
  p_loss ← loss_probability_proxy short_delta
  ev ← expected_value p_loss m.gross_profit m.gross_loss
  edge ← edge_ratio ev m.gross_loss
  ok (record { break_even = break_even; ctw = ctw; p_loss = p_loss; ev = ev; edge = edge })

-- The score of the worse leg, and the spread of the wider one.
unfoldable pub worse_score : ActuaryThresholds → ContractQuote → ContractQuote → Result Decimal
unfolding liquidity_score min_of
worse_score t short_leg long_leg = do
  short_score ← score t short_leg
  long_score ← score t long_leg
  min_of short_score long_score

unfoldable pub worst_spread : ContractQuote → ContractQuote → Result Decimal
unfolding spread_pct max_of
worst_spread short_leg long_leg = do
  short_spread ← spread_pct short_leg
  long_spread ← spread_pct long_leg
  max_of short_spread long_spread

abbrev pub assembled : Money → Odds → Decimal → Decimal → Decimal × Decimal → Figures
assembled m o liquidity worst nets = record {
  credit = m.credit;
  gross_profit = m.gross_profit;
  gross_loss = m.gross_loss;
  break_even = o.break_even;
  ctw = o.ctw;
  p_loss = o.p_loss;
  ev = o.ev;
  edge = o.edge;
  liquidity = liquidity;
  worst_leg_spread = worst;
  net_delta = nets.0;
  net_vega = nets.1;
}

-- The block.
unfoldable pub figures :
    ContractQuote
    → ContractQuote
    → Decimal
    → List ContractQuote
    → ActuaryThresholds
    → Result Figures
unfolding money_of odds_of worse_score worst_spread position_greeks
figures short_leg long_leg short_delta quotes t = do
  m ← money_of short_leg long_leg
  o ← odds_of short_leg short_delta m
  liquidity ← worse_score t short_leg long_leg
  worst ← worst_spread short_leg long_leg
  nets ← position_greeks (legs_of short_leg long_leg) quotes
  ok (assembled m o liquidity worst nets)

-- The first threshold that the figures miss.
unfoldable pub missed : ActuaryThresholds → Figures → Result (Option DiscardReason)
unfolding lt
missed t f = do
  low ← lt f.ctw t.min_credit_to_width
  if low then ok (some credit_to_width_low) else (do
    high ← lt t.max_credit_to_width f.ctw
    if high then ok (some credit_to_width_high) else (do
      thin ← lt f.edge t.min_edge_ratio
      if thin then ok (some insufficient_edge) else (do
        dry ← lt f.liquidity t.min_liquidity_score
        if dry then ok (some illiquid) else ok none)))

-- What a snapshot tells a proposal.
pub record Origin : Type 0 where
  pub candidate_id : String
  pub as_of : ℕ
  pub hash : String

abbrev pub proposal_of :
    Origin → ContractQuote → ContractQuote → Decimal → Figures → Decimal → UnderwritingProposal
proposal_of o short_leg long_leg short_delta f p_profit = record {
  candidate_id = o.candidate_id;
  underlying = short_leg.underlying;
  structure = put_credit_spread;
  action = opening;
  legs = legs_of short_leg long_leg;
  short_strike = short_leg.strike;
  long_strike = long_leg.strike;
  expiry = short_leg.expiry;
  dte = dte short_leg (date_of o.as_of);
  net_credit = f.credit;
  max_profit = f.gross_profit;
  max_loss = f.gross_loss;
  capital_reserve = f.gross_loss;
  breakeven = f.break_even;
  credit_to_width = f.ctw;
  p_loss_proxy = f.p_loss;
  p_profit_proxy = p_profit;
  expected_value = f.ev;
  edge_ratio = f.edge;
  liquidity_score = f.liquidity;
  max_leg_spread_pct = f.worst_leg_spread;
  short_delta = short_delta;
  net_delta = f.net_delta;
  net_vega = f.net_vega;
  greeks_complete = true;
  snapshot_hash = o.hash;
  snapshot_as_of = o.as_of;
}

-- After the thresholds.
unfoldable pub propose :
    Origin
    → ContractQuote
    → ContractQuote
    → Decimal
    → Figures
    → Option DiscardReason
    → Result Priced
unfolding sub q_ratio
propose o short_leg long_leg short_delta f (some reason) =
    ok (discarded (discard o.candidate_id reason))
propose o short_leg long_leg short_delta f none = do
  rest ← sub dec_one f.p_loss
  p_profit ← q_ratio rest
  ok (proposed (proposal_of o short_leg long_leg short_delta f p_profit))

-- After the block: an exception in it discards the candidate.
unfoldable pub price_figures :
    Origin
    → ContractQuote
    → ContractQuote
    → Decimal
    → ActuaryThresholds
    → Result Figures
    → Result Priced
unfolding missed propose
price_figures o short_leg long_leg short_delta t (err e) =
    ok (discarded (discard o.candidate_id actuary_math_error))
price_figures o short_leg long_leg short_delta t (ok f) = do
  miss ← missed t f
  propose o short_leg long_leg short_delta f miss

-- `_price_one`
unfoldable pub price_one :
    Origin
    → ContractQuote
    → ContractQuote
    → List ContractQuote
    → ActuaryThresholds
    → Option Decimal
    → Result Priced
unfolding price_figures figures
price_one o short_leg long_leg quotes t none =
    ok (discarded (discard o.candidate_id missing_greeks))
price_one o short_leg long_leg quotes t (some short_delta) =
    price_figures o short_leg long_leg short_delta t
      (figures short_leg long_leg short_delta quotes t)
