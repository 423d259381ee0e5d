-- ===== src/Kernel/Scenario.antt =====
-- A run of the Kernel on concrete values: a book of one policy, a spread of 500/495 at a credit of
-- one dollar, and an account of 100,000.
-- The constant platform: one text for every object, so that the tests meet its collisions too.
use the_underwriter.Kernel.Limits.{hundredths}
use the_underwriter.Base.Int.{pos}
use the_underwriter.Domain.Decimal.{of_ℕ}
use the_underwriter.Domain.Market.{Side, sell, put, buy}
use the_underwriter.Kernel.Context.{OpenPolicy, SystemMode, KernelContext}
use the_underwriter.Domain.Proposal.{Action, UnderwritingProposal, put_credit_spread, SpreadLeg}
use the_underwriter.Base.{String, ℕ, ◌∷◌, true, false, []}
use the_underwriter.Kernel.Verdict.{Tokens}
use the_underwriter.Domain.Hashing.{Platform}

abbrev pub constant_platform : Platform
constant_platform = record {
  json_dumps = λ _. "{}";
  sha256_hex = λ _. "9f86";
  hmac_hex = λ _ _. "60b7";
  decimal_str = λ _. "0";
  datetime_iso = λ _. "2026-03-02T15:00:00Z";
  date_iso = λ _. "2026-03-27";
}

abbrev pub tokens : Tokens
tokens = record { nonce = "n1"; verdict_id = "vd_1" }

abbrev leg : String → Side → ℕ → SpreadLeg
leg symbol side strike = record {
  symbol = symbol;
  right = put;
  side = side;
  strike = of_ℕ strike;
  expiry = 739700;
  ratio_qty = pos 1;
}

abbrev pub proposal : Action → UnderwritingProposal
proposal action = record {
  candidate_id = "c1";
  underlying = "SPY";
  structure = put_credit_spread;
  action = action;
  legs = leg "SPY500P" sell 500 ∷ leg "SPY495P" buy 495 ∷ [];
  short_strike = of_ℕ 500;
  long_strike = of_ℕ 495;
  expiry = 739700;
  dte = pos 25;
  net_credit = of_ℕ 1;
  max_profit = of_ℕ 100;
  max_loss = of_ℕ 400;
  capital_reserve = of_ℕ 400;
  breakeven = of_ℕ 499;
  credit_to_width = hundredths 20;
  p_loss_proxy = hundredths 10;
  p_profit_proxy = hundredths 90;
  expected_value = of_ℕ 50;
  edge_ratio = hundredths 12;
  liquidity_score = hundredths 80;
  max_leg_spread_pct = hundredths 5;
  short_delta = hundredths 10;
  net_delta = hundredths 5;
  net_vega = hundredths 5;
  greeks_complete = true;
  snapshot_hash = "snap";
  snapshot_as_of = 1000000;
}

abbrev pub open_policy : OpenPolicy
open_policy = record {
  policy_id = "p1";
  underlying = "QQQ";
  structure = put_credit_spread;
  short_strike = of_ℕ 100;
  long_strike = of_ℕ 95;
  expiry = 739700;
  contracts = pos 1;
  max_loss = of_ℕ 400;
  reserve = of_ℕ 400;
}

abbrev pub context : SystemMode → KernelContext
context mode = record {
  now = 2000000;
  account = record {
    nav = of_ℕ 100000;
    equity = of_ℕ 100000;
    buying_power = of_ℕ 100000;
    peak_equity = of_ℕ 100000;
    daily_realized_pnl = of_ℕ 0;
    as_of = 2000000;
    read_ok = true;
  };
  data_as_of = 1000000;
  mode = mode;
  kill_switch_engaged = false;
  market_open = true;
  minutes_since_open = pos 60;
  minutes_to_close = pos 120;
  open_policies = open_policy ∷ [];
  portfolio_net_delta = of_ℕ 0;
  portfolio_net_vega = of_ℕ 0;
  supplied_candidate_ids = "c1" ∷ [];
  breached_underlyings = [];
  existing_client_order_ids = [];
}
