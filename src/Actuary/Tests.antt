-- ===== src/Actuary/Tests.antt =====
-- A run of the Actuary: a snapshot of two puts and a call, which prices one spread.
use the_underwriter.Kernel.Context.{active}
use the_underwriter.Actuary.Insurable.{
  IsWhole, price_put_credit_spreads-IsWhole, price_put_credit_spreads-IsInsurable,
}
use the_underwriter.Actuary.Quality.{Agrees, IsInsurable}
use the_underwriter.Domain.Money.{cents}
use the_underwriter.Kernel.Limits.{hundredths, default_limits}
use the_underwriter.Base.Int.{negsuc, pos, ◌+ℤ◌, neg}
use the_underwriter.Actuary.Thresholds.{default_thresholds}
use the_underwriter.Kernel.Scenario.{constant_platform, context}
use the_underwriter.Domain.Decimal.{Decimal, fin, of_ℕ, half_even}
use the_underwriter.Actuary.Engine.{price_put_credit_spreads, ActuaryResult}
use the_underwriter.Domain.Market.{MarketSnapshot, OptionRight, ContractQuote, put, call}
use the_underwriter.Base.{
  String, ℕ, map, ◌*◌, ◌≡◌, ◌^◌, ok, none, ◌∷◌, [], true, ◌-◌, some, refl, All,
}

abbrev quoted : String → OptionRight → ℕ → ℕ → ℕ → Decimal → ContractQuote
quoted symbol right strike bid ask delta = record {
  symbol = symbol;
  underlying = "SPY";
  right = right;
  strike = of_ℕ strike;
  expiry = 15;
  bid = hundredths bid;
  ask = hundredths ask;
  bid_size = pos 20;
  ask_size = pos 20;
  fetched_at = 0;
  tradable = true;
  open_interest = some (pos 900);
  implied_volatility = some (hundredths 20);
  delta = some delta;
  vega = some (hundredths 10);
  source = "rest";
}

abbrev minus_hundredths : ℕ → Decimal
minus_hundredths n = fin (negsuc (n * cents - 1))

abbrev snapshot : MarketSnapshot
snapshot = record {
  as_of = 86400 * 10 ^ 6;
  underlying_prices = ("SPY", of_ℕ 510) ∷ [];
  quotes =
      quoted "SPY500P" put 500 160 162 (minus_hundredths 15)
      ∷ quoted "SPY520C" call 520 160 162 (hundredths 15)
      ∷ quoted "SPY495P" put 495 48 50 (minus_hundredths 10)
      ∷ [];
}

returned :
    (r : ActuaryResult) × (price_put_credit_spreads constant_platform default_thresholds none
        snapshot
      ≡ ok r)
unfolding price_put_credit_spreads ◌+ℤ◌ half_even neg
returned = (_, refl)

one_proposal : map (λ p. p.edge_ratio) returned.0.proposals ≡ fin (pos (89744 * 10 ^ 22)) ∷ []
unfolding returned
one_proposal = refl

agreement : Agrees default_thresholds default_limits
agreement = record { edge_eq = refl; liquidity_eq = refl; spread_eq = refl; dte_eq = refl }

price_put_credit_spreads-IsInsurable_example :
    All (λ p. IsInsurable p (context active) default_limits) returned.0.proposals
price_put_credit_spreads-IsInsurable_example =
    price_put_credit_spreads-IsInsurable constant_platform default_thresholds none snapshot
      returned.0 (context active) default_limits returned.1 agreement

price_put_credit_spreads-IsWhole_example : All IsWhole returned.0.proposals
price_put_credit_spreads-IsWhole_example =
    price_put_credit_spreads-IsWhole constant_platform default_thresholds none snapshot returned.0
      returned.1
