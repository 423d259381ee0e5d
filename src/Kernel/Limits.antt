-- ===== src/Kernel/Limits.antt =====
-- backend/underwriter/kernel/limits.py
use the_underwriter.Base.{ℕ, ◌*◌}
use the_underwriter.Base.Int.{ℤ, pos}
use the_underwriter.Domain.Decimal.{Decimal, fin, of_ℕ}
use the_underwriter.Domain.Money.{cents, dec_one}

pub record KernelLimits : Type 0 where
  pub max_deployed_pct : Decimal
  pub max_position_loss_pct : Decimal
  pub max_open_policies : ℤ
  pub max_underlying_concentration : Decimal
  pub max_portfolio_risk_pct : Decimal
  pub max_net_delta_per_10k : Decimal
  pub max_vega_per_100k : Decimal
  pub soft_factor : Decimal
  pub max_daily_loss_pct : Decimal
  pub max_drawdown_pct : Decimal
  pub min_dte_at_entry : ℤ
  pub min_liquidity_score : Decimal
  pub max_bid_ask_pct : Decimal
  pub min_edge_ratio : Decimal
  pub blackout_open_min : ℤ
  pub blackout_close_min : ℤ
  pub max_data_age_sec : ℤ
  pub verdict_ttl_sec : ℕ
  pub calibration_multiplier : Decimal

-- n / 100
abbrev pub hundredths : ℕ → Decimal
hundredths n = fin (pos (n * cents))

abbrev pub default_limits : KernelLimits
default_limits = record {
  max_deployed_pct = hundredths 60;
  max_position_loss_pct = hundredths 3;
  max_open_policies = pos 8;
  max_underlying_concentration = hundredths 25;
  max_portfolio_risk_pct = hundredths 15;
  max_net_delta_per_10k = of_ℕ 15;
  max_vega_per_100k = of_ℕ 50;
  soft_factor = hundredths 50;
  max_daily_loss_pct = hundredths 3;
  max_drawdown_pct = hundredths 10;
  min_dte_at_entry = pos 7;
  min_liquidity_score = hundredths 55;
  max_bid_ask_pct = hundredths 15;
  min_edge_ratio = hundredths 5;
  blackout_open_min = pos 15;
  blackout_close_min = pos 30;
  max_data_age_sec = pos 120;
  verdict_ttl_sec = 45;
  calibration_multiplier = dec_one;
}
