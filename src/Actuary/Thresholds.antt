-- ===== src/Actuary/Thresholds.antt =====
-- backend/underwriter/actuary/thresholds.py
use the_underwriter.Base.Int.{ℤ, pos}
use the_underwriter.Kernel.Limits.{hundredths}
use the_underwriter.Domain.Decimal.{Decimal, of_ℕ}

pub record ActuaryThresholds : Type 0 where
  pub min_credit_to_width : Decimal
  pub max_credit_to_width : Decimal
  pub min_edge_ratio : Decimal
  pub min_liquidity_score : Decimal
  pub max_bid_ask_pct : Decimal
  pub short_delta_min : Decimal
  pub short_delta_max : Decimal
  pub dte_min : ℤ
  pub dte_max : ℤ
  pub width_min : Decimal
  pub width_max : Decimal
  pub min_depth_target : Decimal
  pub min_oi_target : Decimal
  pub iv_min : Decimal
  pub iv_max : Decimal

abbrev pub default_thresholds : ActuaryThresholds
default_thresholds = record {
  min_credit_to_width = hundredths 20;
  max_credit_to_width = hundredths 45;
  min_edge_ratio = hundredths 5;
  min_liquidity_score = hundredths 55;
  max_bid_ask_pct = hundredths 15;
  short_delta_min = hundredths 12;
  short_delta_max = hundredths 28;
  dte_min = pos 7;
  dte_max = pos 21;
  width_min = of_ℕ 1;
  width_max = of_ℕ 5;
  min_depth_target = of_ℕ 10;
  min_oi_target = of_ℕ 500;
  iv_min = of_ℕ 0;
  iv_max = of_ℕ 5;
}
