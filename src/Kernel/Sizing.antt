-- ===== src/Kernel/Sizing.antt =====
-- The sizing of backend/underwriter/kernel/kernel.py: how many contracts each constraint permits.
pub mod Fits
use the_underwriter.Base.{if◌then◌else◌, Result, ok, ◌>>=◌}
use the_underwriter.Base.Int.{ℤ, pos, min_ℤ, max_ℤ}
use the_underwriter.Domain.Decimal.{Decimal, le, div, mul, sub, floor_int}
use the_underwriter.Domain.Money.{dec_zero, contract_multiplier}
use the_underwriter.Domain.Proposal.{UnderwritingProposal}
use the_underwriter.Kernel.Context.{
  KernelContext, portfolio_max_loss, reserve_for, total_reserve, total_assignment_cost,
}
use the_underwriter.Kernel.Limits.{KernelLimits}

pub record Sizing : Type 0 where
  pub by_position_risk : ℤ
  pub by_portfolio_room : ℤ
  pub by_concentration : ℤ
  pub by_deployed_capital : ℤ
  pub by_assignment_cost : ℤ

-- `Sizing.permitted`
unfoldable pub permitted : Sizing → ℤ
permitted s = max_ℤ (pos 0) (
    min_ℤ
      (min_ℤ (min_ℤ (min_ℤ s.by_position_risk s.by_portfolio_room) s.by_concentration)
        s.by_deployed_capital)
      s.by_assignment_cost)

-- `_floor_div`
unfoldable pub floor_div : Decimal → Decimal → Result ℤ
floor_div numerator denominator = do
  no_unit ← le denominator dec_zero
  if no_unit then ok (pos 0) else do
    no_room ← le numerator dec_zero
    if no_room then ok (pos 0) else do quotient ← div numerator denominator; floor_int quotient

unfoldable pub compute_sizing : UnderwritingProposal → KernelContext → KernelLimits → Result Sizing
compute_sizing p c l = do
  risk_room ← mul c.account.nav l.max_position_loss_pct
  by_position_risk ← floor_div risk_room p.max_loss
  risk_ceiling ← mul c.account.nav l.max_portfolio_risk_pct
  exposed ← portfolio_max_loss c
  portfolio_room ← sub risk_ceiling exposed
  by_portfolio_room ← floor_div portfolio_room p.max_loss
  deployable ← mul c.account.nav l.max_deployed_pct
  concentration_ceiling ← mul deployable l.max_underlying_concentration
  held ← reserve_for p.underlying c
  concentration_room ← sub concentration_ceiling held
  by_concentration ← floor_div concentration_room p.max_loss
  deployed ← total_reserve c
  deployed_room ← sub deployable deployed
  by_deployed_capital ← floor_div deployed_room p.max_loss
  committed ← total_assignment_cost c
  assignment_room ← sub c.account.buying_power committed
  lot_cost ← mul p.short_strike contract_multiplier
  by_assignment_cost ← floor_div assignment_room lot_cost
  ok (record {
    by_position_risk = by_position_risk;
    by_portfolio_room = by_portfolio_room;
    by_concentration = by_concentration;
    by_deployed_capital = by_deployed_capital;
    by_assignment_cost = by_assignment_cost;
  })
