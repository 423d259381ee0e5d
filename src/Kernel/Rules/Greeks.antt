-- ===== src/Kernel/Rules/Greeks.antt =====
-- The soft rules: exposure to direction and to volatility.
use the_underwriter.Base.{if◌then◌else◌, Result, ok, ◌>>=◌}
use the_underwriter.Domain.Decimal.{Decimal, of_ℕ, add, mul, div, lt, le, absolute}
use the_underwriter.Domain.Money.{dec_zero}
use the_underwriter.Domain.Proposal.{UnderwritingProposal}
use the_underwriter.Kernel.Context.{KernelContext}
use the_underwriter.Kernel.Limits.{KernelLimits}
use the_underwriter.Kernel.Verdict.{RuleResult, soft}
use the_underwriter.Kernel.Rules.Base.{result}

-- `nav / per if nav > ZERO else ZERO`
unfoldable pub nav_units : Decimal → Decimal → Result Decimal
unfolding lt div
nav_units nav per = do positive ← lt dec_zero nav; if positive then div nav per else ok dec_zero

unfoldable pub sk008_delta_limit :
    UnderwritingProposal → KernelContext → KernelLimits → Result RuleResult
sk008_delta_limit p c l = do
  units ← nav_units c.account.nav (of_ℕ 10_000)
  ceiling ← mul l.max_net_delta_per_10k units
  after ← add c.portfolio_net_delta p.net_delta
  within ← le (absolute after) ceiling
  ok (result "SK-008" "portfolio_delta_limit" within soft "DELTA_LIMIT")

unfoldable pub sk009_vega_limit :
    UnderwritingProposal → KernelContext → KernelLimits → Result RuleResult
sk009_vega_limit p c l = do
  units ← nav_units c.account.nav (of_ℕ 100_000)
  ceiling ← mul l.max_vega_per_100k units
  after ← add c.portfolio_net_vega p.net_vega
  within ← le (absolute after) ceiling
  ok (result "SK-009" "portfolio_vega_limit" within soft "VEGA_LIMIT")
