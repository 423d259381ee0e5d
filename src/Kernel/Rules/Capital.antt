-- ===== src/Kernel/Rules/Capital.antt =====
-- The capital rules, which a close skips.
use the_underwriter.Base.{if◌then◌else◌, Result, ok, ◌>>=◌}
use the_underwriter.Domain.Decimal.{add, mul, le, eq}
use the_underwriter.Domain.Proposal.{UnderwritingProposal, is_close}
use the_underwriter.Kernel.Context.{KernelContext, total_reserve, portfolio_max_loss}
use the_underwriter.Kernel.Limits.{KernelLimits}
use the_underwriter.Kernel.Verdict.{RuleResult, hard}
use the_underwriter.Kernel.Rules.Base.{result, exempt}

unfoldable pub sk001_max_deployed :
    UnderwritingProposal → KernelContext → KernelLimits → Result RuleResult
sk001_max_deployed p c l =
    if is_close p.action then ok (exempt "SK-001" "max_capital_deployed") else do
      ceiling ← mul c.account.nav l.max_deployed_pct
      deployed ← total_reserve c
      after ← add deployed p.capital_reserve
      within ← le after ceiling
      ok (result "SK-001" "max_capital_deployed" within hard "MAX_DEPLOYED")

unfoldable pub sk002_full_reserve :
    UnderwritingProposal → KernelContext → KernelLimits → Result RuleResult
sk002_full_reserve p c l =
    if is_close p.action
    then ok (exempt "SK-002" "fully_reserved")
    else ok
        (result "SK-002" "fully_reserved" (eq p.capital_reserve p.max_loss) hard "UNDER_RESERVED")

unfoldable pub sk003_position_loss_limit :
    UnderwritingProposal → KernelContext → KernelLimits → Result RuleResult
sk003_position_loss_limit p c l =
    if is_close p.action then ok (exempt "SK-003" "position_loss_limit") else do
      ceiling ← mul c.account.nav l.max_position_loss_pct
      within ← le p.max_loss ceiling
      ok (result "SK-003" "position_loss_limit" within hard "POSITION_LOSS_LIMIT")

unfoldable pub sk007_max_portfolio_risk :
    UnderwritingProposal → KernelContext → KernelLimits → Result RuleResult
sk007_max_portfolio_risk p c l =
    if is_close p.action then ok (exempt "SK-007" "max_portfolio_risk") else do
      ceiling ← mul c.account.nav l.max_portfolio_risk_pct
      exposed ← portfolio_max_loss c
      after ← add exposed p.max_loss
      within ← le after ceiling
      ok (result "SK-007" "max_portfolio_risk" within hard "MAX_PORTFOLIO_RISK")
