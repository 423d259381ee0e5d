-- ===== src/Kernel/Rules/Loss.antt =====
-- Loss control and the mode of the system.
use the_underwriter.Base.{Bool, true, false, ◌||◌, if◌then◌else◌, Result, ok, ◌>>=◌}
use the_underwriter.Domain.Decimal.{mul, le, negate}
use the_underwriter.Domain.Proposal.{UnderwritingProposal, is_close}
use the_underwriter.Kernel.Context.{
  KernelContext, drawdown_pct, SystemMode, active, manage_only, halt,
}
use the_underwriter.Kernel.Limits.{KernelLimits}
use the_underwriter.Kernel.Verdict.{RuleResult, hard}
use the_underwriter.Kernel.Rules.Base.{result}

unfoldable pub sk010_daily_loss_halt :
    UnderwritingProposal → KernelContext → KernelLimits → Result RuleResult
sk010_daily_loss_halt p c l = do
  allowed ← mul c.account.nav l.max_daily_loss_pct
  within ← le (negate allowed) c.account.daily_realized_pnl
  ok (result "SK-010" "daily_loss_halt" within hard "DAILY_LOSS_HALT")

unfoldable pub sk022_drawdown_halt :
    UnderwritingProposal → KernelContext → KernelLimits → Result RuleResult
sk022_drawdown_halt p c l = do
  dd ← drawdown_pct c.account
  within ← le dd l.max_drawdown_pct
  ok (result "SK-022" "drawdown_halt" within hard "DRAWDOWN_HALT")

abbrev pub is_active : SystemMode → Bool
is_active active = true
is_active manage_only = false
is_active halt = false

abbrev pub is_halt : SystemMode → Bool
is_halt halt = true
is_halt active = false
is_halt manage_only = false

unfoldable pub sk023_mode_gate :
    UnderwritingProposal → KernelContext → KernelLimits → Result RuleResult
sk023_mode_gate p c l =
    if c.kill_switch_engaged || is_halt c.mode
    then ok (
        result "SK-023" "mode_gate" false hard
          (if c.kill_switch_engaged then "KILL_SWITCH" else "MODE_BLOCKED"))
    else ok
        (result "SK-023" "mode_gate" (is_active c.mode || is_close p.action) hard "MODE_BLOCKED")
