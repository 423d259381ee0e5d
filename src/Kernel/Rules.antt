-- ===== src/Kernel/Rules.antt =====
-- backend/underwriter/kernel/rules.py: the table of rules. Each rule is a function of the proposal,
-- the context and the limits; the children hold them by the sections of the file.
mod Base
mod Capital
mod Book
mod Structure
mod Greeks
mod Loss
mod Quality
unfoldable pub use Base.*
unfoldable pub use Capital.*
unfoldable pub use Book.*
unfoldable pub use Structure.*
unfoldable pub use Greeks.*
unfoldable pub use Loss.*
unfoldable pub use Quality.*
use the_underwriter.Base.{String, Option, some, List, [], ◌∷◌, Result, ok, ◌>>=◌}
use the_underwriter.Domain.Hashing.{Platform}
use the_underwriter.Domain.Proposal.{UnderwritingProposal}
use the_underwriter.Kernel.Context.{KernelContext}
use the_underwriter.Kernel.Limits.{KernelLimits}
use the_underwriter.Kernel.Verdict.{RuleResult, Severity, hard, soft}

-- What a function of the table may do: return a verdict, return something else (`none`), or raise.
abbrev pub Evaluator : Type 0
Evaluator = UnderwritingProposal → KernelContext → KernelLimits → Result (Option RuleResult)

pub record RuleSpec : Type 0 where
  pub rule_id : String
  pub name : String
  pub severity : Severity
  pub evaluate : Evaluator

abbrev Rule : Type 0
Rule = UnderwritingProposal → KernelContext → KernelLimits → Result RuleResult

-- The rules of this file return nothing but verdicts.
abbrev pub spec : String → String → Severity → Rule → RuleSpec
spec rule_id name severity rule = record {
  rule_id = rule_id;
  name = name;
  severity = severity;
  evaluate = λ p c l. rule p c l >>= λ r. ok (some r);
}

-- `RULES`
unfoldable pub table : Platform → List RuleSpec
table lib =
    spec "SK-000" "risk_reducing_exemption" hard sk000_risk_reducing
    ∷ spec "SK-001" "max_capital_deployed" hard sk001_max_deployed
    ∷ spec "SK-002" "fully_reserved" hard sk002_full_reserve
    ∷ spec "SK-003" "position_loss_limit" hard sk003_position_loss_limit
    ∷ spec "SK-004" "defined_risk_only" hard sk004_defined_risk
    ∷ spec "SK-005" "max_open_policies" hard sk005_max_positions
    ∷ spec "SK-006" "underlying_concentration" hard sk006_concentration
    ∷ spec "SK-007" "max_portfolio_risk" hard sk007_max_portfolio_risk
    ∷ spec "SK-008" "portfolio_delta_limit" soft sk008_delta_limit
    ∷ spec "SK-009" "portfolio_vega_limit" soft sk009_vega_limit
    ∷ spec "SK-010" "daily_loss_halt" hard sk010_daily_loss_halt
    ∷ spec "SK-011" "min_dte_at_entry" hard sk011_min_dte
    ∷ spec "SK-012" "assignment_cost" hard sk012_assignment_cost
    ∷ spec "SK-013" "short_strike_breach" hard sk013_breach_active
    ∷ spec "SK-014" "min_liquidity" hard sk014_liquidity
    ∷ spec "SK-015" "max_leg_spread" hard sk015_leg_spread
    ∷ spec "SK-016" "min_edge_ratio" hard sk016_edge
    ∷ spec "SK-017" "market_hours" hard sk017_market_hours
    ∷ spec "SK-018" "data_freshness" hard sk018_data_freshness
    ∷ spec "SK-019" "greeks_complete" hard sk019_greeks_complete
    ∷ spec "SK-021" "duplicate_prevention" hard (sk021_duplicate lib)
    ∷ spec "SK-022" "drawdown_halt" hard sk022_drawdown_halt
    ∷ spec "SK-023" "mode_gate" hard sk023_mode_gate
    ∷ spec "SK-024" "llm_output_integrity" hard sk024_llm_output_integrity
    ∷ spec "SK-025" "account_readable" hard sk025_account_readable
    ∷ []
