-- ===== src/Book/Rows.antt =====
-- The rows of db/models.py that the cycles write. A column that only the database fills
-- (`created_at`) is left out.
use the_underwriter.Actuary.Validation.{DiscardReason}
use the_underwriter.Agent.Decision.{DecisionAction}
use the_underwriter.Domain.Proposal.{UnderwritingProposal}
use the_underwriter.Domain.Hashing.{Entries}
use the_underwriter.Execution.Order.{Intent}
use the_underwriter.Base.Int.{ℤ}
use the_underwriter.Kernel.Verdict.{Severity, Decision}
use the_underwriter.Domain.Decimal.{Decimal}
use the_underwriter.Domain.Market.{Side, OptionRight, ContractQuote}
use the_underwriter.Execution.Engine.{
  ExecutionStatus, status_filled, status_partial, status_cancelled, status_rejected,
  status_timed_out, status_failed,
}
use the_underwriter.Base.{ℕ, String, Bool, Option, true, false, List}

pub data PolicyStatus : Type 0 where
  pending open_status closing_status settled failed_status leg_risk : PolicyStatus

-- `UW-2026-0007`: the year and the count.
pub record PolicyNumber : Type 0 where
  pub year : ℕ
  pub index : ℕ

pub record Policy : Type 0 where
  pub id : String
  pub policy_number : PolicyNumber
  pub correlation_id : String
  pub candidate_id : Option String
  pub kernel_decision_id : Option String
  pub underlying : String
  pub structure : String
  pub contracts : ℤ
  pub opening_credit : Option Decimal
  pub max_profit : Option Decimal
  pub max_loss : Option Decimal
  pub capital_reserve : Option Decimal
  pub expiration : Option ℕ
  pub status : PolicyStatus
  pub closed_at : Option ℕ
  pub closing_debit : Option Decimal
  pub realized_pnl : Option Decimal
  pub settlement_reason : Option String
  pub predicted_confidence : Option Decimal
  pub outcome_win : Option Bool

pub record PolicyLeg : Type 0 where
  pub policy_id : String
  pub option_symbol : String
  pub side : Side
  pub position_intent : Intent
  pub ratio_qty : ℤ
  pub strike : Option Decimal
  pub expiration : Option ℕ
  pub option_type : OptionRight
  pub open_delta : Option Decimal

pub data ReserveStatus : Type 0 where
  held released : ReserveStatus

pub record Reserve : Type 0 where
  pub policy_id : String
  pub amount : Decimal
  pub released_at : Option ℕ
  pub status : ReserveStatus

pub record Order : Type 0 where
  pub id : String
  pub policy_id : Option String
  pub alpaca_order_id : Option String
  pub client_order_id : String
  pub kernel_decision_id : String
  pub status : ExecutionStatus
  pub filled_qty : Option Decimal
  pub filled_avg_price : Option Decimal
  pub attempt : ℕ
  pub terminal : Bool

pub data EventSeverity : Type 0 where
  info warn critical : EventSeverity

pub record RiskEvent : Type 0 where
  pub id : String
  pub event_type : String
  pub severity : EventSeverity
  pub policy_id : Option String
  pub detail : Entries
  pub resolved_at : Option ℕ

pub record RiskCheck : Type 0 where
  pub kernel_decision_id : String
  pub rule_id : String
  pub rule_name : String
  pub passed : Bool
  pub severity : Severity

pub data ActionType : Type 0 where
  entry_action exit_action hedge_action : ActionType

pub record KernelDecision : Type 0 where
  pub id : String
  pub correlation_id : String
  pub candidate_id : Option String
  pub decision_id : Option String
  pub proposal_hash : String
  pub verdict : Decision
  pub approved_contracts : ℤ
  pub reject_reasons : List String
  pub nonce : String
  pub issued_at : ℕ
  pub expires_at : ℕ
  pub signature : Option String
  pub action_type : ActionType

-- `chain_json` is the list of the quotes that it copies.
pub record MarketSnapshotRow : Type 0 where
  pub id : String
  pub correlation_id : String
  pub underlying : String
  pub underlying_price : Option Decimal
  pub chain : List ContractQuote
  pub snapshot_hash : String
  pub source : String
  pub fetched_at : ℕ

-- A proposal, or a discard, whose columns of figures are empty.
pub record Candidate : Type 0 where
  pub id : String
  pub correlation_id : String
  pub snapshot_id : Option String
  pub figures : Option UnderwritingProposal
  pub accepted : Bool
  pub rejection_reason : Option DiscardReason
  pub proposal_hash : String

-- The telemetry of the model is left out.
pub record UnderwritingDecision : Type 0 where
  pub id : String
  pub correlation_id : String
  pub candidate_id : Option String
  pub action : DecisionAction
  pub confidence : Option Decimal
  pub requested_contracts : Option ℤ
  pub identified_risks : List String
  pub schema_valid : Bool
  pub retry_count : ℕ

-- The values of the columns.
abbrev pub severity_value : EventSeverity → String
severity_value info = "INFO"
severity_value warn = "WARN"
severity_value critical = "CRITICAL"

abbrev pub policy_status_value : PolicyStatus → String
policy_status_value pending = "PENDING"
policy_status_value open_status = "OPEN"
policy_status_value closing_status = "CLOSING"
policy_status_value settled = "SETTLED"
policy_status_value failed_status = "FAILED"
policy_status_value leg_risk = "LEG_RISK"

abbrev pub execution_status_value : ExecutionStatus → String
execution_status_value status_filled = "FILLED"
execution_status_value status_partial = "PARTIAL"
execution_status_value status_cancelled = "CANCELLED"
execution_status_value status_rejected = "REJECTED"
execution_status_value status_timed_out = "TIMED_OUT"
execution_status_value status_failed = "FAILED"

-- `status in OPEN_STATUSES`
abbrev pub is_open : PolicyStatus → Bool
is_open open_status = true
is_open closing_status = true
is_open pending = false
is_open settled = false
is_open failed_status = false
is_open leg_risk = false

-- `status == "HELD"`
abbrev pub is_held : ReserveStatus → Bool
is_held held = true
is_held released = false
