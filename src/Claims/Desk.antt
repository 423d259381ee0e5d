-- ===== src/Claims/Desk.antt =====
-- The positions, the policy of exits, and `evaluate`. The text `detail` is left out.
use the_underwriter.Domain.Money.{dec_one, dec_zero, contract_multiplier}
use the_underwriter.Kernel.Limits.{hundredths}
use the_underwriter.Domain.Decimal.{sub, Decimal, le, mul, of_ℕ, lt, div, of_ℤ}
use the_underwriter.Base.Int.{◌-ℤ◌, ℤ, pos, leb_ℤ}
use the_underwriter.Base.{
  ◌>>=◌, String, Result, Bool, ℕ, Option, true, false, if◌then◌else◌, some, none, ok,
}

pub data ExitReason : Type 0 where
  force_flat stop_loss breach profit_target : ExitReason

pub record ManagedPosition : Type 0 where
  pub policy_id : String
  pub policy_number : String
  pub underlying : String
  pub contracts : ℤ
  pub opening_credit : Decimal
  pub max_loss : Decimal
  pub short_strike : Decimal
  pub long_strike : Decimal
  pub expiry : ℕ
  pub cost_to_close : Option Decimal
  pub underlying_price : Option Decimal

-- `ManagedPosition.dte`
unfoldable pub days_left : ManagedPosition → ℕ → ℤ
unfolding ◌-ℤ◌
days_left p as_of = pos p.expiry -ℤ pos as_of

unfoldable pub is_breached : ManagedPosition → Result Bool
is_breached p = elim p.underlying_price [ none ↦ ok false | some price ↦ le price p.short_strike ]

-- `(a - b) * CONTRACT_MULTIPLIER * Decimal(contracts)`
unfoldable pub realized_pnl : Decimal → Decimal → ℤ → Result Decimal
unfolding sub mul of_ℤ
realized_pnl opening_credit closing_debit contracts = do
  kept ← sub opening_credit closing_debit
  one ← mul kept contract_multiplier
  mul one (of_ℤ contracts)

unfoldable pub unrealized_pnl : ManagedPosition → Result (Option Decimal)
unfolding realized_pnl
unrealized_pnl p = elim p.cost_to_close [
  | none ↦ ok none
  | some cost ↦ do pnl ← realized_pnl p.opening_credit cost p.contracts; ok (some pnl)
]

pub record ClaimsVerdict : Type 0 where
  pub policy_id : String
  pub should_close : Bool
  pub reason : Option ExitReason
  pub target_debit : Option Decimal
  pub escalate : Bool

pub record ClaimsPolicy : Type 0 where
  pub profit_target_pct : Decimal
  pub stop_loss_multiple : Decimal
  pub force_flat_dte : ℤ

abbrev pub default_claims_policy : ClaimsPolicy
default_claims_policy = record {
  profit_target_pct = hundredths 50;
  stop_loss_multiple = of_ℕ 2;
  force_flat_dte = pos 2;
}

abbrev pub close_for : ManagedPosition → ExitReason → Decimal → Bool → ClaimsVerdict
close_for p reason debit escalate = record {
  policy_id = p.policy_id;
  should_close = true;
  reason = some reason;
  target_debit = some debit;
  escalate = escalate;
}

abbrev pub hold_for : ManagedPosition → Bool → ClaimsVerdict
hold_for p escalate = record {
  policy_id = p.policy_id;
  should_close = false;
  reason = none;
  target_debit = none;
  escalate = escalate;
}

unfoldable pub stop_level : ManagedPosition → ClaimsPolicy → Result Decimal
stop_level p policy = mul policy.stop_loss_multiple p.opening_credit

unfoldable pub target_level : ManagedPosition → ClaimsPolicy → Result Decimal
target_level p policy = do left ← sub dec_one policy.profit_target_pct; mul left p.opening_credit

-- The debit of a forced exit: the width where the spread cannot be priced.
unfoldable pub forced_debit : ManagedPosition → Result Decimal
forced_debit p = elim p.cost_to_close [
  | none ↦ sub p.short_strike p.long_strike
  | some cost ↦ ok cost
]

-- What `evaluate` does where there is a price.
unfoldable pub evaluate_priced : ManagedPosition → ClaimsPolicy → Decimal → Result ClaimsVerdict
unfolding stop_level target_level is_breached le lt
evaluate_priced p policy cost = do
  stop ← stop_level p policy
  target ← target_level p policy
  stopped ← le stop cost
  if stopped then ok (close_for p stop_loss cost false) else do
    breached ← is_breached p
    early ← if breached then lt target cost else ok false
    if early then ok (close_for p breach cost true) else do
      reached ← le cost target
      ok (if reached then close_for p profit_target cost false else hold_for p false)

unfoldable pub evaluate : ManagedPosition → ℕ → ClaimsPolicy → Result ClaimsVerdict
unfolding days_left forced_debit evaluate_priced
evaluate p as_of policy =
    if leb_ℤ (days_left p as_of) policy.force_flat_dte
    then (do debit ← forced_debit p; ok (close_for p force_flat debit false))
    else elim p.cost_to_close [
      | none ↦ ok (hold_for p true)
      | some cost ↦ evaluate_priced p policy cost
    ]

-- `None` where no premium was written.
unfoldable pub loss_ratio : Decimal → Decimal → Result (Option Decimal)
unfolding le div
loss_ratio claims_paid premiums_written = do
  unwritten ← le premiums_written dec_zero
  if unwritten then ok none else do ratio ← div claims_paid premiums_written; ok (some ratio)
