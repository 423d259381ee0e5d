-- ===== src/Kernel/Context.antt =====
-- backend/underwriter/kernel/context.py: the state that a verdict depends on beside the proposal.
use the_underwriter.Base.{
  ℕ, ◌*◌, ◌^◌, String, Bool, if◌then◌else◌, List, [], ◌∷◌, map, select, str_eq, Result, ok, ◌>>=◌,
}
use the_underwriter.Base.Int.{ℤ, pos, ◌-ℤ◌}
use the_underwriter.Domain.Decimal.{
  Decimal, fin, of_ℤ, add, sub, mul, div, le, sum, is_neg, magnitude, with_sign,
}
use the_underwriter.Domain.Money.{dec_zero, contract_multiplier}
use the_underwriter.Domain.Proposal.{Structure}

pub data SystemMode : Type 0 where
  active manage_only halt : SystemMode

pub record OpenPolicy : Type 0 where
  pub policy_id : String
  pub underlying : String
  pub structure : Structure
  pub short_strike : Decimal
  pub long_strike : Decimal
  pub expiry : ℕ
  pub contracts : ℤ
  pub max_loss : Decimal
  pub reserve : Decimal

unfoldable pub assignment_cost : OpenPolicy → Result Decimal
unfolding mul of_ℤ
assignment_cost p = do
  one_lot ← mul p.short_strike contract_multiplier
  mul one_lot (of_ℤ p.contracts)

pub record AccountState : Type 0 where
  pub nav : Decimal
  pub equity : Decimal
  pub buying_power : Decimal
  pub peak_equity : Decimal
  pub daily_realized_pnl : Decimal
  pub as_of : ℕ
  pub read_ok : Bool

unfoldable pub drawdown_pct : AccountState → Result Decimal
unfolding le sub div
drawdown_pct a = do
  unusable ← le a.peak_equity dec_zero
  if unusable then ok dec_zero else do lost ← sub a.peak_equity a.equity; div lost a.peak_equity

pub record KernelContext : Type 0 where
  pub now : ℕ
  pub account : AccountState
  pub data_as_of : ℕ
  pub mode : SystemMode
  pub kill_switch_engaged : Bool
  pub market_open : Bool
  pub minutes_since_open : ℤ
  pub minutes_to_close : ℤ
  pub open_policies : List OpenPolicy
  pub portfolio_net_delta : Decimal
  pub portfolio_net_vega : Decimal
  pub supplied_candidate_ids : List String
  pub breached_underlyings : List String
  pub existing_client_order_ids : List String

abbrev pub reserves : List OpenPolicy → List Decimal
reserves = map (λ p. p.reserve)

unfoldable pub total_reserve : KernelContext → Result Decimal
unfolding sum
total_reserve c = sum (reserves c.open_policies)

unfoldable pub portfolio_max_loss : KernelContext → Result Decimal
unfolding sum
portfolio_max_loss c = sum (map (λ p. p.max_loss) c.open_policies)

-- The loop of `total_assignment_cost`.
unfoldable pub cost_from : Decimal → List OpenPolicy → Result Decimal
unfolding add assignment_cost
cost_from acc [] = ok acc
cost_from acc (p ∷ ps) = do cost ← assignment_cost p; acc' ← add acc cost; cost_from acc' ps

unfoldable pub total_assignment_cost : KernelContext → Result Decimal
unfolding cost_from
total_assignment_cost c = cost_from dec_zero c.open_policies

unfoldable pub reserve_for : String → KernelContext → Result Decimal
unfolding sum
reserve_for underlying c =
    sum (reserves (select (λ p. str_eq p.underlying underlying) c.open_policies))

-- `(now - data_as_of).total_seconds()`: a microsecond is 10^22 units.
unfoldable pub data_age_sec : KernelContext → Decimal
unfolding ◌-ℤ◌
data_age_sec c =
    let micros = pos c.now -ℤ pos c.data_as_of in
    fin (with_sign (is_neg micros) (magnitude micros * 10 ^ 22))
