-- ===== src/Kernel/Solvency/Facts.antt =====
-- What each rule that did not fail says: one lemma for each rule.
use the_underwriter.Base.{
  ◌+◌, ◌<◌, ◌≡◌, refl, Bool, true, false, ◌||◌, length, contains, any, some, Result, ok, err, ◌>>=◌,
  arith,
}
use the_underwriter.Base.Int.{pos, ◌≤ℤ◌}
use the_underwriter.Domain.Decimal.{Decimal, add, mul, le, eq, negate, of_ℤ}
use the_underwriter.Domain.Money.{contract_multiplier}
use the_underwriter.Domain.Hashing.{Platform}
use the_underwriter.Domain.Proposal.{UnderwritingProposal, is_close}
use the_underwriter.Kernel.Context.{
  KernelContext, total_reserve, portfolio_max_loss, reserve_for, total_assignment_cost,
  drawdown_pct, data_age_sec,
}
use the_underwriter.Kernel.Limits.{KernelLimits}
use the_underwriter.Kernel.Verdict.{RuleResult, is_hard_failure}
use the_underwriter.Kernel.Rules.{
  RuleSpec, is_active, is_halt, identical, all_covered, short_legs, long_legs, finite_loss,
  sk001_max_deployed, sk002_full_reserve, sk003_position_loss_limit, sk004_defined_risk,
  sk005_max_positions, sk006_concentration, sk007_max_portfolio_risk, sk010_daily_loss_halt,
  sk012_assignment_cost, sk017_market_hours, sk018_data_freshness, sk019_greeks_complete,
  sk021_duplicate, sk022_drawdown_halt, sk023_mode_gate, sk024_llm_output_integrity,
  sk025_account_readable,
}
use the_underwriter.Kernel.Evaluate.{finding}

-- `x ≤ y`, where the two are computed first: an error of either is passed on.
abbrev pub at_most : Result Decimal → Result Decimal → Result Bool
at_most x y = x >>= λ a. y >>= λ b. le a b

-- A rule that is in its guard and is no hard failure has returned, and its own verdict is none.
pub Passes : Result RuleResult → Type 0
Passes x = (r : RuleResult) × (x ≡ ok r) × (is_hard_failure r ≡ false)

pub finding-Passes :
    (s : RuleSpec) (x : Result RuleResult)
    → is_hard_failure (finding s (x >>= λ r. ok (some r))) ≡ false
    → Passes x
unfolding finding Passes
finding-Passes s (ok r) h = (r, refl, h)
finding-Passes s (err e) h = cc

module _ (p : UnderwritingProposal) (c : KernelContext) (l : KernelLimits) where
  pub sk001-Passes :
      is_close p.action ≡ false
      → Passes (sk001_max_deployed p c l)
      → at_most
          (total_reserve c >>= λ d. add d p.capital_reserve)
          (mul c.account.nav l.max_deployed_pct)
        ≡ ok true
  unfolding Passes sk001_max_deployed
  sk001-Passes o (r, e, h) = ground arith

  pub sk002-Passes :
      is_close p.action ≡ false
      → Passes (sk002_full_reserve p c l)
      → eq p.capital_reserve p.max_loss ≡ true
  unfolding Passes sk002_full_reserve
  sk002-Passes o (r, e, h) = ground arith

  pub sk003-Passes :
      is_close p.action ≡ false
      → Passes (sk003_position_loss_limit p c l)
      → at_most (ok p.max_loss) (mul c.account.nav l.max_position_loss_pct) ≡ ok true
  unfolding Passes sk003_position_loss_limit
  sk003-Passes o (r, e, h) = ground arith

  pub sk006-Passes :
      is_close p.action ≡ false
      → Passes (sk006_concentration p c l)
      → at_most
          (reserve_for p.underlying c >>= λ held. add held p.capital_reserve)
          (mul c.account.nav l.max_deployed_pct >>= λ base. mul base l.max_underlying_concentration)
        ≡ ok true
  unfolding Passes sk006_concentration
  sk006-Passes o (r, e, h) = ground arith

  pub sk007-Passes :
      is_close p.action ≡ false
      → Passes (sk007_max_portfolio_risk p c l)
      → at_most
          (portfolio_max_loss c >>= λ exposed. add exposed p.max_loss)
          (mul c.account.nav l.max_portfolio_risk_pct)
        ≡ ok true
  unfolding Passes sk007_max_portfolio_risk
  sk007-Passes o (r, e, h) = ground arith

  pub sk012-Passes :
      is_close p.action ≡ false
      → Passes (sk012_assignment_cost p c l)
      → at_most
          (mul p.short_strike contract_multiplier >>= λ cost.
            total_assignment_cost c >>= λ others. add others cost)
          (ok c.account.buying_power)
        ≡ ok true
  unfolding Passes sk012_assignment_cost
  sk012-Passes o (r, e, h) = ground arith

  pub sk004-Passes :
      Passes (sk004_defined_risk p c l)
      → (all_covered (short_legs p) (long_legs p) ≡ ok true)
        × (finite_loss p.max_loss ≡ ok true)
        × (0 < length (short_legs p))
  unfolding Passes sk004_defined_risk
  sk004-Passes (r, e, h) = (ground arith, ground arith, ground arith)

  pub sk005-Passes :
      is_close p.action ≡ false
      → Passes (sk005_max_positions p c l)
      → pos (length c.open_policies + 1) ≤ℤ l.max_open_policies
  unfolding Passes sk005_max_positions
  sk005-Passes o (r, e, h) = ground arith

  pub sk010-Passes :
      Passes (sk010_daily_loss_halt p c l)
      → at_most
          (mul c.account.nav l.max_daily_loss_pct >>= λ allowed. ok (negate allowed))
          (ok c.account.daily_realized_pnl)
        ≡ ok true
  unfolding Passes sk010_daily_loss_halt
  sk010-Passes (r, e, h) = ground arith

  pub sk017-Passes : Passes (sk017_market_hours p c l) → c.market_open ≡ true
  unfolding Passes sk017_market_hours
  sk017-Passes (r, e, h) = ground arith

  pub sk018-Passes :
      Passes (sk018_data_freshness p c l) → le (data_age_sec c) (of_ℤ l.max_data_age_sec) ≡ ok true
  unfolding Passes sk018_data_freshness
  sk018-Passes (r, e, h) = ground arith

  pub sk019-Passes : Passes (sk019_greeks_complete p c l) → p.greeks_complete ≡ true
  unfolding Passes sk019_greeks_complete
  sk019-Passes (r, e, h) = ground arith

  pub sk021-Passes :
      (lib : Platform)
      → Passes (sk021_duplicate lib p c l)
      → any (identical p) c.open_policies ≡ false
  unfolding Passes sk021_duplicate
  sk021-Passes lib (r, e, h) = ground arith

  pub sk022-Passes :
      Passes (sk022_drawdown_halt p c l)
      → at_most (drawdown_pct c.account) (ok l.max_drawdown_pct) ≡ ok true
  unfolding Passes sk022_drawdown_halt
  sk022-Passes (r, e, h) = ground arith

  pub sk023-Passes :
      Passes (sk023_mode_gate p c l)
      → (c.kill_switch_engaged ≡ false)
        × (is_halt c.mode ≡ false)
        × ((is_active c.mode || is_close p.action) ≡ true)
  unfolding Passes sk023_mode_gate
  sk023-Passes (r, e, h) = (ground arith, ground arith, ground arith)

  pub sk024-Passes :
      Passes (sk024_llm_output_integrity p c l)
      → contains p.candidate_id c.supplied_candidate_ids ≡ true
  unfolding Passes sk024_llm_output_integrity
  sk024-Passes (r, e, h) = ground arith

  pub sk025-Passes : Passes (sk025_account_readable p c l) → c.account.read_ok ≡ true
  unfolding Passes sk025_account_readable
  sk025-Passes (r, e, h) = ground arith
