-- ===== src/Kernel/Solvency.antt =====
-- What holds of the account, the book and the proposal when the Kernel approves: the rules of
-- backend/underwriter/kernel/rules.py, read as statements about the state.
mod Facts
use the_underwriter.Base.{
  ℕ, ◌<◌, ◌≡◌, String, Bool, true, false, ◌||◌, length, contains, any, refl, Result, ok, ◌>>=◌,
  All-get_elem?, ◌+◌, get_elem?, some,
}
use the_underwriter.Base.Int.{ℤ, ◌≤ℤ◌, pos}
use the_underwriter.Domain.Decimal.{Decimal, add, mul, le, eq, negate, of_ℤ}
use the_underwriter.Domain.Money.{contract_multiplier}
use the_underwriter.Domain.Hashing.{Platform}
use the_underwriter.Domain.Proposal.{UnderwritingProposal, is_close}
use the_underwriter.Kernel.Context.{
  KernelContext, total_reserve, portfolio_max_loss, reserve_for, total_assignment_cost,
  drawdown_pct, data_age_sec,
}
use the_underwriter.Kernel.Limits.{KernelLimits}
use the_underwriter.Kernel.Verdict.{Tokens, approved, is_hard_failure, RuleResult}
use the_underwriter.Kernel.Rules.{
  table, is_active, is_halt, identical, all_covered, short_legs, long_legs, finite_loss, RuleSpec,
  sk004_defined_risk, sk001_max_deployed, sk023_mode_gate, sk002_full_reserve,
  sk010_daily_loss_halt, sk003_position_loss_limit, sk022_drawdown_halt, sk007_max_portfolio_risk,
  sk017_market_hours, sk006_concentration, sk018_data_freshness, sk012_assignment_cost,
  sk019_greeks_complete, sk005_max_positions, sk021_duplicate, sk024_llm_output_integrity,
  sk025_account_readable,
}
use the_underwriter.Kernel.Evaluate.{guarded, finding, evaluate}
use the_underwriter.Kernel.Evaluate.Approval.{evaluate-ran, evaluate_with-approve, approve_of}
use Facts.{
  at_most, Passes, finding-Passes, sk001-Passes, sk002-Passes, sk003-Passes, sk004-Passes,
  sk005-Passes, sk006-Passes, sk007-Passes, sk010-Passes, sk012-Passes, sk017-Passes, sk018-Passes,
  sk019-Passes, sk021-Passes, sk022-Passes, sk023-Passes, sk024-Passes, sk025-Passes,
}

-- The capital that an entry may commit, at one contract.
pub record WithinCapital (p : UnderwritingProposal) (c : KernelContext) (l : KernelLimits)
    : Type 0 where
  pub deployed :
      at_most
        (total_reserve c >>= λ d. add d p.capital_reserve)
        (mul c.account.nav l.max_deployed_pct)
      ≡ ok true
  pub reserved : eq p.capital_reserve p.max_loss ≡ true
  pub position : at_most (ok p.max_loss) (mul c.account.nav l.max_position_loss_pct) ≡ ok true
  pub portfolio :
      at_most
        (portfolio_max_loss c >>= λ exposed. add exposed p.max_loss)
        (mul c.account.nav l.max_portfolio_risk_pct)
      ≡ ok true
  pub concentration :
      at_most
        (reserve_for p.underlying c >>= λ held. add held p.capital_reserve)
        (mul c.account.nav l.max_deployed_pct >>= λ base. mul base l.max_underlying_concentration)
      ≡ ok true
  pub assignment :
      at_most
        (mul p.short_strike contract_multiplier >>= λ cost.
          total_assignment_cost c >>= λ others. add others cost)
        (ok c.account.buying_power)
      ≡ ok true
  pub policies : pos (length c.open_policies + 1) ≤ℤ l.max_open_policies

-- What every action needs, a close included.
pub record IsSafe (p : UnderwritingProposal) (c : KernelContext) (l : KernelLimits) : Type 0 where
  pub covered : all_covered (short_legs p) (long_legs p) ≡ ok true
  pub finite : finite_loss p.max_loss ≡ ok true
  pub short : 0 < length (short_legs p)
  pub daily_loss :
      at_most
        (mul c.account.nav l.max_daily_loss_pct >>= λ allowed. ok (negate allowed))
        (ok c.account.daily_realized_pnl)
      ≡ ok true
  pub drawdown : at_most (drawdown_pct c.account) (ok l.max_drawdown_pct) ≡ ok true
  pub market : c.market_open ≡ true
  pub fresh : le (data_age_sec c) (of_ℤ l.max_data_age_sec) ≡ ok true
  pub greeks : p.greeks_complete ≡ true
  pub no_duplicate : any (identical p) c.open_policies ≡ false
  pub armed : c.kill_switch_engaged ≡ false
  pub running : is_halt c.mode ≡ false
  pub permitted_mode : (is_active c.mode || is_close p.action) ≡ true
  pub supplied : contains p.candidate_id c.supplied_candidate_ids ≡ true
  pub readable : c.account.read_ok ≡ true

module _ (lib : Platform) (tokens : Tokens) (p : UnderwritingProposal) (requested : ℤ)
    (c : KernelContext) (secret : String) (l : KernelLimits)
    (yes_given : approved (evaluate lib tokens p requested c secret l) ≡ true) where
  -- The rule at a place of the table.
  at_rule :
      (i : ℕ) (s : RuleSpec) (x : Result RuleResult)
      → get_elem? (table lib) i ≡ some s
      → s.evaluate p c l ≡ (x >>= λ r. ok (some r))
      → Passes x
  unfolding guarded
  at_rule i s x e same =
      let h : is_hard_failure (guarded p c l s) ≡ false =
        All-get_elem? (λ s. is_hard_failure (guarded p c l s) ≡ false) (table lib) i s e
          (evaluate_with-approve (table lib) lib tokens p requested c secret l
            (evaluate lib tokens p requested c secret l)
            (evaluate-ran lib tokens p requested c secret l yes_given)
            (approve_of _ yes_given)).0 in
      finding-Passes s x (rw same at h)

  -- An approval, of an entry or of a close, is given in a safe state only: every short leg covered and
  -- the loss finite, the daily loss and the drawdown within their limits, the market open, the data
  -- fresh and complete, no identical policy open, the kill switch off, a mode that allows the action, a
  -- candidate that was supplied, and an account that could be read.
  pub approved-IsSafe : IsSafe p c l
  unfolding table
  approved-IsSafe =
      let (covered, finite, short) =
        sk004-Passes p c l (at_rule 4 _ (sk004_defined_risk p c l) refl refl) in
      let (armed, running, mode) =
        sk023-Passes p c l (at_rule 22 _ (sk023_mode_gate p c l) refl refl) in
      record {
        covered = covered;
        finite = finite;
        short = short;
        daily_loss = sk010-Passes p c l (at_rule 10 _ (sk010_daily_loss_halt p c l) refl refl);
        drawdown = sk022-Passes p c l (at_rule 21 _ (sk022_drawdown_halt p c l) refl refl);
        market = sk017-Passes p c l (at_rule 17 _ (sk017_market_hours p c l) refl refl);
        fresh = sk018-Passes p c l (at_rule 18 _ (sk018_data_freshness p c l) refl refl);
        greeks = sk019-Passes p c l (at_rule 19 _ (sk019_greeks_complete p c l) refl refl);
        no_duplicate = sk021-Passes p c l lib (at_rule 20 _ (sk021_duplicate lib p c l) refl refl);
        armed = armed;
        running = running;
        permitted_mode = mode;
        supplied = sk024-Passes p c l (at_rule 23 _ (sk024_llm_output_integrity p c l) refl refl);
        readable = sk025-Passes p c l (at_rule 24 _ (sk025_account_readable p c l) refl refl);
      }

  -- An approved entry keeps, at one contract, within every capital limit: the reserve is the full loss,
  -- and with it the capital deployed, the loss of the position and of the portfolio, the concentration
  -- in the underlying, the cost of assignment and the number of policies are within their limits.
  pub approved-WithinCapital : is_close p.action ≡ false → WithinCapital p c l
  unfolding table
  approved-WithinCapital entry = record {
    deployed = sk001-Passes p c l entry (at_rule 1 _ (sk001_max_deployed p c l) refl refl);
    reserved = sk002-Passes p c l entry (at_rule 2 _ (sk002_full_reserve p c l) refl refl);
    position = sk003-Passes p c l entry (at_rule 3 _ (sk003_position_loss_limit p c l) refl refl);
    portfolio = sk007-Passes p c l entry (at_rule 7 _ (sk007_max_portfolio_risk p c l) refl refl);
    concentration = sk006-Passes p c l entry (at_rule 6 _ (sk006_concentration p c l) refl refl);
    assignment = sk012-Passes p c l entry (at_rule 12 _ (sk012_assignment_cost p c l) refl refl);
    policies = sk005-Passes p c l entry (at_rule 5 _ (sk005_max_positions p c l) refl refl);
  }
