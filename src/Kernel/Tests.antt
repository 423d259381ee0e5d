-- ===== src/Kernel/Tests.antt =====
-- Runs of the Kernel on the values of Kernel/Scenario, and the applications of its theorems to them.
use the_underwriter.Kernel.Sizing.{compute_sizing, permitted, floor_div}
use the_underwriter.Domain.Hashing.{canonical_json, canonicalize, insert_entry, sha256_of}
use the_underwriter.Kernel.Evaluate.FailClosed.{raising_rule_rejects}
use the_underwriter.Kernel.Context.{
  active, halt, portfolio_max_loss, reserve_for, total_reserve, total_assignment_cost, cost_from,
  assignment_cost, drawdown_pct, data_age_sec,
}
use the_underwriter.Kernel.Evaluate.Signing.{refused-unsigned, approved-authorize}
use the_underwriter.Kernel.Sizing.Fits.{FitsIn, Rooms}
use the_underwriter.Domain.Money.{cents, safe_div}
use the_underwriter.Kernel.Verdict.Forgery.{Grant, Collision, one_signature}
use the_underwriter.Kernel.Limits.{default_limits}
use the_underwriter.Kernel.Scenario.{constant_platform, proposal, tokens, context}
use the_underwriter.Kernel.Rules.{
  RuleSpec, table, all_covered, count_cover, covers, finite_loss, identical, client_order_id_for,
  join_text, take_text, nav_units, sk000_risk_reducing, sk001_max_deployed, sk002_full_reserve,
  sk003_position_loss_limit, sk004_defined_risk, sk005_max_positions, sk006_concentration,
  sk007_max_portfolio_risk, sk008_delta_limit, sk009_vega_limit, sk010_daily_loss_halt,
  sk011_min_dte, sk012_assignment_cost, sk013_breach_active, sk014_liquidity, sk015_leg_spread,
  sk016_edge, sk017_market_hours, sk018_data_freshness, sk019_greeks_complete, sk021_duplicate,
  sk022_drawdown_halt, sk023_mode_gate, sk024_llm_output_integrity, sk025_account_readable,
}
use the_underwriter.Kernel.Verdict.Replay.{Attempt, orders_under, no_replay}
use the_underwriter.Kernel.Verdict.Authorize.{Accepts, authorize-Accepts, Accepts-authorize}
use the_underwriter.Base.Int.{pos, ◌≤ℤ◌, pos_part, ◌+ℤ◌, neg, ◌-ℤ◌}
use the_underwriter.Domain.Decimal.{
  mul, sub, add, half_even, scale, sum, sum_from, negate, of_ℤ, floor_int, div, fin_div, le, lt, eq,
  absolute,
}
use the_underwriter.Base.{
  ℕ, ◌≡◌, List, ◌*◌, ◌⊎◌, none, String, ◌^◌, some, [], err, ◌∷◌, contains, map, ok, arith, ◌≤◌,
  division_by_zero, refl, true, inl, false,
}
use the_underwriter.Kernel.Evaluate.Size.{IsReducing, approved-FitsIn}
use the_underwriter.Kernel.Solvency.{IsSafe, WithinCapital, approved-IsSafe, approved-WithinCapital}
use the_underwriter.Domain.Proposal.{
  proposal_hash, opening, hash_payload, legs_payload, leg_payload,
}
use the_underwriter.Kernel.Evaluate.{
  evaluate, evaluate_with, or_refuse, guarded, hard_failures, finding, soften, refusal,
  permitted_for, reduced_size, size_floor, decide,
}
use the_underwriter.Kernel.Verdict.{
  KernelVerdict, authorize, signature_of, soft, reject, fail_closed, mint, mint_signature,
  signing_payload, sign, approved,
}

abbrev verdict : KernelVerdict
verdict =
    evaluate constant_platform tokens (proposal opening) (pos 3) (context active) "k" default_limits

abbrev halted : KernelVerdict
halted =
    evaluate constant_platform tokens (proposal opening) (pos 3) (context halt) "k" default_limits

abbrev failing : KernelVerdict → List String
failing v = map (λ r. r.rule_id) (hard_failures v.rules)

-- Three contracts are asked; the cost of assignment leaves room for one.
entry_run :
    (approved verdict ≡ true) × (verdict.approved_contracts ≡ pos 1) × (failing verdict ≡ [])
unfolding evaluate evaluate_with table guarded finding soften permitted_for reduced_size size_floor
    decide mint mint_signature signature_of signing_payload sign canonical_json canonicalize
    insert_entry proposal_hash sha256_of hash_payload legs_payload leg_payload compute_sizing
    permitted floor_div floor_int mul add sub div fin_div le lt eq half_even sum sum_from negate
    absolute all_covered count_cover covers finite_loss cost_from assignment_cost
    total_assignment_cost total_reserve portfolio_max_loss reserve_for drawdown_pct data_age_sec
    identical client_order_id_for join_text take_text nav_units safe_div of_ℤ ◌-ℤ◌
    sk000_risk_reducing sk001_max_deployed sk002_full_reserve sk003_position_loss_limit
    sk004_defined_risk sk005_max_positions sk006_concentration sk007_max_portfolio_risk
    sk008_delta_limit sk009_vega_limit sk010_daily_loss_halt sk011_min_dte sk012_assignment_cost
    sk013_breach_active sk014_liquidity sk015_leg_spread sk016_edge sk017_market_hours
    sk018_data_freshness sk019_greeks_complete sk021_duplicate sk022_drawdown_halt sk023_mode_gate
    sk024_llm_output_integrity sk025_account_readable ◌+ℤ◌ neg
entry_run = (refl, refl, refl)

halted_run : (approved halted ≡ false) × (failing halted ≡ "SK-023" ∷ [])
unfolding evaluate evaluate_with table guarded finding soften permitted_for reduced_size size_floor
    decide mint mint_signature signature_of signing_payload sign canonical_json canonicalize
    insert_entry proposal_hash sha256_of hash_payload legs_payload leg_payload compute_sizing
    permitted floor_div floor_int mul add sub div fin_div le lt eq half_even sum sum_from negate
    absolute all_covered count_cover covers finite_loss cost_from assignment_cost
    total_assignment_cost total_reserve portfolio_max_loss reserve_for drawdown_pct data_age_sec
    identical client_order_id_for join_text take_text nav_units safe_div of_ℤ ◌-ℤ◌
    sk000_risk_reducing sk001_max_deployed sk002_full_reserve sk003_position_loss_limit
    sk004_defined_risk sk005_max_positions sk006_concentration sk007_max_portfolio_risk
    sk008_delta_limit sk009_vega_limit sk010_daily_loss_halt sk011_min_dte sk012_assignment_cost
    sk013_breach_active sk014_liquidity sk015_leg_spread sk016_edge sk017_market_hours
    sk018_data_freshness sk019_greeks_complete sk021_duplicate sk022_drawdown_halt sk023_mode_gate
    sk024_llm_output_integrity sk025_account_readable ◌+ℤ◌ neg
halted_run = (refl, refl)

hash_run : proposal_hash constant_platform (proposal opening) ≡ ok "9f86"
unfolding proposal_hash
hash_run = refl

approved-IsSafe_example : IsSafe (proposal opening) (context active) default_limits
approved-IsSafe_example =
    approved-IsSafe constant_platform tokens (proposal opening) (pos 3) (context active) "k"
      default_limits entry_run.0

approved-WithinCapital_example : WithinCapital (proposal opening) (context active) default_limits
approved-WithinCapital_example =
    approved-WithinCapital constant_platform tokens (proposal opening) (pos 3) (context active) "k"
      default_limits entry_run.0 refl

reducing : IsReducing default_limits
reducing = record {
  soft = 50 * cents;
  soft_eq = refl;
  soft_le = omega arith;
  calibration = scale;
  calibration_eq = refl;
  calibration_le = omega arith;
}

-- Dollars, on the grid.
abbrev usd : ℕ → ℕ
usd n = n * 10 ^ 8

rooms :
    Rooms
      (proposal opening)
      (context active)
      default_limits
      (usd 400)
      (usd 50000)
      (usd 3000)
      (usd 14600)
      (usd 15000)
      (usd 59600)
      (usd 90000)
unfolding mul sub add half_even sum sum_from negate portfolio_max_loss reserve_for total_reserve
    total_assignment_cost cost_from assignment_cost of_ℤ ◌+ℤ◌ neg
rooms = record {
  loss_eq = refl;
  loss_pos = omega arith;
  loss_small = omega arith;
  lot_eq = refl;
  lot_pos = omega arith;
  lot_small = omega arith;
  risk_eq = refl;
  portfolio_eq = refl;
  concentration_eq = refl;
  deployed_eq = refl;
  assignment_eq = refl;
}

approved-FitsIn_example :
    (pos 1 ≤ℤ verdict.approved_contracts)
    × (verdict.approved_contracts ≤ℤ pos 3)
    × FitsIn
        (pos_part verdict.approved_contracts)
        (usd 400)
        (usd 50000)
        (usd 3000)
        (usd 14600)
        (usd 15000)
        (usd 59600)
        (usd 90000)
approved-FitsIn_example =
    approved-FitsIn constant_platform tokens (proposal opening) (pos 3) (context active) "k"
      default_limits (usd 400) (usd 50000) (usd 3000) (usd 14600) (usd 15000) (usd 59600)
      (usd 90000) entry_run.0 refl reducing rooms

approved-authorize_example :
    authorize constant_platform (some verdict) "9f86" "k" 3000000 []
    ≡ (ok verdict.approved_contracts, "n1" ∷ [])
approved-authorize_example =
    approved-authorize constant_platform tokens (proposal opening) (pos 3) (context active) "k"
      default_limits "9f86" 3000000 [] entry_run.0 hash_run (omega arith) refl

gate_run :
    authorize constant_platform (some verdict) "9f86" "k" 3000000 []
    ≡ (ok verdict.approved_contracts, "n1" ∷ [])
gate_run =
    approved-authorize constant_platform tokens (proposal opening) (pos 3) (context active) "k"
      default_limits "9f86" 3000000 [] entry_run.0 hash_run (omega arith) refl

authorize-Accepts_example :
    Accepts constant_platform verdict "9f86" "k" 3000000 []
    × (verdict.approved_contracts ≡ verdict.approved_contracts)
    × ("n1" ∷ [] ≡ verdict.nonce ∷ [])
authorize-Accepts_example =
    authorize-Accepts constant_platform verdict "9f86" "k" 3000000 [] ("n1" ∷ [])
      verdict.approved_contracts gate_run

Accepts-authorize_example :
    authorize constant_platform (some verdict) "9f86" "k" 3000000 []
    ≡ (ok verdict.approved_contracts, verdict.nonce ∷ [])
Accepts-authorize_example =
    Accepts-authorize constant_platform verdict "9f86" "k" 3000000 []
      (authorize-Accepts constant_platform verdict "9f86" "k" 3000000 [] ("n1" ∷ [])
        verdict.approved_contracts gate_run).0

abbrev attempt : Attempt
attempt = record { verdict = verdict; hash = "9f86"; now = 3000000 }

no_replay_example : orders_under constant_platform "k" "n1" [] (attempt ∷ attempt ∷ []) ≤ 1
no_replay_example = no_replay constant_platform "k" "n1" [] (attempt ∷ attempt ∷ [])

abbrev grant : ℕ → Grant
grant expires_at = record {
  hash = "9f86";
  contracts = pos 1;
  nonce = "n1";
  expires_at = expires_at;
}

one_signature_example : (grant 3 ≡ grant 4) ⊎ Collision constant_platform "k" (grant 3) (grant 4)
unfolding signature_of
one_signature_example = one_signature constant_platform "k" "60b7" (grant 3) (grant 4) refl refl

refused-unsigned_example : (halted.approved_contracts ≡ pos 0) × (halted.signature ≡ none)
refused-unsigned_example =
    refused-unsigned constant_platform tokens (proposal opening) (pos 3) (context halt) "k"
      default_limits halted_run.0

abbrev broken_rule : RuleSpec
broken_rule = record {
  rule_id = "SK-099";
  name = "broken";
  severity = soft;
  evaluate = λ p c l. err division_by_zero;
}

abbrev broken_verdict : KernelVerdict
broken_verdict =
    or_refuse
      (evaluate_with (broken_rule ∷ []) constant_platform tokens (proposal opening) (pos 3)
        (context active) "k" default_limits)
      (refusal constant_platform (proposal opening) (context active))

broken_run :
    evaluate_with
      (broken_rule ∷ [])
      constant_platform
      tokens
      (proposal opening)
      (pos 3)
      (context active)
      "k"
      default_limits
    ≡ ok broken_verdict
unfolding evaluate evaluate_with table guarded finding soften permitted_for reduced_size size_floor
    decide mint mint_signature signature_of signing_payload sign canonical_json canonicalize
    insert_entry proposal_hash sha256_of hash_payload legs_payload leg_payload compute_sizing
    permitted floor_div floor_int mul add sub div fin_div le lt eq half_even sum sum_from negate
    absolute all_covered count_cover covers finite_loss cost_from assignment_cost
    total_assignment_cost total_reserve portfolio_max_loss reserve_for drawdown_pct data_age_sec
    identical client_order_id_for join_text take_text nav_units safe_div of_ℤ ◌-ℤ◌
    sk000_risk_reducing sk001_max_deployed sk002_full_reserve sk003_position_loss_limit
    sk004_defined_risk sk005_max_positions sk006_concentration sk007_max_portfolio_risk
    sk008_delta_limit sk009_vega_limit sk010_daily_loss_halt sk011_min_dte sk012_assignment_cost
    sk013_breach_active sk014_liquidity sk015_leg_spread sk016_edge sk017_market_hours
    sk018_data_freshness sk019_greeks_complete sk021_duplicate sk022_drawdown_halt sk023_mode_gate
    sk024_llm_output_integrity sk025_account_readable ◌+ℤ◌ neg
broken_run = refl

raising_rule_rejects_example :
    (broken_verdict.verdict ≡ reject) × (contains fail_closed broken_verdict.reject_reasons ≡ true)
raising_rule_rejects_example =
    raising_rule_rejects (broken_rule ∷ []) constant_platform tokens (proposal opening) (pos 3)
      (context active) "k" default_limits broken_verdict 0 broken_rule broken_run refl
      (inl (division_by_zero, refl))
