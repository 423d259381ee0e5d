-- ===== src/Cycle/Exits.antt =====
-- A run of the management cycle on one position at its profit target, with a broker that is down.
use the_underwriter.Cycle.Roundtrip.{IsMirrored, policy-rebuild_proposal}
use the_underwriter.Cycle.Rebuild.{rebuild_proposal}
use the_underwriter.Domain.Market.{ContractQuote, put}
use the_underwriter.Book.Rows.{PolicyNumber, open_status}
use the_underwriter.Book.Policies.{PolicyTerms, policy_row, policy_leg}
use the_underwriter.Book.Session.{Draws}
use the_underwriter.Execution.Brokers.{down}
use the_underwriter.Domain.Proposal.{opening, UnderwritingProposal}
use the_underwriter.Execution.Attempts.{submissions}
use the_underwriter.Kernel.Context.{active}
use the_underwriter.Kernel.Limits.{default_limits, hundredths}
use the_underwriter.Domain.Decimal.{of_ℕ, mul, of_ℤ, half_even, sub, add, negate, scale}
use the_underwriter.Kernel.Scenario.{constant_platform, context, proposal, tokens}
use the_underwriter.Base.{
  ℕ, Option, false, [], some, ◌∷◌, ◌≤◌, ◌+◌, ◌*◌, String, none, true, map, ◌≡◌, ok, refl,
}
use the_underwriter.Base.Int.{pos, ◌+ℤ◌, neg}
use the_underwriter.Cycle.Closes.{Closes, run_management_cycle-Closes}
use the_underwriter.Cycle.Manage.{Desk, Outside, run_management_cycle, ManagementReport}
use the_underwriter.Execution.Engine.{EngineConfig}
use the_underwriter.Claims.Desk.{ManagedPosition, default_claims_policy}

abbrev winner : ManagedPosition
winner = record {
  policy_id = "p1";
  policy_number = "UW-2026-0001";
  underlying = "SPY";
  contracts = pos 1;
  opening_credit = of_ℕ 1;
  max_loss = of_ℕ 400;
  short_strike = of_ℕ 500;
  long_strike = of_ℕ 495;
  expiry = 739700;
  cost_to_close = some (hundredths 30);
  underlying_price = some (of_ℕ 510);
}

abbrev engine : EngineConfig
engine = record { max_retries = 3; timeout = 60; poll_interval = 5; backoff = λ n. n; fuel = 13 }

abbrev desk : Desk
desk = record {
  lib = constant_platform;
  secret = "s";
  limits = default_limits;
  claims_policy = default_claims_policy;
  today = 739690;
  proposals_by_policy = ("p1", proposal opening) ∷ [];
  dry_run = false;
  tokens = λ n. tokens;
  now = λ n. 2000000;
}

abbrev start : Outside ℕ
start = record { nonces = []; world = record { outside = 0; calls = [] } }

abbrev managed : Option ManagementReport × Outside ℕ
unfolding run_management_cycle
managed =
    run_management_cycle desk down engine (λ payload. false) (context active) (winner ∷ []) start

run_management_cycle-Closes_example :
    Closes desk down engine (λ payload. false) (context active) 0 (winner ∷ []) start managed.1
    × (submissions managed.1.world.calls ≤ submissions start.world.calls + 1 * engine.max_retries)
unfolding managed
run_management_cycle-Closes_example =
    run_management_cycle-Closes desk down engine (λ payload. false) (context active) (winner ∷ [])
      start

abbrev quoted : String → ℕ → ContractQuote
quoted symbol strike = record {
  symbol = symbol;
  underlying = "SPY";
  right = put;
  strike = of_ℕ strike;
  expiry = 739700;
  bid = of_ℕ 2;
  ask = of_ℕ 3;
  bid_size = pos 1;
  ask_size = pos 1;
  fetched_at = 0;
  tradable = true;
  open_interest = none;
  implied_volatility = none;
  delta = none;
  vega = none;
  source = "rest";
}

abbrev draws : Draws
draws = record { id = "p1"; seq = 1; now = 2000000; year = 2026 }

abbrev two_contracts : PolicyTerms
two_contracts = record {
  contracts = pos 2;
  candidate_row_id = none;
  verdict_row_id = "v1";
  confidence = none;
  status = open_status;
}

abbrev number : PolicyNumber
number = record { year = 2026; index = 1 }

policy-rebuild_proposal_example :
    (q : UnderwritingProposal) × (rebuild_proposal 3000000
        (policy_row draws "c1" (proposal opening) two_contracts number (of_ℕ 800) (of_ℕ 200))
        (map (policy_leg "p1" (proposal opening)) (proposal opening).legs)
      ≡ ok (some q))
    × IsMirrored (proposal opening) q
unfolding mul of_ℤ half_even sub add ◌+ℤ◌ negate neg
policy-rebuild_proposal_example =
    policy-rebuild_proposal draws "c1" (quoted "SPY500P" 500) (quoted "SPY495P" 495)
      (proposal opening) two_contracts number 3000000 (400 * scale) (100 * scale) 1 (of_ℕ 800)
      (of_ℕ 200) (of_ℕ 499) refl refl refl refl refl refl refl refl refl
