-- ===== src/Cycle/Runs.antt =====
-- A run of the underwriting cycle over the snapshot of two puts, with a model that answers at the second
-- call and a broker that is down.
use the_underwriter.Cycle.Recorded.{HasApproval, run_underwriting_cycle-HasApproval}
use the_underwriter.Execution.Brokers.{down}
use the_underwriter.Domain.Money.{cents}
use the_underwriter.Cycle.Trades.{Underwritten, run_underwriting_cycle-Underwritten}
use the_underwriter.Domain.Hashing.{no_entry}
use the_underwriter.Kernel.Context.{active}
use the_underwriter.Base.Int.{pos, negsuc}
use the_underwriter.Actuary.Thresholds.{default_thresholds}
use the_underwriter.Domain.Decimal.{of_ℕ, fin}
use the_underwriter.Actuary.Engine.{ActuaryResult, price_put_credit_spreads}
use the_underwriter.Kernel.Limits.{default_limits, hundredths}
use the_underwriter.Kernel.Scenario.{constant_platform, context, tokens}
use the_underwriter.Cycle.Underwrite.{Setup, State, run_underwriting_cycle, CycleReport}
use the_underwriter.Execution.Engine.{EngineConfig}
use the_underwriter.Agent.Underwriter.{Model, decide}
use the_underwriter.Agent.Decision.{UnderwriterDecision, write}
use the_underwriter.Domain.Market.{MarketSnapshot, ContractQuote, put}
use the_underwriter.Base.{
  String, ◌≡◌, ℕ, ◌*◌, ◌⊎◌, ◌^◌, some, [], false, if◌then◌else◌, ◌∷◌, ◌==◌, true, none, suc, ok,
  str_eq, ◌-◌, refl,
}

abbrev quoted : String → ℕ → ℕ → ℕ → ℕ → ContractQuote
quoted symbol strike bid ask delta = record {
  symbol = symbol;
  underlying = "SPY";
  right = put;
  strike = of_ℕ strike;
  expiry = 15;
  bid = hundredths bid;
  ask = hundredths ask;
  bid_size = pos 20;
  ask_size = pos 20;
  fetched_at = 0;
  tradable = true;
  open_interest = some (pos 900);
  implied_volatility = some (hundredths 20);
  delta = some (fin (negsuc (delta * cents - 1)));
  vega = some (hundredths 10);
  source = "rest";
}

abbrev market : MarketSnapshot
market = record {
  as_of = 86400 * 10 ^ 6;
  underlying_prices = ("SPY", of_ℕ 510) ∷ [];
  quotes = quoted "SPY500P" 500 160 162 15 ∷ quoted "SPY495P" 495 48 50 10 ∷ [];
}

-- Every candidate has this id, since the digests are constant.
abbrev choice : UnderwriterDecision
choice = record {
  action = write;
  candidate_id = some "cand_9f86";
  confidence = some (of_ℕ 1);
  contracts = some (pos 1);
  rationale = "edge";
  identified_risks = some ("gap" ∷ []);
  declined_reason = none;
}

abbrev answering : Model ℕ
answering = record {
  complete = λ message calls. (some (if calls == 0 then "?" else "write"), suc calls);
  user_message = λ ps. "candidates";
  nudge = λ f. " again";
  parse_schema = λ content. if str_eq content "write" then some choice else none;
  forbidden = λ rationale. false;
}

abbrev engine : EngineConfig
engine = record { max_retries = 3; timeout = 60; poll_interval = 5; backoff = λ n. n; fuel = 10 }

abbrev setup : Setup
setup = record {
  lib = constant_platform;
  formats = record { policy_number = λ _. "UW-2026-0001"; discard_hash = λ _ _. "discard" };
  unsigned = λ id. "unsigned";
  cid = "cyc_1";
  secret = "s";
  limits = default_limits;
  thresholds = default_thresholds;
  universe = "SPY" ∷ [];
  tokens = tokens;
  now = 2000000;
  dry_run = false;
  persist = true;
  telemetry = no_entry;
  draw = λ n. record { id = "row"; seq = n; now = 2000000; year = 2026 };
  candidate_id = λ n. "candidate";
  discard_id = λ n. "discard";
}

abbrev start : State ℕ ℕ
start = record {
  book = record {
    policies = [];
    legs = [];
    reserves = [];
    orders = [];
    risk_events = [];
    kernel_decisions = [];
    risk_checks = [];
    snapshots = [];
    candidates = [];
    decisions = [];
    audit = [];
  };
  nonces = [];
  world = record { outside = 0; calls = [] };
  model = 0;
}

abbrev cycle : CycleReport × State ℕ ℕ
unfolding run_underwriting_cycle
cycle =
    run_underwriting_cycle setup answering down engine (λ payload. false) (context active)
      (some market) start

run_underwriting_cycle-Underwritten_example :
    (cycle.1.world ≡ start.world)
    ⊎ ((priced : ActuaryResult) × (s : MarketSnapshot) × (some market ≡ some s)
        × (price_put_credit_spreads constant_platform default_thresholds (some ("SPY" ∷ [])) s
            ≡ ok priced)
        × Underwritten setup answering down engine
            (λ payload. false)
            (context active)
            priced.proposals
            (decide answering priced.proposals 0).0
            []
            start.world
            cycle.1.world)
unfolding cycle
run_underwriting_cycle-Underwritten_example =
    run_underwriting_cycle-Underwritten setup answering down engine (λ payload. false)
      (context active) (some market) start

run_underwriting_cycle-HasApproval_example :
    (cycle.1.world ≡ start.world)
    ⊎ ((priced : ActuaryResult) × (s : MarketSnapshot) × (some market ≡ some s)
        × (price_put_credit_spreads constant_platform default_thresholds (some ("SPY" ∷ [])) s
            ≡ ok priced)
        × HasApproval setup answering down engine
            (λ payload. false)
            (context active)
            priced.proposals
            (decide answering priced.proposals 0).0
            cycle.1.book)
unfolding cycle
run_underwriting_cycle-HasApproval_example =
    run_underwriting_cycle-HasApproval setup answering down engine (λ payload. false)
      (context active) refl (some market) start
