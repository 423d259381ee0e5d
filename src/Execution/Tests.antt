-- ===== src/Execution/Tests.antt =====
-- Runs of the construction of orders, and the applications of the theorems to them.
use the_underwriter.Execution.Brokers.{down}
use the_underwriter.Execution.Attempts.{submissions}
use the_underwriter.Execution.Execute.{execute, Authorised, execute-Authorised}
use the_underwriter.Kernel.Verdict.{KernelVerdict, approve}
use the_underwriter.Execution.Engine.{EngineConfig, confirm, returned, status_cancelled}
use the_underwriter.Execution.Ports.{World, BrokerOrder, is_partial, pending_cancel}
use the_underwriter.Execution.Price.{entry_limit_price-bounds, exit_limit_price-bounds}
use the_underwriter.Execution.Mirror.{mirror, order_legs-mirror}
use the_underwriter.Domain.Money.{cents}
use the_underwriter.Domain.Decimal.{fin, lt, of_ℕ}
use the_underwriter.Kernel.Scenario.{proposal, constant_platform}
use the_underwriter.Domain.Market.{sell, buy}
use the_underwriter.Base.Int.{pos}
use the_underwriter.Domain.Proposal.{opening, closing}
use the_underwriter.Execution.Order.{
  order_legs, simplify_ratios, OrderLeg, entry_limit_price, exit_limit_price, sell_to_open,
  buy_to_open,
}
use the_underwriter.Base.{
  List, ℕ, ◌∷◌, ◌≡◌, [], ◌*◌, ok, refl, map, ◌+◌, ◌≤◌, ◌<◌, arith, ◌^◌, some, false, none, ◌⊎◌,
}

abbrev opened : List OrderLeg
opened =
    record { symbol = "SPY500P"; side = sell; ratio_qty = pos 1; position_intent = sell_to_open }
    ∷ record { symbol = "SPY495P"; side = buy; ratio_qty = pos 1; position_intent = buy_to_open }
    ∷ []

opened_run : order_legs opening (proposal opening) ≡ ok opened
unfolding order_legs
opened_run = refl

-- Ratios are brought to their simplest form.
ratios_run : simplify_ratios (pos 4 ∷ pos 6 ∷ []) ≡ ok (pos 2 ∷ pos 3 ∷ [])
unfolding simplify_ratios
ratios_run = refl

order_legs-mirror_example : order_legs closing (proposal opening) ≡ ok (map mirror opened)
order_legs-mirror_example = order_legs-mirror (proposal opening) opened opened_run

entry_limit_price-bounds_example :
    (m : ℕ) × (entry_limit_price (fin (pos (100 * cents))) (pos 2) ≡ ok (fin (pos (m * cents))))
    × (m * cents + 2 * cents ≤ 100 * cents)
    × (100 * cents < (m + 1) * cents + 2 * cents)
entry_limit_price-bounds_example =
    entry_limit_price-bounds (100 * cents) 2 (omega arith) (omega arith)

exit_limit_price-bounds_example :
    (m : ℕ) × (exit_limit_price (fin (pos (50 * cents))) (pos 1) ≡ ok (fin (pos (m * cents))))
    × (50 * cents + 1 * cents ≤ m * cents)
    × (m * cents < 50 * cents + (1 + 1) * cents)
exit_limit_price-bounds_example = exit_limit_price-bounds (50 * cents) 1 (omega arith)

abbrev engine : EngineConfig
engine = record {
  max_retries = 3;
  timeout = 120000000;
  poll_interval = 2000000;
  backoff = λ attempt. 500000 * 2 ^ attempt;
  fuel = 100;
}

abbrev granted_verdict : KernelVerdict
granted_verdict = record {
  verdict_id = "vd_1";
  proposal_hash = "9f86";
  verdict = approve;
  approved_contracts = pos 1;
  rules = [];
  reject_reasons = [];
  nonce = "n1";
  issued_at = 0;
  expires_at = 9000000;
  signature = some "60b7";
}

abbrev started : World ℕ
started = record { outside = 0; calls = [] }

execute-Authorised_example :
    ((execute constant_platform down engine
        (λ _. false)
        "k"
        (proposal opening)
        (some granted_verdict)
        3000000
        none
        (pos 0)
        []
        started).world
      ≡ started)
    ⊎ (Authorised constant_platform down engine
          (λ _. false)
          "k"
          (proposal opening)
          (some granted_verdict)
          3000000
          []
        × (submissions
              (execute constant_platform down engine
                (λ _. false)
                "k"
                (proposal opening)
                (some granted_verdict)
                3000000
                none
                (pos 0)
                []
                started).world.calls
            ≤ 0 + 3))
execute-Authorised_example =
    execute-Authorised constant_platform down engine (λ _. false) "k" (proposal opening)
      (some granted_verdict) 3000000 none (pos 0) [] started

-- A cancellation that races a fill, and is not confirmed as final yet: what was filled is reported as a
-- cancelled order.
abbrev racing : BrokerOrder
racing = record {
  broker_order_id = "b1";
  client_order_id = "uw-1";
  state = pending_cancel;
  filled_qty = of_ℕ 1;
  ordered_qty = of_ℕ 2;
  filled_avg_price = none;
}

raced_run :
    (confirm down (pos 2) 1 racing racing started).0
    ≡ returned (record {
      status = status_cancelled;
      client_order_id = "uw-1";
      broker_order_id = some "b1";
      contracts_ordered = pos 2;
      contracts_filled = of_ℕ 1;
      filled_avg_price = none;
      attempts = 1;
      divergences = [];
    })
unfolding is_partial lt
raced_run = refl
