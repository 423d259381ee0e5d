-- ===== src/Execution/Slow.antt =====
-- A run of the polling on a broker that never fills the order.
use the_underwriter.Execution.Brokers.{slow}
use the_underwriter.Base.Int.{pos}
use the_underwriter.Domain.Decimal.{of_ℕ}
use the_underwriter.Base.{◌*◌, arith, ◌^◌, refl, []}
use the_underwriter.Execution.Polling.{Ticks, IsFuelled, Ends, transmit-Ends}
use the_underwriter.Execution.Order.{OrderPayload}
use the_underwriter.Execution.Engine.{EngineConfig, transmit}

abbrev patient : EngineConfig
patient = record {
  max_retries = 3;
  timeout = 120000000;
  poll_interval = 2000000;
  backoff = λ attempt. 500000 * 2 ^ attempt;
  fuel = 61;
}

abbrev payload : OrderPayload
payload = record {
  order_class = "mleg";
  qty = pos 1;
  kind = "limit";
  time_in_force = "day";
  limit_price = of_ℕ 1;
  legs = [];
  client_order_id = "uw_9f86";
}

ticking : Ticks slow
ticking = record {
  clock_on = λ o. omega arith;
  sleep_on = λ micros o. omega arith;
  acquire_on = λ o. omega arith;
  get_on = λ id o. omega arith;
}

fuelled : IsFuelled patient
fuelled = record { rounds = 60; fuel_eq = refl; enough = omega arith }

transmit-Ends_example :
    Ends (transmit slow patient (pos 1) payload (record { outside = 0; calls = [] })).0
transmit-Ends_example =
    transmit-Ends slow patient (pos 1) ticking fuelled payload (record { outside = 0; calls = [] })
