-- ===== src/Execution/Brokers.antt =====
-- Two brokers for the runs. Their world is the clock.
use the_underwriter.Domain.Decimal.{of_ℕ}
use the_underwriter.Base.{ℕ, none, some, [], ◌+◌}
use the_underwriter.Execution.Ports.{BrokerOrder, BrokerPort, accepted, answered, failed, transient}

-- A broker that is down: it fails every submission, knows no order, and holds nothing.
abbrev pub down : BrokerPort ℕ
down = record {
  submit_order = λ payload t. (failed transient, t);
  get_order_by_client_id = λ id t. (answered none, t);
  cancel_order = λ id t. (answered tt, t);
  list_positions = λ t. (answered [], t);
  clock = λ t. (t, t);
  acquire = λ t. t;
  sleep = λ micros t. t + micros;
}

-- A broker that accepts an order and never fills it.
abbrev pub pending : BrokerOrder
pending = record {
  broker_order_id = "b1";
  client_order_id = "uw_9f86";
  state = accepted;
  filled_qty = of_ℕ 0;
  ordered_qty = of_ℕ 1;
  filled_avg_price = none;
}

abbrev pub slow : BrokerPort ℕ
slow = record {
  submit_order = λ payload t. (answered pending, t);
  get_order_by_client_id = λ id t. (answered (some pending), t);
  cancel_order = λ id t. (answered tt, t);
  list_positions = λ t. (answered [], t);
  clock = λ t. (t, t);
  acquire = λ t. t;
  sleep = λ micros t. t + micros;
}
