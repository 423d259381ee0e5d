-- ===== src/Execution/Ports.antt =====
-- backend/underwriter/execution/ports.py: an order and a position as the broker tells them, and the
-- broker itself, which is a parameter: it answers or fails, and the world `W` goes on.
use the_underwriter.Domain.Money.{dec_zero}
use the_underwriter.Domain.Decimal.{Decimal, lt}
use the_underwriter.Execution.Order.{OrderPayload}
use the_underwriter.Base.{
  ◌>>=◌, Bool, String, Result, List, ℕ, false, if◌then◌else◌, Option, ◌∷◌, true, ok,
}

pub data OrderState : Type 0 where
  new accepted partially_filled filled canceled expired rejected pending_cancel : OrderState

abbrev pub is_terminal : OrderState → Bool
is_terminal new = false
is_terminal accepted = false
is_terminal partially_filled = false
is_terminal filled = true
is_terminal canceled = true
is_terminal expired = true
is_terminal rejected = true
is_terminal pending_cancel = false

pub record BrokerOrder : Type 0 where
  pub broker_order_id : String
  pub client_order_id : String
  pub state : OrderState
  pub filled_qty : Decimal
  pub ordered_qty : Decimal
  pub filled_avg_price : Option Decimal

unfoldable pub is_partial : BrokerOrder → Result Bool
is_partial o =
    if is_terminal o.state
    then (do
      some_filled ← lt dec_zero o.filled_qty
      some_left ← if some_filled then lt o.filled_qty o.ordered_qty else ok false
      ok some_left)
    else ok false

pub record BrokerPosition : Type 0 where
  pub symbol : String
  pub qty : Decimal

-- `PermanentBrokerError`, `TransientBrokerError`, and any other exception.
pub data Fault : Type 0 where
  permanent transient unexpected : Fault

pub data Reply {ℓ} (A : Type ℓ) : Type ℓ where
  answered : A → Reply A
  failed : Fault → Reply A

-- The broker, the clock, the pacing of the calls, and `sleep`.
pub record BrokerPort (W : Type 0) : Type 0 where
  pub submit_order : OrderPayload → W → Reply BrokerOrder × W
  pub get_order_by_client_id : String → W → Reply (Option BrokerOrder) × W
  pub cancel_order : String → W → Reply (Unit {0}) × W
  pub list_positions : W → Reply (List BrokerPosition) × W
  pub clock : W → ℕ × W
  pub acquire : W → W
  pub sleep : ℕ → W → W

-- What was asked of the broker.
pub data Call : Type 0 where
  submitted : OrderPayload → Call
  polled : String → Call
  cancelled : String → Call
  listed : Call

-- The world, with the calls so far, the last one first.
pub record World (W : Type 0) : Type 0 where
  pub outside : W
  pub calls : List Call

module _ {W : Type 0} (b : BrokerPort W) where
  abbrev pub submit : OrderPayload → World W → Reply BrokerOrder × World W
  submit payload w =
      let (r, o) = b.submit_order payload (b.acquire w.outside) in
      (r, record { outside = o; calls = submitted payload ∷ w.calls })

  abbrev pub poll : String → World W → Reply (Option BrokerOrder) × World W
  poll id w =
      let (r, o) = b.get_order_by_client_id id (b.acquire w.outside) in
      (r, record { outside = o; calls = polled id ∷ w.calls })

  abbrev pub cancel : String → World W → Reply (Unit {0}) × World W
  cancel id w =
      let (r, o) = b.cancel_order id (b.acquire w.outside) in
      (r, record { outside = o; calls = cancelled id ∷ w.calls })

  abbrev pub positions : World W → Reply (List BrokerPosition) × World W
  positions w =
      let (r, o) = b.list_positions (b.acquire w.outside) in
      (r, record { outside = o; calls = listed ∷ w.calls })

  abbrev pub read_clock : World W → ℕ × World W
  read_clock w = let (t, o) = b.clock w.outside in (t, record w { outside = o })

  abbrev pub wait : ℕ → World W → World W
  wait micros w = record w { outside = b.sleep micros w.outside }
