-- ===== src/Execution/Engine.antt =====
-- backend/underwriter/execution/engine.py: submission, polling, cancellation and reconciliation. The
-- texts (`detail`), and the copies of what was sent and received, are left out.
use the_underwriter.Execution.Ports.{pending_cancel, transient, permanent, unexpected}
use the_underwriter.Execution.Order.{OrderPayload}
use the_underwriter.Domain.Money.{dec_zero}
use the_underwriter.Base.Int.{ℤ}
use the_underwriter.Domain.Decimal.{Decimal, lt, eq}
use the_underwriter.Execution.Ports.{
  Fault, Reply, BrokerOrder, BrokerPort, OrderState, BrokerPosition, World, failed, is_partial,
  cancel, read_clock, positions, poll, answered, filled, is_terminal, submit, rejected, unexpected,
  wait, new, permanent, accepted, partially_filled, canceled, expired,
}
use the_underwriter.Base.{
  String, Bool, ℕ, Option, List, true, some, none, false, if◌then◌else◌, suc, ◌∷◌, err, [], leb,
  ◌+◌, map, zero, select, ok, not, Result,
}

pub data ExecutionStatus : Type 0 where
  status_filled status_partial status_cancelled status_rejected status_timed_out status_failed :
      ExecutionStatus

-- A divergence that `_reconcile` reports.
pub data Divergence : Type 0 where
  unreadable : Divergence
  holds : String → Decimal → Divergence

pub record ExecutionResult : Type 0 where
  pub status : ExecutionStatus
  pub client_order_id : String
  pub broker_order_id : Option String
  pub contracts_ordered : ℤ
  pub contracts_filled : Decimal
  pub filled_avg_price : Option Decimal
  pub attempts : ℕ
  pub divergences : List Divergence

-- An execution returns, or lets an exception through; `unfinished` is what the fuel of the model ends
-- with.
pub data Outcome : Type 0 where
  returned : ExecutionResult → Outcome
  raised : Fault → Outcome
  unfinished : Outcome

-- A result without an order's fills.
abbrev pub unfilled :
    ExecutionStatus → String → Option String → ℤ → ℕ → List Divergence → ExecutionResult
unfilled status id broker_id contracts attempts divergences = record {
  status = status;
  client_order_id = id;
  broker_order_id = broker_id;
  contracts_ordered = contracts;
  contracts_filled = dec_zero;
  filled_avg_price = none;
  attempts = attempts;
  divergences = divergences;
}

abbrev pub divergences_of : Reply (List BrokerPosition) → List Divergence
divergences_of (failed f) = unreadable ∷ []
divergences_of (answered ps) =
    map (λ p. holds p.symbol p.qty) (select (λ p. not (eq p.qty dec_zero)) ps)

-- The classification of `_finalise`.
abbrev pub status_of : Bool → OrderState → ExecutionStatus
status_of true state = status_partial
status_of false filled = status_filled
status_of false rejected = status_rejected
status_of false new = status_cancelled
status_of false accepted = status_cancelled
status_of false partially_filled = status_cancelled
status_of false canceled = status_cancelled
status_of false expired = status_cancelled
status_of false pending_cancel = status_cancelled

abbrev pub finalised : BrokerOrder → ℤ → ℕ → Bool → List Divergence → ExecutionResult
finalised o contracts attempts part divergences = record {
  status = status_of part o.state;
  client_order_id = o.client_order_id;
  broker_order_id = some o.broker_order_id;
  contracts_ordered = contracts;
  contracts_filled = o.filled_qty;
  filled_avg_price = o.filled_avg_price;
  attempts = attempts;
  divergences = divergences;
}

module _ {W : Type 0} (b : BrokerPort W) (contracts : ℤ) (attempts : ℕ) where
  -- `_finalise`, on the test for a partial fill.
  abbrev pub finalise_on : BrokerOrder → World W → Result Bool → Outcome × World W
  finalise_on o w (err e) = (raised unexpected, w)
  finalise_on o w (ok part) =
      let (r, w') = positions b w in
      (returned (finalised o contracts attempts part (divergences_of r)), w')

  -- `_finalise`
  abbrev pub finalise : BrokerOrder → World W → Outcome × World W
  finalise o w = finalise_on o w (is_partial o)

  -- `_cancel_and_confirm`, after the confirmation.
  abbrev pub confirm_on : BrokerOrder → BrokerOrder → World W → Result Bool → Outcome × World W
  confirm_on o confirmed w (err e) = (raised unexpected, w)
  confirm_on o confirmed w (ok true) = finalise confirmed w
  confirm_on o confirmed w (ok false) =
      let (r, w') = positions b w in
      (
        returned (
            unfilled status_timed_out o.client_order_id (some o.broker_order_id) contracts attempts
              (divergences_of r)),
        w',
      )

  abbrev pub confirm : BrokerOrder → BrokerOrder → World W → Outcome × World W
  confirm o confirmed w = confirm_on o confirmed w (lt dec_zero confirmed.filled_qty)

  abbrev pub confirm_reply : BrokerOrder → Reply (Option BrokerOrder) × World W → Outcome × World W
  confirm_reply o (failed f, w) = (raised f, w)
  confirm_reply o (answered none, w) = confirm o o w
  confirm_reply o (answered (some confirmed), w) = confirm o confirmed w

  abbrev pub cancel_reply : BrokerOrder → Reply (Unit {0}) × World W → Outcome × World W
  cancel_reply o (failed f, w) = (raised f, w)
  cancel_reply o (answered _, w) = confirm_reply o (poll b o.client_order_id w)

  -- `_cancel_and_confirm`
  abbrev pub cancel_and_confirm : BrokerOrder → World W → Outcome × World W
  cancel_and_confirm o w = cancel_reply o (cancel b o.broker_order_id w)

  -- The loop of `_await_terminal`: `more` is the loop on the fuel that is left.
  abbrev pub poll_reply :
      BrokerOrder
      → (BrokerOrder → World W → Outcome × World W)
      → Reply (Option BrokerOrder) × World W
      → Outcome × World W
  poll_reply o more (failed f, w) = (raised f, w)
  poll_reply o more (answered none, w) = (
    returned
        (unfilled status_failed o.client_order_id (some o.broker_order_id) contracts attempts []),
    w,
  )
  poll_reply o more (answered (some next), w) = more next w

  abbrev pub poll_round :
      ℕ
      → ℕ
      → BrokerOrder
      → (BrokerOrder → World W → Outcome × World W)
      → ℕ × World W
      → Outcome × World W
  poll_round interval deadline o more (now, w) =
      if leb deadline now
      then cancel_and_confirm o w
      else poll_reply o more (poll b o.client_order_id (wait b interval w))

  unfoldable pub poll_until : ℕ → ℕ → ℕ → BrokerOrder → World W → Outcome × World W
  poll_until zero interval deadline o w = (unfinished, w)
  poll_until (suc fuel) interval deadline o w =
      if is_terminal o.state
      then finalise o w
      else poll_round interval deadline o (poll_until fuel interval deadline) (read_clock b w)

  -- `_await_terminal`
  unfoldable pub await_terminal : ℕ → ℕ → ℕ → BrokerOrder → World W → Outcome × World W
  await_terminal fuel interval timeout o w =
      let (now, w') = read_clock b w in poll_until fuel interval (now + timeout) o w'

-- What is configured, beside the broker: retries, times in microseconds, and the fuel of the polling.
pub record EngineConfig : Type 0 where
  pub max_retries : ℕ
  pub timeout : ℕ
  pub poll_interval : ℕ
  pub backoff : ℕ → ℕ
  pub fuel : ℕ

module _ {W : Type 0} (b : BrokerPort W) (config : EngineConfig) (contracts : ℤ) where
  -- The result where no order exists under the id.
  abbrev pub no_order : String → ℕ → World W → Outcome × World W
  no_order id attempts w =
      let (r, w') = positions b w in
      (returned (unfilled status_failed id none contracts attempts (divergences_of r)), w')

  abbrev pub resolve_reply : String → ℕ → Reply (Option BrokerOrder) × World W → Outcome × World W
  resolve_reply id attempts (failed f, w) = no_order id attempts w
  resolve_reply id attempts (answered none, w) = no_order id attempts w
  resolve_reply id attempts (answered (some o), w) =
      await_terminal b contracts attempts config.fuel config.poll_interval config.timeout o w

  -- `_resolve_unknown`
  abbrev pub resolve_unknown : String → ℕ → World W → Outcome × World W
  resolve_unknown id attempts w = resolve_reply id attempts (poll b id w)

  -- One round of the loop of `_transmit`: `again` is what follows a fault that passes, where an attempt
  -- is left.
  abbrev pub submit_reply :
      OrderPayload
      → ℕ
      → Option (World W → Outcome × World W)
      → Reply BrokerOrder × World W
      → Outcome × World W
  submit_reply payload attempt again (answered o, w) =
      await_terminal b contracts attempt config.fuel config.poll_interval config.timeout o w
  submit_reply payload attempt again (failed permanent, w) =
      (returned (unfilled status_rejected payload.client_order_id none contracts attempt []), w)
  submit_reply payload attempt none (failed transient, w) =
      resolve_unknown payload.client_order_id attempt w
  submit_reply payload attempt (some again) (failed transient, w) =
      again (wait b (config.backoff attempt) w)
  submit_reply payload attempt again (failed unexpected, w) = (raised unexpected, w)

  -- The attempts from `attempt`, with `left` after it.
  unfoldable pub submit_from : OrderPayload → ℕ → ℕ → World W → Outcome × World W
  submit_from payload zero attempt w = submit_reply payload attempt none (submit b payload w)
  submit_from payload (suc left) attempt w =
      submit_reply payload attempt (some (submit_from payload left (suc attempt)))
        (submit b payload w)

  -- `_transmit`, on the retries.
  abbrev pub attempt_all : OrderPayload → World W → ℕ → Outcome × World W
  attempt_all payload w zero =
      (returned (unfilled status_failed payload.client_order_id none contracts 0 []), w)
  attempt_all payload w (suc left) = submit_from payload left 1 w

  -- `_transmit`
  unfoldable pub transmit : OrderPayload → World W → Outcome × World W
  transmit payload w = attempt_all payload w config.max_retries
