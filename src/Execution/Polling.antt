-- ===== src/Execution/Polling.antt =====
-- The polling of an order ends: with a clock that goes on, the fuel of the model is enough.
-- An outcome of the program, and not of the fuel.
use the_underwriter.Execution.Order.{OrderPayload}
use the_underwriter.Domain.Money.{dec_zero}
use the_underwriter.Domain.Decimal.{lt}
use the_underwriter.Base.Int.{ℤ}
use the_underwriter.Base.{
  ℕ, ◌≤◌, ◌+◌, String, Result, Option, ◌*◌, Bool, suc, err, some, ok, none, true, false, if-holds,
  ◌≡◌, subst, arith, leb, sym, zero,
}
use the_underwriter.Execution.Ports.{
  BrokerPort, BrokerOrder, World, Reply, failed, answered, poll, is_partial, wait, read_clock,
  is_terminal, submit, cancel, permanent, transient, unexpected,
}
use the_underwriter.Execution.Engine.{
  Outcome, returned, raised, poll_until, unfinished, cancel_reply, confirm_reply, poll_reply,
  finalise_on, confirm_on, await_terminal, EngineConfig, resolve_reply, submit_from, transmit,
  submit_reply, attempt_all,
}

abbrev pub Ends : Outcome → Type 0
Ends (returned r) = Unit
Ends (raised f) = Unit
Ends unfinished = ⊥

-- What the clock shows.
abbrev pub time : {W : Type 0} → BrokerPort W → W → ℕ
time b o = (b.clock o).0

-- The clock never goes back, and a sleep lasts at least as long as it was asked for.
pub record Ticks {W : Type 0} (b : BrokerPort W) : Type 0 where
  pub clock_on : (o : W) → time b o ≤ time b (b.clock o).1
  pub sleep_on : (micros : ℕ) (o : W) → time b o + micros ≤ time b (b.sleep micros o)
  pub acquire_on : (o : W) → time b o ≤ time b (b.acquire o)
  pub get_on : (id : String) (o : W) → time b o ≤ time b (b.get_order_by_client_id id o).1

module _ {W : Type 0} (b : BrokerPort W) (contracts : ℤ) (attempts : ℕ) where
  finalise_on-Ends :
      (o : BrokerOrder) (w : World W) (r : Result Bool)
      → Ends (finalise_on b contracts attempts o w r).0
  finalise_on-Ends o w (err e) = tt
  finalise_on-Ends o w (ok part) = tt

  confirm_on-Ends :
      (o confirmed : BrokerOrder) (w : World W) (r : Result Bool)
      → Ends (confirm_on b contracts attempts o confirmed w r).0
  confirm_on-Ends o confirmed w (err e) = tt
  confirm_on-Ends o confirmed w (ok true) = finalise_on-Ends confirmed w (is_partial confirmed)
  confirm_on-Ends o confirmed w (ok false) = tt

  confirm_reply-Ends :
      (o : BrokerOrder) (r : Reply (Option BrokerOrder) × World W)
      → Ends (confirm_reply b contracts attempts o r).0
  confirm_reply-Ends o (failed f, w) = tt
  confirm_reply-Ends o (answered none, w) = confirm_on-Ends o o w (lt dec_zero o.filled_qty)
  confirm_reply-Ends o (answered (some c), w) = confirm_on-Ends o c w (lt dec_zero c.filled_qty)

  cancel_reply-Ends :
      (o : BrokerOrder) (r : Reply (Unit {0}) × World W)
      → Ends (cancel_reply b contracts attempts o r).0
  cancel_reply-Ends o (failed f, w) = tt
  cancel_reply-Ends o (answered x, w) = confirm_reply-Ends o (poll b o.client_order_id w)

  poll_reply-Ends :
      (o : BrokerOrder) (more : BrokerOrder → World W → Outcome × World W) (start : ℕ)
      (r : Reply (Option BrokerOrder) × World W)
      → ((o : BrokerOrder) (w : World W) → start ≤ time b w.outside → Ends (more o w).0)
      → start ≤ time b r.1.outside
      → Ends (poll_reply b contracts attempts o more r).0
  poll_reply-Ends o more start (failed f, w) goes h = tt
  poll_reply-Ends o more start (answered none, w) goes h = tt
  poll_reply-Ends o more start (answered (some next), w) goes h = goes next w h

  -- A later poll is later by the interval.
  poll-later :
      (interval : ℕ) (id : String) (w : World W)
      → Ticks b
      → time b w.outside + interval
        ≤ time b (poll b id (wait b interval (read_clock b w).1)).1.outside
  poll-later interval id w ticks =
      let o₁ = (b.clock w.outside).1 in
      let o₂ = b.sleep interval o₁ in
      let o₃ = b.acquire o₂ in
      omega (
        arith,
        ticks.clock_on w.outside,
        ticks.sleep_on interval o₁,
        ticks.acquire_on o₂,
        ticks.get_on id o₃,
      )

  -- The deadline comes in the rounds that are left after this one.
  poll_until-Ends :
      (fuel interval deadline : ℕ) (o : BrokerOrder) (w : World W)
      → Ticks b
      → deadline ≤ time b w.outside + fuel * interval
      → Ends (poll_until b contracts attempts (suc fuel) interval deadline o w).0
  unfolding poll_until
  poll_until-Ends zero interval deadline o w ticks h =
      if-holds (λ (x : Outcome × World W). Ends x.0) (is_terminal o.state) _ _
        (λ over. finalise_on-Ends o w (is_partial o))
        (λ still.
          if-holds (λ (x : Outcome × World W). Ends x.0) (leb deadline (time b w.outside)) _ _
            (λ due. cancel_reply-Ends o (cancel b o.broker_order_id (read_clock b w).1))
            (λ early. absurd (ground arith)))
  poll_until-Ends (suc fuel) interval deadline o w ticks h =
      if-holds (λ (x : Outcome × World W). Ends x.0) (is_terminal o.state) _ _
        (λ over. finalise_on-Ends o w (is_partial o))
        (λ still.
          if-holds (λ (x : Outcome × World W). Ends x.0) (leb deadline (time b w.outside)) _ _
            (λ due. cancel_reply-Ends o (cancel b o.broker_order_id (read_clock b w).1))
            (λ early.
              poll_reply-Ends o (poll_until b contracts attempts (suc fuel) interval deadline)
                (time b w.outside + interval)
                (poll b o.client_order_id (wait b interval (read_clock b w).1))
                (λ o' w' late.
                  poll_until-Ends fuel interval deadline o' w' ticks (omega (arith, h, late)))
                (poll-later interval o.client_order_id w ticks)))

  await_terminal-Ends :
      (rounds interval timeout : ℕ) (o : BrokerOrder) (w : World W)
      → Ticks b
      → timeout ≤ rounds * interval
      → Ends (await_terminal b contracts attempts (suc rounds) interval timeout o w).0
  unfolding await_terminal
  await_terminal-Ends rounds interval timeout o w ticks enough =
      poll_until-Ends rounds interval (time b w.outside + timeout) o (read_clock b w).1 ticks
        (omega (arith, enough, ticks.clock_on w.outside))

-- A fuel that covers the timeout.
pub record IsFuelled (config : EngineConfig) : Type 0 where
  pub rounds : ℕ
  pub fuel_eq : config.fuel ≡ suc rounds
  pub enough : config.timeout ≤ rounds * config.poll_interval

module _ {W : Type 0} (b : BrokerPort W) (config : EngineConfig) (contracts : ℤ) (ticks : Ticks b)
    (fuelled : IsFuelled config) where
  awaited-Ends :
      (attempt : ℕ) (o : BrokerOrder) (w : World W)
      → Ends
          (await_terminal b contracts attempt config.fuel config.poll_interval config.timeout o w).0
  awaited-Ends attempt o w =
      subst
        (λ f. Ends (await_terminal b contracts attempt f config.poll_interval config.timeout o w).0)
        (sym fuelled.fuel_eq)
        (await_terminal-Ends b contracts attempt fuelled.rounds config.poll_interval config.timeout
          o w ticks fuelled.enough)

  resolve_reply-Ends :
      (id : String) (attempt : ℕ) (r : Reply (Option BrokerOrder) × World W)
      → Ends (resolve_reply b config contracts id attempt r).0
  resolve_reply-Ends id attempt (failed f, w) = tt
  resolve_reply-Ends id attempt (answered none, w) = tt
  resolve_reply-Ends id attempt (answered (some o), w) = awaited-Ends attempt o w

  -- What follows a fault ends, where an attempt is left.
  abbrev GoesOn : Option (World W → Outcome × World W) → Type 0
  GoesOn none = Unit
  GoesOn (some f) = (w : World W) → Ends (f w).0

  submit_reply-Ends :
      (payload : OrderPayload) (attempt : ℕ) (again : Option (World W → Outcome × World W))
      (r : Reply BrokerOrder × World W)
      → GoesOn again
      → Ends (submit_reply b config contracts payload attempt again r).0
  submit_reply-Ends payload attempt again (answered o, w) more = awaited-Ends attempt o w
  submit_reply-Ends payload attempt again (failed permanent, w) more = tt
  submit_reply-Ends payload attempt none (failed transient, w) more =
      resolve_reply-Ends payload.client_order_id attempt (poll b payload.client_order_id w)
  submit_reply-Ends payload attempt (some f) (failed transient, w) more =
      more (wait b (config.backoff attempt) w)
  submit_reply-Ends payload attempt none (failed unexpected, w) more = tt
  submit_reply-Ends payload attempt (some f) (failed unexpected, w) more = tt

  submit_from-Ends :
      (payload : OrderPayload) (left attempt : ℕ) (w : World W)
      → Ends (submit_from b config contracts payload left attempt w).0
  unfolding submit_from
  submit_from-Ends payload zero attempt w =
      submit_reply-Ends payload attempt none (submit b payload w) tt
  submit_from-Ends payload (suc left) attempt w =
      submit_reply-Ends payload attempt
        (some (submit_from b config contracts payload left (suc attempt))) (submit b payload w)
        (λ w'. submit_from-Ends payload left (suc attempt) w')

  attempt_all-Ends :
      (payload : OrderPayload) (w : World W) (n : ℕ)
      → Ends (attempt_all b config contracts payload w n).0
  attempt_all-Ends payload w zero = tt
  attempt_all-Ends payload w (suc left) = submit_from-Ends payload left 1 w

  -- With a clock that does not go back and sleeps that last, and a fuel of as many rounds as the
  -- timeout has intervals, and one more: a transmission ends with a result or an exception, whatever
  -- the broker answers, and the fuel never runs out.
  pub transmit-Ends :
      (payload : OrderPayload) (w : World W) → Ends (transmit b config contracts payload w).0
  unfolding transmit
  transmit-Ends payload w = attempt_all-Ends payload w config.max_retries
