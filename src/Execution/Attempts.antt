-- ===== src/Execution/Attempts.antt =====
-- How often an order is submitted.
use the_underwriter.Execution.Order.{OrderPayload}
use the_underwriter.Base.{false, true, String, ◌≤◌, arith}
use the_underwriter.Execution.Ports.{
  unexpected, listed, submitted, polled, cancelled, answered, failed, read_clock, cancel, wait,
  permanent, submit, transient,
}
use the_underwriter.Domain.Money.{dec_zero}
use the_underwriter.Domain.Decimal.{lt}
use the_underwriter.Execution.Engine.{
  poll_until, finalise, cancel_reply, confirm_reply, Outcome, await_terminal, finalise_on,
  confirm_on, poll_reply, poll_round, cancel_and_confirm, EngineConfig, submit_from, transmit,
  resolve_reply, submit_reply, attempt_all,
}
use the_underwriter.Base.Int.{ℤ}
use the_underwriter.Execution.Ports.{
  BrokerPort, Call, BrokerOrder, submitted, World, Reply, polled, failed, cancelled, is_partial,
  answered, is_terminal, poll,
}
use the_underwriter.Base.{
  List, ℕ, ◌∷◌, suc, Option, ◌≡◌, [], some, none, refl, zero, Bool, Result, if◌then◌else◌, ◌+◌,
  true, err, ok, leb,
}

-- The submissions among the calls.
abbrev pub submissions : List Call → ℕ
submissions [] = 0
submissions (submitted p ∷ cs) = suc (submissions cs)
submissions (polled id ∷ cs) = submissions cs
submissions (cancelled id ∷ cs) = submissions cs
submissions (listed ∷ cs) = submissions cs

if_same :
    {W : Type 0} (c : Bool) (x y : Outcome × World W) (n : ℕ)
    → submissions x.1.calls ≡ n
    → submissions y.1.calls ≡ n
    → submissions (if c then x else y).1.calls ≡ n
if_same true x y n hx hy = hx
if_same false x y n hx hy = hy

module _ {W : Type 0} (b : BrokerPort W) (contracts : ℤ) (attempts : ℕ) where
  -- What follows a submission submits nothing.
  finalise-submissions :
      (o : BrokerOrder) (w : World W) (t : Result Bool)
      → submissions (finalise_on b contracts attempts o w t).1.calls ≡ submissions w.calls
  finalise-submissions o w (err e) = refl
  finalise-submissions o w (ok part) = refl

  confirm-submissions :
      (o confirmed : BrokerOrder) (w : World W) (t : Result Bool)
      → submissions (confirm_on b contracts attempts o confirmed w t).1.calls ≡ submissions w.calls
  confirm-submissions o confirmed w (err e) = refl
  confirm-submissions o confirmed w (ok true) =
      finalise-submissions confirmed w (is_partial confirmed)
  confirm-submissions o confirmed w (ok false) = refl

  confirm_reply-submissions :
      (o : BrokerOrder) (r : Reply (Option BrokerOrder)) (w : World W)
      → submissions (confirm_reply b contracts attempts o (r, w)).1.calls ≡ submissions w.calls
  confirm_reply-submissions o (failed f) w = refl
  confirm_reply-submissions o (answered none) w =
      confirm-submissions o o w (lt dec_zero o.filled_qty)
  confirm_reply-submissions o (answered (some c)) w =
      confirm-submissions o c w (lt dec_zero c.filled_qty)

  cancel_reply-submissions :
      (o : BrokerOrder) (r : Reply (Unit {0})) (w : World W)
      → submissions (cancel_reply b contracts attempts o (r, w)).1.calls ≡ submissions w.calls
  cancel_reply-submissions o (failed f) w = refl
  cancel_reply-submissions o (answered u) w =
      let (r, w') = poll b o.client_order_id w in confirm_reply-submissions o r w'

  -- A loop that submits nothing.
  abbrev Quiet : (BrokerOrder → World W → Outcome × World W) → Type 0
  Quiet more =
      (o : BrokerOrder) (w : World W) → submissions (more o w).1.calls ≡ submissions w.calls

  poll_reply-submissions :
      (o : BrokerOrder) (more : BrokerOrder → World W → Outcome × World W)
      → Quiet more
      → (r : Reply (Option BrokerOrder)) (w : World W)
      → submissions (poll_reply b contracts attempts o more (r, w)).1.calls ≡ submissions w.calls
  poll_reply-submissions o more quiet (failed f) w = refl
  poll_reply-submissions o more quiet (answered none) w = refl
  poll_reply-submissions o more quiet (answered (some next)) w = quiet next w

  poll_until-submissions :
      (fuel interval deadline : ℕ) → Quiet (poll_until b contracts attempts fuel interval deadline)
  unfolding poll_until
  poll_until-submissions zero interval deadline o w = refl
  poll_until-submissions (suc fuel) interval deadline o w =
      let (now, w') = read_clock b w in
      let more = poll_until b contracts attempts fuel interval deadline in
      let (r, cancelled_world) = cancel b o.broker_order_id w' in
      let (q, polled_world) = poll b o.client_order_id (wait b interval w') in
      if_same (is_terminal o.state) (finalise b contracts attempts o w)
        (poll_round b contracts attempts interval deadline o more (now, w')) (submissions w.calls)
        (finalise-submissions o w (is_partial o))
        (if_same (leb deadline now) (cancel_and_confirm b contracts attempts o w')
          (poll_reply b contracts attempts o more (q, polled_world)) (submissions w.calls)
          (cancel_reply-submissions o r cancelled_world)
          (poll_reply-submissions o more (poll_until-submissions fuel interval deadline) q
            polled_world))

  await_terminal-submissions :
      (fuel interval timeout : ℕ)
      → Quiet (await_terminal b contracts attempts fuel interval timeout)
  unfolding await_terminal
  await_terminal-submissions fuel interval timeout o w =
      let (now, w') = read_clock b w in poll_until-submissions fuel interval (now + timeout) o w'

module _ {W : Type 0} (b : BrokerPort W) (config : EngineConfig) (contracts : ℤ) where
  resolve_reply-submissions :
      (id : String) (attempts : ℕ) (r : Reply (Option BrokerOrder)) (w : World W)
      → submissions (resolve_reply b config contracts id attempts (r, w)).1.calls
        ≡ submissions w.calls
  resolve_reply-submissions id attempts (failed f) w = refl
  resolve_reply-submissions id attempts (answered none) w = refl
  resolve_reply-submissions id attempts (answered (some o)) w =
      await_terminal-submissions b contracts attempts config.fuel config.poll_interval
        config.timeout o w

  -- A last attempt submits nothing more, whatever the broker replies.
  last_reply-submissions :
      (payload : OrderPayload) (attempt : ℕ) (r : Reply BrokerOrder) (w : World W)
      → submissions (submit_reply b config contracts payload attempt none (r, w)).1.calls
        ≡ submissions w.calls
  last_reply-submissions payload attempt (answered o) w =
      await_terminal-submissions b contracts attempt config.fuel config.poll_interval config.timeout
        o w
  last_reply-submissions payload attempt (failed permanent) w = refl
  last_reply-submissions payload attempt (failed transient) w =
      let (r, w') = poll b payload.client_order_id w in
      resolve_reply-submissions payload.client_order_id attempt r w'
  last_reply-submissions payload attempt (failed unexpected) w = refl

  again_reply-submissions :
      (payload : OrderPayload) (attempt n : ℕ) (again : World W → Outcome × World W)
      → ((w : World W) → submissions (again w).1.calls ≤ submissions w.calls + n)
      → (r : Reply BrokerOrder) (w : World W)
      → submissions (submit_reply b config contracts payload attempt (some again) (r, w)).1.calls
        ≤ submissions w.calls + n
  again_reply-submissions payload attempt n again bound (answered o) w = omega (
    arith,
    await_terminal-submissions b contracts attempt config.fuel config.poll_interval config.timeout o
        w,
  )
  again_reply-submissions payload attempt n again bound (failed permanent) w = omega arith
  again_reply-submissions payload attempt n again bound (failed transient) w =
      bound (wait b (config.backoff attempt) w)
  again_reply-submissions payload attempt n again bound (failed unexpected) w = omega arith

  submit_from-submissions :
      (payload : OrderPayload) (left attempt : ℕ) (w : World W)
      → submissions (submit_from b config contracts payload left attempt w).1.calls
        ≤ submissions w.calls + suc left
  unfolding submit_from
  submit_from-submissions payload zero attempt w =
      let (r, w') = submit b payload w in omega (arith, last_reply-submissions payload attempt r w')
  submit_from-submissions payload (suc left) attempt w =
      let (r, w') = submit b payload w in
      omega (
        arith,
        again_reply-submissions payload attempt (suc left)
            (submit_from b config contracts payload left (suc attempt))
            (submit_from-submissions payload left (suc attempt)) r w',
      )

  attempt_all-submissions :
      (payload : OrderPayload) (w : World W) (n : ℕ)
      → submissions (attempt_all b config contracts payload w n).1.calls ≤ submissions w.calls + n
  attempt_all-submissions payload w zero = omega arith
  attempt_all-submissions payload w (suc left) = submit_from-submissions payload left 1 w

  -- Whatever the broker replies, and however long it is polled, an execution submits its order at most
  -- as often as the retries that are configured.
  pub transmit-submissions :
      (payload : OrderPayload) (w : World W)
      → submissions (transmit b config contracts payload w).1.calls
        ≤ submissions w.calls + config.max_retries
  unfolding transmit
  transmit-submissions payload w = attempt_all-submissions payload w config.max_retries
