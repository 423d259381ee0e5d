-- ===== src/Execution/Execute.antt =====
-- `execute` of backend/underwriter/execution/engine.py: the one entry point, which authorises before it
-- builds, and builds before it transmits. The pre-flight is a test on the payload, which is constantly
-- false where none is configured.
use the_underwriter.Base.{refl, arith, none, some, Bool-cases}
use the_underwriter.Execution.Attempts.{submissions, transmit-submissions}
use the_underwriter.Kernel.Verdict.Authorize.{Accepts, authorize-cases}
use the_underwriter.Domain.Decimal.{Decimal}
use the_underwriter.Domain.Proposal.{UnderwritingProposal, is_close, proposal_hash}
use the_underwriter.Base.Int.{ℤ}
use the_underwriter.Execution.Ports.{World, BrokerPort}
use the_underwriter.Execution.Engine.{
  Outcome, returned, EngineConfig, unfilled, status_rejected, transmit,
}
use the_underwriter.Domain.Hashing.{Platform}
use the_underwriter.Execution.Order.{OrderPayload, build_exit_order, build_entry_order}
use the_underwriter.Kernel.Verdict.{NonceRegistry, KernelVerdict, authorize}
use the_underwriter.Base.{
  Error, Option, Bool, Result, String, none, if◌then◌else◌, err, [], ok, ℕ, value_error, ◌≡◌, some,
  ◌⊎◌, ◌≤◌, ◌+◌, Result-cases, inl, inr,
}

-- What `execute` does: it raises before anything is sent, or it has an outcome.
pub data Execution : Type 0 where
  refused : Error → Execution
  executed : Outcome → Execution

pub record Run (W : Type 0) : Type 0 where
  pub execution : Execution
  pub nonces : NonceRegistry
  pub world : World W

-- The result of a pre-flight that blocks.
abbrev pub blocked : OrderPayload → ℤ → Outcome
blocked payload contracts =
    returned (unfilled status_rejected payload.client_order_id none contracts 0 [])

unfoldable pub build_order :
    Platform → UnderwritingProposal → ℤ → Option Decimal → ℤ → Result OrderPayload
build_order lib p contracts target_debit step =
    if is_close p.action
    then elim target_debit [
      | none ↦ err value_error
      | some debit ↦ build_exit_order lib p contracts debit step
    ]
    else build_entry_order lib p contracts step

module _ {W : Type 0} (lib : Platform) (b : BrokerPort W) (config : EngineConfig)
    (blocks : OrderPayload → Bool) where
  -- After the order was built.
  unfoldable pub send : ℤ → Result OrderPayload → World W → Execution × World W
  send contracts (err e) w = (refused e, w)
  send contracts (ok payload) w =
      if blocks payload
      then (executed (blocked payload contracts), w)
      else (let (o, w') = transmit b config contracts payload w in (executed o, w'))

  -- After the gate.
  unfoldable pub build_and_send :
      UnderwritingProposal → Option Decimal → ℤ → Result ℤ × NonceRegistry → World W → Run W
  unfolding send
  build_and_send p target_debit step (err e, nonces) w = record {
    execution = refused e;
    nonces = nonces;
    world = w;
  }
  build_and_send p target_debit step (ok contracts, nonces) w =
      let (execution, w') = send contracts (build_order lib p contracts target_debit step) w in
      record { execution = execution; nonces = nonces; world = w' }

  unfoldable pub execute_hashed :
      String
      → UnderwritingProposal
      → Option KernelVerdict
      → ℕ
      → Option Decimal
      → ℤ
      → NonceRegistry
      → Result String
      → World W
      → Run W
  execute_hashed secret p verdict now target_debit step nonces (err e) w = record {
    execution = refused e;
    nonces = nonces;
    world = w;
  }
  execute_hashed secret p verdict now target_debit step nonces (ok hash) w =
      build_and_send p target_debit step (authorize lib verdict hash secret now nonces) w

  unfoldable pub execute :
      String
      → UnderwritingProposal
      → Option KernelVerdict
      → ℕ
      → Option Decimal
      → ℤ
      → NonceRegistry
      → World W
      → Run W
  unfolding execute_hashed
  execute secret p verdict now target_debit step nonces w =
      execute_hashed secret p verdict now target_debit step nonces (proposal_hash lib p) w

  send-submissions :
      (contracts : ℤ) (r : Result OrderPayload) (w : World W)
      → submissions (send contracts r w).1.calls ≤ submissions w.calls + config.max_retries
  unfolding send
  send-submissions contracts (err e) w = omega arith
  send-submissions contracts (ok payload) w = elim (Bool-cases (blocks payload)) [
    | inl stopped ↦ rw stopped (omega arith)
    | inr clear ↦ rw clear (transmit-submissions b config contracts payload w)
  ]

  -- A verdict that the gate accepts for the proposal.
  abbrev pub Authorised :
      String → UnderwritingProposal → Option KernelVerdict → ℕ → NonceRegistry → Type 0
  Authorised secret p verdict now nonces =
      (v : KernelVerdict) × (hash : String) × (verdict ≡ some v)
      × (proposal_hash lib p ≡ ok hash)
      × Accepts lib v hash secret now nonces

  -- Nothing is asked of the broker unless the gate accepts a verdict for the proposal; and then the
  -- order is submitted at most as often as the retries that are configured.
  pub execute-Authorised :
      (secret : String) (p : UnderwritingProposal) (verdict : Option KernelVerdict) (now : ℕ)
      (target_debit : Option Decimal) (step : ℤ) (nonces : NonceRegistry) (w : World W)
      → ((execute secret p verdict now target_debit step nonces w).world ≡ w)
        ⊎ (Authorised secret p verdict now nonces
            × (submissions (execute secret p verdict now target_debit step nonces w).world.calls
                ≤ submissions w.calls + config.max_retries))
  unfolding execute execute_hashed
  execute-Authorised secret p none now target_debit step nonces w =
      elim (Result-cases (proposal_hash lib p)) [
        | inl (e, raised_here) ↦ inl (rw raised_here refl)
        | inr (hash, hashed) ↦ unfold authorize build_and_send in inl (rw hashed refl)
      ]
  execute-Authorised secret p (some v) now target_debit step nonces w =
      elim (Result-cases (proposal_hash lib p)) [
        | inl (e, raised_here) ↦ inl (rw raised_here refl)
        | inr (hash, hashed) ↦ elim (authorize-cases lib v hash secret now nonces) [
          | inl (e, refusal) ↦ unfold build_and_send in inl (rw (hashed, refusal) refl)
          | inr (accepts, passed) ↦ inr (
            (v, hash, refl, hashed, accepts),
            unfold build_and_send in
                rw (hashed, passed)
                  (send-submissions v.approved_contracts
                    (build_order lib p v.approved_contracts target_debit step) w),
          )
        ]
      ]
