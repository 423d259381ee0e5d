-- ===== src/Cycle/Manage.antt =====
-- backend/underwriter/cycle/manage.py: the management cycle. An exception that a position raises ends the
-- cycle. The tokens and the time of each verdict are arguments, by the number of the position.
use the_underwriter.Domain.Money.{dec_zero}
use the_underwriter.Base.Int.{pos}
use the_underwriter.Execution.Order.{OrderPayload}
use the_underwriter.Execution.Engine.{
  status_filled, EngineConfig, ExecutionStatus, raised, returned, unfinished,
}
use the_underwriter.Domain.Decimal.{Decimal, eq}
use the_underwriter.Kernel.Limits.{KernelLimits, hundredths}
use the_underwriter.Execution.Ports.{BrokerPort, World}
use the_underwriter.Kernel.Context.{KernelContext}
use the_underwriter.Domain.Proposal.{UnderwritingProposal, closing}
use the_underwriter.Kernel.Verdict.{NonceRegistry, KernelVerdict, Tokens, approved}
use the_underwriter.Domain.Hashing.{Platform}
use the_underwriter.Cycle.Underwrite.{CycleStatus, no_action, success}
use the_underwriter.Base.{
  String, Option, ℕ, List, ◌∷◌, none, [], Bool, if◌then◌else◌, some, str_eq, not, Result, suc,
  false, length, err, select, ok, map, true,
}
use the_underwriter.Kernel.Evaluate.{evaluate}
use the_underwriter.Claims.Desk.{
  evaluate as claims_evaluate, ManagedPosition, ClaimsVerdict, ClaimsPolicy,
}
use the_underwriter.Execution.Execute.{execute, Execution, refused, executed}

pub record ExitAttempt : Type 0 where
  pub policy_id : String
  pub policy_number : String
  pub claims : ClaimsVerdict
  pub verdict : Option KernelVerdict
  pub execution_status : Option ExecutionStatus

pub record ManagementReport : Type 0 where
  pub status : CycleStatus
  pub evaluated : ℕ
  pub closed : ℕ
  pub held : ℕ
  pub escalations : List String
  pub attempts : List ExitAttempt

-- What the cycle is given, besides the positions.
pub record Desk : Type 0 where
  pub lib : Platform
  pub secret : String
  pub limits : KernelLimits
  pub claims_policy : ClaimsPolicy
  pub today : ℕ
  pub proposals_by_policy : List (String × UnderwritingProposal)
  pub dry_run : Bool
  pub tokens : ℕ → Tokens
  pub now : ℕ → ℕ

-- What it changes: the nonces that were used, and the broker's world.
pub record Outside (W : Type 0) : Type 0 where
  pub nonces : NonceRegistry
  pub world : World W

-- An attempt, or an exception that ends the cycle.
pub data Attempted : Type 0 where
  attempted : ExitAttempt → Attempted
  broke : Attempted

abbrev pub untried : ManagedPosition → ClaimsVerdict → Option KernelVerdict → ExitAttempt
untried position claims verdict = record {
  policy_id = position.policy_id;
  policy_number = position.policy_number;
  claims = claims;
  verdict = verdict;
  execution_status = none;
}

-- `proposals_by_policy.get(policy_id)`
abbrev pub stored_proposal :
    String → List (String × UnderwritingProposal) → Option UnderwritingProposal
stored_proposal id [] = none
stored_proposal id ((name, p) ∷ ps) =
    let rest = stored_proposal id ps in if str_eq name id then some p else rest

-- `replace(proposal, action=Action.CLOSE)`
abbrev pub closing_of : UnderwritingProposal → UnderwritingProposal
closing_of p = record p { action = closing }

-- The context with the closing proposal as its only candidate.
abbrev pub exit_context : KernelContext → UnderwritingProposal → KernelContext
exit_context c p = record c { supplied_candidate_ids = p.candidate_id ∷ [] }

-- `claims.target_debit or Decimal("0.01")`
abbrev pub target_or_cent : Option Decimal → Decimal
target_or_cent none = hundredths 1
target_or_cent (some d) = if eq d dec_zero then hundredths 1 else d

-- What is made of the attempts, where no exception ended the cycle.
abbrev pub where_ended : {A B : Type 0} → (A → B) → Option A → Option B
where_ended f none = none
where_ended f (some a) = some (f a)

module _ {W : Type 0} (k : Desk) (b : BrokerPort W) (engine : EngineConfig)
    (blocks : OrderPayload → Bool) (context : KernelContext) where
  abbrev pub executed_attempt :
      ManagedPosition → ClaimsVerdict → KernelVerdict → Execution → Attempted
  executed_attempt position claims v (refused e) = broke
  executed_attempt position claims v (executed (raised f)) = broke
  executed_attempt position claims v (executed unfinished) = broke
  executed_attempt position claims v (executed (returned r)) =
      attempted (record (untried position claims (some v)) { execution_status = some r.status })

  -- After the approval.
  unfoldable pub close_position :
      ℕ
      → ManagedPosition
      → ClaimsVerdict
      → UnderwritingProposal
      → KernelVerdict
      → Outside W
      → Attempted × Outside W
  unfolding execute
  close_position n position claims p v out =
      let run =
        execute k.lib b engine blocks k.secret p (some v) (k.now n)
          (some (target_or_cent claims.target_debit)) (pos 0) out.nonces out.world in
      (
        executed_attempt position claims v run.execution,
        record { nonces = run.nonces; world = run.world },
      )

  -- `_attempt_exit`, on the proposal that is stored for the policy.
  unfoldable pub attempt_exit :
      ℕ
      → ManagedPosition
      → ClaimsVerdict
      → Option UnderwritingProposal
      → Outside W
      → Attempted × Outside W
  unfolding evaluate close_position
  attempt_exit n position claims none out = (attempted (untried position claims none), out)
  attempt_exit n position claims (some p) out =
      let shut = closing_of p in
      let v =
        evaluate k.lib (k.tokens n) shut position.contracts (exit_context context shut) k.secret
          k.limits in
      if not (approved v)
      then (attempted (untried position claims (some v)), out)
      else if k.dry_run
      then (attempted (untried position claims (some v)), out)
      else close_position n position claims shut v out

  -- One position, after the desk has judged it.
  unfoldable pub manage_judged :
      ℕ → ManagedPosition → Result ClaimsVerdict → Outside W → Attempted × Outside W
  unfolding attempt_exit
  manage_judged n position (err e) out = (broke, out)
  manage_judged n position (ok claims) out =
      if not claims.should_close
      then (attempted (untried position claims none), out)
      else attempt_exit n position claims (stored_proposal position.policy_id k.proposals_by_policy)
          out

  -- The rest of the loop, after one position.
  abbrev pub with_attempt :
      (Outside W → Option (List ExitAttempt) × Outside W)
      → Attempted × Outside W
      → Option (List ExitAttempt) × Outside W
  with_attempt rest (broke, out) = (none, out)
  with_attempt rest (attempted a, out) =
      let (later, out') = rest out in (where_ended (λ attempts. a ∷ attempts) later, out')

  -- The loop, from a position on.
  unfoldable pub manage_from :
      ℕ → List ManagedPosition → Outside W → Option (List ExitAttempt) × Outside W
  unfolding manage_judged claims_evaluate
  manage_from n [] out = (some [], out)
  manage_from n (position ∷ positions) out =
      with_attempt (manage_from (suc n) positions)
        (manage_judged n position (claims_evaluate position k.today k.claims_policy) out)

  -- The counts of the attempts.
  abbrev pub was_held : ExitAttempt → Bool
  was_held a = not a.claims.should_close

  abbrev pub was_closed : ExitAttempt → Bool
  was_closed a = elim a.execution_status [
    | none ↦ false
    | some s ↦ elim s [ status_filled ↦ true | _ ↦ false ]
  ]

  abbrev pub has_positions : List ManagedPosition → CycleStatus
  has_positions [] = no_action
  has_positions (p ∷ ps) = success

  abbrev pub management_report : List ManagedPosition → List ExitAttempt → ManagementReport
  management_report positions attempts = record {
    status = has_positions positions;
    evaluated = length positions;
    closed = length (select was_closed attempts);
    held = length (select was_held attempts);
    escalations = map (λ a. a.policy_number) (select (λ a. a.claims.escalate) attempts);
    attempts = attempts;
  }

  -- `run_management_cycle`
  unfoldable pub run_management_cycle :
      List ManagedPosition → Outside W → Option ManagementReport × Outside W
  unfolding manage_from
  run_management_cycle positions out =
      let (attempts, out') = manage_from 0 positions out in
      (where_ended (management_report positions) attempts, out')
