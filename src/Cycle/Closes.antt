-- ===== src/Cycle/Closes.antt =====
-- What the management cycle asks of the broker.
use the_underwriter.Base.Int.{pos}
use the_underwriter.Execution.Attempts.{submissions}
use the_underwriter.Domain.Proposal.{UnderwritingProposal}
use the_underwriter.Kernel.Verdict.{NonceRegistry, approved}
use the_underwriter.Claims.Desk.{ManagedPosition, ClaimsVerdict, evaluate as claims_evaluate}
use the_underwriter.Kernel.Context.{KernelContext}
use the_underwriter.Base.{
  refl, Bool, ℕ, Result, suc, ◌≡◌, Option, err, false, ◌⊎◌, true, inl, ok, some, if-holds, not,
  not-false, ◌≤◌, ◌+◌, inr, none, List, ◌*◌, length, ◌∷◌, [], arith, ap,
}
use the_underwriter.Execution.Order.{OrderPayload}
use the_underwriter.Execution.Engine.{EngineConfig}
use the_underwriter.Execution.Ports.{BrokerPort, World}
use the_underwriter.Cycle.Manage.{
  Desk, close_position, attempt_exit, manage_judged, Outside, stored_proposal, closing_of,
  Attempted, exit_context, target_or_cent, manage_from, run_management_cycle, ExitAttempt,
  with_attempt, attempted, broke,
}
use the_underwriter.Kernel.Evaluate.{evaluate}
use the_underwriter.Execution.Execute.{Authorised, execute-Authorised}

module _ {W : Type 0} (k : Desk) (b : BrokerPort W) (engine : EngineConfig)
    (blocks : OrderPayload → Bool) (context : KernelContext) where
  -- The close of one position, which comes after `n` others: the desk judged this position and wants it
  -- closed, it is no dry run, the order is a close, the Kernel approved it in the context of just this
  -- candidate, and the gate accepts the verdict.
  pub record Closing (n : ℕ) (position : ManagedPosition) (nonces : NonceRegistry) (w w' : World W)
      : Type 0 where
    pub claims : ClaimsVerdict
    pub p : UnderwritingProposal
    pub wet : k.dry_run ≡ false
    pub judged : claims_evaluate position k.today k.claims_policy ≡ ok claims
    pub wanted : claims.should_close ≡ true
    pub stored : stored_proposal position.policy_id k.proposals_by_policy ≡ some p
    pub approves :
        approved (
          evaluate k.lib
            (k.tokens n)
            (closing_of p)
            position.contracts
            (exit_context context (closing_of p))
            k.secret
            k.limits)
        ≡ true
    pub authorised :
        Authorised k.lib b engine blocks k.secret
          (closing_of p)
          (some (
            evaluate k.lib
              (k.tokens n)
              (closing_of p)
              position.contracts
              (exit_context context (closing_of p))
              k.secret
              k.limits))
          (k.now n)
          nonces
    pub few : submissions w'.calls ≤ submissions w.calls + engine.max_retries

  -- What one position comes to.
  abbrev IsManaged : ℕ → ManagedPosition → Outside W → Outside W → Type 0
  IsManaged n position out out' =
      (out'.world ≡ out.world) ⊎ Closing n position out.nonces out.world out'.world

  close_position-IsManaged :
      (n : ℕ) (position : ManagedPosition) (claims : ClaimsVerdict) (p : UnderwritingProposal)
      (out : Outside W)
      → k.dry_run ≡ false
      → claims_evaluate position k.today k.claims_policy ≡ ok claims
      → claims.should_close ≡ true
      → stored_proposal position.policy_id k.proposals_by_policy ≡ some p
      → approved (
          evaluate k.lib
            (k.tokens n)
            (closing_of p)
            position.contracts
            (exit_context context (closing_of p))
            k.secret
            k.limits)
        ≡ true
      → IsManaged n position out
          (close_position k b engine blocks context n position claims
            (closing_of p)
            (evaluate k.lib
              (k.tokens n)
              (closing_of p)
              position.contracts
              (exit_context context (closing_of p))
              k.secret
              k.limits)
            out).1
  unfolding close_position
  close_position-IsManaged n position claims p out wet judged wanted stored approves =
      let shut = closing_of p in
      let v =
        evaluate k.lib (k.tokens n) shut position.contracts (exit_context context shut) k.secret
          k.limits in
      elim (execute-Authorised k.lib b engine blocks k.secret shut (some v) (k.now n)
        (some (target_or_cent claims.target_debit)) (pos 0) out.nonces out.world) [
          | inl still ↦ inl still
          | inr (authorised, few) ↦ inr (record {
            claims = claims;
            p = p;
            wet = wet;
            judged = judged;
            wanted = wanted;
            stored = stored;
            approves = approves;
            authorised = authorised;
            few = few;
          })
        ]

  attempt_exit-IsManaged :
      (n : ℕ) (position : ManagedPosition) (claims : ClaimsVerdict)
      (op : Option UnderwritingProposal) (out : Outside W)
      → claims_evaluate position k.today k.claims_policy ≡ ok claims
      → claims.should_close ≡ true
      → stored_proposal position.policy_id k.proposals_by_policy ≡ op
      → IsManaged n position out (attempt_exit k b engine blocks context n position claims op out).1
  unfolding attempt_exit
  attempt_exit-IsManaged n position claims none out judged wanted stored = inl refl
  attempt_exit-IsManaged n position claims (some p) out judged wanted stored =
      let v =
        evaluate k.lib (k.tokens n) (closing_of p) position.contracts
          (exit_context context (closing_of p)) k.secret k.limits in
      if-holds (λ (x : Attempted × Outside W). IsManaged n position out x.1) (not (approved v)) _ _
        (λ refusal. inl refl)
        (λ approves.
          if-holds (λ (x : Attempted × Outside W). IsManaged n position out x.1) k.dry_run _ _
            (λ dry. inl refl)
            (λ wet.
              close_position-IsManaged n position claims p out wet judged wanted stored
                (not-false (approved v) approves)))

  manage_judged-IsManaged :
      (n : ℕ) (position : ManagedPosition) (r : Result ClaimsVerdict) (out : Outside W)
      → claims_evaluate position k.today k.claims_policy ≡ r
      → IsManaged n position out (manage_judged k b engine blocks context n position r out).1
  unfolding manage_judged
  manage_judged-IsManaged n position (err e) out judged = inl refl
  manage_judged-IsManaged n position (ok claims) out judged =
      if-holds (λ (x : Attempted × Outside W). IsManaged n position out x.1)
        (not claims.should_close) _ _ (λ stays. inl refl)
        (λ goes.
          attempt_exit-IsManaged n position claims
            (stored_proposal position.policy_id k.proposals_by_policy) out judged
            (not-false claims.should_close goes) refl)

  -- What a cycle over these positions does to the world and to the consumed nonces: position by
  -- position, of which the first comes after `n` others, it leaves the world alone or it closes that one.
  pub data Closes : ℕ → List ManagedPosition → Outside W → Outside W → Type 0 where
    over : (n : ℕ) {out : Outside W} → Closes n [] out out
    left_alone :
        (n : ℕ) (position : ManagedPosition) {ps : List ManagedPosition} {out next end : Outside W}
        → next.world ≡ out.world
        → Closes (suc n) ps next end
        → Closes n (position ∷ ps) out end
    closes :
        (n : ℕ) (position : ManagedPosition) {ps : List ManagedPosition} {out next end : Outside W}
        → Closing n position out.nonces out.world next.world
        → Closes (suc n) ps next end
        → Closes n (position ∷ ps) out end

  nothing_closed : (n : ℕ) (ps : List ManagedPosition) (out : Outside W) → Closes n ps out out
  nothing_closed n [] out = over n
  nothing_closed n (p ∷ ps) out = left_alone n p refl (nothing_closed (suc n) ps out)

  managed-Closes :
      (n : ℕ) (position : ManagedPosition) (ps : List ManagedPosition) (out next end : Outside W)
      → IsManaged n position out next
      → Closes (suc n) ps next end
      → Closes n (position ∷ ps) out end
  managed-Closes n position ps out next end (inl still) c = left_alone n position still c
  managed-Closes n position ps out next end (inr closing_one) c = closes n position closing_one c

  with_attempt-Closes :
      (n : ℕ) (position : ManagedPosition) (ps : List ManagedPosition) (out : Outside W)
      (x : Attempted × Outside W) (rest : Outside W → Option (List ExitAttempt) × Outside W)
      → IsManaged n position out x.1
      → ((o : Outside W) → Closes (suc n) ps o (rest o).1)
      → Closes n (position ∷ ps) out (with_attempt k b engine blocks context rest x).1
  with_attempt-Closes n position ps out (broke, o) rest managed c =
      managed-Closes n position ps out o o managed (nothing_closed (suc n) ps o)
  with_attempt-Closes n position ps out (attempted a, o) rest managed c =
      managed-Closes n position ps out o (rest o).1 managed (c o)

  manage_from-Closes :
      (n : ℕ) (positions : List ManagedPosition) (out : Outside W)
      → Closes n positions out (manage_from k b engine blocks context n positions out).1
  unfolding manage_from
  manage_from-Closes n [] out = over n
  manage_from-Closes n (position ∷ positions) out =
      with_attempt-Closes n position positions out
        (manage_judged k b engine blocks context n position
          (claims_evaluate position k.today k.claims_policy) out)
        (manage_from k b engine blocks context (suc n) positions)
        (manage_judged-IsManaged n position _ out refl)
        (λ o. manage_from-Closes (suc n) positions o)

  same_calls : {u w : World W} → w ≡ u → submissions w.calls ≡ submissions u.calls
  same_calls e = ap (λ (x : World W). submissions x.calls) e

  Closes-few :
      {n : ℕ} {ps : List ManagedPosition} {out end : Outside W}
      → Closes n ps out end
      → submissions end.world.calls ≤ submissions out.world.calls + length ps * engine.max_retries
  Closes-few (over n) = omega arith
  Closes-few (left_alone n position still c) = omega (arith, Closes-few c, same_calls still)
  Closes-few (closes n position closing_one c) = omega (arith, Closes-few c, closing_one.few)

  -- Whatever the broker does: the management cycle goes through the positions in their order and asks of
  -- the broker at most one close for each. Each close is of a position that the desk, asked for this
  -- day, judged to be closed, in no dry run, for the stored proposal turned into a close, which the
  -- Kernel approved in the context of just this candidate and whose verdict the gate accepts. The orders
  -- are submitted at most as often as the positions times the retries that are configured.
  pub run_management_cycle-Closes :
      (positions : List ManagedPosition) (out : Outside W)
      → Closes 0 positions out (run_management_cycle k b engine blocks context positions out).1
        × (submissions (run_management_cycle k b engine blocks context positions out).1.world.calls
            ≤ submissions out.world.calls + length positions * engine.max_retries)
  unfolding run_management_cycle
  run_management_cycle-Closes positions out =
      let c = manage_from-Closes 0 positions out in (c, Closes-few c)
