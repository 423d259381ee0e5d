-- ===== src/Book/Kept.antt =====
-- What a record leaves in the table of the Kernel's decisions.
use the_underwriter.Domain.Decimal.{mul, of_ℤ}
use the_underwriter.Kernel.Verdict.{KernelVerdict}
use the_underwriter.Domain.Proposal.{UnderwritingProposal}
use the_underwriter.Execution.Engine.{
  ExecutionResult, ExecutionStatus, status_partial, status_filled, status_cancelled,
  status_rejected, status_timed_out, status_failed,
}
use the_underwriter.Book.Rows.{EventSeverity, ActionType, critical}
use the_underwriter.Audit.Ledger.{Entry, append}
use the_underwriter.Base.{
  ℕ, String, Option, ◌≡◌, ok, >>=-eq-ok, ◌++◌, some, ◌∙◌, ap, ◌∷◌, sym, [], ok-injective,
}
use the_underwriter.Domain.Hashing.{Platform, Entries, entry, str, no_entry}
use the_underwriter.Book.Verdicts.{record_verdict, verdict_row}
use the_underwriter.Book.Policies.{risk_event, leg_risk_event, order, policy, PolicyTerms}
use the_underwriter.Book.Session.{append_entry, Draws, Formats, Session}

append_entry-decisions :
    (lib : Platform) (seq : ℕ) (e : Entry) (s s' : Session)
    → append_entry lib seq e s ≡ ok s'
    → s'.kernel_decisions ≡ s.kernel_decisions
unfolding append_entry
append_entry-decisions lib seq e s s' h =
    let (added, _, made) = >>=-eq-ok (append lib seq e s.audit) _ h in
    ap (λ (x : Session). x.kernel_decisions) (sym (ok-injective made))

pub risk_event-decisions :
    (lib : Platform) (d : Draws) (cid event_type : String) (severity : EventSeverity)
    (policy_id : Option String) (detail : Entries) (s s' : Session)
    → risk_event lib d cid event_type severity policy_id detail s ≡ ok s'
    → s'.kernel_decisions ≡ s.kernel_decisions
unfolding risk_event
risk_event-decisions lib d cid event_type severity policy_id detail s s' h =
    append_entry-decisions lib d.seq _ _ s' h

leg_risk_event-decisions :
    (lib : Platform) (d : Draws) (cid : String) (r : ExecutionResult) (policy_id : String)
    (status : ExecutionStatus) (s s' : Session)
    → leg_risk_event lib d cid r policy_id status s ≡ ok s'
    → s'.kernel_decisions ≡ s.kernel_decisions
unfolding leg_risk_event
leg_risk_event-decisions lib d cid r policy_id status_partial s s' h =
    risk_event-decisions lib d cid "LEG_RISK" critical (some policy_id)
      (entry "filled" (str (lib.decimal_str r.contracts_filled)) no_entry) s s' h
leg_risk_event-decisions lib d cid r policy_id status_filled s s' h =
    ap (λ (x : Session). x.kernel_decisions) (sym (ok-injective h))
leg_risk_event-decisions lib d cid r policy_id status_cancelled s s' h =
    ap (λ (x : Session). x.kernel_decisions) (sym (ok-injective h))
leg_risk_event-decisions lib d cid r policy_id status_rejected s s' h =
    ap (λ (x : Session). x.kernel_decisions) (sym (ok-injective h))
leg_risk_event-decisions lib d cid r policy_id status_timed_out s s' h =
    ap (λ (x : Session). x.kernel_decisions) (sym (ok-injective h))
leg_risk_event-decisions lib d cid r policy_id status_failed s s' h =
    ap (λ (x : Session). x.kernel_decisions) (sym (ok-injective h))

pub order-decisions :
    (lib : Platform) (d e : Draws) (cid : String) (r : ExecutionResult)
    (policy_id verdict_row_id : String) (s s' : Session)
    → order lib d e cid r policy_id verdict_row_id s ≡ ok s'
    → s'.kernel_decisions ≡ s.kernel_decisions
unfolding order
order-decisions lib d e cid r policy_id verdict_row_id s s' h =
    let (t, first, second) = >>=-eq-ok _ (leg_risk_event lib e cid r policy_id r.status) h in
    leg_risk_event-decisions lib e cid r policy_id r.status t s' second
    ∙ append_entry-decisions lib d.seq _ _ t first

pub policy-decisions :
    (lib : Platform) (formats : Formats) (d : Draws) (cid : String) (p : UnderwritingProposal)
    (t : PolicyTerms) (s s' : Session)
    → policy lib formats d cid p t s ≡ ok s'
    → s'.kernel_decisions ≡ s.kernel_decisions
unfolding policy
policy-decisions lib formats d cid p t s s' h =
    let (loss, _, h₁) = >>=-eq-ok (mul p.max_loss (of_ℤ t.contracts)) _ h in
    let (profit, _, h₂) = >>=-eq-ok (mul p.max_profit (of_ℤ t.contracts)) _ h₁ in
    append_entry-decisions lib d.seq _ _ s' h₂

-- A verdict that is recorded is the last row.
pub record_verdict-decisions :
    (lib : Platform) (unsigned : String → String) (d : Draws) (cid : String) (v : KernelVerdict)
    (candidate_row_id decision_row_id : Option String) (action_type : ActionType) (s : Session)
    (out : String × Session)
    → record_verdict lib unsigned d cid v candidate_row_id decision_row_id action_type s ≡ ok out
    → out.1.kernel_decisions
      ≡ s.kernel_decisions
        ++ verdict_row unsigned d cid v candidate_row_id decision_row_id action_type ∷ []
unfolding record_verdict
record_verdict-decisions lib unsigned d cid v candidate_row_id decision_row_id action_type s out h =
    let (s', added, made) = >>=-eq-ok _ (λ (x : Session). ok (d.id, x)) h in
    ap (λ (x : String × Session). x.1.kernel_decisions) (sym (ok-injective made))
    ∙ append_entry-decisions lib d.seq _ _ s' added
