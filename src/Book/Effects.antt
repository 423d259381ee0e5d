-- ===== src/Book/Effects.antt =====
-- What a record changes in the session: the policies, the reserves, and the ledger.
use the_underwriter.Domain.Money.{dec_zero}
use the_underwriter.Domain.Decimal.{Decimal, mul, of_ℤ, lt}
use the_underwriter.Domain.Proposal.{UnderwritingProposal}
use the_underwriter.Execution.Engine.{
  ExecutionResult, ExecutionStatus, status_partial, status_filled, status_cancelled,
  status_rejected, status_timed_out, status_failed,
}
use the_underwriter.Book.Rows.{Policy, EventSeverity, Reserve, critical}
use the_underwriter.Audit.Ledger.{Entry, genesis_hash, append}
use the_underwriter.Audit.Chain.{IsChain, IsDigest, append-IsChain}
use the_underwriter.Base.{
  ℕ, List, String, ◌∙◌, ok, ◌≡◌, >>=-eq-ok, Option, sym, ◌⊎◌, ok-injective, Bool, refl, ◌++◌, ◌∷◌,
  inl, [], inr, some, none,
}
use the_underwriter.Book.Policies.{
  risk_event, leg_risk_event, order, settle, settle_found, Settlement, PolicyTerms, settle_in,
  release_in, policy_row, next_policy_number, find_policy, reserve_row, policy, settle_on,
}
use the_underwriter.Book.Session.{append_entry, Session, Draws, Formats}
use the_underwriter.Domain.Hashing.{Platform, Entries, entry, str, no_entry}

-- The ledger is whole.
abbrev pub Whole : Platform → Session → Type 0
Whole lib s = IsChain lib genesis_hash s.audit

-- A record that leaves the ledger whole, and the policies and the reserves as they are told.
pub record Leaves (lib : Platform) (s s' : Session) (ps : List Policy) (rs : List Reserve)
    : Type 0 where
  pub policies_eq : s'.policies ≡ ps
  pub reserves_eq : s'.reserves ≡ rs
  pub whole : Whole lib s → Whole lib s'

pub append_entry-Leaves :
    (lib : Platform) (seq : ℕ) (e : Entry) (s s' : Session)
    → IsDigest lib
    → append_entry lib seq e s ≡ ok s'
    → Leaves lib s s' s.policies s.reserves
unfolding append_entry
append_entry-Leaves lib seq e s s' digest h =
    let ((row, rows), added, made) = >>=-eq-ok (append lib seq e s.audit) _ h in
    let same : s' ≡ record s { audit = rows } = sym (ok-injective made) in
    rw same (record {
      policies_eq = refl;
      reserves_eq = refl;
      whole = λ c. (append-IsChain lib seq e s.audit rows row digest c added).1;
    })

pub risk_event-Leaves :
    (lib : Platform) (d : Draws) (cid event_type : String) (severity : EventSeverity)
    (policy_id : Option String) (detail : Entries) (s s' : Session)
    → IsDigest lib
    → risk_event lib d cid event_type severity policy_id detail s ≡ ok s'
    → Leaves lib s s' s.policies s.reserves
unfolding risk_event
risk_event-Leaves lib d cid event_type severity policy_id detail s s' digest h =
    let l = append_entry-Leaves lib d.seq _ _ s' digest h in
    record { policies_eq = l.policies_eq; reserves_eq = l.reserves_eq; whole = l.whole }

Leaves-trans :
    (lib : Platform) (s t u : Session)
    → Leaves lib s t s.policies s.reserves
    → Leaves lib t u t.policies t.reserves
    → Leaves lib s u s.policies s.reserves
Leaves-trans lib s t u a b = record {
  policies_eq = b.policies_eq ∙ a.policies_eq;
  reserves_eq = b.reserves_eq ∙ a.reserves_eq;
  whole = λ c. b.whole (a.whole c);
}

Leaves-refl :
    (lib : Platform) (s s' : Session) → ok s ≡ ok s' → Leaves lib s s' s.policies s.reserves
Leaves-refl lib s s' h =
    let same : s' ≡ s = sym (ok-injective h) in
    rw same (record { policies_eq = refl; reserves_eq = refl; whole = λ c. c })

leg_risk_event-Leaves :
    (lib : Platform) (d : Draws) (cid : String) (r : ExecutionResult) (policy_id : String)
    (status : ExecutionStatus) (s s' : Session)
    → IsDigest lib
    → leg_risk_event lib d cid r policy_id status s ≡ ok s'
    → Leaves lib s s' s.policies s.reserves
unfolding leg_risk_event
leg_risk_event-Leaves lib d cid r policy_id status_partial s s' digest h =
    risk_event-Leaves lib d cid "LEG_RISK" critical (some policy_id)
      (entry "filled" (str (lib.decimal_str r.contracts_filled)) no_entry) s s' digest h
leg_risk_event-Leaves lib d cid r policy_id status_filled s s' digest h = Leaves-refl lib s s' h
leg_risk_event-Leaves lib d cid r policy_id status_cancelled s s' digest h = Leaves-refl lib s s' h
leg_risk_event-Leaves lib d cid r policy_id status_rejected s s' digest h = Leaves-refl lib s s' h
leg_risk_event-Leaves lib d cid r policy_id status_timed_out s s' digest h = Leaves-refl lib s s' h
leg_risk_event-Leaves lib d cid r policy_id status_failed s s' digest h = Leaves-refl lib s s' h

pub order-Leaves :
    (lib : Platform) (d e : Draws) (cid : String) (r : ExecutionResult)
    (policy_id verdict_row_id : String) (s s' : Session)
    → IsDigest lib
    → order lib d e cid r policy_id verdict_row_id s ≡ ok s'
    → Leaves lib s s' s.policies s.reserves
unfolding order
order-Leaves lib d e cid r policy_id verdict_row_id s s' digest h =
    let (t, first, second) = >>=-eq-ok _ (leg_risk_event lib e cid r policy_id r.status) h in
    let a = append_entry-Leaves lib d.seq _ _ t digest first in
    Leaves-trans lib s t s'
      (record { policies_eq = a.policies_eq; reserves_eq = a.reserves_eq; whole = a.whole })
      (leg_risk_event-Leaves lib e cid r policy_id r.status t s' digest second)

-- What is written with a policy.
pub record Written (lib : Platform) (d : Draws) (cid : String) (p : UnderwritingProposal)
    (t : PolicyTerms) (s s' : Session) : Type 0 where
  pub loss : Decimal
  pub profit : Decimal
  pub loss_eq : mul p.max_loss (of_ℤ t.contracts) ≡ ok loss
  pub leaves :
      Leaves lib s s'
        (s.policies ++ policy_row d cid p t (next_policy_number d.year s.policies) loss profit ∷ [])
        (s.reserves ++ reserve_row d.id loss ∷ [])

pub policy-Written :
    (lib : Platform) (formats : Formats) (d : Draws) (cid : String) (p : UnderwritingProposal)
    (t : PolicyTerms) (s s' : Session)
    → IsDigest lib
    → policy lib formats d cid p t s ≡ ok s'
    → Written lib d cid p t s s'
unfolding policy
policy-Written lib formats d cid p t s s' digest h =
    let (loss, e, h₁) = >>=-eq-ok (mul p.max_loss (of_ℤ t.contracts)) _ h in
    let (profit, _, h₂) = >>=-eq-ok (mul p.max_profit (of_ℤ t.contracts)) _ h₁ in
    let l = append_entry-Leaves lib d.seq _ _ s' digest h₂ in
    record {
      loss = loss;
      profit = profit;
      loss_eq = e;
      leaves = record { policies_eq = l.policies_eq; reserves_eq = l.reserves_eq; whole = l.whole };
    }

settle_on-Leaves :
    (lib : Platform) (d : Draws) (cid id : String) (t : Settlement) (s s' : Session)
    (o : Option Policy)
    → IsDigest lib
    → settle_on lib d cid id t s o ≡ ok s'
    → Leaves lib s s' s.policies s.reserves
      ⊎ ((win : Bool) × Leaves lib s s'
            (settle_in id d.now t win s.policies)
            (release_in id d.now s.reserves))
unfolding settle_on settle_found
settle_on-Leaves lib d cid id t s s' none digest h = inl (Leaves-refl lib s s' h)
settle_on-Leaves lib d cid id t s s' (some p) digest h =
    let (win, _, h₁) = >>=-eq-ok (lt dec_zero t.realized) _ h in
    let l = append_entry-Leaves lib d.seq _ _ s' digest h₁ in
    inr (win, record { policies_eq = l.policies_eq; reserves_eq = l.reserves_eq; whole = l.whole })

-- A settlement finds no policy and changes nothing, or settles it and releases its reserves.
pub settle-Leaves :
    (lib : Platform) (d : Draws) (cid id : String) (t : Settlement) (s s' : Session)
    → IsDigest lib
    → settle lib d cid id t s ≡ ok s'
    → Leaves lib s s' s.policies s.reserves
      ⊎ ((win : Bool) × Leaves lib s s'
            (settle_in id d.now t win s.policies)
            (release_in id d.now s.reserves))
unfolding settle
settle-Leaves lib d cid id t s s' digest h =
    settle_on-Leaves lib d cid id t s s' (find_policy id s.policies) digest h
