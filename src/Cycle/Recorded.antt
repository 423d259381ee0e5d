-- ===== src/Cycle/Recorded.antt =====
-- F-11: the verdict is in the book before the broker is asked.
use the_underwriter.Agent.Decision.{text_or_empty}
use the_underwriter.Domain.Hashing.{entry, str, no_entry}
use the_underwriter.Book.Verdicts.{record_verdict, verdict_row}
use the_underwriter.Book.Kept.{
  risk_event-decisions, record_verdict-decisions, order-decisions, policy-decisions,
}
use the_underwriter.Domain.Market.{MarketSnapshot}
use the_underwriter.Execution.Execute.{Execution, refused, executed}
use the_underwriter.Book.Rows.{
  KernelDecision, PolicyStatus, warn, entry_action, execution_status_value,
}
use the_underwriter.Book.Policies.{PolicyTerms, policy}
use the_underwriter.Domain.Proposal.{UnderwritingProposal}
use the_underwriter.Kernel.Verdict.{KernelVerdict, Decision, is_approve, approve, reject, approved}
use the_underwriter.Book.Session.{Session}
use the_underwriter.Kernel.Context.{KernelContext}
use the_underwriter.Execution.Order.{OrderPayload}
use the_underwriter.Execution.Engine.{
  EngineConfig, ExecutionResult, ExecutionStatus, raised, returned, unfinished,
}
use the_underwriter.Execution.Ports.{BrokerPort, World}
use the_underwriter.Cycle.Underwrite.{
  Setup, record_execution_on, record_execution, act_on, State, execute_phase, follow,
  after_decision, after_inputs, price_phase, run_underwriting_cycle, book_after, with_row, phase,
  adjudicate_phase, underwrite_phase, close_cycle, after_execution, CycleReport, requested,
  policy_status_for, with_candidates, terms_for, record_inputs,
}
use the_underwriter.Kernel.Evaluate.{evaluate}
use the_underwriter.Agent.Underwriter.{
  decide, Model, UnderwritingOutcome, OutcomeKind, outcome_aborted, outcome_decline,
  outcome_no_candidates, outcome_write,
}
use the_underwriter.Actuary.Engine.{is_empty, ActuaryResult, price_put_credit_spreads}
use the_underwriter.Base.{
  refl, Bool, ◌≡◌, List, ◌∙◌, Option, true, String, Result, ◌⊎◌, ◌++◌, ok, ◌∷◌, ap, err, none, inl,
  [], sym, some, if-holds, ok-injective, >>=-eq-ok, inr, subst, false, Result-cases,
}

module _ {W V : Type 0} (u : Setup) (m : Model V) (b : BrokerPort W) (engine : EngineConfig)
    (blocks : OrderPayload → Bool) (context : KernelContext) where
  -- The verdict on a proposal, for the contracts that the outcome's decision asks for.
  abbrev pub verdict_on :
      List UnderwritingProposal → UnderwritingOutcome → UnderwritingProposal → KernelVerdict
  verdict_on ps o p =
      evaluate u.lib u.tokens p (requested u m b engine blocks context o)
        (with_candidates context ps) u.secret u.limits

  -- The last of the Kernel's decisions in the book is the row of the approval of the proposal that the
  -- outcome selects.
  pub record HasApproval (ps : List UnderwritingProposal) (o : UnderwritingOutcome) (s : Session)
      : Type 0 where
    pub p : UnderwritingProposal
    pub selected : o.selected ≡ some p
    pub approves : (verdict_on ps o p).verdict ≡ approve
    pub earlier : List KernelDecision
    pub candidate_row_id : Option String
    pub decision_row_id : Option String
    pub rows_eq :
        s.kernel_decisions
        ≡ earlier
          ++ verdict_row u.unsigned
              (u.draw 3)
              u.cid
              (verdict_on ps o p)
              candidate_row_id
              decision_row_id
              entry_action
            ∷ []

  HasApproval-kept :
      (ps : List UnderwritingProposal) (o : UnderwritingOutcome) (s s' : Session)
      → s'.kernel_decisions ≡ s.kernel_decisions
      → HasApproval ps o s
      → HasApproval ps o s'
  HasApproval-kept ps o s s' same h = record {
    p = h.p;
    selected = h.selected;
    approves = h.approves;
    earlier = h.earlier;
    candidate_row_id = h.candidate_row_id;
    decision_row_id = h.decision_row_id;
    rows_eq = same ∙ h.rows_eq;
  }

  record_execution_on-decisions :
      (p : UnderwritingProposal) (r : ExecutionResult) (t : PolicyTerms) (row : String)
      (status : Option PolicyStatus) (s s' : Session)
      → record_execution_on u p r t row status s ≡ ok s'
      → s'.kernel_decisions ≡ s.kernel_decisions
  unfolding record_execution_on
  record_execution_on-decisions p r t row none s s' h =
      risk_event-decisions u.lib (u.draw 4) u.cid "ORDER_NOT_FILLED" warn none
        (entry "status" (str (execution_status_value r.status)) no_entry) s s' h
  record_execution_on-decisions p r t row (some status) s s' h =
      let terms = record t { status = status } in
      let (s₁, first, second) = >>=-eq-ok (policy u.lib u.formats (u.draw 4) u.cid p terms s) _ h in
      order-decisions u.lib (u.draw 5) (u.draw 6) u.cid r (u.draw 4).id row s₁ s' second
      ∙ policy-decisions u.lib u.formats (u.draw 4) u.cid p terms s s₁ first

  book_after-decisions :
      (p : UnderwritingProposal) (r : ExecutionResult) (t : PolicyTerms) (row : Option String)
      (s s' : Session)
      → book_after u m b engine blocks context p r t row s ≡ ok s'
      → s'.kernel_decisions ≡ s.kernel_decisions
  unfolding record_execution
  book_after-decisions p r t none s s' h =
      ap (λ (x : Session). x.kernel_decisions) (sym (ok-injective h))
  book_after-decisions p r t (some row) s s' h =
      record_execution_on-decisions p r t row (policy_status_for r.status) s s' h

  close_cycle-HasApproval :
      (ps : List UnderwritingProposal) (o : UnderwritingOutcome) (v : KernelVerdict)
      (status : ExecutionStatus) (st : State W V) (r : Result Session)
      → ((s' : Session) → r ≡ ok s' → s'.kernel_decisions ≡ st.book.kernel_decisions)
      → HasApproval ps o st.book
      → HasApproval ps o (close_cycle u m b engine blocks context v status st r).1.book
  close_cycle-HasApproval ps o v status st (err e) keeps h = h
  close_cycle-HasApproval ps o v status st (ok s) keeps h =
      HasApproval-kept ps o st.book s (keeps s refl) h

  after_execution-HasApproval :
      (ps : List UnderwritingProposal) (o : UnderwritingOutcome) (p : UnderwritingProposal)
      (v : KernelVerdict) (t : PolicyTerms) (row : Option String) (st : State W V) (x : Execution)
      → HasApproval ps o st.book
      → HasApproval ps o (after_execution u m b engine blocks context p v t row st x).1.book
  after_execution-HasApproval ps o p v t row st (refused e) h = h
  after_execution-HasApproval ps o p v t row st (executed (raised f)) h = h
  after_execution-HasApproval ps o p v t row st (executed unfinished) h = h
  after_execution-HasApproval ps o p v t row st (executed (returned r)) h =
      close_cycle-HasApproval ps o v r.status st
        (book_after u m b engine blocks context p r t row st.book)
        (λ s' e. book_after-decisions p r t row st.book s' e) h

  -- Nothing was asked of the broker, or an approval is in the book.
  abbrev IsRecorded : List UnderwritingProposal → UnderwritingOutcome → World W → State W V → Type 0
  IsRecorded ps o w st' = (st'.world ≡ w) ⊎ HasApproval ps o st'.book

  approve_of : (d : Decision) → is_approve d ≡ true → d ≡ approve
  approve_of approve h = refl
  approve_of reject h = cc

  act_on-IsRecorded :
      (ps : List UnderwritingProposal) (o : UnderwritingOutcome) (p : UnderwritingProposal)
      (v : KernelVerdict) (t : PolicyTerms) (st : State W V) (r : Result (Option String × Session))
      → ((out : Option String × Session)
          → r ≡ ok out
          → v.verdict ≡ approve
          → HasApproval ps o out.1)
      → IsRecorded ps o st.world (act_on u m b engine blocks context p v t st r).1
  unfolding act_on execute_phase
  act_on-IsRecorded ps o p v t st (err e) saved = inl refl
  act_on-IsRecorded ps o p v t st (ok (row, s)) saved =
      let P : CycleReport × State W V → Type 0 = λ r. IsRecorded ps o st.world r.1 in
      if-holds P (approved v) _ _
        (λ approves.
          if-holds P u.dry_run _ _ (λ dry. inl refl)
            (λ wet. inr (
              after_execution-HasApproval ps o p v (record t { verdict_row_id = text_or_empty row })
                row _ _ (saved (row, s) refl (approve_of v.verdict approves)))))
        (λ refusal. inl refl)

  -- The phase that records the verdict.
  with_row-HasApproval :
      (ps : List UnderwritingProposal) (o : UnderwritingOutcome) (p : UnderwritingProposal)
      (candidate_row_id decision_row_id : Option String) (s : Session)
      (out : Option String × Session)
      → o.selected ≡ some p
      → (verdict_on ps o p).verdict ≡ approve
      → with_row
          (record_verdict u.lib u.unsigned
            (u.draw 3)
            u.cid
            (verdict_on ps o p)
            candidate_row_id
            decision_row_id
            entry_action)
          s
        ≡ ok out
      → HasApproval ps o out.1
  with_row-HasApproval ps o p candidate_row_id decision_row_id s out selected approves h =
      let v = verdict_on ps o p in
      let (saved, first, made) =
        >>=-eq-ok
          (record_verdict u.lib u.unsigned (u.draw 3) u.cid v candidate_row_id decision_row_id
            entry_action s)
          _ h in
      subst (λ (x : Option String × Session). HasApproval ps o x.1) (ok-injective made)
        (record {
          p = p;
          selected = selected;
          approves = approves;
          earlier = s.kernel_decisions;
          candidate_row_id = candidate_row_id;
          decision_row_id = decision_row_id;
          rows_eq =
              record_verdict-decisions u.lib u.unsigned (u.draw 3) u.cid v candidate_row_id
                decision_row_id entry_action s saved first;
        })

  phase-HasApproval :
      (ps : List UnderwritingProposal) (o : UnderwritingOutcome) (p : UnderwritingProposal)
      (candidate_row_id decision_row_id : Option String) (s : Session)
      (out : Option String × Session) (persists : Bool)
      → persists ≡ true
      → phase persists none
          (with_row (
            record_verdict u.lib u.unsigned
              (u.draw 3)
              u.cid
              (verdict_on ps o p)
              candidate_row_id
              decision_row_id
              entry_action))
          s
        ≡ ok out
      → o.selected ≡ some p
      → (verdict_on ps o p).verdict ≡ approve
      → HasApproval ps o out.1
  phase-HasApproval ps o p candidate_row_id decision_row_id s out true on h selected approves =
      with_row-HasApproval ps o p candidate_row_id decision_row_id s out selected approves h
  phase-HasApproval ps o p candidate_row_id decision_row_id s out false on h selected approves =
      absurd (cc)

  module _ (persists : u.persist ≡ true) where
    follow-IsRecorded :
        (ps : List UnderwritingProposal) (o : UnderwritingOutcome) (row row' : Option String)
        (st : State W V) (k : OutcomeKind) (selected : Option UnderwritingProposal)
        → o.selected ≡ selected
        → IsRecorded ps o st.world
            (follow u m b engine blocks context ps o row row' st k selected).1
    unfolding follow adjudicate_phase
    follow-IsRecorded ps o row row' st outcome_aborted selected same = inl refl
    follow-IsRecorded ps o row row' st outcome_decline selected same = inl refl
    follow-IsRecorded ps o row row' st outcome_no_candidates selected same = inl refl
    follow-IsRecorded ps o row row' st outcome_write none same = inl refl
    follow-IsRecorded ps o row row' st outcome_write (some p) same =
        let v = verdict_on ps o p in
        act_on-IsRecorded ps o p v (terms_for u m b engine blocks context o v row) st _
          (λ out e approves.
            phase-HasApproval ps o p row row' st.book out u.persist persists e same approves)

    after_decision-IsRecorded :
        (ps : List UnderwritingProposal) (o : UnderwritingOutcome) (row : Option String)
        (st : State W V) (r : Result (Option String × Session))
        → IsRecorded ps o st.world (after_decision u m b engine blocks context ps o row st r).1
    unfolding after_decision
    after_decision-IsRecorded ps o row st (err e) = inl refl
    after_decision-IsRecorded ps o row st (ok (row', s)) =
        follow-IsRecorded ps o row row' (record st { book = s }) o.outcome o.selected refl

    underwrite_phase-IsRecorded :
        (ps : List UnderwritingProposal) (rows : List (String × String)) (st : State W V)
        → IsRecorded ps
            (decide m ps st.model).0
            st.world
            (underwrite_phase u m b engine blocks context ps rows st).1
    unfolding underwrite_phase
    underwrite_phase-IsRecorded ps rows st =
        after_decision-IsRecorded ps (decide m ps st.model).0 _
          (record st { model = (decide m ps st.model).1 }) _

    after_inputs-IsRecorded :
        (priced : ActuaryResult) (st : State W V) (r : Result (List (String × String) × Session))
        → IsRecorded priced.proposals
            (decide m priced.proposals st.model).0
            st.world
            (after_inputs u m b engine blocks context priced st r).1
    unfolding after_inputs
    after_inputs-IsRecorded priced st (err e) = inl refl
    after_inputs-IsRecorded priced st (ok (rows, s)) =
        if-holds
          (λ (r : CycleReport × State W V).
            IsRecorded priced.proposals (decide m priced.proposals st.model).0 st.world r.1)
          (is_empty priced) _ _ (λ nothing. inl refl)
          (λ some_priced.
            underwrite_phase-IsRecorded priced.proposals rows (record st { book = s }))

    -- In a cycle that persists: nothing is asked of the broker, or the book ends with the approval of
    -- this cycle as the last of the Kernel's decisions, however the execution ended, an exception
    -- included. It is the row that the recorder makes of the Kernel's verdict on the proposal that the
    -- underwriter selected, among the candidates that the Actuary priced from the snapshot of this cycle
    -- and for the contracts that the decision asks for.
    pub run_underwriting_cycle-HasApproval :
        (snap : Option MarketSnapshot) (st : State W V)
        → ((run_underwriting_cycle u m b engine blocks context snap st).1.world ≡ st.world)
          ⊎ ((priced : ActuaryResult) × (s : MarketSnapshot) × (snap ≡ some s)
              × (price_put_credit_spreads u.lib u.thresholds (some u.universe) s ≡ ok priced)
              × HasApproval priced.proposals
                  (decide m priced.proposals st.model).0
                  (run_underwriting_cycle u m b engine blocks context snap st).1.book)
    unfolding run_underwriting_cycle price_phase
    run_underwriting_cycle-HasApproval none st = inl refl
    run_underwriting_cycle-HasApproval (some s) st =
        elim (Result-cases (price_put_credit_spreads u.lib u.thresholds (some u.universe) s)) [
          | inl (e, broke) ↦ inl (rw broke refl)
          | inr (priced, gave) ↦
              elim (after_inputs-IsRecorded priced st
                (phase u.persist [] (record_inputs u s priced) st.book)) [
                  | inl still ↦ inl (rw gave still)
                  | inr recorded ↦ inr (priced, s, refl, gave, rw gave recorded)
                ]
        ]
