-- ===== src/Cycle/Underwrite.antt =====
-- backend/underwriter/cycle/underwrite.py: the underwriting cycle. The snapshot that was built, or the
-- abort, is an argument, and so is what the database draws in each phase. The texts `detail` and the
-- list of the steps are left out.
use the_underwriter.Agent.Decision.{text_or_empty}
use the_underwriter.Book.Verdicts.{record_verdict}
use the_underwriter.Base.Int.{pos, ℤ}
use the_underwriter.Execution.Order.{OrderPayload}
use the_underwriter.Actuary.Thresholds.{ActuaryThresholds}
use the_underwriter.Kernel.Limits.{KernelLimits}
use the_underwriter.Execution.Ports.{BrokerPort, World}
use the_underwriter.Book.Rows.{
  PolicyStatus, open_status, warn, leg_risk, entry_action, execution_status_value,
}
use the_underwriter.Actuary.Engine.{is_empty, ActuaryResult, price_put_credit_spreads}
use the_underwriter.Kernel.Verdict.{KernelVerdict, NonceRegistry, Tokens, approved}
use the_underwriter.Domain.Proposal.{UnderwritingProposal}
use the_underwriter.Book.Policies.{risk_event, policy, order, PolicyTerms}
use the_underwriter.Execution.Engine.{
  ExecutionStatus, ExecutionResult, EngineConfig, status_filled, status_partial, status_cancelled,
  raised, status_rejected, returned, status_timed_out, unfinished, status_failed,
}
use the_underwriter.Domain.Market.{MarketSnapshot}
use the_underwriter.Kernel.Context.{KernelContext}
use the_underwriter.Book.Session.{Session, Formats, Draws}
use the_underwriter.Domain.Hashing.{Platform, entry, str, Entries, no_entry}
use the_underwriter.Base.{
  ◌∷◌, Option, Bool, none, String, false, List, Result, some, ◌>>=◌, ok, true, err, ◌&&◌, ℕ,
  if◌then◌else◌, [], str_eq,
}
use the_underwriter.Kernel.Evaluate.{evaluate}
use the_underwriter.Agent.Underwriter.{
  decide, AbortReason, Model, candidate_ids, UnderwritingOutcome, OutcomeKind, outcome_aborted,
  outcome_no_candidates, outcome_decline, outcome_write,
}
use the_underwriter.Book.Inputs.{decision, candidates, snapshot, field_of}
use the_underwriter.Execution.Execute.{execute, Execution, refused, executed}

pub data CycleStatus : Type 0 where
  success no_action cycle_aborted cycle_error : CycleStatus

-- How a cycle ends.
pub data CycleOutcome : Type 0 where
  no_snapshot no_qualifying_candidates declined kernel_rejected dry_run_approved : CycleOutcome
  model_aborted : AbortReason → CycleOutcome
  order_ended : ExecutionStatus → CycleOutcome
  order_unfinished : CycleOutcome
  crashed : CycleOutcome

-- Of the report: its status, its outcome, the verdict and the status of the execution. The identifiers,
-- the times, the hash of the snapshot, the counts of the candidates and the decision of the model are
-- left out, since nothing in the cycle reads them.
pub record CycleReport : Type 0 where
  pub status : CycleStatus
  pub outcome : CycleOutcome
  pub verdict : Option KernelVerdict
  pub execution_status : Option ExecutionStatus

-- `traded`
abbrev pub traded : CycleReport → Bool
traded r = elim r.execution_status [
  | none ↦ false
  | some s ↦ elim s [ status_filled ↦ true | _ ↦ false ]
]

abbrev pub report : CycleStatus → CycleOutcome → CycleReport
report status outcome = record {
  status = status;
  outcome = outcome;
  verdict = none;
  execution_status = none;
}

-- The arguments of a cycle that do not change: the platform and the formats, the secret, the limits, the
-- draws of each phase, the time and the switches. `dry_run` is set too where there is no engine.
pub record Setup : Type 0 where
  pub lib : Platform
  pub formats : Formats
  pub unsigned : String → String
  pub cid : String
  pub secret : String
  pub limits : KernelLimits
  pub thresholds : ActuaryThresholds
  pub universe : List String
  pub tokens : Tokens
  pub now : ℕ
  pub dry_run : Bool
  pub persist : Bool
  pub telemetry : Entries
  pub draw : ℕ → Draws
  pub candidate_id : ℕ → String
  pub discard_id : ℕ → String

-- What a cycle changes: the book, the nonces, the broker's world and the model's.
pub record State (W V : Type 0) : Type 0 where
  pub book : Session
  pub nonces : NonceRegistry
  pub world : World W
  pub model : V

-- `_with_candidates`
abbrev pub with_candidates : KernelContext → List UnderwritingProposal → KernelContext
with_candidates c ps = record c { supplied_candidate_ids = candidate_ids ps }

-- `candidate_rows.get(id)`
abbrev pub row_of : String → List (String × String) → Option String
row_of id [] = none
row_of id ((name, row) ∷ rows) =
    let rest = row_of id rows in if str_eq name id then some row else rest

abbrev pub selected_row : Option UnderwritingProposal → List (String × String) → Option String
selected_row none rows = none
selected_row (some p) rows = row_of p.candidate_id rows

-- `_record_inputs`
unfoldable pub record_inputs :
    Setup → MarketSnapshot → ActuaryResult → Session → Result (List (String × String) × Session)
unfolding snapshot candidates
record_inputs u snap priced s = do
  taken ← snapshot u.lib (u.draw 0) u.cid snap s
  candidates u.lib u.formats (u.draw 1) u.candidate_id u.discard_id u.cid priced (some taken.0)
      taken.1

-- The status of the policy, where something filled.
abbrev pub policy_status_for : ExecutionStatus → Option PolicyStatus
policy_status_for status_filled = some open_status
policy_status_for status_partial = some leg_risk
policy_status_for status_cancelled = none
policy_status_for status_rejected = none
policy_status_for status_timed_out = none
policy_status_for status_failed = none

unfoldable pub record_execution_on :
    Setup
    → UnderwritingProposal
    → ExecutionResult
    → PolicyTerms
    → String
    → Option PolicyStatus
    → Session
    → Result Session
unfolding risk_event policy order
record_execution_on u p r t verdict_row_id none s =
    risk_event u.lib (u.draw 4) u.cid "ORDER_NOT_FILLED" warn none
      (entry "status" (str (execution_status_value r.status)) no_entry) s
record_execution_on u p r t verdict_row_id (some status) s = do
  s' ← policy u.lib u.formats (u.draw 4) u.cid p (record t { status = status }) s
  order u.lib (u.draw 5) (u.draw 6) u.cid r (u.draw 4).id verdict_row_id s'

-- `_record_execution`
unfoldable pub record_execution :
    Setup → UnderwritingProposal → ExecutionResult → PolicyTerms → String → Session → Result Session
unfolding record_execution_on
record_execution u p r t verdict_row_id s =
    record_execution_on u p r t verdict_row_id (policy_status_for r.status) s

-- A phase that writes, where the cycle persists: its row, and the book.
abbrev pub phase {ℓ} :
    {A : Type ℓ} → Bool → A → (Session → Result (A × Session)) → Session → Result (A × Session)
phase true skipped write s = write s
phase false skipped write s = ok (skipped, s)

-- The row of a phase, as an option.
abbrev pub with_row :
    (Session → Result (String × Session)) → Session → Result (Option String × Session)
with_row write s = do saved ← write s; ok (some saved.0, saved.1)

-- An exception ends the cycle; what was committed before it stays.
abbrev pub crash : {W V : Type 0} → State W V → CycleReport × State W V
crash st = (report cycle_error crashed, st)

module _ {W V : Type 0} (u : Setup) (m : Model V) (b : BrokerPort W) (engine : EngineConfig)
    (blocks : OrderPayload → Bool) (context : KernelContext) where
  -- The report on an execution.
  abbrev pub executed_report : KernelVerdict → ExecutionStatus → CycleReport
  executed_report v status = record {
    status = elim status [ status_filled ↦ success | _ ↦ cycle_aborted ];
    outcome = order_ended status;
    verdict = some v;
    execution_status = some status;
  }

  -- The book after an execution: the policy is recorded where the cycle persists.
  abbrev pub book_after :
      UnderwritingProposal
      → ExecutionResult
      → PolicyTerms
      → Option String
      → Session
      → Result Session
  book_after p r t none s = ok s
  book_after p r t (some row) s = record_execution u p r t row s

  abbrev pub close_cycle :
      KernelVerdict → ExecutionStatus → State W V → Result Session → CycleReport × State W V
  close_cycle v status st (err e) = crash st
  close_cycle v status st (ok s) = (executed_report v status, record st { book = s })

  -- After `execution.execute`.
  abbrev pub after_execution :
      UnderwritingProposal
      → KernelVerdict
      → PolicyTerms
      → Option String
      → State W V
      → Execution
      → CycleReport × State W V
  after_execution p v t row st (refused e) = crash st
  after_execution p v t row st (executed (raised f)) = crash st
  after_execution p v t row st (executed unfinished) = (report cycle_aborted order_unfinished, st)
  after_execution p v t row st (executed (returned r)) =
      close_cycle v r.status st (book_after p r t row st.book)

  -- 5. Execution
  unfoldable pub execute_phase :
      UnderwritingProposal
      → KernelVerdict
      → PolicyTerms
      → Option String
      → State W V
      → CycleReport × State W V
  unfolding record_execution execute
  execute_phase p v t row st =
      let run =
        execute u.lib b engine blocks u.secret p (some v) u.now none (pos 0) st.nonces st.world in
      after_execution p v t row (record st { nonces = run.nonces; world = run.world }) run.execution

  -- After the verdict was recorded.
  unfoldable pub act_on :
      UnderwritingProposal
      → KernelVerdict
      → PolicyTerms
      → State W V
      → Result (Option String × Session)
      → CycleReport × State W V
  unfolding execute_phase
  act_on p v t st (err e) = crash st
  act_on p v t st (ok (row, s)) =
      if approved v
      then (if u.dry_run
          then (
            record (report success dry_run_approved) { verdict = some v },
            record st { book = s },
          )
          else execute_phase p v (record t { verdict_row_id = text_or_empty row }) row
              (record st { book = s }))
      else (record (report no_action kernel_rejected) { verdict = some v }, record st { book = s })

  abbrev pub terms_for : UnderwritingOutcome → KernelVerdict → Option String → PolicyTerms
  terms_for o v row = record {
    contracts = v.approved_contracts;
    candidate_row_id = row;
    verdict_row_id = "";
    confidence = field_of (λ d. d.confidence) o.decision;
    status = open_status;
  }

  -- `underwriting.decision.contracts if underwriting.decision else 0`, and `requested or 0`
  abbrev pub requested : UnderwritingOutcome → ℤ
  requested o = elim (field_of (λ d. d.contracts) o.decision) [ none ↦ pos 0 | some n ↦ n ]

  -- 4. Solvency Kernel
  unfoldable pub adjudicate_phase :
      List UnderwritingProposal
      → UnderwritingOutcome
      → UnderwritingProposal
      → Option String
      → Option String
      → State W V
      → CycleReport × State W V
  unfolding act_on evaluate record_verdict
  adjudicate_phase ps o p candidate_row_id decision_row_id st =
      let v =
        evaluate u.lib u.tokens p (requested o) (with_candidates context ps) u.secret u.limits in
      act_on p v (terms_for o v candidate_row_id) st (
        phase u.persist none
          (with_row (
            record_verdict u.lib u.unsigned (u.draw 3) u.cid v candidate_row_id decision_row_id
              entry_action))
          st.book)

  -- What the outcome of the model leads to.
  unfoldable pub follow :
      List UnderwritingProposal
      → UnderwritingOutcome
      → Option String
      → Option String
      → State W V
      → OutcomeKind
      → Option UnderwritingProposal
      → CycleReport × State W V
  unfolding adjudicate_phase
  follow ps o candidate_row_id decision_row_id st outcome_aborted selected = (
    report cycle_aborted (elim o.abort_reason [ none ↦ declined | some r ↦ model_aborted r ]),
    st,
  )
  follow ps o candidate_row_id decision_row_id st outcome_write (some p) =
      adjudicate_phase ps o p candidate_row_id decision_row_id st
  follow ps o candidate_row_id decision_row_id st outcome_write none =
      (report no_action declined, st)
  follow ps o candidate_row_id decision_row_id st outcome_decline selected =
      (report no_action declined, st)
  follow ps o candidate_row_id decision_row_id st outcome_no_candidates selected =
      (report no_action declined, st)

  unfoldable pub after_decision :
      List UnderwritingProposal
      → UnderwritingOutcome
      → Option String
      → State W V
      → Result (Option String × Session)
      → CycleReport × State W V
  unfolding follow
  after_decision ps o candidate_row_id st (err e) = crash st
  after_decision ps o candidate_row_id st (ok (row, s)) =
      follow ps o candidate_row_id row (record st { book = s }) o.outcome o.selected

  -- `underwriting.outcome is not Outcome.NO_CANDIDATES`
  abbrev pub was_asked : OutcomeKind → Bool
  was_asked outcome_no_candidates = false
  was_asked outcome_write = true
  was_asked outcome_decline = true
  was_asked outcome_aborted = true

  -- 3. AI Underwriter
  unfoldable pub underwrite_phase :
      List UnderwritingProposal → List (String × String) → State W V → CycleReport × State W V
  unfolding after_decision decision decide
  underwrite_phase ps rows st =
      let (o, v) = decide m ps st.model in
      after_decision ps o (selected_row o.selected rows) (record st { model = v })
        (phase (u.persist && was_asked o.outcome) none
          (with_row (decision u.lib (u.draw 2) u.cid u.telemetry o (selected_row o.selected rows)))
          st.book)

  unfoldable pub after_inputs :
      ActuaryResult
      → State W V
      → Result (List (String × String) × Session)
      → CycleReport × State W V
  unfolding underwrite_phase
  after_inputs priced st (err e) = crash st
  after_inputs priced st (ok (rows, s)) =
      if is_empty priced
      then (report no_action no_qualifying_candidates, record st { book = s })
      else underwrite_phase priced.proposals rows (record st { book = s })

  -- 2. Actuary
  unfoldable pub price_phase :
      MarketSnapshot → State W V → Result ActuaryResult → CycleReport × State W V
  unfolding after_inputs record_inputs
  price_phase snap st (err e) = crash st
  price_phase snap st (ok priced) =
      after_inputs priced st (phase u.persist [] (record_inputs u snap priced) st.book)

  -- `run_underwriting_cycle`
  unfoldable pub run_underwriting_cycle :
      Option MarketSnapshot → State W V → CycleReport × State W V
  unfolding price_phase price_put_credit_spreads
  run_underwriting_cycle none st = (report cycle_aborted no_snapshot, st)
  run_underwriting_cycle (some snap) st =
      price_phase snap st (price_put_credit_spreads u.lib u.thresholds (some u.universe) snap)
