-- ===== src/Cycle/Trades.antt =====
-- When an underwriting cycle reaches the broker.
-- A trade that the Kernel approved: on the candidate that the underwriter's outcome selects, to write it,
-- for the contracts that the decision asks for, in a cycle that is no dry run, with a verdict that the
-- gate accepts.
use the_underwriter.Execution.Attempts.{submissions}
use the_underwriter.Agent.Decision.{text_or_empty}
use the_underwriter.Domain.Market.{MarketSnapshot}
use the_underwriter.Agent.Choice.{decide-Vetted, Chosen}
use the_underwriter.Execution.Execute.{
  Execution, refused, executed, Authorised, execute, execute-Authorised,
}
use the_underwriter.Book.Session.{Session}
use the_underwriter.Agent.Underwriter.{
  decide, Model, UnderwritingOutcome, OutcomeKind, outcome_aborted, outcome_decline,
  outcome_no_candidates, outcome_write,
}
use the_underwriter.Actuary.Engine.{ActuaryResult, price_put_credit_spreads, is_empty}
use the_underwriter.Base.Int.{pos}
use the_underwriter.Book.Policies.{PolicyTerms}
use the_underwriter.Domain.Proposal.{UnderwritingProposal}
use the_underwriter.Kernel.Verdict.{KernelVerdict, NonceRegistry, approved}
use the_underwriter.Kernel.Context.{KernelContext}
use the_underwriter.Base.{
  refl, Bool, List, String, ◌≡◌, Result, Option, false, ◌⊎◌, some, err, ok, inl, Result-cases, true,
  inr, none, [], ◌≤◌, ◌+◌, ◌∙◌, if-holds,
}
use the_underwriter.Execution.Order.{OrderPayload}
use the_underwriter.Execution.Engine.{EngineConfig, ExecutionStatus, raised, returned, unfinished}
use the_underwriter.Execution.Ports.{BrokerPort, World}
use the_underwriter.Kernel.Evaluate.{evaluate}
use the_underwriter.Cycle.Underwrite.{
  Setup, execute_phase, act_on, follow, after_decision, underwrite_phase, after_inputs,
  run_underwriting_cycle, State, adjudicate_phase, price_phase, close_cycle, after_execution,
  with_candidates, requested, phase, book_after, record_inputs, CycleReport, terms_for,
}

module _ {W V : Type 0} (u : Setup) (m : Model V) (b : BrokerPort W) (engine : EngineConfig)
    (blocks : OrderPayload → Bool) (context : KernelContext) where
  pub record Underwritten (ps : List UnderwritingProposal) (o : UnderwritingOutcome)
      (nonces : NonceRegistry) (w w' : World W) : Type 0 where
    pub p : UnderwritingProposal
    pub wet : u.dry_run ≡ false
    pub writes : o.outcome ≡ outcome_write
    pub selected : o.selected ≡ some p
    pub chosen : Chosen p ps
    pub approves :
        approved (
          evaluate u.lib u.tokens p
            (requested u m b engine blocks context o)
            (with_candidates context ps)
            u.secret
            u.limits)
        ≡ true
    pub authorised :
        Authorised u.lib b engine blocks u.secret p
          (some (
            evaluate u.lib u.tokens p
              (requested u m b engine blocks context o)
              (with_candidates context ps)
              u.secret
              u.limits))
          u.now
          nonces
    pub few : submissions w'.calls ≤ submissions w.calls + engine.max_retries

  -- Nothing was asked of the broker, or a trade was underwritten.
  abbrev pub IsGuarded :
      List UnderwritingProposal → UnderwritingOutcome → State W V → State W V → Type 0
  IsGuarded ps o st st' = (st'.world ≡ st.world) ⊎ Underwritten ps o st.nonces st.world st'.world

  close_cycle-world :
      (v : KernelVerdict) (status : ExecutionStatus) (st : State W V) (r : Result Session)
      → (close_cycle u m b engine blocks context v status st r).1.world ≡ st.world
  close_cycle-world v status st (err e) = refl
  close_cycle-world v status st (ok s) = refl

  after_execution-world :
      (p : UnderwritingProposal) (v : KernelVerdict) (t : PolicyTerms) (row : Option String)
      (st : State W V) (x : Execution)
      → (after_execution u m b engine blocks context p v t row st x).1.world ≡ st.world
  after_execution-world p v t row st (refused e) = refl
  after_execution-world p v t row st (executed (raised f)) = refl
  after_execution-world p v t row st (executed unfinished) = refl
  after_execution-world p v t row st (executed (returned r)) =
      close_cycle-world v r.status st (book_after u m b engine blocks context p r t row st.book)

  execute_phase-IsGuarded :
      (ps : List UnderwritingProposal) (o : UnderwritingOutcome) (p : UnderwritingProposal)
      (t : PolicyTerms) (row : Option String) (st : State W V)
      → u.dry_run ≡ false
      → o.outcome ≡ outcome_write
      → o.selected ≡ some p
      → Chosen p ps
      → approved (
          evaluate u.lib u.tokens p
            (requested u m b engine blocks context o)
            (with_candidates context ps)
            u.secret
            u.limits)
        ≡ true
      → IsGuarded ps o st
          (execute_phase u m b engine blocks context p
            (evaluate u.lib u.tokens p
              (requested u m b engine blocks context o)
              (with_candidates context ps)
              u.secret
              u.limits)
            t
            row
            st).1
  unfolding execute_phase
  execute_phase-IsGuarded ps o p t row st wet writes selected chosen approves =
      let v =
        evaluate u.lib u.tokens p (requested u m b engine blocks context o)
          (with_candidates context ps) u.secret u.limits in
      let run =
        execute u.lib b engine blocks u.secret p (some v) u.now none (pos 0) st.nonces st.world in
      let same =
        after_execution-world p v t row (record st { nonces = run.nonces; world = run.world })
          run.execution in
      elim (execute-Authorised u.lib b engine blocks u.secret p (some v) u.now none (pos 0)
        st.nonces st.world) [
          | inl still ↦ inl (same ∙ still)
          | inr (authorised, few) ↦ inr (
              rw same (record {
                p = p;
                wet = wet;
                writes = writes;
                selected = selected;
                chosen = chosen;
                approves = approves;
                authorised = authorised;
                few = few;
              }))
        ]

  act_on-IsGuarded :
      (ps : List UnderwritingProposal) (o : UnderwritingOutcome) (p : UnderwritingProposal)
      (t : PolicyTerms) (st : State W V) (r : Result (Option String × Session))
      → o.outcome ≡ outcome_write
      → o.selected ≡ some p
      → Chosen p ps
      → IsGuarded ps o st
          (act_on u m b engine blocks context p
            (evaluate u.lib u.tokens p
              (requested u m b engine blocks context o)
              (with_candidates context ps)
              u.secret
              u.limits)
            t
            st
            r).1
  unfolding act_on
  act_on-IsGuarded ps o p t st (err e) writes selected chosen = inl refl
  act_on-IsGuarded ps o p t st (ok (row, s)) writes selected chosen =
      let v =
        evaluate u.lib u.tokens p (requested u m b engine blocks context o)
          (with_candidates context ps) u.secret u.limits in
      let st' : State W V = record st { book = s } in
      if-holds (λ (r : CycleReport × State W V). IsGuarded ps o st r.1) (approved v) _ _
        (λ approves.
          if-holds (λ (r : CycleReport × State W V). IsGuarded ps o st r.1) u.dry_run _ _
            (λ dry. inl refl)
            (λ wet.
              execute_phase-IsGuarded ps o p (record t { verdict_row_id = text_or_empty row }) row
                st' wet writes selected chosen approves))
        (λ refusal. inl refl)

  follow-IsGuarded :
      (ps : List UnderwritingProposal) (o : UnderwritingOutcome)
      (candidate_row_id decision_row_id : Option String) (st : State W V) (k : OutcomeKind)
      (selected : Option UnderwritingProposal)
      → o.outcome ≡ k
      → o.selected ≡ selected
      → ((p : UnderwritingProposal) → o.selected ≡ some p → Chosen p ps)
      → IsGuarded ps o st
          (follow u m b engine blocks context ps o candidate_row_id decision_row_id st k selected).1
  unfolding follow adjudicate_phase
  follow-IsGuarded ps o row row' st outcome_aborted selected same same_one c = inl refl
  follow-IsGuarded ps o row row' st outcome_decline selected same same_one c = inl refl
  follow-IsGuarded ps o row row' st outcome_no_candidates selected same same_one c = inl refl
  follow-IsGuarded ps o row row' st outcome_write none same same_one c = inl refl
  follow-IsGuarded ps o row row' st outcome_write (some p) same same_one c =
      let v =
        evaluate u.lib u.tokens p (requested u m b engine blocks context o)
          (with_candidates context ps) u.secret u.limits in
      act_on-IsGuarded ps o p (terms_for u m b engine blocks context o v row) st _ same same_one
        (c p same_one)

  after_decision-IsGuarded :
      (ps : List UnderwritingProposal) (o : UnderwritingOutcome) (row : Option String)
      (st : State W V) (r : Result (Option String × Session))
      → ((p : UnderwritingProposal) → o.selected ≡ some p → Chosen p ps)
      → IsGuarded ps o st (after_decision u m b engine blocks context ps o row st r).1
  unfolding after_decision
  after_decision-IsGuarded ps o row st (err e) c = inl refl
  after_decision-IsGuarded ps o row st (ok (row', s)) c =
      follow-IsGuarded ps o row row' (record st { book = s }) o.outcome o.selected refl refl c

  underwrite_phase-IsGuarded :
      (ps : List UnderwritingProposal) (rows : List (String × String)) (st : State W V)
      → IsGuarded ps
          (decide m ps st.model).0
          st
          (underwrite_phase u m b engine blocks context ps rows st).1
  unfolding underwrite_phase
  underwrite_phase-IsGuarded ps rows st =
      after_decision-IsGuarded ps (decide m ps st.model).0 _
        (record st { model = (decide m ps st.model).1 }) _
        (λ p e. (decide-Vetted m ps st.model p e).chosen)

  after_inputs-IsGuarded :
      (priced : ActuaryResult) (st : State W V) (r : Result (List (String × String) × Session))
      → IsGuarded priced.proposals
          (decide m priced.proposals st.model).0
          st
          (after_inputs u m b engine blocks context priced st r).1
  unfolding after_inputs
  after_inputs-IsGuarded priced st (err e) = inl refl
  after_inputs-IsGuarded priced st (ok (rows, s)) =
      if-holds
        (λ (r : CycleReport × State W V).
          IsGuarded priced.proposals (decide m priced.proposals st.model).0 st r.1)
        (is_empty priced) _ _ (λ nothing. inl refl)
        (λ some_priced. underwrite_phase-IsGuarded priced.proposals rows (record st { book = s }))

  -- Whatever the market, the model and the broker do: a cycle asks nothing of the broker, or it has
  -- underwritten a trade. That is: it is no dry run, the Actuary priced the candidates from the snapshot
  -- of this cycle, the underwriter decided on them to write and selected the proposal, which is one of
  -- them, the Kernel approved it for the contracts that the decision asks for and in the context of just
  -- these candidates, the gate accepts that verdict, and the order is submitted at most as often as the
  -- retries that are configured.
  pub run_underwriting_cycle-Underwritten :
      (snap : Option MarketSnapshot) (st : State W V)
      → ((run_underwriting_cycle u m b engine blocks context snap st).1.world ≡ st.world)
        ⊎ ((priced : ActuaryResult) × (s : MarketSnapshot) × (snap ≡ some s)
            × (price_put_credit_spreads u.lib u.thresholds (some u.universe) s ≡ ok priced)
            × Underwritten priced.proposals
                (decide m priced.proposals st.model).0
                st.nonces
                st.world
                (run_underwriting_cycle u m b engine blocks context snap st).1.world)
  unfolding run_underwriting_cycle price_phase
  run_underwriting_cycle-Underwritten none st = inl refl
  run_underwriting_cycle-Underwritten (some s) st =
      elim (Result-cases (price_put_credit_spreads u.lib u.thresholds (some u.universe) s)) [
        | inl (e, broke) ↦ inl (rw broke refl)
        | inr (priced, gave) ↦
            elim (after_inputs-IsGuarded priced st
              (phase u.persist [] (record_inputs u s priced) st.book)) [
                | inl still ↦ inl (rw gave still)
                | inr trade ↦ inr (priced, s, refl, gave, rw gave trade)
              ]
      ]
