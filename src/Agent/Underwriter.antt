-- ===== src/Agent/Underwriter.antt =====
-- backend/underwriter/agent/underwriter.py: one decision. The telemetry and the texts for people are
-- left out. The model answers or is unavailable, and its world `V` goes on.
use the_underwriter.Kernel.Rules.{join_text}
use the_underwriter.Domain.Proposal.{UnderwritingProposal}
use the_underwriter.Agent.Decision.{
  UnderwriterDecision, validate_semantics, SemanticFailure, is_write, text_or_empty,
}
use the_underwriter.Base.{
  Option, String, ℕ, List, none, Bool, ◌∷◌, map, some, if◌then◌else◌, suc, str_eq, [], zero,
}

pub data OutcomeKind : Type 0 where
  outcome_write outcome_decline outcome_no_candidates outcome_aborted : OutcomeKind

pub data AbortReason : Type 0 where
  schema_violation provider_unavailable : AbortReason

pub record UnderwritingOutcome : Type 0 where
  pub outcome : OutcomeKind
  pub decision : Option UnderwriterDecision
  pub selected : Option UnderwritingProposal
  pub abort_reason : Option AbortReason
  pub retry_count : ℕ

-- What the underwriter stands on: `client.complete`, `build_user_message` for the candidates and the
-- nudge after a failure, the schema's parser, and the search of the patterns.
pub record Model (V : Type 0) : Type 0 where
  pub complete : String → V → Option String × V
  pub user_message : List UnderwritingProposal → String
  pub nudge : Option SemanticFailure → String
  pub parse_schema : String → Option UnderwriterDecision
  pub forbidden : String → Bool

abbrev pub max_schema_attempts : ℕ
max_schema_attempts = 2

-- `{p.candidate_id: p for p in proposals}.get(id)`: the last one of an id stays.
abbrev pub proposal_by :
    String → Option UnderwritingProposal → List UnderwritingProposal → Option UnderwritingProposal
proposal_by id found [] = found
proposal_by id found (p ∷ ps) =
    proposal_by id (if str_eq p.candidate_id id then some p else found) ps

abbrev pub candidate_ids : List UnderwritingProposal → List String
candidate_ids ps = map (λ p. p.candidate_id) ps

abbrev pub aborted : AbortReason → ℕ → UnderwritingOutcome
aborted reason retries = record {
  outcome = outcome_aborted;
  decision = none;
  selected = none;
  abort_reason = some reason;
  retry_count = retries;
}

-- The outcome of a decision that passed the checks.
abbrev pub decided : List UnderwritingProposal → ℕ → UnderwriterDecision → UnderwritingOutcome
decided ps attempt d = record {
  outcome = if is_write d.action then outcome_write else outcome_decline;
  decision = some d;
  selected = if is_write d.action then proposal_by (text_or_empty d.candidate_id) none ps else none;
  abort_reason = none;
  retry_count = attempt;
}

-- `_parse`, on the decision that the schema gives: the decision, or the failure.
pub data Parsed : Type 0 where
  unusable : Option SemanticFailure → Parsed
  usable : UnderwriterDecision → Parsed

abbrev pub checked : UnderwriterDecision → Option SemanticFailure → Parsed
checked d none = usable d
checked d (some f) = unusable (some f)

unfoldable pub parse_decision : (String → Bool) → List String → Option UnderwriterDecision → Parsed
unfolding validate_semantics
parse_decision forbidden supplied none = unusable none
parse_decision forbidden supplied (some d) = checked d (validate_semantics forbidden d supplied)

module _ {V : Type 0} (m : Model V) (ps : List UnderwritingProposal) where
  -- The rest of an attempt: `again` is the next one.
  abbrev pub settle_attempt :
      ℕ
      → (Option SemanticFailure → V → UnderwritingOutcome × V)
      → V
      → Parsed
      → UnderwritingOutcome × V
  settle_attempt attempt again v (usable d) = (decided ps attempt d, v)
  settle_attempt attempt again v (unusable f) = again f v

  abbrev pub on_response :
      ℕ
      → (Option SemanticFailure → V → UnderwritingOutcome × V)
      → Option String × V
      → UnderwritingOutcome × V
  on_response attempt again (none, v) = (aborted provider_unavailable attempt, v)
  on_response attempt again (some content, v) =
      settle_attempt attempt again v
        (parse_decision m.forbidden (candidate_ids ps) (m.parse_schema content))

  -- The loop, with `left` attempts from `attempt` on.
  unfoldable pub attempt_from : ℕ → ℕ → String → V → UnderwritingOutcome × V
  unfolding parse_decision
  attempt_from zero attempt message v = (aborted schema_violation 1, v)
  attempt_from (suc left) attempt message v =
      on_response attempt
        (λ f. attempt_from left (suc attempt) (join_text (m.user_message ps) (m.nudge f)))
        (m.complete message v)

-- `decide`
unfoldable pub decide :
    {V : Type 0} → Model V → List UnderwritingProposal → V → UnderwritingOutcome × V
unfolding attempt_from
decide m [] v = (
  record {
    outcome = outcome_no_candidates;
    decision = none;
    selected = none;
    abort_reason = none;
    retry_count = 0;
  },
  v,
)
decide m (p ∷ ps) v = attempt_from m (p ∷ ps) max_schema_attempts 0 (m.user_message (p ∷ ps)) v
