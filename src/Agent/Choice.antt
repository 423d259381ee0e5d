-- ===== src/Agent/Choice.antt =====
-- What the underwriter chooses: a candidate that it was given, or nothing.
-- The proposal is one of the list.
use the_underwriter.Kernel.Rules.{join_text}
use the_underwriter.Agent.Decision.{
  UnderwriterDecision, SemanticFailure, DecisionAction, validate_semantics, text_or_empty, decline,
  write,
}
use the_underwriter.Agent.Underwriter.{decide}
use the_underwriter.Agent.Underwriter.{
  Model, proposal_by, UnderwritingOutcome, parse_decision, attempt_from, max_schema_attempts,
  outcome_write, settle_attempt, on_response, candidate_ids, checked, decided,
}
use the_underwriter.Base.{
  String, List, some, Option, Bool, ◌∷◌, All, ◌≡◌, ℕ, ◌⊎◌, inl, suc, [], subst, if◌then◌else◌, inr,
  str_eq, Bool-cases, none, zero, refl,
}
use the_underwriter.Domain.Proposal.{UnderwritingProposal}

abbrev pub Chosen : UnderwritingProposal → List UnderwritingProposal → Type 0
Chosen p [] = ⊥
Chosen p (q ∷ ps) = (q ≡ p) ⊎ Chosen p ps

-- What holds of all candidates holds of the chosen one.
pub All-Chosen {κ} :
    (P : UnderwritingProposal → Type κ) (ps : List UnderwritingProposal) (p : UnderwritingProposal)
    → All P ps
    → Chosen p ps
    → P p
All-Chosen P [] p h c = absurd c
All-Chosen P (q ∷ ps) p h (inl e) = subst P e h.0
All-Chosen P (q ∷ ps) p h (inr c) = All-Chosen P ps p h.1 c

some_same : {p q : UnderwritingProposal} → some p ≡ some q → p ≡ q
some_same e = cc

proposal_by-Chosen :
    (id : String) (found : Option UnderwritingProposal) (ps : List UnderwritingProposal)
    (p : UnderwritingProposal)
    → proposal_by id found ps ≡ some p
    → (found ≡ some p) ⊎ Chosen p ps
proposal_by-Chosen id found [] p h = inl h
proposal_by-Chosen id found (q ∷ ps) p h =
    elim (proposal_by-Chosen id (if str_eq q.candidate_id id then some q else found) ps p h) [
      | inr c ↦ inr (inr c)
      | inl here ↦ elim (Bool-cases (str_eq q.candidate_id id)) [
        | inl same ↦ inr (inl (some_same (rw same at here)))
        | inr other ↦ inl (rw other at here)
      ]
    ]

-- A decision to write, which passed the checks, on one of the candidates.
pub record Vetted (forbidden : String → Bool) (ps : List UnderwritingProposal)
    (o : UnderwritingOutcome) (p : UnderwritingProposal) : Type 0 where
  pub d : UnderwriterDecision
  pub chosen : Chosen p ps
  pub writes : o.outcome ≡ outcome_write
  pub decision_eq : o.decision ≡ some d
  pub passed : validate_semantics forbidden d (candidate_ids ps) ≡ none

module _ {V : Type 0} (m : Model V) (ps : List UnderwritingProposal)
    (p : UnderwritingProposal) where
  decided-Vetted :
      (attempt : ℕ) (d : UnderwriterDecision) (action : DecisionAction)
      → d.action ≡ action
      → validate_semantics m.forbidden d (candidate_ids ps) ≡ none
      → (decided ps attempt d).selected ≡ some p
      → Vetted m.forbidden ps (decided ps attempt d) p
  decided-Vetted attempt d decline e passed h = absurd (cc)
  decided-Vetted attempt d write e passed h =
      elim (proposal_by-Chosen (text_or_empty d.candidate_id) none ps p (rw e at h)) [
        | inl gone ↦ absurd (cc)
        | inr chosen ↦ record {
          d = d;
          chosen = chosen;
          writes = rw e refl;
          decision_eq = refl;
          passed = passed;
        }
      ]

  checked-Vetted :
      (attempt : ℕ) (again : Option SemanticFailure → V → UnderwritingOutcome × V) (v : V)
      (d : UnderwriterDecision) (f : Option SemanticFailure)
      → validate_semantics m.forbidden d (candidate_ids ps) ≡ f
      → ((f : Option SemanticFailure) (v : V)
          → (again f v).0.selected ≡ some p
          → Vetted m.forbidden ps (again f v).0 p)
      → (settle_attempt m ps attempt again v (checked d f)).0.selected ≡ some p
      → Vetted m.forbidden ps (settle_attempt m ps attempt again v (checked d f)).0 p
  checked-Vetted attempt again v d none e more h = decided-Vetted attempt d d.action refl e h
  checked-Vetted attempt again v d (some f) e more h = more (some f) v h

  parsed-Vetted :
      (attempt : ℕ) (again : Option SemanticFailure → V → UnderwritingOutcome × V) (v : V)
      (od : Option UnderwriterDecision)
      → ((f : Option SemanticFailure) (v : V)
          → (again f v).0.selected ≡ some p
          → Vetted m.forbidden ps (again f v).0 p)
      → (settle_attempt m ps attempt again v
          (parse_decision m.forbidden (candidate_ids ps) od)).0.selected
        ≡ some p
      → Vetted m.forbidden ps
          (settle_attempt m ps attempt again v (parse_decision m.forbidden (candidate_ids ps) od)).0
          p
  unfolding parse_decision
  parsed-Vetted attempt again v none more h = more none v h
  parsed-Vetted attempt again v (some d) more h =
      checked-Vetted attempt again v d (validate_semantics m.forbidden d (candidate_ids ps)) refl
        more h

  on_response-Vetted :
      (attempt : ℕ) (again : Option SemanticFailure → V → UnderwritingOutcome × V)
      (reply : Option String × V)
      → ((f : Option SemanticFailure) (v : V)
          → (again f v).0.selected ≡ some p
          → Vetted m.forbidden ps (again f v).0 p)
      → (on_response m ps attempt again reply).0.selected ≡ some p
      → Vetted m.forbidden ps (on_response m ps attempt again reply).0 p
  on_response-Vetted attempt again (none, v) more h = absurd (cc)
  on_response-Vetted attempt again (some content, v) more h =
      parsed-Vetted attempt again v (m.parse_schema content) more h

  attempt_from-Vetted :
      (left attempt : ℕ) (message : String) (v : V)
      → (attempt_from m ps left attempt message v).0.selected ≡ some p
      → Vetted m.forbidden ps (attempt_from m ps left attempt message v).0 p
  unfolding attempt_from
  attempt_from-Vetted zero attempt message v h = absurd (cc)
  attempt_from-Vetted (suc left) attempt message v h =
      on_response-Vetted attempt
        (λ f. attempt_from m ps left (suc attempt) (join_text (m.user_message ps) (m.nudge f)))
        (m.complete message v)
        (λ f v e.
          attempt_from-Vetted left (suc attempt) (join_text (m.user_message ps) (m.nudge f)) v e)
        h

-- Whatever the model answers: a proposal that the underwriter selects is one of the candidates that it
-- was given, and comes with a decision to write that passed all the semantic checks.
pub decide-Vetted :
    {V : Type 0} (m : Model V) (ps : List UnderwritingProposal) (v : V) (p : UnderwritingProposal)
    → (decide m ps v).0.selected ≡ some p
    → Vetted m.forbidden ps (decide m ps v).0 p
unfolding decide
decide-Vetted m [] v p h = absurd (cc)
decide-Vetted m (q ∷ ps) v p h =
    attempt_from-Vetted m (q ∷ ps) p max_schema_attempts 0 (m.user_message (q ∷ ps)) v h
