-- ===== src/Agent/Tests.antt =====
-- A run of the underwriter: the model answers with a text that is no decision, then with one.
use the_underwriter.Base.Int.{pos}
use the_underwriter.Domain.Decimal.{of_ℕ}
use the_underwriter.Domain.Proposal.{opening}
use the_underwriter.Agent.Choice.{Vetted, decide-Vetted}
use the_underwriter.Kernel.Scenario.{proposal}
use the_underwriter.Base.{
  ℕ, some, if◌then◌else◌, ◌∷◌, ◌==◌, [], none, suc, ◌≡◌, str_eq, false, refl,
}
use the_underwriter.Agent.Underwriter.{decide}
use the_underwriter.Agent.Underwriter.{Model}
use the_underwriter.Agent.Decision.{UnderwriterDecision, write}

abbrev choice : UnderwriterDecision
choice = record {
  action = write;
  candidate_id = some "c1";
  confidence = some (of_ℕ 1);
  contracts = some (pos 1);
  rationale = "edge";
  identified_risks = some ("gap" ∷ []);
  declined_reason = none;
}

-- The world counts the calls.
abbrev pub answering : Model ℕ
answering = record {
  complete = λ message calls. (some (if calls == 0 then "?" else "write"), suc calls);
  user_message = λ ps. "candidates";
  nudge = λ f. " again";
  parse_schema = λ content. if str_eq content "write" then some choice else none;
  forbidden = λ rationale. false;
}

retried_once : (decide answering (proposal opening ∷ []) 0).1 ≡ 2
unfolding decide
retried_once = refl

decide-Vetted_example :
    Vetted answering.forbidden
      (proposal opening ∷ [])
      (decide answering (proposal opening ∷ []) 0).0
      (proposal opening)
unfolding decide
decide-Vetted_example = decide-Vetted answering (proposal opening ∷ []) 0 (proposal opening) refl
