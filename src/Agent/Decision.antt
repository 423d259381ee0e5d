-- ===== src/Agent/Decision.antt =====
-- backend/underwriter/agent/decision.py: a decision after the schema, and its semantic checks. The
-- search of the patterns FORBIDDEN_IN_RATIONALE is a test on the text.
use the_underwriter.Base.Int.{ℤ}
use the_underwriter.Domain.Decimal.{Decimal}
use the_underwriter.Base.{
  Bool, Option, ℕ, String, List, true, suc, some, if◌then◌else◌, false, none, ◌∷◌, str_eq, ltb, not,
  length, contains, ◌&&◌, any, [],
}

pub data DecisionAction : Type 0 where
  write decline : DecisionAction

abbrev pub is_write : DecisionAction → Bool
is_write write = true
is_write decline = false

pub record UnderwriterDecision : Type 0 where
  pub action : DecisionAction
  pub candidate_id : Option String
  pub confidence : Option Decimal
  pub contracts : Option ℤ
  pub rationale : String
  pub identified_risks : Option (List String)
  pub declined_reason : Option String

pub data SemanticFailure : Type 0 where
  write_without_candidate candidate_not_supplied write_without_confidence : SemanticFailure
  write_without_contracts write_without_risks too_many_risks risk_too_long : SemanticFailure
  decline_without_reason decline_reason_too_long : SemanticFailure
  rationale_contains_instructions : SemanticFailure

abbrev pub max_risk_item : ℕ
max_risk_item = 200

abbrev pub max_decline_reason : ℕ
max_decline_reason = 300

abbrev pub max_risks : ℕ
max_risks = 5

-- `len(text)`
unfoldable pub text_length : String → ℕ
text_length String.[] = 0
text_length (String.◌∷◌ c s) = suc (text_length s)

-- `text or ""`
abbrev pub text_or_empty : Option String → String
text_or_empty none = ""
text_or_empty (some s) = s

-- The checks on the risks.
unfoldable pub risk_failure : Option (List String) → Option SemanticFailure
unfolding text_length
risk_failure none = some write_without_risks
risk_failure (some []) = some write_without_risks
risk_failure (some (r ∷ rs)) =
    if ltb max_risks (length (r ∷ rs))
    then some too_many_risks
    else if any (λ risk. ltb max_risk_item (text_length risk)) (r ∷ rs)
    then some risk_too_long
    else none

-- `x is None`
abbrev pub missing {ℓ} : {A : Type ℓ} → Option A → Bool
missing none = true
missing (some _) = false

unfoldable pub write_failure : UnderwriterDecision → List String → Option SemanticFailure
unfolding risk_failure
write_failure d supplied =
    if str_eq (text_or_empty d.candidate_id) ""
    then some write_without_candidate
    else if not (contains (text_or_empty d.candidate_id) supplied)
    then some candidate_not_supplied
    else if missing d.confidence
    then some write_without_confidence
    else if missing d.contracts
    then some write_without_contracts
    else risk_failure d.identified_risks

unfoldable pub decline_failure : UnderwriterDecision → List String → Option SemanticFailure
unfolding text_length
decline_failure d supplied =
    if str_eq (text_or_empty d.declined_reason) ""
    then some decline_without_reason
    else if ltb max_decline_reason (text_length (text_or_empty d.declined_reason))
    then some decline_reason_too_long
    else if not (str_eq (text_or_empty d.candidate_id) "")
        && not (contains (text_or_empty d.candidate_id) supplied)
    then some candidate_not_supplied
    else none

-- The check of the rationale, after the others.
abbrev pub rationale_failure : Bool → Option SemanticFailure → Option SemanticFailure
rationale_failure matched (some f) = some f
rationale_failure true none = some rationale_contains_instructions
rationale_failure false none = none

unfoldable pub validate_semantics :
    (String → Bool) → UnderwriterDecision → List String → Option SemanticFailure
unfolding write_failure decline_failure
validate_semantics forbidden d supplied =
    rationale_failure (forbidden d.rationale)
      (if is_write d.action then write_failure d supplied else decline_failure d supplied)
