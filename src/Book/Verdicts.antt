-- ===== src/Book/Verdicts.antt =====
-- The verdict of the Kernel in cycle/recorder.py, with every rule that was evaluated. The name
-- `unsigned` stands for the text that replaces an empty nonce.
use the_underwriter.Base.Int.{pos}
use the_underwriter.Kernel.Rules.{join_text}
use the_underwriter.Book.Rows.{RiskCheck, ActionType, KernelDecision}
use the_underwriter.Domain.Hashing.{
  Platform, null, mapping, entry, str, int, sequence, boolean, no_entry,
}
use the_underwriter.Kernel.Verdict.{RuleResult, KernelVerdict, decision_value}
use the_underwriter.Book.Session.{append_entry, Draws, Session, recorded, texts_value}
use the_underwriter.Base.{
  String, Option, Bool, false, some, true, if◌then◌else◌, none, Result, str_eq, ◌>>=◌, length, ◌++◌,
  ◌∷◌, [], map, ok,
}

abbrev pub verdict_row :
    (String → String)
    → Draws
    → String
    → KernelVerdict
    → Option String
    → Option String
    → ActionType
    → KernelDecision
verdict_row unsigned d cid v candidate_row_id decision_row_id action_type = record {
  id = d.id;
  correlation_id = cid;
  candidate_id = candidate_row_id;
  decision_id = decision_row_id;
  proposal_hash = v.proposal_hash;
  verdict = v.verdict;
  approved_contracts = v.approved_contracts;
  reject_reasons = v.reject_reasons;
  nonce = if str_eq v.nonce "" then unsigned v.verdict_id else v.nonce;
  issued_at = v.issued_at;
  expires_at = v.expires_at;
  signature = v.signature;
  action_type = action_type;
}

abbrev pub check_row : String → RuleResult → RiskCheck
check_row id r = record {
  kernel_decision_id = id;
  rule_id = r.rule_id;
  rule_name = r.name;
  passed = r.passed;
  severity = r.severity;
}

abbrev pub signed : Option String → Bool
signed none = false
signed (some _) = true

-- `CycleRecorder.verdict`
unfoldable pub record_verdict :
    Platform
    → (String → String)
    → Draws
    → String
    → KernelVerdict
    → Option String
    → Option String
    → ActionType
    → Session
    → Result (String × Session)
unfolding append_entry
record_verdict lib unsigned d cid v candidate_row_id decision_row_id action_type s = do
  s' ←
      append_entry lib d.seq
        (recorded d cid "KERNEL" (join_text "VERDICT_" (decision_value v.verdict)) "kernel_decision"
          (some d.id) null
          (mapping (
            entry "verdict" (str (decision_value v.verdict)) (
              entry "approved_contracts" (int v.approved_contracts) (
                entry "reject_reasons" (sequence (texts_value v.reject_reasons)) (
                  entry "rules_evaluated" (int (pos (length v.rules)))
                    (entry "signed" (boolean (signed v.signature)) no_entry)))))))
        (record s {
          kernel_decisions =
              s.kernel_decisions
              ++ verdict_row unsigned d cid v candidate_row_id decision_row_id action_type ∷ [];
          risk_checks = s.risk_checks ++ map (check_row d.id) v.rules;
        })
  ok (d.id, s')
