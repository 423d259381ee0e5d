-- ===== src/Kernel/Rules/Base.antt =====
-- What the rules share: the constructor of a finding, the exemption of a close (SK-000), and the
-- client order id.
use the_underwriter.Base.{ℕ, zero, suc, String, Bool, true, if◌then◌else◌, Result, ok}
use the_underwriter.Domain.Proposal.{UnderwritingProposal}
use the_underwriter.Kernel.Context.{KernelContext}
use the_underwriter.Kernel.Limits.{KernelLimits}
use the_underwriter.Kernel.Verdict.{RuleResult, Severity, hard}

-- `_result`
abbrev pub result : String → String → Bool → Severity → String → RuleResult
result rule_id name passed severity reason_code = record {
  rule_id = rule_id;
  name = name;
  passed = passed;
  severity = severity;
  reason_code = if passed then "" else reason_code;
}

-- `_exempt` and `_entry_quality_exempt`, which differ in their texts only.
abbrev pub exempt : String → String → RuleResult
exempt rule_id name = result rule_id name true hard ""

-- `text[:n]`
unfoldable pub take_text : ℕ → String → String
take_text zero s = ""
take_text (suc n) String.[] = ""
take_text (suc n) (String.◌∷◌ c s) = String.◌∷◌ c (take_text n s)

unfoldable pub join_text : String → String → String
join_text String.[] t = t
join_text (String.◌∷◌ c s) t = String.◌∷◌ c (join_text s t)

unfoldable pub client_order_id_for : String → String
unfolding take_text join_text
client_order_id_for hash = join_text "uw_" (take_text 24 hash)

unfoldable pub sk000_risk_reducing :
    UnderwritingProposal → KernelContext → KernelLimits → Result RuleResult
sk000_risk_reducing p c l = ok (result "SK-000" "risk_reducing_exemption" true hard "")
