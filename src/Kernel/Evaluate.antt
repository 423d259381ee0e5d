-- ===== src/Kernel/Evaluate.antt =====
-- The adjudication of backend/underwriter/kernel/kernel.py: every rule in its guard, the sizing, the
-- size floor (SK-020), and a verdict whatever happens.
pub mod Inversion
pub mod Approval
pub mod Signing
pub mod FailClosed
pub mod Size
use the_underwriter.Base.{
  ℕ, ◌<◌, String, Bool, true, false, not, if◌then◌else◌, str_eq, Option, none, some, List, [], ◌∷◌,
  ◌++◌, map, select, Result, ok, err, ◌>>=◌,
}
use the_underwriter.Base.Int.{ℤ, pos, min_ℤ, max_ℤ, leb_ℤ}
use the_underwriter.Domain.Decimal.{Decimal, of_ℤ, mul, floor_int}
use the_underwriter.Domain.Money.{dec_one}
use the_underwriter.Domain.Hashing.{Platform}
use the_underwriter.Domain.Proposal.{UnderwritingProposal, is_close, proposal_hash}
use the_underwriter.Kernel.Context.{KernelContext}
use the_underwriter.Kernel.Limits.{KernelLimits}
use the_underwriter.Kernel.Rules.{RuleSpec, table}
use the_underwriter.Kernel.Sizing.{permitted, compute_sizing}
use the_underwriter.Kernel.Verdict.{
  KernelVerdict, RuleResult, Tokens, hard, approve, reject, Decision, fail_closed, is_hard_failure,
  is_soft_failure, mint,
}

-- The finding about a rule that gave none.
abbrev pub refused : RuleSpec → RuleResult
refused s = record {
  rule_id = s.rule_id;
  name = s.name;
  passed = false;
  severity = hard;
  reason_code = fail_closed;
}

-- `_guarded`, on what the rule returned or raised.
unfoldable pub finding : RuleSpec → Result (Option RuleResult) → RuleResult
finding s (ok (some r)) = r
finding s (ok none) = refused s
finding s (err e) = refused s

unfoldable pub guarded : UnderwritingProposal → KernelContext → KernelLimits → RuleSpec → RuleResult
unfolding finding
guarded p c l s = finding s (s.evaluate p c l)

-- The loop over the soft failures.
unfoldable pub soften : KernelLimits → Decimal → List RuleResult → Result Decimal
soften l multiplier [] = ok multiplier
soften l multiplier (r ∷ rs) =
    (if is_soft_failure r then mul multiplier l.soft_factor else ok multiplier) >>= λ reduced.
    soften l reduced rs

-- `permitted`: a close is bounded by the position, an entry by the capital.
unfoldable pub permitted_for : UnderwritingProposal → ℤ → KernelContext → KernelLimits → Result ℤ
permitted_for p requested c l =
    if is_close p.action
    then ok (max_ℤ (pos 0) requested)
    else do sizing ← compute_sizing p c l; ok (permitted sizing)

-- `approved`: what is asked and permitted, after the reductions, in whole contracts.
unfoldable pub reduced_size : KernelLimits → ℤ → ℤ → Decimal → Result ℤ
reduced_size l requested allowed multiplier = do
  let raw = of_ℤ (min_ℤ (max_ℤ requested (pos 0)) allowed)
  softened ← mul raw multiplier
  calibrated ← mul softened l.calibration_multiplier
  floor_int calibrated

-- SK-020
unfoldable pub size_floor : ℤ → RuleResult
size_floor size = record {
  rule_id = "SK-020";
  name = "size_floor";
  passed = leb_ℤ (pos 1) size;
  severity = hard;
  reason_code = if leb_ℤ (pos 1) size then "" else "SIZE_FLOOR";
}

-- `r.reason_code or r.rule_id`
abbrev pub reason : RuleResult → String
reason r = if str_eq r.reason_code "" then r.rule_id else r.reason_code

abbrev pub hard_failures : List RuleResult → List RuleResult
hard_failures = select is_hard_failure

unfoldable pub decide : List RuleResult → Decision
decide [] = approve
decide (r ∷ rs) = reject

-- `results` with the size floor at its end
abbrev pub findings :
    List RuleSpec → UnderwritingProposal → KernelContext → KernelLimits → ℤ → List RuleResult
findings specs p c l size = map (guarded p c l) specs ++ size_floor size ∷ []

-- `approved if decision is Decision.APPROVE else 0`
abbrev pub granted : Decision → ℤ → ℤ
granted approve size = size
granted reject size = pos 0

-- `_evaluate`, over a table of rules
unfoldable pub evaluate_with :
    List RuleSpec
    → Platform
    → Tokens
    → UnderwritingProposal
    → ℤ
    → KernelContext
    → String
    → KernelLimits
    → Result KernelVerdict
evaluate_with specs lib tokens p requested c secret l = do
  multiplier ← soften l dec_one (map (guarded p c l) specs)
  allowed ← permitted_for p requested c l
  size ← reduced_size l requested allowed multiplier
  let results = findings specs p c l size
  let failures = hard_failures results
  let decision = decide failures
  hash ← proposal_hash lib p
  mint lib tokens hash decision (granted decision size) results (map reason failures) c.now
      l.verdict_ttl_sec secret

-- `_safe_hash`
abbrev pub safe_hash : Result String → String
safe_hash (ok hash) = hash
safe_hash (err e) = "unhashable"

-- The refusal of a verdict that could not be reached.
unfoldable pub refusal : Platform → UnderwritingProposal → KernelContext → KernelVerdict
refusal lib p c = record {
  verdict_id = "vd_failclosed";
  proposal_hash = safe_hash (proposal_hash lib p);
  verdict = reject;
  approved_contracts = pos 0;
  rules =
      record {
        rule_id = "SK-999";
        name = "kernel_integrity";
        passed = false;
        severity = hard;
        reason_code = fail_closed;
      }
      ∷ [];
  reject_reasons = fail_closed ∷ [];
  nonce = "";
  issued_at = c.now;
  expires_at = c.now;
  signature = none;
}

abbrev pub or_refuse : Result KernelVerdict → KernelVerdict → KernelVerdict
or_refuse (ok v) fallback = v
or_refuse (err e) fallback = fallback

-- `evaluate`: a function into verdicts, so it never raises.
unfoldable pub evaluate :
    Platform
    → Tokens
    → UnderwritingProposal
    → ℤ
    → KernelContext
    → String
    → KernelLimits
    → KernelVerdict
evaluate lib tokens p requested c secret l =
    or_refuse (evaluate_with (table lib) lib tokens p requested c secret l) (refusal lib p c)
