-- ===== src/Kernel/Verdict.antt =====
-- backend/underwriter/kernel/verdict.py: the verdict, its signature, and the gate on every order.
-- The texts that a rule shows to people (`observed`, `limit`, `message`) decide nothing and are left
-- out. The random tokens are arguments.
pub mod Authorize
pub mod Replay
pub mod Forgery
use the_underwriter.Base.{
  ℕ, ◌+◌, ◌*◌, ◌^◌, String, Bool, true, false, not, ◌&&◌, if◌then◌else◌, ltb, str_eq, contains,
  Option, none, some, List, [], ◌∷◌, select, Result, ok, err, ◌>>=◌, ◌>>◌, raise_if, value_error,
  unauthorized_execution,
}
use the_underwriter.Base.Int.{ℤ, pos, ltb_ℤ}
use the_underwriter.Domain.Hashing.{
  Platform, PyValue, str, int, datetime, mapping, no_entry, entry, canonical_json,
}

pub data Severity : Type 0 where
  hard soft : Severity

pub data Decision : Type 0 where
  approve reject : Decision

abbrev pub decision_value : Decision → String
decision_value approve = "APPROVE"
decision_value reject = "REJECT"

abbrev pub fail_closed : String
fail_closed = "KERNEL_FAIL_CLOSED"

pub record RuleResult : Type 0 where
  pub rule_id : String
  pub name : String
  pub passed : Bool
  pub severity : Severity
  pub reason_code : String

abbrev pub is_hard : Severity → Bool
is_hard hard = true
is_hard soft = false

abbrev pub is_hard_failure : RuleResult → Bool
is_hard_failure r = not r.passed && is_hard r.severity

abbrev pub is_soft_failure : RuleResult → Bool
is_soft_failure r = not r.passed && not (is_hard r.severity)

pub record KernelVerdict : Type 0 where
  pub verdict_id : String
  pub proposal_hash : String
  pub verdict : Decision
  pub approved_contracts : ℤ
  pub rules : List RuleResult
  pub reject_reasons : List String
  pub nonce : String
  pub issued_at : ℕ
  pub expires_at : ℕ
  pub signature : Option String

abbrev pub is_approve : Decision → Bool
is_approve approve = true
is_approve reject = false

-- `verdict.approved`
abbrev pub approved : KernelVerdict → Bool
approved v = is_approve v.verdict

abbrev pub failed_rules : KernelVerdict → List RuleResult
failed_rules v = select (λ r. not r.passed) v.rules

abbrev pub is_expired : KernelVerdict → ℕ → Bool
is_expired v now = ltb v.expires_at now

-- The mapping that `signing_payload` serialises.
abbrev pub signing_fields : String → ℤ → Decision → String → ℕ → PyValue
signing_fields hash contracts verdict nonce expires_at = mapping (
    entry "proposal_hash" (str hash) (
      entry "approved_contracts" (int contracts) (
        entry "verdict" (str (decision_value verdict))
          (entry "nonce" (str nonce) (entry "expires_at" (datetime expires_at) no_entry)))))

unfoldable pub signing_payload : Platform → String → ℤ → Decision → String → ℕ → Result String
unfolding canonical_json
signing_payload lib hash contracts verdict nonce expires_at =
    canonical_json lib (signing_fields hash contracts verdict nonce expires_at)

unfoldable pub sign : Platform → String → String → Result String
sign lib payload secret =
    raise_if (str_eq secret "") value_error >> ok (lib.hmac_hex secret payload)

-- `timedelta(seconds=n)`, in microseconds
abbrev pub seconds : ℕ → ℕ
seconds n = n * 10 ^ 6

-- `sign(signing_payload(…), secret)`
unfoldable pub signature_of : Platform → String → ℤ → Decision → String → ℕ → String → Result String
unfolding signing_payload sign
signature_of lib hash contracts verdict nonce expires_at secret = do
  payload ← signing_payload lib hash contracts verdict nonce expires_at
  sign lib payload secret

-- The signature that `mint` computes, for an approval only.
unfoldable pub mint_signature :
    Platform → String → ℤ → String → ℕ → String → Decision → Result (Option String)
mint_signature lib hash contracts nonce expires_at secret approve = do
  signature ← signature_of lib hash contracts approve nonce expires_at secret
  ok (some signature)
mint_signature lib hash contracts nonce expires_at secret reject = ok none

-- The two tokens that `mint` draws.
pub record Tokens : Type 0 where
  pub nonce : String
  pub verdict_id : String

unfoldable pub mint :
    Platform
    → Tokens
    → String
    → Decision
    → ℤ
    → List RuleResult
    → List String
    → ℕ
    → ℕ
    → String
    → Result KernelVerdict
unfolding mint_signature
mint lib tokens hash verdict contracts rules reasons issued_at ttl_sec secret = do
  let expires_at = issued_at + seconds ttl_sec
  signature ← mint_signature lib hash contracts tokens.nonce expires_at secret verdict
  ok (record {
    verdict_id = tokens.verdict_id;
    proposal_hash = hash;
    verdict = verdict;
    approved_contracts = contracts;
    rules = rules;
    reject_reasons = reasons;
    nonce = tokens.nonce;
    issued_at = issued_at;
    expires_at = expires_at;
    signature = signature;
  })

-- `NonceRegistry`: the nonces that were consumed.
abbrev pub NonceRegistry : Type 0
NonceRegistry = List String

unfoldable pub consume : NonceRegistry → String → Bool × NonceRegistry
consume used nonce = if contains nonce used then (false, used) else (true, nonce ∷ used)

-- `NonceRegistry.seen`
abbrev pub seen : NonceRegistry → String → Bool
seen used nonce = contains nonce used

-- The tests of `authorize` on a verdict with a signature, up to the nonce.
unfoldable pub check_verdict :
    Platform → KernelVerdict → String → String → ℕ → String → Result (Unit {0})
check_verdict lib v hash secret now signature = do
  raise_if (ltb_ℤ v.approved_contracts (pos 1)) unauthorized_execution
  raise_if (is_expired v now) unauthorized_execution
  raise_if (not (str_eq v.proposal_hash hash)) unauthorized_execution
  expected ←
      signature_of lib v.proposal_hash v.approved_contracts v.verdict v.nonce v.expires_at secret
  raise_if (not (str_eq expected signature)) unauthorized_execution

-- The gate: the contracts that may be ordered, or an error; and the registry afterwards, which
-- only the last step changes.
unfoldable pub authorize :
    Platform → Option KernelVerdict → String → String → ℕ → NonceRegistry → Result ℤ × NonceRegistry
unfolding check_verdict consume
authorize lib none hash secret now used = (err unauthorized_execution, used)
authorize lib (some v) hash secret now used =
    if not (is_approve v.verdict) then (err unauthorized_execution, used) else elim v.signature [
      | none ↦ (err unauthorized_execution, used)
      | some signature ↦ elim (check_verdict lib v hash secret now signature) [
        | err e ↦ (err e, used)
        | ok _ ↦
            let (fresh, used') = consume used v.nonce in
            (if fresh then ok v.approved_contracts else err unauthorized_execution, used')
      ]
    ]
