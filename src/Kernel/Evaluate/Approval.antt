-- ===== src/Kernel/Evaluate/Approval.antt =====
-- What an approval and a refusal say about the rules.
use the_underwriter.Base.{
  String, ◌≡◌, refl, sym, ◌∙◌, true, false, List, [], ◌∷◌, All, Result, ok, err, arith, ◌⊎◌, inl,
  inr,
}
use the_underwriter.Base.Int.{ℤ, pos, ◌≤ℤ◌}
use the_underwriter.Domain.Hashing.{Platform}
use the_underwriter.Domain.Proposal.{UnderwritingProposal}
use the_underwriter.Kernel.Context.{KernelContext}
use the_underwriter.Kernel.Limits.{KernelLimits}
use the_underwriter.Kernel.Rules.{RuleSpec, table}
use the_underwriter.Kernel.Verdict.{
  KernelVerdict, RuleResult, Decision, approve, reject, Tokens, is_approve, approved,
  is_hard_failure,
}
use the_underwriter.Kernel.Evaluate.{
  guarded, size_floor, findings, hard_failures, decide, evaluate_with, refusal, evaluate, or_refuse,
}
use the_underwriter.Kernel.Evaluate.Inversion.{Adjudicated, evaluate_with-Adjudicated}

-- No finding of the list is a hard failure.
abbrev pub NoHardFailure : List RuleResult → Type 0
NoHardFailure = All (λ r. is_hard_failure r ≡ false)

decide-approve : (rs : List RuleResult) → decide (hard_failures rs) ≡ approve → NoHardFailure rs
unfolding decide
decide-approve [] h = tt
decide-approve (r ∷ rs) h = ground (arith, decide-approve rs)

pub approve_of : (d : Decision) → is_approve d ≡ true → d ≡ approve
approve_of d h = ground arith

pub Decision-cases : (d : Decision) → (d ≡ approve) ⊎ (d ≡ reject)
Decision-cases approve = inl refl
Decision-cases reject = inr refl

NoHardFailure-map :
    (specs : List RuleSpec) (p : UnderwritingProposal) (c : KernelContext) (l : KernelLimits)
    (size : ℤ)
    → NoHardFailure (findings specs p c l size)
    → All (λ s. is_hard_failure (guarded p c l s) ≡ false) specs × (pos 1 ≤ℤ size)
unfolding size_floor
NoHardFailure-map [] p c l size h = (tt, ground arith)
NoHardFailure-map (s ∷ ss) p c l size h =
    let (rest, big) = NoHardFailure-map ss p c l size h.1 in ((h.0, rest), big)

module _ (specs : List RuleSpec) (lib : Platform) (tokens : Tokens) (p : UnderwritingProposal)
    (requested : ℤ) (c : KernelContext) (secret : String) (l : KernelLimits) (v : KernelVerdict)
    (ran : evaluate_with specs lib tokens p requested c secret l ≡ ok v) where
  run : Adjudicated specs lib tokens p requested c secret l v
  run = evaluate_with-Adjudicated specs lib tokens p requested c secret l v ran

  pub evaluate_with-approve :
      v.verdict ≡ approve
      → All (λ s. is_hard_failure (guarded p c l s) ≡ false) specs × (pos 1 ≤ℤ v.approved_contracts)
  evaluate_with-approve h =
      let a = run in
      let d : decide (hard_failures (findings specs p c l a.size)) ≡ approve =
        sym a.minted.decision_eq ∙ h in
      let (passed, big) =
        NoHardFailure-map specs p c l a.size (decide-approve (findings specs p c l a.size) d) in
      (passed, rw (a.minted.contracts_eq, d) big)

or_refuse-approved :
    (r : Result KernelVerdict) (fallback : KernelVerdict)
    → fallback.verdict ≡ reject
    → approved (or_refuse r fallback) ≡ true
    → r ≡ ok (or_refuse r fallback)
or_refuse-approved (ok v) fallback e h = refl
or_refuse-approved (err x) fallback e h = cc

-- An approval is the verdict that the rules reached: the refusal never approves.
pub evaluate-ran :
    (lib : Platform) (tokens : Tokens) (p : UnderwritingProposal) (requested : ℤ)
    (c : KernelContext) (secret : String) (l : KernelLimits)
    → approved (evaluate lib tokens p requested c secret l) ≡ true
    → evaluate_with (table lib) lib tokens p requested c secret l
      ≡ ok (evaluate lib tokens p requested c secret l)
unfolding evaluate refusal
evaluate-ran lib tokens p requested c secret l h =
    or_refuse-approved (evaluate_with (table lib) lib tokens p requested c secret l)
      (refusal lib p c) refl h
