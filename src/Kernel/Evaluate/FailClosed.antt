-- ===== src/Kernel/Evaluate/FailClosed.antt =====
-- Failing closed: a rule that raises, or that returns something else than a verdict, refuses.
use the_underwriter.Kernel.Evaluate.Approval.{Decision-cases, evaluate_with-approve}
use the_underwriter.Kernel.Evaluate.Inversion.{evaluate_with-Adjudicated}
use the_underwriter.Base.Int.{ℤ}
use the_underwriter.Kernel.Limits.{KernelLimits}
use the_underwriter.Kernel.Verdict.{Tokens, KernelVerdict, fail_closed, reject, is_hard_failure}
use the_underwriter.Kernel.Context.{KernelContext}
use the_underwriter.Domain.Hashing.{Platform}
use the_underwriter.Domain.Proposal.{UnderwritingProposal}
use the_underwriter.Base.{
  List, Error, ◌≡◌, ℕ, String, err, get_elem?, ◌⊎◌, inl, some, ok, inr, contains, none, map, true,
  ◌∷◌, ◌≢◌, arith, Bool, false, suc, All-get_elem?, [], zero, subst, sym,
}
use the_underwriter.Kernel.Evaluate.{
  guarded, refused, evaluate_with, reason, hard_failures, findings,
}
use the_underwriter.Kernel.Rules.{RuleSpec}

-- The rule gave no verdict.
abbrev GaveNone : RuleSpec → UnderwritingProposal → KernelContext → KernelLimits → Type 0
GaveNone s p c l = ((e : Error) × (s.evaluate p c l ≡ err e)) ⊎ (s.evaluate p c l ≡ ok none)

guarded-refused :
    (s : RuleSpec) (p : UnderwritingProposal) (c : KernelContext) (l : KernelLimits)
    → GaveNone s p c l
    → guarded p c l s ≡ refused s
unfolding guarded
guarded-refused s p c l (inl (e, raised)) = rw raised
guarded-refused s p c l (inr other) = rw other

-- A hard failure with the code is among the reasons, wherever it stands.
reasons-contain :
    (specs : List RuleSpec) (p : UnderwritingProposal) (c : KernelContext) (l : KernelLimits)
    (size : ℤ) (i : ℕ) (s : RuleSpec)
    → get_elem? specs i ≡ some s
    → guarded p c l s ≡ refused s
    → contains fail_closed (map reason (hard_failures (findings specs p c l size))) ≡ true
reasons-contain [] p c l size i s found g = cc
reasons-contain (r ∷ rs) p c l size zero s found g =
    let e : r ≡ s = cc in
    let same : guarded p c l r ≡ refused s = subst (λ q. guarded p c l q ≡ refused s) (sym e) g in
    rw same
reasons-contain (r ∷ rs) p c l size (suc i) s found g =
    ground (arith, reasons-contain rs p c l size i s found g)

refused_fails : ◌≢◌ {A = Bool} true false
refused_fails e = cc

-- Over any table of rules: where one of them raises, or returns something else than a verdict, what
-- is reached is a refusal, and the ledger shows why.
pub raising_rule_rejects :
    (specs : List RuleSpec) (lib : Platform) (tokens : Tokens) (p : UnderwritingProposal)
    (requested : ℤ) (c : KernelContext) (secret : String) (l : KernelLimits) (v : KernelVerdict)
    (i : ℕ) (s : RuleSpec)
    → evaluate_with specs lib tokens p requested c secret l ≡ ok v
    → get_elem? specs i ≡ some s
    → GaveNone s p c l
    → (v.verdict ≡ reject) × (contains fail_closed v.reject_reasons ≡ true)
raising_rule_rejects specs lib tokens p requested c secret l v i s ran found gave =
    let a = evaluate_with-Adjudicated specs lib tokens p requested c secret l v ran in
    let g = guarded-refused s p c l gave in
    (
      elim (Decision-cases v.verdict) [
        | inl yes_given ↦
            let (all_pass, _) =
              evaluate_with-approve specs lib tokens p requested c secret l v ran yes_given in
            let passed : is_hard_failure (guarded p c l s) ≡ false =
              All-get_elem? (λ s. is_hard_failure (guarded p c l s) ≡ false) specs i s found
                all_pass in
            absurd (refused_fails (rw g at passed))
        | inr refusal ↦ refusal
      ],
      rw a.minted.reasons_eq (reasons-contain specs p c l a.size i s found g),
    )
