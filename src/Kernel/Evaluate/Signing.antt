-- ===== src/Kernel/Evaluate/Signing.antt =====
-- The verdict of the Kernel and the gate: what is approved is authorised, and what is refused
-- carries nothing.
use the_underwriter.Kernel.Verdict.Authorize.{Accepts-authorize, Accepts}
use the_underwriter.Kernel.Evaluate.Approval.{evaluate-ran, approve_of, evaluate_with-approve}
use the_underwriter.Kernel.Evaluate.Inversion.{evaluate_with-Adjudicated, IsMinted}
use the_underwriter.Kernel.Evaluate.{
  evaluate_with, decide, refusal, hard_failures, findings, evaluate,
}
use the_underwriter.Kernel.Limits.{KernelLimits}
use the_underwriter.Kernel.Context.{KernelContext}
use the_underwriter.Base.Int.{ℤ, pos, ◌≤ℤ◌}
use the_underwriter.Domain.Proposal.{UnderwritingProposal, proposal_hash}
use the_underwriter.Base.{
  List, String, ℕ, ◌≡◌, ok, false, true, none, ◌≤◌, Result, Result-cases, ◌+◌, Option, inl,
  contains, inr, some, ◌∷◌, sym, ◌∙◌, arith, ok-injective, subst, refl,
}
use the_underwriter.Domain.Hashing.{Platform}
use the_underwriter.Kernel.Rules.{RuleSpec, table}
use the_underwriter.Kernel.Verdict.{
  mint_signature, Tokens, KernelVerdict, approved, NonceRegistry, reject, seconds, authorize,
  Decision, is_approve, RuleResult, approve,
}

reject_of : (d : Decision) → is_approve d ≡ false → d ≡ reject
reject_of d h = ground arith

-- A verdict of the rules that refuses grants nothing and is not signed.
reject-unsigned :
    (specs : List RuleSpec) (lib : Platform) (tokens : Tokens) (p : UnderwritingProposal)
    (requested : ℤ) (c : KernelContext) (secret : String) (l : KernelLimits) (v : KernelVerdict)
    → evaluate_with specs lib tokens p requested c secret l ≡ ok v
    → v.verdict ≡ reject
    → (v.approved_contracts ≡ pos 0) × (v.signature ≡ none)
unfolding mint_signature
reject-unsigned specs lib tokens p requested c secret l v ran h =
    let a = evaluate_with-Adjudicated specs lib tokens p requested c secret l v ran in
    let d : decide (hard_failures (findings specs p c l a.size)) ≡ reject =
      sym a.minted.decision_eq ∙ h in
    (a.minted.contracts_eq ∙ rw d, signed_none (rw d at a.minted.signed))
  where
    signed_none : ◌≡◌ {A = Result (Option String)} (ok none) (ok v.signature) → v.signature ≡ none
    signed_none e = cc

-- A verdict that does not approve grants no contract and carries no signature, so that there is
-- nothing to present at the gate.
pub refused-unsigned :
    (lib : Platform) (tokens : Tokens) (p : UnderwritingProposal) (requested : ℤ)
    (c : KernelContext) (secret : String) (l : KernelLimits)
    → approved (evaluate lib tokens p requested c secret l) ≡ false
    → ((evaluate lib tokens p requested c secret l).approved_contracts ≡ pos 0)
      × ((evaluate lib tokens p requested c secret l).signature ≡ none)
unfolding evaluate
refused-unsigned lib tokens p requested c secret l h =
    elim (Result-cases (evaluate_with (table lib) lib tokens p requested c secret l)) [
      | inl (e, raised) ↦ unfold refusal in rw raised (refl, refl)
      | inr (v, returned) ↦ rw returned (
          reject-unsigned (table lib) lib tokens p requested c secret l v returned
            (reject_of v.verdict (rw returned at h)))
    ]

module _ (lib : Platform) (tokens : Tokens) (hash : String) (decision : Decision) (contracts : ℤ)
    (rules : List RuleResult) (reasons : List String) (issued_at ttl : ℕ) (secret : String)
    (v : KernelVerdict)
    (m : IsMinted lib tokens hash decision contracts rules reasons issued_at ttl secret v) where
  minted-Accepts :
      (now : ℕ) (used : NonceRegistry)
      → decision ≡ approve
      → pos 1 ≤ℤ contracts
      → now ≤ issued_at + seconds ttl
      → contains tokens.nonce used ≡ false
      → Accepts lib v hash secret now used
  minted-Accepts now used d big current fresh = record {
    approves = m.decision_eq ∙ d;
    sized = rw m.contracts_eq big;
    current = rw m.expires_eq current;
    bound = m.hash_eq;
    signed =
        rw (m.hash_eq, m.contracts_eq, m.nonce_eq, m.expires_eq)
          (subst
            (λ d'.
              mint_signature lib hash contracts tokens.nonce (issued_at + seconds ttl) secret d'
              ≡ ok v.signature)
            d m.signed);
    fresh = rw m.nonce_eq fresh;
  }

  minted-authorize :
      (now : ℕ) (used : NonceRegistry)
      → decision ≡ approve
      → pos 1 ≤ℤ contracts
      → now ≤ issued_at + seconds ttl
      → contains tokens.nonce used ≡ false
      → authorize lib (some v) hash secret now used ≡ (ok v.approved_contracts, tokens.nonce ∷ used)
  minted-authorize now used d big current fresh =
      subst (λ k. authorize lib (some v) hash secret now used ≡ (ok v.approved_contracts, k ∷ used))
        m.nonce_eq
        (Accepts-authorize lib v hash secret now used (minted-Accepts now used d big current fresh))

-- What the Kernel approves, the gate authorises, once, within the time to live: for the proposal
-- that was adjudicated, and for the approved size.
pub approved-authorize :
    (lib : Platform) (tokens : Tokens) (p : UnderwritingProposal) (requested : ℤ)
    (c : KernelContext) (secret : String) (l : KernelLimits) (hash : String) (now : ℕ)
    (used : NonceRegistry)
    → approved (evaluate lib tokens p requested c secret l) ≡ true
    → proposal_hash lib p ≡ ok hash
    → now ≤ c.now + seconds l.verdict_ttl_sec
    → contains tokens.nonce used ≡ false
    → authorize lib (some (evaluate lib tokens p requested c secret l)) hash secret now used
      ≡ (ok (evaluate lib tokens p requested c secret l).approved_contracts, tokens.nonce ∷ used)
approved-authorize lib tokens p requested c secret l hash now used yes_given hashed current fresh =
    let v = evaluate lib tokens p requested c secret l in
    let ran = evaluate-ran lib tokens p requested c secret l yes_given in
    let a = evaluate_with-Adjudicated (table lib) lib tokens p requested c secret l v ran in
    let approves = approve_of v.verdict yes_given in
    let (_, big) =
      evaluate_with-approve (table lib) lib tokens p requested c secret l v ran approves in
    let same : a.hash ≡ hash = ok-injective (sym a.hashes ∙ hashed) in
    subst
      (λ h.
        authorize lib (some v) h secret now used ≡ (ok v.approved_contracts, tokens.nonce ∷ used))
      same
      (minted-authorize lib tokens a.hash _ _ _ _ c.now l.verdict_ttl_sec secret v a.minted now used
        (sym a.minted.decision_eq ∙ approves) (rw a.minted.contracts_eq at big) current fresh)
