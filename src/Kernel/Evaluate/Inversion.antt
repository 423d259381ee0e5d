-- ===== src/Kernel/Evaluate/Inversion.antt =====
-- What is known of an adjudication that returned a verdict.
use the_underwriter.Base.{ℕ, ◌+◌, String, ◌≡◌, List, map, ok, >>=-eq-ok, arith}
use the_underwriter.Base.Int.{ℤ}
use the_underwriter.Domain.Decimal.{Decimal}
use the_underwriter.Domain.Money.{dec_one}
use the_underwriter.Domain.Hashing.{Platform}
use the_underwriter.Domain.Proposal.{UnderwritingProposal, proposal_hash}
use the_underwriter.Kernel.Context.{KernelContext}
use the_underwriter.Kernel.Limits.{KernelLimits}
use the_underwriter.Kernel.Rules.{RuleSpec}
use the_underwriter.Kernel.Verdict.{
  KernelVerdict, RuleResult, Decision, Tokens, mint, mint_signature, seconds,
}
use the_underwriter.Kernel.Evaluate.{
  guarded, soften, permitted_for, reduced_size, findings, granted, hard_failures, decide, reason,
  evaluate_with,
}

pub record IsMinted (lib : Platform) (tokens : Tokens) (hash : String) (decision : Decision)
    (contracts : ℤ) (rules : List RuleResult) (reasons : List String) (issued_at ttl : ℕ)
    (secret : String) (v : KernelVerdict) : Type 0 where
  pub hash_eq : v.proposal_hash ≡ hash
  pub decision_eq : v.verdict ≡ decision
  pub contracts_eq : v.approved_contracts ≡ contracts
  pub rules_eq : v.rules ≡ rules
  pub reasons_eq : v.reject_reasons ≡ reasons
  pub nonce_eq : v.nonce ≡ tokens.nonce
  pub expires_eq : v.expires_at ≡ issued_at + seconds ttl
  pub signed :
      mint_signature lib hash contracts tokens.nonce (issued_at + seconds ttl) secret decision
      ≡ ok v.signature

pub mint-IsMinted :
    (lib : Platform) (tokens : Tokens) (hash : String) (decision : Decision) (contracts : ℤ)
    (rules : List RuleResult) (reasons : List String) (issued_at ttl : ℕ) (secret : String)
    (v : KernelVerdict)
    → mint lib tokens hash decision contracts rules reasons issued_at ttl secret ≡ ok v
    → IsMinted lib tokens hash decision contracts rules reasons issued_at ttl secret v
unfolding mint
mint-IsMinted lib tokens hash decision contracts rules reasons issued_at ttl secret v h =
    ground arith

pub record Adjudicated (specs : List RuleSpec) (lib : Platform) (tokens : Tokens)
    (p : UnderwritingProposal) (requested : ℤ) (c : KernelContext) (secret : String)
    (l : KernelLimits) (v : KernelVerdict) : Type 0 where
  pub multiplier : Decimal
  pub allowed : ℤ
  pub size : ℤ
  pub hash : String
  pub softened : soften l dec_one (map (guarded p c l) specs) ≡ ok multiplier
  pub allows : permitted_for p requested c l ≡ ok allowed
  pub sizes : reduced_size l requested allowed multiplier ≡ ok size
  pub hashes : proposal_hash lib p ≡ ok hash
  pub minted :
      IsMinted lib tokens hash
        (decide (hard_failures (findings specs p c l size)))
        (granted (decide (hard_failures (findings specs p c l size))) size)
        (findings specs p c l size)
        (map reason (hard_failures (findings specs p c l size)))
        c.now
        l.verdict_ttl_sec
        secret
        v

pub evaluate_with-Adjudicated :
    (specs : List RuleSpec) (lib : Platform) (tokens : Tokens) (p : UnderwritingProposal)
    (requested : ℤ) (c : KernelContext) (secret : String) (l : KernelLimits) (v : KernelVerdict)
    → evaluate_with specs lib tokens p requested c secret l ≡ ok v
    → Adjudicated specs lib tokens p requested c secret l v
unfolding evaluate_with
evaluate_with-Adjudicated specs lib tokens p requested c secret l v h =
    let (multiplier, e₁, h₁) = >>=-eq-ok (soften l dec_one (map (guarded p c l) specs)) _ h in
    let (allowed, e₂, h₂) = >>=-eq-ok (permitted_for p requested c l) _ h₁ in
    let (size, e₃, h₃) = >>=-eq-ok (reduced_size l requested allowed multiplier) _ h₂ in
    let (hash, e₄, h₄) = >>=-eq-ok (proposal_hash lib p) _ h₃ in
    record {
      multiplier = multiplier;
      allowed = allowed;
      size = size;
      hash = hash;
      softened = e₁;
      allows = e₂;
      sizes = e₃;
      hashes = e₄;
      minted = mint-IsMinted lib tokens hash _ _ _ _ c.now l.verdict_ttl_sec secret v h₄;
    }
