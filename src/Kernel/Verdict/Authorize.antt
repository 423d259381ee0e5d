-- ===== src/Kernel/Verdict/Authorize.antt =====
-- `authorize` of backend/underwriter/kernel/verdict.py accepts exactly the verdicts that it should.
use the_underwriter.Base.Int.{pos, ◌≤ℤ◌, ℤ}
use the_underwriter.Base.{
  String, ℕ, ◌≡◌, ok, ◌≤◌, contains, some, false, arith, eq_iff, Result-cases, inl, inr, ◌∷◌,
  Option-cases, Option, Error, err, ◌⊎◌, none,
}
use the_underwriter.Kernel.Verdict.{
  check_verdict, KernelVerdict, mint_signature, NonceRegistry, approve, authorize, signature_of,
  consume,
}
use the_underwriter.Domain.Hashing.{Platform}

-- When a verdict opens the gate.
pub record Accepts (lib : Platform) (v : KernelVerdict) (hash secret : String) (now : ℕ)
    (used : NonceRegistry) : Type 0 where
  pub approves : v.verdict ≡ approve
  pub sized : pos 1 ≤ℤ v.approved_contracts
  pub current : now ≤ v.expires_at
  pub bound : v.proposal_hash ≡ hash
  pub signed :
      mint_signature lib v.proposal_hash v.approved_contracts v.nonce v.expires_at secret approve
      ≡ ok v.signature
  pub fresh : contains v.nonce used ≡ false

-- The tests on the signed part, as statements.
check_verdict-ok :
    (lib : Platform) (v : KernelVerdict) (hash secret : String) (now : ℕ) (signature : String)
    → check_verdict lib v hash secret now signature ≡ ok tt
    → (pos 1 ≤ℤ v.approved_contracts)
      × (now ≤ v.expires_at)
      × (v.proposal_hash ≡ hash)
      × (signature_of lib v.proposal_hash v.approved_contracts v.verdict v.nonce v.expires_at secret
          ≡ ok signature)
unfolding check_verdict
check_verdict-ok lib v hash secret now signature h =
    elim (Result-cases (
      signature_of lib v.proposal_hash v.approved_contracts v.verdict v.nonce v.expires_at
        secret)) [
          | inl (e, raised) ↦ absurd (ground arith)
          | inr (expected, e) ↦ (
            ground arith,
            ground arith,
            ground (arith, eq_iff v.proposal_hash hash),
            ground (arith, eq_iff expected signature),
          )
        ]

ok-check_verdict :
    (lib : Platform) (v : KernelVerdict) (hash secret : String) (now : ℕ) (signature : String)
    → (pos 1 ≤ℤ v.approved_contracts)
    → (now ≤ v.expires_at)
    → (v.proposal_hash ≡ hash)
    → (signature_of lib v.proposal_hash v.approved_contracts v.verdict v.nonce v.expires_at secret
        ≡ ok signature)
    → check_verdict lib v hash secret now signature ≡ ok tt
unfolding check_verdict
ok-check_verdict lib v hash secret now signature big current bound e =
    ground (arith, eq_iff v.proposal_hash hash, eq_iff signature signature)

module _ (lib : Platform) (v : KernelVerdict) (secret s : String) (approves : v.verdict ≡ approve)
    (signed : v.signature ≡ some s) where
  signed_by :
      signature_of lib v.proposal_hash v.approved_contracts v.verdict v.nonce v.expires_at secret
        ≡ ok s
      → mint_signature lib v.proposal_hash v.approved_contracts v.nonce v.expires_at secret approve
        ≡ ok v.signature
  unfolding mint_signature
  signed_by same = ground arith

  by_signed :
      mint_signature lib v.proposal_hash v.approved_contracts v.nonce v.expires_at secret approve
        ≡ ok v.signature
      → signature_of lib v.proposal_hash v.approved_contracts v.verdict v.nonce v.expires_at secret
        ≡ ok s
  unfolding mint_signature
  by_signed same = ground arith

-- An order is authorised only for a verdict that the gate accepts, for exactly its size, and the
-- nonce is consumed.
pub authorize-Accepts :
    (lib : Platform) (v : KernelVerdict) (hash secret : String) (now : ℕ)
    (used used' : NonceRegistry) (n : ℤ)
    → authorize lib (some v) hash secret now used ≡ (ok n, used')
    → Accepts lib v hash secret now used × (n ≡ v.approved_contracts) × (used' ≡ v.nonce ∷ used)
unfolding authorize consume mint_signature
authorize-Accepts lib v hash secret now used used' n h = elim (Option-cases v.signature) [
  | inl unsigned ↦ absurd (ground arith)
  | inr (s, signed) ↦ elim (Result-cases (check_verdict lib v hash secret now s)) [
    | inl (e, raised) ↦ absurd (ground arith)
    | inr (u, passed) ↦
        let (big, current, bound, same) = check_verdict-ok lib v hash secret now s passed in
        let approves : v.verdict ≡ approve = ground arith in
        (
          record {
            approves = approves;
            sized = big;
            current = current;
            bound = bound;
            signed = signed_by lib v secret s approves signed same;
            fresh = ground arith;
          },
          ground arith,
          ground arith,
        )
  ]
]

-- A verdict that the gate accepts is authorised.
pub Accepts-authorize :
    (lib : Platform) (v : KernelVerdict) (hash secret : String) (now : ℕ) (used : NonceRegistry)
    → Accepts lib v hash secret now used
    → authorize lib (some v) hash secret now used ≡ (ok v.approved_contracts, v.nonce ∷ used)
unfolding authorize consume mint_signature
Accepts-authorize lib v hash secret now used a = elim (Option-cases v.signature) [
  | inl unsigned ↦ absurd (ground (arith, a.signed))
  | inr (s, signed) ↦ ground (
    arith,
    ok-check_verdict lib v hash secret now s a.sized a.current a.bound
        (by_signed lib v secret s a.approves signed a.signed),
  )
]

-- A refusal leaves the registry alone.
authorize-err :
    (lib : Platform) (o : Option KernelVerdict) (hash secret : String) (now : ℕ)
    (used used' : NonceRegistry) (e : Error)
    → authorize lib o hash secret now used ≡ (err e, used')
    → used' ≡ used
unfolding authorize consume
authorize-err lib none hash secret now used used' e h = ground arith
authorize-err lib (some v) hash secret now used used' e h = ground arith

pub authorize-cases :
    (lib : Platform) (v : KernelVerdict) (hash secret : String) (now : ℕ) (used : NonceRegistry)
    → ((e : Error) × (authorize lib (some v) hash secret now used ≡ (err e, used)))
      ⊎ (Accepts lib v hash secret now used
          × (authorize lib (some v) hash secret now used
              ≡ (ok v.approved_contracts, v.nonce ∷ used)))
authorize-cases lib v hash secret now used =
    elim (Result-cases (authorize lib (some v) hash secret now used).0) [
      | inl (e, raised) ↦
          let used' = (authorize lib (some v) hash secret now used).1 in
          inl (
            e,
            λ i. (
              raised i,
              authorize-err lib (some v) hash secret now used used' e (λ j. (raised j, used')) i,
            ),
          )
      | inr (n, passed) ↦
          let used' = (authorize lib (some v) hash secret now used).1 in
          let (accepts, _, _) =
            authorize-Accepts lib v hash secret now used used' n (λ j. (passed j, used')) in
          inr (accepts, Accepts-authorize lib v hash secret now used accepts)
    ]
