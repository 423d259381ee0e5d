-- ===== src/Book/History.antt =====
-- The histories of the book, and what a partial fill does to it.
use the_underwriter.Execution.Engine.{ExecutionResult}
use the_underwriter.Domain.Money.{dec_zero}
use the_underwriter.Book.Policies.{
  PolicyTerms, policy, order, risk_event, Settlement, settle_in, settle, release_in, policy_row,
  next_policy_number, reserve_row,
}
use the_underwriter.Book.Rows.{Policy, Reserve, is_open, leg_risk, EventSeverity, is_held}
use the_underwriter.Book.Effects.{
  Whole, policy-Written, Leaves, Written, order-Leaves, risk_event-Leaves, settle-Leaves,
}
use the_underwriter.Domain.Proposal.{UnderwritingProposal}
use the_underwriter.Audit.Chain.{IsDigest, valid_run, IsChain-verify_from}
use the_underwriter.Book.Matched.{
  Matched, Matched-snoc, sum-fin, exposed-Finite, held-exposed, Matched-settle, sum-snoc,
}
use the_underwriter.Base.{
  String, List, ◌≡◌, ok, refl, true, ap, ok-injective, some, ◌+◌, ◌≢◌, sym, length, ◌∙◌, false,
  Option, inl, inr, Bool-cases, arith, ◌++◌, select-snoc_drop, ◌∷◌, [], select-snoc_keep, map-snoc,
  select,
}
use the_underwriter.Base.Int.{ℤ, pos, eq_of_parts, ◌+ℤ◌, neg, eqb_ℤ, +ℤ_parts, eqb_ℤ→eq, neg_parts}
use the_underwriter.Book.Session.{Formats, Session, Draws}
use the_underwriter.Audit.Ledger.{verify_chain, genesis_hash}
use the_underwriter.Book.Reserves.{
  check_reserve_invariant, ReserveInvariant, exposed_losses, balance, held_amounts,
}
use the_underwriter.Domain.Decimal.{mul, of_ℤ, sub, add, fin, negate, Decimal, eq, sum}
use the_underwriter.Domain.Hashing.{Platform, Entries}

-- One record of the book, where a policy is written as open.
pub data Step (lib : Platform) (formats : Formats) (s s' : Session) : Type 0 where
  writes :
      (d : Draws) (cid : String) (p : UnderwritingProposal) (t : PolicyTerms) (loss : ℤ)
      → p.max_loss ≡ fin loss
      → is_open t.status ≡ true
      → policy lib formats d cid p t s ≡ ok s'
      → Step lib formats s s'
  orders :
      (d e : Draws) (cid : String) (r : ExecutionResult) (policy_id verdict_row_id : String)
      → order lib d e cid r policy_id verdict_row_id s ≡ ok s'
      → Step lib formats s s'
  alerts :
      (d : Draws) (cid event_type : String) (severity : EventSeverity) (policy_id : Option String)
      (detail : Entries)
      → risk_event lib d cid event_type severity policy_id detail s ≡ ok s'
      → Step lib formats s s'
  settles :
      (d : Draws) (cid id : String) (t : Settlement)
      → settle lib d cid id t s ≡ ok s'
      → Step lib formats s s'

pub data Reach (lib : Platform) (formats : Formats) (s : Session) : Session → Type 0 where
  here : Reach lib formats s s
  next : {t u : Session} → Reach lib formats s t → Step lib formats t u → Reach lib formats s u

pub record IsSound (lib : Platform) (s : Session) : Type 0 where
  pub matched : Matched s.policies s.reserves
  pub whole : Whole lib s

Leaves-IsSound :
    (lib : Platform) (s s' : Session) (ps : List Policy) (rs : List Reserve)
    → Leaves lib s s' ps rs
    → Whole lib s
    → Matched ps rs
    → IsSound lib s'
Leaves-IsSound lib s s' ps rs l whole matched = record {
  matched = rw (l.policies_eq, l.reserves_eq) matched;
  whole = l.whole whole;
}

-- The loss of some contracts is money again.
mul-fin : (a b : ℤ) → (n : ℤ) × (mul (fin a) (fin b) ≡ ok (fin n))
unfolding mul
mul-fin a b = (_, refl)

of_ℤ-fin : (a : ℤ) → (n : ℤ) × (of_ℤ a ≡ fin n)
unfolding of_ℤ
of_ℤ-fin a = (_, refl)

-- The loss of a policy that was written, where the loss of a contract is money.
Written-loss :
    (lib : Platform) (d : Draws) (cid : String) (p : UnderwritingProposal) (t : PolicyTerms)
    (s s' : Session) (loss : ℤ) (w : Written lib d cid p t s s')
    → p.max_loss ≡ fin loss
    → (n : ℤ) × (w.loss ≡ fin n)
Written-loss lib d cid p t s s' loss w e =
    let (k, k_eq) = of_ℤ-fin t.contracts in
    let (n, product) = mul-fin loss k in
    (n, ok-injective (sym (rw (e, k_eq) at w.loss_eq) ∙ product))

Step-IsSound :
    {lib : Platform} {formats : Formats} {s s' : Session}
    → IsDigest lib
    → Step lib formats s s'
    → IsSound lib s
    → IsSound lib s'
Step-IsSound {lib = lib} {formats = formats} {s = s} {s' = s'} digest
      (writes d cid p t loss loss_eq opened h) sound =
    let w = policy-Written lib formats d cid p t s s' digest h in
    let (n, n_eq) = Written-loss lib d cid p t s s' loss w loss_eq in
    Leaves-IsSound lib s s' _ _ w.leaves sound.whole (
      Matched-snoc s.policies s.reserves _ _ sound.matched (record {
        loss = n;
        loss_eq = ap some n_eq;
        amount_eq = n_eq;
        id_eq = refl;
        held_eq = sym opened;
      }))
Step-IsSound {lib = lib} {s = s} {s' = s'} digest (orders d e cid r policy_id verdict h) sound =
    Leaves-IsSound lib s s' s.policies s.reserves
      (order-Leaves lib d e cid r policy_id verdict s s' digest h) sound.whole sound.matched
Step-IsSound {lib = lib} {s = s} {s' = s'} digest (alerts d cid event_type severity id detail h)
      sound =
    Leaves-IsSound lib s s' s.policies s.reserves
      (risk_event-Leaves lib d cid event_type severity id detail s s' digest h) sound.whole
      sound.matched
Step-IsSound {lib = lib} {s = s} {s' = s'} digest (settles d cid id t h) sound =
    elim (settle-Leaves lib d cid id t s s' digest h) [
      | inl l ↦ Leaves-IsSound lib s s' s.policies s.reserves l sound.whole sound.matched
      | inr (win, l) ↦
          Leaves-IsSound lib s s' (settle_in id d.now t win s.policies)
            (release_in id d.now s.reserves) l sound.whole
            (Matched-settle s.policies s.reserves id d.now t win sound.matched)
    ]

Reach-IsSound :
    {lib : Platform} {formats : Formats} {s t : Session}
    → IsDigest lib
    → Reach lib formats s t
    → IsSound lib s
    → IsSound lib t
Reach-IsSound digest here sound = sound
Reach-IsSound digest (next r st) sound = Step-IsSound digest st (Reach-IsSound digest r sound)

cancels : (t : ℤ) → sub (fin t) (fin t) ≡ ok dec_zero
unfolding sub add negate
cancels t =
    ap (λ n. ok (fin n))
      (eq_of_parts (t +ℤ neg t) (pos 0) (omega (arith, +ℤ_parts t (neg t), neg_parts t)))

totals-check :
    (s : Session) (held_total exposed_total difference : Decimal)
    → sum (held_amounts s.reserves) ≡ ok held_total
    → sum (exposed_losses s.policies) ≡ ok exposed_total
    → sub held_total exposed_total ≡ ok difference
    → check_reserve_invariant s ≡ ok (balance held_total exposed_total difference)
unfolding check_reserve_invariant
totals-check s held_total exposed_total difference a b c = rw (a, b, c) refl

-- Matched reserves balance the exposure.
Matched-balance :
    (s : Session)
    → Matched s.policies s.reserves
    → (inv : ReserveInvariant) × (check_reserve_invariant s ≡ ok inv) × (inv.holds ≡ true)
unfolding eq
Matched-balance s m =
    let (t, summed) =
      sum-fin (exposed_losses s.policies) (exposed-Finite s.policies s.reserves m) in
    (
      balance (fin t) (fin t) dec_zero,
      totals-check s (fin t) (fin t) dec_zero
          (ap sum (held-exposed s.policies s.reserves m) ∙ summed) summed (cancels t),
      refl,
    )

-- From a book whose reserves match its policies and whose ledger is whole, whatever policies are
-- written as open, whatever is ordered, alerted and settled, and in whatever order: the check of the
-- reserves holds, and the ledger verifies from its first record on. The digests are not empty.
pub Reach-balanced :
    (lib : Platform) (formats : Formats) (s t : Session)
    → IsDigest lib
    → IsSound lib s
    → Reach lib formats s t
    → ((inv : ReserveInvariant) × (check_reserve_invariant t ≡ ok inv) × (inv.holds ≡ true))
      × (verify_chain lib t.audit ≡ ok (valid_run (0 + length t.audit)))
unfolding verify_chain
Reach-balanced lib formats s t digest sound r =
    let end = Reach-IsSound digest r sound in
    (Matched-balance t end.matched, IsChain-verify_from lib genesis_hash t.audit 0 end.whole)

-- What is left of a total with one more summand.
remainder : (t n : ℤ) → sub (fin (t +ℤ n)) (fin t) ≡ ok (fin n)
unfolding sub add negate
remainder t n =
    ap (λ k. ok (fin k))
      (eq_of_parts (t +ℤ n +ℤ neg t) n
        (omega (arith, +ℤ_parts (t +ℤ n) (neg t), +ℤ_parts t n, neg_parts t)))

add-fin : (t n : ℤ) → add (fin t) (fin n) ≡ ok (fin (t +ℤ n))
unfolding add
add-fin t n = refl

some_left : (n : ℤ) → n ≢ pos 0 → eq (fin n) dec_zero ≡ false
unfolding eq
some_left n other = elim (Bool-cases (eqb_ℤ n (pos 0))) [
  | inl same ↦ absurd (other (eqb_ℤ→eq n (pos 0) same))
  | inr e ↦ e
]

held-snoc :
    (rs : List Reserve) (id : String) (loss : Decimal)
    → held_amounts (rs ++ reserve_row id loss ∷ []) ≡ held_amounts rs ++ loss ∷ []
held-snoc rs id loss =
    rw (select-snoc_keep (λ r. is_held r.status) rs (reserve_row id loss) refl)
      (map-snoc (λ r. r.amount) (select (λ r. is_held r.status) rs) (reserve_row id loss))

-- A policy that is recorded with legs at risk, after a partial fill, holds a reserve that no exposure
-- answers for: on a book whose reserves match its policies, the check of the reserves fails as soon as
-- the policy has a loss.
pub leg_risk-unbalanced :
    (lib : Platform) (formats : Formats) (d : Draws) (cid : String) (p : UnderwritingProposal)
    (t : PolicyTerms) (s s' : Session) (loss : ℤ)
    → IsDigest lib
    → Matched s.policies s.reserves
    → t.status ≡ leg_risk
    → mul p.max_loss (of_ℤ t.contracts) ≡ ok (fin loss)
    → loss ≢ pos 0
    → policy lib formats d cid p t s ≡ ok s'
    → (inv : ReserveInvariant) × (check_reserve_invariant s' ≡ ok inv) × (inv.holds ≡ false)
leg_risk-unbalanced lib formats d cid p t s s' loss digest m risky cost some_loss h =
    let w = policy-Written lib formats d cid p t s s' digest h in
    let loss_eq : w.loss ≡ fin loss = ok-injective (sym w.loss_eq ∙ cost) in
    let row = policy_row d cid p t (next_policy_number d.year s.policies) w.loss w.profit in
    let closed : is_open row.status ≡ false = ap is_open risky in
    let (exposed, summed) =
      sum-fin (exposed_losses s.policies) (exposed-Finite s.policies s.reserves m) in
    let exposed_eq : sum (exposed_losses s'.policies) ≡ ok (fin exposed) =
      rw (w.leaves.policies_eq, select-snoc_drop (λ p. is_open p.status) s.policies row closed)
        summed in
    let held_eq : sum (held_amounts s'.reserves) ≡ ok (fin (exposed +ℤ loss)) =
      rw
        (
          w.leaves.reserves_eq,
          held-snoc s.reserves d.id w.loss,
          sum-snoc w.loss (held_amounts s.reserves),
          held-exposed s.policies s.reserves m,
          summed,
          loss_eq,
        )
        (add-fin exposed loss) in
    (
      balance (fin (exposed +ℤ loss)) (fin exposed) (fin loss),
      totals-check s' (fin (exposed +ℤ loss)) (fin exposed) (fin loss) held_eq exposed_eq
          (remainder exposed loss),
      some_left loss some_loss,
    )
