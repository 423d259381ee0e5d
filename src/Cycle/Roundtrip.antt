-- ===== src/Cycle/Roundtrip.antt =====
-- A policy that was written from a priced spread is rebuilt with the legs and the money of the spread.
use the_underwriter.Actuary.Pricing.{legs_of, spread_leg}
use the_underwriter.Domain.Money.{dec_zero}
use the_underwriter.Book.Policies.{PolicyTerms, policy_row, policy_leg}
use the_underwriter.Cycle.Bootstrap.{or_zero}
use the_underwriter.Domain.Market.{ContractQuote, sell, buy, Side}
use the_underwriter.Book.Session.{Draws}
use the_underwriter.Book.Rows.{Policy, PolicyLeg, PolicyNumber}
use the_underwriter.Domain.Proposal.{UnderwritingProposal, closing}
use native.Mathlib.Nat.{mul_assoc}
use the_underwriter.Domain.Decimal.Exact.{mul-whole, half_even-exact}
use the_underwriter.Cycle.Rebuild.{
  per_spread_of, rebuild_on, rebuild_proposal, or_one, rebuilt, rebuilt_leg,
}
use the_underwriter.Base.Int.{pos, ℤ}
use the_underwriter.Base.{
  ℕ, ◌<◌, ◌*◌, ◌≡◌, ok, suc, Bool-cases, ◌==◌, ok-injective, inl, sym, arith, inr, ◌∙◌, ap, String,
  some, map, refl, true,
}
use the_underwriter.Domain.Decimal.{
  fin_div, of_ℤ, lt, div, Decimal, scale, mul, fin, half_even, sub,
}

exact_quotient :
    (x d a : ℕ) → 0 < d → x * scale ≡ a * d → fin_div (pos x) (pos d) ≡ ok (fin (pos a))
unfolding fin_div
exact_quotient x d a positive same = elim (Bool-cases (d == 0)) [
  | inl none_left ↦ absurd (ground arith)
  | inr e ↦
      rw e
        (ap (λ q. ok (fin (pos q))) (ap (λ y. half_even y d) same ∙ half_even-exact a d positive))
]

above_zero_contracts : (n : ℕ) → lt dec_zero (of_ℤ (pos (suc n))) ≡ ok true
unfolding lt of_ℤ
above_zero_contracts n = ground arith

divided :
    (per_spread total otherwise q : Decimal)
    → lt dec_zero per_spread ≡ ok true
    → div total per_spread ≡ ok q
    → per_spread_of per_spread total otherwise ≡ ok q
divided per_spread total otherwise q above h = rw above h

quotient-back : (a n : ℕ) → div (fin (pos (a * suc n))) (of_ℤ (pos (suc n))) ≡ ok (fin (pos a))
unfolding div of_ℤ
quotient-back a n =
    exact_quotient (a * suc n) (suc n * scale) a (omega arith) (mul_assoc a (suc n) scale)

product : (a n : ℕ) → mul (fin (pos a)) (of_ℤ (pos (suc n))) ≡ ok (fin (pos (a * suc n)))
unfolding of_ℤ
product a n = mul-whole a (suc n)

or_one-suc : (n : ℕ) → or_one (pos (suc n)) ≡ pos (suc n)
or_one-suc n = ground arith

-- The total of some contracts, over their number.
divide-back :
    (a n : ℕ) (contracts : ℤ) (money total otherwise : Decimal)
    → money ≡ fin (pos a)
    → contracts ≡ pos (suc n)
    → mul money (of_ℤ contracts) ≡ ok total
    → per_spread_of (of_ℤ (or_one contracts)) total otherwise ≡ ok (fin (pos a))
divide-back a n contracts money total otherwise money_eq n_eq h =
    let at : fin (pos (a * suc n)) ≡ total =
      ok-injective (sym (product a n) ∙ rw (money_eq, n_eq) at h) in
    ap (λ c. per_spread_of (of_ℤ (or_one c)) total otherwise) n_eq
    ∙ (ap (λ c. per_spread_of (of_ℤ c) total otherwise) (or_one-suc n)
        ∙ divided (of_ℤ (pos (suc n))) total otherwise (fin (pos a)) (above_zero_contracts n)
            (ap (λ x. div x (of_ℤ (pos (suc n)))) (sym at) ∙ quotient-back a n))

leg-mirrored :
    (id : String) (p : UnderwritingProposal) (side : Side) (q : ContractQuote) (e : ℕ)
    → q.expiry ≡ e
    → rebuilt_leg side e (policy_leg id p (spread_leg side q)) ≡ spread_leg side q
leg-mirrored id p side q e h = ap (λ x. record (spread_leg side q) { expiry = x }) (sym h)

rebuild_on-runs :
    (now expiry : ℕ) (policy : Policy) (short long : PolicyLeg)
    (max_loss max_profit breakeven : Decimal)
    → per_spread_of
        (of_ℤ (or_one policy.contracts))
        (or_zero policy.max_loss)
        (or_zero policy.max_loss)
      ≡ ok max_loss
    → per_spread_of (of_ℤ (or_one policy.contracts)) (or_zero policy.max_profit) dec_zero
      ≡ ok max_profit
    → sub (or_zero short.strike) (or_zero policy.opening_credit) ≡ ok breakeven
    → rebuild_on now policy (some expiry) (some short) (some long)
      ≡ ok (some (rebuilt now policy expiry short long max_profit max_loss breakeven))
unfolding rebuild_on
rebuild_on-runs now expiry policy short long max_loss max_profit breakeven loss_eq profit_eq
      even_eq =
    rw (loss_eq, profit_eq, even_eq) refl

-- What is rebuilt keeps of the proposal.
pub record IsMirrored (p q : UnderwritingProposal) : Type 0 where
  pub closes : q.action ≡ closing
  pub legs_eq : q.legs ≡ p.legs
  pub loss_eq : q.max_loss ≡ p.max_loss
  pub profit_eq : q.max_profit ≡ p.max_profit
  pub credit_eq : q.net_credit ≡ p.net_credit
  pub underlying_eq : q.underlying ≡ p.underlying

-- A spread as the Actuary prices it, with its money in whole units, and a number of contracts that is
-- above zero: the policy and the legs that the recorder makes of it are rebuilt into a closing proposal
-- with the same legs, loss, profit, credit and underlying.
pub policy-rebuild_proposal :
    (d : Draws) (cid : String) (a b : ContractQuote) (p : UnderwritingProposal) (t : PolicyTerms)
    (number : PolicyNumber) (now l w n : ℕ) (loss profit breakeven : Decimal)
    → p.legs ≡ legs_of a b
    → a.expiry ≡ p.expiry
    → b.expiry ≡ p.expiry
    → p.max_loss ≡ fin (pos l)
    → p.max_profit ≡ fin (pos w)
    → t.contracts ≡ pos (suc n)
    → mul p.max_loss (of_ℤ t.contracts) ≡ ok loss
    → mul p.max_profit (of_ℤ t.contracts) ≡ ok profit
    → sub a.strike p.net_credit ≡ ok breakeven
    → (q : UnderwritingProposal) × (rebuild_proposal now
          (policy_row d cid p t number loss profit)
          (map (policy_leg d.id p) p.legs)
        ≡ ok (some q))
      × IsMirrored p q
unfolding rebuild_proposal
policy-rebuild_proposal d cid a b p t number now l w n loss profit breakeven legs_eq a_eq b_eq l_eq
      w_eq n_eq loss_eq profit_eq even_eq =
    let row = policy_row d cid p t number loss profit in
    let short = policy_leg d.id p (spread_leg sell a) in
    let long = policy_leg d.id p (spread_leg buy b) in
    let loss_back = divide-back l n t.contracts p.max_loss loss loss l_eq n_eq loss_eq in
    let profit_back =
      divide-back w n t.contracts p.max_profit profit dec_zero w_eq n_eq profit_eq in
    (
      rebuilt now row p.expiry short long (fin (pos w)) (fin (pos l)) breakeven,
      rw legs_eq (
          rebuild_on-runs now p.expiry row short long (fin (pos l)) (fin (pos w)) breakeven
            loss_back profit_back even_eq),
      record {
        closes = refl;
        legs_eq =
            rw
              (
                leg-mirrored d.id p sell a p.expiry a_eq,
                leg-mirrored d.id p buy b p.expiry b_eq,
                legs_eq,
              )
              refl;
        loss_eq = sym l_eq;
        profit_eq = sym w_eq;
        credit_eq = refl;
        underlying_eq = refl;
      },
    )
