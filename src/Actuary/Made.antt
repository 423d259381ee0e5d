-- ===== src/Actuary/Made.antt =====
-- What a proposal was made of.
use the_underwriter.Actuary.Formulas.{position_greeks}
use the_underwriter.Domain.Money.{dec_one, q_ratio}
use the_underwriter.Actuary.Pricing.{
  propose, price_figures, proposal_of, Origin, figures, missed, proposed, Money, price_one,
  candidate_id_for, legs_of, worst_spread, odds_of, worse_score, assembled,
}
use the_underwriter.Domain.Decimal.{Decimal, lt, sub}
use the_underwriter.Actuary.Engine.{price_pair, Pass}
use the_underwriter.Domain.Market.{ContractQuote}
use the_underwriter.Actuary.Validation.{DiscardReason}
use the_underwriter.Domain.Proposal.{UnderwritingProposal}
use the_underwriter.Actuary.Pricing.{Figures, money_of}
use the_underwriter.Actuary.Thresholds.{ActuaryThresholds}
use the_underwriter.Base.{
  Result, Bool, ℕ, Option, ◌≡◌, ok, ◌>>=◌, if◌then◌else◌, List, true, some, none, String, false,
  err, refl, >>=-eq-ok, ◌∙◌, ap, sym, ok-injective,
}

pub record Made (t : ActuaryThresholds) (as_of : ℕ) (quotes : List ContractQuote)
    (a b : ContractQuote) (p : UnderwritingProposal) : Type 0 where
  pub id : String
  pub hash : String
  pub delta : Decimal
  pub p_profit : Decimal
  pub f : Figures
  pub made :
      p
      ≡ proposal_of (record { candidate_id = id; as_of = as_of; hash = hash }) a b delta f p_profit
  pub figures_eq : figures a b delta quotes t ≡ ok f
  pub kept_all : missed t f ≡ ok none

proposed-injective : {p q : UnderwritingProposal} → proposed p ≡ proposed q → p ≡ q
proposed-injective e = cc

propose-none :
    (o : Origin) (a b : ContractQuote) (delta : Decimal) (f : Figures) (miss : Option DiscardReason)
    (p : UnderwritingProposal)
    → propose o a b delta f miss ≡ ok (proposed p)
    → (miss ≡ none) × (p_profit : Decimal) × (p ≡ proposal_of o a b delta f p_profit)
unfolding propose
propose-none o a b delta f (some reason) p h = absurd (cc)
propose-none o a b delta f none p h =
    let (rest, _, h₁) = >>=-eq-ok (sub dec_one f.p_loss) _ h in
    let (p_profit, _, h₂) = >>=-eq-ok (q_ratio rest) _ h₁ in
    (refl, p_profit, proposed-injective (sym (ok-injective h₂)))

pub price_figures-Made :
    (t : ActuaryThresholds) (id hash : String) (as_of : ℕ) (quotes : List ContractQuote)
    (a b : ContractQuote) (delta : Decimal) (p : UnderwritingProposal) (r : Result Figures)
    → figures a b delta quotes t ≡ r
    → price_figures (record { candidate_id = id; as_of = as_of; hash = hash }) a b delta t r
      ≡ ok (proposed p)
    → Made t as_of quotes a b p
unfolding price_figures
price_figures-Made t id hash as_of quotes a b delta p (err e) fe h = absurd (cc)
price_figures-Made t id hash as_of quotes a b delta p (ok f) fe h =
    let (miss, m_eq, h₁) = >>=-eq-ok (missed t f) _ h in
    let (none_eq, p_profit, made) = propose-none _ a b delta f miss p h₁ in
    record {
      id = id;
      hash = hash;
      delta = delta;
      p_profit = p_profit;
      f = f;
      made = made;
      figures_eq = fe;
      kept_all = m_eq ∙ ap ok none_eq;
    }

price_one-Made :
    (t : ActuaryThresholds) (id hash : String) (as_of : ℕ) (quotes : List ContractQuote)
    (a b : ContractQuote) (od : Option Decimal) (p : UnderwritingProposal)
    → price_one (record { candidate_id = id; as_of = as_of; hash = hash }) a b quotes t od
      ≡ ok (proposed p)
    → Made t as_of quotes a b p
unfolding price_one
price_one-Made t id hash as_of quotes a b none p h = absurd (cc)
price_one-Made t id hash as_of quotes a b (some delta) p h =
    price_figures-Made t id hash as_of quotes a b delta p (figures a b delta quotes t) refl h

pub price_pair-Made :
    (s : Pass) (a b : ContractQuote) (p : UnderwritingProposal)
    → price_pair s a b ≡ ok (proposed p)
    → Made s.thresholds s.as_of s.quotes a b p
unfolding price_pair
price_pair-Made s a b p h =
    let (id, _, h₁) =
      >>=-eq-ok (candidate_id_for s.lib a.underlying a.expiry a.strike b.strike s.hash)
        (λ id.
          price_one (record { candidate_id = id; as_of = s.as_of; hash = s.hash }) a b s.quotes
            s.thresholds a.delta)
        h in
    price_one-Made s.thresholds id s.hash s.as_of s.quotes a b a.delta p h₁

-- A test that ends in a reason, and what follows where it does not.
reason-none :
    (r : Result Bool) (reason : DiscardReason) (rest : Result (Option DiscardReason))
    → (r >>= λ b. if b then ok (some reason) else rest) ≡ ok none
    → (r ≡ ok false) × (rest ≡ ok none)
reason-none (err e) reason rest h = absurd (cc)
reason-none (ok true) reason rest h = absurd (cc)
reason-none (ok false) reason rest h = (refl, h)

-- The figures that the thresholds let pass.
pub missed-none :
    (t : ActuaryThresholds) (f : Figures)
    → missed t f ≡ ok none
    → (lt f.edge t.min_edge_ratio ≡ ok false) × (lt f.liquidity t.min_liquidity_score ≡ ok false)
unfolding missed
missed-none t f h =
    let low = reason-none (lt f.ctw t.min_credit_to_width) _ _ h in
    let high = reason-none (lt t.max_credit_to_width f.ctw) _ _ low.1 in
    let thin = reason-none (lt f.edge t.min_edge_ratio) _ _ high.1 in
    let dry = reason-none (lt f.liquidity t.min_liquidity_score) _ _ thin.1 in (thin.0, dry.0)

-- The money of the figures, and the wider of the two spreads.
pub record PricedFrom (a b : ContractQuote) (f : Figures) : Type 0 where
  pub m : Money
  pub money_eq : money_of a b ≡ ok m
  pub profit_eq : f.gross_profit ≡ m.gross_profit
  pub loss_eq : f.gross_loss ≡ m.gross_loss
  pub worst_eq : worst_spread a b ≡ ok f.worst_leg_spread

pub figures-PricedFrom :
    (a b : ContractQuote) (delta : Decimal) (quotes : List ContractQuote) (t : ActuaryThresholds)
    (f : Figures)
    → figures a b delta quotes t ≡ ok f
    → PricedFrom a b f
unfolding figures
figures-PricedFrom a b delta quotes t f h =
    let (m, m_eq, h₁) = >>=-eq-ok (money_of a b) _ h in
    let (o, _, h₂) = >>=-eq-ok (odds_of a delta m) _ h₁ in
    let (liquidity, _, h₃) = >>=-eq-ok (worse_score t a b) _ h₂ in
    let (worst, w_eq, h₄) = >>=-eq-ok (worst_spread a b) _ h₃ in
    let (nets, _, h₅) = >>=-eq-ok (position_greeks (legs_of a b) quotes) _ h₄ in
    let same : assembled m o liquidity worst nets ≡ f = ok-injective h₅ in
    record {
      m = m;
      money_eq = m_eq;
      profit_eq = ap (λ x. x.gross_profit) (sym same);
      loss_eq = ap (λ x. x.gross_loss) (sym same);
      worst_eq = w_eq ∙ ap (λ x. ok x.worst_leg_spread) same;
    }
