-- ===== src/Actuary/Quality.antt =====
-- What is priced passes the rules of the Kernel on the quality of a proposal.
use the_underwriter.Actuary.Split.{money_of-Splits}
use the_underwriter.Domain.Decimal.Exact.{not_lt-le, not_le-lt}
use the_underwriter.Actuary.Made.{Made, figures-PricedFrom, missed-none}
use the_underwriter.Actuary.Kept.{Usable}
use the_underwriter.Domain.Money.{cents}
use the_underwriter.Actuary.Pricing.{worst_spread, spread_leg}
use the_underwriter.Base.Int.{pos}
use the_underwriter.Kernel.Rules.{
  sk002_full_reserve, sk004_defined_risk, sk011_min_dte, sk014_liquidity, sk015_leg_spread,
  sk016_edge, sk019_greeks_complete, all_covered, finite_loss, count_cover, covers,
}
use the_underwriter.Domain.Decimal.{Decimal, lt, max_of, le, eq, fin}
use the_underwriter.Kernel.Context.{KernelContext}
use the_underwriter.Kernel.Limits.{KernelLimits}
use the_underwriter.Kernel.Verdict.{RuleResult}
use the_underwriter.Actuary.Engine.{pairs}
use the_underwriter.Domain.Market.{ContractQuote, spread_pct, date_of, sell, buy}
use the_underwriter.Domain.Proposal.{UnderwritingProposal}
use the_underwriter.Actuary.Thresholds.{ActuaryThresholds}
use the_underwriter.Base.{
  Result, Bool, ℕ, ◌≡◌, ok, ◌>>=◌, if◌then◌else◌, List, true, false, err, not, refl, >>=-eq-ok,
  Bool-cases, inl, ok-injective, sym, inr, arith, ◌-◌, ◌<◌, ◌*◌, ◌∷◌, [], str_eq, ◌==◌, leb,
}

-- A verdict that lets the proposal pass.
abbrev pub Passed : Result RuleResult → Type 0
Passed x = (r : RuleResult) × (x ≡ ok r) × (r.passed ≡ true)

-- The limits of the Kernel that repeat thresholds of the Actuary are the same.
pub record Agrees (t : ActuaryThresholds) (l : KernelLimits) : Type 0 where
  pub edge_eq : l.min_edge_ratio ≡ t.min_edge_ratio
  pub liquidity_eq : l.min_liquidity_score ≡ t.min_liquidity_score
  pub spread_eq : l.max_bid_ask_pct ≡ t.max_bid_ask_pct
  pub dte_eq : l.min_dte_at_entry ≡ t.dte_min

-- The rules that depend on the proposal alone.
pub record IsInsurable (p : UnderwritingProposal) (c : KernelContext) (l : KernelLimits)
    : Type 0 where
  pub reserved : Passed (sk002_full_reserve p c l)
  pub defined : Passed (sk004_defined_risk p c l)
  pub lasting : Passed (sk011_min_dte p c l)
  pub liquid : Passed (sk014_liquidity p c l)
  pub tight : Passed (sk015_leg_spread p c l)
  pub edged : Passed (sk016_edge p c l)
  pub measured : Passed (sk019_greeks_complete p c l)

max_of-le :
    (x y z top : Decimal)
    → lt top x ≡ ok false
    → lt top y ≡ ok false
    → max_of x y ≡ ok z
    → le z top ≡ ok true
unfolding max_of
max_of-le x y z top hx hy h =
    let (less, _, h₁) = >>=-eq-ok (lt x y) _ h in
    elim (Bool-cases less) [
      | inl t ↦ rw (ok-injective (sym (rw t at h₁))) (not_lt-le top y hy)
      | inr f ↦ rw (ok-injective (sym (rw f at h₁))) (not_lt-le top x hx)
    ]

worst_spread-le :
    (a b : ContractQuote) (z top x y : Decimal)
    → spread_pct a ≡ ok x
    → spread_pct b ≡ ok y
    → lt top x ≡ ok false
    → lt top y ≡ ok false
    → worst_spread a b ≡ ok z
    → le z top ≡ ok true
unfolding worst_spread
worst_spread-le a b z top x y ex ey hx hy h = max_of-le x y z top hx hy (rw (ex, ey) at h)

unless-true :
    (b : Bool) (rest : Result Bool)
    → (if b then ok false else rest) ≡ ok true
    → (b ≡ false) × (rest ≡ ok true)
unless-true true rest h = absurd (cc)
unless-true false rest h = (refl, h)

over-false :
    (r : Result Bool) (rest : Result Bool)
    → (r >>= λ over. if over then ok false else rest) ≡ ok true
    → r ≡ ok false
over-false (err e) rest h = absurd (cc)
over-false (ok true) rest h = absurd (cc)
over-false (ok false) rest h = refl

if-both : (x : Bool) (y z : Result Bool) → x ≡ true → y ≡ ok true → (if x then y else z) ≡ ok true
if-both true y z e h = h
if-both false y z e h = absurd (cc)

covers-pair :
    (a b : ContractQuote)
    → leb a.expiry b.expiry ≡ true
    → lt b.strike a.strike ≡ ok true
    → covers (spread_leg sell a) (spread_leg buy b) ≡ ok true
unfolding covers
covers-pair a b in_time below =
    if-both (leb a.expiry b.expiry) (lt b.strike a.strike) (ok false) in_time below

-- The guards on a pair are what SK-004 asks of its legs.
all_covered-pair :
    (t : ActuaryThresholds) (a b : ContractQuote)
    → pairs t a b ≡ ok true
    → all_covered (spread_leg sell a ∷ []) (spread_leg buy b ∷ []) ≡ ok true
unfolding pairs all_covered count_cover
all_covered-pair t a b h =
    let (_, h₁) = unless-true (not (str_eq b.underlying a.underlying)) _ h in
    let (same, h₂) = unless-true (not (b.expiry == a.expiry)) _ h₁ in
    let below = not_le-lt a.strike b.strike (over-false (le a.strike b.strike) _ h₂) in
    let in_time : leb a.expiry b.expiry ≡ true = ground arith in
    rw (covers-pair a b in_time below) refl

finite_loss-positive : (n : ℕ) → 0 < n → finite_loss (fin (pos (n * cents))) ≡ ok true
unfolding finite_loss lt
finite_loss-positive n h = ground arith

module _ (t : ActuaryThresholds) (as_of : ℕ) (quotes : List ContractQuote) (a b : ContractQuote)
    (p : UnderwritingProposal) (c : KernelContext) (l : KernelLimits) (agrees : Agrees t l)
    (usable : Usable t (date_of as_of) a) (usable' : Usable t (date_of as_of) b)
    (paired : pairs t a b ≡ ok true) (made : Made t as_of quotes a b p) where
  passes-reserve : Passed (sk002_full_reserve p c l)
  unfolding sk002_full_reserve eq
  passes-reserve =
      let from = figures-PricedFrom a b made.delta quotes t made.f made.figures_eq in
      let split = money_of-Splits a b from.m from.money_eq in
      rw (made.made, from.loss_eq, split.loss_eq) (_, refl, ground arith)

  passes-defined : Passed (sk004_defined_risk p c l)
  unfolding sk004_defined_risk
  passes-defined =
      let from = figures-PricedFrom a b made.delta quotes t made.f made.figures_eq in
      let split = money_of-Splits a b from.m from.money_eq in
      let covered = all_covered-pair t a b paired in
      let finite = finite_loss-positive (split.a - split.b * 100) (omega (arith, split.below)) in
      rw (made.made, covered, from.loss_eq, split.loss_eq, finite) (_, refl, refl)

  passes-lasting : Passed (sk011_min_dte p c l)
  unfolding sk011_min_dte
  passes-lasting = rw (made.made, agrees.dte_eq) (_, refl, usable.long_enough)

  passes-liquid : Passed (sk014_liquidity p c l)
  unfolding sk014_liquidity
  passes-liquid =
      let enough =
        not_lt-le made.f.liquidity t.min_liquidity_score (missed-none t made.f made.kept_all).1 in
      rw (made.made, agrees.liquidity_eq, enough) (_, refl, refl)

  passes-tight : Passed (sk015_leg_spread p c l)
  unfolding sk015_leg_spread
  passes-tight =
      let from = figures-PricedFrom a b made.delta quotes t made.f made.figures_eq in
      let within =
        worst_spread-le a b made.f.worst_leg_spread t.max_bid_ask_pct usable.pct usable'.pct
          usable.pct_eq usable'.pct_eq usable.narrow usable'.narrow from.worst_eq in
      rw (made.made, agrees.spread_eq, within) (_, refl, refl)

  passes-edged : Passed (sk016_edge p c l)
  unfolding sk016_edge
  passes-edged =
      let enough = not_lt-le made.f.edge t.min_edge_ratio (missed-none t made.f made.kept_all).0 in
      rw (made.made, agrees.edge_eq, enough) (_, refl, refl)

  passes-measured : Passed (sk019_greeks_complete p c l)
  unfolding sk019_greeks_complete
  passes-measured = rw made.made (_, refl, refl)

  pub passes-all : IsInsurable p c l
  passes-all = record {
    reserved = passes-reserve;
    defined = passes-defined;
    lasting = passes-lasting;
    liquid = passes-liquid;
    tight = passes-tight;
    edged = passes-edged;
    measured = passes-measured;
  }
