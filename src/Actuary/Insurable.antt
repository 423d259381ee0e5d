-- ===== src/Actuary/Insurable.antt =====
-- What holds of every proposal that the Actuary returns.
-- What each proposal pays at best and costs at worst, for one contract.
use the_underwriter.Actuary.Walk.{price_usable-All, usable-All}
use the_underwriter.Base.Int.{pos}
use the_underwriter.Actuary.Quality.{Agrees, IsInsurable, passes-all}
use the_underwriter.Kernel.Limits.{KernelLimits}
use the_underwriter.Kernel.Context.{KernelContext}
use the_underwriter.Actuary.Kept.{Usable, sift-Usable}
use the_underwriter.Actuary.Split.{
  money_of-Splits, money_of-width, width-scaled, shares-add, loss-positive,
}
use the_underwriter.Domain.Money.{contract_multiplier, dec_zero, per_share}
use the_underwriter.Actuary.Engine.{
  ActuaryResult, price_put_credit_spreads, pairs, sift, Pass, usable_of, kept, thrown_of,
}
use the_underwriter.Actuary.Made.{Made, figures-PricedFrom, price_pair-Made}
use the_underwriter.Domain.Market.{ContractQuote, MarketSnapshot, date_of, snapshot_hash}
use the_underwriter.Actuary.Formulas.{spread_width}
use the_underwriter.Base.{
  ℕ, Option, List, ◌≡◌, String, ok, ◌∙◌, All, subst, sym, true, >>=-eq-ok, ◌*◌, ◌-◌, arith, refl,
}
use the_underwriter.Domain.Decimal.{Decimal, mul, add, lt, fin}
use the_underwriter.Domain.Hashing.{Platform}
use the_underwriter.Actuary.Thresholds.{ActuaryThresholds}
use the_underwriter.Domain.Proposal.{UnderwritingProposal}

pub record IsWhole (p : UnderwritingProposal) : Type 0 where
  pub width : Decimal
  pub total : Decimal
  pub width_eq : spread_width p.short_strike p.long_strike ≡ ok width
  pub scaled : mul width contract_multiplier ≡ ok total
  pub shared : add p.max_profit p.max_loss ≡ ok total
  pub reserved : p.capital_reserve ≡ p.max_loss
  pub risky : lt dec_zero p.max_loss ≡ ok true

Made-IsWhole :
    (t : ActuaryThresholds) (as_of : ℕ) (quotes : List ContractQuote) (a b : ContractQuote)
    (p : UnderwritingProposal)
    → Made t as_of quotes a b p
    → IsWhole p
Made-IsWhole t as_of quotes a b p made =
    let from = figures-PricedFrom a b made.delta quotes t made.f made.figures_eq in
    let split = money_of-Splits a b from.m from.money_eq in
    let profit = from.profit_eq ∙ split.profit_eq in
    let loss = from.loss_eq ∙ split.loss_eq in
    subst IsWhole (sym made.made) (record {
      width = from.m.width;
      total = fin (pos (split.a * per_share * 100));
      width_eq = money_of-width a b from.m from.money_eq;
      scaled = width-scaled split.a from.m.width split.width_eq;
      shared =
          shares-add split.a split.b made.f.gross_profit made.f.gross_loss split.below profit loss;
      reserved = refl;
      risky =
          loss-positive (split.a - split.b * 100) made.f.gross_loss (omega (arith, split.below))
            loss;
    })

-- What holds of all that is made of kept quotes holds of all proposals of the Actuary.
module _ {κ} (lib : Platform) (t : ActuaryThresholds) (universe : Option (List String))
    (s : MarketSnapshot) (r : ActuaryResult) (G : UnderwritingProposal → Type κ)
    (good : (quotes : List ContractQuote) (a b : ContractQuote) (p : UnderwritingProposal)
      → Usable t (date_of s.as_of) a
      → Usable t (date_of s.as_of) b
      → pairs t a b ≡ ok true
      → Made t s.as_of quotes a b p
      → G p) where
  proposals-All : price_put_credit_spreads lib t universe s ≡ ok r → All G r.proposals
  unfolding price_put_credit_spreads
  proposals-All h =
      let (hash, _, h₁) = >>=-eq-ok (snapshot_hash lib s) _ h in
      let today = date_of s.as_of in
      let f = sift t universe today in
      let pass : Pass = record {
        lib = lib;
        thresholds = t;
        as_of = s.as_of;
        hash = hash;
        quotes = usable_of f s.quotes;
      } in
      price_usable-All pass (λ q. f q ≡ kept) G
        (λ a b p ka kb paired priced.
          good pass.quotes a b p (sift-Usable t universe today a ka)
            (sift-Usable t universe today b kb) paired (price_pair-Made pass a b p priced))
        (thrown_of f s.quotes) r (usable-All f s.quotes) h₁

-- Every proposal that the Actuary returns passes the rules of the Kernel that look at the proposal
-- alone, in every context and under all limits that repeat the thresholds of the Actuary: it is
-- reserved at its loss (SK-002), its risk is defined (SK-004), it lasts long enough (SK-011), and
-- liquidity, leg spreads, edge and Greeks are good (SK-014, SK-015, SK-016, SK-019).
pub price_put_credit_spreads-IsInsurable :
    (lib : Platform) (t : ActuaryThresholds) (universe : Option (List String)) (s : MarketSnapshot)
    (r : ActuaryResult) (c : KernelContext) (l : KernelLimits)
    → price_put_credit_spreads lib t universe s ≡ ok r
    → Agrees t l
    → All (λ p. IsInsurable p c l) r.proposals
price_put_credit_spreads-IsInsurable lib t universe s r c l h agrees =
    proposals-All lib t universe s r (λ p. IsInsurable p c l)
      (λ quotes a b p ka kb paired made.
        passes-all t s.as_of quotes a b p c l agrees ka kb paired made)
      h

-- In every proposal that the Actuary returns, what one contract can win and what it can lose add up to
-- its width times one hundred, with no rounding; the loss is above zero, and is reserved whole.
pub price_put_credit_spreads-IsWhole :
    (lib : Platform) (t : ActuaryThresholds) (universe : Option (List String)) (s : MarketSnapshot)
    (r : ActuaryResult)
    → price_put_credit_spreads lib t universe s ≡ ok r
    → All IsWhole r.proposals
price_put_credit_spreads-IsWhole lib t universe s r h =
    proposals-All lib t universe s r IsWhole
      (λ quotes a b p ka kb paired made. Made-IsWhole t s.as_of quotes a b p made) h
