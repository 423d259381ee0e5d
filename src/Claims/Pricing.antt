-- ===== src/Claims/Pricing.antt =====
-- backend/underwriter/claims/pricing.py: the cost to close a spread, from the quotes of its two legs.
-- What the source of market data answers is an argument: the chain, or a failure. The text `detail` is
-- left out.
use the_underwriter.Base.Int.{pos, ℤ, ◌+ℤ◌, neg}
use the_underwriter.Domain.Money.{dec_zero}
use the_underwriter.Domain.Decimal.{Decimal, le, fin, sub, max_of, add, negate, lt}
use the_underwriter.Base.{
  ◌>>=◌, String, Option, none, Bool, ℕ, false, Result, List, ◌≡◌, some, ok, ◌∷◌, err, true,
  if◌then◌else◌, str_eq, [], ◌<◌, ◌≤◌, ◌+◌, ◌*◌, ◌-◌, arith, refl,
}

pub record RawContract : Type 0 where
  pub symbol : String
  pub underlying : String
  pub right : String
  pub strike : Decimal
  pub expiry : ℕ
  pub bid : Option Decimal
  pub ask : Option Decimal
  pub bid_size : ℤ
  pub ask_size : ℤ
  pub quote_at : Option ℕ
  pub implied_volatility : Option Decimal
  pub delta : Option Decimal
  pub gamma : Option Decimal
  pub theta : Option Decimal
  pub vega : Option Decimal
  pub rho : Option Decimal

pub record ExitQuote : Type 0 where
  pub cost_to_close : Option Decimal
  pub underlying_price : Option Decimal

abbrev pub unpriced : ExitQuote
unpriced = record { cost_to_close = none; underlying_price = none }

-- `priceable`
abbrev pub priceable : ExitQuote → Bool
priceable q = elim q.cost_to_close [ none ↦ false | some _ ↦ true ]

-- The debit of two quotes that are there.
unfoldable pub exit_debit : Decimal → Decimal → Result (Option Decimal)
exit_debit ask bid = do
  dead ← le ask dec_zero
  if dead then ok none else do debit ← sub ask bid; cost ← max_of dec_zero debit; ok (some cost)

unfoldable pub cost_to_close : Option RawContract → Option RawContract → Result (Option Decimal)
cost_to_close none long = ok none
cost_to_close (some short) none = ok none
cost_to_close (some short) (some long) = elim short.ask [
  | none ↦ ok none
  | some ask ↦ elim long.bid [ none ↦ ok none | some bid ↦ exit_debit ask bid ]
]

-- `by_symbol.get(symbol)`: the last contract of a symbol is the one that the mapping keeps.
unfoldable pub by_symbol : String → List RawContract → Option RawContract
by_symbol symbol [] = none
by_symbol symbol (c ∷ cs) = elim (by_symbol symbol cs) [
  | some later ↦ some later
  | none ↦ if str_eq c.symbol symbol then some c else none
]

unfoldable pub price_chain : String → String → List RawContract → Result ExitQuote
price_chain short_symbol long_symbol chain = do
  cost ← cost_to_close (by_symbol short_symbol chain) (by_symbol long_symbol chain)
  ok (record { cost_to_close = cost; underlying_price = none })

-- `price_position`, on what `get_option_chain` returned or raised.
unfoldable pub price_position : String → String → Result (List RawContract) → Result ExitQuote
price_position short_symbol long_symbol (err e) = ok unpriced
price_position short_symbol long_symbol (ok chain) = price_chain short_symbol long_symbol chain

exit_debit-eq :
    (ask bid : ℕ)
    → 0 < ask
    → exit_debit (fin (pos ask)) (fin (pos bid)) ≡ ok (some (fin (pos (ask - bid))))
unfolding exit_debit le sub add negate max_of lt ◌+ℤ◌ neg
exit_debit-eq ask bid quoted = ground arith

-- The cost of two legs that are in the chain, where the ask of the short one and the bid of the long one
-- are quoted, no amount is negative, the ask is above zero and no bid is above its ask: it is the ask of
-- the short leg less the bid of the long one, and zero where that bid is the higher. The quote of the
-- position has this cost and no underlying price. The cost is no less than the difference of the middles
-- of the two quotes, and no more than the ask.
pub cost_to_close-conservative :
    (short_symbol long_symbol : String) (chain : List RawContract) (short long : RawContract)
    (short_bid short_ask long_bid long_ask : ℕ)
    → by_symbol short_symbol chain ≡ some short
    → by_symbol long_symbol chain ≡ some long
    → short.ask ≡ some (fin (pos short_ask))
    → long.bid ≡ some (fin (pos long_bid))
    → 0 < short_ask
    → short_bid ≤ short_ask
    → long_bid ≤ long_ask
    → (cost_to_close (some short) (some long) ≡ ok (some (fin (pos (short_ask - long_bid)))))
      × (price_position short_symbol long_symbol (ok chain)
          ≡ ok (record {
            cost_to_close = some (fin (pos (short_ask - long_bid)));
            underlying_price = none;
          }))
      × (short_bid + short_ask ≤ 2 * (short_ask - long_bid) + (long_bid + long_ask))
      × (short_ask - long_bid ≤ short_ask)
unfolding cost_to_close price_position price_chain
cost_to_close-conservative short_symbol long_symbol chain short long short_bid short_ask long_bid
      long_ask found found' ask_eq bid_eq quoted spread spread' =
    (
      rw (ask_eq, bid_eq) (exit_debit-eq short_ask long_bid quoted),
      rw (found, found', ask_eq, bid_eq, exit_debit-eq short_ask long_bid quoted) refl,
      omega (arith, spread, spread'),
      omega arith,
    )
