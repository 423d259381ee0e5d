-- ===== src/Domain/Market.antt =====
-- backend/underwriter/domain/market.py: one option contract as it was quoted, and the snapshot of a
-- market.
use the_underwriter.Domain.Hashing.{
  PyValue, sha256_of, Entries, null, mapping, Items, Platform, no_entry, entry, no_item, decimal,
  int, str, datetime, boolean, item, sequence,
}
use the_underwriter.Base.{
  ℕ, Bool, true, false, String, Option, ◌>>=◌, ◌>>◌, Result, money_error, raise_if, List, ◌/◌, ◌*◌,
  some, ◌^◌, ◌∷◌, [], none,
}
use the_underwriter.Base.Int.{ℤ, pos, negsuc, ◌-ℤ◌}
use the_underwriter.Domain.Decimal.{Decimal, of_ℕ, add, sub, le, div}
use the_underwriter.Domain.Money.{dec_zero, safe_div}

pub data OptionRight : Type 0 where
  put call : OptionRight

pub data Side : Type 0 where
  buy sell : Side

-- `a is b`
abbrev pub right_eq : OptionRight → OptionRight → Bool
right_eq put put = true
right_eq call call = true
right_eq put call = false
right_eq call put = false

abbrev pub is_sell : Side → Bool
is_sell sell = true
is_sell buy = false

abbrev pub sign : Side → ℤ
sign buy = pos 1
sign sell = negsuc 0

-- A date is its proleptic Gregorian ordinal, a time its number of microseconds from ordinal 0, in UTC.
pub record ContractQuote : Type 0 where
  pub symbol : String
  pub underlying : String
  pub right : OptionRight
  pub strike : Decimal
  pub expiry : ℕ
  pub bid : Decimal
  pub ask : Decimal
  pub bid_size : ℤ
  pub ask_size : ℤ
  pub fetched_at : ℕ
  pub tradable : Bool
  pub open_interest : Option ℤ
  pub implied_volatility : Option Decimal
  pub delta : Option Decimal
  pub vega : Option Decimal
  pub source : String

-- `ContractQuote.mid`: raises on a quote whose sides add to nothing.
unfoldable pub mid : ContractQuote → Result Decimal
unfolding add le div
mid q = do
  total ← add q.bid q.ask
  dead ← le total dec_zero
  raise_if dead money_error
  div total (of_ℕ 2)

unfoldable pub spread_pct : ContractQuote → Result Decimal
unfolding sub safe_div mid
spread_pct q = do width ← sub q.ask q.bid; m ← mid q; safe_div width m

-- `(self.expiry - as_of).days`
unfoldable pub dte : ContractQuote → ℕ → ℤ
unfolding ◌-ℤ◌
dte q as_of = pos q.expiry -ℤ pos as_of

-- The dictionary of the prices is its list of entries.
pub record MarketSnapshot : Type 0 where
  pub as_of : ℕ
  pub underlying_prices : List (String × Decimal)
  pub quotes : List ContractQuote

abbrev pub price_entries : List (String × Decimal) → Entries
price_entries [] = no_entry
price_entries ((name, price) ∷ ps) = entry name (decimal price) (price_entries ps)

abbrev pub optional_decimal : Option Decimal → PyValue
optional_decimal none = null
optional_decimal (some d) = decimal d

abbrev pub optional_int : Option ℤ → PyValue
optional_int none = null
optional_int (some n) = int n

abbrev pub quote_value : ContractQuote → PyValue
quote_value q = mapping (
    entry "symbol" (str q.symbol) (
      entry "bid" (decimal q.bid) (
        entry "ask" (decimal q.ask) (
          entry "bid_size" (int q.bid_size) (
            entry "ask_size" (int q.ask_size) (
              entry "open_interest" (optional_int q.open_interest) (
                entry "implied_volatility" (optional_decimal q.implied_volatility) (
                  entry "delta" (optional_decimal q.delta) (
                    entry "vega" (optional_decimal q.vega) (
                      entry "tradable" (boolean q.tradable) (
                        entry "source" (str q.source)
                          (entry "fetched_at" (datetime q.fetched_at) no_entry))))))))))))

abbrev pub quote_items : List ContractQuote → Items
quote_items [] = no_item
quote_items (q ∷ qs) = item (quote_value q) (quote_items qs)

-- `MarketSnapshot.snapshot_hash`
unfoldable pub snapshot_hash : Platform → MarketSnapshot → Result String
unfolding sha256_of
snapshot_hash lib s = sha256_of lib (
    mapping (
      entry "as_of" (datetime s.as_of) (
        entry "underlying_prices" (mapping (price_entries s.underlying_prices))
          (entry "quotes" (sequence (quote_items s.quotes)) no_entry))))

-- `moment.date()`, of a time in UTC
abbrev pub date_of : ℕ → ℕ
date_of moment = moment / (86400 * 10 ^ 6)
