-- ===== src/Actuary/Validation.antt =====
-- backend/underwriter/actuary/validation.py. The text `detail` of a discard is left out.
use the_underwriter.Domain.Money.{dec_zero, dec_one}
use the_underwriter.Actuary.Thresholds.{ActuaryThresholds}
use the_underwriter.Domain.Decimal.{lt, le, absolute, Decimal, is_finite}
use the_underwriter.Domain.Market.{ContractQuote, spread_pct}
use the_underwriter.Base.{
  String, Option, Result, ok, Bool, err, if◌then◌else◌, some, ◌>>=◌, not, false, money_error, none,
  true, ◌||◌,
}

pub data DiscardReason : Type 0 where
  bad_quote wide_spread missing_iv missing_greeks not_tradable : DiscardReason
  dte_out_of_window width_out_of_band delta_out_of_band : DiscardReason
  credit_to_width_low credit_to_width_high insufficient_edge illiquid : DiscardReason
  actuary_math_error : DiscardReason

pub record Discard : Type 0 where
  pub candidate_id : String
  pub reason : DiscardReason

abbrev pub discard : String → DiscardReason → Discard
discard id reason = record { candidate_id = id; reason = reason }

-- The tests of the Greeks.
unfoldable pub vega_check : ContractQuote → Option Decimal → Result (Option Discard)
vega_check q none = ok (some (discard q.symbol missing_greeks))
vega_check q (some vega) =
    if is_finite vega then ok none else ok (some (discard q.symbol missing_greeks))

unfoldable pub delta_check : ContractQuote → Option Decimal → Result (Option Discard)
unfolding lt absolute vega_check
delta_check q none = ok (some (discard q.symbol missing_greeks))
delta_check q (some delta) =
    if is_finite delta
    then (do
      beyond ← lt dec_one (absolute delta)
      if beyond then ok (some (discard q.symbol missing_greeks)) else vega_check q q.vega)
    else ok (some (discard q.symbol missing_greeks))

-- `iv_min < iv < iv_max`
unfoldable pub iv_in_band : ActuaryThresholds → Decimal → Result Bool
unfolding lt
iv_in_band t iv = do above ← lt t.iv_min iv; if above then lt iv t.iv_max else ok false

unfoldable pub iv_check :
    ContractQuote → ActuaryThresholds → Option Decimal → Result (Option Discard)
unfolding iv_in_band delta_check
iv_check q t none = ok (some (discard q.symbol missing_iv))
iv_check q t (some iv) =
    if is_finite iv
    then (do
      within ← iv_in_band t iv
      if within then delta_check q q.delta else ok (some (discard q.symbol missing_iv)))
    else ok (some (discard q.symbol missing_iv))

-- From the spread on: only a `MoneyError` of it is caught.
unfoldable pub spread_check :
    ContractQuote → ActuaryThresholds → Result Decimal → Result (Option Discard)
unfolding lt iv_check
spread_check q t (err money_error) = ok (some (discard q.symbol bad_quote))
spread_check q t (err e) = err e
spread_check q t (ok pct) = do
  wide ← lt t.max_bid_ask_pct pct
  if wide then ok (some (discard q.symbol wide_spread)) else iv_check q t q.implied_volatility

-- `bid <= ZERO or ask <= ZERO or ask <= bid`
unfoldable pub dead_quote : Decimal → Decimal → Result Bool
unfolding le
dead_quote bid ask = do
  no_bid ← le bid dec_zero
  if no_bid then ok true else (do no_ask ← le ask dec_zero; if no_ask then ok true else le ask bid)

unfoldable pub validate_quote : ContractQuote → ActuaryThresholds → Result (Option Discard)
unfolding dead_quote spread_pct spread_check
validate_quote q t =
    if not q.tradable
    then ok (some (discard q.symbol not_tradable))
    else if not (is_finite q.bid) || not (is_finite q.ask)
    then ok (some (discard q.symbol bad_quote))
    else (do
      dead ← dead_quote q.bid q.ask
      if dead then ok (some (discard q.symbol bad_quote)) else spread_check q t (spread_pct q))

unfoldable pub short_delta_in_band : Decimal → ActuaryThresholds → Result Bool
unfolding absolute le
short_delta_in_band delta t = do
  above ← le t.short_delta_min (absolute delta)
  if above then le (absolute delta) t.short_delta_max else ok false
