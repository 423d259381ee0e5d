-- ===== src/Claims/Tests.antt =====
-- A spread that was sold for one dollar, and the precedence at it.
use the_underwriter.Claims.Pricing.{
  cost_to_close, RawContract, cost_to_close-conservative, by_symbol, price_position,
}
use the_underwriter.Domain.Money.{cents}
use the_underwriter.Claims.Precedence.{Decides, Figures, evaluate-Decides}
use the_underwriter.Base.{
  none, some, ◌≡◌, ok, ◌*◌, false, refl, true, ℕ, ◌+◌, ◌≤◌, arith, ◌-◌, String, List, ◌∷◌, [],
}
use the_underwriter.Kernel.Limits.{hundredths}
use the_underwriter.Base.Int.{pos, ◌-ℤ◌, ◌+ℤ◌, neg}
use the_underwriter.Domain.Decimal.{Decimal, of_ℕ, le, lt, mul, sub, half_even, add, negate, fin}
use the_underwriter.Claims.Desk.{
  evaluate, hold_for, ManagedPosition, days_left, stop_level, ClaimsVerdict, target_level,
  evaluate_priced, is_breached, default_claims_policy,
}

abbrev sold : Decimal → ManagedPosition
sold cost = record {
  policy_id = "p1";
  policy_number = "UW-2026-0001";
  underlying = "SPY";
  contracts = pos 1;
  opening_credit = of_ℕ 1;
  max_loss = of_ℕ 400;
  short_strike = of_ℕ 500;
  long_strike = of_ℕ 495;
  expiry = 739700;
  cost_to_close = some cost;
  underlying_price = some (of_ℕ 498);
}

abbrev unmarked : ManagedPosition
unmarked = record (sold (hundredths 80)) { underlying_price = none }

hold_run :
    evaluate unmarked 739690 default_claims_policy ≡ ok (hold_for (sold (hundredths 80)) false)
unfolding evaluate days_left ◌-ℤ◌ ◌+ℤ◌ neg evaluate_priced stop_level target_level is_breached le lt
    mul sub half_even
hold_run = refl

figures :
    Figures
      (sold (hundredths 80))
      default_claims_policy
      (pos (80 * cents))
      (pos (200 * cents))
      (pos (50 * cents))
      true
unfolding stop_level target_level is_breached le mul sub add half_even negate ◌+ℤ◌ neg
figures = record { cost_eq = refl; stop_eq = refl; target_eq = refl; breached_eq = refl }

evaluate-Decides_example :
    (v : ClaimsVerdict) × (evaluate (sold (hundredths 80)) 739690 default_claims_policy ≡ ok v)
    × Decides
        (sold (hundredths 80))
        739690
        default_claims_policy
        (pos (80 * cents))
        (pos (200 * cents))
        (pos (50 * cents))
        true
        v
evaluate-Decides_example =
    evaluate-Decides (sold (hundredths 80)) 739690 default_claims_policy (pos (80 * cents))
      (pos (200 * cents)) (pos (50 * cents)) true figures

abbrev quoted : String → ℕ → ℕ → RawContract
quoted symbol bid ask = record {
  symbol = symbol;
  underlying = "SPY";
  right = "PUT";
  strike = of_ℕ 500;
  expiry = 739700;
  bid = some (hundredths bid);
  ask = some (hundredths ask);
  bid_size = pos 10;
  ask_size = pos 10;
  quote_at = none;
  implied_volatility = none;
  delta = none;
  gamma = none;
  theta = none;
  vega = none;
  rho = none;
}

abbrev chain : List RawContract
chain = quoted "SPY495P" 60 70 ∷ quoted "SPY500P" 110 120 ∷ []

cost_to_close-conservative_example :
    (cost_to_close (some (quoted "SPY500P" 110 120)) (some (quoted "SPY495P" 60 70))
      ≡ ok (some (fin (pos (120 * cents - 60 * cents)))))
    × (price_position "SPY500P" "SPY495P" (ok chain)
        ≡ ok (record {
          cost_to_close = some (fin (pos (120 * cents - 60 * cents)));
          underlying_price = none;
        }))
    × (110 * cents + 120 * cents ≤ 2 * (120 * cents - 60 * cents) + (60 * cents + 70 * cents))
    × (120 * cents - 60 * cents ≤ 120 * cents)
unfolding by_symbol
cost_to_close-conservative_example =
    cost_to_close-conservative "SPY500P" "SPY495P" chain (quoted "SPY500P" 110 120)
      (quoted "SPY495P" 60 70) (110 * cents) (120 * cents) (60 * cents) (70 * cents) refl refl refl
      refl (omega arith) (omega arith) (omega arith)
