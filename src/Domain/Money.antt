-- ===== src/Domain/Money.antt =====
-- backend/underwriter/domain/money.py: the constants and the quantised values.
use the_underwriter.Base.{ℕ, ◌^◌, Result, money_error, raise_if, ◌>>◌}
use the_underwriter.Base.Int.{pos}
use the_underwriter.Domain.Decimal.{
  Decimal, fin, of_ℕ, eq, div, quantize, round_half_up, round_floor, round_ceiling,
}

-- The quantisation units, in units of 10^-28.
abbrev pub cents : ℕ
cents = 10 ^ 26

abbrev pub per_share : ℕ
per_share = 10 ^ 24

abbrev pub ratio : ℕ
ratio = 10 ^ 22

abbrev pub dec_zero : Decimal
dec_zero = fin (pos 0)

abbrev pub dec_one : Decimal
dec_one = of_ℕ 1

abbrev pub contract_multiplier : Decimal
contract_multiplier = of_ℕ 100

unfoldable pub q_price : Decimal → Result Decimal
unfolding quantize
q_price = quantize cents round_half_up

unfoldable pub q_credit : Decimal → Result Decimal
unfolding quantize
q_credit = quantize cents round_floor

unfoldable pub q_loss : Decimal → Result Decimal
unfolding quantize
q_loss = quantize cents round_ceiling

unfoldable pub q_per_share : Decimal → Result Decimal
unfolding quantize
q_per_share = quantize per_share round_half_up

unfoldable pub q_ratio : Decimal → Result Decimal
unfolding quantize
q_ratio = quantize ratio round_half_up

unfoldable pub safe_div : Decimal → Decimal → Result Decimal
unfolding eq div
safe_div numerator denominator =
    raise_if (eq denominator dec_zero) money_error >> div numerator denominator
