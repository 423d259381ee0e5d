-- ===== src/Execution/Price.antt =====
-- The limit prices: an entry asks for no more than the credit that was modelled, an exit offers no
-- less than the debit that was wanted, and both stay within a cent of where they walked to.
use native.Mathlib.Nat.{div-add-mod', mod-lt}
use the_underwriter.Domain.Money.{cents, dec_zero}
use the_underwriter.Base.Int.{◌+ℤ◌, neg, pos}
use the_underwriter.Execution.Order.{entry_limit_price, exit_limit_price, check_step, price_step}
use the_underwriter.Base.{ℕ, ◌≤◌, ◌<◌, ◌*◌, ◌≡◌, ok, arith, ◌-◌, ◌+◌, false, ◌/◌, refl, suc, zero}
use the_underwriter.Domain.Decimal.{
  mul, sub, add, le, quantize, of_ℤ, negate, rounded, half_even, fin, round_down, round_up,
}

walked : (k : ℕ) → k ≤ 3 → mul price_step (of_ℤ (pos k)) ≡ ok (fin (pos (k * cents)))
unfolding mul of_ℤ half_even
walked zero h = refl
walked (suc zero) h = refl
walked (suc (suc zero)) h = refl
walked (suc (suc (suc zero))) h = refl
walked (suc (suc (suc (suc k)))) h = absurd (omega arith)

check_step-ok : (k : ℕ) → k ≤ 3 → check_step (pos k) ≡ ok tt
check_step-ok k h = ground arith

lower : (n w : ℕ) → w < n → sub (fin (pos n)) (fin (pos w)) ≡ ok (fin (pos (n - w)))
unfolding sub add negate ◌+ℤ◌ neg
lower n w h = ground arith

raise : (n w : ℕ) → add (fin (pos n)) (fin (pos w)) ≡ ok (fin (pos (n + w)))
unfolding add ◌+ℤ◌
raise n w = ground arith

not_worthless : (n : ℕ) → 0 < n → le (fin (pos n)) dec_zero ≡ ok false
unfolding le
not_worthless n h = ground arith

down : (n : ℕ) → quantize cents round_down (fin (pos n)) ≡ ok (fin (pos (n / cents * cents)))
unfolding quantize rounded
down n = refl

up :
    (n : ℕ)
    → quantize cents round_up (fin (pos n)) ≡ ok (fin (pos ((n + cents - 1) / cents * cents)))
unfolding quantize rounded
up n = refl

-- A credit that is above its walk of at most three cents gives a price in whole cents, no higher than
-- the walked credit and less than a cent below it.
pub entry_limit_price-bounds :
    (n k : ℕ)
    → k ≤ 3
    → k * cents < n
    → (m : ℕ) × (entry_limit_price (fin (pos n)) (pos k) ≡ ok (fin (pos (m * cents))))
      × (m * cents + k * cents ≤ n)
      × (n < (m + 1) * cents + k * cents)
unfolding entry_limit_price
entry_limit_price-bounds n k few above =
    let rest = n - k * cents in
    (
      rest / cents,
      rw (
        check_step-ok k few,
        walked k few,
        lower n (k * cents) above,
        not_worthless rest (omega (arith, above)),
        down rest,
      ),
      omega (arith, above, div-add-mod' rest cents, mod-lt rest {m = cents} (omega arith)),
      omega (arith, above, div-add-mod' rest cents, mod-lt rest {m = cents} (omega arith)),
    )

-- A debit gives, at a step of at most three, a price in whole cents, no lower than the walked debit
-- and less than a cent above it.
pub exit_limit_price-bounds :
    (n k : ℕ)
    → k ≤ 3
    → (m : ℕ) × (exit_limit_price (fin (pos n)) (pos k) ≡ ok (fin (pos (m * cents))))
      × (n + k * cents ≤ m * cents)
      × (m * cents < n + (k + 1) * cents)
unfolding exit_limit_price
exit_limit_price-bounds n k few =
    let total = n + k * cents in
    let up_to = total + cents - 1 in
    (
      up_to / cents,
      rw (check_step-ok k few, walked k few, raise n (k * cents), up total),
      omega (arith, div-add-mod' up_to cents, mod-lt up_to {m = cents} (omega arith)),
      omega (arith, div-add-mod' up_to cents, mod-lt up_to {m = cents} (omega arith)),
    )
