-- ===== src/Actuary/Split.antt =====
-- The money of a spread: its width is what can be won and what can be lost.
-- The figures on their grids: `a` in hundredths of a cent, `b` in cents.
use the_underwriter.Domain.Decimal.Exact.{mul-whole, above_zero, floor-exact, ceiling-exact}
use the_underwriter.Base.Int.{pos, eq_of_parts, ◌+ℤ◌, neg, +ℤ_parts, neg_parts}
use the_underwriter.Domain.Market.{ContractQuote}
use the_underwriter.Domain.Money.{
  q_per_share, q_credit, q_loss, per_share, cents, dec_zero, contract_multiplier,
}
use the_underwriter.Domain.Decimal.{
  Decimal, Rounding, fin, le, sub, round_half_up, round_floor, quantize, add, mul, negate, lt,
}
use the_underwriter.Actuary.Formulas.{spread_width, net_credit, max_profit, max_loss}
use the_underwriter.Base.{
  Result, ℕ, ◌*◌, ◌≡◌, ◌<◌, ◌>>=◌, ok, >>=-eq-ok, ◌-◌, sym, ◌>>◌, ok-injective, raise_if, ◌∙◌,
  money_error, guard-ok, ap, false, arith, ◌≤◌, ◌+◌, true,
}
use the_underwriter.Actuary.Pricing.{Money, money_of}

pub record Splits (m : Money) : Type 0 where
  pub a : ℕ
  pub b : ℕ
  pub below : b * 100 < a
  pub width_eq : m.width ≡ fin (pos (a * per_share))
  pub credit_eq : m.credit ≡ fin (pos (b * cents))
  pub profit_eq : m.gross_profit ≡ fin (pos (b * 100 * cents))
  pub loss_eq : m.gross_loss ≡ fin (pos ((a - b * 100) * cents))

-- A difference that is above zero, quantised.
guarded-grid :
    (d : Result Decimal) (u : ℕ) (mode : Rounding) (q : Decimal)
    → (do x ← d; none_left ← le x dec_zero; raise_if none_left money_error; quantize u mode x)
      ≡ ok q
    → (n : ℕ) × (q ≡ fin (pos (n * u)))
guarded-grid d u mode q h =
    let (x, _, h₁) = >>=-eq-ok d _ h in
    let (none_left, e, h₂) = >>=-eq-ok (le x dec_zero) _ h₁ in
    let (f, q_eq) = guard-ok none_left money_error (quantize u mode x) h₂ in
    let (n, _, _, at) = above_zero x q u mode (e ∙ ap ok f) q_eq in (_, at)

spread_width-grid :
    (x y w : Decimal) → spread_width x y ≡ ok w → (n : ℕ) × (w ≡ fin (pos (n * per_share)))
unfolding spread_width q_per_share
spread_width-grid x y w h = guarded-grid (sub x y) per_share round_half_up w h

net_credit-grid : (x y w : Decimal) → net_credit x y ≡ ok w → (n : ℕ) × (w ≡ fin (pos (n * cents)))
unfolding net_credit q_credit
net_credit-grid x y w h = guarded-grid (sub x y) cents round_floor w h

max_profit-grid :
    (b : ℕ) (credit : Decimal)
    → credit ≡ fin (pos (b * cents))
    → max_profit credit ≡ ok (fin (pos (b * 100 * cents)))
unfolding max_profit q_credit
max_profit-grid b credit at =
    ap (λ c. max_profit c) at
    ∙ (ap (λ r. r >>= q_credit) (mul-whole (b * cents) 100)
        ∙ (ap (λ n. q_credit (fin (pos n))) (omega arith)
            ∙ floor-exact (b * 100) cents (omega arith)))

-- What a loss is computed from.
max_loss-chain :
    (width credit loss : Decimal)
    → max_loss width credit ≡ ok loss
    → (le width credit ≡ ok false)
      × ((sub width credit >>= λ risk. mul risk contract_multiplier >>= λ gross. q_loss gross)
          ≡ ok loss)
unfolding max_loss
max_loss-chain width credit loss h =
    let (implausible, e, h₁) = >>=-eq-ok (le width credit) _ h in
    let (f, rest) = guard-ok implausible money_error _ h₁ in (e ∙ ap ok f, rest)

difference : (m n : ℕ) → n ≤ m → sub (fin (pos m)) (fin (pos n)) ≡ ok (fin (pos (m - n)))
unfolding sub add negate
difference m n h =
    ap (λ k. ok (fin k))
      (eq_of_parts (pos m +ℤ neg (pos n)) (pos (m - n))
        (omega (arith, h, +ℤ_parts (pos m) (neg (pos n)), neg_parts (pos n))))

apart : (m n : ℕ) → le (fin (pos m)) (fin (pos n)) ≡ ok false → n < m
unfolding le
apart m n h = ground arith

loss-exact :
    (a b : ℕ)
    → b * 100 < a
    → (sub (fin (pos (a * per_share))) (fin (pos (b * cents))) >>= λ risk.
        mul risk contract_multiplier >>= λ gross. q_loss gross)
      ≡ ok (fin (pos ((a - b * 100) * cents)))
unfolding q_loss
loss-exact a b below =
    ap (λ r. r >>= λ risk. mul risk contract_multiplier >>= λ gross. q_loss gross)
      (difference (a * per_share) (b * cents) (omega (arith, below)))
    ∙ (ap (λ r. r >>= q_loss) (mul-whole (a * per_share - b * cents) 100)
        ∙ (ap (λ n. q_loss (fin (pos n))) (omega (arith, below))
            ∙ ceiling-exact (a - b * 100) cents (omega arith)))

max_loss-grid :
    (a b : ℕ) (width credit loss : Decimal)
    → width ≡ fin (pos (a * per_share))
    → credit ≡ fin (pos (b * cents))
    → max_loss width credit ≡ ok loss
    → (b * 100 < a) × (loss ≡ fin (pos ((a - b * 100) * cents)))
max_loss-grid a b width credit loss at_width at_credit h =
    let (over, chain) = max_loss-chain width credit loss h in
    let below : b * 100 < a =
      omega (arith, apart (a * per_share) (b * cents) (rw (at_width, at_credit) at over)) in
    (below, ok-injective (sym (rw (at_width, at_credit) at chain) ∙ loss-exact a b below))

pub money_of-Splits :
    (short_leg long_leg : ContractQuote) (m : Money) → money_of short_leg long_leg ≡ ok m → Splits m
unfolding money_of
money_of-Splits short_leg long_leg m h =
    let (width, w_eq, h₁) = >>=-eq-ok (spread_width short_leg.strike long_leg.strike) _ h in
    let (credit, c_eq, h₂) = >>=-eq-ok (net_credit short_leg.bid long_leg.ask) _ h₁ in
    let (profit, p_eq, h₃) = >>=-eq-ok (max_profit credit) _ h₂ in
    let (loss, l_eq, h₄) = >>=-eq-ok (max_loss width credit) _ h₃ in
    let (a, a_eq) = spread_width-grid short_leg.strike long_leg.strike width w_eq in
    let (b, b_eq) = net_credit-grid short_leg.bid long_leg.ask credit c_eq in
    let (below, loss_eq) = max_loss-grid a b width credit loss a_eq b_eq l_eq in
    rw (sym (ok-injective h₄)) (record {
      a = a;
      b = b;
      below = below;
      width_eq = a_eq;
      credit_eq = b_eq;
      profit_eq = ok-injective (sym p_eq ∙ max_profit-grid b credit b_eq);
      loss_eq = loss_eq;
    })

pub money_of-width :
    (short_leg long_leg : ContractQuote) (m : Money)
    → money_of short_leg long_leg ≡ ok m
    → spread_width short_leg.strike long_leg.strike ≡ ok m.width
unfolding money_of
money_of-width short_leg long_leg m h =
    let (width, w_eq, h₁) = >>=-eq-ok (spread_width short_leg.strike long_leg.strike) _ h in
    let (credit, _, h₂) = >>=-eq-ok (net_credit short_leg.bid long_leg.ask) _ h₁ in
    let (profit, _, h₃) = >>=-eq-ok (max_profit credit) _ h₂ in
    let (loss, _, h₄) = >>=-eq-ok (max_loss width credit) _ h₃ in
    w_eq ∙ ap (λ x. ok x.width) (ok-injective h₄)

add-pos : (m n : ℕ) → add (fin (pos m)) (fin (pos n)) ≡ ok (fin (pos (m + n)))
unfolding add
add-pos m n =
    ap (λ k. ok (fin k))
      (eq_of_parts (pos m +ℤ pos n) (pos (m + n)) (omega (arith, +ℤ_parts (pos m) (pos n))))

-- The two shares of a width.
pub shares-add :
    (a b : ℕ) (profit loss : Decimal)
    → b * 100 < a
    → profit ≡ fin (pos (b * 100 * cents))
    → loss ≡ fin (pos ((a - b * 100) * cents))
    → add profit loss ≡ ok (fin (pos (a * per_share * 100)))
shares-add a b profit loss below profit_eq loss_eq =
    rw (profit_eq, loss_eq)
      (add-pos (b * 100 * cents) ((a - b * 100) * cents)
        ∙ ap (λ k. ok (fin (pos k))) (omega (arith, below)))

pub width-scaled :
    (a : ℕ) (width : Decimal)
    → width ≡ fin (pos (a * per_share))
    → mul width contract_multiplier ≡ ok (fin (pos (a * per_share * 100)))
width-scaled a width width_eq =
    ap (λ w. mul w contract_multiplier) width_eq ∙ mul-whole (a * per_share) 100

pub loss-positive :
    (n : ℕ) (loss : Decimal) → 0 < n → loss ≡ fin (pos (n * cents)) → lt dec_zero loss ≡ ok true
unfolding lt
loss-positive n loss h e = rw e (ground arith)
