-- ===== src/Execution/Order.antt =====
-- The construction of an order: ratios, prices, legs and the payload. A number that the payload spells
-- as a text is kept as the number.
use the_underwriter.Domain.Money.{cents, dec_zero}
use the_underwriter.Domain.Hashing.{Platform}
use the_underwriter.Kernel.Rules.{client_order_id_for}
use the_underwriter.Domain.Market.{Side, buy, sell}
use the_underwriter.Base.Int.{ℤ, pos, pos_part, ltb_ℤ}
use the_underwriter.Domain.Decimal.{
  Decimal, mul, fin, sub, add, le, quantize, of_ℤ, round_up, round_down,
}
use the_underwriter.Domain.Proposal.{
  Action, opening, SpreadLeg, UnderwritingProposal, closing, is_close, proposal_hash,
}
use the_underwriter.Base.{
  ◌>>=◌, ◌>>◌, ℕ, List, String, suc, ◌∷◌, Bool, Result, ◌%◌, true, raise_if, if◌then◌else◌, map,
  ◌==◌, [], false, ◌||◌, zero, any, order_construction_error, ok, ◌/◌, err, ltb, value_error,
  length,
}

pub data Intent : Type 0 where
  sell_to_open buy_to_open sell_to_close buy_to_close : Intent

-- `INTENTS`
abbrev pub intent_of : Action → Side → Intent
intent_of opening sell = sell_to_open
intent_of opening buy = buy_to_open
intent_of closing sell = sell_to_close
intent_of closing buy = buy_to_close

-- `PRICE_STEP` and `MAX_PRICE_STEPS`
abbrev pub price_step : Decimal
price_step = fin (pos cents)

abbrev pub max_price_steps : ℤ
max_price_steps = pos 3

-- `math.gcd`, of numbers that are not negative: `b` falls at each step, so `suc b` steps are enough.
unfoldable pub gcd_from : ℕ → ℕ → ℕ → ℕ
gcd_from zero a b = a
gcd_from (suc fuel) a b = let rest = gcd_from fuel b (a % b) in if b == 0 then a else rest

abbrev pub divisor_of : ℕ → List ℤ → ℕ
divisor_of divisor [] = divisor
divisor_of divisor (r ∷ rs) = divisor_of (gcd_from (suc (pos_part r)) divisor (pos_part r)) rs

abbrev pub is_empty {ℓ} : {A : Type ℓ} → List A → Bool
is_empty [] = true
is_empty (x ∷ xs) = false

unfoldable pub simplify_ratios : List ℤ → Result (List ℤ)
unfolding gcd_from
simplify_ratios ratios = do
  raise_if (is_empty ratios || any (λ r. ltb_ℤ r (pos 1)) ratios) order_construction_error
  let divisor = divisor_of 0 ratios
  ok (map (λ r. pos (pos_part r / divisor)) ratios)

-- The guard on the step of a price.
abbrev pub check_step : ℤ → Result (Unit {0})
check_step step =
    raise_if (ltb_ℤ step (pos 0) || ltb_ℤ max_price_steps step) order_construction_error

unfoldable pub entry_limit_price : Decimal → ℤ → Result Decimal
entry_limit_price net_credit step = do
  check_step step
  walked ← mul price_step (of_ℤ step)
  price ← sub net_credit walked
  worthless ← le price dec_zero
  raise_if worthless order_construction_error
  quantize cents round_down price

unfoldable pub exit_limit_price : Decimal → ℤ → Result Decimal
exit_limit_price target_debit step = do
  check_step step
  walked ← mul price_step (of_ℤ step)
  price ← add target_debit walked
  quantize cents round_up price

abbrev pub closing_side : Side → Side
closing_side sell = buy
closing_side buy = sell

pub record OrderLeg : Type 0 where
  pub symbol : String
  pub side : Side
  pub ratio_qty : ℤ
  pub position_intent : Intent

-- One round of the loop of `_legs_payload`.
abbrev pub order_leg : Action → SpreadLeg → ℤ → OrderLeg
order_leg action leg ratio =
    let side = if is_close action then closing_side leg.side else leg.side in
    record {
      symbol = leg.symbol;
      side = side;
      ratio_qty = ratio;
      position_intent = intent_of action side;
    }

-- `zip(…, strict=True)`
unfoldable pub zip_legs : Action → List SpreadLeg → List ℤ → Result (List OrderLeg)
zip_legs action [] [] = ok []
zip_legs action [] (r ∷ rs) = err value_error
zip_legs action (leg ∷ legs) [] = err value_error
zip_legs action (leg ∷ legs) (r ∷ rs) = do
  rest ← zip_legs action legs rs
  ok (order_leg action leg r ∷ rest)

-- `_legs_payload`
unfoldable pub order_legs : Action → UnderwritingProposal → Result (List OrderLeg)
unfolding simplify_ratios zip_legs
order_legs action p = do
  ratios ← simplify_ratios (map (λ leg. leg.ratio_qty) p.legs)
  zip_legs action p.legs ratios

pub record OrderPayload : Type 0 where
  pub order_class : String
  pub qty : ℤ
  pub kind : String
  pub time_in_force : String
  pub limit_price : Decimal
  pub legs : List OrderLeg
  pub client_order_id : String

-- `_build`
unfoldable pub build : Platform → UnderwritingProposal → Action → ℤ → Decimal → Result OrderPayload
unfolding order_legs client_order_id_for
build lib p action contracts limit_price = do
  raise_if (ltb_ℤ contracts (pos 1)) order_construction_error
  legs ← order_legs action p
  raise_if (ltb (length legs) 2) order_construction_error
  hash ← proposal_hash lib p
  ok (record {
    order_class = "mleg";
    qty = contracts;
    kind = "limit";
    time_in_force = "day";
    limit_price = limit_price;
    legs = legs;
    client_order_id = client_order_id_for hash;
  })

unfoldable pub build_entry_order : Platform → UnderwritingProposal → ℤ → ℤ → Result OrderPayload
unfolding entry_limit_price build
build_entry_order lib p contracts step = do
  raise_if (is_close p.action) order_construction_error
  price ← entry_limit_price p.net_credit step
  build lib p opening contracts price

unfoldable pub build_exit_order :
    Platform → UnderwritingProposal → ℤ → Decimal → ℤ → Result OrderPayload
unfolding exit_limit_price build
build_exit_order lib p contracts target_debit step = do
  price ← exit_limit_price target_debit step
  build lib p closing contracts price
