-- ===== src/Domain/Proposal.antt =====
-- backend/underwriter/domain/proposal.py: what the Actuary prices and the Kernel adjudicates.
use the_underwriter.Base.{ℕ, Bool, true, false, String, List, [], ◌∷◌, Result}
use the_underwriter.Base.Int.{ℤ}
use the_underwriter.Domain.Decimal.{Decimal}
use the_underwriter.Domain.Market.{OptionRight, put, call, Side, buy, sell}
use the_underwriter.Domain.Hashing.{
  PyValue, str, int, decimal, date, mapping, sequence, no_entry, entry, Items, no_item, item,
  Platform, sha256_of,
}

pub data Structure : Type 0 where
  put_credit_spread : Structure

-- `Action.OPEN` and `Action.CLOSE`
pub data Action : Type 0 where
  opening closing : Action

-- `action is Action.CLOSE`
abbrev pub is_close : Action → Bool
is_close closing = true
is_close opening = false

-- `p.structure is q.structure`
abbrev pub structure_eq : Structure → Structure → Bool
structure_eq put_credit_spread put_credit_spread = true

pub record SpreadLeg : Type 0 where
  pub symbol : String
  pub right : OptionRight
  pub side : Side
  pub strike : Decimal
  pub expiry : ℕ
  pub ratio_qty : ℤ

pub record UnderwritingProposal : Type 0 where
  pub candidate_id : String
  pub underlying : String
  pub structure : Structure
  pub action : Action
  pub legs : List SpreadLeg
  pub short_strike : Decimal
  pub long_strike : Decimal
  pub expiry : ℕ
  pub dte : ℤ
  pub net_credit : Decimal
  pub max_profit : Decimal
  pub max_loss : Decimal
  pub capital_reserve : Decimal
  pub breakeven : Decimal
  pub credit_to_width : Decimal
  pub p_loss_proxy : Decimal
  pub p_profit_proxy : Decimal
  pub expected_value : Decimal
  pub edge_ratio : Decimal
  pub liquidity_score : Decimal
  pub max_leg_spread_pct : Decimal
  pub short_delta : Decimal
  pub net_delta : Decimal
  pub net_vega : Decimal
  pub greeks_complete : Bool
  pub snapshot_hash : String
  pub snapshot_as_of : ℕ

-- The values of the enumerations.
abbrev pub right_value : OptionRight → String
right_value put = "PUT"
right_value call = "CALL"

abbrev pub side_value : Side → String
side_value buy = "BUY"
side_value sell = "SELL"

abbrev pub structure_value : Structure → String
structure_value put_credit_spread = "PUT_CREDIT_SPREAD"

abbrev pub action_value : Action → String
action_value opening = "OPEN"
action_value closing = "CLOSE"

unfoldable pub leg_payload : SpreadLeg → PyValue
leg_payload leg = mapping (
    entry "symbol" (str leg.symbol) (
      entry "right" (str (right_value leg.right)) (
        entry "side" (str (side_value leg.side)) (
          entry "strike" (decimal leg.strike)
            (entry "expiry" (date leg.expiry) (entry "ratio_qty" (int leg.ratio_qty) no_entry))))))

unfoldable pub legs_payload : List SpreadLeg → Items
unfolding leg_payload
legs_payload [] = no_item
legs_payload (leg ∷ legs) = item (leg_payload leg) (legs_payload legs)

-- What `proposal_hash` covers.
unfoldable pub hash_payload : UnderwritingProposal → PyValue
unfolding legs_payload
hash_payload p = mapping (
    entry "candidate_id" (str p.candidate_id) (
      entry "underlying" (str p.underlying) (
        entry "structure" (str (structure_value p.structure)) (
          entry "action" (str (action_value p.action)) (
            entry "legs" (sequence (legs_payload p.legs)) (
              entry "short_strike" (decimal p.short_strike) (
                entry "long_strike" (decimal p.long_strike) (
                  entry "expiry" (date p.expiry) (
                    entry "net_credit" (decimal p.net_credit) (
                      entry "max_loss" (decimal p.max_loss)
                        (entry "snapshot_hash" (str p.snapshot_hash) no_entry)))))))))))

unfoldable pub proposal_hash : Platform → UnderwritingProposal → Result String
unfolding hash_payload sha256_of
proposal_hash lib p = sha256_of lib (hash_payload p)
