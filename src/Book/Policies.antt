-- ===== src/Book/Policies.antt =====
-- The policies of cycle/recorder.py: a policy with its legs and its reserve, the order that opened it,
-- a risk event, and the settlement.
use the_underwriter.Kernel.Rules.{join_text}
use the_underwriter.Domain.Money.{dec_zero}
use the_underwriter.Execution.Engine.{
  ExecutionResult, ExecutionStatus, status_partial, status_filled, status_cancelled,
  status_rejected, status_timed_out, status_failed,
}
use the_underwriter.Book.Rows.{
  PolicyNumber, Reserve, Policy, EventSeverity, PolicyLeg, PolicyStatus, RiskEvent, Order, settled,
  released, held, critical, execution_status_value, severity_value, policy_status_value, is_held,
}
use the_underwriter.Execution.Order.{Intent, sell_to_open, buy_to_open}
use the_underwriter.Domain.Decimal.{Decimal, lt, mul, of_ℤ}
use the_underwriter.Domain.Hashing.{
  Platform, Entries, entry, PyValue, no_entry, mapping, null, str, int,
}
use the_underwriter.Book.Session.{Draws, Session, append_entry, Formats, recorded}
use the_underwriter.Base.Int.{ℤ}
use the_underwriter.Domain.Proposal.{UnderwritingProposal, SpreadLeg, structure_value}
use the_underwriter.Domain.Market.{Side, sell, buy}
use the_underwriter.Base.{
  ◌>>=◌, ℕ, String, List, Option, Bool, Result, ◌∷◌, ◌+◌, some, none, if◌then◌else◌, ◌++◌, true, ok,
  ◌==◌, [], map, str_eq, suc, ◌&&◌,
}

-- The policies of a year.
abbrev pub count_year : ℕ → List Policy → ℕ
count_year year [] = 0
count_year year (p ∷ ps) =
    let rest = count_year year ps in if p.policy_number.year == year then suc rest else rest

-- `next_policy_number`
unfoldable pub next_policy_number : ℕ → List Policy → PolicyNumber
next_policy_number year ps = record { year = year; index = count_year year ps + 1 }

abbrev pub opening_intent : Side → Intent
opening_intent sell = sell_to_open
opening_intent buy = buy_to_open

-- `proposal.short_delta if str(leg.side) == "SELL" else None`
abbrev pub delta_of : UnderwritingProposal → Side → Option Decimal
delta_of p sell = some p.short_delta
delta_of p buy = none

abbrev pub policy_leg : String → UnderwritingProposal → SpreadLeg → PolicyLeg
policy_leg policy_id p leg = record {
  policy_id = policy_id;
  option_symbol = leg.symbol;
  side = leg.side;
  position_intent = opening_intent leg.side;
  ratio_qty = leg.ratio_qty;
  strike = some leg.strike;
  expiration = some leg.expiry;
  option_type = leg.right;
  open_delta = delta_of p leg.side;
}

-- What the caller of `CycleRecorder.policy` says of the policy.
pub record PolicyTerms : Type 0 where
  pub contracts : ℤ
  pub candidate_row_id : Option String
  pub verdict_row_id : String
  pub confidence : Option Decimal
  pub status : PolicyStatus

abbrev pub policy_row :
    Draws → String → UnderwritingProposal → PolicyTerms → PolicyNumber → Decimal → Decimal → Policy
policy_row d cid p t number max_loss max_profit = record {
  id = d.id;
  policy_number = number;
  correlation_id = cid;
  candidate_id = t.candidate_row_id;
  kernel_decision_id = some t.verdict_row_id;
  underlying = p.underlying;
  structure = structure_value p.structure;
  contracts = t.contracts;
  opening_credit = some p.net_credit;
  max_profit = some max_profit;
  max_loss = some max_loss;
  capital_reserve = some max_loss;
  expiration = some p.expiry;
  status = t.status;
  closed_at = none;
  closing_debit = none;
  realized_pnl = none;
  settlement_reason = none;
  predicted_confidence = t.confidence;
  outcome_win = none;
}

abbrev pub reserve_row : String → Decimal → Reserve
reserve_row policy_id amount = record {
  policy_id = policy_id;
  amount = amount;
  released_at = none;
  status = held;
}

-- The session with the policy, its legs and its reserve.
abbrev pub add_policy : Session → Policy → List PolicyLeg → Reserve → Session
add_policy s p legs r = record s {
  policies = s.policies ++ p ∷ [];
  legs = s.legs ++ legs;
  reserves = s.reserves ++ r ∷ [];
}

abbrev pub policy_written :
    Platform → Formats → UnderwritingProposal → PolicyTerms → PolicyNumber → Decimal → PyValue
policy_written lib formats p t number max_loss = mapping (
    entry "policy_number" (str (formats.policy_number number)) (
      entry "underlying" (str p.underlying) (
        entry "contracts" (int t.contracts) (
          entry "max_loss" (str (lib.decimal_str max_loss))
            (entry "reserved" (str (lib.decimal_str max_loss)) no_entry)))))

-- `CycleRecorder.policy`: the id of the policy is the one that was drawn.
unfoldable pub policy :
    Platform
    → Formats
    → Draws
    → String
    → UnderwritingProposal
    → PolicyTerms
    → Session
    → Result Session
unfolding append_entry next_policy_number
policy lib formats d cid p t s = do
  max_loss ← mul p.max_loss (of_ℤ t.contracts)
  max_profit ← mul p.max_profit (of_ℤ t.contracts)
  let number = next_policy_number d.year s.policies
  append_entry lib d.seq
      (recorded d cid "EXECUTION" "POLICY_WRITTEN" "policy" (some d.id) null
        (policy_written lib formats p t number max_loss))
      (add_policy s (policy_row d cid p t number max_loss max_profit)
        (map (policy_leg d.id p) p.legs) (reserve_row d.id max_loss))

-- `CycleRecorder.risk_event`
unfoldable pub risk_event :
    Platform
    → Draws
    → String
    → String
    → EventSeverity
    → Option String
    → Entries
    → Session
    → Result Session
unfolding append_entry
risk_event lib d cid event_type severity policy_id detail s = do
  let row : RiskEvent = record {
    id = d.id;
    event_type = event_type;
    severity = severity;
    policy_id = policy_id;
    detail = detail;
    resolved_at = none;
  }
  append_entry lib d.seq
      (recorded d cid "CLAIMS" (join_text "RISK_EVENT_" event_type) "risk_event" (some d.id) null
        (mapping (entry "severity" (str (severity_value severity)) detail)))
      (record s { risk_events = s.risk_events ++ row ∷ [] })

abbrev pub order_row : Draws → ExecutionResult → String → String → Order
order_row d r policy_id verdict_row_id = record {
  id = d.id;
  policy_id = some policy_id;
  alpaca_order_id = r.broker_order_id;
  client_order_id = r.client_order_id;
  kernel_decision_id = verdict_row_id;
  status = r.status;
  filled_qty = some r.contracts_filled;
  filled_avg_price = r.filled_avg_price;
  attempt = r.attempts;
  terminal = true;
}

-- The event of a partial fill. Its text `detail` is left out.
unfoldable pub leg_risk_event :
    Platform
    → Draws
    → String
    → ExecutionResult
    → String
    → ExecutionStatus
    → Session
    → Result Session
unfolding risk_event
leg_risk_event lib d cid r policy_id status_partial s =
    risk_event lib d cid "LEG_RISK" critical (some policy_id)
      (entry "filled" (str (lib.decimal_str r.contracts_filled)) no_entry) s
leg_risk_event lib d cid r policy_id status_filled s = ok s
leg_risk_event lib d cid r policy_id status_cancelled s = ok s
leg_risk_event lib d cid r policy_id status_rejected s = ok s
leg_risk_event lib d cid r policy_id status_timed_out s = ok s
leg_risk_event lib d cid r policy_id status_failed s = ok s

-- `CycleRecorder.order`: `d` is drawn for the order, and `e` for the event of a partial fill.
unfoldable pub order :
    Platform → Draws → Draws → String → ExecutionResult → String → String → Session → Result Session
unfolding append_entry leg_risk_event
order lib d e cid r policy_id verdict_row_id s = do
  s₁ ←
      append_entry lib d.seq
        (recorded d cid "EXECUTION" (join_text "ORDER_" (execution_status_value r.status)) "order"
          (some d.id) null
          (mapping (
            entry "client_order_id" (str r.client_order_id) (
              entry "status" (str (execution_status_value r.status)) (
                entry "filled" (str (lib.decimal_str r.contracts_filled))
                  (entry "kernel_decision_id" (str verdict_row_id) no_entry))))))
        (record s { orders = s.orders ++ order_row d r policy_id verdict_row_id ∷ [] })
  leg_risk_event lib e cid r policy_id r.status s₁

-- What `settle` is told.
pub record Settlement : Type 0 where
  pub closing_debit : Decimal
  pub realized : Decimal
  pub reason : String

abbrev pub settled_policy : ℕ → Settlement → Bool → Policy → Policy
settled_policy now t win p = record p {
  status = settled;
  closed_at = some now;
  closing_debit = some t.closing_debit;
  realized_pnl = some t.realized;
  settlement_reason = some t.reason;
  outcome_win = some win;
}

abbrev pub settle_in : String → ℕ → Settlement → Bool → List Policy → List Policy
settle_in id now t win [] = []
settle_in id now t win (p ∷ ps) =
    let rest = settle_in id now t win ps in
    (if str_eq p.id id then settled_policy now t win p else p) ∷ rest

abbrev pub release : ℕ → Reserve → Reserve
release now r = record r { status = released; released_at = some now }

-- The reserves of a policy that are held are released.
abbrev pub release_in : String → ℕ → List Reserve → List Reserve
release_in id now [] = []
release_in id now (r ∷ rs) =
    let rest = release_in id now rs in
    (if str_eq r.policy_id id && is_held r.status then release now r else r) ∷ rest

-- `self.session.get(Policy, policy_id)`
abbrev pub find_policy : String → List Policy → Option Policy
find_policy id [] = none
find_policy id (p ∷ ps) = let rest = find_policy id ps in if str_eq p.id id then some p else rest

abbrev pub optional_money : Platform → Option Decimal → PyValue
optional_money lib none = null
optional_money lib (some d) = str (lib.decimal_str d)

unfoldable pub settle_found :
    Platform → Draws → String → String → Settlement → Policy → Session → Result Session
unfolding append_entry lt
settle_found lib d cid id t p s = do
  win ← lt dec_zero t.realized
  append_entry lib d.seq
      (recorded d cid "CLAIMS" "POLICY_SETTLED" "policy" (some id)
        (mapping (
          entry "status" (str (policy_status_value p.status))
            (entry "realized_pnl" (optional_money lib p.realized_pnl) no_entry)))
        (mapping (
          entry "status" (str "SETTLED") (
            entry "realized_pnl" (str (lib.decimal_str t.realized)) (
              entry "settlement_reason" (str t.reason)
                (entry "reserve" (str "RELEASED") no_entry))))))
      (record s {
        policies = settle_in id d.now t win s.policies;
        reserves = release_in id d.now s.reserves;
      })

-- `CycleRecorder.settle`, on the policy that was found.
unfoldable pub settle_on :
    Platform → Draws → String → String → Settlement → Session → Option Policy → Result Session
unfolding settle_found
settle_on lib d cid id t s none = ok s
settle_on lib d cid id t s (some p) = settle_found lib d cid id t p s

-- `CycleRecorder.settle`
unfoldable pub settle : Platform → Draws → String → String → Settlement → Session → Result Session
unfolding settle_on
settle lib d cid id t s = settle_on lib d cid id t s (find_policy id s.policies)
