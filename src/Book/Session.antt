-- ===== src/Book/Session.antt =====
-- The session: its tables, in the order of insertion, and the entry in the ledger that every record
-- ends with. What the database and the clock draw for a record is an argument.
use the_underwriter.Audit.Ledger.{Entry, append, Row}
use the_underwriter.Domain.Hashing.{Platform, Items, PyValue, no_item, item, str}
use the_underwriter.Book.Rows.{
  PolicyNumber, Policy, PolicyLeg, Reserve, Order, RiskEvent, KernelDecision, RiskCheck,
  MarketSnapshotRow, Candidate, UnderwritingDecision,
}
use the_underwriter.Base.{◌>>=◌, List, String, ℕ, Option, some, Result, ◌∷◌, ok, []}

pub record Session : Type 0 where
  pub policies : List Policy
  pub legs : List PolicyLeg
  pub reserves : List Reserve
  pub orders : List Order
  pub risk_events : List RiskEvent
  pub kernel_decisions : List KernelDecision
  pub risk_checks : List RiskCheck
  pub snapshots : List MarketSnapshotRow
  pub candidates : List Candidate
  pub decisions : List UnderwritingDecision
  pub audit : List Row

-- The id of a new row, the sequence number of its entry in the ledger, and the time.
pub record Draws : Type 0 where
  pub id : String
  pub seq : ℕ
  pub now : ℕ
  pub year : ℕ

-- The texts that the interpreter formats.
pub record Formats : Type 0 where
  pub policy_number : PolicyNumber → String
  pub discard_hash : String → ℕ → String

-- An entry of the recorder in the ledger.
abbrev pub recorded :
    Draws → String → String → String → String → Option String → PyValue → PyValue → Entry
recorded d cid actor action entity_type entity_id before after = record {
  occurred_at = d.now;
  correlation_id = some cid;
  actor = actor;
  action = action;
  entity_type = some entity_type;
  entity_id = entity_id;
  before = before;
  after = after;
}

-- `append(self.session, …)`
unfoldable pub append_entry : Platform → ℕ → Entry → Session → Result Session
append_entry lib seq e s = do added ← append lib seq e s.audit; ok (record s { audit = added.1 })

-- `list[str]`
abbrev pub texts_value : List String → Items
texts_value [] = no_item
texts_value (t ∷ ts) = item (str t) (texts_value ts)
