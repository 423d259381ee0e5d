-- ===== src/Book/Inputs.antt =====
-- The inputs of a cycle in cycle/recorder.py: the snapshot, the candidates, the decision of the model
-- and the verdict of the Kernel. A new row takes the id that was drawn for it; in `candidates` the rows
-- take theirs one after another, as the function `ids` tells.
-- The id of the row that has this hash.
use the_underwriter.Book.Policies.{optional_money}
use the_underwriter.Audit.Ledger.{optional}
use the_underwriter.Base.Int.{pos}
use the_underwriter.Kernel.Rules.{join_text}
use the_underwriter.Actuary.Engine.{ActuaryResult}
use the_underwriter.Actuary.Validation.{Discard}
use the_underwriter.Agent.Underwriter.{UnderwritingOutcome}
use the_underwriter.Domain.Hashing.{Platform, Entries, null, mapping, entry, str, int, no_entry}
use the_underwriter.Domain.Decimal.{Decimal}
use the_underwriter.Book.Rows.{MarketSnapshotRow, Candidate, UnderwritingDecision}
use the_underwriter.Agent.Decision.{UnderwriterDecision, DecisionAction, decline, write, missing}
use the_underwriter.Domain.Proposal.{proposal_hash, UnderwritingProposal}
use the_underwriter.Domain.Market.{snapshot_hash, MarketSnapshot}
use the_underwriter.Book.Session.{Draws, append_entry, Formats, Session, recorded}
use the_underwriter.Base.{
  String, List, Option, ℕ, some, [], none, true, ◌++◌, Result, ◌∷◌, ok, ◌>>=◌, if◌then◌else◌, suc,
  false, str_eq, length,
}

abbrev pub snapshot_of : String → List MarketSnapshotRow → Option String
snapshot_of hash [] = none
snapshot_of hash (r ∷ rs) =
    let rest = snapshot_of hash rs in if str_eq r.snapshot_hash hash then some r.id else rest

-- `next(iter(prices), "")`, and its price
abbrev pub first_underlying : List (String × Decimal) → String
first_underlying [] = ""
first_underlying ((name, price) ∷ ps) = name

abbrev pub first_price : List (String × Decimal) → Option Decimal
first_price [] = none
first_price ((name, price) ∷ ps) = some price

abbrev pub snapshot_row : Draws → String → MarketSnapshot → String → MarketSnapshotRow
snapshot_row d cid s hash = record {
  id = d.id;
  correlation_id = cid;
  underlying = first_underlying s.underlying_prices;
  underlying_price = first_price s.underlying_prices;
  chain = s.quotes;
  snapshot_hash = hash;
  source = "rest";
  fetched_at = s.as_of;
}

unfoldable pub snapshot_on :
    Platform
    → Draws
    → String
    → MarketSnapshot
    → String
    → Session
    → Option String
    → Result (String × Session)
unfolding append_entry
snapshot_on lib d cid snap hash s (some id) = ok (id, s)
snapshot_on lib d cid snap hash s none = do
  s' ←
      append_entry lib d.seq
        (recorded d cid "SCHEDULER" "SNAPSHOT_TAKEN" "market_snapshot" (some d.id) null (
          mapping (
            entry "snapshot_hash" (str hash)
              (entry "quotes" (int (pos (length snap.quotes))) no_entry))))
        (record s { snapshots = s.snapshots ++ snapshot_row d cid snap hash ∷ [] })
  ok (d.id, s')

-- `CycleRecorder.snapshot`: the same inputs are recorded once.
unfoldable pub snapshot :
    Platform → Draws → String → MarketSnapshot → Session → Result (String × Session)
unfolding snapshot_hash snapshot_on
snapshot lib d cid snap s = do
  hash ← snapshot_hash lib snap
  snapshot_on lib d cid snap hash s (snapshot_of hash s.snapshots)

abbrev pub candidate_of : String → List Candidate → Option String
candidate_of hash [] = none
candidate_of hash (c ∷ cs) =
    let rest = candidate_of hash cs in if str_eq c.proposal_hash hash then some c.id else rest

abbrev pub candidate_row :
    String → String → Option String → UnderwritingProposal → String → Candidate
candidate_row id cid snapshot_id p hash = record {
  id = id;
  correlation_id = cid;
  snapshot_id = snapshot_id;
  figures = some p;
  accepted = true;
  rejection_reason = none;
  proposal_hash = hash;
}

-- One proposal: the rows, and the entry of `ids`.
abbrev pub candidate_on :
    String
    → String
    → Option String
    → UnderwritingProposal
    → String
    → List Candidate
    → Option String
    → (String × String) × List Candidate
candidate_on id cid snapshot_id p hash cs (some found) = ((p.candidate_id, found), cs)
candidate_on id cid snapshot_id p hash cs none =
    ((p.candidate_id, id), cs ++ candidate_row id cid snapshot_id p hash ∷ [])

-- The loop over the proposals.
unfoldable pub candidates_from :
    Platform
    → (ℕ → String)
    → String
    → Option String
    → ℕ
    → List Candidate
    → List UnderwritingProposal
    → Result (List (String × String) × List Candidate)
unfolding proposal_hash
candidates_from lib ids cid snapshot_id n cs [] = ok ([], cs)
candidates_from lib ids cid snapshot_id n cs (p ∷ ps) = do
  hash ← proposal_hash lib p
  let (named, cs') = candidate_on (ids n) cid snapshot_id p hash cs (candidate_of hash cs)
  rest ← candidates_from lib ids cid snapshot_id (suc n) cs' ps
  ok (named ∷ rest.0, rest.1)

-- The loop over the discards, from an index on.
abbrev pub discard_rows :
    Formats → (ℕ → String) → String → Option String → ℕ → List Discard → List Candidate
discard_rows formats ids cid snapshot_id n [] = []
discard_rows formats ids cid snapshot_id n (x ∷ xs) =
    record {
      id = ids n;
      correlation_id = cid;
      snapshot_id = snapshot_id;
      figures = none;
      accepted = false;
      rejection_reason = some x.reason;
      proposal_hash = formats.discard_hash cid n;
    }
    ∷ discard_rows formats ids cid snapshot_id (suc n) xs

-- `CycleRecorder.candidates`: the ids by candidate.
unfoldable pub candidates :
    Platform
    → Formats
    → Draws
    → (ℕ → String)
    → (ℕ → String)
    → String
    → ActuaryResult
    → Option String
    → Session
    → Result (List (String × String) × Session)
unfolding candidates_from append_entry
candidates lib formats d ids discard_ids cid priced snapshot_id s = do
  named ← candidates_from lib ids cid snapshot_id 0 s.candidates priced.proposals
  s' ←
      append_entry lib d.seq
        (recorded d cid "ACTUARY" "CANDIDATES_PRICED" "market_snapshot" snapshot_id null (
          mapping (
            entry "priced" (int (pos (length priced.proposals)))
              (entry "discarded" (int (pos (length priced.discards))) no_entry))))
        (record s {
          candidates =
              named.1 ++ discard_rows formats discard_ids cid snapshot_id 0 priced.discards;
        })
  ok (named.0, s')

-- The decision of an outcome: a call that ended without one is recorded as a decline.
abbrev pub action_of : Option UnderwriterDecision → DecisionAction
action_of none = decline
action_of (some d) = d.action

abbrev pub field_of {ℓ} :
    {A : Type ℓ} → (UnderwriterDecision → Option A) → Option UnderwriterDecision → Option A
field_of f none = none
field_of f (some d) = f d

abbrev pub risks_of : Option (List String) → List String
risks_of none = []
risks_of (some rs) = rs

abbrev pub decision_value_of : DecisionAction → String
decision_value_of write = "WRITE"
decision_value_of decline = "DECLINE"

-- `outcome.abort_reason` is none
abbrev pub decision_row :
    Draws → String → UnderwritingOutcome → Option String → UnderwritingDecision
decision_row d cid o candidate_row_id = record {
  id = d.id;
  correlation_id = cid;
  candidate_id = candidate_row_id;
  action = action_of o.decision;
  confidence = field_of (λ x. x.confidence) o.decision;
  requested_contracts = field_of (λ x. x.contracts) o.decision;
  identified_risks = risks_of (field_of (λ x. x.identified_risks) o.decision);
  schema_valid = missing o.abort_reason;
  retry_count = o.retry_count;
}

-- `CycleRecorder.decision`. What the ledger says of the prompt and of the model is in `telemetry`.
unfoldable pub decision :
    Platform
    → Draws
    → String
    → Entries
    → UnderwritingOutcome
    → Option String
    → Session
    → Result (String × Session)
unfolding append_entry
decision lib d cid telemetry o candidate_row_id s = do
  s' ←
      append_entry lib d.seq
        (recorded d cid "UNDERWRITER"
          (join_text "DECISION_" (decision_value_of (action_of o.decision))) "underwriting_decision"
          (some d.id) null
          (mapping (
            entry "action" (str (decision_value_of (action_of o.decision))) (
              entry "candidate_id" (optional (field_of (λ x. x.candidate_id) o.decision)) (
                entry "confidence" (optional_money lib (field_of (λ x. x.confidence) o.decision))
                  telemetry)))))
        (record s { decisions = s.decisions ++ decision_row d cid o candidate_row_id ∷ [] })
  ok (d.id, s')
