-- ===== src/Audit/Ledger.antt =====
-- The rows, `append` and `verify_chain`.
use the_underwriter.Domain.Hashing.{
  canonical_json, Platform, PyValue, null, mapping, str, entry, datetime, no_entry,
}
use the_underwriter.Base.{
  ◌>>=◌, String, ℕ, Option, List, Bool, Result, ◌∷◌, some, none, false, [], if◌then◌else◌, str_eq,
  ok, true, suc, not, ◌++◌,
}

-- `"0" * 64`
abbrev pub genesis_hash : String
genesis_hash = "0000000000000000000000000000000000000000000000000000000000000000"

-- What the caller records.
pub record Entry : Type 0 where
  pub occurred_at : ℕ
  pub correlation_id : Option String
  pub actor : String
  pub action : String
  pub entity_type : Option String
  pub entity_id : Option String
  pub before : PyValue
  pub after : PyValue

-- `AuditLog`
pub record Row : Type 0 where
  pub seq : ℕ
  pub content : Entry
  pub prev_hash : Option String
  pub record_hash : String

abbrev pub optional : Option String → PyValue
optional none = null
optional (some s) = str s

-- The mapping of `record_payload`.
abbrev pub record_fields : Entry → String → PyValue
record_fields e prev = mapping (
    entry "occurred_at" (datetime e.occurred_at) (
      entry "correlation_id" (optional e.correlation_id) (
        entry "actor" (str e.actor) (
          entry "action" (str e.action) (
            entry "entity_type" (optional e.entity_type) (
              entry "entity_id" (optional e.entity_id) (
                entry "before" e.before
                  (entry "after" e.after (entry "prev_hash" (str prev) no_entry)))))))))

unfoldable pub record_payload : Platform → Entry → String → Result String
unfolding canonical_json
record_payload lib e prev = canonical_json lib (record_fields e prev)

-- `compute_hash`
abbrev pub compute_hash : Platform → String → String
compute_hash lib payload = lib.sha256_hex payload

-- The `record_hash` of the row of the highest number.
abbrev pub last_hash : Option String → List Row → Option String
last_hash found [] = found
last_hash found (r ∷ rs) = last_hash (some r.record_hash) rs

-- `row or GENESIS_HASH`
abbrev pub or_genesis : Option String → String
or_genesis none = genesis_hash
or_genesis (some s) = if str_eq s "" then genesis_hash else s

unfoldable pub latest_hash : List Row → String
latest_hash rows = or_genesis (last_hash none rows)

-- The new row, and the rows with it.
unfoldable pub append : Platform → ℕ → Entry → List Row → Result (Row × List Row)
unfolding record_payload latest_hash
append lib seq e rows = do
  let prev = latest_hash rows
  payload ← record_payload lib e prev
  let row : Row = record {
    seq = seq;
    content = e;
    prev_hash = some prev;
    record_hash = compute_hash lib payload;
  }
  ok (row, rows ++ row ∷ [])

-- What the text `detail` tells apart.
pub data Detail : Type 0 where
  relinked edited verified : Detail

pub record ChainVerification : Type 0 where
  pub valid : Bool
  pub records_checked : ℕ
  pub first_break_seq : Option ℕ
  pub detail : Detail

-- `row.prev_hash == expected_prev`
abbrev pub links_to : Option String → String → Bool
links_to none expected = false
links_to (some prev) expected = str_eq prev expected

abbrev pub broken : ℕ → Row → Detail → ChainVerification
broken index r detail = record {
  valid = false;
  records_checked = index;
  first_break_seq = some r.seq;
  detail = detail;
}

-- The loop of `verify_chain`, after `checked` rows.
unfoldable pub verify_from : Platform → String → ℕ → List Row → Result ChainVerification
unfolding record_payload
verify_from lib expected checked [] =
    ok (record {
      valid = true;
      records_checked = checked;
      first_break_seq = none;
      detail = verified;
    })
verify_from lib expected checked (r ∷ rs) =
    let rest = verify_from lib r.record_hash (suc checked) rs in
    if not (links_to r.prev_hash expected) then ok (broken (suc checked) r relinked) else do
      payload ← record_payload lib r.content (or_genesis r.prev_hash)
      if not (str_eq (compute_hash lib payload) r.record_hash)
          then ok (broken (suc checked) r edited)
          else rest

unfoldable pub verify_chain : Platform → List Row → Result ChainVerification
unfolding verify_from
verify_chain lib rows = verify_from lib genesis_hash 0 rows
