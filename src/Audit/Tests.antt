-- ===== src/Audit/Tests.antt =====
-- Runs of the ledger on two records, and the applications of its theorems to them.
use the_underwriter.Base.Int.{pos}
use the_underwriter.Audit.Chain.{append-verify_chain}
use the_underwriter.Kernel.Scenario.{constant_platform}
use the_underwriter.Domain.Hashing.{canonicalize, insert_entry, null, mapping, entry, int, no_entry}
use the_underwriter.Audit.Seal.{texts, HashCollision, verify_chain-seals}
use the_underwriter.Audit.Ledger.{
  Row, verify_chain, append, Entry, genesis_hash, ChainVerification, verified, relinked,
  latest_hash,
}
use the_underwriter.Base.{
  String, ℕ, ◌∷◌, some, [], none, true, ◌≡◌, ok, ◌++◌, ◌⊎◌, refl, false, List,
}

abbrev recorded : String → Entry
recorded action = record {
  occurred_at = 1000000;
  correlation_id = some "cyc_1";
  actor = "KERNEL";
  action = action;
  entity_type = some "policy";
  entity_id = none;
  before = null;
  after = mapping (entry "contracts" (int (pos 1)) no_entry);
}

abbrev row : ℕ → String → String → Row
row seq action prev = record {
  seq = seq;
  content = recorded action;
  prev_hash = some prev;
  record_hash = "9f86";
}

abbrev first : Row
first = row 1 "OPENED" genesis_hash

abbrev second : Row
second = row 2 "CLOSED" "9f86"

abbrev verified_run : ℕ → ChainVerification
verified_run n = record {
  valid = true;
  records_checked = n;
  first_break_seq = none;
  detail = verified;
}

one_run : verify_chain constant_platform (first ∷ []) ≡ ok (verified_run 1)
unfolding verify_chain canonicalize insert_entry
one_run = refl

append_run :
    append constant_platform 2 (recorded "CLOSED") (first ∷ []) ≡ ok (second, first ∷ second ∷ [])
unfolding append canonicalize insert_entry
append_run = refl

two_run : verify_chain constant_platform (first ∷ second ∷ []) ≡ ok (verified_run 2)
unfolding verify_chain canonicalize insert_entry
two_run = refl

-- A row that was removed is reported.
removed_run :
    verify_chain constant_platform (second ∷ [])
    ≡ ok
        (record { valid = false; records_checked = 1; first_break_seq = some 2; detail = relinked })
unfolding verify_chain canonicalize insert_entry
removed_run = refl

append-verify_chain_example :
    (first ∷ second ∷ [] ≡ (first ∷ []) ++ second ∷ [])
    × (verify_chain constant_platform (first ∷ second ∷ []) ≡ ok (verified_run 2))
append-verify_chain_example =
    append-verify_chain constant_platform 2 (recorded "CLOSED") (first ∷ []) (first ∷ second ∷ [])
      second (verified_run 1) (λ s. refl) one_run refl append_run

abbrev other : List Row
other = row 1 "REPLACED" genesis_hash ∷ second ∷ []

other_run : verify_chain constant_platform other ≡ ok (verified_run 2)
unfolding verify_chain canonicalize insert_entry
other_run = refl

verify_chain-seals_example :
    (texts constant_platform (first ∷ second ∷ []) ≡ texts constant_platform other)
    ⊎ HashCollision constant_platform (first ∷ second ∷ []) other
unfolding latest_hash
verify_chain-seals_example =
    verify_chain-seals constant_platform (first ∷ second ∷ []) other (verified_run 2)
      (verified_run 2) (λ s. refl) two_run refl other_run refl refl refl
