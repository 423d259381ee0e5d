-- ===== src/Book/Tests.antt =====
-- Runs of the book on concrete values.
use the_underwriter.Domain.Hashing.{canonical_json, canonicalize}
use the_underwriter.Audit.Ledger.{append, record_payload, verify_chain, latest_hash}
use the_underwriter.Book.Reserves.{ReserveInvariant, check_reserve_invariant}
use the_underwriter.Kernel.Scenario.{constant_platform, proposal}
use the_underwriter.Domain.Proposal.{opening}
use the_underwriter.Domain.Decimal.{of_ℕ, mul, of_ℤ, half_even}
use the_underwriter.Book.Session.{Session, Draws, Formats, append_entry}
use the_underwriter.Book.Policies.{PolicyTerms, Settlement, policy, settle, next_policy_number}
use the_underwriter.Book.Rows.{PolicyStatus, open_status, leg_risk}
use the_underwriter.Book.History.{
  Reach-balanced, leg_risk-unbalanced, IsSound, here, next, writes, settles, Reach,
}
use the_underwriter.Audit.Chain.{IsDigest, IsChain, valid_run}
use the_underwriter.Base.{[], none, refl, ◌≡◌, Result, ok, length, true, false, ◌+◌, arith, ap}
use the_underwriter.Base.Int.{pos, pos_part}

abbrev formats : Formats
formats = record { policy_number = λ _. "UW-2026-0001"; discard_hash = λ _ _. "discard:c1:0" }

abbrev draws : Draws
draws = record { id = "p1"; seq = 1; now = 2000000; year = 2026 }

abbrev later : Draws
later = record { id = "p2"; seq = 2; now = 3000000; year = 2026 }

abbrev empty_session : Session
empty_session = record {
  policies = [];
  legs = [];
  reserves = [];
  orders = [];
  risk_events = [];
  kernel_decisions = [];
  risk_checks = [];
  snapshots = [];
  candidates = [];
  decisions = [];
  audit = [];
}

abbrev terms : PolicyStatus → PolicyTerms
terms status = record {
  contracts = pos 2;
  candidate_row_id = none;
  verdict_row_id = "v1";
  confidence = none;
  status = status;
}

abbrev settlement : Settlement
settlement = record { closing_debit = of_ℕ 0; realized = of_ℕ 200; reason = "PROFIT_TARGET" }

digests : IsDigest constant_platform
digests _ = refl

sound : IsSound constant_platform empty_session
sound = record { matched = tt; whole = IsChain.empty _ }

-- The session that a call leaves, the empty one where it raises.
abbrev left : Result Session → Session
left (ok s) = s
left (Result.err _) = empty_session

abbrev written : PolicyStatus → Session
unfolding policy
written status =
    left
      (policy constant_platform formats draws "c1" (proposal opening) (terms status) empty_session)

abbrev done : Session
unfolding settle
done = left (settle constant_platform later "c1" "p1" settlement (written open_status))

written_run : Reach constant_platform formats empty_session (written open_status)
unfolding policy next_policy_number append_entry append record_payload canonical_json canonicalize
    latest_hash mul of_ℤ
written_run = next here (writes draws "c1" (proposal opening) (terms open_status) _ refl refl refl)

run : Reach constant_platform formats empty_session done
unfolding settle written mul of_ℤ append
run = next written_run (settles later "c1" "p1" settlement refl)

Reach-balanced_example :
    ((inv : ReserveInvariant) × (check_reserve_invariant done ≡ ok inv) × (inv.holds ≡ true))
    × (verify_chain constant_platform done.audit ≡ ok (valid_run (0 + length done.audit)))
Reach-balanced_example =
    Reach-balanced constant_platform formats empty_session done digests sound run

leg_risk-unbalanced_example :
    (inv : ReserveInvariant) × (check_reserve_invariant (written leg_risk) ≡ ok inv)
    × (inv.holds ≡ false)
unfolding mul of_ℤ policy append half_even
leg_risk-unbalanced_example =
    leg_risk-unbalanced constant_platform formats draws "c1" (proposal opening) (terms leg_risk)
      empty_session (written leg_risk) _ digests tt refl refl (λ h. omega (arith, ap pos_part h))
      refl

-- Two records are in the ledger of that run, and its policy is settled.
two_entries : length done.audit ≡ 2
unfolding done written mul of_ℤ append
two_entries = refl
