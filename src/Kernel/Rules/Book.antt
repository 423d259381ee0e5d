-- ===== src/Kernel/Rules/Book.antt =====
-- The shape of the book: the number of policies, concentration, assignment, breaches, duplicates.
use the_underwriter.Base.{
  ◌+◌, Bool, not, ◌&&◌, ◌||◌, if◌then◌else◌, ◌==◌, str_eq, contains, any, length, Result, ok, ◌>>=◌,
}
use the_underwriter.Base.Int.{pos, leb_ℤ}
use the_underwriter.Domain.Decimal.{add, mul, le, eq}
use the_underwriter.Domain.Money.{contract_multiplier}
use the_underwriter.Domain.Hashing.{Platform}
use the_underwriter.Domain.Proposal.{UnderwritingProposal, is_close, structure_eq, proposal_hash}
use the_underwriter.Kernel.Context.{KernelContext, OpenPolicy, reserve_for, total_assignment_cost}
use the_underwriter.Kernel.Limits.{KernelLimits}
use the_underwriter.Kernel.Verdict.{RuleResult, hard}
use the_underwriter.Kernel.Rules.Base.{result, exempt, client_order_id_for}

unfoldable pub sk005_max_positions :
    UnderwritingProposal → KernelContext → KernelLimits → Result RuleResult
sk005_max_positions p c l =
    let after = length c.open_policies + (if is_close p.action then 0 else 1) in
    ok (
      result "SK-005" "max_open_policies" (leb_ℤ (pos after) l.max_open_policies) hard
        "MAX_POSITIONS")

unfoldable pub sk006_concentration :
    UnderwritingProposal → KernelContext → KernelLimits → Result RuleResult
sk006_concentration p c l =
    if is_close p.action then ok (exempt "SK-006" "underlying_concentration") else do
      base ← mul c.account.nav l.max_deployed_pct
      ceiling ← mul base l.max_underlying_concentration
      held ← reserve_for p.underlying c
      after ← add held p.capital_reserve
      within ← le after ceiling
      ok (result "SK-006" "underlying_concentration" within hard "CONCENTRATION")

unfoldable pub sk012_assignment_cost :
    UnderwritingProposal → KernelContext → KernelLimits → Result RuleResult
sk012_assignment_cost p c l =
    if is_close p.action then ok (exempt "SK-012" "assignment_cost") else do
      this_cost ← mul p.short_strike contract_multiplier
      others ← total_assignment_cost c
      total ← add others this_cost
      within ← le total c.account.buying_power
      ok (result "SK-012" "assignment_cost" within hard "ASSIGNMENT_COST")

unfoldable pub sk013_breach_active :
    UnderwritingProposal → KernelContext → KernelLimits → Result RuleResult
sk013_breach_active p c l =
    if is_close p.action
    then ok (exempt "SK-013" "short_strike_breach")
    else (let breached = contains p.underlying c.breached_underlyings in
        ok (result "SK-013" "short_strike_breach" (not breached) hard "BREACH_ACTIVE"))

-- The condition of `identical` at one open policy.
unfoldable pub identical : UnderwritingProposal → OpenPolicy → Bool
unfolding eq
identical p q =
    str_eq q.underlying p.underlying
    && structure_eq q.structure p.structure
    && eq q.short_strike p.short_strike
    && eq q.long_strike p.long_strike
    && q.expiry == p.expiry

unfoldable pub sk021_duplicate :
    Platform → UnderwritingProposal → KernelContext → KernelLimits → Result RuleResult
sk021_duplicate lib p c l = do
  let same = any (identical p) c.open_policies
  hash ← proposal_hash lib p
  let collision = contains (client_order_id_for hash) c.existing_client_order_ids
  ok (result "SK-021" "duplicate_prevention" (not (same || collision)) hard "DUPLICATE")
