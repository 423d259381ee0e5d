-- ===== src/Kernel/Rules/Quality.antt =====
-- Data quality, timing and provenance.
use the_underwriter.Base.{Bool, false, not, ◌||◌, if◌then◌else◌, contains, Result, ok, ◌>>=◌}
use the_underwriter.Base.Int.{ltb_ℤ, leb_ℤ}
use the_underwriter.Domain.Decimal.{le, of_ℤ}
use the_underwriter.Domain.Proposal.{UnderwritingProposal, is_close}
use the_underwriter.Kernel.Context.{KernelContext, data_age_sec}
use the_underwriter.Kernel.Limits.{KernelLimits}
use the_underwriter.Kernel.Verdict.{RuleResult, hard}
use the_underwriter.Kernel.Rules.Base.{result, exempt}

unfoldable pub sk011_min_dte :
    UnderwritingProposal → KernelContext → KernelLimits → Result RuleResult
sk011_min_dte p c l =
    if is_close p.action
    then ok (exempt "SK-011" "min_dte_at_entry")
    else ok
        (result "SK-011" "min_dte_at_entry" (leb_ℤ l.min_dte_at_entry p.dte) hard "DTE_TOO_SHORT")

unfoldable pub sk014_liquidity :
    UnderwritingProposal → KernelContext → KernelLimits → Result RuleResult
sk014_liquidity p c l = if is_close p.action then ok (exempt "SK-014" "min_liquidity") else do
  enough ← le l.min_liquidity_score p.liquidity_score
  ok (result "SK-014" "min_liquidity" enough hard "ILLIQUID")

unfoldable pub sk015_leg_spread :
    UnderwritingProposal → KernelContext → KernelLimits → Result RuleResult
sk015_leg_spread p c l = if is_close p.action then ok (exempt "SK-015" "max_leg_spread") else do
  within ← le p.max_leg_spread_pct l.max_bid_ask_pct
  ok (result "SK-015" "max_leg_spread" within hard "WIDE_SPREAD")

unfoldable pub sk016_edge : UnderwritingProposal → KernelContext → KernelLimits → Result RuleResult
sk016_edge p c l = if is_close p.action then ok (exempt "SK-016" "min_edge_ratio") else do
  enough ← le l.min_edge_ratio p.edge_ratio
  ok (result "SK-016" "min_edge_ratio" enough hard "INSUFFICIENT_EDGE")

-- `inside_blackout`
abbrev pub in_blackout : KernelContext → KernelLimits → Bool
in_blackout c l =
    ltb_ℤ c.minutes_since_open l.blackout_open_min || ltb_ℤ c.minutes_to_close l.blackout_close_min

unfoldable pub sk017_market_hours :
    UnderwritingProposal → KernelContext → KernelLimits → Result RuleResult
sk017_market_hours p c l =
    if not c.market_open
    then ok (result "SK-017" "market_hours" false hard "MARKET_CLOSED")
    else if is_close p.action
    then ok (exempt "SK-017" "market_hours")
    else ok (result "SK-017" "market_hours" (not (in_blackout c l)) hard "MARKET_CLOSED")

unfoldable pub sk018_data_freshness :
    UnderwritingProposal → KernelContext → KernelLimits → Result RuleResult
sk018_data_freshness p c l = do
  fresh ← le (data_age_sec c) (of_ℤ l.max_data_age_sec)
  ok (result "SK-018" "data_freshness" fresh hard "STALE_DATA")

unfoldable pub sk019_greeks_complete :
    UnderwritingProposal → KernelContext → KernelLimits → Result RuleResult
sk019_greeks_complete p c l =
    ok (result "SK-019" "greeks_complete" p.greeks_complete hard "MISSING_GREEKS")

unfoldable pub sk024_llm_output_integrity :
    UnderwritingProposal → KernelContext → KernelLimits → Result RuleResult
sk024_llm_output_integrity p c l =
    let known = contains p.candidate_id c.supplied_candidate_ids in
    ok (result "SK-024" "llm_output_integrity" known hard "LLM_OUTPUT_INVALID")

unfoldable pub sk025_account_readable :
    UnderwritingProposal → KernelContext → KernelLimits → Result RuleResult
sk025_account_readable p c l =
    ok (result "SK-025" "account_readable" c.account.read_ok hard "ACCOUNT_UNAVAILABLE")
