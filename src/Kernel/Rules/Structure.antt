-- ===== src/Kernel/Rules/Structure.antt =====
-- SK-004: every short leg is covered, and the loss is finite and positive.
use the_underwriter.Base.{
  ℕ, suc, Bool, true, false, not, ◌&&◌, if◌then◌else◌, leb, ltb, List, [], ◌∷◌, select, length,
  Result, ok, ◌>>=◌,
}
use the_underwriter.Domain.Decimal.{Decimal, lt, is_finite}
use the_underwriter.Domain.Money.{dec_zero}
use the_underwriter.Domain.Market.{put, right_eq, is_sell}
use the_underwriter.Domain.Proposal.{UnderwritingProposal, SpreadLeg}
use the_underwriter.Kernel.Context.{KernelContext}
use the_underwriter.Kernel.Limits.{KernelLimits}
use the_underwriter.Kernel.Verdict.{RuleResult, hard}
use the_underwriter.Kernel.Rules.Base.{result}

-- The condition of the comprehension `cover`, read from the left: the strikes are compared last.
unfoldable pub covers : SpreadLeg → SpreadLeg → Result Bool
unfolding lt
covers short long =
    if right_eq long.right short.right && leb short.expiry long.expiry
    then (if right_eq short.right put then lt long.strike short.strike else ok true)
    else ok false

-- `cover`, as its length: every long leg is tested.
unfoldable pub count_cover : SpreadLeg → List SpreadLeg → Result ℕ
unfolding covers
count_cover short [] = ok 0
count_cover short (long ∷ longs) = do
  here ← covers short long
  rest ← count_cover short longs
  ok (if here then suc rest else rest)

-- The loop over the short legs, which ends at the first that has no cover.
unfoldable pub all_covered : List SpreadLeg → List SpreadLeg → Result Bool
unfolding count_cover
all_covered [] longs = ok true
all_covered (short ∷ shorts) longs = do
  cover ← count_cover short longs
  let rest = all_covered shorts longs
  if ltb 0 cover then rest else ok false

abbrev pub short_legs : UnderwritingProposal → List SpreadLeg
short_legs p = select (λ leg. is_sell leg.side) p.legs

abbrev pub long_legs : UnderwritingProposal → List SpreadLeg
long_legs p = select (λ leg. not (is_sell leg.side)) p.legs

-- `max_loss.is_finite() and max_loss > ZERO`
unfoldable pub finite_loss : Decimal → Result Bool
unfolding lt
finite_loss d = if is_finite d then lt dec_zero d else ok false

unfoldable pub sk004_defined_risk :
    UnderwritingProposal → KernelContext → KernelLimits → Result RuleResult
sk004_defined_risk p c l = do
  covered ← all_covered (short_legs p) (long_legs p)
  finite ← finite_loss p.max_loss
  let passed = covered && finite && ltb 0 (length (short_legs p))
  ok (result "SK-004" "defined_risk_only" passed hard "UNDEFINED_RISK")
