-- ===== src/Kernel/Evaluate/Size.antt =====
-- The size that is approved: no more than was asked, no more than is permitted, and, for an entry,
-- no more than fits in the capital.
use the_underwriter.Domain.Money.{dec_one}
use the_underwriter.Kernel.Rules.{table}
use the_underwriter.Kernel.Evaluate.Inversion.{evaluate_with-Adjudicated}
use the_underwriter.Kernel.Evaluate.Approval.{evaluate-ran, approve_of, evaluate_with-approve}
use the_underwriter.Kernel.Sizing.Fits.{Rooms, FitsIn, permitted-FitsIn}
use the_underwriter.Kernel.Context.{KernelContext}
use the_underwriter.Domain.Proposal.{UnderwritingProposal, is_close}
use the_underwriter.Domain.Hashing.{Platform}
use the_underwriter.Kernel.Sizing.{permitted, Sizing, compute_sizing}
use native.Mathlib.Nat.{le_trans, mul-le-mul_left, div-le_of_le-mul}
use the_underwriter.Domain.Decimal.Laws.{half_even-le}
use the_underwriter.Kernel.Verdict.{RuleResult, is_soft_failure, Tokens, approved, approve}
use the_underwriter.Base.Int.{ℤ, pos, ◌≤ℤ◌, min_ℤ, max_ℤ, pos_part, negsuc}
use the_underwriter.Kernel.Evaluate.{
  soften, reduced_size, permitted_for, evaluate, guarded, decide, hard_failures, findings,
}
use the_underwriter.Base.{
  false, ℕ, ◌≡◌, ◌≤◌, List, ok, ok-injective, ◌*◌, ◌∷◌, arith, [], >>=-eq-ok, Bool, if◌then◌else◌,
  sym, ◌∙◌, min, ◌/◌, true, String, map, refl,
}
use the_underwriter.Domain.Decimal.{Decimal, fin, scale, half_even, mul, of_ℤ, floor_int}
use the_underwriter.Kernel.Limits.{KernelLimits}

-- The reductions are fractions of one.
pub record IsReducing (l : KernelLimits) : Type 0 where
  pub soft : ℕ
  pub soft_eq : l.soft_factor ≡ fin (pos soft)
  pub soft_le : soft ≤ scale
  pub calibration : ℕ
  pub calibration_eq : l.calibration_multiplier ≡ fin (pos calibration)
  pub calibration_le : calibration ≤ scale

-- A multiplier between 0 and 1.
abbrev IsFraction : Decimal → Type 0
IsFraction d = (a : ℕ) × (d ≡ fin (pos a)) × (a ≤ scale)

mul_fraction : (a b : ℕ) → b ≤ scale → half_even (a * b) scale ≤ a
mul_fraction a b h = half_even-le (a * b) a scale (omega arith) (mul-le-mul_left a h)

soften_step :
    (l : KernelLimits) (q : IsReducing l) (b : Bool) (d m : Decimal)
    → IsFraction d
    → (if b then mul d l.soft_factor else ok d) ≡ ok m
    → IsFraction m
unfolding mul
soften_step l q true d m (a, e, small) h = (
  half_even (a * q.soft) scale,
  sym (ok-injective (rw (e, q.soft_eq) at h)),
  le_trans (mul_fraction a q.soft q.soft_le) small,
)
soften_step l q false d m (a, e, small) h = (a, sym (ok-injective h) ∙ e, small)

soften-IsFraction :
    (l : KernelLimits)
    → IsReducing l
    → (d : Decimal) (rs : List RuleResult) (m : Decimal) → IsFraction d
    → soften l d rs ≡ ok m
    → IsFraction m
unfolding soften
soften-IsFraction l q d [] m f h = rw (← ok-injective h) f
soften-IsFraction l q d (r ∷ rs) m f h =
    let (d', e, h') =
      >>=-eq-ok (if is_soft_failure r then mul d l.soft_factor else ok d) (λ x. soften l x rs) h in
    soften-IsFraction l q d' rs m (soften_step l q (is_soft_failure r) d d' f e) h'

-- What is asked and permitted, as a natural number.
base_size :
    (requested : ℤ) (allowed : ℕ)
    → (n : ℕ) × (min_ℤ (max_ℤ requested (pos 0)) (pos allowed) ≡ pos n)
      × (n ≤ allowed)
      × (n ≤ pos_part requested)
base_size (pos r) allowed = (min r allowed, ground arith, ground arith, ground arith)
base_size (negsuc r) allowed = (0, ground arith, ground arith, ground arith)

-- With fractions for the reductions, the whole contracts that are left do not pass what was there.
reduced_size-le :
    (l : KernelLimits)
    → IsReducing l
    → (requested : ℤ) (allowed : ℕ) (m : Decimal) (size : ℤ) → IsFraction m
    → reduced_size l requested (pos allowed) m ≡ ok size
    → (n : ℕ) × (size ≡ pos n) × (n ≤ allowed) × (n ≤ pos_part requested)
unfolding reduced_size mul of_ℤ floor_int
reduced_size-le l q requested allowed m size (a, e, small) h =
    let (n, base, in_allowed, in_requested) = base_size requested allowed in
    let first = half_even (n * scale * a) scale in
    let second = half_even (first * q.calibration) scale in
    let whole : second / scale ≤ n = div-le_of_le-mul scale (
      omega (
        arith,
        mul_fraction first q.calibration q.calibration_le,
        mul_fraction (n * scale) a small,
      )) in
    (
      second / scale,
      sym (ok-injective (rw (e, q.calibration_eq, base) at h)),
      le_trans whole in_allowed,
      le_trans whole in_requested,
    )

permitted_nonneg : (s : Sizing) → permitted s ≡ pos (pos_part (permitted s))
unfolding permitted
permitted_nonneg s = ground arith

permitted_for-open :
    (p : UnderwritingProposal) (requested : ℤ) (c : KernelContext) (l : KernelLimits) (allowed : ℤ)
    → is_close p.action ≡ false
    → permitted_for p requested c l ≡ ok allowed
    → (s : Sizing) × (compute_sizing p c l ≡ ok s) × (permitted s ≡ allowed)
unfolding permitted_for
permitted_for-open p requested c l allowed entry h =
    let (s, sized, e) = >>=-eq-ok (compute_sizing p c l) (λ s. ok (permitted s)) (rw entry at h) in
    (s, sized, ok-injective e)

within : (requested : ℤ) (n : ℕ) → pos 1 ≤ℤ pos n → n ≤ pos_part requested → pos n ≤ℤ requested
within (pos r) n h k = ground arith
within (negsuc r) n h k = ground arith

-- Where the soft factor and the calibration multiplier of the limits are between 0 and 1 (`IsReducing`),
-- and where the loss, the cost of a lot and the rooms are natural numbers on the grid of 10^-8, the loss
-- and the lot above zero and at most 10^28 of its units (`Rooms`): an approved entry is for one contract
-- at least and for no more than was asked. And so many contracts fit in each of the five rooms of the
-- sizing: at the full loss in those of the position, the portfolio, the concentration and the deployed
-- capital, and at the cost of a lot in the buying power that is not committed.
pub approved-FitsIn :
    (lib : Platform) (tokens : Tokens) (p : UnderwritingProposal) (requested : ℤ)
    (c : KernelContext) (secret : String) (l : KernelLimits)
    (loss lot risk portfolio concentration deployed assignment : ℕ)
    → approved (evaluate lib tokens p requested c secret l) ≡ true
    → is_close p.action ≡ false
    → IsReducing l
    → Rooms p c l loss lot risk portfolio concentration deployed assignment
    → let n = (evaluate lib tokens p requested c secret l).approved_contracts in
      (pos 1 ≤ℤ n)
      × (n ≤ℤ requested)
      × FitsIn (pos_part n) loss lot risk portfolio concentration deployed assignment
approved-FitsIn lib tokens p requested c secret l loss lot risk portfolio concentration deployed
      assignment yes_given entry q rooms =
    let v = evaluate lib tokens p requested c secret l in
    let ran = evaluate-ran lib tokens p requested c secret l yes_given in
    let a = evaluate_with-Adjudicated (table lib) lib tokens p requested c secret l v ran in
    let approves = approve_of v.verdict yes_given in
    let (_, big) =
      evaluate_with-approve (table lib) lib tokens p requested c secret l v ran approves in
    let (s, sized, same) = permitted_for-open p requested c l a.allowed entry a.allows in
    let m =
      soften-IsFraction l q dec_one (map (guarded p c l) (table lib)) a.multiplier
        (scale, refl, omega arith) a.softened in
    let (n, e, in_allowed, in_requested) =
      reduced_size-le l q requested (pos_part (permitted s)) a.multiplier a.size m
        (rw (← permitted_nonneg s, same) a.sizes) in
    let approves' : decide (hard_failures (findings (table lib) p c l a.size)) ≡ approve =
      sym a.minted.decision_eq ∙ approves in
    let granted_eq : v.approved_contracts ≡ pos n = a.minted.contracts_eq ∙ rw approves' e in
    let at_least : pos 1 ≤ℤ pos n = rw granted_eq at big in
    rw granted_eq (
      at_least,
      within requested n at_least in_requested,
      permitted-FitsIn p c l loss lot risk portfolio concentration deployed assignment rooms s sized
          n in_allowed,
    )
