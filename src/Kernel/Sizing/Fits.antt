-- ===== src/Kernel/Sizing/Fits.antt =====
-- The sizing of the Kernel is sound: the contracts that a constraint permits fit in its room.
use native.Mathlib.Nat.{le_trans, mul-le-mul_right}
use the_underwriter.Domain.Money.{contract_multiplier}
use the_underwriter.Kernel.Limits.{KernelLimits}
use the_underwriter.Kernel.Context.{
  KernelContext, portfolio_max_loss, reserve_for, total_reserve, total_assignment_cost,
}
use the_underwriter.Domain.Proposal.{UnderwritingProposal}
use the_underwriter.Domain.Decimal.Laws.{half_even_floor}
use the_underwriter.Base.Int.{ℤ, pos, pos_part}
use the_underwriter.Kernel.Sizing.{floor_div, permitted, Sizing, compute_sizing}
use the_underwriter.Domain.Decimal.{div, Decimal, fin_div, le, fin, floor_int, scale, mul, sub}
use the_underwriter.Base.{ℕ, ◌<◌, ◌*◌, ◌≤◌, ◌^◌, ◌>>=◌, ◌≡◌, ok, arith}

-- Money on the grid of 10^-8, which carries the cents and the ratios of the program.
abbrev pub grid : ℕ → Decimal
grid n = fin (pos (n * 10 ^ 20))

floor_int-quotient :
    (n d : ℕ) (k : ℤ)
    → 0 < d
    → d ≤ scale
    → (div (grid n) (grid d) >>= floor_int) ≡ ok k
    → pos_part k * d ≤ n
unfolding div fin_div floor_int
floor_int-quotient n d k pos_d small h = ground (arith, half_even_floor n d (10 ^ 20) scale pos_d)

pub floor_div-fits :
    (n d : ℕ) (k : ℤ) → 0 < d → d ≤ scale → floor_div (grid n) (grid d) ≡ ok k → pos_part k * d ≤ n
unfolding floor_div le
floor_div-fits n d k pos_d small h = ground (arith, floor_int-quotient n d k pos_d small)

-- The rooms of the five constraints, and the cost of one lot, where they are money on the grid.
pub record Rooms (p : UnderwritingProposal) (c : KernelContext) (l : KernelLimits)
    (loss lot risk portfolio concentration deployed assignment : ℕ) : Type 0 where
  pub loss_eq : p.max_loss ≡ grid loss
  pub loss_pos : 0 < loss
  pub loss_small : loss ≤ scale
  pub lot_eq : mul p.short_strike contract_multiplier ≡ ok (grid lot)
  pub lot_pos : 0 < lot
  pub lot_small : lot ≤ scale
  pub risk_eq : mul c.account.nav l.max_position_loss_pct ≡ ok (grid risk)
  pub portfolio_eq :
      (mul c.account.nav l.max_portfolio_risk_pct >>= λ ceiling.
      portfolio_max_loss c >>= λ exposed. sub ceiling exposed)
      ≡ ok (grid portfolio)
  pub concentration_eq :
      (mul c.account.nav l.max_deployed_pct >>= λ deployable.
      mul deployable l.max_underlying_concentration >>= λ ceiling.
      reserve_for p.underlying c >>= λ held. sub ceiling held)
      ≡ ok (grid concentration)
  pub deployed_eq :
      (mul c.account.nav l.max_deployed_pct >>= λ deployable.
      total_reserve c >>= λ held. sub deployable held)
      ≡ ok (grid deployed)
  pub assignment_eq :
      (total_assignment_cost c >>= λ committed. sub c.account.buying_power committed)
      ≡ ok (grid assignment)

-- A number of contracts fits in every room, each contract at its full loss.
pub record FitsIn (k loss lot risk portfolio concentration deployed assignment : ℕ) : Type 0 where
  pub in_risk : k * loss ≤ risk
  pub in_portfolio : k * loss ≤ portfolio
  pub in_concentration : k * loss ≤ concentration
  pub in_deployed : k * loss ≤ deployed
  pub in_assignment : k * lot ≤ assignment

permitted-le :
    (s : Sizing)
    → (pos_part (permitted s) ≤ pos_part s.by_position_risk)
      × (pos_part (permitted s) ≤ pos_part s.by_portfolio_room)
      × (pos_part (permitted s) ≤ pos_part s.by_concentration)
      × (pos_part (permitted s) ≤ pos_part s.by_deployed_capital)
      × (pos_part (permitted s) ≤ pos_part s.by_assignment_cost)
unfolding permitted
permitted-le s = ground arith

module _ (p : UnderwritingProposal) (c : KernelContext) (l : KernelLimits)
    (loss lot risk portfolio concentration deployed assignment : ℕ)
    (r : Rooms p c l loss lot risk portfolio concentration deployed assignment) (s : Sizing)
    (sized : compute_sizing p c l ≡ ok s) where
  by_risk : floor_div (grid risk) (grid loss) ≡ ok s.by_position_risk
  unfolding compute_sizing
  by_risk = ground (arith, r.risk_eq, r.loss_eq)

  by_portfolio : floor_div (grid portfolio) (grid loss) ≡ ok s.by_portfolio_room
  unfolding compute_sizing
  by_portfolio = ground (arith, r.portfolio_eq, r.loss_eq)

  by_share : floor_div (grid concentration) (grid loss) ≡ ok s.by_concentration
  unfolding compute_sizing
  by_share = ground (arith, r.concentration_eq, r.loss_eq)

  by_capital : floor_div (grid deployed) (grid loss) ≡ ok s.by_deployed_capital
  unfolding compute_sizing
  by_capital = ground (arith, r.deployed_eq, r.loss_eq)

  by_delivery : floor_div (grid assignment) (grid lot) ≡ ok s.by_assignment_cost
  unfolding compute_sizing
  by_delivery = ground (arith, r.assignment_eq, r.lot_eq)

  below : (k n d : ℕ) (b : ℤ) → k ≤ pos_part b → pos_part b * d ≤ n → k * d ≤ n
  below k n d b h fits = le_trans (mul-le-mul_right d h) fits

  pub permitted-FitsIn :
      (k : ℕ)
      → k ≤ pos_part (permitted s)
      → FitsIn k loss lot risk portfolio concentration deployed assignment
  permitted-FitsIn k h =
      let (h₁, h₂, h₃, h₄, h₅) = permitted-le s in
      record {
        in_risk =
            below k risk loss s.by_position_risk (le_trans h h₁)
              (floor_div-fits risk loss s.by_position_risk r.loss_pos r.loss_small by_risk);
        in_portfolio = below k portfolio loss s.by_portfolio_room (le_trans h h₂) (
            floor_div-fits portfolio loss s.by_portfolio_room r.loss_pos r.loss_small by_portfolio);
        in_concentration =
            below k concentration loss s.by_concentration (le_trans h h₃) (
              floor_div-fits concentration loss s.by_concentration r.loss_pos r.loss_small
                by_share);
        in_deployed =
            below k deployed loss s.by_deployed_capital (le_trans h h₄) (
              floor_div-fits deployed loss s.by_deployed_capital r.loss_pos r.loss_small
                by_capital);
        in_assignment =
            below k assignment lot s.by_assignment_cost (le_trans h h₅) (
              floor_div-fits assignment lot s.by_assignment_cost r.lot_pos r.lot_small by_delivery);
      }
