-- ===== src/Claims/Precedence.antt =====
-- The precedence of the exits, on a position whose levels are finite.
use the_underwriter.Domain.Decimal.{le, lt, fin}
use the_underwriter.Base.Int.{ℤ, ◌≤ℤ◌, leb_ℤ, ◌<ℤ◌}
use the_underwriter.Base.{ℕ, Bool, ◌≡◌, some, ok, Bool-cases, inl, false, arith, inr, true}
use the_underwriter.Claims.Desk.{
  ManagedPosition, evaluate, ClaimsPolicy, evaluate_priced, forced_debit, ClaimsVerdict, days_left,
  stop_level, close_for, target_level, force_flat, is_breached, stop_loss, profit_target, breach,
  hold_for,
}

-- The figures that an exit depends on.
pub record Figures (p : ManagedPosition) (policy : ClaimsPolicy) (cost stop target : ℤ)
    (breached : Bool) : Type 0 where
  pub cost_eq : p.cost_to_close ≡ some (fin cost)
  pub stop_eq : stop_level p policy ≡ ok (fin stop)
  pub target_eq : target_level p policy ≡ ok (fin target)
  pub breached_eq : is_breached p ≡ ok breached

-- What is to be decided, as conditions that exclude each other.
pub data Decides (p : ManagedPosition) (as_of : ℕ) (policy : ClaimsPolicy) (cost stop target : ℤ)
    (breached : Bool) : ClaimsVerdict → Type 0 where
  flat :
      days_left p as_of ≤ℤ policy.force_flat_dte
      → Decides p as_of policy cost stop target breached (close_for p force_flat (fin cost) false)
  stopped :
      policy.force_flat_dte <ℤ days_left p as_of
      → stop ≤ℤ cost
      → Decides p as_of policy cost stop target breached (close_for p stop_loss (fin cost) false)
  through :
      policy.force_flat_dte <ℤ days_left p as_of
      → cost <ℤ stop
      → target <ℤ cost
      → breached ≡ true
      → Decides p as_of policy cost stop target breached (close_for p breach (fin cost) true)
  captured :
      policy.force_flat_dte <ℤ days_left p as_of
      → cost <ℤ stop
      → cost ≤ℤ target
      → Decides p as_of policy cost stop target breached
          (close_for p profit_target (fin cost) false)
  held :
      policy.force_flat_dte <ℤ days_left p as_of
      → cost <ℤ stop
      → target <ℤ cost
      → breached ≡ false
      → Decides p as_of policy cost stop target breached (hold_for p false)

-- On a position whose cost and levels are finite, the desk decides, and as the precedence says: flat
-- near the expiry, then the stop, then the profit target, then the breach; and it holds only between
-- the target and the stop, outside the last days, with no breach.
pub evaluate-Decides :
    (p : ManagedPosition) (as_of : ℕ) (policy : ClaimsPolicy) (cost stop target : ℤ)
    (breached : Bool)
    → Figures p policy cost stop target breached
    → (v : ClaimsVerdict) × (evaluate p as_of policy ≡ ok v)
      × Decides p as_of policy cost stop target breached v
unfolding evaluate evaluate_priced forced_debit le lt
evaluate-Decides p as_of policy cost stop target breached f =
    elim (Bool-cases (leb_ℤ (days_left p as_of) policy.force_flat_dte)) [
      | inl near ↦
          (close_for p force_flat (fin cost) false, ground (arith, f.cost_eq), flat (ground arith))
      | inr far ↦ elim (Bool-cases (leb_ℤ stop cost)) [
        | inl over ↦ (
          close_for p stop_loss (fin cost) false,
          ground (arith, f.cost_eq, f.stop_eq, f.target_eq),
          stopped (ground arith) (ground arith),
        )
        | inr under ↦ elim (Bool-cases (leb_ℤ cost target)) [
          | inl reached ↦ (
            close_for p profit_target (fin cost) false,
            ground (arith, f.cost_eq, f.stop_eq, f.target_eq, f.breached_eq),
            captured (ground arith) (ground arith) (ground arith),
          )
          | inr above ↦ elim (Bool-cases breached) [
            | inl fell ↦ (
              close_for p breach (fin cost) true,
              ground (arith, f.cost_eq, f.stop_eq, f.target_eq, f.breached_eq),
              through (ground arith) (ground arith) (ground arith) fell,
            )
            | inr safe ↦ (
              hold_for p false,
              ground (arith, f.cost_eq, f.stop_eq, f.target_eq, f.breached_eq),
              held (ground arith) (ground arith) (ground arith) safe,
            )
          ]
        ]
      ]
    ]
