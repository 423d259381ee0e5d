-- ===== src/Book/Reserves.antt =====
-- `check_reserve_invariant` of db/invariants.py. The text `detail` is left out.
use the_underwriter.Domain.Money.{dec_zero}
use the_underwriter.Book.Rows.{Reserve, Policy, is_held, is_open}
use the_underwriter.Domain.Decimal.{Decimal, sum, sub, eq}
use the_underwriter.Book.Session.{Session}
use the_underwriter.Base.{
  ◌>>=◌, Bool, List, Option, Result, map, ◌∷◌, select, some, [], ok, none, if◌then◌else◌,
}

pub record ReserveInvariant : Type 0 where
  pub holds : Bool
  pub held_reserves : Decimal
  pub exposed_max_loss : Decimal
  pub difference : Decimal

-- The amounts of the reserves that are held.
abbrev pub held_amounts : List Reserve → List Decimal
held_amounts rs = map (λ r. r.amount) (select (λ r. is_held r.status) rs)

-- The values that are there.
abbrev pub present : List (Option Decimal) → List Decimal
present [] = []
present (none ∷ ds) = present ds
present (some d ∷ ds) = d ∷ present ds

-- The losses of the policies that are open or closing.
abbrev pub exposed_losses : List Policy → List Decimal
exposed_losses ps = present (map (λ p. p.max_loss) (select (λ p. is_open p.status) ps))

-- The report on two totals.
abbrev pub balance : Decimal → Decimal → Decimal → ReserveInvariant
balance held_total exposed_total difference = record {
  holds = eq difference dec_zero;
  held_reserves = held_total;
  exposed_max_loss = exposed_total;
  difference = if eq difference dec_zero then dec_zero else difference;
}

unfoldable pub check_reserve_invariant : Session → Result ReserveInvariant
check_reserve_invariant s = do
  held_total ← sum (held_amounts s.reserves)
  exposed_total ← sum (exposed_losses s.policies)
  difference ← sub held_total exposed_total
  ok (balance held_total exposed_total difference)
