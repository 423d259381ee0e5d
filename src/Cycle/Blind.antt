-- ===== src/Cycle/Blind.antt =====
-- What the rules cannot see in the context that is built from the book.
use the_underwriter.Domain.Money.{dec_zero}
use the_underwriter.Base.Int.{◌+ℤ◌, pos}
use the_underwriter.Base.{
  ℕ, List, Option, ◌≡◌, map, false, ok, any, ◌∷◌, arith, [], true, refl, ◌*◌, Bool, >>=-eq-ok,
}
use the_underwriter.Domain.Decimal.{
  mul, add, eq, half_even, magnitude, scale, with_sign, is_neg, of_ℕ, lt,
}
use the_underwriter.Domain.Proposal.{UnderwritingProposal}
use the_underwriter.Cycle.Bootstrap.{
  build_kernel_context, to_open_policy, Book, PolicyRow, ConfigRow, or_zero,
}
use the_underwriter.Kernel.Context.{
  cost_from, assignment_cost, total_assignment_cost, KernelContext,
}
use the_underwriter.Kernel.Rules.{identical}

no_duplicate :
    (p : UnderwritingProposal) (moment : ℕ) (rows : List PolicyRow)
    → eq dec_zero p.short_strike ≡ false
    → any (identical p) (map (to_open_policy moment) rows) ≡ false
unfolding identical to_open_policy
no_duplicate p moment [] h = refl
no_duplicate p moment (row ∷ rows) h = ground (arith, no_duplicate p moment rows h)

zero_product : (m : ℕ) → half_even (0 * m) scale ≡ 0
unfolding half_even
zero_product m = ground arith

with_sign-zero : (b : Bool) → with_sign b 0 ≡ pos 0
with_sign-zero true = refl
with_sign-zero false = refl

free : (moment : ℕ) (row : PolicyRow) → assignment_cost (to_open_policy moment row) ≡ ok dec_zero
unfolding assignment_cost to_open_policy mul half_even
free moment row =
    let m = magnitude (with_sign (is_neg row.contracts) (magnitude row.contracts * scale)) in
    rw (
      zero_product m,
      with_sign-zero (is_neg (with_sign (is_neg row.contracts) (magnitude row.contracts * scale))),
    )

no_cost :
    (moment : ℕ) (rows : List PolicyRow)
    → cost_from dec_zero (map (to_open_policy moment) rows) ≡ ok dec_zero
unfolding cost_from add ◌+ℤ◌
no_cost moment [] = refl
no_cost moment (row ∷ rows) = rw (free moment row) (no_cost moment rows)

built_fields :
    (moment : ℕ) (book : Book) (config : Option ConfigRow) (rows : List PolicyRow)
    (c : KernelContext)
    → build_kernel_context moment book config rows ≡ ok c
    → (c.open_policies ≡ map (to_open_policy moment) rows)
      × (c.market_open ≡ true)
      × (c.data_as_of ≡ c.now)
      × (c.existing_client_order_ids ≡ [])
unfolding build_kernel_context
built_fields moment book config rows c built =
    let equity = or_zero book.equity in
    let (buying_power, _, h) = >>=-eq-ok (mul equity (of_ℕ 2)) _ built in
    let (read_ok, _, h') = >>=-eq-ok (lt dec_zero equity) _ h in (cc, cc, cc, cc)

-- In every context that is built from the book, whatever policies are open: a proposal with a short
-- strike is not found identical to any of them; the cost of their assignment counts for nothing; the
-- market is open, the data is of the same moment, and no order is known by its id.
pub build_kernel_context-blind :
    (moment : ℕ) (book : Book) (config : Option ConfigRow) (rows : List PolicyRow)
    (c : KernelContext) (p : UnderwritingProposal)
    → build_kernel_context moment book config rows ≡ ok c
    → eq dec_zero p.short_strike ≡ false
    → (any (identical p) c.open_policies ≡ false)
      × (total_assignment_cost c ≡ ok dec_zero)
      × (c.market_open ≡ true)
      × (c.data_as_of ≡ c.now)
      × (c.existing_client_order_ids ≡ [])
unfolding build_kernel_context total_assignment_cost
build_kernel_context-blind moment book config rows c p built strike =
    let (fields, market, fresh, ids) = built_fields moment book config rows c built in
    (
      rw fields (no_duplicate p moment rows strike),
      rw fields (no_cost moment rows),
      market,
      fresh,
      ids,
    )
