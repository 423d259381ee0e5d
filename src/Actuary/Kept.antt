-- ===== src/Actuary/Kept.antt =====
-- What a quote says that was kept.
use the_underwriter.Base.Int.{leb_ℤ}
use the_underwriter.Domain.Decimal.{Decimal, lt, is_finite}
use the_underwriter.Actuary.Engine.{sift, validated, kept, Sifted, outside, skipped, thrown, is_put}
use the_underwriter.Domain.Market.{ContractQuote, spread_pct, dte}
use the_underwriter.Actuary.Validation.{
  spread_check, validate_quote, Discard, discard, wide_spread, dead_quote,
}
use the_underwriter.Actuary.Thresholds.{ActuaryThresholds}
use the_underwriter.Base.{
  Result, Bool, ℕ, Option, ◌≡◌, ok, ◌>>=◌, if◌then◌else◌, List, true, some, none, String, false,
  err, not, refl, ◌||◌, Error, ◌≢◌, invalid_operation, ◌&&◌, division_by_zero, and_left,
  value_error, overflow_error, type_error, money_error, order_construction_error,
  unauthorized_execution,
}

-- A quote that was kept.
pub record Usable (t : ActuaryThresholds) (today : ℕ) (q : ContractQuote) : Type 0 where
  pub pct : Decimal
  pub pct_eq : spread_pct q ≡ ok pct
  pub narrow : lt t.max_bid_ask_pct pct ≡ ok false
  pub long_enough : leb_ℤ t.dte_min (dte q today) ≡ true

-- A test that ends in a discard, and what follows where it does not.
test-passed {ℓ} :
    {A : Type ℓ} (r : Result Bool) (bad : A) (rest : Result (Option A))
    → (r >>= λ b. if b then ok (some bad) else rest) ≡ ok none
    → (r ≡ ok false) × (rest ≡ ok none)
test-passed (err e) bad rest h = cc
test-passed (ok true) bad rest h = absurd (cc)
test-passed (ok false) bad rest h = (refl, h)

spread_check-raised :
    (q : ContractQuote) (t : ActuaryThresholds) (e : Error) → spread_check q t (err e) ≢ ok none
unfolding spread_check
spread_check-raised q t invalid_operation h = cc
spread_check-raised q t division_by_zero h = cc
spread_check-raised q t value_error h = cc
spread_check-raised q t overflow_error h = cc
spread_check-raised q t type_error h = cc
spread_check-raised q t money_error h = cc
spread_check-raised q t order_construction_error h = cc
spread_check-raised q t unauthorized_execution h = cc

spread_check-narrow :
    (q : ContractQuote) (t : ActuaryThresholds) (r : Result Decimal)
    → spread_check q t r ≡ ok none
    → (pct : Decimal) × (r ≡ ok pct) × (lt t.max_bid_ask_pct pct ≡ ok false)
unfolding spread_check
spread_check-narrow q t (ok pct) h =
    (pct, refl, (test-passed (lt t.max_bid_ask_pct pct) (discard q.symbol wide_spread) _ h).0)
spread_check-narrow q t (err e) h = absurd (spread_check-raised q t e h)

if-none {ℓ} :
    {A : Type ℓ} (b : Bool) (bad : A) (rest : Result (Option A))
    → (if b then ok (some bad) else rest) ≡ ok none
    → rest ≡ ok none
if-none true bad rest h = absurd (cc)
if-none false bad rest h = h

validate_quote-narrow :
    (q : ContractQuote) (t : ActuaryThresholds)
    → validate_quote q t ≡ ok none
    → (pct : Decimal) × (spread_pct q ≡ ok pct) × (lt t.max_bid_ask_pct pct ≡ ok false)
unfolding validate_quote
validate_quote-narrow q t h =
    let live = if-none (not q.tradable) _ _ h in
    let sided = if-none (not (is_finite q.bid) || not (is_finite q.ask)) _ _ live in
    spread_check-narrow q t (spread_pct q) (test-passed (dead_quote q.bid q.ask) _ _ sided).1

validated-kept :
    (q : ContractQuote) (r : Result (Option Discard)) → validated q r ≡ kept → r ≡ ok none
validated-kept q (err e) h = absurd (cc)
validated-kept q (ok (some d)) h = absurd (cc)
validated-kept q (ok none) h = refl

unless-kept : (b : Bool) (x : Sifted) → (if b then skipped else x) ≡ kept → x ≡ kept
unless-kept true x h = absurd (cc)
unless-kept false x h = h

when-kept :
    (b : Bool) (x : Sifted) (d : Discard)
    → (if b then x else thrown d) ≡ kept
    → (b ≡ true) × (x ≡ kept)
when-kept true x d h = (refl, h)
when-kept false x d h = absurd (cc)

pub sift-Usable :
    (t : ActuaryThresholds) (universe : Option (List String)) (today : ℕ) (q : ContractQuote)
    → sift t universe today q ≡ kept
    → Usable t today q
unfolding sift
sift-Usable t universe today q h =
    let inside = unless-kept (outside universe q.underlying || not (is_put q.right)) _ h in
    let (window, valid) =
      when-kept (leb_ℤ t.dte_min (dte q today) && leb_ℤ (dte q today) t.dte_max) _ _ inside in
    let (pct, pct_eq, narrow) = validate_quote-narrow q t (validated-kept q _ valid) in
    record {
      pct = pct;
      pct_eq = pct_eq;
      narrow = narrow;
      long_enough = and_left (leb_ℤ t.dte_min (dte q today)) _ window;
    }
