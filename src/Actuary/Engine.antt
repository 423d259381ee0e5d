-- ===== src/Actuary/Engine.antt =====
-- backend/underwriter/actuary/engine.py: `price_put_credit_spreads`.
use the_underwriter.Base.Int.{leb_ℤ}
use the_underwriter.Domain.Proposal.{UnderwritingProposal}
use the_underwriter.Base.{
  sort_by, String, Result, true, ◌∷◌, ℕ, false, err, if◌then◌else◌, [], ◌>>=◌, ok, some, ◌||◌, not,
  ◌++◌, contains, str_eq, none, ◌&&◌, ◌==◌, ltb,
}
use the_underwriter.Actuary.Thresholds.{ActuaryThresholds}
use the_underwriter.Actuary.Pricing.{candidate_id_for, price_one, Priced, discarded, proposed}
use the_underwriter.Domain.Hashing.{Platform, text_lt}
use the_underwriter.Domain.Decimal.{eq, le, lt, Decimal, sub, negate}
use the_underwriter.Domain.Market.{
  ContractQuote, OptionRight, dte, snapshot_hash, MarketSnapshot, put, date_of, call,
}
use the_underwriter.Actuary.Validation.{
  Discard, short_delta_in_band, validate_quote, discard, actuary_math_error, dte_out_of_window,
}
use the_underwriter.Base.{List, Bool, Option}

pub record ActuaryResult : Type 0 where
  pub proposals : List UnderwritingProposal
  pub discards : List Discard

abbrev pub is_empty : ActuaryResult → Bool
is_empty r = elim r.proposals [ [] ↦ true | _ ↦ false ]

-- What becomes of one quote of the snapshot.
pub data Sifted : Type 0 where
  skipped : Sifted
  thrown : Discard → Sifted
  kept : Sifted

-- `universe is not None and q.underlying not in universe`
abbrev pub outside : Option (List String) → String → Bool
outside none underlying = false
outside (some names) underlying = not (contains underlying names)

-- The verdict of `validate_quote`, an exception of which discards the quote.
abbrev pub validated : ContractQuote → Result (Option Discard) → Sifted
validated q (err e) = thrown (discard q.symbol actuary_math_error)
validated q (ok (some d)) = thrown d
validated q (ok none) = kept

abbrev pub is_put : OptionRight → Bool
is_put put = true
is_put call = false

unfoldable pub sift : ActuaryThresholds → Option (List String) → ℕ → ContractQuote → Sifted
unfolding dte validate_quote
sift t universe today q =
    if outside universe q.underlying || not (is_put q.right)
    then skipped
    else if leb_ℤ t.dte_min (dte q today) && leb_ℤ (dte q today) t.dte_max
    then validated q (validate_quote q t)
    else thrown (discard q.symbol dte_out_of_window)

abbrev pub usable_of : (ContractQuote → Sifted) → List ContractQuote → List ContractQuote
usable_of f [] = []
usable_of f (q ∷ qs) =
    let rest = usable_of f qs in elim (f q) [ skipped ↦ rest | thrown d ↦ rest | kept ↦ q ∷ rest ]

abbrev pub thrown_of : (ContractQuote → Sifted) → List ContractQuote → List Discard
thrown_of f [] = []
thrown_of f (q ∷ qs) =
    let rest = thrown_of f qs in elim (f q) [ skipped ↦ rest | thrown d ↦ d ∷ rest | kept ↦ rest ]

-- The order of the keys `(underlying, expiry, strike, symbol)`.
unfoldable pub quote_less : ContractQuote → ContractQuote → Result Bool
unfolding eq lt
quote_less a b =
    if not (str_eq a.underlying b.underlying)
    then ok (text_lt a.underlying b.underlying)
    else if not (a.expiry == b.expiry)
    then ok (ltb a.expiry b.expiry)
    else if not (eq a.strike b.strike)
    then lt a.strike b.strike
    else ok (text_lt a.symbol b.symbol)

-- The order of the keys `(-edge_ratio, candidate_id)`.
unfoldable pub proposal_less : UnderwritingProposal → UnderwritingProposal → Result Bool
unfolding eq lt negate
proposal_less a b =
    if not (eq (negate a.edge_ratio) (negate b.edge_ratio))
    then lt (negate a.edge_ratio) (negate b.edge_ratio)
    else ok (text_lt a.candidate_id b.candidate_id)

-- `width_min <= width <= width_max`
unfoldable pub width_in_band : ActuaryThresholds → Decimal → Result Bool
unfolding le
width_in_band t width = do
  above ← le t.width_min width
  if above then le width t.width_max else ok false

-- The guards on a pair.
unfoldable pub pairs : ActuaryThresholds → ContractQuote → ContractQuote → Result Bool
unfolding le sub width_in_band
pairs t short_leg long_leg =
    if not (str_eq long_leg.underlying short_leg.underlying)
    then ok false
    else if not (long_leg.expiry == short_leg.expiry)
    then ok false
    else (do
      over ← le short_leg.strike long_leg.strike
      if over
          then ok false
          else (do width ← sub short_leg.strike long_leg.strike; width_in_band t width))

-- What a pass is over: the snapshot, its hash, and the quotes that are usable.
pub record Pass : Type 0 where
  pub lib : Platform
  pub thresholds : ActuaryThresholds
  pub as_of : ℕ
  pub hash : String
  pub quotes : List ContractQuote

unfoldable pub price_pair : Pass → ContractQuote → ContractQuote → Result Priced
unfolding candidate_id_for price_one
price_pair s short_leg long_leg = do
  id ←
      candidate_id_for s.lib short_leg.underlying short_leg.expiry short_leg.strike long_leg.strike
        s.hash
  price_one (record { candidate_id = id; as_of = s.as_of; hash = s.hash }) short_leg long_leg
      s.quotes s.thresholds short_leg.delta

-- The inner loop.
unfoldable pub price_longs : Pass → ContractQuote → List ContractQuote → Result (List Priced)
unfolding pairs price_pair
price_longs s short_leg [] = ok []
price_longs s short_leg (long_leg ∷ longs) = do
  eligible ← pairs s.thresholds short_leg long_leg
  let rest = price_longs s short_leg longs
  if eligible
      then (do here ← price_pair s short_leg long_leg; others ← rest; ok (here ∷ others))
      else rest

-- Whether a quote can be sold.
abbrev pub sellable : ActuaryThresholds → Option Decimal → Result Bool
sellable t none = ok false
sellable t (some delta) = short_delta_in_band delta t

-- The outer loop.
unfoldable pub price_shorts : Pass → List ContractQuote → List ContractQuote → Result (List Priced)
unfolding short_delta_in_band price_longs
price_shorts s ordered [] = ok []
price_shorts s ordered (short_leg ∷ shorts) = do
  able ← sellable s.thresholds short_leg.delta
  let rest = price_shorts s ordered shorts
  if able
      then (do here ← price_longs s short_leg ordered; others ← rest; ok (here ++ others))
      else rest

abbrev pub proposals_of : List Priced → List UnderwritingProposal
proposals_of [] = []
proposals_of (discarded d ∷ ps) = proposals_of ps
proposals_of (proposed p ∷ ps) = p ∷ proposals_of ps

abbrev pub discards_of : List Priced → List Discard
discards_of [] = []
discards_of (discarded d ∷ ps) = d ∷ discards_of ps
discards_of (proposed p ∷ ps) = discards_of ps

-- After the quotes were sifted.
unfoldable pub price_usable : Pass → List Discard → Result ActuaryResult
unfolding sort_by quote_less price_shorts proposal_less
price_usable s thrown_away = do
  ordered ← sort_by quote_less s.quotes
  priced ← price_shorts s ordered ordered
  ranked ← sort_by proposal_less (proposals_of priced)
  ok (record { proposals = ranked; discards = thrown_away ++ discards_of priced })

unfoldable pub price_put_credit_spreads :
    Platform → ActuaryThresholds → Option (List String) → MarketSnapshot → Result ActuaryResult
unfolding snapshot_hash sift price_usable
price_put_credit_spreads lib t universe s = do
  hash ← snapshot_hash lib s
  let f = sift t universe (date_of s.as_of)
  price_usable
      (record {
        lib = lib;
        thresholds = t;
        as_of = s.as_of;
        hash = hash;
        quotes = usable_of f s.quotes;
      })
      (thrown_of f s.quotes)
