-- ===== src/Domain/Decimal/Exact.antt =====
-- Where the rounded operations are exact, what the comparisons say of their arguments, and when a
-- quantised value is finite.
use the_underwriter.Base.Int.{pos, negsuc}
use the_underwriter.Base.{
  ℕ, ◌<◌, ◌*◌, ◌≡◌, arith, ok, ap, refl, false, sym, true, ◌+◌, ◌-◌, ok-injective, ◌/◌,
}
use the_underwriter.Domain.Decimal.{
  half_even, mul, quantize, le, rounded, lt, fin, Decimal, round_floor, round_ceiling, of_ℕ, scale,
  inf, Rounding, nan,
}
use native.Mathlib.Nat.{mul-div_cancel, mul-mod_left, mul_assoc, div-eq_of_lt-le}

pub half_even-exact : (n d : ℕ) → 0 < d → half_even (n * d) d ≡ n
unfolding half_even
half_even-exact n d pos_d = rw (mul-mod_left n d, mul-div_cancel n pos_d) (ground arith)

pub mul-whole : (n k : ℕ) → mul (fin (pos n)) (of_ℕ k) ≡ ok (fin (pos (n * k)))
unfolding mul
mul-whole n k =
    ap (λ q. ok (fin (pos q)))
      (rw (sym (mul_assoc n k scale)) (half_even-exact (n * k) scale (omega arith)))

pub floor-exact :
    (k u : ℕ) → 0 < u → quantize u round_floor (fin (pos (k * u))) ≡ ok (fin (pos (k * u)))
unfolding quantize rounded
floor-exact k u pos_u = rw (mul-div_cancel k pos_u) refl

ceiling_div-exact : (k u : ℕ) → 0 < u → (k * u + u - 1) / u ≡ k
ceiling_div-exact k u pos_u =
    div-eq_of_lt-le {k = k} u {m = k * u + u - 1} (omega arith) (omega arith)

pub ceiling-exact :
    (k u : ℕ) → 0 < u → quantize u round_ceiling (fin (pos (k * u))) ≡ ok (fin (pos (k * u)))
unfolding quantize rounded
ceiling-exact k u pos_u = rw (ceiling_div-exact k u pos_u) refl

-- A comparison that does not hold is the other one, strictly or not.
pub not_le-lt : (a b : Decimal) → le a b ≡ ok false → lt b a ≡ ok true
unfolding le lt
not_le-lt (fin a) (fin b) h = ground arith
not_le-lt (fin a) (inf true) h = refl
not_le-lt (fin a) (inf false) h = cc
not_le-lt (inf true) (fin b) h = cc
not_le-lt (inf false) (fin b) h = refl
not_le-lt (inf true) (inf b) h = cc
not_le-lt (inf false) (inf true) h = refl
not_le-lt (inf false) (inf false) h = cc
not_le-lt nan b h = cc
not_le-lt (fin a) nan h = cc
not_le-lt (inf a) nan h = cc

pub not_lt-le : (a b : Decimal) → lt a b ≡ ok false → le b a ≡ ok true
unfolding le lt
not_lt-le (fin a) (fin b) h = ground arith
not_lt-le (fin a) (inf true) h = refl
not_lt-le (fin a) (inf false) h = cc
not_lt-le (inf true) (fin b) h = cc
not_lt-le (inf false) (fin b) h = refl
not_lt-le (inf true) (inf true) h = refl
not_lt-le (inf true) (inf false) h = cc
not_lt-le (inf false) (inf true) h = refl
not_lt-le (inf false) (inf false) h = refl
not_lt-le nan b h = cc
not_lt-le (fin a) nan h = cc
not_lt-le (inf a) nan h = cc

-- A value above zero is not a number of units, or infinite; a quantised one is a number of units.
pub above_zero :
    (d q : Decimal) (u : ℕ) (mode : Rounding)
    → le d (fin (pos 0)) ≡ ok false
    → quantize u mode d ≡ ok q
    → (n : ℕ) × (0 < n) × (d ≡ fin (pos n)) × (q ≡ fin (pos (rounded mode false n u * u)))
unfolding le quantize
above_zero (fin (pos n)) q u mode h e = (n, ground arith, refl, sym (ok-injective e))
above_zero (fin (negsuc n)) q u mode h e = absurd (ground arith)
above_zero (inf s) q u mode h e = absurd (cc)
above_zero nan q u mode h e = absurd (cc)
