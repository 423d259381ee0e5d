-- ===== src/Domain/Decimal/Ops.antt =====
-- The operations of `Decimal`, with the errors that Python's default context traps.
use the_underwriter.Base.{
  ℕ, zero, suc, ◌+◌, ◌-◌, ◌*◌, ◌/◌, ◌%◌, ◌^◌, Bool, true, false, List, [], ◌∷◌, ltb, ◌==◌,
  if◌then◌else◌, Result, ok, err, ◌>>=◌, invalid_operation, division_by_zero, value_error,
  overflow_error,
}
use the_underwriter.Base.Int.{ℤ, pos, negsuc, ◌+ℤ◌, neg, ltb_ℤ, leb_ℤ, eqb_ℤ}

-- `inf true` is -Infinity.
pub data Decimal : Type 0 where
  fin : ℤ → Decimal
  inf : Bool → Decimal
  nan : Decimal

-- The units in one.
abbrev pub scale : ℕ
scale = 10 ^ 28

-- `Decimal(n)`
abbrev pub of_ℕ : ℕ → Decimal
of_ℕ n = fin (pos (n * scale))

abbrev pub is_neg : ℤ → Bool
is_neg (pos _) = false
is_neg (negsuc _) = true

abbrev pub magnitude : ℤ → ℕ
magnitude (pos n) = n
magnitude (negsuc n) = suc n

abbrev pub with_sign : Bool → ℕ → ℤ
with_sign false n = pos n
with_sign true zero = pos 0
with_sign true (suc n) = negsuc n

abbrev xor : Bool → Bool → Bool
xor false b = b
xor true true = false
xor true false = true

-- `int(d)` of a number of contracts that is signed
unfoldable pub of_ℤ : ℤ → Decimal
of_ℤ n = fin (with_sign (is_neg n) (magnitude n * scale))

-- ROUND_HALF_EVEN of n / d, on magnitudes
unfoldable pub half_even : ℕ → ℕ → ℕ
half_even n d =
    let q = n / d in
    let r = 2 * (n % d) in
    if ltb r d then q else if ltb d r then q + 1 else if q % 2 == 0 then q else q + 1

unfoldable pub negate : Decimal → Decimal
negate (fin a) = fin (neg a)
negate (inf true) = inf false
negate (inf false) = inf true
negate nan = nan

unfoldable pub absolute : Decimal → Decimal
absolute (fin a) = fin (pos (magnitude a))
absolute (inf _) = inf false
absolute nan = nan

abbrev pub is_finite : Decimal → Bool
is_finite (fin _) = true
is_finite (inf _) = false
is_finite nan = false

unfoldable pub add : Decimal → Decimal → Result Decimal
add (fin a) (fin b) = ok (fin (a +ℤ b))
add (fin _) (inf s) = ok (inf s)
add (fin _) nan = ok nan
add (inf s) (fin _) = ok (inf s)
add (inf false) (inf false) = ok (inf false)
add (inf true) (inf true) = ok (inf true)
add (inf false) (inf true) = err invalid_operation
add (inf true) (inf false) = err invalid_operation
add (inf _) nan = ok nan
add nan _ = ok nan

unfoldable pub sub : Decimal → Decimal → Result Decimal
unfolding add negate
sub a b = add a (negate b)

-- An infinity times a finite value.
unfoldable pub inf_mul : Bool → ℤ → Result Decimal
inf_mul s a = if magnitude a == 0 then err invalid_operation else ok (inf (xor s (is_neg a)))

unfoldable pub mul : Decimal → Decimal → Result Decimal
unfolding inf_mul
mul (fin a) (fin b) =
    ok (fin (with_sign (xor (is_neg a) (is_neg b)) (half_even (magnitude a * magnitude b) scale)))
mul (fin a) (inf s) = inf_mul s a
mul (inf s) (fin b) = inf_mul s b
mul (inf s) (inf t) = ok (inf (xor s t))
mul nan _ = ok nan
mul _ nan = ok nan

-- 0 / 0 is an invalid operation, any other finite value over 0 a division by zero.
unfoldable pub fin_div : ℤ → ℤ → Result Decimal
fin_div a b =
    if magnitude b == 0
    then (if magnitude a == 0 then err invalid_operation else err division_by_zero)
    else ok (
        fin (with_sign (xor (is_neg a) (is_neg b)) (half_even (magnitude a * scale) (magnitude b))))

unfoldable pub div : Decimal → Decimal → Result Decimal
unfolding fin_div
div (fin a) (fin b) = fin_div a b
div (fin _) (inf _) = ok (fin (pos 0))
div (inf s) (fin b) = ok (inf (xor s (is_neg b)))
div (inf _) (inf _) = err invalid_operation
div nan _ = ok nan
div _ nan = ok nan

-- The orders raise on a NaN.
unfoldable pub le : Decimal → Decimal → Result Bool
le (fin a) (fin b) = ok (leb_ℤ a b)
le (fin _) (inf true) = ok false
le (fin _) (inf false) = ok true
le (inf true) (fin _) = ok true
le (inf false) (fin _) = ok false
le (inf true) (inf _) = ok true
le (inf false) (inf true) = ok false
le (inf false) (inf false) = ok true
le nan _ = err invalid_operation
le _ nan = err invalid_operation

unfoldable pub lt : Decimal → Decimal → Result Bool
lt (fin a) (fin b) = ok (ltb_ℤ a b)
lt (fin _) (inf true) = ok false
lt (fin _) (inf false) = ok true
lt (inf true) (fin _) = ok true
lt (inf false) (fin _) = ok false
lt (inf true) (inf true) = ok false
lt (inf true) (inf false) = ok true
lt (inf false) (inf _) = ok false
lt nan _ = err invalid_operation
lt _ nan = err invalid_operation

-- `==` never raises, and a NaN equals nothing.
unfoldable pub eq : Decimal → Decimal → Bool
eq (fin a) (fin b) = eqb_ℤ a b
eq (inf true) (inf true) = true
eq (inf false) (inf false) = true
eq _ _ = false

-- The loop of `sum`, from the total so far.
unfoldable pub sum_from : Decimal → List Decimal → Result Decimal
unfolding add
sum_from acc [] = ok acc
sum_from acc (d ∷ ds) = do acc' ← add acc d; sum_from acc' ds

-- `sum(values, ZERO)`
unfoldable pub sum : List Decimal → Result Decimal
unfolding sum_from
sum ds = sum_from (fin (pos 0)) ds

-- `min(a, b)` and `max(a, b)`: the first argument wins a tie.
unfoldable pub min_of : Decimal → Decimal → Result Decimal
unfolding lt
min_of a b = do less ← lt b a; ok (if less then b else a)

unfoldable pub max_of : Decimal → Decimal → Result Decimal
unfolding lt
max_of a b = do less ← lt a b; ok (if less then b else a)

pub data Rounding : Type 0 where
  round_half_up round_floor round_ceiling round_down round_up : Rounding

abbrev ceil_div : ℕ → ℕ → ℕ
ceil_div n u = (n + u - 1) / u

-- The magnitude of the rounded quotient, by the sign of the value.
unfoldable pub rounded : Rounding → Bool → ℕ → ℕ → ℕ
rounded round_half_up _ n u = (2 * n + u) / (2 * u)
rounded round_floor false n u = n / u
rounded round_floor true n u = ceil_div n u
rounded round_ceiling false n u = ceil_div n u
rounded round_ceiling true n u = n / u
rounded round_down _ n u = n / u
rounded round_up _ n u = ceil_div n u

-- `d.quantize(unit, rounding=mode)`, with the unit as a number of units of 10^-28
unfoldable pub quantize : ℕ → Rounding → Decimal → Result Decimal
unfolding rounded
quantize u mode (fin a) =
    ok (fin (with_sign (is_neg a) (rounded mode (is_neg a) (magnitude a) u * u)))
quantize u mode (inf _) = err invalid_operation
quantize u mode nan = ok nan

-- `int(d.to_integral_value(rounding=ROUND_FLOOR))`
unfoldable pub floor_int : Decimal → Result ℤ
floor_int (fin (pos n)) = ok (pos (n / scale))
floor_int (fin (negsuc n)) = ok (negsuc (n / scale))
floor_int (inf _) = err overflow_error
floor_int nan = err value_error
