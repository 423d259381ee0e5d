-- ===== src/Domain/Decimal/Laws.antt =====
-- Laws of the rounded operations on finite values: bounds, and where the whole part of a quotient is
-- exact.
use the_underwriter.Base.{ℕ, ◌≡◌, ◌<◌, ◌/◌, ◌≤◌, ◌⊎◌, ◌*◌, ◌+◌, ◌%◌, arith, inl, inr}
use the_underwriter.Domain.Decimal.{half_even}
use native.Mathlib.Nat.{div-add-mod', div-mul-le_self, mul-le-mul_right, div-le_of_le-mul, mul_comm}
use native.Mathlib.Decide.{dec_le}

-- A quotient that rounds to nearest is the whole part or one more, and one more only off a multiple.
half_even_cases :
    (a d : ℕ) → (half_even a d ≡ a / d) ⊎ ((half_even a d ≡ a / d + 1) × (d ≤ 2 * (a % d)))
unfolding half_even
half_even_cases a d = ground arith

rounded_up-le : (a b d : ℕ) → 0 < d → a ≤ b * d → d ≤ 2 * (a % d) → a / d + 1 ≤ b
rounded_up-le a b d pos_d h r = elim (dec_le b (a / d)) [
  | yes p ↦ absurd (omega (arith, div-add-mod' a d, mul-le-mul_right d p))
  | no p ↦ omega arith
]

pub half_even-le : (a b d : ℕ) → 0 < d → a ≤ b * d → half_even a d ≤ b
half_even-le a b d pos_d h = elim (half_even_cases a d) [
  | inl e ↦ rw e (div-le_of_le-mul d (rw (mul_comm d b) h))
  | inr (e, r) ↦ rw e (rounded_up-le a b d pos_d h r)
]

-- The rounded quotient is at most one over the whole part, and exact on a multiple.
half_even-mul-le :
    (a d : ℕ) → 0 < d → (half_even a d * d ≤ a) ⊎ (half_even a d * d + a % d ≤ a + d) × (0 < a % d)
half_even-mul-le a d pos_d = elim (half_even_cases a d) [
  | inl e ↦ inl (rw e (div-mul-le_self a d))
  | inr (e, r) ↦ inr (rw e (omega (arith, div-add-mod' a d)), omega arith)
]

mul_pos : (a b : ℕ) → 0 < a → 0 < b → 0 < a * b
mul_pos a b h k = grind arith

-- In steps of `g`: the whole contracts that a quotient of two money values gives fit in the room.
pub half_even_floor :
    (n d g s : ℕ) → 0 < d → 0 < g → 0 < s → d ≤ s → half_even (n * g * s) (d * g) / s * d ≤ n
half_even_floor n d g s pos_d pos_g pos_s small = elim (dec_le (k * d) n) [
  | yes p ↦ p
  | no p ↦
      let q = half_even (n * g * s) (d * g) in
      let over : (n + 1) * (g * s) ≤ k * d * (g * s) = mul-le-mul_right (g * s) (omega arith) in
      let whole : k * s * (d * g) ≤ q * (d * g) = mul-le-mul_right (d * g) (div-mul-le_self q s) in
      let grid : d * g ≤ s * g = mul-le-mul_right g small in
      absurd (elim (half_even-mul-le (n * g * s) (d * g) (mul_pos d g pos_d pos_g)) [
        | inl exact ↦ omega (arith, exact, over, whole, mul_pos g s pos_g pos_s)
        | inr (up, rest) ↦ omega (arith, up, rest, over, whole, grid)
      ])
]
  where
    k : ℕ
    k = half_even (n * g * s) (d * g) / s
