-- ===== src/Base/Floats.antt =====
-- The float64 arithmetic of Go on numbers that are not negative. A value is a natural number of some
-- power of two, so sums, and products with the power doubled, are exact until they are rounded.
-- Meant are results that are normal float64 numbers, and no fused multiplication.
use Prim.Native.Nat.{ℕ, zero, suc, ◌+◌, ◌-◌, ◌-◌, ◌*◌, ◌/◌, ◌%◌, ◌^◌, ◌≤◌, ◌<◌}
use mathlib.Core.Bool.{true, false, ◌&&◌, ◌||◌}
use mathlib.Core.Path.{◌≡◌, ap, sym, ◌∙◌, subst}
use mathlib.Core.Logic.{inl, inr}
use native.Mathlib.Omega.{arith}
use native.Mathlib.Nat.{
  pow-succ', add-mul, mul_assoc, mul_comm, div-div-eq-div-mul, mul-div-mul_right, mul-le-mul_right,
  mul-lt-mul_of_pos_right, div-add-mod', mod-lt,
}
use alertloop.Base.Tests.{ltb, leb, ◌==◌, if◌then◌else◌, Bool-cases}

abbrev pub significand : ℕ
significand = 2 ^ 53

-- The bits of a number beyond 53, for a number below 2 ^ (53 + fuel).
unfoldable pub excess : ℕ → ℕ → ℕ
excess zero n = 0
excess (suc fuel) n = elim (ltb n significand) [ true ↦ 0 | false ↦ suc (excess fuel (n / 2)) ]

-- To the nearest multiple of `p`, of two the even one.
unfoldable pub round_to : ℕ → ℕ → ℕ
round_to p n =
    let q = n / p in
    let r = n % p in if ltb p (2 * r) || (p == 2 * r && (q % 2 == 1)) then (q + 1) * p else q * p

-- the largest exponent of a product of two float64 numbers in units of 2 ^ -1074
abbrev pub bits : ℕ
bits = 4200

unfoldable pub round_float : ℕ → ℕ
unfolding excess round_to
round_float n = round_to (2 ^ excess bits n) n

-- The quotient of two whole numbers, of at least 2 ^ 53 units; a remainder only breaks ties.
unfoldable pub quotient : ℕ → ℕ → ℕ
unfolding round_float
quotient a b = round_float (2 * (a / b) + (if a % b == 0 then 0 else 1)) / 2

excess-le : (fuel n k : ℕ) → n < significand * 2 ^ k → excess fuel n ≤ k
unfolding excess
excess-le zero n k h = omega arith
excess-le (suc fuel) n zero h = ground arith
excess-le (suc fuel) n (suc k) h =
    let half : n / 2 < significand * 2 ^ k = omega (arith, h, pow-succ' 2 k) in
    ground (arith, excess-le fuel (n / 2) k half)

below-of-mul : (q w p : ℕ) → q * p < w * p → q < w
below-of-mul q w p h = elim (Bool-cases (ltb q w)) [
  | inl less ↦ ground arith
  | inr more ↦
      let reach : w ≤ q = ground (arith, more) in
      absurd (omega (arith, h, mul-le-mul_right p reach))
]

round_to-le : (p n w : ℕ) → 0 < p → n ≤ w * p → round_to p n ≤ w * p
unfolding round_to
round_to-le p n w pos h =
    elim (Bool-cases (ltb p (2 * (n % p)) || (p == 2 * (n % p) && (n / p % 2 == 1)))) [
      | inl up ↦
          let rest : 1 ≤ n % p = ground (arith, up, pos) in
          let less : n / p < w =
            below-of-mul (n / p) w p (omega (arith, div-add-mod' n p, rest, h)) in
          let most : n / p + 1 ≤ w = omega (arith, less) in rw up (mul-le-mul_right p most)
      | inr down ↦ rw down (omega (arith, div-add-mod' n p, h))
    ]

round_to-ge : (p n : ℕ) → n / p * p ≤ round_to p n
unfolding round_to
round_to-ge p n = ground (arith, add-mul (n / p) 1 p)

pow_pos : (e : ℕ) → 0 < 2 ^ e
pow_pos zero = omega arith
pow_pos (suc e) = omega (arith, pow_pos e, pow-succ' 2 e)

pow_add : (j e : ℕ) → 2 ^ (j + e) ≡ 2 ^ j * 2 ^ e
pow_add zero e = ap (λ t. 2 ^ t) {x = 0 + e} {y = e} (omega arith) ∙ omega arith
pow_add (suc j) e =
    ap (λ t. 2 ^ t) {x = suc j + e} {y = suc (j + e)} (omega arith)
    ∙ pow-succ' 2 (j + e)
    ∙ ap (λ t. 2 * t) (pow_add j e)
    ∙ sym (mul_assoc 2 (2 ^ j) (2 ^ e))
    ∙ ap (λ t. t * 2 ^ e) (sym (pow-succ' 2 j))

pow_split : (e k : ℕ) → e ≤ k → 2 ^ k ≡ 2 ^ (k - e) * 2 ^ e
pow_split e k h = ap (λ t. 2 ^ t) {x = k} {y = k - e + e} (omega (arith, h)) ∙ pow_add (k - e) e

round_at-le : (e n x k : ℕ) → e ≤ k → n ≤ x * 2 ^ k → round_to (2 ^ e) n ≤ x * 2 ^ k
round_at-le e n x k small h =
    let same : x * 2 ^ k ≡ x * 2 ^ (k - e) * 2 ^ e =
      ap (λ t. x * t) (pow_split e k small) ∙ sym (mul_assoc x (2 ^ (k - e)) (2 ^ e)) in
    let below = round_to-le (2 ^ e) n (x * 2 ^ (k - e)) (pow_pos e) (subst (λ t. n ≤ t) same h) in
    subst (λ t. round_to (2 ^ e) n ≤ t) (sym same) below

div_mono : (a b p : ℕ) → 0 < p → a ≤ b → a / p ≤ b / p
div_mono a b p pos h = elim (Bool-cases (leb (a / p) (b / p))) [
  | inl less ↦ ground arith
  | inr more ↦
      let over : b / p + 1 ≤ a / p = ground (arith, more) in
      let many : (b / p + 1) * p ≤ a / p * p = mul-le-mul_right p over in
      absurd (
        omega
          (arith, many, add-mul (b / p) 1 p, div-add-mod' a p, div-add-mod' b p, mod-lt b pos, h))
]

round_at-ge : (e n k : ℕ) → e ≤ k → n / 2 ^ k ≤ round_to (2 ^ e) n / 2 ^ k
round_at-ge e n k small =
    let split = pow_split e k small ∙ mul_comm (2 ^ (k - e)) (2 ^ e) in
    let cut : n / 2 ^ k ≡ n / 2 ^ e * 2 ^ e / 2 ^ k =
      ap (λ t. n / t) split
      ∙ sym (div-div-eq-div-mul n (2 ^ e) (2 ^ (k - e)))
      ∙ sym (mul-div-mul_right (n / 2 ^ e) (2 ^ (k - e)) (pow_pos e))
      ∙ ap (λ t. n / 2 ^ e * 2 ^ e / t) (sym (pow_split e k small)) in
    omega (
      arith,
      cut,
      div_mono (n / 2 ^ e * 2 ^ e) (round_to (2 ^ e) n) (2 ^ k) (pow_pos k) (round_to-ge (2 ^ e) n),
    )

-- A number that is at most one of 53 bits is rounded to at most that one.
pub round_float-le : (n x k : ℕ) → x < significand → n ≤ x * 2 ^ k → round_float n ≤ x * 2 ^ k
unfolding round_float
round_float-le n x k small h =
    let room : x * 2 ^ k < significand * 2 ^ k = mul-lt-mul_of_pos_right small (pow_pos k) in
    round_at-le (excess bits n) n x k (excess-le bits n k (omega (arith, h, room))) h

-- Rounding keeps the bits above the first 53.
pub round_float-ge : (n k : ℕ) → n < significand * 2 ^ k → n / 2 ^ k ≤ round_float n / 2 ^ k
unfolding round_float
round_float-ge n k small = round_at-ge (excess bits n) n k (excess-le bits n k small)

-- A whole number of 53 bits is a float64 number.
pub round_float_small : (n : ℕ) → n < significand → round_float n ≡ n
round_float_small n small =
    omega
      (arith, round_float-le n n 0 small (omega arith), round_float-ge n 0 (omega (arith, small)))
