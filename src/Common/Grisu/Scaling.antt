-- ===== src/Common/Grisu/Scaling.antt =====
-- common/string.hpp, DiyFp: the product and the normal form.
use tiny_rpc.Prelude.{
  ℕ, zero, suc, ◌+◌, ◌-◌, ◌*◌, ◌/◌, ◌%◌, ◌^◌, ◌≤◌, ◌<◌, ◌≡◌, refl, ap, ap₂, ◌∙◌, arith, some, leb,
  ◌==◌, Bool-cases, inl, inr,
}
use tiny_rpc.Prelude.Int.{ℤ, pos, negsuc, ◌+ℤ◌, ◌-ℤ◌}
use native.Mathlib.Nat.{pow-suc}
use tiny_rpc.Common.Grisu.{
  DiyFp, multiply, leading_zeros, normalize, shift_up, shift_left, normalize_boundary,
}

product_fits : (a b : ℕ) → a < 2 ^ 32 → b < 2 ^ 32 → a * b < 2 ^ 64 - 2 ^ 33 + 2
product_fits a b h k = grind arith

expand :
    (a b c d : ℕ)
    → (a * 2 ^ 32 + b) * (c * 2 ^ 32 + d) ≡ a * c * 2 ^ 64 + a * d * 2 ^ 32 + b * c * 2 ^ 32 + b * d
expand a b c d = grind arith

whole_product_fits : (x y : ℕ) → x < 2 ^ 64 → y < 2 ^ 64 → x * y < 2 ^ 128 - 2 ^ 64
whole_product_fits x y h k = grind arith

-- The four partial products put together, as the code does it on 64 bits.
rounded :
    (ac ad bc bd n : ℕ)
    → ac < 2 ^ 64
    → ad < 2 ^ 64
    → bc < 2 ^ 64
    → bd < 2 ^ 64
    → n ≡ ac * 2 ^ 64 + ad * 2 ^ 32 + bc * 2 ^ 32 + bd
    → n < 2 ^ 128 - 2 ^ 64
    → (ac % 2 ^ 64
          + ad % 2 ^ 64 / 2 ^ 32
          + bc % 2 ^ 64 / 2 ^ 32
          + (bd % 2 ^ 64 / 2 ^ 32 + ad % 2 ^ 64 % 2 ^ 32 + bc % 2 ^ 64 % 2 ^ 32 + 2 ^ 31)
            % 2 ^ 64
            / 2 ^ 32)
        % 2 ^ 64
      ≡ (n + 2 ^ 63) / 2 ^ 64
rounded ac ad bc bd n p q r s e h =
    let ad' : ad % 2 ^ 64 ≡ ad = omega arith in
    let bc' : bc % 2 ^ 64 ≡ bc = omega arith in
    let bd' : bd % 2 ^ 64 ≡ bd = omega arith in
    let ac' : ac % 2 ^ 64 ≡ ac = omega arith in rw (ad', bc', bd', ac') (omega arith)

-- The product of two significands is the exact product divided by 2 ^ 64 and rounded to the nearest
-- integer, halves up; the exponent makes up for the division.
pub multiply_lem :
    (x y : DiyFp)
    → x.f < 2 ^ 64
    → y.f < 2 ^ 64
    → ((multiply x y).f ≡ (x.f * y.f + 2 ^ 63) / 2 ^ 64) × ((multiply x y).e ≡ x.e +ℤ y.e +ℤ pos 64)
unfolding multiply
multiply_lem x y h k =
    let a = x.f / 2 ^ 32 in
    let b = x.f % 2 ^ 32 in
    let c = y.f / 2 ^ 32 in
    let d = y.f % 2 ^ 32 in
    let split_x : x.f ≡ a * 2 ^ 32 + b = omega arith in
    let split_y : y.f ≡ c * 2 ^ 32 + d = omega arith in
    (
      rounded (a * c) (a * d) (b * c) (b * d) (x.f * y.f)
          (omega (arith, product_fits a c (omega arith) (omega arith)))
          (omega (arith, product_fits a d (omega arith) (omega arith)))
          (omega (arith, product_fits b c (omega arith) (omega arith)))
          (omega (arith, product_fits b d (omega arith) (omega arith)))
          (ap₂ (λ (s t : ℕ). s * t) split_x split_y ∙ expand a b c d)
          (whole_product_fits x.f y.f h k),
      refl,
    )

double : (x s : ℕ) → x * 2 ^ suc s ≡ 2 * (x * 2 ^ s)
double x s = omega (arith, ap (λ (t : ℕ). x * t) (pow-suc 2 s))

double_first : (x s : ℕ) → 2 * x * 2 ^ s ≡ 2 * (x * 2 ^ s)
double_first x s = grind arith

minus_zero : (e : ℤ) → e -ℤ pos 0 ≡ e
minus_zero (pos n) = ground arith
minus_zero (negsuc n) = ground arith

minus_minus : (e : ℤ) (s : ℕ) → e -ℤ pos 1 -ℤ pos s ≡ e -ℤ pos (suc s)
minus_minus (pos n) s = ground arith
minus_minus (negsuc n) s = ground arith

-- Below 2 ^ width, the leading zeros of a number take it to the top bit.
leading_zeros_lem :
    (width x : ℕ)
    → 0 < x
    → x < 2 ^ width
    → (2 ^ width ≤ 2 * (x * 2 ^ leading_zeros width x))
      × (x * 2 ^ leading_zeros width x < 2 ^ width)
unfolding leading_zeros
leading_zeros_lem zero x p h = absurd (omega arith)
leading_zeros_lem (suc width) x p h = elim (Bool-cases (leb (2 ^ width) x)) [
  | inl top ↦ rw top (ground (arith, pow-suc 2 width), omega arith)
  | inr low ↦
      let (lo, hi) = leading_zeros_lem width x p (ground arith) in
      let twice = double x (leading_zeros width x) in
      rw (low, twice) (omega (arith, pow-suc 2 width), omega (arith, pow-suc 2 width))
]

-- `Normalize` of a significand that is not zero brings it to 64 bits, and loses none of its value.
pub normalize_lem :
    (x : DiyFp)
    → 0 < x.f
    → x.f < 2 ^ 64
    → (s : ℕ) × ((normalize x).f ≡ x.f * 2 ^ s)
      × ((normalize x).e ≡ x.e -ℤ pos s)
      × (2 ^ 63 ≤ (normalize x).f)
      × ((normalize x).f < 2 ^ 64)
unfolding normalize
normalize_lem x p h =
    let s = leading_zeros 64 x.f in
    let (lo, hi) = leading_zeros_lem 64 x.f p h in (s, omega arith, refl, omega arith, omega arith)

-- The loop of `NormalizeBoundary`, from below its target and with the bits that are missing as
-- fuel.
shift_up_lem :
    (fuel : ℕ) (x : DiyFp)
    → 0 < x.f
    → x.f < 2 ^ 54
    → 2 ^ 54 ≤ x.f * 2 ^ fuel
    → (s : ℕ) × (shift_up fuel x ≡ some (record { f = x.f * 2 ^ s; e = x.e -ℤ pos s }))
      × (2 ^ 53 ≤ x.f * 2 ^ s)
      × (x.f * 2 ^ s < 2 ^ 54)
unfolding shift_up
shift_up_lem zero x p h big = absurd (omega arith)
shift_up_lem (suc fuel) x p h big = elim (Bool-cases (x.f / 2 ^ 53 % 2 == 1)) [
  | inl top ↦ (0, rw top (here x), ground arith, omega arith)
  | inr low ↦
      let y : DiyFp = record { f = shift_left x.f 1; e = x.e -ℤ pos 1 } in
      let small : x.f < 2 ^ 53 = ground arith in
      let twice : shift_left x.f 1 ≡ 2 * x.f = omega arith in
      let grown : (s : ℕ) → shift_left x.f 1 * 2 ^ s ≡ x.f * 2 ^ suc s =
        λ s. rw (twice, double_first x.f s, double x.f s) refl in
      let (s, e, lo, hi) = shift_up_lem fuel y (omega arith) (omega arith) (rw (grown fuel) big) in
      (suc s, rw (low, e, grown s, minus_minus x.e s) refl, rw (← grown s) lo, rw (← grown s) hi)
]
  where
    here : (x : DiyFp) → some x ≡ some (record { f = x.f * 2 ^ 0; e = x.e -ℤ pos 0 })
    here x = let one : x.f * 1 ≡ x.f = omega arith in rw (one, minus_zero x.e) refl

-- For a significand below 2 ^ 54 that is not zero `NormalizeBoundary` ends; it brings it to 64
-- bits, and loses none of its value.
pub normalize_boundary_lem :
    (x : DiyFp)
    → 0 < x.f
    → x.f < 2 ^ 54
    → (s : ℕ) × (normalize_boundary x
        ≡ some (record { f = x.f * 2 ^ s * 2 ^ 10; e = x.e -ℤ pos s -ℤ pos 10 }))
      × (2 ^ 63 ≤ x.f * 2 ^ s * 2 ^ 10)
      × (x.f * 2 ^ s * 2 ^ 10 < 2 ^ 64)
unfolding normalize_boundary
normalize_boundary_lem x p h =
    let (s, e, lo, hi) = shift_up_lem 64 x p h (omega arith) in
    let kept : x.f * 2 ^ s * 2 ^ 10 % 2 ^ 64 ≡ x.f * 2 ^ s * 2 ^ 10 = omega arith in
    (s, rw (e, kept) refl, omega arith, omega arith)
