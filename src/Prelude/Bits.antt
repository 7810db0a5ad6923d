-- ===== src/Prelude/Bits.antt =====
-- `|` of disjoint fields and `&` with a mask of low bits, as arithmetic at every width.
use Prim.Native.Nat.{min, max, digits, bitwise, bit_and-bitwise, bit_or-bitwise}
use Prim.Native.Nat.{ℕ, zero, suc, ◌+◌, ◌-◌, ◌*◌, ◌/◌, ◌%◌, ◌^◌, ◌≤◌, ◌<◌, bit_and, bit_or}
use mathlib.Core.Path.{◌≡◌, refl, ap, ◌∙◌}
use native.Mathlib.Nat.{le_refl, pow-suc, one-le-pow, div-one, div-div-eq-div-mul}
use native.Mathlib.Omega.{arith}

-- The library defines `|` and `&` by a loop over the binary digits, on fuel: the left operand.
module _ (rest : ℕ → ℕ) (digit : ℕ → ℕ → ℕ) where
  one_more :
      (fuel x y : ℕ) → x ≤ fuel → digits rest digit (suc fuel) x y ≡ digits rest digit fuel x y
  one_more zero zero y h = refl
  one_more zero (suc x) y h = absurd (omega arith)
  one_more (suc fuel) zero y h = refl
  one_more (suc fuel) (suc x) y h = rw (one_more fuel (suc x / 2) (y / 2) (omega arith))

  many_more : (extra x y : ℕ) → digits rest digit (extra + x) x y ≡ bitwise rest digit x y
  many_more zero x y = ap (λ fuel. digits rest digit fuel x y) (omega arith)
  many_more (suc extra) x y =
      let next : suc extra + x ≡ suc (extra + x) = omega arith in
      ap (λ fuel. digits rest digit fuel x y) next
      ∙ one_more (extra + x) x y (omega arith)
      ∙ many_more extra x y

  lowest_digit :
      (x y : ℕ)
      → bitwise rest digit (suc x) y
        ≡ digit (suc x % 2) (y % 2) + 2 * bitwise rest digit (suc x / 2) (y / 2)
  lowest_digit x y =
      let half = suc x / 2 in
      let fuel : x ≡ x - half + half = omega arith in
      omega
        (arith, ap (λ k. digits rest digit k half (y / 2)) fuel, many_more (x - half) half (y / 2))

pub bit_or_step : (x y : ℕ) → bit_or x y ≡ max (x % 2) (y % 2) + 2 * bit_or (x / 2) (y / 2)
bit_or_step zero y = rw (bit_or-bitwise, bit_or-bitwise) (omega arith)
bit_or_step (suc x) y = rw (bit_or-bitwise, bit_or-bitwise) (lowest_digit (λ high. high) max x y)

pub bit_and_step : (x y : ℕ) → bit_and x y ≡ min (x % 2) (y % 2) + 2 * bit_and (x / 2) (y / 2)
bit_and_step zero y = rw (bit_and-bitwise, bit_and-bitwise) (omega arith)
bit_and_step (suc x) y = rw (bit_and-bitwise, bit_and-bitwise) (lowest_digit (λ high. 0) min x y)

zero-bit_or : (b : ℕ) → bit_or 0 b ≡ b
zero-bit_or b = bit_or-bitwise 0 b

halve : (q k : ℕ) → q * 2 ^ suc k ≡ 2 * (q * 2 ^ k)
halve q k = omega (arith, ap (λ (t : ℕ). q * t) (pow-suc 2 k))

-- A low field below `2 ^ k` joined to a high field.
pub bit_or_join : (k r q : ℕ) → r < 2 ^ k → bit_or r (q * 2 ^ k) ≡ r + q * 2 ^ k
bit_or_join zero zero q h = omega (arith, zero-bit_or (q * 2 ^ 0))
bit_or_join zero (suc r) q h = absurd (omega arith)
bit_or_join (suc k) r q h =
    ground (arith, bit_or_step r (q * 2 ^ suc k), halve q k, pow-suc 2 k, bit_or_join k (r / 2) q)

bit_or-zero : (n a : ℕ) → a ≤ n → bit_or a 0 ≡ a
bit_or-zero n zero h = refl
bit_or-zero zero (suc a) h = absurd (omega arith)
bit_or-zero (suc n) (suc a) h =
    omega (arith, bit_or_step (suc a) 0, bit_or-zero n (suc a / 2) (omega arith))

-- The same with the high field on the left.
pub bit_or_join' : (k q r : ℕ) → r < 2 ^ k → bit_or (q * 2 ^ k) r ≡ r + q * 2 ^ k
bit_or_join' zero q zero h = omega (arith, bit_or-zero (q * 2 ^ 0) (q * 2 ^ 0) (le_refl _))
bit_or_join' zero q (suc r) h = absurd (omega arith)
bit_or_join' (suc k) q r h =
    ground (arith, bit_or_step (q * 2 ^ suc k) r, halve q k, pow-suc 2 k, bit_or_join' k q (r / 2))

pub bit_and-zero : (n a : ℕ) → a ≤ n → bit_and a 0 ≡ 0
bit_and-zero n zero h = refl
bit_and-zero zero (suc a) h = absurd (omega arith)
bit_and-zero (suc n) (suc a) h =
    omega (arith, bit_and_step (suc a) 0, bit_and-zero n (suc a / 2) (omega arith))

-- A mask of `k` low bits is the remainder by `2 ^ k`.
bit_and_fields : (k q r : ℕ) → r < 2 ^ k → bit_and (q * 2 ^ k + r) (2 ^ k - 1) ≡ r
bit_and_fields zero q r h = ground (arith, bit_and-zero (q * 2 ^ 0 + r) _ (le_refl _))
bit_and_fields (suc k) q r h = ground (
  arith,
  bit_and_step (q * 2 ^ suc k + r) (2 ^ suc k - 1),
  halve q k,
  pow-suc 2 k,
  bit_and_fields k q (r / 2) (omega arith),
)

pub bit_and_mask : (k a : ℕ) → bit_and a (2 ^ k - 1) ≡ a % 2 ^ k
bit_and_mask k a = ground (arith, one-le-pow k 2, bit_and_fields k (a / 2 ^ k) (a % 2 ^ k))

bit_and-halve : (a b : ℕ) → bit_and a b / 2 ≡ bit_and (a / 2) (b / 2)
bit_and-halve a b = omega (arith, bit_and_step a b)

-- A shift to the right goes under `&`.
pub bit_and_shift : (k a b : ℕ) → bit_and a b / 2 ^ k ≡ bit_and (a / 2 ^ k) (b / 2 ^ k)
bit_and_shift zero a b = rw (div-one, div-one, div-one)
bit_and_shift (suc k) a b =
    rw
      (
        two_pow k,
        ← div-div-eq-div-mul,
        ← div-div-eq-div-mul,
        ← div-div-eq-div-mul,
        bit_and-halve a b,
      )
      (bit_and_shift k (a / 2) (b / 2))
  where
    two_pow : (n : ℕ) → 2 ^ suc n ≡ 2 * 2 ^ n
    two_pow n = omega (arith, pow-suc 2 n)

-- The low field of the left side stays where the right side has none.
pub bit_or_high :
    (k p r q : ℕ) → r < 2 ^ k → bit_or (p * 2 ^ k + r) (q * 2 ^ k) ≡ bit_or p q * 2 ^ k + r
bit_or_high zero p zero q h =
    let p' : p * 2 ^ 0 + 0 ≡ p = omega arith in
    let q' : q * 2 ^ 0 ≡ q = omega arith in rw (p', q') (omega arith)
bit_or_high zero p (suc r) q h = absurd (omega arith)
bit_or_high (suc k) p r q h = ground (
  arith,
  bit_or_step (p * 2 ^ suc k + r) (q * 2 ^ suc k),
  halve p k,
  halve q k,
  halve (bit_or p q) k,
  pow-suc 2 k,
  bit_or_high k p (r / 2) q,
)

-- A mask of ones swallows what fits into it.
pub bit_or_ones : (k r : ℕ) → r < 2 ^ k → bit_or (2 ^ k - 1) r ≡ 2 ^ k - 1
bit_or_ones zero zero h = refl
bit_or_ones zero (suc r) h = absurd (omega arith)
bit_or_ones (suc k) r h = ground (
  arith,
  bit_or_step (2 ^ suc k - 1) r,
  pow-suc 2 k,
  one-le-pow k 2,
  bit_or_ones k (r / 2) (omega arith),
)
