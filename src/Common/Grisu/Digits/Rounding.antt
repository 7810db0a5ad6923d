-- ===== src/Common/Grisu/Digits/Rounding.antt =====
-- common/string.hpp, GrisuRound and CountDecimalDigit32: the rounds of the loop end, and keep the
-- digits within the boundaries.
use tiny_rpc.Prelude.{
  ℕ, zero, suc, ◌+◌, ◌-◌, ◌*◌, ◌%◌, ◌^◌, ◌≤◌, ◌<◌, true, false, Bool-cases, inl, inr, List, [], ◌∷◌,
  Option, some, ◌≡◌, refl, subst, ap, arith,
}
use tiny_rpc.Prelude.Maybe.{◌>>=◌}
use tiny_rpc.Common.Grisu.Digits.{
  grisu_round, decrement_last, goes_nearer, count_decimal_digit32, add64,
}

-- `buffer[len - 1]--`, so many times.
unfoldable pub lower : ℕ → List ℕ → Option (List ℕ)
lower zero buffer = some buffer
lower (suc m) buffer = do buffer' ← decrement_last buffer; lower m buffer'

-- The number of decimal digits of a 32-bit number that is not zero.
pub count_decimal_digit32_lem :
    (n : ℕ)
    → 0 < n
    → n < 2 ^ 32
    → (10 ^ (count_decimal_digit32 n - 1) ≤ n) × (n < 10 ^ count_decimal_digit32 n)
unfolding count_decimal_digit32
count_decimal_digit32_lem n positive bound = ground arith

decrement_last-some :
    (c : ℕ) (cs : List ℕ) → (d : ℕ) × (ds : List ℕ) × (decrement_last (c ∷ cs) ≡ some (d ∷ ds))
unfolding decrement_last
decrement_last-some c [] = ((c + 255) % 256, [], refl)
decrement_last-some c (d ∷ cs) =
    let step = decrement_last-some d cs in
    (c, step.0 ∷ step.1, ap (λ r. do rest ← r; some (c ∷ rest)) step.2)

-- Where the test holds the sum does not wrap around and stays within `delta`.
goes_nearer_room :
    (delta rest ten_kappa wp_w : ℕ)
    → rest ≤ delta
    → delta < 2 ^ 64
    → goes_nearer delta rest ten_kappa wp_w ≡ true
    → (rest + ten_kappa ≤ delta) × (add64 rest ten_kappa ≡ rest + ten_kappa)
unfolding goes_nearer
goes_nearer_room delta rest ten_kappa wp_w le lt nearer = ground arith

-- From a remainder that is no larger than the 64-bit `delta`, with a step above zero,
-- `GrisuRound` ends, with fuel above their difference, on any digits but none: it has lowered the
-- last digit once for each step added to the remainder, which is still no larger than `delta`,
-- and no further step would bring it nearer.
pub grisu_round_lem :
    (fuel c : ℕ) (cs : List ℕ) (delta rest ten_kappa wp_w : ℕ)
    → rest ≤ delta
    → delta < 2 ^ 64
    → 0 < ten_kappa
    → delta - rest < fuel
    → (m : ℕ) × (grisu_round fuel (c ∷ cs) delta rest ten_kappa wp_w ≡ lower m (c ∷ cs))
      × (rest + m * ten_kappa ≤ delta)
      × (goes_nearer delta (rest + m * ten_kappa) ten_kappa wp_w ≡ false)
unfolding grisu_round lower
grisu_round_lem zero c cs delta rest ten_kappa wp_w le lt positive enough = absurd (omega arith)
grisu_round_lem (suc fuel) c cs delta rest ten_kappa wp_w le lt positive enough =
    elim (Bool-cases (goes_nearer delta rest ten_kappa wp_w)) [
      | inl nearer ↦
          let room = goes_nearer_room delta rest ten_kappa wp_w le lt nearer in
          let step = decrement_last-some c cs in
          let later =
            grisu_round_lem fuel step.0 step.1 delta (rest + ten_kappa) ten_kappa wp_w room.0 lt
              positive (omega (arith, room.0)) in
          (
            suc later.0,
            rw (nearer, step.2, room.1) later.1,
            omega (arith, later.2),
            subst (λ r. goes_nearer delta r ten_kappa wp_w ≡ false) (omega arith) later.3,
          )
      | inr done ↦ (
        0,
        rw done refl,
        omega arith,
        subst (λ r. goes_nearer delta r ten_kappa wp_w ≡ false) (omega arith) done,
      )
    ]
