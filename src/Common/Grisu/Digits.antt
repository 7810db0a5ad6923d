-- ===== src/Common/Grisu/Digits.antt =====
-- common/string.hpp, GrisuRound, CountDecimalDigit32, DigitGen and Grisu2: the shortest digits of a
-- double. The buffer is the list of the characters written so far.
pub mod Rounding
use tiny_rpc.Prelude.{
  ℕ, zero, suc, ◌+◌, ◌-◌, ◌*◌, ◌/◌, ◌%◌, ◌^◌, Bool, true, false, ◌&&◌, ◌||◌, List, [], ◌∷◌, ◌++◌,
  Option, none, some, leb, ltb, ◌==◌, if◌then◌else◌, get_elem?, length,
}
use tiny_rpc.Prelude.Int.{ℤ, pos, negsuc, ◌+ℤ◌, ◌-ℤ◌}
use tiny_rpc.Prelude.Maybe.{◌>>=◌}
use tiny_rpc.Common.Grisu.{
  DiyFp, diy_fp, subtract, multiply, normalize, normalized_boundaries, get_cached_power, places,
  shift_left,
}

-- Sums and differences of 64-bit numbers.
abbrev pub add64 : ℕ → ℕ → ℕ
add64 a b = (a + b) % 2 ^ 64

abbrev pub sub64 : ℕ → ℕ → ℕ
sub64 a b = (a + 2 ^ 64 - b) % 2 ^ 64

-- `buffer[len - 1]--`.
unfoldable pub decrement_last : List ℕ → Option (List ℕ)
decrement_last [] = none
decrement_last (c ∷ []) = some ((c + 255) % 256 ∷ [])
decrement_last (c ∷ d ∷ cs) = do rest ← decrement_last (d ∷ cs); some (c ∷ rest)

-- The condition of the loop.
unfoldable pub goes_nearer : ℕ → ℕ → ℕ → ℕ → Bool
goes_nearer delta rest ten_kappa wp_w =
    ltb rest wp_w
    && leb ten_kappa (sub64 delta rest)
    && (ltb (add64 rest ten_kappa) wp_w
        || ltb (sub64 (add64 rest ten_kappa) wp_w) (sub64 wp_w rest))

unfoldable pub grisu_round : ℕ → List ℕ → ℕ → ℕ → ℕ → ℕ → Option (List ℕ)
grisu_round zero buffer delta rest ten_kappa wp_w = none
grisu_round (suc fuel) buffer delta rest ten_kappa wp_w =
    let next = do
      buffer' ← decrement_last buffer
      grisu_round fuel buffer' delta (add64 rest ten_kappa) ten_kappa wp_w
    in if goes_nearer delta rest ten_kappa wp_w then next else some buffer

unfoldable pub count_decimal_digit32 : ℕ → ℕ
count_decimal_digit32 n =
    if ltb n 10
    then 1
    else if ltb n 100
    then 2
    else if ltb n 1000
    then 3
    else if ltb n 10000
    then 4
    else if ltb n 100000
    then 5
    else if ltb n 1000000
    then 6
    else if ltb n 10000000
    then 7
    else if ltb n 100000000
    then 8
    else if ltb n 1000000000
    then 9
    else 10

abbrev pub pow10 : List ℕ
pow10 = 1 ∷ 10 ∷ 100 ∷ 1000 ∷ 10000 ∷ 100000 ∷ 1000000 ∷ 10000000 ∷ 100000000 ∷ 1000000000 ∷ []

-- The `switch`: the digit, and what is left of `p1`.
unfoldable pub split_digit : ℕ → ℕ → ℕ × ℕ
split_digit kappa p1 =
    if leb 1 kappa && leb kappa 10 then (p1 / 10 ^ (kappa - 1), p1 % 10 ^ (kappa - 1)) else (0, p1)

-- `if (d || *len) buffer[(*len)++] = '0' + d;`
unfoldable pub push_digit : List ℕ → ℕ → List ℕ
push_digit buffer d =
    if d == 0 && length buffer == 0 then buffer else buffer ++ (b'0' + d) % 256 ∷ []

-- A loop of `DigitGen` returns with the digits and what is added to `*K`, or goes on.
pub data Stage : Type 0 where
  finished : List ℕ → ℤ → Stage
  unfinished : List ℕ → Stage

-- More rounds than there are 64-bit numbers.
abbrev pub round_fuel : ℕ
round_fuel = 2 ^ 64

-- `s` is `-one.e`, and `one.f` is 2 ^ s.
module _ (s : ℕ) where
  unfoldable pub integral_digits : ℕ → ℕ → ℕ → ℕ → ℕ → List ℕ → Option Stage
  integral_digits delta wp_w p2 zero p1 buffer = some (unfinished buffer)
  integral_digits delta wp_w p2 (suc kappa) p1 buffer =
      let split = split_digit (suc kappa) p1 in
      let buffer' = push_digit buffer split.0 in
      let tmp = add64 (shift_left split.1 s) p2 in
      let stop = do
        ten ← get_elem? pow10 kappa
        digits ← grisu_round round_fuel buffer' delta tmp (shift_left ten s) wp_w
        some (finished digits (pos kappa))
      in let rest = integral_digits delta wp_w p2 kappa split.1 buffer' in
        if leb tmp delta then stop else rest

  -- `n` rounds have been made, and `kappa` is -n.
  unfoldable pub fraction_digits : ℕ → ℕ → ℕ → ℕ → ℕ → List ℕ → Option Stage
  fraction_digits zero n wp_w p2 delta buffer = none
  fraction_digits (suc fuel) n wp_w p2 delta buffer =
      let p2' = p2 * 10 % 2 ^ 64 in
      let delta' = delta * 10 % 2 ^ 64 in
      let buffer' = push_digit buffer (p2' / 2 ^ s % 256) in
      let p2'' = p2' % 2 ^ s in
      let stop = do
        ten ← get_elem? pow10 (suc n)
        digits ← grisu_round round_fuel buffer' delta' p2'' (2 ^ s) (wp_w * ten % 2 ^ 64)
        some (finished digits (negsuc n))
      in let rest = fraction_digits fuel (suc n) wp_w p2'' delta' buffer' in
        if ltb p2'' delta' then stop else rest

-- Twenty rounds multiply `delta` beyond 64 bits.
abbrev pub fraction_fuel : ℕ
fraction_fuel = 20

unfoldable pub digit_gen : DiyFp → DiyFp → ℕ → ℤ → Option (List ℕ × ℤ)
digit_gen w mp delta k = do
  s ← places (pos 0 -ℤ mp.e)
  wp_w ← subtract mp w
  let p1 = mp.f / 2 ^ s % 2 ^ 32
  let p2 = mp.f % 2 ^ s
  stage ← integral_digits s delta wp_w.f p2 (count_decimal_digit32 p1) p1 []
  last ← elim stage [
    | finished digits k' ↦ some (finished digits k')
    | unfinished digits ↦ fraction_digits s fraction_fuel 0 wp_w.f p2 delta digits
  ]
  elim last [ finished digits k' ↦ some (digits, k +ℤ k') | unfinished digits ↦ none ]

-- `Grisu2`: the digits and `*K` of a positive double.
unfoldable pub grisu2 : (ℤ → ℕ) → ℕ → Option (List ℕ × ℤ)
grisu2 ceil_dk value = do
  let v = diy_fp value
  boundaries ← normalized_boundaries v
  power ← get_cached_power ceil_dk boundaries.1.e
  let w = multiply (normalize v) power.0
  let wp : DiyFp = multiply boundaries.1 power.0
  let wm : DiyFp = multiply boundaries.0 power.0
  let wp' : DiyFp = record wp { f = sub64 wp.f 1 }
  digit_gen w wp' (sub64 wp'.f (add64 wm.f 1)) power.1
