-- ===== src/Common/Grisu.antt =====
-- common/string.hpp, dtoa_grisu2 up to its digits: a double as a significand and an exponent, its
-- boundaries, and the product with a cached power of ten.
-- A double is its bit pattern, an `int` an integer. `none` is a failed assertion, a shift by a
-- negative number or by the width of the type and more, an index outside a table, or a loop that
-- does not end.
pub mod Table
pub mod Scaling
pub mod Powers
pub mod Digits
pub mod Exponent
pub mod Prettify
use tiny_rpc.Prelude.{
  ℕ, zero, suc, ◌+◌, ◌-◌, ◌*◌, ◌/◌, ◌%◌, ◌^◌, bit_and, Bool, true, false, ◌&&◌, List, [], ◌∷◌,
  Option, none, some, leb, ltb, ◌==◌, if◌then◌else◌, get_elem?,
}
use tiny_rpc.Prelude.Int.{ℤ, pos, negsuc, ◌+ℤ◌, ◌-ℤ◌, leb_ℤ}
use tiny_rpc.Prelude.Maybe.{◌>>=◌, ◌>>◌, require}
use Table.{cached_powers_f, cached_powers_e}

pub record DiyFp : Type 0 where
  pub f : ℕ
  pub e : ℤ

abbrev pub dp_significand_size : ℕ
dp_significand_size = 52

abbrev pub dp_exponent_bias : ℕ
dp_exponent_bias = 0x3ff + 52

abbrev pub dp_exponent_mask : ℕ
dp_exponent_mask = 0x7ff0000000000000

abbrev pub dp_significand_mask : ℕ
dp_significand_mask = 0x000fffffffffffff

abbrev pub dp_hidden_bit : ℕ
dp_hidden_bit = 0x0010000000000000

-- `DiyFp(double d)`.
unfoldable pub diy_fp : ℕ → DiyFp
diy_fp d =
    let biased_e = bit_and d dp_exponent_mask / 2 ^ dp_significand_size in
    let significand = bit_and d dp_significand_mask in
    if biased_e == 0
    then record { f = significand; e = negsuc (dp_exponent_bias - 1) +ℤ pos 1 }
    else record { f = significand + dp_hidden_bit; e = pos biased_e -ℤ pos dp_exponent_bias }

-- `x << s` on 64 bits.
abbrev pub shift_left : ℕ → ℕ → ℕ
shift_left x s = x * 2 ^ s % 2 ^ 64

-- The number of places of a shift, which an `int` gives.
unfoldable pub places : ℤ → Option ℕ
places (pos s) = if ltb s 64 then some s else none
places (negsuc s) = none

same_exponent : ℤ → ℤ → Bool
same_exponent a b = leb_ℤ a b && leb_ℤ b a

unfoldable pub subtract : DiyFp → DiyFp → Option DiyFp
unfolding same_exponent
subtract x rhs = do
  require (same_exponent x.e rhs.e)
  require (leb rhs.f x.f)
  some (record { f = x.f - rhs.f; e = x.e })

unfoldable pub multiply : DiyFp → DiyFp → DiyFp
multiply x rhs =
    let a = x.f / 2 ^ 32 in
    let b = x.f % 2 ^ 32 in
    let c = rhs.f / 2 ^ 32 in
    let d = rhs.f % 2 ^ 32 in
    let ac = a * c % 2 ^ 64 in
    let bc = b * c % 2 ^ 64 in
    let ad = a * d % 2 ^ 64 in
    let bd = b * d % 2 ^ 64 in
    let tmp = (bd / 2 ^ 32 + ad % 2 ^ 32 + bc % 2 ^ 32 + 2 ^ 31) % 2 ^ 64 in
    record {
      f = (ac + ad / 2 ^ 32 + bc / 2 ^ 32 + tmp / 2 ^ 32) % 2 ^ 64;
      e = x.e +ℤ rhs.e +ℤ pos 64;
    }

-- `__builtin_clzll` of a number that is not zero.
unfoldable pub leading_zeros : ℕ → ℕ → ℕ
leading_zeros zero x = 0
leading_zeros (suc width) x =
    let rest = suc (leading_zeros width x) in if leb (2 ^ width) x then 0 else rest

unfoldable pub normalize : DiyFp → DiyFp
unfolding leading_zeros
normalize x = let s = leading_zeros 64 x.f in record { f = shift_left x.f s; e = x.e -ℤ pos s }

-- The loop of `NormalizeBoundary`; the test is on bit 53.
unfoldable pub shift_up : ℕ → DiyFp → Option DiyFp
shift_up zero res = none
shift_up (suc fuel) res =
    let rest = shift_up fuel (record { f = shift_left res.f 1; e = res.e -ℤ pos 1 }) in
    if res.f / 2 ^ 53 % 2 == 1 then some res else rest

unfoldable pub normalize_boundary : DiyFp → Option DiyFp
normalize_boundary x = do
  res ← shift_up 64 x
  some (record { f = shift_left res.f (64 - 52 - 2); e = res.e -ℤ pos (64 - 52 - 2) })

-- `NormalizedBoundaries`: the lower boundary and the upper one.
unfoldable pub normalized_boundaries : DiyFp → Option (DiyFp × DiyFp)
normalized_boundaries x = do
  pl ← normalize_boundary (record { f = (shift_left x.f 1 + 1) % 2 ^ 64; e = x.e -ℤ pos 1 })
  let mi : DiyFp =
      if x.f == dp_hidden_bit
      then record { f = (shift_left x.f 2 + 2 ^ 64 - 1) % 2 ^ 64; e = x.e -ℤ pos 2 }
      else record { f = (shift_left x.f 1 + 2 ^ 64 - 1) % 2 ^ 64; e = x.e -ℤ pos 1 }
  s ← places (mi.e -ℤ pl.e)
  some (record { f = shift_left mi.f s; e = pl.e }, pl)

-- `GetCachedPower`: the power and `*K`. `ceil_dk e` is `dk`, computed in doubles and rounded up.
unfoldable pub get_cached_power : (ℤ → ℕ) → ℤ → Option (DiyFp × ℤ)
get_cached_power ceil_dk e = do
  let index = ceil_dk e / 2 ^ 3 + 1
  f ← get_elem? cached_powers_f index
  e' ← get_elem? cached_powers_e index
  some (record { f = f; e = e' }, pos 348 -ℤ pos (index * 2 ^ 3))
