-- ===== src/Common/Itoa/Bounds.antt =====
-- common/string.hpp, itoa and ptrtoa: how much of the buffer they use.
use tiny_rpc.Prelude.{
  ℕ, zero, suc, ◌-◌, ◌/◌, ◌≤◌, ◌<◌, ◌≡◌, refl, arith, ◌&&◌, List, [], ◌∷◌, ◌++◌, length, reverse,
  ltb, length-append, Bool-cases, inl, inr,
}
use mathlib.Core.List.{reverse-cons}
use tiny_rpc.Common.Itoa.{
  Width, IntType, quotient, low_digits, itoa, magnitude, low_digits_hex, ptrtoa, is_negative,
}

pub length-reverse : (xs : List ℕ) → length (reverse xs) ≡ length xs
length-reverse [] = refl
length-reverse (x ∷ xs) =
    rw (reverse-cons x xs) (omega (arith, length-append (reverse xs) (x ∷ []), length-reverse xs))

pub length-low_digits : (w : Width) (room v : ℕ) → length (low_digits w room v) ≤ room
unfolding low_digits
length-low_digits w zero v = omega arith
length-low_digits w (suc room) v = ground (arith, length-low_digits w room (quotient w v))

length-low_digits_hex : (room v : ℕ) → length (low_digits_hex room v) ≤ room
unfolding low_digits_hex
length-low_digits_hex zero v = omega arith
length-low_digits_hex (suc room) v = ground (arith, length-low_digits_hex room (v / 16))

-- In a buffer of at least one byte `itoa` writes inside it, the final zero byte included.
pub itoa_bounds :
    (t : IntType) (maxlen value : ℕ) → 0 < maxlen → length (itoa t maxlen value) < maxlen
unfolding itoa
itoa_bounds t maxlen value h =
    elim (Bool-cases (is_negative t value && ltb 2 (maxlen - length ds))) [
      | inl signed ↦
          rw signed
            (ground (arith, fits, length-reverse (ds ++ b'-' ∷ []), length-append ds (b'-' ∷ [])))
      | inr plain ↦ rw plain (omega (arith, fits, length-reverse (ds ++ []), length-append ds []))
    ]
  where
    ds : List ℕ
    ds = low_digits t.width (maxlen - 1) (magnitude t value)

    fits : length ds ≤ maxlen - 1
    fits = length-low_digits t.width (maxlen - 1) (magnitude t value)

-- So does `ptrtoa`.
pub ptrtoa_bounds : (maxlen value : ℕ) → 0 < maxlen → length (ptrtoa maxlen value) < maxlen
unfolding ptrtoa
ptrtoa_bounds maxlen value h = omega (
  arith,
  length-reverse (low_digits_hex (maxlen - 1) value),
  length-low_digits_hex (maxlen - 1) value,
)
