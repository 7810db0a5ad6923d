-- ===== src/Common/Itoa/RoundTrip.antt =====
-- common/string.hpp, itoa: the text read back.
use tiny_rpc.Prelude.{
  ℕ, zero, suc, ◌+◌, ◌-◌, ◌/◌, ◌^◌, ◌≤◌, ◌<◌, ◌≡◌, refl, ap, ◌∙◌, arith, true, false, List, [], ◌∷◌,
  ◌++◌, ◌&&◌, ◌==◌, none, some, length-append, length, reverse, ltb, if◌then◌else◌, Bool-cases, inl,
  inr, ◌⊎◌, append-nil,
}
use mathlib.Core.List.{reverse-append}
use native.Mathlib.Nat.{pow-suc, one-le-pow}
use tiny_rpc.Prelude.Int.{pos}
use tiny_rpc.Common.Itoa.{
  Width, bits, IntType, quotient, magnitude, is_negative, low_digits, itoa, negation_overflows,
}
use tiny_rpc.Common.Itoa.Bounds.{length-reverse}
use tiny_rpc.Common.Itoa.Reading.{
  scan, negate, read_back, integer, quotient_lem, scan-low_digits, length_digits,
  low_digits-IsDigits, reverse-IsDigits, read_back-digits, negate_positive, magnitude_lem,
  magnitude-lt, signed, read_number, IsDigits,
}

read_back-itoa :
    (t : IntType) (maxlen k value : ℕ)
    → value < 2 ^ bits t.width
    → magnitude t value < 10 ^ k
    → k + 3 ≤ maxlen
    → read_back (itoa t maxlen value) ≡ integer t value
unfolding itoa
read_back-itoa t maxlen k value h small fits = elim (Bool-cases (is_negative t value)) [
  | inl below ↦
      let v : magnitude t value ≡ 2 ^ bits t.width - value = size ∙ rw below refl in
      rw (below, room, reverse-append ds (b'-' ∷ []))
        (signed (reverse ds)
          ∙ ap negate (scanned ∙ v)
          ∙ negate_positive (2 ^ bits t.width - value) (omega arith))
  | inr above ↦
      let v : magnitude t value ≡ value = size ∙ rw above refl in
      rw (above, append-nil ds)
        (read_back-digits (reverse ds) (
            reverse-IsDigits ds
              (low_digits-IsDigits t.width (maxlen - 1) (magnitude t value) in_range))
          ∙ ap pos (scanned ∙ v))
]
  where
    ds : List ℕ
    ds = low_digits t.width (maxlen - 1) (magnitude t value)

    size : magnitude t value ≡ (if is_negative t value then 2 ^ bits t.width - value else value)
    size = magnitude_lem t.width t.is_signed value h

    in_range : magnitude t value < 2 ^ bits t.width
    in_range = magnitude-lt t.width t.is_signed value h

    room : ltb 2 (maxlen - length ds) ≡ true
    room = ground (arith, length_digits t.width (maxlen - 1) k (magnitude t value) in_range small)

    scanned : scan 0 (reverse ds) ≡ magnitude t value
    scanned =
        scan-low_digits t.width (maxlen - 1) k (magnitude t value) in_range small (omega arith)

low_digits-zero : (w : Width) (room : ℕ) → low_digits w room 0 ≡ []
unfolding low_digits
low_digits-zero w zero = refl
low_digits-zero w (suc room) = refl

low_digits-some : (w : Width) (room v : ℕ) → 0 < room → 0 < v → 0 < length (low_digits w room v)
unfolding low_digits
low_digits-some w zero v room some_v = absurd (omega arith)
low_digits-some w (suc room) v some_room some_v = ground arith

itoa-zero : (t : IntType) (maxlen : ℕ) → itoa t maxlen 0 ≡ []
unfolding itoa
itoa-zero t maxlen =
    let above : is_negative t 0 ≡ false = not_below t in
    let none_left : magnitude t 0 ≡ 0 =
      magnitude_lem t.width t.is_signed 0 (omega (arith, one-le-pow (bits t.width) 2))
      ∙ rw above refl in
    rw (none_left, low_digits-zero t.width (maxlen - 1), above) refl
  where
    not_below : (t : IntType) → is_negative t 0 ≡ false
    not_below t = ground (arith, one-le-pow (bits t.width - 1) 2)

itoa-some :
    (t : IntType) (maxlen value : ℕ)
    → value < 2 ^ bits t.width
    → 0 < value
    → 1 < maxlen
    → 0 < length (itoa t maxlen value)
unfolding itoa
itoa-some t maxlen value h some_value room =
    let size = magnitude_lem t.width t.is_signed value h in
    let big : 0 < magnitude t value = ground (arith, size) in
    let ds = low_digits t.width (maxlen - 1) (magnitude t value) in
    let sign : List ℕ =
      if is_negative t value && ltb 2 (maxlen - length ds) then b'-' ∷ [] else [] in
    omega (
      arith,
      low_digits-some t.width (maxlen - 1) (magnitude t value) (omega arith) big,
      length-reverse (ds ++ sign),
      length-append ds sign,
    )

-- With room for its sign the text of an integer is two characters or more, or only digits.
itoa-IsDigits :
    (t : IntType) (maxlen k value : ℕ)
    → value < 2 ^ bits t.width
    → 0 < value
    → magnitude t value < 10 ^ k
    → k + 3 ≤ maxlen
    → (1 < length (itoa t maxlen value)) ⊎ IsDigits (itoa t maxlen value)
unfolding itoa
itoa-IsDigits t maxlen k value h some_value small fits = elim (Bool-cases (is_negative t value)) [
  | inl below ↦
      rw (below, room)
        (inl (
          omega (
            arith,
            low_digits-some t.width (maxlen - 1) (magnitude t value) (omega arith) big,
            length-reverse (ds ++ b'-' ∷ []),
            length-append ds (b'-' ∷ []),
          )))
  | inr above ↦
      rw (above, append-nil ds)
        (inr (
          reverse-IsDigits ds
            (low_digits-IsDigits t.width (maxlen - 1) (magnitude t value) in_range)))
]
  where
    ds : List ℕ
    ds = low_digits t.width (maxlen - 1) (magnitude t value)

    in_range : magnitude t value < 2 ^ bits t.width
    in_range = magnitude-lt t.width t.is_signed value h

    big : 0 < magnitude t value
    big = ground (arith, magnitude_lem t.width t.is_signed value h)

    room : ltb 2 (maxlen - length ds) ≡ true
    room = ground (arith, length_digits t.width (maxlen - 1) k (magnitude t value) in_range small)

read_number-read_back :
    (text : List ℕ)
    → 0 < length text
    → (1 < length text) ⊎ IsDigits text
    → read_number text ≡ some (read_back text)
unfolding read_number read_back scan
read_number-read_back [] some_text shape = absurd (omega arith)
read_number-read_back (c ∷ []) some_text (inl long) = absurd (omega arith)
read_number-read_back (c ∷ []) some_text (inr digits) =
    let digit : (c == b'-') ≡ false = ground (arith, digits.0) in rw digit refl
read_number-read_back (c ∷ d ∷ cs) some_text shape = refl

-- The text of an integer of any width other than zero, with its sign, is read back as that
-- integer, in a buffer with three bytes more than the digits of its magnitude take; the text of
-- zero is empty, which is no number. Condition: the integer is not the minimum of a signed type of
-- 32 or 64 bits, whose negation overflows.
pub itoa_lem :
    (t : IntType) (maxlen k value : ℕ)
    → value < 2 ^ bits t.width
    → negation_overflows t value ≡ false
    → magnitude t value < 10 ^ k
    → k + 3 ≤ maxlen
    → read_number (itoa t maxlen value) ≡ (if value == 0 then none else some (integer t value))
unfolding read_number
itoa_lem t maxlen k zero h fine small fits = rw (itoa-zero t maxlen) refl
itoa_lem t maxlen k (suc value) h fine small fits =
    let other : (suc value == 0) ≡ false = ground arith in
    rw other (
      read_number-read_back (itoa t maxlen (suc value))
        (itoa-some t maxlen (suc value) h (omega arith) (omega arith))
        (itoa-IsDigits t maxlen k (suc value) h (omega arith) small fits)
      ∙ ap some (read_back-itoa t maxlen k (suc value) h small fits))

digits_long :
    (w : Width) (room k v : ℕ)
    → v < 2 ^ bits w
    → 10 ^ k ≤ v
    → k < room
    → k < length (low_digits w room v)
unfolding low_digits
digits_long w zero k v h big fits = absurd (omega arith)
digits_long w (suc room) zero v h big fits = ground arith
digits_long w (suc room) (suc k) v h big fits =
    let q : quotient w v ≡ v / 10 = quotient_lem w v h in
    rw q (ground (arith, pow-suc 10 k, one-le-pow (suc k) 10, digits_long w room k (v / 10)))

-- A negative integer whose magnitude has k + 1 digits loses its sign in a buffer of k + 3 bytes,
-- which has room for the sign, the digits and the final zero byte.
pub itoa_sign_lost :
    (t : IntType) (k value : ℕ)
    → value < 2 ^ bits t.width
    → is_negative t value ≡ true
    → 10 ^ k ≤ magnitude t value
    → magnitude t value < 10 ^ suc k
    → read_back (itoa t (k + 3) value) ≡ pos (magnitude t value)
unfolding itoa
itoa_sign_lost t k value h below big small =
    rw (below, room, append-nil ds)
      (read_back-digits (reverse ds) (
          reverse-IsDigits ds
            (low_digits-IsDigits t.width (k + 3 - 1) (magnitude t value) in_range))
        ∙ ap pos (
            scan-low_digits t.width (k + 3 - 1) (suc k) (magnitude t value) in_range small
              (omega arith)))
  where
    ds : List ℕ
    ds = low_digits t.width (k + 3 - 1) (magnitude t value)

    in_range : magnitude t value < 2 ^ bits t.width
    in_range = magnitude-lt t.width t.is_signed value h

    room : ltb 2 (k + 3 - length ds) ≡ false
    room = ground (arith, digits_long t.width (k + 3 - 1) k (magnitude t value) in_range big)
