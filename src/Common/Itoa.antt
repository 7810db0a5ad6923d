-- ===== src/Common/Itoa.antt =====
-- common/string.hpp, itoa and ptrtoa: integers and pointers as text.
-- An integer is its bit pattern. A text is the bytes before the final zero byte.
pub mod Reading
pub mod RoundTrip
pub mod Bounds
pub mod Pointer
use tiny_rpc.Prelude.{
  ℕ, zero, suc, ◌+◌, ◌-◌, ◌*◌, ◌/◌, ◌%◌, ◌^◌, Bool, true, false, ◌&&◌, not, List, [], ◌∷◌, ◌++◌,
  length, reverse, ltb, leb, ◌==◌, if◌then◌else◌, get_elem?, Option, none, some,
}

-- The integral types, by `sizeof(T) * 8` and by whether they are signed.
pub data Width : Type 0 where
  w8 w16 w32 w64 : Width

abbrev pub bits : Width → ℕ
bits w8 = 8
bits w16 = 16
bits w32 = 32
bits w64 = 64

pub record IntType : Type 0 where
  pub width : Width
  pub is_signed : Bool

-- The bits of `umiT`, the type in which a product is computed.
abbrev pub product_bits : Width → ℕ
product_bits w64 = 128
product_bits w8 = 64
product_bits w16 = 64
product_bits w32 = 64

-- `static_cast<uiT>(...)` of the constant.
abbrev pub base : Width → ℕ
base w64 = 0xcccccccccccccccd
base w32 = 0xcccccccd
base w16 = 0xcccccccd % 2 ^ 16
base w8 = 0xcccccccd % 2 ^ 8

-- `(umiT)((umiT)v * base) >> shift_offset`.
unfoldable pub quotient : Width → ℕ → ℕ
quotient w v = v * base w % 2 ^ product_bits w / 2 ^ (bits w + 3)

abbrev pub is_negative : IntType → ℕ → Bool
is_negative t value = t.is_signed && leb (2 ^ (bits t.width - 1)) value

-- Whether `-value` overflows: at the minimum of a type that is not promoted to a wider one.
abbrev pub negation_overflows : IntType → ℕ → Bool
negation_overflows t value = t.is_signed && leb 32 (bits t.width) && value == 2 ^ (bits t.width - 1)

-- `value > 0 ? value : -value`, as an unsigned number. Where `-value` overflows, which the
-- language leaves open, it is the number that a wrapping negation gives.
unfoldable pub magnitude : IntType → ℕ → ℕ
magnitude t value =
    if not (value == 0) && not (is_negative t value)
    then value
    else (2 ^ bits t.width - value) % 2 ^ bits t.width

-- The character `zero[k]`, for a digit; `digits` has nine others before it.
abbrev pub digits : List ℕ
digits =
    b'9' ∷ b'8' ∷ b'7' ∷ b'6' ∷ b'5' ∷ b'4' ∷ b'3' ∷ b'2' ∷ b'1' ∷ b'0' ∷ b'1' ∷ b'2' ∷ b'3' ∷ b'4'
    ∷ b'5' ∷ b'6' ∷ b'7' ∷ b'8' ∷ b'9' ∷ []

abbrev pub digits_hex : List ℕ
digits_hex =
    b'0' ∷ b'1' ∷ b'2' ∷ b'3' ∷ b'4' ∷ b'5' ∷ b'6' ∷ b'7' ∷ b'8' ∷ b'9' ∷ b'a' ∷ b'b' ∷ b'c' ∷ b'd'
    ∷ b'e' ∷ b'f' ∷ []

-- A character of such a table; its final zero byte stands behind it.
abbrev pub char_at : List ℕ → ℕ → ℕ
char_at [] i = 0
char_at (c ∷ cs) zero = c
char_at (c ∷ cs) (suc i) = char_at cs i

-- The loop of `itoa`, the lowest digit first. It has `room` rounds: `1 < maxlen - i` holds for i
-- below maxlen - 1, and for no i if maxlen is 0 or 1.
unfoldable pub low_digits : Width → ℕ → ℕ → List ℕ
low_digits w zero v = []
low_digits w (suc room) v =
    let q = quotient w v in
    let rest = char_at digits (9 + (v - q * 10)) ∷ low_digits w room q in
    if v == 0 then [] else rest

unfoldable pub itoa : IntType → ℕ → ℕ → List ℕ
itoa t maxlen value =
    let ds = low_digits t.width (maxlen - 1) (magnitude t value) in
    let sign = if is_negative t value && ltb 2 (maxlen - length ds) then b'-' ∷ [] else [] in
    reverse (ds ++ sign)

-- The loop of `ptrtoa`, on a pointer's 64-bit pattern.
unfoldable pub low_digits_hex : ℕ → ℕ → List ℕ
low_digits_hex zero v = []
low_digits_hex (suc room) v =
    let q = v / 2 ^ 4 in
    let rest = char_at digits_hex (v - q * 2 ^ 4) ∷ low_digits_hex room q in
    if v == 0 then [] else rest

unfoldable pub ptrtoa : ℕ → ℕ → List ℕ
ptrtoa maxlen value = reverse (low_digits_hex (maxlen - 1) value)
