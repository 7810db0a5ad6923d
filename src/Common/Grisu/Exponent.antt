-- ===== src/Common/Grisu/Exponent.antt =====
-- common/string.hpp, GetDigitsLut and WriteExponent: the exponent of a double as text. The text
-- is the characters that are written before the final zero byte.
pub mod Reading
use tiny_rpc.Prelude.{ℕ, zero, suc, ◌+◌, ◌*◌, ◌/◌, ◌%◌, List, [], ◌∷◌, leb, if◌then◌else◌}
use tiny_rpc.Prelude.Int.{ℤ, pos, negsuc}
use tiny_rpc.Common.Itoa.{char_at}

abbrev pub digits_lut : List ℕ
digits_lut =
    b'0' ∷ b'0' ∷ b'0' ∷ b'1' ∷ b'0' ∷ b'2' ∷ b'0' ∷ b'3' ∷ b'0' ∷ b'4' ∷ b'0' ∷ b'5' ∷ b'0' ∷ b'6'
    ∷ b'0' ∷ b'7' ∷ b'0' ∷ b'8' ∷ b'0' ∷ b'9' ∷ b'1' ∷ b'0' ∷ b'1' ∷ b'1' ∷ b'1' ∷ b'2' ∷ b'1'
    ∷ b'3' ∷ b'1' ∷ b'4' ∷ b'1' ∷ b'5' ∷ b'1' ∷ b'6' ∷ b'1' ∷ b'7' ∷ b'1' ∷ b'8' ∷ b'1' ∷ b'9'
    ∷ b'2' ∷ b'0' ∷ b'2' ∷ b'1' ∷ b'2' ∷ b'2' ∷ b'2' ∷ b'3' ∷ b'2' ∷ b'4' ∷ b'2' ∷ b'5' ∷ b'2'
    ∷ b'6' ∷ b'2' ∷ b'7' ∷ b'2' ∷ b'8' ∷ b'2' ∷ b'9' ∷ b'3' ∷ b'0' ∷ b'3' ∷ b'1' ∷ b'3' ∷ b'2'
    ∷ b'3' ∷ b'3' ∷ b'3' ∷ b'4' ∷ b'3' ∷ b'5' ∷ b'3' ∷ b'6' ∷ b'3' ∷ b'7' ∷ b'3' ∷ b'8' ∷ b'3'
    ∷ b'9' ∷ b'4' ∷ b'0' ∷ b'4' ∷ b'1' ∷ b'4' ∷ b'2' ∷ b'4' ∷ b'3' ∷ b'4' ∷ b'4' ∷ b'4' ∷ b'5'
    ∷ b'4' ∷ b'6' ∷ b'4' ∷ b'7' ∷ b'4' ∷ b'8' ∷ b'4' ∷ b'9' ∷ b'5' ∷ b'0' ∷ b'5' ∷ b'1' ∷ b'5'
    ∷ b'2' ∷ b'5' ∷ b'3' ∷ b'5' ∷ b'4' ∷ b'5' ∷ b'5' ∷ b'5' ∷ b'6' ∷ b'5' ∷ b'7' ∷ b'5' ∷ b'8'
    ∷ b'5' ∷ b'9' ∷ b'6' ∷ b'0' ∷ b'6' ∷ b'1' ∷ b'6' ∷ b'2' ∷ b'6' ∷ b'3' ∷ b'6' ∷ b'4' ∷ b'6'
    ∷ b'5' ∷ b'6' ∷ b'6' ∷ b'6' ∷ b'7' ∷ b'6' ∷ b'8' ∷ b'6' ∷ b'9' ∷ b'7' ∷ b'0' ∷ b'7' ∷ b'1'
    ∷ b'7' ∷ b'2' ∷ b'7' ∷ b'3' ∷ b'7' ∷ b'4' ∷ b'7' ∷ b'5' ∷ b'7' ∷ b'6' ∷ b'7' ∷ b'7' ∷ b'7'
    ∷ b'8' ∷ b'7' ∷ b'9' ∷ b'8' ∷ b'0' ∷ b'8' ∷ b'1' ∷ b'8' ∷ b'2' ∷ b'8' ∷ b'3' ∷ b'8' ∷ b'4'
    ∷ b'8' ∷ b'5' ∷ b'8' ∷ b'6' ∷ b'8' ∷ b'7' ∷ b'8' ∷ b'8' ∷ b'8' ∷ b'9' ∷ b'9' ∷ b'0' ∷ b'9'
    ∷ b'1' ∷ b'9' ∷ b'2' ∷ b'9' ∷ b'3' ∷ b'9' ∷ b'4' ∷ b'9' ∷ b'5' ∷ b'9' ∷ b'6' ∷ b'9' ∷ b'7'
    ∷ b'9' ∷ b'8' ∷ b'9' ∷ b'9' ∷ []

-- `d[0]` and `d[1]`, for a number below a hundred.
unfoldable pub two_digits : ℕ → List ℕ
two_digits k = char_at digits_lut (k * 2) ∷ char_at digits_lut (k * 2 + 1) ∷ []

-- The branches, for an exponent that is not negative.
unfoldable pub exponent_digits : ℕ → List ℕ
exponent_digits k =
    if leb 100 k
    then (b'0' + k / 100) % 256 ∷ two_digits (k % 100)
    else if leb 10 k
    then two_digits k
    else (b'0' + k) % 256 ∷ []

unfoldable pub write_exponent : ℤ → List ℕ
write_exponent (pos k) = exponent_digits k
write_exponent (negsuc k) = b'-' ∷ exponent_digits (suc k)
