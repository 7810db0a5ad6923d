-- ===== src/Common/Grisu/Prettify/Tests.antt =====
-- Texts that Prettify writes, as its comments give them, and its theorem at a concrete input.
use tiny_rpc.Prelude.{◌≡◌, refl, arith, List, [], ◌∷◌, ℕ, ◌++◌}
use tiny_rpc.Prelude.Int.{pos, negsuc}
use tiny_rpc.Common.Itoa.Reading.{scan}
use tiny_rpc.Common.Grisu.Exponent.{write_exponent, exponent_digits, two_digits}
use tiny_rpc.Common.Grisu.Prettify.{scientific, layout, prettify}
use tiny_rpc.Common.Grisu.Prettify.Reading.{read_decimal}
use tiny_rpc.Common.Grisu.Prettify.RoundTrip.{prettify_lem}

abbrev digits_1234 : List ℕ
digits_1234 = b'1' ∷ b'2' ∷ b'3' ∷ b'4' ∷ []

whole_text :
    prettify digits_1234 (pos 7)
    ≡ digits_1234 ++ (b'0' ∷ b'0' ∷ b'0' ∷ b'0' ∷ b'0' ∷ b'0' ∷ b'0' ∷ b'.' ∷ b'0' ∷ [])
unfolding prettify layout
whole_text = refl

point_text : prettify digits_1234 (negsuc 1) ≡ b'1' ∷ b'2' ∷ b'.' ∷ b'3' ∷ b'4' ∷ []
unfolding prettify layout
point_text = refl

zeros_text : prettify digits_1234 (negsuc 5) ≡ b'0' ∷ b'.' ∷ b'0' ∷ b'0' ∷ digits_1234
unfolding prettify layout
zeros_text = refl

short_text : prettify (b'1' ∷ []) (pos 30) ≡ b'1' ∷ b'e' ∷ b'3' ∷ b'0' ∷ []
unfolding prettify layout scientific write_exponent exponent_digits two_digits
short_text = refl

long_text :
    prettify digits_1234 (pos 30) ≡ b'1' ∷ b'.' ∷ b'2' ∷ b'3' ∷ b'4' ∷ b'e' ∷ b'3' ∷ b'3' ∷ []
unfolding prettify layout scientific write_exponent exponent_digits two_digits
long_text = refl

prettify_lem_example : read_decimal (prettify digits_1234 (negsuc 1)) ≡ (1234, negsuc 1)
unfolding scan
prettify_lem_example =
    prettify_lem b'1' (b'2' ∷ b'3' ∷ b'4' ∷ []) (negsuc 1) (omega arith) (omega arith) (omega arith)
