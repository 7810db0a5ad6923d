-- ===== src/Common/Grisu/Exponent/Reading.antt =====
-- common/string.hpp, WriteExponent: the text read back.
use tiny_rpc.Prelude.{
  ℕ, zero, suc, ◌+◌, ◌-◌, ◌*◌, ◌/◌, ◌%◌, ◌<◌, Bool, true, false, ◌&&◌, List, [], ◌∷◌, length, leb,
  ◌==◌, ◌≡◌, refl, ap, arith, Bool-cases, inl, inr, ◌∙◌,
}
use tiny_rpc.Prelude.Int.{pos, negsuc}
use tiny_rpc.Common.Itoa.{char_at}
use tiny_rpc.Common.Itoa.Reading.{scan, negate, read_back, signed, negate_positive}
use tiny_rpc.Common.Grisu.Exponent.{digits_lut, two_digits, exponent_digits, write_exponent}

-- Whether a table holds the pairs of digits of the numbers from `i` on.
pairs_right : ℕ → List ℕ → Bool
pairs_right i [] = true
pairs_right i (c ∷ []) = false
pairs_right i (c ∷ d ∷ cs) = c == b'0' + i / 10 && d == b'0' + i % 10 && pairs_right (suc i) cs

pair_at :
    (i n : ℕ) (cs : List ℕ)
    → pairs_right i cs ≡ true
    → n * 2 + 1 < length cs
    → (char_at cs (n * 2) ≡ b'0' + (i + n) / 10) × (char_at cs (n * 2 + 1) ≡ b'0' + (i + n) % 10)
unfolding pairs_right
pair_at i n [] right inside = absurd (omega arith)
pair_at i n (c ∷ []) right inside = absurd (omega arith)
pair_at i zero (c ∷ d ∷ cs) right inside =
    let here : i + 0 ≡ i = omega arith in rw here (ground arith)
pair_at i (suc n) (c ∷ d ∷ cs) right inside =
    let there : i + suc n ≡ suc i + n = omega arith in
    let twice : suc n * 2 ≡ suc (suc (n * 2)) = omega arith in
    let next : suc (suc (n * 2)) + 1 ≡ suc (suc (n * 2 + 1)) = omega arith in
    rw (there, twice, next) (pair_at (suc i) n cs (ground (arith, right)) (omega arith))

table_right : pairs_right 0 digits_lut ≡ true
unfolding pairs_right
table_right = refl

two_digits_lem : (n k : ℕ) → k < 100 → scan n (two_digits k) ≡ n * 100 + k
unfolding scan two_digits
two_digits_lem n k small =
    let (high, low) = pair_at 0 k digits_lut table_right (omega arith) in omega (arith, high, low)

exponent_digits_lem : (k : ℕ) → k < 1000 → scan 0 (exponent_digits k) ≡ k
unfolding exponent_digits scan
exponent_digits_lem k small = ground (arith, two_digits_lem (k / 100) (k % 100), two_digits_lem 0 k)

not_minus : (c d : ℕ) → c ≡ b'0' + d → (c == b'-') ≡ false
not_minus c d is_digit = ground arith

-- The first character is a digit.
first_digit :
    (k : ℕ)
    → k < 1000
    → (c : ℕ) × (cs : List ℕ) × (exponent_digits k ≡ c ∷ cs) × ((c == b'-') ≡ false)
unfolding exponent_digits two_digits
first_digit k small = elim (Bool-cases (leb 100 k)) [
  | inl big ↦ ((b'0' + k / 100) % 256, two_digits (k % 100), rw big refl, ground arith)
  | inr low ↦ elim (Bool-cases (leb 10 k)) [
    | inl middle ↦
        let (high, _) = pair_at 0 k digits_lut table_right (ground arith) in
        (
          char_at digits_lut (k * 2),
          char_at digits_lut (k * 2 + 1) ∷ [],
          rw (low, middle) refl,
          not_minus (char_at digits_lut (k * 2)) ((0 + k) / 10) high,
        )
    | inr single ↦ ((b'0' + k) % 256, [], rw (low, single) refl, ground arith)
  ]
]

-- The text that `WriteExponent` writes for an exponent of less than four digits is read back as
-- that exponent, with its sign.
pub write_exponent_lem :
    (k : ℕ)
    → k < 999
    → (read_back (write_exponent (pos k)) ≡ pos k)
      × (read_back (write_exponent (negsuc k)) ≡ negsuc k)
unfolding write_exponent read_back scan
write_exponent_lem k small = (
  (let (c, cs, text, digit) = first_digit k (omega arith) in
      plain c cs (exponent_digits k) digit text ∙ ap pos (exponent_digits_lem k (omega arith))),
  signed (exponent_digits (suc k))
      ∙ ap negate (exponent_digits_lem (suc k) (omega arith))
      ∙ negate_positive (suc k) (omega arith)
      ∙ ap negsuc {x = suc k - 1} {y = k} (omega arith),
)
  where
    plain :
        (c : ℕ) (cs text : List ℕ)
        → (c == b'-') ≡ false
        → text ≡ c ∷ cs
        → read_back text ≡ pos (scan 0 text)
    plain c cs text digit is_text = rw is_text (rw (read_back, digit) refl)
