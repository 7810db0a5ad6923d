-- ===== src/Common/Itoa/Reading.antt =====
-- common/string.hpp, itoa: the digits that it writes, read back.
use tiny_rpc.Prelude.{
  ℕ, zero, suc, ◌+◌, ◌-◌, ◌*◌, ◌/◌, ◌%◌, ◌^◌, ◌≤◌, ◌<◌, ◌≡◌, refl, ap, ◌∙◌, arith, Bool, List, [],
  Option, none, some, ◌∷◌, ◌++◌, length, reverse, ◌==◌, if◌then◌else◌, Bool-cases, inl, inr, All,
  All-append,
}
use mathlib.Core.List.{reverse-cons}
use native.Mathlib.Nat.{pow-suc}
use tiny_rpc.Prelude.Int.{ℤ, pos, negsuc}
use tiny_rpc.Common.Itoa.{
  Width, w8, w16, w32, w64, bits, IntType, quotient, magnitude, is_negative, digits, char_at,
  low_digits,
}

-- A text of decimal digits as a number, `n` being what was read before.
unfoldable pub scan : ℕ → List ℕ → ℕ
scan n [] = n
scan n (c ∷ cs) = scan (n * 10 + (c - b'0')) cs

pub negate : ℕ → ℤ
negate zero = pos zero
negate (suc n) = negsuc n

-- The integer that a text stands for: digits, or a minus sign and digits. The empty text is zero.
unfoldable pub read_back : List ℕ → ℤ
unfolding scan negate
read_back [] = pos 0
read_back (c ∷ cs) = if c == b'-' then negate (scan 0 cs) else pos (scan 0 (c ∷ cs))

-- The same, where a text without a digit is no number.
unfoldable pub read_number : List ℕ → Option ℤ
unfolding scan
read_number [] = none
read_number (c ∷ []) = if c == b'-' then none else some (pos (scan 0 (c ∷ [])))
read_number (c ∷ d ∷ cs) = some (read_back (c ∷ d ∷ cs))

-- The integer that a pattern stands for.
abbrev pub integer : IntType → ℕ → ℤ
integer t value = if is_negative t value then negsuc (2 ^ bits t.width - value - 1) else pos value

-- The product with the constant and the shift divide by ten.
pub quotient_lem : (w : Width) (v : ℕ) → v < 2 ^ bits w → quotient w v ≡ v / 10
unfolding quotient
quotient_lem w8 v h = omega arith
quotient_lem w16 v h = omega arith
quotient_lem w32 v h = omega arith
quotient_lem w64 v h = omega arith

pub digit_char : (k : ℕ) → k < 10 → char_at digits (9 + k) ≡ b'0' + k
digit_char zero h = refl
digit_char (suc zero) h = refl
digit_char (suc (suc zero)) h = refl
digit_char (suc (suc (suc zero))) h = refl
digit_char (suc (suc (suc (suc zero)))) h = refl
digit_char (suc (suc (suc (suc (suc zero))))) h = refl
digit_char (suc (suc (suc (suc (suc (suc zero)))))) h = refl
digit_char (suc (suc (suc (suc (suc (suc (suc zero))))))) h = refl
digit_char (suc (suc (suc (suc (suc (suc (suc (suc zero)))))))) h = refl
digit_char (suc (suc (suc (suc (suc (suc (suc (suc (suc zero))))))))) h = refl
digit_char (suc (suc (suc (suc (suc (suc (suc (suc (suc (suc k)))))))))) h = absurd (omega arith)

pub scan-append : (xs ys : List ℕ) (n : ℕ) → scan n (xs ++ ys) ≡ scan (scan n xs) ys
unfolding scan
scan-append [] ys n = refl
scan-append (x ∷ xs) ys n = scan-append xs ys (n * 10 + (x - b'0'))

-- With room for all its digits a number is scanned back.
pub scan-low_digits :
    (w : Width) (room k v : ℕ)
    → v < 2 ^ bits w
    → v < 10 ^ k
    → k ≤ room
    → scan 0 (reverse (low_digits w room v)) ≡ v
unfolding low_digits scan
scan-low_digits w zero zero v h small fits = omega arith
scan-low_digits w zero (suc k) v h small fits = absurd (omega arith)
scan-low_digits w (suc room) zero v h small fits = ground arith
scan-low_digits w (suc room) (suc k) v h small fits = elim (Bool-cases (v == 0)) [
  | inl e ↦ rw e (ground arith)
  | inr e ↦
      let q : quotient w v ≡ v / 10 = quotient_lem w v h in
      let c = char_at digits (9 + (v - quotient w v * 10)) in
      let last : c ≡ b'0' + v % 10 = rw q (
        ap (λ k. char_at digits (9 + k)) {x = v - v / 10 * 10} {y = v % 10} (omega arith)
        ∙ digit_char (v % 10) (omega arith)) in
      let rest : scan 0 (reverse (low_digits w room (quotient w v))) ≡ v / 10 = rw q (
        scan-low_digits w room k (v / 10) (omega arith) (omega (arith, pow-suc 10 k))
          (omega arith)) in
      rw
        (
          e,
          reverse-cons c (low_digits w room (quotient w v)),
          scan-append (reverse (low_digits w room (quotient w v))) (c ∷ []) 0,
          rest,
          last,
        )
        (omega arith)
]

pub length_digits :
    (w : Width) (room k v : ℕ) → v < 2 ^ bits w → v < 10 ^ k → length (low_digits w room v) ≤ k
unfolding low_digits
length_digits w zero k v h small = omega arith
length_digits w (suc room) zero v h small = ground arith
length_digits w (suc room) (suc k) v h small =
    let q : quotient w v ≡ v / 10 = quotient_lem w v h in
    rw q (ground (arith, pow-suc 10 k, length_digits w room k (v / 10)))

abbrev pub IsDigits : List ℕ → Type 0
IsDigits cs = All (λ c. b'0' ≤ c) cs

pub low_digits-IsDigits : (w : Width) (room v : ℕ) → v < 2 ^ bits w → IsDigits (low_digits w room v)
unfolding low_digits
low_digits-IsDigits w zero v h = tt
low_digits-IsDigits w (suc room) v h = elim (Bool-cases (v == 0)) [
  | inl e ↦ rw e tt
  | inr e ↦
      let q : quotient w v ≡ v / 10 = quotient_lem w v h in
      rw (e, q)
        (
          omega (
            arith,
            ap (λ k. char_at digits (9 + k)) {x = v - v / 10 * 10} {y = v % 10} (omega arith),
            digit_char (v % 10) (omega arith),
          ),
          low_digits-IsDigits w room (v / 10) (omega arith),
        )
]

pub reverse-IsDigits : (cs : List ℕ) → IsDigits cs → IsDigits (reverse cs)
reverse-IsDigits [] h = tt
reverse-IsDigits (c ∷ cs) h =
    rw (reverse-cons c cs)
      (All-append (λ d. b'0' ≤ d) (reverse cs) (c ∷ []) (reverse-IsDigits cs h.1) (h.0, tt))

pub read_back-digits : (cs : List ℕ) → IsDigits cs → read_back cs ≡ pos (scan 0 cs)
unfolding read_back scan
read_back-digits [] h = refl
read_back-digits (c ∷ cs) h = ground arith

pub negate_positive : (n : ℕ) → 0 < n → negate n ≡ negsuc (n - 1)
unfolding negate
negate_positive zero h = absurd (omega arith)
negate_positive (suc n) h = ap negsuc (omega arith)

pub magnitude_lem :
    (w : Width) (s : Bool) (value : ℕ)
    → value < 2 ^ bits w
    → magnitude (record { width = w; is_signed = s }) value ≡ (
        if is_negative (record { width = w; is_signed = s }) value
        then 2 ^ bits w - value
        else value)
unfolding magnitude
magnitude_lem w8 s value h = ground arith
magnitude_lem w16 s value h = ground arith
magnitude_lem w32 s value h = ground arith
magnitude_lem w64 s value h = ground arith

pub magnitude-lt :
    (w : Width) (s : Bool) (value : ℕ)
    → value < 2 ^ bits w
    → magnitude (record { width = w; is_signed = s }) value < 2 ^ bits w
unfolding magnitude
magnitude-lt w8 s value h = ground arith
magnitude-lt w16 s value h = ground arith
magnitude-lt w32 s value h = ground arith
magnitude-lt w64 s value h = ground arith

pub signed : (cs : List ℕ) → read_back (b'-' ∷ cs) ≡ negate (scan 0 cs)
unfolding read_back
signed cs = refl
