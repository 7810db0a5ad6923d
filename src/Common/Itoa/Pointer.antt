-- ===== src/Common/Itoa/Pointer.antt =====
-- common/string.hpp, ptrtoa: the text read back.
use tiny_rpc.Prelude.{
  ℕ, zero, suc, ◌+◌, ◌-◌, ◌*◌, ◌/◌, ◌%◌, ◌^◌, ◌≤◌, ◌<◌, ◌≡◌, refl, arith, List, [], ◌∷◌, ◌++◌,
  reverse, ltb, ◌==◌, if◌then◌else◌, Bool-cases, inl, inr,
}
use mathlib.Core.List.{reverse-cons}
use native.Mathlib.Nat.{pow-suc}
use tiny_rpc.Common.Itoa.{digits_hex, char_at, low_digits_hex, ptrtoa}

-- A text of lower-case hexadecimal digits as a number.
abbrev pub hex_value : ℕ → ℕ
hex_value c = if ltb c b'a' then c - b'0' else c - b'a' + 10

unfoldable pub scan_hex : ℕ → List ℕ → ℕ
scan_hex n [] = n
scan_hex n (c ∷ cs) = scan_hex (n * 16 + hex_value c) cs

hex_char : (k : ℕ) → k < 16 → hex_value (char_at digits_hex k) ≡ k
hex_char zero h = refl
hex_char (suc zero) h = refl
hex_char (suc (suc zero)) h = refl
hex_char (suc (suc (suc zero))) h = refl
hex_char (suc (suc (suc (suc zero)))) h = refl
hex_char (suc (suc (suc (suc (suc zero))))) h = refl
hex_char (suc (suc (suc (suc (suc (suc zero)))))) h = refl
hex_char (suc (suc (suc (suc (suc (suc (suc zero))))))) h = refl
hex_char (suc (suc (suc (suc (suc (suc (suc (suc zero)))))))) h = refl
hex_char (suc (suc (suc (suc (suc (suc (suc (suc (suc zero))))))))) h = refl
hex_char (suc (suc (suc (suc (suc (suc (suc (suc (suc (suc zero)))))))))) h = refl
hex_char (suc (suc (suc (suc (suc (suc (suc (suc (suc (suc (suc zero))))))))))) h = refl
hex_char (suc (suc (suc (suc (suc (suc (suc (suc (suc (suc (suc (suc zero)))))))))))) h = refl
hex_char (suc (suc (suc (suc (suc (suc (suc (suc (suc (suc (suc (suc (suc zero))))))))))))) h = refl
hex_char (suc (suc (suc (suc (suc (suc (suc (suc (suc (suc (suc (suc (suc (suc zero))))))))))))))
      h =
    refl
hex_char
      (suc (suc (suc (suc (suc (suc (suc (suc (suc (suc (suc (suc (suc (suc (suc zero)))))))))))))))
      h =
    refl
hex_char
      (suc
        (suc (suc (suc (suc (suc (suc (suc (suc (suc (suc (suc (suc (suc (suc (suc k))))))))))))))))
      h =
    absurd (omega arith)

scan_hex-append : (xs ys : List ℕ) (n : ℕ) → scan_hex n (xs ++ ys) ≡ scan_hex (scan_hex n xs) ys
unfolding scan_hex
scan_hex-append [] ys n = refl
scan_hex-append (x ∷ xs) ys n = scan_hex-append xs ys (n * 16 + hex_value x)

scan_hex-low_digits_hex :
    (room k v : ℕ) → v < 16 ^ k → k ≤ room → scan_hex 0 (reverse (low_digits_hex room v)) ≡ v
unfolding low_digits_hex scan_hex
scan_hex-low_digits_hex zero zero v small fits = omega arith
scan_hex-low_digits_hex zero (suc k) v small fits = absurd (omega arith)
scan_hex-low_digits_hex (suc room) zero v small fits = ground arith
scan_hex-low_digits_hex (suc room) (suc k) v small fits = elim (Bool-cases (v == 0)) [
  | inl e ↦ rw e (ground arith)
  | inr e ↦
      let c = char_at digits_hex (v - v / 16 * 16) in
      let place : v - v / 16 * 16 ≡ v % 16 = omega arith in
      let last : hex_value c ≡ v % 16 = rw place (hex_char (v % 16) (omega arith)) in
      let high = low_digits_hex room (v / 16) in
      let rest : scan_hex 0 (reverse high) ≡ v / 16 =
        scan_hex-low_digits_hex room k (v / 16) (omega (arith, pow-suc 16 k)) (omega arith) in
      rw (e, reverse-cons c high, scan_hex-append (reverse high) (c ∷ []) 0, rest, last)
        (omega arith)
]

-- The text of a pointer is read back as its pattern, in a buffer with one byte more than its
-- hexadecimal digits take.
pub ptrtoa_lem :
    (maxlen k value : ℕ) → value < 16 ^ k → k < maxlen → scan_hex 0 (ptrtoa maxlen value) ≡ value
unfolding ptrtoa
ptrtoa_lem maxlen k value small fits =
    scan_hex-low_digits_hex (maxlen - 1) k value small (omega arith)
