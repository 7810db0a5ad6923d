-- ===== src/Common/Grisu/Prettify/RoundTrip.antt =====
-- common/string.hpp, Prettify: the text stands for the digits times the power of ten.
use tiny_rpc.Prelude.{
  ℕ, zero, suc, ◌+◌, ◌-◌, ◌*◌, ◌^◌, ◌≡◌, ◌≤◌, ◌<◌, inl, inr, sym, ap, ap₂, ◌∙◌, arith, false, List,
  [], ◌∷◌, ◌++◌, append_assoc, length, length-append, length-drop, length-replicate, take, drop,
  take-append-drop, replicate, All-append, leb, ltb, ◌==◌, if◌then◌else◌, Bool-cases,
}
use native.Mathlib.Nat.{pow-suc}
use tiny_rpc.Prelude.Int.{ℤ, pos, negsuc, pos_part, neg_part, sub_ℕ, ◌+ℤ◌, ◌-ℤ◌}
use tiny_rpc.Common.Itoa.Reading.{scan, read_back, scan-append}
use tiny_rpc.Common.Grisu.Exponent.{write_exponent}
use tiny_rpc.Common.Grisu.Exponent.Reading.{write_exponent_lem}
use tiny_rpc.Common.Grisu.Prettify.{scientific, layout, prettify}
use tiny_rpc.Common.Grisu.Prettify.Reading.{
  read_decimal, AreDigits, zeros-AreDigits, read-point, read-exponent, read-single, scan-zeros,
  layout-whole, layout-point, layout-below, layout-above, layout-far,
}

exponent_back : (x : ℤ) → pos_part x < 999 → neg_part x < 1000 → read_back (write_exponent x) ≡ x
exponent_back (pos k) small small' = (write_exponent_lem k small).0
exponent_back (negsuc k) small small' = (write_exponent_lem k (omega arith)).1

scientific_lem :
    (d : ℕ) (rest : List ℕ) (kk : ℤ)
    → AreDigits (d ∷ rest)
    → pos_part (kk -ℤ pos 1) < 999
    → neg_part (kk -ℤ pos 1) < 1000
    → read_decimal (scientific (d ∷ rest) kk)
      ≡ (scan 0 (d ∷ rest), (kk -ℤ pos 1) -ℤ pos (length rest))
unfolding scientific
scientific_lem d [] kk digits small small' =
    read-single (d ∷ []) (write_exponent (kk -ℤ pos 1)) digits
    ∙ ap (λ x. (scan 0 (d ∷ []), x -ℤ pos 0)) (exponent_back (kk -ℤ pos 1) small small')
scientific_lem d (d' ∷ rest) kk digits small small' =
    let several : (length (d ∷ d' ∷ rest) == 1) ≡ false = ground arith in
    rw several (
      read-exponent (d ∷ []) (d' ∷ rest) (write_exponent (kk -ℤ pos 1)) (digits.0, tt) digits.1
      ∙ ap (λ x. (scan 0 (d ∷ d' ∷ rest), x -ℤ pos (length (d' ∷ rest))))
          (exponent_back (kk -ℤ pos 1) small small'))

-- The number that a text of digits with a power of ten stands for. Where the text is the whole
-- number itself, the power has gone into its digits, and one zero stands behind the point.
abbrev pub expected : List ℕ → ℤ → ℕ × ℤ
expected ds (pos k) =
    if leb (length ds + k) 21 then (scan 0 ds * 10 ^ (k + 1), negsuc 0) else (scan 0 ds, pos k)
expected ds (negsuc k) = (scan 0 ds, negsuc k)

take-AreDigits : (n : ℕ) (ds : List ℕ) → AreDigits ds → AreDigits (take n ds)
take-AreDigits zero ds digits = tt
take-AreDigits (suc n) [] digits = tt
take-AreDigits (suc n) (d ∷ ds) digits = (digits.0, take-AreDigits n ds digits.1)

drop-AreDigits : (n : ℕ) (ds : List ℕ) → AreDigits ds → AreDigits (drop n ds)
drop-AreDigits zero ds digits = digits
drop-AreDigits (suc n) [] digits = tt
drop-AreDigits (suc n) (d ∷ ds) digits = drop-AreDigits n ds digits.1

minus : (n m : ℕ) → 0 < n → m ≡ n - 1 → pos 0 -ℤ pos n ≡ negsuc m
minus n m some_left e = ground arith

-- All digits, and zeros up to the point.
read_whole :
    (ds : List ℕ) (k : ℕ)
    → AreDigits ds
    → length ds + k ≤ 21
    → read_decimal (layout ds (pos (length ds + k))) ≡ (scan 0 ds * 10 ^ (k + 1), negsuc 0)
unfolding scan
read_whole ds k digits small =
    let zeros : List ℕ = replicate k b'0' in
    ap read_decimal (
      layout-whole ds (length ds + k) (omega arith) small
      ∙ ap (λ n. ds ++ (replicate n b'0' ++ b'.' ∷ b'0' ∷ [])) {y = k} (omega arith)
      ∙ sym (append_assoc ds zeros (b'.' ∷ b'0' ∷ [])))
    ∙ read-point (ds ++ zeros) (b'0' ∷ []) (All-append _ ds zeros digits (zeros-AreDigits k))
        (omega arith)
    ∙ ap (λ n. (n, negsuc 0))
        (scan-append (ds ++ zeros) (b'0' ∷ []) 0
          ∙ ap (λ n. n * 10 + 0) (scan-append ds zeros 0 ∙ scan-zeros (scan 0 ds) k)
          ∙ sym (
              ap (λ e. scan 0 ds * 10 ^ e) {x = k + 1} {y = suc k} (omega arith)
              ∙ rw pow-suc (grind arith)))

-- The point among the digits.
read_among :
    (ds : List ℕ) (p : ℕ)
    → AreDigits ds
    → 0 < p
    → p < length ds
    → p ≤ 21
    → read_decimal (layout ds (pos p)) ≡ (scan 0 ds, negsuc (length ds - p - 1))
read_among ds p digits some_digit inside small =
    ap read_decimal (layout-point ds p some_digit inside small)
    ∙ read-point (take p ds) (drop p ds) (take-AreDigits p ds digits) (drop-AreDigits p ds digits)
    ∙ ap₂ (λ m x. (m, x)) (ap (scan 0) (take-append-drop p ds))
        (minus (length (drop p ds)) _ (omega (arith, length-drop {0} p ds))
          (omega (arith, length-drop {0} p ds)))

-- Zeros before the digits.
read_below :
    (ds : List ℕ) (q : ℕ)
    → AreDigits ds
    → 0 < length ds
    → q ≤ 5
    → read_decimal (layout ds (sub_ℕ 0 q)) ≡ (scan 0 ds, negsuc (q + length ds - 1))
unfolding scan
read_below ds q digits some_digit small =
    let zeros : List ℕ = replicate q b'0' in
    ap read_decimal (layout-below ds q some_digit small)
    ∙ read-point (b'0' ∷ []) (zeros ++ ds) (omega arith)
        (All-append _ zeros ds (zeros-AreDigits q) digits)
    ∙ ap₂ (λ m x. (m, x))
        (scan-append zeros ds 0 ∙ ap (λ n. scan n ds) (scan-zeros 0 q ∙ omega arith))
        (minus (length (zeros ++ ds)) _ (omega (arith, length-append {0} zeros ds))
          (omega (arith, length-append {0} zeros ds, length-replicate {0} {A = ℕ} q b'0')))

-- A negative power that leaves digits before the point.
read_inside :
    (d : ℕ) (rest : List ℕ) (j : ℕ)
    → AreDigits (d ∷ rest)
    → suc j < length (d ∷ rest)
    → length (d ∷ rest) < 1000
    → read_decimal (layout (d ∷ rest) (pos (length (d ∷ rest)) +ℤ negsuc j))
      ≡ (scan 0 (d ∷ rest), negsuc j)
read_inside d rest j digits inside small =
    let ds : List ℕ = d ∷ rest in
    let p : ℕ = length ds - suc j in
    let kk : pos (length ds) +ℤ negsuc j ≡ pos p = ground arith in
    ap (λ n. read_decimal (layout ds n)) kk ∙ elim (Bool-cases (leb p 21)) [
      | inl short ↦
          read_among ds p digits (omega arith) (omega arith) (ground arith)
          ∙ ap (λ m. (scan 0 ds, negsuc m)) {x = length ds - p - 1} {y = j} (omega arith)
      | inr long ↦
          ap read_decimal (layout-above ds p (ground arith))
          ∙ scientific_lem d rest (pos p) digits (ground arith) (ground arith)
          ∙ ap (λ x. (scan 0 ds, x)) (ground arith)
    ]

-- A negative power that leaves none.
read_before :
    (d : ℕ) (rest : List ℕ) (j : ℕ)
    → AreDigits (d ∷ rest)
    → length (d ∷ rest) ≤ suc j
    → length (d ∷ rest) + suc j < 1000
    → read_decimal (layout (d ∷ rest) (pos (length (d ∷ rest)) +ℤ negsuc j))
      ≡ (scan 0 (d ∷ rest), negsuc j)
read_before d rest j digits below small =
    let ds : List ℕ = d ∷ rest in
    let q : ℕ = suc j - length ds in
    let kk : pos (length ds) +ℤ negsuc j ≡ sub_ℕ 0 q = ground arith in
    elim (Bool-cases (leb q 5)) [
      | inl few ↦
          ap (λ n. read_decimal (layout ds n)) kk
          ∙ read_below ds q digits (omega arith) (ground arith)
          ∙ ap (λ m. (scan 0 ds, negsuc m)) {x = q + length ds - 1} {y = j} (omega arith)
      | inr many ↦
          let far : pos (length ds) +ℤ negsuc j ≡ negsuc (q - 1) = ground arith in
          ap (λ n. read_decimal (layout ds n)) far
          ∙ ap read_decimal (layout-far ds (q - 1) (ground arith))
          ∙ scientific_lem d rest (negsuc (q - 1)) digits (ground arith) (ground arith)
          ∙ ap (λ x. (scan 0 ds, x)) (ground arith)
    ]

-- The text that Prettify writes for some digits and a power of ten, read back as a number with a
-- point and an exponent, stands for the digits times that power: exactly these digits and this
-- power, or, where it is a whole number of at most 21 digits, the digits with the zeros of the
-- power and one more behind them, times a tenth. Conditions: the characters are digits, there is
-- at least one, and their number together with the magnitude of the power, whether it is positive
-- or negative, is below 1000.
pub prettify_lem :
    (d : ℕ) (rest : List ℕ) (k : ℤ)
    → AreDigits (d ∷ rest)
    → length (d ∷ rest) + pos_part k < 1000
    → length (d ∷ rest) + neg_part k < 1000
    → read_decimal (prettify (d ∷ rest) k) ≡ expected (d ∷ rest) k
unfolding prettify
prettify_lem d rest (pos k) digits small small' =
    let ds : List ℕ = d ∷ rest in
    let kk : pos (length ds) +ℤ pos k ≡ pos (length ds + k) = ground arith in
    ap (λ n. read_decimal (layout ds n)) kk ∙ elim (Bool-cases (leb (length ds + k) 21)) [
      | inl whole ↦ rw whole (read_whole ds k digits (ground arith))
      | inr long ↦ rw long (
          ap read_decimal (layout-above ds (length ds + k) (ground arith))
          ∙ scientific_lem d rest (pos (length ds + k)) digits (ground arith) (ground arith)
          ∙ ap (λ x. (scan 0 ds, x)) (ground arith))
    ]
prettify_lem d rest (negsuc j) digits small small' =
    elim (Bool-cases (ltb (suc j) (length (d ∷ rest)))) [
      | inl inside ↦ read_inside d rest j digits (ground arith) (omega arith)
      | inr below ↦ read_before d rest j digits (ground arith) (omega arith)
    ]
