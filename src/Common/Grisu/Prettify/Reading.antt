-- ===== src/Common/Grisu/Prettify/Reading.antt =====
-- common/string.hpp, Prettify: the text read back.
use tiny_rpc.Prelude.{
  ℕ, zero, suc, ◌+◌, ◌-◌, ◌*◌, ◌^◌, ◌≡◌, ◌≤◌, ◌<◌, ◌⊎◌, inl, inr, refl, ap, ◌∙◌, arith, false, List,
  [], ◌∷◌, ◌++◌, append-nil, length, take, drop, replicate, All, All-append, ◌==◌, if◌then◌else◌,
}
use native.Mathlib.Nat.{pow-suc}
use tiny_rpc.Prelude.Int.{ℤ, pos, negsuc, sub_ℕ, ◌-ℤ◌}
use tiny_rpc.Common.Itoa.Reading.{scan, read_back}
use tiny_rpc.Common.Grisu.Prettify.{scientific, layout}

-- What stands before the first of a character in a text, and what stands after it.
pub before : ℕ → List ℕ → List ℕ
before c [] = []
before c (x ∷ xs) = if x == c then [] else x ∷ before c xs

pub after : ℕ → List ℕ → List ℕ
after c [] = []
after c (x ∷ xs) = if x == c then xs else after c xs

-- A text as a whole number times a power of ten: digits with a point among them, and an exponent.
pub read_decimal : List ℕ → ℕ × ℤ
read_decimal t =
    let mantissa = before b'e' t in
    (
      scan 0 (before b'.' mantissa ++ after b'.' mantissa),
      read_back (after b'e' t) -ℤ pos (length (after b'.' mantissa)),
    )

abbrev Lacks : ℕ → List ℕ → Type 0
Lacks c xs = All (λ x. (x == c) ≡ false) xs

abbrev pub AreDigits : List ℕ → Type 0
AreDigits ds = All (λ x. (b'0' ≤ x) × (x ≤ b'9')) ds

digits-Lacks : (c : ℕ) (ds : List ℕ) → (c ≡ b'.') ⊎ (c ≡ b'e') → AreDigits ds → Lacks c ds
digits-Lacks c [] other all = tt
digits-Lacks c (x ∷ xs) (inl e) all = (ground (arith, all.0), digits-Lacks c xs (inl e) all.1)
digits-Lacks c (x ∷ xs) (inr e) all = (ground (arith, all.0), digits-Lacks c xs (inr e) all.1)

pub zeros-AreDigits : (n : ℕ) → AreDigits (replicate n b'0')
zeros-AreDigits zero = tt
zeros-AreDigits (suc n) = (omega arith, zeros-AreDigits n)

before-Lacks : (c : ℕ) (xs : List ℕ) → Lacks c xs → before c xs ≡ xs
unfolding before
before-Lacks c [] l = refl
before-Lacks c (x ∷ xs) l = rw l.0 (ap (λ t. x ∷ t) (before-Lacks c xs l.1))

after-Lacks : (c : ℕ) (xs : List ℕ) → Lacks c xs → after c xs ≡ []
unfolding after
after-Lacks c [] l = refl
after-Lacks c (x ∷ xs) l = rw l.0 (after-Lacks c xs l.1)

before-append : (c : ℕ) (xs ys : List ℕ) → Lacks c xs → before c (xs ++ c ∷ ys) ≡ xs
unfolding before
before-append c [] ys l = ground arith
before-append c (x ∷ xs) ys l = rw l.0 (ap (λ t. x ∷ t) (before-append c xs ys l.1))

after-append : (c : ℕ) (xs ys : List ℕ) → Lacks c xs → after c (xs ++ c ∷ ys) ≡ ys
unfolding after
after-append c [] ys l = ground arith
after-append c (x ∷ xs) ys l = rw l.0 (after-append c xs ys l.1)

pub scan-zeros : (n i : ℕ) → scan n (replicate i b'0') ≡ n * 10 ^ i
unfolding scan
scan-zeros n zero = omega arith
scan-zeros n (suc i) =
    ap (λ m. scan m (replicate i b'0')) {x = n * 10 + 0} {y = n * 10} (omega arith)
    ∙ scan-zeros (n * 10) i
    ∙ rw pow-suc (grind arith)

-- Digits with a point among them.
pub read-point :
    (a b : List ℕ)
    → AreDigits a
    → AreDigits b
    → read_decimal (a ++ b'.' ∷ b) ≡ (scan 0 (a ++ b), pos 0 -ℤ pos (length b))
unfolding read_decimal read_back
read-point a b da db =
    let lacks : Lacks b'e' (a ++ b'.' ∷ b) =
      All-append _ a (b'.' ∷ b) (digits-Lacks b'e' a (inr refl) da)
        (refl, digits-Lacks b'e' b (inr refl) db) in
    let point = digits-Lacks b'.' a (inl refl) da in
    rw
      (
        before-Lacks b'e' (a ++ b'.' ∷ b) lacks,
        after-Lacks b'e' (a ++ b'.' ∷ b) lacks,
        before-append b'.' a b point,
        after-append b'.' a b point,
      )
      refl

-- The same, with an exponent behind.
pub read-exponent :
    (a b w : List ℕ)
    → AreDigits a
    → AreDigits b
    → read_decimal ((a ++ b'.' ∷ b) ++ b'e' ∷ w) ≡ (scan 0 (a ++ b), read_back w -ℤ pos (length b))
unfolding read_decimal
read-exponent a b w da db =
    let lacks : Lacks b'e' (a ++ b'.' ∷ b) =
      All-append _ a (b'.' ∷ b) (digits-Lacks b'e' a (inr refl) da)
        (refl, digits-Lacks b'e' b (inr refl) db) in
    let point = digits-Lacks b'.' a (inl refl) da in
    rw
      (
        before-append b'e' (a ++ b'.' ∷ b) w lacks,
        after-append b'e' (a ++ b'.' ∷ b) w lacks,
        before-append b'.' a b point,
        after-append b'.' a b point,
      )
      refl

-- Digits without a point, with an exponent behind.
pub read-single :
    (a w : List ℕ) → AreDigits a → read_decimal (a ++ b'e' ∷ w) ≡ (scan 0 a, read_back w -ℤ pos 0)
unfolding read_decimal
read-single a w da =
    let lacks = digits-Lacks b'e' a (inr refl) da in
    let point = digits-Lacks b'.' a (inl refl) da in
    rw
      (
        before-append b'e' a w lacks,
        after-append b'e' a w lacks,
        before-Lacks b'.' a point,
        after-Lacks b'.' a point,
        append-nil a,
      )
      refl

pub layout-whole :
    (ds : List ℕ) (p : ℕ)
    → length ds ≤ p
    → p ≤ 21
    → layout ds (pos p) ≡ ds ++ (replicate (p - length ds) b'0' ++ b'.' ∷ b'0' ∷ [])
unfolding layout
layout-whole ds p h small = ground arith

pub layout-point :
    (ds : List ℕ) (p : ℕ)
    → 0 < p
    → p < length ds
    → p ≤ 21
    → layout ds (pos p) ≡ take p ds ++ b'.' ∷ drop p ds
unfolding layout
layout-point ds p some_digit h small = ground arith

-- The zeros behind the point, for a number of digits before it that is not positive.
pub layout-below :
    (ds : List ℕ) (q : ℕ)
    → 0 < length ds
    → q ≤ 5
    → layout ds (sub_ℕ 0 q) ≡ b'0' ∷ b'.' ∷ (replicate q b'0' ++ ds)
unfolding layout
layout-below ds zero some_digit small = ground arith
layout-below ds (suc q) some_digit small = ground arith

pub layout-above : (ds : List ℕ) (p : ℕ) → 21 < p → layout ds (pos p) ≡ scientific ds (pos p)
unfolding layout
layout-above ds p h = ground arith

pub layout-far : (ds : List ℕ) (q : ℕ) → 4 < q → layout ds (negsuc q) ≡ scientific ds (negsuc q)
unfolding layout
layout-far ds q h = ground arith
