-- ===== src/Net/TcpBuffer/Memory.antt =====
-- `memcpy` out of a vector and into one; `none` where it would leave the vector.
use tiny_rpc.Prelude.{
  ℕ, zero, suc, ◌+◌, ◌-◌, ◌≤◌, ◌≡◌, refl, ap, sym, ◌∙◌, arith, List, [], ◌∷◌, ◌++◌, Option, none,
  some, length, take, drop, leb, if◌then◌else◌, length-append, length-take, length-drop,
  take-append, append_assoc, min, drop-drop, drop-append_le,
}

unfoldable pub copy_out : List ℕ → ℕ → ℕ → Option (List ℕ)
copy_out v i n = if leb (i + n) (length v) then some (take n (drop i v)) else none

-- `bytes` over the elements of `v` from the index `i` on.
abbrev pub overlay : List ℕ → ℕ → List ℕ → List ℕ
overlay v i bytes = take i v ++ (bytes ++ drop (i + length bytes) v)

unfoldable pub copy_in : List ℕ → ℕ → List ℕ → Option (List ℕ)
copy_in v i bytes = if leb (i + length bytes) (length v) then some (overlay v i bytes) else none

pub copy_out_fits :
    (v : List ℕ) (i n : ℕ) → i + n ≤ length v → copy_out v i n ≡ some (take n (drop i v))
unfolding copy_out
copy_out_fits v i n h = ground arith

pub copy_in_fits :
    (v : List ℕ) (i : ℕ) (bytes : List ℕ)
    → i + length bytes ≤ length v
    → copy_in v i bytes ≡ some (overlay v i bytes)
unfolding copy_in
copy_in_fits v i bytes h = ground arith

pub length-overlay :
    (v : List ℕ) (i : ℕ) (bytes : List ℕ)
    → i + length bytes ≤ length v
    → length (overlay v i bytes) ≡ length v
length-overlay v i bytes h = omega (
  arith,
  length-append (take i v) (bytes ++ drop (i + length bytes) v),
  length-append bytes (drop (i + length bytes) v),
  length-take i v,
  length-drop (i + length bytes) v,
)

-- The elements between two indices.
abbrev pub segment : List ℕ → ℕ → ℕ → List ℕ
segment v i n = take n (drop i v)

pub length-segment : (v : List ℕ) (i n : ℕ) → i + n ≤ length v → length (segment v i n) ≡ n
length-segment v i n h = omega (arith, length-take n (drop i v), length-drop i v)

take-nil : (n : ℕ) → ◌≡◌ {A = List ℕ} (take n []) []
take-nil zero = refl
take-nil (suc n) = refl

pub take-take : (m n : ℕ) (xs : List ℕ) → take m (take n xs) ≡ take (min m n) xs
take-take zero n xs = ap (λ k. take k xs) {x = 0} {y = min 0 n} (omega arith)
take-take (suc m) zero xs =
    take-nil (suc m) ∙ ap (λ k. take k xs) {x = 0} {y = min (suc m) 0} (omega arith)
take-take (suc m) (suc n) [] = sym (take-nil (min (suc m) (suc n)))
take-take (suc m) (suc n) (x ∷ xs) =
    let e : min (suc m) (suc n) ≡ suc (min m n) = omega arith in
    rw e (ap (λ t. x ∷ t) (take-take m n xs))

pub drop-take : (m n : ℕ) (xs : List ℕ) → drop m (take (m + n) xs) ≡ take n (drop m xs)
drop-take zero n xs = ap (λ k. take k xs) (omega arith)
drop-take (suc m) n [] = rw (take-nil (suc m + n)) (sym (take-nil n))
drop-take (suc m) n (x ∷ xs) =
    let e : suc m + n ≡ suc (m + n) = omega arith in rw e (drop-take m n xs)

-- What stands before an index and what stands from it on, written over.
pub segment-overlay :
    (v : List ℕ) (r w : ℕ) (bytes : List ℕ)
    → r ≤ w
    → w ≤ length v
    → segment (overlay v w bytes) r (w - r + length bytes) ≡ segment v r (w - r) ++ bytes
segment-overlay v r w bytes h k =
    rw
      (
        drop-append_le (take w v) (bytes ++ drop (w + length bytes) v) r
            (omega (arith, length-take w v)),
        front,
        ← append_assoc (segment v r (w - r)) bytes (drop (w + length bytes) v),
      )
      (take-append (segment v r (w - r) ++ bytes) (drop (w + length bytes) v) (w - r + length bytes)
        (omega (
          arith,
          length-append (segment v r (w - r)) bytes,
          length-segment v r (w - r) (omega arith),
        )))
  where
    front : drop r (take w v) ≡ segment v r (w - r)
    front =
        let e : w ≡ r + (w - r) = omega arith in
        ap (λ k. drop r (take k v)) e ∙ drop-take r (w - r) v

-- Bytes copied to the front of a vector.
pub segment-overlay_front :
    (v bytes : List ℕ) → segment (overlay v 0 bytes) 0 (length bytes) ≡ bytes
segment-overlay_front v bytes = take-append bytes (drop (0 + length bytes) v) (length bytes) refl

pub segment_inner :
    (v : List ℕ) (r k n : ℕ) → k ≤ n → segment v (r + k) (n - k) ≡ drop k (segment v r n)
segment_inner v r k n h =
    let e : n ≡ k + (n - k) = omega arith in
    rw (← drop-drop r k v)
      (sym (ap (λ t. drop k (take t (drop r v))) e ∙ drop-take k (n - k) (drop r v)))

take_plus : (m n : ℕ) (xs : List ℕ) → take (m + n) xs ≡ take m xs ++ take n (drop m xs)
take_plus zero n xs = ap (λ k. take k xs) (omega arith)
take_plus (suc m) n [] = rw (take-nil (suc m + n)) (sym (take-nil n))
take_plus (suc m) n (x ∷ xs) =
    let e : suc m + n ≡ suc (m + n) = omega arith in rw e (ap (λ t. x ∷ t) (take_plus m n xs))

-- Two segments side by side.
pub segment_plus :
    (v : List ℕ) (r m n : ℕ) → segment v r (m + n) ≡ segment v r m ++ segment v (r + m) n
segment_plus v r m n = rw (← drop-drop r m v) (take_plus m n (drop r v))
