-- ===== src/Async/TaskContainer/Counts.antt =====
-- How often a number stands in a list of slot numbers, and what splicing does to the list.
use tiny_rpc.Prelude.{
  ℕ, zero, suc, ◌+◌, ◌≡◌, ◌≢◌, ◌<◌, ◌≤◌, refl, sym, ap, ◌∙◌, arith, some, List, [], ◌∷◌, ◌++◌,
  append_assoc, append-nil, leb, ltb, ◌==◌, if◌then◌else◌,
}
use tiny_rpc.Async.TaskContainer.{begin, next, remove, splice_each, indices, last}

abbrev pub count : ℕ → List ℕ → ℕ
count x [] = 0
count x (i ∷ is) = (if i == x then 1 else 0) + count x is

pub count-append : (x : ℕ) (is js : List ℕ) → count x (is ++ js) ≡ count x is + count x js
count-append x [] js = omega arith
count-append x (i ∷ is) js = omega (arith, count-append x is js)

pub count-remove :
    (x p : ℕ) (is : List ℕ)
    → 0 < count p is
    → count x (remove p is) + (if p == x then 1 else 0) ≡ count x is
unfolding remove
count-remove x p [] present = absurd (omega arith)
count-remove x p (i ∷ is) present = ground (arith, count-remove x p is)

pub remove-append :
    (p : ℕ) (is js : List ℕ) → 0 < count p is → remove p (is ++ js) ≡ remove p is ++ js
unfolding remove
remove-append p [] js present = absurd (omega arith)
remove-append p (i ∷ is) js present = ground (arith, remove-append p is js)

-- The node after one that no earlier node equals.
pub next-append : (p : ℕ) (is js : List ℕ) → count p is ≡ 0 → next p (is ++ p ∷ js) ≡ begin js
unfolding next
next-append p [] js absent = ground arith
next-append p (i ∷ is) js absent = ground (arith, next-append p is js)

-- All of some nodes, one after the other.
pub remove_each : List ℕ → List ℕ → List ℕ
remove_each [] is = is
remove_each (p ∷ ps) is = remove_each ps (remove p is)

rest_present :
    (p : ℕ) (ps is : List ℕ)
    → ((x : ℕ) → count x (p ∷ ps) ≤ count x is)
    → (x : ℕ) → count x ps ≤ count x (remove p is)
rest_present p ps is present x = ground (arith, present x, present p, count-remove x p is)

pub splice_each-append :
    (ps is js : List ℕ)
    → ((x : ℕ) → count x ps ≤ count x is)
    → splice_each ps (is ++ js) ≡ remove_each ps is ++ (js ++ ps)
unfolding splice_each remove_each
splice_each-append [] is js present = ap (λ t. is ++ t) (sym (append-nil js))
splice_each-append (p ∷ ps) is js present =
    let found : 0 < count p is = ground (arith, present p) in
    ap (λ t. splice_each ps (t ++ p ∷ [])) (remove-append p is js found)
    ∙ ap (splice_each ps) (append_assoc (remove p is) js (p ∷ []))
    ∙ splice_each-append ps (remove p is) (js ++ p ∷ []) (λ x. rest_present p ps is present x)
    ∙ ap (λ t. remove_each ps (remove p is) ++ t) (append_assoc js (p ∷ []) ps)

pub count-remove_each :
    (x : ℕ) (ps is : List ℕ)
    → ((y : ℕ) → count y ps ≤ count y is)
    → count x (remove_each ps is) + count x ps ≡ count x is
unfolding remove_each
count-remove_each x [] is present = omega arith
count-remove_each x (p ∷ ps) is present = ground (
  arith,
  present p,
  count-remove x p is,
  count-remove_each x ps (remove p is) (rest_present p ps is present),
)

pub count-indices :
    (x i n : ℕ) → count x (indices i n) ≡ (if leb i x then (if ltb x (i + n) then 1 else 0) else 0)
unfolding indices
count-indices x i zero = ground arith
count-indices x i (suc n) = ground (arith, count-indices x (i + 1) n)

count-last : (p : ℕ) (is : List ℕ) → last is ≡ some p → 0 < count p is
unfolding last
count-last p [] e = absurd (cc)
count-last p (i ∷ []) e = ground arith
count-last p (i ∷ j ∷ is) e = omega (arith, count-last p (j ∷ is) e)

-- The last node of a list that has one, and what follows it when nodes are added.
pub next-last :
    (is js : List ℕ)
    → ((x : ℕ) → count x is ≤ 1)
    → is ≢ []
    → (p : ℕ) × (last is ≡ some p) × (next p (is ++ js) ≡ begin js)
unfolding last next
next-last [] js once nonempty = absurd (nonempty refl)
next-last (i ∷ []) js once nonempty = (i, refl, ground arith)
next-last (i ∷ j ∷ is) js once nonempty =
    let (p, at, after) = next-last (j ∷ is) js (λ x. omega (arith, once x)) (λ e. cc) in
    (p, at, ground (arith, once i, count-last p (j ∷ is) at, after))
