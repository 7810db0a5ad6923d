-- ===== src/Net/TimeWheel/Expiry.antt =====
-- net/tcp_conn_timer.cc: how long a slot lives after it was put into the wheel.
use tiny_rpc.Prelude.{
  ℕ, zero, suc, ◌≤◌, ◌<◌, ◌≡◌, refl, ap, sym, ◌∙◌, ◌+◌, arith, if◌then◌else◌, true, false, not,
  ◌||◌, ◌&&◌, List, [], ◌∷◌, ◌++◌, Option, some, replicate, length, length-append, drop,
  append_assoc, append-nil, drop-append_le, length-drop, eq-nil, take, ◌==◌,
}
use tiny_rpc.Prelude.Maybe.{◌>>=◌}
use tiny_rpc.Net.TimeWheel.{Wheel, time_wheel, contains, holds, fresh, destroyed, loop_func}

-- `n` ticks of the timer, with no connection refreshed in between; the destroyed slots in order.
unfoldable pub ticks : ℕ → Wheel → Option (List ℕ × Wheel)
ticks zero w = some ([], w)
ticks (suc n) w = do (gone, w') ← loop_func w; (more, w'') ← ticks n w'; some (gone ++ more, w'')

contains-append :
    (xs ys : List ℕ) (s : ℕ) → contains (xs ++ ys) s ≡ (contains xs s || contains ys s)
contains-append [] ys s = refl
contains-append (x ∷ xs) ys s = ground (arith, contains-append xs ys s)

holds-append : (v w : Wheel) (s : ℕ) → holds (v ++ w) s ≡ (holds v s || holds w s)
holds-append [] w s = refl
holds-append (b ∷ v) w s = ground (arith, holds-append v w s)

-- A slot of a dropped bucket is destroyed exactly when the wheel does not hold it.
contains-destroyed :
    (b : List ℕ) (w : Wheel) (s : ℕ)
    → contains (destroyed b w) s ≡ (contains b s && not (holds w s))
unfolding destroyed
contains-destroyed [] w s = refl
contains-destroyed (x ∷ b) w s = ground (arith, contains-destroyed b w s)

-- How often a list has a slot.
pub count : ℕ → List ℕ → ℕ
count s [] = 0
count s (x ∷ xs) = if x == s then suc (count s xs) else count s xs

count-append : (s : ℕ) (xs ys : List ℕ) → count s (xs ++ ys) ≡ count s xs + count s ys
unfolding count
count-append s [] ys = omega arith
count-append s (x ∷ xs) ys = ground (arith, count-append s xs ys)

count-destroyed :
    (b : List ℕ) (w : Wheel) (s : ℕ)
    → count s (destroyed b w) ≡ (if contains b s && not (holds w s) then 1 else 0)
unfolding destroyed count
count-destroyed [] w s = refl
count-destroyed (x ∷ b) w s = ground (arith, count-destroyed b w s)

holds_parts : (n : ℕ) (w : Wheel) (s : ℕ) → holds w s ≡ (holds (take n w) s || holds (drop n w) s)
holds_parts zero w s = refl
holds_parts (suc n) [] s = refl
holds_parts (suc n) (b ∷ w) s = ground (arith, holds_parts n w s)

take_first : {A : Type 0} (xs ys : List A) (n : ℕ) → n ≤ length xs → take n (xs ++ ys) ≡ take n xs
take_first xs ys zero h = refl
take_first [] ys (suc n) h = absurd (omega arith)
take_first (x ∷ xs) ys (suc n) h = ap (λ t. x ∷ t) (take_first xs ys n (omega arith))

-- In a wheel with at least `n` buckets, `n` ticks destroy a slot exactly if one of the first `n`
-- buckets holds it and no later one does, and then exactly once; they leave the later buckets in
-- their order, with `n` empty ones behind. No slot is put in meanwhile, and nothing but the wheel
-- owns a slot.
pub ticks_lem :
    (n s : ℕ) (w : Wheel)
    → n ≤ length w
    → (gone : List ℕ) × (ticks n w ≡ some (gone, drop n w ++ time_wheel n))
      × (count s gone ≡ (if holds (take n w) s && not (holds (drop n w) s) then 1 else 0))
unfolding ticks loop_func time_wheel count
ticks_lem zero s w h = ([], ap (λ t. some ([], t)) (sym (append-nil w)), refl)
ticks_lem (suc n) s [] h = absurd (omega arith)
ticks_lem (suc n) s (b ∷ bs) h =
    let (gone, e, once) =
      ticks_lem n s (bs ++ [] ∷ []) (omega (arith, length-append bs ([] ∷ []))) in
    let later : drop n (bs ++ [] ∷ []) ≡ drop n bs ++ [] ∷ [] =
      drop-append_le bs ([] ∷ []) n (omega arith) in
    (
      destroyed b bs ++ gone,
      rw e (
          ap (λ t. some (destroyed b bs ++ gone, t))
            (ap (λ t. t ++ replicate n []) later
              ∙ append_assoc (drop n bs) ([] ∷ []) (replicate n []))),
      count-append s (destroyed b bs) gone ∙ rest gone b bs n (omega arith) once,
    )
  where
    rest :
        (gone b : List ℕ) (bs : Wheel) (n : ℕ)
        → n ≤ length bs
        → count s gone ≡ (
            if holds (take n (bs ++ [] ∷ [])) s && not (holds (drop n (bs ++ [] ∷ [])) s)
            then 1
            else 0)
        → count s (destroyed b bs) + count s gone
          ≡ (if (contains b s || holds (take n bs) s) && not (holds (drop n bs) s) then 1 else 0)
    rest gone b bs n h once =
        let first : take n (bs ++ [] ∷ []) ≡ take n bs = take_first bs ([] ∷ []) n h in
        let later : drop n (bs ++ [] ∷ []) ≡ drop n bs ++ [] ∷ [] =
          drop-append_le bs ([] ∷ []) n h in
        let now : holds (take n (bs ++ [] ∷ [])) s ≡ holds (take n bs) s =
          ap (λ t. holds t s) first in
        let then_ : holds (drop n (bs ++ [] ∷ [])) s ≡ (holds (drop n bs) s || false) =
          ap (λ t. holds t s) later ∙ holds-append (drop n bs) ([] ∷ []) s in
        ground (arith, once, now, then_, count-destroyed b bs s, holds_parts n bs s)

-- A fresh slot goes to the last bucket.
fresh_last :
    (s : ℕ) (w : Wheel)
    → 0 < length w
    → (v : Wheel) × (b : List ℕ) × (fresh s w ≡ some (v ++ (b ++ s ∷ []) ∷ []))
      × (suc (length v) ≡ length w)
unfolding fresh
fresh_last s [] h = absurd (omega arith)
fresh_last s (b ∷ []) h = ([], b, refl, refl)
fresh_last s (b ∷ c ∷ bs) h =
    let (v, d, e, l) = fresh_last s (c ∷ bs) (omega arith) in (b ∷ v, d, rw e, omega arith)

holds_last : (v u : Wheel) (b : List ℕ) (s : ℕ) → holds ((v ++ (b ++ s ∷ []) ∷ []) ++ u) s ≡ true
holds_last v u b s = ground (
  arith,
  holds-append (v ++ (b ++ s ∷ []) ∷ []) u s,
  holds-append v ((b ++ s ∷ []) ∷ []) s,
  contains-append b (s ∷ []) s,
)

-- In a wheel with more than `n` buckets, a slot put in by `fresh` is still held after `n` ticks,
-- and after as many ticks as there are buckets every bucket is empty, if no slot is put in
-- meanwhile.
pub fresh_lives :
    (n s : ℕ) (w : Wheel)
    → n < length w
    → (w' w'' : Wheel) × (gone all : List ℕ) × (fresh s w ≡ some w')
      × (ticks n w' ≡ some (gone, w''))
      × (holds w'' s ≡ true)
      × (ticks (length w) w' ≡ some (all, time_wheel (length w)))
fresh_lives n s w h =
    let (v, b, e, l) = fresh_last s w (omega arith) in
    let w' : Wheel = v ++ (b ++ s ∷ []) ∷ [] in
    let size : length w' ≡ length w = omega (arith, length-append v ((b ++ s ∷ []) ∷ [])) in
    let (gone, t, once) = ticks_lem n s w' (omega arith) in
    let (all, t', each) = ticks_lem (length w) s w' (omega arith) in
    (
      w',
      drop n w' ++ time_wheel n,
      gone,
      all,
      e,
      t,
      rw (drop-append_le v ((b ++ s ∷ []) ∷ []) n (omega arith))
          (holds_last (drop n v) (time_wheel n) b s),
      t' ∙ ap (λ d. some (all, d ++ time_wheel (length w))) (nothing_left (length w) w' size),
    )
  where
    nothing_left : (k : ℕ) (u : Wheel) → length u ≡ k → drop k u ≡ []
    nothing_left k u q = eq-nil (drop k u) (omega (arith, length-drop k u))
