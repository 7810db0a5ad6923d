-- ===== src/Common/Coroutine/Pool/Dispatch.antt =====
-- common/coroutine/coroutine_pool.cc, getCoroutineInstanse and returnCoroutine where an entry is
-- free.
use tiny_rpc.Prelude.{
  ℕ, zero, suc, ◌+◌, ◌-◌, ◌≤◌, ◌<◌, Bool, true, false, List, [], ◌∷◌, Option, none, some, get_elem?,
  set, length-set, Option-cases, length, ◌≡◌, refl, ap, ◌∙◌, arith, ltb, Bool-cases, inl, inr, ◌==◌,
}
use tiny_rpc.Prelude.Maybe.{◌>>=◌}
use tiny_rpc.Common.Coroutine.{Thread, Coctx}
use tiny_rpc.Common.Coroutine.Pool.{
  CoroutinePool, Entry, is_free, find_free, get_coroutine_instanse, return_coroutine, put_entry,
}

module _ {World Task : Type 0} where
  -- What the loop finds at a place.
  abbrev pub free_at : List Entry → Thread World Task → ℕ → Option Bool
  free_at cors t i = do entry ← get_elem? cors i; is_free t entry

  skip :
      (count i : ℕ) (cors : List Entry) (t : Thread World Task)
      → free_at cors t i ≡ some false
      → find_free (suc count) i cors t ≡ find_free count (suc i) cors t
  unfolding find_free
  skip count i cors t busy = ground arith

  hit :
      (count i : ℕ) (cors : List Entry) (t : Thread World Task)
      → free_at cors t i ≡ some true
      → find_free (suc count) i cors t ≡ some (some i)
  unfolding find_free
  hit count i cors t free = ground arith

  pub find_free_first :
      (count i k : ℕ) (cors : List Entry) (t : Thread World Task)
      → i ≤ k
      → k < i + count
      → ((j : ℕ) → i ≤ j → j < k → free_at cors t j ≡ some false)
      → free_at cors t k ≡ some true
      → find_free count i cors t ≡ some (some k)
  find_free_first zero i k cors t low high busy found = absurd (omega arith)
  find_free_first (suc count) i k cors t low high busy found = elim (Bool-cases (i == k)) [
    | inl same ↦ let e : i ≡ k = ground arith in rw e (hit count k cors t found)
    | inr other ↦
        skip count i cors t (busy i (omega arith) (ground arith))
        ∙ find_free_first count (suc i) k cors t (ground arith) (omega arith)
            (λ j above below. busy j (omega arith) below) found
  ]

  pub find_free_all_busy :
      (count i : ℕ) (cors : List Entry) (t : Thread World Task)
      → ((j : ℕ) → i ≤ j → j < i + count → free_at cors t j ≡ some false)
      → find_free count i cors t ≡ some none
  unfolding find_free
  find_free_all_busy zero i cors t busy = refl
  find_free_all_busy (suc count) i cors t busy =
      skip count i cors t (busy i (omega arith) (omega arith))
      ∙ find_free_all_busy count (suc i) cors t
          (λ j above below. busy j (omega arith) (omega arith))

pub get_elem?-set :
    {A : Type 0} (xs : List A) (i : ℕ) (v : A) → i < length xs → get_elem? (set xs i v) i ≡ some v
get_elem?-set [] i v h = absurd (omega arith)
get_elem?-set (x ∷ xs) zero v h = refl
get_elem?-set (x ∷ xs) (suc i) v h = get_elem?-set xs i v (omega arith)

pub set-set_back :
    {A : Type 0} (xs : List A) (i : ℕ) (u v : A)
    → get_elem? xs i ≡ some u
    → set (set xs i v) i u ≡ xs
set-set_back [] i u v h = refl
set-set_back (x ∷ xs) zero u v h = ap (λ y. y ∷ xs) (cc)
set-set_back (x ∷ xs) (suc i) u v h = ap (λ t. x ∷ t) (set-set_back xs i u v h)

pub get_elem?_inside :
    {A : Type 0} (xs : List A) (i : ℕ) (u : A) → get_elem? xs i ≡ some u → i < length xs
get_elem?_inside [] i u h = cc
get_elem?_inside (x ∷ xs) zero u h = omega arith
get_elem?_inside (x ∷ xs) (suc i) u h = omega (arith, get_elem?_inside xs i u h)

module _ {World Task : Type 0} (malloc : ℕ → World → Option ℕ × World) (registers : Coctx) where
  free_entry :
      (t : Thread World Task) (e : Entry)
      → is_free t e ≡ some true
      → (p : ℕ) × (e ≡ (some p, false))
  unfolding is_free
  free_entry t (none, taken) free = ground arith
  free_entry t (some p, true) free = ground arith
  free_entry t (some p, false) free = (p, refl)

  found_entry :
      (cors : List Entry) (t : Thread World Task) (k : ℕ)
      → free_at cors t k ≡ some true
      → (p : ℕ) × (get_elem? cors k ≡ some (some p, false))
  found_entry cors t k free = elim (Option-cases (get_elem? cors k)) [
    | inl outside ↦ ground arith
    | inr (entry, at) ↦ let (p, is_p) = free_entry t entry (ground arith) in (p, at ∙ ap some is_p)
  ]

  -- `getCoroutineInstanse` gives the first coroutine from the pool's index on that is not given
  -- out and does not run, if there is one below the pool's size and no null pointer before it;
  -- that entry alone changes, by its mark.
  pub get_coroutine_instanse_lem :
      (pool : CoroutinePool) (t : Thread World Task) (k : ℕ)
      → pool.index ≤ k
      → k < pool.pool_size
      → ((j : ℕ) → pool.index ≤ j → j < k → free_at pool.free_cors t j ≡ some false)
      → free_at pool.free_cors t k ≡ some true
      → (p : ℕ) × (get_elem? pool.free_cors k ≡ some (some p, false))
        × (get_coroutine_instanse malloc registers pool t
            ≡ some (some p, (record pool { free_cors = set pool.free_cors k (some p, true) }, t)))
  unfolding get_coroutine_instanse
  get_coroutine_instanse_lem pool t k low high busy free =
      let (p, at) = found_entry pool.free_cors t k free in
      (
        p,
        at,
        rw (
          find_free_first (pool.pool_size - pool.index) pool.index k pool.free_cors t low
              (omega arith) busy free,
          at,
        ),
      )

  -- If some entry between the pool's index and its size is free, and all before it from the index
  -- on are given out or run, `returnCoroutine` of its place, after `getCoroutineInstanse` has
  -- given it, makes the pool what it was.
  pub return_coroutine-get_coroutine_instanse :
      (pool : CoroutinePool) (t : Thread World Task) (k : ℕ)
      → pool.index ≤ k
      → k < pool.pool_size
      → ((j : ℕ) → pool.index ≤ j → j < k → free_at pool.free_cors t j ≡ some false)
      → free_at pool.free_cors t k ≡ some true
      → (do given ← get_coroutine_instanse malloc registers pool t; return_coroutine k given.1.0)
        ≡ some pool
  unfolding return_coroutine put_entry
  return_coroutine-get_coroutine_instanse pool t k low high busy free =
      let (p, at, given) = get_coroutine_instanse_lem pool t k low high busy free in
      let inside = get_elem?_inside pool.free_cors k (some p, false) at in
      let room : ltb k (length (set pool.free_cors k (some p, true))) ≡ true =
        ground (arith, length-set pool.free_cors k (some p, true)) in
      rw (
        given,
        get_elem?-set pool.free_cors k (some p, true) inside,
        room,
        set-set_back pool.free_cors k (some p, false) (some p, true) at,
      )
