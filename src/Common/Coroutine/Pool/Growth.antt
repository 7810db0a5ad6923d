-- ===== src/Common/Coroutine/Pool/Growth.antt =====
-- common/coroutine/coroutine_pool.cc, getCoroutineInstanse where no entry is free: how the pool
-- grows.
use tiny_rpc.Prelude.{
  ℕ, zero, suc, ◌+◌, ◌-◌, ◌*◌, ◌/◌, ◌≤◌, ◌<◌, true, false, List, [], ◌∷◌, ◌++◌, Option, none, some,
  get_elem?, set, length, length-set, length-append, ◌≡◌, ◌≢◌, refl, ◌∙◌, arith, ltb, ◌==◌,
  Option-cases, Bool-cases, inl, inr,
}
use tiny_rpc.Common.Coroutine.{Thread, Coctx, coroutine, ensure_main, main_object}
use tiny_rpc.Common.Coroutine.Pool.{
  CoroutinePool, Entry, grow, get_coroutine_instanse, put_entry, new_size,
}
use tiny_rpc.Common.Coroutine.Pool.Dispatch.{free_at, find_free_all_busy, get_elem?-set}

get_elem?-set_other :
    {A : Type 0} (xs : List A) (i j : ℕ) (v : A)
    → (i == j) ≡ false
    → get_elem? (set xs i v) j ≡ get_elem? xs j
get_elem?-set_other [] i j v h = refl
get_elem?-set_other (x ∷ xs) zero zero v h = absurd (ground arith)
get_elem?-set_other (x ∷ xs) zero (suc j) v h = refl
get_elem?-set_other (x ∷ xs) (suc i) zero v h = refl
get_elem?-set_other (x ∷ xs) (suc i) (suc j) v h = get_elem?-set_other xs i j v (ground arith)

get_elem?-append :
    {A : Type 0} (xs ys : List A) (i : ℕ) → i < length xs → get_elem? (xs ++ ys) i ≡ get_elem? xs i
get_elem?-append [] ys i h = absurd (omega arith)
get_elem?-append (x ∷ xs) ys zero h = refl
get_elem?-append (x ∷ xs) ys (suc i) h = get_elem?-append xs ys i (omega arith)

-- The allocator never refuses a stack.
abbrev pub Allocates : {World : Type 0} → (ℕ → World → Option ℕ × World) → Type 0
Allocates {World} malloc = (size : ℕ) (w : World) → (sp : ℕ) × ((malloc size w).0 ≡ some sp)

-- An entry with a coroutine that was made after the addresses below `base` were given.
abbrev pub IsFresh : ℕ → List Entry → ℕ → Type 0
IsFresh base cors j = (p : ℕ) × (get_elem? cors j ≡ some (some p, false)) × (base ≤ p)

module _ {World Task : Type 0} (malloc : ℕ → World → Option ℕ × World) (registers : Coctx) where
  ensure_main_later : (t : Thread World Task) → t.next_address ≤ (ensure_main t).next_address
  unfolding ensure_main main_object
  ensure_main_later t = ground arith

  no_fault :
      (size : ℕ) (t : Thread World Task)
      → Allocates malloc
      → coroutine malloc size registers t ≢ none
  unfolding coroutine
  no_fault size t allocates eq = ground (arith, (allocates size (ensure_main t).world).1)

  addresses :
      (size : ℕ) (t t' : Thread World Task) (p : ℕ)
      → coroutine malloc size registers t ≡ some (p, t')
      → (t.next_address ≤ p) × (t.next_address ≤ t'.next_address)
  unfolding coroutine
  addresses size t t' p eq = ground (arith, ensure_main_later t)

  made :
      (size : ℕ) (t : Thread World Task)
      → Allocates malloc
      → (p : ℕ) × (t' : Thread World Task) × (coroutine malloc size registers t ≡ some (p, t'))
        × (t.next_address ≤ p)
        × (t.next_address ≤ t'.next_address)
  made size t allocates = elim (Option-cases (coroutine malloc size registers t)) [
    | inl fault ↦ absurd (no_fault size t allocates fault)
    | inr ((p, t'), eq) ↦ let (after, later) = addresses size t t' p eq in (p, t', eq, after, later)
  ]

  grow_lem :
      (size count i : ℕ) (cors : List Entry) (t : Thread World Task)
      → Allocates malloc
      → i + count ≤ length cors
      → (cors' : List Entry) × (t' : Thread World Task) × (grow malloc registers size count i cors t
          ≡ some (cors', t'))
        × ((j : ℕ) → j < i → get_elem? cors' j ≡ get_elem? cors j)
        × ((j : ℕ) → i ≤ j → j < i + count → IsFresh t.next_address cors' j)
        × ((j : ℕ) → i + count ≤ j → j < length cors → get_elem? cors' j ≡ get_elem? cors j)
  unfolding grow put_entry
  grow_lem size zero i cors t allocates room =
      (cors, t, refl, λ j below. refl, λ j above below. absurd (omega arith), λ j above below. refl)
  grow_lem size (suc count) i cors t allocates room =
      let (p, t1, eq, after, later) = made size t allocates in
      let cors1 = set cors i (some p, false) in
      let inside : ltb i (length cors) ≡ true = ground arith in
      let size1 = length-set cors i (some p, false) in
      let cors2 = cors1 ++ (some p, false) ∷ [] in
      let bigger = length-append cors1 ((some p, false) ∷ []) in
      let (cors', t', grown, front, middle, back) =
        grow_lem size count (suc i) cors2 t1 allocates (omega (arith, size1, bigger)) in
      let unchanged : (j : ℕ)
          → (i == j) ≡ false
          → j < length cors
          → get_elem? cors2 j ≡ get_elem? cors j =
        λ j other below.
          get_elem?-append cors1 ((some p, false) ∷ []) j (omega (arith, size1))
          ∙ get_elem?-set_other cors i j (some p, false) other in
      let placed : get_elem? cors2 i ≡ some (some p, false) =
        get_elem?-append cors1 ((some p, false) ∷ []) i (omega (arith, size1))
        ∙ get_elem?-set cors i (some p, false) (omega arith) in
      (
        cors',
        t',
        rw (eq, inside) grown,
        λ j below. front j (omega arith) ∙ unchanged j (ground arith) (omega arith),
        λ j above below. elim (Bool-cases (i == j)) [
          | inl same ↦
              let e : i ≡ j = ground arith in rw (← e) (p, front i (omega arith) ∙ placed, after)
          | inr other ↦
              let (q, at, fresh) = middle j (ground arith) (omega arith) in (q, at, omega arith)
        ],
        λ j above below.
            back j (omega arith) (omega (arith, size1, bigger)) ∙ unchanged j (ground arith) below,
      )

  -- Where every coroutine between the pool's index and its size is given out or runs, the vector
  -- is longer than the size, the index is no larger than it, and the allocator never refuses,
  -- `getCoroutineInstanse` gives the coroutine of the entry at the place of the old size and does
  -- not mark that entry, whose mark stays what it was; at each place below half of the old size the
  -- entry, which may be in use, is replaced by a new unmarked coroutine; the size grows by half.
  pub get_coroutine_instanse_grows :
      (pool : CoroutinePool) (t : Thread World Task)
      → Allocates malloc
      → pool.pool_size < length pool.free_cors
      → pool.index ≤ pool.pool_size
      → ((j : ℕ) → pool.index ≤ j → j < pool.pool_size → free_at pool.free_cors t j ≡ some false)
      → (e : Entry) × (pool' : CoroutinePool) × (t' : Thread World Task) × (get_coroutine_instanse
            malloc registers pool t
          ≡ some (e.0, (pool', t')))
        × (get_elem? pool.free_cors pool.pool_size ≡ some e)
        × (get_elem? pool'.free_cors pool.pool_size ≡ some e)
        × (pool'.pool_size ≡ pool.pool_size + pool.pool_size / 2)
        × ((j : ℕ) → j < pool.pool_size / 2 → IsFresh t.next_address pool'.free_cors j)
  unfolding get_coroutine_instanse
  get_coroutine_instanse_grows pool t allocates room low busy =
      let count = pool.pool_size * 3 / 2 - pool.pool_size in
      let (cors', t', grown, front, middle, back) =
        grow_lem pool.stack_size count 0 pool.free_cors t allocates (omega arith) in
      let same = back pool.pool_size (omega arith) room in
      let (e, at) = entry_at pool.free_cors pool.pool_size room in
      (
        e,
        record pool { pool_size = new_size pool; free_cors = cors' },
        t',
        rw
            (
              find_free_all_busy (pool.pool_size - pool.index) pool.index pool.free_cors t
                  (λ j above below. busy j above (omega arith)),
              grown,
              same,
              at,
            )
            refl,
        at,
        same ∙ at,
        omega arith,
        λ j below. middle j (omega arith) (omega arith),
      )
    where
      entry_at :
          (cors : List Entry) (i : ℕ) → i < length cors → (e : Entry) × (get_elem? cors i ≡ some e)
      entry_at [] i h = absurd (omega arith)
      entry_at (c ∷ cs) zero h = (c, refl)
      entry_at (c ∷ cs) (suc i) h = entry_at cs i (omega arith)
