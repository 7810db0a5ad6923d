-- ===== src/Common/Coroutine/Pool.antt =====
-- common/coroutine/coroutine_pool.h and coroutine_pool.cc: the coroutines that a thread keeps for
-- use, each with the mark that it has been given out. `none` is a null pointer that is used, an
-- index outside the vector, or a stack that the allocator refuses.
pub mod Dispatch
pub mod Growth
use tiny_rpc.Prelude.{
  ℕ, zero, suc, ◌+◌, ◌-◌, ◌*◌, ◌/◌, Bool, true, false, not, ◌&&◌, List, [], ◌∷◌, ◌++◌, Option, none,
  some, length, get_elem?, set, replicate, ltb, ◌==◌, if◌then◌else◌,
}
use tiny_rpc.Prelude.Maybe.{◌>>=◌, ◌>>◌, require}
use tiny_rpc.Common.Coroutine.{Thread, Coctx, coroutine, get_coroutine_index}

-- A `shared_ptr` and the mark.
abbrev pub Entry : Type 0
Entry = Option ℕ × Bool

pub record CoroutinePool : Type 0 where
  pub index : ℕ
  pub pool_size : ℕ
  pub stack_size : ℕ
  pub free_cors : List Entry

-- `m_free_cors[i] = e`.
unfoldable pub put_entry : ℕ → Entry → List Entry → Option (List Entry)
put_entry i e cors = require (ltb i (length cors)) >> some (set cors i e)

-- The mark of an entry whose pointer is not null, and whether its callback runs: the test of the
-- loop.
unfoldable pub is_free : {World Task : Type 0} → Thread World Task → Entry → Option Bool
is_free t (none, taken) = none
is_free t (some p, taken) = some (not (t.coroutines p).is_in_cofunc && not taken)

-- `(int)(1.5 * m_pool_size)`.
abbrev pub new_size : CoroutinePool → ℕ
new_size pool = pool.pool_size * 3 / 2

module _ {World Task : Type 0} where
  -- The first loop of `getCoroutineInstanse`, from the index `i` on: the place of a free entry.
  unfoldable pub find_free : ℕ → ℕ → List Entry → Thread World Task → Option (Option ℕ)
  find_free zero i cors t = some none
  find_free (suc count) i cors t = do
    entry ← get_elem? cors i
    free ← is_free t entry
    let rest = find_free count (suc i) cors t in if free then some (some i) else rest

module _ {World Task : Type 0} (malloc : ℕ → World → Option ℕ × World) (registers : Coctx) where
  unfoldable pub fill :
      ℕ → ℕ → ℕ → List Entry → Thread World Task → Option (List Entry × Thread World Task)
  fill stack_size zero i cors t = some (cors, t)
  fill stack_size (suc count) i cors t = do
    (p, t') ← coroutine malloc stack_size registers t
    cors' ← put_entry i (some p, false) cors
    fill stack_size count (suc i) cors' t'

  unfoldable pub coroutine_pool :
      ℕ → ℕ → Thread World Task → Option (CoroutinePool × Thread World Task)
  coroutine_pool pool_size stack_size t = do
    let at = get_coroutine_index t
    let index = if at == 0 then 1 else at
    (cors, t') ← fill stack_size pool_size index (replicate (pool_size + index) (none, false)) t
    some (
      record { index = index; pool_size = pool_size; stack_size = stack_size; free_cors = cors },
      t',
    )

  -- The second loop: each new coroutine takes a place from the front and is put at the end too.
  unfoldable pub grow :
      ℕ → ℕ → ℕ → List Entry → Thread World Task → Option (List Entry × Thread World Task)
  grow stack_size zero i cors t = some (cors, t)
  grow stack_size (suc count) i cors t = do
    (p, t') ← coroutine malloc stack_size registers t
    cors' ← put_entry i (some p, false) cors
    grow stack_size count (suc i) (cors' ++ (some p, false) ∷ []) t'

  unfoldable pub get_coroutine_instanse :
      CoroutinePool → Thread World Task → Option (Option ℕ × (CoroutinePool × Thread World Task))
  get_coroutine_instanse pool t = do
    found ← find_free (pool.pool_size - pool.index) pool.index pool.free_cors t
    elim found [
      | some i ↦ (do
        entry ← get_elem? pool.free_cors i
        some (entry.0, (record pool { free_cors = set pool.free_cors i (entry.0, true) }, t)))
      | none ↦ (do
        (cors, t') ← grow pool.stack_size (new_size pool - pool.pool_size) 0 pool.free_cors t
        entry ← get_elem? cors pool.pool_size
        some (entry.0, (record pool { pool_size = new_size pool; free_cors = cors }, t')))
    ]

unfoldable pub return_coroutine : ℕ → CoroutinePool → Option CoroutinePool
return_coroutine cor_id pool = do
  entry ← get_elem? pool.free_cors cor_id
  cors ← put_entry cor_id (entry.0, false) pool.free_cors
  some (record pool { free_cors = cors })
