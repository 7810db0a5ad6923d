-- ===== src/Net/IoThread/Sweeping.antt =====
-- net/io_thread.cc, MainLoopTimerFunc: closed connections are let go.
use tiny_rpc.Prelude.{
  ℕ, ◌<◌, true, false, List, [], ◌∷◌, Option, none, some, ltb, if◌then◌else◌, ◌≡◌, refl, sym, ◌∙◌,
  arith, inl, inr, All, length, get_elem?, set, length-set, Bool-cases, subst, suc, zero,
}
use tiny_rpc.Common.Coroutine.Pool.{CoroutinePool, Entry, return_coroutine, put_entry}
use tiny_rpc.Net.TcpConnection.{TcpConnection}
use tiny_rpc.Net.IoThread.{IoThread, Clients, is_dead, reset, sweep, main_loop_timer_func}

entry_at : (cors : List Entry) (i : ℕ) → i < length cors → (e : Entry) × (get_elem? cors i ≡ some e)
entry_at [] i h = absurd (omega arith)
entry_at (c ∷ cs) zero h = (c, refl)
entry_at (c ∷ cs) (suc i) h = entry_at cs i (omega arith)

return_coroutine_lem :
    (id : ℕ) (pool : CoroutinePool)
    → id < length pool.free_cors
    → (pool' : CoroutinePool) × (return_coroutine id pool ≡ some pool')
      × (length pool'.free_cors ≡ length pool.free_cors)
unfolding return_coroutine put_entry
return_coroutine_lem id pool inside =
    let (e, at) = entry_at pool.free_cors id inside in
    let room : ltb id (length pool.free_cors) ≡ true = ground arith in
    (
      record pool { free_cors = set pool.free_cors id (e.0, false) },
      rw (at, room) refl,
      length-set pool.free_cors id (e.0, false),
    )

-- The map with the pointers to closed connections reset.
abbrev pub without_closed : (ℕ → TcpConnection) → Clients → Clients
without_closed conns [] = []
without_closed conns ((fd, conn) ∷ m) =
    (fd, if is_dead conns conn then none else conn) ∷ without_closed conns m

-- The coroutine of a connection has its place in a pool of so many entries.
abbrev pub IsReturnable : (ℕ → ℕ) → ℕ → ℕ × Option ℕ → Type 0
IsReturnable cor_id room (fd, none) = Unit {0}
IsReturnable cor_id room (fd, some conn) = cor_id conn < room

module _ {World Task : Type 0} where
  abbrev pub cor_id_of : IoThread World Task → ℕ → ℕ
  cor_id_of s conn = (s.net.cors.coroutines (s.loop_coroutine conn)).cor_id

  reset_lem :
      (fd : ℕ) (conn : Option ℕ) (s : IoThread World Task)
      → IsReturnable (cor_id_of s) (length s.pool.free_cors) (fd, conn)
      → (pool : CoroutinePool) × (reset conn s ≡ some (record s { pool = pool }))
        × (length pool.free_cors ≡ length s.pool.free_cors)
  unfolding reset
  reset_lem fd none s h = (s.pool, refl, refl)
  reset_lem fd (some conn) s h =
      let (pool, given, same) = return_coroutine_lem (cor_id_of s conn) s.pool h in
      (pool, rw given refl, same)

  sweep_lem :
      (m : Clients) (s : IoThread World Task)
      → All (IsReturnable (cor_id_of s) (length s.pool.free_cors)) m
      → (pool : CoroutinePool) × (sweep m s
          ≡ some (without_closed s.conns m, record s { pool = pool }))
        × (length pool.free_cors ≡ length s.pool.free_cors)
  unfolding sweep
  sweep_lem [] s h = (s.pool, refl, refl)
  sweep_lem ((fd, conn) ∷ m) s h = elim (Bool-cases (is_dead s.conns conn)) [
    | inl dead ↦
        let (pool, freed, same) = reset_lem fd conn s h.0 in
        let (pool', rest, same') =
          sweep_lem m (record s { pool = pool })
            (subst (λ k. All (IsReturnable (cor_id_of s) k) m) (sym same) h.1) in
        (pool', rw (dead, freed, rest) refl, same' ∙ same)
    | inr kept ↦ let (pool, rest, same) = sweep_lem m s h.1 in (pool, rw (kept, rest) refl, same)
  ]

  -- If the coroutine of every connection in the map has its place in the pool,
  -- `MainLoopTimerFunc` does not fault: the pointers to closed connections are reset, all other
  -- clients stay, and besides the map only the pool changes, and not the number of its entries.
  pub main_loop_timer_func_lem :
      (s : IoThread World Task)
      → All (IsReturnable (cor_id_of s) (length s.pool.free_cors)) s.clients
      → (pool : CoroutinePool) × (main_loop_timer_func s
          ≡ some (record s { pool = pool; clients = without_closed s.conns s.clients }))
        × (length pool.free_cors ≡ length s.pool.free_cors)
  unfolding main_loop_timer_func
  main_loop_timer_func_lem s h =
      let (pool, swept, same) = sweep_lem s.clients s h in (pool, rw swept refl, same)
