-- ===== src/Net/IoThread.antt =====
-- net/io_thread.h and io_thread.cc: the connections that a thread serves, and the pool of
-- threads. Connections live in a store under numbers; the map of clients holds the only shared
-- pointer to each, a number or the null pointer. `none` is a fault of a part that is used, or a
-- pool without threads.
pub mod Clients
pub mod Dealing
pub mod Sweeping
mod Tests
use tiny_rpc.Prelude.{
  ℕ, zero, suc, ◌+◌, Bool, true, false, not, List, [], ◌∷◌, Option, none, some, ltb, ◌==◌,
  if◌then◌else◌,
}
use tiny_rpc.Prelude.Int.{ℤ, pos, negsuc}
use tiny_rpc.Prelude.Maybe.{◌>>=◌, ◌>>◌, require}
use tiny_rpc.Common.Coroutine.{Coctx, set_call_back}
use tiny_rpc.Common.Coroutine.Pool.{CoroutinePool, get_coroutine_instanse, return_coroutine}
use tiny_rpc.Net.Reactor.{add_task}
use tiny_rpc.Net.CoroutineHook.{NetThread}
use tiny_rpc.Net.TcpConnection.{
  TcpConnection, Transport, is_closed, server_side, register_to_time_wheel,
}

abbrev pub Clients : Type 0
Clients = List (ℕ × Option ℕ)

pub record IoThread (World Task : Type 0) : Type 0 where
  pub net : NetThread World Task
  pub pool : CoroutinePool
  pub clients : Clients
  pub conns : ℕ → TcpConnection
  -- The address of a connection's coroutine.
  pub loop_coroutine : ℕ → ℕ
  pub next_conn : ℕ
  pub next_slot : ℕ

-- `clients_.find`.
unfoldable pub find_client : ℕ → Clients → Option (Option ℕ)
find_client fd [] = none
find_client fd ((f, conn) ∷ m) = let rest = find_client fd m in if f == fd then some conn else rest

-- `clients_.insert` of a new key, by rising keys, or `it->second = conn`.
unfoldable pub put_client : ℕ → Option ℕ → Clients → Clients
put_client fd conn [] = (fd, conn) ∷ []
put_client fd conn ((f, old) ∷ m) =
    let rest = put_client fd conn m in
    if f == fd
    then (f, conn) ∷ m
    else if ltb fd f
    then (fd, conn) ∷ (f, old) ∷ m
    else (f, old) ∷ rest

-- Whether a pointer is to a connection that is closed, and to one that is not.
unfoldable pub is_dead : (ℕ → TcpConnection) → Option ℕ → Bool
is_dead conns none = false
is_dead conns (some conn) = is_closed (conns conn).state

unfoldable pub is_alive : (ℕ → TcpConnection) → Option ℕ → Bool
is_alive conns none = false
is_alive conns (some conn) = not (is_closed (conns conn).state)

module _ {World Task : Type 0} where
  -- `reset` of the only pointer: the destructor of a server's connection gives its coroutine back.
  unfoldable pub reset : Option ℕ → IoThread World Task → Option (IoThread World Task)
  reset none s = some s
  reset (some conn) s = do
    pool ← return_coroutine (s.net.cors.coroutines (s.loop_coroutine conn)).cor_id s.pool
    some (record s { pool = pool })

  module _ (t : Transport (NetThread World Task)) (malloc : ℕ → Unit {0} → Option ℕ × Unit {0})
      (registers : Coctx) (entry : ℕ) (loop_task resume_task : ℕ → Task) where
    -- `TcpConnection(tcp_svr, this, fd, 128, peer_addr)`.
    unfoldable pub new_connection : ℕ → IoThread World Task → Option (ℕ × IoThread World Task)
    new_connection fd s = do
      let conn = s.next_conn
      (given, (pool, cors)) ← get_coroutine_instanse malloc registers s.pool s.net.cors
      cor ← given
      (is_set, cors') ← set_call_back entry cor (some (loop_task conn)) cors
      some (
        conn,
        record s {
          net = record s.net {
            cors = cors';
            reactor = add_task (some (resume_task cor)) true s.net.reactor;
          };
          pool = pool;
          conns = λ q. if conn == q then server_side fd 128 else s.conns q;
          loop_coroutine = λ q. if conn == q then cor else s.loop_coroutine q;
          next_conn = suc conn;
        },
      )

    -- The connection that is made, put into the map and registered.
    unfoldable pub add_new : ℕ → IoThread World Task → Option (IoThread World Task)
    add_new fd s = do
      (conn, s') ← new_connection fd s
      (c, net) ← register_to_time_wheel t s'.next_slot (s'.conns conn) s'.net
      some (record s' {
        net = net;
        clients = put_client fd (some conn) s'.clients;
        conns = λ q. if conn == q then c else s'.conns q;
        next_slot = suc s'.next_slot;
      })

    unfoldable pub add_client : ℕ → IoThread World Task → Option (Bool × IoThread World Task)
    add_client fd s = elim (find_client fd s.clients) [
      | none ↦ (do s' ← add_new fd s; some (true, s'))
      | some old ↦
          let replaced = (do freed ← reset old s; s' ← add_new fd freed; some (true, s')) in
          if is_alive s.conns old then some (false, s) else replaced
    ]

  -- The loop of `MainLoopTimerFunc`: the map after it, and the thread.
  unfoldable pub sweep : Clients → IoThread World Task → Option (Clients × IoThread World Task)
  sweep [] s = some ([], s)
  sweep ((fd, conn) ∷ m) s =
      let dead = do s' ← reset conn s; (m', s'') ← sweep m s'; some ((fd, none) ∷ m', s'')
      in let kept = do (m', s') ← sweep m s; some ((fd, conn) ∷ m', s')
        in if is_dead s.conns conn then dead else kept

  unfoldable pub main_loop_timer_func : IoThread World Task → Option (IoThread World Task)
  main_loop_timer_func s = do
    (clients, s') ← sweep s.clients s
    some (record s' { clients = clients })

pub record IoThreadPool : Type 0 where
  pub size : ℕ
  pub index : ℤ

unfoldable pub io_thread_pool : ℕ → IoThreadPool
io_thread_pool size = record { size = size; index = negsuc 0 }

-- The place of the thread, and the pool.
unfoldable pub get_io_thread : IoThreadPool → Option (ℕ × IoThreadPool)
get_io_thread p = elim p.index [
  | negsuc k ↦
      if k == 0 then require (ltb 0 p.size) >> some (0, record p { index = pos 1 }) else none
  | pos i ↦
      let j = if i == p.size then 0 else i in
      require (ltb j p.size) >> some (j, record p { index = pos (suc j) })
]
