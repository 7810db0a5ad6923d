-- ===== src/Net/TcpServer.antt =====
-- net/tcp_server.h and tcp_server.cc: accepting connections and handing them to the threads.
-- `accept` is the call of `accept_hook`, which gives a descriptor and the peer's address, or -1;
-- `yield` is what happens until the accepting coroutine is resumed. `none` is a fault in one of
-- these, or a pool without threads.
pub mod Accepting
use tiny_rpc.Prelude.{ℕ, zero, suc, Bool, true, false, Option, none, some, ◌==◌, if◌then◌else◌}
use tiny_rpc.Prelude.Int.{ℤ, pos, negsuc}
use tiny_rpc.Prelude.Maybe.{◌>>=◌}
use tiny_rpc.Net.Reactor.{Reactor, add_task}
use tiny_rpc.Net.IoThread.{IoThreadPool, get_io_thread}

-- AF_INET, AF_UNIX, and any other.
pub data Family : Type 0 where
  inet local_socket unknown : Family

pub record TcpServer (World Task Address : Type 0) : Type 0 where
  pub family : Family
  pub listen_fd : ℕ
  pub peer_addr : Option Address
  pub tcp_counts : ℕ
  pub io_pool : IoThreadPool
  -- The reactor of each thread of the pool.
  pub reactors : ℕ → Reactor World Task

abbrev pub is_known : Family → Bool
is_known unknown = false
is_known _ = true

module _ {S World Task Address : Type 0} (accept : ℕ → S → Option ((ℤ × Address) × S))
    (sys_close : ℤ → S → S) (yield_to_main : S → Option S) (client_task : ℕ → ℤ → Task) where
  -- The cases of `toAccept` once `accept_hook` has returned.
  unfoldable pub accepted :
      ℤ → Address → TcpServer World Task Address → S → Option ℤ × (TcpServer World Task Address × S)
  accepted (negsuc zero) addr v s = (none, (v, s))
  accepted rt addr v s =
      if is_known v.family
      then (some rt, (record v { peer_addr = some addr }, s))
      else (none, (v, sys_close rt s))

  -- `none` for the result -1.
  unfoldable pub to_accept :
      TcpServer World Task Address → S → Option (Option ℤ × (TcpServer World Task Address × S))
  to_accept v s = do ((rt, addr), s') ← accept v.listen_fd s; some (accepted rt addr v s')

  -- A client for the next thread of the pool.
  unfoldable pub dispatch : ℤ → TcpServer World Task Address → Option (TcpServer World Task Address)
  dispatch fd v = do
    (i, io_pool) ← get_io_thread v.io_pool
    some (record v {
      io_pool = io_pool;
      reactors = λ j.
          if i == j then add_task (some (client_task i fd)) true (v.reactors j) else v.reactors j;
      tcp_counts = suc v.tcp_counts;
    })

  -- One round of the loop of `MainAcceptCorFunc`, which nothing stops.
  unfoldable pub accept_round :
      TcpServer World Task Address → S → Option (TcpServer World Task Address × S)
  accept_round v s = do
    (fd, (v', s')) ← to_accept v s
    elim fd [
      | none ↦ (do s'' ← yield_to_main s'; some (v', s''))
      | some rt ↦ (do v'' ← dispatch rt v'; some (v'', s'))
    ]

  unfoldable pub accept_rounds :
      ℕ → TcpServer World Task Address → S → Option (TcpServer World Task Address × S)
  accept_rounds zero v s = some (v, s)
  accept_rounds (suc rounds) v s = do (v', s') ← accept_round v s; accept_rounds rounds v' s'
